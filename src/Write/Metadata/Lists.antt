-- ===== src/Write/Metadata/Lists.antt =====
-- A block list of the To file, and the same headers in a copy of it (src/block.rs, src/write.rs).
use mrimgx_consolidate.Base.{
  ℕ, suc, ◌+◌, ◌≤◌, ◌<◌, ◌≡◌, ◌∙◌, refl, ap, subst, true, false, List, [], ◌∷◌, ◌++◌, some, inl,
  inr, length, length-append, slice, slice-slice, slice-appended, ok, arith,
}
use mrimgx_consolidate.Base.Bytes.{Bytes}
use mrimgx_consolidate.Block.{
  MetadataBlockHeader, Located, header_len, end_of, read_exact, parse_header, read_header,
}
use mrimgx_consolidate.Block.Walk.{Chain}
use mrimgx_consolidate.Reader.{first?, last?}
use mrimgx_consolidate.Write.Source.{read_exact-slice, read_exact-append_more}
use mrimgx_consolidate.Write.Metadata.Ranges.{IsCopied}

-- `n` bytes of `file` from `s` on stand in `out` from `s'` on.
abbrev pub Embeds : Bytes → ℕ → Bytes → ℕ → ℕ → Type 0
Embeds file s out s' n =
    (i m : ℕ)
    → 0 < m
    → i + m ≤ n
    → (b : Bytes) × (read_exact file (s + i) m ≡ ok b) × (read_exact out (s' + i) m ≡ ok b)

pub Embeds-append :
    (file : Bytes) (s : ℕ) (out more : Bytes) (s' n : ℕ)
    → Embeds file s out s' n
    → Embeds file s (out ++ more) s' n
Embeds-append file s out more s' n e i m some_bytes fits =
    let (b, read, copied) = e i m some_bytes fits in
    (b, read, read_exact-append_more out more (s' + i) m b copied)

pub IsCopied-Embeds :
    (file : Bytes) (s n : ℕ) (out out' : Bytes) (s' : ℕ)
    → length out ≡ s'
    → IsCopied file s n out out'
    → Embeds file s out' s' n
IsCopied-Embeds file s n out out' s' at c i m some_bytes fits = elim c.room [
  | inl nothing ↦ absurd (omega arith)
  | inr room ↦
      let size : length out' ≡ s' + n =
        ap (length {A = ℕ}) c.appended
        ∙ omega (arith, length-append out (slice file s n), c.size, at) in
      let same : slice out' (s' + i) m ≡ slice file (s + i) m =
        ap (λ o. slice o (s' + i) m) c.appended
        ∙ (slice-appended out (slice file s n) s' i m at ∙ slice-slice file s n i m fits) in
      (
        slice file (s + i) m,
        read_exact-slice file (s + i) m (omega (arith, room, fits)),
        read_exact-slice out' (s' + i) m (omega (arith, size, fits)) ∙ ap ok same,
      )
]

-- The bytes that a header and its payload take.
abbrev pub extent : MetadataBlockHeader → ℕ
extent h = header_len + h.block_length

abbrev pub span : List MetadataBlockHeader → ℕ
span [] = 0
span (h ∷ hs) = extent h + span hs

abbrev pub placed : ℕ → List MetadataBlockHeader → List Located
placed at [] = []
placed at (h ∷ hs) = record { header = h; offset = at } ∷ placed (at + extent h) hs

-- Headers from `at` on, none of them the last.
abbrev pub Run : Bytes → ℕ → List MetadataBlockHeader → Type 0
Run file at [] = Unit
Run file at (h ∷ hs) =
    (read_header file at ≡ ok h) × (h.flags.last_block ≡ false) × Run file (at + extent h) hs

-- A whole list: a run, and the header that ends it.
pub record IsList (file : Bytes) (at : ℕ) (front : List MetadataBlockHeader)
    (ender : MetadataBlockHeader) : Type 0 where
  pub run : Run file at front
  pub ender_read : read_header file (at + span front) ≡ ok ender
  pub ender_last : ender.flags.last_block ≡ true

abbrev pub blocks_of : ℕ → List MetadataBlockHeader → MetadataBlockHeader → List Located
blocks_of at front ender =
    placed at front ++ (record { header = ender; offset = at + span front } ∷ [])

IsList-cons :
    (file : Bytes) (at : ℕ) (h : MetadataBlockHeader) (front : List MetadataBlockHeader)
    (ender : MetadataBlockHeader)
    → read_header file at ≡ ok h
    → h.flags.last_block ≡ false
    → IsList file (at + extent h) front ender
    → IsList file at (h ∷ front) ender
IsList-cons file at h front ender read more l =
    let same : at + extent h + span front ≡ at + (extent h + span front) = omega arith in
    record {
      run = (read, more, l.run);
      ender_read = subst (λ k. read_header file k ≡ ok ender) same l.ender_read;
      ender_last = l.ender_last;
    }

-- A chain, as its headers.
pub Chain-IsList :
    (file : Bytes) (at : ℕ) (bs : List Located) (end : ℕ)
    → Chain file at bs end
    → (front : List MetadataBlockHeader) × (ender : MetadataBlockHeader) × IsList file at front
        ender
      × (bs ≡ blocks_of at front ender)
      × (end ≡ at + span front + extent ender)
Chain-IsList file at [] end h = absurd h
Chain-IsList file at (b ∷ []) end (read, here, last, ends) =
    let same : at ≡ at + 0 = omega arith in
    let whole : b ∷ [] ≡ blocks_of at [] b.header = rw (← same, ← here) refl in
    (
      [],
      b.header,
      record { run = tt; ender_read = rw (← same) read; ender_last = last },
      whole,
      ends ∙ omega (arith, here),
    )
Chain-IsList file at (b ∷ c ∷ bs) end (read, here, more, rest) =
    let next : end_of b ≡ at + extent b.header = omega (arith, here) in
    let (front, ender, l, e, ends) =
      Chain-IsList file (at + extent b.header) (c ∷ bs) end
        (subst (λ k. Chain file k (c ∷ bs) end) next rest) in
    let same : at + extent b.header + span front ≡ at + (extent b.header + span front) =
      omega arith in
    (
      b.header ∷ front,
      ender,
      IsList-cons file at b.header front ender read more l,
      rw (← same, ← here) (ap (λ l. b ∷ l) (rw (← here) at e)),
      ends ∙ omega (arith, same),
    )

Run-Chain :
    (file : Bytes) (at : ℕ) (front : List MetadataBlockHeader) (ender : MetadataBlockHeader)
    (q end : ℕ)
    → q ≡ at + span front
    → end ≡ q + extent ender
    → Run file at front
    → read_header file q ≡ ok ender
    → ender.flags.last_block ≡ true
    → Chain file at (placed at front ++ (record { header = ender; offset = q } ∷ [])) end
Run-Chain file at [] ender q end e ends run read last =
    let same : q ≡ at = omega arith in (rw (← same) read, same, last, omega arith)
Run-Chain file at (h ∷ []) ender q end e ends (here, more, rest) read last =
    let next : at + extent h ≡ end_of (record { header = h; offset = at }) = omega arith in
    let tail = Run-Chain file (at + extent h) [] ender q end (omega arith) ends rest read last in
    (
      here,
      refl,
      more,
      subst
          (λ o.
            Chain file o (placed (at + extent h) [] ++ (record { header = ender; offset = q } ∷ []))
              end)
          next tail,
    )
Run-Chain file at (h ∷ k ∷ front) ender q end e ends (here, more, rest) read last =
    let next : at + extent h ≡ end_of (record { header = h; offset = at }) = omega arith in
    let tail =
      Run-Chain file (at + extent h) (k ∷ front) ender q end (omega arith) ends rest read last in
    (
      here,
      refl,
      more,
      subst
          (λ o.
            Chain file o
              (placed (at + extent h) (k ∷ front) ++ (record { header = ender; offset = q } ∷ []))
              end)
          next tail,
    )

-- And back.
pub IsList-Chain :
    (file : Bytes) (at : ℕ) (front : List MetadataBlockHeader) (ender : MetadataBlockHeader)
    → IsList file at front ender
    → Chain file at (blocks_of at front ender) (at + span front + extent ender)
IsList-Chain file at front ender l =
    Run-Chain file at front ender (at + span front) (at + span front + extent ender) refl refl l.run
      l.ender_read l.ender_last

-- A header is found again in a copy.
read_header-Embeds :
    (file : Bytes) (s : ℕ) (out : Bytes) (s' n : ℕ) (h : MetadataBlockHeader) (i : ℕ)
    → Embeds file s out s' n
    → i + header_len ≤ n
    → read_header file (s + i) ≡ ok h
    → read_header out (s' + i) ≡ ok h
unfolding read_header
read_header-Embeds file s out s' n h i e fits read =
    let (raw, here, there) = e i header_len (omega arith) fits in
    let parsed : parse_header raw ≡ ok h = rw here at read in rw there parsed

-- A run is found again in a copy.
Run-Embeds :
    (file : Bytes) (s : ℕ) (out : Bytes) (s' n : ℕ)
    → Embeds file s out s' n
    → (hs : List MetadataBlockHeader) (i at at' : ℕ) → at ≡ s + i
    → at' ≡ s' + i
    → i + span hs ≤ n
    → Run file at hs
    → Run out at' hs
Run-Embeds file s out s' n e [] i at at' p q fits r = tt
Run-Embeds file s out s' n e (h ∷ hs) i at at' p q fits (read, more, rest) = (
  rw q (read_header-Embeds file s out s' n h i e (omega arith) (rw p at read)),
  more,
  Run-Embeds file s out s' n e hs (i + extent h) (at + extent h) (at' + extent h) (omega arith)
      (omega arith) (omega arith) rest,
)

-- So is a whole list.
pub IsList-Embeds :
    (file : Bytes) (s : ℕ) (out : Bytes) (s' n : ℕ) (front : List MetadataBlockHeader)
    (ender : MetadataBlockHeader)
    → Embeds file s out s' n
    → span front + header_len ≤ n
    → IsList file s front ender
    → IsList out s' front ender
IsList-Embeds file s out s' n front ender e fits l = record {
  run = Run-Embeds file s out s' n e front 0 s s' (omega arith) (omega arith) (omega arith) l.run;
  ender_read = read_header-Embeds file s out s' n ender (span front) e fits l.ender_read;
  ender_last = l.ender_last;
}

-- And a run with another header behind it.
pub Run-IsList :
    (file : Bytes) (s : ℕ) (out : Bytes) (s' n : ℕ) (front : List MetadataBlockHeader)
    (ender : MetadataBlockHeader)
    → Embeds file s out s' n
    → span front ≤ n
    → Run file s front
    → read_header out (s' + span front) ≡ ok ender
    → ender.flags.last_block ≡ true
    → IsList out s' front ender
Run-IsList file s out s' n front ender e fits r read last = record {
  run = Run-Embeds file s out s' n e front 0 s s' (omega arith) (omega arith) (omega arith) r;
  ender_read = read;
  ender_last = last;
}

pub length-blocks_of :
    (at at' : ℕ) (front : List MetadataBlockHeader) (ender ender' : MetadataBlockHeader)
    → length (blocks_of at front ender) ≡ length (blocks_of at' front ender')
length-blocks_of at at' front ender ender' = omega (
  arith,
  length-append (placed at front) (record { header = ender; offset = at + span front } ∷ []),
  length-append (placed at' front) (record { header = ender'; offset = at' + span front } ∷ []),
  length-placed at at' front,
)
  where
    length-placed :
        (at at' : ℕ) (front : List MetadataBlockHeader)
        → length (placed at front) ≡ length (placed at' front)
    length-placed at at' [] = refl
    length-placed at at' (h ∷ hs) = ap suc (length-placed (at + extent h) (at' + extent h) hs)

pub first?-blocks_of :
    (at : ℕ) (front : List MetadataBlockHeader) (ender : MetadataBlockHeader)
    → (b : Located) × (first? (blocks_of at front ender) ≡ some b) × (b.offset ≡ at)
first?-blocks_of at [] ender = (_, refl, omega arith)
first?-blocks_of at (h ∷ front) ender = (_, refl, refl)

pub last?-blocks_of :
    (at : ℕ) (front : List MetadataBlockHeader) (ender : MetadataBlockHeader)
    → last? (blocks_of at front ender) ≡ some (record { header = ender; offset = at + span front })
last?-blocks_of at front ender = last?-append (placed at front) _
  where
    last?-append : (bs : List Located) (b : Located) → last? (bs ++ (b ∷ [])) ≡ some b
    last?-append [] b = refl
    last?-append (c ∷ []) b = refl
    last?-append (c ∷ k ∷ bs) b = last?-append (k ∷ bs) b
