-- ===== src/Write/Output/Root.antt =====
-- The root list that `write_output` (src/write.rs) writes, as `walk_list` (src/block.rs) reads it.
use mrimgx_consolidate.Base.{
  ℕ, ◌+◌, ◌^◌, ◌<◌, ◌≡◌, ◌∙◌, refl, sym, ap, subst, Bool, true, false, List, [], ◌∷◌, ◌++◌,
  append-nil, append_assoc, length, length-append, slice, Option, none, some, ltb, ltb→lt, ok,
  >>=-eq_ok, ensure-eq_ok, ok-injective, Bool-cases, inl, inr, arith, payload_too_large, some-eq,
}
use mrimgx_consolidate.Base.Bytes.{Bytes, bytes_eq}
use mrimgx_consolidate.Base.Sets.{lookup}
use mrimgx_consolidate.Block.{
  MetadataBlockHeader, IsHeader, Located, BlockList, header_len, json_name, plain, header_to_bytes,
  parse_header, read_exact, read_header, read_payload, end_of, for_payload, find, find_loop,
  walk_list,
}
use mrimgx_consolidate.Block.Header.{length-header_to_bytes, parse-header_to_bytes}
use mrimgx_consolidate.Block.Footer.{read_exact-append}
use mrimgx_consolidate.Block.Walk.{Chain, walk_list_iff}
use mrimgx_consolidate.Write.{read_source}
use mrimgx_consolidate.Write.Metadata.{copy_range}
use mrimgx_consolidate.Write.Metadata.Ranges.{IsCopied, copy_range-IsCopied}
use mrimgx_consolidate.Write.Metadata.Lists.{IsCopied-Embeds, Embeds-append, IsList, IsList-Embeds}
use mrimgx_consolidate.Write.Output.{is_none, copy_aux}

-- A block that is found in a chain was read from its offset.
find-Chain :
    (file : Bytes) (at : ℕ) (bs : List Located) (end : ℕ) (name : Bytes) (b : Located)
    → Chain file at bs end
    → find_loop bs name ≡ some b
    → read_header file b.offset ≡ ok b.header
find-Chain file at [] end name b chain h = absurd chain
find-Chain file at (c ∷ []) end name b (read, here, last, ends) h =
    elim (Bool-cases (bytes_eq c.header.name name)) [
      | inl named ↦
          let same : c ≡ b = some-eq (rw named at h) in
          subst (λ (x : Located). read_header file x.offset ≡ ok x.header) same (rw here read)
      | inr other ↦ absurd (cc (rw other at h))
    ]
find-Chain file at (c ∷ k ∷ bs) end name b (read, here, more, rest) h =
    elim (Bool-cases (bytes_eq c.header.name name)) [
      | inl named ↦
          let same : c ≡ b = some-eq (rw named at h) in
          subst (λ (x : Located). read_header file x.offset ≡ ok x.header) same (rw here read)
      | inr other ↦ find-Chain file (end_of c) (k ∷ bs) end name b rest (rw other at h)
    ]

pub find-read_header :
    (file : Bytes) (at : ℕ) (l : BlockList) (name : Bytes) (b : Located)
    → walk_list file at ≡ ok l
    → find l name ≡ some b
    → read_header file b.offset ≡ ok b.header
unfolding find
find-read_header file at l name b walked h =
    find-Chain file at l.blocks l.end name b ((walk_list_iff file at l).0 walked).0 h

module _ (md5 : Bytes → Bytes) (md5_length : (b : Bytes) → length (md5 b) ≡ 16) where
  -- The header of the document block.
  abbrev pub json_header : Bytes → Bool → MetadataBlockHeader
  json_header document last = record {
    name = json_name;
    block_length = length document;
    hash = md5 document;
    flags = plain last;
  }

  for_payload-eq_ok :
      (document : Bytes) (last : Bool) (header : MetadataBlockHeader)
      → for_payload md5 json_name document last ≡ ok header
      → (length document < 2 ^ 32) × (json_header document last ≡ header)
  unfolding for_payload
  for_payload-eq_ok document last header h =
      let (small, h1) = ensure-eq_ok (ltb (length document) (2 ^ 32)) payload_too_large _ h in
      (ltb→lt _ _ small, ok-injective h1)

  module _ (o document : Bytes) (last : Bool) (small : length document < 2 ^ 32) where
    abbrev head : Bytes
    head = header_to_bytes (json_header document last)

    valid : IsHeader (json_header document last)
    valid = record { name_length = refl; length_fits = small; hash_length = md5_length document }

    read_header-json :
        (tail : Bytes) (q : ℕ)
        → length o ≡ q
        → read_header (((o ++ head) ++ document) ++ tail) q ≡ ok (json_header document last)
    unfolding read_header
    read_header-json tail q at =
        let read : read_exact (((o ++ head) ++ document) ++ tail) q header_len ≡ ok head =
          read_exact-append _ o head (document ++ tail) q header_len
            (append_assoc (o ++ head) document tail ∙ append_assoc o head (document ++ tail)) at
            (length-header_to_bytes (json_header document last) valid) in
        let parsed : parse_header head ≡ ok (json_header document last) =
          rw (append-nil head) at (parse-header_to_bytes (json_header document last) valid []) in
        rw read parsed

    read_payload-json :
        (tail : Bytes) (q : ℕ)
        → length o ≡ q
        → read_exact (((o ++ head) ++ document) ++ tail) (q + header_len) (length document)
          ≡ ok document
    read_payload-json tail q at =
        read_exact-append _ (o ++ head) document tail (q + header_len) (length document)
          (append_assoc (o ++ head) document tail)
          (length-append o head
            ∙ omega (arith, at, length-header_to_bytes (json_header document last) valid))
          refl

    length-json : length ((o ++ head) ++ document) ≡ length o + (header_len + length document)
    length-json = omega (
      arith,
      length-append (o ++ head) document,
      length-append o head,
      length-header_to_bytes (json_header document last) valid,
    )

  -- A root list that was written behind `o`.
  pub record DidRoot (root_at : ℕ) (document o out : Bytes) (n : ℕ) : Type 0 where
    pub added : Bytes
    pub grows : out ≡ o ++ added
    pub size : length out ≡ root_at + (header_len + length document) + n
    pub list : BlockList
    pub json_block : Located
    pub json_found : find list json_name ≡ some json_block
    pub json_plain : (last : Bool) × (json_block.header ≡ json_header document last)
    pub ends : list.end ≡ length out
    pub walked : (rest : Bytes) → walk_list (out ++ rest) root_at ≡ ok list
    pub payload : (rest : Bytes) → read_payload (out ++ rest) json_block ≡ ok document

  abbrev json_at : Bytes → Bool → ℕ → Located
  json_at document last q = record { header = json_header document last; offset = q }

  alone-DidRoot :
      (o document : Bytes) (q : ℕ)
      → length document < 2 ^ 32
      → length o ≡ q
      → DidRoot q document o ((o ++ header_to_bytes (json_header document true)) ++ document) 0
  unfolding find read_payload
  alone-DidRoot o document q small at =
      let whole = length-json o document true small in
      let list : BlockList = record {
        blocks = json_at document true q ∷ [];
        end = end_of (json_at document true q);
      } in
      record {
        added = header_to_bytes (json_header document true) ++ document;
        grows = append_assoc o (header_to_bytes (json_header document true)) document;
        size = omega (arith, whole, at);
        list = list;
        json_block = json_at document true q;
        json_found = refl;
        json_plain = (true, refl);
        ends = omega (arith, whole, at);
        walked = λ rest.
            (walk_list_iff _ q list).1
              ((read_header-json o document true small rest q at, refl, refl, refl), omega arith);
        payload = λ rest. read_payload-json o document true small rest q at;
      }

  with_aux-DidRoot :
      (file o document out : Bytes) (q : ℕ) (aux : Located)
      → length document < 2 ^ 32
      → length o ≡ q
      → read_header file aux.offset ≡ ok aux.header
      → aux.header.flags.last_block ≡ true
      → IsCopied file aux.offset
          (header_len + aux.header.block_length)
          ((o ++ header_to_bytes (json_header document false)) ++ document)
          out
      → DidRoot q document o out (header_len + aux.header.block_length)
  unfolding find read_payload
  with_aux-DidRoot file o document out q aux small at read last c =
      let front : Bytes = (o ++ header_to_bytes (json_header document false)) ++ document in
      let n : ℕ = header_len + aux.header.block_length in
      let copied : Bytes = slice file aux.offset n in
      let whole = length-json o document false small in
      let here : ℕ = q + header_len + length document in
      let front_ends : length front ≡ here = omega (arith, whole, at) in
      let size : length out ≡ here + n =
        ap (length {A = ℕ}) c.appended
        ∙ omega (arith, length-append front copied, c.size, front_ends) in
      let start : aux.offset ≡ aux.offset + 0 = omega arith in
      let stop : here + 0 ≡ here = omega arith in
      let list : BlockList = record {
        blocks = json_at document false q ∷ record { header = aux.header; offset = here } ∷ [];
        end = here + header_len + aux.header.block_length;
      } in
      let alone : IsList file aux.offset [] aux.header = record {
        run = tt;
        ender_read = subst (λ k. read_header file k ≡ ok aux.header) start read;
        ender_last = last;
      } in
      record {
        added = (header_to_bytes (json_header document false) ++ document) ++ copied;
        grows =
            c.appended
            ∙ (ap (λ t. t ++ copied)
                  (append_assoc o (header_to_bytes (json_header document false)) document)
                ∙ append_assoc o (header_to_bytes (json_header document false) ++ document) copied);
        size = omega (arith, size);
        list = list;
        json_block = json_at document false q;
        json_found = refl;
        json_plain = (false, refl);
        ends = omega (arith, size);
        walked = λ rest.
            let behind : out ++ rest ≡ front ++ (copied ++ rest) =
              ap (λ t. t ++ rest) c.appended ∙ append_assoc front copied rest in
            let there : IsList (out ++ rest) here [] aux.header =
              IsList-Embeds file aux.offset (out ++ rest) here n [] aux.header
                (Embeds-append file aux.offset out rest here n
                  (IsCopied-Embeds file aux.offset n front out here front_ends c))
                (omega arith) alone in
            (walk_list_iff (out ++ rest) q list).1 (
              (
                subst (λ f. read_header f q ≡ ok (json_header document false)) (sym behind)
                    (read_header-json o document false small (copied ++ rest) q at),
                refl,
                refl,
                (
                  subst (λ k. read_header (out ++ rest) k ≡ ok aux.header) stop there.ender_read,
                  refl,
                  last,
                  refl,
                ),
              ),
              omega arith,
            );
        payload = λ rest.
            let behind : out ++ rest ≡ front ++ (copied ++ rest) =
              ap (λ t. t ++ rest) c.appended ∙ append_assoc front copied rest in
            subst (λ f. read_exact f (q + header_len) (length document) ≡ ok document) (sym behind)
              (read_payload-json o document false small (copied ++ rest) q at);
      }

  -- The list that is written, with the To file's `$AUXDATA` block or without one.
  pub copy_aux-DidRoot :
      (handles : List (ℕ × Bytes)) (number : ℕ) (file : Bytes)
      → lookup number handles ≡ some file
      → (aux : Option Located) (o document out : Bytes) (q n : ℕ) (header : MetadataBlockHeader)
      → length o ≡ q
      → ((b : Located)
          → aux ≡ some b
          → (read_header file b.offset ≡ ok b.header) × (b.header.flags.last_block ≡ true))
      → for_payload md5 json_name document (is_none aux) ≡ ok header
      → copy_aux (read_source handles) number aux ((o ++ header_to_bytes header) ++ document)
        ≡ ok (n, out)
      → DidRoot q document o out n
  unfolding copy_aux
  copy_aux-DidRoot handles number file found none o document out q n header at ends made h =
      let (small, same) = for_payload-eq_ok document true header made in
      let e = ok-injective h in
      let outs : (o ++ header_to_bytes (json_header document true)) ++ document ≡ out =
        ap (λ x. (o ++ header_to_bytes x) ++ document) same ∙ ap (λ (x : ℕ × Bytes). x.1) e in
      subst (λ k. DidRoot q document o out k) (ap (λ (x : ℕ × Bytes). x.0) e)
        (subst (λ t. DidRoot q document o t 0) outs (alone-DidRoot o document q small at))
  copy_aux-DidRoot handles number file found (some aux) o document out q n header at ends made h =
      let (small, same) = for_payload-eq_ok document false header made in
      let (read, last) = ends aux refl in
      let (out', copied, h1) =
        >>=-eq_ok
          (copy_range (read_source handles) number aux.offset (header_len + aux.header.block_length)
            ((o ++ header_to_bytes header) ++ document))
          _ h in
      let e = ok-injective h1 in
      let outs : out' ≡ out = ap (λ (x : ℕ × Bytes). x.1) e in
      let c =
        copy_range-IsCopied handles number file found aux.offset
          (header_len + aux.header.block_length) ((o ++ header_to_bytes header) ++ document) out'
          copied in
      subst (λ k. DidRoot q document o out k) (ap (λ (x : ℕ × Bytes). x.0) e)
        (with_aux-DidRoot file o document out q aux small at read last (
          subst
            (λ t.
              IsCopied file aux.offset (header_len + aux.header.block_length)
                ((o ++ header_to_bytes (json_header document false)) ++ document) t)
            outs
            (subst
              (λ x.
                IsCopied file aux.offset (header_len + aux.header.block_length)
                  ((o ++ header_to_bytes x) ++ document) out')
              (sym same) c)))
