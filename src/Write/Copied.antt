-- ===== src/Write/Copied.antt =====
-- `copy_actions` (src/write.rs): what the copy loop does to each action.
use mrimgx_consolidate.Base.{
  ℕ, ◌%◌, ◌^◌, ◌<◌, ◌≡◌, ◌∙◌, refl, sym, ap, subst, true, List, [], ◌∷◌, ◌++◌, append-nil,
  append_assoc, some, ◌==◌, length, length-append, All, ok, >>=-eq_ok, ensure-eq_ok, ok-injective,
  ltb, ltb→lt, Option-cases, inl, inr, Bool-cases, some-eq, arith, wrong_length, offset_overflow,
}
use mrimgx_consolidate.Base.Int.{int_eq→eq}
use mrimgx_consolidate.Base.Bytes.{Bytes}
use mrimgx_consolidate.Block.{read_exact}
use mrimgx_consolidate.Index.{DataBlockIndexElement, default_element}
use mrimgx_consolidate.Plan.{Action, hole, keep, copy}
use mrimgx_consolidate.Write.{
  BlockSource, Key, key_eq, seen_at, CopyState, key_of, moved, copy_new, copy_block, copy_action,
  copy_actions,
}
use mrimgx_consolidate.Write.Source.{ReadsExactly, read_exact-append_more, read_exact-appended}

-- The bytes of the source's block `k` stand in `out` at `q`.
pub record IsStored (source : BlockSource) (out : Bytes) (k : Key) (q : ℕ) : Type 0 where
  pub bytes : Bytes
  pub from_source : source k.number k.position k.block_length ≡ ok bytes
  pub in_output : read_exact out q k.block_length ≡ ok bytes
  pub position_fits : q < 2 ^ 63

pub IsStored-append :
    {source : BlockSource} {out : Bytes} {k : Key} {q : ℕ} (more : Bytes)
    → IsStored source out k q
    → IsStored source (out ++ more) k q
IsStored-append {source} {out} {k} {q} more h = record {
  bytes = h.bytes;
  from_source = h.from_source;
  in_output = read_exact-append_more out more q k.block_length h.bytes h.in_output;
  position_fits = h.position_fits;
}

abbrev pub SeenStored : BlockSource → Bytes → (Key × ℕ) → Type 0
SeenStored source out (k, q) = IsStored source out k q

-- Between two actions: the offset is the size of the output, and every block that the duplicate map
-- knows stands in the output.
pub record IsCopyState (source : BlockSource) (s : CopyState) : Type 0 where
  pub size : length s.out ≡ s.at
  pub stored : All (SeenStored source s.out) s.seen

SeenStored-append :
    (source : BlockSource) (out more : Bytes) (m : List (Key × ℕ))
    → All (SeenStored source out) m
    → All (SeenStored source (out ++ more)) m
SeenStored-append source out more [] h = tt
SeenStored-append source out more ((k, q) ∷ m) (h, hs) =
    (IsStored-append more h, SeenStored-append source out more m hs)

key_eq→eq : (a b : Key) → key_eq a b ≡ true → a ≡ b
key_eq→eq a b h = ground (arith, int_eq→eq a.position b.position)

IsStored-seen_at :
    (source : BlockSource) (out : Bytes) (k : Key) (q : ℕ) (m : List (Key × ℕ))
    → All (SeenStored source out) m
    → seen_at k m ≡ some q
    → IsStored source out k q
unfolding seen_at
IsStored-seen_at source out k q [] h e = cc
IsStored-seen_at source out k q ((j, v) ∷ m) (h, hs) e = elim (Bool-cases (key_eq j k)) [
  | inl same ↦
      let at_q : v ≡ q = some-eq (rw same at e) in
      subst (λ i. IsStored source out i q) (key_eq→eq j k same)
        (subst (IsStored source out j) at_q h)
  | inr other ↦ IsStored-seen_at source out k q m hs (rw other at e)
]

-- The output only grows.
abbrev pub Grows : CopyState → CopyState → Type 0
Grows s s' = (more : Bytes) × (s'.out ≡ s.out ++ more)

pub Grows-refl : (s : CopyState) → Grows s s
Grows-refl s = ([], sym (append-nil s.out))

pub Grows-trans : (s t u : CopyState) → Grows s t → Grows t u → Grows s u
Grows-trans s t u (a, p) (b, q) = (a ++ b, q ∙ (ap (λ o. o ++ b) p ∙ append_assoc s.out a b))

pub IsStored-Grows :
    (source : BlockSource) (s s' : CopyState) (k : Key) (q : ℕ)
    → Grows s s'
    → IsStored source s.out k q
    → IsStored source s'.out k q
IsStored-Grows source s s' k q (more, e) h =
    subst (λ o. IsStored source o k q) (sym e) (IsStored-append more h)

module _ (source : BlockSource) (exact : ReadsExactly source) (out_file_number : ℕ) where
  -- A copied block.
  record IsCopied (e : DataBlockIndexElement) (s : CopyState) (r : ℕ × CopyState) : Type 0 where
    state : IsCopyState source r.1
    grows : Grows s r.1
    stored : IsStored source r.1.out (key_of e) r.0

  copy_new-IsCopied :
      (e : DataBlockIndexElement) (s : CopyState) (r : ℕ × CopyState)
      → IsCopyState source s
      → copy_new source out_file_number e s ≡ ok r
      → IsCopied e s r
  unfolding copy_new
  copy_new-IsCopied e s r inv h =
      let (bytes, read, h1) = >>=-eq_ok (source e.file_number e.file_position e.block_length) _ h in
      let (same_length, h2) =
        ensure-eq_ok (length bytes % 2 ^ 32 == e.block_length) wrong_length _ h1 in
      let (fits, h3) = ensure-eq_ok (ltb s.at (2 ^ 63)) offset_overflow _ h2 in
      let n : length bytes ≡ e.block_length =
        exact.exact e.file_number e.file_position e.block_length bytes read in
      let here : IsStored source (s.out ++ bytes) (key_of e) s.at = record {
        bytes = bytes;
        from_source = read;
        in_output = read_exact-appended s.out bytes s.at e.block_length inv.size n;
        position_fits = ltb→lt s.at (2 ^ 63) fits;
      } in
      subst (IsCopied e s) (ok-injective h3) (record {
        state = record {
          size = omega (arith, length-append s.out bytes, inv.size, n);
          stored = (here, SeenStored-append source s.out bytes s.seen inv.stored);
        };
        grows = (bytes, refl);
        stored = here;
      })

  copy_block-IsCopied :
      (e : DataBlockIndexElement) (s : CopyState) (r : ℕ × CopyState)
      → IsCopyState source s
      → copy_block source out_file_number e s ≡ ok r
      → IsCopied e s r
  unfolding copy_block
  copy_block-IsCopied e s r inv h = elim (Option-cases (seen_at (key_of e) s.seen)) [
    | inl new ↦ copy_new-IsCopied e s r inv (rw (new, copy_block) at h)
    | inr (q, old) ↦ subst (IsCopied e s) (ok-injective (rw (old, copy_block) at h)) (record {
      state = record { size = inv.size; stored = inv.stored };
      grows = ([], sym (append-nil s.out));
      stored = IsStored-seen_at source s.out (key_of e) q s.seen inv.stored old;
    })
  ]

  -- What an action asks for, of the entry that was written for it and of the output.
  abbrev pub IsWritten : Bytes → Action → DataBlockIndexElement → Type 0
  IsWritten out hole entry = entry ≡ default_element
  IsWritten out (keep e) entry = entry ≡ e
  IsWritten out (copy e) entry =
      (q : ℕ) × (entry ≡ moved e q out_file_number) × IsStored source out (key_of e) q

  abbrev pub AllWritten : Bytes → List Action → List DataBlockIndexElement → Type 0
  AllWritten out [] [] = Unit
  AllWritten out (a ∷ actions) (e ∷ entries) = IsWritten out a e × AllWritten out actions entries
  AllWritten out _ _ = ⊥

  IsWritten-append :
      (out more : Bytes) (a : Action) (entry : DataBlockIndexElement)
      → IsWritten out a entry
      → IsWritten (out ++ more) a entry
  IsWritten-append out more hole entry h = h
  IsWritten-append out more (keep e) entry h = h
  IsWritten-append out more (copy e) entry (q, at, h) = (q, at, IsStored-append more h)

  pub AllWritten-append :
      (out more : Bytes) (actions : List Action) (entries : List DataBlockIndexElement)
      → AllWritten out actions entries
      → AllWritten (out ++ more) actions entries
  AllWritten-append out more [] [] h = h
  AllWritten-append out more [] (e ∷ entries) h = absurd h
  AllWritten-append out more (a ∷ actions) [] h = absurd h
  AllWritten-append out more (a ∷ actions) (e ∷ entries) (h, hs) =
      (IsWritten-append out more a e h, AllWritten-append out more actions entries hs)

  -- A run of the loop: what it keeps, and what it wrote.
  record DidAction (a : Action) (s : CopyState) (r : DataBlockIndexElement × CopyState)
      : Type 0 where
    state : IsCopyState source r.1
    grows : Grows s r.1
    written : IsWritten r.1.out a r.0

  copy_action-DidAction :
      (a : Action) (s : CopyState) (r : DataBlockIndexElement × CopyState)
      → IsCopyState source s
      → copy_action source out_file_number a s ≡ ok r
      → DidAction a s r
  unfolding copy_action
  copy_action-DidAction hole s r inv h =
      subst (DidAction hole s) (ok-injective h)
        (record { state = inv; grows = Grows-refl s; written = refl })
  copy_action-DidAction (keep e) s r inv h =
      subst (DidAction (keep e) s) (ok-injective h)
        (record { state = inv; grows = Grows-refl s; written = refl })
  copy_action-DidAction (copy e) s r inv h =
      let ((q, s'), copied, h1) = >>=-eq_ok (copy_block source out_file_number e s) _ h in
      let done = copy_block-IsCopied e s (q, s') inv copied in
      subst (DidAction (copy e) s) (ok-injective h1)
        (record { state = done.state; grows = done.grows; written = (q, refl, done.stored) })

  pub record DidActions (actions : List Action) (s : CopyState)
      (r : List DataBlockIndexElement × CopyState) : Type 0 where
    pub state : IsCopyState source r.1
    pub grows : Grows s r.1
    pub written : AllWritten r.1.out actions r.0

  -- The loop keeps the invariant, only appends to the output, and writes for each action the entry
  -- that it asks for.
  pub copy_actions-DidActions :
      (actions : List Action) (s : CopyState) (r : List DataBlockIndexElement × CopyState)
      → IsCopyState source s
      → copy_actions source out_file_number actions s ≡ ok r
      → DidActions actions s r
  unfolding copy_actions
  copy_actions-DidActions [] s r inv h =
      subst (DidActions [] s) (ok-injective h)
        (record { state = inv; grows = Grows-refl s; written = tt })
  copy_actions-DidActions (a ∷ actions) s r inv h =
      let ((e, s'), first, h1) = >>=-eq_ok (copy_action source out_file_number a s) _ h in
      let ((entries, s''), later, h2) =
        >>=-eq_ok (copy_actions source out_file_number actions s') _ h1 in
      let one = copy_action-DidAction a s (e, s') inv first in
      let rest = copy_actions-DidActions actions s' (entries, s'') one.state later in
      let (more, grown) = rest.grows in
      subst (DidActions (a ∷ actions) s) (ok-injective h2) (record {
        state = rest.state;
        grows = Grows-trans s s' s'' one.grows rest.grows;
        written = (
          subst (λ o. IsWritten o a e) (sym grown) (IsWritten-append s'.out more a e one.written),
          rest.written,
        );
      })
