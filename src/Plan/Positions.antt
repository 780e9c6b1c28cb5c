-- ===== src/Plan/Positions.antt =====
-- `changed_positions` (src/plan.rs): the logical positions that an incremental merge writes.
use mrimgx_consolidate.Base.{
  ℕ, ◌≡◌, ◌↔◌, inl, inr, refl, subst, Bool, true, false, ◌&&◌, ◌||◌, List, [], ◌∷◌, ◌==◌, ==_iff,
  ok, Bool-cases, Result-cases, arith,
}
use mrimgx_consolidate.Base.Sets.{contains, extend, contains-extend, Any}
use mrimgx_consolidate.Index.{DeltaDataBlock, Blocks, full, delta}
use mrimgx_consolidate.Reader.{BackupFile, Partition}
use mrimgx_consolidate.Set.{BackupSet, partition_at}
use mrimgx_consolidate.Plan.{
  block_indices, indices_of, member_positions, positions_loop, changed_positions,
}

contains-block_indices :
    (ds : List DeltaDataBlock) (i : ℕ)
    → (contains (block_indices ds) i ≡ true) ↔ Any (λ (x : DeltaDataBlock). x.block_index ≡ i) ds
unfolding contains
contains-block_indices [] i = (λ h. cc, λ h. absurd h)
contains-block_indices (x ∷ ds) i =
    let (to, from) = contains-block_indices ds i in
    (
      λ h. elim (Bool-cases (x.block_index == i)) [
        | inl same ↦ inl ((==_iff x.block_index i).0 same)
        | inr other ↦ inr (to (rw other at h))
      ],
      λ a. elim a [
        | inl same ↦ ground (arith, (==_iff x.block_index i).1 same)
        | inr later ↦ ground (arith, from later)
      ],
    )

indices_of_iff :
    (b : Blocks) (i : ℕ)
    → (contains (indices_of b) i ≡ true) ↔ (
        (ds : List DeltaDataBlock) × (b ≡ delta ds)
        × Any (λ (x : DeltaDataBlock). x.block_index ≡ i) ds)
unfolding contains
indices_of_iff (full v) i = (λ h. absurd (cc h), λ h. absurd (cc (h.1)))
indices_of_iff (delta ds) i = (
  λ h. (ds, refl, (contains-block_indices ds i).0 h),
  λ h.
      let (es, same, named) = h in
      (contains-block_indices ds i).1 (
        subst (λ (l : List DeltaDataBlock). Any (λ (x : DeltaDataBlock). x.block_index ≡ i) l)
          (cc same) named),
)

module _ {V : Type 0} where
  -- A member whose delta list for the partition names the position.
  abbrev pub Names : ℕ → ℕ → ℕ → BackupFile V → Type 0
  Names d p i m =
      (part : Partition) × (ds : List DeltaDataBlock) × (partition_at m d p ≡ ok part)
      × (part.index.blocks ≡ delta ds)
      × Any (λ (x : DeltaDataBlock). x.block_index ≡ i) ds

  member_positions_iff :
      (m : BackupFile V) (d p i : ℕ) → (contains (member_positions m d p) i ≡ true) ↔ Names d p i m
  unfolding contains member_positions
  member_positions_iff m d p i = elim (Result-cases (partition_at m d p)) [
    | inl (part, found) ↦
        let (to, from) = indices_of_iff part.index.blocks i in
        (
          λ h.
              let (ds, same, named) = to (rw (found, member_positions) at h) in
              (part, ds, found, same, named),
          λ h.
              let (part', ds, found', same, named) = h in
              let one : part' ≡ part = cc (found, found') in
              rw (found, member_positions)
                (from (ds, subst (λ (q : Partition). q.index.blocks ≡ delta ds) one same, named)),
        )
    | inr (e, missing) ↦
        (λ h. absurd (cc (rw (missing, member_positions) at h)), λ h. absurd (cc (missing, h.2)))
  ]

  abbrev changed_in : List (BackupFile V) → List ℕ → ℕ → ℕ → ℕ → Bool
  changed_in [] absorbed d p i = false
  changed_in (m ∷ ms) absorbed d p i =
      (contains absorbed m.header.file_number && contains (member_positions m d p) i)
      || changed_in ms absorbed d p i

  contains-positions_loop :
      (ms : List (BackupFile V)) (absorbed : List ℕ) (d p : ℕ) (out : List ℕ) (i : ℕ)
      → contains (positions_loop ms absorbed d p out) i
        ≡ (contains out i || changed_in ms absorbed d p i)
  unfolding positions_loop
  contains-positions_loop [] absorbed d p out i = ground arith
  contains-positions_loop (m ∷ ms) absorbed d p out i =
      elim (Bool-cases (contains absorbed m.header.file_number)) [
        | inl taken ↦ rw taken (
            ground (
              arith,
              contains-positions_loop ms absorbed d p (extend out (member_positions m d p)) i,
              contains-extend out (member_positions m d p) i,
            ))
        | inr kept ↦ rw kept (contains-positions_loop ms absorbed d p out i)
      ]

  -- A member that is absorbed and names the position.
  abbrev pub Changes : List ℕ → ℕ → ℕ → ℕ → BackupFile V → Type 0
  Changes absorbed d p i m = (contains absorbed m.header.file_number ≡ true) × Names d p i m

  changed_in_iff :
      (ms : List (BackupFile V)) (absorbed : List ℕ) (d p i : ℕ)
      → (changed_in ms absorbed d p i ≡ true) ↔ Any (Changes absorbed d p i) ms
  changed_in_iff [] absorbed d p i = (λ h. cc, λ h. absurd h)
  changed_in_iff (m ∷ ms) absorbed d p i =
      let (to, from) = changed_in_iff ms absorbed d p i in
      let (named, names) = member_positions_iff m d p i in
      (
        λ h.
            elim (Bool-cases
              (contains absorbed m.header.file_number && contains (member_positions m d p) i)) [
                | inl here ↦ inl (ground (arith, here), named (ground (arith, here)))
                | inr not_here ↦ inr (to (rw not_here at h))
              ],
        λ a. elim a [
          | inl (taken, n) ↦ ground (arith, taken, names n)
          | inr later ↦ ground (arith, from later)
        ],
      )

  -- A position is written by an incremental merge exactly when the delta list of some absorbed member
  -- names it.
  pub changed_positions_iff :
      (s : BackupSet V) (absorbed : List ℕ) (d p i : ℕ)
      → (contains (changed_positions s absorbed d p) i ≡ true)
        ↔ Any (Changes absorbed d p i) s.members
  unfolding changed_positions contains
  changed_positions_iff s absorbed d p i =
      let same = contains-positions_loop s.members absorbed d p [] i in
      let (to, from) = changed_in_iff s.members absorbed d p i in
      (λ h. to (ground (arith, same)), λ h. ground (arith, same, from h))
