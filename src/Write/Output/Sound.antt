-- ===== src/Write/Output/Sound.antt =====
-- `check_output` (src/write.rs): which entries its loop accepts.
use mrimgx_consolidate.Base.{
  ℕ, ◌+◌, ◌≤◌, ◌≡◌, ◌⊎◌, ◌↔◌, ◌∙◌, refl, sym, ap, subst, Bool, true, false, List, [], ◌∷◌, ◌++◌,
  All, leb, leb→le, le→leb, ◌==◌, ==_iff, append_assoc, Error, negative_position, Result, ok, err,
  ensure, >>=-eq_ok, Bool-cases, inl, inr, past_region,
}
use mrimgx_consolidate.Base.Int.{ℤ, pos, negsuc}
use mrimgx_consolidate.Base.Sets.{contains}
use mrimgx_consolidate.Index.{
  DataBlockIndexElement, DeltaDataBlock, PartitionIndex, Blocks, full, delta, is_hole,
}
use mrimgx_consolidate.Reader.{Partition, Disk}
use mrimgx_consolidate.Plan.{MergePlan}
use mrimgx_consolidate.Write.Region.{elements_of}
use mrimgx_consolidate.Write.Metadata.Readback.Parsed.{partition_indexes, disk_indexes}
use mrimgx_consolidate.Write.Output.{
  check_each, check_place, check_named, check_entry, check_blocks, check_partition, check_disks,
}

-- All entries of an index, in the order in which they are checked.
abbrev pub block_entries : Blocks → List DataBlockIndexElement
block_entries (full entries) = entries
block_entries (delta ds) = elements_of ds

abbrev pub index_entries : PartitionIndex → List DataBlockIndexElement
index_entries index = index.reserved ++ block_entries index.blocks

abbrev pub all_entries : List PartitionIndex → List DataBlockIndexElement
all_entries [] = []
all_entries (index ∷ indexes) = index_entries index ++ all_entries indexes

-- What an output may hold: a hole, an own block that ends within the data region, or a block of a
-- file that is not absorbed.
module _ (plan : MergePlan) (data_end : ℕ) where
  abbrev pub IsOwn : DataBlockIndexElement → Type 0
  IsOwn entry =
      (entry.file_number ≡ plan.out_file_number)
      × (start : ℕ) × (entry.file_position ≡ pos start)
      × (start + entry.block_length ≤ data_end)

  abbrev pub IsForeign : DataBlockIndexElement → Type 0
  IsForeign entry =
      ((entry.file_number == plan.out_file_number) ≡ false)
      × (contains plan.absorbed entry.file_number ≡ false)

  abbrev pub IsSound : DataBlockIndexElement → Type 0
  IsSound entry = (is_hole entry ≡ true) ⊎ (IsOwn entry ⊎ IsForeign entry)

  ensure-true : (t : Bool) (e : Error) → ensure t e ≡ ok tt → t ≡ true
  ensure-true true e h = refl
  ensure-true false e h = absurd (cc h)

  -- What a file position is, for the test of its place.
  place : DataBlockIndexElement → ℤ → Result (Unit {0})
  place entry (pos start) = ensure (leb (start + entry.block_length) data_end) past_region
  place entry (negsuc n) = err negative_position

  check_place-place :
      (entry : DataBlockIndexElement) (z : ℤ)
      → entry.file_position ≡ z
      → check_place plan data_end entry ≡ place entry z
  unfolding check_place place
  check_place-place entry (pos start) e = rw e refl
  check_place-place entry (negsuc n) e = rw e refl

  place-eq_ok :
      (entry : DataBlockIndexElement) (z : ℤ)
      → entry.file_position ≡ z
      → place entry z ≡ ok tt
      → (start : ℕ) × (entry.file_position ≡ pos start) × (start + entry.block_length ≤ data_end)
  unfolding place
  place-eq_ok entry (pos start) e h = (start, e, leb→le _ _ (ensure-true _ past_region h))
  place-eq_ok entry (negsuc n) e h = absurd (cc h)

  check_place-fits :
      (entry : DataBlockIndexElement) (start : ℕ)
      → entry.file_position ≡ pos start
      → start + entry.block_length ≤ data_end
      → check_place plan data_end entry ≡ ok tt
  unfolding place
  check_place-fits entry start e fits =
      check_place-place entry (pos start) e ∙ rw (le→leb _ _ fits) refl

  check_named-IsSound :
      (entry : DataBlockIndexElement)
      → check_named plan data_end entry ≡ ok tt
      → IsOwn entry ⊎ IsForeign entry
  unfolding check_named
  check_named-IsSound entry h = elim (Bool-cases (entry.file_number == plan.out_file_number)) [
    | inl own ↦
        let placed : check_place plan data_end entry ≡ ok tt = rw own at h in
        let (start, at, fits) =
          place-eq_ok entry entry.file_position refl
            (sym (check_place-place entry entry.file_position refl) ∙ placed) in
        inl ((==_iff entry.file_number plan.out_file_number).0 own, start, at, fits)
    | inr other ↦ elim (Bool-cases (contains plan.absorbed entry.file_number)) [
      | inl gone ↦ absurd (cc (rw (other, gone) at h))
      | inr stays ↦ inr (other, stays)
    ]
  ]

  IsSound-check_named :
      (entry : DataBlockIndexElement)
      → IsOwn entry ⊎ IsForeign entry
      → check_named plan data_end entry ≡ ok tt
  unfolding check_named
  IsSound-check_named entry (inl (own, start, at, fits)) =
      rw ((==_iff entry.file_number plan.out_file_number).1 own)
        (check_place-fits entry start at fits)
  IsSound-check_named entry (inr (other, stays)) = rw (other, stays) refl

  check_entry_iff :
      (entry : DataBlockIndexElement) → (check_entry plan data_end entry ≡ ok tt) ↔ IsSound entry
  unfolding check_entry
  check_entry_iff entry = elim (Bool-cases (is_hole entry)) [
    | inl a_hole ↦ (λ h. inl a_hole, λ h. rw a_hole refl)
    | inr block ↦ (
      λ h. inr (check_named-IsSound entry (rw block at h)),
      λ h. elim h [
        | inl a_hole ↦ absurd (cc (a_hole, block))
        | inr sound ↦ rw block (IsSound-check_named entry sound)
      ],
    )
  ]

pub all_entries-append :
    (is js : List PartitionIndex) → all_entries (is ++ js) ≡ all_entries is ++ all_entries js
all_entries-append [] js = refl
all_entries-append (i ∷ is) js =
    ap (λ l. index_entries i ++ l) (all_entries-append is js)
    ∙ sym (append_assoc (index_entries i) (all_entries is) (all_entries js))

check_each_iff :
    {A : Type 0} (check : A → Result (Unit {0})) (P : A → Type 0) (xs : List A)
    → ((a : A) → (check a ≡ ok tt) ↔ P a)
    → (check_each check xs ≡ ok tt) ↔ All P xs
unfolding check_each
check_each_iff check P [] one = (λ h. tt, λ h. refl)
check_each_iff check P (x ∷ xs) one =
    let (to, from) = check_each_iff check P xs one in
    (
      λ h.
          let (u, now, later) = >>=-eq_ok (check x) (λ u. check_each check xs) h in
          ((one x).0 now, to later),
      λ h. rw ((one x).1 h.0) (from h.1),
    )

pub All-append_iff :
    (P : DataBlockIndexElement → Type 0) (xs ys : List DataBlockIndexElement)
    → All P (xs ++ ys) ↔ (All P xs × All P ys)
All-append_iff P [] ys = (λ h. (tt, h), λ h. h.1)
All-append_iff P (x ∷ xs) ys =
    let (to, from) = All-append_iff P xs ys in
    (λ h. let (front, back) = to h.1 in ((h.0, front), back), λ h. (h.0.0, from (h.0.1, h.1)))

module _ (plan : MergePlan) (data_end : ℕ) where
  abbrev Sound : DataBlockIndexElement → Type 0
  Sound = IsSound plan data_end

  All-elements_of :
      (ds : List DeltaDataBlock)
      → All (λ (d : DeltaDataBlock). Sound d.element) ds ↔ All Sound (elements_of ds)
  All-elements_of [] = (λ h. tt, λ h. tt)
  All-elements_of (d ∷ ds) =
      let (to, from) = All-elements_of ds in (λ h. (h.0, to h.1), λ h. (h.0, from h.1))

  check_blocks_iff :
      (b : Blocks) → (check_blocks plan data_end b ≡ ok tt) ↔ All Sound (block_entries b)
  unfolding check_blocks
  check_blocks_iff (full entries) =
      check_each_iff (check_entry plan data_end) Sound entries (check_entry_iff plan data_end)
  check_blocks_iff (delta ds) =
      let (to, from) =
        check_each_iff (λ (d : DeltaDataBlock). check_entry plan data_end d.element)
          (λ (d : DeltaDataBlock). Sound d.element) ds
          (λ d. check_entry_iff plan data_end d.element) in
      (λ h. (All-elements_of ds).0 (to h), λ h. from ((All-elements_of ds).1 h))

  check_partition_iff :
      (part : Partition)
      → (check_partition plan data_end part ≡ ok tt) ↔ All Sound (index_entries part.index)
  unfolding check_partition
  check_partition_iff part =
      let (to, from) =
        check_each_iff (check_entry plan data_end) Sound part.index.reserved
          (check_entry_iff plan data_end) in
      let (to', from') = check_blocks_iff part.index.blocks in
      let (join, split) =
        All-append_iff Sound part.index.reserved (block_entries part.index.blocks) in
      (
        λ h.
            let (u, now, later) =
              >>=-eq_ok (check_each (check_entry plan data_end) part.index.reserved)
                (λ u. check_blocks plan data_end part.index.blocks) h in
            split (to now, to' later),
        λ h. let (front, back) = join h in rw (from front) (from' back),
      )

  All-partitions :
      (ps : List Partition)
      → All (λ (p : Partition). All Sound (index_entries p.index)) ps
        ↔ All Sound (all_entries (partition_indexes ps))
  All-partitions [] = (λ h. tt, λ h. tt)
  All-partitions (p ∷ ps) =
      let (to, from) = All-partitions ps in
      let (join, split) =
        All-append_iff Sound (index_entries p.index) (all_entries (partition_indexes ps)) in
      (λ h. split (h.0, to h.1), λ h. let (front, back) = join h in (front, from back))

  All-disks :
      (ds : List Disk)
      → All
          (λ (d : Disk). All (λ (p : Partition). All Sound (index_entries p.index)) d.partitions)
          ds
        ↔ All Sound (all_entries (disk_indexes ds))
  All-disks [] = (λ h. tt, λ h. tt)
  All-disks (d ∷ ds) =
      let (to, from) = All-disks ds in
      let (to', from') = All-partitions d.partitions in
      let (join, split) =
        All-append_iff Sound (all_entries (partition_indexes d.partitions))
          (all_entries (disk_indexes ds)) in
      let whole = all_entries-append (partition_indexes d.partitions) (disk_indexes ds) in
      (
        λ h. subst (All Sound) (sym whole) (split (to' h.0, to h.1)),
        λ h. let (front, back) = join (subst (All Sound) whole h) in (from' front, from back),
      )

  -- The check of the entries accepts the disks of an output exactly when every entry, of the reserved
  -- sectors and of the blocks, is a hole, an own block that ends within the data region, or a block of a
  -- file that the merge did not absorb.
  pub check_disks_iff :
      (disks : List Disk)
      → (check_disks plan data_end disks ≡ ok tt)
        ↔ All (IsSound plan data_end) (all_entries (disk_indexes disks))
  unfolding check_disks
  check_disks_iff disks =
      let (to, from) =
        check_each_iff (λ (d : Disk). check_each (check_partition plan data_end) d.partitions)
          (λ (d : Disk). All (λ (p : Partition). All Sound (index_entries p.index)) d.partitions)
          disks
          (λ d.
            check_each_iff (check_partition plan data_end)
              (λ (p : Partition). All Sound (index_entries p.index)) d.partitions
              check_partition_iff) in
      let (to', from') = All-disks disks in (λ h. to' (to h), λ h. from (from' h))
