-- ===== src/Write/Output/DataEnd.antt =====
-- `own_data_end` (src/reader.rs), and what `check_output` (src/write.rs) says of it.
use Prim.Native.Nat.{max}
use mrimgx_consolidate.Base.{
  ℕ, ◌+◌, ◌≤◌, ◌≡◌, ◌⊎◌, ◌↔◌, refl, sym, subst, true, ◌||◌, not, List, [], ◌∷◌, All, ◌==◌, ok,
  Bool-cases, inl, inr, arith,
}
use mrimgx_consolidate.Index.{DataBlockIndexElement, DeltaDataBlock, Blocks, full, delta, is_hole}
use mrimgx_consolidate.Reader.{
  Partition, Disk, BackupFile, position_of, consider, consider_entries, consider_deltas,
  consider_blocks, consider_partitions, consider_disks, own_data_end,
}
use mrimgx_consolidate.Plan.{MergePlan}
use mrimgx_consolidate.Write.Region.{elements_of}
use mrimgx_consolidate.Write.Metadata.Readback.Parsed.{partition_indexes, disk_indexes}
use mrimgx_consolidate.Write.Output.{check_disks}
use mrimgx_consolidate.Write.Output.Sound.{
  IsSound, block_entries, index_entries, all_entries, all_entries-append, All-append_iff,
  check_disks_iff,
}

module _ (own n : ℕ) where
  -- An own block ends at `n` at the latest.
  abbrev pub EndsBy : DataBlockIndexElement → Type 0
  EndsBy e =
      ((is_hole e || not (e.file_number == own)) ≡ true)
      ⊎ (position_of e.file_position + e.block_length ≤ n)

  consider_iff :
      (end : ℕ) (e : DataBlockIndexElement) → (consider own end e ≤ n) ↔ ((end ≤ n) × EndsBy e)
  unfolding consider
  consider_iff end e = elim (Bool-cases (is_hole e || not (e.file_number == own))) [
    | inl other ↦ (λ h. (rw other at h, inl other), λ h. rw other h.0)
    | inr mine ↦ (
      λ h.
          let both : max end (position_of e.file_position + e.block_length) ≤ n = rw mine at h in
          (omega (arith, both), inr (omega (arith, both))),
      λ h. elim h.1 [
        | inl other ↦ absurd (cc (other, mine))
        | inr low ↦ rw mine (omega (arith, h.0, low))
      ],
    )
  ]

  consider_entries_iff :
      (end : ℕ) (es : List DataBlockIndexElement)
      → (consider_entries own end es ≤ n) ↔ ((end ≤ n) × All EndsBy es)
  unfolding consider_entries
  consider_entries_iff end [] = (λ h. (h, tt), λ h. h.0)
  consider_entries_iff end (e ∷ es) =
      let (to, from) = consider_entries_iff (consider own end e) es in
      let (to', from') = consider_iff end e in
      (
        λ h. let (first, rest) = to h in let (low, here) = to' first in (low, (here, rest)),
        λ h. from (from' (h.0, h.1.0), h.1.1),
      )

  consider_deltas_iff :
      (end : ℕ) (ds : List DeltaDataBlock)
      → (consider_deltas own end ds ≤ n) ↔ ((end ≤ n) × All EndsBy (elements_of ds))
  unfolding consider_deltas
  consider_deltas_iff end [] = (λ h. (h, tt), λ h. h.0)
  consider_deltas_iff end (d ∷ ds) =
      let (to, from) = consider_deltas_iff (consider own end d.element) ds in
      let (to', from') = consider_iff end d.element in
      (
        λ h. let (first, rest) = to h in let (low, here) = to' first in (low, (here, rest)),
        λ h. from (from' (h.0, h.1.0), h.1.1),
      )

  consider_blocks_iff :
      (end : ℕ) (b : Blocks)
      → (consider_blocks own end b ≤ n) ↔ ((end ≤ n) × All EndsBy (block_entries b))
  unfolding consider_blocks
  consider_blocks_iff end (full entries) = consider_entries_iff end entries
  consider_blocks_iff end (delta ds) = consider_deltas_iff end ds

  consider_partitions_iff :
      (end : ℕ) (ps : List Partition)
      → (consider_partitions own end ps ≤ n)
        ↔ ((end ≤ n) × All EndsBy (all_entries (partition_indexes ps)))
  unfolding consider_partitions
  consider_partitions_iff end [] = (λ h. (h, tt), λ h. h.0)
  consider_partitions_iff end (p ∷ ps) =
      let mid = consider_entries own end p.index.reserved in
      let (to, from) = consider_partitions_iff (consider_blocks own mid p.index.blocks) ps in
      let (to', from') = consider_blocks_iff mid p.index.blocks in
      let (to'', from'') = consider_entries_iff end p.index.reserved in
      let (join, split) = All-append_iff EndsBy p.index.reserved (block_entries p.index.blocks) in
      let (join', split') =
        All-append_iff EndsBy (index_entries p.index) (all_entries (partition_indexes ps)) in
      (
        λ h.
            let (first, rest) = to h in
            let (second, blocks) = to' first in
            let (low, reserved) = to'' second in (low, split' (split (reserved, blocks), rest)),
        λ h.
            let (here, rest) = join' h.1 in
            let (reserved, blocks) = join here in
            from (from' (from'' (h.0, reserved), blocks), rest),
      )

  consider_disks_iff :
      (end : ℕ) (ds : List Disk)
      → (consider_disks own end ds ≤ n) ↔ ((end ≤ n) × All EndsBy (all_entries (disk_indexes ds)))
  unfolding consider_disks
  consider_disks_iff end [] = (λ h. (h, tt), λ h. h.0)
  consider_disks_iff end (d ∷ ds) =
      let (to, from) = consider_disks_iff (consider_partitions own end d.partitions) ds in
      let (to', from') = consider_partitions_iff end d.partitions in
      let (join, split) =
        All-append_iff EndsBy (all_entries (partition_indexes d.partitions))
          (all_entries (disk_indexes ds)) in
      let whole = all_entries-append (partition_indexes d.partitions) (disk_indexes ds) in
      (
        λ h.
            let (first, rest) = to h in
            let (low, here) = to' first in
            (low, subst (All EndsBy) (sym whole) (split (here, rest))),
        λ h.
            let (here, rest) = join (subst (All EndsBy) whole h.1) in
            from (from' (h.0, here), rest),
      )

-- `own_data_end` is the least offset at which all blocks have ended that the file stores itself.
pub own_data_end_iff :
    {V : Type 0} (file : BackupFile V) (n : ℕ)
    → (own_data_end file ≤ n)
      ↔ All (EndsBy file.header.file_number n) (all_entries (disk_indexes file.disks))
unfolding own_data_end
own_data_end_iff file n =
    let (to, from) = consider_disks_iff file.header.file_number n 0 file.disks in
    (λ h. (to h).1, λ h. from (omega arith, h))

module _ (plan : MergePlan) (n : ℕ) where
  IsSound-EndsBy : (e : DataBlockIndexElement) → IsSound plan n e → EndsBy plan.out_file_number n e
  IsSound-EndsBy e (inl a_hole) = inl (rw a_hole refl)
  IsSound-EndsBy e (inr (inl (own, start, at, fits))) = inr (rw at fits)
  IsSound-EndsBy e (inr (inr (other, stays))) = inl (ground (arith, other))

  All-EndsBy :
      (es : List DataBlockIndexElement)
      → All (IsSound plan n) es
      → All (EndsBy plan.out_file_number n) es
  All-EndsBy [] h = tt
  All-EndsBy (e ∷ es) (h, hs) = (IsSound-EndsBy e h, All-EndsBy es hs)

  -- An output whose entries the check accepts against an offset stores no block of its own behind it.
  pub check_disks-own_data_end :
      {V : Type 0} (file : BackupFile V)
      → file.header.file_number ≡ plan.out_file_number
      → check_disks plan n file.disks ≡ ok tt
      → own_data_end file ≤ n
  check_disks-own_data_end file number passes = (own_data_end_iff file n).1 (
      subst (λ k. All (EndsBy k n) (all_entries (disk_indexes file.disks))) (sym number)
        (All-EndsBy (all_entries (disk_indexes file.disks))
          ((check_disks_iff plan n file.disks).0 passes)))
