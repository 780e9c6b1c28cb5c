-- ===== src/Verify/Disks.antt =====
-- `verify_file` (src/verify.rs): the pass over all disks of an opened file.
use mrimgx_consolidate.Base.{
  ℕ, suc, ◌<◌, ◌≡◌, sym, subst, not, List, [], ◌∷◌, ◌==◌, Result, ok, >>=-eq_ok, ensure-eq_ok,
  ok-injective, arith, no_own_block,
}
use mrimgx_consolidate.Base.Bytes.{Bytes}
use mrimgx_consolidate.Index.{DataBlockIndexElement}
use mrimgx_consolidate.Json.{Documents}
use mrimgx_consolidate.Reader.{Partition, Disk}
use mrimgx_consolidate.Write.Metadata.Readback.Parsed.{partition_indexes, disk_indexes}
use mrimgx_consolidate.Write.Output.Sound.{index_entries, all_entries, all_entries-append}
use mrimgx_consolidate.Verify.{
  Verified, nothing_verified, Where, numbering, check_partition, check_partitions, check_disks,
  verify_disks,
}
use mrimgx_consolidate.Verify.Tested.{
  is_own, is_elsewhere, count, PartitionTested, Counts, Counts-nothing, Counts-append,
  check_partition-PartitionTested,
}

module _ (md5 : Bytes → Bytes) (undo : Bytes → Where → ℕ → Result Bytes) (file : Bytes) (own : ℕ)
    (J : Documents) (document : Documents.Value J) where
  -- Every partition is tested under the numbers that the document records for it.
  abbrev pub PartitionsTested : ℕ → ℕ → List Partition → Type 0
  PartitionsTested d p [] = Unit
  PartitionsTested d p (part ∷ parts) =
      ((at : Where) × (numbering J document d p ≡ ok at)
        × PartitionTested md5 undo file own at part)
      × PartitionsTested d (suc p) parts

  abbrev pub DisksTested : ℕ → List Disk → Type 0
  DisksTested d [] = Unit
  DisksTested d (disk ∷ disks) = PartitionsTested d 0 disk.partitions × DisksTested (suc d) disks

  abbrev Counted : List DataBlockIndexElement → Verified → Verified → Type 0
  Counted = Counts md5 undo file own

  check_partitions-PartitionsTested :
      (d p : ℕ) (parts : List Partition) (r r' : Verified)
      → check_partitions md5 undo file own J document d p parts r ≡ ok r'
      → PartitionsTested d p parts × Counted (all_entries (partition_indexes parts)) r r'
  unfolding check_partitions
  check_partitions-PartitionsTested d p [] r r' h =
      (tt, subst (Counted [] r) (ok-injective h) (Counts-nothing md5 undo file own r))
  check_partitions-PartitionsTested d p (part ∷ parts) r r' h =
      let (at, numbered, h1) = >>=-eq_ok (numbering J document d p) _ h in
      let (s, now, later) = >>=-eq_ok (check_partition md5 undo file own at part r) _ h1 in
      let (tested, counts) = check_partition-PartitionTested md5 undo file own at part r s now in
      let (others, more) = check_partitions-PartitionsTested d (suc p) parts s r' later in
      (
        ((at, numbered, tested), others),
        Counts-append md5 undo file own (index_entries part.index)
            (all_entries (partition_indexes parts)) r s r' counts more,
      )

  check_disks-DisksTested :
      (d : ℕ) (disks : List Disk) (r r' : Verified)
      → check_disks md5 undo file own J document d disks r ≡ ok r'
      → DisksTested d disks × Counted (all_entries (disk_indexes disks)) r r'
  unfolding check_disks
  check_disks-DisksTested d [] r r' h =
      (tt, subst (Counted [] r) (ok-injective h) (Counts-nothing md5 undo file own r))
  check_disks-DisksTested d (disk ∷ disks) r r' h =
      let (s, now, later) =
        >>=-eq_ok (check_partitions md5 undo file own J document d 0 disk.partitions r) _ h in
      let (tested, counts) = check_partitions-PartitionsTested d 0 disk.partitions r s now in
      let (others, more) = check_disks-DisksTested (suc d) disks s r' later in
      (
        (tested, others),
        subst (λ es. Counted es r r')
            (sym (all_entries-append (partition_indexes disk.partitions) (disk_indexes disks)))
            (Counts-append md5 undo file own (all_entries (partition_indexes disk.partitions))
              (all_entries (disk_indexes disks)) r s r' counts more),
      )

  -- A pass that succeeds has read and undone every block that the file holds itself, under the numbers of
  -- its disk and partition in the document, and the hash of each plaintext is the recorded one. It has
  -- counted those blocks, of which there is at least one, and the blocks of other files.
  pub verify_disks-DisksTested :
      (disks : List Disk) (report : Verified)
      → verify_disks md5 undo file own J document disks ≡ ok report
      → DisksTested 0 disks
        × (report.blocks ≡ count (is_own own) (all_entries (disk_indexes disks)))
        × (report.elsewhere ≡ count (is_elsewhere own) (all_entries (disk_indexes disks)))
        × (0 < report.blocks)
  unfolding verify_disks
  verify_disks-DisksTested disks report h =
      let (r, passed, h1) =
        >>=-eq_ok (check_disks md5 undo file own J document 0 disks nothing_verified) _ h in
      let (some_own, h2) = ensure-eq_ok (not (r.blocks == 0)) no_own_block _ h1 in
      let same : r ≡ report = ok-injective h2 in
      let (tested, counts) = check_disks-DisksTested 0 disks nothing_verified r passed in
      let positive : 0 < r.blocks = ground (arith, some_own) in
      subst
        (λ (v : Verified).
          DisksTested 0 disks
          × (v.blocks ≡ count (is_own own) (all_entries (disk_indexes disks)))
          × (v.elsewhere ≡ count (is_elsewhere own) (all_entries (disk_indexes disks)))
          × (0 < v.blocks))
        same (tested, omega (arith, counts.blocks), omega (arith, counts.elsewhere), positive)
