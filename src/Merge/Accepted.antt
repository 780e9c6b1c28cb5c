-- ===== src/Merge/Accepted.antt =====
-- A planned merge (src/plan.rs), once it is written, passes the check of its entries (`check_output`,
-- src/write.rs).
use mrimgx_consolidate.Base.{
  ℕ, ◌≡◌, refl, sym, ap, subst, true, false, List, [], ◌∷◌, map, All, All-append, ◌==◌, ==_iff,
  length, ok, Bool-cases, inl, inr,
}
use mrimgx_consolidate.Base.Bytes.{Bytes}
use mrimgx_consolidate.Base.Sets.{contains}
use mrimgx_consolidate.Index.{DataBlockIndexElement, Blocks, full, delta, is_hole}
use mrimgx_consolidate.Json.{Documents}
use mrimgx_consolidate.Reader.{BackupFile, Disk}
use mrimgx_consolidate.Set.{BackupSet, Flattened}
use mrimgx_consolidate.Plan.{
  MergeKind, synthetic_full, incremental_merge, PartitionPlan, MergePlan, changed_positions,
  classify,
}
use mrimgx_consolidate.Plan.Build.{entry_or_hole, build}
use mrimgx_consolidate.Plan.Planned.{PlannedBlocks, IsPlanned, build-IsPlan}
use mrimgx_consolidate.Write.{
  WrittenPartition, DataRegion, BlockSource, read_source, write_data_region,
}
use mrimgx_consolidate.Write.Source.{ReadsExactly, read_source-ReadsExactly, read_exact-eq_ok}
use mrimgx_consolidate.Write.Copied.{IsWritten, AllWritten}
use mrimgx_consolidate.Write.Region.{
  elements_of, BlocksWritten, AllPartitionsWritten, write_data_region-IsRegion,
}
use mrimgx_consolidate.Write.Metadata.Readback.Parsed.{written_indexes, disk_indexes}
use mrimgx_consolidate.Write.Output.{check_disks}
use mrimgx_consolidate.Write.Output.Sound.{
  IsSound, block_entries, index_entries, all_entries, check_disks_iff,
}
use mrimgx_consolidate.Merge.Preserve.{classify-hole, classify-copy, classify-keep}

module _ (source : BlockSource) (exact : ReadsExactly source) (out : Bytes) (plan : MergePlan)
    (own : contains plan.absorbed plan.out_file_number ≡ true) where
  abbrev Written : List DataBlockIndexElement → List DataBlockIndexElement → Type 0
  Written olds news =
      AllWritten source exact plan.out_file_number out (map (classify plan.absorbed) olds) news

  apart : (k : ℕ) → contains plan.absorbed k ≡ false → (k == plan.out_file_number) ≡ false
  apart k stays = elim (Bool-cases (k == plan.out_file_number)) [
    | inl same ↦ absurd (cc (own, stays, (==_iff k plan.out_file_number).0 same))
    | inr other ↦ other
  ]

  IsWritten-IsSound :
      (old new : DataBlockIndexElement)
      → IsWritten source exact plan.out_file_number out (classify plan.absorbed old) new
      → IsSound plan (length out) new
  IsWritten-IsSound old new w = elim (Bool-cases (is_hole old)) [
    | inl a_hole ↦
        let e =
          subst (λ a. IsWritten source exact plan.out_file_number out a new)
            (classify-hole plan.absorbed old a_hole) w in
        inl (ap is_hole e)
    | inr block ↦ elim (Bool-cases (contains plan.absorbed old.file_number)) [
      | inl gone ↦
          let (q, same, stored) =
            subst (λ a. IsWritten source exact plan.out_file_number out a new)
              (classify-copy plan.absorbed old block gone) w in
          let (room, bytes) =
            read_exact-eq_ok out q old.block_length stored.bytes stored.in_output in
          subst (IsSound plan (length out)) (sym same) (inr (inl (refl, q, refl, room)))
      | inr stays ↦
          let same =
            subst (λ a. IsWritten source exact plan.out_file_number out a new)
              (classify-keep plan.absorbed old block stays) w in
          subst (IsSound plan (length out)) (sym same)
            (inr (inr (apart old.file_number stays, stays)))
    ]
  ]

  AllWritten-IsSound :
      (olds news : List DataBlockIndexElement)
      → Written olds news
      → All (IsSound plan (length out)) news
  AllWritten-IsSound [] [] h = tt
  AllWritten-IsSound [] (new ∷ news) h = absurd h
  AllWritten-IsSound (old ∷ olds) [] h = absurd h
  AllWritten-IsSound (old ∷ olds) (new ∷ news) (h, hs) =
      (IsWritten-IsSound old new h, AllWritten-IsSound olds news hs)

  BlocksWritten-IsSound :
      (kind : MergeKind) (part : PartitionPlan) (changed : List ℕ)
      (resolved : List DataBlockIndexElement) (b : Blocks)
      → PlannedBlocks kind plan.absorbed changed resolved part
      → BlocksWritten source exact plan.out_file_number out kind part b
      → All (IsSound plan (length out)) (block_entries b)
  BlocksWritten-IsSound synthetic_full part changed resolved (full news) (same, _) w =
      AllWritten-IsSound resolved news
        (subst (λ as'. AllWritten source exact plan.out_file_number out as' news) same w)
  BlocksWritten-IsSound synthetic_full part changed resolved (delta ds) h w = absurd w
  BlocksWritten-IsSound incremental_merge part changed resolved (full news) h w = absurd w
  BlocksWritten-IsSound incremental_merge part changed resolved (delta ds) (same, _) (at, w) =
      AllWritten-IsSound (map (entry_or_hole resolved) changed) (elements_of ds) (
        subst (λ as'. AllWritten source exact plan.out_file_number out as' (elements_of ds)) same w)

  AllPartitionsWritten-IsSound :
      {V : Type 0} (s : BackupSet V) (to : BackupFile V) (kind : MergeKind) (flat : Flattened)
      (parts : List PartitionPlan) (ws : List WrittenPartition)
      → All (IsPlanned s to kind plan.absorbed flat) parts
      → AllPartitionsWritten source exact plan.out_file_number out kind parts ws
      → All (IsSound plan (length out)) (all_entries (written_indexes ws))
  AllPartitionsWritten-IsSound s to kind flat [] [] planned wrote = tt
  AllPartitionsWritten-IsSound s to kind flat [] (w ∷ ws) planned wrote = absurd wrote
  AllPartitionsWritten-IsSound s to kind flat (part ∷ parts) [] planned wrote = absurd wrote
  AllPartitionsWritten-IsSound s to kind flat (part ∷ parts) (w ∷ ws) (p, ps) (q, qs) =
      let reserved = AllWritten-IsSound p.origin.index.reserved w.index.reserved (
        subst (λ as'. AllWritten source exact plan.out_file_number out as' w.index.reserved)
          p.reserved q.reserved) in
      let blocks =
        BlocksWritten-IsSound kind part (changed_positions s plan.absorbed part.disk part.partition)
          p.resolved w.index.blocks p.blocks q.blocks in
      All-append (IsSound plan (length out)) (index_entries w.index)
        (all_entries (written_indexes ws))
        (All-append (IsSound plan (length out)) w.index.reserved (block_entries w.index.blocks)
          reserved blocks)
        (AllPartitionsWritten-IsSound s to kind flat parts ws ps qs)

-- The disks that a reader finds with the indexes of a written merge pass the check of the entries
-- against the end of the data region: no entry is left that names an absorbed file, and no own block
-- runs past the region.
pub build-check_disks :
    (J : Documents) (s : BackupSet (Documents.Value J)) (from_number to_number : ℕ)
    (plan : MergePlan) (handles : List (ℕ × Bytes)) (region : DataRegion) (out : Bytes)
    (disks : List Disk)
    → build J s from_number to_number ≡ ok plan
    → write_data_region plan (read_source handles) [] plan.out_file_number ≡ ok (region, out)
    → disk_indexes disks ≡ written_indexes region.partitions
    → check_disks plan region.end disks ≡ ok tt
build-check_disks J s from_number to_number plan handles region out disks built wrote same =
    let planned = build-IsPlan J s from_number to_number plan built in
    let done =
      write_data_region-IsRegion (read_source handles) (read_source-ReadsExactly handles)
        plan.out_file_number plan region out wrote in
    let sound =
      AllPartitionsWritten-IsSound (read_source handles) (read_source-ReadsExactly handles) out plan
        planned.absorbs_itself s planned.to plan.kind planned.flat plan.partitions region.partitions
        planned.partitions done.partitions in
    (check_disks_iff plan region.end disks).1 (
      subst (λ n. All (IsSound plan n) (all_entries (disk_indexes disks))) done.size
        (subst (λ is. All (IsSound plan (length out)) (all_entries is)) (sym same) sound))
