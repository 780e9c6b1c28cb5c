-- ===== src/Merge/Whole.antt =====
-- A whole merge: a plan that `build` (src/plan.rs) makes from a set, and the data region that
-- `write_data_region` (src/write.rs) writes from it.
use mrimgx_consolidate.Base.{ℕ, ◌≡◌, ap, ◌∙◌, refl, subst, true, List, [], ◌∷◌, some, map, All, ok}
use mrimgx_consolidate.Base.Bytes.{Bytes}
use mrimgx_consolidate.Base.Sets.{contains}
use mrimgx_consolidate.Index.{DataBlockIndexElement, Blocks, full, delta}
use mrimgx_consolidate.Json.{Documents}
use mrimgx_consolidate.Reader.{BackupFile, Partition}
use mrimgx_consolidate.Set.{BackupSet, Flattened, flatten, partition_at}
use mrimgx_consolidate.Plan.{
  MergeKind, synthetic_full, incremental_merge, PartitionPlan, MergePlan, changed_positions,
}
use mrimgx_consolidate.Plan.Places.{plan_places, disk_places}
use mrimgx_consolidate.Plan.Rules.{find_member}
use mrimgx_consolidate.Plan.Build.{entry_or_hole, resolved_at, build}
use mrimgx_consolidate.Plan.Planned.{PlannedBlocks, IsPlanned, build-IsPlan}
use mrimgx_consolidate.Write.{WrittenPartition, DataRegion, read_source, write_data_region}
use mrimgx_consolidate.Write.Source.{read_source-ReadsExactly}
use mrimgx_consolidate.Write.Copied.{AllWritten}
use mrimgx_consolidate.Write.Region.{
  elements_of, positions_of, BlocksWritten, PartitionWritten, AllPartitionsWritten,
  write_data_region-IsRegion,
}
use mrimgx_consolidate.Merge.Preserve.{AllPreserved, AllWritten-AllPreserved}

-- The disk and the partition number of each written partition.
abbrev pub written_places : List WrittenPartition → List (ℕ × ℕ)
written_places [] = []
written_places (w ∷ ws) = (w.disk, w.partition) ∷ written_places ws

module _ (handles : List (ℕ × Bytes)) (out : Bytes) (absorbed : List ℕ) (number : ℕ) where
  -- The block array of an output, against the resolved blocks of the set: all of them, in order,
  -- or those at the changed positions.
  abbrev pub BlocksPreserved : MergeKind → List ℕ → List DataBlockIndexElement → Blocks → Type 0
  BlocksPreserved synthetic_full changed resolved (full news) =
      AllPreserved handles out absorbed number resolved news
  BlocksPreserved incremental_merge changed resolved (delta ds) =
      (positions_of ds ≡ changed)
      × AllPreserved handles out absorbed number (map (entry_or_hole resolved) changed)
          (elements_of ds)
  BlocksPreserved _ changed resolved _ = ⊥

  -- A written partition, against the set and its To file.
  pub record IsMerged {V : Type 0} (s : BackupSet V) (to : BackupFile V) (kind : MergeKind)
      (flat : Flattened) (w : WrittenPartition) : Type 0 where
    pub origin : Partition
    pub resolved : List DataBlockIndexElement
    pub origin_at : partition_at to w.disk w.partition ≡ ok origin
    pub resolved_here : resolved_at flat w.disk w.partition ≡ some resolved
    pub reserved : AllPreserved handles out absorbed number origin.index.reserved w.index.reserved
    pub blocks :
        BlocksPreserved kind
          (changed_positions s absorbed w.disk w.partition)
          resolved
          w.index.blocks

module _ (handles : List (ℕ × Bytes)) (out : Bytes) (absorbed : List ℕ) (number : ℕ)
    (own : contains absorbed number ≡ true) where
  BlocksWritten-BlocksPreserved :
      (kind : MergeKind) (part : PartitionPlan) (changed : List ℕ)
      (resolved : List DataBlockIndexElement) (b : Blocks)
      → PlannedBlocks kind absorbed changed resolved part
      → BlocksWritten
          (read_source handles)
          (read_source-ReadsExactly handles)
          number
          out
          kind
          part
          b
      → BlocksPreserved handles out absorbed number kind changed resolved b
  BlocksWritten-BlocksPreserved synthetic_full part changed resolved (full news) h w =
      let (same, _) = h in
      AllWritten-AllPreserved handles out absorbed number own resolved news (
        subst
          (λ as'.
            AllWritten (read_source handles) (read_source-ReadsExactly handles) number out as' news)
          same w)
  BlocksWritten-BlocksPreserved synthetic_full part changed resolved (delta ds) h w = absurd w
  BlocksWritten-BlocksPreserved incremental_merge part changed resolved (full news) h w = absurd w
  BlocksWritten-BlocksPreserved incremental_merge part changed resolved (delta ds) h (at, w) =
      let (same, positions) = h in
      (
        at ∙ positions,
        AllWritten-AllPreserved handles out absorbed number own
            (map (entry_or_hole resolved) changed) (elements_of ds)
            (subst
              (λ as'.
                AllWritten (read_source handles) (read_source-ReadsExactly handles) number out as'
                  (elements_of ds))
              same w),
      )

  PartitionWritten-IsMerged :
      {V : Type 0} (s : BackupSet V) (to : BackupFile V) (kind : MergeKind) (flat : Flattened)
      (part : PartitionPlan) (w : WrittenPartition)
      → IsPlanned s to kind absorbed flat part
      → PartitionWritten
          (read_source handles)
          (read_source-ReadsExactly handles)
          number
          out
          kind
          part
          w
      → IsMerged handles out absorbed number s to kind flat w
  PartitionWritten-IsMerged s to kind flat part w planned wrote = record {
    origin = planned.origin;
    resolved = planned.resolved;
    origin_at = rw (wrote.same_disk, wrote.same_partition) planned.origin_at;
    resolved_here = rw (wrote.same_disk, wrote.same_partition) planned.resolved_here;
    reserved =
        AllWritten-AllPreserved handles out absorbed number own planned.origin.index.reserved
          w.index.reserved
          (subst
            (λ as'.
              AllWritten (read_source handles) (read_source-ReadsExactly handles) number out as'
                w.index.reserved)
            planned.reserved wrote.reserved);
    blocks =
        rw (wrote.same_disk, wrote.same_partition)
          (BlocksWritten-BlocksPreserved kind part
            (changed_positions s absorbed part.disk part.partition) planned.resolved w.index.blocks
            planned.blocks wrote.blocks);
  }

  written_places-AllPartitionsWritten :
      (kind : MergeKind) (parts : List PartitionPlan) (ws : List WrittenPartition)
      → AllPartitionsWritten
          (read_source handles)
          (read_source-ReadsExactly handles)
          number
          out
          kind
          parts
          ws
      → written_places ws ≡ plan_places parts
  written_places-AllPartitionsWritten kind [] [] wrote = refl
  written_places-AllPartitionsWritten kind [] (w ∷ ws) wrote = absurd wrote
  written_places-AllPartitionsWritten kind (part ∷ parts) [] wrote = absurd wrote
  written_places-AllPartitionsWritten kind (part ∷ parts) (w ∷ ws) (p, ps) =
      rw (p.same_disk, p.same_partition)
        (ap (λ l. (part.disk, part.partition) ∷ l)
          (written_places-AllPartitionsWritten kind parts ws ps))

  AllPartitionsWritten-IsMerged :
      {V : Type 0} (s : BackupSet V) (to : BackupFile V) (kind : MergeKind) (flat : Flattened)
      (parts : List PartitionPlan) (ws : List WrittenPartition)
      → All (IsPlanned s to kind absorbed flat) parts
      → AllPartitionsWritten
          (read_source handles)
          (read_source-ReadsExactly handles)
          number
          out
          kind
          parts
          ws
      → All (IsMerged handles out absorbed number s to kind flat) ws
  AllPartitionsWritten-IsMerged s to kind flat [] [] planned wrote = tt
  AllPartitionsWritten-IsMerged s to kind flat [] (w ∷ ws) planned wrote = absurd wrote
  AllPartitionsWritten-IsMerged s to kind flat (part ∷ parts) [] planned wrote = absurd wrote
  AllPartitionsWritten-IsMerged s to kind flat (part ∷ parts) (w ∷ ws) (p, ps) (q, qs) = (
    PartitionWritten-IsMerged s to kind flat part w p q,
    AllPartitionsWritten-IsMerged s to kind flat parts ws ps qs,
  )

module _ (J : Documents) where
  open J use {Value}

  -- What a merge that succeeds leaves: the output answers for the number of the From file, and its
  -- partitions hold what the set resolved to.
  pub record IsMerge (s : BackupSet Value) (from_number to_number : ℕ) (plan : MergePlan)
      (handles : List (ℕ × Bytes)) (region : DataRegion) (out : Bytes) : Type 0 where
    pub from : BackupFile Value
    pub to : BackupFile Value
    pub flat : Flattened
    pub from_found : find_member s.members from_number ≡ some from
    pub to_found : find_member s.members to_number ≡ some to
    pub flattened : flatten s ≡ ok flat
    pub own : contains plan.absorbed plan.out_file_number ≡ true
    pub out_file : plan.out_file_number ≡ from.header.file_number
    pub covers : written_places region.partitions ≡ disk_places 0 to.disks
    pub partitions :
        All
          (IsMerged handles out plan.absorbed plan.out_file_number s to plan.kind flat)
          region.partitions

  -- A merge that is planned from a set and then written from the open files leaves, for every
  -- partition of the To file and in their order, an array that stands for the same blocks as the
  -- resolved array of the set: the same holes, hashes and lengths, and the same stored bytes when
  -- the output is read in place of the From file. No entry that it writes names an absorbed file other than the output. A synthetic
  -- Full has every block, and an incremental merge those at the changed positions. The reserved
  -- sectors are those of the To file, likewise.
  pub build-IsMerge :
      (s : BackupSet Value) (from_number to_number : ℕ) (plan : MergePlan)
      (handles : List (ℕ × Bytes)) (region : DataRegion) (out : Bytes)
      → build J s from_number to_number ≡ ok plan
      → write_data_region plan (read_source handles) [] plan.out_file_number ≡ ok (region, out)
      → IsMerge s from_number to_number plan handles region out
  build-IsMerge s from_number to_number plan handles region out built wrote =
      let planned = build-IsPlan J s from_number to_number plan built in
      let written =
        write_data_region-IsRegion (read_source handles) (read_source-ReadsExactly handles)
          plan.out_file_number plan region out wrote in
      record {
        from = planned.from;
        to = planned.to;
        flat = planned.flat;
        from_found = planned.from_found;
        to_found = planned.to_found;
        flattened = planned.flattened;
        own = planned.absorbs_itself;
        out_file = planned.out_file;
        covers =
            written_places-AllPartitionsWritten handles out plan.absorbed plan.out_file_number
              planned.absorbs_itself plan.kind plan.partitions region.partitions written.partitions
            ∙ planned.covers;
        partitions =
            AllPartitionsWritten-IsMerged handles out plan.absorbed plan.out_file_number
              planned.absorbs_itself s planned.to plan.kind planned.flat plan.partitions
              region.partitions planned.partitions written.partitions;
      }
