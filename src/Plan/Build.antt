-- ===== src/Plan/Build.antt =====
-- src/plan.rs: building a plan.
use mrimgx_consolidate.Base.{
  ℕ, ◌+◌, ◌-◌, ◌*◌, List, [], ◌∷◌, ◌++◌, Option, none, some, map, ◌==◌, if◌then◌else◌, length,
  get_elem?, get_or, Result, ok, or_err, ensure, ◌>>=◌, ◌>>◌, not_newest, no_partition, index_panic,
}
use mrimgx_consolidate.Block.{header_len, footer_len, auxdata_name, find}
use mrimgx_consolidate.Index.{DataBlockIndexElement, default_element, element_len, delta_len}
use mrimgx_consolidate.Json.{Documents, is_full_index}
use mrimgx_consolidate.Reader.{BackupFile, Disk, Partition, first?, span_before_index}
use mrimgx_consolidate.Set.{BackupSet, Flattened, flatten, newest}
use mrimgx_consolidate.Plan.{
  MergeKind, synthetic_full, incremental_merge, delta_index, Action, PartitionPlan, MergePlan,
  classify, absorbed_file_numbers, changed_positions,
}
use mrimgx_consolidate.Plan.Rules.{member_with_number, check_rules}

-- `resolved.get(at).copied().unwrap_or_default()`
abbrev pub entry_or_hole : List DataBlockIndexElement → ℕ → DataBlockIndexElement
entry_or_hole resolved at = get_or resolved at default_element

-- The blocks of one partition, and the positions that they have.
unfoldable pub plan_blocks :
    MergeKind → List ℕ → List ℕ → List DataBlockIndexElement → List Action × List ℕ
plan_blocks synthetic_full absorbed changed resolved = (map (classify absorbed) resolved, [])
plan_blocks incremental_merge absorbed changed resolved =
    (map (λ at. classify absorbed (entry_or_hole resolved at)) changed, changed)

abbrev pub resolved_at : Flattened → ℕ → ℕ → Option (List DataBlockIndexElement)
resolved_at flat d p = elim (get_elem? flat.disks d) [ none ↦ none | some disk ↦ get_elem? disk p ]

-- The arrays are measured, and the blocks that are copied verbatim.
unfoldable pub partitions_size : List Partition → Result ℕ
partitions_size [] = ok 0
partitions_size (part ∷ parts) = do
  (start, index_at) ← span_before_index part
  rest ← partitions_size parts
  ok (index_at - start + rest)

unfoldable pub disks_size : List Disk → Result ℕ
disks_size [] = ok 0
disks_size (disk ∷ disks) = do
  first ← or_err (first? disk.blocks.blocks) index_panic
  parts ← partitions_size disk.partitions
  rest ← disks_size disks
  ok (disk.blocks.end - first.offset + parts + rest)

unfoldable pub indexes_size : MergeKind → List PartitionPlan → ℕ
indexes_size kind [] = 0
indexes_size kind (plan ∷ plans) =
    header_len
    + (4
        + length plan.reserved * element_len
        + 4
        + length plan.blocks * (if delta_index kind then delta_len else element_len))
    + indexes_size kind plans

module _ {V : Type 0} where
  unfoldable pub estimate_metadata : BackupFile V → List PartitionPlan → MergeKind → Result ℕ
  estimate_metadata to partitions kind = do
    copied ← disks_size to.disks
    let aux = elim (find to.root_list auxdata_name) as (λ o. ℕ) [
      | none ↦ 0
      | some b ↦ header_len + b.header.block_length
    ]
    ok (
        copied
        + indexes_size kind partitions
        + (header_len + length to.json_raw)
        + aux
        + 512
        + footer_len)

  -- One partition of the To file.
  unfoldable pub plan_partition :
      BackupSet V → MergeKind → List ℕ → Flattened → ℕ → ℕ → Partition → Result PartitionPlan
  plan_partition s kind absorbed flat d p part = do
    resolved ← or_err (resolved_at flat d p) no_partition
    let (blocks, positions) = plan_blocks kind absorbed (changed_positions s absorbed d p) resolved
    ok (record {
      disk = d;
      partition = p;
      reserved = map (classify absorbed) part.index.reserved;
      blocks = blocks;
      positions = positions;
    })

  -- The partitions of disk `d` from `p` on, and the disks from `d` on.
  unfoldable pub plan_partitions :
      BackupSet V
      → MergeKind
      → List ℕ
      → Flattened
      → ℕ
      → ℕ
      → List Partition
      → Result (List PartitionPlan)
  plan_partitions s kind absorbed flat d p [] = ok []
  plan_partitions s kind absorbed flat d p (part ∷ parts) = do
    plan ← plan_partition s kind absorbed flat d p part
    rest ← plan_partitions s kind absorbed flat d (p + 1) parts
    ok (plan ∷ rest)

  unfoldable pub plan_disks :
      BackupSet V → MergeKind → List ℕ → Flattened → ℕ → List Disk → Result (List PartitionPlan)
  plan_disks s kind absorbed flat d [] = ok []
  plan_disks s kind absorbed flat d (disk ∷ disks) = do
    plans ← plan_partitions s kind absorbed flat d 0 disk.partitions
    rest ← plan_disks s kind absorbed flat (d + 1) disks
    ok (plans ++ rest)

  abbrev pub kind_of : BackupFile V → MergeKind
  kind_of from = if is_full_index from.header then synthetic_full else incremental_merge

module _ (J : Documents) where
  open J use {Value}

  unfoldable pub build : BackupSet Value → ℕ → ℕ → Result MergePlan
  build s from_number to_number = do
    from ← member_with_number s from_number
    to ← member_with_number s to_number
    check_rules J s from to
    first ← newest s
    ensure (to.header.file_number == first.header.file_number) not_newest
    let absorbed = absorbed_file_numbers s from to
    flat ← flatten s
    partitions ← plan_disks s (kind_of from) absorbed flat 0 to.disks
    metadata_bytes ← estimate_metadata to partitions (kind_of from)
    ok (record {
      from = from_number;
      to = to_number;
      kind = kind_of from;
      absorbed = absorbed;
      partitions = partitions;
      out_file_number = from.header.file_number;
      out_increment_number = from.header.increment_number;
      metadata_bytes = metadata_bytes;
    })
