-- ===== src/Plan.antt =====
-- src/plan.rs: what a merge does to every logical block, decided before anything is written.
pub mod Rules
pub mod Build
pub mod Closure
pub mod Positions
pub mod Places
pub mod Planned
use Prim.Native.String.{String}
use mrimgx_consolidate.Base.{
  ℕ, zero, suc, ◌+◌, ◌-◌, ◌*◌, Bool, true, false, ◌&&◌, not, List, [], ◌∷◌, ◌++◌, Option, none,
  some, map, leb, ◌==◌, if◌then◌else◌, ok, err,
}
use mrimgx_consolidate.Base.Sets.{contains, insert, extend}
use mrimgx_consolidate.Block.{align_up}
use mrimgx_consolidate.Index.{
  DataBlockIndexElement, default_element, DeltaDataBlock, Blocks, full, delta, is_hole,
}
use mrimgx_consolidate.Json.{Header, owned_file_numbers}
use mrimgx_consolidate.Reader.{BackupFile, Partition}
use mrimgx_consolidate.Set.{BackupSet, partition_at}

pub data MergeKind : Type 0 where
  synthetic_full incremental_merge : MergeKind

-- Whether the output's `$INDEX` holds delta elements.
abbrev pub delta_index : MergeKind → Bool
delta_index synthetic_full = false
delta_index incremental_merge = true

abbrev pub consolidation_type : MergeKind → String
consolidation_type synthetic_full = "synthetic_full"
consolidation_type incremental_merge = "incremental_merge"

pub data Action : Type 0 where
  hole : Action
  keep : DataBlockIndexElement → Action
  copy : DataBlockIndexElement → Action

-- The bytes that an action moves.
abbrev pub action_bytes : Action → ℕ
action_bytes (copy e) = e.block_length
action_bytes _ = 0

abbrev pub is_copy : Action → Bool
is_copy (copy e) = true
is_copy _ = false

pub record PartitionPlan : Type 0 where
  pub disk : ℕ
  pub partition : ℕ
  pub reserved : List Action
  pub blocks : List Action
  pub positions : List ℕ

pub record MergePlan : Type 0 where
  pub from : ℕ
  pub to : ℕ
  pub kind : MergeKind
  pub absorbed : List ℕ
  pub partitions : List PartitionPlan
  pub out_file_number : ℕ
  pub out_increment_number : ℕ
  pub metadata_bytes : ℕ

abbrev pub actions : PartitionPlan → List Action
actions part = part.reserved ++ part.blocks

-- `.map(Action::bytes_to_copy).sum()`
unfoldable pub sum_bytes : List Action → ℕ
sum_bytes [] = 0
sum_bytes (a ∷ as') = action_bytes a + sum_bytes as'

-- `.filter(test).count()`
unfoldable pub count_if : (Action → Bool) → List Action → ℕ
count_if test [] = 0
count_if test (a ∷ as') = (if test a then 1 else 0) + count_if test as'

-- `.collect()` of the set of absorbed numbers.
abbrev pub redundant_file_numbers : MergePlan → List ℕ
redundant_file_numbers plan = plan.absorbed

unfoldable pub all_actions : List PartitionPlan → List Action
all_actions [] = []
all_actions (p ∷ ps) = actions p ++ all_actions ps

unfoldable pub bytes_to_copy : MergePlan → ℕ
bytes_to_copy plan = sum_bytes (all_actions plan.partitions)

unfoldable pub blocks_to_copy : MergePlan → ℕ
blocks_to_copy plan = count_if is_copy (all_actions plan.partitions)

abbrev pub is_keep : Action → Bool
is_keep (keep e) = true
is_keep _ = false

abbrev pub is_hole_action : Action → Bool
is_hole_action hole = true
is_hole_action _ = false

unfoldable pub blocks_kept : MergePlan → ℕ
blocks_kept plan = count_if is_keep (all_actions plan.partitions)

unfoldable pub holes : MergePlan → ℕ
holes plan = count_if is_hole_action (all_actions plan.partitions)

unfoldable pub projected_size : MergePlan → ℕ
projected_size plan = align_up (bytes_to_copy plan) + plan.metadata_bytes

-- The numbers of every member whose increment lies in the range.
unfoldable pub closure_over : List (ℕ × List ℕ) → ℕ → ℕ → List ℕ → List ℕ
closure_over [] low high out = out
closure_over ((increment, owned) ∷ members) low high out =
    closure_over members low high
      (if leb low increment && leb increment high then extend out owned else out)

-- A hole stays a hole, a block of an absorbed file moves, and any other keeps its reference.
unfoldable pub classify : List ℕ → DataBlockIndexElement → Action
classify absorbed e =
    if is_hole e then hole else if contains absorbed e.file_number then copy e else keep e

abbrev pub block_indices : List DeltaDataBlock → List ℕ
block_indices [] = []
block_indices (d ∷ ds) = d.block_index ∷ block_indices ds

-- The positions that a member changed: those of its delta list.
abbrev pub indices_of : Blocks → List ℕ
indices_of (full v) = []
indices_of (delta ds) = block_indices ds

module _ {V : Type 0} where
  abbrev pub member_numbers : List (BackupFile V) → List (ℕ × List ℕ)
  member_numbers [] = []
  member_numbers (m ∷ ms) =
      (m.header.increment_number, owned_file_numbers m.header) ∷ member_numbers ms

  unfoldable pub absorbed_file_numbers : BackupSet V → BackupFile V → BackupFile V → List ℕ
  absorbed_file_numbers s from to =
      closure_over (member_numbers s.members) from.header.increment_number
        to.header.increment_number []

  -- A member with no such partition is passed over.
  unfoldable pub member_positions : BackupFile V → ℕ → ℕ → List ℕ
  member_positions m d p = elim (partition_at m d p) [
    | ok part ↦ indices_of part.index.blocks
    | err e ↦ []
  ]

  -- The loop over the members.
  unfoldable pub positions_loop : List (BackupFile V) → List ℕ → ℕ → ℕ → List ℕ → List ℕ
  positions_loop [] absorbed d p out = out
  positions_loop (m ∷ ms) absorbed d p out = positions_loop ms absorbed d p (
      if not (contains absorbed m.header.file_number)
      then out
      else extend out (member_positions m d p))

  -- The logical positions that the absorbed members changed, in ascending order.
  unfoldable pub changed_positions : BackupSet V → List ℕ → ℕ → ℕ → List ℕ
  changed_positions s absorbed d p = positions_loop s.members absorbed d p []
