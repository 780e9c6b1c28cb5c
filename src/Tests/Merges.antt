-- ===== src/Tests/Merges.antt =====
-- A merge of the test set: the plan and the region that come out, and the theorems on them.
use mrimgx_consolidate.Base.{
  length, ◌+◌, leb, ◌≡◌, refl, sym, if◌then◌else◌, no_space, Bool-cases, inl, inr, ok-injective,
  List, [], ◌∷◌, ◌++◌, Result, ok, err,
}
use mrimgx_consolidate.Base.Bytes.{Bytes}
use mrimgx_consolidate.Plan.Rules.{
  member_with_number, find_member, check_rules, check_pair, all_settings_match, settings_match,
  pick, split_in_range, check_full_index, full_index_in_range, full_numbers, minimum,
}
use mrimgx_consolidate.Set.{
  newest, flatten, base_index, position_full, shape, shapes_agree, flatten_disks,
  flatten_partitions, flatten_partition, partition_at, replay, replay_blocks, replay_member, seed,
  apply_delta, apply_deltas,
}
use mrimgx_consolidate.Base.Sets.{contains, extend, insert, lookup}
use mrimgx_consolidate.Block.{find, align_up, read_exact}
use mrimgx_consolidate.Json.{owned_file_numbers, owned_loop, push_owned, u16_of_int}
use mrimgx_consolidate.Plan.Build.{
  build, plan_blocks, plan_disks, plan_partition, plan_partitions, disks_size, estimate_metadata,
  indexes_size, partitions_size,
}
use mrimgx_consolidate.Plan.{
  absorbed_file_numbers, changed_positions, classify, closure_over, member_positions,
  positions_loop, MergePlan, synthetic_full,
}
use mrimgx_consolidate.Reader.{span_before_index}
use mrimgx_consolidate.Write.{
  write_data_region, write_partitions, write_partition, copy_actions, copy_action, copy_block,
  copy_new, seen_at, shape as written_shape, write_zeros, write_zeros_loop, up_to, read_source,
  DataRegion,
}
use mrimgx_consolidate.Plan.Planned.{IsPlan, build-IsPlan}
use mrimgx_consolidate.Merge.Whole.{IsMerge, build-IsMerge}
use mrimgx_consolidate.Index.{DataBlockIndexElement, default_element}
use mrimgx_consolidate.Plan.{Action, hole, keep, copy}
use mrimgx_consolidate.Write.{CopyState, key_of, moved}
use mrimgx_consolidate.Write.Source.{read_source-ReadsExactly}
use mrimgx_consolidate.Write.Copied.{DidActions, copy_actions-DidActions}
use mrimgx_consolidate.Write.Padding.{Zeroed, write_zeros-Zeroed}
use mrimgx_consolidate.Write.Region.{IsRegion, write_data_region-IsRegion}
use mrimgx_consolidate.Tests.Data.{docs, three_files, open_files, entry}

abbrev no_plan : MergePlan
no_plan = record {
  from = 0;
  to = 0;
  kind = synthetic_full;
  absorbed = [];
  partitions = [];
  out_file_number = 0;
  out_increment_number = 0;
  metadata_bytes = 0;
}

abbrev or_no_plan : Result MergePlan → MergePlan
or_no_plan (ok plan) = plan
or_no_plan (err e) = no_plan

abbrev or_no_region : Result (DataRegion × Bytes) → DataRegion × Bytes
or_no_region (ok r) = r
or_no_region (err e) =
    (record { payload_bytes = 0; end = 0; partitions = []; duplicates_avoided = 0 }, [])

abbrev merge_full : MergePlan
unfolding member_with_number find_member check_rules check_pair all_settings_match settings_match
    pick split_in_range check_full_index full_index_in_range full_numbers minimum newest flatten
    base_index position_full shape shapes_agree flatten_disks flatten_partitions flatten_partition
    partition_at replay replay_blocks replay_member seed apply_delta apply_deltas contains extend
    insert find owned_file_numbers owned_loop push_owned u16_of_int build plan_blocks plan_disks
    plan_partition plan_partitions disks_size estimate_metadata indexes_size partitions_size
    absorbed_file_numbers changed_positions classify closure_over member_positions positions_loop
    span_before_index
merge_full = or_no_plan (build docs three_files 0 2)

built_full : build docs three_files 0 2 ≡ ok merge_full
unfolding member_with_number find_member check_rules check_pair all_settings_match settings_match
    pick split_in_range check_full_index full_index_in_range full_numbers minimum newest flatten
    base_index position_full shape shapes_agree flatten_disks flatten_partitions flatten_partition
    partition_at replay replay_blocks replay_member seed apply_delta apply_deltas contains extend
    insert find owned_file_numbers owned_loop push_owned u16_of_int build plan_blocks plan_disks
    plan_partition plan_partitions disks_size estimate_metadata indexes_size partitions_size
    absorbed_file_numbers changed_positions classify closure_over member_positions positions_loop
    span_before_index
built_full = refl

abbrev region_full : DataRegion × Bytes
unfolding write_data_region
region_full = or_no_region (write_data_region merge_full (read_source open_files) [] 0)

wrote_full :
    write_data_region merge_full (read_source open_files) [] 0 ≡ ok (region_full.0, region_full.1)
unfolding write_data_region write_partitions write_partition copy_actions copy_action copy_block
    copy_new seen_at written_shape write_zeros write_zeros_loop up_to read_source align_up
    read_exact lookup merge_full region_full
wrote_full = refl

build-IsMerge_example :
    IsMerge docs three_files 0 2 merge_full open_files region_full.0 region_full.1
unfolding merge_full
build-IsMerge_example =
    build-IsMerge docs three_files 0 2 merge_full open_files region_full.0 region_full.1 built_full
      wrote_full

-- The same for the two Incrementals.
abbrev merge_later : MergePlan
unfolding build
merge_later = or_no_plan (build docs three_files 1 2)

built_later : build docs three_files 1 2 ≡ ok merge_later
unfolding member_with_number find_member check_rules check_pair all_settings_match settings_match
    pick split_in_range check_full_index full_index_in_range full_numbers minimum newest flatten
    base_index position_full shape shapes_agree flatten_disks flatten_partitions flatten_partition
    partition_at replay replay_blocks replay_member seed apply_delta apply_deltas contains extend
    insert find owned_file_numbers owned_loop push_owned u16_of_int build plan_blocks plan_disks
    plan_partition plan_partitions disks_size estimate_metadata indexes_size partitions_size
    absorbed_file_numbers changed_positions classify closure_over member_positions positions_loop
    span_before_index
built_later = refl

build-IsPlan_example : IsPlan docs three_files 1 2 merge_later
build-IsPlan_example = build-IsPlan docs three_files 1 2 merge_later built_later

write_data_region-IsRegion_example :
    IsRegion
      (read_source open_files)
      (read_source-ReadsExactly open_files)
      0
      merge_full
      region_full.0
      region_full.1
write_data_region-IsRegion_example =
    write_data_region-IsRegion (read_source open_files) (read_source-ReadsExactly open_files) 0
      merge_full region_full.0 region_full.1 wrote_full

-- A block, the same block again, and a hole: the second copy finds the first.
abbrev some_actions : List Action
some_actions = copy (entry 0 1 2) ∷ copy (entry 0 1 2) ∷ hole ∷ keep (entry 7 0 1) ∷ []

abbrev nothing_copied : CopyState
nothing_copied = record { out = []; at = 0; seen = []; duplicates_avoided = 0 }

abbrev entry_at_0 : DataBlockIndexElement
entry_at_0 = moved (entry 0 1 2) 0 9

abbrev actions_copied : List DataBlockIndexElement × CopyState
actions_copied = (
  entry_at_0 ∷ entry_at_0 ∷ default_element ∷ entry 7 0 1 ∷ [],
  record {
    out = 11 ∷ 12 ∷ [];
    at = 2;
    seen = (key_of (entry 0 1 2), 0) ∷ [];
    duplicates_avoided = 1;
  },
)

copied : copy_actions (read_source open_files) 9 some_actions nothing_copied ≡ ok actions_copied
unfolding copy_actions copy_action copy_block copy_new seen_at read_source lookup read_exact
copied = refl

copy_actions-DidActions_example :
    DidActions
      (read_source open_files)
      (read_source-ReadsExactly open_files)
      9
      some_actions
      nothing_copied
      actions_copied
copy_actions-DidActions_example =
    copy_actions-DidActions (read_source open_files) (read_source-ReadsExactly open_files) 9
      some_actions nothing_copied actions_copied (record { size = refl; stored = tt }) copied

-- A writer with room for 9000 bytes.
abbrev limited : Bytes → Bytes → Result Bytes
limited bytes out = if leb (length out + length bytes) 9000 then ok (out ++ bytes) else err no_space

limited-append : (bytes out out' : Bytes) → limited bytes out ≡ ok out' → out' ≡ out ++ bytes
limited-append bytes out out' h = elim (Bool-cases (leb (length out + length bytes) 9000)) [
  | inl room ↦ sym (ok-injective (rw room at h))
  | inr full_up ↦ absurd (cc (rw full_up at h))
]

write_zeros-Zeroed_example :
    Zeroed limited (λ out. out) 10000 (1 ∷ []) (write_zeros limited 10000 (1 ∷ []))
write_zeros-Zeroed_example = write_zeros-Zeroed limited (λ out. out) limited-append 10000 (1 ∷ [])
