-- ===== src/Tests/Outputs.antt =====
-- The file that the merge writes, opened and checked.
use mrimgx_consolidate.Base.{◌≤◌}
use mrimgx_consolidate.Base.{◌↔◌, ◌≡◌, refl, false, [], ◌∷◌, All, Result, ok, err, arith}
use mrimgx_consolidate.Base.Bytes.{Bytes}
use mrimgx_consolidate.Base.Sets.{contains, extend, insert, lookup}
use mrimgx_consolidate.Block.{
  header_to_bytes, to_byte, find, for_payload, footer_bytes, align_up, read_exact,
}
use mrimgx_consolidate.Index.{
  full, default_element, to_bytes, write_blocks, write_elements, write_deltas, write_element,
  write_count,
}
use mrimgx_consolidate.Json.{
  and_then, unwrap_or, as_object, u16_of, check_round_trip, canonical, from_value, string,
  u64_field, merged_files, merged_files_of, integers, owned_file_numbers, owned_loop, push_owned,
  u16_of_int,
}
use mrimgx_consolidate.Reader.{shape as shape_of, partition_counts, span_before_index}
use mrimgx_consolidate.Set.{
  owner, base, base_index, position_full, newest, flatten, shape as set_shape, shapes_agree,
  flatten_disks, flatten_partitions, flatten_partition, partition_at, replay, replay_blocks,
  replay_member, seed, apply_delta, apply_deltas,
}
use mrimgx_consolidate.Plan.Rules.{
  member_with_number, find_member, check_rules, check_pair, all_settings_match, settings_match,
  pick, split_in_range, check_full_index, full_index_in_range, full_numbers, minimum,
}
use mrimgx_consolidate.Plan.Build.{
  build, plan_blocks, plan_disks, plan_partition, plan_partitions, disks_size, estimate_metadata,
  indexes_size, partitions_size,
}
use mrimgx_consolidate.Plan.{
  absorbed_file_numbers, changed_positions, classify, closure_over, member_positions,
  positions_loop,
}
use mrimgx_consolidate.Write.{
  read_source, write_data_region, write_partitions, write_partition, copy_actions, copy_action,
  copy_block, copy_new, seen_at, shape, write_zeros, write_zeros_loop, up_to,
}
use mrimgx_consolidate.Write.Metadata.{
  copy_range, copy_range_loop, copy_chunk, write_partition_list, write_partition_lists,
  copy_disk_list, write_disk_lists, write_metadata_region,
}
use mrimgx_consolidate.Write.Metadata.Readback.Partitions.{IsWritable}
use mrimgx_consolidate.Write.Metadata.Readback.Parsed.{counts}
use mrimgx_consolidate.Write.Output.Readback.{IsOutput, write_output-IsReadable}
use mrimgx_consolidate.Write.Document.{
  object_mut, all_but, replace, header_values, set_backup_type, patch_header, history_number,
  survives, retain, strip_entry, insert_sorted, sort_by_key, new_history, patch_partition,
  patch_each, patch_disk, patch_partitions, patch_definition, patch_auxiliary_data, disk_sizes,
  set_disk_size, set_disk_sizes, patch_disk_sizes, patch_sizes_of, patch_document,
}
use mrimgx_consolidate.Write.Document.Paths.{has_separator, bare_name}
use mrimgx_consolidate.Write.Output.{Written, write_output, copy_aux, check_output, check_disks}
use mrimgx_consolidate.Write.Output.{
  check_each, check_partition, check_blocks, check_entry, check_named, check_place,
}
use mrimgx_consolidate.Write.Output.DataEnd.{EndsBy, own_data_end_iff, check_disks-own_data_end}
use mrimgx_consolidate.Reader.{BackupFile, own_data_end}
use mrimgx_consolidate.Write.Output.Sound.{IsSound, check_disks_iff}
use mrimgx_consolidate.Merge.Reopened.{
  IsReopened, write_output-IsReopened, write_output-check_output,
}
use mrimgx_consolidate.Tests.Data.{entry}
use mrimgx_consolidate.Tests.Codecs.{region_bytes}
use mrimgx_consolidate.Tests.Documents.{trees-canonical}
use mrimgx_consolidate.Tests.Documents.{Tree}
use mrimgx_consolidate.Tests.Members.{
  from_member, to_json, disks_with, to_disks, to_member, two_files, out_plan, to_file,
  patched_header, patched_partitions, patched_aux, out_json, docs, doc_edits, zero_md5,
  zero_md5_length, to_handles, to_member-IsOpened, to_member-AuxEnds, plan_fits,
}

abbrev no_output : Written × Bytes
no_output = (
  record {
    region = record { payload_bytes = 0; end = 0; partitions = []; duplicates_avoided = 0 };
    root_at = 0;
    size = 0;
  },
  [],
)

abbrev or_no_output : Result (Written × Bytes) → Written × Bytes
or_no_output (ok r) = r
or_no_output (err e) = no_output

abbrev output : Written × Bytes
unfolding write_output
output = or_no_output (
    write_output docs doc_edits zero_md5 two_files out_plan (read_source to_handles) []
      "out.mrimgx")

wrote_output :
    write_output docs doc_edits zero_md5 two_files out_plan (read_source to_handles) [] "out.mrimgx"
    ≡ ok (output.0, output.1)
unfolding object_mut has_separator bare_name all_but replace header_values set_backup_type
    patch_header history_number survives retain strip_entry insert_sorted sort_by_key new_history
    patch_partition patch_each patch_disk patch_partitions patch_definition patch_auxiliary_data
    disk_sizes set_disk_size set_disk_sizes patch_disk_sizes patch_sizes_of patch_document and_then
    unwrap_or as_object u16_of contains check_round_trip canonical owner base base_index
    position_full lookup write_output copy_aux find for_payload header_to_bytes to_byte footer_bytes
    copy_range copy_range_loop copy_chunk write_partition_list write_partition_lists copy_disk_list
    write_disk_lists write_metadata_region span_before_index to_bytes write_blocks write_elements
    write_deltas write_element write_count write_data_region write_partitions write_partition
    copy_actions copy_action copy_block copy_new seen_at shape write_zeros write_zeros_loop up_to
    read_source align_up read_exact region_bytes to_file out_json patched_aux patched_partitions
    patched_header
wrote_output = refl

output-IsWritable : All (IsWritable zero_md5 zero_md5_length false) output.0.region.partitions
unfolding object_mut has_separator bare_name all_but replace header_values set_backup_type
    patch_header history_number survives retain strip_entry insert_sorted sort_by_key new_history
    patch_partition patch_each patch_disk patch_partitions patch_definition patch_auxiliary_data
    disk_sizes set_disk_size set_disk_sizes patch_disk_sizes patch_sizes_of patch_document and_then
    unwrap_or as_object u16_of contains check_round_trip canonical owner base base_index
    position_full lookup write_output copy_aux find for_payload header_to_bytes to_byte footer_bytes
    copy_range copy_range_loop copy_chunk write_partition_list write_partition_lists copy_disk_list
    write_disk_lists write_metadata_region span_before_index to_bytes write_blocks write_elements
    write_deltas write_element write_count write_data_region write_partitions write_partition
    copy_actions copy_action copy_block copy_new seen_at shape write_zeros write_zeros_loop up_to
    read_source align_up read_exact region_bytes to_file out_json patched_aux patched_partitions
    patched_header output
output-IsWritable = (
  (
    record {
      reserved_fit = tt;
      reserved_count = omega arith;
      blocks_fit = (
        record {
          position_fits = omega arith;
          hash_length = refl;
          length_fits = omega arith;
          number_fits = omega arith;
        },
        (
          record {
            position_fits = omega arith;
            hash_length = refl;
            length_fits = omega arith;
            number_fits = omega arith;
          },
          tt,
        ),
      );
      block_count = omega arith;
    },
    refl,
  ),
  tt,
)

write_output-IsReadable_example :
    IsOutput docs doc_edits
      (λ b. ok b)
      zero_md5
      zero_md5_length
      two_files
      out_plan
      to_member
      to_handles
      "out.mrimgx"
      output.0
      output.1
unfolding object_mut has_separator bare_name all_but replace header_values set_backup_type
    patch_header history_number survives retain strip_entry insert_sorted sort_by_key new_history
    patch_partition patch_each patch_disk patch_partitions patch_definition patch_auxiliary_data
    disk_sizes set_disk_size set_disk_sizes patch_disk_sizes patch_sizes_of patch_document and_then
    unwrap_or as_object u16_of contains check_round_trip canonical owner base base_index
    position_full lookup write_output copy_aux find for_payload header_to_bytes to_byte footer_bytes
    copy_range copy_range_loop copy_chunk write_partition_list write_partition_lists copy_disk_list
    write_disk_lists write_metadata_region span_before_index to_bytes write_blocks write_elements
    write_deltas write_element write_count write_data_region write_partitions write_partition
    copy_actions copy_action copy_block copy_new seen_at shape write_zeros write_zeros_loop up_to
    read_source align_up read_exact region_bytes to_file out_json patched_aux patched_partitions
    patched_header output
write_output-IsReadable_example =
    write_output-IsReadable docs doc_edits (λ b. ok b) zero_md5 zero_md5_length two_files out_plan
      to_member to_handles to_file "out.mrimgx" output.0 output.1 refl refl to_member-IsOpened
      to_member-AuxEnds wrote_output output-IsWritable (omega arith)

built_output : build docs two_files 0 1 ≡ ok out_plan
unfolding member_with_number find_member check_rules check_pair all_settings_match settings_match
    pick split_in_range check_full_index full_index_in_range full_numbers minimum newest flatten
    base_index position_full set_shape shapes_agree flatten_disks flatten_partitions
    flatten_partition partition_at replay replay_blocks replay_member seed apply_delta apply_deltas
    contains extend insert find owned_file_numbers owned_loop push_owned u16_of_int build
    plan_blocks plan_disks plan_partition plan_partitions disks_size estimate_metadata indexes_size
    partitions_size absorbed_file_numbers changed_positions classify closure_over member_positions
    positions_loop span_before_index
built_output = refl

declared : shape_of docs zero_md5 (λ b. ok b) to_json ≡ ok (counts to_disks)
unfolding shape_of partition_counts
declared = refl

write_output-IsReopened_example :
    IsReopened docs doc_edits
      (λ b. ok b)
      zero_md5
      zero_md5_length
      out_plan
      to_member
      output.0
      "t"
      output.1
unfolding object_mut has_separator bare_name all_but replace header_values set_backup_type
    patch_header history_number survives retain strip_entry insert_sorted sort_by_key new_history
    patch_partition patch_each patch_disk patch_partitions patch_definition patch_auxiliary_data
    disk_sizes set_disk_size set_disk_sizes patch_disk_sizes patch_sizes_of patch_document and_then
    unwrap_or as_object u16_of contains check_round_trip canonical owner base base_index
    position_full lookup write_output copy_aux find for_payload header_to_bytes to_byte footer_bytes
    copy_range copy_range_loop copy_chunk write_partition_list write_partition_lists copy_disk_list
    write_disk_lists write_metadata_region span_before_index to_bytes write_blocks write_elements
    write_deltas write_element write_count write_data_region write_partitions write_partition
    copy_actions copy_action copy_block copy_new seen_at shape write_zeros write_zeros_loop up_to
    read_source align_up read_exact region_bytes to_file out_json patched_aux patched_partitions
    patched_header output from_value string u64_field merged_files merged_files_of integers
write_output-IsReopened_example =
    write_output-IsReopened docs doc_edits (λ b. ok b) zero_md5 zero_md5_length two_files out_plan
      to_member to_handles to_file "out.mrimgx" output.0 "t" output.1 refl refl to_member-IsOpened
      to_member-AuxEnds refl refl declared plan_fits output-IsWritable (omega arith)
      (λ document d. trees-canonical to_json out_json d.doc4 document d.printed) wrote_output

write_output-check_output_example :
    check_output docs zero_md5 (λ b. ok b) "t" output.1 out_plan ≡ ok tt
unfolding object_mut has_separator bare_name all_but replace header_values set_backup_type
    patch_header history_number survives retain strip_entry insert_sorted sort_by_key new_history
    patch_partition patch_each patch_disk patch_partitions patch_definition patch_auxiliary_data
    disk_sizes set_disk_size set_disk_sizes patch_disk_sizes patch_sizes_of patch_document and_then
    unwrap_or as_object u16_of contains check_round_trip canonical owner base base_index
    position_full lookup write_output copy_aux find for_payload header_to_bytes to_byte footer_bytes
    copy_range copy_range_loop copy_chunk write_partition_list write_partition_lists copy_disk_list
    write_disk_lists write_metadata_region span_before_index to_bytes write_blocks write_elements
    write_deltas write_element write_count write_data_region write_partitions write_partition
    copy_actions copy_action copy_block copy_new seen_at shape write_zeros write_zeros_loop up_to
    read_source align_up read_exact region_bytes to_file out_json patched_aux patched_partitions
    patched_header output from_value string u64_field merged_files merged_files_of integers
write_output-check_output_example =
    write_output-check_output docs doc_edits (λ b. ok b) zero_md5 zero_md5_length two_files 0 1
      out_plan to_member to_handles to_file "out.mrimgx" output.0 "t" output.1 built_output refl
      refl to_member-IsOpened to_member-AuxEnds refl refl declared plan_fits output-IsWritable
      (omega arith) (λ document d. trees-canonical to_json out_json d.doc4 document d.printed)
      wrote_output

check_disks_iff_example :
    (check_disks out_plan 4096
        (disks_with (full (entry 0 9 1 ∷ default_element ∷ entry 7 0 1 ∷ [])))
      ≡ ok tt)
    ↔ All (IsSound out_plan 4096) (entry 0 9 1 ∷ default_element ∷ entry 7 0 1 ∷ [])
check_disks_iff_example =
    check_disks_iff out_plan 4096
      (disks_with (full (entry 0 9 1 ∷ default_element ∷ entry 7 0 1 ∷ [])))

abbrev checked_blocks : BackupFile Tree
checked_blocks = record from_member {
  disks = disks_with (full (entry 0 9 1 ∷ default_element ∷ entry 7 0 1 ∷ []));
}

own_data_end_iff_example :
    (own_data_end checked_blocks ≤ 10)
    ↔ All (EndsBy 0 10) (entry 0 9 1 ∷ default_element ∷ entry 7 0 1 ∷ [])
own_data_end_iff_example = own_data_end_iff checked_blocks 10

checked : check_disks out_plan 10 checked_blocks.disks ≡ ok tt
unfolding check_disks check_each check_partition check_blocks check_entry check_named check_place
    contains
checked = refl

check_disks-own_data_end_example : own_data_end checked_blocks ≤ 10
check_disks-own_data_end_example = check_disks-own_data_end out_plan 10 checked_blocks refl checked
