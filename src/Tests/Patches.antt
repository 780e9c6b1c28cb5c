-- ===== src/Tests/Patches.antt =====
-- The patched document of the merge.
use mrimgx_consolidate.Base.{◌≡◌, refl, true, [], ◌∷◌, ok}
use mrimgx_consolidate.Base.Sets.{contains, lookup}
use mrimgx_consolidate.Block.{
  header_to_bytes, to_byte, find, for_payload, footer_bytes, align_up, read_exact,
}
use mrimgx_consolidate.Index.{
  to_bytes, write_blocks, write_elements, write_deltas, write_element, write_count,
}
use mrimgx_consolidate.Json.Fits.{HasNumbers, from_value-HasNumbers}
use mrimgx_consolidate.Json.{
  Header, and_then, unwrap_or, as_object, u16_of, check_round_trip, canonical, from_value, string,
  u64_field, merged_files, merged_files_of, integers, owned_file_numbers,
}
use mrimgx_consolidate.Reader.{span_before_index}
use mrimgx_consolidate.Set.{owner, base, base_index, position_full}
use mrimgx_consolidate.Write.{
  read_source, write_data_region, write_partitions, write_partition, copy_actions, copy_action,
  copy_block, copy_new, seen_at, shape, write_zeros, write_zeros_loop, up_to,
}
use mrimgx_consolidate.Write.Metadata.{
  copy_range, copy_range_loop, copy_chunk, write_partition_list, write_partition_lists,
  copy_disk_list, write_disk_lists, write_metadata_region,
}
use mrimgx_consolidate.Write.Document.{
  object_mut, all_but, replace, header_values, set_backup_type, patch_header, history_number,
  survives, retain, strip_entry, insert_sorted, sort_by_key, new_history, patch_partition,
  patch_each, patch_disk, patch_partitions, patch_definition, patch_auxiliary_data, disk_sizes,
  set_disk_size, set_disk_sizes, patch_disk_sizes, patch_sizes_of, patch_document,
}
use mrimgx_consolidate.Write.Document.Paths.{has_separator, bare_name}
use mrimgx_consolidate.Write.Document.Header.{header_of}
use mrimgx_consolidate.Write.Document.Whole.{patch_document-from_value, contains-owned_header_of}
use mrimgx_consolidate.Write.Output.{write_output, copy_aux}
use mrimgx_consolidate.Tests.Codecs.{region_bytes}
use mrimgx_consolidate.Tests.Documents.{Tree, tree_is_object}
use mrimgx_consolidate.Tests.Members.{
  to_member, two_files, out_plan, to_file, patched_header, patched_partitions, patched_aux,
  out_json, docs, doc_edits, plan_fits,
}

patched : patch_document docs doc_edits two_files out_plan 4096 "out.mrimgx" ≡ ok (2 ∷ 10 ∷ [])
unfolding object_mut has_separator bare_name all_but replace header_values set_backup_type
    patch_header history_number survives retain strip_entry insert_sorted sort_by_key new_history
    patch_partition patch_each patch_disk patch_partitions patch_definition patch_auxiliary_data
    disk_sizes set_disk_size set_disk_sizes patch_disk_sizes patch_sizes_of patch_document and_then
    unwrap_or as_object u16_of contains check_round_trip canonical owner base base_index
    position_full lookup write_output copy_aux find for_payload header_to_bytes to_byte footer_bytes
    copy_range copy_range_loop copy_chunk write_partition_list write_partition_lists copy_disk_list
    write_disk_lists write_metadata_region span_before_index to_bytes write_blocks write_elements
    write_deltas write_element write_count write_data_region write_partitions write_partition
    copy_actions copy_action copy_block copy_new seen_at shape write_zeros write_zeros_loop up_to
    read_source align_up read_exact region_bytes to_file out_json patched_aux patched_partitions
    patched_header
patched = refl

patch_document-from_value_example :
    (doc : Tree) × (canonical docs doc ≡ ok (2 ∷ 10 ∷ []))
    × (tree_is_object doc ≡ true)
    × (from_value docs doc ≡ ok (header_of docs doc_edits out_plan 4096 to_member.header))
unfolding from_value string u64_field merged_files merged_files_of integers and_then unwrap_or
    as_object u16_of lookup owner
patch_document-from_value_example =
    patch_document-from_value docs doc_edits two_files out_plan 4096 "out.mrimgx" to_member
      (2 ∷ 10 ∷ []) refl refl refl plan_fits patched

contains-owned_header_of_example :
    contains (owned_file_numbers (header_of docs doc_edits out_plan 4096 to_member.header)) 3
    ≡ contains out_plan.absorbed 3
unfolding contains
contains-owned_header_of_example =
    contains-owned_header_of docs doc_edits out_plan 4096 to_member.header 3 plan_fits.absorbed_fit
      refl

abbrev out_header : Header
out_header = header_of docs doc_edits out_plan 4096 to_member.header

read_header_of : from_value docs out_json ≡ ok out_header
unfolding object_mut has_separator bare_name all_but replace header_values set_backup_type
    patch_header history_number survives retain strip_entry insert_sorted sort_by_key new_history
    patch_partition patch_each patch_disk patch_partitions patch_definition patch_auxiliary_data
    disk_sizes set_disk_size set_disk_sizes patch_disk_sizes patch_sizes_of patch_document and_then
    unwrap_or as_object u16_of contains check_round_trip canonical owner base base_index
    position_full lookup write_output copy_aux find for_payload header_to_bytes to_byte footer_bytes
    copy_range copy_range_loop copy_chunk write_partition_list write_partition_lists copy_disk_list
    write_disk_lists write_metadata_region span_before_index to_bytes write_blocks write_elements
    write_deltas write_element write_count write_data_region write_partitions write_partition
    copy_actions copy_action copy_block copy_new seen_at shape write_zeros write_zeros_loop up_to
    read_source align_up read_exact region_bytes to_file out_json patched_aux patched_partitions
    patched_header from_value string u64_field merged_files merged_files_of integers
read_header_of = refl

from_value-HasNumbers_example : HasNumbers docs out_json out_header
from_value-HasNumbers_example = from_value-HasNumbers docs out_json out_header read_header_of
