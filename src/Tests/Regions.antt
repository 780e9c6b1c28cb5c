-- ===== src/Tests/Regions.antt =====
-- Small metadata regions.
use mrimgx_consolidate.Base.{
  ℕ, ◌≡◌, refl, true, false, List, [], ◌∷◌, ◌++◌, length, slice, All, Result, ok, err, arith,
}
use mrimgx_consolidate.Base.Bytes.{Bytes}
use mrimgx_consolidate.Base.Sets.{contains, lookup}
use mrimgx_consolidate.Block.{
  header_to_bytes, to_byte, find, for_payload, footer_bytes, align_up, read_exact,
}
use mrimgx_consolidate.Index.{
  full, default_element, to_bytes, write_blocks, write_elements, write_deltas, write_element,
  write_count,
}
use mrimgx_consolidate.Json.{and_then, unwrap_or, as_object, u16_of, check_round_trip, canonical}
use mrimgx_consolidate.Reader.{Disk, span_before_index, parse_disks}
use mrimgx_consolidate.Set.{owner, base, base_index, position_full}
use mrimgx_consolidate.Write.{
  DataRegion, read_source, write_data_region, write_partitions, write_partition, copy_actions,
  copy_action, copy_block, copy_new, seen_at, shape, write_zeros, write_zeros_loop, up_to,
}
use mrimgx_consolidate.Write.Metadata.{
  copy_range, copy_range_loop, copy_chunk, write_partition_list, write_partition_lists,
  copy_disk_list, write_disk_lists, write_metadata_region,
}
use mrimgx_consolidate.Write.Metadata.Readback.Partitions.{IsWritable}
use mrimgx_consolidate.Write.Metadata.Ranges.{copy_range_lem}
use mrimgx_consolidate.Write.Metadata.Readback.Parsed.{written_indexes, disk_indexes, counts}
use mrimgx_consolidate.Write.Metadata.Readback.Regions.{write_metadata_region-parse_disks}
use mrimgx_consolidate.Write.Document.{
  object_mut, all_but, replace, header_values, set_backup_type, patch_header, history_number,
  survives, retain, strip_entry, insert_sorted, sort_by_key, new_history, patch_partition,
  patch_each, patch_disk, patch_partitions, patch_definition, patch_auxiliary_data, disk_sizes,
  set_disk_size, set_disk_sizes, patch_disk_sizes, patch_sizes_of, patch_document,
}
use mrimgx_consolidate.Write.Document.Paths.{has_separator, bare_name}
use mrimgx_consolidate.Write.Output.{write_output, copy_aux}
use mrimgx_consolidate.Tests.Codecs.{region_bytes}
use mrimgx_consolidate.Tests.Members.{
  to_disks_read, to_disks, to_file, patched_header, patched_partitions, patched_aux, out_json,
  zero_md5, zero_md5_length, to_handles,
}

-- A metadata region behind one byte, with an index of one hole.
abbrev hole_region : DataRegion
hole_region = record {
  partitions =
      record {
        disk = 0;
        partition = 0;
        index = record { reserved = []; blocks = full (default_element ∷ []) };
      }
      ∷ [];
  payload_bytes = 0;
  end = 1;
  duplicates_avoided = 0;
}

abbrev or_no_bytes : Result (ℕ × Bytes) → ℕ × Bytes
or_no_bytes (ok r) = r
or_no_bytes (err e) = (0, [])

abbrev hole_output : ℕ × Bytes
unfolding write_metadata_region
hole_output =
    or_no_bytes
      (write_metadata_region zero_md5 (read_source to_handles) 1 to_disks hole_region (5 ∷ []))

wrote_hole :
    write_metadata_region zero_md5 (read_source to_handles) 1 to_disks hole_region (5 ∷ [])
    ≡ ok (hole_output.0, hole_output.1)
unfolding object_mut has_separator bare_name all_but replace header_values set_backup_type
    patch_header history_number survives retain strip_entry insert_sorted sort_by_key new_history
    patch_partition patch_each patch_disk patch_partitions patch_definition patch_auxiliary_data
    disk_sizes set_disk_size set_disk_sizes patch_disk_sizes patch_sizes_of patch_document and_then
    unwrap_or as_object u16_of contains check_round_trip canonical owner base base_index
    position_full lookup write_output copy_aux find for_payload header_to_bytes to_byte footer_bytes
    copy_range copy_range_loop copy_chunk write_partition_list write_partition_lists copy_disk_list
    write_disk_lists write_metadata_region span_before_index to_bytes write_blocks write_elements
    write_deltas write_element write_count write_data_region write_partitions write_partition
    copy_actions copy_action copy_block copy_new seen_at shape write_zeros write_zeros_loop up_to
    read_source align_up read_exact region_bytes to_file out_json patched_aux patched_partitions
    patched_header
wrote_hole = refl

hole-IsWritable : All (IsWritable zero_md5 zero_md5_length false) hole_region.partitions
hole-IsWritable = (
  (
    record {
      reserved_fit = tt;
      reserved_count = omega arith;
      blocks_fit = (
        record {
          position_fits = omega arith;
          hash_length = refl;
          length_fits = omega arith;
          number_fits = omega arith;
        },
        tt,
      );
      block_count = omega arith;
    },
    refl,
  ),
  tt,
)

write_metadata_region-parse_disks_example :
    (length hole_output.1 ≡ hole_output.0)
    × (added : Bytes) × (hole_output.1 ≡ (5 ∷ []) ++ added)
    × (disks' : List Disk) × (disk_indexes disks' ≡ written_indexes hole_region.partitions)
    × (parse_disks (hole_output.1 ++ (6 ∷ [])) false (counts to_disks) 1
        ≡ ok (disks', hole_output.0))
unfolding lookup
write_metadata_region-parse_disks_example =
    write_metadata_region-parse_disks zero_md5 zero_md5_length to_handles 1 to_file refl true false
      1 to_disks 74 hole_region (5 ∷ []) hole_output.0 hole_output.1 (6 ∷ []) to_disks_read refl
      hole-IsWritable wrote_hole

copy_range_lem_example :
    copy_range (read_source to_handles) 1 107 34 (5 ∷ []) ≡ ok ((5 ∷ []) ++ slice to_file 107 34)
unfolding lookup region_bytes header_to_bytes to_byte to_file
copy_range_lem_example =
    copy_range_lem to_handles 1 to_file refl 107 34 (5 ∷ []) (omega arith) (omega arith)
