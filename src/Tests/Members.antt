-- ===== src/Tests/Members.antt =====
-- A set of a Full and a delta, with the delta's bytes and document, and the plan of their merge.
use mrimgx_consolidate.Base.{
  ℕ, ◌≡◌, refl, Bool, true, false, List, [], ◌∷◌, ◌++◌, length, replicate, sym, ap, some-eq, Result,
  ok, err, arith,
}
use mrimgx_consolidate.Base.Int.{pos}
use mrimgx_consolidate.Base.Bytes.{Bytes}
use mrimgx_consolidate.Base.Sets.{contains}
use mrimgx_consolidate.Block.{
  MetadataBlockHeader, BlockList, Located, plain, header_to_bytes, to_byte, json_name, auxdata_name,
  find, read_exact, walk_list, walk_loop, read_header, parse_header, from_byte, read_payload,
}
use mrimgx_consolidate.Index
use mrimgx_consolidate.Index.{
  Blocks, full, delta, default_element, to_bytes, write_blocks, write_elements, write_deltas,
  write_element, write_count, read_count, parse_array, parse_loop, parse_blocks,
}
use mrimgx_consolidate.Json.{Documents, and_then, unwrap_or, as_object, u16_of}
use mrimgx_consolidate.Json.Editing.{Editing}
use mrimgx_consolidate.Reader.{Disk, BackupFile, parse_disks, parse_partitions, parse_partition}
use mrimgx_consolidate.Set.{BackupSet}
use mrimgx_consolidate.Plan.{MergePlan, synthetic_full, hole, copy}
use mrimgx_consolidate.Write.Metadata.Readback.Parsed.{counts}
use mrimgx_consolidate.Write.Output.Readback.{IsOpened, AuxEnds}
use mrimgx_consolidate.Write.Document.{
  object_mut, all_but, replace, header_values, set_backup_type, patch_header, history_number,
  survives, retain, strip_entry, insert_sorted, sort_by_key, new_history, patch_partition,
  patch_each, patch_disk, patch_partitions, patch_definition, patch_auxiliary_data, disk_sizes,
  set_disk_size, set_disk_sizes, patch_disk_sizes,
}
use mrimgx_consolidate.Write.Document.Paths.{has_separator, bare_name}
use mrimgx_consolidate.Write.Document.Header.{FitsPlan}
use mrimgx_consolidate.Tests.Data.{entry}
use mrimgx_consolidate.Tests.Codecs.{region_bytes, region_header, disk_list, index_header}
use mrimgx_consolidate.Tests.Documents.{
  Tree, nothing, no_fields, no_items, number, flag, words, field, item, trees, edits,
}

abbrev pub to_history : Tree
to_history =
    item (field "file_name" (words "C:\\a\\b.mrimgx") (field "file_number" (number 0) no_fields)) (
      item (field "file_name" (words "D:/old/z.mrimgx") (field "file_number" (number 7) no_fields))
        no_items)

abbrev pub to_partition : Tree
to_partition = field "_header" (field "file_history" to_history no_fields) no_fields

abbrev pub to_json : Tree
to_json =
    field "_header"
      (field "imageid" (words "A0") (
        field "file_number" (number 1) (
          field "increment_number" (number 1) (
            field "index_file_position" (number 1)
              (field "delta_index" (flag true) (field "netbios_name" (words "HOST") no_fields))))))
      (field "disks"
        (item
          (field "partitions" (item to_partition no_items)
            (field "_geometry" (field "disk_size" (number 9) no_fields) no_fields))
          no_items)
        (field "_auxiliary_data"
          (field "backup_definition" (field "backup_definition_file" (words "x/y.xml") no_fields)
            no_fields)
          no_fields))

abbrev pub block_header : Bytes → ℕ → Bool → MetadataBlockHeader
block_header name n last = record {
  name = name;
  block_length = n;
  hash = replicate 16 0;
  flags = plain last;
}

abbrev pub aux_block : Located
aux_block = record { header = block_header auxdata_name 2 true; offset = 107 }

abbrev pub index_list : BlockList
index_list = record { blocks = record { header = index_header 8; offset = 34 } ∷ []; end = 74 }

abbrev pub disks_with : Blocks → List Disk
disks_with blocks =
    record {
      blocks = disk_list;
      partitions =
          record { blocks = index_list; index = record { reserved = []; blocks = blocks } } ∷ [];
    }
    ∷ []

-- The To file is a delta without changes.
abbrev pub to_disks : List Disk
to_disks = disks_with (delta [])

abbrev pub to_member : BackupFile Tree
to_member = record {
  path = "b.mrimgx";
  size = 161;
  json_raw = 1 ∷ 10 ∷ [];
  json = to_json;
  header = record region_header { file_number = 1; increment_number = 1; delta_index = true };
  root_at = 74;
  root_list = record {
    blocks = record { header = block_header json_name 1 false; offset = 74 } ∷ aux_block ∷ [];
    end = 141;
  };
  disks = to_disks;
}

-- The From file is a Full of one block and a hole, which took file 3 over before.
abbrev pub from_member : BackupFile Tree
from_member = record to_member {
  path = "a.mrimgx";
  header = record region_header { merged_files = pos 3 ∷ [] };
  disks = disks_with (full (entry 0 0 1 ∷ default_element ∷ []));
}

abbrev pub two_files : BackupSet Tree
two_files = record {
  members = to_member ∷ from_member ∷ [];
  owners = (1, 0) ∷ (0, 1) ∷ (3, 1) ∷ [];
}

abbrev pub out_plan : MergePlan
out_plan = record {
  from = 0;
  to = 1;
  kind = synthetic_full;
  absorbed = 0 ∷ 1 ∷ 3 ∷ [];
  partitions =
      record {
        disk = 0;
        partition = 0;
        reserved = [];
        blocks = copy (entry 0 0 1) ∷ hole ∷ [];
        positions = [];
      }
      ∷ [];
  out_file_number = 0;
  out_increment_number = 0;
  metadata_bytes = 733;
}

-- The root list of the To file stands at 74: the document block, and `$AUXDATA`.
unfoldable pub to_file : Bytes
unfolding region_bytes header_to_bytes to_byte
to_file =
    region_bytes
    ++ (header_to_bytes (block_header json_name 1 false)
        ++ ((1 ∷ []) ++ (header_to_bytes (block_header auxdata_name 2 true) ++ (8 ∷ 9 ∷ []))))

abbrev pub or_tree : Result Tree → Tree
or_tree (ok t) = t
or_tree (err e) = nothing

unfoldable pub patched_header : Tree
unfolding object_mut has_separator bare_name all_but replace header_values set_backup_type
    patch_header history_number survives retain strip_entry insert_sorted sort_by_key new_history
    patch_partition patch_each patch_disk patch_partitions patch_definition patch_auxiliary_data
    disk_sizes set_disk_size set_disk_sizes patch_disk_sizes and_then unwrap_or as_object u16_of
    contains
patched_header =
    or_tree (patch_header (trees nothing nothing) (edits nothing nothing) to_json out_plan 4096)

unfoldable pub patched_partitions : Tree
unfolding patched_header object_mut has_separator bare_name all_but replace header_values
    set_backup_type patch_header history_number survives retain strip_entry insert_sorted
    sort_by_key new_history patch_partition patch_each patch_disk patch_partitions patch_definition
    patch_auxiliary_data disk_sizes set_disk_size set_disk_sizes patch_disk_sizes and_then unwrap_or
    as_object u16_of contains
patched_partitions = or_tree (
    patch_partitions (trees nothing nothing) (edits nothing nothing) patched_header out_plan
      "out.mrimgx")

unfoldable pub patched_aux : Tree
unfolding patched_header patched_partitions object_mut has_separator bare_name all_but replace
    header_values set_backup_type patch_header history_number survives retain strip_entry
    insert_sorted sort_by_key new_history patch_partition patch_each patch_disk patch_partitions
    patch_definition patch_auxiliary_data disk_sizes set_disk_size set_disk_sizes patch_disk_sizes
    and_then unwrap_or as_object u16_of contains
patched_aux = or_tree (
    patch_auxiliary_data (trees nothing nothing) (edits nothing nothing) patched_partitions out_plan
      "out.mrimgx")

unfoldable pub out_json : Tree
unfolding patched_header patched_partitions patched_aux object_mut has_separator bare_name all_but
    replace header_values set_backup_type patch_header history_number survives retain strip_entry
    insert_sorted sort_by_key new_history patch_partition patch_each patch_disk patch_partitions
    patch_definition patch_auxiliary_data disk_sizes set_disk_size set_disk_sizes patch_disk_sizes
    and_then unwrap_or as_object u16_of contains
out_json =
    or_tree (patch_disk_sizes (trees nothing nothing) (edits nothing nothing) patched_aux to_json)

abbrev pub docs : Documents
docs = trees to_json out_json

abbrev pub doc_edits : Editing docs
doc_edits = edits to_json out_json

abbrev pub zero_md5 : Bytes → Bytes
zero_md5 b = replicate 16 0

pub zero_md5_length : (b : Bytes) → length (zero_md5 b) ≡ 16
zero_md5_length b = refl

abbrev pub to_handles : List (ℕ × Bytes)
to_handles = (1, to_file) ∷ (0, 55 ∷ []) ∷ []

pub to_disks_read : parse_disks to_file true (counts to_disks) 1 ≡ ok (to_disks, 74)
unfolding region_bytes to_file header_to_bytes to_byte parse_disks parse_partitions parse_partition
    walk_list walk_loop read_header read_exact parse_header from_byte read_payload Index.parse
    read_count parse_array parse_loop parse_blocks find
to_disks_read = refl

pub to_member-IsOpened :
    IsOpened docs doc_edits (λ b. ok b) zero_md5 zero_md5_length to_member to_file
unfolding region_bytes to_file header_to_bytes to_byte parse_disks parse_partitions parse_partition
    walk_list walk_loop read_header read_exact parse_header from_byte read_payload Index.parse
    read_count parse_array parse_loop parse_blocks find
to_member-IsOpened = record {
  root = refl;
  at = 1;
  end = 74;
  disks = to_disks_read;
  below = omega arith;
}

pub to_member-AuxEnds : AuxEnds docs doc_edits (λ b. ok b) zero_md5 zero_md5_length to_member
unfolding find
to_member-AuxEnds = λ aux e. ap (λ (b : Located). b.header.flags.last_block) (some-eq (sym e))

pub plan_fits : FitsPlan docs doc_edits out_plan 4096
plan_fits = record {
  number_fits = omega arith;
  increment_fits = omega arith;
  absorbed_fit = (omega arith, (omega arith, (omega arith, tt)));
  position_fits = omega arith;
}
