-- ===== src/Tests/Codecs.antt =====
-- Small files: the codecs, a walk of a list and the metadata region.
use mrimgx_consolidate.Base.{
  ℕ, ◌+◌, ◌-◌, ◌^◌, ◌⊎◌, ◌%◌, ◌≤◌, ◌<◌, ◌≡◌, ◌≢◌, ◌↔◌, refl, true, false, List, [], ◌∷◌, ◌++◌,
  length, map, replicate, ok, err, out_of_fuel, arith,
}
use mrimgx_consolidate.Base.Int.{negsuc}
use mrimgx_consolidate.Base.Bytes.{Bytes}
use mrimgx_consolidate.Block.{
  from_byte, to_byte, plain, MetadataBlockHeader, IsHeader, parse_header, header_to_bytes,
  BlockList, align_up, data_alignment, read_exact, read_footer, footer_bytes, read_header,
  walk_loop, walk_list, read_payload, index_name, json_name, max_blocks_per_list,
}
use mrimgx_consolidate.Block.FlagByte.{from_byte-to_byte, to_byte-from_byte}
use mrimgx_consolidate.Block.Header.{parse-header_to_bytes}
use mrimgx_consolidate.Block.Footer.{align_up_lem, read_footer-footer_bytes}
use mrimgx_consolidate.Block.Walk.{Chain, walk_list_iff, walk_list-ne_fuel}
use mrimgx_consolidate.Index
use mrimgx_consolidate.Index.{
  DataBlockIndexElement, DeltaDataBlock, IsDelta, PartitionIndex, full, delta, is_delta,
  parse_delta, write_delta, to_bytes, write_blocks, write_elements, write_deltas, write_element,
  write_count, read_count, parse_array, parse_loop, parse_blocks, parse_element,
}
use mrimgx_consolidate.Index.Elements.{parse-write_delta}
use mrimgx_consolidate.Index.RoundTrip.{IsIndex, parse-to_bytes}
use mrimgx_consolidate.Json.{Header}
use mrimgx_consolidate.Reader.{Disk, parse_region, parse_disks, parse_partitions, parse_partition}
use mrimgx_consolidate.Reader.Regions.{DisksTile, parse_region-tile}

-- An entry with a negative position, of a delta at the index 70000.
abbrev one_delta : DeltaDataBlock
one_delta = record {
  block_index = 70000;
  element = record {
    file_position = negsuc 4;
    md5_hash = replicate 16 255;
    block_length = 65536;
    file_number = 513;
  };
}

abbrev one_delta_fits : IsDelta one_delta
one_delta_fits = record {
  element_fits = record {
    position_fits = omega arith;
    hash_length = refl;
    length_fits = omega arith;
    number_fits = omega arith;
  };
  index_fits = omega arith;
}

parse-write_delta_example : parse_delta (write_delta one_delta [] ++ (1 ∷ 2 ∷ [])) ≡ ok one_delta
parse-write_delta_example = parse-write_delta one_delta (1 ∷ 2 ∷ []) one_delta_fits

abbrev small_index : PartitionIndex
small_index = record {
  reserved = one_delta.element ∷ [];
  blocks = delta (one_delta ∷ one_delta ∷ []);
}

abbrev small_index_fits : IsIndex small_index
small_index_fits = record {
  reserved_fit = (one_delta_fits.element_fits, tt);
  reserved_count = omega arith;
  blocks_fit = (one_delta_fits, (one_delta_fits, tt));
  block_count = omega arith;
}

parse-to_bytes_example : Index.parse (to_bytes small_index) true ≡ ok small_index
parse-to_bytes_example = parse-to_bytes small_index small_index_fits

abbrev pub index_header : ℕ → MetadataBlockHeader
index_header n = record {
  name = index_name;
  block_length = n;
  hash = replicate 16 9;
  flags = plain true;
}

abbrev pub index_header_fits : IsHeader (index_header 8)
index_header_fits = record { name_length = refl; length_fits = omega arith; hash_length = refl }

parse-header_to_bytes_example :
    parse_header (header_to_bytes (index_header 8) ++ (4 ∷ [])) ≡ ok (index_header 8)
parse-header_to_bytes_example = parse-header_to_bytes (index_header 8) index_header_fits (4 ∷ [])

from_byte-to_byte_example : from_byte (to_byte (plain true)) ≡ plain true
from_byte-to_byte_example = from_byte-to_byte (plain true)

to_byte-from_byte_example : to_byte (from_byte 253) ≡ 253 % 8
to_byte-from_byte_example = to_byte-from_byte 253 (omega arith)

align_up_lem_example :
    ((4097 ≤ 2 ^ 64 - data_alignment)
      × (align_up 4097 % data_alignment ≡ 0)
      × (4097 ≤ align_up 4097)
      × (align_up 4097 < 4097 + data_alignment))
    ⊎ ((2 ^ 64 - data_alignment < 4097) × (align_up 4097 ≡ 0))
align_up_lem_example = align_up_lem 4097 (omega arith)

read_footer-footer_bytes_example : read_footer ((1 ∷ 2 ∷ 3 ∷ []) ++ footer_bytes 77777) ≡ ok 77777
read_footer-footer_bytes_example = read_footer-footer_bytes (1 ∷ 2 ∷ 3 ∷ []) 77777 (omega arith)

-- A region of one disk: a list with one JSON block, and a partition with an empty index.
abbrev pub disk_header : MetadataBlockHeader
disk_header = record {
  name = json_name;
  block_length = 1;
  hash = replicate 16 0;
  flags = plain true;
}

unfoldable pub region_bytes : Bytes
unfolding header_to_bytes to_byte
region_bytes =
    (0 ∷ [])
    ++ (header_to_bytes disk_header
        ++ ((5 ∷ []) ++ (header_to_bytes (index_header 8) ++ replicate 8 0)))

abbrev pub region_header : Header
region_header = record {
  imageid = "A0";
  file_number = 0;
  increment_number = 0;
  merged_files = [];
  split_file = false;
  index_file_position = 1;
  delta_index = false;
  backup_type = "full";
}

abbrev pub disk_list : BlockList
disk_list = record { blocks = record { header = disk_header; offset = 1 } ∷ []; end = 34 }

abbrev pub region_disks : List Disk
region_disks =
    record {
      blocks = disk_list;
      partitions =
          record {
            blocks = record {
              blocks = record { header = index_header 8; offset = 34 } ∷ [];
              end = 74;
            };
            index = record { reserved = []; blocks = full [] };
          }
          ∷ [];
    }
    ∷ []

region_parsed : parse_region region_bytes region_header (1 ∷ []) 74 ≡ ok region_disks
unfolding region_bytes header_to_bytes to_byte parse_region parse_disks parse_partitions
    parse_partition walk_list walk_loop read_header read_exact parse_header from_byte read_payload
    Index.parse read_count parse_array parse_loop parse_blocks
region_parsed = refl

parse_region-tile_example :
    DisksTile region_bytes false region_disks 1 74
    × (map (λ (d : Disk). length d.partitions) region_disks ≡ 1 ∷ [])
parse_region-tile_example =
    parse_region-tile region_bytes region_header (1 ∷ []) 74 region_disks region_parsed

walk_list_iff_example : (walk_list region_bytes 1 ≡ ok disk_list) ↔ (
    Chain region_bytes 1 disk_list.blocks disk_list.end
    × (length disk_list.blocks ≤ max_blocks_per_list))
walk_list_iff_example = walk_list_iff region_bytes 1 disk_list

walk_list-ne_fuel_example : walk_list region_bytes 1 ≢ err out_of_fuel
walk_list-ne_fuel_example = walk_list-ne_fuel region_bytes 1
