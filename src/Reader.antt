-- ===== src/Reader.antt =====
-- src/reader.rs: one parsed backup file. A file is the list of its bytes; opening it is reading
-- those bytes.
pub mod Regions
use Prim.Native.Nat.{max}
use Prim.Native.String.{String}
use mrimgx_consolidate.Base.{
  ℕ, zero, suc, ◌+◌, ◌-◌, ◌≡◌, Bool, true, false, ◌&&◌, ◌||◌, not, List, [], ◌∷◌, Option, none,
  some, ltb, ◌==◌, if◌then◌else◌, length, Result, ok, err, or_err, ensure, ◌>>=◌, ◌>>◌,
  no_disks_array, no_partitions_array, no_json_block, json_encrypted, index_region_too_high,
  no_index_block, index_not_plain, walk_drifted, framing_drifted, index_panic,
}
use mrimgx_consolidate.Base.Int.{ℤ, pos, negsuc}
use mrimgx_consolidate.Base.Bytes.{Bytes, bytes_eq}
use mrimgx_consolidate.Block
use mrimgx_consolidate.Block.{
  Located, BlockList, json_name, index_name, footer_len, read_footer, walk_list, find, read_block,
  read_payload,
}
use mrimgx_consolidate.Index
use mrimgx_consolidate.Index.{
  DataBlockIndexElement, DeltaDataBlock, PartitionIndex, Blocks, full, delta, is_hole,
}
use mrimgx_consolidate.Json
use mrimgx_consolidate.Json.{Documents, Header, from_value}

abbrev pub FilePath : Type 0
FilePath = String

pub record Partition : Type 0 where
  pub blocks : BlockList
  pub index : PartitionIndex

pub record Disk : Type 0 where
  pub blocks : BlockList
  pub partitions : List Partition

-- `V` is the type of JSON values.
pub record BackupFile (V : Type 0) : Type 0 where
  pub path : FilePath
  pub size : ℕ
  pub json_raw : Bytes
  pub json : V
  pub header : Header
  pub root_at : ℕ
  pub root_list : BlockList
  pub disks : List Disk

-- `.last()`
abbrev pub last? {ℓ} : {A : Type ℓ} → List A → Option A
last? [] = none
last? (x ∷ []) = some x
last? (x ∷ y ∷ ys) = last? (y ∷ ys)

-- `blocks[0]`
abbrev pub first? {ℓ} : {A : Type ℓ} → List A → Option A
first? [] = none
first? (x ∷ xs) = some x

-- The byte range of a partition's list up to its `$INDEX`.
unfoldable pub span_before_index : Partition → Result (ℕ × ℕ)
span_before_index part = do
  start ← or_err (first? part.blocks.blocks) index_panic
  index ← or_err (last? part.blocks.blocks) index_panic
  ok (start.offset, index.offset)

-- One partition: its list, and the index that ends it.
unfoldable pub parse_partition : Bytes → Bool → ℕ → Result Partition
parse_partition file delta_index at = do
  blocks ← walk_list file at
  index_block ← or_err (last? blocks.blocks) index_panic
  ensure (bytes_eq index_block.header.name index_name) no_index_block
  ensure (not index_block.header.flags.compression && not index_block.header.flags.encryption)
      index_not_plain
  raw ← read_payload file index_block
  index ← Index.parse raw delta_index
  ok (record { blocks = blocks; index = index })

-- `for p in 0..partition_count`, from the offset `at`; the offset behind comes back.
unfoldable pub parse_partitions : Bytes → Bool → ℕ → ℕ → Result (List Partition × ℕ)
parse_partitions file delta_index zero at = ok ([], at)
parse_partitions file delta_index (suc count) at = do
  part ← parse_partition file delta_index at
  (parts, end) ← parse_partitions file delta_index count part.blocks.end
  ok (part ∷ parts, end)

unfoldable pub parse_disks : Bytes → Bool → List ℕ → ℕ → Result (List Disk × ℕ)
parse_disks file delta_index [] at = ok ([], at)
parse_disks file delta_index (count ∷ counts) at = do
  blocks ← walk_list file at
  (parts, at') ← parse_partitions file delta_index count blocks.end
  (disks, end) ← parse_disks file delta_index counts at'
  ok (record { blocks = blocks; partitions = parts } ∷ disks, end)

-- The metadata region between `index_file_position` and the root list.
unfoldable pub parse_region : Bytes → Header → List ℕ → ℕ → Result (List Disk)
parse_region file header shape root_at = do
  ensure (ltb header.index_file_position root_at) index_region_too_high
  (disks, end) ← parse_disks file header.delta_index shape header.index_file_position
  ensure (end == root_at) walk_drifted
  ok disks

module _ (J : Documents) (md5 : Bytes → Bytes) (decode_all : Bytes → Result Bytes) where
  open J use {Value, get, as_array}

  unfoldable pub partition_counts : List Value → Result (List ℕ)
  partition_counts [] = ok []
  partition_counts (disk ∷ disks) =
      let rest = partition_counts disks in
      do
        value ← or_err (get disk "partitions") no_partitions_array
        parts ← or_err (as_array value) no_partitions_array
        counts ← rest
        ok (length parts ∷ counts)

  -- The number of partitions of each disk that the document declares.
  unfoldable pub shape : Value → Result (List ℕ)
  shape json = do
    value ← or_err (get json "disks") no_disks_array
    disks ← or_err (as_array value) no_disks_array
    partition_counts disks

  -- A split continuation has no index, and without `load_index` the region is not read.
  unfoldable pub load_disks : Bytes → Bool → Value → Header → ℕ → Result (List Disk)
  load_disks file load_index json header root_at =
      if load_index && not header.split_file
      then (do counts ← shape json; parse_region file header counts root_at)
      else ok []

  unfoldable pub open_file : FilePath → Bytes → Bool → Result (BackupFile Value)
  open_file path file load_index = do
    root_at ← read_footer file
    root_list ← walk_list file root_at
    json_block ← or_err (find root_list json_name) no_json_block
    ensure (not json_block.header.flags.encryption) json_encrypted
    json_raw ← read_block md5 decode_all file json_block
    json ← Json.parse J json_raw
    header ← from_value J json
    disks ← load_disks file load_index json header root_at
    ok (record {
      path = path;
      size = length file;
      json_raw = json_raw;
      json = json;
      header = header;
      root_at = root_at;
      root_list = root_list;
      disks = disks;
    })

-- `saturating_sub` stops at 0, as `-` does.
abbrev pub trailing_bytes : {V : Type 0} → BackupFile V → ℕ
trailing_bytes file = file.size - file.root_list.end

unfoldable pub check_framing : {V : Type 0} → BackupFile V → Result (Unit {0})
check_framing file = ensure (trailing_bytes file == footer_len) framing_drifted

-- `.max(0) as u64`
abbrev pub position_of : ℤ → ℕ
position_of (pos n) = n
position_of (negsuc n) = 0

-- The closure `consider`: the highest end so far, and one more entry.
module _ (own : ℕ) where
  unfoldable pub consider : ℕ → DataBlockIndexElement → ℕ
  consider end e =
      if is_hole e || not (e.file_number == own)
      then end
      else max end (position_of e.file_position + e.block_length)

  unfoldable pub consider_entries : ℕ → List DataBlockIndexElement → ℕ
  consider_entries end [] = end
  consider_entries end (e ∷ es) = consider_entries (consider end e) es

  unfoldable pub consider_deltas : ℕ → List DeltaDataBlock → ℕ
  consider_deltas end [] = end
  consider_deltas end (d ∷ ds) = consider_deltas (consider end d.element) ds

  unfoldable pub consider_blocks : ℕ → Blocks → ℕ
  consider_blocks end (full entries) = consider_entries end entries
  consider_blocks end (delta ds) = consider_deltas end ds

  unfoldable pub consider_partitions : ℕ → List Partition → ℕ
  consider_partitions end [] = end
  consider_partitions end (part ∷ parts) =
      consider_partitions
        (consider_blocks (consider_entries end part.index.reserved) part.index.blocks) parts

  unfoldable pub consider_disks : ℕ → List Disk → ℕ
  consider_disks end [] = end
  consider_disks end (disk ∷ disks) = consider_disks (consider_partitions end disk.partitions) disks

-- The highest offset one past a block that the file stores itself.
unfoldable pub own_data_end : {V : Type 0} → BackupFile V → ℕ
own_data_end file = consider_disks file.header.file_number 0 file.disks
