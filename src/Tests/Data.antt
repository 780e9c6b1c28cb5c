-- ===== src/Tests/Data.antt =====
-- Test data: a set of a Full and two Incrementals with one partition, and documents of a small
-- concrete type.
use Prim.Native.String.{String}
use text.Mathlib.Text.{◌==◌ as str_eq}
use mrimgx_consolidate.Base.{
  ℕ, ◌+◌, ◌^◌, Bool, true, false, ◌&&◌, List, [], ◌∷◌, Option, none, some, ltb, ◌==◌, if◌then◌else◌,
  replicate, Result, ok, err, not_an_object,
}
use mrimgx_consolidate.Base.Int.{ℤ, pos}
use mrimgx_consolidate.Base.Bytes.{Bytes}
use mrimgx_consolidate.Block.{MetadataBlockHeader, BlockList, plain, index_name, json_name}
use mrimgx_consolidate.Index.{
  DataBlockIndexElement, default_element, DeltaDataBlock, Blocks, full, delta,
}
use mrimgx_consolidate.Json.{Documents, Header}
use mrimgx_consolidate.Reader.{BackupFile, Partition}
use mrimgx_consolidate.Set.{BackupSet}

-- A document: a scalar, or a chain of fields.
pub data Doc : Type 0 where
  nothing : Doc
  number : ℕ → Doc
  words : String → Doc
  field : String → Doc → Doc → Doc

abbrev doc_get : Doc → String → Option Doc
doc_get (field key value rest) k = if str_eq key k then some value else doc_get rest k
doc_get _ k = none

abbrev doc_is_object : Doc → Bool
doc_is_object (field key value rest) = true
doc_is_object _ = false

abbrev doc_str : Doc → Option String
doc_str (words s) = some s
doc_str _ = none

abbrev doc_u64 : Doc → Option ℕ
doc_u64 (number n) = if ltb n (2 ^ 64) then some n else none
doc_u64 _ = none

abbrev doc_i64 : Doc → Option ℤ
doc_i64 (number n) = if ltb n (2 ^ 63) then some (pos n) else none
doc_i64 _ = none

abbrev doc_eq : Doc → Doc → Bool
doc_eq nothing nothing = true
doc_eq (number n) (number m) = n == m
doc_eq (words s) (words t) = str_eq s t
doc_eq (field k v r) (field l w q) = str_eq k l && (doc_eq v w && doc_eq r q)
doc_eq _ _ = false

abbrev doc_from_slice : Bytes → Result Doc
doc_from_slice (n ∷ []) = ok (number n)
doc_from_slice _ = err not_an_object

abbrev doc_pretty : Doc → Result Bytes
doc_pretty (number n) = ok (n ∷ [])
doc_pretty _ = err not_an_object

abbrev pub docs : Documents
docs = record {
  Value = Doc;
  null = nothing;
  from_slice = doc_from_slice;
  pretty = doc_pretty;
  get = doc_get;
  is_object = doc_is_object;
  as_str = doc_str;
  as_u64 = doc_u64;
  as_i64 = doc_i64;
  as_bool = λ v. none;
  as_array = λ v. none;
  value_eq = doc_eq;
}

-- A block of `n` bytes at `at` of the file `file_number`.
abbrev pub entry : ℕ → ℕ → ℕ → DataBlockIndexElement
entry file_number at n = record {
  file_position = pos at;
  md5_hash = replicate 16 (at + 1);
  block_length = n;
  file_number = file_number;
}

abbrev header_of : Bytes → ℕ → Bool → MetadataBlockHeader
header_of name n last = record {
  name = name;
  block_length = n;
  hash = replicate 16 0;
  flags = plain last;
}

-- A list with one plain block.
abbrev pub one_block : Bytes → ℕ → ℕ → BlockList
one_block name at n = record {
  blocks = record { header = header_of name n true; offset = at } ∷ [];
  end = at + 32 + n;
}

abbrev pub settings : Doc
settings =
    field "_compression" (field "compression_level" (words "medium") nothing)
      (field "_encryption" (field "enable" (number 0) nothing) nothing)

abbrev pub header : ℕ → Bool → List ℤ → Header
header n delta_index merged_files = record {
  imageid = "A0";
  file_number = n;
  increment_number = n;
  merged_files = merged_files;
  split_file = false;
  index_file_position = 4096;
  delta_index = delta_index;
  backup_type = "inc";
}

abbrev partition : List DataBlockIndexElement → Blocks → Partition
partition reserved blocks = record {
  blocks = one_block index_name 4200 100;
  index = record { reserved = reserved; blocks = blocks };
}

abbrev file : String → Header → Partition → BackupFile Doc
file path h part = record {
  path = path;
  size = 5000;
  json_raw = 123 ∷ 125 ∷ [];
  json = settings;
  header = h;
  root_at = 4500;
  root_list = one_block json_name 4500 2;
  disks = record { blocks = one_block json_name 4096 72; partitions = part ∷ [] } ∷ [];
}

abbrev at_index : ℕ → DataBlockIndexElement → DeltaDataBlock
at_index i e = record { block_index = i; element = e }

-- The Full has the blocks 0 and 2, and a hole at 1.
abbrev pub file_0 : BackupFile Doc
file_0 =
    file "a-00.mrimgx" (header 0 false [])
      (partition (entry 0 0 1 ∷ []) (full (entry 0 1 2 ∷ default_element ∷ entry 0 3 2 ∷ [])))

-- The first Incremental changes block 1, and the second block 0.
abbrev pub file_1 : BackupFile Doc
file_1 =
    file "a-01.mrimgx" (header 1 true [])
      (partition (entry 1 0 1 ∷ []) (delta (at_index 1 (entry 1 1 2) ∷ [])))

abbrev pub file_2 : BackupFile Doc
file_2 = file "a-02.mrimgx" (header 2 true []) (
    partition (entry 2 0 1 ∷ [])
      (delta (at_index 0 (entry 2 1 2) ∷ at_index 3 default_element ∷ [])))

abbrev pub three_files : BackupSet Doc
three_files = record {
  members = file_2 ∷ file_1 ∷ file_0 ∷ [];
  owners = (0, 2) ∷ (1, 1) ∷ (2, 0) ∷ [];
}

-- The data regions of the three files.
abbrev pub open_files : List (ℕ × Bytes)
open_files = (0, 10 ∷ 11 ∷ 12 ∷ 13 ∷ 14 ∷ []) ∷ (1, 20 ∷ 21 ∷ 22 ∷ []) ∷ (2, 30 ∷ 31 ∷ 32 ∷ []) ∷ []
