-- ===== src/Index.antt =====
-- src/index.rs: the elements of a block index, and the `$INDEX` payload.
pub mod Elements
pub mod Arrays
pub mod RoundTrip
use mrimgx_consolidate.Base.{
  ℕ, zero, suc, ◌+◌, ◌-◌, ◌*◌, ◌^◌, ◌≤◌, ◌<◌, ◌≡◌, Bool, true, false, List, [], ◌∷◌, ◌++◌, ltb, leb,
  ◌==◌, if◌then◌else◌, length, slice, Result, ok, err, ◌>>=◌, ◌>>◌, ensure, element_too_short,
  delta_too_short, count_missing, array_overflow, array_too_long, trailing_bytes,
}
use mrimgx_consolidate.Base.Int.{ℤ, pos, IsI64, i64_to_bits, i64_of_bits}
use mrimgx_consolidate.Base.Bytes.{Bytes, le_bytes, from_le}

abbrev pub element_len : ℕ
element_len = 30

abbrev pub delta_len : ℕ
delta_len = 34

-- The four fields, in the order in which they are stored.
pub record DataBlockIndexElement : Type 0 where
  pub file_position : ℤ
  pub md5_hash : Bytes
  pub block_length : ℕ
  pub file_number : ℕ

-- `#[derive(Default)]`: every field zero.
abbrev pub default_element : DataBlockIndexElement
default_element = record {
  file_position = pos 0;
  md5_hash = 0 ∷ 0 ∷ 0 ∷ 0 ∷ 0 ∷ 0 ∷ 0 ∷ 0 ∷ 0 ∷ 0 ∷ 0 ∷ 0 ∷ 0 ∷ 0 ∷ 0 ∷ 0 ∷ [];
  block_length = 0;
  file_number = 0;
}

-- The ranges of the Rust types `i64`, `[u8; 16]`, `u32` and `u16`.
pub record IsElement (e : DataBlockIndexElement) : Type 0 where
  pub position_fits : IsI64 e.file_position
  pub hash_length : length e.md5_hash ≡ 16
  pub length_fits : e.block_length < 2 ^ 32
  pub number_fits : e.file_number < 2 ^ 16

unfoldable pub parse_element : Bytes → Result DataBlockIndexElement
parse_element raw = do
  ensure (leb element_len (length raw)) element_too_short
  ok (record {
    file_position = i64_of_bits (from_le (slice raw 0 8));
    md5_hash = slice raw 8 16;
    block_length = from_le (slice raw 24 4);
    file_number = from_le (slice raw 28 2);
  })

-- The four `extend_from_slice` calls.
unfoldable pub write_element : DataBlockIndexElement → Bytes → Bytes
write_element e out =
    out
    ++ (le_bytes 8 (i64_to_bits e.file_position)
        ++ (e.md5_hash ++ (le_bytes 4 e.block_length ++ le_bytes 2 e.file_number)))

-- True when the block was never captured.
abbrev pub is_hole : DataBlockIndexElement → Bool
is_hole e = e.block_length == 0

pub record DeltaDataBlock : Type 0 where
  pub element : DataBlockIndexElement
  pub block_index : ℕ

pub record IsDelta (d : DeltaDataBlock) : Type 0 where
  pub element_fits : IsElement d.element
  pub index_fits : d.block_index < 2 ^ 32

unfoldable pub parse_delta : Bytes → Result DeltaDataBlock
parse_delta raw = do
  ensure (leb delta_len (length raw)) delta_too_short
  element ← parse_element raw
  ok (record { element = element; block_index = from_le (slice raw 30 4) })

unfoldable pub write_delta : DeltaDataBlock → Bytes → Bytes
write_delta d out = write_element d.element out ++ le_bytes 4 d.block_index

pub data Blocks : Type 0 where
  full : List DataBlockIndexElement → Blocks
  delta : List DeltaDataBlock → Blocks

abbrev pub len : Blocks → ℕ
len (full v) = length v
len (delta v) = length v

abbrev pub is_delta : Blocks → Bool
is_delta (full v) = false
is_delta (delta v) = true

pub record PartitionIndex : Type 0 where
  pub reserved : List DataBlockIndexElement
  pub blocks : Blocks

-- `i32::from_le_bytes(…).max(0)`, and the cursor behind it.
unfoldable pub read_count : Bytes → ℕ → Result (ℕ × ℕ)
read_count raw at = do
  ensure (leb (at + 4) (length raw)) count_missing
  let n = from_le (slice raw at 4)
  ok (if ltb n (2 ^ 31) then n else 0, at + 4)

-- `i32::try_from(count).unwrap_or(i32::MAX)`.
unfoldable pub write_count : ℕ → Bytes → Bytes
write_count count out = out ++ le_bytes 4 (if ltb count (2 ^ 31) then count else 2 ^ 31 - 1)

module _ {T : Type 0} (parse : Bytes → Result T) where
  -- The `for i in 0..count` loop: the rounds left, and the offset of the next element.
  unfoldable pub parse_loop : ℕ → Bytes → ℕ → ℕ → Result (List T)
  parse_loop zero raw start stride = ok []
  parse_loop (suc n) raw start stride =
      let rest = parse_loop n raw (start + stride) stride in
      do x ← parse (slice raw start stride); xs ← rest; ok (x ∷ xs)

  unfoldable pub parse_array : Bytes → ℕ → ℕ → ℕ → Result (List T × ℕ)
  parse_array raw at count stride = do
    ensure (ltb (count * stride) (2 ^ 64)) array_overflow
    ensure (leb (at + count * stride) (length raw)) array_too_long
    out ← parse_loop count raw at stride
    ok (out, at + count * stride)

-- The second array, in the form that `delta_index` says.
unfoldable pub parse_blocks : Bytes → ℕ → ℕ → Bool → Result (Blocks × ℕ)
parse_blocks raw at count true = do
  (v, at') ← parse_array parse_delta raw at count delta_len
  ok (delta v, at')
parse_blocks raw at count false = do
  (v, at') ← parse_array parse_element raw at count element_len
  ok (full v, at')

unfoldable pub parse : Bytes → Bool → Result PartitionIndex
parse raw delta_index = do
  (reserved_count, at) ← read_count raw 0
  (reserved, at') ← parse_array parse_element raw at reserved_count element_len
  (block_count, at'') ← read_count raw at'
  (blocks, end) ← parse_blocks raw at'' block_count delta_index
  ensure (end == length raw) trailing_bytes
  ok (record { reserved = reserved; blocks = blocks })

unfoldable pub write_elements : List DataBlockIndexElement → Bytes → Bytes
write_elements [] out = out
write_elements (e ∷ es) out = write_elements es (write_element e out)

unfoldable pub write_deltas : List DeltaDataBlock → Bytes → Bytes
write_deltas [] out = out
write_deltas (d ∷ ds) out = write_deltas ds (write_delta d out)

unfoldable pub write_blocks : Blocks → Bytes → Bytes
write_blocks (full v) out = write_elements v out
write_blocks (delta v) out = write_deltas v out

unfoldable pub to_bytes : PartitionIndex → Bytes
to_bytes index = write_blocks index.blocks (
    write_count (len index.blocks)
      (write_elements index.reserved (write_count (length index.reserved) [])))
