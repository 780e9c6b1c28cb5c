-- ===== src/Index/Elements.antt =====
-- One element of an index (src/index.rs): its size on disk, writing and parsing.
use mrimgx_consolidate.Base.{
  ◌≡◌, true, refl, ap, [], ◌++◌, append_assoc, length, slice, drop, take-append, length-append,
  drop-append, leb, le→leb, ok, arith,
}
use mrimgx_consolidate.Base.Int.{i64_to_bits, i64_of_bits-to_bits, i64_to_bits-lt}
use mrimgx_consolidate.Base.Bytes.{Bytes, le_bytes, from_le, from_le-le_bytes}
use mrimgx_consolidate.Index.{
  DataBlockIndexElement, IsElement, DeltaDataBlock, IsDelta, parse_element, write_element,
  parse_delta, write_delta, element_len, delta_len,
}

-- `write_to` appends: what was in the buffer stays in front.
pub write_element-append :
    (e : DataBlockIndexElement) (out : Bytes) → write_element e out ≡ out ++ write_element e []
unfolding write_element
write_element-append e out = refl

pub write_delta-append :
    (d : DeltaDataBlock) (out : Bytes) → write_delta d out ≡ out ++ write_delta d []
unfolding write_delta
write_delta-append d out = rw (write_element-append d.element out) (append_assoc out _ _)

-- A serialized element is exactly 30 bytes.
pub length-write_element :
    (e : DataBlockIndexElement) → IsElement e → length (write_element e []) ≡ element_len
unfolding write_element
length-write_element e h =
    omega (arith, length-append e.md5_hash (le_bytes 4 e.block_length ++ le_bytes 2 e.file_number))

pub length-write_delta : (d : DeltaDataBlock) → IsDelta d → length (write_delta d []) ≡ delta_len
unfolding write_delta
length-write_delta d h = omega (
  arith,
  length-append (write_element d.element []) (le_bytes 4 d.block_index),
  length-write_element d.element h.element_fits,
)

module _ (e : DataBlockIndexElement) (rest : Bytes) (h : IsElement e) where
  tail : Bytes
  tail = le_bytes 4 e.block_length ++ (le_bytes 2 e.file_number ++ rest)

  written :
      write_element e [] ++ rest ≡ le_bytes 8 (i64_to_bits e.file_position) ++ (e.md5_hash ++ tail)
  unfolding write_element tail
  written = ap (λ t. le_bytes 8 (i64_to_bits e.file_position) ++ t) (append_assoc e.md5_hash _ rest)

  slice_position : from_le (slice (write_element e [] ++ rest) 0 8) ≡ i64_to_bits e.file_position
  slice_position =
      rw written (from_le-le_bytes 8 _ (i64_to_bits-lt e.file_position h.position_fits))

  slice_hash : slice (write_element e [] ++ rest) 8 16 ≡ e.md5_hash
  slice_hash = rw written (take-append 16 e.md5_hash tail h.hash_length)

  slice_length : from_le (slice (write_element e [] ++ rest) 24 4) ≡ e.block_length
  slice_length = rw written (
      rw (drop-append 16 e.md5_hash tail h.hash_length)
        (unfold tail in from_le-le_bytes 4 _ h.length_fits))

  slice_number : from_le (slice (write_element e [] ++ rest) 28 2) ≡ e.file_number
  slice_number = rw (written, number_behind) (from_le-le_bytes 2 _ h.number_fits)
    where
      front : Bytes
      front = e.md5_hash ++ le_bytes 4 e.block_length

      number_behind : drop 20 (e.md5_hash ++ tail) ≡ le_bytes 2 e.file_number ++ rest
      number_behind =
          unfold tail in
          rw
            (← append_assoc e.md5_hash (le_bytes 4 e.block_length)
              (le_bytes 2 e.file_number ++ rest))
            (drop-append 20 front _
              (omega (arith, length-append e.md5_hash (le_bytes 4 e.block_length), h.hash_length)))

  long_enough : leb element_len (length (write_element e [] ++ rest)) ≡ true
  long_enough =
      le→leb _ _ (omega (arith, length-append (write_element e []) rest, length-write_element e h))

  -- `parse` reads back the element that `write_to` wrote, whatever follows it.
  pub parse-write_element : parse_element (write_element e [] ++ rest) ≡ ok e
  unfolding parse_element
  parse-write_element =
      rw (long_enough, slice_position, slice_hash, slice_length, slice_number)
        (rw (i64_of_bits-to_bits e.file_position h.position_fits) refl)

module _ (d : DeltaDataBlock) (rest : Bytes) (h : IsDelta d) where
  split :
      write_delta d [] ++ rest ≡ write_element d.element [] ++ (le_bytes 4 d.block_index ++ rest)
  unfolding write_delta
  split = append_assoc (write_element d.element []) (le_bytes 4 d.block_index) rest

  element_read : parse_element (write_delta d [] ++ rest) ≡ ok d.element
  element_read = rw split (parse-write_element d.element _ h.element_fits)

  index_read : from_le (slice (write_delta d [] ++ rest) 30 4) ≡ d.block_index
  index_read = rw split (
      rw
        (drop-append 30 _ (le_bytes 4 d.block_index ++ rest)
          (length-write_element d.element h.element_fits))
        (from_le-le_bytes 4 _ h.index_fits))

  delta_long_enough : leb delta_len (length (write_delta d [] ++ rest)) ≡ true
  delta_long_enough =
      le→leb _ _ (omega (arith, length-append (write_delta d []) rest, length-write_delta d h))

  -- `parse` reads back the delta element that `write_to` wrote, whatever follows it, when its fields
  -- fit their widths.
  pub parse-write_delta : parse_delta (write_delta d [] ++ rest) ≡ ok d
  unfolding parse_delta
  parse-write_delta = rw (delta_long_enough, element_read, index_read) refl
