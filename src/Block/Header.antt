-- ===== src/Block/Header.antt =====
-- `MetadataBlockHeader::parse` and `to_bytes` (src/block.rs).
use mrimgx_consolidate.Base.{
  ◌≡◌, refl, ap, ◌∙◌, sym, true, [], ◌∷◌, ◌++◌, append_assoc, length, length-append, slice, get_or,
  get_or-append, take-append, drop-append, leb, le→leb, ok, arith,
}
use mrimgx_consolidate.Base.Bytes.{Bytes, le_bytes, from_le, from_le-le_bytes}
use mrimgx_consolidate.Block.{
  MetadataBlockHeader, IsHeader, to_byte, parse_header, header_to_bytes, header_len,
}
use mrimgx_consolidate.Block.FlagByte.{from_byte-to_byte}

pub length-header_to_bytes :
    (h : MetadataBlockHeader) → IsHeader h → length (header_to_bytes h) ≡ header_len
unfolding header_to_bytes
length-header_to_bytes h v = omega (
  arith,
  length-append h.name
      (le_bytes 4 h.block_length ++ (h.hash ++ (to_byte h.flags ∷ 0 ∷ 0 ∷ 0 ∷ []))),
  length-append h.hash (to_byte h.flags ∷ 0 ∷ 0 ∷ 0 ∷ []),
)

module _ (h : MetadataBlockHeader) (v : IsHeader h) (rest : Bytes) where
  padding : Bytes
  padding = to_byte h.flags ∷ 0 ∷ 0 ∷ 0 ∷ rest

  written : header_to_bytes h ++ rest ≡ h.name ++ (le_bytes 4 h.block_length ++ (h.hash ++ padding))
  unfolding header_to_bytes padding
  written =
      append_assoc h.name _ rest
      ∙ ap (λ t. h.name ++ (le_bytes 4 h.block_length ++ t)) (append_assoc h.hash _ rest)

  slice_name : slice (header_to_bytes h ++ rest) 0 8 ≡ h.name
  slice_name = rw written (take-append 8 h.name _ v.name_length)

  slice_length : from_le (slice (header_to_bytes h ++ rest) 8 4) ≡ h.block_length
  slice_length = rw written (
      rw (drop-append 8 h.name (le_bytes 4 h.block_length ++ (h.hash ++ padding)) v.name_length)
        (from_le-le_bytes 4 _ v.length_fits))

  front : Bytes
  front = h.name ++ le_bytes 4 h.block_length

  length-front : length front ≡ 12
  unfolding front
  length-front = omega (arith, length-append h.name (le_bytes 4 h.block_length), v.name_length)

  written_front : header_to_bytes h ++ rest ≡ front ++ (h.hash ++ padding)
  unfolding front
  written_front =
      written ∙ sym (append_assoc h.name (le_bytes 4 h.block_length) (h.hash ++ padding))

  slice_hash : slice (header_to_bytes h ++ rest) 12 16 ≡ h.hash
  slice_hash = rw written_front (
      rw (drop-append 12 front (h.hash ++ padding) length-front)
        (take-append 16 h.hash padding v.hash_length))

  flag_byte : get_or (header_to_bytes h ++ rest) 28 0 ≡ to_byte h.flags
  flag_byte =
      rw (written_front, ← append_assoc front h.hash padding)
        (unfold padding in
          get_or-append 28 (front ++ h.hash) (to_byte h.flags) (0 ∷ 0 ∷ 0 ∷ rest) 0
            (omega (arith, length-append front h.hash, length-front, v.hash_length)))

  long_enough : leb header_len (length (header_to_bytes h ++ rest)) ≡ true
  long_enough =
      le→leb _ _ (omega (arith, length-append (header_to_bytes h) rest, length-header_to_bytes h v))

  -- `parse` reads back the header that `to_bytes` wrote, whatever follows it, when its fields fit
  -- their widths.
  pub parse-header_to_bytes : parse_header (header_to_bytes h ++ rest) ≡ ok h
  unfolding parse_header
  parse-header_to_bytes =
      rw (long_enough, slice_name, slice_length, slice_hash, flag_byte, from_byte-to_byte) refl
