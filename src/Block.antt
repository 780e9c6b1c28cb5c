-- ===== src/Block.antt =====
-- src/block.rs: the footer, the metadata block headers, and the lists that they form. A file is
-- the list of its bytes; `seek` to an offset and `read_exact` is one read at that offset. MD5 and
-- the zstd decoder are not part of the repository: they are parameters.
pub mod FlagByte
pub mod Header
pub mod Footer
pub mod Walk
use Prim.Native.Nat.{bit_and, bit_or}
use mrimgx_consolidate.Base.{
  ℕ, zero, suc, ◌+◌, ◌-◌, ◌*◌, ◌/◌, ◌%◌, ◌^◌, ◌<◌, ◌≡◌, Bool, true, false, not, List, [], ◌∷◌, ◌++◌,
  Option, none, some, ltb, leb, ◌==◌, if◌then◌else◌, length, slice, get_or, Result, err, ok, ensure,
  ◌>>=◌, ◌>>◌, short_read, header_too_short, payload_too_large, too_short_for_footer, bad_magic,
  list_too_long, out_of_fuel, hash_mismatch, encrypted_block,
}
use mrimgx_consolidate.Base.Bytes.{Bytes, le_bytes, from_le, bytes_eq}

abbrev pub magic : Bytes
magic = b'M' ∷ b'A' ∷ b'C' ∷ b'R' ∷ b'I' ∷ b'U' ∷ b'M' ∷ b'_' ∷ b'F' ∷ b'I' ∷ b'L' ∷ b'E' ∷ []

abbrev pub footer_len : ℕ
footer_len = 20

abbrev pub header_len : ℕ
header_len = 32

-- The names are padded with spaces, which are the byte 32.
abbrev pub json_name : Bytes
json_name = b'$' ∷ b'J' ∷ b'S' ∷ b'O' ∷ b'N' ∷ 32 ∷ 32 ∷ 32 ∷ []

abbrev pub index_name : Bytes
index_name = b'$' ∷ b'I' ∷ b'N' ∷ b'D' ∷ b'E' ∷ b'X' ∷ 32 ∷ 32 ∷ []

abbrev pub auxdata_name : Bytes
auxdata_name = b'$' ∷ b'A' ∷ b'U' ∷ b'X' ∷ b'D' ∷ b'A' ∷ b'T' ∷ b'A' ∷ []

abbrev pub max_blocks_per_list : ℕ
max_blocks_per_list = 64

abbrev pub data_alignment : ℕ
data_alignment = 4096

-- `offset.div_ceil(DATA_ALIGNMENT) * DATA_ALIGNMENT`
-- `div_ceil` and a product that wraps at 64 bits.
unfoldable pub align_up : ℕ → ℕ
align_up offset = (offset + (data_alignment - 1)) / data_alignment * data_alignment % 2 ^ 64

-- `seek(SeekFrom::Start(at))` and `read_exact` of `n` bytes.
unfoldable pub read_exact : Bytes → ℕ → ℕ → Result Bytes
read_exact file at n = do ensure (leb (at + n) (length file)) short_read; ok (slice file at n)

pub record Flags : Type 0 where
  pub last_block : Bool
  pub compression : Bool
  pub encryption : Bool

unfoldable pub from_byte : ℕ → Flags
from_byte byte = record {
  last_block = not (bit_and byte 0x01 == 0);
  compression = not (bit_and byte 0x02 == 0);
  encryption = not (bit_and byte 0x04 == 0);
}

unfoldable pub to_byte : Flags → ℕ
to_byte f =
    let byte : ℕ = if f.last_block then bit_or 0 0x01 else 0 in
    let byte' : ℕ = if f.compression then bit_or byte 0x02 else byte in
    if f.encryption then bit_or byte' 0x04 else byte'

-- The flags of a freshly written plaintext block.
abbrev pub plain : Bool → Flags
plain last = record { last_block = last; compression = false; encryption = false }

pub record MetadataBlockHeader : Type 0 where
  pub name : Bytes
  pub block_length : ℕ
  pub hash : Bytes
  pub flags : Flags

-- The ranges of the Rust types `[u8; 8]`, `u32` and `[u8; 16]`.
pub record IsHeader (h : MetadataBlockHeader) : Type 0 where
  pub name_length : length h.name ≡ 8
  pub length_fits : h.block_length < 2 ^ 32
  pub hash_length : length h.hash ≡ 16

unfoldable pub parse_header : Bytes → Result MetadataBlockHeader
parse_header raw = do
  ensure (leb header_len (length raw)) header_too_short
  ok (record {
    name = slice raw 0 8;
    block_length = from_le (slice raw 8 4);
    hash = slice raw 12 16;
    flags = from_byte (get_or raw 28 0);
  })

-- Bytes 29 to 31 are padding.
unfoldable pub header_to_bytes : MetadataBlockHeader → Bytes
header_to_bytes h =
    h.name ++ (le_bytes 4 h.block_length ++ (h.hash ++ (to_byte h.flags ∷ 0 ∷ 0 ∷ 0 ∷ [])))

-- A block of a list: its header, and the offset of that header in the file.
pub record Located : Type 0 where
  pub header : MetadataBlockHeader
  pub offset : ℕ

abbrev pub payload_at : Located → ℕ
payload_at b = b.offset + header_len

-- One past the last payload byte.
abbrev pub end_of : Located → ℕ
end_of b = payload_at b + b.header.block_length

pub record BlockList : Type 0 where
  pub blocks : List Located
  pub end : ℕ

abbrev pub find_loop : List Located → Bytes → Option Located
find_loop [] name = none
find_loop (b ∷ bs) name = if bytes_eq b.header.name name then some b else find_loop bs name

-- The first block of that name.
unfoldable pub find : BlockList → Bytes → Option Located
find l name = find_loop l.blocks name

unfoldable pub read_footer : Bytes → Result ℕ
read_footer file = do
  ensure (leb footer_len (length file)) too_short_for_footer
  raw ← read_exact file (length file - footer_len) footer_len
  ensure (bytes_eq (slice raw 8 12) magic) bad_magic
  ok (from_le (slice raw 0 8))

unfoldable pub footer_bytes : ℕ → Bytes
footer_bytes root_list_offset = le_bytes 8 root_list_offset ++ magic

-- One round of the loop of `walk_list`: the header at `offset`.
unfoldable pub read_header : Bytes → ℕ → Result MetadataBlockHeader
read_header file offset = do raw ← read_exact file offset header_len; parse_header raw

-- The loop; `blocks` is what was pushed so far. `max_blocks_per_list` rounds are enough.
unfoldable pub walk_loop : ℕ → Bytes → ℕ → List Located → Result BlockList
walk_loop zero file offset blocks = err out_of_fuel
walk_loop (suc fuel) file offset blocks = do
  header ← read_header file offset
  let located : Located = record { header = header; offset = offset }
  let blocks' = blocks ++ (located ∷ [])
  let rest = walk_loop fuel file (end_of located) blocks'
  if header.flags.last_block
      then ok (record { blocks = blocks'; end = end_of located })
      else (ensure (ltb (length blocks') max_blocks_per_list) list_too_long >> rest)

unfoldable pub walk_list : Bytes → ℕ → Result BlockList
walk_list file start = walk_loop max_blocks_per_list file start []

unfoldable pub read_payload : Bytes → Located → Result Bytes
read_payload file b = read_exact file (payload_at b) b.header.block_length

module _ (md5 : Bytes → Bytes) where
  -- A header for a plaintext payload.
  unfoldable pub for_payload : Bytes → Bytes → Bool → Result MetadataBlockHeader
  for_payload name payload last = do
    ensure (ltb (length payload) (2 ^ 32)) payload_too_large
    ok (record {
      name = name;
      block_length = length payload;
      hash = md5 payload;
      flags = plain last;
    })

  -- The hash covers the stored bytes, so it is compared before anything is undone.
  unfoldable pub read_block : (Bytes → Result Bytes) → Bytes → Located → Result Bytes
  read_block decode_all file b = do
    stored ← read_payload file b
    ensure (bytes_eq (md5 stored) b.header.hash) hash_mismatch
    ensure (not b.header.flags.encryption) encrypted_block
    if b.header.flags.compression then decode_all stored else ok stored
