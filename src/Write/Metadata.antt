-- ===== src/Write/Metadata.antt =====
-- src/write.rs: the metadata region of the output. `out` is the buffer of the bytes written so far.
pub mod Ranges
pub mod Lists
pub mod Readback
use Prim.Native.Nat.{min}
use mrimgx_consolidate.Base.{
  ℕ, zero, suc, ◌+◌, ◌-◌, ◌*◌, ◌%◌, ◌^◌, Bool, true, false, ◌&&◌, List, [], ◌∷◌, ◌++◌, ltb, ◌==◌,
  if◌then◌else◌, length, Result, ok, err, or_err, ensure, ◌>>=◌, ◌>>◌, index_panic, wrong_length,
  offset_overflow, out_of_fuel, parts_differ,
}
use mrimgx_consolidate.Base.Int.{pos}
use mrimgx_consolidate.Base.Bytes.{Bytes}
use mrimgx_consolidate.Block.{header_len, index_name, header_to_bytes, for_payload}
use mrimgx_consolidate.Index.{to_bytes}
use mrimgx_consolidate.Reader.{Disk, Partition, first?, span_before_index}
use mrimgx_consolidate.Write.{BlockSource, WrittenPartition, DataRegion}

-- Four mebibytes.
abbrev pub range_chunk : ℕ
range_chunk = 4 * 1024 * 1024

module _ (source : BlockSource) (file_number : ℕ) where
  -- One round: `n` bytes at `position`.
  unfoldable pub copy_chunk : ℕ → ℕ → Bytes → Result Bytes
  copy_chunk position n out = do
    ensure (ltb position (2 ^ 63)) offset_overflow
    bytes ← source file_number (pos position) n
    ensure (length bytes % 2 ^ 32 == n) wrong_length
    ok (out ++ bytes)

  -- The loop of `copy_range`, from `position` on and with `left` bytes to go; `left` rounds are
  -- enough.
  unfoldable pub copy_range_loop : ℕ → ℕ → ℕ → Bytes → Result Bytes
  copy_range_loop zero position left out = if left == 0 then ok out else err out_of_fuel
  copy_range_loop (suc fuel) position left out =
      let n = min left range_chunk in
      let rest = (do
        out' ← copy_chunk position n out
        copy_range_loop fuel (position + n) (left - n) out') in
      if left == 0 then ok out else rest

  unfoldable pub copy_range : ℕ → ℕ → Bytes → Result Bytes
  copy_range start n out = copy_range_loop n start n out

-- What the loops change: the offset, the output, and the written partitions that are to come.
pub record ListState : Type 0 where
  pub at : ℕ
  pub out : Bytes
  pub next : List WrittenPartition

-- One more of the written partitions is used.
abbrev pub take_next : List WrittenPartition → Result (WrittenPartition × List WrittenPartition)
take_next [] = err index_panic
take_next (w ∷ ws) = ok (w, ws)

-- `disks.iter().map(|d| d.partitions.len()).sum()`
abbrev pub partition_total : List Disk → ℕ
partition_total [] = 0
partition_total (d ∷ ds) = length d.partitions + partition_total ds

module _ (md5 : Bytes → Bytes) (source : BlockSource) (to_file_number : ℕ) where
  -- One partition's list: all but its `$INDEX` copied, and a fresh `$INDEX`.
  unfoldable pub write_partition_list : ℕ → ℕ → Partition → ListState → Result ListState
  write_partition_list d p part s = do
    (start, index_at) ← span_before_index part
    out ← copy_range source to_file_number start (index_at - start) s.out
    (written, next) ← take_next s.next
    ensure (written.disk == d && written.partition == p) parts_differ
    let payload = to_bytes written.index
    header ← for_payload md5 index_name payload true
    ok (record {
      at = s.at + (index_at - start) + (header_len + length payload);
      out = (out ++ header_to_bytes header) ++ payload;
      next = next;
    })

  unfoldable pub write_partition_lists : ℕ → ℕ → List Partition → ListState → Result ListState
  write_partition_lists d p [] s = ok s
  write_partition_lists d p (part ∷ parts) s = do
    s' ← write_partition_list d p part s
    write_partition_lists d (p + 1) parts s'

  -- A disk's own list is copied whole.
  unfoldable pub copy_disk_list : Disk → ListState → Result ListState
  copy_disk_list disk s = do
    first ← or_err (first? disk.blocks.blocks) index_panic
    let n = disk.blocks.end - first.offset
    out ← copy_range source to_file_number first.offset n s.out
    ok (record s { at = s.at + n; out = out })

  unfoldable pub write_disk_lists : ℕ → List Disk → ListState → Result ListState
  write_disk_lists d [] s = ok s
  write_disk_lists d (disk ∷ disks) s = do
    s' ← copy_disk_list disk s
    s'' ← write_partition_lists d 0 disk.partitions s'
    write_disk_lists (d + 1) disks s''

  -- The offset behind the region, and the output.
  unfoldable pub write_metadata_region : List Disk → DataRegion → Bytes → Result (ℕ × Bytes)
  write_metadata_region disks data_region out = do
    ensure (length data_region.partitions == partition_total disks) parts_differ
    s ←
        write_disk_lists 0 disks
          (record { at = data_region.end; out = out; next = data_region.partitions })
    ok (s.at, s.out)
