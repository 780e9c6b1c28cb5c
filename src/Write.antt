-- ===== src/Write.antt =====
-- src/write.rs: the data region of the output. The writer is the buffer of
-- the bytes written so far; a source of blocks is a function that reads `length` bytes at a
-- position of the file that a number names (the trait `BlockSource`).
pub mod Source
pub mod Copied
pub mod Region
pub mod Padding
pub mod Offsets
pub mod Metadata
pub mod Document
pub mod Output
use mrimgx_consolidate.Base.{
  ℕ, zero, suc, ◌+◌, ◌-◌, ◌*◌, ◌%◌, ◌^◌, Bool, true, false, ◌&&◌, List, [], ◌∷◌, ◌++◌, Option, none,
  some, ltb, leb, ◌==◌, if◌then◌else◌, length, replicate, Result, ok, err, or_err, ensure, ◌>>=◌,
  ◌>>◌, no_handle, negative_position, wrong_length, offset_overflow, positions_differ, out_of_fuel,
  take, slice_panic,
}
use Prim.Native.Nat.{min}
use mrimgx_consolidate.Base.Int.{ℤ, pos, negsuc, int_eq}
use mrimgx_consolidate.Base.Bytes.{Bytes}
use mrimgx_consolidate.Base.Sets.{lookup}
use mrimgx_consolidate.Block.{align_up, read_exact}
use mrimgx_consolidate.Index.{
  DataBlockIndexElement, default_element, DeltaDataBlock, Blocks, full, delta, PartitionIndex,
}
use mrimgx_consolidate.Plan.{
  MergeKind, delta_index, Action, hole, keep, copy, PartitionPlan, MergePlan,
}

-- `BlockSource::read_block`: the file number, the position and the length.
abbrev pub BlockSource : Type 0
BlockSource = ℕ → ℤ → ℕ → Result Bytes

-- `SourceFiles`: the open files by file number. A read seeks first, so no cursor is kept.
unfoldable pub read_source : List (ℕ × Bytes) → BlockSource
read_source handles file_number (pos position) length = do
  reader ← or_err (lookup file_number handles) no_handle
  read_exact reader position length
read_source handles file_number (negsuc n) length = do
  reader ← or_err (lookup file_number handles) no_handle
  err negative_position

-- The key of the duplicate map: file number, position and length.
pub record Key : Type 0 where
  pub number : ℕ
  pub position : ℤ
  pub block_length : ℕ

abbrev pub key_eq : Key → Key → Bool
key_eq a b =
    a.number == b.number && (int_eq a.position b.position && a.block_length == b.block_length)

unfoldable pub seen_at : Key → List (Key × ℕ) → Option ℕ
seen_at k [] = none
seen_at k ((j, v) ∷ m) = if key_eq j k then some v else seen_at k m

-- What `copy_actions` changes: the output, the offset, the duplicate map and the count.
pub record CopyState : Type 0 where
  pub out : Bytes
  pub at : ℕ
  pub seen : List (Key × ℕ)
  pub duplicates_avoided : ℕ

abbrev pub key_of : DataBlockIndexElement → Key
key_of e = record {
  number = e.file_number;
  position = e.file_position;
  block_length = e.block_length;
}

-- The entry of a block that was copied to `position`.
abbrev pub moved : DataBlockIndexElement → ℕ → ℕ → DataBlockIndexElement
moved e position out_file_number = record e {
  file_position = pos position;
  file_number = out_file_number;
}

module _ (source : BlockSource) (out_file_number : ℕ) where
  -- A block that was not seen before is read and appended. `bytes.len() as u32` is the length
  -- modulo 2 ^ 32.
  unfoldable pub copy_new : DataBlockIndexElement → CopyState → Result (ℕ × CopyState)
  copy_new e s = do
    bytes ← source e.file_number e.file_position e.block_length
    ensure (length bytes % 2 ^ 32 == e.block_length) wrong_length
    ensure (ltb s.at (2 ^ 63)) offset_overflow
    ok (
      s.at,
      record s {
        out = s.out ++ bytes;
        at = s.at + e.block_length;
        seen = (key_of e, s.at) ∷ s.seen;
      },
    )

  unfoldable pub copy_block : DataBlockIndexElement → CopyState → Result (ℕ × CopyState)
  copy_block e s = elim (seen_at (key_of e) s.seen) [
    | some already ↦ ok (already, record s { duplicates_avoided = s.duplicates_avoided + 1 })
    | none ↦ copy_new e s
  ]

  unfoldable pub copy_action : Action → CopyState → Result (DataBlockIndexElement × CopyState)
  copy_action hole s = ok (default_element, s)
  copy_action (keep e) s = ok (e, s)
  copy_action (copy e) s = do
    (position, s') ← copy_block e s
    ok (moved e position out_file_number, s')

  unfoldable pub copy_actions :
      List Action → CopyState → Result (List DataBlockIndexElement × CopyState)
  copy_actions [] s = ok ([], s)
  copy_actions (action ∷ actions) s = do
    (entry, s') ← copy_action action s
    (entries, s'') ← copy_actions actions s'
    ok (entry ∷ entries, s'')

-- The entries with their positions.
abbrev pub zip_delta : List DataBlockIndexElement → List ℕ → List DeltaDataBlock
zip_delta [] positions = []
zip_delta (e ∷ es) [] = []
zip_delta (e ∷ es) (p ∷ ps) = record { element = e; block_index = p } ∷ zip_delta es ps

-- The block entries in the form that the output's index uses.
unfoldable pub shape : MergeKind → List ℕ → List DataBlockIndexElement → Result Blocks
shape kind positions entries =
    if delta_index kind
    then (ensure (length positions == length entries) positions_differ
        >> ok (delta (zip_delta entries positions)))
    else ok (full entries)

pub record WrittenPartition : Type 0 where
  pub disk : ℕ
  pub partition : ℕ
  pub index : PartitionIndex

pub record DataRegion : Type 0 where
  pub partitions : List WrittenPartition
  pub payload_bytes : ℕ
  pub end : ℕ
  pub duplicates_avoided : ℕ

abbrev pub chunk : ℕ
chunk = 8192

abbrev pub zeros : ℕ → Bytes
zeros n = replicate n 0

-- `&bytes[..n]`, which panics past the end.
unfoldable pub up_to : Bytes → ℕ → Result Bytes
up_to bytes n = do ensure (leb n (length bytes)) slice_panic; ok (take n bytes)

-- Any writer: `write_all` gives the writer that has taken the bytes, or its error.
module _ {W : Type 0} (write_all : Bytes → W → Result W) where
  -- The loop of `write_zeros`; `count` rounds are enough.
  unfoldable pub write_zeros_loop : ℕ → ℕ → W → Result W
  write_zeros_loop zero count out = if count == 0 then ok out else err out_of_fuel
  write_zeros_loop (suc fuel) count out =
      let n = min count chunk in
      let rest = (do
        part ← up_to (zeros chunk) n
        out' ← write_all part out
        write_zeros_loop fuel (count - n) out') in
      if count == 0 then ok out else rest

  unfoldable pub write_zeros : ℕ → W → Result W
  write_zeros count out = write_zeros_loop count count out

-- The buffer as a writer.
abbrev pub append_all : Bytes → Bytes → Result Bytes
append_all bytes out = ok (out ++ bytes)

module _ (source : BlockSource) (kind : MergeKind) (out_file_number : ℕ) where
  unfoldable pub write_partition : PartitionPlan → CopyState → Result (WrittenPartition × CopyState)
  write_partition part s = do
    (reserved, s') ← copy_actions source out_file_number part.reserved s
    (blocks, s'') ← copy_actions source out_file_number part.blocks s'
    shaped ← shape kind part.positions blocks
    ok (
      record {
        disk = part.disk;
        partition = part.partition;
        index = record { reserved = reserved; blocks = shaped };
      },
      s'',
    )

  unfoldable pub write_partitions :
      List PartitionPlan → CopyState → Result (List WrittenPartition × CopyState)
  write_partitions [] s = ok ([], s)
  write_partitions (part ∷ parts) s = do
    (written, s') ← write_partition part s
    (rest, s'') ← write_partitions parts s'
    ok (written ∷ rest, s'')

-- `out` must start empty: positions are offsets from zero.
abbrev pub start_state : Bytes → CopyState
start_state out = record { out = out; at = 0; seen = []; duplicates_avoided = 0 }

-- The region, and the output with it.
unfoldable pub write_data_region : MergePlan → BlockSource → Bytes → ℕ → Result (DataRegion × Bytes)
write_data_region plan source out out_file_number = do
  (partitions, s) ←
      write_partitions source plan.kind out_file_number plan.partitions (start_state out)
  out' ← write_zeros append_all (align_up s.at - s.at) s.out
  ok (
    record {
      partitions = partitions;
      payload_bytes = s.at;
      end = align_up s.at;
      duplicates_avoided = s.duplicates_avoided;
    },
    out',
  )
