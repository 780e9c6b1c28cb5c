-- ===== src/Verify.antt =====
-- src/verify.rs: the test that undoes and hashes every block that a file holds itself.
pub mod Tested
pub mod Disks
use Prim.Native.String.{String}
use mrimgx_consolidate.Base.{
  ℕ, suc, ◌+◌, ◌^◌, Bool, true, false, List, [], ◌∷◌, Option, none, some, get_elem?, ltb, not, ◌==◌,
  if◌then◌else◌, length, Result, ok, err, or_err, ensure, ◌>>=◌, ◌>>◌, no_such_disk, no_partition,
  missing_number, number_too_wide, hash_mismatch, no_own_block,
}
use mrimgx_consolidate.Base.Bytes.{Bytes, bytes_eq}
use mrimgx_consolidate.Block.{read_exact}
use mrimgx_consolidate.Index.{DataBlockIndexElement, DeltaDataBlock, Blocks, full, delta, is_hole}
use mrimgx_consolidate.Json.{Documents, and_then, u16_of}
use mrimgx_consolidate.Reader.{position_of, Partition, Disk, BackupFile}
use mrimgx_consolidate.Crypto.{Ciphers, block_iv, decrypt_block}

-- What a pass found.
pub record Verified : Type 0 where
  pub blocks : ℕ
  pub bytes : ℕ
  pub elsewhere : ℕ

abbrev pub nothing_verified : Verified
nothing_verified = record { blocks = 0; bytes = 0; elsewhere = 0 }

-- The two forms of the key: cut to the length of the cipher, and whole.
pub record Key : Type 0 where
  pub cipher : Bytes
  pub derived : Bytes

-- The numbers of a disk and a partition, as the document records them.
pub record Where : Type 0 where
  pub disk_number : ℕ
  pub partition_number : ℕ

pub record Storage : Type 0 where
  pub compressed : Bool
  pub key : Option Key
  pub imageid : Bytes

module _ (J : Documents) where
  open J use {Value, get, as_u64, as_array}

  -- `value[object][key]`, a number of 16 bits.
  unfoldable pub number_at : Value → String → String → Result ℕ
  number_at value object key = do
    found ← or_err (and_then (and_then (get value object) (λ o. get o key)) as_u64) missing_number
    or_err (u16_of found) number_too_wide

  -- `Value::get` with an index: an item of an array.
  unfoldable pub item_at : Value → String → ℕ → Option Value
  item_at value key n = and_then (and_then (get value key) as_array) (λ items. get_elem? items n)

  unfoldable pub numbering : Value → ℕ → ℕ → Result Where
  numbering document disk partition = do
    disk_value ← or_err (item_at document "disks" disk) no_such_disk
    partition_value ← or_err (item_at disk_value "partitions" partition) no_partition
    d ← number_at disk_value "_header" "disk_number"
    p ← number_at partition_value "_header" "partition_number"
    ok (record { disk_number = d; partition_number = p })

module _ (ciphers : Ciphers) (decode_frame : Bytes → Result Bytes) (storage : Storage) where
  unfoldable pub decrypted : Option Key → Bytes → Where → ℕ → Result Bytes
  decrypted none stored at block_index = ok stored
  decrypted (some key) stored at block_index =
      decrypt_block ciphers key.cipher
        (block_iv ciphers key.derived storage.imageid at.disk_number at.partition_number
          block_index)
        stored

  unfoldable pub plaintext : Bytes → Where → ℕ → Result Bytes
  plaintext stored at block_index = do
    raw ← decrypted storage.key stored at block_index
    if storage.compressed then decode_frame raw else ok raw

module _ (md5 : Bytes → Bytes) (undo : Bytes → Where → ℕ → Result Bytes) (file : Bytes)
    (own : ℕ) where
  -- An own block is read, undone and hashed.
  unfoldable pub check_own : Where → DataBlockIndexElement → ℕ → Verified → Result Verified
  check_own at entry block_index report = do
    stored ← read_exact file (position_of entry.file_position) entry.block_length
    plain ← undo stored at block_index
    ensure (bytes_eq (md5 plain) entry.md5_hash) hash_mismatch
    ok (record report { blocks = report.blocks + 1; bytes = report.bytes + length plain })

  unfoldable pub check : Where → DataBlockIndexElement → ℕ → Verified → Result Verified
  check at entry block_index report =
      if is_hole entry
      then ok report
      else (if not (entry.file_number == own)
          then ok (record report { elsewhere = report.elsewhere + 1 })
          else check_own at entry block_index report)

  -- `for (i, entry) in entries.iter().enumerate()`, from the position `i` on.
  unfoldable pub check_entries : Where → ℕ → List DataBlockIndexElement → Verified → Result Verified
  check_entries at i [] report = ok report
  check_entries at i (entry ∷ entries) report = do
    ensure (ltb i (2 ^ 32)) number_too_wide
    report' ← check at entry i report
    check_entries at (suc i) entries report'

  unfoldable pub check_deltas : Where → List DeltaDataBlock → Verified → Result Verified
  check_deltas at [] report = ok report
  check_deltas at (d ∷ ds) report = do
    report' ← check at d.element d.block_index report
    check_deltas at ds report'

  unfoldable pub check_blocks : Where → Blocks → Verified → Result Verified
  check_blocks at (full entries) report = check_entries at 0 entries report
  check_blocks at (delta ds) report = check_deltas at ds report

  unfoldable pub check_partition : Where → Partition → Verified → Result Verified
  check_partition at part report = do
    report' ← check_entries at 0 part.index.reserved report
    check_blocks at part.index.blocks report'

  module _ (J : Documents) (document : Documents.Value J) where
    unfoldable pub check_partitions : ℕ → ℕ → List Partition → Verified → Result Verified
    check_partitions d p [] report = ok report
    check_partitions d p (part ∷ parts) report = do
      at ← numbering J document d p
      report' ← check_partition at part report
      check_partitions d (suc p) parts report'

    unfoldable pub check_disks : ℕ → List Disk → Verified → Result Verified
    check_disks d [] report = ok report
    check_disks d (disk ∷ disks) report = do
      report' ← check_partitions d 0 disk.partitions report
      check_disks (suc d) disks report'

    -- The pass of `verify_file` over an opened file.
    unfoldable pub verify_disks : List Disk → Result Verified
    verify_disks disks = do
      report ← check_disks 0 disks nothing_verified
      ensure (not (report.blocks == 0)) no_own_block
      ok report
