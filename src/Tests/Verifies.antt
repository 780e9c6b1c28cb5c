-- ===== src/Tests/Verifies.antt =====
-- A pass over a small file.
use mrimgx_consolidate.Base.{
  ℕ, ◌<◌, ◌≡◌, refl, true, List, [], ◌∷◌, none, some, replicate, Result, ok, arith,
}
use mrimgx_consolidate.Base.Bytes.{Bytes}
use mrimgx_consolidate.Block.{read_exact}
use mrimgx_consolidate.Index.{full, default_element}
use mrimgx_consolidate.Json.{and_then, u16_of}
use mrimgx_consolidate.Reader.{Disk}
use mrimgx_consolidate.Write.Metadata.Readback.Parsed.{disk_indexes}
use mrimgx_consolidate.Write.Output.Sound.{all_entries}
use mrimgx_consolidate.Crypto.{Ciphers}
use mrimgx_consolidate.Crypto.Vectors.{block_iv-injective}
use mrimgx_consolidate.Verify.{
  Where, number_at, item_at, numbering, decrypted, plaintext, check_own, check, check_entries,
  check_blocks, check_partition, check_partitions, check_disks, verify_disks,
}
use mrimgx_consolidate.Verify.Tested.{count, is_own, is_elsewhere}
use mrimgx_consolidate.Verify.Disks.{DisksTested, verify_disks-DisksTested}
use mrimgx_consolidate.Tests.Data.{entry}
use mrimgx_consolidate.Tests.Documents.{Tree, no_fields, no_items, number, field, item}
use mrimgx_consolidate.Tests.Members.{docs, disks_with}

-- Ciphers that change nothing.
abbrev open_ciphers : Ciphers
open_ciphers = record {
  sha256 = λ b. b;
  pbkdf2 = λ password salt iterations. password;
  hmac = λ key message. key;
  encrypt_block = λ key block. block;
  cbc_decrypt = λ key iv bytes. some bytes;
  encrypt_block-injective = λ key one other size size' same. same;
}

abbrev disk_two : ℕ
disk_two = 2

abbrev partition_three : ℕ
partition_three = 3

abbrev far_block : ℕ
far_block = 70000

block_iv-injective_example :
    (disk_two ≡ disk_two) × (partition_three ≡ partition_three) × (far_block ≡ far_block)
block_iv-injective_example =
    block_iv-injective open_ciphers [] (replicate 8 7) 2 3 70000 2 3 70000 refl (omega arith)
      (omega arith) (omega arith) (omega arith) (omega arith) (omega arith) refl

abbrev numbered : Tree
numbered =
    field "disks"
      (item
        (field "_header" (field "disk_number" (number 2) no_fields) (
          field "partitions"
            (item (field "_header" (field "partition_number" (number 1) no_fields) no_fields)
              no_items)
            no_fields))
        no_items)
      no_fields

abbrev ones : Bytes → Bytes
ones b = replicate 16 1

abbrev undo : Bytes → Where → ℕ → Result Bytes
undo =
    plaintext open_ciphers (λ b. ok b)
      (record { compressed = true; key = none; imageid = replicate 8 7 })

abbrev tested_disks : List Disk
tested_disks = disks_with (full (entry 0 0 1 ∷ default_element ∷ entry 7 0 1 ∷ []))

passed :
    verify_disks ones undo (55 ∷ []) 0 docs numbered tested_disks
    ≡ ok (record { blocks = 1; bytes = 1; elsewhere = 1 })
unfolding verify_disks check_disks check_partitions check_partition check_blocks check_entries check
    check_own plaintext decrypted numbering number_at item_at and_then u16_of read_exact
passed = refl

verify_disks-DisksTested_example :
    DisksTested ones undo (55 ∷ []) 0 docs numbered 0 tested_disks
    × (1 ≡ count (is_own 0) (all_entries (disk_indexes tested_disks)))
    × (1 ≡ count (is_elsewhere 0) (all_entries (disk_indexes tested_disks)))
    × (0 < 1)
verify_disks-DisksTested_example =
    verify_disks-DisksTested ones undo (55 ∷ []) 0 docs numbered tested_disks
      (record { blocks = 1; bytes = 1; elsewhere = 1 }) passed
