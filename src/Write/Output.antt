-- ===== src/Write/Output.antt =====
-- src/write.rs: the finished output file, and the check of it.
pub mod Root
pub mod Readback
pub mod Sound
pub mod DataEnd
use Prim.Native.String.{String}
use mrimgx_consolidate.Base.{
  ℕ, ◌+◌, Bool, true, false, ◌||◌, not, List, [], ◌∷◌, ◌++◌, Option, none, some, leb, ◌==◌,
  if◌then◌else◌, length, Result, ok, err, or_err, ensure, ◌>>=◌, ◌>>◌, no_owner, output_number,
  output_kind, still_absorbed, past_region, negative_position,
}
use mrimgx_consolidate.Base.Int.{pos, negsuc}
use mrimgx_consolidate.Base.Bytes.{Bytes}
use mrimgx_consolidate.Base.Sets.{contains}
use mrimgx_consolidate.Block.{
  Located, header_len, footer_len, json_name, auxdata_name, find, for_payload, header_to_bytes,
  footer_bytes,
}
use mrimgx_consolidate.Index.{DataBlockIndexElement, DeltaDataBlock, Blocks, full, delta, is_hole}
use mrimgx_consolidate.Json.{Documents}
use mrimgx_consolidate.Json.Editing.{Editing}
use mrimgx_consolidate.Reader.{FilePath, Partition, Disk, BackupFile, open_file, check_framing}
use mrimgx_consolidate.Set.{BackupSet, owner}
use mrimgx_consolidate.Plan.{delta_index, MergePlan}
use mrimgx_consolidate.Write.{BlockSource, DataRegion, write_data_region}
use mrimgx_consolidate.Write.Metadata.{copy_range, write_metadata_region}
use mrimgx_consolidate.Write.Document.{patch_document}

pub record Written : Type 0 where
  pub region : DataRegion
  pub root_at : ℕ
  pub size : ℕ

-- `aux.is_none()`
abbrev pub is_none : Option Located → Bool
is_none none = true
is_none (some aux) = false

-- The `$AUXDATA` block, copied with its own header: how long it is, and the output.
unfoldable pub copy_aux : BlockSource → ℕ → Option Located → Bytes → Result (ℕ × Bytes)
copy_aux source to_number none out = ok (0, out)
copy_aux source to_number (some aux) out = do
  let n = header_len + aux.header.block_length
  out' ← copy_range source to_number aux.offset n out
  ok (n, out')

module _ (J : Documents) (E : Editing J) (md5 : Bytes → Bytes) where
  open J use {Value}

  unfoldable pub write_output :
      BackupSet Value → MergePlan → BlockSource → Bytes → String → Result (Written × Bytes)
  write_output s plan source out output_name = do
    to ← or_err (owner s plan.to) no_owner
    (region, out1) ← write_data_region plan source out plan.out_file_number
    (root_at, out2) ← write_metadata_region md5 source plan.to to.disks region out1
    document ← patch_document J E s plan region.end output_name
    let aux = find to.root_list auxdata_name
    header ← for_payload md5 json_name document (is_none aux)
    (n, out3) ← copy_aux source plan.to aux ((out2 ++ header_to_bytes header) ++ document)
    ok (
      record {
        region = region;
        root_at = root_at;
        size = root_at + (header_len + length document) + n + footer_len;
      },
      out3 ++ footer_bytes root_at,
    )

abbrev pub bool_eq : Bool → Bool → Bool
bool_eq true b = b
bool_eq false b = not b

-- The entries of a list one after the other.
unfoldable pub check_each {ℓ} : {A : Type ℓ} → (A → Result (Unit {0})) → List A → Result (Unit {0})
check_each check [] = ok tt
check_each check (a ∷ as') = check a >> check_each check as'

module _ (plan : MergePlan) (data_end : ℕ) where
  -- An own block must end within the data region.
  unfoldable pub check_place : DataBlockIndexElement → Result (Unit {0})
  check_place entry = elim entry.file_position [
    | pos start ↦ ensure (leb (start + entry.block_length) data_end) past_region
    | negsuc n ↦ err negative_position
  ]

  unfoldable pub check_named : DataBlockIndexElement → Result (Unit {0})
  check_named entry = do
    ensure
        (entry.file_number == plan.out_file_number
          || not (contains plan.absorbed entry.file_number))
        still_absorbed
    if entry.file_number == plan.out_file_number then check_place entry else ok tt

  unfoldable pub check_entry : DataBlockIndexElement → Result (Unit {0})
  check_entry entry = if is_hole entry then ok tt else check_named entry

  unfoldable pub check_blocks : Blocks → Result (Unit {0})
  check_blocks (full entries) = check_each check_entry entries
  check_blocks (delta entries) = check_each (λ (d : DeltaDataBlock). check_entry d.element) entries

  unfoldable pub check_partition : Partition → Result (Unit {0})
  check_partition part =
      check_each check_entry part.index.reserved >> check_blocks part.index.blocks

  unfoldable pub check_disks : List Disk → Result (Unit {0})
  check_disks disks = check_each (λ (d : Disk). check_each check_partition d.partitions) disks

module _ (J : Documents) (md5 : Bytes → Bytes) (decode_all : Bytes → Result Bytes) where
  unfoldable pub check_output : FilePath → Bytes → MergePlan → Result (Unit {0})
  check_output path bytes plan = do
    file ← open_file J md5 decode_all path bytes true
    check_framing file
    ensure (file.header.file_number == plan.out_file_number) output_number
    ensure (bool_eq file.header.delta_index (delta_index plan.kind)) output_kind
    check_disks plan file.header.index_file_position file.disks
