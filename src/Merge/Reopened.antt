-- ===== src/Merge/Reopened.antt =====
-- The file that `write_output` (src/write.rs) writes for a plan of src/plan.rs, opened again
-- (`BackupFile::open`, src/reader.rs) and checked (`check_output`, src/write.rs).
use Prim.Native.String.{String}
use mrimgx_consolidate.Base.{
  ℕ, zero, suc, ◌+◌, ◌-◌, ◌^◌, ◌≤◌, ◌<◌, ◌≡◌, refl, ap, Bool, true, false, List, [], ◌∷◌, length,
  All, some, lt→ltb, ==_iff, Result, ok, >>=-eq_ok, ok-injective, arith,
}
use mrimgx_consolidate.Base.Bytes.{Bytes}
use mrimgx_consolidate.Base.Sets.{lookup}
use mrimgx_consolidate.Block.{
  BlockList, Located, footer_len, json_name, read_footer, read_block, find, walk_list,
}
use mrimgx_consolidate.Json
use mrimgx_consolidate.Json.{Documents, Header, from_value, canonical}
use mrimgx_consolidate.Json.Editing.{Editing}
use mrimgx_consolidate.Reader.{
  FilePath, Disk, Partition, BackupFile, parse_partition, parse_partitions, parse_disks,
  parse_region, shape, load_disks, open_file, check_framing,
}
use mrimgx_consolidate.Set.{BackupSet, owner}
use mrimgx_consolidate.Plan.{MergePlan, delta_index}
use mrimgx_consolidate.Plan.Build.{build}
use mrimgx_consolidate.Write.{read_source}
use mrimgx_consolidate.Write.Document.Header.{header_of, FitsPlan}
use mrimgx_consolidate.Write.Document.Whole.{
  IsPatched, patch_document-IsPatched, IsPatched-from_value,
}
use mrimgx_consolidate.Write.Document.Kept.{IsPatched-shape}
use mrimgx_consolidate.Write.Metadata.Readback.Fresh.{walk_list-IsList, parse_partition-walked}
use mrimgx_consolidate.Write.Metadata.Readback.Partitions.{IsWritable}
use mrimgx_consolidate.Write.Metadata.Readback.Parsed.{written_indexes, disk_indexes, counts}
use mrimgx_consolidate.Write.Output.{Written, write_output, bool_eq, check_output}
use mrimgx_consolidate.Write.Output.Readback.{IsOpened, AuxEnds, write_output-IsReadable}
use mrimgx_consolidate.Merge.Accepted.{build-check_disks}

-- What is read ends behind where it starts.
walk_list-below : (file : Bytes) (at : ℕ) (l : BlockList) → walk_list file at ≡ ok l → at < l.end
walk_list-below file at l h =
    let (front, ender, list, e, few) = walk_list-IsList file at l h in
    omega (arith, ap (λ (x : BlockList). x.end) e)

parse_partitions-below :
    (file : Bytes) (delta_kind : Bool) (n at : ℕ) (parts : List Partition) (end : ℕ)
    → parse_partitions file delta_kind n at ≡ ok (parts, end)
    → at ≤ end
unfolding parse_partitions
parse_partitions-below file delta_kind zero at parts end h =
    omega (arith, ap (λ (x : List Partition × ℕ). x.1) (ok-injective h))
parse_partitions-below file delta_kind (suc n) at parts end h =
    let (part, now, h1) = >>=-eq_ok (parse_partition file delta_kind at) _ h in
    let ((rest, end'), later, h2) =
      >>=-eq_ok (parse_partitions file delta_kind n part.blocks.end) _ h1 in
    omega (
      arith,
      walk_list-below file at part.blocks (parse_partition-walked file delta_kind at part now),
      parse_partitions-below file delta_kind n part.blocks.end rest end' later,
      ap (λ (x : List Partition × ℕ). x.1) (ok-injective h2),
    )

parse_disks-below :
    (file : Bytes) (delta_kind : Bool) (ns : List ℕ) (at : ℕ) (disks : List Disk) (end : ℕ)
    → parse_disks file delta_kind ns at ≡ ok (disks, end)
    → at + length ns ≤ end
unfolding parse_disks
parse_disks-below file delta_kind [] at disks end h =
    omega (arith, ap (λ (x : List Disk × ℕ). x.1) (ok-injective h))
parse_disks-below file delta_kind (n ∷ ns) at disks end h =
    let (blocks, walked, h1) = >>=-eq_ok (walk_list file at) _ h in
    let ((parts, middle), read, h2) =
      >>=-eq_ok (parse_partitions file delta_kind n blocks.end) _ h1 in
    let ((rest, end'), later, h3) = >>=-eq_ok (parse_disks file delta_kind ns middle) _ h2 in
    omega (
      arith,
      walk_list-below file at blocks walked,
      parse_partitions-below file delta_kind n blocks.end parts middle read,
      parse_disks-below file delta_kind ns middle rest end' later,
      ap (λ (x : List Disk × ℕ). x.1) (ok-injective h3),
    )

-- A region that is not empty has a disk.
some_disk :
    (file : Bytes) (delta_kind : Bool) (ns : List ℕ) (at : ℕ) (disks : List Disk) (end : ℕ)
    → parse_disks file delta_kind ns at ≡ ok (disks, end)
    → at < end
    → 0 < length ns
unfolding parse_disks
some_disk file delta_kind [] at disks end h below =
    absurd (omega (arith, ap (λ (x : List Disk × ℕ). x.1) (ok-injective h)))
some_disk file delta_kind (n ∷ ns) at disks end h below = omega arith

bool_eq_refl : (b : Bool) → bool_eq b b ≡ true
bool_eq_refl true = refl
bool_eq_refl false = refl

module _ (J : Documents) (md5 : Bytes → Bytes) (decode_all : Bytes → Result Bytes) where
  open J use {Value, from_slice, is_object}

  -- The parts of a file that opens.
  record Opens (out : Bytes) (h : Header) (r : ℕ) (l : BlockList) (b : Located) (document : Bytes)
      (doc : Value) (ns : List ℕ) (disks : List Disk) : Type 0 where
    footer : read_footer out ≡ ok r
    walked : walk_list out r ≡ ok l
    json_found : find l json_name ≡ some b
    json_clear : b.header.flags.encryption ≡ false
    document_read : read_block md5 decode_all out b ≡ ok document
    json : from_slice document ≡ ok doc
    object : is_object doc ≡ true
    header : from_value J doc ≡ ok h
    whole : h.split_file ≡ false
    declared : shape J md5 decode_all doc ≡ ok ns
    below : h.index_file_position < r
    disks_read : parse_disks out h.delta_index ns h.index_file_position ≡ ok (disks, r)

  Opens-open_file :
      (path : FilePath) (out : Bytes) (h : Header) (r : ℕ) (l : BlockList) (b : Located)
      (document : Bytes) (doc : Value) (ns : List ℕ) (disks : List Disk)
      → Opens out h r l b document doc ns disks
      → open_file J md5 decode_all path out true
        ≡ ok (record {
          path = path;
          size = length out;
          json_raw = document;
          json = doc;
          header = h;
          root_at = r;
          root_list = l;
          disks = disks;
        })
  unfolding open_file load_disks parse_region Json.parse
  Opens-open_file path out h r l b document doc ns disks o = rw o.footer (
      rw o.walked (
        rw o.json_found (
          rw o.document_read (
            rw o.json_clear (
              rw o.json (
                rw o.object (
                  rw o.header (
                    rw o.whole (
                      rw o.declared (
                        rw (lt→ltb h.index_file_position r o.below)
                          (rw o.disks_read (rw ((==_iff r r).1 refl) refl))))))))))))

module _ (J : Documents) (E : Editing J) (decode_all : Bytes → Result Bytes) (md5 : Bytes → Bytes)
    (md5_length : (b : Bytes) → length (md5 b) ≡ 16) where
  open J use {Value, from_slice, is_object}

  -- An output that was opened.
  pub record IsReopened (plan : MergePlan) (to : BackupFile Value) (w : Written) (path : FilePath)
      (out : Bytes) : Type 0 where
    pub file : BackupFile Value
    pub opened : open_file J md5 decode_all path out true ≡ ok file
    pub framed : check_framing file ≡ ok tt
    pub header : file.header ≡ header_of J E plan w.region.end to.header
    pub root : file.root_at ≡ w.root_at
    pub size : file.size ≡ w.size
    pub indexes : disk_indexes file.disks ≡ written_indexes w.region.partitions

  -- A finished output opens: `BackupFile::open` reads it, finds no trailing bytes, a header that says
  -- what the plan says, and the written indexes. The To file must be as it was opened, with a document
  -- that is an object with its header and declares its disks, and with a root list that ends with its
  -- `$AUXDATA` block if it has one; the plan's numbers must fit their types, the written indexes the
  -- format and the kind of the merge, and the root list start below 2 ^ 64; and the JSON parser must
  -- read the one document that was printed for this output back as what was printed.
  pub write_output-IsReopened :
      (s : BackupSet Value) (plan : MergePlan) (to : BackupFile Value) (handles : List (ℕ × Bytes))
      (file : Bytes) (output_name : String) (w : Written) (path : FilePath) (out : Bytes)
      → owner s plan.to ≡ some to
      → lookup plan.to handles ≡ some file
      → IsOpened J E decode_all md5 md5_length to file
      → AuxEnds J E decode_all md5 md5_length to
      → is_object to.json ≡ true
      → from_value J to.json ≡ ok to.header
      → shape J md5 decode_all to.json ≡ ok (counts to.disks)
      → FitsPlan J E plan w.region.end
      → All (IsWritable md5 md5_length (delta_index plan.kind)) w.region.partitions
      → w.root_at < 2 ^ 64
      → ((document : Bytes) (d : IsPatched J E s plan w.region.end output_name to document)
          → from_slice document ≡ ok d.doc4)
      → write_output J E md5 s plan (read_source handles) [] output_name ≡ ok (w, out)
      → IsReopened plan to w path out
  unfolding check_framing
  write_output-IsReopened s plan to handles file output_name w path out owned found to_opened
        aux_ends object parsed declared fits writable low reparses wrote =
      let (data_region, data_wrote, r) =
        write_output-IsReadable J E decode_all md5 md5_length s plan to handles file output_name w
          out owned found to_opened aux_ends wrote writable low in
      let d =
        patch_document-IsPatched J E s plan w.region.end output_name to r.document owned
          r.patched in
      let (object4, header) =
        IsPatched-from_value J E s plan w.region.end output_name to r.document object parsed fits
          d in
      let below : w.region.end < w.root_at = omega (
        arith,
        some_disk file to.header.delta_index (counts to.disks) to_opened.at to.disks to_opened.end
            to_opened.disks to_opened.below,
        parse_disks-below out (delta_index plan.kind) (counts to.disks) w.region.end r.disks
            w.root_at r.disks_read,
      ) in
      record {
        file = record {
          path = path;
          size = length out;
          json_raw = r.document;
          json = d.doc4;
          header = header_of J E plan w.region.end to.header;
          root_at = w.root_at;
          root_list = r.root_list;
          disks = r.disks;
        };
        opened =
            Opens-open_file J md5 decode_all path out (header_of J E plan w.region.end to.header)
              w.root_at r.root_list r.json_block r.document d.doc4 (counts to.disks) r.disks
              (record {
                footer = r.footer;
                walked = r.walked;
                json_found = r.json_found;
                json_clear = r.document_plain;
                document_read = r.document_read;
                json = reparses r.document d;
                object = object4;
                header = header;
                whole = refl;
                declared =
                    IsPatched-shape J E md5 decode_all s plan w.region.end output_name to r.document
                      (counts to.disks) declared d;
                below = below;
                disks_read = r.disks_read;
              });
        framed =
            let rest : length out - r.root_list.end ≡ footer_len = omega (arith, r.framed) in
            rw ((==_iff (length out - r.root_list.end) footer_len).1 rest) refl;
        header = refl;
        root = refl;
        size = r.size;
        indexes = r.indexes;
      }

  -- And it passes the check that is run before it is put in place, if the plan was built from the set,
  -- under the same conditions.
  pub write_output-check_output :
      (s : BackupSet Value) (from_number to_number : ℕ) (plan : MergePlan) (to : BackupFile Value)
      (handles : List (ℕ × Bytes)) (file : Bytes) (output_name : String) (w : Written)
      (path : FilePath) (out : Bytes)
      → build J s from_number to_number ≡ ok plan
      → owner s plan.to ≡ some to
      → lookup plan.to handles ≡ some file
      → IsOpened J E decode_all md5 md5_length to file
      → AuxEnds J E decode_all md5 md5_length to
      → is_object to.json ≡ true
      → from_value J to.json ≡ ok to.header
      → shape J md5 decode_all to.json ≡ ok (counts to.disks)
      → FitsPlan J E plan w.region.end
      → All (IsWritable md5 md5_length (delta_index plan.kind)) w.region.partitions
      → w.root_at < 2 ^ 64
      → ((document : Bytes) (d : IsPatched J E s plan w.region.end output_name to document)
          → from_slice document ≡ ok d.doc4)
      → write_output J E md5 s plan (read_source handles) [] output_name ≡ ok (w, out)
      → check_output J md5 decode_all path out plan ≡ ok tt
  unfolding check_output
  write_output-check_output s from_number to_number plan to handles file output_name w path out
        built owned found to_opened aux_ends object parsed declared fits writable low reparses
        wrote =
      let o =
        write_output-IsReopened s plan to handles file output_name w path out owned found to_opened
          aux_ends object parsed declared fits writable low reparses wrote in
      let (data_region, data_wrote, r) =
        write_output-IsReadable J E decode_all md5 md5_length s plan to handles file output_name w
          out owned found to_opened aux_ends wrote writable low in
      let passes =
        build-check_disks J s from_number to_number plan handles w.region data_region o.file.disks
          built data_wrote o.indexes in
      let number : o.file.header.file_number ≡ plan.out_file_number =
        ap (λ (h : Header). h.file_number) o.header in
      let kind : o.file.header.delta_index ≡ delta_index plan.kind =
        ap (λ (h : Header). h.delta_index) o.header in
      let at : o.file.header.index_file_position ≡ w.region.end =
        ap (λ (h : Header). h.index_file_position) o.header in
      rw o.opened (
        rw o.framed (
          rw ((==_iff o.file.header.file_number plan.out_file_number).1 number)
            (rw kind (rw (bool_eq_refl (delta_index plan.kind)) (rw at passes)))))
