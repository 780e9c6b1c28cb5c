-- ===== src/Write/Output/Readback.antt =====
-- `write_output` (src/write.rs): the finished file, as the readers of src/block.rs and
-- src/reader.rs find it.
use Prim.Native.String.{String}
use mrimgx_consolidate.Base.{
  ℕ, ◌+◌, ◌^◌, ◌<◌, ◌≡◌, ◌∙◌, refl, sym, ap, subst, Bool, true, false, List, [], ◌++◌, append_assoc,
  length, length-append, All, some, Result, ok, or_err, >>=-eq_ok, or_err-eq_ok, ok-injective,
  some-eq, no_owner,
}
use mrimgx_consolidate.Base.Bytes.{Bytes, bytes_eq_refl}
use mrimgx_consolidate.Base.Sets.{lookup}
use mrimgx_consolidate.Block.{
  MetadataBlockHeader, Located, BlockList, header_len, footer_len, json_name, auxdata_name,
  header_to_bytes, footer_bytes, read_footer, read_payload, read_block, for_payload, find,
  walk_list,
}
use mrimgx_consolidate.Block.Footer.{read_footer-footer_bytes}
use mrimgx_consolidate.Json.{Documents}
use mrimgx_consolidate.Json.Editing.{Editing}
use mrimgx_consolidate.Reader.{Disk, BackupFile, parse_disks}
use mrimgx_consolidate.Set.{BackupSet, owner}
use mrimgx_consolidate.Plan.{MergePlan, delta_index}
use mrimgx_consolidate.Write.{DataRegion, read_source, write_data_region}
use mrimgx_consolidate.Write.Source.{read_source-ReadsExactly}
use mrimgx_consolidate.Write.Region.{write_data_region-IsRegion}
use mrimgx_consolidate.Write.Document.{patch_document}
use mrimgx_consolidate.Write.Metadata.{write_metadata_region}
use mrimgx_consolidate.Write.Metadata.Readback.Partitions.{IsWritable}
use mrimgx_consolidate.Write.Metadata.Readback.Parsed.{written_indexes, disk_indexes, counts}
use mrimgx_consolidate.Write.Metadata.Readback.Regions.{write_metadata_region-parse_disks}
use mrimgx_consolidate.Write.Output.{Written, is_none, copy_aux, write_output}
use mrimgx_consolidate.Write.Output.Root.{json_header, DidRoot, copy_aux-DidRoot, find-read_header}

length-footer_bytes : (root_at : ℕ) → length (footer_bytes root_at) ≡ footer_len
unfolding footer_bytes
length-footer_bytes root_at = refl

module _ (J : Documents) (E : Editing J) (decode_all : Bytes → Result Bytes) (md5 : Bytes → Bytes)
    (md5_length : (b : Bytes) → length (md5 b) ≡ 16) where
  open J use {Value}

  -- The To file as it was opened: its lists and its indexes were read from its bytes.
  pub record IsOpened (to : BackupFile Value) (file : Bytes) : Type 0 where
    pub root : walk_list file to.root_at ≡ ok to.root_list
    pub at : ℕ
    pub end : ℕ
    pub disks : parse_disks file to.header.delta_index (counts to.disks) at ≡ ok (to.disks, end)
    pub below : at < end

  -- The `$AUXDATA` block, if there is one, ends the root list.
  abbrev pub AuxEnds : BackupFile Value → Type 0
  AuxEnds to =
      (aux : Located)
      → find to.root_list auxdata_name ≡ some aux
      → aux.header.flags.last_block ≡ true

  -- What a reader finds in a finished file.
  pub record IsReadable (s : BackupSet Value) (plan : MergePlan) (to : BackupFile Value)
      (output_name : String) (w : Written) (data_region out : Bytes) : Type 0 where
    pub tail : Bytes
    pub front : out ≡ data_region ++ tail
    pub size : length out ≡ w.size
    pub footer : read_footer out ≡ ok w.root_at
    pub root_list : BlockList
    pub walked : walk_list out w.root_at ≡ ok root_list
    pub framed : length out ≡ root_list.end + footer_len
    pub json_block : Located
    pub json_found : find root_list json_name ≡ some json_block
    pub document : Bytes
    pub document_plain : json_block.header.flags.encryption ≡ false
    pub document_read : read_block md5 decode_all out json_block ≡ ok document
    pub patched : patch_document J E s plan w.region.end output_name ≡ ok document
    pub disks : List Disk
    pub disks_read :
        parse_disks out (delta_index plan.kind) (counts to.disks) w.region.end
        ≡ ok (disks, w.root_at)
    pub indexes : disk_indexes disks ≡ written_indexes w.region.partitions

  read_block-json :
      (file : Bytes) (b : Located) (document : Bytes) (last : Bool)
      → b.header ≡ json_header md5 md5_length document last
      → read_payload file b ≡ ok document
      → (b.header.flags.encryption ≡ false) × (read_block md5 decode_all file b ≡ ok document)
  unfolding read_block
  read_block-json file b document last e read =
      let clear : b.header.flags.encryption ≡ false =
        ap (λ (x : MetadataBlockHeader). x.flags.encryption) e in
      let raw : b.header.flags.compression ≡ false =
        ap (λ (x : MetadataBlockHeader). x.flags.compression) e in
      let hash : b.header.hash ≡ md5 document = ap (λ (x : MetadataBlockHeader). x.hash) e in
      (clear, rw read (rw hash (rw (bytes_eq_refl (md5 document)) (rw (clear, raw) refl))))

  abbrev pub IsOutput :
      BackupSet Value
      → MergePlan
      → BackupFile Value
      → List (ℕ × Bytes)
      → String
      → Written
      → Bytes
      → Type 0
  IsOutput s plan to handles output_name w out =
      (data_region : Bytes) × (write_data_region plan (read_source handles) [] plan.out_file_number
        ≡ ok (w.region, data_region))
      × IsReadable s plan to output_name w data_region out

  parts-IsOutput :
      (s : BackupSet Value) (plan : MergePlan) (to : BackupFile Value) (handles : List (ℕ × Bytes))
      (file : Bytes) (output_name : String) (region : DataRegion) (out1 : Bytes) (root_at : ℕ)
      (out2 document : Bytes) (header : MetadataBlockHeader) (n : ℕ) (out3 : Bytes)
      → lookup plan.to handles ≡ some file
      → IsOpened to file
      → AuxEnds to
      → write_data_region plan (read_source handles) [] plan.out_file_number ≡ ok (region, out1)
      → write_metadata_region md5 (read_source handles) plan.to to.disks region out1
        ≡ ok (root_at, out2)
      → patch_document J E s plan region.end output_name ≡ ok document
      → for_payload md5 json_name document (is_none (find to.root_list auxdata_name)) ≡ ok header
      → copy_aux
          (read_source handles)
          plan.to
          (find to.root_list auxdata_name)
          ((out2 ++ header_to_bytes header) ++ document)
        ≡ ok (n, out3)
      → All (IsWritable md5 md5_length (delta_index plan.kind)) region.partitions
      → root_at < 2 ^ 64
      → IsOutput s plan to handles output_name
          (record {
            region = region;
            root_at = root_at;
            size = root_at + (header_len + length document) + n + footer_len;
          })
          (out3 ++ footer_bytes root_at)
  parts-IsOutput s plan to handles file output_name region out1 root_at out2 document header n out3
        found opened aux_ends wrote meta patched made copied writable fits =
      let data_done =
        write_data_region-IsRegion (read_source handles) (read_source-ReadsExactly handles)
          plan.out_file_number plan region out1 wrote in
      let root : DidRoot md5 md5_length root_at document out2 out3 n =
        copy_aux-DidRoot md5 md5_length handles plan.to file found (find to.root_list auxdata_name)
          out2 document out3 root_at n header
          (write_metadata_region-parse_disks md5 md5_length handles plan.to file found
            to.header.delta_index (delta_index plan.kind) opened.at to.disks opened.end region out1
            root_at out2 [] opened.disks data_done.size writable meta).0
          (λ b e. (
            find-read_header file to.root_at to.root_list auxdata_name b opened.root e,
            aux_ends b e,
          ))
          made copied in
      let (size2, added, grows, disks, indexes, read) =
        write_metadata_region-parse_disks md5 md5_length handles plan.to file found
          to.header.delta_index (delta_index plan.kind) opened.at to.disks opened.end region out1
          root_at out2 (root.added ++ footer_bytes root_at) opened.disks data_done.size writable
          meta in
      let whole : out3 ++ footer_bytes root_at ≡ out2 ++ (root.added ++ footer_bytes root_at) =
        ap (λ t. t ++ footer_bytes root_at) root.grows
        ∙ append_assoc out2 root.added (footer_bytes root_at) in
      let (last, plain_header) = root.json_plain in
      let (clear, document_read) =
        read_block-json (out3 ++ footer_bytes root_at) root.json_block document last plain_header
          (root.payload (footer_bytes root_at)) in
      let size : length (out3 ++ footer_bytes root_at) ≡ length out3 + footer_len =
        length-append out3 (footer_bytes root_at)
        ∙ ap (λ k. length out3 + k) (length-footer_bytes root_at) in
      (
        out1,
        wrote,
        record {
          tail = added ++ (root.added ++ footer_bytes root_at);
          front =
              whole
              ∙ (ap (λ t. t ++ (root.added ++ footer_bytes root_at)) grows
                  ∙ append_assoc out1 added (root.added ++ footer_bytes root_at));
          size = size ∙ ap (λ k. k + footer_len) root.size;
          footer = read_footer-footer_bytes out3 root_at fits;
          root_list = root.list;
          walked = root.walked (footer_bytes root_at);
          framed = size ∙ ap (λ k. k + footer_len) (sym root.ends);
          json_block = root.json_block;
          json_found = root.json_found;
          document = document;
          document_plain = clear;
          document_read = document_read;
          patched = patched;
          disks = disks;
          disks_read =
              ap (λ t. parse_disks t (delta_index plan.kind) (counts to.disks) region.end) whole
              ∙ read;
          indexes = indexes;
        },
      )

  -- A file that is written from an empty output can be read again. It starts with the data region,
  -- and it has the size that is reported. Its footer names the root list. The root list is read
  -- from there and ends at the footer, with the patched document in its JSON block, whose hash is
  -- the recorded one. From the end of the data region on, the metadata region is read up to the
  -- root list, with the number of partitions on each disk that the To file has and the written
  -- indexes in their order. It needs the To file as it was opened, with a root list
  -- that ends with its `$AUXDATA` block if it has one, indexes that fit the format and are of the kind
  -- of the merge, and a root list that starts below `2 ^ 64`.
  pub write_output-IsReadable :
      (s : BackupSet Value) (plan : MergePlan) (to : BackupFile Value) (handles : List (ℕ × Bytes))
      (file : Bytes) (output_name : String) (w : Written) (out : Bytes)
      → owner s plan.to ≡ some to
      → lookup plan.to handles ≡ some file
      → IsOpened to file
      → AuxEnds to
      → write_output J E md5 s plan (read_source handles) [] output_name ≡ ok (w, out)
      → All (IsWritable md5 md5_length (delta_index plan.kind)) w.region.partitions
      → w.root_at < 2 ^ 64
      → IsOutput s plan to handles output_name w out
  unfolding write_output
  write_output-IsReadable s plan to handles file output_name w out owned found opened aux_ends h
        writable fits =
      let (m, e, h1) = >>=-eq_ok (or_err (owner s plan.to) no_owner) _ h in
      let same : m ≡ to = some-eq (sym (or_err-eq_ok (owner s plan.to) no_owner e) ∙ owned) in
      let ((region, out1), wrote, h2) =
        >>=-eq_ok (write_data_region plan (read_source handles) [] plan.out_file_number) _ h1 in
      let ((root_at, out2), meta, h3) =
        >>=-eq_ok (write_metadata_region md5 (read_source handles) plan.to m.disks region out1) _
          h2 in
      let (document, patched, h4) =
        >>=-eq_ok (patch_document J E s plan region.end output_name) _ h3 in
      let (header, made, h5) =
        >>=-eq_ok (for_payload md5 json_name document (is_none (find m.root_list auxdata_name))) _
          h4 in
      let ((n, out3), copied, h6) =
        >>=-eq_ok
          (copy_aux (read_source handles) plan.to (find m.root_list auxdata_name)
            ((out2 ++ header_to_bytes header) ++ document))
          _ h5 in
      let e' = ok-injective h6 in
      subst (λ (r : Written × Bytes). IsOutput s plan to handles output_name r.0 r.1) e'
        (parts-IsOutput s plan to handles file output_name region out1 root_at out2 document header
          n out3 found opened aux_ends wrote
          (subst
            (λ (q : BackupFile Value).
              write_metadata_region md5 (read_source handles) plan.to q.disks region out1
              ≡ ok (root_at, out2))
            same meta)
          patched
          (subst
            (λ (q : BackupFile Value).
              for_payload md5 json_name document (is_none (find q.root_list auxdata_name))
              ≡ ok header)
            same made)
          (subst
            (λ (q : BackupFile Value).
              copy_aux (read_source handles) plan.to (find q.root_list auxdata_name)
                ((out2 ++ header_to_bytes header) ++ document)
              ≡ ok (n, out3))
            same copied)
          (subst
            (λ (r : Written × Bytes).
              All (IsWritable md5 md5_length (delta_index plan.kind)) r.0.region.partitions)
            (sym e') writable)
          (subst (λ (r : Written × Bytes). r.0.root_at < 2 ^ 64) (sym e') fits))
