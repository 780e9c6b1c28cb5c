-- ===== src/Write/Metadata/Readback/Partitions.antt =====
-- One partition's list: what `write_partition_list` (src/write.rs) writes and `parse_partition`
-- (src/reader.rs) reads.
use mrimgx_consolidate.Base.{
  ℕ, ◌+◌, ◌-◌, ◌^◌, ◌≤◌, ◌<◌, ◌≡◌, ◌∙◌, refl, sym, ap, subst, Bool, true, ◌&&◌, List, [], ◌∷◌, ◌++◌,
  append_assoc, length, length-append, slice, some, ltb, ltb→lt, ◌==◌, ok, >>=-eq_ok, ensure-eq_ok,
  ok-injective, arith, parts_differ, payload_too_large,
}
use mrimgx_consolidate.Base.Bytes.{Bytes}
use mrimgx_consolidate.Base.Sets.{lookup}
use mrimgx_consolidate.Block.{
  MetadataBlockHeader, BlockList, header_len, index_name, header_to_bytes, for_payload,
  max_blocks_per_list,
}
use mrimgx_consolidate.Index.{is_delta, to_bytes}
use mrimgx_consolidate.Index.RoundTrip.{IsIndex}
use mrimgx_consolidate.Reader.{Partition, span_before_index, parse_partition}
use mrimgx_consolidate.Write.{WrittenPartition, read_source}
use mrimgx_consolidate.Write.Metadata.{copy_range, ListState, take_next, write_partition_list}
use mrimgx_consolidate.Write.Metadata.Ranges.{IsCopied, copy_range-IsCopied}
use mrimgx_consolidate.Write.Metadata.Lists.{
  Embeds, Embeds-append, IsCopied-Embeds, span, IsList, blocks_of, Run-IsList, length-blocks_of,
}
use mrimgx_consolidate.Write.Metadata.Readback.Fresh.{
  walk_list-IsList, span_before_index-blocks_of, parse_partition-walked, index_header, whole_front,
  read_header-fresh, size_fresh, fresh, parse_partition-fresh,
}

module _ (md5 : Bytes → Bytes) (md5_length : (b : Bytes) → length (md5 b) ≡ 16) where
  -- What the writer may be given for a partition of the kind `delta_index`.
  abbrev pub IsWritable : Bool → WrittenPartition → Type 0
  IsWritable delta_index w = IsIndex w.index × (is_delta w.index.blocks ≡ delta_index)

  -- A partition list that is written, against the state before and after.
  pub record DidPartition (delta_index : Bool) (s s' : ListState) : Type 0 where
    pub written : WrittenPartition
    pub used : s.next ≡ written ∷ s'.next
    pub added : Bytes
    pub grows : s'.out ≡ s.out ++ added
    pub size : length s'.out ≡ s'.at
    pub part : Partition
    pub same_index : part.index ≡ written.index
    pub ends : part.blocks.end ≡ s'.at
    pub read : (rest : Bytes) → parse_partition (s'.out ++ rest) delta_index s.at ≡ ok part

  take_next-eq_ok :
      (ws : List WrittenPartition) (w : WrittenPartition) (next : List WrittenPartition)
      → take_next ws ≡ ok (w, next)
      → ws ≡ w ∷ next
  take_next-eq_ok [] w next h = cc
  take_next-eq_ok (v ∷ ws) w next h =
      let e = ok-injective h in cc (ap (λ x. x.0) e, ap (λ x. x.1) e)

  module _ (handles : List (ℕ × Bytes)) (number : ℕ) (file : Bytes)
      (found : lookup number handles ≡ some file) (to_delta delta_index : Bool) where
    -- The copied front and the fresh md5 md5_length index behind it.
    copied-DidPartition :
        (at : ℕ) (front : List MetadataBlockHeader) (ender : MetadataBlockHeader) (s : ListState)
        (o : Bytes) (w : WrittenPartition) (next : List WrittenPartition)
        → IsList file at front ender
        → length (blocks_of at front ender) ≤ max_blocks_per_list
        → length s.out ≡ s.at
        → IsCopied file at (span front) s.out o
        → s.next ≡ w ∷ next
        → IsWritable delta_index w
        → length (to_bytes w.index) < 2 ^ 32
        → DidPartition delta_index s (record {
          at = s.at + span front + (header_len + length (to_bytes w.index));
          out =
              (o ++ header_to_bytes (index_header md5 md5_length (to_bytes w.index)))
              ++ to_bytes w.index;
          next = next;
        })
    copied-DidPartition at front ender s o w next l few size c used (fits, kind) small =
        let payload : Bytes = to_bytes w.index in
        let hd : Bytes = header_to_bytes (index_header md5 md5_length payload) in
        let o_size : length o ≡ s.at + span front =
          ap (length {A = ℕ}) c.appended
          ∙ omega (arith, length-append s.out (slice file at (span front)), c.size, size) in
        let there : (rest : Bytes)
            → ((o ++ hd) ++ payload) ++ rest ≡ o ++ (hd ++ (payload ++ rest)) =
          λ rest. whole_front md5 md5_length o payload rest small in
        let e : (rest : Bytes) → Embeds file at (((o ++ hd) ++ payload) ++ rest) s.at (span front) =
          λ rest. rw (there rest) (
            Embeds-append file at o (hd ++ (payload ++ rest)) s.at (span front)
              (IsCopied-Embeds file at (span front) s.out o s.at size c)) in
        record {
          written = w;
          used = used;
          added = slice file at (span front) ++ (hd ++ payload);
          grows =
              append_assoc o hd payload
              ∙ (ap (λ x. x ++ (hd ++ payload)) c.appended
                  ∙ append_assoc s.out (slice file at (span front)) (hd ++ payload));
          size = size_fresh md5 md5_length o payload [] small ∙ omega (arith, o_size);
          part = fresh md5 md5_length s.at front w.index;
          same_index = refl;
          ends = omega arith;
          read = λ rest. rw (← kind) (
              parse_partition-fresh md5 md5_length o w.index rest s.at front fits small o_size
                (Run-IsList file at (((o ++ hd) ++ payload) ++ rest) s.at (span front) front
                  (index_header md5 md5_length payload) (e rest) (omega arith) l.run
                  (read_header-fresh md5 md5_length o payload rest small (s.at + span front) o_size)
                  refl)
                (rw (length-blocks_of s.at at front (index_header md5 md5_length payload) ender)
                  few));
        }

    for_payload-eq_ok :
        (payload : Bytes) (header : MetadataBlockHeader)
        → for_payload md5 index_name payload true ≡ ok header
        → (length payload < 2 ^ 32) × (index_header md5 md5_length payload ≡ header)
    unfolding for_payload
    for_payload-eq_ok payload header h =
        let (small, e) = ensure-eq_ok (ltb (length payload) (2 ^ 32)) payload_too_large _ h in
        (ltb→lt _ _ small, ok-injective e)

    -- The state after a list whose front is `n` bytes long.
    abbrev closed :
        ListState
        → Bytes
        → WrittenPartition
        → List WrittenPartition
        → ℕ
        → MetadataBlockHeader
        → ListState
    closed s o w next n header = record {
      at = s.at + n + (header_len + length (to_bytes w.index));
      out = (o ++ header_to_bytes header) ++ to_bytes w.index;
      next = next;
    }

    pub write_partition_list-DidPartition :
        (d p at : ℕ) (part : Partition) (s s' : ListState)
        → parse_partition file to_delta at ≡ ok part
        → length s.out ≡ s.at
        → ((w : WrittenPartition) (next : List WrittenPartition)
            → s.next ≡ w ∷ next
            → IsWritable delta_index w)
        → write_partition_list md5 (read_source handles) number d p part s ≡ ok s'
        → DidPartition delta_index s s'
    unfolding write_partition_list
    write_partition_list-DidPartition d p at part s s' parsed size writable h =
        let (front, ender, l, e, few) =
          walk_list-IsList file at part.blocks
            (parse_partition-walked file to_delta at part parsed) in
        let spanned : span_before_index part ≡ ok (at, at + span front) =
          span_before_index-blocks_of part at front ender (ap (λ (b : BlockList). b.blocks) e) in
        let difference : at + span front - at ≡ span front = omega arith in
        let (o, copied, h1) =
          >>=-eq_ok (copy_range (read_source handles) number at (at + span front - at) s.out) _
            (rw spanned at h) in
        let ((w, next), taken, h2) = >>=-eq_ok (take_next s.next) _ h1 in
        let (here, h3) = ensure-eq_ok (w.disk == d && w.partition == p) parts_differ _ h2 in
        let (header, made, h4) =
          >>=-eq_ok (for_payload md5 index_name (to_bytes w.index) true) _ h3 in
        let (small, same) = for_payload-eq_ok (to_bytes w.index) header made in
        let c : IsCopied file at (span front) s.out o =
          copy_range-IsCopied handles number file found at (span front) s.out o
            (rw difference at copied) in
        let used = take_next-eq_ok s.next w next taken in
        subst (DidPartition delta_index s)
          (ap (λ n. closed s o w next n (index_header md5 md5_length (to_bytes w.index)))
              (sym difference)
            ∙ (ap (closed s o w next (at + span front - at)) same ∙ ok-injective h4))
          (copied-DidPartition at front ender s o w next l few size c used (writable w next used)
            small)
