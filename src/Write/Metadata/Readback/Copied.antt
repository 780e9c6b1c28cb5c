-- ===== src/Write/Metadata/Readback/Copied.antt =====
-- Lists of a metadata region: what `write_metadata_region` (src/write.rs) writes between two
-- states and `BackupFile::parse` (src/reader.rs) reads there.
use mrimgx_consolidate.Base.{
  ℕ, suc, ◌+◌, ◌-◌, ◌≤◌, ◌≡◌, ◌∙◌, refl, sym, ap, subst, Bool, List, [], ◌∷◌, ◌++◌, append-nil,
  append_assoc, length, length-append, All, some, ok, or_err, >>=-eq_ok, ok-injective, or_err-eq_ok,
  some-eq, arith, index_panic, slice,
}
use mrimgx_consolidate.Base.Bytes.{Bytes}
use mrimgx_consolidate.Base.Sets.{lookup}
use mrimgx_consolidate.Block.{
  MetadataBlockHeader, Located, BlockList, walk_list, max_blocks_per_list,
}
use mrimgx_consolidate.Reader.{Partition, Disk, first?, parse_partition, parse_partitions}
use mrimgx_consolidate.Write.{WrittenPartition, read_source}
use mrimgx_consolidate.Write.Metadata.{
  copy_range, ListState, write_partition_list, write_partition_lists, copy_disk_list,
}
use mrimgx_consolidate.Write.Metadata.Ranges.{IsCopied, copy_range-IsCopied}
use mrimgx_consolidate.Write.Metadata.Lists.{
  Embeds-append, IsCopied-Embeds, extent, span, IsList, IsList-Embeds, blocks_of, length-blocks_of,
  first?-blocks_of,
}
use mrimgx_consolidate.Write.Metadata.Readback.Fresh.{walk_list-IsList, IsList-walk_list}
use mrimgx_consolidate.Write.Metadata.Readback.Partitions.{
  IsWritable, DidPartition, write_partition_list-DidPartition,
}
use mrimgx_consolidate.Write.Metadata.Readback.Parsed.{
  written_indexes, partition_indexes, parse_partitions-cons,
}

-- Lists that are written between two states, and the partitions that are read there.
pub record DidPartitions (delta_index : Bool) (count : ℕ) (s s' : ListState) : Type 0 where
  pub written : List WrittenPartition
  pub used : s.next ≡ written ++ s'.next
  pub added : Bytes
  pub grows : s'.out ≡ s.out ++ added
  pub size : length s'.out ≡ s'.at
  pub parts : List Partition
  pub same_indexes : partition_indexes parts ≡ written_indexes written
  pub same_count : length parts ≡ count
  pub read :
      (rest : Bytes) → parse_partitions (s'.out ++ rest) delta_index count s.at ≡ ok (parts, s'.at)

-- A disk's own list, copied.
pub record DidDiskList (s s' : ListState) : Type 0 where
  pub used : s.next ≡ s'.next
  pub added : Bytes
  pub grows : s'.out ≡ s.out ++ added
  pub size : length s'.out ≡ s'.at
  pub blocks : BlockList
  pub ends : blocks.end ≡ s'.at
  pub read : (rest : Bytes) → walk_list (s'.out ++ rest) s.at ≡ ok blocks

module _ (md5 : Bytes → Bytes) (md5_length : (b : Bytes) → length (md5 b) ≡ 16)
    (handles : List (ℕ × Bytes)) (number : ℕ) (file : Bytes)
    (found : lookup number handles ≡ some file) (to_delta delta_index : Bool) where
  DidPartition-DidPartitions :
      (n : ℕ) (s s1 s' : ListState)
      → DidPartition md5 md5_length delta_index s s1
      → DidPartitions delta_index n s1 s'
      → DidPartitions delta_index (suc n) s s'
  unfolding parse_partitions
  DidPartition-DidPartitions n s s1 s' one more = record {
    written = one.written ∷ more.written;
    used = one.used ∙ ap (λ l. one.written ∷ l) more.used;
    added = one.added ++ more.added;
    grows =
        more.grows
        ∙ (ap (λ o. o ++ more.added) one.grows ∙ append_assoc s.out one.added more.added);
    size = more.size;
    parts = one.part ∷ more.parts;
    same_indexes = cc (one.same_index, more.same_indexes);
    same_count = ap suc more.same_count;
    read = λ rest.
        let behind : s'.out ++ rest ≡ s1.out ++ (more.added ++ rest) =
          ap (λ o. o ++ rest) more.grows ∙ append_assoc s1.out more.added rest in
        let first : parse_partition (s'.out ++ rest) delta_index s.at ≡ ok one.part =
          rw behind (one.read (more.added ++ rest)) in
        let second : parse_partitions (s'.out ++ rest) delta_index n one.part.blocks.end
            ≡ ok (more.parts, s'.at) =
          rw one.ends (more.read rest) in
        rw first (rw second refl);
  }

  pub write_partition_lists-DidPartitions :
      (d p at : ℕ) (parts : List Partition) (end : ℕ) (s s' : ListState)
      → parse_partitions file to_delta (length parts) at ≡ ok (parts, end)
      → length s.out ≡ s.at
      → All (IsWritable md5 md5_length delta_index) s.next
      → write_partition_lists md5 (read_source handles) number d p parts s ≡ ok s'
      → DidPartitions delta_index (length parts) s s'
  unfolding write_partition_lists parse_partitions
  write_partition_lists-DidPartitions d p at [] end s s' parsed size writable h =
      subst (DidPartitions delta_index 0 s) (ok-injective h) (record {
        written = [];
        used = refl;
        added = [];
        grows = sym (append-nil s.out);
        size = size;
        parts = [];
        same_indexes = refl;
        same_count = refl;
        read = λ rest. refl;
      })
  write_partition_lists-DidPartitions d p at (part ∷ parts) end s s' parsed size writable h =
      let (s1, now, later) =
        >>=-eq_ok (write_partition_list md5 (read_source handles) number d p part s) _ h in
      let (one_parsed, rest_parsed) =
        parse_partitions-cons file to_delta (length parts) at part parts end parsed in
      let one =
        write_partition_list-DidPartition md5 md5_length handles number file found to_delta
          delta_index d p at part s s1 one_parsed size
          (λ w next e. (subst (All (IsWritable md5 md5_length delta_index)) e writable).0) now in
      let behind = (subst (All (IsWritable md5 md5_length delta_index)) one.used writable).1 in
      DidPartition-DidPartitions (length parts) s s1 s' one (
        write_partition_lists-DidPartitions d (p + 1) part.blocks.end parts end s1 s' rest_parsed
          one.size behind later)

  copied-DidDiskList :
      (at : ℕ) (front : List MetadataBlockHeader) (ender : MetadataBlockHeader) (s : ListState)
      (o : Bytes)
      → IsList file at front ender
      → length (blocks_of at front ender) ≤ max_blocks_per_list
      → length s.out ≡ s.at
      → IsCopied file at (span front + extent ender) s.out o
      → DidDiskList s (record s { at = s.at + (span front + extent ender); out = o })
  copied-DidDiskList at front ender s o l few size c = record {
    used = refl;
    added = slice file at (span front + extent ender);
    grows = c.appended;
    size =
        ap (length {A = ℕ}) c.appended
        ∙ omega
            (arith, length-append s.out (slice file at (span front + extent ender)), c.size, size);
    blocks = record { blocks = blocks_of s.at front ender; end = s.at + span front + extent ender };
    ends = omega arith;
    read = λ rest.
        IsList-walk_list (o ++ rest) s.at front ender
          (IsList-Embeds file at (o ++ rest) s.at (span front + extent ender) front ender
            (Embeds-append file at o rest s.at (span front + extent ender)
              (IsCopied-Embeds file at (span front + extent ender) s.out o s.at size c))
            (omega arith) l)
          (rw (length-blocks_of s.at at front ender ender) few);
  }

  pub copy_disk_list-DidDiskList :
      (at : ℕ) (disk : Disk) (s s' : ListState)
      → walk_list file at ≡ ok disk.blocks
      → length s.out ≡ s.at
      → copy_disk_list md5 (read_source handles) number disk s ≡ ok s'
      → DidDiskList s s'
  unfolding copy_disk_list
  copy_disk_list-DidDiskList at disk s s' walked size h =
      let (front, ender, l, e, few) = walk_list-IsList file at disk.blocks walked in
      let (b, first, here) = first?-blocks_of at front ender in
      let (b', first', h1) = >>=-eq_ok (or_err (first? disk.blocks.blocks) index_panic) _ h in
      let (o, copied, h2) =
        >>=-eq_ok
          (copy_range (read_source handles) number b'.offset (disk.blocks.end - b'.offset) s.out) _
          h1 in
      let same : b'.offset ≡ at =
        ap (λ (x : Located). x.offset)
          (some-eq (
            sym (or_err-eq_ok (first? disk.blocks.blocks) index_panic first')
            ∙ (ap first? (ap (λ (x : BlockList). x.blocks) e) ∙ first)))
        ∙ here in
      let n : disk.blocks.end - b'.offset ≡ span front + extent ender =
        omega (arith, same, ap (λ (x : BlockList). x.end) e) in
      let c : IsCopied file at (span front + extent ender) s.out o =
        copy_range-IsCopied handles number file found at (span front + extent ender) s.out o (
          ap (λ k. copy_range (read_source handles) number k (span front + extent ender) s.out)
            (sym same)
          ∙ (ap (λ k. copy_range (read_source handles) number b'.offset k s.out) (sym n)
              ∙ copied)) in
      subst (DidDiskList s)
        (ap (λ k. record s { at = s.at + k; out = o }) (sym n) ∙ ok-injective h2)
        (copied-DidDiskList at front ender s o l few size c)
