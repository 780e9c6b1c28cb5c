-- ===== src/Write/Metadata/Readback/Regions.antt =====
-- The whole metadata region: what `write_metadata_region` (src/write.rs) writes and
-- `BackupFile::parse` (src/reader.rs) reads.
use mrimgx_consolidate.Base.{
  ℕ, ◌+◌, ◌≡◌, ◌∙◌, refl, sym, ap, subst, Bool, List, [], ◌∷◌, ◌++◌, append-nil, append_assoc,
  length, All, some, ◌==◌, ==_iff, ok, >>=-eq_ok, ensure-eq_ok, ok-injective, parts_differ,
}
use mrimgx_consolidate.Base.Bytes.{Bytes}
use mrimgx_consolidate.Base.Sets.{lookup}
use mrimgx_consolidate.Block.{walk_list}
use mrimgx_consolidate.Reader.{Disk, parse_partitions, parse_disks}
use mrimgx_consolidate.Write.{WrittenPartition, DataRegion, read_source}
use mrimgx_consolidate.Write.Metadata.{
  ListState, partition_total, write_partition_lists, copy_disk_list, write_disk_lists,
  write_metadata_region,
}
use mrimgx_consolidate.Write.Metadata.Readback.Partitions.{IsWritable}
use mrimgx_consolidate.Write.Metadata.Readback.Parsed.{
  none_left, written_indexes, disk_indexes, counts, written_indexes-append, All-behind,
  parse_disks-cons,
}
use mrimgx_consolidate.Write.Metadata.Readback.Copied.{
  DidPartitions, write_partition_lists-DidPartitions, DidDiskList, copy_disk_list-DidDiskList,
}

-- Disks that are written between two states, and what is read there.
record DidDisks (delta_index : Bool) (ns : List ℕ) (s s' : ListState) : Type 0 where
  written : List WrittenPartition
  used : s.next ≡ written ++ s'.next
  added : Bytes
  grows : s'.out ≡ s.out ++ added
  size : length s'.out ≡ s'.at
  disks : List Disk
  same_indexes : disk_indexes disks ≡ written_indexes written
  same_counts : counts disks ≡ ns
  read : (rest : Bytes) → parse_disks (s'.out ++ rest) delta_index ns s.at ≡ ok (disks, s'.at)

module _ (md5 : Bytes → Bytes) (md5_length : (b : Bytes) → length (md5 b) ≡ 16)
    (handles : List (ℕ × Bytes)) (number : ℕ) (file : Bytes)
    (found : lookup number handles ≡ some file) (to_delta delta_index : Bool) where
  DidDisks-cons :
      (n : ℕ) (ns : List ℕ) (s s1 s2 s' : ListState)
      → DidDiskList s s1
      → DidPartitions delta_index n s1 s2
      → DidDisks delta_index ns s2 s'
      → DidDisks delta_index (n ∷ ns) s s'
  unfolding parse_disks
  DidDisks-cons n ns s s1 s2 s' l ps ds = record {
    written = ps.written ++ ds.written;
    used =
        l.used
        ∙ (ps.used
            ∙ (ap (λ x. ps.written ++ x) ds.used
                ∙ sym (append_assoc ps.written ds.written s'.next)));
    added = l.added ++ (ps.added ++ ds.added);
    grows =
        ds.grows
        ∙ (ap (λ o. o ++ ds.added) (ps.grows ∙ ap (λ o. o ++ ps.added) l.grows)
            ∙ (append_assoc (s.out ++ l.added) ps.added ds.added
                ∙ append_assoc s.out l.added (ps.added ++ ds.added)));
    size = ds.size;
    disks = record { blocks = l.blocks; partitions = ps.parts } ∷ ds.disks;
    same_indexes =
        ap (λ x. x ++ disk_indexes ds.disks) ps.same_indexes
        ∙ (ap (λ x. written_indexes ps.written ++ x) ds.same_indexes
            ∙ sym (written_indexes-append ps.written ds.written));
    same_counts = cc (ps.same_count, ds.same_counts);
    read = λ rest.
        let behind2 : s'.out ++ rest ≡ s2.out ++ (ds.added ++ rest) =
          ap (λ o. o ++ rest) ds.grows ∙ append_assoc s2.out ds.added rest in
        let behind1 : s2.out ++ (ds.added ++ rest) ≡ s1.out ++ (ps.added ++ (ds.added ++ rest)) =
          ap (λ o. o ++ (ds.added ++ rest)) ps.grows
          ∙ append_assoc s1.out ps.added (ds.added ++ rest) in
        let first : walk_list (s'.out ++ rest) s.at ≡ ok l.blocks =
          subst (λ f. walk_list f s.at ≡ ok l.blocks) (sym (behind2 ∙ behind1))
            (l.read (ps.added ++ (ds.added ++ rest))) in
        let second : parse_partitions (s'.out ++ rest) delta_index n l.blocks.end
            ≡ ok (ps.parts, s2.at) =
          rw (behind2, l.ends) (ps.read (ds.added ++ rest)) in
        let third = ds.read rest in rw first (rw second (rw third refl));
  }

  write_disk_lists-DidDisks :
      (d at : ℕ) (disks : List Disk) (end : ℕ) (s s' : ListState)
      → parse_disks file to_delta (counts disks) at ≡ ok (disks, end)
      → length s.out ≡ s.at
      → All (IsWritable md5 md5_length delta_index) s.next
      → write_disk_lists md5 (read_source handles) number d disks s ≡ ok s'
      → DidDisks delta_index (counts disks) s s'
  unfolding write_disk_lists parse_disks
  write_disk_lists-DidDisks d at [] end s s' parsed size writable h =
      subst (DidDisks delta_index [] s) (ok-injective h) (record {
        written = [];
        used = refl;
        added = [];
        grows = sym (append-nil s.out);
        size = size;
        disks = [];
        same_indexes = refl;
        same_counts = refl;
        read = λ rest. refl;
      })
  write_disk_lists-DidDisks d at (disk ∷ disks) end s s' parsed size writable h =
      let (s1, copied, h1) =
        >>=-eq_ok (copy_disk_list md5 (read_source handles) number disk s) _ h in
      let (s2, wrote, h2) =
        >>=-eq_ok (write_partition_lists md5 (read_source handles) number d 0 disk.partitions s1) _
          h1 in
      let (middle, walked, parts, rest) =
        parse_disks-cons file to_delta (length disk.partitions) at (counts disks) disk disks end
          parsed in
      let l =
        copy_disk_list-DidDiskList md5 md5_length handles number file found to_delta delta_index at
          disk s s1 walked size copied in
      let writable1 = subst (All (IsWritable md5 md5_length delta_index)) l.used writable in
      let ps =
        write_partition_lists-DidPartitions md5 md5_length handles number file found to_delta
          delta_index d 0 disk.blocks.end disk.partitions middle s1 s2 parts l.size writable1
          wrote in
      let writable2 =
        All-behind (IsWritable md5 md5_length delta_index) ps.written s2.next
          (subst (All (IsWritable md5 md5_length delta_index)) ps.used writable1) in
      DidDisks-cons (length disk.partitions) (counts disks) s s1 s2 s' l ps
        (write_disk_lists-DidDisks (d + 1) middle disks end s2 s' rest ps.size writable2 h2)

  -- The region that is written for the disks of the file `number` is one that the parser reads: with
  -- the kind of the written partitions, the same number of partitions on each disk and any bytes
  -- behind the region, it reads up to the end of the region and finds the written indexes, each at
  -- its place. All that was written before is kept in front, and the offset that is returned is the
  -- length of the output.
  pub write_metadata_region-parse_disks :
      (at : ℕ) (disks : List Disk) (end : ℕ) (region : DataRegion) (out : Bytes) (root_at : ℕ)
      (out' rest : Bytes)
      → parse_disks file to_delta (counts disks) at ≡ ok (disks, end)
      → length out ≡ region.end
      → All (IsWritable md5 md5_length delta_index) region.partitions
      → write_metadata_region md5 (read_source handles) number disks region out ≡ ok (root_at, out')
      → (length out' ≡ root_at)
        × (added : Bytes) × (out' ≡ out ++ added)
        × (disks' : List Disk) × (disk_indexes disks' ≡ written_indexes region.partitions)
        × (parse_disks (out' ++ rest) delta_index (counts disks) region.end ≡ ok (disks', root_at))
  unfolding write_metadata_region
  write_metadata_region-parse_disks at disks end region out root_at out' rest parsed size writable
        h =
      let (all_there, h1) =
        ensure-eq_ok (length region.partitions == partition_total disks) parts_differ _ h in
      let before : ListState = record { at = region.end; out = out; next = region.partitions } in
      let (after, wrote, h2) =
        >>=-eq_ok (write_disk_lists md5 (read_source handles) number 0 disks before) _ h1 in
      let e = ok-injective h2 in
      let ends : after.at ≡ root_at = ap (λ (x : ℕ × Bytes). x.0) e in
      let outs : after.out ≡ out' = ap (λ (x : ℕ × Bytes). x.1) e in
      let did = write_disk_lists-DidDisks 0 at disks end before after parsed size writable wrote in
      let every =
        none_left disks did.disks region.partitions did.written after.next
          ((==_iff (length region.partitions) (partition_total disks)).0 all_there) did.same_counts
          did.same_indexes did.used in
      (
        ap length (sym outs) ∙ (did.size ∙ ends),
        did.added,
        sym outs ∙ did.grows,
        did.disks,
        did.same_indexes ∙ ap written_indexes every,
        ap (λ o. parse_disks (o ++ rest) delta_index (counts disks) region.end) (sym outs)
            ∙ (did.read rest ∙ ap (λ n. ok (did.disks, n)) ends),
      )
