-- ===== src/Reader/Regions.antt =====
-- `BackupFile::parse` (src/reader.rs): the lists of the metadata region.
use mrimgx_consolidate.Base.{
  ℕ, zero, suc, ◌≡◌, refl, ap, subst, Bool, List, [], ◌∷◌, some, map, length, ok, ok-injective,
  or_err-eq_ok, >>=-eq_ok, ensure-eq_ok, ==_iff,
}
use mrimgx_consolidate.Base.Bytes.{Bytes, bytes_eq→eq}
use mrimgx_consolidate.Block.{Located, index_name, walk_list, read_payload}
use mrimgx_consolidate.Block.Walk.{Chain, walk_list_iff}
use mrimgx_consolidate.Index
use mrimgx_consolidate.Json.{Header}
use mrimgx_consolidate.Reader.{
  Partition, Disk, last?, parse_partition, parse_partitions, parse_disks, parse_region,
}

-- A partition as the file holds it: a chain of headers from `at` on, whose last block is named
-- `$INDEX` and stores the index.
pub record IsStored (file : Bytes) (delta_index : Bool) (at : ℕ) (p : Partition) : Type 0 where
  pub chain : Chain file at p.blocks.blocks p.blocks.end
  pub index_block : Located
  pub index_last : last? p.blocks.blocks ≡ some index_block
  pub index_named : index_block.header.name ≡ index_name
  pub raw : Bytes
  pub raw_read : read_payload file index_block ≡ ok raw
  pub index_parsed : Index.parse raw delta_index ≡ ok p.index

module _ (file : Bytes) (delta_index : Bool) where
  -- Partitions one behind the other from `at` to `end`.
  abbrev pub PartitionsTile : List Partition → ℕ → ℕ → Type 0
  PartitionsTile [] at end = at ≡ end
  PartitionsTile (p ∷ ps) at end =
      IsStored file delta_index at p × PartitionsTile ps p.blocks.end end

  -- Each disk's list, and behind it the lists of its partitions.
  abbrev pub DisksTile : List Disk → ℕ → ℕ → Type 0
  DisksTile [] at end = at ≡ end
  DisksTile (d ∷ ds) at end =
      Chain file at d.blocks.blocks d.blocks.end
      × ((middle : ℕ) × PartitionsTile d.partitions d.blocks.end middle × DisksTile ds middle end)

  parse_partition-IsStored :
      (at : ℕ) (p : Partition)
      → parse_partition file delta_index at ≡ ok p
      → IsStored file delta_index at p
  unfolding parse_partition
  parse_partition-IsStored at p h =
      let (blocks, walked, h1) = >>=-eq_ok (walk_list file at) _ h in
      let (index_block, last, h2) = >>=-eq_ok _ _ h1 in
      let (named, h3) = ensure-eq_ok _ _ _ h2 in
      let (plain, h4) = ensure-eq_ok _ _ _ h3 in
      let (raw, read, h5) = >>=-eq_ok _ _ h4 in
      let (index, parsed, h6) = >>=-eq_ok _ _ h5 in
      subst (IsStored file delta_index at) (ok-injective h6) (record {
        chain = ((walk_list_iff file at blocks).0 walked).0;
        index_block = index_block;
        index_last = or_err-eq_ok _ _ last;
        index_named = bytes_eq→eq _ _ named;
        raw = raw;
        raw_read = read;
        index_parsed = parsed;
      })

  parse_partitions-tile :
      (count at : ℕ) (ps : List Partition) (end : ℕ)
      → parse_partitions file delta_index count at ≡ ok (ps, end)
      → PartitionsTile ps at end × (length ps ≡ count)
  unfolding parse_partitions
  parse_partitions-tile zero at ps end h =
      subst (λ (r : List Partition × ℕ). PartitionsTile r.0 at r.1 × (length r.0 ≡ 0))
        (ok-injective h) (refl, refl)
  parse_partitions-tile (suc count) at ps end h =
      let (p, parsed, h1) = >>=-eq_ok (parse_partition file delta_index at) _ h in
      let ((rest, end'), looped, h2) = >>=-eq_ok _ _ h1 in
      let (tile, count_eq) = parse_partitions-tile count p.blocks.end rest end' looped in
      subst (λ (r : List Partition × ℕ). PartitionsTile r.0 at r.1 × (length r.0 ≡ suc count))
        (ok-injective h2) ((parse_partition-IsStored at p parsed, tile), ap suc count_eq)

  parse_disks-tile :
      (counts : List ℕ) (at : ℕ) (ds : List Disk) (end : ℕ)
      → parse_disks file delta_index counts at ≡ ok (ds, end)
      → DisksTile ds at end × (map (λ (d : Disk). length d.partitions) ds ≡ counts)
  unfolding parse_disks
  parse_disks-tile [] at ds end h =
      subst
        (λ (r : List Disk × ℕ).
          DisksTile r.0 at r.1 × (map (λ (d : Disk). length d.partitions) r.0 ≡ []))
        (ok-injective h) (refl, refl)
  parse_disks-tile (count ∷ counts) at ds end h =
      let (blocks, walked, h1) = >>=-eq_ok (walk_list file at) _ h in
      let ((parts, middle), looped, h2) = >>=-eq_ok _ _ h1 in
      let ((rest, end'), went_on, h3) = >>=-eq_ok _ _ h2 in
      let (tile, count_eq) = parse_partitions-tile count blocks.end parts middle looped in
      let (tiles, counts_eq) = parse_disks-tile counts middle rest end' went_on in
      subst
        (λ (r : List Disk × ℕ).
          DisksTile r.0 at r.1 × (map (λ (d : Disk). length d.partitions) r.0 ≡ count ∷ counts))
        (ok-injective h3)
        (
          (((walk_list_iff file at blocks).0 walked).0, (middle, tile, tiles)),
          cc (count_eq, counts_eq),
        )

-- When the metadata region is read, its lists lie end to end from `index_file_position` to the
-- root list: each disk's list and behind it those of its partitions, as many as the document
-- declares, each ended by the `$INDEX` block that stores its index.
pub parse_region-tile :
    (file : Bytes) (header : Header) (shape : List ℕ) (root_at : ℕ) (disks : List Disk)
    → parse_region file header shape root_at ≡ ok disks
    → DisksTile file header.delta_index disks header.index_file_position root_at
      × (map (λ (d : Disk). length d.partitions) disks ≡ shape)
unfolding parse_region
parse_region-tile file header shape root_at disks h =
    let (low, h1) = ensure-eq_ok _ _ _ h in
    let ((ds, end), read, h2) = >>=-eq_ok _ _ h1 in
    let (met, h3) = ensure-eq_ok _ _ _ h2 in
    let (tile, counts) =
      parse_disks-tile file header.delta_index shape header.index_file_position ds end read in
    subst
      (λ (r : List Disk).
        DisksTile file header.delta_index r header.index_file_position root_at
        × (map (λ (d : Disk). length d.partitions) r ≡ shape))
      (ok-injective h3)
      (
        subst (λ t. DisksTile file header.delta_index ds header.index_file_position t)
            ((==_iff end root_at).0 met) tile,
        counts,
      )
