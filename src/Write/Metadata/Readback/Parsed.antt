-- ===== src/Write/Metadata/Readback/Parsed.antt =====
-- What `BackupFile::parse` (src/reader.rs) reads first, and what it reads behind it.
use mrimgx_consolidate.Base.{
  ℕ, suc, ◌≡◌, ◌∙◌, refl, sym, ap, subst, Bool, List, [], ◌∷◌, ◌++◌, append-nil, length,
  length-append, All, ok, >>=-eq_ok, ok-injective, arith,
}
use mrimgx_consolidate.Base.Bytes.{Bytes}
use mrimgx_consolidate.Block.{walk_list}
use mrimgx_consolidate.Index.{PartitionIndex}
use mrimgx_consolidate.Reader.{Partition, Disk, parse_partition, parse_partitions, parse_disks}
use mrimgx_consolidate.Write.{WrittenPartition}
use mrimgx_consolidate.Write.Metadata.{partition_total}

abbrev pub written_indexes : List WrittenPartition → List PartitionIndex
written_indexes [] = []
written_indexes (w ∷ ws) = w.index ∷ written_indexes ws

abbrev pub partition_indexes : List Partition → List PartitionIndex
partition_indexes [] = []
partition_indexes (p ∷ ps) = p.index ∷ partition_indexes ps

abbrev pub disk_indexes : List Disk → List PartitionIndex
disk_indexes [] = []
disk_indexes (d ∷ ds) = partition_indexes d.partitions ++ disk_indexes ds

abbrev pub counts : List Disk → List ℕ
counts [] = []
counts (d ∷ ds) = length d.partitions ∷ counts ds

pub written_indexes-append :
    (ws vs : List WrittenPartition)
    → written_indexes (ws ++ vs) ≡ written_indexes ws ++ written_indexes vs
written_indexes-append [] vs = refl
written_indexes-append (w ∷ ws) vs = ap (λ l. w.index ∷ l) (written_indexes-append ws vs)

pub All-behind :
    (P : WrittenPartition → Type 0) (ws vs : List WrittenPartition) → All P (ws ++ vs) → All P vs
All-behind P [] vs h = h
All-behind P (w ∷ ws) vs (h, hs) = All-behind P ws vs hs

-- What is read first, and what is read behind it.
pub parse_partitions-cons :
    (file : Bytes) (delta_index : Bool) (n at : ℕ) (part : Partition) (parts : List Partition)
    (end : ℕ)
    → parse_partitions file delta_index (suc n) at ≡ ok (part ∷ parts, end)
    → (parse_partition file delta_index at ≡ ok part)
      × (parse_partitions file delta_index n part.blocks.end ≡ ok (parts, end))
unfolding parse_partitions
parse_partitions-cons file delta_index n at part parts end h =
    let (part', now, h1) = >>=-eq_ok (parse_partition file delta_index at) _ h in
    let ((parts', end'), later, h2) =
      >>=-eq_ok (parse_partitions file delta_index n part'.blocks.end) _ h1 in
    let e = ok-injective h2 in
    let same : part' ≡ part = cc (ap (λ (x : List Partition × ℕ). x.0) e) in
    let sames : parts' ≡ parts = cc (ap (λ (x : List Partition × ℕ). x.0) e) in
    let ends : end' ≡ end = ap (λ (x : List Partition × ℕ). x.1) e in
    (
      now ∙ ap ok same,
      subst (λ (q : Partition). parse_partitions file delta_index n q.blocks.end ≡ ok (parts, end))
          same (later ∙ cc (sames, ends)),
    )

pub parse_disks-cons :
    (file : Bytes) (delta_index : Bool) (n at : ℕ) (ns : List ℕ) (disk : Disk) (disks : List Disk)
    (end : ℕ)
    → parse_disks file delta_index (n ∷ ns) at ≡ ok (disk ∷ disks, end)
    → (middle : ℕ) × (walk_list file at ≡ ok disk.blocks)
      × (parse_partitions file delta_index n disk.blocks.end ≡ ok (disk.partitions, middle))
      × (parse_disks file delta_index ns middle ≡ ok (disks, end))
unfolding parse_disks
parse_disks-cons file delta_index n at ns disk disks end h =
    let (blocks, walked, h1) = >>=-eq_ok (walk_list file at) _ h in
    let ((parts, middle), read, h2) =
      >>=-eq_ok (parse_partitions file delta_index n blocks.end) _ h1 in
    let ((disks', end'), later, h3) = >>=-eq_ok (parse_disks file delta_index ns middle) _ h2 in
    let e = ok-injective h3 in
    let this : record { blocks = blocks; partitions = parts } ≡ disk =
      cc (ap (λ (x : List Disk × ℕ). x.0) e) in
    let sames : disks' ≡ disks = cc (ap (λ (x : List Disk × ℕ). x.0) e) in
    let ends : end' ≡ end = ap (λ (x : List Disk × ℕ). x.1) e in
    (
      middle,
      walked ∙ ap (λ (q : Disk). ok q.blocks) this,
      subst
          (λ (q : Disk).
            parse_partitions file delta_index n q.blocks.end ≡ ok (q.partitions, middle))
          this read,
      later ∙ cc (sames, ends),
    )

length-written_indexes : (ws : List WrittenPartition) → length (written_indexes ws) ≡ length ws
length-written_indexes [] = refl
length-written_indexes (w ∷ ws) = ap suc (length-written_indexes ws)

length-partition_indexes : (ps : List Partition) → length (partition_indexes ps) ≡ length ps
length-partition_indexes [] = refl
length-partition_indexes (p ∷ ps) = ap suc (length-partition_indexes ps)

length-disk_indexes : (ds : List Disk) → length (disk_indexes ds) ≡ partition_total ds
length-disk_indexes [] = refl
length-disk_indexes (d ∷ ds) =
    length-append (partition_indexes d.partitions) (disk_indexes ds)
    ∙ cc (length-partition_indexes d.partitions, length-disk_indexes ds)

-- Disks with as many partitions each have as many in all.
partition_total-counts :
    (ds es : List Disk) → counts ds ≡ counts es → partition_total ds ≡ partition_total es
partition_total-counts [] [] e = refl
partition_total-counts [] (x ∷ es) e = cc e
partition_total-counts (d ∷ ds) [] e = cc e
partition_total-counts (d ∷ ds) (x ∷ es) e =
    let same : length d.partitions ≡ length x.partitions = cc e in
    let rest : counts ds ≡ counts es = cc e in cc (same, partition_total-counts ds es rest)

length-nil : (l : List WrittenPartition) → length l ≡ 0 → l ≡ []
length-nil [] e = refl
length-nil (w ∷ ws) e = cc e

-- Written partitions that are read again from disks with as many partitions are all of them.
pub none_left :
    (disks disks' : List Disk) (ws written next : List WrittenPartition)
    → length ws ≡ partition_total disks
    → counts disks' ≡ counts disks
    → disk_indexes disks' ≡ written_indexes written
    → ws ≡ written ++ next
    → written ≡ ws
none_left disks disks' ws written next size same indexes used =
    let many : length written ≡ partition_total disks =
      sym (length-written_indexes written)
      ∙ (ap length (sym indexes)
          ∙ (length-disk_indexes disks' ∙ partition_total-counts disks' disks same)) in
    let none : length next ≡ 0 =
      omega (arith, many, size, ap length used, length-append written next) in
    sym (used ∙ (ap (λ l. written ++ l) (length-nil next none) ∙ append-nil written))
