-- ===== src/Set.antt =====
-- src/set.rs: discovery of a backup set, and flattening of its chain. The directory listing and
-- the opening of a file are arguments; `V` is the type of JSON values.
pub mod Owners
pub mod Complete
pub mod Flatten
pub mod Resolve
use Prim.Native.String.{String}
use text.Mathlib.Text.{◌==◌ as str_eq}
use mrimgx_consolidate.Base.{
  ℕ, zero, suc, ◌+◌, ◌-◌, Bool, true, false, ◌&&◌, ◌||◌, not, List, [], ◌∷◌, ◌++◌, Option, none,
  some, map, ltb, leb, ◌==◌, if◌then◌else◌, length, get_elem?, take, replicate, set, Result, ok,
  err, or_err, ensure, ◌>>=◌, ◌>>◌, no_extension, no_members, claimed_twice, set_incomplete,
  no_base, base_is_delta, shape_differs, index_panic,
}
use mrimgx_consolidate.Base.Sets.{contains, insert, extend, lookup}
use mathlib.Core.List.{reverse}
use mrimgx_consolidate.Index.{
  DataBlockIndexElement, default_element, DeltaDataBlock, Blocks, full, delta, is_hole,
}
use mrimgx_consolidate.Json.{Header, owned_file_numbers, is_full_index}
use mrimgx_consolidate.Reader.{FilePath, Partition, Disk, BackupFile}

-- Newest first: in descending order of `file_number`. `owners` maps a file number to the position
-- of the member that holds those bytes.
pub record BackupSet (V : Type 0) : Type 0 where
  pub members : List (BackupFile V)
  pub owners : List (ℕ × ℕ)

-- What `read_dir` says of an entry.
pub record DirEntry : Type 0 where
  pub path : FilePath
  pub is_file : Bool
  pub extension : Option String

-- A resolved set: `disks[d][p]` is the dense block array of one partition.
pub record Flattened : Type 0 where
  pub disks : List (List (List DataBlockIndexElement))

-- `entry.path().extension() != Some(&extension)`
unfoldable pub has_extension : Option String → String → Bool
has_extension none extension = false
has_extension (some e) extension = str_eq e extension

-- The file numbers `base..=newest`, as `count` numbers from `base` on.
unfoldable pub range_from : ℕ → ℕ → List ℕ
range_from zero base = []
range_from (suc count) base = base ∷ range_from count (base + 1)

unfoldable pub range_inclusive : ℕ → ℕ → List ℕ
range_inclusive base newest = range_from (newest + 1 - base) base

abbrev keep_unowned : (ℕ → Bool) → List ℕ → List ℕ
keep_unowned owned [] = []
keep_unowned owned (n ∷ ns) = let rest = keep_unowned owned ns in if owned n then rest else n ∷ rest

-- The numbers that a restore needs and no member claims, in ascending order.
unfoldable pub missing_file_numbers : (ℕ → Bool) → ℕ → ℕ → List ℕ → List ℕ
missing_file_numbers owned base newest referenced =
    keep_unowned owned (extend (extend [] (range_inclusive base newest)) referenced)

-- The file numbers of the entries that are no holes.
unfoldable pub numbers_of : List DataBlockIndexElement → List ℕ
numbers_of [] = []
numbers_of (e ∷ es) = let rest = numbers_of es in if is_hole e then rest else e.file_number ∷ rest

unfoldable pub referenced_blocks : Blocks → List ℕ
referenced_blocks (full v) = numbers_of v
referenced_blocks (delta v) = []

unfoldable pub referenced_partitions : List Partition → List ℕ
referenced_partitions [] = []
referenced_partitions (p ∷ ps) =
    referenced_blocks p.index.blocks ++ (numbers_of p.index.reserved ++ referenced_partitions ps)

unfoldable pub referenced_disks : List Disk → List ℕ
referenced_disks [] = []
referenced_disks (d ∷ ds) = referenced_partitions d.partitions ++ referenced_disks ds

-- `blocks.resize(n, default)`, for an `n` that is not below the length.
abbrev resize : List DataBlockIndexElement → ℕ → List DataBlockIndexElement
resize blocks n = blocks ++ replicate (n - length blocks) default_element

-- One delta: the array grows if it has to, and the entry is written.
unfoldable pub apply_delta :
    List DataBlockIndexElement → DeltaDataBlock → List DataBlockIndexElement
apply_delta blocks d =
    let at = d.block_index in
    let grown = if leb (length blocks) at then resize blocks (at + 1) else blocks in
    set grown at d.element

unfoldable pub apply_deltas :
    List DataBlockIndexElement → List DeltaDataBlock → List DataBlockIndexElement
apply_deltas blocks [] = blocks
apply_deltas blocks (d ∷ ds) = apply_deltas (apply_delta blocks d) ds

-- A member with a full index changes nothing.
unfoldable pub replay_blocks : List DataBlockIndexElement → Blocks → List DataBlockIndexElement
replay_blocks blocks (full v) = blocks
replay_blocks blocks (delta ds) = apply_deltas blocks ds

unfoldable pub seed : Blocks → Result (List DataBlockIndexElement)
seed (full v) = ok v
seed (delta ds) = err base_is_delta

abbrev counts_eq : List ℕ → List ℕ → Bool
counts_eq [] [] = true
counts_eq (a ∷ xs) (b ∷ ys) = a == b && counts_eq xs ys
counts_eq _ _ = false

-- A member claims its numbers, unless one is taken: `i` is the member's position.
unfoldable pub claim : ℕ → List ℕ → List (ℕ × ℕ) → Result (List (ℕ × ℕ))
claim i [] owners = ok owners
claim i (n ∷ ns) owners =
    let rest = claim i ns ((n, i) ∷ owners) in
    elim (lookup n owners) [ none ↦ rest | some other ↦ err claimed_twice ]

-- Whether a file number has an owner.
unfoldable pub owns : List (ℕ × ℕ) → ℕ → Bool
owns owners n = elim (lookup n owners) [ none ↦ false | some i ↦ true ]

module _ {V : Type 0} where
  -- `disks[d].partitions[p]`
  unfoldable pub partition_at : BackupFile V → ℕ → ℕ → Result Partition
  partition_at m d p = do
    disk ← or_err (get_elem? m.disks d) index_panic
    or_err (get_elem? disk.partitions p) index_panic

  -- One member of the chain: a split continuation is left out.
  unfoldable pub replay_member :
      List DataBlockIndexElement → BackupFile V → ℕ → ℕ → Result (List DataBlockIndexElement)
  replay_member blocks m d p =
      if m.header.split_file
      then ok blocks
      else (do part ← partition_at m d p; ok (replay_blocks blocks part.index.blocks))

  -- The members oldest first.
  unfoldable pub replay :
      List (BackupFile V) → List DataBlockIndexElement → ℕ → ℕ → Result (List DataBlockIndexElement)
  replay [] blocks d p = ok blocks
  replay (m ∷ ms) blocks d p = do blocks' ← replay_member blocks m d p; replay ms blocks' d p

  -- One partition: the base's own index, and the members from the base to the newest.
  unfoldable pub flatten_partition :
      BackupFile V → List (BackupFile V) → ℕ → ℕ → Result (List DataBlockIndexElement)
  flatten_partition base chain d p = do
    part ← partition_at base d p
    blocks ← seed part.index.blocks
    replay chain blocks d p

  -- `for p in 0..partition_count`: the rounds left and the next `p`.
  unfoldable pub flatten_partitions :
      BackupFile V → List (BackupFile V) → ℕ → ℕ → ℕ → Result (List (List DataBlockIndexElement))
  flatten_partitions base chain d zero p = ok []
  flatten_partitions base chain d (suc count) p = do
    blocks ← flatten_partition base chain d p
    rest ← flatten_partitions base chain d count (p + 1)
    ok (blocks ∷ rest)

  unfoldable pub flatten_disks :
      BackupFile V
      → List (BackupFile V)
      → List ℕ
      → ℕ
      → Result (List (List (List DataBlockIndexElement)))
  flatten_disks base chain [] d = ok []
  flatten_disks base chain (count ∷ counts) d = do
    partitions ← flatten_partitions base chain d count 0
    rest ← flatten_disks base chain counts (d + 1)
    ok (partitions ∷ rest)

  -- `position(|m| m.header.is_full_index())`
  unfoldable pub position_full : List (BackupFile V) → Option ℕ
  position_full [] = none
  position_full (m ∷ ms) =
      let rest = position_full ms in
      if is_full_index m.header then some 0 else elim rest [ none ↦ none | some i ↦ some (suc i) ]

  unfoldable pub base_index : BackupSet V → Result ℕ
  base_index s = or_err (position_full s.members) no_base

  -- The member with the base index.
  unfoldable pub base : BackupSet V → Result (BackupFile V)
  base s = do b ← base_index s; or_err (get_elem? s.members b) index_panic

  unfoldable pub newest : BackupSet V → Result (BackupFile V)
  newest s = or_err (get_elem? s.members 0) index_panic

  -- The member holding the bytes that a file number names.
  unfoldable pub owner : BackupSet V → ℕ → Option (BackupFile V)
  owner s n = elim (lookup n s.owners) [ none ↦ none | some i ↦ get_elem? s.members i ]

  abbrev pub counts_of : BackupFile V → List ℕ
  counts_of m = map (λ (d : Disk). length d.partitions) m.disks

  unfoldable pub shapes_agree : List (BackupFile V) → List ℕ → Bool
  shapes_agree [] expected = true
  shapes_agree (m ∷ ms) expected =
      (m.header.split_file || counts_eq (counts_of m) expected) && shapes_agree ms expected

  -- The number of partitions on each disk, on which all members agree.
  unfoldable pub shape : BackupSet V → Result (List ℕ)
  unfolding newest
  shape s = do
    first ← newest s
    ensure (shapes_agree s.members (counts_of first)) shape_differs
    ok (counts_of first)

  -- Members `0..=base` in reverse: oldest first.
  unfoldable pub flatten : BackupSet V → Result Flattened
  flatten s = do
    b ← base_index s
    expected ← shape s
    base ← or_err (get_elem? s.members b) index_panic
    disks ← flatten_disks base (reverse (take (b + 1) s.members)) expected 0
    ok (record { disks = disks })

  unfoldable pub check_complete : BackupSet V → Result (Unit {0})
  unfolding newest
  check_complete s = do
    b ← base_index s
    base ← or_err (get_elem? s.members b) index_panic
    first ← newest s
    let missing =
        missing_file_numbers (owns s.owners) base.header.file_number first.header.file_number
          (referenced_disks base.disks)
    elim missing [ [] ↦ ok tt | _ ↦ err set_incomplete ]

  unfoldable pub build_owners : ℕ → List (BackupFile V) → List (ℕ × ℕ) → Result (List (ℕ × ℕ))
  build_owners i [] owners = ok owners
  build_owners i (m ∷ ms) owners = do
    owners' ← claim i (owned_file_numbers m.header) owners
    build_owners (i + 1) ms owners'

  -- `sort_by_key(|m| Reverse(m.header.file_number))`, which is stable.
  unfoldable pub insert_member : BackupFile V → List (BackupFile V) → List (BackupFile V)
  insert_member m [] = m ∷ []
  insert_member m (k ∷ ks) =
      let rest = insert_member m ks in
      if leb k.header.file_number m.header.file_number then m ∷ k ∷ ks else k ∷ rest

  unfoldable pub sort_members : List (BackupFile V) → List (BackupFile V)
  sort_members [] = []
  sort_members (m ∷ ms) = insert_member m (sort_members ms)

  -- The loop over the directory. A file that cannot be read is skipped.
  unfoldable pub collect :
      (FilePath → Bool → Result (BackupFile V))
      → String
      → Header
      → List DirEntry
      → List (BackupFile V)
  collect open_file extension target [] = []
  collect open_file extension target (entry ∷ entries) =
      let rest = collect open_file extension target entries in
      if not entry.is_file || not (has_extension entry.extension extension)
      then rest
      else elim (open_file entry.path false) [
        | err e ↦ rest
        | ok candidate ↦
            if not (str_eq candidate.header.imageid target.imageid)
              || ltb target.increment_number candidate.header.increment_number
            then rest
            else elim (open_file entry.path true) [ err e ↦ rest | ok f ↦ f ∷ rest ]
      ]

  unfoldable pub discover :
      (FilePath → Bool → Result (BackupFile V))
      → Result (List DirEntry)
      → FilePath
      → Option String
      → Result (BackupSet V)
  discover open_file read_dir path extension? = do
    target ← open_file path false
    extension ← or_err extension? no_extension
    entries ← read_dir
    let found = collect open_file extension target.header entries
    ensure (ltb 0 (length found)) no_members
    let members = sort_members found
    owners ← build_owners 0 members []
    let s : BackupSet V = record { members = members; owners = owners }
    check_complete s
    ok s
