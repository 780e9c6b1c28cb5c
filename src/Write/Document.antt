-- ===== src/Write/Document.antt =====
-- src/write.rs: the `$JSON` document of the output, which is the To file's with changes.
pub mod Paths
pub mod Fields
pub mod Header
pub mod Whole
pub mod Shape
pub mod Kept
use Prim.Native.String.{String}
use mrimgx_consolidate.Base.{
  ℕ, zero, suc, ◌+◌, Bool, true, false, ◌||◌, not, List, [], ◌∷◌, ◌++◌, Option, none, some, map,
  leb, ◌==◌, if◌then◌else◌, length, Result, ok, err, or_err, ensure, ◌>>=◌, ◌>>◌, no_object,
  no_disks_array, no_partitions_array, no_definition, no_disk_size, disk_count_differs, no_owner,
}
use mrimgx_consolidate.Base.Bytes.{Bytes}
use mrimgx_consolidate.Base.Sets.{contains}
use mrimgx_consolidate.Json.{
  Documents, and_then, unwrap_or, as_object, u16_of, check_round_trip, canonical,
}
use mrimgx_consolidate.Json.Editing.{Editing}
use mrimgx_consolidate.Reader.{BackupFile}
use mrimgx_consolidate.Set.{BackupSet, owner, base}
use mrimgx_consolidate.Write.Document.Paths.{bare_name}
use mrimgx_consolidate.Plan.{
  MergeKind, synthetic_full, incremental_merge, delta_index, consolidation_type, MergePlan,
  redundant_file_numbers,
}

-- `.filter(|n| *n != number)`
unfoldable pub all_but : ℕ → List ℕ → List ℕ
all_but number [] = []
all_but number (n ∷ ns) = let rest = all_but number ns in if n == number then rest else n ∷ rest

module _ (J : Documents) (E : Editing J) where
  open J use {Value, get, is_object, as_str, as_u64, as_array}
  open E use {empty_object, insert, from_u64, from_bool, from_str, from_array}

  unfoldable pub object_mut : Value → String → Result Value
  object_mut value key = or_err (and_then (get value key) (as_object J)) no_object

  abbrev pub has_key : Value → String → Bool
  has_key value key = elim (get value key) [ none ↦ false | some v ↦ true ]

  -- `if header.contains_key(key) { header.insert(key, value) }`
  unfoldable pub replace : Value → String → Value → Value
  replace o key v = if has_key o key then insert o key v else o

  -- `From<Vec<u16>>`: an array of numbers.
  abbrev pub from_numbers : List ℕ → Value
  from_numbers ns = from_array (map from_u64 ns)

  -- The keys of `_header` that every merge sets, and those that depend on the document or the kind.
  unfoldable pub header_values : MergePlan → ℕ → Value → Value
  header_values plan index_file_position header =
      let merged = all_but plan.out_file_number (redundant_file_numbers plan) in
      let h1 = insert header "file_number" (from_u64 plan.out_file_number) in
      let h2 = insert h1 "increment_number" (from_u64 plan.out_increment_number) in
      let h3 = insert h2 "merged_files" (from_numbers merged) in
      let h4 = insert h3 "index_file_position" (from_u64 index_file_position) in
      let h5 = insert h4 "delta_index" (from_bool (delta_index plan.kind)) in
      let h6 = insert h5 "split_file" (from_bool false) in replace h6 "netbios_name" (from_str "")

  unfoldable pub set_backup_type : MergeKind → Value → Value
  set_backup_type synthetic_full header = insert header "backup_type" (from_str "full")
  set_backup_type incremental_merge header = header

  unfoldable pub patch_header : Value → MergePlan → ℕ → Result Value
  patch_header doc plan index_file_position = do
    header ← object_mut doc "_header"
    ok (
        insert doc "_header"
          (set_backup_type plan.kind (header_values plan index_file_position header)))

  -- The file that an entry of a history names.
  unfoldable pub history_number : Value → Option ℕ
  history_number entry = and_then (and_then (get entry "file_number") as_u64) u16_of

  unfoldable pub survives : List ℕ → Value → Bool
  survives absorbed entry = elim (history_number entry) [
    | none ↦ false
    | some n ↦ not (contains absorbed n)
  ]

  unfoldable pub retain : List ℕ → List Value → List Value
  retain absorbed [] = []
  retain absorbed (entry ∷ entries) =
      let rest = retain absorbed entries in if survives absorbed entry then entry ∷ rest else rest

  -- An entry with the directory removed.
  unfoldable pub strip_entry : Value → Value
  strip_entry entry =
      let recorded = unwrap_or (and_then (get entry "file_name") as_str) "" in
      if is_object entry then insert entry "file_name" (from_str (bare_name recorded)) else entry

  abbrev pub sort_key : Value → ℕ
  sort_key entry = unwrap_or (and_then (get entry "file_number") as_u64) 0

  -- `sort_by_key`, which keeps the order of equal keys.
  unfoldable pub insert_sorted : Value → List Value → List Value
  insert_sorted entry [] = entry ∷ []
  insert_sorted entry (other ∷ others) =
      let rest = insert_sorted entry others in
      if leb (sort_key entry) (sort_key other) then entry ∷ other ∷ others else other ∷ rest

  unfoldable pub sort_by_key : List Value → List Value
  sort_by_key [] = []
  sort_by_key (entry ∷ entries) = insert_sorted entry (sort_by_key entries)

  abbrev pub output_entry : MergePlan → String → Value
  output_entry plan output_name =
      insert (insert empty_object "file_name" (from_str output_name)) "file_number"
        (from_u64 plan.out_file_number)

  unfoldable pub new_history : MergePlan → String → List Value → List Value
  new_history plan output_name history =
      sort_by_key
        (map strip_entry (retain plan.absorbed history) ++ (output_entry plan output_name ∷ []))

  unfoldable pub patch_partition : MergePlan → String → Value → Result Value
  patch_partition plan output_name part = do
    header ← object_mut part "_header"
    elim (and_then (get header "file_history") as_array) [
      | none ↦ ok part
      | some history ↦
          let history' = new_history plan output_name history in
          ok (
            insert part "_header" (
              insert (insert header "file_history" (from_array history')) "file_history_count"
                (from_u64 (length history'))))
    ]

  unfoldable pub patch_each : (Value → Result Value) → List Value → Result (List Value)
  patch_each change [] = ok []
  patch_each change (v ∷ vs) = do v' ← change v; vs' ← patch_each change vs; ok (v' ∷ vs')

  unfoldable pub patch_disk : MergePlan → String → Value → Result Value
  patch_disk plan output_name disk = do
    partitions ← or_err (and_then (get disk "partitions") as_array) no_partitions_array
    partitions' ← patch_each (patch_partition plan output_name) partitions
    ok (insert disk "partitions" (from_array partitions'))

  unfoldable pub patch_partitions : Value → MergePlan → String → Result Value
  patch_partitions doc plan output_name = do
    disks ← or_err (and_then (get doc "disks") as_array) no_disks_array
    disks' ← patch_each (patch_disk plan output_name) disks
    ok (insert doc "disks" (from_array disks'))

  -- The backup definition.
  unfoldable pub patch_definition : MergePlan → String → Value → Value
  patch_definition plan output_name definition =
      let d1 = insert definition "consolidation_type" (from_str (consolidation_type plan.kind)) in
      let d2 = replace d1 "filename" (from_str output_name) in
      elim (and_then (get d2 "backup_definition_file") as_str) [
        | none ↦ d2
        | some path ↦ insert d2 "backup_definition_file" (from_str (bare_name path))
      ]

  unfoldable pub patch_auxiliary_data : Value → MergePlan → String → Result Value
  patch_auxiliary_data doc plan output_name = do
    found ← object_mut doc "_auxiliary_data"
    let aux = replace found "destination" (from_str output_name)
    definition ← or_err (and_then (get aux "backup_definition") (as_object J)) no_definition
    ok (
        insert doc "_auxiliary_data"
          (insert aux "backup_definition" (patch_definition plan output_name definition)))

  -- The sizes that the base's document records.
  unfoldable pub disk_sizes : List Value → Result (List Value)
  disk_sizes [] = ok []
  disk_sizes (disk ∷ disks) = do
    size ← or_err (and_then (get disk "_geometry") (λ g. get g "disk_size")) no_disk_size
    sizes ← disk_sizes disks
    ok (size ∷ sizes)

  unfoldable pub set_disk_size : Value → Value → Result Value
  set_disk_size disk size = do
    geometry ← object_mut disk "_geometry"
    ok (insert disk "_geometry" (insert geometry "disk_size" size))

  -- `zip` ends with the shorter list.
  unfoldable pub set_disk_sizes : List Value → List Value → Result (List Value)
  set_disk_sizes [] sizes = ok []
  set_disk_sizes (disk ∷ disks) [] = ok (disk ∷ disks)
  set_disk_sizes (disk ∷ disks) (size ∷ sizes) = do
    disk' ← set_disk_size disk size
    disks' ← set_disk_sizes disks sizes
    ok (disk' ∷ disks')

  unfoldable pub patch_disk_sizes : Value → Value → Result Value
  patch_disk_sizes doc base_doc = do
    base_disks ← or_err (and_then (get base_doc "disks") as_array) no_disks_array
    sizes ← disk_sizes base_disks
    disks ← or_err (and_then (get doc "disks") as_array) no_disks_array
    ensure (length disks == length sizes) disk_count_differs
    disks' ← set_disk_sizes disks sizes
    ok (insert doc "disks" (from_array disks'))

  unfoldable pub patch_sizes_of : MergeKind → BackupSet Value → Value → Result Value
  patch_sizes_of synthetic_full s doc = do full_file ← base s; patch_disk_sizes doc full_file.json
  patch_sizes_of incremental_merge s doc = ok doc

  unfoldable pub patch_document : BackupSet Value → MergePlan → ℕ → String → Result Bytes
  patch_document s plan index_file_position output_name = do
    to ← or_err (owner s plan.to) no_owner
    check_round_trip J to.json to.json_raw
    doc1 ← patch_header to.json plan index_file_position
    doc2 ← patch_partitions doc1 plan output_name
    doc3 ← patch_auxiliary_data doc2 plan output_name
    doc4 ← patch_sizes_of plan.kind s doc3
    canonical J doc4
