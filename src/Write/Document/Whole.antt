-- ===== src/Write/Document/Whole.antt =====
-- `patch_document` (src/write.rs): the whole document of the output, as `Header::from_value`
-- (src/json.rs) reads it.
use Prim.Native.String.{String}
use text.Mathlib.Text.{◌==◌ as str_eq}
use mrimgx_consolidate.Base.{
  ℕ, ◌^◌, ◌<◌, ◌≡◌, ◌∙◌, refl, sym, subst, true, false, ◌||◌, List, [], ◌∷◌, map, All, some, ◌==◌,
  ==_iff, length, ok, or_err, >>=-eq_ok, ensure-eq_ok, or_err-eq_ok, ok-injective, lt→ltb,
  Bool-cases, inl, inr, arith, no_disks_array, no_definition, disk_count_differs, no_owner,
}
use mrimgx_consolidate.Base.Int.{pos}
use mrimgx_consolidate.Base.Bytes.{Bytes}
use mrimgx_consolidate.Base.Sets.{contains}
use mrimgx_consolidate.Json.{
  Documents, Header, and_then, as_object, from_value, owned_file_numbers, canonical,
  check_round_trip,
}
use mrimgx_consolidate.Json.Editing.{Editing}
use mrimgx_consolidate.Json.Numbers.{names, contains-owned_file_numbers}
use mrimgx_consolidate.Reader.{BackupFile}
use mrimgx_consolidate.Set.{BackupSet, owner, base}
use mrimgx_consolidate.Plan.{MergeKind, synthetic_full, incremental_merge, MergePlan}
use mrimgx_consolidate.Write.Document.{
  object_mut, replace, all_but, patch_header, patch_each, patch_disk, patch_partitions,
  patch_definition, patch_auxiliary_data, disk_sizes, set_disk_sizes, patch_disk_sizes,
  patch_sizes_of, patch_document,
}
use mrimgx_consolidate.Write.Document.Header.{header_of, FitsPlan, patch_header-from_value}

names-all_but :
    (number n : ℕ) (ns : List ℕ)
    → All (λ k. k < 2 ^ 16) ns
    → (number == n || names (map pos (all_but number ns)) n) ≡ (number == n || contains ns n)
unfolding all_but contains
names-all_but number n [] fits = refl
names-all_but number n (k ∷ ks) (fit, fits) = elim (Bool-cases (k == number)) [
  | inl same ↦ rw same (ground (arith, names-all_but number n ks fits, same))
  | inr other ↦ rw (other, lt→ltb k (2 ^ 16) fit) (ground (arith, names-all_but number n ks fits))
]

among :
    (number n : ℕ) (ns : List ℕ)
    → contains ns number ≡ true
    → (number == n || contains ns n) ≡ contains ns n
among number n ns own = elim (Bool-cases (number == n)) [
  | inl same ↦ rw (same, ← (==_iff number n).0 same) (sym own)
  | inr other ↦ rw other refl
]

-- The output answers for the absorbed files and for no other.
pub contains-owned_header_of :
    (J : Documents) (E : Editing J) (plan : MergePlan) (index_file_position : ℕ) (h : Header)
    (n : ℕ)
    → All (λ k. k < 2 ^ 16) plan.absorbed
    → contains plan.absorbed plan.out_file_number ≡ true
    → contains (owned_file_numbers (header_of J E plan index_file_position h)) n
      ≡ contains plan.absorbed n
contains-owned_header_of J E plan index_file_position h n fits own =
    contains-owned_file_numbers (header_of J E plan index_file_position h) n
    ∙ (names-all_but plan.out_file_number n plan.absorbed fits
        ∙ among plan.out_file_number n plan.absorbed own)

module _ (J : Documents) (E : Editing J) where
  open J use {Value, get, is_object, as_array}
  open E use {insert, from_str, from_array, insert-IsObject, get-insert}

  -- A change that leaves the `_header` of an object.
  record KeepsHeader (doc doc' : Value) : Type 0 where
    object : is_object doc' ≡ true
    same : get doc' "_header" ≡ get doc "_header"

  insert-KeepsHeader :
      (doc : Value) (k : String) (v : Value)
      → is_object doc ≡ true
      → str_eq k "_header" ≡ false
      → KeepsHeader doc (insert doc k v)
  insert-KeepsHeader doc k v object other = record {
    object = insert-IsObject doc k v object;
    same = get-insert doc k "_header" v object ∙ rw other refl;
  }

  patch_partitions-KeepsHeader :
      (plan : MergePlan) (output_name : String) (doc doc' : Value)
      → is_object doc ≡ true
      → patch_partitions J E doc plan output_name ≡ ok doc'
      → KeepsHeader doc doc'
  unfolding patch_partitions
  patch_partitions-KeepsHeader plan output_name doc doc' object h =
      let (disks, e, h1) =
        >>=-eq_ok (or_err (and_then (get doc "disks") as_array) no_disks_array) _ h in
      let (disks', e', h2) =
        >>=-eq_ok (patch_each J E (patch_disk J E plan output_name) disks) _ h1 in
      subst (KeepsHeader doc) (ok-injective h2)
        (insert-KeepsHeader doc "disks" (from_array disks') object refl)

  patch_auxiliary_data-KeepsHeader :
      (plan : MergePlan) (output_name : String) (doc doc' : Value)
      → is_object doc ≡ true
      → patch_auxiliary_data J E doc plan output_name ≡ ok doc'
      → KeepsHeader doc doc'
  unfolding patch_auxiliary_data
  patch_auxiliary_data-KeepsHeader plan output_name doc doc' object h =
      let (aux, e, h1) = >>=-eq_ok (object_mut J E doc "_auxiliary_data") _ h in
      let changed = replace J E aux "destination" (from_str output_name) in
      let (definition, e', h2) =
        >>=-eq_ok (or_err (and_then (get changed "backup_definition") (as_object J)) no_definition)
          _ h1 in
      subst (KeepsHeader doc) (ok-injective h2) (
        insert-KeepsHeader doc "_auxiliary_data"
          (insert changed "backup_definition" (patch_definition J E plan output_name definition))
          object refl)

  patch_disk_sizes-KeepsHeader :
      (doc base_doc doc' : Value)
      → is_object doc ≡ true
      → patch_disk_sizes J E doc base_doc ≡ ok doc'
      → KeepsHeader doc doc'
  unfolding patch_disk_sizes
  patch_disk_sizes-KeepsHeader doc base_doc doc' object h =
      let (base_disks, e, h1) =
        >>=-eq_ok (or_err (and_then (get base_doc "disks") as_array) no_disks_array) _ h in
      let (sizes, e1, h2) = >>=-eq_ok (disk_sizes J E base_disks) _ h1 in
      let (disks, e2, h3) =
        >>=-eq_ok (or_err (and_then (get doc "disks") as_array) no_disks_array) _ h2 in
      let (as_many, h4) = ensure-eq_ok (length disks == length sizes) disk_count_differs _ h3 in
      let (disks', e3, h5) = >>=-eq_ok (set_disk_sizes J E disks sizes) _ h4 in
      subst (KeepsHeader doc) (ok-injective h5)
        (insert-KeepsHeader doc "disks" (from_array disks') object refl)

  patch_sizes_of-KeepsHeader :
      (kind : MergeKind) (s : BackupSet Value) (doc doc' : Value)
      → is_object doc ≡ true
      → patch_sizes_of J E kind s doc ≡ ok doc'
      → KeepsHeader doc doc'
  unfolding patch_sizes_of
  patch_sizes_of-KeepsHeader synthetic_full s doc doc' object h =
      let (full_file, e, h1) = >>=-eq_ok (base s) _ h in
      patch_disk_sizes-KeepsHeader doc full_file.json doc' object h1
  patch_sizes_of-KeepsHeader incremental_merge s doc doc' object h =
      subst (KeepsHeader doc) (ok-injective h) (record { object = object; same = refl })

  from_value-get :
      (doc doc' : Value)
      → get doc' "_header" ≡ get doc "_header"
      → from_value J doc' ≡ from_value J doc
  unfolding from_value
  from_value-get doc doc' e = rw e refl

  patch_header-IsObject :
      (plan : MergePlan) (index_file_position : ℕ) (doc doc' : Value)
      → is_object doc ≡ true
      → patch_header J E doc plan index_file_position ≡ ok doc'
      → is_object doc' ≡ true
  unfolding patch_header
  patch_header-IsObject plan index_file_position doc doc' object h =
      let (o, e, h1) = >>=-eq_ok (object_mut J E doc "_header") _ h in
      subst (λ q. is_object q ≡ true) (ok-injective h1) (insert-IsObject doc "_header" _ object)

  -- The documents between the changes.
  pub record IsPatched (s : BackupSet Value) (plan : MergePlan) (index_file_position : ℕ)
      (output_name : String) (to : BackupFile Value) (bytes : Bytes) : Type 0 where
    pub doc1 : Value
    pub doc2 : Value
    pub doc3 : Value
    pub doc4 : Value
    pub header : patch_header J E to.json plan index_file_position ≡ ok doc1
    pub partitions : patch_partitions J E doc1 plan output_name ≡ ok doc2
    pub auxiliary : patch_auxiliary_data J E doc2 plan output_name ≡ ok doc3
    pub sizes : patch_sizes_of J E plan.kind s doc3 ≡ ok doc4
    pub printed : canonical J doc4 ≡ ok bytes

  pub patch_document-IsPatched :
      (s : BackupSet Value) (plan : MergePlan) (index_file_position : ℕ) (output_name : String)
      (to : BackupFile Value) (bytes : Bytes)
      → owner s plan.to ≡ some to
      → patch_document J E s plan index_file_position output_name ≡ ok bytes
      → IsPatched s plan index_file_position output_name to bytes
  unfolding patch_document
  patch_document-IsPatched s plan index_file_position output_name to bytes found h =
      let (m, e, h0) = >>=-eq_ok (or_err (owner s plan.to) no_owner) _ h in
      let same : m ≡ to = cc (or_err-eq_ok (owner s plan.to) no_owner e, found) in
      let (u, gate, h1) = >>=-eq_ok (check_round_trip J m.json m.json_raw) _ h0 in
      let (doc1, e1, h2) = >>=-eq_ok (patch_header J E m.json plan index_file_position) _ h1 in
      let (doc2, e2, h3) = >>=-eq_ok (patch_partitions J E doc1 plan output_name) _ h2 in
      let (doc3, e3, h4) = >>=-eq_ok (patch_auxiliary_data J E doc2 plan output_name) _ h3 in
      let (doc4, e4, h5) = >>=-eq_ok (patch_sizes_of J E plan.kind s doc3) _ h4 in
      record {
        doc1 = doc1;
        doc2 = doc2;
        doc3 = doc3;
        doc4 = doc4;
        header =
            subst
              (λ (q : BackupFile Value). patch_header J E q.json plan index_file_position ≡ ok doc1)
              same e1;
        partitions = e2;
        auxiliary = e3;
        sizes = e4;
        printed = h5;
      }

  pub IsPatched-from_value :
      (s : BackupSet Value) (plan : MergePlan) (index_file_position : ℕ) (output_name : String)
      (to : BackupFile Value) (bytes : Bytes)
      → is_object to.json ≡ true
      → from_value J to.json ≡ ok to.header
      → FitsPlan J E plan index_file_position
      → (d : IsPatched s plan index_file_position output_name to bytes)
      → (is_object d.doc4 ≡ true)
        × (from_value J d.doc4 ≡ ok (header_of J E plan index_file_position to.header))
  IsPatched-from_value s plan index_file_position output_name to bytes object parsed fits d =
      let object1 = patch_header-IsObject plan index_file_position to.json d.doc1 object d.header in
      let k2 = patch_partitions-KeepsHeader plan output_name d.doc1 d.doc2 object1 d.partitions in
      let k3 =
        patch_auxiliary_data-KeepsHeader plan output_name d.doc2 d.doc3 k2.object d.auxiliary in
      let k4 = patch_sizes_of-KeepsHeader plan.kind s d.doc3 d.doc4 k3.object d.sizes in
      (
        k4.object,
        from_value-get d.doc1 d.doc4 (k4.same ∙ (k3.same ∙ k2.same))
            ∙ patch_header-from_value J E plan index_file_position to.json d.doc1 to.header fits
                object parsed d.header,
      )

  -- The document that is written for a plan is the canonical form of one whose header is that of
  -- the output, if the To file's document is an object with a header.
  pub patch_document-from_value :
      (s : BackupSet Value) (plan : MergePlan) (index_file_position : ℕ) (output_name : String)
      (to : BackupFile Value) (bytes : Bytes)
      → owner s plan.to ≡ some to
      → is_object to.json ≡ true
      → from_value J to.json ≡ ok to.header
      → FitsPlan J E plan index_file_position
      → patch_document J E s plan index_file_position output_name ≡ ok bytes
      → (doc : Value) × (canonical J doc ≡ ok bytes)
        × (is_object doc ≡ true)
        × (from_value J doc ≡ ok (header_of J E plan index_file_position to.header))
  patch_document-from_value s plan index_file_position output_name to bytes found object parsed fits
        h =
      let d = patch_document-IsPatched s plan index_file_position output_name to bytes found h in
      let (object4, header) =
        IsPatched-from_value s plan index_file_position output_name to bytes object parsed fits d in
      (d.doc4, d.printed, object4, header)
