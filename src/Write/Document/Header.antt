-- ===== src/Write/Document/Header.antt =====
-- `patch_header` (src/write.rs), as `Header::from_value` (src/json.rs) reads it.
use Prim.Native.String.{String}
use text.Mathlib.Text.{◌==◌ as str_eq}
use mrimgx_consolidate.Base.{
  ℕ, ◌^◌, ◌<◌, ◌≡◌, ◌∙◌, refl, subst, true, false, List, [], ◌∷◌, map, All, some, ◌==◌, ok,
  >>=-eq_ok, ok-injective, lt→ltb, Bool-cases, inl, inr, arith,
}
use mrimgx_consolidate.Base.Int.{pos}
use mrimgx_consolidate.Json.{
  Documents, Header, and_then, unwrap_or, u16_of, string, u64_field, merged_files, merged_files_of,
  integers, from_value,
}
use mrimgx_consolidate.Json.Editing.{Editing}
use mrimgx_consolidate.Plan.{MergeKind, synthetic_full, incremental_merge, delta_index, MergePlan}
use mrimgx_consolidate.Write.Document.{
  object_mut, from_numbers, header_values, set_backup_type, patch_header, all_but,
}
use mrimgx_consolidate.Write.Document.Fields.{
  inserts-IsObject, get-inserts, replace-IsObject, get-replace_other, IsHeaderObject-from_value,
  from_value-IsHeaderObject, object_mut-get, inserts, found, IsHeaderObject,
}

module _ (J : Documents) (E : Editing J) where
  open J use {Value, get, is_object, as_str, as_u64, as_i64, as_bool, as_array}
  open E use {
    insert, from_u64, from_bool, from_str, from_array, insert-IsObject, get-insert, as_u64-from_u64,
    as_i64-from_u64, as_bool-from_bool, as_str-from_str, as_array-from_array,
  }

  u16_of-fits : (n : ℕ) → n < 2 ^ 16 → u16_of n ≡ some n
  unfolding u16_of
  u16_of-fits n fits = rw (lt→ltb n (2 ^ 16) fits) refl

  integers-from_numbers :
      (ns : List ℕ) → All (λ n. n < 2 ^ 16) ns → integers J (map from_u64 ns) ≡ ok (map pos ns)
  unfolding integers
  integers-from_numbers [] fit = refl
  integers-from_numbers (n ∷ ns) (fit, fits) =
      rw (as_i64-from_u64 n (omega arith)) (rw (integers-from_numbers ns fits) refl)

  All-all_but : (P : ℕ → Type 0) (n : ℕ) (ns : List ℕ) → All P ns → All P (all_but n ns)
  unfolding all_but
  All-all_but P n [] all = tt
  All-all_but P n (m ∷ ms) (now, all) = elim (Bool-cases (m == n)) [
    | inl same ↦ rw same (All-all_but P n ms all)
    | inr other ↦ rw other (now, All-all_but P n ms all)
  ]

  -- The type that the output's header records.
  abbrev pub type_of : MergeKind → String → String
  type_of synthetic_full before = "full"
  type_of incremental_merge before = before

  -- The header of the output, from that of the To file.
  abbrev pub header_of : MergePlan → ℕ → Header → Header
  header_of plan index_file_position h = record {
    imageid = h.imageid;
    file_number = plan.out_file_number;
    increment_number = plan.out_increment_number;
    merged_files = map pos (all_but plan.out_file_number plan.absorbed);
    split_file = false;
    index_file_position = index_file_position;
    delta_index = delta_index plan.kind;
    backup_type = type_of plan.kind h.backup_type;
  }

  abbrev every_key : MergePlan → ℕ → List (String × Value)
  every_key plan index_file_position =
      ("file_number", from_u64 plan.out_file_number)
      ∷ ("increment_number", from_u64 plan.out_increment_number)
      ∷ ("merged_files", from_numbers J E (all_but plan.out_file_number plan.absorbed))
      ∷ ("index_file_position", from_u64 index_file_position)
      ∷ ("delta_index", from_bool (delta_index plan.kind))
      ∷ ("split_file", from_bool false)
      ∷ []

  module _ (plan : MergePlan) (index_file_position : ℕ) (o : Value)
      (object : is_object o ≡ true) where
    header_values-IsObject : is_object (header_values J E plan index_file_position o) ≡ true
    unfolding header_values
    header_values-IsObject =
        replace-IsObject J E (inserts J E o (every_key plan index_file_position)) "netbios_name"
          (from_str "") (inserts-IsObject J E o (every_key plan index_file_position) object)

    get-header_values :
        (j : String)
        → str_eq "netbios_name" j ≡ false
        → get (header_values J E plan index_file_position o) j
          ≡ found J E (every_key plan index_file_position) j (get o j)
    unfolding header_values
    get-header_values j other =
        get-replace_other J E (inserts J E o (every_key plan index_file_position)) "netbios_name" j
          (from_str "") (inserts-IsObject J E o (every_key plan index_file_position) object) other
        ∙ get-inserts J E o (every_key plan index_file_position) j object

  set_backup_type-IsObject :
      (kind : MergeKind) (o : Value)
      → is_object o ≡ true
      → is_object (set_backup_type J E kind o) ≡ true
  unfolding set_backup_type
  set_backup_type-IsObject synthetic_full o h = insert-IsObject o "backup_type" (from_str "full") h
  set_backup_type-IsObject incremental_merge o h = h

  get-set_backup_type :
      (kind : MergeKind) (o : Value) (j : String)
      → is_object o ≡ true
      → str_eq "backup_type" j ≡ false
      → get (set_backup_type J E kind o) j ≡ get o j
  unfolding set_backup_type
  get-set_backup_type synthetic_full o j h other =
      get-insert o "backup_type" j (from_str "full") h ∙ rw other refl
  get-set_backup_type incremental_merge o j h other = refl

  backup_type-set_backup_type :
      (kind : MergeKind) (o : Value) (before : String)
      → is_object o ≡ true
      → unwrap_or (and_then (get o "backup_type") as_str) "full" ≡ before
      → unwrap_or (and_then (get (set_backup_type J E kind o) "backup_type") as_str) "full"
        ≡ type_of kind before
  unfolding set_backup_type and_then unwrap_or
  backup_type-set_backup_type synthetic_full o before h e =
      rw (get-insert o "backup_type" "backup_type" (from_str "full") h)
        (rw (as_str-from_str "full") refl)
  backup_type-set_backup_type incremental_merge o before h e = e

  pub record FitsPlan (plan : MergePlan) (index_file_position : ℕ) : Type 0 where
    pub number_fits : plan.out_file_number < 2 ^ 16
    pub increment_fits : plan.out_increment_number < 2 ^ 16
    pub absorbed_fit : All (λ n. n < 2 ^ 16) plan.absorbed
    pub position_fits : index_file_position < 2 ^ 64

  patched-IsHeaderObject :
      (plan : MergePlan) (index_file_position : ℕ) (o : Value) (h : Header)
      → FitsPlan plan index_file_position
      → IsHeaderObject J E o h
      → IsHeaderObject J E
          (set_backup_type J E plan.kind (header_values J E plan index_file_position o))
          (header_of plan index_file_position h)
  unfolding string u64_field merged_files merged_files_of and_then unwrap_or
  patched-IsHeaderObject plan index_file_position o h fits r =
      let mid = header_values J E plan index_file_position o in
      let object = header_values-IsObject plan index_file_position o r.object in
      let at : (j : String)
          → str_eq "backup_type" j ≡ false
          → str_eq "netbios_name" j ≡ false
          → get (set_backup_type J E plan.kind mid) j
            ≡ found J E (every_key plan index_file_position) j (get o j) =
        λ j one two.
          get-set_backup_type plan.kind mid j object one
          ∙ get-header_values plan index_file_position o r.object j two in
      record {
        object = set_backup_type-IsObject plan.kind mid object;
        imageid = rw (at "imageid" refl refl) r.imageid;
        number = (
          plan.out_file_number,
          rw (at "file_number" refl refl)
              (rw (as_u64-from_u64 plan.out_file_number (omega (arith, fits.number_fits))) refl),
          u16_of-fits plan.out_file_number fits.number_fits,
        );
        increment = (
          plan.out_increment_number,
          rw (at "increment_number" refl refl) (
              rw (as_u64-from_u64 plan.out_increment_number (omega (arith, fits.increment_fits)))
                refl),
          u16_of-fits plan.out_increment_number fits.increment_fits,
        );
        merged = rw (at "merged_files" refl refl) (
            rw (as_array-from_array (map from_u64 (all_but plan.out_file_number plan.absorbed))) (
              integers-from_numbers (all_but plan.out_file_number plan.absorbed) (
                All-all_but (λ n. n < 2 ^ 16) plan.out_file_number plan.absorbed
                  fits.absorbed_fit)));
        position =
            rw (at "index_file_position" refl refl)
              (rw (as_u64-from_u64 index_file_position fits.position_fits) refl);
        split = rw (at "split_file" refl refl) (rw (as_bool-from_bool false) refl);
        index_kind =
            rw (at "delta_index" refl refl) (rw (as_bool-from_bool (delta_index plan.kind)) refl);
        backup_type = backup_type-set_backup_type plan.kind mid h.backup_type object (
            rw (get-header_values plan index_file_position o r.object "backup_type" refl)
              r.backup_type);
      }

  -- The patched header is read as that of the output: its number and increment number, the other
  -- absorbed numbers as the merged files, the given position, one file, and the index of the kind
  -- of merge. A synthetic Full becomes a full backup; all else is as it was in the To file.
  pub patch_header-from_value :
      (plan : MergePlan) (index_file_position : ℕ) (doc doc' : Value) (h : Header)
      → FitsPlan plan index_file_position
      → is_object doc ≡ true
      → from_value J doc ≡ ok h
      → patch_header J E doc plan index_file_position ≡ ok doc'
      → from_value J doc' ≡ ok (header_of plan index_file_position h)
  unfolding patch_header
  patch_header-from_value plan index_file_position doc doc' h fits object parsed e =
      let (o, e_o, e1) = >>=-eq_ok (object_mut J E doc "_header") _ e in
      let (here, o_object) = object_mut-get J E doc "_header" o e_o in
      let o' = set_backup_type J E plan.kind (header_values J E plan index_file_position o) in
      IsHeaderObject-from_value J E doc' o' (header_of plan index_file_position h)
        (subst (λ q. get q "_header" ≡ some o') (ok-injective e1)
          (get-insert doc "_header" "_header" o' object))
        (patched-IsHeaderObject plan index_file_position o h fits
          (from_value-IsHeaderObject J E doc o h here parsed))
