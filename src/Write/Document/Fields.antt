-- ===== src/Write/Document/Fields.antt =====
-- Objects that are changed key by key, and the members of `_header` that `Header::from_value`
-- (src/json.rs) reads.
use Prim.Native.String.{String}
use text.Mathlib.Text.{◌==◌ as str_eq}
use mrimgx_consolidate.Base.{
  ℕ, ◌≡◌, ◌∙◌, refl, sym, ap, subst, true, false, List, [], ◌∷◌, Option, some, if◌then◌else◌, ok,
  or_err, >>=-eq_ok, or_err-eq_ok, ok-injective, Bool-cases, Option-cases, inl, inr, no_object,
  no_header_object, number_too_wide,
}
use mrimgx_consolidate.Json.{
  Documents, Header, and_then, unwrap_or, as_object, u16_of, string, u64_field, merged_files,
  from_value,
}
use mrimgx_consolidate.Json.Editing.{Editing}
use mrimgx_consolidate.Write.Document.{object_mut, has_key, replace}

module _ (J : Documents) (E : Editing J) where
  open J use {Value, get, is_object, as_str, as_u64, as_i64, as_bool, as_array}
  open E use {
    insert, from_u64, from_bool, from_str, from_array, insert-IsObject, get-insert, as_u64-from_u64,
    as_i64-from_u64, as_bool-from_bool, as_str-from_str, as_array-from_array,
  }

  -- Several insertions, the first one first, and what a key has after them.
  abbrev pub inserts : Value → List (String × Value) → Value
  inserts o [] = o
  inserts o ((k, v) ∷ l) = inserts (insert o k v) l

  abbrev pub found : List (String × Value) → String → Option Value → Option Value
  found [] j d = d
  found ((k, v) ∷ l) j d = found l j (if str_eq k j then some v else d)

  pub inserts-IsObject :
      (o : Value) (l : List (String × Value)) → is_object o ≡ true → is_object (inserts o l) ≡ true
  inserts-IsObject o [] h = h
  inserts-IsObject o ((k, v) ∷ l) h = inserts-IsObject (insert o k v) l (insert-IsObject o k v h)

  pub get-inserts :
      (o : Value) (l : List (String × Value)) (j : String)
      → is_object o ≡ true
      → get (inserts o l) j ≡ found l j (get o j)
  get-inserts o [] j h = refl
  get-inserts o ((k, v) ∷ l) j h =
      get-inserts (insert o k v) l j (insert-IsObject o k v h)
      ∙ ap (found l j) (get-insert o k j v h)

  pub replace-IsObject :
      (o : Value) (k : String) (v : Value)
      → is_object o ≡ true
      → is_object (replace J E o k v) ≡ true
  unfolding replace
  replace-IsObject o k v h = elim (Bool-cases (has_key J E o k)) [
    | inl here ↦ rw here (insert-IsObject o k v h)
    | inr absent ↦ rw absent h
  ]

  pub get-replace_other :
      (o : Value) (k j : String) (v : Value)
      → is_object o ≡ true
      → str_eq k j ≡ false
      → get (replace J E o k v) j ≡ get o j
  unfolding replace
  get-replace_other o k j v h other = elim (Bool-cases (has_key J E o k)) [
    | inl here ↦ rw here (get-insert o k j v h ∙ rw other refl)
    | inr absent ↦ rw absent refl
  ]

  -- The members of the header object that `from_value` reads.
  pub record IsHeaderObject (o : Value) (h : Header) : Type 0 where
    pub object : is_object o ≡ true
    pub imageid : string J o "imageid" ≡ ok h.imageid
    pub number : (n : ℕ) × (u64_field J o "file_number" ≡ ok n) × (u16_of n ≡ some h.file_number)
    pub increment :
        (n : ℕ) × (u64_field J o "increment_number" ≡ ok n) × (u16_of n ≡ some h.increment_number)
    pub merged : merged_files J o ≡ ok h.merged_files
    pub position : u64_field J o "index_file_position" ≡ ok h.index_file_position
    pub split : unwrap_or (and_then (get o "split_file") as_bool) false ≡ h.split_file
    pub index_kind : unwrap_or (and_then (get o "delta_index") as_bool) true ≡ h.delta_index
    pub backup_type : unwrap_or (and_then (get o "backup_type") as_str) "full" ≡ h.backup_type

  as_object-IsObject : (v : Value) → is_object v ≡ true → as_object J v ≡ some v
  unfolding as_object
  as_object-IsObject v h = rw h refl

  IsObject-as_object : (v o : Value) → as_object J v ≡ some o → (v ≡ o) × (is_object v ≡ true)
  unfolding as_object
  IsObject-as_object v o h = elim (Bool-cases (is_object v)) [
    | inl object ↦ (cc (rw object at h), object)
    | inr other ↦ absurd (cc (rw other at h))
  ]

  pub object_mut-get :
      (doc : Value) (key : String) (o : Value)
      → object_mut J E doc key ≡ ok o
      → (get doc key ≡ some o) × (is_object o ≡ true)
  unfolding object_mut and_then
  object_mut-get doc key o h =
      let e = or_err-eq_ok (and_then (get doc key) (as_object J)) no_object h in
      elim (Option-cases (get doc key)) [
        | inl absent ↦ absurd (cc (rw absent at e))
        | inr (v, here) ↦
            let (same, object) = IsObject-as_object v o (rw here at e) in
            (here ∙ ap some same, subst (λ q. is_object q ≡ true) same object)
      ]

  pub from_value-IsHeaderObject :
      (doc o : Value) (h : Header)
      → get doc "_header" ≡ some o
      → from_value J doc ≡ ok h
      → IsHeaderObject o h
  unfolding from_value and_then
  from_value-IsHeaderObject doc o h here e =
      let (q, found_here, e1) =
        >>=-eq_ok (or_err (and_then (get doc "_header") (as_object J)) no_header_object) _ e in
      let (same, object) = IsObject-as_object o q (
        rw here at (
          or_err-eq_ok (and_then (get doc "_header") (as_object J)) no_header_object found_here)) in
      let (imageid, e_imageid, e2) = >>=-eq_ok (string J q "imageid") _ e1 in
      let (n, e_n, e3) = >>=-eq_ok (u64_field J q "file_number") _ e2 in
      let (number, narrow, e4) = >>=-eq_ok (or_err (u16_of n) number_too_wide) _ e3 in
      let (m, e_m, e5) = >>=-eq_ok (u64_field J q "increment_number") _ e4 in
      let (increment, narrow', e6) = >>=-eq_ok (or_err (u16_of m) number_too_wide) _ e5 in
      let (merged, e_merged, e7) = >>=-eq_ok (merged_files J q) _ e6 in
      let (position, e_position, e8) = >>=-eq_ok (u64_field J q "index_file_position") _ e7 in
      subst (IsHeaderObject o) (ok-injective e8) (
        subst
          (λ x. IsHeaderObject o (record {
            imageid = imageid;
            file_number = number;
            increment_number = increment;
            merged_files = merged;
            split_file = unwrap_or (and_then (get x "split_file") as_bool) false;
            index_file_position = position;
            delta_index = unwrap_or (and_then (get x "delta_index") as_bool) true;
            backup_type = unwrap_or (and_then (get x "backup_type") as_str) "full";
          }))
          same
          (record {
            object = object;
            imageid = subst (λ x. string J x "imageid" ≡ ok imageid) (sym same) e_imageid;
            number = (
              n,
              subst (λ x. u64_field J x "file_number" ≡ ok n) (sym same) e_n,
              or_err-eq_ok (u16_of n) number_too_wide narrow,
            );
            increment = (
              m,
              subst (λ x. u64_field J x "increment_number" ≡ ok m) (sym same) e_m,
              or_err-eq_ok (u16_of m) number_too_wide narrow',
            );
            merged = subst (λ x. merged_files J x ≡ ok merged) (sym same) e_merged;
            position =
                subst (λ x. u64_field J x "index_file_position" ≡ ok position) (sym same)
                  e_position;
            split = refl;
            index_kind = refl;
            backup_type = refl;
          }))

  pub IsHeaderObject-from_value :
      (doc o : Value) (h : Header)
      → get doc "_header" ≡ some o
      → IsHeaderObject o h
      → from_value J doc ≡ ok h
  unfolding from_value and_then
  IsHeaderObject-from_value doc o h here r =
      let (n, number, narrow) = r.number in
      let (m, increment, narrow') = r.increment in
      rw here (
        rw (as_object-IsObject o r.object) (
          rw
            (
              r.imageid, number, narrow, increment, narrow', r.merged, r.position, r.split,
              r.index_kind, r.backup_type,
            )
            refl))
