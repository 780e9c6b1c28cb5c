-- ===== src/Json/Fits.antt =====
-- `Header::from_value` (src/json.rs): the numbers that it gives.
use Prim.Native.String.{String}
use mrimgx_consolidate.Base.{
  ℕ, ◌^◌, ◌<◌, ◌≡◌, ◌∙◌, ◌⊎◌, inl, inr, sym, ap, subst, List, [], ◌∷◌, All, All-append, Option,
  none, some, ltb, ltb→lt, Bool-cases, Option-cases, inl, inr, ok, or_err, >>=-eq_ok, or_err-eq_ok,
  ok-injective, no_header_object, missing_number, number_too_wide, merged_files_not_array,
  merged_files_not_integers,
}
use mrimgx_consolidate.Base.Int.{ℤ, pos, negsuc}
use mrimgx_consolidate.Base.Sets.{contains}
use mrimgx_consolidate.Json.{
  Documents, Header, u16_of_int, u16_of, push_owned, owned_loop, owned_file_numbers, and_then,
  as_object, string, u64_field, integers, merged_files_of, merged_files, from_value,
}

u16_of-some : (n m : ℕ) → u16_of n ≡ some m → (n ≡ m) × (m < 2 ^ 16)
unfolding u16_of
u16_of-some n m h = elim (Bool-cases (ltb n (2 ^ 16))) [
  | inl small ↦
      let same : some n ≡ some m = rw small at h in
      let e : n ≡ m = cc same in (e, subst (λ k. k < 2 ^ 16) e (ltb→lt n (2 ^ 16) small))
  | inr wide ↦ absurd (cc (rw wide at h))
]

Narrow : List ℕ → Type 0
Narrow = All (λ n. n < 2 ^ 16)

push_owned-Narrow : (out : List ℕ) (z : ℤ) → Narrow out → Narrow (push_owned out (u16_of_int z))
unfolding Narrow push_owned u16_of_int
push_owned-Narrow out (negsuc n) h = h
push_owned-Narrow out (pos n) h = elim (Bool-cases (ltb n (2 ^ 16))) [
  | inr wide ↦ rw wide h
  | inl small ↦ elim (Bool-cases (contains out n)) [
    | inl there ↦ rw (small, there) h
    | inr new ↦
        rw (small, new) (All-append (λ k. k < 2 ^ 16) out (n ∷ []) h (ltb→lt n (2 ^ 16) small, tt))
  ]
]

owned_loop-Narrow : (zs : List ℤ) (out : List ℕ) → Narrow out → Narrow (owned_loop zs out)
unfolding owned_loop
owned_loop-Narrow [] out h = h
owned_loop-Narrow (z ∷ zs) out h =
    owned_loop-Narrow zs (push_owned out (u16_of_int z)) (push_owned-Narrow out z h)

module _ (J : Documents) where
  open J use {Value, get, is_object, as_u64, as_i64, as_array}

  -- A field that is a number, and a field that is an array of integers or is absent.
  abbrev pub States : Value → String → ℕ → Type 0
  States fields key n = (v : Value) × (get fields key ≡ some v) × (as_u64 v ≡ some n)

  abbrev pub AreIntegers : List Value → List ℤ → Type 0
  AreIntegers [] [] = Unit
  AreIntegers (v ∷ vs) (z ∷ zs) = (as_i64 v ≡ some z) × AreIntegers vs zs
  AreIntegers _ _ = ⊥

  abbrev pub StatesIntegers : Value → String → List ℤ → Type 0
  StatesIntegers fields key zs =
      ((get fields key ≡ none) × (zs ≡ []))
      ⊎ ((v : Value) × (vs : List Value) × (get fields key ≡ some v)
          × (as_array v ≡ some vs)
          × AreIntegers vs zs)

  -- The numbers of a header, as its document states them, unchanged and in their widths.
  pub record HasNumbers (value : Value) (h : Header) : Type 0 where
    pub fields : Value
    pub at : get value "_header" ≡ some fields
    pub file_number : States fields "file_number" h.file_number
    pub increment_number : States fields "increment_number" h.increment_number
    pub position : States fields "index_file_position" h.index_file_position
    pub merged : StatesIntegers fields "merged_files" h.merged_files
    pub number_fits : h.file_number < 2 ^ 16
    pub increment_fits : h.increment_number < 2 ^ 16
    pub owned_fit : All (λ n. n < 2 ^ 16) (owned_file_numbers h)

  u64_field-States :
      (fields : Value) (key : String) (n : ℕ) → u64_field J fields key ≡ ok n → States fields key n
  unfolding u64_field and_then
  u64_field-States fields key n e =
      let found = or_err-eq_ok (and_then (get fields key) as_u64) missing_number e in
      elim (Option-cases (get fields key)) [
        | inl absent ↦ absurd (cc (rw absent at found))
        | inr (v, here) ↦ (v, here, rw here at found)
      ]

  integers-AreIntegers : (vs : List Value) (zs : List ℤ) → integers J vs ≡ ok zs → AreIntegers vs zs
  unfolding integers
  integers-AreIntegers [] zs h = subst (AreIntegers []) (ok-injective h) tt
  integers-AreIntegers (v ∷ vs) zs h =
      let (z, here, h1) = >>=-eq_ok (or_err (as_i64 v) merged_files_not_integers) _ h in
      let (rest, later, h2) = >>=-eq_ok (integers J vs) _ h1 in
      subst (AreIntegers (v ∷ vs)) (ok-injective h2)
        (or_err-eq_ok (as_i64 v) merged_files_not_integers here, integers-AreIntegers vs rest later)

  merged_files-StatesIntegers :
      (fields : Value) (zs : List ℤ)
      → merged_files J fields ≡ ok zs
      → StatesIntegers fields "merged_files" zs
  unfolding merged_files merged_files_of
  merged_files-StatesIntegers fields zs h = elim (Option-cases (get fields "merged_files")) [
    | inl absent ↦
        inl (absent, sym (ok-injective (rw (merged_files, absent, merged_files_of) at h)))
    | inr (v, here) ↦
        let (vs, array, h1) =
          >>=-eq_ok (or_err (as_array v) merged_files_not_array) _
            (rw (merged_files, here, merged_files_of) at h) in
        inr (
          v,
          vs,
          here,
          or_err-eq_ok (as_array v) merged_files_not_array array,
          integers-AreIntegers vs zs h1,
        )
  ]

  as_object-eq_some :
      (o : Option Value) (v : Value) → and_then o (as_object J) ≡ some v → o ≡ some v
  unfolding and_then as_object
  as_object-eq_some none v h = absurd (cc h)
  as_object-eq_some (some x) v h = elim (Bool-cases (is_object x)) [
    | inl object ↦ rw object at h
    | inr other ↦ absurd (cc (rw other at h))
  ]

  -- The header that is read from a document has the numbers that the document states, unchanged:
  -- a file number or an increment number that 16 bits do not hold is refused and never wraps. Every
  -- number that the file owns has 16 bits.
  pub from_value-HasNumbers :
      (value : Value) (h : Header) → from_value J value ≡ ok h → HasNumbers value h
  unfolding from_value owned_file_numbers Narrow
  from_value-HasNumbers value h e =
      let (o, e0, e1) =
        >>=-eq_ok (or_err (and_then (get value "_header") (as_object J)) no_header_object) _ e in
      let (imageid, e_imageid, e2) = >>=-eq_ok (string J o "imageid") _ e1 in
      let (n, e_n, e3) = >>=-eq_ok (u64_field J o "file_number") _ e2 in
      let (number, narrow, e4) = >>=-eq_ok (or_err (u16_of n) number_too_wide) _ e3 in
      let (m, e_m, e5) = >>=-eq_ok (u64_field J o "increment_number") _ e4 in
      let (increment, narrow', e6) = >>=-eq_ok (or_err (u16_of m) number_too_wide) _ e5 in
      let (merged, e_merged, e7) = >>=-eq_ok (merged_files J o) _ e6 in
      let (position, e_position, e8) = >>=-eq_ok (u64_field J o "index_file_position") _ e7 in
      let same = ok-injective e8 in
      let (keeps, fits) = u16_of-some n number (or_err-eq_ok (u16_of n) number_too_wide narrow) in
      let (keeps', fits') =
        u16_of-some m increment (or_err-eq_ok (u16_of m) number_too_wide narrow') in
      subst (HasNumbers value) same (record {
        fields = o;
        at =
            as_object-eq_some (get value "_header") o
              (or_err-eq_ok (and_then (get value "_header") (as_object J)) no_header_object e0);
        file_number = u64_field-States o "file_number" number (e_n ∙ ap ok keeps);
        increment_number = u64_field-States o "increment_number" increment (e_m ∙ ap ok keeps');
        position = u64_field-States o "index_file_position" position e_position;
        merged = merged_files-StatesIntegers o merged e_merged;
        number_fits = fits;
        increment_fits = fits';
        owned_fit = owned_loop-Narrow merged (number ∷ []) (fits, tt);
      })
