-- ===== src/Json.antt =====
-- src/json.rs: the `_header` fields of the `$JSON` document. The parser, the printer and the type
-- of values belong to serde_json, which is not part of the repository: they are the parameter
-- `Documents`.
pub mod Numbers
pub mod Editing
pub mod Fits
use Prim.Native.String.{String}
use text.Mathlib.Text.{◌==◌ as str_eq}
use mrimgx_consolidate.Base.{
  ℕ, zero, suc, ◌^◌, ◌<◌, ◌≡◌, ◌↔◌, Bool, true, false, ◌&&◌, not, List, [], ◌∷◌, ◌++◌, Option, none,
  some, ltb, if◌then◌else◌, Result, ok, err, or_err, ensure, ◌>>=◌, ◌>>◌, no_header_object,
  missing_string, missing_number, number_too_wide, merged_files_not_array,
  merged_files_not_integers, not_an_object, round_trip_differs,
}
use mrimgx_consolidate.Base.Int.{ℤ, pos, negsuc, IsI64}
use mrimgx_consolidate.Base.Bytes.{Bytes, bytes_eq}
use mrimgx_consolidate.Base.Sets.{contains}

-- What the program uses of serde_json: `from_slice`, the pretty printer, `Value::get` with a key,
-- the `as_…` views and `==`.
pub record Documents : Type 1 where
  pub Value : Type 0
  pub null : Value
  pub from_slice : Bytes → Result Value
  pub pretty : Value → Result Bytes
  pub get : Value → String → Option Value
  pub is_object : Value → Bool
  pub as_str : Value → Option String
  pub as_u64 : Value → Option ℕ
  pub as_i64 : Value → Option ℤ
  pub as_bool : Value → Option Bool
  pub as_array : Value → Option (List Value)
  pub value_eq : Value → Value → Bool

pub record Header : Type 0 where
  pub imageid : String
  pub file_number : ℕ
  pub increment_number : ℕ
  pub merged_files : List ℤ
  pub split_file : Bool
  pub index_file_position : ℕ
  pub delta_index : Bool
  pub backup_type : String

-- `u16::try_from`, of an `i64` and of a `u64`.
unfoldable pub u16_of_int : ℤ → Option ℕ
u16_of_int (pos n) = if ltb n (2 ^ 16) then some n else none
u16_of_int (negsuc n) = none

unfoldable pub u16_of : ℕ → Option ℕ
u16_of n = if ltb n (2 ^ 16) then some n else none

abbrev pub is_full_index : Header → Bool
is_full_index h = not h.delta_index && not h.split_file

abbrev pub is_differential : Header → Bool
is_differential h = str_eq h.backup_type "diff"

-- One round of the loop: a number that fits 16 bits and is not yet there is pushed.
unfoldable pub push_owned : List ℕ → Option ℕ → List ℕ
push_owned out none = out
push_owned out (some n) = if contains out n then out else out ++ (n ∷ [])

unfoldable pub owned_loop : List ℤ → List ℕ → List ℕ
owned_loop [] out = out
owned_loop (z ∷ zs) out = owned_loop zs (push_owned out (u16_of_int z))

unfoldable pub owned_file_numbers : Header → List ℕ
owned_file_numbers h = owned_loop h.merged_files (h.file_number ∷ [])

-- `.and_then(…)`
unfoldable pub and_then : {A B : Type 0} → Option A → (A → Option B) → Option B
and_then none f = none
and_then (some a) f = f a

unfoldable pub unwrap_or : {A : Type 0} → Option A → A → A
unwrap_or none d = d
unwrap_or (some a) d = a

module _ (J : Documents) where
  open J use {Value, from_slice, pretty, get, is_object, as_str, as_u64, as_i64, as_bool, as_array}

  unfoldable pub parse : Bytes → Result Value
  parse raw = do value ← from_slice raw; ensure (is_object value) not_an_object; ok value

  -- The pretty printer with four spaces, and a newline.
  unfoldable pub canonical : Value → Result Bytes
  canonical value = do out ← pretty value; ok (out ++ (10 ∷ []))

  unfoldable pub check_round_trip : Value → Bytes → Result (Unit {0})
  check_round_trip value original = do
    again ← canonical value
    ensure (bytes_eq again original) round_trip_differs

  unfoldable pub as_object : Value → Option Value
  as_object v = if is_object v then some v else none

  unfoldable pub string : Value → String → Result String
  string h key = or_err (and_then (get h key) as_str) missing_string

  unfoldable pub u64_field : Value → String → Result ℕ
  u64_field h key = or_err (and_then (get h key) as_u64) missing_number

  unfoldable pub integers : List Value → Result (List ℤ)
  integers [] = ok []
  integers (v ∷ vs) =
      let rest = integers vs in
      do z ← or_err (as_i64 v) merged_files_not_integers; zs ← rest; ok (z ∷ zs)

  unfoldable pub merged_files_of : Option Value → Result (List ℤ)
  merged_files_of none = ok []
  merged_files_of (some v) = do vs ← or_err (as_array v) merged_files_not_array; integers vs

  unfoldable pub merged_files : Value → Result (List ℤ)
  merged_files h = merged_files_of (get h "merged_files")

  unfoldable pub from_value : Value → Result Header
  from_value value = do
    h ← or_err (and_then (get value "_header") as_object) no_header_object
    imageid ← string h "imageid"
    n ← u64_field h "file_number"
    file_number ← or_err (u16_of n) number_too_wide
    i ← u64_field h "increment_number"
    increment_number ← or_err (u16_of i) number_too_wide
    merged ← merged_files h
    index_file_position ← u64_field h "index_file_position"
    ok (record {
      imageid = imageid;
      file_number = file_number;
      increment_number = increment_number;
      merged_files = merged;
      split_file = unwrap_or (and_then (get h "split_file") as_bool) false;
      index_file_position = index_file_position;
      delta_index = unwrap_or (and_then (get h "delta_index") as_bool) true;
      backup_type = unwrap_or (and_then (get h "backup_type") as_str) "full";
    })
