-- ===== src/Plan/Rules.antt =====
-- src/plan.rs: the rules that a merge has to satisfy.
use Prim.Native.String.{String}
use text.Mathlib.Text.{◌==◌ as str_eq}
use mrimgx_consolidate.Base.{
  ℕ, Bool, true, false, ◌&&◌, not, List, [], ◌∷◌, Option, none, some, leb, ltb, ◌==◌, if◌then◌else◌,
  Result, ok, err, or_err, ensure, ◌>>◌, other_set, from_newer, from_differential, to_differential,
  same_file, no_such_member, settings_differ, split_in_range as split_error, differential_in_range,
}
use mrimgx_consolidate.Json.{Documents, Header, is_full_index, is_differential}
use mrimgx_consolidate.Reader.{BackupFile, FilePath}
use mrimgx_consolidate.Set.{BackupSet}

abbrev is_empty : List FilePath → Bool
is_empty [] = true
is_empty (p ∷ ps) = false

-- `iter().find(|m| m.header.file_number == number)`
unfoldable pub find_member : {V : Type 0} → List (BackupFile V) → ℕ → Option (BackupFile V)
find_member [] number = none
find_member (m ∷ ms) number =
    if m.header.file_number == number then some m else find_member ms number

unfoldable pub member_with_number : {V : Type 0} → BackupSet V → ℕ → Result (BackupFile V)
member_with_number s number = or_err (find_member s.members number) no_such_member

-- The rules that look only at the two files.
unfoldable pub check_pair : {V : Type 0} → BackupFile V → BackupFile V → Result (Unit {0})
check_pair from to = do
  ensure (str_eq from.header.imageid to.header.imageid) other_set
  ensure (leb from.header.increment_number to.header.increment_number) from_newer
  ensure (not (is_differential from.header)) from_differential
  ensure (not (is_differential to.header)) to_differential
  ensure (not (from.header.file_number == to.header.file_number)) same_file

abbrev pub in_increments : ℕ → ℕ → Header → Bool
in_increments low high h = leb low h.increment_number && leb h.increment_number high

-- The split continuation files inside the increment range.
unfoldable pub split_in_range : {V : Type 0} → List (BackupFile V) → ℕ → ℕ → List FilePath
split_in_range [] low high = []
split_in_range (m ∷ ms) low high =
    let rest = split_in_range ms low high in
    if m.header.split_file && in_increments low high m.header then m.path ∷ rest else rest

-- The file numbers of the members inside the range that carry a full index.
unfoldable pub full_numbers : {V : Type 0} → List (BackupFile V) → ℕ → ℕ → List ℕ
full_numbers [] low high = []
full_numbers (m ∷ ms) low high =
    let rest = full_numbers ms low high in
    if is_full_index m.header && in_increments low high m.header
    then m.header.file_number ∷ rest
    else rest

-- `.min()`
unfoldable pub minimum : List ℕ → Option ℕ
minimum [] = none
minimum (n ∷ ns) = elim (minimum ns) [ none ↦ some n | some m ↦ some (if ltb m n then m else n) ]

unfoldable pub full_index_in_range : {V : Type 0} → List (BackupFile V) → ℕ → ℕ → Option ℕ
full_index_in_range ms low high = minimum (full_numbers ms low high)

module _ (J : Documents) where
  open J use {Value, get, null, value_eq}

  -- The value at a path of keys, or null.
  unfoldable pub pick : List String → Value → Value
  pick [] doc = doc
  pick (key ∷ keys) doc = elim (get doc key) [ none ↦ null | some v ↦ pick keys v ]

  abbrev same_at : Value → Value → List String → Bool
  unfolding pick
  same_at member reference path = value_eq (pick path member) (pick path reference)

  -- Whether two documents agree on how their data blocks are stored.
  unfoldable pub settings_match : Value → Value → Result (Unit {0})
  unfolding same_at
  settings_match member reference = do
    ensure
        (same_at member reference ("_compression" ∷ "compression_level" ∷ [])
          && same_at member reference ("_compression" ∷ "compression_method" ∷ []))
        settings_differ
    ensure
        (same_at member reference ("_encryption" ∷ "enable" ∷ [])
          && (same_at member reference ("_encryption" ∷ "aes_type" ∷ [])
              && same_at member reference ("_encryption" ∷ "key_iterations" ∷ [])))
        settings_differ

  unfoldable pub all_settings_match : List (BackupFile Value) → Value → Result (Unit {0})
  all_settings_match [] reference = ok tt
  all_settings_match (m ∷ ms) reference = do
    settings_match m.json reference
    all_settings_match ms reference

  -- A range that holds a full index is refused, unless the From file is a Full itself.
  unfoldable pub check_full_index : List (BackupFile Value) → Header → ℕ → ℕ → Result (Unit {0})
  check_full_index ms from low high =
      if is_full_index from then ok tt else elim (full_index_in_range ms low high) [
        | none ↦ ok tt
        | some inside ↦ err differential_in_range
      ]

  unfoldable pub check_rules :
      BackupSet Value → BackupFile Value → BackupFile Value → Result (Unit {0})
  check_rules s from to = do
    let low = from.header.increment_number
    let high = to.header.increment_number
    check_pair from to
    all_settings_match s.members to.json
    ensure (is_empty (split_in_range s.members low high)) split_error
    check_full_index s.members from.header low high
