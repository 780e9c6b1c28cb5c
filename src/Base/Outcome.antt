-- ===== src/Base/Outcome.antt =====
-- `anyhow::Result`: a value or an error. An error is named after the `ensure!`, `bail!` or
-- `context` that makes it; the texts that `with_context` puts in front are left out.
use mathlib.Core.Path.{◌≡◌, refl}
use mathlib.Core.Bool.{Bool, true, false}
use mathlib.Core.Logic.{◌⊎◌, inl, inr}
use mathlib.Core.Option.{Option, none, some}
use mrimgx_consolidate.Base.Tests.{if◌then◌else◌}

pub data Error : Type 0 where
  -- block
  header_too_short too_short_for_footer bad_magic list_too_long short_read : Error
  payload_too_large hash_mismatch encrypted_block decompress_failed : Error
  -- a loop ran out of its fuel, which no run of the program does
  out_of_fuel : Error
  -- index
  element_too_short delta_too_short count_missing array_overflow array_too_long : Error
  trailing_bytes : Error
  -- json
  not_an_object no_header_object missing_string missing_number number_too_wide : Error
  merged_files_not_array merged_files_not_integers : Error
  imageid_not_hex round_trip_differs canonical_failed json_syntax : Error
  -- reader
  no_json_block json_encrypted no_disks_array no_partitions_array : Error
  index_region_too_high no_index_block index_not_plain walk_drifted framing_drifted : Error
  -- an index past the end of a vector: the program would panic
  index_panic slice_panic : Error
  -- set
  no_extension no_members claimed_twice set_incomplete no_base base_is_delta shape_differs : Error
  no_partition : Error
  -- plan
  other_set from_newer from_differential to_differential same_file no_such_member : Error
  not_newest settings_differ split_in_range differential_in_range : Error
  -- write
  no_handle negative_position wrong_length offset_overflow positions_differ parts_differ : Error
  partition_count_differs partition_order_differs no_owner no_object no_definition : Error
  no_disk_size disk_count_differs output_number output_kind still_absorbed past_region : Error
  -- crypto, verify
  unknown_aes_type not_whole_blocks bad_key_length bad_cipher no_such_disk : Error
  no_own_block : Error
  -- commit
  measure_failed cut_failed loop_ended write_cut_short flush_failed rename_failed file_too_large
        no_space :
      Error

-- `anyhow::Result`: a refusal, or what the function computes.
pub data Result {ℓ} (A : Type ℓ) : Type ℓ where
  err : Error → Result A
  ok : A → Result A

-- The operator `?`: what is left of the body runs only if there was no refusal.
module _ {ℓ κ} {A : Type ℓ} {B : Type κ} where
  infixl 5 ◌>>=◌
  abbrev pub ◌>>=◌ : Result A → (A → Result B) → Result B
  err refusal >>= body = err refusal
  ok value >>= body = body value

-- After a check, which has no value.
module _ {ℓ} {B : Type ℓ} where
  infixl 5 ◌>>◌
  abbrev pub ◌>>◌ : Result (Unit {0}) → Result B → Result B
  check >> body = check >>= λ _. body

-- `ensure!(test, …)`
abbrev pub ensure : Bool → Error → Result (Unit {0})
ensure test refusal = if test then ok tt else err refusal

-- `option.context(…)?`
abbrev pub or_err {ℓ} : {A : Type ℓ} → Option A → Error → Result A
or_err none e = err e
or_err (some a) e = ok a

module _ {ℓ κ} {A : Type ℓ} {B : Type κ} where
  -- A chain that succeeds: the value that its first step gave, and how the rest went on.
  pub >>=-eq_ok :
      (first : Result A) (body : A → Result B) {final : B}
      → (first >>= body) ≡ ok final
      → (value : A) × (first ≡ ok value) × (body value ≡ ok final)
  >>=-eq_ok (err refusal) body whole = cc
  >>=-eq_ok (ok value) body whole = (value, refl, whole)

pub >>=-ok {ℓ} : {A : Type ℓ} (m : Result A) → (m >>= λ a. ok a) ≡ m
>>=-ok (ok a) = refl
>>=-ok (err e) = refl

pub >>=_assoc {ℓ κ ι} :
    {A : Type ℓ} {B : Type κ} {C : Type ι} (m : Result A) (f : A → Result B) (g : B → Result C)
    → ((m >>= f) >>= g) ≡ (m >>= λ a. f a >>= g)
>>=_assoc (ok a) f g = refl
>>=_assoc (err e) f g = refl

pub ensure-eq_ok {ℓ} :
    {B : Type ℓ} (t : Bool) (e : Error) (k : Result B) {b : B}
    → (ensure t e >> k) ≡ ok b
    → (t ≡ true) × (k ≡ ok b)
ensure-eq_ok true e k h = (refl, h)
ensure-eq_ok false e k h = cc

pub or_err-eq_ok {ℓ} :
    {A : Type ℓ} (o : Option A) (e : Error) {a : A} → or_err o e ≡ ok a → o ≡ some a
or_err-eq_ok none e h = cc
or_err-eq_ok (some a) e h = cc

pub ok-injective {ℓ} : {A : Type ℓ} {a b : A} → ok a ≡ ok b → a ≡ b
ok-injective h = cc h

module _ {ℓ} {A : Type ℓ} where
  pub Result-cases :
      (r : Result A) → ((value : A) × (r ≡ ok value)) ⊎ ((refusal : Error) × (r ≡ err refusal))
  Result-cases (err refusal) = inr (refusal, refl)
  Result-cases (ok value) = inl (value, refl)
