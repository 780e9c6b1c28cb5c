-- ===== src/Commit.antt =====
-- src/commit.rs: the size and space limits of the destination, and the commit of a temporary
-- output. The operating system is the parameter `Os`; the pauses between attempts and the texts of
-- errors are left out.
pub mod Rename
pub mod Atomic
use Prim.Native.String.{String}
use text.Mathlib.Text.{◌==◌ as str_eq}
use Prim.Native.Nat.{min}
use mrimgx_consolidate.Base.{
  ℕ, zero, suc, ◌+◌, ◌-◌, ◌*◌, ◌^◌, ◌≤◌, ◌≡◌, ◌≢◌, ◌⊎◌, Bool, true, false, ◌&&◌, ◌||◌, not, Option,
  none, some, leb, ltb, if◌then◌else◌, length, take, Result, ok, err, ensure, ◌>>=◌, ◌>>◌, ◌==◌,
  file_too_large, no_space, measure_failed, cut_failed, write_cut_short, flush_failed,
  rename_failed, loop_ended,
}
use mrimgx_consolidate.Base.Bytes.{Bytes}

-- The kinds of `std::io::Error` that the source tells apart.
pub data ErrorKind : Type 0 where
  permission_denied resource_busy interrupted unsupported invalid_input other_kind : ErrorKind

pub data Mount : Type 0 where
  local : String → Mount
  remote : String → Mount
  unknown : Mount

-- An unknown type counts as remote.
abbrev pub is_remote : Mount → Bool
is_remote (local file_system) = false
is_remote _ = true

-- A file of four gibibytes less one byte, and sixteen mebibytes.
abbrev pub fat32_limit : ℕ
fat32_limit = 4 * 1024 * 1024 * 1024 - 1

abbrev pub space_margin : ℕ
space_margin = 16 * 1024 * 1024

abbrev is_fat : String → Bool
is_fat file_system = str_eq file_system "vfat" || str_eq file_system "msdos"

abbrev limit_on : String → ℕ → Result (Unit {0})
limit_on file_system size =
    if not (is_fat file_system) then ok tt else ensure (leb size fat32_limit) file_too_large

unfoldable pub check_file_size_limit : Mount → ℕ → Result (Unit {0})
check_file_size_limit (local file_system) size = limit_on file_system size
check_file_size_limit (remote file_system) size = limit_on file_system size
check_file_size_limit unknown size = ok tt

-- `saturating_add` on 64 bits; `free` is what the file system says of the directory.
unfoldable pub check_free_space : Result ℕ → ℕ → Result ℕ
check_free_space free needed = do
  available ← free
  ensure (leb (min (needed + space_margin) (2 ^ 64 - 1)) available) no_space
  ok available

pub record Commit : Type 0 where
  pub flush_downgraded : Bool
  pub rename_retries : ℕ
  pub rename_error_was_wrong : Bool

-- `Commit::default()`
abbrev pub no_report : Commit
no_report = record { flush_downgraded = false; rename_retries = 0; rename_error_was_wrong = false }

abbrev pub present : Option Bytes → Bool
present none = false
present (some b) = true

abbrev pub is_unsupported : ErrorKind → Bool
is_unsupported unsupported = true
is_unsupported invalid_input = true
is_unsupported _ = false

abbrev pub worth_retrying : ErrorKind → Bool
worth_retrying permission_denied = true
worth_retrying resource_busy = true
worth_retrying interrupted = true
worth_retrying _ = false

-- What the commit asks of the operating system: a call gives the next state and the error, if any.
-- `temp` and `destination` are what the two names hold; `temp_exists` and `destination_exists` are
-- what `Path::exists` answers, which is false also where the metadata of a file cannot be read. The
-- laws are those of the calls: a name that exists holds a file; a rename is atomic, whatever it
-- reports, and needs the file; the other calls leave the destination.
pub record Os : Type 1 where
  pub World : Type 0
  pub temp : World → Option Bytes
  pub destination : World → Option Bytes
  pub temp_exists : World → Bool
  pub destination_exists : World → Bool
  pub file_len : World → Option ℕ
  pub set_len : ℕ → World → World × Option ErrorKind
  pub sync_all : World → World × Option ErrorKind
  pub sync_data : World → World × Option ErrorKind
  pub rename : World → World × Option ErrorKind
  pub remove_temp : World → World
  pub flush_directory : World → World
  pub temp_exists_lem : (w : World) → temp_exists w ≡ true → present (temp w) ≡ true
  pub destination_exists_lem :
      (w : World) → destination_exists w ≡ true → present (destination w) ≡ true
  pub file_len_is :
      (w : World) (b : Bytes) (n : ℕ) → temp w ≡ some b → file_len w ≡ some n → n ≡ length b
  pub set_len_cuts :
      (w : World) (b : Bytes) (n : ℕ)
      → temp w ≡ some b
      → n ≤ length b
      → (set_len n w).1 ≡ none
      → temp ((set_len n w).0) ≡ some (take n b)
  pub set_len_keeps : (w : World) (n : ℕ) → destination ((set_len n w).0) ≡ destination w
  pub sync_all_keeps :
      (w : World)
      → (temp ((sync_all w).0) ≡ temp w) × (destination ((sync_all w).0) ≡ destination w)
  pub sync_data_keeps :
      (w : World)
      → (temp ((sync_data w).0) ≡ temp w) × (destination ((sync_data w).0) ≡ destination w)
  pub rename_outcome :
      (w : World)
      → ((temp ((rename w).0) ≡ none)
          × (destination ((rename w).0) ≡ temp w)
          × (present (temp w) ≡ true))
        ⊎ ((temp ((rename w).0) ≡ temp w)
            × (destination ((rename w).0) ≡ destination w)
            × ((rename w).1 ≢ none))
  pub remove_temp_keeps : (w : World) → destination (remove_temp w) ≡ destination w
  pub flush_directory_keeps :
      (w : World)
      → (temp (flush_directory w) ≡ temp w) × (destination (flush_directory w) ≡ destination w)

module _ (os : Os) where
  open os use {
    World, temp, destination, temp_exists, destination_exists, file_len, set_len, sync_all,
    sync_data, rename, remove_temp, flush_directory,
  }

  abbrev pub rename_already_happened : World → Bool
  rename_already_happened w = destination_exists w && not (temp_exists w)

  -- The attempts that are left, 4 at first. The source marks the end of the loop unreachable.
  unfoldable pub attempt_rename : ℕ → Mount → World → Commit → World × Result Commit
  attempt_rename zero mount w report = (w, err loop_ended)
  attempt_rename (suc left) mount w report =
      let (w', reply) = rename w in
      let rest =
        attempt_rename left mount w'
          (record report { rename_retries = report.rename_retries + 1 }) in
      elim reply [
        | none ↦ (w', ok report)
        | some error ↦
            if is_remote mount && rename_already_happened w'
            then (w', ok (record report { rename_error_was_wrong = true }))
            else if not (worth_retrying error) || left == 0
            then (w', err rename_failed)
            else rest
      ]

  unfoldable pub rename_into_place : Mount → World → Commit → World × Result Commit
  rename_into_place mount w report = attempt_rename 4 mount w report

  -- The flush, with the weaker flush where the strong one is not supported.
  unfoldable pub flush : World → Commit → World × Result Commit
  flush w report =
      let (w', reply) = sync_all w in
      let (w'', reply') = sync_data w' in
      elim reply [
        | none ↦ (w', ok report)
        | some error ↦
            if is_unsupported error
            then elim reply' [
              | none ↦ (w'', ok (record report { flush_downgraded = true }))
              | some error' ↦ (w'', err flush_failed)
            ]
            else (w', err flush_failed)
      ]

  -- A file that a reservation left too long is cut back; one that is too short is refused.
  unfoldable pub cut_back : ℕ → World → World × Result (Unit {0})
  cut_back final_size w = elim (file_len w) [
    | none ↦ (w, err measure_failed)
    | some n ↦
        if ltb final_size n
        then (let (w', reply) = set_len final_size w in
            elim reply [ none ↦ (w', ok tt) | some error ↦ (w', err cut_failed) ])
        else (w, ensure (leb final_size n) write_cut_short)
  ]

  abbrev pub and_then :
      {A B : Type 0} → World × Result A → (World → A → World × Result B) → World × Result B
  and_then (w, ok a) f = f w a
  and_then (w, err e) f = (w, err e)

  -- `drop`: a temporary output that is not committed is removed.
  abbrev pub dropped : World × Result Commit → World × Result Commit
  dropped (w, ok report) = (w, ok report)
  dropped (w, err e) = (remove_temp w, err e)

  -- The destination has a parent, since `create` refuses one that has none.
  unfoldable pub commit : Mount → ℕ → World → World × Result Commit
  commit mount final_size w = dropped (
      and_then (cut_back final_size w) λ w' cut. and_then (flush w' no_report) λ w'' report.
        and_then (rename_into_place mount w'' report)
          λ w''' report'. (flush_directory w''', ok report'))
