-- ===== src/Tests/Commits.antt =====
-- A small file system whose renames answer as a list says, and commits on it.
use mrimgx_consolidate.Base.{
  ℕ, ◌+◌, ◌≡◌, ◌≢◌, ◌⊎◌, inl, inr, refl, true, false, ok, List, [], ◌∷◌, Option, none, some, length,
  take,
}
use mrimgx_consolidate.Base.Bytes.{Bytes}
use mrimgx_consolidate.Commit.{
  Os, local, remote, ErrorKind, interrupted, unsupported, other_kind, no_report, present, commit,
  cut_back, flush, attempt_rename, rename_into_place,
}
use mrimgx_consolidate.Commit.Rename.{Ended, rename_into_place-Ended}
use mrimgx_consolidate.Commit.Atomic.{AllOrNothing, commit-AllOrNothing}

-- An answer: whether the rename takes effect, and the error that is reported if it does.
data Answer : Type 0 where
  moves : Option ErrorKind → Answer
  stays : ErrorKind → Answer

record Folder : Type 0 where
  temp_file : Option Bytes
  output : Option Bytes
  answers : List Answer

abbrev put : Folder → Folder
put w = record w { temp_file = none; output = w.temp_file }

abbrev try_move : Option Bytes → List Answer → Folder → Folder × Option ErrorKind
try_move none answers w = (w, some other_kind)
try_move (some b) [] w = (put w, none)
try_move (some b) (moves reply ∷ later) w = (record (put w) { answers = later }, reply)
try_move (some b) (stays error ∷ later) w = (record w { answers = later }, some error)

abbrev move : Folder → Folder × Option ErrorKind
move w = try_move w.temp_file w.answers w

try_move_outcome :
    (t : Option Bytes) (answers : List Answer) (w : Folder)
    → w.temp_file ≡ t
    → let (w', reply) = try_move t answers w in
      ((w'.temp_file ≡ none) × (w'.output ≡ w.temp_file) × (present w.temp_file ≡ true))
      ⊎ ((w'.temp_file ≡ w.temp_file) × (w'.output ≡ w.output) × (reply ≢ none))
try_move_outcome none answers w h = inr (refl, refl, λ e. cc e)
try_move_outcome (some b) [] w h = inl (refl, refl, rw h refl)
try_move_outcome (some b) (moves reply ∷ later) w h = inl (refl, refl, rw h refl)
try_move_outcome (some b) (stays error ∷ later) w h = inr (refl, refl, λ e. cc e)

abbrev cut : ℕ → Folder → Folder
cut n w = record w { temp_file = elim w.temp_file [ none ↦ none | some b ↦ some (take n b) ] }

abbrev measure : Option Bytes → Option ℕ
measure none = none
measure (some b) = some (length b)

measure_eq : (t : Option Bytes) (b : Bytes) (n : ℕ) → t ≡ some b → measure t ≡ some n → n ≡ length b
measure_eq none b n h g = cc
measure_eq (some c) b n h g = cc (h, g)

abbrev small_os : Os
small_os = record {
  World = Folder;
  temp = λ w. w.temp_file;
  destination = λ w. w.output;
  temp_exists = λ w. present w.temp_file;
  destination_exists = λ w. present w.output;
  file_len = λ w. measure w.temp_file;
  set_len = λ n w. (cut n w, none);
  sync_all = λ w. (w, some unsupported);
  sync_data = λ w. (w, none);
  rename = move;
  remove_temp = λ w. record w { temp_file = none };
  flush_directory = λ w. w;
  temp_exists_lem = λ w h. h;
  destination_exists_lem = λ w h. h;
  file_len_is = λ w b n h g. measure_eq w.temp_file b n h g;
  set_len_cuts = λ w b n h le g. rw h refl;
  set_len_keeps = λ w n. refl;
  sync_all_keeps = λ w. (refl, refl);
  sync_data_keeps = λ w. (refl, refl);
  rename_outcome = λ w. try_move_outcome w.temp_file w.answers w refl;
  remove_temp_keeps = λ w. refl;
  flush_directory_keeps = λ w. (refl, refl);
}

-- A reserved file of five bytes with three written; the first rename is interrupted, and the second
-- takes effect but reports an error.
abbrev folder : Folder
folder = record {
  temp_file = some (1 ∷ 2 ∷ 3 ∷ 0 ∷ 0 ∷ []);
  output = some (9 ∷ []);
  answers = stays interrupted ∷ moves (some other_kind) ∷ [];
}

commit-AllOrNothing_example :
    AllOrNothing small_os
      (remote "nfs")
      (1 ∷ 2 ∷ 3 ∷ 0 ∷ 0 ∷ [])
      (some (9 ∷ []))
      3
      (commit small_os (remote "nfs") 3 folder)
commit-AllOrNothing_example =
    commit-AllOrNothing small_os (remote "nfs") 3 folder (1 ∷ 2 ∷ 3 ∷ 0 ∷ 0 ∷ []) refl

rename_into_place-Ended_example :
    Ended small_os
      (no_report.rename_retries + 3)
      (rename_into_place small_os (local "ext4") folder no_report)
rename_into_place-Ended_example = rename_into_place-Ended small_os (local "ext4") folder no_report

never : {A : Type 0} → false ≡ true → A
never h = absurd (cc h)

-- The same folder where the metadata of the temporary file cannot be read: a rename that fails on a
-- remote mount counts as done, although the destination is as it was.
abbrev blind_os : Os
blind_os = record small_os { temp_exists = λ w. false; temp_exists_lem = λ w h. never h }

abbrev stuck : Folder
stuck = record folder { answers = stays other_kind ∷ [] }

misread_commit :
    ((commit blind_os (remote "nfs") 3 stuck).1
      ≡ ok (record { flush_downgraded = true; rename_retries = 0; rename_error_was_wrong = true }))
    × ((commit blind_os (remote "nfs") 3 stuck).0.output ≡ some (9 ∷ []))
unfolding commit cut_back flush rename_into_place attempt_rename
misread_commit = (refl, refl)
