-- ===== src/Commit/Rename.antt =====
-- `TempOutput::rename_into_place` (src/commit.rs): the attempts to rename.
use mrimgx_consolidate.Base.{
  ℕ, zero, suc, ◌+◌, ◌≤◌, ◌≡◌, ◌≢◌, ◌∙◌, ◌⊎◌, inl, inr, refl, sym, subst, true, false, ◌&&◌, ◌||◌,
  not, Option, none, some, ◌==◌, Result, ok, err, Bool-cases, Option-cases, arith, rename_failed,
  loop_ended,
}
use mrimgx_consolidate.Base.Bytes.{Bytes}
use mrimgx_consolidate.Commit.{
  Os, Mount, ErrorKind, present, Commit, is_remote, worth_retrying, rename_already_happened,
  attempt_rename, rename_into_place,
}

module _ (os : Os) where
  open os use {
    World, temp, destination, temp_exists, destination_exists, destination_exists_lem, file_len,
    set_len, sync_all, sync_data, rename, remove_temp, flush_directory, rename_outcome, file_len_is,
    set_len_cuts, set_len_keeps, sync_all_keeps, sync_data_keeps, remove_temp_keeps,
    flush_directory_keeps,
  }

  -- The output under its temporary name, and the output in place.
  abbrev pub Before : Bytes → Option Bytes → World → Type 0
  Before b old w = (temp w ≡ some b) × (destination w ≡ old)

  abbrev pub After : Bytes → World → Type 0
  After b w = (temp w ≡ none) × (destination w ≡ some b)

  abbrev pub Whole : Bytes → Option Bytes → World → Type 0
  Whole b old w = Before b old w ⊎ After b w

  rename_step :
      (w : World) (b : Bytes) (old : Option Bytes)
      → Whole b old w
      → After b ((rename w).0) ⊎ (Whole b old ((rename w).0) × ((rename w).1 ≢ none))
  rename_step w b old h = elim (rename_outcome w) [
    | inl (gone, moved, was_there) ↦ elim h [
      | inl (here, there) ↦ inl (gone, moved ∙ here)
      | inr (nothing, there) ↦ absurd (cc (was_there, nothing))
    ]
    | inr (same, there_same, failed) ↦ elim h [
      | inl (here, there) ↦ inr (inl (same ∙ here, there_same ∙ there), failed)
      | inr (nothing, there) ↦ inr (inr (same ∙ nothing, there_same ∙ there), failed)
    ]
  ]

  step-Whole :
      (w : World) (b : Bytes) (old : Option Bytes) → Whole b old w → Whole b old ((rename w).0)
  step-Whole w b old h = elim (rename_step w b old h) [
    | inl moved ↦ inr moved
    | inr (kept, failed) ↦ kept
  ]

  -- The one way in which a rename counts as done and is not: on a remote mount, where a file was at
  -- the destination before, the temporary file was there and its metadata could not be read.
  pub record Misread (mount : Mount) (b : Bytes) (old : Option Bytes) (report : Commit) (w : World)
      : Type 0 where
    pub kept : Before b old w
    pub on_remote : is_remote mount ≡ true
    pub reported : report.rename_error_was_wrong ≡ true
    pub old_there : present old ≡ true
    pub asked : World
    pub unreadable : temp_exists asked ≡ false
    pub still_there : temp asked ≡ some b

  abbrev pub wrong_error : Commit → Commit
  wrong_error report = record report { rename_error_was_wrong = true }

  happened-After :
      (mount : Mount) (w : World) (b : Bytes) (old : Option Bytes) (report : Commit)
      → Whole b old w
      → (is_remote mount && rename_already_happened os w) ≡ true
      → After b w ⊎ Misread mount b old (wrong_error report) w
  happened-After mount w b old report (inr after) h = inl after
  happened-After mount w b old report (inl (here, there)) h =
      let on_remote : is_remote mount ≡ true = ground (arith, h) in
      let seen : destination_exists w ≡ true = ground (arith, h) in
      let unseen : temp_exists w ≡ false = ground (arith, h) in
      inr (record {
        kept = (here, there);
        on_remote = on_remote;
        reported = refl;
        old_there = rw there at (destination_exists_lem w seen);
        asked = w;
        unreadable = unseen;
        still_there = here;
      })

  abbrev pub Renamed : Mount → Bytes → Option Bytes → World × Result Commit → Type 0
  Renamed mount b old (w, ok report) = After b w ⊎ Misread mount b old report w
  Renamed mount b old (w, err e) = Whole b old w

  -- The four ways in which an attempt can go.
  module _ (left : ℕ) (mount : Mount) (w : World) (report : Commit) where
    attempt_reported :
        (rename w).1 ≡ none
        → attempt_rename os (suc left) mount w report ≡ ((rename w).0, ok report)
    unfolding attempt_rename
    attempt_reported h = rw (h, attempt_rename) refl

    module _ (error : ErrorKind) (h : (rename w).1 ≡ some error) where
      attempt_happened :
          (is_remote mount && rename_already_happened os ((rename w).0)) ≡ true
          → attempt_rename os (suc left) mount w report
            ≡ ((rename w).0, ok (record report { rename_error_was_wrong = true }))
      unfolding attempt_rename
      attempt_happened happened = rw (h, attempt_rename, happened) refl

      attempt_last :
          (is_remote mount && rename_already_happened os ((rename w).0)) ≡ false
          → (not (worth_retrying error) || left == 0) ≡ true
          → attempt_rename os (suc left) mount w report ≡ ((rename w).0, err rename_failed)
      unfolding attempt_rename
      attempt_last not_yet last = rw (h, attempt_rename, not_yet, last) refl

      attempt_again :
          (is_remote mount && rename_already_happened os ((rename w).0)) ≡ false
          → (not (worth_retrying error) || left == 0) ≡ false
          → attempt_rename os (suc left) mount w report
            ≡ attempt_rename os left mount
                ((rename w).0)
                (record report { rename_retries = report.rename_retries + 1 })
      unfolding attempt_rename
      attempt_again not_yet again = rw (h, attempt_rename, not_yet, again) refl

  -- When the output is whole before, under either name, a rename that succeeds leaves it in place,
  -- unless the temporary name was misread, and one that fails leaves it whole.
  pub attempt_rename-Renamed :
      (left : ℕ) (mount : Mount) (w : World) (report : Commit) (b : Bytes) (old : Option Bytes)
      → Whole b old w
      → Renamed mount b old (attempt_rename os left mount w report)
  unfolding attempt_rename
  attempt_rename-Renamed zero mount w report b old h = h
  attempt_rename-Renamed (suc left) mount w report b old h = elim (Option-cases ((rename w).1)) [
    | inl reported ↦
        subst (Renamed mount b old) (sym (attempt_reported left mount w report reported))
          (elim (rename_step w b old h) [
            | inl moved ↦ inl moved
            | inr (kept, failed) ↦ absurd (failed reported)
          ])
    | inr (error, reported) ↦
        let next = step-Whole w b old h in
        elim (Bool-cases (is_remote mount && rename_already_happened os ((rename w).0))) [
          | inl happened ↦
              subst (Renamed mount b old)
                (sym (attempt_happened left mount w report error reported happened))
                (happened-After mount ((rename w).0) b old report next happened)
          | inr not_yet ↦ elim (Bool-cases (not (worth_retrying error) || left == 0)) [
            | inl last ↦
                subst (Renamed mount b old)
                  (sym (attempt_last left mount w report error reported not_yet last)) next
            | inr again ↦
                subst (Renamed mount b old)
                  (sym (attempt_again left mount w report error reported not_yet again))
                  (attempt_rename-Renamed left mount ((rename w).0)
                    (record report { rename_retries = report.rename_retries + 1 }) b old next)
          ]
        ]
  ]

  -- How many retries a result may report, when the loop came to an end by itself.
  abbrev pub Ended : ℕ → World × Result Commit → Type 0
  Ended n (w, ok report) = report.rename_retries ≤ n
  Ended n (w, err e) = e ≢ loop_ended

  attempt_rename-Ended :
      (left : ℕ) (mount : Mount) (w : World) (report : Commit) (n : ℕ)
      → 1 ≤ left
      → report.rename_retries + left ≤ n + 1
      → Ended n (attempt_rename os left mount w report)
  attempt_rename-Ended zero mount w report n some_left h = absurd (omega arith)
  attempt_rename-Ended (suc left) mount w report n some_left h =
      elim (Option-cases ((rename w).1)) [
        | inl reported ↦
            subst (Ended n) (sym (attempt_reported left mount w report reported)) (omega arith)
        | inr (error, reported) ↦
            elim (Bool-cases (is_remote mount && rename_already_happened os ((rename w).0))) [
              | inl happened ↦
                  subst (Ended n)
                    (sym (attempt_happened left mount w report error reported happened))
                    (omega arith)
              | inr not_yet ↦ elim (Bool-cases (not (worth_retrying error) || left == 0)) [
                | inl last ↦
                    subst (Ended n)
                      (sym (attempt_last left mount w report error reported not_yet last))
                      (λ e. cc e)
                | inr again ↦
                    subst (Ended n)
                      (sym (attempt_again left mount w report error reported not_yet again))
                      (attempt_rename-Ended left mount ((rename w).0)
                        (record report { rename_retries = report.rename_retries + 1 }) n
                        (ground (arith, again)) (omega arith))
              ]
            ]
      ]

  -- The attempts to rename end by themselves, after at most three retries beyond those that were
  -- counted before.
  pub rename_into_place-Ended :
      (mount : Mount) (w : World) (report : Commit)
      → Ended (report.rename_retries + 3) (rename_into_place os mount w report)
  unfolding rename_into_place
  rename_into_place-Ended mount w report =
      attempt_rename-Ended 4 mount w report (report.rename_retries + 3) (omega arith) (omega arith)
