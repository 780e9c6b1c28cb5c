-- ===== src/Commit/Atomic.antt =====
-- `TempOutput::commit` (src/commit.rs): what the destination holds afterwards.
use mrimgx_consolidate.Base.{
  ℕ, ◌≤◌, ◌<◌, ◌≡◌, ◌∙◌, ◌⊎◌, inl, inr, refl, sym, ap, subst, true, false, Option, none, some,
  length, take, take_all, Result, ok, err, Bool-cases, Option-cases, arith, ltb, leb, cut_failed,
  measure_failed, Error, ensure, write_cut_short,
}
use mrimgx_consolidate.Base.Bytes.{Bytes}
use mrimgx_consolidate.Commit.{
  Os, Mount, Commit, is_unsupported, attempt_rename, rename_into_place, flush, cut_back, and_then,
  dropped, commit, no_report,
}
use mrimgx_consolidate.Commit.Rename.{Before, Whole, Renamed, Misread, attempt_rename-Renamed}

module _ (os : Os) where
  open os use {
    World, temp, destination, file_len, set_len, sync_all, sync_data, rename, remove_temp,
    flush_directory, rename_outcome, file_len_is, set_len_cuts, set_len_keeps, sync_all_keeps,
    sync_data_keeps, remove_temp_keeps, flush_directory_keeps,
  }

  flush_state :
      (w : World) (report : Commit)
      → ((flush os w report).0 ≡ (sync_all w).0)
        ⊎ ((flush os w report).0 ≡ (sync_data ((sync_all w).0)).0)
  unfolding flush
  flush_state w report = elim (Option-cases ((sync_all w).1)) [
    | inl reported ↦ inl (rw (reported, flush) refl)
    | inr (error, reported) ↦ elim (Bool-cases (is_unsupported error)) [
      | inr known ↦ inl (rw (reported, flush, known) refl)
      | inl weaker ↦ elim (Option-cases ((sync_data ((sync_all w).0)).1)) [
        | inl done ↦ inr (rw (reported, flush, weaker, done) refl)
        | inr (again, failed) ↦ inr (rw (reported, flush, weaker, failed) refl)
      ]
    ]
  ]

  flush-Before :
      (w : World) (report : Commit) (b : Bytes) (old : Option Bytes)
      → Before os b old w
      → Before os b old ((flush os w report).0)
  flush-Before w report b old (here, there) =
      let (all_temp, all_there) = sync_all_keeps w in
      let (data_temp, data_there) = sync_data_keeps ((sync_all w).0) in
      elim (flush_state w report) [
        | inl strong ↦ subst (Before os b old) (sym strong) (all_temp ∙ here, all_there ∙ there)
        | inr weak ↦
            subst (Before os b old) (sym weak)
              (data_temp ∙ (all_temp ∙ here), data_there ∙ (all_there ∙ there))
      ]

  -- After the length is settled: the file holds what the writer reported, or nothing is done.
  abbrev Cut : Bytes → Option Bytes → ℕ → World × Result (Unit {0}) → Type 0
  Cut b old n (w, ok u) = Before os (take n b) old w × (n ≤ length b)
  Cut b old n (w, err e) = destination w ≡ old

  measured-Cut :
      (w : World) (b : Bytes) (old : Option Bytes) (n : ℕ)
      → Before os b old w
      → n ≡ length b ⊎ length b < n
      → Cut b old n (w, ensure (leb n (length b)) write_cut_short)
  measured-Cut w b old n (here, there) (inl same) =
      let fits : leb n (length b) ≡ true = ground arith in
      rw fits ((here ∙ ap some (sym (take_all n b (sym same))), there), omega arith)
  measured-Cut w b old n (here, there) (inr short) =
      let short' : leb n (length b) ≡ false = ground arith in rw short' there

  cut_back-Cut :
      (w : World) (b : Bytes) (old : Option Bytes) (n : ℕ)
      → Before os b old w
      → Cut b old n (cut_back os n w)
  unfolding cut_back
  cut_back-Cut w b old n (here, there) = elim (Option-cases (file_len w)) [
    | inl unknown ↦
        let same : cut_back os n w ≡ (w, err measure_failed) = rw (unknown, cut_back) refl in
        subst (Cut b old n) (sym same) there
    | inr (m, known) ↦
        let size : m ≡ length b = file_len_is w b m here known in
        elim (Bool-cases (ltb n m)) [
          | inr fits ↦
              let same : cut_back os n w ≡ (w, ensure (leb n m) write_cut_short) =
                rw (known, cut_back, fits) refl in
              subst (Cut b old n) (sym same)
                (rw size (measured-Cut w b old n (here, there) (ground (arith, size, fits))))
          | inl long ↦ elim (Option-cases ((set_len n w).1)) [
            | inl cut ↦
                let same : cut_back os n w ≡ ((set_len n w).0, ok tt) =
                  rw (known, cut_back, long, cut) refl in
                subst (Cut b old n) (sym same) (
                  (
                    set_len_cuts w b n here (ground (arith, size, long)) cut,
                    set_len_keeps w n ∙ there,
                  ),
                  ground (arith, size, long),
                )
            | inr (error, failed) ↦
                let same : cut_back os n w ≡ ((set_len n w).0, err cut_failed) =
                  rw (known, cut_back, long, failed) refl in
                subst (Cut b old n) (sym same) (set_len_keeps w n ∙ there)
          ]
        ]
  ]

  -- What a commit leaves: in place, complete and with no temporary name, or as it was although a
  -- misread temporary name counts as renamed, or as it was, or complete although it reports an error.
  abbrev pub AllOrNothing : Mount → Bytes → Option Bytes → ℕ → World × Result Commit → Type 0
  AllOrNothing mount b old n (w, ok report) =
      (n ≤ length b)
      × (((temp w ≡ none) × (destination w ≡ some (take n b)))
          ⊎ Misread os mount (take n b) old report w)
  AllOrNothing mount b old n (w, err e) = (destination w ≡ old) ⊎ (destination w ≡ some (take n b))

  Whole-there :
      (w : World) (b : Bytes) (old : Option Bytes)
      → Whole os b old w
      → (destination w ≡ old) ⊎ (destination w ≡ some b)
  Whole-there w b old (inl (here, there)) = inl there
  Whole-there w b old (inr (gone, there)) = inr there

  abbrev last_step : World → Commit → World × Result Commit
  last_step w report = (flush_directory w, ok report)

  dropped-AllOrNothing :
      (mount : Mount) (b : Bytes) (old : Option Bytes) (n : ℕ) (w : World) (e : Error)
      → (destination w ≡ old) ⊎ (destination w ≡ some (take n b))
      → AllOrNothing mount b old n (remove_temp w, err e)
  dropped-AllOrNothing mount b old n w e (inl there) = inl (remove_temp_keeps w ∙ there)
  dropped-AllOrNothing mount b old n w e (inr there) = inr (remove_temp_keeps w ∙ there)

  Renamed-AllOrNothing :
      (mount : Mount) (b : Bytes) (old : Option Bytes) (n : ℕ) (r : World × Result Commit)
      → n ≤ length b
      → Renamed os mount (take n b) old r
      → AllOrNothing mount b old n (dropped os (and_then os r last_step))
  Renamed-AllOrNothing mount b old n (w, ok report) le (inl (gone, there)) =
      let (same, there_same) = flush_directory_keeps w in
      (le, inl (same ∙ gone, there_same ∙ there))
  Renamed-AllOrNothing mount b old n (w, ok report) le (inr misread) =
      let (same, there_same) = flush_directory_keeps w in
      let (here, there) = misread.kept in
      (
        le,
        inr (record {
          kept = (same ∙ here, there_same ∙ there);
          on_remote = misread.on_remote;
          reported = misread.reported;
          old_there = misread.old_there;
          asked = misread.asked;
          unreadable = misread.unreadable;
          still_there = misread.still_there;
        }),
      )
  Renamed-AllOrNothing mount b old n (w, err e) le whole =
      dropped-AllOrNothing mount b old n w e (Whole-there w (take n b) old whole)

  flushed-AllOrNothing :
      (b : Bytes) (old : Option Bytes) (n : ℕ) (mount : Mount) (r : World × Result Commit)
      → n ≤ length b
      → Before os (take n b) old r.0
      → AllOrNothing mount b old n (
          dropped os
            (and_then os r λ w report. and_then os (rename_into_place os mount w report) last_step))
  unfolding rename_into_place
  flushed-AllOrNothing b old n mount (w, ok report) le before =
      Renamed-AllOrNothing mount b old n (attempt_rename os 4 mount w report) le
        (attempt_rename-Renamed os 4 mount w report (take n b) old (inl before))
  flushed-AllOrNothing b old n mount (w, err e) le (here, there) =
      dropped-AllOrNothing mount b old n w e (inl there)

  Cut-AllOrNothing :
      (b : Bytes) (old : Option Bytes) (n : ℕ) (mount : Mount) (r : World × Result (Unit {0}))
      → Cut b old n r
      → AllOrNothing mount b old n (
          dropped os (
            and_then os r λ w u.
              and_then os
                (flush os w no_report)
                λ w' report. and_then os (rename_into_place os mount w' report) last_step))
  Cut-AllOrNothing b old n mount (w, ok u) (before, le) =
      flushed-AllOrNothing b old n mount (flush os w no_report) le
        (flush-Before w no_report (take n b) old before)
  Cut-AllOrNothing b old n mount (w, err e) there =
      dropped-AllOrNothing mount b old n w e (inl there)

  -- A commit that succeeds leaves the destination with the first `final_size` bytes of the
  -- temporary file, which holds that many, and no temporary name, with one exception: on a remote
  -- mount, where a file was at the destination, an error of the rename may be taken for wrong, and
  -- reported so, because the metadata of the temporary file could not be read; then that file, cut to
  -- `final_size`, and the destination are as they were. A commit that fails leaves the destination as
  -- it was, or with those bytes. The condition is that the temporary file is there.
  pub commit-AllOrNothing :
      (mount : Mount) (final_size : ℕ) (w : World) (b : Bytes)
      → temp w ≡ some b
      → AllOrNothing mount b (destination w) final_size (commit os mount final_size w)
  unfolding commit
  commit-AllOrNothing mount final_size w b here =
      Cut-AllOrNothing b (destination w) final_size mount (cut_back os final_size w)
        (cut_back-Cut w b (destination w) final_size (here, refl))
