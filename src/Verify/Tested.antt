-- ===== src/Verify/Tested.antt =====
-- What a pass of src/verify.rs that succeeds has tested, and what it counts.
use mrimgx_consolidate.Base.{
  ℕ, suc, ◌+◌, ◌^◌, ◌≡◌, ◌⊎◌, refl, sym, ap, subst, Bool, false, ◌&&◌, not, List, [], ◌∷◌, ◌++◌,
  ltb, ◌==◌, if◌then◌else◌, Result, ok, >>=-eq_ok, ensure-eq_ok, ok-injective, Bool-cases, inl, inr,
  arith, number_too_wide, hash_mismatch,
}
use mrimgx_consolidate.Base.Bytes.{Bytes, bytes_eq, bytes_eq→eq}
use mrimgx_consolidate.Block.{read_exact}
use mrimgx_consolidate.Index.{DataBlockIndexElement, DeltaDataBlock, Blocks, full, delta, is_hole}
use mrimgx_consolidate.Reader.{position_of, Partition}
use mrimgx_consolidate.Write.Region.{elements_of}
use mrimgx_consolidate.Write.Output.Sound.{block_entries, index_entries}
use mrimgx_consolidate.Verify.{
  Verified, Where, check_own, check, check_entries, check_deltas, check_blocks, check_partition,
}

-- How many entries pass a test.
abbrev pub count : (DataBlockIndexElement → Bool) → List DataBlockIndexElement → ℕ
count test [] = 0
count test (e ∷ es) = (if test e then 1 else 0) + count test es

count-append :
    (test : DataBlockIndexElement → Bool) (es fs : List DataBlockIndexElement)
    → count test (es ++ fs) ≡ count test es + count test fs
count-append test [] fs = omega arith
count-append test (e ∷ es) fs = omega (arith, count-append test es fs)

-- A block of the file itself, and one of another file.
abbrev pub is_own : ℕ → DataBlockIndexElement → Bool
is_own own e = not (is_hole e) && e.file_number == own

abbrev pub is_elsewhere : ℕ → DataBlockIndexElement → Bool
is_elsewhere own e = not (is_hole e) && not (e.file_number == own)

module _ (md5 : Bytes → Bytes) (undo : Bytes → Where → ℕ → Result Bytes) (file : Bytes)
    (own : ℕ) where
  -- An own block whose plaintext has the recorded hash.
  pub record IsTested (at : Where) (e : DataBlockIndexElement) (block_index : ℕ) : Type 0 where
    pub stored : Bytes
    pub plain : Bytes
    pub read : read_exact file (position_of e.file_position) e.block_length ≡ ok stored
    pub undone : undo stored at block_index ≡ ok plain
    pub same_hash : md5 plain ≡ e.md5_hash

  abbrev pub Tested : Where → DataBlockIndexElement → ℕ → Type 0
  Tested at e block_index = (is_own own e ≡ false) ⊎ IsTested at e block_index

  abbrev pub AllTested : Where → ℕ → List DataBlockIndexElement → Type 0
  AllTested at i [] = Unit
  AllTested at i (e ∷ es) = Tested at e i × AllTested at (suc i) es

  abbrev pub DeltasTested : Where → List DeltaDataBlock → Type 0
  DeltasTested at [] = Unit
  DeltasTested at (d ∷ ds) = Tested at d.element d.block_index × DeltasTested at ds

  abbrev pub BlocksTested : Where → Blocks → Type 0
  BlocksTested at (full entries) = AllTested at 0 entries
  BlocksTested at (delta ds) = DeltasTested at ds

  -- What is counted between two reports.
  pub record Counts (es : List DataBlockIndexElement) (r r' : Verified) : Type 0 where
    pub blocks : r'.blocks ≡ r.blocks + count (is_own own) es
    pub elsewhere : r'.elsewhere ≡ r.elsewhere + count (is_elsewhere own) es

  pub Counts-nothing : (r : Verified) → Counts [] r r
  Counts-nothing r = record { blocks = omega arith; elsewhere = omega arith }

  pub Counts-append :
      (es fs : List DataBlockIndexElement) (r s t : Verified)
      → Counts es r s
      → Counts fs s t
      → Counts (es ++ fs) r t
  Counts-append es fs r s t c d = record {
    blocks = omega (arith, c.blocks, d.blocks, count-append (is_own own) es fs);
    elsewhere = omega (arith, c.elsewhere, d.elsewhere, count-append (is_elsewhere own) es fs);
  }

  check_own-IsTested :
      (at : Where) (e : DataBlockIndexElement) (i : ℕ) (r r' : Verified)
      → check_own md5 undo file own at e i r ≡ ok r'
      → IsTested at e i × (r'.blocks ≡ r.blocks + 1) × (r'.elsewhere ≡ r.elsewhere)
  unfolding check_own
  check_own-IsTested at e i r r' h =
      let (stored, read, h1) =
        >>=-eq_ok (read_exact file (position_of e.file_position) e.block_length) _ h in
      let (plain, undone, h2) = >>=-eq_ok (undo stored at i) _ h1 in
      let (same, h3) = ensure-eq_ok (bytes_eq (md5 plain) e.md5_hash) hash_mismatch _ h2 in
      let last = ok-injective h3 in
      (
        record {
          stored = stored;
          plain = plain;
          read = read;
          undone = undone;
          same_hash = bytes_eq→eq _ _ same;
        },
        ap (λ (v : Verified). v.blocks) (sym last),
        ap (λ (v : Verified). v.elsewhere) (sym last),
      )

  check-Tested :
      (at : Where) (e : DataBlockIndexElement) (i : ℕ) (r r' : Verified)
      → check md5 undo file own at e i r ≡ ok r'
      → Tested at e i × Counts (e ∷ []) r r'
  unfolding check
  check-Tested at e i r r' h = elim (Bool-cases (is_hole e)) [
    | inl a_hole ↦
        let same : r ≡ r' = ok-injective (rw a_hole at h) in
        (
          inl (rw a_hole refl),
          subst (Counts (e ∷ []) r) same
              (record { blocks = rw a_hole (omega arith); elsewhere = rw a_hole (omega arith) }),
        )
    | inr block ↦ elim (Bool-cases (e.file_number == own)) [
      | inl mine ↦
          let (tested, blocks, elsewhere) =
            check_own-IsTested at e i r r' (rw (block, mine) at h) in
          (
            inr tested,
            record {
              blocks = rw (block, mine) (omega (arith, blocks));
              elsewhere = rw (block, mine) (omega (arith, elsewhere));
            },
          )
      | inr other ↦
          let same : record r { elsewhere = r.elsewhere + 1 } ≡ r' =
            ok-injective (rw (block, other) at h) in
          (
            inl (rw (block, other) refl),
            subst (Counts (e ∷ []) r) same (record {
              blocks = rw (block, other) (omega arith);
              elsewhere = rw (block, other) (omega arith);
            }),
          )
    ]
  ]

  check_entries-AllTested :
      (at : Where) (i : ℕ) (es : List DataBlockIndexElement) (r r' : Verified)
      → check_entries md5 undo file own at i es r ≡ ok r'
      → AllTested at i es × Counts es r r'
  unfolding check_entries
  check_entries-AllTested at i [] r r' h =
      (tt, subst (Counts [] r) (ok-injective h) (Counts-nothing r))
  check_entries-AllTested at i (e ∷ es) r r' h =
      let (small, h1) = ensure-eq_ok (ltb i (2 ^ 32)) number_too_wide _ h in
      let (s, now, later) = >>=-eq_ok (check md5 undo file own at e i r) _ h1 in
      let (tested, counts) = check-Tested at e i r s now in
      let (others, more) = check_entries-AllTested at (suc i) es s r' later in
      ((tested, others), Counts-append (e ∷ []) es r s r' counts more)

  check_deltas-DeltasTested :
      (at : Where) (ds : List DeltaDataBlock) (r r' : Verified)
      → check_deltas md5 undo file own at ds r ≡ ok r'
      → DeltasTested at ds × Counts (elements_of ds) r r'
  unfolding check_deltas
  check_deltas-DeltasTested at [] r r' h =
      (tt, subst (Counts [] r) (ok-injective h) (Counts-nothing r))
  check_deltas-DeltasTested at (d ∷ ds) r r' h =
      let (s, now, later) = >>=-eq_ok (check md5 undo file own at d.element d.block_index r) _ h in
      let (tested, counts) = check-Tested at d.element d.block_index r s now in
      let (others, more) = check_deltas-DeltasTested at ds s r' later in
      ((tested, others), Counts-append (d.element ∷ []) (elements_of ds) r s r' counts more)

  check_blocks-BlocksTested :
      (at : Where) (b : Blocks) (r r' : Verified)
      → check_blocks md5 undo file own at b r ≡ ok r'
      → BlocksTested at b × Counts (block_entries b) r r'
  unfolding check_blocks
  check_blocks-BlocksTested at (full entries) r r' h = check_entries-AllTested at 0 entries r r' h
  check_blocks-BlocksTested at (delta ds) r r' h = check_deltas-DeltasTested at ds r r' h

  abbrev pub PartitionTested : Where → Partition → Type 0
  PartitionTested at part = AllTested at 0 part.index.reserved × BlocksTested at part.index.blocks

  pub check_partition-PartitionTested :
      (at : Where) (part : Partition) (r r' : Verified)
      → check_partition md5 undo file own at part r ≡ ok r'
      → PartitionTested at part × Counts (index_entries part.index) r r'
  unfolding check_partition
  check_partition-PartitionTested at part r r' h =
      let (s, now, later) =
        >>=-eq_ok (check_entries md5 undo file own at 0 part.index.reserved r) _ h in
      let (reserved, counts) = check_entries-AllTested at 0 part.index.reserved r s now in
      let (blocks, more) = check_blocks-BlocksTested at part.index.blocks s r' later in
      (
        (reserved, blocks),
        Counts-append part.index.reserved (block_entries part.index.blocks) r s r' counts more,
      )
