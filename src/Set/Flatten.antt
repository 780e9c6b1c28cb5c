-- ===== src/Set/Flatten.antt =====
-- `BackupSet::flatten` (src/set.rs): one array, as the deltas are replayed over it.
use mathlib.Core.List.{reverse, reverse-cons}
use mrimgx_consolidate.Base.{
  ℕ, zero, suc, ◌+◌, ◌-◌, ◌<◌, ◌≡◌, ◌∙◌, refl, sym, ap, Bool, true, false, List, [], ◌∷◌, ◌++◌,
  Option, none, some, leb, leb→le, ◌==◌, if◌then◌else◌, length, get_or, set, replicate, Result, ok,
  err, ◌>>=◌, >>=-eq_ok, >>=-ok, Result-cases, ok-injective, Bool-cases, inl, inr, arith,
  length-append, length-replicate,
}
use mrimgx_consolidate.Index.{
  DataBlockIndexElement, default_element, DeltaDataBlock, Blocks, full, delta,
}
use mrimgx_consolidate.Reader.{Partition, BackupFile}
use mrimgx_consolidate.Set.{
  resize, apply_delta, apply_deltas, partition_at, replay_blocks, replay_member, replay,
}

abbrev pub entry_at : List DataBlockIndexElement → ℕ → DataBlockIndexElement
entry_at blocks i = get_or blocks i default_element

entry_at-replicate : (n i : ℕ) → entry_at (replicate n default_element) i ≡ default_element
entry_at-replicate zero i = refl
entry_at-replicate (suc n) zero = refl
entry_at-replicate (suc n) (suc i) = entry_at-replicate n i

entry_at-resize :
    (blocks : List DataBlockIndexElement) (n i : ℕ)
    → entry_at (blocks ++ replicate n default_element) i ≡ entry_at blocks i
entry_at-resize [] n i = entry_at-replicate n i
entry_at-resize (b ∷ blocks) n zero = refl
entry_at-resize (b ∷ blocks) n (suc i) = entry_at-resize blocks n i

entry_at-set :
    (blocks : List DataBlockIndexElement) (at i : ℕ) (e : DataBlockIndexElement)
    → at < length blocks
    → entry_at (set blocks at e) i ≡ (if at == i then e else entry_at blocks i)
entry_at-set [] at i e h = absurd (omega arith)
entry_at-set (b ∷ blocks) zero zero e h = refl
entry_at-set (b ∷ blocks) zero (suc i) e h = ground arith
entry_at-set (b ∷ blocks) (suc at) zero e h = ground arith
entry_at-set (b ∷ blocks) (suc at) (suc i) e h = ground (arith, entry_at-set blocks at i e)

entry_at-apply_delta :
    (blocks : List DataBlockIndexElement) (d : DeltaDataBlock) (i : ℕ)
    → entry_at (apply_delta blocks d) i
      ≡ (if d.block_index == i then d.element else entry_at blocks i)
unfolding apply_delta
entry_at-apply_delta blocks d i = elim (Bool-cases (leb (length blocks) d.block_index)) [
  | inl grows ↦ rw grows (
      entry_at-set (resize blocks (d.block_index + 1)) d.block_index i d.element (room grows)
      ∙ rw (entry_at-resize blocks (d.block_index + 1 - length blocks) i) refl)
  | inr fits ↦ rw fits (entry_at-set blocks d.block_index i d.element (ground arith))
]
  where
    room :
        leb (length blocks) d.block_index ≡ true
        → d.block_index < length (resize blocks (d.block_index + 1))
    room g = omega (
      arith,
      leb→le (length blocks) d.block_index g,
      length-append blocks (replicate (d.block_index + 1 - length blocks) default_element),
      length-replicate (d.block_index + 1 - length blocks) default_element,
    )

-- The last delta of a list that names a position.
abbrev pub or_else :
    Option DataBlockIndexElement → Option DataBlockIndexElement → Option DataBlockIndexElement
or_else none o = o
or_else (some e) o = some e

abbrev pub get_or_else :
    Option DataBlockIndexElement → DataBlockIndexElement → DataBlockIndexElement
get_or_else none d = d
get_or_else (some e) d = e

unfoldable pub last_named : List DeltaDataBlock → ℕ → Option DataBlockIndexElement
last_named [] i = none
last_named (d ∷ ds) i =
    or_else (last_named ds i) (if d.block_index == i then some d.element else none)

entry_at-apply_deltas :
    (ds : List DeltaDataBlock) (blocks : List DataBlockIndexElement) (i : ℕ)
    → entry_at (apply_deltas blocks ds) i ≡ get_or_else (last_named ds i) (entry_at blocks i)
unfolding apply_deltas last_named
entry_at-apply_deltas [] blocks i = refl
entry_at-apply_deltas (d ∷ ds) blocks i =
    ground
      (arith, entry_at-apply_deltas ds (apply_delta blocks d) i, entry_at-apply_delta blocks d i)

-- The deltas that a member has for a partition: none, if it is a split continuation or has a full
-- index.
abbrev pub deltas_in : Blocks → List DeltaDataBlock
deltas_in (full v) = []
deltas_in (delta ds) = ds

entry_at-replay_blocks :
    (blocks : List DataBlockIndexElement) (b : Blocks) (i : ℕ)
    → entry_at (replay_blocks blocks b) i
      ≡ get_or_else (last_named (deltas_in b) i) (entry_at blocks i)
unfolding replay_blocks last_named
entry_at-replay_blocks blocks (full v) i = refl
entry_at-replay_blocks blocks (delta ds) i = entry_at-apply_deltas ds blocks i

abbrev pub deltas_of_result : Result Partition → List DeltaDataBlock
deltas_of_result (ok part) = deltas_in part.index.blocks
deltas_of_result (err e) = []

entry_at-step :
    (split : Bool) (r : Result Partition) (blocks : List DataBlockIndexElement) (i : ℕ)
    {blocks' : List DataBlockIndexElement}
    → (if split then ok blocks else (r >>= λ part. ok (replay_blocks blocks part.index.blocks)))
      ≡ ok blocks'
    → entry_at blocks' i
      ≡ get_or_else (last_named (if split then [] else deltas_of_result r) i) (entry_at blocks i)
entry_at-step true r blocks i h =
    unfold last_named in ap (λ bs. entry_at bs i) (sym (ok-injective h))
entry_at-step false (ok part) blocks i h =
    rw (← ok-injective h) (entry_at-replay_blocks blocks part.index.blocks i)
entry_at-step false (err e) blocks i h = cc

get_or_else-or_else :
    (a b : Option DataBlockIndexElement) (d : DataBlockIndexElement)
    → get_or_else a (get_or_else b d) ≡ get_or_else (or_else a b) d
get_or_else-or_else none b d = refl
get_or_else-or_else (some e) b d = refl

module _ {V : Type 0} where
  unfoldable pub deltas_of : BackupFile V → ℕ → ℕ → List DeltaDataBlock
  deltas_of m d p = if m.header.split_file then [] else deltas_of_result (partition_at m d p)

  -- The newest member that names a position, in a list that has the newest member first.
  unfoldable pub newest_named : List (BackupFile V) → ℕ → ℕ → ℕ → Option DataBlockIndexElement
  newest_named [] d p i = none
  newest_named (m ∷ ms) d p i = or_else (last_named (deltas_of m d p) i) (newest_named ms d p i)

  entry_at-replay_member :
      (blocks : List DataBlockIndexElement) (m : BackupFile V) (d p i : ℕ)
      {blocks' : List DataBlockIndexElement}
      → replay_member blocks m d p ≡ ok blocks'
      → entry_at blocks' i ≡ get_or_else (last_named (deltas_of m d p) i) (entry_at blocks i)
  unfolding replay_member deltas_of
  entry_at-replay_member blocks m d p i h =
      entry_at-step m.header.split_file (partition_at m d p) blocks i h

  replay-snoc :
      (ms : List (BackupFile V)) (m : BackupFile V) (blocks : List DataBlockIndexElement) (d p : ℕ)
      → replay (ms ++ (m ∷ [])) blocks d p
        ≡ (replay ms blocks d p >>= λ blocks'. replay_member blocks' m d p)
  unfolding replay
  replay-snoc [] m blocks d p = >>=-ok (replay_member blocks m d p)
  replay-snoc (k ∷ ms) m blocks d p = elim (Result-cases (replay_member blocks k d p)) [
    | inl (blocks', e) ↦ rw e (replay-snoc ms m blocks' d p)
    | inr (x, e) ↦ rw e refl
  ]

  -- Replaying a chain oldest first gives, at each position, what the newest member that names the
  -- position has there, and what was there where no member names it.
  pub entry_at-replay :
      (ms : List (BackupFile V)) (blocks : List DataBlockIndexElement) (d p i : ℕ)
      {blocks' : List DataBlockIndexElement}
      → replay (reverse ms) blocks d p ≡ ok blocks'
      → entry_at blocks' i ≡ get_or_else (newest_named ms d p i) (entry_at blocks i)
  unfolding newest_named
  entry_at-replay [] blocks d p i h =
      unfold replay in ap (λ bs. entry_at bs i) (sym (ok-injective h))
  entry_at-replay (m ∷ ms) blocks d p i h =
      let (between, before, after) = >>=-eq_ok _ _ (rw (reverse-cons, replay-snoc) at h) in
      entry_at-replay_member between m d p i after
      ∙ rw (entry_at-replay ms blocks d p i before)
          (get_or_else-or_else (last_named (deltas_of m d p) i) _ _)
