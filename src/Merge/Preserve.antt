-- ===== src/Merge/Preserve.antt =====
-- One block of a merge: planned by `classify` (src/plan.rs), written by `copy_actions`
-- (src/write.rs).
use mrimgx_consolidate.Base.{
  ℕ, ◌≡◌, ◌⊎◌, ◌∙◌, refl, sym, subst, true, false, List, [], ◌∷◌, map, ◌==◌, ==_iff, Bool-cases,
  inl, inr, arith,
}
use mrimgx_consolidate.Base.Int.{ℤ, pos, negsuc}
use mrimgx_consolidate.Base.Bytes.{Bytes}
use mrimgx_consolidate.Base.Sets.{contains, lookup}
use mrimgx_consolidate.Block.{read_exact}
use mrimgx_consolidate.Index.{DataBlockIndexElement, default_element, is_hole}
use mrimgx_consolidate.Plan.{Action, hole, keep, copy, classify}
use mrimgx_consolidate.Write.{BlockSource, read_source, key_of, moved}
use mrimgx_consolidate.Write.Source.{read_source-ReadsExactly}
use mrimgx_consolidate.Write.Copied.{IsStored, IsWritten, AllWritten}
use mrimgx_consolidate.Merge.{fetch, with_output}

-- What a merge that absorbs `absorbed` into file `number` owes to a stored block.
pub record KeepsBlock (before after : BlockSource) (absorbed : List ℕ) (number : ℕ)
    (old new : DataBlockIndexElement) : Type 0 where
  pub a_block : is_hole old ≡ false
  pub same_hash : new.md5_hash ≡ old.md5_hash
  pub same_length : new.block_length ≡ old.block_length
  pub same_bytes : fetch after new ≡ fetch before old
  pub lasting : (contains absorbed new.file_number ≡ false) ⊎ (new.file_number ≡ number)

-- A hole stays a hole, and a block is kept.
abbrev pub IsPreserved :
    BlockSource → BlockSource → List ℕ → ℕ → DataBlockIndexElement → DataBlockIndexElement → Type 0
IsPreserved before after absorbed number old new =
    ((is_hole old ≡ true) × (new ≡ default_element))
    ⊎ KeepsBlock before after absorbed number old new

-- The same of an array, entry by entry, when `out` answers for `number`.
module _ (handles : List (ℕ × Bytes)) (out : Bytes) (absorbed : List ℕ) (number : ℕ) where
  abbrev pub Preserved : DataBlockIndexElement → DataBlockIndexElement → Type 0
  Preserved =
      IsPreserved (read_source handles) (read_source (with_output number out handles)) absorbed
        number

  abbrev pub AllPreserved : List DataBlockIndexElement → List DataBlockIndexElement → Type 0
  AllPreserved [] [] = Unit
  AllPreserved (old ∷ olds) (new ∷ news) = Preserved old new × AllPreserved olds news
  AllPreserved _ _ = ⊥

read_other :
    (handles : List (ℕ × Bytes)) (number : ℕ) (out : Bytes) (k : ℕ) (z : ℤ) (n : ℕ)
    → (number == k) ≡ false
    → read_source (with_output number out handles) k z n ≡ read_source handles k z n
unfolding read_source lookup
read_other handles number out k (pos p) n h = rw h refl
read_other handles number out k (negsuc p) n h = rw h refl

pub read_output :
    (handles : List (ℕ × Bytes)) (number : ℕ) (out : Bytes) (q n : ℕ)
    → read_source (with_output number out handles) number (pos q) n ≡ read_exact out q n
unfolding read_source lookup
read_output handles number out q n = rw ((==_iff number number).1 refl) refl

not_self :
    (absorbed : List ℕ) (number k : ℕ)
    → contains absorbed number ≡ true
    → contains absorbed k ≡ false
    → (number == k) ≡ false
not_self absorbed number k h g = ground (arith, h, g)

module _ (absorbed : List ℕ) (old : DataBlockIndexElement) where
  pub classify-hole : is_hole old ≡ true → classify absorbed old ≡ hole
  unfolding classify
  classify-hole h = rw h refl

  pub classify-copy :
      is_hole old ≡ false
      → contains absorbed old.file_number ≡ true
      → classify absorbed old ≡ copy old
  unfolding classify
  classify-copy h g = rw h (rw g refl)

  pub classify-keep :
      is_hole old ≡ false
      → contains absorbed old.file_number ≡ false
      → classify absorbed old ≡ keep old
  unfolding classify
  classify-keep h g = rw h (rw g refl)

module _ (handles : List (ℕ × Bytes)) (out : Bytes) (absorbed : List ℕ) (number : ℕ)
    (own : contains absorbed number ≡ true) where
  abbrev Written : Action → DataBlockIndexElement → Type 0
  Written = IsWritten (read_source handles) (read_source-ReadsExactly handles) number out

  keep-KeepsBlock :
      (old : DataBlockIndexElement)
      → is_hole old ≡ false
      → contains absorbed old.file_number ≡ false
      → Preserved handles out absorbed number old old
  keep-KeepsBlock old block stays = inr (record {
    a_block = block;
    same_hash = refl;
    same_length = refl;
    same_bytes =
        read_other handles number out old.file_number old.file_position old.block_length
          (not_self absorbed number old.file_number own stays);
    lasting = inl stays;
  })

  copy-KeepsBlock :
      (old : DataBlockIndexElement) (q : ℕ)
      → is_hole old ≡ false
      → IsStored (read_source handles) out (key_of old) q
      → Preserved handles out absorbed number old (moved old q number)
  copy-KeepsBlock old q block stored = inr (record {
    a_block = block;
    same_hash = refl;
    same_length = refl;
    same_bytes =
        read_output handles number out q old.block_length
        ∙ (stored.in_output ∙ sym stored.from_source);
    lasting = inr refl;
  })

  -- A block that is planned by `classify` and written by the copy loop is preserved: a hole is
  -- written as a hole, and a block keeps its hash, its length and its stored bytes, once the output
  -- answers for its number, and names a file that is not absorbed or the output. The condition is
  -- that the output's number is itself absorbed.
  pub IsWritten-IsPreserved :
      (old new : DataBlockIndexElement)
      → Written (classify absorbed old) new
      → Preserved handles out absorbed number old new
  IsWritten-IsPreserved old new w = elim (Bool-cases (is_hole old)) [
    | inl a_hole ↦ inl (a_hole, subst (λ a. Written a new) (classify-hole absorbed old a_hole) w)
    | inr block ↦ elim (Bool-cases (contains absorbed old.file_number)) [
      | inl gone ↦
          let (q, same, stored) =
            subst (λ a. Written a new) (classify-copy absorbed old block gone) w in
          subst (Preserved handles out absorbed number old) (sym same)
            (copy-KeepsBlock old q block stored)
      | inr stays ↦
          let same : new ≡ old =
            subst (λ a. Written a new) (classify-keep absorbed old block stays) w in
          subst (Preserved handles out absorbed number old) (sym same)
            (keep-KeepsBlock old block stays)
    ]
  ]

  pub AllWritten-AllPreserved :
      (olds news : List DataBlockIndexElement)
      → AllWritten
          (read_source handles)
          (read_source-ReadsExactly handles)
          number
          out
          (map (classify absorbed) olds)
          news
      → AllPreserved handles out absorbed number olds news
  AllWritten-AllPreserved [] [] h = tt
  AllWritten-AllPreserved [] (new ∷ news) h = absurd h
  AllWritten-AllPreserved (old ∷ olds) [] h = absurd h
  AllWritten-AllPreserved (old ∷ olds) (new ∷ news) (h, hs) =
      (IsWritten-IsPreserved old new h, AllWritten-AllPreserved olds news hs)
