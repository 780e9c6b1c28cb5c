-- ===== src/Block/Walk.antt =====
-- `walk_list` (src/block.rs): the chains of block headers that a list may be.
use mrimgx_consolidate.Base.{
  ℕ, zero, suc, ◌+◌, ◌≤◌, ◌<◌, ◌≡◌, ◌≢◌, ◌↔◌, refl, sym, subst, ◌∙◌, true, false, List, [], ◌∷◌,
  ◌++◌, append_assoc, length, length-append, ltb, Error, ok, err, ok-injective, ensure-eq_ok,
  lt→ltb, ltb→lt, ensure, ◌>>◌, out_of_fuel, list_too_long, Bool-cases, Result-cases, inl, inr,
  arith,
}
use mrimgx_consolidate.Base.Bytes.{Bytes}
use mrimgx_consolidate.Block.{
  MetadataBlockHeader, Located, BlockList, end_of, read_exact, parse_header, read_header, walk_loop,
  walk_list, max_blocks_per_list,
}

-- Headers that follow one another from `offset` on, the last one alone with its flag set.
abbrev pub Chain : Bytes → ℕ → List Located → ℕ → Type 0
Chain file offset [] end = ⊥
Chain file offset (b ∷ []) end =
    (read_header file offset ≡ ok b.header)
    × (b.offset ≡ offset)
    × (b.header.flags.last_block ≡ true)
    × (end ≡ end_of b)
Chain file offset (b ∷ c ∷ bs) end =
    (read_header file offset ≡ ok b.header)
    × (b.offset ≡ offset)
    × (b.header.flags.last_block ≡ false)
    × Chain file (end_of b) (c ∷ bs) end

abbrev at_offset : MetadataBlockHeader → ℕ → Located
at_offset h offset = record { header = h; offset = offset }

-- The three ways in which a round can end.
module _ (fuel : ℕ) (file : Bytes) (b : Located) (blocks : List Located) where
  walk_last :
      read_header file b.offset ≡ ok b.header
      → b.header.flags.last_block ≡ true
      → walk_loop (suc fuel) file b.offset blocks
        ≡ ok (record { blocks = blocks ++ (b ∷ []); end = end_of b })
  unfolding walk_loop
  walk_last e last = rw e (rw last refl)

  walk_more :
      read_header file b.offset ≡ ok b.header
      → b.header.flags.last_block ≡ false
      → walk_loop (suc fuel) file b.offset blocks ≡ (
          ensure (ltb (length (blocks ++ (b ∷ []))) max_blocks_per_list) list_too_long
          >> walk_loop fuel file (end_of b) (blocks ++ (b ∷ [])))
  unfolding walk_loop
  walk_more e more = rw e (rw more refl)

walk_failed :
    (fuel : ℕ) (file : Bytes) (offset : ℕ) (blocks : List Located) (e : Error)
    → read_header file offset ≡ err e
    → walk_loop (suc fuel) file offset blocks ≡ err e
unfolding walk_loop
walk_failed fuel file offset blocks e h = rw h refl

length-snoc : (bs : List Located) (b : Located) → length (bs ++ (b ∷ [])) ≡ length bs + 1
length-snoc bs b = length-append bs (b ∷ [])

-- A chain that fits is read in full.
walk_loop-Chain :
    (bs : List Located) (fuel : ℕ) (file : Bytes) (offset end : ℕ) (blocks : List Located)
    → Chain file offset bs end
    → length bs ≤ fuel
    → length blocks + length bs ≤ max_blocks_per_list
    → walk_loop fuel file offset blocks ≡ ok (record { blocks = blocks ++ bs; end = end })
walk_loop-Chain [] fuel file offset end blocks h hf room = absurd h
walk_loop-Chain (b ∷ bs) zero file offset end blocks h hf room = absurd (omega arith)
walk_loop-Chain (b ∷ []) (suc fuel) file offset end blocks (read, at, last, ends) hf room =
    rw (ends, ← at) (walk_last fuel file b blocks (rw (← at) at read) last)
walk_loop-Chain (b ∷ c ∷ bs) (suc fuel) file offset end blocks (read, at, more, rest) hf room =
    let blocks' : List Located = blocks ++ (b ∷ []) in
    let fits : ltb (length blocks') max_blocks_per_list ≡ true =
      lt→ltb _ _ (omega (arith, length-snoc blocks b)) in
    let ih : walk_loop fuel file (end_of b) blocks'
        ≡ ok (record { blocks = blocks' ++ (c ∷ bs); end = end }) =
      walk_loop-Chain (c ∷ bs) fuel file (end_of b) end blocks' rest (omega arith)
        (omega (arith, length-snoc blocks b)) in
    rw (← at) (
      walk_more fuel file b blocks (rw (← at) at read) more
      ∙ rw (fits, ih) (rw (append_assoc blocks (b ∷ []) (c ∷ bs)) refl))

-- What is read is a chain, of at most 64 blocks.
Walked : Bytes → ℕ → List Located → BlockList → Type 0
Walked file offset blocks l =
    (bs : List Located) × (l.blocks ≡ blocks ++ bs)
    × Chain file offset bs l.end
    × (length blocks + length bs ≤ max_blocks_per_list)

Walked-more :
    (file : Bytes) (offset : ℕ) (blocks : List Located) (l : BlockList) (h : MetadataBlockHeader)
    → read_header file offset ≡ ok h
    → h.flags.last_block ≡ false
    → Walked file (end_of (at_offset h offset)) (blocks ++ (at_offset h offset ∷ [])) l
    → Walked file offset blocks l
unfolding Walked
Walked-more file offset blocks l h read more ([], e, c, room) = absurd c
Walked-more file offset blocks l h read more (b ∷ bs, e, c, room) = (
  at_offset h offset ∷ b ∷ bs,
  e ∙ append_assoc blocks (at_offset h offset ∷ []) (b ∷ bs),
  (read, refl, more, c),
  omega (arith, length-snoc blocks (at_offset h offset)),
)

walk_loop-Walked :
    (fuel : ℕ) (file : Bytes) (offset : ℕ) (blocks : List Located) (l : BlockList)
    → length blocks < max_blocks_per_list
    → walk_loop fuel file offset blocks ≡ ok l
    → Walked file offset blocks l
walk_loop-Walked zero file offset blocks l room h = unfold walk_loop in cc h
walk_loop-Walked (suc fuel) file offset blocks l room h =
    elim (Result-cases (read_header file offset)) [
      | inr (e, failed) ↦ cc (h, walk_failed fuel file offset blocks e failed)
      | inl (hd, read) ↦ elim (Bool-cases hd.flags.last_block) [
        | inl last ↦
            let b : Located = at_offset hd offset in
            let same : record { blocks = blocks ++ (b ∷ []); end = end_of b } ≡ l =
              ok-injective (sym (walk_last fuel file (at_offset hd offset) blocks read last) ∙ h) in
            subst (Walked file offset blocks) same
              (unfold Walked in (b ∷ [], refl, (read, refl, last, refl), omega arith))
        | inr more ↦
            let (fits, rest) =
              ensure-eq_ok _ _ _
                (sym (walk_more fuel file (at_offset hd offset) blocks read more) ∙ h) in
            Walked-more file offset blocks l hd read more
              (walk_loop-Walked fuel file _ _ l (ltb→lt _ _ fits) rest)
      ]
    ]

read_header-ne_fuel : (file : Bytes) (offset : ℕ) → read_header file offset ≢ err out_of_fuel
unfolding read_header read_exact parse_header
read_header-ne_fuel file offset h = ground arith

walk_loop-ne_fuel :
    (fuel : ℕ) (file : Bytes) (offset : ℕ) (blocks : List Located)
    → length blocks < max_blocks_per_list
    → max_blocks_per_list ≤ length blocks + fuel
    → walk_loop fuel file offset blocks ≢ err out_of_fuel
walk_loop-ne_fuel zero file offset blocks room enough h = absurd (omega arith)
walk_loop-ne_fuel (suc fuel) file offset blocks room enough h =
    elim (Result-cases (read_header file offset)) [
      | inr (e, failed) ↦
          read_header-ne_fuel file offset
            (cc (failed, walk_failed fuel file offset blocks e failed, h))
      | inl (hd, read) ↦ elim (Bool-cases hd.flags.last_block) [
        | inl last ↦ cc (h, walk_last fuel file (at_offset hd offset) blocks read last)
        | inr more ↦
            let blocks' : List Located = blocks ++ (at_offset hd offset ∷ []) in
            elim (Bool-cases (ltb (length blocks') max_blocks_per_list)) [
              | inl fits ↦
                  walk_loop-ne_fuel fuel file _ blocks' (ltb→lt _ _ fits)
                    (omega (arith, length-snoc blocks (at_offset hd offset)))
                    (rw fits at
                      (sym (walk_more fuel file (at_offset hd offset) blocks read more) ∙ h))
              | inr full ↦ cc (
                  rw full at (sym (walk_more fuel file (at_offset hd offset) blocks read more) ∙ h))
            ]
      ]
    ]

-- A walk always ends: the loop makes at most 64 rounds.
pub walk_list-ne_fuel : (file : Bytes) (start : ℕ) → walk_list file start ≢ err out_of_fuel
unfolding walk_list
walk_list-ne_fuel file start =
    walk_loop-ne_fuel max_blocks_per_list file start [] (omega arith) (omega arith)

Walked-start :
    (file : Bytes) (start : ℕ) (l : BlockList)
    → Walked file start [] l
    → Chain file start l.blocks l.end × (length l.blocks ≤ max_blocks_per_list)
unfolding Walked
Walked-start file start l (bs, e, c, room) =
    let fits : length bs ≤ max_blocks_per_list = omega arith in rw e (c, fits)

-- A walk gives a list exactly when the file holds that chain of headers, with at most 64 of them.
pub walk_list_iff :
    (file : Bytes) (start : ℕ) (l : BlockList)
    → (walk_list file start ≡ ok l)
      ↔ (Chain file start l.blocks l.end × (length l.blocks ≤ max_blocks_per_list))
unfolding walk_list
walk_list_iff file start l = (
  λ h.
      Walked-start file start l
        (walk_loop-Walked max_blocks_per_list file start [] l (omega arith) h),
  λ c. walk_loop-Chain l.blocks max_blocks_per_list file start l.end [] c.0 c.1 (omega arith),
)
