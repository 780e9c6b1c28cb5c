-- ===== src/Write/Offsets.antt =====
-- `copy_actions` and `write_data_region` (src/write.rs): how far the offset of the output goes.
use mrimgx_consolidate.Base.{
  ℕ, ◌+◌, ◌%◌, ◌^◌, ◌≤◌, ◌≡◌, subst, [], ◌∷◌, List, length, ltb, ltb→lt, Option-cases, inl, inr,
  ◌==◌, ==_iff, ok, >>=-eq_ok, ensure-eq_ok, ok-injective, wrong_length, offset_overflow, ap, arith,
}
use mrimgx_consolidate.Index.{DataBlockIndexElement}
use mrimgx_consolidate.Plan.{MergeKind, Action, hole, keep, copy, PartitionPlan}
use mrimgx_consolidate.Write.{
  BlockSource, CopyState, key_of, seen_at, copy_new, copy_block, copy_action, copy_actions,
  WrittenPartition, shape, write_partition, write_partitions,
}

-- The largest signed position, and a block of 32 bits from there.
abbrev pub offset_limit : ℕ
offset_limit = 2 ^ 63 + 2 ^ 32

module _ (source : BlockSource) (number : ℕ) where
  copy_new-low :
      (e : DataBlockIndexElement) (s : CopyState) (r : ℕ × CopyState)
      → copy_new source number e s ≡ ok r
      → r.1.at ≤ offset_limit
  unfolding copy_new
  copy_new-low e s r h =
      let (bytes, read, h1) = >>=-eq_ok (source e.file_number e.file_position e.block_length) _ h in
      let (sized, h2) = ensure-eq_ok (length bytes % 2 ^ 32 == e.block_length) wrong_length _ h1 in
      let (low, h3) = ensure-eq_ok (ltb s.at (2 ^ 63)) offset_overflow _ h2 in
      let at : s.at + e.block_length ≡ r.1.at =
        ap (λ (x : ℕ × CopyState). x.1.at) (ok-injective h3) in
      omega (arith, at, ltb→lt s.at (2 ^ 63) low, (==_iff (length bytes % 2 ^ 32) _).0 sized)

  copy_block-low :
      (e : DataBlockIndexElement) (s : CopyState) (r : ℕ × CopyState)
      → s.at ≤ offset_limit
      → copy_block source number e s ≡ ok r
      → r.1.at ≤ offset_limit
  unfolding copy_block
  copy_block-low e s r low h = elim (Option-cases (seen_at (key_of e) s.seen)) [
    | inl fresh ↦ copy_new-low e s r (rw (copy_block, fresh) at h)
    | inr (already, found) ↦
        let h1 = ok-injective (rw (copy_block, found) at h) in
        subst (λ (x : ℕ × CopyState). x.1.at ≤ offset_limit) h1 low
  ]

  copy_action-low :
      (a : Action) (s : CopyState) (r : DataBlockIndexElement × CopyState)
      → s.at ≤ offset_limit
      → copy_action source number a s ≡ ok r
      → r.1.at ≤ offset_limit
  unfolding copy_action
  copy_action-low hole s r low h =
      subst (λ (x : DataBlockIndexElement × CopyState). x.1.at ≤ offset_limit) (ok-injective h) low
  copy_action-low (keep e) s r low h =
      subst (λ (x : DataBlockIndexElement × CopyState). x.1.at ≤ offset_limit) (ok-injective h) low
  copy_action-low (copy e) s r low h =
      let ((p, s'), copied, h1) = >>=-eq_ok (copy_block source number e s) _ h in
      subst (λ (x : DataBlockIndexElement × CopyState). x.1.at ≤ offset_limit) (ok-injective h1)
        (copy_block-low e s (p, s') low copied)

  copy_actions-low :
      (as' : List Action) (s : CopyState) (r : List DataBlockIndexElement × CopyState)
      → s.at ≤ offset_limit
      → copy_actions source number as' s ≡ ok r
      → r.1.at ≤ offset_limit
  unfolding copy_actions
  copy_actions-low [] s r low h =
      subst (λ (x : List DataBlockIndexElement × CopyState). x.1.at ≤ offset_limit) (ok-injective h)
        low
  copy_actions-low (a ∷ as') s r low h =
      let ((e, s'), first, h1) = >>=-eq_ok (copy_action source number a s) _ h in
      let ((es, s''), later, h2) = >>=-eq_ok (copy_actions source number as' s') _ h1 in
      subst (λ (x : List DataBlockIndexElement × CopyState). x.1.at ≤ offset_limit)
        (ok-injective h2)
        (copy_actions-low as' s' (es, s'') (copy_action-low a s (e, s') low first) later)

  module _ (kind : MergeKind) where
    write_partition-low :
        (part : PartitionPlan) (s : CopyState) (r : WrittenPartition × CopyState)
        → s.at ≤ offset_limit
        → write_partition source kind number part s ≡ ok r
        → r.1.at ≤ offset_limit
    unfolding write_partition
    write_partition-low part s r low h =
        let ((reserved, s'), first, h1) =
          >>=-eq_ok (copy_actions source number part.reserved s) _ h in
        let ((blocks, s''), second, h2) =
          >>=-eq_ok (copy_actions source number part.blocks s') _ h1 in
        let (shaped, shapes, h3) = >>=-eq_ok (shape kind part.positions blocks) _ h2 in
        subst (λ (x : WrittenPartition × CopyState). x.1.at ≤ offset_limit) (ok-injective h3)
          (copy_actions-low part.blocks s' (blocks, s'')
            (copy_actions-low part.reserved s (reserved, s') low first) second)

    -- From an offset within the limit, the partitions are written within it.
    pub write_partitions-low :
        (parts : List PartitionPlan) (s : CopyState) (r : List WrittenPartition × CopyState)
        → s.at ≤ offset_limit
        → write_partitions source kind number parts s ≡ ok r
        → r.1.at ≤ offset_limit
    unfolding write_partitions
    write_partitions-low [] s r low h =
        subst (λ (x : List WrittenPartition × CopyState). x.1.at ≤ offset_limit) (ok-injective h)
          low
    write_partitions-low (p ∷ ps) s r low h =
        let ((w, s'), first, h1) = >>=-eq_ok (write_partition source kind number p s) _ h in
        let ((ws, s''), later, h2) = >>=-eq_ok (write_partitions source kind number ps s') _ h1 in
        subst (λ (x : List WrittenPartition × CopyState). x.1.at ≤ offset_limit) (ok-injective h2)
          (write_partitions-low ps s' (ws, s'') (write_partition-low p s (w, s') low first) later)
