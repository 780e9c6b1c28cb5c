-- ===== src/Write/Region.antt =====
-- `write_data_region` (src/write.rs): every partition of the plan, and the padding behind them.
use mrimgx_consolidate.Base.{
  ℕ, zero, ◌+◌, ◌-◌, ◌%◌, ◌≤◌, ◌<◌, ◌≡◌, refl, sym, ap, subst, List, [], ◌∷◌, ◌++◌, length,
  length-append, length-replicate, replicate, ok, >>=-eq_ok, ensure-eq_ok, ok-injective, ◌==◌,
  ==_iff, positions_differ, arith,
}
use mrimgx_consolidate.Base.Bytes.{Bytes}
use mrimgx_consolidate.Block.{align_up, data_alignment}
use mrimgx_consolidate.Block.Footer.{align_up-fits}
use mrimgx_consolidate.Index.{DataBlockIndexElement, DeltaDataBlock, Blocks, full, delta}
use mrimgx_consolidate.Plan.{MergeKind, synthetic_full, incremental_merge, PartitionPlan, MergePlan}
use mrimgx_consolidate.Write.{
  BlockSource, CopyState, copy_actions, zip_delta, shape, WrittenPartition, DataRegion,
  write_partition, write_partitions, start_state, write_data_region,
}
use mrimgx_consolidate.Write.Source.{ReadsExactly}
use mrimgx_consolidate.Write.Padding.{write_zeros-append_all}
use mrimgx_consolidate.Write.Offsets.{write_partitions-low}
use mrimgx_consolidate.Write.Copied.{
  IsCopyState, Grows, Grows-refl, Grows-trans, AllWritten, AllWritten-append,
  copy_actions-DidActions,
}

-- The elements of a delta list, and the positions that they replace.
abbrev pub elements_of : List DeltaDataBlock → List DataBlockIndexElement
elements_of [] = []
elements_of (d ∷ ds) = d.element ∷ elements_of ds

abbrev pub positions_of : List DeltaDataBlock → List ℕ
positions_of [] = []
positions_of (d ∷ ds) = d.block_index ∷ positions_of ds

elements_of-zip_delta :
    (es : List DataBlockIndexElement) (ps : List ℕ)
    → length ps ≡ length es
    → (elements_of (zip_delta es ps) ≡ es) × (positions_of (zip_delta es ps) ≡ ps)
elements_of-zip_delta [] [] h = (refl, refl)
elements_of-zip_delta [] (p ∷ ps) h = absurd (omega arith)
elements_of-zip_delta (e ∷ es) [] h = absurd (omega arith)
elements_of-zip_delta (e ∷ es) (p ∷ ps) h =
    let (same, at) = elements_of-zip_delta es ps (omega arith) in
    (ap (λ l. e ∷ l) same, ap (λ l. p ∷ l) at)

module _ (source : BlockSource) (exact : ReadsExactly source) (out_file_number : ℕ) where
  -- The block array of an output: dense for a synthetic Full, and otherwise a delta list at the
  -- planned positions.
  abbrev pub BlocksWritten : Bytes → MergeKind → PartitionPlan → Blocks → Type 0
  BlocksWritten out synthetic_full part (full entries) =
      AllWritten source exact out_file_number out part.blocks entries
  BlocksWritten out incremental_merge part (delta ds) =
      (positions_of ds ≡ part.positions)
      × AllWritten source exact out_file_number out part.blocks (elements_of ds)
  BlocksWritten out _ part _ = ⊥

  pub record PartitionWritten (out : Bytes) (kind : MergeKind) (part : PartitionPlan)
      (w : WrittenPartition) : Type 0 where
    pub same_disk : w.disk ≡ part.disk
    pub same_partition : w.partition ≡ part.partition
    pub reserved : AllWritten source exact out_file_number out part.reserved w.index.reserved
    pub blocks : BlocksWritten out kind part w.index.blocks

  abbrev pub AllPartitionsWritten :
      Bytes → MergeKind → List PartitionPlan → List WrittenPartition → Type 0
  AllPartitionsWritten out kind [] [] = Unit
  AllPartitionsWritten out kind (p ∷ ps) (w ∷ ws) =
      PartitionWritten out kind p w × AllPartitionsWritten out kind ps ws
  AllPartitionsWritten out kind _ _ = ⊥

  shape-BlocksWritten :
      (out : Bytes) (kind : MergeKind) (part : PartitionPlan) (entries : List DataBlockIndexElement)
      (b : Blocks)
      → shape kind part.positions entries ≡ ok b
      → AllWritten source exact out_file_number out part.blocks entries
      → BlocksWritten out kind part b
  unfolding shape
  shape-BlocksWritten out synthetic_full part entries b h w =
      subst (BlocksWritten out synthetic_full part) (ok-injective h) w
  shape-BlocksWritten out incremental_merge part entries b h w =
      let (same, h1) =
        ensure-eq_ok (length part.positions == length entries) positions_differ _ h in
      let (elements, positions) =
        elements_of-zip_delta entries part.positions ((==_iff _ _).0 same) in
      subst (BlocksWritten out incremental_merge part) (ok-injective h1) (
        positions,
        subst (AllWritten source exact out_file_number out part.blocks) (sym elements) w,
      )

  BlocksWritten-append :
      (out more : Bytes) (kind : MergeKind) (part : PartitionPlan) (b : Blocks)
      → BlocksWritten out kind part b
      → BlocksWritten (out ++ more) kind part b
  BlocksWritten-append out more synthetic_full part (full es) h =
      AllWritten-append source exact out_file_number out more part.blocks es h
  BlocksWritten-append out more synthetic_full part (delta ds) h = absurd h
  BlocksWritten-append out more incremental_merge part (full es) h = absurd h
  BlocksWritten-append out more incremental_merge part (delta ds) (at, h) =
      (at, AllWritten-append source exact out_file_number out more part.blocks (elements_of ds) h)

  PartitionWritten-append :
      (out more : Bytes) (kind : MergeKind) (part : PartitionPlan) (w : WrittenPartition)
      → PartitionWritten out kind part w
      → PartitionWritten (out ++ more) kind part w
  PartitionWritten-append out more kind part w h = record {
    same_disk = h.same_disk;
    same_partition = h.same_partition;
    reserved =
        AllWritten-append source exact out_file_number out more part.reserved w.index.reserved
          h.reserved;
    blocks = BlocksWritten-append out more kind part w.index.blocks h.blocks;
  }

  AllPartitionsWritten-append :
      (out more : Bytes) (kind : MergeKind) (ps : List PartitionPlan) (ws : List WrittenPartition)
      → AllPartitionsWritten out kind ps ws
      → AllPartitionsWritten (out ++ more) kind ps ws
  AllPartitionsWritten-append out more kind [] [] h = h
  AllPartitionsWritten-append out more kind [] (w ∷ ws) h = absurd h
  AllPartitionsWritten-append out more kind (p ∷ ps) [] h = absurd h
  AllPartitionsWritten-append out more kind (p ∷ ps) (w ∷ ws) (h, hs) = (
    PartitionWritten-append out more kind p w h,
    AllPartitionsWritten-append out more kind ps ws hs,
  )

  record DidPartition (kind : MergeKind) (part : PartitionPlan) (s : CopyState)
      (r : WrittenPartition × CopyState) : Type 0 where
    state : IsCopyState source r.1
    grows : Grows s r.1
    written : PartitionWritten r.1.out kind part r.0

  write_partition-DidPartition :
      (kind : MergeKind) (part : PartitionPlan) (s : CopyState) (r : WrittenPartition × CopyState)
      → IsCopyState source s
      → write_partition source kind out_file_number part s ≡ ok r
      → DidPartition kind part s r
  unfolding write_partition
  write_partition-DidPartition kind part s r inv h =
      let ((reserved, s'), first, h1) =
        >>=-eq_ok (copy_actions source out_file_number part.reserved s) _ h in
      let ((blocks, s''), second, h2) =
        >>=-eq_ok (copy_actions source out_file_number part.blocks s') _ h1 in
      let (shaped, shapes, h3) = >>=-eq_ok (shape kind part.positions blocks) _ h2 in
      let one =
        copy_actions-DidActions source exact out_file_number part.reserved s (reserved, s') inv
          first in
      let two =
        copy_actions-DidActions source exact out_file_number part.blocks s' (blocks, s'') one.state
          second in
      let (more, grown) = two.grows in
      subst (DidPartition kind part s) (ok-injective h3) (record {
        state = two.state;
        grows = Grows-trans s s' s'' one.grows two.grows;
        written = record {
          same_disk = refl;
          same_partition = refl;
          reserved =
              subst (λ o. AllWritten source exact out_file_number o part.reserved reserved)
                (sym grown)
                (AllWritten-append source exact out_file_number s'.out more part.reserved reserved
                  one.written);
          blocks = shape-BlocksWritten s''.out kind part blocks shaped shapes two.written;
        };
      })

  record DidPartitions (kind : MergeKind) (ps : List PartitionPlan) (s : CopyState)
      (r : List WrittenPartition × CopyState) : Type 0 where
    state : IsCopyState source r.1
    written : AllPartitionsWritten r.1.out kind ps r.0
    grows : Grows s r.1

  write_partitions-DidPartitions :
      (kind : MergeKind) (ps : List PartitionPlan) (s : CopyState)
      (r : List WrittenPartition × CopyState)
      → IsCopyState source s
      → write_partitions source kind out_file_number ps s ≡ ok r
      → DidPartitions kind ps s r
  unfolding write_partitions
  write_partitions-DidPartitions kind [] s r inv h =
      subst (DidPartitions kind [] s) (ok-injective h)
        (record { state = inv; written = tt; grows = Grows-refl s })
  write_partitions-DidPartitions kind (p ∷ ps) s r inv h =
      let ((w, s'), first, h1) = >>=-eq_ok (write_partition source kind out_file_number p s) _ h in
      let ((ws, s''), later, h2) =
        >>=-eq_ok (write_partitions source kind out_file_number ps s') _ h1 in
      let one = write_partition-DidPartition kind p s (w, s') inv first in
      let rest = write_partitions-DidPartitions kind ps s' (ws, s'') one.state later in
      let (more, grown) = rest.grows in
      subst (DidPartitions kind (p ∷ ps) s) (ok-injective h2) (record {
        state = rest.state;
        written = (
          subst (λ o. PartitionWritten o kind p w) (sym grown)
              (PartitionWritten-append s'.out more kind p w one.written),
          rest.written,
        );
        grows = Grows-trans s s' s'' one.grows rest.grows;
      })

  -- A finished data region.
  pub record IsRegion (plan : MergePlan) (region : DataRegion) (out : Bytes) : Type 0 where
    pub size : length out ≡ region.end
    pub aligned : region.end % data_alignment ≡ 0
    pub payload_fits : region.payload_bytes ≤ region.end
    pub padding_short : region.end < region.payload_bytes + data_alignment
    pub partitions : AllPartitionsWritten out plan.kind plan.partitions region.partitions

  RegionOf : MergePlan → (DataRegion × Bytes) → Type 0
  RegionOf plan (region, out) = IsRegion plan region out

  -- A region that is written, from an empty output, has the size that it reports, which is the
  -- least multiple of 4096 that holds the payload. For every action of the plan there is an entry: a
  -- hole is all zeros, a kept entry is unchanged, and a copied one keeps its hash and its length,
  -- names the output, and points at bytes of the output that equal those of the source.
  pub write_data_region-IsRegion :
      (plan : MergePlan) (region : DataRegion) (out : Bytes)
      → write_data_region plan source [] out_file_number ≡ ok (region, out)
      → IsRegion plan region out
  unfolding write_data_region RegionOf
  write_data_region-IsRegion plan region out h =
      let ((ws, s), wrote, h1) =
        >>=-eq_ok
          (write_partitions source plan.kind out_file_number plan.partitions (start_state [])) _
          h in
      let did =
        write_partitions-DidPartitions plan.kind plan.partitions (start_state []) (ws, s)
          (record { size = refl; stored = tt }) wrote in
      let padding : Bytes = replicate (align_up s.at - s.at) 0 in
      let whole = rw write_zeros-append_all at h1 in
      let low =
        write_partitions-low source out_file_number plan.kind plan.partitions (start_state [])
          (ws, s) (omega arith) wrote in
      let (aligned, fits, short) = align_up-fits s.at (omega (arith, low)) in
      subst (RegionOf plan) (ok-injective whole) (record {
        size = omega (
          arith,
          length-append s.out padding,
          length-replicate (align_up s.at - s.at) zero,
          did.state.size,
          fits,
        );
        aligned = aligned;
        payload_fits = fits;
        padding_short = short;
        partitions =
            AllPartitionsWritten-append s.out padding plan.kind plan.partitions ws did.written;
      })
