-- ===== src/Plan/Planned.antt =====
-- `build` (src/plan.rs): what becomes of the reserved sectors and of the resolved blocks of every
-- partition of the To file.
use mrimgx_consolidate.Base.{
  ℕ, suc, ◌+◌, ◌≤◌, ◌≡◌, ◌∙◌, sym, ap, refl, sym, subst, true, List, [], ◌∷◌, some, map, get_elem?,
  leb, leb→le, ◌==◌, ==_refl, All, All-append, ok, or_err, >>=-eq_ok, ensure-eq_ok, or_err-eq_ok,
  ok-injective, some-eq, no_partition, no_such_member, not_newest, other_set, from_newer,
  Bool-cases, inl, inr, arith,
}
use text.Mathlib.Text.{◌==◌ as str_eq}
use mrimgx_consolidate.Base.Sets.{contains, Any}
use mrimgx_consolidate.Index.{DataBlockIndexElement}
use mrimgx_consolidate.Json.{Documents, owned_file_numbers}
use mrimgx_consolidate.Json.Numbers.{contains-owned_file_numbers}
use mrimgx_consolidate.Reader.{BackupFile, Disk, Partition}
use mrimgx_consolidate.Set.{BackupSet, Flattened, flatten, partition_at, newest}
use mrimgx_consolidate.Plan.{
  MergeKind, synthetic_full, incremental_merge, PartitionPlan, MergePlan, classify, member_numbers,
  absorbed_file_numbers, changed_positions,
}
use mrimgx_consolidate.Plan.Closure.{closure_over_iff, OwnsInRange}
use mrimgx_consolidate.Plan.Places.{plan_places, disk_places, plan_places-plan_disks}
use mrimgx_consolidate.Plan.Rules.{find_member, member_with_number, check_pair, check_rules}
use mrimgx_consolidate.Plan.Build.{
  plan_blocks, entry_or_hole, resolved_at, plan_partition, plan_partitions, plan_disks, kind_of,
  estimate_metadata, build,
}

-- The pair of rules on the order and the kind of the two files.
check_pair-ordered :
    {V : Type 0} (from to : BackupFile V)
    → check_pair from to ≡ ok tt
    → from.header.increment_number ≤ to.header.increment_number
unfolding check_pair
check_pair-ordered from to h =
    let (_, h1) = ensure-eq_ok (str_eq from.header.imageid to.header.imageid) other_set _ h in
    let (ordered, _) =
      ensure-eq_ok (leb from.header.increment_number to.header.increment_number) from_newer _ h1 in
    leb→le from.header.increment_number to.header.increment_number ordered

-- What a kind of merge plans for a partition: a synthetic Full every resolved block, in order, and
-- an incremental merge the blocks at the changed positions.
abbrev pub PlannedBlocks :
    MergeKind → List ℕ → List ℕ → List DataBlockIndexElement → PartitionPlan → Type 0
PlannedBlocks synthetic_full absorbed changed resolved plan =
    (plan.blocks ≡ map (classify absorbed) resolved) × (plan.positions ≡ [])
PlannedBlocks incremental_merge absorbed changed resolved plan =
    (plan.blocks ≡ map (classify absorbed) (map (entry_or_hole resolved) changed))
    × (plan.positions ≡ changed)

map-classify :
    (absorbed changed : List ℕ) (resolved : List DataBlockIndexElement)
    → map (λ at. classify absorbed (entry_or_hole resolved at)) changed
      ≡ map (classify absorbed) (map (entry_or_hole resolved) changed)
map-classify absorbed [] resolved = refl
map-classify absorbed (at ∷ changed) resolved =
    ap (λ l. classify absorbed (entry_or_hole resolved at) ∷ l)
      (map-classify absorbed changed resolved)

plan_blocks-PlannedBlocks :
    (kind : MergeKind) (absorbed changed : List ℕ) (resolved : List DataBlockIndexElement)
    (plan : PartitionPlan)
    → plan_blocks kind absorbed changed resolved ≡ (plan.blocks, plan.positions)
    → PlannedBlocks kind absorbed changed resolved plan
unfolding plan_blocks
plan_blocks-PlannedBlocks synthetic_full absorbed changed resolved plan h =
    (sym (ap (λ x. x.0) h), sym (ap (λ x. x.1) h))
plan_blocks-PlannedBlocks incremental_merge absorbed changed resolved plan h =
    (sym (ap (λ x. x.0) h) ∙ map-classify absorbed changed resolved, sym (ap (λ x. x.1) h))

module _ {V : Type 0} where
  find_member-Any :
      (ms : List (BackupFile V)) (n : ℕ) (m : BackupFile V)
      → find_member ms n ≡ some m
      → Any (λ x. x ≡ m) ms
  unfolding find_member
  find_member-Any [] n m h = absurd (cc h)
  find_member-Any (x ∷ ms) n m h = elim (Bool-cases (x.header.file_number == n)) [
    | inl here ↦ inl (some-eq (rw here at h))
    | inr later ↦ inr (find_member-Any ms n m (rw later at h))
  ]

  owns_itself :
      (m : BackupFile V) → contains (owned_file_numbers m.header) m.header.file_number ≡ true
  owns_itself m = ground (
    arith,
    contains-owned_file_numbers m.header m.header.file_number,
    ==_refl m.header.file_number,
  )

  member-OwnsInRange :
      (ms : List (BackupFile V)) (m : BackupFile V) (high : ℕ)
      → Any (λ x. x ≡ m) ms
      → m.header.increment_number ≤ high
      → Any (OwnsInRange m.header.increment_number high m.header.file_number) (member_numbers ms)
  member-OwnsInRange [] m high a le = absurd a
  member-OwnsInRange (x ∷ ms) m high (inl same) le =
      let owns : OwnsInRange m.header.increment_number high m.header.file_number
          (m.header.increment_number, owned_file_numbers m.header) =
        (omega arith, le, owns_itself m) in
      inl (
        subst
          (λ (y : BackupFile V).
            OwnsInRange m.header.increment_number high m.header.file_number
              (y.header.increment_number, owned_file_numbers y.header))
          (sym same) owns)
  member-OwnsInRange (x ∷ ms) m high (inr later) le = inr (member-OwnsInRange ms m high later le)

  -- The From file is among the files that are absorbed.
  absorbs_from :
      (s : BackupSet V) (from to : BackupFile V) (n : ℕ)
      → find_member s.members n ≡ some from
      → from.header.increment_number ≤ to.header.increment_number
      → contains (absorbed_file_numbers s from to) from.header.file_number ≡ true
  unfolding absorbed_file_numbers
  absorbs_from s from to n found le =
      (closure_over_iff (member_numbers s.members) from.header.increment_number
          to.header.increment_number from.header.file_number).1
        (member-OwnsInRange s.members from to.header.increment_number
          (find_member-Any s.members n from found) le)

  -- A partition plan of the To file `to`, from the resolved blocks `flat`.
  pub record IsPlanned (s : BackupSet V) (to : BackupFile V) (kind : MergeKind) (absorbed : List ℕ)
      (flat : Flattened) (plan : PartitionPlan) : Type 0 where
    pub origin : Partition
    pub resolved : List DataBlockIndexElement
    pub origin_at : partition_at to plan.disk plan.partition ≡ ok origin
    pub resolved_here : resolved_at flat plan.disk plan.partition ≡ some resolved
    pub reserved : plan.reserved ≡ map (classify absorbed) origin.index.reserved
    pub blocks :
        PlannedBlocks kind absorbed
          (changed_positions s absorbed plan.disk plan.partition)
          resolved
          plan

  plan_partition-IsPlanned :
      (s : BackupSet V) (to : BackupFile V) (kind : MergeKind) (absorbed : List ℕ)
      (flat : Flattened) (d p : ℕ) (part : Partition) (plan : PartitionPlan)
      → partition_at to d p ≡ ok part
      → plan_partition s kind absorbed flat d p part ≡ ok plan
      → IsPlanned s to kind absorbed flat plan
  unfolding plan_partition
  plan_partition-IsPlanned s to kind absorbed flat d p part plan at h =
      let (resolved, found, h1) = >>=-eq_ok (or_err (resolved_at flat d p) no_partition) _ h in
      subst (IsPlanned s to kind absorbed flat) (ok-injective h1) (record {
        origin = part;
        resolved = resolved;
        origin_at = at;
        resolved_here = or_err-eq_ok (resolved_at flat d p) no_partition found;
        reserved = refl;
        blocks =
            plan_blocks-PlannedBlocks kind absorbed (changed_positions s absorbed d p) resolved _
              refl;
      })

  partition_at-found :
      (m : BackupFile V) (d p : ℕ) (disk : Disk) (part : Partition)
      → get_elem? m.disks d ≡ some disk
      → get_elem? disk.partitions p ≡ some part
      → partition_at m d p ≡ ok part
  unfolding partition_at
  partition_at-found m d p disk part in_disks in_parts = rw in_disks (rw in_parts refl)

  plan_partitions-IsPlanned :
      (s : BackupSet V) (to : BackupFile V) (kind : MergeKind) (absorbed : List ℕ)
      (flat : Flattened) (d p : ℕ) (disk : Disk) (parts : List Partition)
      (plans : List PartitionPlan)
      → get_elem? to.disks d ≡ some disk
      → ((k : ℕ) → get_elem? disk.partitions (p + k) ≡ get_elem? parts k)
      → plan_partitions s kind absorbed flat d p parts ≡ ok plans
      → All (IsPlanned s to kind absorbed flat) plans
  unfolding plan_partitions
  plan_partitions-IsPlanned s to kind absorbed flat d p disk [] plans in_disks tail h =
      subst (All (IsPlanned s to kind absorbed flat)) (ok-injective h) tt
  plan_partitions-IsPlanned s to kind absorbed flat d p disk (part ∷ parts) plans in_disks tail h =
      let (plan, now, h1) = >>=-eq_ok (plan_partition s kind absorbed flat d p part) _ h in
      let (rest, later, h2) =
        >>=-eq_ok (plan_partitions s kind absorbed flat d (p + 1) parts) _ h1 in
      let here : p + 0 ≡ p = omega arith in
      let next : (k : ℕ) → p + suc k ≡ p + 1 + k = λ k. omega arith in
      subst (All (IsPlanned s to kind absorbed flat)) (ok-injective h2) (
        plan_partition-IsPlanned s to kind absorbed flat d p part plan
            (partition_at-found to d p disk part in_disks (rw here at (tail 0))) now,
        plan_partitions-IsPlanned s to kind absorbed flat d (p + 1) disk parts rest in_disks
            (λ k. rw (next k) at (tail (suc k))) later,
      )

  plan_disks-IsPlanned :
      (s : BackupSet V) (to : BackupFile V) (kind : MergeKind) (absorbed : List ℕ)
      (flat : Flattened) (d : ℕ) (disks : List Disk) (plans : List PartitionPlan)
      → ((k : ℕ) → get_elem? to.disks (d + k) ≡ get_elem? disks k)
      → plan_disks s kind absorbed flat d disks ≡ ok plans
      → All (IsPlanned s to kind absorbed flat) plans
  unfolding plan_disks
  plan_disks-IsPlanned s to kind absorbed flat d [] plans tail h =
      subst (All (IsPlanned s to kind absorbed flat)) (ok-injective h) tt
  plan_disks-IsPlanned s to kind absorbed flat d (disk ∷ disks) plans tail h =
      let (first, now, h1) =
        >>=-eq_ok (plan_partitions s kind absorbed flat d 0 disk.partitions) _ h in
      let (rest, later, h2) = >>=-eq_ok (plan_disks s kind absorbed flat (d + 1) disks) _ h1 in
      let here : d + 0 ≡ d = omega arith in
      let start : (k : ℕ) → 0 + k ≡ k = λ k. omega arith in
      let next : (k : ℕ) → d + suc k ≡ d + 1 + k = λ k. omega arith in
      subst (All (IsPlanned s to kind absorbed flat)) (ok-injective h2) (
        All-append (IsPlanned s to kind absorbed flat) first rest
          (plan_partitions-IsPlanned s to kind absorbed flat d 0 disk disk.partitions first
            (rw here at (tail 0)) (λ k. rw (start k) refl) now)
          (plan_disks-IsPlanned s to kind absorbed flat (d + 1) disks rest
            (λ k. rw (next k) at (tail (suc k))) later))

module _ (J : Documents) where
  open J use {Value}

  -- A plan of the merge of `from` through `to` of a set.
  pub record IsPlan (s : BackupSet Value) (from_number to_number : ℕ) (plan : MergePlan)
      : Type 0 where
    pub from : BackupFile Value
    pub to : BackupFile Value
    pub flat : Flattened
    pub from_found : find_member s.members from_number ≡ some from
    pub to_found : find_member s.members to_number ≡ some to
    pub flattened : flatten s ≡ ok flat
    pub absorbed_is : plan.absorbed ≡ absorbed_file_numbers s from to
    pub absorbs_itself : contains plan.absorbed plan.out_file_number ≡ true
    pub kind_is : plan.kind ≡ kind_of from
    pub out_file : plan.out_file_number ≡ from.header.file_number
    pub covers : plan_places plan.partitions ≡ disk_places 0 to.disks
    pub partitions : All (IsPlanned s to plan.kind plan.absorbed flat) plan.partitions

  -- A plan that is built absorbs the number that its output claims, which is that of the From file,
  -- covers every partition of the To file in order, and holds for each the classified reserved
  -- sectors of that file and the classified resolved blocks of the set: all of them for a synthetic Full, those at the changed positions otherwise.
  pub build-IsPlan :
      (s : BackupSet Value) (from_number to_number : ℕ) (plan : MergePlan)
      → build J s from_number to_number ≡ ok plan
      → IsPlan s from_number to_number plan
  unfolding build check_rules member_with_number
  build-IsPlan s from_number to_number plan h =
      let (from, is_from, h1) = >>=-eq_ok (member_with_number s from_number) _ h in
      let (to, is_to, h2) = >>=-eq_ok (member_with_number s to_number) _ h1 in
      let (u, allowed, h3) = >>=-eq_ok (check_rules J s from to) _ h2 in
      let (first, is_newest, h4) = >>=-eq_ok (newest s) _ h3 in
      let (same, h5) =
        ensure-eq_ok (to.header.file_number == first.header.file_number) not_newest _ h4 in
      let (flat, flattened, h6) = >>=-eq_ok (flatten s) _ h5 in
      let absorbed = absorbed_file_numbers s from to in
      let (parts, planned, h7) =
        >>=-eq_ok (plan_disks s (kind_of from) absorbed flat 0 to.disks) _ h6 in
      let (size, measured, h8) = >>=-eq_ok (estimate_metadata to parts (kind_of from)) _ h7 in
      let (v, paired, _) = >>=-eq_ok (check_pair from to) _ allowed in
      let found = or_err-eq_ok (find_member s.members from_number) no_such_member is_from in
      let start : (k : ℕ) → 0 + k ≡ k = λ k. omega arith in
      subst (IsPlan s from_number to_number) (ok-injective h8) (record {
        from = from;
        to = to;
        flat = flat;
        from_found = found;
        to_found = or_err-eq_ok (find_member s.members to_number) no_such_member is_to;
        flattened = flattened;
        absorbed_is = refl;
        absorbs_itself =
            absorbs_from s from to from_number found (check_pair-ordered from to paired);
        kind_is = refl;
        covers = plan_places-plan_disks s (kind_of from) absorbed flat 0 to.disks parts planned;
        out_file = refl;
        partitions =
            plan_disks-IsPlanned s to (kind_of from) absorbed flat 0 to.disks parts
              (λ k. rw (start k) refl) planned;
      })
