-- ===== src/Plan/Places.antt =====
-- `build` (src/plan.rs): the disks and partitions that a plan covers.
use mrimgx_consolidate.Base.{
  ℕ, ◌+◌, ◌≡◌, ◌∙◌, refl, sym, ap, List, [], ◌∷◌, ◌++◌, ok, or_err, no_partition, >>=-eq_ok,
  ok-injective,
}
use mrimgx_consolidate.Reader.{Disk, Partition}
use mrimgx_consolidate.Set.{BackupSet, Flattened}
use mrimgx_consolidate.Plan.{MergeKind, PartitionPlan}
use mrimgx_consolidate.Plan.Build.{resolved_at, plan_partition, plan_partitions, plan_disks}

-- The disk and the partition number of each partition, in the order of the file.
abbrev pub partition_places : ℕ → ℕ → List Partition → List (ℕ × ℕ)
partition_places d p [] = []
partition_places d p (part ∷ parts) = (d, p) ∷ partition_places d (p + 1) parts

abbrev pub disk_places : ℕ → List Disk → List (ℕ × ℕ)
disk_places d [] = []
disk_places d (disk ∷ disks) = partition_places d 0 disk.partitions ++ disk_places (d + 1) disks

abbrev pub plan_places : List PartitionPlan → List (ℕ × ℕ)
plan_places [] = []
plan_places (plan ∷ plans) = (plan.disk, plan.partition) ∷ plan_places plans

plan_places-append :
    (front back : List PartitionPlan)
    → plan_places (front ++ back) ≡ plan_places front ++ plan_places back
plan_places-append [] back = refl
plan_places-append (plan ∷ front) back =
    ap (λ l. (plan.disk, plan.partition) ∷ l) (plan_places-append front back)

module _ {V : Type 0} (s : BackupSet V) (kind : MergeKind) (absorbed : List ℕ)
    (flat : Flattened) where
  plan_places-plan_partition :
      (d p : ℕ) (part : Partition) (plan : PartitionPlan)
      → plan_partition s kind absorbed flat d p part ≡ ok plan
      → plan_places (plan ∷ []) ≡ (d, p) ∷ []
  unfolding plan_partition
  plan_places-plan_partition d p part plan h =
      let (resolved, found, h1) = >>=-eq_ok (or_err (resolved_at flat d p) no_partition) _ h in
      sym (ap (λ (x : PartitionPlan). plan_places (x ∷ [])) (ok-injective h1))

  plan_places-plan_partitions :
      (d p : ℕ) (parts : List Partition) (plans : List PartitionPlan)
      → plan_partitions s kind absorbed flat d p parts ≡ ok plans
      → plan_places plans ≡ partition_places d p parts
  unfolding plan_partitions
  plan_places-plan_partitions d p [] plans h = sym (ap plan_places (ok-injective h))
  plan_places-plan_partitions d p (part ∷ parts) plans h =
      let (plan, now, h1) = >>=-eq_ok (plan_partition s kind absorbed flat d p part) _ h in
      let (rest, later, h2) =
        >>=-eq_ok (plan_partitions s kind absorbed flat d (p + 1) parts) _ h1 in
      sym (ap plan_places (ok-injective h2))
      ∙ (ap (λ l. l ++ plan_places rest) (plan_places-plan_partition d p part plan now)
          ∙ ap (λ l. (d, p) ∷ l) (plan_places-plan_partitions d (p + 1) parts rest later))

  -- The plans cover every partition of every disk, in the order of the file.
  pub plan_places-plan_disks :
      (d : ℕ) (disks : List Disk) (plans : List PartitionPlan)
      → plan_disks s kind absorbed flat d disks ≡ ok plans
      → plan_places plans ≡ disk_places d disks
  unfolding plan_disks
  plan_places-plan_disks d [] plans h = sym (ap plan_places (ok-injective h))
  plan_places-plan_disks d (disk ∷ disks) plans h =
      let (first, now, h1) =
        >>=-eq_ok (plan_partitions s kind absorbed flat d 0 disk.partitions) _ h in
      let (rest, later, h2) = >>=-eq_ok (plan_disks s kind absorbed flat (d + 1) disks) _ h1 in
      sym (ap plan_places (ok-injective h2))
      ∙ (plan_places-append first rest
          ∙ (ap (λ l. l ++ plan_places rest)
                (plan_places-plan_partitions d 0 disk.partitions first now)
              ∙ ap (λ l. partition_places d 0 disk.partitions ++ l)
                  (plan_places-plan_disks (d + 1) disks rest later)))
