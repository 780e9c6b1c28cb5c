-- ===== src/Set/Resolve.antt =====
-- `BackupSet::flatten` (src/set.rs): the flattened set, position by position.
use mathlib.Core.List.{reverse}
use mrimgx_consolidate.Base.{
  ℕ, zero, suc, ◌+◌, ◌≡◌, ◌∙◌, sym, ap, subst, List, [], ◌∷◌, some, get_elem?, take, ok, >>=-eq_ok,
  ok-injective, or_err-eq_ok, some-eq, arith,
}
use mrimgx_consolidate.Index.{DataBlockIndexElement, Blocks, full, delta}
use mrimgx_consolidate.Reader.{Partition, BackupFile}
use mrimgx_consolidate.Set.{
  BackupSet, Flattened, partition_at, seed, flatten_partition, flatten_partitions, flatten_disks,
  flatten, base_index, position_full, shape,
}
use mrimgx_consolidate.Set.Flatten.{entry_at, get_or_else, newest_named, entry_at-replay}

seed-full : (b : Blocks) (own : List DataBlockIndexElement) → seed b ≡ ok own → b ≡ full own
unfolding seed
seed-full (full v) own h = ap full (ok-injective h)
seed-full (delta ds) own h = cc

module _ {V : Type 0} where
  -- `blocks` is the partition as of the newest of `ms`, over the full index of `base`: each position
  -- has the entry of the newest member that names it, or else the base's own entry.
  pub record IsResolved (base : BackupFile V) (ms : List (BackupFile V)) (d p : ℕ)
      (blocks : List DataBlockIndexElement) : Type 0 where
    pub part : Partition
    pub own : List DataBlockIndexElement
    pub base_part : partition_at base d p ≡ ok part
    pub base_full : part.index.blocks ≡ full own
    pub entries : (i : ℕ) → entry_at blocks i ≡ get_or_else (newest_named ms d p i) (entry_at own i)

  flatten_partition-IsResolved :
      (base : BackupFile V) (ms : List (BackupFile V)) (d p : ℕ)
      (blocks : List DataBlockIndexElement)
      → flatten_partition base (reverse ms) d p ≡ ok blocks
      → IsResolved base ms d p blocks
  unfolding flatten_partition
  flatten_partition-IsResolved base ms d p blocks h =
      let (part, found, h1) = >>=-eq_ok (partition_at base d p) _ h in
      let (own, seeded, h2) = >>=-eq_ok (seed part.index.blocks) _ h1 in
      record {
        part = part;
        own = own;
        base_part = found;
        base_full = seed-full part.index.blocks own seeded;
        entries = λ i. entry_at-replay ms own d p i h2;
      }

  get_elem?-flatten_partitions :
      (base : BackupFile V) (chain : List (BackupFile V)) (d count p k : ℕ)
      (out : List (List DataBlockIndexElement)) (blocks : List DataBlockIndexElement)
      → flatten_partitions base chain d count p ≡ ok out
      → get_elem? out k ≡ some blocks
      → flatten_partition base chain d (p + k) ≡ ok blocks
  unfolding flatten_partitions
  get_elem?-flatten_partitions base chain d zero p k out blocks h g =
      cc (rw (← ok-injective h) at g)
  get_elem?-flatten_partitions base chain d (suc count) p zero out blocks h g =
      let (first, now, h1) = >>=-eq_ok (flatten_partition base chain d p) _ h in
      let (rest, later, h2) = >>=-eq_ok (flatten_partitions base chain d count (p + 1)) _ h1 in
      let same : p + 0 ≡ p = omega arith in
      let whole : first ∷ rest ≡ out = ok-injective h2 in
      let here : first ≡ blocks =
        some-eq (subst (λ o. get_elem? o zero ≡ some blocks) (sym whole) g) in
      rw same (now ∙ ap ok here)
  get_elem?-flatten_partitions base chain d (suc count) p (suc k) out blocks h g =
      let (first, now, h1) = >>=-eq_ok (flatten_partition base chain d p) _ h in
      let (rest, later, h2) = >>=-eq_ok (flatten_partitions base chain d count (p + 1)) _ h1 in
      let same : p + suc k ≡ p + 1 + k = omega arith in
      let whole : first ∷ rest ≡ out = ok-injective h2 in
      rw same (
        get_elem?-flatten_partitions base chain d count (p + 1) k rest blocks later
          (subst (λ o. get_elem? o (suc k) ≡ some blocks) (sym whole) g))

  get_elem?-flatten_disks :
      (base : BackupFile V) (chain : List (BackupFile V)) (counts : List ℕ) (d k : ℕ)
      (out : List (List (List DataBlockIndexElement))) (parts : List (List DataBlockIndexElement))
      → flatten_disks base chain counts d ≡ ok out
      → get_elem? out k ≡ some parts
      → (count : ℕ) × (flatten_partitions base chain (d + k) count 0 ≡ ok parts)
  unfolding flatten_disks
  get_elem?-flatten_disks base chain [] d k out parts h g = cc (rw (← ok-injective h) at g)
  get_elem?-flatten_disks base chain (count ∷ counts) d zero out parts h g =
      let (first, now, h1) = >>=-eq_ok (flatten_partitions base chain d count 0) _ h in
      let (rest, later, h2) = >>=-eq_ok (flatten_disks base chain counts (d + 1)) _ h1 in
      let same : d + 0 ≡ d = omega arith in
      let whole : first ∷ rest ≡ out = ok-injective h2 in
      let here : first ≡ parts =
        some-eq (subst (λ o. get_elem? o zero ≡ some parts) (sym whole) g) in
      (count, rw same (now ∙ ap ok here))
  get_elem?-flatten_disks base chain (count ∷ counts) d (suc k) out parts h g =
      let (first, now, h1) = >>=-eq_ok (flatten_partitions base chain d count 0) _ h in
      let (rest, later, h2) = >>=-eq_ok (flatten_disks base chain counts (d + 1)) _ h1 in
      let same : d + suc k ≡ d + 1 + k = omega arith in
      let whole : first ∷ rest ≡ out = ok-injective h2 in
      rw same (
        get_elem?-flatten_disks base chain counts (d + 1) k rest parts later
          (subst (λ o. get_elem? o (suc k) ≡ some parts) (sym whole) g))

  pub flatten_disks-IsResolved :
      (base : BackupFile V) (ms : List (BackupFile V)) (counts : List ℕ)
      (disks : List (List (List DataBlockIndexElement)))
      → flatten_disks base (reverse ms) counts 0 ≡ ok disks
      → (d p : ℕ) (parts : List (List DataBlockIndexElement)) (blocks : List DataBlockIndexElement)
      → get_elem? disks d ≡ some parts
      → get_elem? parts p ≡ some blocks
      → IsResolved base ms d p blocks
  flatten_disks-IsResolved base ms counts disks flat d p parts blocks in_disks in_parts =
      let (count, read) =
        get_elem?-flatten_disks base (reverse ms) counts 0 d disks parts flat in_disks in
      let at_d : 0 + d ≡ d = omega arith in
      let at_p : 0 + p ≡ p = omega arith in
      flatten_partition-IsResolved base ms d p blocks (
        rw (at_d, at_p) at
          (get_elem?-flatten_partitions base (reverse ms) (0 + d) count 0 p parts blocks read
            in_parts))

  -- Where the base of a set stands: the first member that has a full index.
  pub record IsBase (s : BackupSet V) (b : ℕ) (base : BackupFile V) : Type 0 where
    pub position : position_full s.members ≡ some b
    pub member : get_elem? s.members b ≡ some base

  -- Every array that `flatten` gives is resolved: each logical position has the entry of the newest
  -- member, from the base to the newest, that names it, or else the base's own entry, and a hole
  -- where there is neither. The base is the newest member that has a full index.
  pub flatten-IsResolved :
      (s : BackupSet V) (f : Flattened) (d p : ℕ) (parts : List (List DataBlockIndexElement))
      (blocks : List DataBlockIndexElement)
      → flatten s ≡ ok f
      → get_elem? f.disks d ≡ some parts
      → get_elem? parts p ≡ some blocks
      → (b : ℕ) × (base : BackupFile V) × IsBase s b base
        × IsResolved base (take (b + 1) s.members) d p blocks
  unfolding flatten base_index
  flatten-IsResolved s f d p parts blocks h in_disks in_parts =
      let (b, at, h1) = >>=-eq_ok _ _ h in
      let (counts, agreed, h2) = >>=-eq_ok (shape s) _ h1 in
      let (base, member, h3) = >>=-eq_ok _ _ h2 in
      let (disks, flat, h4) = >>=-eq_ok _ _ h3 in
      let whole : record { disks = disks } ≡ f = ok-injective h4 in
      let position : position_full s.members ≡ some b = or_err-eq_ok _ _ at in
      let found : get_elem? s.members b ≡ some base = or_err-eq_ok _ _ member in
      (
        b,
        base,
        record { position = position; member = found },
        flatten_disks-IsResolved base (take (b + 1) s.members) counts disks flat d p parts blocks
            (subst (λ (g : Flattened). get_elem? g.disks d ≡ some parts) (sym whole) in_disks)
            in_parts,
      )
