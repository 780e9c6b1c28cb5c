-- ===== src/Write/Document/Shape.antt =====
-- The numbers of disks and partitions that a document declares (`shape`, src/reader.rs), under the
-- changes of src/write.rs.
use Prim.Native.String.{String}
use text.Mathlib.Text.{◌==◌ as str_eq}
use mrimgx_consolidate.Base.{
  ℕ, ◌≡◌, ◌∙◌, refl, ap, subst, false, List, [], ◌∷◌, some, length, Result, ok, or_err, >>=-eq_ok,
  or_err-eq_ok, ok-injective, Option-cases, inl, inr, no_disks_array, no_partitions_array,
}
use mrimgx_consolidate.Base.Bytes.{Bytes}
use mrimgx_consolidate.Json.{Documents, and_then}
use mrimgx_consolidate.Json.Editing.{Editing}
use mrimgx_consolidate.Reader.{partition_counts, shape}

module _ (J : Documents) (E : Editing J) (md5 : Bytes → Bytes)
    (decode_all : Bytes → Result Bytes) where
  open J use {Value, get, is_object, as_array}
  open E use {
    insert, from_str, from_array, insert-IsObject, get-IsObject, get-insert, as_array-from_array,
  }

  -- An array under a key.
  pub get_array-eq_ok :
      (v : Value) (k : String) (vs : List Value)
      → and_then (get v k) as_array ≡ some vs
      → (x : Value) × (get v k ≡ some x) × (as_array x ≡ some vs)
  unfolding and_then
  get_array-eq_ok v k vs h = elim (Option-cases (get v k)) [
    | inl absent ↦ absurd (cc (rw absent at h))
    | inr (x, here) ↦ (x, here, rw here at h)
  ]

  -- A disk with `n` partitions.
  abbrev pub HasPartitions : Value → ℕ → Type 0
  HasPartitions disk n =
      (x : Value) × (parts : List Value) × (get disk "partitions" ≡ some x)
      × (as_array x ≡ some parts)
      × (length parts ≡ n)

  abbrev pub AllHave : List Value → List ℕ → Type 0
  AllHave [] [] = Unit
  AllHave (d ∷ ds) (n ∷ ns) = HasPartitions d n × AllHave ds ns
  AllHave _ _ = ⊥

  -- A document with those disks.
  abbrev pub HasShape : Value → List ℕ → Type 0
  HasShape doc ns =
      (x : Value) × (disks : List Value) × (get doc "disks" ≡ some x)
      × (as_array x ≡ some disks)
      × AllHave disks ns

  AllHave-counts :
      (ds : List Value) (ns : List ℕ) → AllHave ds ns → partition_counts J md5 decode_all ds ≡ ok ns
  unfolding partition_counts
  AllHave-counts [] [] h = refl
  AllHave-counts [] (n ∷ ns) h = absurd h
  AllHave-counts (d ∷ ds) [] h = absurd h
  AllHave-counts (d ∷ ds) (n ∷ ns) ((x, parts, here, array, size), hs) =
      rw here (rw array (rw (AllHave-counts ds ns hs) (ap (λ k. ok (k ∷ ns)) size)))

  counts-AllHave :
      (ds : List Value) (ns : List ℕ) → partition_counts J md5 decode_all ds ≡ ok ns → AllHave ds ns
  unfolding partition_counts
  counts-AllHave [] ns h = subst (AllHave []) (ok-injective h) tt
  counts-AllHave (d ∷ ds) ns h =
      let (x, here, h1) = >>=-eq_ok (or_err (get d "partitions") no_partitions_array) _ h in
      let (parts, array, h2) = >>=-eq_ok (or_err (as_array x) no_partitions_array) _ h1 in
      let (rest, later, h3) = >>=-eq_ok (partition_counts J md5 decode_all ds) _ h2 in
      subst (AllHave (d ∷ ds)) (ok-injective h3) (
        (
          x,
          parts,
          or_err-eq_ok (get d "partitions") no_partitions_array here,
          or_err-eq_ok (as_array x) no_partitions_array array,
          refl,
        ),
        counts-AllHave ds rest later,
      )

  pub HasShape-shape :
      (doc : Value) (ns : List ℕ) → HasShape doc ns → shape J md5 decode_all doc ≡ ok ns
  unfolding shape
  HasShape-shape doc ns (x, disks, here, array, all) =
      rw here (rw array (AllHave-counts disks ns all))

  pub shape-HasShape :
      (doc : Value) (ns : List ℕ) → shape J md5 decode_all doc ≡ ok ns → HasShape doc ns
  unfolding shape
  shape-HasShape doc ns h =
      let (x, here, h1) = >>=-eq_ok (or_err (get doc "disks") no_disks_array) _ h in
      let (disks, array, h2) = >>=-eq_ok (or_err (as_array x) no_disks_array) _ h1 in
      (
        x,
        disks,
        or_err-eq_ok (get doc "disks") no_disks_array here,
        or_err-eq_ok (as_array x) no_disks_array array,
        counts-AllHave disks ns h2,
      )

  -- Another key of a disk or of a document may change.
  pub HasPartitions-insert :
      (disk : Value) (k : String) (v : Value) (n : ℕ)
      → str_eq k "partitions" ≡ false
      → HasPartitions disk n
      → HasPartitions (insert disk k v) n
  HasPartitions-insert disk k v n other (x, parts, here, array, size) = (
    x,
    parts,
    get-insert disk k "partitions" v (get-IsObject disk "partitions" x here) ∙ rw other here,
    array,
    size,
  )

  pub HasShape-insert :
      (doc : Value) (k : String) (v : Value) (ns : List ℕ)
      → str_eq k "disks" ≡ false
      → HasShape doc ns
      → HasShape (insert doc k v) ns
  HasShape-insert doc k v ns other (x, disks, here, array, all) = (
    x,
    disks,
    get-insert doc k "disks" v (get-IsObject doc "disks" x here) ∙ rw other here,
    array,
    all,
  )

  -- And the disks, when their partitions are as many.
  pub HasShape-disks :
      (doc x : Value) (disks' : List Value) (ns : List ℕ)
      → get doc "disks" ≡ some x
      → AllHave disks' ns
      → HasShape (insert doc "disks" (from_array disks')) ns
  HasShape-disks doc x disks' ns here all = (
    from_array disks',
    disks',
    get-insert doc "disks" "disks" (from_array disks') (get-IsObject doc "disks" x here),
    as_array-from_array disks',
    all,
  )
