-- ===== src/Set/Owners.antt =====
-- `BackupSet::discover` (src/set.rs): the map from file numbers to members.
use mrimgx_consolidate.Base.{
  ℕ, zero, suc, ◌+◌, ◌≡◌, ◌≢◌, ◌∙◌, ◌⊎◌, inl, inr, refl, sym, ap, subst, some-eq, true, List, [],
  ◌∷◌, none, some, ◌==◌, if◌then◌else◌, get_elem?, ok, >>=-eq_ok, ok-injective, Bool-cases,
  Option-cases, ◌↔◌, arith,
}
use mrimgx_consolidate.Base.Sets.{contains, lookup}
use mrimgx_consolidate.Json.{owned_file_numbers}
use mrimgx_consolidate.Reader.{BackupFile}
use mrimgx_consolidate.Set.{claim, build_owners}

lookup_nil : (n k : ℕ) → lookup {V = ℕ} n [] ≢ some k
unfolding lookup
lookup_nil n k e = cc

lookup-cons :
    (n k i : ℕ) (o : List (ℕ × ℕ)) → lookup n ((k, i) ∷ o) ≡ (if k == n then some i else lookup n o)
unfolding lookup
lookup-cons n k i o = refl

claim-lookup :
    (i : ℕ) (ns : List ℕ) (owners owners' : List (ℕ × ℕ)) (n : ℕ)
    → claim i ns owners ≡ ok owners'
    → (lookup n owners' ≡ (if contains ns n then some i else lookup n owners))
      × (contains ns n ≡ true → lookup n owners ≡ none)
unfolding claim contains
claim-lookup i [] owners owners' n h = (cc (ok-injective h), λ f. cc)
claim-lookup i (k ∷ ns) owners owners' n h = elim (Option-cases (lookup k owners)) [
  | inl free ↦
      let (now, before) = claim-lookup i ns ((k, i) ∷ owners) owners' n (rw (free, claim) at h) in
      (
        ground (arith, now, lookup-cons n k i owners),
        λ c. ground (arith, free, before, lookup-cons n k i owners),
      )
  | inr (j, taken) ↦ cc (rw (taken, claim) at h)
]

module _ {V : Type 0} where
  build_owners-keeps :
      (i : ℕ) (ms : List (BackupFile V)) (o o' : List (ℕ × ℕ)) (n j : ℕ)
      → build_owners i ms o ≡ ok o'
      → lookup n o ≡ some j
      → lookup n o' ≡ some j
  unfolding build_owners
  build_owners-keeps i [] o o' n j h l = rw (← ok-injective h) l
  build_owners-keeps i (m ∷ ms) o o' n j h l =
      let (o1, claimed, rest) = >>=-eq_ok (claim i (owned_file_numbers m.header) o) _ h in
      let (now, before) = claim-lookup i (owned_file_numbers m.header) o o1 n claimed in
      build_owners-keeps (i + 1) ms o1 o' n j rest (ground (arith, now, before, l))

  build_owners-claims :
      (i : ℕ) (ms : List (BackupFile V)) (o o' : List (ℕ × ℕ)) (n k : ℕ) (m : BackupFile V)
      → build_owners i ms o ≡ ok o'
      → get_elem? ms k ≡ some m
      → contains (owned_file_numbers m.header) n ≡ true
      → lookup n o' ≡ some (i + k)
  unfolding build_owners
  build_owners-claims i [] o o' n k m h g c = cc
  build_owners-claims i (x ∷ ms) o o' n zero m h g c =
      let (o1, claimed, rest) = >>=-eq_ok (claim i (owned_file_numbers x.header) o) _ h in
      let same : contains (owned_file_numbers x.header) n ≡ true =
        subst (λ (y : BackupFile V). contains (owned_file_numbers y.header) n ≡ true)
          (sym (some-eq g)) c in
      let taken : lookup n o1 ≡ some (i + 0) =
        (claim-lookup i (owned_file_numbers x.header) o o1 n claimed).0
        ∙ rw same (ap some (omega arith)) in
      build_owners-keeps (i + 1) ms o1 o' n (i + 0) rest taken
  build_owners-claims i (x ∷ ms) o o' n (suc k) m h g c =
      let (o1, claimed, rest) = >>=-eq_ok (claim i (owned_file_numbers x.header) o) _ h in
      let moved : i + suc k ≡ i + 1 + k = omega arith in
      rw moved (build_owners-claims (i + 1) ms o1 o' n k m rest g c)

  -- The member at a position claims the number.
  abbrev pub Claims : List (BackupFile V) → ℕ → ℕ → Type 0
  Claims ms n k =
      (m : BackupFile V) × (get_elem? ms k ≡ some m)
      × (contains (owned_file_numbers m.header) n ≡ true)

  build_owners_sound :
      (i : ℕ) (ms : List (BackupFile V)) (o o' : List (ℕ × ℕ)) (n j : ℕ)
      → build_owners i ms o ≡ ok o'
      → lookup n o' ≡ some j
      → (lookup n o ≡ some j) ⊎ ((k : ℕ) × (j ≡ i + k) × Claims ms n k)
  unfolding build_owners
  build_owners_sound i [] o o' n j h l = inl (rw (ok-injective h) l)
  build_owners_sound i (x ∷ ms) o o' n j h l =
      let (o1, claimed, rest) = >>=-eq_ok (claim i (owned_file_numbers x.header) o) _ h in
      let (now, before) = claim-lookup i (owned_file_numbers x.header) o o1 n claimed in
      elim (build_owners_sound (i + 1) ms o1 o' n j rest l) [
        | inr (k, at, (m, g, c)) ↦ inr (suc k, omega arith, (m, g, c))
        | inl old ↦ elim (Bool-cases (contains (owned_file_numbers x.header) n)) [
          | inl c ↦
              let here : j ≡ i = some-eq (sym old ∙ (now ∙ rw c)) in
              inr (0, omega arith, (x, refl, c))
          | inr not_here ↦ inl (rw not_here at (sym now ∙ old))
        ]
      ]

  -- A map that is built gives a number to the member at a position exactly when that member claims
  -- the number.
  pub build_owners_iff :
      (ms : List (BackupFile V)) (owners : List (ℕ × ℕ)) (n k : ℕ)
      → build_owners 0 ms [] ≡ ok owners
      → (lookup n owners ≡ some k) ↔ Claims ms n k
  build_owners_iff ms owners n k h = (
    λ l. elim (build_owners_sound 0 ms [] owners n k h l) [
      | inl old ↦ absurd (lookup_nil n k old)
      | inr (j, at, c) ↦ subst (Claims ms n) (omega arith) c
    ],
    λ (m, g, c). (build_owners-claims 0 ms [] owners n k m h g c) ∙ ap some (omega arith),
  )
