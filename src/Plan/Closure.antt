-- ===== src/Plan/Closure.antt =====
-- `closure_over` (src/plan.rs): the set of file numbers that an output takes over.
use mrimgx_consolidate.Base.{
  ℕ, ◌≤◌, ◌≡◌, ◌↔◌, inl, inr, Bool, true, false, ◌&&◌, ◌||◌, List, [], ◌∷◌, leb, le→leb, Bool-cases,
  arith,
}
use mrimgx_consolidate.Base.Sets.{
  contains, extend, contains-extend, Any, IsAscending, extend-IsAscending,
}
use mrimgx_consolidate.Plan.{closure_over}

abbrev in_range : ℕ → ℕ → ℕ → Bool
in_range low high increment = leb low increment && leb increment high

abbrev owned_in_range : List (ℕ × List ℕ) → ℕ → ℕ → ℕ → Bool
owned_in_range [] low high n = false
owned_in_range ((increment, owned) ∷ members) low high n =
    (in_range low high increment && contains owned n) || owned_in_range members low high n

contains-closure_over :
    (members : List (ℕ × List ℕ)) (low high : ℕ) (out : List ℕ) (n : ℕ)
    → contains (closure_over members low high out) n
      ≡ (contains out n || owned_in_range members low high n)
unfolding closure_over
contains-closure_over [] low high out n = ground arith
contains-closure_over ((increment, owned) ∷ members) low high out n =
    elim (Bool-cases (in_range low high increment)) [
      | inl here ↦ rw here (
          ground (
            arith,
            contains-closure_over members low high (extend out owned) n,
            contains-extend out owned n,
          ))
      | inr not_here ↦ rw not_here (contains-closure_over members low high out n)
    ]

-- A member in the range of increments that owns the number.
abbrev pub OwnsInRange : ℕ → ℕ → ℕ → (ℕ × List ℕ) → Type 0
OwnsInRange low high n (increment, owned) =
    (low ≤ increment) × (increment ≤ high) × (contains owned n ≡ true)

owned_in_range_iff :
    (members : List (ℕ × List ℕ)) (low high n : ℕ)
    → (owned_in_range members low high n ≡ true) ↔ Any (OwnsInRange low high n) members
owned_in_range_iff [] low high n = (λ h. cc, λ h. absurd h)
owned_in_range_iff ((increment, owned) ∷ members) low high n =
    let (to, from) = owned_in_range_iff members low high n in
    (
      λ h. elim (Bool-cases (in_range low high increment && contains owned n)) [
        | inl here ↦ inl (ground arith, ground arith, ground arith)
        | inr not_here ↦ inr (to (rw not_here at h))
      ],
      λ a. elim a [
        | inl (lo, hi, owns) ↦
            ground (arith, le→leb low increment lo, le→leb increment high hi, owns)
        | inr later ↦ ground (arith, from later)
      ],
    )

-- A number is absorbed exactly when some member in the range of increments owns it, whether as its
-- own number or because it absorbed it before.
pub closure_over_iff :
    (members : List (ℕ × List ℕ)) (low high n : ℕ)
    → (contains (closure_over members low high []) n ≡ true) ↔ Any (OwnsInRange low high n) members
unfolding contains
closure_over_iff members low high n =
    let same = contains-closure_over members low high [] n in
    let (to, from) = owned_in_range_iff members low high n in
    (λ h. to (ground (arith, same)), λ h. ground (arith, same, from h))

pub closure_over-IsAscending :
    (members : List (ℕ × List ℕ)) (low high : ℕ) (out : List ℕ)
    → IsAscending out
    → IsAscending (closure_over members low high out)
unfolding closure_over
closure_over-IsAscending [] low high out h = h
closure_over-IsAscending ((increment, owned) ∷ members) low high out h =
    elim (Bool-cases (in_range low high increment)) [
      | inl here ↦ rw here (
          closure_over-IsAscending members low high (extend out owned)
            (extend-IsAscending out owned h))
      | inr not_here ↦ rw not_here (closure_over-IsAscending members low high out h)
    ]
