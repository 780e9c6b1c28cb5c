-- ===== src/Base/Sets.antt =====
-- `BTreeSet<u16>` as a list in ascending order, and a `HashMap` with `u16` keys as an association
-- list. The sets are read through their membership test.
use Prim.Native.Nat.{ℕ, ◌<◌}
use mathlib.Core.Path.{◌≡◌, refl}
use mathlib.Core.Logic.{◌⊎◌}
use mathlib.Core.Bool.{Bool, false, ◌||◌}
use mathlib.Core.List.{List, [], ◌∷◌, ◌++◌}
use mathlib.Core.Option.{Option, none, some}
use native.Mathlib.Omega.{arith}
use mrimgx_consolidate.Base.Tests.{ltb, ◌==◌, if◌then◌else◌}

-- `xs.contains(&n)`
unfoldable pub contains : List ℕ → ℕ → Bool
contains [] n = false
contains (x ∷ xs) n = x == n || contains xs n

unfoldable pub insert : ℕ → List ℕ → List ℕ
insert n [] = n ∷ []
insert n (x ∷ xs) = if ltb n x then n ∷ x ∷ xs else if x == n then x ∷ xs else x ∷ insert n xs

unfoldable pub extend : List ℕ → List ℕ → List ℕ
extend out [] = out
extend out (n ∷ ns) = extend (insert n out) ns

pub contains-insert : (n m : ℕ) (xs : List ℕ) → contains (insert n xs) m ≡ (n == m || contains xs m)
unfolding contains insert
contains-insert n m [] = refl
contains-insert n m (x ∷ xs) = ground (arith, contains-insert n m xs)

pub contains-extend :
    (out ns : List ℕ) (m : ℕ) → contains (extend out ns) m ≡ (contains ns m || contains out m)
unfolding contains extend
contains-extend out [] m = refl
contains-extend out (n ∷ ns) m =
    ground (arith, contains-extend (insert n out) ns m, contains-insert n m out)

pub contains-append :
    (xs ys : List ℕ) (m : ℕ) → contains (xs ++ ys) m ≡ (contains xs m || contains ys m)
unfolding contains
contains-append [] ys m = refl
contains-append (x ∷ xs) ys m = ground (arith, contains-append xs ys m)

-- Ascending, with no element twice.
abbrev pub Above : ℕ → List ℕ → Type 0
Above n [] = Unit
Above n (x ∷ xs) = n < x

abbrev pub IsAscending : List ℕ → Type 0
IsAscending [] = Unit
IsAscending (x ∷ xs) = Above x xs × IsAscending xs

Above-insert : (n m : ℕ) (xs : List ℕ) → n < m → Above n xs → Above n (insert m xs)
unfolding insert
Above-insert n m [] h a = h
Above-insert n m (x ∷ xs) h a = ground arith

pub insert-IsAscending : (n : ℕ) (xs : List ℕ) → IsAscending xs → IsAscending (insert n xs)
unfolding insert
insert-IsAscending n [] h = (tt, tt)
insert-IsAscending n (x ∷ xs) (a, h) =
    ground (arith, insert-IsAscending n xs h, Above-insert x n xs)

pub extend-IsAscending : (out ns : List ℕ) → IsAscending out → IsAscending (extend out ns)
unfolding extend
extend-IsAscending out [] h = h
extend-IsAscending out (n ∷ ns) h =
    extend-IsAscending (insert n out) ns (insert-IsAscending n out h)

module _ {ℓ} {V : Type ℓ} where
  unfoldable pub lookup : ℕ → List (ℕ × V) → Option V
  lookup number [] = none
  lookup number ((key, value) ∷ later) =
      let rest = lookup number later in if key == number then some value else rest

-- Some element has the property.
abbrev pub Any {ℓ} : {A : Type ℓ} → (A → Type 0) → List A → Type 0
Any P [] = ⊥
Any P (x ∷ xs) = P x ⊎ Any P xs
