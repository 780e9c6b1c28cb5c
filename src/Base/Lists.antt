-- ===== src/Base/Lists.antt =====
-- Lists measured, indexed and cut by native numbers, under the library's names.
use Prim.Native.Nat.{ℕ, zero, suc, ◌+◌, ◌≤◌, ◌<◌}
use mathlib.Core.Path.{◌≡◌, refl, ap}
use mathlib.Core.List.{List, [], ◌∷◌, ◌++◌, map}
use mathlib.Core.Option.{Option, none, some}
use native.Mathlib.Omega.{arith}

module _ {ℓ} {A : Type ℓ} where
  abbrev pub length : List A → ℕ
  length [] = 0
  length (x ∷ xs) = suc (length xs)

  abbrev pub get_elem? : List A → ℕ → Option A
  get_elem? [] i = none
  get_elem? (x ∷ xs) zero = some x
  get_elem? (x ∷ xs) (suc i) = get_elem? xs i

  abbrev pub get_or : List A → ℕ → A → A
  get_or [] i d = d
  get_or (x ∷ xs) zero d = x
  get_or (x ∷ xs) (suc i) d = get_or xs i d

  -- A write out of bounds changes nothing.
  abbrev pub set : List A → ℕ → A → List A
  set [] i v = []
  set (x ∷ xs) zero v = v ∷ xs
  set (x ∷ xs) (suc i) v = x ∷ set xs i v

  abbrev pub take : ℕ → List A → List A
  take zero xs = []
  take (suc n) [] = []
  take (suc n) (x ∷ xs) = x ∷ take n xs

  abbrev pub drop : ℕ → List A → List A
  drop zero xs = xs
  drop (suc n) [] = []
  drop (suc n) (x ∷ xs) = drop n xs

  abbrev pub replicate : ℕ → A → List A
  replicate zero a = []
  replicate (suc n) a = a ∷ replicate n a

  -- `xs[at..at + n]`
  abbrev pub slice : List A → ℕ → ℕ → List A
  slice xs at n = take n (drop at xs)

  abbrev pub All {κ} : (A → Type κ) → List A → Type κ
  All P [] = Unit {κ}
  All P (x ∷ xs) = P x × All P xs

module _ {ℓ} {A : Type ℓ} where
  pub length-append : (xs ys : List A) → length (xs ++ ys) ≡ length xs + length ys
  length-append [] ys = omega arith
  length-append (x ∷ xs) ys = omega (arith, length-append xs ys)

  pub length-replicate : (n : ℕ) (a : A) → length (replicate n a) ≡ n
  length-replicate zero a = refl
  length-replicate (suc n) a = ap suc (length-replicate n a)

  pub length-map {κ} : {B : Type κ} (f : B → A) (xs : List B) → length (map f xs) ≡ length xs
  length-map f [] = refl
  length-map f (x ∷ xs) = ap suc (length-map f xs)

  pub take-append : (n : ℕ) (xs ys : List A) → length xs ≡ n → take n (xs ++ ys) ≡ xs
  take-append zero [] ys h = refl
  take-append zero (x ∷ xs) ys h = absurd (omega arith)
  take-append (suc n) [] ys h = absurd (omega arith)
  take-append (suc n) (x ∷ xs) ys h = ap (λ l. x ∷ l) (take-append n xs ys (omega arith))

  pub drop-append : (n : ℕ) (xs ys : List A) → length xs ≡ n → drop n (xs ++ ys) ≡ ys
  drop-append zero [] ys h = refl
  drop-append zero (x ∷ xs) ys h = absurd (omega arith)
  drop-append (suc n) [] ys h = absurd (omega arith)
  drop-append (suc n) (x ∷ xs) ys h = drop-append n xs ys (omega arith)

  -- The first element behind a prefix.
  pub get_or-append :
      (n : ℕ) (xs : List A) (y : A) (ys : List A) (d : A)
      → length xs ≡ n
      → get_or (xs ++ (y ∷ ys)) n d ≡ y
  get_or-append zero [] y ys d h = refl
  get_or-append zero (x ∷ xs) y ys d h = absurd (omega arith)
  get_or-append (suc n) [] y ys d h = absurd (omega arith)
  get_or-append (suc n) (x ∷ xs) y ys d h = get_or-append n xs y ys d (omega arith)

  pub take_all : (n : ℕ) (xs : List A) → length xs ≡ n → take n xs ≡ xs
  take_all zero [] h = refl
  take_all zero (x ∷ xs) h = absurd (omega arith)
  take_all (suc n) [] h = refl
  take_all (suc n) (x ∷ xs) h = ap (λ l. x ∷ l) (take_all n xs (omega arith))

  -- A slice does not see what is appended behind it.
  pub slice-append_left :
      (xs ys : List A) (at n : ℕ) → at + n ≤ length xs → slice (xs ++ ys) at n ≡ slice xs at n
  slice-append_left xs ys zero zero h = refl
  slice-append_left [] ys zero (suc n) h = absurd (omega arith)
  slice-append_left (x ∷ xs) ys zero (suc n) h =
      ap (λ l. x ∷ l) (slice-append_left xs ys zero n (omega arith))
  slice-append_left [] ys (suc at) zero h = absurd (omega arith)
  slice-append_left [] ys (suc at) (suc n) h = absurd (omega arith)
  slice-append_left (x ∷ xs) ys (suc at) n h = slice-append_left xs ys at n (omega arith)

  -- What was appended is the slice that begins where the old list ended.
  pub slice-append_right :
      (xs ys zs : List A) (at n : ℕ)
      → length xs ≡ at
      → length ys ≡ n
      → slice (xs ++ (ys ++ zs)) at n ≡ ys
  slice-append_right xs ys zs at n h k = rw (drop-append at xs (ys ++ zs) h) (take-append n ys zs k)

  take_add : (n m : ℕ) (xs : List A) → take (n + m) xs ≡ take n xs ++ take m (drop n xs)
  take_add zero m xs = let e : 0 + m ≡ m = omega arith in rw e refl
  take_add (suc n) zero [] = let e : suc n + 0 ≡ suc n = omega arith in rw e refl
  take_add (suc n) (suc m) [] = let e : suc n + suc m ≡ suc (n + suc m) = omega arith in rw e refl
  take_add (suc n) m (x ∷ xs) =
      let e : suc n + m ≡ suc (n + m) = omega arith in rw e (ap (λ l. x ∷ l) (take_add n m xs))

  drop_add : (n m : ℕ) (xs : List A) → drop (n + m) xs ≡ drop m (drop n xs)
  drop_add zero m xs = let e : 0 + m ≡ m = omega arith in rw e refl
  drop_add (suc n) zero [] = let e : suc n + 0 ≡ suc n = omega arith in rw e refl
  drop_add (suc n) (suc m) [] = let e : suc n + suc m ≡ suc (n + suc m) = omega arith in rw e refl
  drop_add (suc n) m (x ∷ xs) =
      let e : suc n + m ≡ suc (n + m) = omega arith in rw e (drop_add n m xs)

  -- A slice is its two parts.
  pub slice_add :
      (xs : List A) (at n m : ℕ) → slice xs at (n + m) ≡ slice xs at n ++ slice xs (at + n) m
  slice_add xs at n m = rw (drop_add at n xs) (take_add n m (drop at xs))

  -- A slice of a slice, and a slice of what was appended.
  slice-take : (xs : List A) (n i m : ℕ) → i + m ≤ n → slice (take n xs) i m ≡ slice xs i m
  slice-take xs zero zero zero h = refl
  slice-take xs zero zero (suc m) h = absurd (omega arith)
  slice-take xs zero (suc i) m h = absurd (omega arith)
  slice-take [] (suc n) i m h = refl
  slice-take (x ∷ xs) (suc n) zero zero h = refl
  slice-take (x ∷ xs) (suc n) zero (suc m) h =
      ap (λ l. x ∷ l) (slice-take xs n zero m (omega arith))
  slice-take (x ∷ xs) (suc n) (suc i) m h = slice-take xs n i m (omega arith)

  pub slice-slice :
      (xs : List A) (at n i m : ℕ) → i + m ≤ n → slice (slice xs at n) i m ≡ slice xs (at + i) m
  slice-slice xs at n i m h = rw (drop_add at i xs) (slice-take (drop at xs) n i m h)

  pub slice-appended :
      (xs ys : List A) (at i m : ℕ) → length xs ≡ at → slice (xs ++ ys) (at + i) m ≡ slice ys i m
  slice-appended xs ys at i m h = rw (drop_add at i (xs ++ ys), drop-append at xs ys h) refl

  pub get_elem?-lt : (xs : List A) (i : ℕ) → i < length xs → (a : A) × (get_elem? xs i ≡ some a)
  get_elem?-lt [] i h = absurd (omega arith)
  get_elem?-lt (x ∷ xs) zero h = (x, refl)
  get_elem?-lt (x ∷ xs) (suc i) h = get_elem?-lt xs i (omega arith)

  pub get_elem?-ge : (xs : List A) (i : ℕ) → length xs ≤ i → get_elem? xs i ≡ none
  get_elem?-ge [] i h = refl
  get_elem?-ge (x ∷ xs) zero h = absurd (omega arith)
  get_elem?-ge (x ∷ xs) (suc i) h = get_elem?-ge xs i (omega arith)

  pub All-append {κ} :
      (P : A → Type κ) (front back : List A) → All P front → All P back → All P (front ++ back)
  All-append P [] back none_in_front behind = behind
  All-append P (x ∷ front) back (here, later) behind = (here, All-append P front back later behind)

pub some-eq {ℓ} : {A : Type ℓ} {a b : A} → some a ≡ some b → a ≡ b
some-eq h = cc h
