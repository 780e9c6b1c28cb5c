-- ===== src/Json/Numbers.antt =====
-- `Header::owned_file_numbers` (src/json.rs): the file numbers that resolve to a file.
use mrimgx_consolidate.Base.{
  ℕ, ◌^◌, ◌≡◌, refl, Bool, false, ◌||◌, ◌&&◌, List, [], ◌∷◌, none, some, ltb, ◌==◌, arith,
  Bool-cases, inl, inr,
}
use mrimgx_consolidate.Base.Int.{ℤ, pos, negsuc}
use mrimgx_consolidate.Base.Sets.{contains, contains-append}
use mrimgx_consolidate.Json.{Header, u16_of_int, push_owned, owned_loop, owned_file_numbers}

-- Whether the list names the number `n`, which fits 16 bits.
abbrev pub names : List ℤ → ℕ → Bool
names [] n = false
names (pos k ∷ zs) n = (ltb k (2 ^ 16) && k == n) || names zs n
names (negsuc k ∷ zs) n = names zs n

contains-push_owned :
    (out : List ℕ) (k n : ℕ) → contains (push_owned out (some k)) n ≡ (k == n || contains out n)
unfolding push_owned contains
contains-push_owned out k n = ground (arith, contains-append out (k ∷ []) n)

push_none : (out : List ℕ) → push_owned out none ≡ out
unfolding push_owned
push_none out = refl

contains-owned_loop :
    (zs : List ℤ) (out : List ℕ) (n : ℕ)
    → contains (owned_loop zs out) n ≡ (contains out n || names zs n)
unfolding owned_loop u16_of_int
contains-owned_loop [] out n = ground arith
contains-owned_loop (pos k ∷ zs) out n = elim (Bool-cases (ltb k (2 ^ 16))) [
  | inl fits ↦ rw fits (
      ground
        (arith, contains-push_owned out k n, contains-owned_loop zs (push_owned out (some k)) n))
  | inr wide ↦ rw (wide, push_none) (contains-owned_loop zs out n)
]
contains-owned_loop (negsuc k ∷ zs) out n = rw push_none (contains-owned_loop zs out n)

-- A file answers for its own number and for every number of `merged_files` that fits 16 bits.
pub contains-owned_file_numbers :
    (h : Header) (n : ℕ)
    → contains (owned_file_numbers h) n ≡ (h.file_number == n || names h.merged_files n)
unfolding owned_file_numbers contains
contains-owned_file_numbers h n =
    ground (arith, contains-owned_loop h.merged_files (h.file_number ∷ []) n)
