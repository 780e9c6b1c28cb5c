-- ===== src/Set/Complete.antt =====
-- `missing_file_numbers` (src/set.rs): which file numbers `check_complete` reports.
use mrimgx_consolidate.Base.{
  ℕ, zero, suc, ◌+◌, ◌-◌, ◌≡◌, refl, Bool, ◌&&◌, ◌||◌, not, List, [], ◌∷◌, leb, ltb, arith,
}
use mrimgx_consolidate.Base.Sets.{contains, extend, contains-extend}
use mrimgx_consolidate.Set.{range_from, range_inclusive, keep_unowned, missing_file_numbers}

contains-range_from :
    (count base n : ℕ) → contains (range_from count base) n ≡ (leb base n && ltb n (base + count))
unfolding range_from contains
contains-range_from zero base n = ground arith
contains-range_from (suc count) base n = ground (arith, contains-range_from count (base + 1) n)

contains-range_inclusive :
    (base newest n : ℕ) → contains (range_inclusive base newest) n ≡ (leb base n && leb n newest)
unfolding range_inclusive
contains-range_inclusive base newest n =
    ground (arith, contains-range_from (newest + 1 - base) base n)

contains-keep_unowned :
    (owned : ℕ → Bool) (ns : List ℕ) (n : ℕ)
    → contains (keep_unowned owned ns) n ≡ (contains ns n && not (owned n))
unfolding contains
contains-keep_unowned owned [] n = refl
contains-keep_unowned owned (k ∷ ns) n = ground (arith, contains-keep_unowned owned ns n)

-- A number is reported exactly when a restore needs it, because it lies between the base and the
-- newest member or the base's index names it, and no member claims it.
pub contains-missing_file_numbers :
    (owned : ℕ → Bool) (base newest : ℕ) (referenced : List ℕ) (n : ℕ)
    → contains (missing_file_numbers owned base newest referenced) n
      ≡ ((contains referenced n || (leb base n && leb n newest)) && not (owned n))
unfolding missing_file_numbers contains
contains-missing_file_numbers owned base newest referenced n = ground (
  arith,
  contains-keep_unowned owned (extend (extend [] (range_inclusive base newest)) referenced) n,
  contains-extend (extend [] (range_inclusive base newest)) referenced n,
  contains-extend [] (range_inclusive base newest) n,
  contains-range_inclusive base newest n,
)
