-- ===== src/Tests/Sets.antt =====
-- The set and the plan of the test files.
use mrimgx_consolidate.Base.{
  ℕ, ◌+◌, ◌≡◌, ◌↔◌, refl, true, ◌&&◌, ◌||◌, not, leb, ◌==◌, List, [], ◌∷◌, some, take, ok,
}
use mrimgx_consolidate.Base.Int.{pos}
use mrimgx_consolidate.Base.Sets.{contains, lookup, Any}
use mrimgx_consolidate.Index.{DataBlockIndexElement, default_element}
use mrimgx_consolidate.Json.{owned_file_numbers, owned_loop, push_owned, u16_of_int}
use mrimgx_consolidate.Json.Numbers.{names, contains-owned_file_numbers}
use mrimgx_consolidate.Plan.{closure_over, changed_positions}
use mrimgx_consolidate.Plan.Positions.{Changes, changed_positions_iff}
use mrimgx_consolidate.Plan.Closure.{OwnsInRange, closure_over_iff}
use mrimgx_consolidate.Reader.{BackupFile}
use mrimgx_consolidate.Set.{
  Flattened, missing_file_numbers, build_owners, claim, flatten, base_index, position_full, shape,
  shapes_agree, flatten_disks, flatten_partitions, flatten_partition, partition_at, replay,
  replay_blocks, replay_member, seed, apply_delta, apply_deltas,
}
use mrimgx_consolidate.Set.Complete.{contains-missing_file_numbers}
use mrimgx_consolidate.Set.Owners.{Claims, build_owners_iff}
use mrimgx_consolidate.Set.Resolve.{IsBase, IsResolved, flatten-IsResolved}
use mrimgx_consolidate.Tests.Data.{Doc, three_files, entry, header}

abbrev resolved : List DataBlockIndexElement
resolved = entry 2 1 2 ∷ entry 1 1 2 ∷ entry 0 3 2 ∷ default_element ∷ []

abbrev flat : Flattened
flat = record { disks = (resolved ∷ []) ∷ [] }

flattened : flatten three_files ≡ ok flat
unfolding flatten base_index position_full shape shapes_agree flatten_disks flatten_partitions
    flatten_partition partition_at replay replay_blocks replay_member seed apply_delta apply_deltas
flattened = refl

flatten-IsResolved_example :
    (b : ℕ) × (base : BackupFile Doc) × IsBase three_files b base
    × IsResolved base (take (b + 1) three_files.members) 0 0 resolved
flatten-IsResolved_example =
    flatten-IsResolved three_files flat 0 0 (resolved ∷ []) resolved flattened refl refl

-- File 5 absorbed 3 and 4 before, so a merge from it takes those numbers too.
abbrev consolidated : List (ℕ × List ℕ)
consolidated = (7, 7 ∷ []) ∷ (6, 6 ∷ []) ∷ (5, 5 ∷ 3 ∷ 4 ∷ []) ∷ (2, 2 ∷ []) ∷ []

closure_over_iff_example :
    (contains (closure_over consolidated 5 7 []) 3 ≡ true) ↔ Any (OwnsInRange 5 7 3) consolidated
closure_over_iff_example = closure_over_iff consolidated 5 7 3

abbrev owners : List (ℕ × ℕ)
owners = (0, 2) ∷ (1, 1) ∷ (2, 0) ∷ []

owned : build_owners 0 three_files.members [] ≡ ok owners
unfolding build_owners claim owned_file_numbers owned_loop push_owned u16_of_int lookup
owned = refl

build_owners_iff_example : (lookup 1 owners ≡ some 1) ↔ Claims three_files.members 1 1
build_owners_iff_example = build_owners_iff three_files.members owners 1 1 owned

contains-missing_file_numbers_example :
    contains (missing_file_numbers (λ n. n == 2) 0 2 (2 ∷ 9 ∷ [])) 9
    ≡ ((contains (2 ∷ 9 ∷ []) 9 || (leb 0 9 && leb 9 2)) && not (9 == 2))
contains-missing_file_numbers_example =
    contains-missing_file_numbers (λ n. n == 2) 0 2 (2 ∷ 9 ∷ []) 9

contains-owned_file_numbers_example :
    contains (owned_file_numbers (header 5 true (pos 3 ∷ pos 4 ∷ []))) 4
    ≡ (5 == 4 || names (pos 3 ∷ pos 4 ∷ []) 4)
contains-owned_file_numbers_example =
    contains-owned_file_numbers (header 5 true (pos 3 ∷ pos 4 ∷ [])) 4

changed_positions_iff_example :
    (contains (changed_positions three_files (1 ∷ 2 ∷ []) 0 0) 3 ≡ true)
    ↔ Any (Changes (1 ∷ 2 ∷ []) 0 0 3) three_files.members
changed_positions_iff_example = changed_positions_iff three_files (1 ∷ 2 ∷ []) 0 0 3
