-- ===== src/Merge.antt =====
-- A whole merge, from the plan (src/plan.rs) to the written data region (src/write.rs).
pub mod Preserve
pub mod Whole
pub mod Accepted
pub mod Reopened
use mrimgx_consolidate.Base.{ℕ, ◌∷◌, List, Result}
use mrimgx_consolidate.Base.Bytes.{Bytes}
use mrimgx_consolidate.Index.{DataBlockIndexElement}
use mrimgx_consolidate.Write.{BlockSource, read_source}

-- The stored bytes of a block, through its index entry.
abbrev pub fetch : BlockSource → DataBlockIndexElement → Result Bytes
fetch source e = source e.file_number e.file_position e.block_length

-- The files once the output is in place: it answers for its own number.
abbrev pub with_output : ℕ → Bytes → List (ℕ × Bytes) → List (ℕ × Bytes)
with_output number out handles = (number, out) ∷ handles
