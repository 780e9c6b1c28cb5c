-- ===== src/Write/Source.antt =====
-- `read_exact`, and `SourceFiles::read_block` (src/write.rs): the source that the open files are.
use mrimgx_consolidate.Base.{
  ℕ, ◌+◌, ◌≤◌, ◌≡◌, ◌∙◌, refl, ap, List, ◌++◌, length, length-append, append-nil, slice,
  slice-append_left, slice-append_right, leb→le, le→leb, ok, err, or_err, no_handle,
  negative_position, ensure-eq_ok, >>=-eq_ok, ok-injective, arith, zero, suc, [], ◌∷◌,
}
use mrimgx_consolidate.Base.Int.{ℤ, pos, negsuc}
use mrimgx_consolidate.Base.Bytes.{Bytes}
use mrimgx_consolidate.Base.Sets.{lookup}
use mrimgx_consolidate.Block.{read_exact}
use mrimgx_consolidate.Write.{BlockSource, read_source}

pub length-slice : (xs : Bytes) (at n : ℕ) → at + n ≤ length xs → length (slice xs at n) ≡ n
length-slice xs zero zero h = refl
length-slice [] zero (suc n) h = absurd (omega arith)
length-slice (x ∷ xs) zero (suc n) h = ap suc (length-slice xs zero n (omega arith))
length-slice [] (suc at) n h = absurd (omega arith)
length-slice (x ∷ xs) (suc at) n h = length-slice xs at n (omega arith)

pub read_exact-eq_ok :
    (file : Bytes) (at n : ℕ) (bytes : Bytes)
    → read_exact file at n ≡ ok bytes
    → (at + n ≤ length file) × (slice file at n ≡ bytes)
unfolding read_exact
read_exact-eq_ok file at n bytes h =
    let (room, e) = ensure-eq_ok _ _ (ok (slice file at n)) h in (leb→le _ _ room, ok-injective e)

pub read_exact-slice :
    (file : Bytes) (at n : ℕ) → at + n ≤ length file → read_exact file at n ≡ ok (slice file at n)
unfolding read_exact
read_exact-slice file at n h = rw (le→leb _ _ h) refl

-- A read of `n` bytes has `n` bytes.
pub length-read_exact :
    (file : Bytes) (at n : ℕ) (bytes : Bytes) → read_exact file at n ≡ ok bytes → length bytes ≡ n
length-read_exact file at n bytes h =
    let (room, e) = read_exact-eq_ok file at n bytes h in rw (← e) (length-slice file at n room)

-- What is appended to a file does not change what was read from it.
pub read_exact-append_more :
    (file more : Bytes) (at n : ℕ) (bytes : Bytes)
    → read_exact file at n ≡ ok bytes
    → read_exact (file ++ more) at n ≡ ok bytes
read_exact-append_more file more at n bytes h =
    let (room, e) = read_exact-eq_ok file at n bytes h in
    read_exact-slice (file ++ more) at n (omega (arith, length-append file more))
    ∙ ap ok (slice-append_left file more at n room ∙ e)

-- What was just appended is read back from where the file ended.
pub read_exact-appended :
    (file bytes : Bytes) (at n : ℕ)
    → length file ≡ at
    → length bytes ≡ n
    → read_exact (file ++ bytes) at n ≡ ok bytes
read_exact-appended file bytes at n h k =
    read_exact-slice (file ++ bytes) at n (omega (arith, length-append file bytes))
    ∙ ap ok (rw (append-nil bytes) at (slice-append_right file bytes [] at n h k))

-- What `BlockSource` promises: a read gives exactly the bytes asked for.
pub record ReadsExactly (source : BlockSource) : Type 0 where
  pub exact :
      (number : ℕ) (position : ℤ) (n : ℕ) (bytes : Bytes)
      → source number position n ≡ ok bytes
      → length bytes ≡ n

-- A read of the open files that succeeds gives as many bytes as were asked for.
pub read_source-ReadsExactly : (handles : List (ℕ × Bytes)) → ReadsExactly (read_source handles)
unfolding read_source
read_source-ReadsExactly handles = record { exact = go }
  where
    go :
        (number : ℕ) (position : ℤ) (n : ℕ) (bytes : Bytes)
        → read_source handles number position n ≡ ok bytes
        → length bytes ≡ n
    go number (pos p) n bytes h =
        let (file, found, read) =
          >>=-eq_ok (or_err (lookup number handles) no_handle) (λ f. read_exact f p n) h in
        length-read_exact file p n bytes read
    go number (negsuc p) n bytes h =
        let (file, found, read) =
          >>=-eq_ok (or_err (lookup number handles) no_handle) (λ f. err negative_position) h in
        cc read
