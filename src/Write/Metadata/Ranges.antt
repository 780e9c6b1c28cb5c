-- ===== src/Write/Metadata/Ranges.antt =====
-- `copy_range` (src/write.rs): the bytes that it appends, and reads of the copy.
use Prim.Native.Nat.{min}
use mrimgx_consolidate.Base.{
  ℕ, zero, suc, ◌+◌, ◌-◌, ◌%◌, ◌^◌, ◌≤◌, ◌<◌, ◌≡◌, ◌∙◌, ◌⊎◌, inl, inr, refl, sym, ap, subst, true,
  List, ◌++◌, append-nil, append_assoc, ltb, lt→ltb, ◌==◌, ==_iff, length, length-append, slice,
  slice_add, some, ok, >>=-eq_ok, ensure-eq_ok, ok-injective, Bool-cases, arith, offset_overflow,
  wrong_length,
}
use mrimgx_consolidate.Base.Int.{pos}
use mrimgx_consolidate.Base.Bytes.{Bytes}
use mrimgx_consolidate.Base.Sets.{lookup}
use mrimgx_consolidate.Block.{read_exact}
use mrimgx_consolidate.Write.{read_source}
use mrimgx_consolidate.Write.Source.{read_exact-eq_ok, read_exact-slice, length-slice}
use mrimgx_consolidate.Write.Metadata.{range_chunk, copy_chunk, copy_range_loop, copy_range}

-- `out'` is `out` with `n` bytes of the file from `start` on behind it.
pub record IsCopied (file : Bytes) (start n : ℕ) (out out' : Bytes) : Type 0 where
  pub appended : out' ≡ out ++ slice file start n
  pub size : length (slice file start n) ≡ n
  pub room : (n ≡ 0) ⊎ (start + n ≤ length file)

IsCopied-nothing : (file : Bytes) (start : ℕ) (out : Bytes) → IsCopied file start 0 out out
IsCopied-nothing file start out = record {
  appended = sym (append-nil out);
  size = refl;
  room = inl refl;
}

IsCopied-append :
    (file : Bytes) (start n m : ℕ) (out mid out' : Bytes)
    → 0 < n
    → read_exact file start n ≡ ok (slice file start n)
    → mid ≡ out ++ slice file start n
    → IsCopied file (start + n) m mid out'
    → IsCopied file start (n + m) out out'
IsCopied-append file start n m out mid out' some_left read e c =
    let (room, same) = read_exact-eq_ok file start n (slice file start n) read in
    let whole : slice file start (n + m) ≡ slice file start n ++ slice file (start + n) m =
      slice_add file start n m in
    record {
      appended =
          c.appended
          ∙ (ap (λ o. o ++ slice file (start + n) m) e
              ∙ (append_assoc out (slice file start n) (slice file (start + n) m)
                  ∙ ap (λ l. out ++ l) (sym whole)));
      size =
          ap (length {A = ℕ}) whole
          ∙ (length-append (slice file start n) (slice file (start + n) m)
              ∙ omega (arith, c.size, length-slice file start n room));
      room = elim c.room [
        | inl none_left ↦ inr (omega (arith, room, none_left))
        | inr fits ↦ inr (omega (arith, fits))
      ];
    }

module _ (handles : List (ℕ × Bytes)) (number : ℕ) (file : Bytes)
    (found : lookup number handles ≡ some file) where
  read_found :
      (position n : ℕ) → read_source handles number (pos position) n ≡ read_exact file position n
  unfolding read_source
  read_found position n = rw found refl

  copy_chunk-slice :
      (position n : ℕ) (out out' : Bytes)
      → copy_chunk (read_source handles) number position n out ≡ ok out'
      → (read_exact file position n ≡ ok (slice file position n))
        × (out' ≡ out ++ slice file position n)
  unfolding copy_chunk
  copy_chunk-slice position n out out' h =
      let (fits, h1) = ensure-eq_ok (ltb position (2 ^ 63)) offset_overflow _ h in
      let (bytes, read, h2) = >>=-eq_ok (read_source handles number (pos position) n) _ h1 in
      let (exact, h3) = ensure-eq_ok (length bytes % 2 ^ 32 == n) wrong_length _ h2 in
      let read' : read_exact file position n ≡ ok bytes = sym (read_found position n) ∙ read in
      let (room, same) = read_exact-eq_ok file position n bytes read' in
      (read' ∙ ap ok (sym same), sym (ok-injective h3) ∙ ap (λ b. out ++ b) (sym same))

  copy_range_loop-IsCopied :
      (fuel position left : ℕ) (out out' : Bytes)
      → copy_range_loop (read_source handles) number fuel position left out ≡ ok out'
      → IsCopied file position left out out'
  unfolding copy_range_loop
  copy_range_loop-IsCopied zero position left out out' h = elim (Bool-cases (left == 0)) [
    | inl done ↦
        let none_left : left ≡ 0 = (==_iff left 0).0 done in
        rw none_left (
          subst (IsCopied file position 0 out) (ok-injective (rw done at h))
            (IsCopied-nothing file position out))
    | inr more ↦ absurd (cc (rw more at h))
  ]
  copy_range_loop-IsCopied (suc fuel) position left out out' h = elim (Bool-cases (left == 0)) [
    | inl done ↦
        let none_left : left ≡ 0 = (==_iff left 0).0 done in
        rw none_left (
          subst (IsCopied file position 0 out) (ok-injective (rw done at h))
            (IsCopied-nothing file position out))
    | inr more ↦
        let n : ℕ = min left range_chunk in
        let (mid, copied, rest) =
          >>=-eq_ok (copy_chunk (read_source handles) number position n out) _ (rw more at h) in
        let (read, e) = copy_chunk-slice position n out mid copied in
        let whole : n + (left - n) ≡ left = omega arith in
        let some_left : 0 < n = ground (arith, more) in
        subst (λ k. IsCopied file position k out out') whole
          (IsCopied-append file position n (left - n) out mid out' some_left read e
            (copy_range_loop-IsCopied fuel (position + n) (left - n) mid out' rest))
  ]

  -- A range that is copied is appended as it stands in the file.
  pub copy_range-IsCopied :
      (start n : ℕ) (out out' : Bytes)
      → copy_range (read_source handles) number start n out ≡ ok out'
      → IsCopied file start n out out'
  unfolding copy_range
  copy_range-IsCopied start n out out' h = copy_range_loop-IsCopied n start n out out' h

  copy_chunk-ok :
      (position n : ℕ) (out : Bytes)
      → position < 2 ^ 63
      → n < 2 ^ 32
      → position + n ≤ length file
      → copy_chunk (read_source handles) number position n out ≡ ok (out ++ slice file position n)
  unfolding copy_chunk
  copy_chunk-ok position n out low small room =
      let read : read_source handles number (pos position) n ≡ ok (slice file position n) =
        read_found position n ∙ read_exact-slice file position n room in
      let whole : (length (slice file position n) % 2 ^ 32 == n) ≡ true =
        (==_iff _ n).1 (omega (arith, length-slice file position n room, small)) in
      rw (lt→ltb position (2 ^ 63) low) (rw read (rw whole refl))

  copy_range_loop-ok :
      (fuel position left : ℕ) (out : Bytes)
      → left ≤ fuel
      → position + left ≤ length file
      → length file < 2 ^ 63
      → copy_range_loop (read_source handles) number fuel position left out
        ≡ ok (out ++ slice file position left)
  unfolding copy_range_loop
  copy_range_loop-ok zero position left out enough room low =
      let none_left : left ≡ 0 = omega arith in rw none_left (ap ok (sym (append-nil out)))
  copy_range_loop-ok (suc fuel) position left out enough room low = elim (Bool-cases (left == 0)) [
    | inl done ↦
        let none_left : left ≡ 0 = (==_iff left 0).0 done in
        rw none_left (ap ok (sym (append-nil out)))
    | inr more ↦
        let n : ℕ = min left range_chunk in
        let some_left : 0 < n = ground (arith, more) in
        let first = copy_chunk-ok position n out (omega arith) (omega arith) (omega arith) in
        let rest =
          copy_range_loop-ok fuel (position + n) (left - n) (out ++ slice file position n)
            (omega (arith, some_left)) (omega arith) low in
        let whole : left ≡ n + (left - n) = omega arith in
        rw more (
          rw first (
            rest
            ∙ ap ok (
                append_assoc out (slice file position n) (slice file (position + n) (left - n))
                ∙ ap (λ l. out ++ l)
                    (sym (slice_add file position n (left - n))
                      ∙ ap (slice file position) (sym whole)))))
  ]

  -- A range that lies in the file, which is shorter than `2 ^ 63`, is copied: the rounds suffice, and
  -- the output grows by exactly those bytes.
  pub copy_range_lem :
      (start n : ℕ) (out : Bytes)
      → start + n ≤ length file
      → length file < 2 ^ 63
      → copy_range (read_source handles) number start n out ≡ ok (out ++ slice file start n)
  unfolding copy_range
  copy_range_lem start n out room low = copy_range_loop-ok n start n out (omega arith) room low
