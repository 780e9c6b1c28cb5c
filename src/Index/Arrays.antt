-- ===== src/Index/Arrays.antt =====
-- `parse_array` and `read_count` (src/index.rs): a count, and a run of elements of one size.
use native.Mathlib.Nat.{suc-mul}
use mrimgx_consolidate.Base.{
  ℕ, ◌+◌, ◌*◌, ◌^◌, ◌≤◌, ◌<◌, ◌≡◌, refl, sym, ap, ◌∙◌, List, [], ◌∷◌, ◌++◌, append-nil,
  append_assoc, length, length-append, slice, slice-append_right, All, le→leb, lt→ltb, Result, ok,
  arith,
}
use mrimgx_consolidate.Base.Bytes.{Bytes, le_bytes, from_le-le_bytes}
use mrimgx_consolidate.Index.{parse_loop, parse_array, read_count, write_count}

pub length-count :
    (raw pre post : Bytes) (at n : ℕ)
    → raw ≡ pre ++ (le_bytes 4 n ++ post)
    → at ≡ length pre
    → at + 4 ≤ length raw
length-count raw pre post at n e h =
    omega (arith, ap (length {A = ℕ}) e, length-append pre (le_bytes 4 n ++ post))

pub write_count-lt : (n : ℕ) (out : Bytes) → n < 2 ^ 31 → write_count n out ≡ out ++ le_bytes 4 n
unfolding write_count
write_count-lt n out fits = rw (lt→ltb _ _ fits) refl

pub read_count-le_bytes :
    (raw pre post : Bytes) (at n : ℕ)
    → raw ≡ pre ++ (le_bytes 4 n ++ post)
    → at ≡ length pre
    → n < 2 ^ 31
    → read_count raw at ≡ ok (n, at + 4)
unfolding read_count
read_count-le_bytes raw pre post at n e h fits =
    let read : slice raw at 4 ≡ le_bytes 4 n =
      rw e (slice-append_right pre (le_bytes 4 n) post at 4 (sym h) refl) in
    rw
      (
        le→leb _ _ (length-count raw pre post at n e h),
        read,
        from_le-le_bytes 4 n (omega arith),
        lt→ltb _ _ fits,
      )
      refl

module _ {T : Type 0} (write : T → Bytes) where
  abbrev pub encode : List T → Bytes
  encode [] = []
  encode (x ∷ xs) = write x ++ encode xs

-- One array: elements that are written by `write` in `stride` bytes and read back by `parse`.
module _ {T : Type 0} (P : T → Type 0) (parse : Bytes → Result T) (write : T → Bytes) (stride : ℕ)
    (length-write : (x : T) → P x → length (write x) ≡ stride)
    (parse-write : (x : T) (rest : Bytes) → P x → parse (write x ++ rest) ≡ ok x) where
  pub length-encode : (xs : List T) → All P xs → length (encode write xs) ≡ length xs * stride
  length-encode [] h = omega arith
  length-encode (x ∷ xs) h = omega (
    arith,
    length-append (write x) (encode write xs),
    length-write x h.0,
    length-encode xs h.1,
    suc-mul (length xs) stride,
  )

  pub parse_loop-encode :
      (xs : List T) (raw pre post : Bytes) (start : ℕ)
      → raw ≡ pre ++ (encode write xs ++ post)
      → start ≡ length pre
      → All P xs
      → parse_loop parse (length xs) raw start stride ≡ ok xs
  unfolding parse_loop
  parse_loop-encode [] raw pre post start e h all = refl
  parse_loop-encode (x ∷ xs) raw pre post start e h all =
      let here : slice raw start stride ≡ write x =
        rw (e, append_assoc (write x) (encode write xs) post)
          (slice-append_right pre (write x) (encode write xs ++ post) start stride (sym h)
            (length-write x all.0)) in
      let read : parse (write x) ≡ ok x = rw append-nil at (parse-write x [] all.0) in
      let moved : raw ≡ (pre ++ write x) ++ (encode write xs ++ post) =
        e
        ∙ (ap (λ t. pre ++ t) (append_assoc (write x) (encode write xs) post)
            ∙ sym (append_assoc pre (write x) (encode write xs ++ post))) in
      rw
        (
          here,
          read,
          parse_loop-encode xs raw (pre ++ write x) post (start + stride) moved
              (omega (arith, length-append pre (write x), length-write x all.0)) all.1,
        )
        refl

  pub parse_array-encode :
      (xs : List T) (raw pre post : Bytes) (at : ℕ)
      → raw ≡ pre ++ (encode write xs ++ post)
      → at ≡ length pre
      → All P xs
      → length xs * stride < 2 ^ 64
      → parse_array parse raw at (length xs) stride ≡ ok (xs, at + length xs * stride)
  unfolding parse_array
  parse_array-encode xs raw pre post at e h all small =
      let room : at + length xs * stride ≤ length raw = omega (
        arith,
        ap (length {A = ℕ}) e,
        length-append pre (encode write xs ++ post),
        length-append (encode write xs) post,
        length-encode xs all,
      ) in
      rw (lt→ltb _ _ small, le→leb _ _ room, parse_loop-encode xs raw pre post at e h all) refl
