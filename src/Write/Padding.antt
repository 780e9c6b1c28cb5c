-- ===== src/Write/Padding.antt =====
-- `write_zeros` (src/write.rs): the zeros behind the data, on any writer.
use Prim.Native.Nat.{min}
use Prim.Native.Nat.add
use mrimgx_consolidate.Base.{
  ℕ, zero, suc, ◌+◌, ◌-◌, ◌≤◌, ◌≡◌, ◌∙◌, refl, sym, ap, ◌∷◌, ◌++◌, append-nil, append_assoc, length,
  length-replicate, take, le→leb, ok, err, Result, Result-cases, subst, ok-injective, ◌==◌, ==_iff,
  Bool-cases, inl, inr, arith,
}
use mrimgx_consolidate.Base.Bytes.{Bytes}
use mrimgx_consolidate.Write.{chunk, zeros, up_to, append_all, write_zeros_loop, write_zeros}

replicate-add : (m n : ℕ) → zeros m ++ zeros n ≡ zeros (m + n)
replicate-add zero n = rw (add.zero n) refl
replicate-add (suc m) n = rw (add.suc m n) (ap (λ l. 0 ∷ l) (replicate-add m n))

take-replicate : (n m : ℕ) → n ≤ m → take n (zeros m) ≡ zeros n
take-replicate zero m h = refl
take-replicate (suc n) zero h = absurd (omega arith)
take-replicate (suc n) (suc m) h = ap (λ l. 0 ∷ l) (take-replicate n m (omega arith))

up_to-replicate : (m n : ℕ) → n ≤ m → up_to (zeros m) n ≡ ok (zeros n)
unfolding up_to
up_to-replicate m n h =
    let size : length (zeros m) ≡ m = length-replicate m zero in
    rw size (rw (le→leb n m h) (ap ok (take-replicate n m h)))

module _ {W : Type 0} (write_all : Bytes → W → Result W) (contents : W → Bytes) where
  -- The zeros are all there, or the writer refused a part of them that is not longer than a chunk.
  abbrev pub Zeroed : ℕ → W → Result W → Type 0
  Zeroed count out (ok out') = contents out' ≡ contents out ++ zeros count
  Zeroed count out (err e) =
      (w : W) × (n : ℕ) × (1 ≤ n) × (n ≤ chunk) × (write_all (zeros n) w ≡ err e)

  module _
      (appends : (bytes : Bytes) (w w' : W)
        → write_all bytes w ≡ ok w'
        → contents w' ≡ contents w ++ bytes) where
    Zeroed-more :
        (n left : ℕ) (out out' : W) (r : Result W)
        → contents out' ≡ contents out ++ zeros n
        → Zeroed left out' r
        → Zeroed (n + left) out r
    Zeroed-more n left out out' (ok w) h k =
        k
        ∙ ap (λ l. l ++ zeros left) h
        ∙ append_assoc (contents out) (zeros n) (zeros left)
        ∙ ap (λ l. contents out ++ l) (replicate-add n left)
    Zeroed-more n left out out' (err e) h k = k

    write_zeros_loop-Zeroed :
        (fuel count : ℕ) (out : W)
        → count ≤ fuel
        → Zeroed count out (write_zeros_loop write_all fuel count out)
    unfolding write_zeros_loop
    write_zeros_loop-Zeroed zero count out h =
        let none_left : count ≡ 0 = omega arith in rw none_left (sym (append-nil (contents out)))
    write_zeros_loop-Zeroed (suc fuel) count out h = elim (Bool-cases (count == 0)) [
      | inl done ↦
          let none_left : count ≡ 0 = (==_iff count 0).0 done in
          rw none_left (sym (append-nil (contents out)))
      | inr more ↦
          let n : ℕ = min count chunk in
          let whole : n + (count - n) ≡ count = omega arith in
          rw (more, up_to-replicate chunk n (omega arith))
            (elim (Result-cases (write_all (zeros n) out)) [
              | inl (out', wrote) ↦ rw wrote (
                  subst (λ c. Zeroed c out (write_zeros_loop write_all fuel (count - n) out')) whole
                    (Zeroed-more n (count - n) out out'
                      (write_zeros_loop write_all fuel (count - n) out')
                      (appends (zeros n) out out' wrote)
                      (write_zeros_loop-Zeroed fuel (count - n) out' (omega arith))))
              | inr (e, refused) ↦ rw refused (out, n, ground arith, omega arith, refused)
            ])
    ]

    -- Writing zeros comes to an end, in chunks of at most 8192 bytes that never leave the array of
    -- zeros: either the writer has taken as many zeros as were asked for, or the error is one with
    -- which the writer refused a chunk. The condition is that what the writer takes is appended.
    pub write_zeros-Zeroed :
        (count : ℕ) (out : W) → Zeroed count out (write_zeros write_all count out)
    unfolding write_zeros
    write_zeros-Zeroed count out = write_zeros_loop-Zeroed count count out (omega arith)

-- On a buffer nothing is refused.
pub write_zeros-append_all :
    (count : ℕ) (out : Bytes) → write_zeros append_all count out ≡ ok (out ++ zeros count)
write_zeros-append_all count out =
    let zeroed =
      write_zeros-Zeroed append_all (λ w. w) (λ bytes w w' e. sym (ok-injective e)) count out in
    elim (Result-cases (write_zeros append_all count out)) [
      | inl (out', wrote) ↦
          wrote ∙ ap ok (subst (Zeroed append_all (λ w. w) count out) wrote zeroed)
      | inr (e, refused) ↦
          let (w, n, some_zeros, small, never) =
            subst (Zeroed append_all (λ w. w) count out) refused zeroed in
          absurd (cc never)
    ]
