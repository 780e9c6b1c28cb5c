-- ===== src/Block/Footer.antt =====
-- `read_footer`, `footer_bytes` and `align_up` (src/block.rs).
use mrimgx_consolidate.Base.{
  ℕ, ◌+◌, ◌-◌, ◌%◌, ◌^◌, ◌≤◌, ◌<◌, ◌≡◌, refl, ap, sym, [], ◌++◌, append-nil, length, length-append,
  slice, slice-append_right, le→leb, leb, ok, arith, ◌⊎◌, inl, inr, Bool-cases,
}
use mrimgx_consolidate.Base.Bytes.{Bytes, from_le-le_bytes}
use mrimgx_consolidate.Block.{
  align_up, data_alignment, read_exact, read_footer, footer_bytes, footer_len,
}

pub align_up-fits :
    (offset : ℕ)
    → offset ≤ 2 ^ 64 - data_alignment
    → (align_up offset % data_alignment ≡ 0)
      × (offset ≤ align_up offset)
      × (align_up offset < offset + data_alignment)
unfolding align_up
align_up-fits offset low = (omega arith, omega arith, omega arith)

-- `align_up` gives the least multiple of 4096 that is not below the offset, as long as 64 bits hold
-- it. Of a 64-bit offset above that it gives 0.
pub align_up_lem :
    (offset : ℕ)
    → offset < 2 ^ 64
    → ((offset ≤ 2 ^ 64 - data_alignment)
        × (align_up offset % data_alignment ≡ 0)
        × (offset ≤ align_up offset)
        × (align_up offset < offset + data_alignment))
      ⊎ ((2 ^ 64 - data_alignment < offset) × (align_up offset ≡ 0))
unfolding align_up
align_up_lem offset h = elim (Bool-cases (leb offset (2 ^ 64 - data_alignment))) [
  | inl room ↦
      let low : offset ≤ 2 ^ 64 - data_alignment = ground arith in
      let (aligned, above, least) = align_up-fits offset low in inl (low, aligned, above, least)
  | inr none_left ↦
      let high : 2 ^ 64 - data_alignment < offset = ground arith in inr (high, omega arith)
]

-- A read that is exactly what was appended in the middle.
pub read_exact-append :
    (file pre s post : Bytes) (at n : ℕ)
    → file ≡ pre ++ (s ++ post)
    → length pre ≡ at
    → length s ≡ n
    → read_exact file at n ≡ ok s
unfolding read_exact
read_exact-append file pre s post at n e f g =
    let room : at + n ≤ length file =
      omega (arith, ap (length {A = ℕ}) e, length-append pre (s ++ post), length-append s post) in
    let read : slice file at n ≡ s = rw e (slice-append_right pre s post at n f g) in
    rw (le→leb _ _ room, read) refl

-- The footer that ends a file names the root list again.
pub read_footer-footer_bytes :
    (front : Bytes) (root : ℕ) → root < 2 ^ 64 → read_footer (front ++ footer_bytes root) ≡ ok root
unfolding read_footer footer_bytes
read_footer-footer_bytes front root fits =
    let file : Bytes = front ++ footer_bytes root in
    let size : length file ≡ length front + 20 = length-append front (footer_bytes root) in
    let read : read_exact file (length file - footer_len) footer_len ≡ ok (footer_bytes root) =
      read_exact-append file front (footer_bytes root) [] _ _
        (ap (λ t. front ++ t) (sym (append-nil _))) (omega (arith, size)) refl in
    rw (le→leb footer_len (length file) (omega (arith, size)), read)
      (rw (from_le-le_bytes 8 root fits) refl)
