-- ===== src/Index/RoundTrip.antt =====
-- `PartitionIndex::to_bytes` and `PartitionIndex::parse` (src/index.rs), a whole payload.
use mrimgx_consolidate.Base.{
  ℕ, ◌+◌, ◌*◌, ◌^◌, ◌<◌, ◌≡◌, refl, sym, ap, ◌∙◌, List, [], ◌∷◌, ◌++◌, append-nil, append_assoc,
  length, length-append, All, ok, arith, ==_iff,
}
use mrimgx_consolidate.Base.Bytes.{Bytes, le_bytes}
use mrimgx_consolidate.Index.{
  DataBlockIndexElement, DeltaDataBlock, IsElement, IsDelta, Blocks, full, delta, len, is_delta,
  PartitionIndex, parse_element, parse_delta, write_element, write_delta, element_len, delta_len,
  read_count, parse_array, parse_blocks, parse, write_elements, write_deltas, write_blocks,
  to_bytes,
}
use mrimgx_consolidate.Index.Elements.{
  write_element-append, write_delta-append, length-write_element, length-write_delta,
  parse-write_element, parse-write_delta,
}
use mrimgx_consolidate.Index.Arrays.{
  encode, length-encode, parse_array-encode, read_count-le_bytes, write_count-lt,
}

abbrev elements : List DataBlockIndexElement → Bytes
elements = encode (λ e. write_element e [])

abbrev deltas : List DeltaDataBlock → Bytes
deltas = encode (λ d. write_delta d [])

write_elements-encode :
    (es : List DataBlockIndexElement) (out : Bytes) → write_elements es out ≡ out ++ elements es
unfolding write_elements
write_elements-encode [] out = sym (append-nil out)
write_elements-encode (e ∷ es) out =
    write_elements-encode es (write_element e out)
    ∙ (ap (λ t. t ++ elements es) (write_element-append e out)
        ∙ append_assoc out (write_element e []) (elements es))

write_deltas-encode :
    (ds : List DeltaDataBlock) (out : Bytes) → write_deltas ds out ≡ out ++ deltas ds
unfolding write_deltas
write_deltas-encode [] out = sym (append-nil out)
write_deltas-encode (d ∷ ds) out =
    write_deltas-encode ds (write_delta d out)
    ∙ (ap (λ t. t ++ deltas ds) (write_delta-append d out)
        ∙ append_assoc out (write_delta d []) (deltas ds))

-- The ranges of the Rust types, and arrays that the signed 32-bit counts can name.
abbrev pub AllFit : Blocks → Type 0
AllFit (full v) = All IsElement v
AllFit (delta v) = All IsDelta v

pub record IsIndex (index : PartitionIndex) : Type 0 where
  pub reserved_fit : All IsElement index.reserved
  pub reserved_count : length index.reserved < 2 ^ 31
  pub blocks_fit : AllFit index.blocks
  pub block_count : len index.blocks < 2 ^ 31

abbrev stored : Blocks → Bytes
stored (full v) = elements v
stored (delta v) = deltas v

abbrev stride : Blocks → ℕ
stride (full v) = element_len
stride (delta v) = delta_len

write_blocks-stored : (b : Blocks) (out : Bytes) → write_blocks b out ≡ out ++ stored b
unfolding write_blocks
write_blocks-stored (full v) out = write_elements-encode v out
write_blocks-stored (delta v) out = write_deltas-encode v out

length-stored : (b : Blocks) → AllFit b → length (stored b) ≡ len b * stride b
length-stored (full v) h =
    length-encode IsElement parse_element _ element_len length-write_element parse-write_element v h
length-stored (delta v) h =
    length-encode IsDelta parse_delta _ delta_len length-write_delta parse-write_delta v h

parse_blocks-stored :
    (b : Blocks) (raw pre post : Bytes) (at : ℕ)
    → raw ≡ pre ++ (stored b ++ post)
    → at ≡ length pre
    → AllFit b
    → len b < 2 ^ 31
    → parse_blocks raw at (len b) (is_delta b) ≡ ok (b, at + len b * stride b)
unfolding parse_blocks
parse_blocks-stored (full v) raw pre post at e h fit small =
    rw
      (parse_array-encode IsElement parse_element _ element_len length-write_element
        parse-write_element v raw pre post at e h fit (omega arith))
      refl
parse_blocks-stored (delta v) raw pre post at e h fit small =
    rw
      (parse_array-encode IsDelta parse_delta _ delta_len length-write_delta parse-write_delta v raw
        pre post at e h fit (omega arith))
      refl

module _ (index : PartitionIndex) (fits : IsIndex index) where
  head : Bytes
  head = le_bytes 4 (length index.reserved)

  middle : Bytes
  middle = le_bytes 4 (len index.blocks)

  payload : Bytes
  payload = head ++ (elements index.reserved ++ (middle ++ stored index.blocks))

  to_bytes-payload : to_bytes index ≡ payload
  unfolding to_bytes payload head middle
  to_bytes-payload = rw (write_count-lt (length index.reserved) [] fits.reserved_count) (
      rw (write_elements-encode index.reserved _) (
        rw (write_count-lt (len index.blocks) _ fits.block_count) (
          rw (write_blocks-stored index.blocks _)
            (rw (append_assoc, append_assoc, append_assoc) refl))))

  reserved_end : ℕ
  reserved_end = 4 + length index.reserved * element_len

  length-front : length (head ++ elements index.reserved) ≡ reserved_end
  unfolding head reserved_end
  length-front = omega (
    arith,
    length-append (le_bytes 4 (length index.reserved)) (elements index.reserved),
    length-encode IsElement parse_element _ element_len length-write_element parse-write_element
        index.reserved fits.reserved_fit,
  )

  read_reserved_count :
      (raw : Bytes) → raw ≡ payload → read_count raw 0 ≡ ok (length index.reserved, 4)
  unfolding payload head
  read_reserved_count raw e = read_count-le_bytes raw [] _ 0 _ e refl fits.reserved_count

  read_reserved :
      (raw : Bytes)
      → raw ≡ payload
      → parse_array parse_element raw 4 (length index.reserved) element_len
        ≡ ok (index.reserved, reserved_end)
  unfolding payload head reserved_end
  read_reserved raw e =
      parse_array-encode IsElement parse_element _ element_len length-write_element
        parse-write_element index.reserved raw head _ 4 e refl fits.reserved_fit
        (omega (arith, fits.reserved_count))

  read_block_count :
      (raw : Bytes)
      → raw ≡ payload
      → read_count raw reserved_end ≡ ok (len index.blocks, reserved_end + 4)
  unfolding payload middle
  read_block_count raw e =
      read_count-le_bytes raw (head ++ elements index.reserved) (stored index.blocks) reserved_end _
        (e ∙ sym (append_assoc head _ _)) (sym length-front) fits.block_count

  read_blocks :
      (raw : Bytes)
      → raw ≡ payload
      → parse_blocks raw (reserved_end + 4) (len index.blocks) (is_delta index.blocks)
        ≡ ok (index.blocks, reserved_end + 4 + len index.blocks * stride index.blocks)
  unfolding payload
  read_blocks raw e =
      parse_blocks-stored index.blocks raw ((head ++ elements index.reserved) ++ middle) [] _
        (e ∙ (rw (append-nil, append_assoc, append_assoc) refl))
        (unfold middle in
          omega (arith, length-append (head ++ elements index.reserved) middle, length-front))
        fits.blocks_fit fits.block_count

  length-payload : length payload ≡ reserved_end + 4 + len index.blocks * stride index.blocks
  unfolding payload
  length-payload =
      rw (← append_assoc head (elements index.reserved) (middle ++ stored index.blocks)) (
        unfold middle in
        omega (
          arith,
          length-front,
          length-append (head ++ elements index.reserved) (middle ++ stored index.blocks),
          length-stored index.blocks fits.blocks_fit,
        ))

  -- Reading a serialized index gives the index back, when its arrays fit the signed counts.
  pub parse-to_bytes : parse (to_bytes index) (is_delta index.blocks) ≡ ok index
  unfolding parse
  parse-to_bytes = rw (read_reserved_count (to_bytes index) to_bytes-payload) (
      rw (read_reserved (to_bytes index) to_bytes-payload) (
        rw (read_block_count (to_bytes index) to_bytes-payload) (
          rw (read_blocks (to_bytes index) to_bytes-payload) (
            rw ((==_iff _ _).1 (sym (ap (length {A = ℕ}) to_bytes-payload ∙ length-payload)))
              refl))))
