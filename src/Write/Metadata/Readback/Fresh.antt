-- ===== src/Write/Metadata/Readback/Fresh.antt =====
-- A partition's list with a fresh index behind a copied front, as `parse_partition` (src/reader.rs)
-- reads it.
use mrimgx_consolidate.Base.{
  ℕ, ◌+◌, ◌^◌, ◌≤◌, ◌<◌, ◌≡◌, ◌∙◌, refl, ap, Bool, true, ◌&&◌, not, List, [], ◌++◌, append-nil,
  append_assoc, length, length-append, ok, or_err, >>=-eq_ok, ensure-eq_ok, ok-injective, arith,
  index_panic, no_index_block, index_not_plain,
}
use mrimgx_consolidate.Base.Bytes.{Bytes, bytes_eq, bytes_eq_refl}
use mrimgx_consolidate.Block.{
  MetadataBlockHeader, IsHeader, BlockList, header_len, index_name, plain, header_to_bytes,
  parse_header, read_exact, read_header, read_payload, walk_list, max_blocks_per_list,
}
use mrimgx_consolidate.Block.Header.{length-header_to_bytes, parse-header_to_bytes}
use mrimgx_consolidate.Block.Footer.{read_exact-append}
use mrimgx_consolidate.Block.Walk.{walk_list_iff}
use mrimgx_consolidate.Index
use mrimgx_consolidate.Index.{PartitionIndex, is_delta, to_bytes}
use mrimgx_consolidate.Index.RoundTrip.{IsIndex, parse-to_bytes}
use mrimgx_consolidate.Reader.{Partition, last?, span_before_index, parse_partition}
use mrimgx_consolidate.Write.Metadata.Lists.{
  extent, span, IsList, blocks_of, Chain-IsList, IsList-Chain, first?-blocks_of, last?-blocks_of,
}

-- A list that is read, as its headers.
pub walk_list-IsList :
    (file : Bytes) (at : ℕ) (l : BlockList)
    → walk_list file at ≡ ok l
    → (front : List MetadataBlockHeader) × (ender : MetadataBlockHeader) × IsList file at front
        ender
      × (l ≡ record { blocks = blocks_of at front ender; end = at + span front + extent ender })
      × (length (blocks_of at front ender) ≤ max_blocks_per_list)
walk_list-IsList file at l h =
    let (chain, few) = (walk_list_iff file at l).0 h in
    let (front, ender, list, e, ends) = Chain-IsList file at l.blocks l.end chain in
    (front, ender, list, cc (e, ends), rw e at few)

-- And a list that stands in a file is read.
pub IsList-walk_list :
    (file : Bytes) (at : ℕ) (front : List MetadataBlockHeader) (ender : MetadataBlockHeader)
    → IsList file at front ender
    → length (blocks_of at front ender) ≤ max_blocks_per_list
    → walk_list file at
      ≡ ok (record { blocks = blocks_of at front ender; end = at + span front + extent ender })
IsList-walk_list file at front ender l few =
    (walk_list_iff file at
        (record { blocks = blocks_of at front ender; end = at + span front + extent ender })).1
      (IsList-Chain file at front ender l, few)

pub span_before_index-blocks_of :
    (part : Partition) (at : ℕ) (front : List MetadataBlockHeader) (ender : MetadataBlockHeader)
    → part.blocks.blocks ≡ blocks_of at front ender
    → span_before_index part ≡ ok (at, at + span front)
unfolding span_before_index
span_before_index-blocks_of part at front ender e =
    let (b, first, here) = first?-blocks_of at front ender in
    rw e (rw first (rw (last?-blocks_of at front ender) (ap (λ k. ok (k, at + span front)) here)))

-- What was read of a partition of the To file.
pub parse_partition-walked :
    (file : Bytes) (delta_index : Bool) (at : ℕ) (part : Partition)
    → parse_partition file delta_index at ≡ ok part
    → walk_list file at ≡ ok part.blocks
unfolding parse_partition
parse_partition-walked file delta_index at part h =
    let (blocks, walked, h1) = >>=-eq_ok (walk_list file at) _ h in
    let (b, last, h2) = >>=-eq_ok (or_err (last? blocks.blocks) index_panic) _ h1 in
    let (named, h3) = ensure-eq_ok (bytes_eq b.header.name index_name) no_index_block _ h2 in
    let (unchanged, h4) =
      ensure-eq_ok (not b.header.flags.compression && not b.header.flags.encryption) index_not_plain
        _ h3 in
    let (raw, read, h5) = >>=-eq_ok (read_payload file b) _ h4 in
    let (index, parsed, h6) = >>=-eq_ok (Index.parse raw delta_index) _ h5 in
    walked ∙ ap ok (ap (λ (q : Partition). q.blocks) (ok-injective h6))

module _ (md5 : Bytes → Bytes) (md5_length : (b : Bytes) → length (md5 b) ≡ 16) where
  -- The header of a fresh index block.
  abbrev pub index_header : Bytes → MetadataBlockHeader
  index_header payload = record {
    name = index_name;
    block_length = length payload;
    hash = md5 payload;
    flags = plain true;
  }

  module _ (o payload rest : Bytes) (fits : length payload < 2 ^ 32) where
    abbrev head : Bytes
    head = header_to_bytes (index_header payload)

    valid : IsHeader (index_header payload)
    valid = record { name_length = refl; length_fits = fits; hash_length = md5_length payload }

    pub whole_front : ((o ++ head) ++ payload) ++ rest ≡ o ++ (head ++ (payload ++ rest))
    whole_front = append_assoc (o ++ head) payload rest ∙ append_assoc o head (payload ++ rest)

    pub read_header-fresh :
        (q : ℕ)
        → length o ≡ q
        → read_header (((o ++ head) ++ payload) ++ rest) q ≡ ok (index_header payload)
    unfolding read_header
    read_header-fresh q at =
        let read : read_exact (((o ++ head) ++ payload) ++ rest) q header_len ≡ ok head =
          read_exact-append _ o head (payload ++ rest) q header_len whole_front at
            (length-header_to_bytes (index_header payload) valid) in
        let parsed : parse_header head ≡ ok (index_header payload) =
          rw (append-nil head) at (parse-header_to_bytes (index_header payload) valid []) in
        rw read parsed

    read_payload-fresh :
        (q : ℕ)
        → length o ≡ q
        → read_exact (((o ++ head) ++ payload) ++ rest) (q + header_len) (length payload)
          ≡ ok payload
    read_payload-fresh q at =
        read_exact-append _ (o ++ head) payload rest (q + header_len) (length payload)
          (append_assoc (o ++ head) payload rest)
          (length-append o head
            ∙ omega (arith, at, length-header_to_bytes (index_header payload) valid))
          refl

    pub size_fresh : length ((o ++ head) ++ payload) ≡ length o + (header_len + length payload)
    size_fresh = omega (
      arith,
      length-append (o ++ head) payload,
      length-append o head,
      length-header_to_bytes (index_header payload) valid,
    )

  -- A list in a copy whose last block is a fresh index.
  abbrev pub fresh : ℕ → List MetadataBlockHeader → PartitionIndex → Partition
  fresh at front index = record {
    blocks = record {
      blocks = blocks_of at front (index_header (to_bytes index));
      end = at + span front + extent (index_header (to_bytes index));
    };
    index = index;
  }

  pub parse_partition-fresh :
      (o : Bytes) (index : PartitionIndex) (rest : Bytes) (at : ℕ)
      (front : List MetadataBlockHeader)
      → IsIndex index
      → length (to_bytes index) < 2 ^ 32
      → length o ≡ at + span front
      → IsList
          (((o ++ header_to_bytes (index_header (to_bytes index))) ++ to_bytes index) ++ rest)
          at
          front
          (index_header (to_bytes index))
      → length (blocks_of at front (index_header (to_bytes index))) ≤ max_blocks_per_list
      → parse_partition
          (((o ++ header_to_bytes (index_header (to_bytes index))) ++ to_bytes index) ++ rest)
          (is_delta index.blocks)
          at
        ≡ ok (fresh at front index)
  unfolding parse_partition read_payload
  parse_partition-fresh o index rest at front fits small size l few =
      let file : Bytes =
        ((o ++ header_to_bytes (index_header (to_bytes index))) ++ to_bytes index) ++ rest in
      let walked = IsList-walk_list file at front (index_header (to_bytes index)) l few in
      let last = last?-blocks_of at front (index_header (to_bytes index)) in
      let read = read_payload-fresh o (to_bytes index) rest small (at + span front) size in
      rw walked
        (rw last (rw (bytes_eq_refl index_name) (rw read (rw (parse-to_bytes index fits) refl))))
