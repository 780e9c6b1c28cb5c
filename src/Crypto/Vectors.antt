-- ===== src/Crypto/Vectors.antt =====
-- `block_iv` (src/crypto.rs): the vectors of two blocks.
use mrimgx_consolidate.Base.{
  ℕ, ◌^◌, ◌<◌, ◌≡◌, ◌∙◌, refl, sym, ap, ◌++◌, length, length-append, take, drop, take-append,
  drop-append, arith,
}
use mrimgx_consolidate.Base.Bytes.{Bytes, le_bytes, from_le, from_le-le_bytes}
use mrimgx_consolidate.Crypto.{Ciphers, block_tuple, block_iv}

append-split :
    (n : ℕ) (xs ys xs' ys' : Bytes)
    → length xs ≡ n
    → length xs' ≡ n
    → xs ++ ys ≡ xs' ++ ys'
    → (xs ≡ xs') × (ys ≡ ys')
append-split n xs ys xs' ys' one other same = (
  sym (take-append n xs ys one) ∙ (ap (take n) same ∙ take-append n xs' ys' other),
  sym (drop-append n xs ys one) ∙ (ap (drop n) same ∙ drop-append n xs' ys' other),
)

le_bytes-injective : (k v w : ℕ) → v < 256 ^ k → w < 256 ^ k → le_bytes k v ≡ le_bytes k w → v ≡ w
le_bytes-injective k v w small small' same =
    sym (from_le-le_bytes k v small) ∙ (ap from_le same ∙ from_le-le_bytes k w small')

length-block_tuple :
    (imageid : Bytes) (disk partition block_index : ℕ)
    → length imageid ≡ 8
    → length (block_tuple imageid disk partition block_index) ≡ 16
length-block_tuple imageid disk partition block_index size = omega (
  arith,
  length-append imageid (le_bytes 2 disk ++ (le_bytes 2 partition ++ le_bytes 4 block_index)),
  size,
)

-- Under one key, no two blocks of an image have the same initialization vector, unless disk,
-- partition and block index agree, for an image id of 8 bytes and numbers of 16, 16 and 32 bits.
pub block_iv-injective :
    (ciphers : Ciphers) (key imageid : Bytes)
    (disk partition block_index disk' partition' block_index' : ℕ)
    → length imageid ≡ 8
    → disk < 2 ^ 16
    → partition < 2 ^ 16
    → block_index < 2 ^ 32
    → disk' < 2 ^ 16
    → partition' < 2 ^ 16
    → block_index' < 2 ^ 32
    → block_iv ciphers key imageid disk partition block_index
      ≡ block_iv ciphers key imageid disk' partition' block_index'
    → (disk ≡ disk') × (partition ≡ partition') × (block_index ≡ block_index')
unfolding block_iv
block_iv-injective ciphers key imageid d p i d' p' i' size hd hp hi hd' hp' hi' same =
    let tuples =
      Ciphers.encrypt_block-injective ciphers (Ciphers.sha256 ciphers key)
        (block_tuple imageid d p i) (block_tuple imageid d' p' i')
        (length-block_tuple imageid d p i size) (length-block_tuple imageid d' p' i' size) same in
    let (_, behind) =
      append-split 8 imageid (le_bytes 2 d ++ (le_bytes 2 p ++ le_bytes 4 i)) imageid
        (le_bytes 2 d' ++ (le_bytes 2 p' ++ le_bytes 4 i')) size size tuples in
    let (disks, rest) =
      append-split 2 (le_bytes 2 d) (le_bytes 2 p ++ le_bytes 4 i) (le_bytes 2 d')
        (le_bytes 2 p' ++ le_bytes 4 i') refl refl behind in
    let (partitions, indexes) =
      append-split 2 (le_bytes 2 p) (le_bytes 4 i) (le_bytes 2 p') (le_bytes 4 i') refl refl rest in
    (
      le_bytes-injective 2 d d' hd hd' disks,
      le_bytes-injective 2 p p' hp hp' partitions,
      le_bytes-injective 4 i i' hi hi' indexes,
    )
