-- ===== src/Crypto.antt =====
-- src/crypto.rs: the initialization vector of a block, and its decryption. The ciphers and the
-- hashes are third-party code: they are the parameter `Ciphers`.
pub mod Vectors
use Prim.Native.String.{String}
use text.Mathlib.Text.{◌==◌ as str_eq}
use mrimgx_consolidate.Base.{
  ℕ, ◌%◌, ◌≡◌, List, [], ◌∷◌, ◌++◌, Option, none, some, length, ◌==◌, if◌then◌else◌, Result, ok,
  err, or_err, ensure, ◌>>=◌, ◌>>◌, unknown_aes_type, not_whole_blocks, bad_key_length, bad_cipher,
}
use mrimgx_consolidate.Base.Bytes.{Bytes, le_bytes}

-- SHA-256, PBKDF2 with HMAC-SHA256 (password, salt, iterations), HMAC-SHA256 (key, message), AES-256 of one block
-- (key, block), and CBC decryption without padding (key, initialization vector, bytes), which
-- refuses a key or a vector of the wrong length. The law says that AES is a permutation of the
-- 16-byte blocks.
pub record Ciphers : Type 0 where
  pub sha256 : Bytes → Bytes
  pub pbkdf2 : Bytes → Bytes → ℕ → Bytes
  pub hmac : Bytes → Bytes → Bytes
  pub encrypt_block : Bytes → Bytes → Bytes
  pub cbc_decrypt : Bytes → Bytes → Bytes → Option Bytes
  pub encrypt_block-injective :
      (key one other : Bytes)
      → length one ≡ 16
      → length other ≡ 16
      → encrypt_block key one ≡ encrypt_block key other
      → one ≡ other

abbrev pub aes_block : ℕ
aes_block = 16

unfoldable pub key_length : String → Result ℕ
key_length aes_type =
    if str_eq aes_type "aes-128"
    then ok 16
    else (if str_eq aes_type "aes-192"
        then ok 24
        else (if str_eq aes_type "aes-256" then ok 32 else err unknown_aes_type))

-- The 16 bytes that say where a block sits.
abbrev pub block_tuple : Bytes → ℕ → ℕ → ℕ → Bytes
block_tuple imageid disk partition block_index =
    imageid ++ (le_bytes 2 disk ++ (le_bytes 2 partition ++ le_bytes 4 block_index))

module _ (ciphers : Ciphers) where
  open ciphers use {sha256, pbkdf2, hmac, encrypt_block, cbc_decrypt}

  unfoldable pub derive_key : Bytes → Bytes → ℕ → Bytes
  derive_key password imageid iterations = pbkdf2 password (sha256 imageid) iterations

  -- The HMAC of the empty message.
  unfoldable pub password_hmac : Bytes → Bytes
  password_hmac key = hmac key []

  unfoldable pub block_iv : Bytes → Bytes → ℕ → ℕ → ℕ → Bytes
  block_iv key imageid disk partition block_index =
      encrypt_block (sha256 key) (block_tuple imageid disk partition block_index)

  -- The three sizes of a key.
  unfoldable pub decrypt_with : Bytes → Bytes → Bytes → Result (Option Bytes)
  decrypt_with key iv buffer =
      if length key == 16
      then ok (cbc_decrypt key iv buffer)
      else (if length key == 24
          then ok (cbc_decrypt key iv buffer)
          else (if length key == 32 then ok (cbc_decrypt key iv buffer) else err bad_key_length))

  -- `buffer` is decrypted in place: the new one comes back.
  unfoldable pub decrypt_block : Bytes → Bytes → Bytes → Result Bytes
  decrypt_block key iv buffer = do
    ensure (length buffer % aes_block == 0) not_whole_blocks
    done ← decrypt_with key iv buffer
    or_err done bad_cipher
