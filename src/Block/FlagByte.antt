-- ===== src/Block/FlagByte.antt =====
-- `Flags::from_byte` and `Flags::to_byte` (src/block.rs).
use mrimgx_consolidate.Base.{
  ℕ, zero, suc, ◌%◌, ◌<◌, ◌≡◌, refl, Bool, true, false, ◌&&◌, ◌==◌, arith,
}
use mrimgx_consolidate.Block.{Flags, from_byte, to_byte}

flags_of : Bool → Bool → Bool → Flags
flags_of l c e = record { last_block = l; compression = c; encryption = e }

from_byte-flags_of : (l c e : Bool) → from_byte (to_byte (flags_of l c e)) ≡ flags_of l c e
unfolding from_byte to_byte flags_of
from_byte-flags_of true true true = refl
from_byte-flags_of true true false = refl
from_byte-flags_of true false true = refl
from_byte-flags_of true false false = refl
from_byte-flags_of false true true = refl
from_byte-flags_of false true false = refl
from_byte-flags_of false false true = refl
from_byte-flags_of false false false = refl

pub from_byte-to_byte : (f : Flags) → from_byte (to_byte f) ≡ f
from_byte-to_byte f = unfold flags_of in from_byte-flags_of f.last_block f.compression f.encryption

agree_below : ℕ → Bool
agree_below zero = true
agree_below (suc n) = to_byte (from_byte n) == n % 8 && agree_below n

agree_below→eq : (n i : ℕ) → agree_below n ≡ true → i < n → to_byte (from_byte i) ≡ i % 8
unfolding agree_below
agree_below→eq zero i h lt = absurd (omega arith)
agree_below→eq (suc n) i h lt = ground (arith, agree_below→eq n i)

-- Of any byte, reading and writing the flags keeps the low three bits and clears the others.
pub to_byte-from_byte : (b : ℕ) → b < 256 → to_byte (from_byte b) ≡ b % 8
unfolding agree_below from_byte to_byte
to_byte-from_byte b h = agree_below→eq 256 b refl h
