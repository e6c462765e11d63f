-- ===== src/Base/Bits.antt =====
-- Bits of bytes. Facts about the 256 bytes are checked by evaluation.
use Prim.Native.Nat.{
  ℕ, zero, suc, ◌-◌, ◌/◌, ◌^◌, ◌≤◌, ◌<◌, min, bit_and, bit_or, bit_and-bitwise, digits,
}
use mathlib.Core.Path.{◌≡◌, refl}
use mathlib.Core.Bool.{Bool, true, false, not, ◌&&◌, ◌||◌}
use native.Mathlib.Omega.{arith}
use yet_another_smalltalk_vm.Base.Tests.{◌==◌, ltb}

-- `test` holds of 0, ..., `bound - 1`.
unfoldable pub holds_below : (ℕ → Bool) → ℕ → Bool
holds_below test zero = true
holds_below test (suc last) = holds_below test last && test last

pub holds_below-true :
    (test : ℕ → Bool) (bound x : ℕ) → x < bound → holds_below test bound ≡ true → test x ≡ true
unfolding holds_below
holds_below-true test zero x lt all = absurd (omega arith)
holds_below-true test (suc last) x lt all = ground (arith, holds_below-true test last x)

-- `(b & (1 << k)) != 0`
abbrev pub has_bit : ℕ → ℕ → Bool
has_bit b k = not (bit_and b (2 ^ k) == 0)

-- `b |= 1 << k` on a byte
abbrev pub set_bit : ℕ → ℕ → ℕ
set_bit b k = bit_or b (2 ^ k)

-- `b &= ~(1 << k)` on a byte
abbrev pub clear_bit : ℕ → ℕ → ℕ
clear_bit b k = bit_and b (255 - 2 ^ k)

unfoldable pub bool_eq : Bool → Bool → Bool
bool_eq true b = b
bool_eq false b = not b

pub bool_eq_sound : (a b : Bool) → bool_eq a b ≡ true → a ≡ b
unfolding bool_eq
bool_eq_sound a b h = ground arith

-- A check of every byte, every bit of it and every other bit.
all_bits : (ℕ → ℕ → ℕ → Bool) → Bool
unfolding holds_below
all_bits p = holds_below (λ b. holds_below (λ k. holds_below (p b k) 8) 8) 256

all_bits_sound :
    (p : ℕ → ℕ → ℕ → Bool) (b k j : ℕ)
    → all_bits p ≡ true
    → b < 256
    → k < 8
    → j < 8
    → p b k j ≡ true
unfolding all_bits
all_bits_sound p b k j h hb hk hj = holds_below-true (p b k) 8 j hj (
    holds_below-true (λ k. holds_below (p b k) 8) 8 k hk
      (holds_below-true (λ b. holds_below (λ k. holds_below (p b k) 8) 8) 256 b hb h))

bytes_table : all_bits (λ b k j. ltb (set_bit b k) 256 && ltb (clear_bit b k) 256) ≡ true
unfolding all_bits
bytes_table = refl

set_bit_table : all_bits (λ b k j. bool_eq (has_bit (set_bit b k) j) (k == j || has_bit b j)) ≡ true
unfolding all_bits bool_eq
set_bit_table = refl

clear_bit_table :
    all_bits (λ b k j. bool_eq (has_bit (clear_bit b k) j) (not (k == j) && has_bit b j)) ≡ true
unfolding all_bits bool_eq
clear_bit_table = refl

module _ (b k : ℕ) (hb : b < 256) (hk : k < 8) where
  pub set_bit-lt : set_bit b k < 256
  set_bit-lt = ground (arith, all_bits_sound _ b k 0 bytes_table hb hk (omega arith))

  pub clear_bit-lt : clear_bit b k < 256
  clear_bit-lt = ground (arith, all_bits_sound _ b k 0 bytes_table hb hk (omega arith))

  pub has_bit-set_bit : (j : ℕ) → j < 8 → has_bit (set_bit b k) j ≡ (k == j || has_bit b j)
  has_bit-set_bit j hj = bool_eq_sound _ _ (all_bits_sound _ b k j set_bit_table hb hk hj)

  pub has_bit-clear_bit :
      (j : ℕ) → j < 8 → has_bit (clear_bit b k) j ≡ (not (k == j) && has_bit b j)
  has_bit-clear_bit j hj = bool_eq_sound _ _ (all_bits_sound _ b k j clear_bit_table hb hk hj)

pub has_bit-zero : (k : ℕ) → has_bit 0 k ≡ false
has_bit-zero k = let e : bit_and 0 (2 ^ k) ≡ 0 = bit_and-bitwise 0 (2 ^ k) in rw e

bit_and_digits_le : (fuel a b : ℕ) → digits (λ _. 0) min fuel a b ≤ b
bit_and_digits_le zero zero b = omega arith
bit_and_digits_le zero (suc a) b = omega arith
bit_and_digits_le (suc fuel) zero b = omega arith
bit_and_digits_le (suc fuel) (suc a) b = omega (arith, bit_and_digits_le fuel (suc a / 2) (b / 2))

pub bit_and-le : (a b : ℕ) → bit_and a b ≤ b
bit_and-le a b = omega (arith, bit_and-bitwise a b, bit_and_digits_le a a b)
