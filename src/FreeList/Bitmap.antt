-- ===== src/FreeList/Bitmap.antt =====
-- What `ctz` and the mask of `freeMapNext` do to a byte.
use Prim.Native.Nat.{bit_and}
use yet_another_smalltalk_vm.Base.{
  ℕ, ◌-◌, ◌%◌, ◌^◌, ◌≤◌, ◌<◌, ◌≡◌, refl, ◌≢◌, ap, Bool, true, ◌&&◌, ◌||◌, ◌==◌, ltb, leb, arith,
}
use native.Mathlib.Decide.{dec_lt}
use yet_another_smalltalk_vm.Base.Bits.{has_bit, set_bit, clear_bit, holds_below, holds_below-true}
use yet_another_smalltalk_vm.FreeList.{ctz, mask_from}

good_ctz : ℕ → Bool
good_ctz v = v == 0 || (ltb (ctz v) 8 && has_bit v (ctz v))

ctz_table : holds_below good_ctz 256 ≡ true
unfolding holds_below good_ctz ctz
ctz_table = refl

-- `ctz` of a byte other than 0 is the place of a bit that is set.
pub has_bit-ctz : (v : ℕ) → v < 256 → v ≢ 0 → (ctz v < 8) × (has_bit v (ctz v) ≡ true)
unfolding good_ctz
has_bit-ctz v h n = ground (arith, holds_below-true good_ctz 256 v h ctz_table)

good_mask : ℕ → ℕ → Bool
good_mask b k =
    let v = bit_and b (mask_from k) in
    ltb v 256 && (v == 0 || (has_bit b (ctz v) && leb (k % 8) (ctz v)))

mask_table : holds_below (λ b. holds_below (good_mask b) 32) 256 ≡ true
unfolding holds_below good_mask ctz mask_from
mask_table = refl

module _ (b k : ℕ) (h : b < 256) where
  abbrev masked : ℕ
  masked = bit_and b (mask_from k)

  mask_checked : good_mask b (k % 32) ≡ true
  mask_checked =
      holds_below-true (good_mask b) 32 (k % 32) (omega arith)
        (holds_below-true (λ b. holds_below (good_mask b) 32) 256 b h mask_table)

  mask_mod : mask_from (k % 32) ≡ mask_from k
  unfolding mask_from
  mask_mod = ap (λ (t : ℕ). 255 - (2 ^ t - 1) % 256) (omega arith)

  checked :
      (ltb masked 256 && (masked == 0 || (has_bit b (ctz masked) && leb (k % 32 % 8) (ctz masked))))
      ≡ true
  unfolding good_mask
  checked = rw mask_mod at mask_checked

  pub mask-lt : masked < 256
  mask-lt = ground (arith, checked)

  -- A bit that is left under the mask is set in the byte, and stands at or above the index.
  pub has_bit-mask : masked ≢ 0 → (has_bit b (ctz masked) ≡ true) × (k % 8 ≤ ctz masked)
  has_bit-mask n = ground (arith, checked)

pub ctz-one : (v : ℕ) → v < 2 → v ≢ 0 → ctz v ≡ 0
unfolding ctz
ctz-one v h n = let e : v ≡ 1 = omega arith in rw e

-- The byte of the last bucket keeps to its lowest bit.
pub bit_zero_top : (b : ℕ) → b < 2 → (set_bit b 0 < 2) × (clear_bit b 0 < 2)
bit_zero_top b h = elim (dec_lt 0 b) [
  | yes p ↦ let e : b ≡ 1 = omega arith in rw e (omega arith)
  | no p ↦ let e : b ≡ 0 = omega arith in rw e (omega arith)
]
