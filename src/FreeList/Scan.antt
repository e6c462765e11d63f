-- ===== src/FreeList/Scan.antt =====
-- `freeMapNext` finds only marked buckets, and none below the index that it is given. It may miss
-- some: its mask is right for the indices whose remainder by 32 is below 8.
use Prim.Native.Nat.{bit_and}
use native.Mathlib.Decide.{dec_lt}
use yet_another_smalltalk_vm.Base.{
  ℕ, zero, suc, ◌+◌, ◌-◌, ◌*◌, ◌/◌, ◌%◌, ◌≤◌, ◌<◌, ◌≡◌, ◌≢◌, inl, inr, true, Option, none, some,
  ◌==◌, Bool-cases, arith,
}
use yet_another_smalltalk_vm.Base.Bits.{has_bit}
use yet_another_smalltalk_vm.Base.Result.{ok}
use yet_another_smalltalk_vm.FreeList.{
  FreeList, map_byte, is_marked, ctz, scan_map, mask_from, free_map_next,
}
use yet_another_smalltalk_vm.FreeList.Bitmap.{has_bit-ctz, mask-lt, has_bit-mask, ctz-one}
use yet_another_smalltalk_vm.FreeList.Valid.{IsMap}

-- a marked small bucket at or above `low`
pub record IsFound (fl : FreeList) (low j : ℕ) : Type 0 where
  pub marked : is_marked fl j ≡ true
  pub above : low ≤ j
  pub small : j < 128

abbrev pub Finds : FreeList → ℕ → Option ℕ → Type 0
Finds fl low none = Unit {0}
Finds fl low (some j) = IsFound fl low j

Finds-weaken :
    (fl : FreeList) (low low' : ℕ) (o : Option ℕ) → low ≤ low' → Finds fl low' o → Finds fl low o
Finds-weaken fl low low' none h f = tt
Finds-weaken fl low low' (some j) h f = record {
  marked = f.marked;
  above = omega (arith, f.above);
  small = f.small;
}

module _ {fl : FreeList} (m : IsMap fl) where
  bit_in_byte :
      (e k : ℕ) → k < 8 → has_bit (map_byte fl e) k ≡ true → is_marked fl (e * 8 + k) ≡ true
  bit_in_byte e k h b =
      let row : (e * 8 + k) / 8 ≡ e = omega arith in
      let column : (e * 8 + k) % 8 ≡ k = omega arith in rw (row, column) b

  small_index :
      (e : ℕ)
      → map_byte fl (e + 1) ≢ 0
      → (e + 1) * 8 + ctz (map_byte fl (e + 1)) ≢ 128
      → (e + 1) * 8 + ctz (map_byte fl (e + 1)) < 128
  small_index e ne inner = elim (dec_lt e 15) [
    | yes low ↦ omega (arith, has_bit-ctz (map_byte fl (e + 1)) (m.small (e + 1)) ne)
    | no high ↦ elim (dec_lt 15 e) [
      | yes past ↦ absurd (ne (m.beyond (e + 1) (omega arith)))
      | no top ↦
          let last : e + 1 ≡ 16 = omega arith in
          let two : map_byte fl (e + 1) < 2 = rw last m.top in
          absurd (inner (omega (arith, ctz-one (map_byte fl (e + 1)) two ne)))
    ]
  ]

  scan_map-Finds : (n e : ℕ) → Finds fl (e * 8 + 8) (scan_map fl n e)
  unfolding scan_map
  scan_map-Finds zero e = tt
  scan_map-Finds (suc n) e =
      let v = map_byte fl (e + 1) in
      let index = (e + 1) * 8 + ctz v in
      elim (Bool-cases (v == 0)) [
        | inl empty ↦
            rw empty
              (Finds-weaken fl _ _ (scan_map fl n (e + 1)) (omega arith) (scan_map-Finds n (e + 1)))
        | inr filled ↦ rw filled (
            let ne : v ≢ 0 = ground arith in
            let bit = has_bit-ctz v (m.small (e + 1)) ne in
            elim (Bool-cases (index == 128)) [
              | inl last ↦ rw last tt
              | inr inner ↦ rw inner (record {
                marked = bit_in_byte (e + 1) (ctz v) bit.0 bit.1;
                above = omega arith;
                small = small_index e ne (ground arith);
              })
            ])
      ]

  -- `freeMapNext` does not fail, and what it finds is marked and not below the index.
  pub free_map_next-Finds :
      (index : ℕ)
      → index < 128
      → (o : Option ℕ) × (free_map_next fl index ≡ ok o) × Finds fl index o
  unfolding free_map_next
  free_map_next-Finds index h =
      let b = map_byte fl (index / 8) in
      let v = bit_and b (mask_from index) in
      elim (Bool-cases (v == 0)) [
        | inl empty ↦ (
          scan_map fl (17 - index / 8) (index / 8),
          ground arith,
          Finds-weaken fl _ _ (scan_map fl (17 - index / 8) (index / 8)) (omega arith)
              (scan_map-Finds (17 - index / 8) (index / 8)),
        )
        | inr filled ↦
            let ne : v ≢ 0 = ground arith in
            let small = m.small (index / 8) in
            let bit = has_bit-mask b index small ne in
            let (below, _) = has_bit-ctz v (mask-lt b index small) ne in
            let inner : index / 8 * 8 + ctz v < 128 = omega arith in
            (
              some (index / 8 * 8 + ctz v),
              ground arith,
              record {
                marked = bit_in_byte (index / 8) (ctz v) below bit.0;
                above = omega arith;
                small = inner;
              },
            )
      ]
