-- ===== src/Object/Tags.antt =====
-- Tagging and untagging (vm/Object.h).
use yet_another_smalltalk_vm.Base.{
  ℕ, suc, ◌+◌, ◌-◌, ◌*◌, ◌/◌, ◌%◌, ◌^◌, ◌≤◌, ◌<◌, true, false, ◌≡◌, ◌==◌, ltb, leb, arith,
  Bool-cases, inl, inr,
}
use yet_another_smalltalk_vm.Base.Int.{ℤ, pos, negsuc, pos_part, neg_part}
use yet_another_smalltalk_vm.Base.Result.{ok}
use yet_another_smalltalk_vm.Object.{
  max_int, tag_int, as_c_int, tag_char, as_c_char, tag_ptr, as_object, value_int, value_char,
  value_pointer, value_type_of,
}

-- Small integers between -2 ^ 61 and 2 ^ 61 - 1 are tagged as such and come back.
pub as_c_int-tag_int :
    (i : ℤ)
    → pos_part i < 2 ^ 61
    → neg_part i ≤ 2 ^ 61
    → (v : ℕ) × (tag_int i ≡ ok v) × (value_type_of v value_int ≡ true) × (as_c_int v ≡ ok i)
unfolding tag_int as_c_int value_type_of
as_c_int-tag_int (pos n) h h' =
    let a : leb n max_int ≡ true = ground arith in
    let m : n * 4 % 2 ^ 64 % 4 ≡ 0 = omega arith in
    let b : (n * 4 % 2 ^ 64 % 4 == value_int) ≡ true = ground arith in
    let c : ltb (n * 4 % 2 ^ 64) (2 ^ 63) ≡ true = ground arith in
    let d : n * 4 % 2 ^ 64 / 4 ≡ n = omega arith in (n * 4 % 2 ^ 64, rw a, b, rw (b, c, d))
as_c_int-tag_int (negsuc n) h h' =
    let a : leb (suc n) max_int ≡ true = ground arith in
    let w : (2 ^ 64 - suc n * 4) % 2 ^ 64 ≡ 2 ^ 64 - suc n * 4 = omega arith in
    let m : (2 ^ 64 - suc n * 4) % 4 ≡ 0 = omega arith in
    let b : ((2 ^ 64 - suc n * 4) % 4 == value_int) ≡ true = ground arith in
    let c : ltb (2 ^ 64 - suc n * 4) (2 ^ 63) ≡ false = ground arith in
    let d : (2 ^ 64 - (2 ^ 64 - suc n * 4) + 3) / 4 - 1 ≡ n = omega arith in
    (2 ^ 64 - suc n * 4, rw (a, w), b, rw (b, c, d))

-- A char of any byte comes back.
pub as_c_char-tag_char :
    (byte : ℕ)
    → byte < 256
    → (value_type_of (tag_char byte) value_char ≡ true) × (as_c_char (tag_char byte) ≡ ok byte)
unfolding tag_char as_c_char value_type_of
as_c_char-tag_char byte h = elim (Bool-cases (ltb byte 128)) [
  | inl low ↦
      let t : ((byte * 4 + 2) % 4 == 2) ≡ true = ground arith in
      let d : (byte * 4 + 2) / 4 % 256 ≡ byte = omega arith in (rw (low, t), rw (low, t, d))
  | inr high ↦
      let e : byte < 256 = h in
      let w : (2 ^ 64 - (256 - byte) * 4 + 2) % 2 ^ 64 ≡ 2 ^ 64 - (256 - byte) * 4 + 2 =
        ground arith in
      let m : (2 ^ 64 - (256 - byte) * 4 + 2) % 4 ≡ 2 = omega arith in
      let t : ((2 ^ 64 - (256 - byte) * 4 + 2) % 4 == 2) ≡ true = ground arith in
      let d : (2 ^ 64 - (256 - byte) * 4 + 2) / 4 % 256 ≡ byte = omega arith in
      (rw (high, w, t), rw (high, w, t, d))
]

-- An aligned address comes back from its tagged pointer.
pub as_object-tag_ptr :
    (object : ℕ)
    → object < 2 ^ 64
    → object % 8 ≡ 0
    → (value_type_of (tag_ptr object) value_pointer ≡ true)
      × (as_object (tag_ptr object) ≡ ok object)
unfolding tag_ptr as_object value_type_of
as_object-tag_ptr object h a =
    let e : (object + 1) % 2 ^ 64 ≡ object + 1 = omega arith in
    let t : ((object + 1) % 4 == 1) ≡ true = ground arith in
    let d : object + 1 - 1 ≡ object = omega arith in (rw (e, t), rw (e, t, d))
