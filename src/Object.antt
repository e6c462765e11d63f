-- ===== src/Object.antt =====
-- vm/Object.h: tagged values, the instance shapes and the layout of objects. A `Value` is a number
-- below 2 ^ 64, and so is an address.
pub mod Tags
pub mod Layout
use yet_another_smalltalk_vm.Base.{
  ℕ, suc, ◌+◌, ◌-◌, ◌*◌, ◌/◌, ◌%◌, ◌^◌, Bool, true, false, ◌==◌, ltb, leb, if◌then◌else◌,
}
use yet_another_smalltalk_vm.Base.Int.{ℤ, pos, negsuc}
use yet_another_smalltalk_vm.Base.Result.{Run, ok, ◌>>=◌, ◌>>◌, check}

abbrev pub value_int : ℕ
value_int = 0

abbrev pub value_pointer : ℕ
value_pointer = 1

abbrev pub value_char : ℕ
value_char = 2

-- `UINT64_MAX >> 2`
abbrev pub max_int : ℕ
max_int = 2 ^ 62 - 1

-- `i << 2` wraps in a word.
unfoldable pub tag_int : ℤ → Run ℕ
tag_int (pos n) = check (leb n max_int) >> ok (n * 4 % 2 ^ 64)
tag_int (negsuc n) = check (leb (suc n) max_int) >> ok ((2 ^ 64 - suc n * 4) % 2 ^ 64)

-- The shift of a negative number rounds down.
unfoldable pub as_c_int : ℕ → Run ℤ
as_c_int value =
    check (value % 4 == value_int)
    >> ok (if ltb value (2 ^ 63) then pos (value / 4) else negsuc ((2 ^ 64 - value + 3) / 4 - 1))

-- A `char` is given by its byte; it is signed, so from 128 on the shift is that of `byte - 256`.
unfoldable pub tag_char : ℕ → ℕ
tag_char byte =
    if ltb byte 128
    then byte * 4 + value_char
    else (2 ^ 64 - (256 - byte) * 4 + value_char) % 2 ^ 64

-- the byte of the `char`
unfoldable pub as_c_char : ℕ → Run ℕ
as_c_char value = check (value % 4 == value_char) >> ok (value / 4 % 256)

unfoldable pub tag_ptr : ℕ → ℕ
tag_ptr object = (object + value_pointer) % 2 ^ 64

unfoldable pub as_object : ℕ → Run ℕ
as_object value = check (value % 4 == value_pointer) >> ok (value - 1)

unfoldable pub value_type_of : ℕ → ℕ → Bool
value_type_of value type = value % 4 == type

-- SPACE_TAG is 8.
unfoldable pub is_new_object : ℕ → Bool
is_new_object object = object / 8 % 2 == 1

unfoldable pub is_old_object : ℕ → Bool
is_old_object object = object / 8 % 2 == 0

pub record InstanceShape : Type 0 where
  pub payload_size : ℕ
  pub vars_size : ℕ
  pub is_indexed : Bool
  pub is_bytes : Bool
  pub value_type : ℕ
  pub size : ℕ

abbrev pub header_size : ℕ
header_size = 16

abbrev pub one_if_indexed : Bool → ℕ
one_if_indexed true = 1
one_if_indexed false = 0

-- `size` has 16 bits.
unfoldable pub define_inst_shape : ℕ → ℕ → Bool → Bool → ℕ → InstanceShape
define_inst_shape payload_size vars_size is_indexed is_bytes value_type = record {
  payload_size = payload_size;
  vars_size = vars_size;
  is_indexed = is_indexed;
  is_bytes = is_bytes;
  value_type = value_type;
  size = (header_size + (one_if_indexed is_indexed + payload_size + vars_size) * 8) % 2 ^ 16;
}

unfoldable pub compute_instance_size : InstanceShape → ℕ → ℕ
compute_instance_size shape size = shape.size + size * (if shape.is_bytes then 1 else 8)

-- the object's shape, and the number of its indexed elements
unfoldable pub raw_object_size : InstanceShape → ℕ → ℕ
raw_object_size shape size = if shape.is_indexed then size else 0

unfoldable pub compute_raw_object_size : InstanceShape → ℕ → ℕ
compute_raw_object_size shape size = compute_instance_size shape (raw_object_size shape size)

-- offsets from the object's address
unfoldable pub raw_object_vars : InstanceShape → ℕ
raw_object_vars shape = header_size + (one_if_indexed shape.is_indexed + shape.payload_size) * 8

unfoldable pub raw_object_indexed_vars : InstanceShape → ℕ
raw_object_indexed_vars shape = raw_object_vars shape + shape.vars_size * 8
