-- ===== src/Object/Layout.antt =====
-- The layout of objects (vm/Object.h).
use yet_another_smalltalk_vm.Base.{ℕ, ◌+◌, ◌*◌, ◌<◌, Bool, true, false, ◌≡◌, if◌then◌else◌, arith}
use yet_another_smalltalk_vm.Object.{
  define_inst_shape, compute_instance_size, raw_object_size, compute_raw_object_size,
  raw_object_vars, raw_object_indexed_vars,
}

-- An object of a shape with byte-sized fields is as long as its header, its payload, its variables
-- and its indexed elements: the elements start behind the last variable and end where the object
-- ends, and an object without indexed elements ends behind its variables.
pub compute_raw_object_size-layout :
    (payload vars : ℕ) (indexed bytes : Bool) (type elements : ℕ)
    → payload < 256
    → vars < 256
    → let shape = define_inst_shape payload vars indexed bytes type in
      (raw_object_indexed_vars shape ≡ raw_object_vars shape + vars * 8)
      × (compute_raw_object_size shape elements
          ≡ raw_object_indexed_vars shape
            + (if indexed then elements * (if bytes then 1 else 8) else 0))
unfolding define_inst_shape compute_instance_size raw_object_size compute_raw_object_size
    raw_object_vars raw_object_indexed_vars
compute_raw_object_size-layout payload vars true true type elements hp hv =
    (omega arith, omega arith)
compute_raw_object_size-layout payload vars true false type elements hp hv =
    (omega arith, omega arith)
compute_raw_object_size-layout payload vars false true type elements hp hv =
    (omega arith, omega arith)
compute_raw_object_size-layout payload vars false false type elements hp hv =
    (omega arith, omega arith)
