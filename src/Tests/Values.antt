-- ===== src/Tests/Values.antt =====
-- Tagged values, object layout (vm/Object.h) and the remembered set (vm/RememberedSet.h).
use yet_another_smalltalk_vm.Base.{ℕ, ◌+◌, ◌*◌, ◌≡◌, refl, true, some, [], ◌∷◌, arith}
use yet_another_smalltalk_vm.Base.Counts.{one_if, count}
use yet_another_smalltalk_vm.Base.Int.{negsuc}
use yet_another_smalltalk_vm.Base.Result.{ok}
use yet_another_smalltalk_vm.Base.{◌==◌}
use yet_another_smalltalk_vm.Object.{
  tag_int, as_c_int, value_type_of, define_inst_shape, compute_raw_object_size, raw_object_vars,
  raw_object_indexed_vars, value_int,
}
use yet_another_smalltalk_vm.Object.Layout.{compute_raw_object_size-layout}
use yet_another_smalltalk_vm.Object.Tags.{as_c_int-tag_int}
use yet_another_smalltalk_vm.RememberedSet.{
  RememberedSet, Tags, tag_object, remembered_set_add, init_remembered_set_iterator,
  iterate_remembered_set,
}
use yet_another_smalltalk_vm.RememberedSet.Members.{
  members, IsValid, iterate-members, remembered_set_add-members,
}

as_c_int-tag_int_example :
    (v : ℕ) × (tag_int (negsuc 4) ≡ ok v)
    × (value_type_of v value_int ≡ true)
    × (as_c_int v ≡ ok (negsuc 4))
as_c_int-tag_int_example = as_c_int-tag_int (negsuc 4) (omega arith) (omega arith)

compute_raw_object_size-layout_example :
    (raw_object_indexed_vars (define_inst_shape 1 2 true true 0)
      ≡ raw_object_vars (define_inst_shape 1 2 true true 0) + 2 * 8)
    × (compute_raw_object_size (define_inst_shape 1 2 true true 0) 10
        ≡ raw_object_indexed_vars (define_inst_shape 1 2 true true 0) + 10 * 1)
compute_raw_object_size-layout_example =
    compute_raw_object_size-layout 1 2 true true 0 10 (omega arith) (omega arith)

abbrev set : RememberedSet
set = record { block = 33 ∷ 65 ∷ []; prev = [] }

set-IsValid : IsValid set
set-IsValid = (omega arith, tt)

iterate-members_example :
    iterate_remembered_set 3 (init_remembered_set_iterator set) ≡ some (ok (33 ∷ 65 ∷ []))
iterate-members_example = iterate-members set set-IsValid

abbrev no_tags : Tags
no_tags a = 0

remembered_set_add-members_example :
    (r : RememberedSet) × (remembered_set_add 97 (set, no_tags) ≡ ok (r, tag_object 97 no_tags))
    × IsValid r
    × ((x : ℕ) → count x (members r) ≡ one_if (x == 97) + count x (members set))
remembered_set_add-members_example = remembered_set_add-members 97 set no_tags set-IsValid refl
