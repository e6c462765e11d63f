-- ===== src/Tests/Collector.antt =====
-- The mark phase (vm/GarbageCollector.c) on a heap of a class at 16, an old object at 32 and a new
-- one at 72 that point to each other, and an old object at 48 that nothing refers to.
use yet_another_smalltalk_vm.Base.{
  ℕ, ◌≡◌, ◌↔◌, refl, some, if◌then◌else◌, set, Bool, true, false, ◌&&◌, List, [], map, ◌∷◌, ◌==◌,
  ==_iff, Bool-cases, inl, inr, arith,
}
use yet_another_smalltalk_vm.Base.Counts.{count, one_if}
use yet_another_smalltalk_vm.Base.Result.{Run, ok, ◌>>=◌}
use yet_another_smalltalk_vm.Object.{
  InstanceShape, is_old_object, is_new_object, value_type_of, as_object, tag_ptr,
}
use yet_another_smalltalk_vm.RememberedSet.{
  init_remembered_set, remembered_set_reset, remembered_set_add, tag_object,
}
use yet_another_smalltalk_vm.RememberedSet.Members.{members}
use yet_another_smalltalk_vm.GarbageCollector.{
  RawObject, Heap, Marking, is_marked, gc_mark_roots, find_object, vars_count, mark_all, mark_loop,
  iterate_object, mark_object, mark_vars, remember_root, set_mark, marking_queue_add, object_at,
}
use yet_another_smalltalk_vm.GarbageCollector.Graph.{elem, refs, Reach, IsObject, IsClosed}
use yet_another_smalltalk_vm.GarbageCollector.Visit.{AllObjects, remembers}
use yet_another_smalltalk_vm.Barrier.{Mutator, raw_object_store_ptr}
use yet_another_smalltalk_vm.Barrier.Remembered.{IsRemembered, raw_object_store_ptr-IsRemembered}
use yet_another_smalltalk_vm.GarbageCollector.Reached.{gc_mark_roots-Reach, gc_mark_roots-members}

abbrev shape : InstanceShape
shape = record {
  payload_size = 0;
  vars_size = 1;
  is_indexed = false;
  is_bytes = false;
  value_type = 0;
  size = 1;
}

abbrev item : ℕ → RawObject
item var = record { class = 16; instance_shape = shape; size = 0; vars = var ∷ [] }

abbrev pub heap : Heap
heap = record {
  objects = (16, item 17) ∷ (32, item 73) ∷ (72, item 33) ∷ (48, item 17) ∷ [];
  from_space = 64;
  space_size = 64;
}

class_IsObject : IsObject heap 16
unfolding find_object is_old_object vars_count
class_IsObject = record {
  object = item 17;
  class = item 17;
  found = refl;
  class_found = refl;
  in_heap = refl;
  long = omega arith;
}

old_IsObject : IsObject heap 32
unfolding find_object is_old_object vars_count
old_IsObject = record {
  object = item 73;
  class = item 17;
  found = refl;
  class_found = refl;
  in_heap = refl;
  long = omega arith;
}

new_IsObject : IsObject heap 72
unfolding find_object is_old_object vars_count
new_IsObject = record {
  object = item 33;
  class = item 17;
  found = refl;
  class_found = refl;
  in_heap = refl;
  long = omega arith;
}

three-AllObjects : AllObjects heap (16 ∷ 32 ∷ 72 ∷ [])
three-AllObjects b h = elim (Bool-cases (b == 16)) [
  | inl e ↦ rw ((==_iff b 16).0 e) class_IsObject
  | inr e ↦ elim (Bool-cases (b == 32)) [
    | inl f ↦ rw ((==_iff b 32).0 f) old_IsObject
    | inr f ↦ rw ((==_iff b 72).0 (ground arith)) new_IsObject
  ]
]

refs_in_three : (a b : ℕ) → elem b (refs heap a) ≡ true → elem b (16 ∷ 32 ∷ 72 ∷ []) ≡ true
unfolding refs find_object vars_count
refs_in_three a b h = ground arith

pub heap-IsClosed : IsClosed heap
heap-IsClosed a b v h = three-AllObjects b (refs_in_three a b h)

pub roots-AllObjects : AllObjects heap (32 ∷ [])
roots-AllObjects b h = three-AllObjects b (ground (arith, h))

gc_mark_roots-Reach_example :
    (m : Marking) × (gc_mark_roots heap
        (32 ∷ [])
        (λ a. 0)
        (remembered_set_reset init_remembered_set)
      ≡ ok m)
    × ((a : ℕ) → is_marked m.tags a ≡ true ↔ Reach heap (32 ∷ []) a)
gc_mark_roots-Reach_example =
    gc_mark_roots-Reach heap (32 ∷ []) heap-IsClosed roots-AllObjects (λ a. 0) (λ a. omega arith)
      (λ a. refl) init_remembered_set

gc_mark_roots-members_example :
    (m : Marking) × (gc_mark_roots heap
        (32 ∷ [])
        (λ a. 0)
        (remembered_set_reset init_remembered_set)
      ≡ ok m)
    × ((a : ℕ)
        → count a (members m.remembered_set) ≡ one_if (is_marked m.tags a && remembers heap a))
gc_mark_roots-members_example =
    gc_mark_roots-members heap (32 ∷ []) heap-IsClosed roots-AllObjects (λ a. 0) (λ a. omega arith)
      (λ a. refl) init_remembered_set

-- All but the object at 48 are marked, and the old object is remembered.
abbrev outcome : Marking → Run (List Bool × List ℕ)
outcome m = ok (map (is_marked m.tags) (16 ∷ 32 ∷ 72 ∷ 48 ∷ []), members m.remembered_set)

run :
    (gc_mark_roots heap (32 ∷ []) (λ a. 0) init_remembered_set >>= outcome)
    ≡ ok (true ∷ true ∷ true ∷ false ∷ [], 32 ∷ [])
unfolding gc_mark_roots mark_all mark_loop iterate_object mark_object mark_vars remember_root
    set_mark marking_queue_add object_at find_object vars_count value_type_of as_object
    is_old_object is_new_object init_remembered_set remembered_set_add tag_object
run = refl

object_48 : find_object heap.objects 48 ≡ some (item 17)
unfolding find_object
object_48 = refl

-- The old object at 32 is remembered, and the one at 48 gets a reference to the new one at 72.
abbrev mutator : Mutator
mutator = record {
  heap = heap;
  remembered_set = record { block = 32 ∷ []; prev = [] };
  tags = λ a. if a == 32 then 32 else 0;
}

mutator-IsRemembered : IsRemembered mutator
unfolding remembers refs find_object vars_count is_new_object is_old_object
mutator-IsRemembered = record {
  bytes = λ a. ground arith;
  set = (omega arith, tt);
  tagged = λ a. elim (Bool-cases (a == 32)) [ inl e ↦ rw e refl | inr e ↦ rw e refl ];
  complete = λ a r. elim (Bool-cases (a == 32)) [
    | inl e ↦ rw e refl
    | inr e ↦ absurd (ground (arith, r, e))
  ];
}

raw_object_store_ptr-IsRemembered_example :
    (m' : Mutator) × (raw_object_store_ptr 48 0 72 mutator ≡ ok m')
    × IsRemembered m'
    × (find_object m'.heap.objects 48
        ≡ some (record {
          class = 16;
          instance_shape = shape;
          size = 0;
          vars = set (17 ∷ []) 0 (tag_ptr 72);
        }))
raw_object_store_ptr-IsRemembered_example =
    raw_object_store_ptr-IsRemembered 48 0 72 mutator mutator-IsRemembered (omega arith)
      {o = item 17} object_48 (omega arith)
