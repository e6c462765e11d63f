-- ===== src/Barrier.antt =====
-- The store barrier of vm/Thread.h: a store of a new object into an old one puts the old one in the
-- remembered set, unless its tag says that it is there. The heap is that of GarbageCollector; the
-- field is given by its index among the variables of the object.
pub mod Remembered
use yet_another_smalltalk_vm.Base.{
  ℕ, Bool, true, false, not, ◌&&◌, List, [], ◌∷◌, ◌==◌, ltb, if◌then◌else◌, length, set,
}
use yet_another_smalltalk_vm.Base.Bits.{has_bit}
use yet_another_smalltalk_vm.Base.Result.{Run, ok, fault, out_of_bounds, ◌>>=◌}
use yet_another_smalltalk_vm.Object.{tag_ptr, is_new_object, is_old_object}
use yet_another_smalltalk_vm.RememberedSet.{RememberedSet, Tags, tag_remembered, remembered_set_add}
use yet_another_smalltalk_vm.GarbageCollector.{RawObject, Heap, object_at}

pub record Mutator : Type 0 where
  pub heap : Heap
  pub remembered_set : RememberedSet
  pub tags : Tags

-- a write to a variable of the object at the address
unfoldable pub write_object : List (ℕ × RawObject) → ℕ → ℕ → ℕ → List (ℕ × RawObject)
write_object [] object i value = []
write_object ((a, o) ∷ objects) object i value =
    if a == object
    then (a, record o { vars = set o.vars i value }) ∷ objects
    else (a, o) ∷ write_object objects object i value

-- `*field = value`
unfoldable pub store_field : ℕ → ℕ → ℕ → Heap → Run Heap
store_field object i value heap = object_at heap object >>= λ o.
    if ltb i (length o.vars)
    then ok (record heap { objects = write_object heap.objects object i value })
    else fault out_of_bounds

-- `rawObjectStorePtr`
unfoldable pub raw_object_store_ptr : ℕ → ℕ → ℕ → Mutator → Run Mutator
raw_object_store_ptr object i value m = do
  (remembered, tags) ←
      (if is_old_object object
          && (is_new_object value && not (has_bit (m.tags object) tag_remembered))
        then remembered_set_add object (m.remembered_set, m.tags)
        else ok (m.remembered_set, m.tags))
  heap ← store_field object i (tag_ptr value) m.heap
  ok (record { heap = heap; remembered_set = remembered; tags = tags })
