-- ===== src/GarbageCollector.antt =====
-- The mark phase of vm/GarbageCollector.c. An object is its class, its instance shape if it is a
-- class, its size and its variables; the heap is the list of the objects with their addresses. The
-- tags of all objects are a function of the address. The marking queue has its end first.
pub mod Graph
pub mod Mark
pub mod Visit
pub mod Loop
pub mod Reached
use yet_another_smalltalk_vm.Base.{
  ℕ, zero, suc, ◌+◌, Bool, true, false, not, ◌&&◌, ◌||◌, Option, none, some, List, [], ◌∷◌, ◌==◌,
  ltb, leb, if◌then◌else◌, length,
}
use yet_another_smalltalk_vm.Base.Bits.{has_bit, set_bit, clear_bit}
use yet_another_smalltalk_vm.Base.Result.{
  Run, ok, fault, out_of_bounds, out_of_fuel, ◌>>=◌, ◌>>◌, check,
}
use yet_another_smalltalk_vm.Object.{
  InstanceShape, raw_object_size, value_type_of, value_pointer, as_object, is_new_object,
  is_old_object,
}
use yet_another_smalltalk_vm.RememberedSet.{
  RememberedSet, Tags, tag_remembered, remembered_set_add, remembered_set_reset,
}

-- TAG_MARKED is 1 << 2.
abbrev pub tag_marked : ℕ
tag_marked = 2

abbrev pub queue_init_size : ℕ
queue_init_size = 1024

pub record RawObject : Type 0 where
  pub class : ℕ
  pub instance_shape : InstanceShape
  pub size : ℕ
  pub vars : List ℕ

-- `from_space` and `space_size` are those of the new space.
pub record Heap : Type 0 where
  pub objects : List (ℕ × RawObject)
  pub from_space : ℕ
  pub space_size : ℕ

-- The tags, the marking queue, the remembered set and the count in `LastGCStats`.
pub record Marking : Type 0 where
  pub tags : Tags
  pub queue_size : ℕ
  pub queue : List ℕ
  pub remembered_set : RememberedSet
  pub marked : ℕ

unfoldable pub find_object : List (ℕ × RawObject) → ℕ → Option RawObject
find_object [] address = none
find_object ((a, o) ∷ objects) address =
    if a == address then some o else find_object objects address

-- a read through a pointer
unfoldable pub object_at : Heap → ℕ → Run RawObject
object_at heap address = elim (find_object heap.objects address) [
  | none ↦ fault out_of_bounds
  | some o ↦ ok o
]

abbrev pub is_marked : Tags → ℕ → Bool
is_marked tags object = has_bit (tags object) tag_marked

abbrev pub write_tags : Tags → ℕ → ℕ → Tags
write_tags tags object value a = if a == object then value else tags a

-- `markingQueueAdd`
unfoldable pub marking_queue_add : ℕ → Marking → Marking
marking_queue_add object m = record m {
  queue_size =
      if m.queue_size == length m.queue then m.queue_size + queue_init_size else m.queue_size;
  queue = object ∷ m.queue;
}

abbrev pub in_new_space : Heap → ℕ → Bool
in_new_space heap object =
    leb heap.from_space object && leb object (heap.from_space + heap.space_size)

-- What `markObject` does after its assertion.
unfoldable pub set_mark : ℕ → Marking → Marking
set_mark object m = if is_marked m.tags object then m else record (marking_queue_add object m) {
  tags = write_tags m.tags object (set_bit (m.tags object) tag_marked);
  marked = m.marked + 1;
}

unfoldable pub mark_object : Heap → ℕ → Marking → Run Marking
mark_object heap object m =
    check (is_old_object object || in_new_space heap object)
    >> (object_at heap object >>= λ _. ok (set_mark object m))

-- The calls of `markObject` on a list of objects.
unfoldable pub mark_all : Heap → List ℕ → Marking → Run Marking
mark_all heap [] m = ok m
mark_all heap (object ∷ objects) m = mark_object heap object m >>= mark_all heap objects

-- the number of variables that hold values
unfoldable pub vars_count : InstanceShape → ℕ → ℕ
vars_count shape size =
    shape.vars_size
    + (if shape.is_indexed && not shape.is_bytes then raw_object_size shape size else 0)

-- The loop of `iterateObject` over the variables.
unfoldable pub mark_vars : Heap → ℕ → List ℕ → Bool → Marking → Run (Bool × Marking)
mark_vars heap zero vars remember m = ok (remember, m)
mark_vars heap (suc n) [] remember m = fault out_of_bounds
mark_vars heap (suc n) (var ∷ vars) remember m = elim (value_type_of var value_pointer) [
  | false ↦ mark_vars heap n vars remember m
  | true ↦ do
    object ← as_object var
    m' ← mark_object heap object m
    mark_vars heap n vars (remember || is_new_object object) m'
]

-- The end of `iterateObject`: the root is remembered if it is old and points to a new object.
unfoldable pub remember_root : ℕ → Bool → Marking → Run Marking
remember_root root remember m =
    let tags = write_tags m.tags root (clear_bit (m.tags root) tag_remembered) in
    if remember && is_old_object root
    then (do
      (set, tags') ← remembered_set_add root (m.remembered_set, tags)
      ok (record m { remembered_set = set; tags = tags' }))
    else ok (record m { tags = tags })

unfoldable pub iterate_object : Heap → ℕ → Marking → Run Marking
iterate_object heap root m = do
  o ← object_at heap root
  m₁ ← mark_object heap o.class m
  c ← object_at heap o.class
  (remember, m₂) ←
      mark_vars heap (vars_count c.instance_shape o.size) o.vars (is_new_object o.class) m₁
  remember_root root remember m₂

-- The loop of `gcMarkRoots` over the queue, on fuel.
unfoldable pub mark_loop : ℕ → Heap → Marking → Run Marking
mark_loop zero heap m = elim m.queue [ [] ↦ ok m | root ∷ rest ↦ fault out_of_fuel ]
mark_loop (suc n) heap m = elim m.queue [
  | [] ↦ ok m
  | root ∷ rest ↦ iterate_object heap root (record m { queue = rest }) >>= mark_loop n heap
]

-- `gcMarkRoots`, from the objects on which the walk over the roots calls `markObject`. An object is
-- queued once at most, so the number of objects is enough fuel.
unfoldable pub gc_mark_roots : Heap → List ℕ → Tags → RememberedSet → Run Marking
gc_mark_roots heap roots tags set = do
  m ← mark_all heap roots (record {
    tags = tags;
    queue_size = queue_init_size;
    queue = [];
    remembered_set = set;
    marked = 0;
  })
  mark_loop (length heap.objects) heap m
