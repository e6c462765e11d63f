-- ===== src/GarbageCollector/Graph.antt =====
-- The graph of the objects that vm/GarbageCollector.c walks: what an object refers to, and what is
-- reached from the roots.
use yet_another_smalltalk_vm.Base.{
  ℕ, ◌-◌, ◌%◌, ◌≤◌, ◌≡◌, Bool, true, false, ◌||◌, Option, none, some, List, [], ◌∷◌, ◌==◌,
  if◌then◌else◌, length, take,
}
use yet_another_smalltalk_vm.Object.{is_old_object}
use yet_another_smalltalk_vm.GarbageCollector.{
  RawObject, Heap, find_object, in_new_space, vars_count,
}

abbrev pub elem : ℕ → List ℕ → Bool
elem x [] = false
elem x (y ∷ ys) = x == y || elem x ys

-- The addresses that stand among values: a pointer has the tag 1.
abbrev pub pointers : List ℕ → List ℕ
pointers [] = []
pointers (v ∷ vs) = if v % 4 == 1 then (v - 1) ∷ pointers vs else pointers vs

-- The class, and the pointers in the variables that the shape of the class counts.
abbrev pub object_refs : Heap → Option RawObject → List ℕ
object_refs heap none = []
object_refs heap (some o) = elim (find_object heap.objects o.class) [
  | none ↦ []
  | some c ↦ o.class ∷ pointers (take (vars_count c.instance_shape o.size) o.vars)
]

unfoldable pub refs : Heap → ℕ → List ℕ
refs heap a = object_refs heap (find_object heap.objects a)

-- the objects that a path of references leads to from the roots
pub data Reach (heap : Heap) (roots : List ℕ) : ℕ → Type 0 where
  root : {a : ℕ} → elem a roots ≡ true → Reach heap roots a
  step : {a b : ℕ} → Reach heap roots a → elem b (refs heap a) ≡ true → Reach heap roots b

-- An address in the heap that `markObject` accepts: an object with a class and with all the
-- variables that the shape of its class counts.
pub record IsObject (heap : Heap) (a : ℕ) : Type 0 where
  pub object : RawObject
  pub class : RawObject
  pub found : find_object heap.objects a ≡ some object
  pub class_found : find_object heap.objects object.class ≡ some class
  pub in_heap : (is_old_object a || in_new_space heap a) ≡ true
  pub long : vars_count class.instance_shape object.size ≤ length object.vars

-- Every reference out of an object of the heap leads to one.
abbrev pub IsClosed : Heap → Type 0
IsClosed heap = (a b : ℕ) → IsObject heap a → elem b (refs heap a) ≡ true → IsObject heap b
