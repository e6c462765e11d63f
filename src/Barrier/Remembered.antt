-- ===== src/Barrier/Remembered.antt =====
-- The store barrier of vm/Thread.h keeps every old object that refers to a new one remembered.
use yet_another_smalltalk_vm.Base.{
  ℕ, zero, suc, ◌-◌, ◌^◌, ◌<◌, ◌≡◌, refl, sym, ap, ◌∙◌, true, false, not, ◌&&◌, ◌||◌, Option, none,
  some, List, [], ◌∷◌, ◌==◌, ==_iff, ==_refl, ltb, if◌then◌else◌, length, set, take, Bool-cases,
  Option-cases, inl, inr, arith,
}
use yet_another_smalltalk_vm.Base.Bits.{has_bit, has_bit-set_bit}
use yet_another_smalltalk_vm.Base.Counts.{count, one_if}
use yet_another_smalltalk_vm.Base.Result.{ok}
use yet_another_smalltalk_vm.Object.{InstanceShape, tag_ptr, is_new_object, is_old_object}
use yet_another_smalltalk_vm.RememberedSet.{Tags, tag_remembered, tag_object}
use yet_another_smalltalk_vm.RememberedSet.Members.{members, IsValid, remembered_set_add-members}
use yet_another_smalltalk_vm.GarbageCollector.{RawObject, Heap, find_object, object_at, vars_count}
use yet_another_smalltalk_vm.GarbageCollector.Graph.{pointers, object_refs, refs}
use yet_another_smalltalk_vm.GarbageCollector.Mark.{AreBytes}
use yet_another_smalltalk_vm.GarbageCollector.Visit.{any_new, remembers, tag_object-bytes}
use yet_another_smalltalk_vm.Barrier.{Mutator, write_object, store_field, raw_object_store_ptr}

-- The set holds what is tagged, and each old object with a reference to a new one is tagged.
pub record IsRemembered (m : Mutator) : Type 0 where
  pub bytes : AreBytes m.tags
  pub set : IsValid m.remembered_set
  pub tagged :
      (a : ℕ) → count a (members m.remembered_set) ≡ one_if (has_bit (m.tags a) tag_remembered)
  pub complete : (a : ℕ) → remembers m.heap a ≡ true → has_bit (m.tags a) tag_remembered ≡ true

abbrev written : ℕ → ℕ → Option RawObject → Option RawObject
written i value none = none
written i value (some o) = some (record o { vars = set o.vars i value })

find_object-write_object :
    (objects : List (ℕ × RawObject)) (object i value a : ℕ)
    → find_object (write_object objects object i value) a
      ≡ (if object == a then written i value (find_object objects a) else find_object objects a)
unfolding find_object write_object
find_object-write_object [] object i value a = ground arith
find_object-write_object ((b, o) ∷ objects) object i value a =
    let rest = find_object-write_object objects object i value a in
    elim (Bool-cases (b == object)) [
      | inl e ↦ elim (Bool-cases (b == a)) [
        | inl f ↦
            let g : (object == a) ≡ true = ground arith in
            rw (e, f, g, find_object, write_object) refl
        | inr f ↦
            let g : (object == a) ≡ false = ground arith in
            rw (e, f, g, find_object, write_object) refl
      ]
      | inr e ↦ elim (Bool-cases (b == a)) [
        | inl f ↦
            let g : (object == a) ≡ false = ground arith in
            rw (e, f, g, find_object, write_object) refl
        | inr f ↦ rw (e, f, find_object, write_object) rest
      ]
    ]

any_new-set :
    (n : ℕ) (vars : List ℕ) (i v : ℕ)
    → any_new (pointers (take n (set vars i v))) ≡ true
    → (any_new (pointers (take n vars)) || is_new_object (v - 1)) ≡ true
any_new-set zero vars i v h = cc h
any_new-set (suc n) [] i v h = cc h
any_new-set (suc n) (x ∷ vars) zero v h = ground arith
any_new-set (suc n) (x ∷ vars) (suc i) v h = ground (arith, any_new-set n vars i v)

abbrev shape_of : Option RawObject → Option InstanceShape
shape_of none = none
shape_of (some c) = some c.instance_shape

-- The references of an object whose class has the shape.
abbrev refs_with : Option InstanceShape → RawObject → List ℕ
refs_with none o = []
refs_with (some shape) o = o.class ∷ pointers (take (vars_count shape o.size) o.vars)

class_refs :
    (o : RawObject) (c : Option RawObject)
    → (elim c [
      | none ↦ []
      | some c ↦ o.class ∷ pointers (take (vars_count c.instance_shape o.size) o.vars)
    ])
      ≡ refs_with (shape_of c) o
class_refs o none = refl
class_refs o (some c) = refl

object_refs-shape_of :
    (heap : Heap) (o : RawObject)
    → object_refs heap (some o) ≡ refs_with (shape_of (find_object heap.objects o.class)) o
object_refs-shape_of heap o = class_refs o (find_object heap.objects o.class)

written_shape : (i value : ℕ) (o : Option RawObject) → shape_of (written i value o) ≡ shape_of o
written_shape i value none = refl
written_shape i value (some o) = refl

any_new-written :
    (shape : Option InstanceShape) (o : RawObject) (i v : ℕ)
    → any_new (refs_with shape (record o { vars = set o.vars i v })) ≡ true
    → (any_new (refs_with shape o) || is_new_object (v - 1)) ≡ true
any_new-written none o i v h = cc h
any_new-written (some shape) o i v h =
    ground (arith, any_new-set (vars_count shape o.size) o.vars i v)

module _ (heap : Heap) (object i v : ℕ) where
  abbrev heap_after : Heap
  heap_after = record heap { objects = write_object heap.objects object i v }

  shape-same :
      (a : ℕ) → shape_of (find_object heap_after.objects a) ≡ shape_of (find_object heap.objects a)
  shape-same a = elim (Bool-cases (object == a)) [
    | inl e ↦
        ap shape_of (find_object-write_object heap.objects object i v a ∙ rw e refl)
        ∙ written_shape i v (find_object heap.objects a)
    | inr e ↦ ap shape_of (find_object-write_object heap.objects object i v a ∙ rw e refl)
  ]

  refs_after :
      (o : RawObject)
      → object_refs heap_after (some o) ≡ refs_with (shape_of (find_object heap.objects o.class)) o
  refs_after o = object_refs-shape_of heap_after o ∙ ap (λ s. refs_with s o) (shape-same o.class)

  -- A reference to a new object was there before, or is the one stored.
  any_new-refs :
      (a : ℕ)
      → any_new (refs heap_after a) ≡ true
      → (any_new (refs heap a) || ((object == a) && is_new_object (v - 1))) ≡ true
  unfolding refs
  any_new-refs a h =
      let found = find_object-write_object heap.objects object i v a in
      elim (Option-cases (find_object heap.objects a)) [
        | inl e ↦
            let gone : find_object heap_after.objects a ≡ none = found ∙ rw e (ground arith) in
            absurd (cc (ap any_new (ap (object_refs heap_after) gone), h))
        | inr (o, e) ↦
            let before = ap any_new (ap (object_refs heap) e ∙ object_refs-shape_of heap o) in
            elim (Bool-cases (object == a)) [
              | inl q ↦
                  let o' = record o { vars = set o.vars i v } in
                  let now : find_object heap_after.objects a ≡ some o' = found ∙ rw (q, e) refl in
                  let there = ap (object_refs heap_after) now ∙ refs_after o' in
                  let new =
                    any_new-written (shape_of (find_object heap.objects o.class)) o i v
                      (sym (ap any_new there) ∙ h) in
                  ground (arith, before, new, q)
              | inr q ↦
                  let now : find_object heap_after.objects a ≡ some o = found ∙ rw (q, e) refl in
                  let there = ap (object_refs heap_after) now ∙ refs_after o in
                  ground (arith, before, sym (ap any_new there) ∙ h)
            ]
      ]

has_bit-tag_object :
    (object : ℕ) (tags : Tags) (a : ℕ)
    → AreBytes tags
    → has_bit (tag_object object tags a) tag_remembered
      ≡ (object == a || has_bit (tags a) tag_remembered)
unfolding tag_object
has_bit-tag_object object tags a bytes = elim (Bool-cases (object == a)) [
  | inl e ↦ rw (e, has_bit-set_bit (tags a) 5 (bytes a) (omega arith) 5 (omega arith)) refl
  | inr e ↦ rw e refl
]

store_field-ok :
    (object i value : ℕ) (heap : Heap) {o : RawObject}
    → find_object heap.objects object ≡ some o
    → i < length o.vars
    → store_field object i value heap ≡ ok (heap_after heap object i value)
unfolding store_field object_at
store_field-ok object i value heap {o} found lt =
    let fits : ltb i (length o.vars) ≡ true = ground (arith, lt) in
    rw (found, object_at, store_field, fits) refl

back : (value : ℕ) → suc value < 2 ^ 64 → tag_ptr value - 1 ≡ value
unfolding tag_ptr
back value lt = ground arith

module _ (object i value : ℕ) (m : Mutator) (v : IsRemembered m) (word : suc value < 2 ^ 64) where
  abbrev stored : Heap
  stored = heap_after m.heap object i (tag_ptr value)

  remembers-stored :
      (a : ℕ)
      → remembers stored a ≡ true
      → (has_bit (m.tags a) tag_remembered
          || (object == a && (is_old_object a && is_new_object value)))
        ≡ true
  unfolding remembers
  remembers-stored a h =
      let new = any_new-refs m.heap object i (tag_ptr value) a in
      ground (arith, new, v.complete a, ap is_new_object (back value word))

  -- After a store into an object of the heap, within its variables, the remembered set still holds what is tagged, once, and every old object with a reference to a new one is still tagged.
  pub raw_object_store_ptr-IsRemembered :
      {o : RawObject}
      → find_object m.heap.objects object ≡ some o
      → i < length o.vars
      → (m' : Mutator) × (raw_object_store_ptr object i value m ≡ ok m')
        × IsRemembered m'
        × (find_object m'.heap.objects object
            ≡ some (record o { vars = set o.vars i (tag_ptr value) }))
  unfolding raw_object_store_ptr
  raw_object_store_ptr-IsRemembered {o} found lt =
      let stores = store_field-ok object i (tag_ptr value) m.heap found lt in
      let there : find_object stored.objects object
          ≡ some (record o { vars = set o.vars i (tag_ptr value) }) =
        find_object-write_object m.heap.objects object i (tag_ptr value) object
        ∙ rw (==_refl object, found) refl in
      let same = λ (a : ℕ). λ (e : (object == a) ≡ true).
        ap (λ x. has_bit (m.tags x) tag_remembered) ((==_iff object a).0 e) in
      let same_old =
        λ (a : ℕ). λ (e : (object == a) ≡ true). ap is_old_object ((==_iff object a).0 e) in
      elim (Bool-cases (
        is_old_object object
        && (is_new_object value && not (has_bit (m.tags object) tag_remembered)))) [
          | inr h ↦ (
            record m { heap = stored },
            rw (h, stores, raw_object_store_ptr) refl,
            record {
              bytes = v.bytes;
              set = v.set;
              tagged = v.tagged;
              complete = λ a r. ground (arith, remembers-stored a r, same a, same_old a);
            },
            there,
          )
          | inl h ↦
              let fresh : has_bit (m.tags object) tag_remembered ≡ false = ground (arith, h) in
              let (set', e, valid, counts) =
                remembered_set_add-members object m.remembered_set m.tags v.set fresh in
              (
                record { heap = stored; remembered_set = set'; tags = tag_object object m.tags },
                rw (h, e, stores, raw_object_store_ptr) refl,
                record {
                  bytes = tag_object-bytes object m.tags v.bytes;
                  set = valid;
                  tagged = λ a. ground (
                    arith,
                    counts a,
                    v.tagged a,
                    has_bit-tag_object object m.tags a v.bytes,
                    same a,
                    fresh,
                  );
                  complete = λ a r.
                      ground
                        (arith, remembers-stored a r, has_bit-tag_object object m.tags a v.bytes);
                },
                there,
              )
        ]
