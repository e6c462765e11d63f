-- ===== src/GarbageCollector/Visit.antt =====
-- `iterateObject` of vm/GarbageCollector.c marks and queues what the object refers to, and remembers
-- an old object that refers to a new one.
use yet_another_smalltalk_vm.Base.{
  ℕ, zero, suc, ◌+◌, ◌-◌, ◌%◌, ◌≤◌, ◌≡◌, refl, ap, Bool, true, false, ◌&&◌, ◌||◌, some, List, [],
  ◌∷◌, ◌==◌, ==_iff, ==_refl, length, take, Bool-cases, inl, inr, arith, ◌∙◌,
}
use yet_another_smalltalk_vm.Base.Bits.{
  has_bit, clear_bit, set_bit-lt, clear_bit-lt, has_bit-set_bit, has_bit-clear_bit,
}
use yet_another_smalltalk_vm.Base.Counts.{count, one_if}
use yet_another_smalltalk_vm.Base.Result.{ok}
use yet_another_smalltalk_vm.Object.{value_type_of, as_object, is_new_object, is_old_object}
use yet_another_smalltalk_vm.RememberedSet.{Tags, tag_remembered, tag_object}
use yet_another_smalltalk_vm.RememberedSet.Members as RememberedSet
use yet_another_smalltalk_vm.RememberedSet.Members.{members, remembered_set_add-members}
use yet_another_smalltalk_vm.GarbageCollector.{
  RawObject, Heap, Marking, find_object, object_at, is_marked, write_tags, set_mark, mark_object,
  mark_all, mark_vars, remember_root, iterate_object, vars_count,
}
use yet_another_smalltalk_vm.GarbageCollector.Graph.{
  elem, pointers, object_refs, refs, IsObject, IsClosed,
}
use yet_another_smalltalk_vm.GarbageCollector.Mark.{
  AreBytes, Marks, Marks-none, Marks-cons, set_mark-Marks,
}

abbrev pub any_new : List ℕ → Bool
any_new [] = false
any_new (x ∷ xs) = is_new_object x || any_new xs

mark_object-set_mark :
    (heap : Heap) (b : ℕ) (m : Marking) → IsObject heap b → mark_object heap b m ≡ ok (set_mark b m)
unfolding mark_object object_at
mark_object-set_mark heap b m v = rw (v.in_heap, v.found, mark_object, object_at) refl

mark_object-Marks :
    (heap : Heap) (b : ℕ) (m : Marking)
    → IsObject heap b
    → AreBytes m.tags
    → Marks (b ∷ []) heap m (set_mark b m)
mark_object-Marks heap b m v bytes = set_mark-Marks heap b m v.found bytes

abbrev pub AllObjects : Heap → List ℕ → Type 0
AllObjects heap xs = (b : ℕ) → elem b xs ≡ true → IsObject heap b

pub mark_all-Marks :
    (heap : Heap) (xs : List ℕ) (m : Marking)
    → AllObjects heap xs
    → AreBytes m.tags
    → (m' : Marking) × (mark_all heap xs m ≡ ok m') × Marks xs heap m m'
unfolding mark_all
mark_all-Marks heap [] m all bytes = (m, refl, Marks-none heap m bytes)
mark_all-Marks heap (x ∷ xs) m all bytes =
    let v = all x (ground (arith, ==_refl x)) in
    let first = mark_object-Marks heap x m v bytes in
    let (m', e, rest) =
      mark_all-Marks heap xs (set_mark x m) (λ b h. all b (ground (arith, h))) first.bytes in
    (
      m',
      rw (mark_object-set_mark heap x m v) e,
      Marks-cons x xs heap m (set_mark x m) m' first rest,
    )

or_assoc : (a b c : Bool) → ((a || b) || c) ≡ (a || (b || c))
or_assoc a b c = ground arith

mark_vars-Marks :
    (heap : Heap) (n : ℕ) (vars : List ℕ) (remember : Bool) (m : Marking)
    → n ≤ length vars
    → AllObjects heap (pointers (take n vars))
    → AreBytes m.tags
    → (m' : Marking) × (mark_vars heap n vars remember m
        ≡ ok (remember || any_new (pointers (take n vars)), m'))
      × Marks (pointers (take n vars)) heap m m'
unfolding mark_vars value_type_of as_object
mark_vars-Marks heap zero vars remember m le all bytes = (m, ground arith, Marks-none heap m bytes)
mark_vars-Marks heap (suc n) [] remember m le all bytes = absurd (omega arith)
mark_vars-Marks heap (suc n) (v ∷ vars) remember m le all bytes = elim (Bool-cases (v % 4 == 1)) [
  | inr h ↦
      rw (h, mark_vars, value_type_of)
        (mark_vars-Marks heap n vars remember m (omega arith) (rw h at all) bytes)
  | inl h ↦
      let all' : AllObjects heap ((v - 1) ∷ pointers (take n vars)) = rw h at all in
      let o = all' (v - 1) (ground (arith, ==_refl (v - 1))) in
      let first = mark_object-Marks heap (v - 1) m o bytes in
      let (m', e, rest) =
        mark_vars-Marks heap n vars (remember || is_new_object (v - 1)) (set_mark (v - 1) m)
          (omega arith) (λ b k. all' b (ground (arith, k))) first.bytes in
      let pointer : as_object v ≡ ok (v - 1) = rw (h, as_object) refl in
      rw (h, mark_vars, value_type_of, pointer, mark_object-set_mark heap (v - 1) m o)
        (
          m',
          e ∙ ap (λ r. ok (r, m')) (or_assoc remember (is_new_object (v - 1)) _),
          Marks-cons (v - 1) (pointers (take n vars)) heap m (set_mark (v - 1) m) m' first rest,
        )
]

-- An old object with a reference to a new one belongs in the remembered set.
unfoldable pub remembers : Heap → ℕ → Bool
remembers heap a = any_new (refs heap a) && is_old_object a

-- After the end of `iterateObject` the marks and the queue are as before it.
pub record IsKept (root : ℕ) (adds : Bool) (m m' : Marking) : Type 0 where
  pub bytes : AreBytes m'.tags
  pub marks : (a : ℕ) → is_marked m'.tags a ≡ is_marked m.tags a
  pub queue : m'.queue ≡ m.queue
  pub queue_size : m'.queue_size ≡ m.queue_size
  pub set : RememberedSet.IsValid m'.remembered_set
  pub members :
      (x : ℕ)
      → count x (members m'.remembered_set)
        ≡ one_if (x == root && adds) + count x (members m.remembered_set)

pub tag_object-bytes : (root : ℕ) (tags : Tags) → AreBytes tags → AreBytes (tag_object root tags)
unfolding tag_object
tag_object-bytes root tags bytes a =
    ground (arith, bytes a, set_bit-lt (tags a) 5 (bytes a) (omega arith))

tag_object-is_marked :
    (root : ℕ) (tags : Tags) (a : ℕ)
    → AreBytes tags
    → is_marked (tag_object root tags) a ≡ is_marked tags a
unfolding tag_object
tag_object-is_marked root tags a bytes = elim (Bool-cases (root == a)) [
  | inl e ↦ rw (e, has_bit-set_bit (tags a) 5 (bytes a) (omega arith) 2 (omega arith))
  | inr e ↦ rw e
]

module _ (root : ℕ) (m : Marking) (bytes : AreBytes m.tags) where
  abbrev forgotten : Tags
  forgotten = write_tags m.tags root (clear_bit (m.tags root) tag_remembered)

  forgotten-bytes : AreBytes forgotten
  forgotten-bytes a =
      ground (arith, bytes a, clear_bit-lt (m.tags root) 5 (bytes root) (omega arith))

  forgotten-marks : (a : ℕ) → is_marked forgotten a ≡ is_marked m.tags a
  forgotten-marks a = elim (Bool-cases (a == root)) [
    | inl e ↦ rw (
      e,
      has_bit-clear_bit (m.tags root) 5 (bytes root) (omega arith) 2 (omega arith),
      (==_iff a root).0 e,
    )
    | inr e ↦ rw e
  ]

  forgotten-fresh : has_bit (forgotten root) tag_remembered ≡ false
  forgotten-fresh =
      rw
        (==_refl root, has_bit-clear_bit (m.tags root) 5 (bytes root) (omega arith) 5 (omega arith))

  remember_root-IsKept :
      (remember : Bool)
      → RememberedSet.IsValid m.remembered_set
      → (m' : Marking) × (remember_root root remember m ≡ ok m')
        × IsKept root (remember && is_old_object root) m m'
  unfolding remember_root
  remember_root-IsKept remember valid = elim (Bool-cases (remember && is_old_object root)) [
    | inr h ↦
        rw (h, remember_root)
          (
            record m { tags = forgotten },
            refl,
            record {
              bytes = forgotten-bytes;
              marks = forgotten-marks;
              queue = refl;
              queue_size = refl;
              set = valid;
              members = λ x. ground arith;
            },
          )
    | inl h ↦
        let (set, e, valid', counts) =
          remembered_set_add-members root m.remembered_set forgotten valid forgotten-fresh in
        rw (h, e, remember_root)
          (
            record m { remembered_set = set; tags = tag_object root forgotten },
            refl,
            record {
              bytes = tag_object-bytes root forgotten forgotten-bytes;
              marks =
                  λ a. tag_object-is_marked root forgotten a forgotten-bytes ∙ forgotten-marks a;
              queue = refl;
              queue_size = refl;
              set = valid';
              members = λ x. ground (arith, counts x);
            },
          )
  ]

-- What a call of `iterateObject` does: the marks and the queue take the references of the root.
pub record IsVisit (heap : Heap) (root : ℕ) (m m' : Marking) : Type 0 where
  pub between : Marking
  pub marks : Marks (refs heap root) heap m between
  pub kept : IsKept root (remembers heap root) between m'

object_at-find :
    (heap : Heap) (a : ℕ) {o : RawObject}
    → find_object heap.objects a ≡ some o
    → object_at heap a ≡ ok o
unfolding object_at
object_at-find heap a h = rw (h, object_at) refl

iterate_object-steps :
    (heap : Heap) (root : ℕ) (m m₁ m₂ m₃ : Marking) (o c : RawObject) (remember : Bool)
    → object_at heap root ≡ ok o
    → mark_object heap o.class m ≡ ok m₁
    → object_at heap o.class ≡ ok c
    → mark_vars heap (vars_count c.instance_shape o.size) o.vars (is_new_object o.class) m₁
      ≡ ok (remember, m₂)
    → remember_root root remember m₂ ≡ ok m₃
    → iterate_object heap root m ≡ ok m₃
unfolding iterate_object
iterate_object-steps heap root m m₁ m₂ m₃ o c remember a b d e f = rw (a, b, d, e, iterate_object) f

pub iterate_object-IsVisit :
    (heap : Heap) (root : ℕ) (m : Marking)
    → IsClosed heap
    → IsObject heap root
    → AreBytes m.tags
    → RememberedSet.IsValid m.remembered_set
    → (m' : Marking) × (iterate_object heap root m ≡ ok m') × IsVisit heap root m m'
unfolding remembers refs
iterate_object-IsVisit heap root m closed v bytes valid =
    let n = vars_count v.class.instance_shape v.object.size in
    let found : refs heap root ≡ v.object.class ∷ pointers (take n v.object.vars) =
      rw (v.found, v.class_found, refs, object_refs) refl in
    let all : AllObjects heap (v.object.class ∷ pointers (take n v.object.vars)) =
      λ b h. closed root b v (rw found h) in
    let class_ok = all v.object.class (ground (arith, ==_refl v.object.class)) in
    let first = mark_object-Marks heap v.object.class m class_ok bytes in
    let m₁ = set_mark v.object.class m in
    let (m₂, e, rest) =
      mark_vars-Marks heap n v.object.vars (is_new_object v.object.class) m₁ v.long
        (λ b h. all b (ground (arith, h))) first.bytes in
    let both = Marks-cons v.object.class _ heap m m₁ m₂ first rest in
    let (m₃, e', kept) =
      remember_root-IsKept root m₂ both.bytes
        (any_new (v.object.class ∷ pointers (take n v.object.vars))) (rw both.same_set valid) in
    (
      m₃,
      iterate_object-steps heap root m m₁ m₂ m₃ v.object v.class _
          (object_at-find heap root v.found) (mark_object-set_mark heap v.object.class m class_ok)
          (object_at-find heap v.object.class v.class_found) e e',
      record { between = m₂; marks = rw found both; kept = rw (found, remembers) kept },
    )
