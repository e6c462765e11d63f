-- ===== src/GarbageCollector/Mark.antt =====
-- What `markObject` does to the marks and to the queue.
use yet_another_smalltalk_vm.Base.{
  ℕ, ◌+◌, ◌≤◌, ◌<◌, ◌≡◌, refl, true, false, not, ◌&&◌, ◌||◌, some, List, [], ◌∷◌, ◌==◌, ==_iff,
  if◌then◌else◌, length, Bool-cases, inl, inr, arith, ◌∙◌, ap,
}
use yet_another_smalltalk_vm.Base.Bits.{set_bit, set_bit-lt, has_bit-set_bit}
use yet_another_smalltalk_vm.Base.Counts.{count, one_if}
use yet_another_smalltalk_vm.RememberedSet.{Tags}
use yet_another_smalltalk_vm.GarbageCollector.{
  RawObject, Heap, Marking, tag_marked, find_object, is_marked, write_tags, marking_queue_add,
  set_mark,
}
use yet_another_smalltalk_vm.GarbageCollector.Graph.{elem}

abbrev pub AreBytes : Tags → Type 0
AreBytes tags = (a : ℕ) → tags a < 256

-- A mark that is set is there, and no other changes.
pub is_marked-set :
    (tags : Tags) (object a : ℕ)
    → AreBytes tags
    → is_marked (write_tags tags object (set_bit (tags object) tag_marked)) a
      ≡ (a == object || is_marked tags a)
is_marked-set tags object a bytes = elim (Bool-cases (a == object)) [
  | inl e ↦ rw e (rw (has_bit-set_bit (tags object) 2 (bytes object) (omega arith) 2 (omega arith)))
  | inr e ↦ rw e
]

-- The number of objects without a mark.
pub unmarked : Tags → List (ℕ × RawObject) → ℕ
unmarked tags [] = 0
unmarked tags ((a, o) ∷ objects) = (if is_marked tags a then 0 else 1) + unmarked tags objects

-- The marks and the queue after calls on the objects `xs`.
pub record Marks (xs : List ℕ) (heap : Heap) (m m' : Marking) : Type 0 where
  pub bytes : AreBytes m'.tags
  pub marks : (a : ℕ) → is_marked m'.tags a ≡ (elem a xs || is_marked m.tags a)
  pub queue :
      (a : ℕ) → count a m'.queue ≡ count a m.queue + one_if (elem a xs && not (is_marked m.tags a))
  pub room : length m.queue ≤ m.queue_size → length m'.queue ≤ m'.queue_size
  pub work :
      unmarked m'.tags heap.objects + length m'.queue
      ≤ unmarked m.tags heap.objects + length m.queue
  pub same_set : m'.remembered_set ≡ m.remembered_set

pub Marks-none : (heap : Heap) (m : Marking) → AreBytes m.tags → Marks [] heap m m
Marks-none heap m bytes = record {
  bytes = bytes;
  marks = λ a. refl;
  queue = λ a. ground arith;
  room = λ h. h;
  work = omega arith;
  same_set = refl;
}

pub Marks-cons :
    (x : ℕ) (xs : List ℕ) (heap : Heap) (m m' m'' : Marking)
    → Marks (x ∷ []) heap m m'
    → Marks xs heap m' m''
    → Marks (x ∷ xs) heap m m''
Marks-cons x xs heap m m' m'' k l = record {
  bytes = l.bytes;
  marks = λ a. ground (arith, k.marks a, l.marks a);
  queue = λ a. ground (arith, k.marks a, k.queue a, l.queue a);
  room = λ h. l.room (k.room h);
  work = omega (arith, k.work, l.work);
  same_set = l.same_set ∙ k.same_set;
}

module _ (tags : Tags) (b : ℕ) (bytes : AreBytes tags) where
  abbrev with_mark : Tags
  with_mark = write_tags tags b (set_bit (tags b) tag_marked)

  with_mark-bytes : AreBytes with_mark
  with_mark-bytes a = ground (arith, bytes a, set_bit-lt (tags b) 2 (bytes b) (omega arith))

  unmarked-le :
      (objects : List (ℕ × RawObject)) → unmarked with_mark objects ≤ unmarked tags objects
  unfolding unmarked
  unmarked-le [] = omega arith
  unmarked-le ((a, o) ∷ objects) = ground (arith, is_marked-set tags b a bytes, unmarked-le objects)

  unmarked-lt :
      (objects : List (ℕ × RawObject)) {o : RawObject}
      → find_object objects b ≡ some o
      → is_marked tags b ≡ false
      → unmarked with_mark objects < unmarked tags objects
  unfolding unmarked find_object
  unmarked-lt [] h fresh = cc h
  unmarked-lt ((a, o) ∷ objects) h fresh = elim (Bool-cases (a == b)) [
    | inl e ↦
        let same = ap (is_marked tags) ((==_iff a b).0 e) in
        ground (arith, same, is_marked-set tags b a bytes, unmarked-le objects)
    | inr e ↦
        ground (
          arith,
          is_marked-set tags b a bytes,
          unmarked-lt objects (rw (e, find_object) at h) fresh,
        )
  ]

equal_marks : (tags : Tags) (a b : ℕ) → (a == b) ≡ true → is_marked tags a ≡ is_marked tags b
equal_marks tags a b e = ap (is_marked tags) ((==_iff a b).0 e)

pub set_mark-Marks :
    (heap : Heap) (b : ℕ) (m : Marking) {o : RawObject}
    → find_object heap.objects b ≡ some o
    → AreBytes m.tags
    → Marks (b ∷ []) heap m (set_mark b m)
unfolding set_mark marking_queue_add
set_mark-Marks heap b m h bytes = elim (Bool-cases (is_marked m.tags b)) [
  | inl old ↦
      rw (old, set_mark)
        (record {
          bytes = bytes;
          marks = λ a. ground (arith, old, equal_marks m.tags a b);
          queue = λ a. ground (arith, old, equal_marks m.tags a b);
          room = λ k. k;
          work = omega arith;
          same_set = refl;
        })
  | inr fresh ↦
      rw (fresh, set_mark)
        (record {
          bytes = with_mark-bytes m.tags b bytes;
          marks = λ a. ground (arith, is_marked-set m.tags b a bytes);
          queue = λ a. ground (arith, fresh, equal_marks m.tags a b);
          room = λ k. ground arith;
          work = omega (arith, unmarked-lt m.tags b bytes heap.objects h fresh);
          same_set = refl;
        })
]

pub unmarked-same :
    (tags tags' : Tags) (objects : List (ℕ × RawObject))
    → ((a : ℕ) → is_marked tags a ≡ is_marked tags' a)
    → unmarked tags objects ≡ unmarked tags' objects
unfolding unmarked
unmarked-same tags tags' [] same = refl
unmarked-same tags tags' ((a, o) ∷ objects) same =
    ground (arith, same a, unmarked-same tags tags' objects same)

pub unmarked-le-length :
    (tags : Tags) (objects : List (ℕ × RawObject)) → unmarked tags objects ≤ length objects
unfolding unmarked
unmarked-le-length tags [] = omega arith
unmarked-le-length tags ((a, o) ∷ objects) = ground (arith, unmarked-le-length tags objects)
