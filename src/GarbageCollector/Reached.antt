-- ===== src/GarbageCollector/Reached.antt =====
-- The whole of `gcMarkRoots` of vm/GarbageCollector.c: which objects are marked and which are
-- remembered.
use yet_another_smalltalk_vm.Base.{ℕ, ◌≡◌, ◌↔◌, ap, true, false, ◌&&◌, List, [], length, arith}
use yet_another_smalltalk_vm.Base.Counts.{count, one_if}
use yet_another_smalltalk_vm.Base.Result.{ok}
use yet_another_smalltalk_vm.RememberedSet.{RememberedSet, Tags, remembered_set_reset}
use yet_another_smalltalk_vm.RememberedSet.Members.{members}
use yet_another_smalltalk_vm.GarbageCollector.{
  Heap, Marking, is_marked, queue_init_size, gc_mark_roots,
}
use yet_another_smalltalk_vm.GarbageCollector.Graph.{Reach, root, step, IsClosed}
use yet_another_smalltalk_vm.GarbageCollector.Mark.{AreBytes, Marks, unmarked-le-length}
use yet_another_smalltalk_vm.GarbageCollector.Visit.{AllObjects, mark_all-Marks, remembers}
use yet_another_smalltalk_vm.GarbageCollector.Loop.{IsMarking, mark_loop-ends}

-- no object is marked
abbrev pub AreClear : Tags → Type 0
AreClear tags = (a : ℕ) → is_marked tags a ≡ false

module _ (heap : Heap) (roots : List ℕ) (whole : IsClosed heap) (all : AllObjects heap roots)
    (tags : Tags) (bytes : AreBytes tags) (clear : AreClear tags) (set : RememberedSet) where
  abbrev initial : Marking
  initial = record {
    tags = tags;
    queue_size = queue_init_size;
    queue = [];
    remembered_set = remembered_set_reset set;
    marked = 0;
  }

  roots-IsMarking : (m : Marking) → Marks roots heap initial m → IsMarking heap roots m
  unfolding remembered_set_reset
  roots-IsMarking m k = record {
    bytes = k.bytes;
    set = rw k.same_set (omega arith, tt);
    room = k.room (omega arith);
    sound = λ a h. root (ground (arith, k.marks a, clear a));
    starts = λ a h. ground (arith, k.marks a);
    queued = λ a h. ground (arith, k.marks a, k.queue a, clear a);
    single = λ a. ground (arith, k.queue a);
    closed = λ u v h out edge. absurd (ground (arith, k.marks u, k.queue u, clear u));
    remembered = λ x.
        ground (arith, ap (λ r. count x (members r)) k.same_set, k.marks x, k.queue x, clear x);
  }

  pub gc_mark_roots-IsMarking :
      (m : Marking) × (gc_mark_roots heap roots tags (remembered_set_reset set) ≡ ok m)
      × IsMarking heap roots m
      × (m.queue ≡ [])
  unfolding gc_mark_roots
  gc_mark_roots-IsMarking =
      let (m, e, k) = mark_all-Marks heap roots initial all bytes in
      let le = unmarked-le-length tags heap.objects in
      let (m', ends, v, empty) =
        mark_loop-ends heap roots whole all (length heap.objects) m (roots-IsMarking m k)
          (omega (arith, le, k.work)) in
      (m', rw (e, gc_mark_roots) ends, v, empty)

  pub marked_if :
      (m : Marking)
      → IsMarking heap roots m
      → m.queue ≡ []
      → (a : ℕ) → Reach heap roots a
      → is_marked m.tags a ≡ true
  marked_if m v empty a (root h) = v.starts a h
  marked_if m v empty x (step {a} {b} r edge) =
      v.closed a b (marked_if m v empty a r) (ap (count a) empty) edge

  -- On a heap that is closed under references, where the roots are objects of the heap and no mark is set, gcMarkRoots returns, and what is marked then is what is reached from the roots.
  pub gc_mark_roots-Reach :
      (m : Marking) × (gc_mark_roots heap roots tags (remembered_set_reset set) ≡ ok m)
      × ((a : ℕ) → is_marked m.tags a ≡ true ↔ Reach heap roots a)
  gc_mark_roots-Reach =
      let (m, e, v, empty) = gc_mark_roots-IsMarking in
      (m, e, λ a. (v.sound a, marked_if m v empty a))

  -- Under the same conditions the remembered set holds, after gcMarkRoots, each old object with a reference to a new one that is reached from the roots, once, and nothing else.
  pub gc_mark_roots-members :
      (m : Marking) × (gc_mark_roots heap roots tags (remembered_set_reset set) ≡ ok m)
      × ((a : ℕ)
          → count a (members m.remembered_set) ≡ one_if (is_marked m.tags a && remembers heap a))
  gc_mark_roots-members =
      let (m, e, v, empty) = gc_mark_roots-IsMarking in
      (m, e, λ a. ground (arith, v.remembered a, ap (count a) empty))
