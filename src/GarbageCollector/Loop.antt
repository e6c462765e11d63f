-- ===== src/GarbageCollector/Loop.antt =====
-- `gcMarkRoots` of vm/GarbageCollector.c marks what is reached from the roots, and nothing else.
use yet_another_smalltalk_vm.Base.{
  ℕ, zero, suc, ◌+◌, ◌≤◌, ◌≡◌, ap, ◌∙◌, true, false, not, ◌&&◌, ◌||◌, List, [], ◌∷◌, ◌==◌, ==_iff,
  ==_refl, length, Bool-cases, List-cases, inl, inr, arith,
}
use yet_another_smalltalk_vm.Base.Counts.{count, one_if}
use yet_another_smalltalk_vm.Base.Result.{ok}
use yet_another_smalltalk_vm.RememberedSet.Members.{members, IsValid}
use yet_another_smalltalk_vm.GarbageCollector.{Heap, Marking, is_marked, mark_loop}
use yet_another_smalltalk_vm.GarbageCollector.Graph.{
  elem, refs, Reach, root, step, IsObject, IsClosed,
}
use yet_another_smalltalk_vm.GarbageCollector.Mark.{AreBytes, unmarked, unmarked-same}
use yet_another_smalltalk_vm.GarbageCollector.Visit.{
  AllObjects, remembers, IsVisit, iterate_object-IsVisit,
}

-- The marks so far: sound, closed but for the queue, and the remembered set of what left the queue.
pub record IsMarking (heap : Heap) (roots : List ℕ) (m : Marking) : Type 0 where
  pub bytes : AreBytes m.tags
  pub set : IsValid m.remembered_set
  pub room : length m.queue ≤ m.queue_size
  pub sound : (a : ℕ) → is_marked m.tags a ≡ true → Reach heap roots a
  pub starts : (a : ℕ) → elem a roots ≡ true → is_marked m.tags a ≡ true
  pub queued : (a : ℕ) → is_marked m.tags a ≡ false → count a m.queue ≡ 0
  pub single : (a : ℕ) → count a m.queue ≤ 1
  pub closed :
      (u v : ℕ)
      → is_marked m.tags u ≡ true
      → count u m.queue ≡ 0
      → elem v (refs heap u) ≡ true
      → is_marked m.tags v ≡ true
  pub remembered :
      (x : ℕ)
      → count x (members m.remembered_set)
        ≡ one_if (is_marked m.tags x && (count x m.queue == 0 && remembers heap x))

module _ (heap : Heap) (roots : List ℕ) (whole : IsClosed heap) (all : AllObjects heap roots) where
  pub Reach-IsObject : {a : ℕ} → Reach heap roots a → IsObject heap a
  Reach-IsObject (root h) = all _ h
  Reach-IsObject (step {a} {b} r h) = whole a b (Reach-IsObject r) h

  module _ (m m' : Marking) (top : ℕ) (rest : List ℕ) (e : m.queue ≡ top ∷ rest)
      (v : IsMarking heap roots m) (k : IsVisit heap top (record m { queue = rest }) m') where
    marks_after : (a : ℕ) → is_marked m'.tags a ≡ (elem a (refs heap top) || is_marked m.tags a)
    marks_after a = k.kept.marks a ∙ k.marks.marks a

    queue_after :
        (a : ℕ)
        → count a m'.queue
          ≡ count a rest + one_if (elem a (refs heap top) && not (is_marked m.tags a))
    queue_after a = ap (count a) k.kept.queue ∙ k.marks.queue a

    queue_before : (a : ℕ) → count a m.queue ≡ one_if (a == top) + count a rest
    queue_before a = ap (count a) e

    top_marked : is_marked m.tags top ≡ true
    top_marked = ground (arith, v.queued top, queue_before top, ==_refl top)

    refs_of : (a b : ℕ) → (a == top) ≡ true → elem b (refs heap a) ≡ elem b (refs heap top)
    refs_of a b h = ap (λ x. elem b (refs heap x)) ((==_iff a top).0 h)

    visit_sound : (a : ℕ) → is_marked m'.tags a ≡ true → Reach heap roots a
    visit_sound a h = elim (Bool-cases (is_marked m.tags a)) [
      | inl old ↦ v.sound a old
      | inr new ↦ step (v.sound top top_marked) (ground (arith, marks_after a))
    ]

    visit_closed :
        (u w : ℕ)
        → is_marked m'.tags u ≡ true
        → count u m'.queue ≡ 0
        → elem w (refs heap u) ≡ true
        → is_marked m'.tags w ≡ true
    visit_closed u w h out edge = ground (
      arith,
      marks_after u,
      marks_after w,
      queue_after u,
      queue_before u,
      refs_of u w,
      v.closed u w,
    )

    visit_remembered :
        (x : ℕ)
        → count x (members m'.remembered_set)
          ≡ one_if (is_marked m'.tags x && (count x m'.queue == 0 && remembers heap x))
    visit_remembered x =
        let same = ap (λ r. count x (members r)) k.marks.same_set in
        let top_x = λ (h : (x == top) ≡ true). ap (remembers heap) ((==_iff x top).0 h) in
        let mark_x = λ (h : (x == top) ≡ true). ap (is_marked m.tags) ((==_iff x top).0 h) in
        ground (
          arith,
          same,
          top_x,
          mark_x,
          top_marked,
          marks_after x,
          queue_after x,
          queue_before x,
          v.single x,
          v.queued x,
          v.remembered x,
          k.kept.members x,
        )

    visit-IsMarking : IsMarking heap roots m'
    visit-IsMarking = record {
      bytes = k.kept.bytes;
      set = k.kept.set;
      room = omega (
        arith,
        k.marks.room (omega (arith, v.room, ap length e)),
        ap length k.kept.queue,
        k.kept.queue_size,
      );
      sound = visit_sound;
      starts = λ a h. ground (arith, v.starts a, marks_after a);
      queued = λ a h. ground (arith, marks_after a, queue_after a, queue_before a, v.queued a);
      single = λ a. ground (arith, queue_after a, queue_before a, v.queued a, v.single a);
      closed = visit_closed;
      remembered = visit_remembered;
    }

    visit_work :
        suc (unmarked m'.tags heap.objects + length m'.queue)
        ≤ unmarked m.tags heap.objects + length m.queue
    visit_work = omega (
      arith,
      unmarked-same m'.tags k.between.tags heap.objects k.kept.marks,
      ap length k.kept.queue,
      ap length e,
      k.marks.work,
    )

  pub mark_loop-ends :
      (n : ℕ) (m : Marking)
      → IsMarking heap roots m
      → unmarked m.tags heap.objects + length m.queue ≤ n
      → (m' : Marking) × (mark_loop n heap m ≡ ok m') × IsMarking heap roots m' × (m'.queue ≡ [])
  unfolding mark_loop
  mark_loop-ends zero m v le = elim (List-cases m.queue) [
    | inl empty ↦ (m, simp (empty, mark_loop), v, empty)
    | inr (top, rest, e) ↦ absurd (omega (arith, ap length e))
  ]
  mark_loop-ends (suc n) m v le = elim (List-cases m.queue) [
    | inl empty ↦ (m, simp (empty, mark_loop), v, empty)
    | inr (top, rest, e) ↦
        let p = record m { queue = rest } in
        let top_marked : is_marked m.tags top ≡ true =
          ground (arith, v.queued top, ap (count top) e, ==_refl top) in
        let (m₁, visits, k) =
          iterate_object-IsVisit heap top p whole (Reach-IsObject (v.sound top top_marked)) v.bytes
            v.set in
        let work = visit_work m m₁ top rest e v k in
        let (m₂, ends, v', empty) =
          mark_loop-ends n m₁ (visit-IsMarking m m₁ top rest e v k) (omega (arith, le, work)) in
        (m₂, rw (e, mark_loop, visits) ends, v', empty)
  ]
