-- ===== src/Sweep/Walk.antt =====
-- What gcSweep of vm/GarbageCollector.c does to each cell that it meets.
use yet_another_smalltalk_vm.Base.{
  ℕ, suc, ◌+◌, ◌≤◌, ◌≡◌, refl, sym, ap, ◌∙◌, Bool, true, false, none, some, List, [], ◌∷◌, ◌++◌,
  ◌==◌, ==_iff, ==_refl, if◌then◌else◌, length, length-append, append-nil, append_assoc, Bool-cases,
  inl, inr, arith,
}
use yet_another_smalltalk_vm.Base.Counts.{count}
use yet_another_smalltalk_vm.Base.Result.{ok}
use yet_another_smalltalk_vm.RememberedSet.{Tags}
use yet_another_smalltalk_vm.FreeList.{FreeList, align, heap_object_align}
use yet_another_smalltalk_vm.GarbageCollector.Graph.{elem}
use yet_another_smalltalk_vm.Sweep.{
  PageSpaceIterator, page_space_iterator_init, iterator_cell, after_cell, page_space_iterator_next,
  Space, sweep_object, sweep_loop, gc_sweep,
}
use yet_another_smalltalk_vm.Sweep.Cells.{
  ends, swept_tags, swept_size, to_finalize, free_cells, AreAligned, IsSwept, sweep_object-IsSwept,
}

-- The cells that the iterator meets from `it` on.
pub data IsWalk (sizes : ℕ → ℕ) : PageSpaceIterator → List ℕ → Type 0 where
  done : {it : PageSpaceIterator} → iterator_cell it ≡ none → IsWalk sizes it []
  cell :
      {it it' : PageSpaceIterator} {cells : List ℕ}
      → iterator_cell it ≡ some it'
      → count it'.current cells ≡ 0
      → IsWalk sizes (after_cell sizes it') cells
      → IsWalk sizes it (it'.current ∷ cells)

-- Two spaces have the same cells in a list.
abbrev Agree : List ℕ → (ℕ → ℕ) → (ℕ → ℕ) → Type 0
Agree cells f g = (x : ℕ) → elem x cells ≡ true → f x ≡ g x

tail-Agree : (a : ℕ) (cells : List ℕ) (f g : ℕ → ℕ) → Agree (a ∷ cells) f g → Agree cells f g
tail-Agree a cells f g same x h = same x (ground (arith, h))

to_finalize-same :
    (has_finalizer : ℕ → Bool) (tags tags' : Tags) (cells : List ℕ)
    → Agree cells tags tags'
    → to_finalize has_finalizer tags cells ≡ to_finalize has_finalizer tags' cells
to_finalize-same has_finalizer tags tags' [] same = refl
to_finalize-same has_finalizer tags tags' (a ∷ cells) same =
    let e = same a (ground (arith, ==_refl a)) in
    let rest =
      to_finalize-same has_finalizer tags tags' cells (tail-Agree a cells tags tags' same) in
    rw (e, rest) refl

free_cells-same :
    (has_finalizer : ℕ → Bool) (sizes sizes' : ℕ → ℕ) (tags tags' : Tags) (cells : List ℕ)
    (list : FreeList)
    → Agree cells sizes sizes'
    → Agree cells tags tags'
    → free_cells has_finalizer sizes tags cells list
      ≡ free_cells has_finalizer sizes' tags' cells list
free_cells-same has_finalizer sizes sizes' tags tags' [] list p q = refl
free_cells-same has_finalizer sizes sizes' tags tags' (a ∷ cells) list p q =
    let e = p a (ground (arith, ==_refl a)) in
    let f = q a (ground (arith, ==_refl a)) in
    rw (e, f)
      (free_cells-same has_finalizer sizes sizes' tags tags' cells _
        (tail-Agree a cells sizes sizes' p) (tail-Agree a cells tags tags' q))

to_finalize-cons :
    (has_finalizer : ℕ → Bool) (tags : Tags) (a : ℕ) (cells : List ℕ)
    → to_finalize has_finalizer tags (a ∷ []) ++ to_finalize has_finalizer tags cells
      ≡ to_finalize has_finalizer tags (a ∷ cells)
to_finalize-cons has_finalizer tags a cells = elim (Bool-cases (ends has_finalizer tags a)) [
  | inl h ↦ rw h refl
  | inr h ↦ rw h refl
]

elem-count : (x : ℕ) (cells : List ℕ) → count x cells ≡ 0 → elem x cells ≡ false
elem-count x [] h = refl
elem-count x (y ∷ cells) h = ground (arith, elem-count x cells)

module _ (has_finalizer : ℕ → Bool) (a : ℕ) (cells : List ℕ) (s s' s'' : Space)
    (one : IsSwept has_finalizer (a ∷ []) s s') (apart : count a cells ≡ 0) where
  elem-apart : (x : ℕ) → elem x cells ≡ true → (x == a) ≡ false
  elem-apart x h =
      let gone = elem-count a cells apart in
      elim (Bool-cases (x == a)) [
        | inl q ↦ let e = ap (λ y. elem y cells) ((==_iff x a).0 q) in ground (arith, e, gone, h)
        | inr q ↦ q
      ]

  tags-Agree : Agree cells s'.tags s.tags
  tags-Agree x h = one.tags x ∙ rw (elem-apart x h) refl

  sizes-Agree : Agree cells s'.sizes s.sizes
  sizes-Agree x h = one.sizes x ∙ rw (elem-apart x h) refl

  IsSwept-cons : IsSwept has_finalizer cells s' s'' → IsSwept has_finalizer (a ∷ cells) s s''
  IsSwept-cons more = record {
    tags = λ x. more.tags x ∙ cells_tags x;
    sizes = λ x. more.sizes x ∙ cells_sizes x;
    free_list =
        more.free_list
        ∙ free_cells-same has_finalizer s'.sizes s.sizes s'.tags s.tags cells s'.free_list
            sizes-Agree tags-Agree
        ∙ ap (free_cells has_finalizer s.sizes s.tags cells) one.free_list;
    finalize =
        more.finalize
        ∙ ap (λ l. s'.finalize ++ l)
            (to_finalize-same has_finalizer s'.tags s.tags cells tags-Agree)
        ∙ ap (λ l. l ++ to_finalize has_finalizer s.tags cells) one.finalize
        ∙ append_assoc s.finalize (to_finalize has_finalizer s.tags (a ∷ [])) _
        ∙ ap (λ l. s.finalize ++ l) (to_finalize-cons has_finalizer s.tags a cells);
  }
    where
      cells_tags :
          (x : ℕ)
          → (if elem x cells then swept_tags has_finalizer s'.tags x else s'.tags x)
            ≡ (if elem x (a ∷ cells) then swept_tags has_finalizer s.tags x else s.tags x)
      cells_tags x = elim (Bool-cases (elem x cells)) [
        | inl h ↦ rw (h, elem-apart x h, tags-Agree x h) refl
        | inr h ↦ rw h (one.tags x)
      ]

      cells_sizes :
          (x : ℕ)
          → (if elem x cells then swept_size has_finalizer s'.sizes s'.tags x else s'.sizes x)
            ≡ (if elem x (a ∷ cells) then swept_size has_finalizer s.sizes s.tags x else s.sizes x)
      cells_sizes x = elim (Bool-cases (elem x cells)) [
        | inl h ↦ rw (h, elem-apart x h, tags-Agree x h, sizes-Agree x h) refl
        | inr h ↦ rw h (one.sizes x)
      ]

sweep_loop-step :
    (n : ℕ) (has_finalizer : ℕ → Bool) (it it' : PageSpaceIterator) (s s' : Space)
    → iterator_cell it ≡ some it'
    → sweep_object has_finalizer it'.current s ≡ ok s'
    → sweep_loop (suc n) has_finalizer it s ≡ sweep_loop n has_finalizer (after_cell s.sizes it') s'
unfolding sweep_loop page_space_iterator_next
sweep_loop-step n has_finalizer it it' s s' at swept =
    rw (page_space_iterator_next, at, sweep_loop, swept) refl

sweep_loop-IsSwept :
    (has_finalizer : ℕ → Bool) (sizes : ℕ → ℕ) (it : PageSpaceIterator) (cells : List ℕ) (s : Space)
    → IsWalk sizes it cells
    → Agree cells s.sizes sizes
    → AreAligned sizes cells
    → length s.finalize + length (to_finalize has_finalizer s.tags cells) ≤ 256
    → (s' : Space) × (sweep_loop (length cells) has_finalizer it s ≡ ok s')
      × IsSwept has_finalizer cells s s'
unfolding sweep_loop page_space_iterator_next
sweep_loop-IsSwept has_finalizer sizes it [] s (done e) same aligned room = (
  s,
  rw (e, page_space_iterator_next, sweep_loop) refl,
  record {
    tags = λ a. refl;
    sizes = λ a. refl;
    free_list = refl;
    finalize = sym (append-nil s.finalize);
  },
)
sweep_loop-IsSwept has_finalizer sizes it (a ∷ rest) s (cell {it' = it'} e apart walk) same aligned
      room =
    let finals = to_finalize has_finalizer in
    let split = ap length (to_finalize-cons has_finalizer s.tags a rest) in
    let sum = length-append (finals s.tags (a ∷ [])) (finals s.tags rest) in
    let (whole, filled) = aligned a (ground (arith, ==_refl a)) in
    let size = same a (ground (arith, ==_refl a)) in
    let (s', swept, one) =
      sweep_object-IsSwept has_finalizer a s whole (omega (arith, size, filled))
        (omega (arith, room, split, sum)) in
    let kept = tags-Agree has_finalizer a rest s s' s' one apart in
    let finals_kept = ap length (to_finalize-same has_finalizer s'.tags s.tags rest kept) in
    let finals_after = ap length one.finalize ∙ length-append s.finalize (finals s.tags (a ∷ [])) in
    let (s'', runs, more) =
      sweep_loop-IsSwept has_finalizer sizes (after_cell sizes it') rest s' walk
        (λ x h. sizes-Agree has_finalizer a rest s s' s' one apart x h ∙ same x (ground (arith, h)))
        (λ x h. aligned x (ground (arith, h)))
        (omega (arith, room, split, sum, finals_kept, finals_after)) in
    let next =
      ap
        (λ z.
          sweep_loop (length rest) has_finalizer
            (record it' { current = a + align z heap_object_align }) s')
        size in
    (
      s'',
      sweep_loop-step (length rest) has_finalizer it it' s s' e swept ∙ next ∙ runs,
      IsSwept-cons has_finalizer a rest s s' s'' one apart more,
    )

-- When the iterator meets the given cells, each once, when they are aligned and not empty, and when at most 256 objects are to be finalized, gcSweep ends with each marked object and each free space kept and its mark toggled, each unmarked object that was not finalized and has a finalizer kept, marked, tagged as finalized and listed, and every other object turned into a free space of its aligned size and put in the free list, in the order of the walk; no other cell changes.
pub gc_sweep-IsSwept :
    (has_finalizer : ℕ → Bool) (pages : List (ℕ × ℕ)) (it : PageSpaceIterator) (cells : List ℕ)
    (s : Space)
    → page_space_iterator_init pages ≡ ok it
    → IsWalk s.sizes it cells
    → AreAligned s.sizes cells
    → length (to_finalize has_finalizer s.tags cells) ≤ 256
    → (s' : Space) × (gc_sweep (length cells) has_finalizer pages s ≡ ok s')
      × IsSwept has_finalizer cells (record s { finalize = [] }) s'
unfolding gc_sweep
gc_sweep-IsSwept has_finalizer pages it cells s e walk aligned room =
    let (s', runs, swept) =
      sweep_loop-IsSwept has_finalizer s.sizes it cells (record s { finalize = [] }) walk
        (λ x h. refl) aligned (omega (arith, room)) in
    (s', rw (e, gc_sweep) runs, swept)
