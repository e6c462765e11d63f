-- ===== src/Tests/Sweeping.antt =====
-- The sweep (vm/GarbageCollector.c) of a page at 4096 with a marked object of 16 bytes and an
-- unmarked one of 20.
use yet_another_smalltalk_vm.Base.{
  ℕ, ◌≡◌, refl, false, List, [], ◌∷◌, ◌==◌, ==_iff, if◌then◌else◌, replicate, Bool-cases, inl, inr,
  arith,
}
use yet_another_smalltalk_vm.Base.Result.{ok}
use yet_another_smalltalk_vm.FreeList.{FreeList, align}
use yet_another_smalltalk_vm.Sweep.{
  Space, PageSpaceIterator, page_space_iterator_init, iterator_cell, gc_sweep,
}
use yet_another_smalltalk_vm.Sweep.Cells.{AreAligned, IsSwept}
use yet_another_smalltalk_vm.Sweep.Walk.{IsWalk, done, cell, gc_sweep-IsSwept}

abbrev empty_list : FreeList
empty_list = record { free_spaces = replicate 129 []; free_map = replicate 17 0; past = 0 }

abbrev space : Space
space = record {
  sizes = λ a. if a == 4096 then 16 else 20;
  tags = λ a. if a == 4096 then 4 else 0;
  free_list = empty_list;
  finalize = [];
}

abbrev first : PageSpaceIterator
first = record { page = (4096, 48); rest = []; current = 4096 }

first_run : page_space_iterator_init ((4096, 48) ∷ []) ≡ ok first
unfolding page_space_iterator_init align
first_run = refl

two-IsWalk : IsWalk space.sizes first (4096 ∷ 4112 ∷ [])
unfolding iterator_cell align
two-IsWalk = cell refl (omega arith) (cell refl (omega arith) (done refl))

two-AreAligned : AreAligned space.sizes (4096 ∷ 4112 ∷ [])
two-AreAligned a h = elim (Bool-cases (a == 4096)) [
  | inl e ↦ rw ((==_iff a 4096).0 e) (omega arith, omega arith)
  | inr e ↦ rw ((==_iff a 4112).0 (ground arith)) (omega arith, omega arith)
]

gc_sweep-IsSwept_example :
    (s' : Space) × (gc_sweep 2 (λ a. false) ((4096, 48) ∷ []) space ≡ ok s')
    × IsSwept (λ a. false) (4096 ∷ 4112 ∷ []) space s'
gc_sweep-IsSwept_example =
    gc_sweep-IsSwept (λ a. false) ((4096, 48) ∷ []) first (4096 ∷ 4112 ∷ []) space first_run
      two-IsWalk two-AreAligned (omega arith)

-- The old objects of the heap of the tests of the mark phase, 16 bytes each.
abbrev old_space : Space
old_space = record { sizes = λ a. 16; tags = λ a. 0; free_list = empty_list; finalize = [] }

abbrev old_cells : List ℕ
old_cells = 16 ∷ 32 ∷ 48 ∷ []

abbrev old_first : PageSpaceIterator
old_first = record { page = (16, 48); rest = []; current = 16 }
