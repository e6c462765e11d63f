-- ===== src/Sweep/Collect.antt =====
-- markAndSweep of vm/Heap.c: what is reached from the roots stays, and the rest is freed.
use yet_another_smalltalk_vm.Base.{ℕ, ◌^◌, ◌≡◌, Bool, true, false, List, [], ◌∷◌, if◌then◌else◌}
use yet_another_smalltalk_vm.Base.Bits.{has_bit}
use yet_another_smalltalk_vm.Base.Result.{Run, ok, ◌>>=◌}
use yet_another_smalltalk_vm.RememberedSet.{RememberedSet, remembered_set_reset}
use yet_another_smalltalk_vm.GarbageCollector.{Heap, Marking, is_marked, gc_mark_roots}
use yet_another_smalltalk_vm.GarbageCollector.Graph.{elem, Reach}
use yet_another_smalltalk_vm.Sweep.{Space, tag_freespace, gc_sweep}
use yet_another_smalltalk_vm.Sweep.Cells.{freed_size}

-- `markAndSweep` without the statistics; the tags in the space are those of all objects.
unfoldable pub mark_and_sweep :
    ℕ → (ℕ → Bool) → Heap → List ℕ → List (ℕ × ℕ) → RememberedSet → Space → Run (Marking × Space)
mark_and_sweep n has_finalizer heap roots pages set s = do
  m ← gc_mark_roots heap roots s.tags (remembered_set_reset set)
  s' ← gc_sweep n has_finalizer pages (record s { tags = m.tags })
  ok (m, s')

-- the cells that have a finalizer
abbrev pub finalizable : (ℕ → Bool) → List ℕ → List ℕ
finalizable has_finalizer [] = []
finalizable has_finalizer (a ∷ cells) =
    if has_finalizer a then a ∷ finalizable has_finalizer cells else finalizable has_finalizer cells

-- The cells after a collection, where `m` is what the mark phase left.
pub record IsCollected (has_finalizer : ℕ → Bool) (heap : Heap) (roots cells : List ℕ) (s : Space)
    (m : Marking) (s' : Space) : Type 0 where
  pub reached :
      (a : ℕ)
      → elem a cells ≡ true
      → Reach heap roots a
      → (s'.sizes a ≡ s.sizes a) × (is_marked s'.tags a ≡ false)
  pub garbage :
      (a : ℕ)
      → elem a cells ≡ true
      → ¬ Reach heap roots a
      → has_bit (m.tags a) tag_freespace ≡ false
      → has_finalizer a ≡ false
      → (s'.sizes a ≡ freed_size s.sizes a) × (s'.tags a ≡ 2 ^ tag_freespace)
