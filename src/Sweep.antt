-- ===== src/Sweep.antt =====
-- The sweep: gcSweep of vm/GarbageCollector.c, freeObject of vm/Heap.c and the iterator over the
-- cells of a page space of vm/HeapPage.c. `sizes` gives the size that the iterator computes for the
-- cell at an address; the messages to the objects that are finalized come after the sweep.
pub mod Cells
pub mod Walk
pub mod Collect
use yet_another_smalltalk_vm.Base.{
  ℕ, zero, suc, ◌+◌, ◌^◌, Bool, true, false, not, ◌&&◌, ◌||◌, Option, none, some, List, [], ◌∷◌,
  ◌++◌, ◌==◌, ltb, leb, if◌then◌else◌, length,
}
use yet_another_smalltalk_vm.Base.Bits.{has_bit, set_bit, clear_bit}
use yet_another_smalltalk_vm.Base.Result.{
  Run, ok, fault, out_of_fuel, null_pointer, ◌>>=◌, ◌>>◌, check,
}
use yet_another_smalltalk_vm.RememberedSet.{Tags}
use yet_another_smalltalk_vm.FreeList.{
  FreeList, FreeSpace, align, heap_object_align, create_free_space, add_free_space,
}
use yet_another_smalltalk_vm.GarbageCollector.{tag_marked, write_tags}

-- TAG_FREESPACE is 1, TAG_FINALIZED is 1 << 4.
abbrev pub tag_freespace : ℕ
tag_freespace = 0

abbrev pub tag_finalized : ℕ
tag_finalized = 4

-- A page is its body's address and size; `rest` are the pages after it.
pub record PageSpaceIterator : Type 0 where
  pub page : ℕ × ℕ
  pub rest : List (ℕ × ℕ)
  pub current : ℕ

unfoldable pub page_space_iterator_init : List (ℕ × ℕ) → Run PageSpaceIterator
page_space_iterator_init [] = fault null_pointer
page_space_iterator_init ((body, size) ∷ pages) =
    ok (record { page = (body, size); rest = pages; current = align body heap_object_align })

-- The cell at `current`, or the first of the next page.
unfoldable pub iterator_cell : PageSpaceIterator → Option PageSpaceIterator
iterator_cell it = if ltb it.current (it.page.0 + it.page.1) then some it else elim it.rest [
  | [] ↦ none
  | (body, size) ∷ pages ↦
      some (record { page = (body, size); rest = pages; current = align body heap_object_align })
]

abbrev pub after_cell : (ℕ → ℕ) → PageSpaceIterator → PageSpaceIterator
after_cell sizes it = record it {
  current = it.current + align (sizes it.current) heap_object_align;
}

unfoldable pub page_space_iterator_next :
    (ℕ → ℕ) → PageSpaceIterator → Option (ℕ × PageSpaceIterator)
page_space_iterator_next sizes it = elim (iterator_cell it) [
  | none ↦ none
  | some it' ↦ some (it'.current, after_cell sizes it')
]

-- `finalize` are the objects of the array of that name.
pub record Space : Type 0 where
  pub sizes : ℕ → ℕ
  pub tags : Tags
  pub free_list : FreeList
  pub finalize : List ℕ

abbrev pub write_size : (ℕ → ℕ) → ℕ → ℕ → ℕ → ℕ
write_size sizes object size a = if a == object then size else sizes a

-- `tags ^ TAG_MARKED`
abbrev pub toggle_mark : ℕ → ℕ
toggle_mark tags =
    if has_bit tags tag_marked then clear_bit tags tag_marked else set_bit tags tag_marked

unfoldable pub free_object : ℕ → Space → Run Space
free_object object s = do
  free ← create_free_space object (align (s.sizes object) heap_object_align)
  ok (record s {
    sizes = write_size s.sizes object free.size;
    tags = write_tags s.tags object (2 ^ tag_freespace);
    free_list = add_free_space s.free_list free;
  })

-- The body of the loop of `gcSweep`.
unfoldable pub sweep_object : (ℕ → Bool) → ℕ → Space → Run Space
sweep_object has_finalizer object s =
    let tags = s.tags object in
    if has_bit tags tag_marked || has_bit tags tag_freespace
    then ok (record s { tags = write_tags s.tags object (toggle_mark tags) })
    else if not (has_bit tags tag_finalized) && has_finalizer object
    then check (ltb (length s.finalize) 256)
      >> ok (record s {
        tags = write_tags s.tags object (set_bit (toggle_mark tags) tag_finalized);
        finalize = s.finalize ++ object ∷ [];
      })
    else free_object object s

-- The loop of `gcSweep`, on fuel.
unfoldable pub sweep_loop : ℕ → (ℕ → Bool) → PageSpaceIterator → Space → Run Space
sweep_loop zero has_finalizer it s = elim (page_space_iterator_next s.sizes it) [
  | none ↦ ok s
  | some _ ↦ fault out_of_fuel
]
sweep_loop (suc n) has_finalizer it s = elim (page_space_iterator_next s.sizes it) [
  | none ↦ ok s
  | some (object, it') ↦ sweep_object has_finalizer object s >>= sweep_loop n has_finalizer it'
]

unfoldable pub gc_sweep : ℕ → (ℕ → Bool) → List (ℕ × ℕ) → Space → Run Space
gc_sweep n has_finalizer pages s = page_space_iterator_init pages >>= λ it.
    sweep_loop n has_finalizer it (record s { finalize = [] })
