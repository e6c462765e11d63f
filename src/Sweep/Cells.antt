-- ===== src/Sweep/Cells.antt =====
-- What gcSweep of vm/GarbageCollector.c does to one cell.
use yet_another_smalltalk_vm.Base.{
  ℕ, ◌+◌, ◌%◌, ◌^◌, ◌≤◌, ◌<◌, ◌≡◌, refl, sym, ap, ◌∙◌, Bool, true, false, not, ◌&&◌, ◌||◌, List, [],
  ◌∷◌, ◌++◌, ◌==◌, ==_iff, ltb, leb, if◌then◌else◌, length, append-nil, Bool-cases, inl, inr, arith,
}
use yet_another_smalltalk_vm.Base.Bits.{has_bit, set_bit}
use yet_another_smalltalk_vm.Base.Result.{ok}
use yet_another_smalltalk_vm.RememberedSet.{Tags}
use yet_another_smalltalk_vm.FreeList.{
  FreeList, align, heap_object_align, create_free_space, add_free_space,
}
use yet_another_smalltalk_vm.GarbageCollector.{tag_marked, write_tags}
use yet_another_smalltalk_vm.GarbageCollector.Graph.{elem}
use yet_another_smalltalk_vm.Sweep.{
  tag_freespace, tag_finalized, Space, write_size, toggle_mark, free_object, sweep_object,
}

-- A free space, or an object that is marked.
abbrev pub stays : Tags → ℕ → Bool
stays tags a = has_bit (tags a) tag_marked || has_bit (tags a) tag_freespace

-- An object to be finalized.
abbrev pub ends : (ℕ → Bool) → Tags → ℕ → Bool
ends has_finalizer tags a =
    not (stays tags a) && (not (has_bit (tags a) tag_finalized) && has_finalizer a)

-- The tags of a cell after the sweep.
abbrev pub swept_tags : (ℕ → Bool) → Tags → ℕ → ℕ
swept_tags has_finalizer tags a =
    if stays tags a
    then toggle_mark (tags a)
    else if ends has_finalizer tags a
    then set_bit (toggle_mark (tags a)) tag_finalized
    else 2 ^ tag_freespace

-- the size of the space that freeObject makes of a cell
abbrev pub freed_size : (ℕ → ℕ) → ℕ → ℕ
freed_size sizes a = align (sizes a) heap_object_align % 2 ^ 56

abbrev pub swept_size : (ℕ → Bool) → (ℕ → ℕ) → Tags → ℕ → ℕ
swept_size has_finalizer sizes tags a =
    if stays tags a || ends has_finalizer tags a then sizes a else freed_size sizes a

abbrev pub to_finalize : (ℕ → Bool) → Tags → List ℕ → List ℕ
to_finalize has_finalizer tags [] = []
to_finalize has_finalizer tags (a ∷ cells) =
    if ends has_finalizer tags a
    then a ∷ to_finalize has_finalizer tags cells
    else to_finalize has_finalizer tags cells

-- The free list with the cells that are freed, in the order of the walk.
abbrev pub free_cells : (ℕ → Bool) → (ℕ → ℕ) → Tags → List ℕ → FreeList → FreeList
free_cells has_finalizer sizes tags [] list = list
free_cells has_finalizer sizes tags (a ∷ cells) list = free_cells has_finalizer sizes tags cells (
    if stays tags a || ends has_finalizer tags a
    then list
    else add_free_space list (record { addr = a; size = freed_size sizes a }))

-- Cells as freeObject asks for them.
abbrev pub AreAligned : (ℕ → ℕ) → List ℕ → Type 0
AreAligned sizes cells = (a : ℕ) → elem a cells ≡ true → (a % heap_object_align ≡ 0) × (0 < sizes a)

-- What a sweep of the cells does to a space.
pub record IsSwept (has_finalizer : ℕ → Bool) (cells : List ℕ) (s s' : Space) : Type 0 where
  pub tags :
      (a : ℕ) → s'.tags a ≡ (if elem a cells then swept_tags has_finalizer s.tags a else s.tags a)
  pub sizes :
      (a : ℕ)
      → s'.sizes a ≡ (if elem a cells then swept_size has_finalizer s.sizes s.tags a else s.sizes a)
  pub free_list : s'.free_list ≡ free_cells has_finalizer s.sizes s.tags cells s.free_list
  pub finalize : s'.finalize ≡ s.finalize ++ to_finalize has_finalizer s.tags cells

aligned_size : (size : ℕ) → 0 < size → (align size 16 % 16 ≡ 0) × (16 ≤ align size 16)
unfolding align
aligned_size size lt = (omega arith, omega arith)

-- a write at the only cell of a list
write_one :
    (f g : ℕ → ℕ) (object v : ℕ)
    → v ≡ f object
    → (a : ℕ) → (if a == object then v else g a) ≡ (if elem a (object ∷ []) then f a else g a)
write_one f g object v e a = elim (Bool-cases (a == object)) [
  | inl h ↦ rw h (e ∙ ap f (sym ((==_iff a object).0 h)))
  | inr h ↦ rw h refl
]

keep_one :
    (f g : ℕ → ℕ) (object : ℕ)
    → g object ≡ f object
    → (a : ℕ) → g a ≡ (if elem a (object ∷ []) then f a else g a)
keep_one f g object e a = elim (Bool-cases (a == object)) [
  | inl h ↦ let q = (==_iff a object).0 h in rw h (ap g q ∙ e ∙ ap f (sym q))
  | inr h ↦ rw h refl
]

create_free_space-ok :
    (object size : ℕ)
    → object % heap_object_align ≡ 0
    → 0 < size
    → create_free_space object (align size heap_object_align)
      ≡ ok (record { addr = object; size = align size heap_object_align % 2 ^ 56 })
unfolding create_free_space
create_free_space-ok object size whole filled =
    let (multiple, least) = aligned_size size filled in
    let a : (object % 16 == 0) ≡ true = ground (arith, whole) in
    let b : (align size 16 % 16 == 0) ≡ true = ground (arith, multiple) in
    let c : leb 16 (align size 16) ≡ true = ground (arith, least) in
    rw (a, b, c, create_free_space) refl

module _ (has_finalizer : ℕ → Bool) (object : ℕ) (s : Space) where
  sweep-stays :
      stays s.tags object ≡ true
      → (s' : Space) × (sweep_object has_finalizer object s ≡ ok s')
        × IsSwept has_finalizer (object ∷ []) s s'
  unfolding sweep_object
  sweep-stays h = (
    record s { tags = write_tags s.tags object (toggle_mark (s.tags object)) },
    rw (h, sweep_object) refl,
    record {
      tags = write_one (swept_tags has_finalizer s.tags) s.tags object _ (rw h refl);
      sizes = keep_one (swept_size has_finalizer s.sizes s.tags) s.sizes object (rw h refl);
      free_list = rw h refl;
      finalize = rw h (sym (append-nil s.finalize));
    },
  )

  sweep-ends :
      stays s.tags object ≡ false
      → (not (has_bit (s.tags object) tag_finalized) && has_finalizer object) ≡ true
      → length s.finalize < 256
      → (s' : Space) × (sweep_object has_finalizer object s ≡ ok s')
        × IsSwept has_finalizer (object ∷ []) s s'
  unfolding sweep_object
  sweep-ends h f lt =
      let room : ltb (length s.finalize) 256 ≡ true = ground arith in
      (
        record s {
          tags = write_tags s.tags object (set_bit (toggle_mark (s.tags object)) tag_finalized);
          finalize = s.finalize ++ object ∷ [];
        },
        rw (h, f, room, sweep_object) refl,
        record {
          tags = write_one (swept_tags has_finalizer s.tags) s.tags object _ (rw (h, f) refl);
          sizes =
              keep_one (swept_size has_finalizer s.sizes s.tags) s.sizes object (rw (h, f) refl);
          free_list = rw (h, f) refl;
          finalize = rw (h, f) refl;
        },
      )

  sweep-frees :
      stays s.tags object ≡ false
      → (not (has_bit (s.tags object) tag_finalized) && has_finalizer object) ≡ false
      → object % heap_object_align ≡ 0
      → 0 < s.sizes object
      → (s' : Space) × (sweep_object has_finalizer object s ≡ ok s')
        × IsSwept has_finalizer (object ∷ []) s s'
  unfolding sweep_object free_object
  sweep-frees h f whole filled =
      let free = create_free_space-ok object (s.sizes object) whole filled in
      (
        record s {
          sizes = write_size s.sizes object (freed_size s.sizes object);
          tags = write_tags s.tags object (2 ^ tag_freespace);
          free_list =
              add_free_space s.free_list
                (record { addr = object; size = freed_size s.sizes object });
        },
        rw (h, f, free, sweep_object, free_object) refl,
        record {
          tags = write_one (swept_tags has_finalizer s.tags) s.tags object _ (rw (h, f) refl);
          sizes =
              write_one (swept_size has_finalizer s.sizes s.tags) s.sizes object _ (rw (h, f) refl);
          free_list = rw (h, f) refl;
          finalize = rw (h, f) (sym (append-nil s.finalize));
        },
      )

  pub sweep_object-IsSwept :
      object % heap_object_align ≡ 0
      → 0 < s.sizes object
      → length s.finalize + length (to_finalize has_finalizer s.tags (object ∷ [])) ≤ 256
      → (s' : Space) × (sweep_object has_finalizer object s ≡ ok s')
        × IsSwept has_finalizer (object ∷ []) s s'
  sweep_object-IsSwept whole filled room = elim (Bool-cases (stays s.tags object)) [
    | inl h ↦ sweep-stays h
    | inr h ↦
        elim (Bool-cases (not (has_bit (s.tags object) tag_finalized) && has_finalizer object)) [
          | inr f ↦ sweep-frees h f whole filled
          | inl f ↦ sweep-ends h f (omega (arith, (rw (h, f) at room)))
        ]
  ]
