-- ===== src/PageSpace/Init.antt =====
-- A new page space is valid.
use native.Mathlib.Decide.{dec_lt}
use yet_another_smalltalk_vm.Base.{
  ℕ, zero, suc, ◌+◌, ◌*◌, ◌/◌, ◌%◌, ◌<◌, ◌≡◌, refl, ◌∙◌, Bool, List, [], ◌∷◌, ◌++◌, some, replicate,
  get_or-replicate, get_or-append_left, arith,
}
use yet_another_smalltalk_vm.Base.Bits.{has_bit-zero}
use yet_another_smalltalk_vm.Base.Result.{ok}
use yet_another_smalltalk_vm.FreeList.{
  FreeSpace, FreeList, align, bucket, map_byte, create_free_space, create_initial_free_space,
  init_free_list,
}
use yet_another_smalltalk_vm.FreeList.Accounting.{covers, free_in_all, free_at}
use yet_another_smalltalk_vm.FreeList.Valid as Lists
use yet_another_smalltalk_vm.FreeList.Valid.{AllFit, IsMap}
use yet_another_smalltalk_vm.PageSpace.{
  PageSpace, map_heap_page, init_page_space, tail_executable, default_size,
}
use yet_another_smalltalk_vm.PageSpace.Grow.{
  IsValid, page_region, new_page, page_region-IsFit, page_region_inside,
}

abbrev single : FreeSpace → FreeList
single s = record {
  free_spaces = replicate 128 [] ++ (s ∷ []) ∷ [];
  free_map = replicate 17 0;
  past = 0;
}

byte_of_single : (s : FreeSpace) (e : ℕ) → map_byte (single s) e ≡ 0
byte_of_single s e = get_or-replicate 17 e 0

bucket_of_single : (s : FreeSpace) (i : ℕ) → i < 128 → bucket (single s) i ≡ []
bucket_of_single s i h =
    get_or-append_left (replicate 128 []) ((s ∷ []) ∷ []) i [] (omega arith)
    ∙ get_or-replicate 128 i []

single-IsValid : (s : FreeSpace) → Lists.IsFit 128 s → Lists.IsValid (single s)
single-IsValid s fit = record {
  buckets = refl;
  map = record {
    bytes = refl;
    small = λ e. rw (byte_of_single s e) (omega arith);
    top = omega arith;
    beyond = λ e h. byte_of_single s e;
  };
  marks = λ i h. rw (byte_of_single s (i / 8), bucket_of_single s i h) (has_bit-zero (i % 8));
  sized = λ i h. elim (dec_lt i 128) [
    | yes low ↦ rw (bucket_of_single s i low) tt
    | no high ↦ let e : i ≡ 128 = omega arith in rw e (fit, tt)
  ];
}

free_in_all-empty :
    (a n : ℕ) (bs : List (List FreeSpace)) → free_in_all a (replicate n [] ++ bs) ≡ free_in_all a bs
free_in_all-empty a zero bs = refl
free_in_all-empty a (suc n) bs = omega (arith, free_in_all-empty a n bs)

single-free_at : (s : FreeSpace) (a : ℕ) → free_at a (single s) ≡ covers a s.addr s.size
single-free_at s a = omega (arith, free_in_all-empty a 128 ((s ∷ []) ∷ []))

-- `initPageSpace` with the default size gives a valid space whose free bytes are those of the page
-- behind its header, if `mmap` gives a page and the byte behind the map is zero.
pub init_page_space-IsValid :
    (start : ℕ) (b : Bool)
    → start % 4096 ≡ 0
    → (space : PageSpace) × (init_page_space 0 (some start) default_size b ≡ ok space)
      × IsValid space
      × ((a : ℕ) → free_at a space.free_list ≡ covers a (start + 48) 262096)
unfolding init_page_space init_free_list create_initial_free_space create_free_space align
    map_heap_page
init_page_space-IsValid start b h =
    let e : (start + 40 + 15) / 16 * 16 ≡ start + 48 = omega arith in
    let m : (start + 48) % 16 ≡ 0 = omega arith in
    (
      record { pages = new_page start h b ∷ []; free_list = single (page_region start) },
      rw (e, m),
      record {
        list = single-IsValid (page_region start) (page_region-IsFit start h);
        covered = λ a m pos.
            page_region_inside start h a b m (omega (arith, single-free_at (page_region start) a));
        executable = (b, unfold tail_executable in refl);
      },
      single-free_at (page_region start),
    )
