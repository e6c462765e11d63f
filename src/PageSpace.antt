-- ===== src/PageSpace.antt =====
-- vm/HeapPage.c and `pageSpaceAllocate`, `tryAllocateOld` of vm/Heap.c: pages obtained from the
-- system, and a free list over them. The address that `mmap` returns is an argument; the header of
-- a page takes 40 bytes, and the page size is 4096.
pub mod Grow
pub mod Init
use yet_another_smalltalk_vm.Base.{
  ℕ, ◌+◌, ◌-◌, ◌*◌, ◌%◌, Bool, true, false, ◌&&◌, ◌||◌, Option, none, some, List, [], ◌∷◌, ◌++◌,
  ◌==◌, ltb, leb, if◌then◌else◌,
}
use yet_another_smalltalk_vm.Base.Result.{Run, ok, fault, fatal, null_pointer, ◌>>=◌, ◌>>◌, check}
use yet_another_smalltalk_vm.FreeList.{
  FreeList, align, init_free_list, expand_free_list, try_allocate, heap_object_align,
}

abbrev pub page_size : ℕ
page_size = 4096

abbrev pub header_size : ℕ
header_size = 40

abbrev pub default_size : ℕ
default_size = 256 * 1024

-- `start` is the address of the page itself; `next` is the list of pages.
pub record HeapPage : Type 0 where
  pub start : ℕ
  pub is_executable : Bool
  pub size : ℕ
  pub body_size : ℕ
  pub body : ℕ

-- `pagesTail` is the last of `pages`.
pub record PageSpace : Type 0 where
  pub pages : List HeapPage
  pub free_list : FreeList

-- `none` is MAP_FAILED.
unfoldable pub map_heap_page : Option ℕ → ℕ → Bool → Run HeapPage
map_heap_page none size executable = fault fatal
map_heap_page (some start) size executable =
    let aligned_size = align size page_size in
    let body_size = aligned_size - header_size in
    ok (record {
      start = start;
      is_executable = executable;
      size = aligned_size;
      body_size = body_size - body_size % heap_object_align;
      body = start + header_size;
    })

unfoldable pub init_page_space : ℕ → Option ℕ → ℕ → Bool → Run PageSpace
init_page_space past mapped size executable = do
  page ← map_heap_page mapped size executable
  fl ← init_free_list past page.body page.body_size
  ok (record { pages = page ∷ []; free_list = fl })

unfoldable pub heap_page_includes : HeapPage → ℕ → Bool
heap_page_includes page addr = leb page.body addr && ltb addr (page.body + page.body_size)

unfoldable pub find_page : List HeapPage → ℕ → Option HeapPage
find_page [] addr = none
find_page (page ∷ rest) addr =
    if leb page.body addr && ltb addr (page.body + page.body_size)
    then some page
    else find_page rest addr

unfoldable pub includes : List HeapPage → ℕ → Bool
includes [] addr = false
includes (page ∷ rest) addr =
    if leb page.body addr && ltb addr (page.body + page.body_size) then true else includes rest addr

abbrev pub null_or_included : List HeapPage → Option ℕ → Bool
null_or_included pages none = true
null_or_included pages (some p) = includes pages p

-- `pageSpaceTryAllocate`
unfoldable pub space_try_allocate : PageSpace → ℕ → Run (Option ℕ × PageSpace)
space_try_allocate space size = do
  check (size % heap_object_align == 0)
  (p, fl) ← try_allocate space.free_list size
  check (null_or_included space.pages p)
  ok (p, record space { free_list = fl })

-- `pagesTail->isExecutable`
unfoldable pub tail_executable : List HeapPage → Run Bool
tail_executable [] = fault null_pointer
tail_executable (page ∷ []) = ok page.is_executable
tail_executable (page ∷ next ∷ rest) = tail_executable (next ∷ rest)

abbrev pub not_null : Option ℕ × PageSpace → Run (ℕ × PageSpace)
not_null (none, space) = check false >> fault null_pointer
not_null (some p, space) = ok (p, space)

-- the new page and the second try
unfoldable pub grow : PageSpace → Option ℕ → ℕ → Run (ℕ × PageSpace)
grow space mapped size = do
  executable ← tail_executable space.pages
  page ← map_heap_page mapped default_size executable
  fl ← expand_free_list space.free_list page.body page.body_size
  r ← space_try_allocate (record { pages = space.pages ++ page ∷ []; free_list = fl }) size
  not_null r

-- `pageSpaceAllocate`; the second argument is what `mmap` returns if it is called.
unfoldable pub page_space_allocate : PageSpace → Option ℕ → ℕ → Run (ℕ × PageSpace)
page_space_allocate space mapped size = do
  (p, space') ← space_try_allocate space size
  elim p [ none ↦ grow space' mapped size | some q ↦ ok (q, space') ]

-- `tryAllocateOld`, but for its last assertion, which is about the tag bit of the address
unfoldable pub try_allocate_old : PageSpace → Option ℕ → ℕ → Bool → Run (Option ℕ × PageSpace)
try_allocate_old space mapped size may_grow = do
  (p, space') ← space_try_allocate space (align size heap_object_align)
  elim p [
    | some q ↦ ok (some q, space')
    | none ↦
        if may_grow
        then (page_space_allocate space' mapped (align size heap_object_align) >>= λ (q, space'').
            ok (some q, space''))
        else ok (none, space')
  ]
