-- ===== src/Tests/Heap.antt =====
-- The allocator (vm/FreeList.c, vm/HeapPage.c, vm/Heap.c) on a page at address 4096.
use yet_another_smalltalk_vm.Base.{ℕ, ◌≡◌, ◌⊎◌, refl, false, Option, some, arith}
use yet_another_smalltalk_vm.Base.Result.{ok, fault, assertion}
use yet_another_smalltalk_vm.FreeList.{FreeList, try_allocate, free_map_next}
use yet_another_smalltalk_vm.FreeList.Accounting.{covers, free_at}
use yet_another_smalltalk_vm.FreeList.Allocate.{
  IsRequest, IsShadowed, Outcome, try_allocate-Outcome,
}
use yet_another_smalltalk_vm.FreeList.Scan.{Finds, free_map_next-Finds}
use yet_another_smalltalk_vm.PageSpace.{
  PageSpace, init_page_space, space_try_allocate, page_space_allocate, default_size,
}
use yet_another_smalltalk_vm.PageSpace.Grow.{
  IsValid, SpaceOutcome, space_try_allocate-Outcome, Succeeds, page_space_allocate-Taken,
}
use yet_another_smalltalk_vm.PageSpace.Init.{init_page_space-IsValid}

abbrev NewSpace : Type 0
NewSpace =
    (space : PageSpace) × (init_page_space 0 (some 4096) default_size false ≡ ok space)
    × IsValid space
    × ((a : ℕ) → free_at a space.free_list ≡ covers a 4144 262096)

init_page_space-IsValid_example : NewSpace
init_page_space-IsValid_example = init_page_space-IsValid 4096 false refl

abbrev new_space : NewSpace
new_space = init_page_space-IsValid 4096 false refl

abbrev space : PageSpace
space = new_space.0

abbrev list : FreeList
list = space.free_list

request : IsRequest 48
request = record { multiple = refl; least = omega arith }

try_allocate-Outcome_example : Outcome list 48 (try_allocate list 48)
try_allocate-Outcome_example = try_allocate-Outcome list new_space.2.list 48 request

space_try_allocate-Outcome_example : SpaceOutcome space 48 (space_try_allocate space 48)
space_try_allocate-Outcome_example = space_try_allocate-Outcome space new_space.2 48 request

free_map_next-Finds_example : (o : Option ℕ) × (free_map_next list 3 ≡ ok o) × Finds list 3 o
free_map_next-Finds_example = free_map_next-Finds new_space.2.list.map 3 (omega arith)

page_space_allocate-Taken_example :
    ((page_space_allocate space (some 266240) 48 ≡ fault assertion) × IsShadowed list 48)
    ⊎ Succeeds space new_space.2 266240 refl 48 request
        (omega arith)
        (page_space_allocate space (some 266240) 48)
page_space_allocate-Taken_example =
    page_space_allocate-Taken space new_space.2 266240 refl 48 request (omega arith)
