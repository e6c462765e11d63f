-- ===== src/FreeList.antt =====
-- vm/FreeList.c and `align` of vm/HeapPage.h: the size-segregated free list of a page space. A
-- chain through `next` is the list of its spaces; `past` is the byte behind `freeMap`, which
-- `freeMapNext` reads when no bit is set (see FreeList/Scan).
pub mod Bitmap
pub mod Scan
pub mod Accounting
pub mod Valid
pub mod Bucket
pub mod Allocate
use Prim.Native.Nat.{bit_and}
use yet_another_smalltalk_vm.Base.{
  ℕ, zero, suc, ◌+◌, ◌-◌, ◌*◌, ◌/◌, ◌%◌, ◌^◌, Bool, true, false, not, ◌&&◌, ◌||◌, Option, none,
  some, List, [], ◌∷◌, ◌++◌, ◌==◌, ltb, leb, if◌then◌else◌, get_elem?, get_or, set, replicate,
}
use yet_another_smalltalk_vm.Base.Bits.{has_bit, set_bit, clear_bit}
use yet_another_smalltalk_vm.Base.Result.{
  Run, ok, fault, out_of_bounds, null_pointer, ◌>>=◌, ◌>>◌, check,
}

abbrev pub free_list_size : ℕ
free_list_size = 128

abbrev pub free_map_size : ℕ
free_map_size = 17

abbrev pub heap_object_align : ℕ
heap_object_align = 16

-- `(v + (align - 1)) & -align`; `align` is a power of two at every call.
unfoldable pub align : ℕ → ℕ → ℕ
align v a = (v + (a - 1)) / a * a

-- `addr` is the address of the header; the bit field `size` has 56 bits.
pub record FreeSpace : Type 0 where
  pub addr : ℕ
  pub size : ℕ

pub record FreeList : Type 0 where
  pub free_spaces : List (List FreeSpace)
  pub free_map : List ℕ
  pub past : ℕ

unfoldable pub create_free_space : ℕ → ℕ → Run FreeSpace
create_free_space p size = do
  check (p % heap_object_align == 0)
  check (size % heap_object_align == 0)
  check (leb heap_object_align size)
  ok (record { addr = p; size = size % 2 ^ 56 })

-- A page is its body's address and size.
unfoldable pub create_initial_free_space : ℕ → ℕ → Run FreeSpace
create_initial_free_space body body_size =
    create_free_space (align body heap_object_align)
      (align (body_size - heap_object_align / 2) heap_object_align)

unfoldable pub init_free_list : ℕ → ℕ → ℕ → Run FreeList
init_free_list past body body_size = do
  s ← create_initial_free_space body body_size
  ok (record {
    free_spaces = replicate free_list_size [] ++ (s ∷ []) ∷ [];
    free_map = replicate free_map_size 0;
    past = past;
  })

unfoldable pub index_for_size : ℕ → ℕ
index_for_size size =
    let index = size / heap_object_align in
    if ltb free_list_size index then free_list_size else index

-- the bucket with the given index, and its bit
abbrev pub bucket : FreeList → ℕ → List FreeSpace
bucket fl i = get_or fl.free_spaces i []

abbrev pub map_byte : FreeList → ℕ → ℕ
map_byte fl i = get_or fl.free_map i fl.past

abbrev pub is_marked : FreeList → ℕ → Bool
is_marked fl i = has_bit (map_byte fl (i / 8)) (i % 8)

unfoldable pub add_free_space : FreeList → FreeSpace → FreeList
unfolding index_for_size
add_free_space fl s =
    let index = index_for_size s.size in
    record fl {
      free_spaces = set fl.free_spaces index (s ∷ bucket fl index);
      free_map = set fl.free_map (index / 8) (set_bit (map_byte fl (index / 8)) (index % 8));
    }

unfoldable pub expand_free_list : FreeList → ℕ → ℕ → Run FreeList
expand_free_list fl body body_size = do
  s ← create_initial_free_space body body_size
  ok (add_free_space fl s)

abbrev pub is_nil : List FreeSpace → Bool
is_nil [] = true
is_nil (s ∷ r) = false

-- the three assignments of `popFreeSpace`, once the head is known to be there
abbrev pub unlink : FreeList → ℕ → List FreeSpace → FreeList
unlink fl index next = record fl {
  free_spaces = set fl.free_spaces index next;
  free_map =
      if is_nil next
      then set fl.free_map (index / 8) (clear_bit (map_byte fl (index / 8)) (index % 8))
      else fl.free_map;
}

abbrev pub pop_head : FreeList → ℕ → List FreeSpace → Run (FreeSpace × FreeList)
pop_head fl index [] = fault null_pointer
pop_head fl index (s ∷ next) = ok (s, unlink fl index next)

unfoldable pub pop_free_space : FreeList → ℕ → Run (FreeSpace × FreeList)
pop_free_space fl index = elim (get_elem? fl.free_spaces index) [
  | none ↦ fault out_of_bounds
  | some b ↦ pop_head fl index b
]

unfoldable pub split_free_space : FreeList → FreeSpace → ℕ → Run (ℕ × FreeList)
split_free_space fl s size = do
  check (ltb size s.size)
  rest ← create_free_space (s.addr + size) (s.size - size)
  ok (s.addr, add_free_space fl rest)

unfoldable pub pop_and_split_free_space : FreeList → ℕ → ℕ → Run (ℕ × FreeList)
pop_and_split_free_space fl index size = do
  (s, fl') ← pop_free_space fl index
  split_free_space fl' s size

-- `__builtin_ctz` of a byte other than 0
count_zeros : ℕ → ℕ → ℕ → ℕ
count_zeros zero k v = k
count_zeros (suc n) k v = let rest = count_zeros n (k + 1) v in if has_bit v k then k else rest

unfoldable pub ctz : ℕ → ℕ
unfolding count_zeros
ctz v = count_zeros 8 0 v

-- the do loop, with `n = FREE_MAP_SIZE - element` rounds left
unfoldable pub scan_map : FreeList → ℕ → ℕ → Option ℕ
scan_map fl zero element = none
scan_map fl (suc n) element =
    let next = element + 1 in
    let v = map_byte fl next in
    let rest = scan_map fl n next in
    let index = next * 8 + ctz v in
    if v == 0 then rest else if index == free_list_size then none else some index

-- `~((1 << index) - 1)` cut to a byte. The processor takes the count of the 32 bit shift modulo 32.
unfoldable pub mask_from : ℕ → ℕ
mask_from index = 255 - (2 ^ (index % 32) - 1) % 256

unfoldable pub free_map_next : FreeList → ℕ → Run (Option ℕ)
free_map_next fl index =
    let element = index / 8 in
    let v = bit_and (map_byte fl element) (mask_from index) in
    let found_here = element * 8 + ctz v in
    check (ltb index free_list_size)
    >> (if v == 0
        then ok (scan_map fl (free_map_size - element) element)
        else (check (ltb found_here free_list_size) >> ok (some found_here)))

unfoldable pub has_fit : ℕ → List FreeSpace → Bool
has_fit size [] = false
has_fit size (s ∷ r) = leb size s.size || has_fit size r

abbrev pub found : Run (ℕ × FreeList) → Run (Option ℕ × FreeList)
found r = r >>= λ (p, fl). ok (some p, fl)

-- the loop over the last bucket at the end of `freeListTryAllocate`
unfoldable pub allocate_large : FreeList → ℕ → Run (Option ℕ × FreeList)
allocate_large fl size =
    if has_fit size (bucket fl free_list_size)
    then found (pop_and_split_free_space fl free_list_size size)
    else ok (none, fl)

abbrev pub next_larger : FreeList → ℕ → Run (Option ℕ)
next_larger fl index =
    if ltb (index + 1) free_list_size then free_map_next fl (index + 1) else ok none

unfoldable pub allocate_larger : FreeList → ℕ → ℕ → Run (Option ℕ × FreeList)
allocate_larger fl index size = do
  larger ← next_larger fl index
  elim larger [
    | some j ↦ check (ltb index j) >> found (pop_and_split_free_space fl j size)
    | none ↦ allocate_large fl size
  ]

-- `none` is NULL.
unfoldable pub try_allocate : FreeList → ℕ → Run (Option ℕ × FreeList)
try_allocate fl size =
    let index = index_for_size size in
    if not (index == free_list_size) && is_marked fl index
    then (pop_free_space fl index >>= λ (s, fl'). ok (some s.addr, fl'))
    else allocate_larger fl index size
