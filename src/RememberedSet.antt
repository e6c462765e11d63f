-- ===== src/RememberedSet.antt =====
-- vm/RememberedSet.h: the old objects that point to new ones, in a chain of blocks. A block is
-- the list of its objects, from `objects` to `current`; the chain of `prev` pointers is a list.
-- `malloc` is assumed to succeed, as the code asserts.
pub mod Members
use yet_another_smalltalk_vm.Base.{
  ℕ, zero, suc, ◌+◌, Bool, true, false, Option, none, some, List, [], ◌∷◌, ◌++◌, ◌==◌, ltb, not,
  if◌then◌else◌, length, get_elem?,
}
use yet_another_smalltalk_vm.Base.Bits.{has_bit, set_bit}
use yet_another_smalltalk_vm.Base.Result.{
  Run, ok, fault, assertion, out_of_bounds, null_pointer, ◌>>=◌, ◌>>◌, check,
}

abbrev pub remembered_set_block_size : ℕ
remembered_set_block_size = 1024

-- the newest block, and those before it
pub record RememberedSet : Type 0 where
  pub block : List ℕ
  pub prev : List (List ℕ)

-- the tags of the objects, by address
abbrev pub Tags : Type 0
Tags = ℕ → ℕ

-- TAG_REMEMBERED is 1 << 5
abbrev pub tag_remembered : ℕ
tag_remembered = 5

unfoldable pub init_remembered_set : RememberedSet
init_remembered_set = record { block = []; prev = [] }

unfoldable pub remembered_set_grow : RememberedSet → RememberedSet
remembered_set_grow r = record { block = []; prev = r.block ∷ r.prev }

unfoldable pub tag_object : ℕ → Tags → Tags
tag_object object tags a = if object == a then set_bit (tags a) tag_remembered else tags a

unfoldable pub remembered_set_add : ℕ → RememberedSet × Tags → Run (RememberedSet × Tags)
remembered_set_add object (r, tags) =
    let r' = record r { block = r.block ++ object ∷ [] } in
    check (ltb (length r.block) remembered_set_block_size)
    >> (check (not (has_bit (tags object) tag_remembered))
        >> ok (
          if length r'.block == remembered_set_block_size then remembered_set_grow r' else r',
          tag_object object tags,
        ))

-- The newest block stays, emptied; the others are freed.
unfoldable pub remembered_set_reset : RememberedSet → RememberedSet
remembered_set_reset r = record { block = []; prev = [] }

-- `next` is the index of the next object in `block`; `hasPrevBlock` says that `prev` is not empty.
pub record RememberedSetIterator : Type 0 where
  pub block : List ℕ
  pub prev : List (List ℕ)
  pub next : Option ℕ

unfoldable pub iterator_set_block : List ℕ → List (List ℕ) → RememberedSetIterator
iterator_set_block block prev = record {
  block = block;
  prev = prev;
  next = if ltb 0 (length block) then some 0 else none;
}

abbrev pub skip_empty : Option ℕ → List (List ℕ) → RememberedSetIterator → RememberedSetIterator
skip_empty (some i) prev it = it
skip_empty none [] it = it
skip_empty none (p ∷ ps) it = iterator_set_block p ps

unfoldable pub init_remembered_set_iterator : RememberedSet → RememberedSetIterator
init_remembered_set_iterator r =
    let it = iterator_set_block r.block r.prev in skip_empty it.next r.prev it

abbrev pub next_block : List (List ℕ) → RememberedSetIterator → RememberedSetIterator
next_block [] it = record it { next = none }
next_block (p ∷ ps) it = iterator_set_block p ps

unfoldable pub remembered_set_iterator_next :
    RememberedSetIterator → Run (ℕ × RememberedSetIterator)
remembered_set_iterator_next it = elim it.next [
  | none ↦ fault assertion
  | some i ↦ elim (get_elem? it.block i) [
    | none ↦ fault out_of_bounds
    | some object ↦ ok (
      object,
      if ltb (i + 1) (length it.block)
          then record it { next = some (i + 1) }
          else next_block it.prev it,
    )
  ]
]

unfoldable pub remembered_set_iterator_has_next : RememberedSetIterator → Bool
remembered_set_iterator_has_next it = elim it.next [ none ↦ false | some i ↦ true ]

-- The loop of `iterateRememberedSet` (vm/Scavenger.c), collecting the objects, on fuel.
unfoldable pub iterate_remembered_set : ℕ → RememberedSetIterator → Option (Run (List ℕ))
iterate_remembered_set zero it = none
iterate_remembered_set (suc f) it =
    if remembered_set_iterator_has_next it
    then (elim (remembered_set_iterator_next it) [
      | fault e ↦ some (fault e)
      | ok (object, it') ↦ elim (iterate_remembered_set f it') [
        | none ↦ none
        | some (fault e) ↦ some (fault e)
        | some (ok objects) ↦ some (ok (object ∷ objects))
      ]
    ])
    else some (ok [])
