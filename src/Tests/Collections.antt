-- ===== src/Tests/Collections.antt =====
-- Ordered collections (vm/Collection.c), handles (vm/Handle.c) and selectors (vm/String.c) on small
-- inputs; nil is 81.
use yet_another_smalltalk_vm.Base.{
  ℕ, zero, suc, ◌^◌, ◌<◌, ◌≡◌, ◌⊎◌, refl, none, some, List, [], ◌∷◌, ◌++◌, length, get_elem?,
  get_or, not, ◌==◌, leb, if◌then◌else◌, arith,
}
use yet_another_smalltalk_vm.Base.Counts.{count, one_if}
use yet_another_smalltalk_vm.Base.Result.{ok, fault, out_of_bounds, ◌>>=◌}
use yet_another_smalltalk_vm.Collection.{
  OrderedCollection, Strings, compare_values, ord_coll_add, ord_coll_remove_last, array_as_ord_coll,
  ord_coll_as_array, ord_coll_add_object_if_not_exists, ord_coll_size, copy_vars, grow_contents,
}
use yet_another_smalltalk_vm.Collection.Elements.{
  elements, IsPacked, IsInit, ord_coll_add-elements, ord_coll_remove_last-IsInit,
  array_as_ord_coll-as_array,
}
use yet_another_smalltalk_vm.Collection.Search.{
  IsFirst, IsAdded, ord_coll_add_object_if_not_exists-cases,
}
use yet_another_smalltalk_vm.Handles.{
  Handle, Thread, free_handle, iterate_handles, open_handle_scope, close_handle_scope,
}
use yet_another_smalltalk_vm.Handles.Chain.{IsChain, end, link, free_handle-older}
use yet_another_smalltalk_vm.Handles.Scopes.{scope_handles, close_handle_scope-returned}
use yet_another_smalltalk_vm.Selector.{colon, is_letter, compute_arguments, compute_arguments-count}

abbrev coll : OrderedCollection
coll = record { contents = 17 ∷ 33 ∷ []; first_index = 1; last_index = 2 }

coll-IsPacked : IsPacked coll
coll-IsPacked = record { first = refl; within = omega arith }

ord_coll_add-elements_example :
    (c' : OrderedCollection) × (ord_coll_add 81 49 coll ≡ ok c')
    × IsPacked c'
    × (elements c' ≡ elements coll ++ 49 ∷ [])
ord_coll_add-elements_example = ord_coll_add-elements 81 49 coll coll-IsPacked

-- The full array is copied to one with eight more variables.
grown :
    ord_coll_add 81 49 coll
    ≡ ok (record {
      contents = 17 ∷ 33 ∷ 49 ∷ 81 ∷ 81 ∷ 81 ∷ 81 ∷ 81 ∷ 81 ∷ 81 ∷ [];
      first_index = 1;
      last_index = 3;
    })
unfolding ord_coll_add ord_coll_size copy_vars grow_contents
grown = refl

-- Where the elements do not start at the first variable, the write can be past the array.
shifted :
    ord_coll_add 81 49 (record { contents = 17 ∷ 33 ∷ []; first_index = 2; last_index = 2 })
    ≡ fault out_of_bounds
unfolding ord_coll_add ord_coll_size copy_vars grow_contents
shifted = refl

ord_coll_remove_last-IsInit_example :
    ((elements coll ≡ []) × (ord_coll_remove_last 81 coll ≡ fault out_of_bounds))
    ⊎ ((c' : OrderedCollection) × (ord_coll_remove_last 81 coll ≡ ok c') × IsInit coll c')
ord_coll_remove_last-IsInit_example = ord_coll_remove_last-IsInit 81 coll coll-IsPacked

abbrev values : List ℕ
values = 17 ∷ 12 ∷ []

values_fit : (i v : ℕ) → get_elem? values i ≡ some v → v < 2 ^ 64
values_fit zero v e = let same : 17 ≡ v = cc e in omega (arith, same)
values_fit (suc zero) v e = let same : 12 ≡ v = cc e in omega (arith, same)
values_fit (suc (suc i)) v e = absurd (cc e)

array_as_ord_coll-as_array_example :
    (c : OrderedCollection) × (array_as_ord_coll 81 values ≡ ok c)
    × IsPacked c
    × (elements c ≡ values)
    × (ord_coll_as_array 81 c ≡ ok values)
array_as_ord_coll-as_array_example = array_as_ord_coll-as_array 81 values values_fit

-- The object at 48 is a string like that at 32.
abbrev strings : Strings
strings a = if leb a 31 then none else some (104 ∷ 105 ∷ [])

ord_coll_add_object_if_not_exists-cases_example :
    ((i : ℕ) × (ord_coll_add_object_if_not_exists strings 81 48 coll ≡ ok (i, coll))
      × IsFirst (compare_values strings 48) (elements coll) i)
    ⊎ ((c' : OrderedCollection) × (ord_coll_add_object_if_not_exists strings 81 48 coll
          ≡ ok (length (elements coll), c'))
        × IsAdded strings 48 coll c')
ord_coll_add_object_if_not_exists-cases_example =
    ord_coll_add_object_if_not_exists-cases strings 81 48 coll coll-IsPacked

abbrev handle_16 : Handle
handle_16 = record { object = 160; prev = none; next = none }

abbrev handle_32 : Handle
handle_32 = record { object = 320; prev = none; next = some 16 }

abbrev thread : Thread
thread = record {
  memory = λ a. if leb a 16 then some handle_16 else some handle_32;
  handles = some 32;
  handle_scopes = [];
  context = 0;
}

two-IsChain : IsChain thread.memory (some 32) ((32, 320) ∷ (16, 160) ∷ [])
two-IsChain = link refl (omega arith) (link refl (omega arith) end)

-- Freeing the older of two handles empties the list.
free_handle-older_example :
    (t' : Thread) × (free_handle 16 thread ≡ ok t')
    × IsChain t'.memory t'.handles []
    × (iterate_handles 0 t'.memory t'.handles ≡ ok [])
free_handle-older_example = free_handle-older thread ((32, 320) ∷ []) 16 160 [] two-IsChain

close_handle_scope-returned_example :
    (scope_handles (160 ∷ 320 ∷ []) (open_handle_scope 4096 thread)
      >>= close_handle_scope 4096 none)
    ≡ ok thread
close_handle_scope-returned_example = close_handle_scope-returned thread 4096 (160 ∷ 320 ∷ []) none

-- at:put:
abbrev put_bytes : List ℕ
put_bytes = 116 ∷ 58 ∷ 112 ∷ 117 ∷ 116 ∷ 58 ∷ []

compute_arguments-count_example :
    compute_arguments 0 (97 ∷ put_bytes)
    ≡ ok (
        if get_or (97 ∷ put_bytes) (length put_bytes) 0 == colon
        then count colon (97 ∷ put_bytes)
        else one_if (not (is_letter 97)))
compute_arguments-count_example = compute_arguments-count 0 97 put_bytes refl refl

-- The binary selector ~= is taken to have no argument.
not_equal_arguments : compute_arguments 0 (126 ∷ 61 ∷ []) ≡ ok 0
unfolding compute_arguments
not_equal_arguments = refl
