-- ===== src/Collection.antt =====
-- vm/Collection.c and vm/Iterator.c: arrays, ordered collections and the iterators over both. An
-- array is the list of its `vars`; the two indices of a collection are untagged. Allocation is
-- assumed to succeed, and `nil` is the tagged pointer that a new array is filled with. The store
-- barrier of `objectStorePtr` is in Barrier.
pub mod Elements
pub mod Search
use yet_another_smalltalk_vm.Base.{
  ℕ, zero, suc, ◌+◌, ◌-◌, ◌^◌, Bool, true, false, ◌&&◌, ◌||◌, Option, none, some, List, [], ◌∷◌,
  ◌++◌, ◌==◌, ltb, leb, if◌then◌else◌, length, get_elem?, set, take, replicate,
}
use yet_another_smalltalk_vm.Base.Result.{Run, ok, fault, out_of_bounds, out_of_fuel, ◌>>=◌, ◌>>◌}
use yet_another_smalltalk_vm.Object.{tag_ptr, value_type_of, value_pointer, as_object}

pub record OrderedCollection : Type 0 where
  pub contents : List ℕ
  pub first_index : ℕ
  pub last_index : ℕ

-- `memcpy` of `size` values from one array to the start of another
unfoldable pub copy_vars : List ℕ → List ℕ → ℕ → Run (List ℕ)
copy_vars to from zero = ok to
copy_vars [] from (suc size) = fault out_of_bounds
copy_vars (t ∷ to) [] (suc size) = fault out_of_bounds
copy_vars (t ∷ to) (f ∷ from) (suc size) = copy_vars to from size >>= λ rest. ok (f ∷ rest)

abbrev pub read_var : List ℕ → ℕ → Run ℕ
read_var vars i = elim (get_elem? vars i) [ none ↦ fault out_of_bounds | some value ↦ ok value ]

abbrev pub write_var : List ℕ → ℕ → ℕ → Run (List ℕ)
write_var vars i value = if ltb i (length vars) then ok (set vars i value) else fault out_of_bounds

abbrev pub new_array : ℕ → ℕ → List ℕ
new_array nil size = replicate size nil

unfoldable pub new_ord_coll : ℕ → ℕ → OrderedCollection
new_ord_coll nil size = record { contents = new_array nil size; first_index = 1; last_index = 0 }

-- The difference is a `size_t`.
unfoldable pub ord_coll_size : OrderedCollection → ℕ
ord_coll_size c =
    if leb c.first_index (c.last_index + 1)
    then c.last_index + 1 - c.first_index
    else 2 ^ 64 + c.last_index + 1 - c.first_index

-- The loop of `arrayAsOrdColl` copies every value; an object goes through `asObject` and `tagPtr`.
unfoldable pub store_values : List ℕ → List ℕ → Run (List ℕ)
store_values contents [] = ok contents
store_values [] (v ∷ vars) = fault out_of_bounds
store_values (c ∷ contents) (v ∷ vars) = do
  stored ←
      (if value_type_of v value_pointer
        then (as_object v >>= λ object. ok (tag_ptr object))
        else ok v)
  rest ← store_values contents vars
  ok (stored ∷ rest)

unfoldable pub array_as_ord_coll : ℕ → List ℕ → Run OrderedCollection
array_as_ord_coll nil vars =
    let c = new_ord_coll nil (length vars) in
    store_values c.contents vars >>= λ contents.
    ok (record c { contents = contents; last_index = c.last_index + length vars })

-- The block of `ordCollAdd` that makes room.
unfoldable pub grow_contents : ℕ → OrderedCollection → Run (List ℕ)
grow_contents nil c =
    if ord_coll_size c == length c.contents
    then copy_vars (new_array nil (ord_coll_size c + 8)) c.contents (ord_coll_size c)
    else ok c.contents

-- `ordCollAdd`, and `ordCollAddObject` with the tagged pointer to the object.
unfoldable pub ord_coll_add : ℕ → ℕ → OrderedCollection → Run OrderedCollection
ord_coll_add nil value c = do
  contents ← grow_contents nil c
  written ← write_var contents c.last_index value
  ok (record c { contents = written; last_index = suc c.last_index })

unfoldable pub ord_coll_remove_last : ℕ → OrderedCollection → Run OrderedCollection
ord_coll_remove_last nil c = elim c.last_index [
  | zero ↦ fault out_of_bounds
  | suc index ↦ write_var c.contents index nil >>= λ contents.
      ok (record c { contents = contents; last_index = index })
]

unfoldable pub ord_coll_at : OrderedCollection → ℕ → Run ℕ
ord_coll_at c index = elim (c.first_index + index) [
  | zero ↦ fault out_of_bounds
  | suc i ↦ read_var c.contents i
]

unfoldable pub ord_coll_as_array : ℕ → OrderedCollection → Run (List ℕ)
ord_coll_as_array nil c = copy_vars (new_array nil (ord_coll_size c)) c.contents (ord_coll_size c)

-- The pointers are given by the indices in `vars`.
pub record Iterator : Type 0 where
  pub vars : List ℕ
  pub start : ℕ
  pub end : ℕ
  pub current : ℕ

-- Every caller passes 0 for `from` and `to`.
unfoldable pub init_array_iterator : List ℕ → Iterator
init_array_iterator vars = record { vars = vars; start = 0; end = length vars; current = 0 }

unfoldable pub init_ord_coll_iterator : OrderedCollection → Iterator
init_ord_coll_iterator c =
    let start = c.first_index - 1 in
    record { vars = c.contents; start = start; end = start + ord_coll_size c; current = start }

unfoldable pub iterator_index : Iterator → ℕ
iterator_index it = it.current - it.start

unfoldable pub iterator_has_next : Iterator → Bool
iterator_has_next it = ltb it.current it.end

unfoldable pub iterator_next : Iterator → Run (ℕ × Iterator)
iterator_next it =
    read_var it.vars it.current >>= λ value. ok (value, record it { current = suc it.current })

abbrev pub bytes_eq : List ℕ → List ℕ → Bool
bytes_eq [] [] = true
bytes_eq (x ∷ xs) (y ∷ ys) = x == y && bytes_eq xs ys
bytes_eq _ _ = false

-- `strings` gives the bytes of an object of class String.
abbrev pub Strings : Type 0
Strings = ℕ → Option (List ℕ)

-- `stringEquals` of vm/String.c
unfoldable pub string_equals : List ℕ → List ℕ → Bool
string_equals a b = length a == length b && bytes_eq a b

-- the bytes of a value of class String
abbrev pub string_of_value : Strings → ℕ → Option (List ℕ)
string_of_value strings value =
    if value_type_of value value_pointer then strings (value - 1) else none

unfoldable pub compare_values : Strings → ℕ → ℕ → Bool
compare_values strings object value = tag_ptr object == value || elim (strings object) [
  | none ↦ false
  | some a ↦ elim (string_of_value strings value) [ none ↦ false | some b ↦ string_equals a b ]
]

-- The loop of `ordCollAddObjectIfNotExists`, on fuel.
unfoldable pub search_values : ℕ → (ℕ → Bool) → Iterator → Run (Option ℕ)
search_values zero same it = if iterator_has_next it then fault out_of_fuel else ok none
search_values (suc n) same it =
    let rest = λ (next : Iterator). search_values n same next in
    if iterator_has_next it
    then (do
      (value, next) ← iterator_next it
      if same value then ok (some (iterator_index next - 1)) else rest next)
    else ok none

unfoldable pub ord_coll_add_object_if_not_exists :
    Strings → ℕ → ℕ → OrderedCollection → Run (ℕ × OrderedCollection)
ord_coll_add_object_if_not_exists strings nil object c = do
  found ← search_values (ord_coll_size c) (compare_values strings object) (init_ord_coll_iterator c)
  elim found [
    | some i ↦ ok (i, c)
    | none ↦ (do c' ← ord_coll_add nil (tag_ptr object) c; ok (ord_coll_size c' - 1, c'))
  ]
