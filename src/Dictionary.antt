-- ===== src/Dictionary.antt =====
-- vm/Dictionary.c: an open hash table with linear probing. `contents` is the array with nil or an
-- association in each slot. What the code reads of the keys, the class and the hash of an object
-- and the comparison of strings (vm/String.c), is an argument. An association is its key and value.
pub mod Probe
pub mod Write
pub mod View
pub mod Put
use Prim.Native.Nat.{bit_and}
use yet_another_smalltalk_vm.Base.{
  ℕ, zero, suc, ◌+◌, ◌-◌, ◌*◌, ◌^◌, Bool, true, false, Option, none, some, List, [], ◌∷◌, ◌==◌,
  if◌then◌else◌, length, get_elem?, set, replicate,
}
use yet_another_smalltalk_vm.Base.Result.{
  Run, ok, fault, assertion, out_of_bounds, out_of_fuel, fatal, ◌>>=◌,
}

pub record Association : Type 0 where
  pub key : ℕ
  pub value : ℕ

abbrev pub Contents : Type 0
Contents = List (Option Association)

pub record Dictionary : Type 0 where
  pub contents : Contents
  pub tally : ℕ

unfoldable pub new_dictionary : ℕ → Dictionary
new_dictionary size = record { contents = replicate size none; tally = 0 }

unfoldable pub dict_size : Dictionary → ℕ
dict_size dict = dict.tally

abbrev pub next_index : ℕ → ℕ → ℕ
next_index size index = if index == size - 1 then 0 else index + 1

-- The loop of `findIndex`, on fuel.
unfoldable pub find_index_from : ℕ → Contents → (ℕ → ℕ → Bool) → ℕ → ℕ → Run ℕ
find_index_from zero contents cmp key index = fault out_of_fuel
find_index_from (suc f) contents cmp key index =
    let rest = find_index_from f contents cmp key (next_index (length contents) index) in
    elim (get_elem? contents index) [
      | none ↦ fault out_of_bounds
      | some none ↦ ok index
      | some (some assoc) ↦ if cmp assoc.key key then ok index else rest
    ]

-- `hash & contents->size - 1`; the size of an empty array wraps.
abbrev pub start_index : Contents → ℕ → ℕ
start_index contents hash =
    bit_and hash (if length contents == 0 then 2 ^ 64 - 1 else length contents - 1)

-- A round for each slot is enough: after it the loop is where it was.
unfoldable pub find_index : Contents → (ℕ → ℕ → Bool) → ℕ → ℕ → Run ℕ
find_index contents cmp key hash =
    find_index_from (length contents) contents cmp key (start_index contents hash)

abbrev pub lookup : Contents → ℕ → Run (Option Association)
lookup contents index = elim (get_elem? contents index) [
  | none ↦ fault out_of_bounds
  | some slot ↦ ok slot
]

-- `dictAssocAt`, with nil for a missing key
unfoldable pub dict_assoc_at : Dictionary → (ℕ → ℕ → Bool) → ℕ → ℕ → Run (Option Association)
dict_assoc_at dict cmp key hash = find_index dict.contents cmp key hash >>= lookup dict.contents

-- `dictAt`
unfoldable pub dict_at : Dictionary → (ℕ → ℕ → Bool) → ℕ → ℕ → Run (Option ℕ)
dict_at dict cmp key hash = do
  slot ← dict_assoc_at dict cmp key hash
  ok (elim slot [ none ↦ none | some assoc ↦ some assoc.value ])

abbrev pub put_slot : Dictionary → ℕ → Association → Dictionary
put_slot dict index assoc = record dict { contents = set dict.contents index (some assoc) }

-- `dictAtPut` and `dictAtPutObject`, with `growDictionary` as an argument
unfoldable pub dict_at_put_with :
    (Dictionary → Run Dictionary) → Dictionary → (ℕ → ℕ → Bool) → ℕ → ℕ → ℕ → Run Dictionary
dict_at_put_with grow dict cmp key hash value = do
  index ← find_index dict.contents cmp key hash
  slot ← lookup dict.contents index
  let added = record (put_slot dict index (record { key = key; value = value })) {
    tally = dict.tally + 1;
  }
  elim slot [
    | none ↦ if dict_size added == length dict.contents then grow added else ok added
    | some assoc ↦ ok (put_slot dict index (record assoc { value = value }))
  ]

-- the class of a key
pub data KeyClass : Type 0 where
  string : KeyClass
  symbol : KeyClass
  other : KeyClass

pub record Keys : Type 0 where
  pub class_of : ℕ → KeyClass
  pub string_equals : ℕ → ℕ → Bool
  pub string_hash : ℕ → ℕ
  pub object_hash : ℕ → ℕ

-- `stringDictAtPut` and `symbolDictAtPut`, each behind its assertion
unfoldable pub key_at_put :
    Keys → (Dictionary → Run Dictionary) → Association → Dictionary → Run Dictionary
key_at_put keys grow assoc dict = elim (keys.class_of assoc.key) [
  | string ↦
      dict_at_put_with grow dict keys.string_equals assoc.key (keys.string_hash assoc.key)
        assoc.value
  | symbol ↦
      dict_at_put_with grow dict (λ a b. a == b) assoc.key (keys.object_hash assoc.key) assoc.value
  | other ↦ fault fatal
]

-- the loop of `growDictionary`
unfoldable pub put_all :
    (Association → Dictionary → Run Dictionary) → Contents → Dictionary → Run Dictionary
put_all put [] dict = ok dict
put_all put (none ∷ slots) dict = put_all put slots dict
put_all put (some assoc ∷ slots) dict = put assoc dict >>= put_all put slots

-- The fuel is the depth of the calls of `growDictionary` in one another; the tally is kept.
unfoldable pub grow_dictionary : ℕ → Keys → Dictionary → Run Dictionary
grow_dictionary zero keys dict = fault out_of_fuel
grow_dictionary (suc f) keys dict =
    put_all (key_at_put keys (grow_dictionary f keys)) dict.contents
      (record dict { contents = replicate (length dict.contents * 2) none })

unfoldable pub dict_at_put : ℕ → Keys → Dictionary → (ℕ → ℕ → Bool) → ℕ → ℕ → ℕ → Run Dictionary
dict_at_put f keys = dict_at_put_with (grow_dictionary f keys)

abbrev pub identity_cmp : ℕ → ℕ → Bool
identity_cmp a b = a == b

abbrev pub is_symbol : Keys → ℕ → Bool
is_symbol keys key = elim (keys.class_of key) [ symbol ↦ true | string ↦ false | other ↦ false ]

abbrev pub is_string : Keys → ℕ → Bool
is_string keys key = elim (keys.class_of key) [ string ↦ true | symbol ↦ false | other ↦ false ]

unfoldable pub symbol_dict_at_put : ℕ → Keys → Dictionary → ℕ → ℕ → Run Dictionary
symbol_dict_at_put f keys dict key value =
    if is_symbol keys key
    then dict_at_put f keys dict identity_cmp key (keys.object_hash key) value
    else fault assertion

unfoldable pub string_dict_at_put : ℕ → Keys → Dictionary → ℕ → ℕ → Run Dictionary
string_dict_at_put f keys dict key value =
    if is_string keys key
    then dict_at_put f keys dict keys.string_equals key (keys.string_hash key) value
    else fault assertion

unfoldable pub symbol_dict_at : Keys → Dictionary → ℕ → Run (Option ℕ)
symbol_dict_at keys dict key =
    if is_symbol keys key
    then dict_at dict identity_cmp key (keys.object_hash key)
    else fault assertion

unfoldable pub string_dict_at : Keys → Dictionary → ℕ → Run (Option ℕ)
string_dict_at keys dict key =
    if is_string keys key
    then dict_at dict keys.string_equals key (keys.string_hash key)
    else fault assertion
