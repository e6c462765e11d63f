-- ===== src/Tests/Tables.antt =====
-- Symbol dictionaries (vm/Dictionary.c) of four slots.
use yet_another_smalltalk_vm.Base.{
  ℕ, zero, suc, ◌≡◌, refl, none, some, [], ◌∷◌, ◌==◌, length, arith,
}
use yet_another_smalltalk_vm.Base.Result.{Run, ok, fault}
use yet_another_smalltalk_vm.Dictionary.{
  Association, Dictionary, Keys, symbol, find_index, find_index_from, identity_cmp, dict_at,
  dict_at_put_with, dict_at_put, symbol_dict_at_put, dict_size, grow_dictionary, put_all,
  key_at_put,
}
use yet_another_smalltalk_vm.Dictionary.Put.{
  IsPlaced, IsValid, Puts, dict_at-view, dict_at_put-Stored,
}

abbrev hash : ℕ → ℕ
hash key = key

abbrev slot : ℕ → ℕ → Association
slot key value = record { key = key; value = value }

-- Key 6 has been driven from slot 2 to slot 3.
abbrev table : Dictionary
table = record { contents = none ∷ none ∷ some (slot 2 20) ∷ some (slot 6 60) ∷ []; tally = 2 }

table-IsPlaced : IsPlaced hash table.contents
unfolding find_index find_index_from
table-IsPlaced zero a e = absurd (cc)
table-IsPlaced (suc zero) a e = absurd (cc)
table-IsPlaced (suc (suc zero)) a e = let k : slot 2 20 ≡ a = cc in rw (← k) refl
table-IsPlaced (suc (suc (suc zero))) a e = let k : slot 6 60 ≡ a = cc in rw (← k) refl
table-IsPlaced (suc (suc (suc (suc n)))) a e = absurd (cc)

table-IsValid : IsValid hash table
table-IsValid = record { placed = table-IsPlaced; counted = refl; roomy = omega arith }

dict_at-view_example : dict_at table identity_cmp 6 6 ≡ ok (some 60)
dict_at-view_example = dict_at-view hash table 6 table-IsValid

abbrev no_growth : Dictionary → Run Dictionary
no_growth dict = ok dict

dict_at_put-Stored_example : Puts hash no_growth table 10 100
dict_at_put-Stored_example = dict_at_put-Stored hash no_growth table 10 100 table-IsValid

abbrev symbols : Keys
symbols = record {
  class_of = λ k. symbol;
  string_equals = λ a b. a == b;
  string_hash = λ k. k;
  object_hash = λ k. k;
}

abbrev summary : Run Dictionary → ℕ × ℕ
summary (ok dict) = (dict.tally, length dict.contents)
summary (fault e) = (0, 0)

-- The fourth association fills the table. Growing keeps the tally and counts every association again:
-- the table ends with sixteen slots and a tally of twelve.
tally_after_growth :
    summary (
      symbol_dict_at_put 3 symbols
        (record {
          contents = some (slot 4 40) ∷ none ∷ some (slot 2 20) ∷ some (slot 6 60) ∷ [];
          tally = 3;
        })
        5
        50)
    ≡ (12, 16)
unfolding symbol_dict_at_put dict_at_put dict_at_put_with find_index find_index_from dict_size
    grow_dictionary put_all key_at_put
tally_after_growth = refl
