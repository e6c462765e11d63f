-- ===== src/Tests/Messages.antt =====
-- Message lookup (vm/Lookup.c): a class at 16 below one at 32, which understands 7 and 9, where 9 is
-- #doesNotUnderstand:.
use yet_another_smalltalk_vm.Base.{ℕ, ◌≡◌, refl, none, some, ◌==◌, if◌then◌else◌, arith}
use yet_another_smalltalk_vm.Base.Result.{ok}
use yet_another_smalltalk_vm.Lookup.{
  Classes, State, initial_cache, class_at, lookup_selector, cached_lookup_native_code,
}
use yet_another_smalltalk_vm.Lookup.Cache.{
  IsAnswer, initial-IsConsistent, cached_lookup_native_code-IsAnswer,
}

abbrev classes : Classes
classes a =
    if a == 16
    then some (record { method_dictionary = λ s. none; super_class = some 32 })
    else if a == 32
    then some (record {
      method_dictionary = λ s. if s == 7 then some 100 else if s == 9 then some 200 else none;
      super_class = none;
    })
    else none

abbrev state : State
state = record { cache = initial_cache; native_codes = λ m. none; targets = λ a. none }

inherited : lookup_selector 2 classes 16 7 ≡ ok (some 100)
unfolding lookup_selector class_at
inherited = refl

missing : lookup_selector 2 classes 16 8 ≡ ok none
unfolding lookup_selector class_at
missing = refl

understood : lookup_selector 2 classes 16 9 ≡ ok (some 200)
unfolding lookup_selector class_at
understood = refl

cached_lookup_native_code-IsAnswer_example :
    (entry : ℕ) × (s' : State) × (cached_lookup_native_code 2 classes 9 4096 16 7 state
      ≡ ok (entry, s'))
    × IsAnswer 2 classes (some 100) 7 entry state s'
cached_lookup_native_code-IsAnswer_example =
    cached_lookup_native_code-IsAnswer 2 classes 9 4096 16 7 state
      (initial-IsConsistent 2 classes (λ a. none)) refl (some 100) inherited 200 understood
      (λ e. omega (arith, e))
