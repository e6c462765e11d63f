-- ===== src/Lookup.antt =====
-- Message lookup: `lookupSelector` of vm/Class.c, and the cache in front of `lookupNativeCode` of
-- vm/Lookup.h and vm/Lookup.c. A class has its method dictionary, as the function that
-- `symbolDictObjectAt` computes, and its super class. An entry is the address of the instructions of
-- a piece of native code; the generator of vm/CodeGeneratorX64.c gives the address of new code.
pub mod Cache
use yet_another_smalltalk_vm.Base.{
  ℕ, zero, suc, ◌+◌, ◌-◌, ◌^◌, Bool, true, false, ◌&&◌, Option, none, some, List, [], ◌∷◌, ◌==◌,
  if◌then◌else◌, length, get_elem?, set, replicate, ltb,
}
use Prim.Native.Nat.{bit_and, bit_xor}
use yet_another_smalltalk_vm.Base.Result.{
  Run, ok, fault, out_of_bounds, null_pointer, out_of_fuel, ◌>>=◌, ◌>>◌,
}

abbrev pub lookup_cache_size : ℕ
lookup_cache_size = 4096

pub record Class : Type 0 where
  pub method_dictionary : ℕ → Option ℕ
  pub super_class : Option ℕ

abbrev pub Classes : Type 0
Classes = ℕ → Option Class

unfoldable pub class_at : Classes → ℕ → Run Class
class_at classes a = elim (classes a) [ none ↦ fault out_of_bounds | some c ↦ ok c ]

-- The loop goes up the super classes, on fuel; `none` is nil.
unfoldable pub lookup_selector : ℕ → Classes → ℕ → ℕ → Run (Option ℕ)
lookup_selector zero classes class selector = fault out_of_fuel
lookup_selector (suc n) classes class selector = do
  c ← class_at classes class
  elim (c.method_dictionary selector) [
    | some method ↦ ok (some method)
    | none ↦ elim c.super_class [
      | none ↦ ok none
      | some super ↦ lookup_selector n classes super selector
    ]
  ]

-- What a piece of native code runs.
pub data Target : Type 0 where
  compiled_method : ℕ → Target
  does_not_understand : ℕ → Target

pub record LookupTable : Type 0 where
  pub classes : List ℕ
  pub selectors : List ℕ
  pub codes : List ℕ

-- The cache, the `nativeCode` of the methods by address, and what each entry runs.
pub record State : Type 0 where
  pub cache : LookupTable
  pub native_codes : ℕ → Option ℕ
  pub targets : ℕ → Option Target

unfoldable pub initial_cache : LookupTable
initial_cache = record {
  classes = replicate lookup_cache_size 0;
  selectors = replicate lookup_cache_size 0;
  codes = replicate lookup_cache_size 0;
}

unfoldable pub lookup_hash : ℕ → ℕ → ℕ
lookup_hash class_hash selector_hash =
    bit_and (bit_xor class_hash selector_hash) (lookup_cache_size - 1)

unfoldable pub read : List ℕ → ℕ → Run ℕ
read values i = elim (get_elem? values i) [ none ↦ fault out_of_bounds | some value ↦ ok value ]

abbrev pub store : List ℕ → ℕ → ℕ → Run (List ℕ)
store values i value =
    if ltb i (length values) then ok (set values i value) else fault out_of_bounds

-- The generator returns code at `entry` that runs the target.
abbrev pub generate : ℕ → Target → State → State
generate entry target s = record s {
  targets = λ a. if a == entry then some target else s.targets a;
}

-- `getNativeCode`; code that has to be generated is put at `fresh`.
unfoldable pub get_native_code : ℕ → ℕ → State → ℕ × State
get_native_code fresh method s = elim (s.native_codes method) [
  | some entry ↦ (entry, s)
  | none ↦
      let s' = generate fresh (compiled_method method) s in
      (
        fresh,
        record s' { native_codes = λ m. if m == method then some fresh else s.native_codes m },
      )
]

-- `doesNotUnderstand` of vm/Lookup.c, where `understand` is #doesNotUnderstand:
unfoldable pub lookup_does_not_understand : ℕ → Classes → ℕ → ℕ → ℕ → ℕ → State → Run (ℕ × State)
lookup_does_not_understand n classes understand fresh class selector s = do
  method ← lookup_selector n classes class understand
  elim method [
    | none ↦ fault null_pointer
    | some m ↦ ok (fresh, generate fresh (does_not_understand selector) s)
  ]

-- The end of `lookupNativeCode`.
unfoldable pub cache_entry : ℕ → ℕ → ℕ → LookupTable → Run LookupTable
cache_entry class selector entry cache = do
  classes ← store cache.classes (lookup_hash class selector) class
  selectors ← store cache.selectors (lookup_hash class selector) selector
  codes ← store cache.codes (lookup_hash class selector) entry
  ok (record { classes = classes; selectors = selectors; codes = codes })

-- `lookupNativeCode`, but for `feedbackType`, which writes to the caller's code alone.
unfoldable pub lookup_native_code : ℕ → Classes → ℕ → ℕ → ℕ → ℕ → State → Run (ℕ × State)
lookup_native_code n classes understand fresh class selector s = do
  method ← lookup_selector n classes class selector
  (entry, s') ← elim method [
    | none ↦ lookup_does_not_understand n classes understand fresh class selector s
    | some m ↦ ok (get_native_code fresh m s)
  ]
  cache ← cache_entry class selector entry s'.cache
  ok (entry, record s' { cache = cache })

unfoldable pub cached_lookup_native_code : ℕ → Classes → ℕ → ℕ → ℕ → ℕ → State → Run (ℕ × State)
cached_lookup_native_code n classes understand fresh class selector s = do
  cached_class ← read s.cache.classes (lookup_hash class selector)
  cached_selector ← read s.cache.selectors (lookup_hash class selector)
  if cached_class == class && cached_selector == selector
      then (read s.cache.codes (lookup_hash class selector) >>= λ entry. ok (entry, s))
      else lookup_native_code n classes understand fresh class selector s
