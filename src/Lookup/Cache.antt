-- ===== src/Lookup/Cache.antt =====
-- The lookup cache of vm/Lookup.c answers as `lookupSelector` of vm/Class.c does.
use Prim.Native.Nat.{bit_xor}
use yet_another_smalltalk_vm.Base.{
  ℕ, zero, suc, ◌<◌, ◌≡◌, ◌≢◌, refl, sym, ap, ◌∙◌, true, false, ◌&&◌, Option, none, some, List,
  ◌==◌, ==_refl, ==_iff, if◌then◌else◌, length, length-set, get_elem?, replicate, length-replicate,
  get_or, get_elem?-eq-get_or, set, ltb, get_elem?-set_self, get_elem?-set_other, Bool-cases,
  Option-cases, inl, inr, arith,
}
use yet_another_smalltalk_vm.Base.Bits.{bit_and-le}
use yet_another_smalltalk_vm.Base.Result.{ok}
use yet_another_smalltalk_vm.Lookup.{
  lookup_cache_size, Classes, lookup_selector, Target, compiled_method, does_not_understand,
  LookupTable, State, lookup_hash, read, generate, get_native_code, lookup_does_not_understand,
  cache_entry, lookup_native_code, cached_lookup_native_code, initial_cache,
}

-- What a message has to run: the method that `lookupSelector` finds, or the code that sends
-- #doesNotUnderstand:.
abbrev pub target : Option ℕ → ℕ → Target
target none selector = does_not_understand selector
target (some method) selector = compiled_method method

-- The entry runs what the message to an object of the class has to run.
abbrev pub Answers : ℕ → Classes → ℕ → ℕ → (ℕ → Option Target) → ℕ → Type 0
Answers n classes class selector targets entry =
    (found : Option ℕ) × (lookup_selector n classes class selector ≡ ok found)
    × (targets entry ≡ some (target found selector))

-- Every filled slot of the cache answers its message, and the code of every method runs it.
pub record IsConsistent (n : ℕ) (classes : Classes) (s : State) : Type 0 where
  pub classes_length : length s.cache.classes ≡ lookup_cache_size
  pub selectors_length : length s.cache.selectors ≡ lookup_cache_size
  pub codes_length : length s.cache.codes ≡ lookup_cache_size
  pub hits :
      (i class selector entry : ℕ)
      → get_elem? s.cache.classes i ≡ some class
      → get_elem? s.cache.selectors i ≡ some selector
      → get_elem? s.cache.codes i ≡ some entry
      → class ≢ 0
      → Answers n classes class selector s.targets entry
  pub codes :
      (method entry : ℕ)
      → s.native_codes method ≡ some entry
      → s.targets entry ≡ some (compiled_method method)

lookup_hash-lt : (class selector : ℕ) → lookup_hash class selector < lookup_cache_size
unfolding lookup_hash
lookup_hash-lt class selector = omega (arith, bit_and-le (bit_xor class selector) 4095)

-- Nothing that was generated before runs anything else after.
abbrev pub IsKept : (ℕ → Option Target) → (ℕ → Option Target) → Type 0
IsKept before after = (a : ℕ) (t : Target) → before a ≡ some t → after a ≡ some t

generate-IsKept :
    (fresh : ℕ) (t : Target) (s : State)
    → s.targets fresh ≡ none
    → IsKept s.targets (generate fresh t s).targets
generate-IsKept fresh t s free a u h = elim (Bool-cases (a == fresh)) [
  | inl e ↦ absurd (cc (ap s.targets ((==_iff a fresh).0 e), free, h))
  | inr e ↦ rw e h
]

-- What is known of the state once the entry is found and before the cache is written.
record Found (n : ℕ) (classes : Classes) (found : Option ℕ) (selector entry : ℕ) (s s' : State)
    : Type 0 where
  cache : s'.cache ≡ s.cache
  kept : IsKept s.targets s'.targets
  runs : s'.targets entry ≡ some (target found selector)
  codes :
      (method entry : ℕ)
      → s'.native_codes method ≡ some entry
      → s'.targets entry ≡ some (compiled_method method)

module _ (n : ℕ) (classes : Classes) (fresh selector : ℕ) (s : State)
    (consistent : IsConsistent n classes s) (free : s.targets fresh ≡ none) where
  generated_codes :
      (method m entry : ℕ)
      → (if m == method then some fresh else s.native_codes m) ≡ some entry
      → (generate fresh (compiled_method method) s).targets entry ≡ some (compiled_method m)
  generated_codes method m entry h = elim (Bool-cases (m == method)) [
    | inl e ↦
        let new : some fresh ≡ some entry = rw e at h in
        let same : entry ≡ fresh = cc new in rw (same, ==_refl fresh, (==_iff m method).0 e) refl
    | inr e ↦
        generate-IsKept fresh (compiled_method method) s free entry (compiled_method m)
          (consistent.codes m entry (rw e at h))
  ]

  get_native_code-Found :
      (method : ℕ)
      → let (entry, s') = get_native_code fresh method s in
        Found n classes (some method) selector entry s s'
  unfolding get_native_code
  get_native_code-Found method = elim (Option-cases (s.native_codes method)) [
    | inr (entry, e) ↦
        rw (e, get_native_code)
          (record {
            cache = refl;
            kept = λ a t h. h;
            runs = consistent.codes method entry e;
            codes = consistent.codes;
          })
    | inl e ↦
        rw (e, get_native_code)
          (record {
            cache = refl;
            kept = generate-IsKept fresh (compiled_method method) s free;
            runs = rw (==_refl fresh) refl;
            codes = generated_codes method;
          })
  ]

  lookup_does_not_understand-Found :
      (class understand method : ℕ)
      → lookup_selector n classes class understand ≡ ok (some method)
      → (s' : State) × (lookup_does_not_understand n classes understand fresh class selector s
          ≡ ok (fresh, s'))
        × Found n classes none selector fresh s s'
  unfolding lookup_does_not_understand
  lookup_does_not_understand-Found class understand method understood =
      let t = does_not_understand selector in
      let kept = generate-IsKept fresh t s free in
      (
        generate fresh t s,
        rw (understood, lookup_does_not_understand) refl,
        record {
          cache = refl;
          kept = kept;
          runs = rw (==_refl fresh) refl;
          codes = λ m a h. kept a (compiled_method m) (consistent.codes m a h);
        },
      )

read-some :
    (values : List ℕ) (i value : ℕ) → get_elem? values i ≡ some value → read values i ≡ ok value
unfolding read
read-some values i value e = rw (read, e) refl

cache_entry-ok :
    (class selector entry : ℕ) (c : LookupTable)
    → length c.classes ≡ lookup_cache_size
    → length c.selectors ≡ lookup_cache_size
    → length c.codes ≡ lookup_cache_size
    → let h = lookup_hash class selector in
      cache_entry class selector entry c
      ≡ ok (record {
        classes = set c.classes h class;
        selectors = set c.selectors h selector;
        codes = set c.codes h entry;
      })
unfolding cache_entry
cache_entry-ok class selector entry c a b d =
    let lt = lookup_hash-lt class selector in
    let in_classes : ltb (lookup_hash class selector) (length c.classes) ≡ true =
      ground (arith, a, lt) in
    let in_selectors : ltb (lookup_hash class selector) (length c.selectors) ≡ true =
      ground (arith, b, lt) in
    let in_codes : ltb (lookup_hash class selector) (length c.codes) ≡ true =
      ground (arith, d, lt) in
    rw (in_classes, in_selectors, in_codes, cache_entry) refl

-- A write puts the value at its index and leaves the others.
slot :
    (xs : List ℕ) (h i v x : ℕ)
    → h < length xs
    → get_elem? (set xs h v) i ≡ some x
    → (if h == i then some v else get_elem? xs i) ≡ some x
slot xs h i v x lt e = elim (Bool-cases (h == i)) [
  | inl q ↦
      let moved = ap (get_elem? (set xs h v)) (sym ((==_iff h i).0 q)) in
      rw q (sym (moved ∙ get_elem?-set_self xs h v lt) ∙ e)
  | inr q ↦ rw q (sym (get_elem?-set_other xs h i v q) ∙ e)
]

stored_hits :
    (n : ℕ) (classes : Classes) (class selector entry : ℕ) (s s' : State)
    → IsConsistent n classes s
    → IsKept s.targets s'.targets
    → Answers n classes class selector s'.targets entry
    → (i k m a : ℕ)
    → let h = lookup_hash class selector in
      get_elem? (set s.cache.classes h class) i ≡ some k
      → get_elem? (set s.cache.selectors h selector) i ≡ some m
      → get_elem? (set s.cache.codes h entry) i ≡ some a
      → k ≢ 0
      → Answers n classes k m s'.targets a
stored_hits n classes class selector entry s s' v kept answer i k m a in_classes in_selectors
      in_codes filled =
    let lt = lookup_hash-lt class selector in
    let h = lookup_hash class selector in
    let c = slot s.cache.classes h i class k (omega (arith, v.classes_length, lt)) in_classes in
    let l =
      slot s.cache.selectors h i selector m (omega (arith, v.selectors_length, lt)) in_selectors in
    let e = slot s.cache.codes h i entry a (omega (arith, v.codes_length, lt)) in_codes in
    elim (Bool-cases (h == i)) [
      | inl q ↦
          let same_class : some class ≡ some k = rw q at c in
          let same_selector : some selector ≡ some m = rw q at l in
          let same_entry : some entry ≡ some a = rw q at e in
          let kc : class ≡ k = cc same_class in
          let km : selector ≡ m = cc same_selector in
          let ka : entry ≡ a = cc same_entry in rw⁻¹ (kc, km, ka) answer
      | inr q ↦
          let (found, looked, runs) = v.hits i k m a (rw q at c) (rw q at l) (rw q at e) filled in
          (found, looked, kept a (target found m) runs)
    ]

-- What a lookup gives: an entry that runs what the message has to run, and a consistent cache.
pub record IsAnswer (n : ℕ) (classes : Classes) (found : Option ℕ) (selector entry : ℕ)
    (s s' : State) : Type 0 where
  pub runs : s'.targets entry ≡ some (target found selector)
  pub kept : IsKept s.targets s'.targets
  pub consistent : IsConsistent n classes s'

store_entry :
    (n : ℕ) (classes : Classes) (class selector entry : ℕ) (found : Option ℕ) (s s' : State)
    → IsConsistent n classes s
    → lookup_selector n classes class selector ≡ ok found
    → Found n classes found selector entry s s'
    → (c : LookupTable) × (cache_entry class selector entry s'.cache ≡ ok c)
      × IsAnswer n classes found selector entry s (record s' { cache = c })
store_entry n classes class selector entry found s s' v looked f =
    let h = lookup_hash class selector in
    let e =
      cache_entry-ok class selector entry s.cache v.classes_length v.selectors_length
        v.codes_length in
    (
      record {
        classes = set s.cache.classes h class;
        selectors = set s.cache.selectors h selector;
        codes = set s.cache.codes h entry;
      },
      ap (cache_entry class selector entry) f.cache ∙ e,
      record {
        runs = f.runs;
        kept = f.kept;
        consistent = record {
          classes_length = length-set s.cache.classes h class ∙ v.classes_length;
          selectors_length = length-set s.cache.selectors h selector ∙ v.selectors_length;
          codes_length = length-set s.cache.codes h entry ∙ v.codes_length;
          hits = stored_hits n classes class selector entry s s' v f.kept (found, looked, f.runs);
          codes = f.codes;
        };
      },
    )

module _ (n : ℕ) (classes : Classes) (understand fresh class selector : ℕ) (s : State)
    (v : IsConsistent n classes s) (free : s.targets fresh ≡ none) (found : Option ℕ)
    (looked : lookup_selector n classes class selector ≡ ok found) (method : ℕ)
    (understood : lookup_selector n classes class understand ≡ ok (some method)) where
  entry_of :
      (o : Option ℕ)
      → (entry : ℕ) × (s' : State) × ((elim o [
        | none ↦ lookup_does_not_understand n classes understand fresh class selector s
        | some m ↦ ok (get_native_code fresh m s)
      ])
          ≡ ok (entry, s'))
        × Found n classes o selector entry s s'
  entry_of none =
      let (s', e, f) =
        lookup_does_not_understand-Found n classes fresh selector s v free class understand method
          understood in
      (fresh, s', e, f)
  entry_of (some m) =
      let (entry, s') = get_native_code fresh m s in
      (entry, s', refl, get_native_code-Found n classes fresh selector s v free m)

  lookup_native_code-IsAnswer :
      (entry : ℕ) × (s' : State) × (lookup_native_code n classes understand fresh class selector s
        ≡ ok (entry, s'))
      × IsAnswer n classes found selector entry s s'
  unfolding lookup_native_code
  lookup_native_code-IsAnswer =
      let (entry, s', e, f) = entry_of found in
      let (c, stored, answer) = store_entry n classes class selector entry found s s' v looked f in
      (entry, record s' { cache = c }, rw (looked, e, stored, lookup_native_code) refl, answer)

  cached-miss :
      (k m : ℕ)
      → get_elem? s.cache.classes (lookup_hash class selector) ≡ some k
      → get_elem? s.cache.selectors (lookup_hash class selector) ≡ some m
      → (k == class && m == selector) ≡ false
      → cached_lookup_native_code n classes understand fresh class selector s
        ≡ lookup_native_code n classes understand fresh class selector s
  unfolding cached_lookup_native_code
  cached-miss k m in_classes in_selectors miss =
      rw
        (
          cached_lookup_native_code,
          read-some s.cache.classes (lookup_hash class selector) k in_classes,
          read-some s.cache.selectors (lookup_hash class selector) m in_selectors,
          miss,
        )
        refl

  cached-hit :
      (k m a : ℕ)
      → get_elem? s.cache.classes (lookup_hash class selector) ≡ some k
      → get_elem? s.cache.selectors (lookup_hash class selector) ≡ some m
      → get_elem? s.cache.codes (lookup_hash class selector) ≡ some a
      → (k == class && m == selector) ≡ true
      → cached_lookup_native_code n classes understand fresh class selector s ≡ ok (a, s)
  unfolding cached_lookup_native_code
  cached-hit k m a in_classes in_selectors in_codes hit =
      rw
        (
          cached_lookup_native_code,
          read-some s.cache.classes (lookup_hash class selector) k in_classes,
          read-some s.cache.selectors (lookup_hash class selector) m in_selectors,
          hit,
          read-some s.cache.codes (lookup_hash class selector) a in_codes,
        )
        refl

  -- While no class changes or moves and the lookups in the dictionaries end, a cached lookup for a class that is not at address 0 gives an entry that runs the method that lookupSelector finds, or the code for #doesNotUnderstand: when it finds none, whether the cache hits or not; the cache stays consistent, and code that was there before runs what it did.
  pub cached_lookup_native_code-IsAnswer :
      class ≢ 0
      → (entry : ℕ) × (s' : State) × (cached_lookup_native_code n classes understand fresh class
            selector s
          ≡ ok (entry, s'))
        × IsAnswer n classes found selector entry s s'
  unfolding cached_lookup_native_code
  cached_lookup_native_code-IsAnswer filled =
      let h = lookup_hash class selector in
      let lt = lookup_hash-lt class selector in
      let k = get_or s.cache.classes h 0 in
      let m = get_or s.cache.selectors h 0 in
      let a = get_or s.cache.codes h 0 in
      let in_classes =
        get_elem?-eq-get_or s.cache.classes h 0 (omega (arith, v.classes_length, lt)) in
      let in_selectors =
        get_elem?-eq-get_or s.cache.selectors h 0 (omega (arith, v.selectors_length, lt)) in
      let in_codes = get_elem?-eq-get_or s.cache.codes h 0 (omega (arith, v.codes_length, lt)) in
      elim (Bool-cases (k == class && m == selector)) [
        | inr miss ↦
            let (entry, s', e, answer) = lookup_native_code-IsAnswer in
            (entry, s', cached-miss k m in_classes in_selectors miss ∙ e, answer)
        | inl hit ↦
            let same_class : k ≡ class = (==_iff k class).0 (ground (arith, hit)) in
            let same_selector : m ≡ selector = (==_iff m selector).0 (ground (arith, hit)) in
            let (found', looked', runs) =
              v.hits h class selector a (rw same_class at in_classes)
                (rw same_selector at in_selectors) in_codes filled in
            let same : found' ≡ found = cc (looked, looked') in
            (
              a,
              s,
              cached-hit k m a in_classes in_selectors in_codes hit,
              record { runs = rw same at runs; kept = λ x t e. e; consistent = v },
            )
      ]

get_elem?-replicate : (n i v x : ℕ) → get_elem? (replicate n v) i ≡ some x → x ≡ v
get_elem?-replicate zero i v x e = absurd (cc e)
get_elem?-replicate (suc n) zero v x e = cc e
get_elem?-replicate (suc n) (suc i) v x e = get_elem?-replicate n i v x e

-- The cache as the program starts, before any code is generated.
pub initial-IsConsistent :
    (n : ℕ) (classes : Classes) (targets : ℕ → Option Target)
    → IsConsistent n classes
        (record { cache = initial_cache; native_codes = λ m. none; targets = targets })
unfolding initial_cache
initial-IsConsistent n classes targets = record {
  classes_length = length-replicate {A = ℕ} lookup_cache_size 0;
  selectors_length = length-replicate {A = ℕ} lookup_cache_size 0;
  codes_length = length-replicate {A = ℕ} lookup_cache_size 0;
  hits = λ i k m a in_classes in_selectors in_codes filled.
      absurd (filled (get_elem?-replicate lookup_cache_size i 0 k in_classes));
  codes = λ m a h. absurd (cc h);
}
