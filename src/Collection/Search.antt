-- ===== src/Collection/Search.antt =====
-- `ordCollAddObjectIfNotExists` of vm/Collection.c adds an object once.
use yet_another_smalltalk_vm.Base.{
  ℕ, zero, suc, ◌+◌, ◌-◌, ◌≤◌, ◌<◌, ◌≡◌, refl, ap, ◌∙◌, Bool, true, false, Option, none, some, List,
  [], ◌∷◌, ◌++◌, ltb, if◌then◌else◌, length, length-append, length-take, get_elem?, take, drop,
  Bool-cases, get-drop, inl, inr, ◌⊎◌, arith,
}
use yet_another_smalltalk_vm.Base.Result.{ok}
use yet_another_smalltalk_vm.Object.{tag_ptr}
use yet_another_smalltalk_vm.Collection.{
  OrderedCollection, Iterator, Strings, ord_coll_size, init_ord_coll_iterator, iterator_index,
  iterator_has_next, iterator_next, compare_values, search_values,
  ord_coll_add_object_if_not_exists,
}
use yet_another_smalltalk_vm.Collection.Elements.{
  elements, IsPacked, packed-size, packed-elements, ord_coll_add-elements,
}

abbrev at : List ℕ → ℕ → ℕ → Iterator
at vars end i = record { vars = vars; start = 0; end = end; current = i }

iterator_next-at :
    (vars : List ℕ) (end i x : ℕ)
    → get_elem? vars i ≡ some x
    → iterator_next (at vars end i) ≡ ok (x, at vars end (suc i))
unfolding iterator_next
iterator_next-at vars end i x e = rw e refl

module _ (same : ℕ → Bool) where
  find_from : List ℕ → ℕ → Option ℕ
  find_from [] i = none
  find_from (x ∷ xs) i = if same x then some i else find_from xs (suc i)

  -- No element matches.
  abbrev pub IsAbsent : List ℕ → Type 0
  IsAbsent xs = (j v : ℕ) → get_elem? xs j ≡ some v → same v ≡ false

  -- The element at `k` is the first that matches.
  pub record IsFirst (xs : List ℕ) (k : ℕ) : Type 0 where
    pub value : ℕ
    pub here : get_elem? xs k ≡ some value
    pub matches : same value ≡ true
    pub before : (j v : ℕ) → j < k → get_elem? xs j ≡ some v → same v ≡ false

  IsAbsent-cons : (x : ℕ) (xs : List ℕ) → same x ≡ false → IsAbsent xs → IsAbsent (x ∷ xs)
  IsAbsent-cons x xs h absent zero v e = cc
  IsAbsent-cons x xs h absent (suc j) v e = absent j v e

  IsFirst-cons :
      (x : ℕ) (xs : List ℕ) (k : ℕ) → same x ≡ false → IsFirst xs k → IsFirst (x ∷ xs) (suc k)
  IsFirst-cons x xs k h f = record {
    value = f.value;
    here = f.here;
    matches = f.matches;
    before = go;
  }
    where
      go : (j v : ℕ) → j < suc k → get_elem? (x ∷ xs) j ≡ some v → same v ≡ false
      go zero v lt e = cc
      go (suc j) v lt e = f.before j v (omega (arith, lt)) e

  FindOutcome : List ℕ → ℕ → Type 0
  FindOutcome xs i =
      (IsAbsent xs × (find_from xs i ≡ none))
      ⊎ ((k : ℕ) × (find_from xs i ≡ some (i + k)) × IsFirst xs k)

  find_from-FindOutcome : (xs : List ℕ) (i : ℕ) → FindOutcome xs i
  unfolding find_from FindOutcome
  find_from-FindOutcome [] i = inl (λ j v e. cc e, refl)
  find_from-FindOutcome (x ∷ xs) i = elim (Bool-cases (same x)) [
    | inl h ↦
        let add_zero : i + 0 ≡ i = omega arith in
        inr (
          0,
          rw (h, find_from, add_zero) refl,
          record { value = x; here = refl; matches = h; before = λ j v lt e. absurd (omega arith) },
        )
    | inr h ↦
        let add_suc : (k : ℕ) → i + suc k ≡ suc i + k = λ k. omega arith in
        elim (find_from-FindOutcome xs (suc i)) [
          | inl (absent, e) ↦ inl (IsAbsent-cons x xs h absent, rw (h, find_from) e)
          | inr (k, e, f) ↦ inr (suc k, rw (h, find_from, add_suc k) e, IsFirst-cons x xs k h f)
        ]
  ]

  search_values-find_from :
      (vars : List ℕ) (end n i : ℕ)
      → end ≤ length vars
      → i ≤ end
      → end ≤ i + n
      → search_values n same (at vars end i) ≡ ok (find_from (take (end - i) (drop i vars)) i)
  unfolding search_values iterator_has_next iterator_next iterator_index find_from
  search_values-find_from vars end zero i within le enough =
      let done : end - i ≡ 0 = omega arith in
      let stop : ltb i end ≡ false = ground arith in
      rw (done, stop, search_values, iterator_has_next) refl
  search_values-find_from vars end (suc n) i within le enough = elim (Bool-cases (ltb i end)) [
    | inr stop ↦
        let done : end - i ≡ 0 = ground arith in
        rw (done, stop, search_values, iterator_has_next) refl
    | inl go ↦
        let (x, found, dropped) = get-drop vars i (ground arith) in
        let next = iterator_next-at vars end i x found in
        let more : end - i ≡ suc (end - suc i) = ground arith in
        let index : suc i - 0 - 1 ≡ i = omega arith in
        let rest = search_values-find_from vars end n (suc i) within (ground arith) (omega arith) in
        elim (Bool-cases (same x)) [
          | inl h ↦
              rw
                (
                  go, dropped, more, next, h, index, search_values, iterator_has_next,
                  iterator_index, find_from,
                )
                refl
          | inr h ↦
              rw (go, dropped, more, next, h, search_values, iterator_has_next, find_from) rest
        ]
  ]

init_iterator-at :
    (c : OrderedCollection)
    → c.first_index ≡ 1
    → init_ord_coll_iterator c ≡ at c.contents c.last_index 0
unfolding init_ord_coll_iterator
init_iterator-at c e =
    let first : c.first_index - 1 ≡ 0 = omega (arith, e) in
    let last : c.first_index - 1 + ord_coll_size c ≡ c.last_index =
      omega (arith, e, packed-size c e) in
    rw (last, first) refl

search-elements :
    (same : ℕ → Bool) (c : OrderedCollection)
    → IsPacked c
    → search_values (ord_coll_size c) same (init_ord_coll_iterator c)
      ≡ ok (find_from same (elements c) 0)
search-elements same c p =
    let found =
      search_values-find_from same c.contents c.last_index (ord_coll_size c) 0 p.within
        (omega arith) (omega (arith, packed-size c p.first)) in
    let all : c.last_index - 0 ≡ c.last_index = omega arith in
    rw (init_iterator-at c p.first) (found ∙ rw (all, packed-elements c p.first) refl)

length-elements : (c : OrderedCollection) → IsPacked c → length (elements c) ≡ ord_coll_size c
length-elements c p =
    ap length (packed-elements c p.first)
    ∙ omega (arith, length-take c.last_index c.contents, p.within, packed-size c p.first)

-- `c'` has the object at the end, and no other element of it equals the object.
pub record IsAdded (strings : Strings) (object : ℕ) (c c' : OrderedCollection) : Type 0 where
  pub packed : IsPacked c'
  pub absent : IsAbsent (compare_values strings object) (elements c)
  pub appended : elements c' ≡ elements c ++ tag_ptr object ∷ []

-- On a collection whose elements start at the first variable, ordCollAddObjectIfNotExists gives the index of the first element that is the object or an equal string, and leaves the collection alone; if there is none, it appends the object and gives its index.
pub ord_coll_add_object_if_not_exists-cases :
    (strings : Strings) (nil object : ℕ) (c : OrderedCollection)
    → IsPacked c
    → ((i : ℕ) × (ord_coll_add_object_if_not_exists strings nil object c ≡ ok (i, c))
        × IsFirst (compare_values strings object) (elements c) i)
      ⊎ ((c' : OrderedCollection) × (ord_coll_add_object_if_not_exists strings nil object c
            ≡ ok (length (elements c), c'))
          × IsAdded strings object c c')
unfolding ord_coll_add_object_if_not_exists FindOutcome
ord_coll_add_object_if_not_exists-cases strings nil object c p =
    let same = compare_values strings object in
    let searched = search-elements same c p in
    elim (find_from-FindOutcome same (elements c) 0) [
      | inr (k, e, f) ↦
          let add_zero : 0 + k ≡ k = omega arith in
          inl (k, rw (searched, e, add_zero, ord_coll_add_object_if_not_exists) refl, f)
      | inl (absent, e) ↦
          let (c', added, packed, appended) = ord_coll_add-elements nil (tag_ptr object) c p in
          let index : ord_coll_size c' - 1 ≡ length (elements c) = omega (
            arith,
            ap length appended,
            length-append (elements c) (tag_ptr object ∷ []),
            length-elements c' packed,
          ) in
          inr (
            c',
            rw (searched, e, added, index, ord_coll_add_object_if_not_exists) refl,
            record { packed = packed; absent = absent; appended = appended },
          )
    ]
