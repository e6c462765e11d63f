-- ===== src/Dictionary/Probe.antt =====
-- Linear probing (`findIndex` of vm/Dictionary.c): it ends, and where.
use yet_another_smalltalk_vm.Base.{
  ℕ, zero, suc, ◌+◌, ◌-◌, ◌<◌, Bool, true, false, none, some, ◌≡◌, ap, ◌∙◌, ◌⊎◌, ◌≢◌, sym, inl, inr,
  ◌==◌, leb, if◌then◌else◌, length, get_elem?, get_or, get_elem?-eq-get_or, arith, Bool-cases,
  Option-cases,
}
use yet_another_smalltalk_vm.Base.Result.{ok}
use yet_another_smalltalk_vm.Dictionary.{Association, Contents, next_index, find_index_from}

-- The slot `index` ends the search for `key`: it is nil, or its key compares equal.
abbrev pub Ends : Contents → (ℕ → ℕ → Bool) → ℕ → ℕ → Type 0
Ends contents cmp key index =
    (get_elem? contents index ≡ some none)
    ⊎ ((a : Association) × (get_elem? contents index ≡ some (some a)) × (cmp a.key key ≡ true))

-- the rounds from `index` to the slot `nil`
abbrev distance : ℕ → ℕ → ℕ → ℕ
distance size index nil = if leb index nil then nil - index else nil + size - index

module _ (f : ℕ) (contents : Contents) (cmp : ℕ → ℕ → Bool) (key index : ℕ) where
  pub find-nil :
      get_elem? contents index ≡ some none
      → find_index_from (suc f) contents cmp key index ≡ ok index
  unfolding find_index_from
  find-nil e = rw (find_index_from, e)

  module _ (a : Association) (e : get_elem? contents index ≡ some (some a)) where
    pub find-same : cmp a.key key ≡ true → find_index_from (suc f) contents cmp key index ≡ ok index
    unfolding find_index_from
    find-same h = rw (find_index_from, e, h)

    pub find-differ :
        cmp a.key key ≡ false
        → find_index_from (suc f) contents cmp key index
          ≡ find_index_from f contents cmp key (next_index (length contents) index)
    unfolding find_index_from
    find-differ h = rw (find_index_from, e, h)

-- With a nil slot the loop ends within the fuel, in the bounds of the array, at a slot that ends the
-- search.
pub find_index_from-Ends :
    (f : ℕ) (contents : Contents) (cmp : ℕ → ℕ → Bool) (key index nil : ℕ)
    → index < length contents
    → nil < length contents
    → get_elem? contents nil ≡ some none
    → distance (length contents) index nil < f
    → (j : ℕ) × (find_index_from f contents cmp key index ≡ ok j)
      × (j < length contents)
      × Ends contents cmp key j
find_index_from-Ends zero contents cmp key index nil hi hn e h = absurd (omega (arith, h))
find_index_from-Ends (suc f) contents cmp key index nil hi hn e h =
    let at = get_elem?-eq-get_or contents index none hi in
    elim (Option-cases (get_or contents index none)) [
      | inl empty ↦
          let p : get_elem? contents index ≡ some none = rw (at, empty) in
          (index, find-nil f contents cmp key index p, hi, inl p)
      | inr (a, full) ↦
          let p : get_elem? contents index ≡ some (some a) = rw (at, full) in
          elim (Bool-cases (cmp a.key key)) [
            | inl same ↦ (index, find-same f contents cmp key index a p same, hi, inr (a, p, same))
            | inr differ ↦
                let ne : (index == nil) ≡ false =
                  distinct index nil
                    (λ q. some-ne-none a (sym p ∙ ap (get_elem? contents) q ∙ e)) in
                let (j, e', hj, ends) =
                  find_index_from-Ends f contents cmp key (next_index (length contents) index) nil
                    (ground arith) hn e (ground arith) in
                (j, find-differ f contents cmp key index a p differ ∙ e', hj, ends)
          ]
    ]
  where
    distinct : (i k : ℕ) → i ≢ k → (i == k) ≡ false
    distinct i k ne = ground (arith, ne)

    some-ne-none : (a : Association) → some (some a) ≢ some none
    some-ne-none a q = cc
