-- ===== src/Dictionary/Write.antt =====
-- A write into a slot of the table (`dictAtPut` of vm/Dictionary.c): which searches it leaves alone.
use yet_another_smalltalk_vm.Base.{
  ℕ, zero, suc, ◌<◌, Bool, false, none, some, ◌≡◌, ap, sym, ◌∙◌, ◌⊎◌, inl, inr, Option, ◌==◌,
  length, get_elem?, set, length-set, get_elem?-set_self, get_elem?-set_other, arith, Bool-cases,
  Option-cases,
}
use yet_another_smalltalk_vm.Base.Result.{ok}
use yet_another_smalltalk_vm.Dictionary.{Association, Contents, next_index, find_index_from}
use yet_another_smalltalk_vm.Dictionary.Probe.{Ends, find-nil, find-same, find-differ}

module _ (f : ℕ) (contents : Contents) (cmp : ℕ → ℕ → Bool) (key index : ℕ) where
  pub find-Ends :
      Ends contents cmp key index → find_index_from (suc f) contents cmp key index ≡ ok index
  find-Ends (inl e) = find-nil f contents cmp key index e
  find-Ends (inr (a, e, same)) = find-same f contents cmp key index a e same

  find-outside :
      get_elem? contents index ≡ none
      → (j : ℕ) → find_index_from (suc f) contents cmp key index ≡ ok j
      → ⊥
  unfolding find_index_from
  find-outside e j h = ground arith

  -- a search that returns ends here, or passes over an association with another key
  pub find-inversion :
      (j : ℕ)
      → find_index_from (suc f) contents cmp key index ≡ ok j
      → (Ends contents cmp key index × (index ≡ j))
        ⊎ ((a : Association) × (get_elem? contents index ≡ some (some a))
            × (cmp a.key key ≡ false)
            × (find_index_from f contents cmp key (next_index (length contents) index) ≡ ok j))
  find-inversion j h = elim (Option-cases (get_elem? contents index)) [
    | inl e ↦ absurd (find-outside e j h)
    | inr (slot, e) ↦ elim (Option-cases slot) [
      | inl empty ↦
          let p : get_elem? contents index ≡ some none = e ∙ ap some empty in
          let q = find-nil f contents cmp key index p in inl (inl p, cc)
      | inr (a, full) ↦
          let p : get_elem? contents index ≡ some (some a) = e ∙ ap some full in
          elim (Bool-cases (cmp a.key key)) [
            | inl same ↦
                let q = find-same f contents cmp key index a p same in inl (inr (a, p, same), cc)
            | inr differ ↦
                inr (a, p, differ, sym (find-differ f contents cmp key index a p differ) ∙ h)
          ]
    ]
  ]

find-fuel :
    (contents : Contents) (cmp : ℕ → ℕ → Bool) (key index j : ℕ)
    → find_index_from zero contents cmp key index ≡ ok j
    → ⊥
unfolding find_index_from
find-fuel contents cmp key index j h = cc

-- Slots other than the written one end a search as before, or do not.
module _ (contents : Contents) (cmp : ℕ → ℕ → Bool) (key i : ℕ) (x : Option Association) where
  other : (j : ℕ) → (i == j) ≡ false → get_elem? (set contents i x) j ≡ get_elem? contents j
  other j ne = get_elem?-set_other contents i j x ne

  Ends-other :
      (j : ℕ) → (i == j) ≡ false → Ends contents cmp key j → Ends (set contents i x) cmp key j
  Ends-other j ne (inl e) = inl (other j ne ∙ e)
  Ends-other j ne (inr (a, e, same)) = inr (a, other j ne ∙ e, same)

  step-other :
      (f index : ℕ) (a : Association)
      → (i == index) ≡ false
      → get_elem? contents index ≡ some (some a)
      → cmp a.key key ≡ false
      → find_index_from (suc f) (set contents i x) cmp key index
        ≡ find_index_from f (set contents i x) cmp key (next_index (length contents) index)
  step-other f index a ne e differ =
      find-differ f (set contents i x) cmp key index a (other index ne ∙ e) differ
      ∙ ap (λ n. find_index_from f (set contents i x) cmp key (next_index n index))
          (length-set contents i x)

  Ends-differ :
      (index : ℕ) (a : Association)
      → Ends contents cmp key i
      → get_elem? contents index ≡ some (some a)
      → cmp a.key key ≡ false
      → (i == index) ≡ false
  Ends-differ index a ends e differ = elim (Bool-cases (i == index)) [
    | inr ne ↦ ne
    | inl at ↦
        let p : i ≡ index = ground arith in
        let q : get_elem? contents i ≡ some (some a) = ap (get_elem? contents) p ∙ e in
        absurd (clash ends q)
  ]
    where
      clash : Ends contents cmp key i → get_elem? contents i ≡ some (some a) → ⊥
      clash (inl n) q = cc
      clash (inr (b, n, same)) q = ground arith

  -- A search that does not end at a slot where it could does not pass that slot.
  pub find-set_other :
      (f index j : ℕ)
      → Ends contents cmp key i
      → (i == j) ≡ false
      → find_index_from f contents cmp key index ≡ ok j
      → find_index_from f (set contents i x) cmp key index ≡ ok j
  find-set_other zero index j ends ne h = absurd (find-fuel contents cmp key index j h)
  find-set_other (suc f) index j ends ne h = elim (find-inversion f contents cmp key index j h) [
    | inl (here, p) ↦
        let ne' : (i == index) ≡ false = ground (arith, ne, p) in
        find-Ends f (set contents i x) cmp key index (Ends-other index ne' here) ∙ ap ok p
    | inr (a, e, differ, later) ↦
        step-other f index a (Ends-differ index a ends e differ) e differ
        ∙ find-set_other f _ j ends ne later
  ]

  -- A search that ends at the written slot still does, if the slot now ends it.
  pub find-set_self :
      (f index : ℕ)
      → Ends (set contents i x) cmp key i
      → find_index_from f contents cmp key index ≡ ok i
      → find_index_from f (set contents i x) cmp key index ≡ ok i
  find-set_self zero index ends h = absurd (find-fuel contents cmp key index i h)
  find-set_self (suc f) index ends h = elim (Bool-cases (i == index)) [
    | inl at ↦
        let p : index ≡ i = ground arith in rw p (find-Ends f (set contents i x) cmp key i ends)
    | inr ne ↦ elim (find-inversion f contents cmp key index i h) [
      | inl (here, p) ↦ absurd (ground (arith, ne, p))
      | inr (a, e, differ, later) ↦ step-other f index a ne e differ ∙ find-set_self f _ ends later
    ]
  ]

  -- Overwriting an association by one with the same key changes no search.
  pub find-set_same_key :
      (f index j : ℕ) (a b : Association)
      → x ≡ some b
      → get_elem? contents i ≡ some (some a)
      → b.key ≡ a.key
      → i < length contents
      → find_index_from f contents cmp key index ≡ ok j
      → find_index_from f (set contents i x) cmp key index ≡ ok j
  find-set_same_key zero index j a b ex e k lt h = absurd (find-fuel contents cmp key index j h)
  find-set_same_key (suc f) index j a b ex e k lt h =
      let now : get_elem? (set contents i x) i ≡ some (some b) =
        get_elem?-set_self contents i x lt ∙ ap some ex in
      elim (find-inversion f contents cmp key index j h) [
        | inl (here, p) ↦ elim (Bool-cases (i == index)) [
          | inr ne ↦
              find-Ends f (set contents i x) cmp key index (Ends-other index ne here) ∙ ap ok p
          | inl at ↦
              let q : i ≡ index = ground arith in
              let ends = ends_there a b e now k (rw (← q) at here) in
              ap (λ n. find_index_from (suc f) (set contents i x) cmp key n) (sym q)
              ∙ find-Ends f (set contents i x) cmp key i ends
              ∙ ap ok (q ∙ p)
        ]
        | inr (c, e', differ, later) ↦
            let ih = find-set_same_key f _ j a b ex e k lt later in
            elim (Bool-cases (i == index)) [
              | inr ne ↦ step-other f index c ne e' differ ∙ ih
              | inl at ↦
                  let q : i ≡ index = ground arith in
                  let same : get_elem? contents i ≡ some (some c) =
                    ap (get_elem? contents) q ∙ e' in
                  let key_of : a.key ≡ c.key = cc in
                  let now' : get_elem? (set contents i x) index ≡ some (some b) =
                    ap (get_elem? (set contents i x)) (sym q) ∙ now in
                  find-differ f (set contents i x) cmp key index b now'
                    (ap (λ n. cmp n key) (k ∙ key_of) ∙ differ)
                  ∙ ap (λ n. find_index_from f (set contents i x) cmp key (next_index n index))
                      (length-set contents i x)
                  ∙ ih
            ]
      ]
    where
      ends_there :
          (a b : Association)
          → get_elem? contents i ≡ some (some a)
          → get_elem? (set contents i x) i ≡ some (some b)
          → b.key ≡ a.key
          → Ends contents cmp key i
          → Ends (set contents i x) cmp key i
      ends_there a b e now k (inl n) = absurd (cc)
      ends_there a b e now k (inr (c, e', same)) =
          let key_of : a.key ≡ c.key = cc in inr (b, now, ap (λ n. cmp n key) (k ∙ key_of) ∙ same)
