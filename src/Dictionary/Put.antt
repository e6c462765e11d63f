-- ===== src/Dictionary/Put.antt =====
-- A symbol dictionary (vm/Dictionary.c) as a map: what a lookup returns and what a store changes.
use Prim.Native.Nat.{bit_and}
use yet_another_smalltalk_vm.Base.{
  ℕ, ◌+◌, ◌-◌, ◌^◌, ◌<◌, ==_refl, ==_iff, false, none, some, ◌≡◌, refl, ap, sym, ◌∙◌, ◌⊎◌, inl, inr,
  Option, ◌==◌, if◌then◌else◌, length, get_elem?, set, length-set, get_elem?-set_self,
  get_elem?-set_other, arith, Bool-cases,
}
use yet_another_smalltalk_vm.Base.Bits.{bit_and-le}
use yet_another_smalltalk_vm.Base.Result.{Run, ok, ◌>>=◌}
use yet_another_smalltalk_vm.Dictionary.{
  Association, Contents, Dictionary, start_index, find_index_from, find_index, identity_cmp, lookup,
  dict_assoc_at, dict_at, dict_size, put_slot, dict_at_put_with,
}
use yet_another_smalltalk_vm.Dictionary.Probe.{Ends, find_index_from-Ends}
use yet_another_smalltalk_vm.Dictionary.View.{
  view, filled, OnlyAt, view-none, view-at, view-set, filled-set-none, filled-set-some, nil_slot,
}
use yet_another_smalltalk_vm.Dictionary.Write.{find-set_other, find-set_self, find-set_same_key}

abbrev value_of : Option Association → Option ℕ
value_of none = none
value_of (some a) = some a.value

-- The branches of the two operations, for a search that ended at `index`.
module _ (dict : Dictionary) (key hash index : ℕ)
    (e : find_index dict.contents identity_cmp key hash ≡ ok index) where
  dict_at-found :
      (slot : Option Association)
      → get_elem? dict.contents index ≡ some slot
      → dict_at dict identity_cmp key hash ≡ ok (value_of slot)
  unfolding dict_at dict_assoc_at
  dict_at-found none at = rw (e, ◌>>=◌, lookup, at)
  dict_at-found (some a) at = rw (e, ◌>>=◌, lookup, at)

  abbrev stored : ℕ → Dictionary
  stored value = put_slot dict index (record { key = key; value = value })

  dict_at_put-new :
      (grow : Dictionary → Run Dictionary) (value : ℕ)
      → get_elem? dict.contents index ≡ some none
      → dict_at_put_with grow dict identity_cmp key hash value ≡ (
          if dict.tally + 1 == length dict.contents
          then grow (record (stored value) { tally = dict.tally + 1 })
          else ok (record (stored value) { tally = dict.tally + 1 }))
  unfolding dict_at_put_with dict_size
  dict_at_put-new grow value at = rw (e, ◌>>=◌, lookup, at)

  dict_at_put-old :
      (grow : Dictionary → Run Dictionary) (value : ℕ) (a : Association)
      → get_elem? dict.contents index ≡ some (some a)
      → a.key ≡ key
      → dict_at_put_with grow dict identity_cmp key hash value ≡ ok (stored value)
  unfolding dict_at_put_with
  dict_at_put-old grow value a at same =
      rw (e, ◌>>=◌, lookup, at)
        (ap (λ n. ok (put_slot dict index (record { key = n; value = value }))) same)

module _ (hash : ℕ → ℕ) where
  -- The search for each key that is stored ends at its slot.
  abbrev pub IsPlaced : Contents → Type 0
  IsPlaced contents =
      (j : ℕ) (a : Association)
      → get_elem? contents j ≡ some (some a)
      → find_index contents identity_cmp a.key (hash a.key) ≡ ok j

  -- The tally counts the associations, and a slot at least is nil.
  pub record IsValid (dict : Dictionary) : Type 0 where
    pub placed : IsPlaced dict.contents
    pub counted : dict.tally ≡ filled dict.contents
    pub roomy : dict.tally < length dict.contents

  start-lt :
      (contents : Contents) (h : ℕ) → 0 < length contents → start_index contents h < length contents
  start-lt contents h pos = ground (arith, bit_and-le h (length contents - 1))

  -- In a table with a nil slot every search ends.
  search :
      (contents : Contents) (key h : ℕ)
      → filled contents < length contents
      → (j : ℕ) × (find_index contents identity_cmp key h ≡ ok j)
        × (j < length contents)
        × Ends contents identity_cmp key j
  unfolding find_index
  search contents key h room =
      let (i, e, lt) = nil_slot contents room in
      let low = start-lt contents h (omega arith) in
      find_index_from-Ends (length contents) contents identity_cmp key (start_index contents h) i
        low lt e (ground arith)

  -- Two slots with one key are one slot.
  placed-OnlyAt :
      (contents : Contents) (key j : ℕ)
      → IsPlaced contents
      → find_index contents identity_cmp key (hash key) ≡ ok j
      → OnlyAt contents key j
  placed-OnlyAt contents key j p e k a e' same =
      let q : find_index contents identity_cmp key (hash key) ≡ ok k =
        ap (λ n. find_index contents identity_cmp n (hash n)) (sym same) ∙ p k a e' in
      cc

  -- What a search found is what the map holds.
  found-view :
      (contents : Contents) (key j : ℕ)
      → IsPlaced contents
      → find_index contents identity_cmp key (hash key) ≡ ok j
      → Ends contents identity_cmp key j
      → (slot : Option Association) × (get_elem? contents j ≡ some slot)
        × (view contents key ≡ elim slot [ none ↦ none | some a ↦ some a.value ])
  found-view contents key j p e (inl empty) = (
    none,
    empty,
    view-none contents key (λ k a e' same.
        let q = placed-OnlyAt contents key j p e k a e' same in
        let r : get_elem? contents j ≡ some (some a) = ap (get_elem? contents) (sym q) ∙ e' in cc),
  )
  found-view contents key j p e (inr (a, e', same)) = (
    some a,
    e',
    view-at contents key j a e' (ground (arith, same)) (placed-OnlyAt contents key j p e),
  )

  -- A lookup in a valid dictionary returns what the map holds.
  pub dict_at-view :
      (dict : Dictionary) (key : ℕ)
      → IsValid dict
      → dict_at dict identity_cmp key (hash key) ≡ ok (view dict.contents key)
  unfolding dict_at dict_assoc_at
  dict_at-view dict key v =
      let (j, e, lt, ends) =
        search dict.contents key (hash key) (omega (arith, v.counted, v.roomy)) in
      let (slot, at, seen) = found-view dict.contents key j v.placed e ends in
      dict_at-found dict key (hash key) j e slot at ∙ ap ok (sym seen)

  module _ (contents : Contents) (key value j : ℕ) (p : IsPlaced contents)
      (e : find_index contents identity_cmp key (hash key) ≡ ok j) (lt : j < length contents) where
    abbrev entry : Association
    entry = record { key = key; value = value }

    abbrev after : Contents
    after = set contents j (some entry)

    -- The search in the written table starts where it did, with the same fuel.
    find_index-after :
        (k : ℕ)
        → find_index after identity_cmp k (hash k)
          ≡ find_index_from (length contents) after identity_cmp k (start_index contents (hash k))
    unfolding find_index
    find_index-after k =
        ap
          (λ n.
            find_index_from n after identity_cmp k
              (bit_and (hash k) (if n == 0 then 2 ^ 64 - 1 else n - 1)))
          (length-set contents j (some entry))

    at_entry : get_elem? after j ≡ some (some entry)
    at_entry = get_elem?-set_self contents j (some entry) lt

    placed_entry : find_index after identity_cmp key (hash key) ≡ ok j
    unfolding find_index
    placed_entry =
        find_index-after key
        ∙ find-set_self contents identity_cmp key j (some entry) (length contents)
            (start_index contents (hash key)) (inr (entry, at_entry, ==_refl key)) e

    -- The new entry is found where it is; so are the others, if their searches are undisturbed.
    IsPlaced-after :
        ((k : ℕ) (a : Association)
          → (j == k) ≡ false
          → get_elem? contents k ≡ some (some a)
          → find_index_from
              (length contents)
              after
              identity_cmp
              a.key
              (start_index contents (hash a.key))
            ≡ ok k)
        → IsPlaced after
    IsPlaced-after keeps k a at = elim (Bool-cases (j == k)) [
      | inl here ↦
          let q : j ≡ k = ground arith in
          let same : some (some entry) ≡ some (some a) =
            sym at_entry ∙ ap (get_elem? after) q ∙ at in
          let r : entry ≡ a = cc in
          ap (λ (b : Association). find_index after identity_cmp b.key (hash b.key)) (sym r)
          ∙ placed_entry
          ∙ ap ok q
      | inr elsewhere ↦
          find_index-after a.key
          ∙ keeps k a elsewhere (sym (get_elem?-set_other contents j k (some entry) elsewhere) ∙ at)
    ]

    IsPlaced-new : get_elem? contents j ≡ some none → IsPlaced after
    unfolding find_index
    IsPlaced-new empty = IsPlaced-after (λ k a elsewhere at.
        find-set_other contents identity_cmp a.key j (some entry) (length contents)
          (start_index contents (hash a.key)) k (inl empty) elsewhere (p k a at))

    IsPlaced-old :
        (b : Association) → get_elem? contents j ≡ some (some b) → b.key ≡ key → IsPlaced after
    unfolding find_index
    IsPlaced-old b full same = IsPlaced-after (λ k a elsewhere at.
        find-set_same_key contents identity_cmp a.key j (some entry) (length contents)
          (start_index contents (hash a.key)) k b entry refl full (sym same) lt (p k a at))

    view-after :
        ((b : Association) → get_elem? contents j ≡ some (some b) → b.key ≡ key)
        → (k : ℕ) → view after k ≡ (if key == k then some value else view contents k)
    view-after same k = view-set contents j entry k lt (placed-OnlyAt contents key j p e) same

  -- what a store of `value` under `key` leaves: associations at their slots, counted, and the map
  -- changed at `key` only
  pub record Stored (dict : Dictionary) (key value : ℕ) (dict' : Dictionary) : Type 0 where
    pub placed : IsPlaced dict'.contents
    pub counted : dict'.tally ≡ filled dict'.contents
    pub slots : length dict'.contents ≡ length dict.contents
    pub reads :
        (k : ℕ) → view dict'.contents k ≡ (if key == k then some value else view dict.contents k)

  -- how a store ends: at once, in a valid dictionary, or in `growDictionary`, if no slot is left
  abbrev pub Puts : (Dictionary → Run Dictionary) → Dictionary → ℕ → ℕ → Type 0
  Puts grow dict key value =
      (dict' : Dictionary) × Stored dict key value dict'
      × (((dict_at_put_with grow dict identity_cmp key (hash key) value ≡ ok dict') × IsValid dict')
          ⊎ ((dict_at_put_with grow dict identity_cmp key (hash key) value ≡ grow dict')
              × (dict'.tally ≡ length dict'.contents)))

  module _ (grow : Dictionary → Run Dictionary) (dict : Dictionary) (key value j : ℕ)
      (v : IsValid dict) (e : find_index dict.contents identity_cmp key (hash key) ≡ ok j)
      (lt : j < length dict.contents) where
    width : length (after dict.contents key value j v.placed e lt) ≡ length dict.contents
    width = length-set dict.contents j (some (entry dict.contents key value j v.placed e lt))

    put_new : get_elem? dict.contents j ≡ some none → Puts grow dict key value
    put_new empty =
        let run = dict_at_put-new dict key (hash key) j e grow value empty in
        let placed = IsPlaced-new dict.contents key value j v.placed e lt empty in
        let counted =
          filled-set-none dict.contents j (entry dict.contents key value j v.placed e lt) empty in
        let reads = view-after dict.contents key value j v.placed e lt (λ b full. absurd (cc)) in
        (
          record (stored dict key (hash key) j e value) { tally = dict.tally + 1 },
          record {
            placed = placed;
            counted = omega (arith, v.counted, counted);
            slots = width;
            reads = reads;
          },
          elim (Bool-cases (dict.tally + 1 == length dict.contents)) [
            | inl full ↦ inr (
              run ∙ rw full,
              omega (arith, width, (==_iff (dict.tally + 1) (length dict.contents)).0 full),
            )
            | inr room ↦ inl (
              run ∙ rw room,
              record {
                placed = placed;
                counted = omega (arith, v.counted, counted);
                roomy = ground (arith, width, v.roomy);
              },
            )
          ],
        )

    put_old :
        (a : Association)
        → get_elem? dict.contents j ≡ some (some a)
        → a.key ≡ key
        → Puts grow dict key value
    put_old a full same =
        let placed = IsPlaced-old dict.contents key value j v.placed e lt a full same in
        let counted =
          filled-set-some dict.contents j (entry dict.contents key value j v.placed e lt) a full in
        let reads =
          view-after dict.contents key value j v.placed e lt
            (λ b full'. let q : a ≡ b = cc in ap (λ (c : Association). c.key) (sym q) ∙ same) in
        (
          stored dict key (hash key) j e value,
          record {
            placed = placed;
            counted = omega (arith, v.counted, counted);
            slots = width;
            reads = reads;
          },
          inl (
            dict_at_put-old dict key (hash key) j e grow value a full same,
            record {
              placed = placed;
              counted = omega (arith, v.counted, counted);
              roomy = omega (arith, width, v.roomy);
            },
          ),
        )

  -- A store in a valid dictionary leaves associations that searches find, a tally that counts them,
  -- as many slots, and the map changed at the key only. It returns such a dictionary with a nil slot
  -- left, or hands it on to `growDictionary` with none left.
  pub dict_at_put-Stored :
      (grow : Dictionary → Run Dictionary) (dict : Dictionary) (key value : ℕ)
      → IsValid dict
      → Puts grow dict key value
  dict_at_put-Stored grow dict key value v =
      let (j, e, lt, ends) =
        search dict.contents key (hash key) (omega (arith, v.counted, v.roomy)) in
      elim ends [
        | inl empty ↦ put_new grow dict key value j v e lt empty
        | inr (a, full, same) ↦ put_old grow dict key value j v e lt a full (ground (arith, same))
      ]
