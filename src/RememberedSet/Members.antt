-- ===== src/RememberedSet/Members.antt =====
-- The remembered set as a bag of objects: what the operations of vm/RememberedSet.h do to it.
use yet_another_smalltalk_vm.Base.{
  ℕ, zero, suc, ◌+◌, ◌-◌, ◌<◌, true, false, Option, none, some, List, [], ◌∷◌, ◌++◌, ◌==◌, ltb, ◌≡◌,
  refl, ◌∙◌, inl, inr, if◌then◌else◌, length, get-drop, get_elem?, drop, arith, Bool-cases,
  length-append,
}
use yet_another_smalltalk_vm.Base.Bits.{has_bit}
use yet_another_smalltalk_vm.Base.Counts.{one_if, count, count-append}
use yet_another_smalltalk_vm.Base.Result.{Run, ok, fault}
use yet_another_smalltalk_vm.RememberedSet.{
  RememberedSet, RememberedSetIterator, Tags, tag_remembered, remembered_set_block_size,
  remembered_set_grow, remembered_set_add, tag_object, iterator_set_block, skip_empty,
  init_remembered_set_iterator, next_block, remembered_set_iterator_next,
  remembered_set_iterator_has_next, iterate_remembered_set,
}

abbrev pub objects_of : List (List ℕ) → List ℕ
objects_of [] = []
objects_of (p ∷ ps) = p ++ objects_of ps

-- all objects, the newest block first
abbrev pub members : RememberedSet → List ℕ
members r = r.block ++ objects_of r.prev

abbrev pub AllFull : List (List ℕ) → Type 0
AllFull [] = Unit
AllFull (p ∷ ps) = (length p ≡ remembered_set_block_size) × AllFull ps

-- The newest block has room and the others are full.
abbrev pub IsValid : RememberedSet → Type 0
IsValid r = (length r.block < remembered_set_block_size) × AllFull r.prev

drop-length : (xs : List ℕ) → drop (length xs) xs ≡ []
drop-length [] = refl
drop-length (x ∷ xs) = drop-length xs

abbrev at : List ℕ → List (List ℕ) → ℕ → RememberedSetIterator
at block prev i = record { block = block; prev = prev; next = some i }

prepend : ℕ → Option (Run (List ℕ)) → Option (Run (List ℕ))
prepend x none = none
prepend x (some (fault e)) = some (fault e)
prepend x (some (ok xs)) = some (ok (x ∷ xs))

abbrev follow : List ℕ → List (List ℕ) → ℕ → RememberedSetIterator
follow block prev i =
    if ltb (i + 1) (length block) then at block prev (i + 1) else next_block prev (at block prev i)

iterate-step :
    (f : ℕ) (block : List ℕ) (prev : List (List ℕ)) (i x : ℕ)
    → get_elem? block i ≡ some x
    → iterate_remembered_set (suc f) (at block prev i)
      ≡ prepend x (iterate_remembered_set f (follow block prev i))
unfolding iterate_remembered_set remembered_set_iterator_next remembered_set_iterator_has_next
    prepend
iterate-step f block prev i x e = rw e (elim-same (iterate_remembered_set f (follow block prev i)))
  where
    elim-same :
        (r : Option (Run (List ℕ)))
        → (elim r [
          | none ↦ none
          | some (fault e) ↦ some (fault e)
          | some (ok objects) ↦ some (ok (x ∷ objects))
        ])
          ≡ prepend x r
    elim-same none = refl
    elim-same (some (ok y)) = refl
    elim-same (some (fault y)) = refl

iterate-none :
    (f : ℕ) (block : List ℕ) (prev : List (List ℕ))
    → 0 < f
    → iterate_remembered_set f (record { block = block; prev = prev; next = none }) ≡ some (ok [])
unfolding iterate_remembered_set remembered_set_iterator_has_next
iterate-none zero block prev h = absurd (omega arith)
iterate-none (suc f) block prev h = refl

set_block-full :
    (p : List ℕ) (ps : List (List ℕ)) → 0 < length p → iterator_set_block p ps ≡ at p ps 0
unfolding iterator_set_block
set_block-full p ps h = let e : ltb 0 (length p) ≡ true = ground arith in rw e

iterate-at :
    (f : ℕ) (block : List ℕ) (prev : List (List ℕ)) (i : ℕ)
    → i < length block
    → AllFull prev
    → length block - i + length (objects_of prev) < f
    → iterate_remembered_set f (at block prev i) ≡ some (ok (drop i block ++ objects_of prev))
unfolding prepend
iterate-at zero block prev i h full fuel = absurd (omega arith)
iterate-at (suc f) block prev i h full fuel =
    let (x, e, d) = get-drop block i h in
    let succ : suc i ≡ i + 1 = omega arith in
    iterate-step f block prev i x e ∙ elim (Bool-cases (ltb (i + 1) (length block))) [
      | inl more ↦
          let ih = iterate-at f block prev (i + 1) (ground arith) full (omega arith) in
          rw (more, ih, d, ← succ)
      | inr last ↦
          let size : suc i ≡ length block = ground arith in
          let done : drop (suc i) block ≡ [] = rw size (drop-length block) in
          rw (last, d, done)
            (elim prev
                as (λ q.
                  AllFull q
                  → length block - i + length (objects_of q) < suc f
                  → prepend x (iterate_remembered_set f (next_block q (at block q i)))
                    ≡ some (ok (x ∷ objects_of q))) [
                      | [] ↦ λ full fuel. rw (iterate-none f block [] (omega arith))
                      | p ∷ ps ↦ λ (size', rest) fuel. rw (
                        set_block-full p ps (omega arith),
                        iterate-at f p ps 0 (omega arith) rest
                            (omega (arith, length-append p (objects_of ps))),
                      )
                    ]
              full fuel)
    ]

init_iterator-empty :
    (f : ℕ) (prev : List (List ℕ))
    → AllFull prev
    → length (objects_of prev) < f
    → iterate_remembered_set f
        (skip_empty none prev (record { block = []; prev = prev; next = none }))
      ≡ some (ok (objects_of prev))
init_iterator-empty f [] full fuel = iterate-none f [] [] fuel
init_iterator-empty f (p ∷ ps) (size, rest) fuel =
    rw (set_block-full p ps (omega arith)) (
      iterate-at f p ps 0 (omega arith) rest (omega (arith, fuel, length-append p (objects_of ps))))

-- The iterator gives each object of a valid set, block by block from the newest, with one round of
-- the loop for each and one for its end.
pub iterate-members :
    (r : RememberedSet)
    → IsValid r
    → iterate_remembered_set (suc (length (members r))) (init_remembered_set_iterator r)
      ≡ some (ok (members r))
unfolding init_remembered_set_iterator iterator_set_block
iterate-members r (room, full) = elim (Bool-cases (ltb 0 (length r.block))) [
  | inl more ↦ rw more (
      iterate-at (suc (length (members r))) r.block r.prev 0 (ground arith) full
        (omega (arith, length-append r.block (objects_of r.prev))))
  | inr bare ↦
      let e : r.block ≡ [] = empty r.block (ground arith) in
      rw e (init_iterator-empty (suc (length (objects_of r.prev))) r.prev full (omega arith))
]
  where
    empty : (xs : List ℕ) → length xs ≡ 0 → xs ≡ []
    empty [] h = refl
    empty (x ∷ xs) h = absurd (omega (arith, h))

-- An object without TAG_REMEMBERED is added: the set stays valid, it has the object once more and
-- all others as often as before, and the tag of this object only is set.
pub remembered_set_add-members :
    (object : ℕ) (r : RememberedSet) (tags : Tags)
    → IsValid r
    → has_bit (tags object) tag_remembered ≡ false
    → (r' : RememberedSet) × (remembered_set_add object (r, tags) ≡ ok (r', tag_object object tags))
      × IsValid r'
      × ((x : ℕ) → count x (members r') ≡ one_if (x == object) + count x (members r))
unfolding remembered_set_add remembered_set_grow
remembered_set_add-members object r tags (room, full) fresh =
    let ok_room : ltb (length r.block) remembered_set_block_size ≡ true = ground arith in
    let size = length-append r.block (object ∷ []) in
    let counts : (x : ℕ)
        → count x ((r.block ++ object ∷ []) ++ objects_of r.prev)
          ≡ one_if (x == object) + count x (members r) =
      λ x. omega (
        arith,
        count-append x (r.block ++ object ∷ []) (objects_of r.prev),
        count-append x r.block (object ∷ []),
        count-append x r.block (objects_of r.prev),
      ) in
    elim (Bool-cases (length (r.block ++ object ∷ []) == remembered_set_block_size)) [
      | inl filled ↦ (
        record { block = []; prev = (r.block ++ object ∷ []) ∷ r.prev },
        rw (ok_room, fresh, filled),
        (omega arith, (ground arith, full)),
        counts,
      )
      | inr more ↦ (
        record r { block = r.block ++ object ∷ [] },
        rw (ok_room, fresh, more),
        (ground arith, full),
        counts,
      )
    ]
