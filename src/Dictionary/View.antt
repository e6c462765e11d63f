-- ===== src/Dictionary/View.antt =====
-- The table of vm/Dictionary.c as a map: the value of a key, read slot by slot.
use yet_another_smalltalk_vm.Base.{
  ℕ, zero, suc, ◌<◌, none, some, [], ◌∷◌, ◌≡◌, ◌≢◌, refl, ap, inl, inr, Option, ◌==◌, if◌then◌else◌,
  length, get_elem?, set, arith, Bool-cases,
}
use yet_another_smalltalk_vm.Dictionary.{Association, Contents}

-- the value of `key`, if a slot holds it
abbrev pub view : Contents → ℕ → Option ℕ
view [] key = none
view (none ∷ slots) key = view slots key
view (some a ∷ slots) key = if a.key == key then some a.value else view slots key

-- how many slots hold an association
abbrev pub filled : Contents → ℕ
filled [] = 0
filled (none ∷ slots) = filled slots
filled (some a ∷ slots) = suc (filled slots)

-- at most the slot `i` holds the key `key`
abbrev pub OnlyAt : Contents → ℕ → ℕ → Type 0
OnlyAt contents key i =
    (j : ℕ) (a : Association) → get_elem? contents j ≡ some (some a) → a.key ≡ key → j ≡ i

pub view-none :
    (contents : Contents) (key : ℕ)
    → ((j : ℕ) (a : Association) → get_elem? contents j ≡ some (some a) → a.key ≢ key)
    → view contents key ≡ none
view-none [] key h = refl
view-none (none ∷ slots) key h = view-none slots key (λ j. h (suc j))
view-none (some a ∷ slots) key h =
    let ne = h 0 a refl in
    let rest = view-none slots key (λ j. h (suc j)) in ground (arith, ne, rest)

pub view-at :
    (contents : Contents) (key i : ℕ) (a : Association)
    → get_elem? contents i ≡ some (some a)
    → a.key ≡ key
    → OnlyAt contents key i
    → view contents key ≡ some a.value
view-at [] key i a e k only = absurd (cc)
view-at (none ∷ slots) key zero a e k only = absurd (cc)
view-at (none ∷ slots) key (suc i) a e k only =
    view-at slots key i a e k (λ j b e' k'. let q = only (suc j) b e' k' in omega arith)
view-at (some b ∷ slots) key zero a e k only = ground arith
view-at (some b ∷ slots) key (suc i) a e k only = elim (Bool-cases (b.key == key)) [
  | inl same ↦ let q = only 0 b refl (ground arith) in absurd (omega arith)
  | inr differ ↦
      rw differ
        (view-at slots key i a e k (λ j c e' k'. let q = only (suc j) c e' k' in omega arith))
]

-- The write law, at a slot that no other slot competes with.
pub view-set :
    (contents : Contents) (i : ℕ) (a : Association) (key : ℕ)
    → i < length contents
    → OnlyAt contents a.key i
    → ((b : Association) → get_elem? contents i ≡ some (some b) → b.key ≡ a.key)
    → view (set contents i (some a)) key
      ≡ (if a.key == key then some a.value else view contents key)
view-set [] i a key lt only same = absurd (omega arith)
view-set (none ∷ slots) zero a key lt only same = refl
view-set (some b ∷ slots) zero a key lt only same =
    let k : b.key ≡ a.key = same b refl in
    let rest : view (some b ∷ slots) key ≡ (if a.key == key then some b.value else view slots key) =
      ap (λ n. if n == key then some b.value else view slots key) k in
    ground (arith, rest)
view-set (none ∷ slots) (suc i) a key lt only same =
    view-set slots i a key (omega arith) (λ j c e k. let q = only (suc j) c e k in omega arith) same
view-set (some b ∷ slots) (suc i) a key lt only same =
    let ih =
      view-set slots i a key (omega arith) (λ j c e k. let q = only (suc j) c e k in omega arith)
        same in
    let apart : b.key ≢ a.key = λ k. let q = only 0 b refl k in omega arith in
    rw ih (ground (arith, apart))

pub filled-set-none :
    (contents : Contents) (i : ℕ) (a : Association)
    → get_elem? contents i ≡ some none
    → filled (set contents i (some a)) ≡ suc (filled contents)
filled-set-none [] i a e = absurd (cc)
filled-set-none (none ∷ slots) zero a e = refl
filled-set-none (some b ∷ slots) zero a e = absurd (cc)
filled-set-none (none ∷ slots) (suc i) a e = filled-set-none slots i a e
filled-set-none (some b ∷ slots) (suc i) a e = ap suc (filled-set-none slots i a e)

pub filled-set-some :
    (contents : Contents) (i : ℕ) (a b : Association)
    → get_elem? contents i ≡ some (some b)
    → filled (set contents i (some a)) ≡ filled contents
filled-set-some [] i a b e = absurd (cc)
filled-set-some (none ∷ slots) zero a b e = absurd (cc)
filled-set-some (some c ∷ slots) zero a b e = refl
filled-set-some (none ∷ slots) (suc i) a b e = filled-set-some slots i a b e
filled-set-some (some c ∷ slots) (suc i) a b e = ap suc (filled-set-some slots i a b e)

-- A table that is not full has a nil slot.
pub nil_slot :
    (contents : Contents)
    → filled contents < length contents
    → (i : ℕ) × (get_elem? contents i ≡ some none) × (i < length contents)
nil_slot [] h = absurd (omega arith)
nil_slot (none ∷ slots) h = (0, refl, omega arith)
nil_slot (some a ∷ slots) h =
    let (i, e, lt) = nil_slot slots (omega arith) in (suc i, e, omega arith)
