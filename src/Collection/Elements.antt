-- ===== src/Collection/Elements.antt =====
-- The ordered collections of vm/Collection.c as lists of their elements.
use yet_another_smalltalk_vm.Base.{
  ℕ, zero, suc, ◌+◌, ◌-◌, ◌^◌, ◌%◌, append-nil, ◌≤◌, ◌<◌, ◌≡◌, refl, sym, ap, ◌∙◌, true, some, List,
  [], ◌∷◌, ◌++◌, ◌==◌, ltb, if◌then◌else◌, length, get_elem?, set, take, drop, length-take, ==_iff,
  replicate, length-set, length-append, length-replicate, Bool-cases, inl, inr, ◌⊎◌, arith,
}
use yet_another_smalltalk_vm.Base.Result.{ok, fault, out_of_bounds, ◌>>=◌}
use yet_another_smalltalk_vm.Object.{tag_ptr, value_type_of, value_pointer, as_object}
use yet_another_smalltalk_vm.Collection.{
  OrderedCollection, copy_vars, grow_contents, new_ord_coll, ord_coll_size, store_values,
  array_as_ord_coll, ord_coll_add, ord_coll_remove_last, ord_coll_as_array,
}

abbrev pub elements : OrderedCollection → List ℕ
elements c = take (ord_coll_size c) (drop (c.first_index - 1) c.contents)

-- A collection that starts at the first variable, as the C code makes it.
pub record IsPacked (c : OrderedCollection) : Type 0 where
  pub first : c.first_index ≡ 1
  pub within : c.last_index ≤ length c.contents

pub packed-size : (c : OrderedCollection) → c.first_index ≡ 1 → ord_coll_size c ≡ c.last_index
unfolding ord_coll_size
packed-size c e = ground arith

pub packed-elements :
    (c : OrderedCollection) → c.first_index ≡ 1 → elements c ≡ take c.last_index c.contents
packed-elements c e = simp (packed-size c e, e)

copy_vars-take :
    (to from : List ℕ) (size : ℕ)
    → size ≤ length to
    → size ≤ length from
    → copy_vars to from size ≡ ok (take size from ++ drop size to)
unfolding copy_vars
copy_vars-take to from zero a b = refl
copy_vars-take [] from (suc size) a b = absurd (omega arith)
copy_vars-take (t ∷ to) [] (suc size) a b = absurd (omega arith)
copy_vars-take (t ∷ to) (f ∷ from) (suc size) a b =
    rw (copy_vars-take to from size (omega arith) (omega arith)) refl

take-set :
    (vars : List ℕ) (i : ℕ) (v : ℕ)
    → i < length vars
    → take (suc i) (set vars i v) ≡ take i vars ++ v ∷ []
take-set [] i v h = absurd (omega arith)
take-set (x ∷ vars) zero v h = refl
take-set (x ∷ vars) (suc i) v h = ap (λ r. x ∷ r) (take-set vars i v (omega arith))

take_all : (xs ys : List ℕ) → take (length xs) (xs ++ ys) ≡ xs
take_all [] ys = refl
take_all (x ∷ xs) ys = ap (λ r. x ∷ r) (take_all xs ys)

take_whole : (xs : List ℕ) → take (length xs) xs ≡ xs
take_whole [] = refl
take_whole (x ∷ xs) = ap (λ r. x ∷ r) (take_whole xs)

drop-lt : (n : ℕ) (xs : List ℕ) → length (drop n xs) ≡ length xs - n
drop-lt zero xs = omega arith
drop-lt (suc n) [] = omega arith
drop-lt (suc n) (x ∷ xs) = omega (arith, drop-lt n xs)

-- What stands below `n` and the room above it.
record Grown (vars : List ℕ) (n : ℕ) (grown : List ℕ) : Type 0 where
  same : take n grown ≡ take n vars
  room : n < length grown

length-copied :
    (vars : List ℕ) (nil n : ℕ)
    → n ≤ length vars
    → length (take n vars ++ drop n (replicate (n + 8) nil)) ≡ n + 8
length-copied vars nil n le =
    length-append (take n vars) (drop n (replicate (n + 8) nil))
    ∙ omega
        (arith, length-take n vars, drop-lt n (replicate (n + 8) nil), length-replicate (n + 8) nil)

grow_contents-Grown :
    (nil : ℕ) (c : OrderedCollection)
    → IsPacked c
    → (grown : List ℕ) × (grow_contents nil c ≡ ok grown) × Grown c.contents c.last_index grown
unfolding grow_contents
grow_contents-Grown nil c p = elim (Bool-cases (ord_coll_size c == length c.contents)) [
  | inr h ↦ (
    c.contents,
    rw (h, grow_contents) refl,
    record { same = refl; room = ground (arith, packed-size c p.first, p.within) },
  )
  | inl h ↦
      let full : ord_coll_size c ≡ length c.contents = (==_iff _ _).0 h in
      let n = length c.contents in
      let last : c.last_index ≡ n = sym (packed-size c p.first) ∙ full in
      let copied = take n c.contents ++ drop n (replicate (n + 8) nil) in
      let e =
        copy_vars-take (replicate (n + 8) nil) c.contents n
          (omega (arith, length-replicate (n + 8) nil)) (omega arith) in
      (
        copied,
        rw (h, grow_contents, full) e,
        record {
          same = rw (last, take_whole c.contents) (take_all c.contents _);
          room = rw last (omega (arith, length-copied c.contents nil n (omega arith)));
        },
      )
]

-- When the elements start at the first variable, ordCollAdd succeeds, whether it has to make room or not, and appends the value to the elements, which start there again.
pub ord_coll_add-elements :
    (nil value : ℕ) (c : OrderedCollection)
    → IsPacked c
    → (c' : OrderedCollection) × (ord_coll_add nil value c ≡ ok c')
      × IsPacked c'
      × (elements c' ≡ elements c ++ value ∷ [])
unfolding ord_coll_add
ord_coll_add-elements nil value c p =
    let (grown, e, g) = grow_contents-Grown nil c p in
    let c' = record c { contents = set grown c.last_index value; last_index = suc c.last_index } in
    let fits : ltb c.last_index (length grown) ≡ true = ground (arith, g.room) in
    (
      c',
      rw (e, fits, ord_coll_add) refl,
      record {
        first = p.first;
        within = omega (arith, length-set grown c.last_index value, g.room);
      },
      packed-elements c' p.first
          ∙ take-set grown c.last_index value g.room
          ∙ ap (λ r. r ++ value ∷ []) (g.same ∙ sym (packed-elements c p.first)),
    )

snoc_of :
    (n : ℕ) (vars : List ℕ)
    → n < length vars
    → (x : ℕ) × (take (suc n) vars ≡ take n vars ++ x ∷ [])
snoc_of n [] h = absurd (omega arith)
snoc_of zero (x ∷ vars) h = (x, refl)
snoc_of (suc n) (y ∷ vars) h = let (x, e) = snoc_of n vars (omega arith) in (x, ap (λ r. y ∷ r) e)

take-set_self : (n : ℕ) (vars : List ℕ) (v : ℕ) → take n (set vars n v) ≡ take n vars
take-set_self zero vars v = refl
take-set_self (suc n) [] v = refl
take-set_self (suc n) (x ∷ vars) v = ap (λ r. x ∷ r) (take-set_self n vars v)

-- `c'` is `c` without its last element.
pub record IsInit (c c' : OrderedCollection) : Type 0 where
  pub packed : IsPacked c'
  pub last : ℕ
  pub elements_before : elements c ≡ elements c' ++ last ∷ []

RemoveOutcome : ℕ → OrderedCollection → Type 0
RemoveOutcome nil c =
    ((elements c ≡ []) × (ord_coll_remove_last nil c ≡ fault out_of_bounds))
    ⊎ ((c' : OrderedCollection) × (ord_coll_remove_last nil c ≡ ok c') × IsInit c c')

remove_last-at :
    (nil first : ℕ) (vars : List ℕ) (last : ℕ)
    → first ≡ 1
    → last ≤ length vars
    → RemoveOutcome nil (record { contents = vars; first_index = first; last_index = last })
unfolding ord_coll_remove_last RemoveOutcome
remove_last-at nil first vars zero e le = inl (packed-elements _ e, refl)
remove_last-at nil first vars (suc n) e le =
    let c' : OrderedCollection = record {
      contents = set vars n nil;
      first_index = first;
      last_index = n;
    } in
    let fits : ltb n (length vars) ≡ true = ground arith in
    let (x, split) = snoc_of n vars le in
    let same = sym (packed-elements c' e ∙ take-set_self n vars nil) in
    inr (
      c',
      rw (fits, ord_coll_remove_last) refl,
      record {
        packed = record { first = e; within = omega (arith, length-set vars n nil) };
        last = x;
        elements_before = packed-elements _ e ∙ split ∙ ap (λ r. r ++ x ∷ []) same;
      },
    )

-- On a collection whose elements start at the first variable, ordCollRemoveLast takes the last element away; on an empty one it writes before the first variable of the array.
pub ord_coll_remove_last-IsInit :
    (nil : ℕ) (c : OrderedCollection)
    → IsPacked c
    → ((elements c ≡ []) × (ord_coll_remove_last nil c ≡ fault out_of_bounds))
      ⊎ ((c' : OrderedCollection) × (ord_coll_remove_last nil c ≡ ok c') × IsInit c c')
unfolding RemoveOutcome
ord_coll_remove_last-IsInit nil c p =
    remove_last-at nil c.first_index c.contents c.last_index p.first p.within

drop_all : (n nil : ℕ) → drop n (replicate n nil) ≡ []
drop_all zero nil = refl
drop_all (suc n) nil = drop_all n nil

store_value :
    (v : ℕ)
    → v < 2 ^ 64
    → (if value_type_of v value_pointer
        then (as_object v >>= λ object. ok (tag_ptr object))
        else ok v)
      ≡ ok v
unfolding value_type_of as_object tag_ptr
store_value v lt = elim (Bool-cases (v % 4 == 1)) [
  | inl h ↦
      let back : (v - 1 + 1) % 2 ^ 64 ≡ v = ground arith in
      rw (h, value_type_of, as_object, tag_ptr, back) refl
  | inr h ↦ rw (h, value_type_of) refl
]

store_values-same :
    (contents vars : List ℕ)
    → length contents ≡ length vars
    → ((i v : ℕ) → get_elem? vars i ≡ some v → v < 2 ^ 64)
    → store_values contents vars ≡ ok vars
unfolding store_values
store_values-same [] [] e words = refl
store_values-same (c ∷ contents) [] e words = absurd (omega (arith, e))
store_values-same [] (v ∷ vars) e words = absurd (omega (arith, e))
store_values-same (c ∷ contents) (v ∷ vars) e words =
    rw
      (
        store_value v (words 0 v refl),
        store_values-same contents vars (omega (arith, e)) (λ i w h. words (suc i) w h),
      )
      refl

-- For an array of values below 2 ^ 64, arrayAsOrdColl makes a collection that has them as its elements, and ordCollAsArray of it is the array again.
pub array_as_ord_coll-as_array :
    (nil : ℕ) (vars : List ℕ)
    → ((i v : ℕ) → get_elem? vars i ≡ some v → v < 2 ^ 64)
    → (c : OrderedCollection) × (array_as_ord_coll nil vars ≡ ok c)
      × IsPacked c
      × (elements c ≡ vars)
      × (ord_coll_as_array nil c ≡ ok vars)
unfolding array_as_ord_coll new_ord_coll ord_coll_as_array
array_as_ord_coll-as_array nil vars words =
    let n = length vars in
    let c : OrderedCollection = record { contents = vars; first_index = 1; last_index = n } in
    let stored = store_values-same (replicate n nil) vars (length-replicate n nil) words in
    let whole = take_whole vars in
    let size : ord_coll_size c ≡ n = packed-size c refl in
    let add_zero : 0 + n ≡ n = omega arith in
    let copied : copy_vars (replicate n nil) vars n ≡ ok vars =
      copy_vars-take (replicate n nil) vars n (omega (arith, length-replicate n nil)) (omega arith)
      ∙ ap ok (rw (whole, drop_all n nil) (append-nil vars)) in
    (
      c,
      rw (array_as_ord_coll, new_ord_coll, stored, add_zero) refl,
      record { first = refl; within = omega arith },
      packed-elements c refl ∙ whole,
      rw (ord_coll_as_array, size) copied,
    )
