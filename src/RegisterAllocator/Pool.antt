-- ===== src/RegisterAllocator/Pool.antt =====
-- Registers counted: those of the pool and those that the sorted variables hold. It is about
-- `removeDeadVars` and `removeVar`.
use yet_another_smalltalk_vm.Base.{
  ℕ, ◌+◌, ◌≤◌, ◌<◌, Bool, true, false, List, [], ◌∷◌, ◌++◌, ◌≡◌, refl, ap, ◌≢◌, ◌==◌, ltb,
  if◌then◌else◌, length, arith, Bool-cases, inl, inr, ◌-◌,
}
use yet_another_smalltalk_vm.Base.Counts.{one_if, count}
use yet_another_smalltalk_vm.Base.Result.{ok}
use yet_another_smalltalk_vm.RegisterAllocator.{VarArray, update}
use yet_another_smalltalk_vm.RegisterAllocator.Registers.{remove_dead, reuse_var_reg, set_reg}

-- How many of the variables `is` have the register `x`.
abbrev pub held : VarArray → ℕ → List ℕ → ℕ
held vars x [] = 0
held vars x (i ∷ is) = one_if (x == (vars i).reg) + held vars x is

pub held-append :
    (vars : VarArray) (x : ℕ) (is js : List ℕ)
    → held vars x (is ++ js) ≡ held vars x is + held vars x js
held-append vars x [] js = omega arith
held-append vars x (i ∷ is) js = omega (arith, held-append vars x is js)

-- Two variables of the list with one register: it is held twice.
pub count-le-held :
    (vars : VarArray) (v w : ℕ) (is : List ℕ)
    → v ≢ w
    → (vars v).reg ≡ (vars w).reg
    → count v is + count w is ≤ held vars (vars v).reg is
count-le-held vars v w [] ne e = omega arith
count-le-held vars v w (i ∷ is) ne e =
    let ih = count-le-held vars v w is ne e in
    elim (Bool-cases (v == i)) [
      | inl a ↦
          let p : v ≡ i = ground arith in
          let q : (vars v).reg ≡ (vars i).reg = ap (λ k. (vars k).reg) p in ground (arith, ih, q)
      | inr a ↦ elim (Bool-cases (w == i)) [
        | inl b ↦
            let p : w ≡ i = ground arith in
            let q : (vars w).reg ≡ (vars i).reg = ap (λ k. (vars k).reg) p in ground (arith, ih, q)
        | inr b ↦ ground (arith, ih)
      ]
    ]

pub count-le-held_one :
    (vars : VarArray) (v : ℕ) (is : List ℕ) → count v is ≤ held vars (vars v).reg is
count-le-held_one vars v [] = omega arith
count-le-held_one vars v (i ∷ is) =
    let ih = count-le-held_one vars v is in
    elim (Bool-cases (v == i)) [
      | inl a ↦
          let p : v ≡ i = ground arith in
          let q : (vars v).reg ≡ (vars i).reg = ap (λ k. (vars k).reg) p in ground (arith, ih, q)
      | inr a ↦ ground (arith, ih)
    ]

-- Only the registers of the listed variables count.
pub held_congr :
    (vars vars' : VarArray) (x : ℕ) (is : List ℕ)
    → ((v : ℕ) → 0 < count v is → (vars' v).reg ≡ (vars v).reg)
    → held vars' x is ≡ held vars x is
held_congr vars vars' x [] h = refl
held_congr vars vars' x (i ∷ is) h =
    let e : (vars' i).reg ≡ (vars i).reg = h i (ground arith) in
    let ih = held_congr vars vars' x is (λ v lt. h v (ground (arith, lt))) in
    rw e (omega (arith, ih))

pub reg-set_reg :
    (vars : VarArray) (i r v : ℕ) → (set_reg vars i r v).reg ≡ (if i == v then r else (vars v).reg)
unfolding update
reg-set_reg vars i r v = elim (Bool-cases (i == v)) [ inl h ↦ rw h | inr h ↦ rw h ]

pub start-set_reg : (vars : VarArray) (i r v : ℕ) → (set_reg vars i r v).start ≡ (vars v).start
unfolding update
start-set_reg vars i r v = elim (Bool-cases (i == v)) [
  | inl h ↦ let e : i ≡ v = ground arith in rw h (ap (λ k. (vars k).start) e)
  | inr h ↦ rw h
]

pub stop-set_reg : (vars : VarArray) (i r v : ℕ) → (set_reg vars i r v).stop ≡ (vars v).stop
unfolding update
stop-set_reg vars i r v = elim (Bool-cases (i == v)) [
  | inl h ↦ let e : i ≡ v = ground arith in rw h (ap (λ k. (vars k).stop) e)
  | inr h ↦ rw h
]

-- What `remove_dead` leaves of the list `is`, with the pool behind it and the slots used.
pub record Removed (vars : VarArray) (offset : ℕ) (is : List ℕ) (pool : List ℕ) (used : ℕ)
    : Type 0 where
  pub live : List ℕ
  pub pool' : List ℕ
  pub used' : ℕ
  pub registers : (x : ℕ) → count x pool' + held vars x live ≡ count x pool + held vars x is
  pub fewer : (v : ℕ) → count v live ≤ count v is
  pub kept : (v : ℕ) → offset ≤ (vars v).stop → count v live ≡ count v is
  pub slots : used' + length is ≡ used + length live
  pub shorter : length live ≤ length is

abbrev pub removed_of :
    {vars : VarArray} {offset : ℕ} {is : List ℕ} {pool : List ℕ} {used : ℕ}
    → Removed vars offset is pool used
    → List ℕ × (List ℕ × ℕ)
removed_of r = (r.live, (r.pool', r.used'))

keep :
    (vars : VarArray) (offset i : ℕ) (is pool : List ℕ) (used : ℕ)
    → Removed vars offset is pool used
    → Removed vars offset (i ∷ is) pool used
keep vars offset i is pool used r = record {
  live = i ∷ r.live;
  pool' = r.pool';
  used' = r.used';
  registers = λ x. omega (arith, r.registers x);
  fewer = λ v. omega (arith, r.fewer v);
  kept = λ v h. omega (arith, r.kept v h);
  slots = omega (arith, r.slots);
  shorter = omega (arith, r.shorter);
}

dead :
    (vars : VarArray) (offset i : ℕ) (is pool : List ℕ) (used : ℕ)
    → (vars i).stop < offset
    → 0 < used
    → Removed vars offset is ((vars i).reg ∷ pool) (used - 1)
    → Removed vars offset (i ∷ is) pool used
dead vars offset i is pool used h hu r = record {
  live = r.live;
  pool' = r.pool';
  used' = r.used';
  registers = λ x. omega (arith, r.registers x);
  fewer = λ v. omega (arith, r.fewer v);
  kept = λ v hv. elim (Bool-cases (v == i)) [
    | inl e ↦
        let p : v ≡ i = ground arith in
        let q : (vars v).stop ≡ (vars i).stop = ap (λ k. (vars k).stop) p in absurd (omega arith)
    | inr e ↦ ground (arith, r.kept v hv)
  ];
  slots = omega (arith, r.slots);
  shorter = omega (arith, r.shorter);
}

-- With a slot in use for each variable of the list, the loop is without a fault.
pub remove_dead-Removed :
    (vars : VarArray) (offset : ℕ) (passed : Bool) (is pool : List ℕ) (used : ℕ)
    → length is ≤ used
    → (r : Removed vars offset is pool used) × (remove_dead vars offset passed is (pool, used)
        ≡ ok (removed_of r))
unfolding remove_dead reuse_var_reg dead keep
remove_dead-Removed vars offset passed [] pool used h = (
  record {
    live = [];
    pool' = pool;
    used' = used;
    registers = λ x. refl;
    fewer = λ v. omega arith;
    kept = λ v e. refl;
    slots = refl;
    shorter = omega arith;
  },
  refl,
)
remove_dead-Removed vars offset true (i ∷ is) pool used h =
    let (r, e) = remove_dead-Removed vars offset false is pool used (omega arith) in
    (keep vars offset i is pool used r, rw e)
remove_dead-Removed vars offset false (i ∷ is) pool used h =
    elim (Bool-cases (ltb (vars i).stop offset)) [
      | inl late ↦
          let (r, e) =
            remove_dead-Removed vars offset true is ((vars i).reg ∷ pool) (used - 1)
              (omega arith) in
          let slot : (used == 0) ≡ false = ground arith in
          (dead vars offset i is pool used (ground arith) (omega arith) r, rw (late, slot) e)
      | inr live ↦
          let (r, e) = remove_dead-Removed vars offset false is pool used (omega arith) in
          (keep vars offset i is pool used r, rw (live, e))
    ]
