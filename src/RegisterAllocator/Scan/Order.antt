-- ===== src/RegisterAllocator/Scan/Order.antt =====
-- The loop of `scanRegisters` over all variables, in the order of their definition.
use yet_another_smalltalk_vm.Base.{
  ℕ, ◌+◌, ◌≤◌, ◌<◌, true, false, List, [], ◌∷◌, ◌≡◌, refl, ap, ◌∙◌, ◌≢◌, inl, inr, ◌==◌,
  if◌then◌else◌, length, arith, Bool-cases,
}
use yet_another_smalltalk_vm.Base.Result.{ok}
use yet_another_smalltalk_vm.RegisterAllocator.{VarArray, spilled_reg}
use yet_another_smalltalk_vm.RegisterAllocator.Registers.{
  Scanner, init_scanner, scan_var, scan_vars,
}
use yet_another_smalltalk_vm.Base.Counts.{count}
use yet_another_smalltalk_vm.RegisterAllocator.Scan.Extend.{IsRegs, Scanned}
use yet_another_smalltalk_vm.RegisterAllocator.Scan.Round.{scan_var-Scanned}

-- Each variable stands in the order once, and they start one after the other; those with a
-- register from the beginning take no part.
abbrev pub IsOrdered : VarArray → ℕ → List ℕ → Type 0
IsOrdered vars bound [] = Unit
IsOrdered vars bound (i ∷ is) =
    (bound ≤ (vars i).start) × (count i is ≡ 0) × IsOrdered vars (vars i).start is

-- The variables that the loop takes up, in front of `done`.
abbrev pub taken_up : VarArray → List ℕ → List ℕ → List ℕ
taken_up vars [] done = done
taken_up vars (i ∷ is) done =
    taken_up vars is (if (vars i).reg == spilled_reg then i ∷ done else done)

count-taken_up_done :
    (vars : VarArray) (v : ℕ) (is done : List ℕ) → count v done ≤ count v (taken_up vars is done)
count-taken_up_done vars v [] done = omega arith
count-taken_up_done vars v (i ∷ is) done =
    ground (arith, count-taken_up_done vars v is (i ∷ done), count-taken_up_done vars v is done)

pub count-taken_up :
    (vars : VarArray) (v : ℕ) (is done : List ℕ)
    → 0 < count v is
    → (vars v).reg ≡ spilled_reg
    → 0 < count v (taken_up vars is done)
count-taken_up vars v [] done h unset = omega (arith, h)
count-taken_up vars v (i ∷ is) done h unset = elim (Bool-cases (v == i)) [
  | inl e ↦
      let p : v ≡ i = ground arith in
      let q : ((vars i).reg == spilled_reg) ≡ true =
        ground (arith, ap (λ k. (vars k).reg) p, unset) in
      let more = count-taken_up_done vars v is (i ∷ done) in rw q (ground arith)
  | inr e ↦
      count-taken_up vars v is (if (vars i).reg == spilled_reg then i ∷ done else done)
        (ground (arith, h)) unset
]

-- A variable with a register from the beginning is not taken up.
pub count-taken_up_set :
    (vars : VarArray) (v : ℕ) (is done : List ℕ)
    → count v done ≡ 0
    → (vars v).reg ≢ spilled_reg
    → count v (taken_up vars is done) ≡ 0
count-taken_up_set vars v [] done h set = h
count-taken_up_set vars v (i ∷ is) done h set = elim (Bool-cases ((vars i).reg == spilled_reg)) [
  | inl e ↦
      let ne : v ≢ i = λ p. set (ap (λ k. (vars k).reg) p ∙ ground arith) in
      rw e (count-taken_up_set vars v is (i ∷ done) (ground (arith, ne, h)) set)
  | inr e ↦ rw e (count-taken_up_set vars v is done h set)
]

IsOrdered-below :
    (vars : VarArray) {a b : ℕ} (is : List ℕ) → a ≤ b → IsOrdered vars b is → IsOrdered vars a is
IsOrdered-below vars [] h o = tt
IsOrdered-below vars (i ∷ is) h (late, once, rest) = (omega arith, once, rest)

inv_fresh :
    {v₀ : VarArray} {regs done : List ℕ} {bound : ℕ} {s : Scanner} (i : ℕ)
    → Scanned v₀ regs done bound s
    → count i done ≡ 0
    → (s.vars i).reg ≡ (v₀ i).reg
inv_fresh i inv new = inv.fresh i new

scan_set :
    (i : ℕ) (s : Scanner) (v₀ : VarArray)
    → (s.vars i).reg ≡ (v₀ i).reg
    → ((v₀ i).reg == spilled_reg) ≡ false
    → scan_var i s ≡ ok s
unfolding scan_var
scan_set i s v₀ e set =
    let set' : ((s.vars i).reg == spilled_reg) ≡ false = ground (arith, e, set) in rw set'

pub scan_vars-Scanned :
    {v₀ : VarArray} {regs done : List ℕ} {bound : ℕ} (is : List ℕ) (s : Scanner)
    → IsRegs regs
    → Scanned v₀ regs done bound s
    → IsOrdered v₀ bound is
    → ((v : ℕ) → 0 < count v is → count v done ≡ 0)
    → length done + length is ≤ 128
    → (last : ℕ) × (s' : Scanner) × (scan_vars is s ≡ ok s')
      × Scanned v₀ regs (taken_up v₀ is done) last s'
unfolding scan_vars
scan_vars-Scanned [] s regs_ok inv ordered new room = (_, s, refl, inv)
scan_vars-Scanned {v₀} {regs} {done} {bound} (i ∷ is) s regs_ok inv (late, once, ordered) new room =
    elim (Bool-cases ((v₀ i).reg == spilled_reg)) [
      | inl unset ↦
          let (s₁, e₁, inv₁) =
            scan_var-Scanned i s regs_ok inv (new i (ground arith)) (ground arith) (omega arith)
              late in
          let (last, s₂, e₂, inv₂) =
            scan_vars-Scanned is s₁ regs_ok inv₁ ordered
              (λ v lt. elim (Bool-cases (v == i)) [
                | inl e ↦
                    let p : v ≡ i = ground arith in
                    let c = ap (λ k. count k is) p in absurd (omega (arith, lt))
                | inr e ↦ ground (arith, new v (ground (arith, lt)))
              ])
              (omega arith) in
          (last, s₂, rw e₁ e₂, rw unset inv₂)
      | inr set ↦
          let (last, s₂, e₂, inv₂) =
            scan_vars-Scanned is s regs_ok inv (IsOrdered-below v₀ is late ordered)
              (λ v lt. new v (ground (arith, lt))) (omega arith) in
          (
            last,
            s₂,
            rw (scan_set i s v₀ (inv_fresh i inv (new i (ground arith))) set) e₂,
            rw set inv₂,
          )
    ]

pub init_scanner-Scanned :
    (vars : VarArray) (regs : List ℕ) → Scanned vars regs [] 0 (init_scanner vars regs)
unfolding init_scanner
init_scanner-Scanned vars regs = record {
  start = λ v. refl;
  stop = λ v. refl;
  fresh = λ v h. refl;
  free = λ x. omega arith;
  inside = λ v. omega arith;
  gone = λ v h r z. absurd (omega (arith, h));
  from = λ v h r. absurd (omega (arith, h));
  apart = λ v w h. absurd (omega (arith, h));
  used = refl;
  first = (omega arith, omega arith);
  last = omega arith;
}
