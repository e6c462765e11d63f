-- ===== src/RegisterAllocator/Scan/Round.antt =====
-- One whole round of the loop of `scanRegisters`, for a variable without a register.
use yet_another_smalltalk_vm.Base.{
  ℕ, suc, ◌+◌, ◌-◌, ◌≤◌, ◌<◌, true, false, List, [], ◌∷◌, ◌++◌, ◌≡◌, refl, ap, ◌∙◌, ◌≢◌, ◌⊎◌, inl,
  inr, ◌==◌, ltb, if◌then◌else◌, length, arith, Bool-cases, length-append,
}
use yet_another_smalltalk_vm.Base.Result.{ok, ◌>>=◌}
use yet_another_smalltalk_vm.RegisterAllocator.{VarArray, spilled_reg}
use yet_another_smalltalk_vm.RegisterAllocator.Registers.{
  Scanner, add_var, add_first_var, add_last_var, assign_reg, spill, set_reg, scan_var, goes_first,
  sorted_vars_size,
}
use yet_another_smalltalk_vm.Base.Counts.{count, count-append}
use yet_another_smalltalk_vm.RegisterAllocator.Pool.{
  held-append, reg-set_reg, start-set_reg, stop-set_reg,
}
use yet_another_smalltalk_vm.RegisterAllocator.Scan.Extend.{IsRegs, Scanned, Extension, extend}
use yet_another_smalltalk_vm.RegisterAllocator.Scan.Steps.{
  remove_dead_vars-Scanned, Added, extend_reg, extend_spilled, extend_exchange,
}

-- The register of a new variable, set twice, and then that of the spilled one.
abbrev exchanged : VarArray → ℕ → ℕ → ℕ → ℕ → VarArray
exchanged vars i j a b = set_reg (set_reg (set_reg vars i a) i b) j spilled_reg

module _ (vars : VarArray) (i j a b v : ℕ) where
  start-exchanged : (exchanged vars i j a b v).start ≡ (vars v).start
  start-exchanged =
      start-set_reg (set_reg (set_reg vars i a) i b) j spilled_reg v
      ∙ start-set_reg (set_reg vars i a) i b v
      ∙ start-set_reg vars i a v

  stop-exchanged : (exchanged vars i j a b v).stop ≡ (vars v).stop
  stop-exchanged =
      stop-set_reg (set_reg (set_reg vars i a) i b) j spilled_reg v
      ∙ stop-set_reg (set_reg vars i a) i b v
      ∙ stop-set_reg vars i a v

  reg-exchanged :
      (exchanged vars i j a b v).reg
      ≡ (if j == v then spilled_reg else if i == v then b else (vars v).reg)
  reg-exchanged = ground (
    arith,
    reg-set_reg (set_reg (set_reg vars i a) i b) j spilled_reg v,
    reg-set_reg (set_reg vars i a) i b v,
    reg-set_reg vars i a v,
  )

List-cases : (xs : List ℕ) → (xs ≡ []) ⊎ ((y : ℕ) × (ys : List ℕ) × (xs ≡ y ∷ ys))
List-cases [] = inl refl
List-cases (y ∷ ys) = inr (y, ys, refl)

assign_empty :
    (i : ℕ) (s : Scanner)
    → s.pool ≡ []
    → assign_reg i s ≡ spill i (record s { vars = set_reg s.vars i spilled_reg })
unfolding assign_reg
assign_empty i s e = rw e

module _ {v₀ : VarArray} {regs done : List ℕ} {i : ℕ} {s : Scanner} (regs_ok : IsRegs regs)
    (inv : Scanned v₀ regs done (v₀ i).start s) (new : count i done ≡ 0)
    (unset : (v₀ i).reg ≡ spilled_reg) (room : length done < 128) where
  Assigned : Type 0
  Assigned = (s' : Scanner) × ((add_var i s >>= assign_reg i) ≡ ok s') × Extension regs done i s s'

  -- The registers of the pool are registers.
  no_spilled : (r : ℕ) (rest : List ℕ) → s.pool ≡ r ∷ rest → (r == spilled_reg) ≡ false
  no_spilled r rest e =
      let c = ap (count r) e in let le = inv.free r in let one = regs_ok r in ground arith

  add_first : goes_first s.vars i s.sorted ≡ true → Assigned
  unfolding Assigned add_var add_first_var assign_reg spill assign_empty
  add_first h =
      let low : (s.first == 0) ≡ false = ground (arith, inv.first) in
      let at : (s.first - 1 ≤ 128) × (128 ≤ s.first - 1 + suc (length done)) =
        let (a, b) = inv.first in (omega arith, omega arith) in
      let added : Added inv new unset (i ∷ s.sorted) =
        (λ v. omega arith, λ vars x. omega arith, omega arith) in
      elim (List-cases s.pool) [
        | inl e ↦ (
          _,
          rw (h, low) (assign_empty i (record s { first = s.first - 1; sorted = i ∷ s.sorted }) e),
          let b = (set_reg s.vars i spilled_reg i).reg in
              extend_spilled inv new unset (exchanged s.vars i i spilled_reg b) (s.first - 1)
                (start-exchanged s.vars i i spilled_reg b) (stop-exchanged s.vars i i spilled_reg b)
                (λ v ne. ground (arith, reg-exchanged s.vars i i spilled_reg b v, ne))
                (ground (arith, reg-exchanged s.vars i i spilled_reg b i)) at,
        )
        | inr (r, rest, e) ↦ (
          _,
          rw (h, low, e, no_spilled r rest e),
          extend_reg inv new unset (i ∷ s.sorted) rest r (s.first - 1) regs_ok e added at,
        )
      ]

  -- The variable is put at the end: the list is not empty.
  add_last : goes_first s.vars i s.sorted ≡ false → Assigned
  unfolding Assigned add_var add_last_var assign_reg spill assign_empty
  add_last h =
      let bound : ltb (s.first + length s.sorted) sorted_vars_size ≡ true =
        ground (arith, inv.first, inv.last) in
      let added : Added inv new unset (s.sorted ++ i ∷ []) = (
        λ v. count-append v s.sorted (i ∷ []),
        λ vars x. held-append vars x s.sorted (i ∷ []),
        omega (arith, length-append s.sorted (i ∷ [])),
      ) in
      let at : (s.first ≤ 128) × (128 ≤ s.first + suc (length done)) =
        let (a, b) = inv.first in (a, omega arith) in
      elim (List-cases s.pool) [
        | inl e ↦ elim (List-cases s.sorted) [
          | inl none ↦ let c = ap (goes_first s.vars i) none in ground arith
          | inr (j, js, some) ↦
              let b = (set_reg s.vars i spilled_reg j).reg in
              let ne : i ≢ j =
                λ q. let c = ap (count i) some in let le = inv.inside i in ground arith in
              let old : b ≡ (s.vars j).reg =
                ground (arith, reg-set_reg s.vars i spilled_reg j, ne) in
              (
                _,
                rw (h, bound)
                    (assign_empty i (record s { sorted = s.sorted ++ i ∷ [] }) e ∙ rw some),
                extend_exchange inv new unset (exchanged s.vars i j spilled_reg b) j js regs_ok some
                    (start-exchanged s.vars i j spilled_reg b)
                    (stop-exchanged s.vars i j spilled_reg b)
                    (λ v ni nj. ground (arith, reg-exchanged s.vars i j spilled_reg b v, ni, nj))
                    (ground (arith, reg-exchanged s.vars i j spilled_reg b i, ne, old))
                    (ground (arith, reg-exchanged s.vars i j spilled_reg b j)),
              )
        ]
        | inr (r, rest, e) ↦ (
          _,
          rw (h, bound, e, no_spilled r rest e),
          extend_reg inv new unset (s.sorted ++ i ∷ []) rest r s.first regs_ok e added at,
        )
      ]

  add_assign : Assigned
  add_assign = elim (Bool-cases (goes_first s.vars i s.sorted)) [
    | inl h ↦ add_first h
    | inr h ↦ add_last h
  ]

-- A round takes up the next variable without a fault.
pub scan_var-Scanned :
    {v₀ : VarArray} {regs done : List ℕ} {bound : ℕ} (i : ℕ) (s : Scanner)
    → IsRegs regs
    → Scanned v₀ regs done bound s
    → count i done ≡ 0
    → (v₀ i).reg ≡ spilled_reg
    → length done < 128
    → bound ≤ (v₀ i).start
    → (s' : Scanner) × (scan_var i s ≡ ok s') × Scanned v₀ regs (i ∷ done) (v₀ i).start s'
unfolding scan_var add_assign Assigned
scan_var-Scanned i s regs_ok inv new unset room late =
    let fresh : ((s.vars i).reg == spilled_reg) ≡ true = ground (arith, inv.fresh i new, unset) in
    let (s₁, e₁, inv₁, same) = remove_dead_vars-Scanned s _ inv late in
    let (s₂, e₂, step) = add_assign regs_ok inv₁ new unset room in
    (s₂, rw (fresh, inv.start i, e₁) e₂, extend regs_ok inv₁ step refl)
