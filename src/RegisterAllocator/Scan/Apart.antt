-- ===== src/RegisterAllocator/Scan/Apart.antt =====
-- What `scanRegisters` promises of the registers it gives out.
use yet_another_smalltalk_vm.Base.{
  ℕ, ◌≤◌, ◌<◌, List, [], ◌∷◌, ◌≡◌, refl, sym, ap, ◌∙◌, ◌≢◌, ◌⊎◌, inl, inr, ◌==◌, some, length,
  arith, Bool-cases,
}
use yet_another_smalltalk_vm.Base.Result.{Run, ok, fault, ◌>>=◌}
use yet_another_smalltalk_vm.RegisterAllocator.{context, VarArray, Vars, spilled_reg, zeroed}
use yet_another_smalltalk_vm.RegisterAllocator.Registers.{
  Scanner, init_scanner, scan_vars, scan_registers, set_reg, context_reg,
}
use yet_another_smalltalk_vm.Base.Counts.{count}
use yet_another_smalltalk_vm.RegisterAllocator.Pool.{reg-set_reg, start-set_reg, stop-set_reg}
use yet_another_smalltalk_vm.RegisterAllocator.Scan.Extend.{Overlap, IsRegs, Scanned}
use yet_another_smalltalk_vm.RegisterAllocator.Scan.Order.{
  IsOrdered, taken_up, count-taken_up, count-taken_up_set, scan_vars-Scanned, init_scanner-Scanned,
}

-- What `scanCode` leaves, and the pool: the variable `c` of the context, the variables in the order
-- of their starts, each once, none with a register, and registers that are neither the mark of a
-- spilled variable nor the one of the context. The number of variables is not bounded here:
-- `computeRegsAlloc` asserts a bound for the temporaries only, and the arguments and the special
-- variables are sorted with them.
pub record IsScannable (regs : List ℕ) (vs : Vars) (c : ℕ) : Type 0 where
  pub context_var : vs.special_vars context 0 ≡ some c
  pub ordered : IsOrdered vs.vars 0 vs.order
  pub unset : (v : ℕ) → 0 < count v vs.order → (vs.vars v).reg ≡ spilled_reg
  pub available : IsRegs regs
  pub reserved : count context_reg regs ≡ 0

abbrev vars_of : Run Vars → VarArray
vars_of (ok vs) = vs.vars
vars_of (fault e) = λ i. zeroed

scan_registers_with :
    (regs : List ℕ) (vs : Vars) (c : ℕ)
    → vs.special_vars context 0 ≡ some c
    → scan_registers regs vs ≡ (
        scan_vars vs.order (init_scanner (set_reg vs.vars c context_reg) regs) >>= λ s.
        ok (record vs { vars = s.vars }))
unfolding scan_registers
scan_registers_with regs vs c e = rw (e, scan_registers)

IsOrdered-set :
    (vars : VarArray) (c r bound : ℕ) (is : List ℕ)
    → IsOrdered vars bound is
    → IsOrdered (set_reg vars c r) bound is
IsOrdered-set vars c r bound [] o = tt
IsOrdered-set vars c r bound (i ∷ is) (late, once, rest) =
    let e = start-set_reg vars c r i in
    (rw e late, once, rw e (IsOrdered-set vars c r (vars i).start is rest))

-- With at most 128 variables, half of SORTED_VARS_SIZE, no variable is added before the array.
module _ (regs : List ℕ) (vs : Vars) (c : ℕ) (h : IsScannable regs vs c)
    (few : length vs.order ≤ 128) where
  abbrev initial : VarArray
  initial = set_reg vs.vars c context_reg

  scanned :
      (last : ℕ) × (s : Scanner) × (scan_registers regs vs ≡ ok (record vs { vars = s.vars }))
      × Scanned initial regs (taken_up initial vs.order []) last s
  scanned =
      let (last, s, e, inv) =
        scan_vars-Scanned vs.order (init_scanner initial regs) h.available
          (init_scanner-Scanned initial regs)
          (IsOrdered-set vs.vars c context_reg 0 vs.order h.ordered) (λ v lt. refl)
          (omega (arith, few)) in
      (last, s, scan_registers_with regs vs c h.context_var ∙ rw e, inv)

  -- Of at most 128 variables, in the order of their starts, the scan of the registers is without a
  -- fault: no failed assertion and no access out of the bounds of the sorted variables or the pool.
  pub scan_registers-ok : (vs' : Vars) × (scan_registers regs vs ≡ ok vs')
  scan_registers-ok = let (_, s, e, _) = scanned in (_, e)

  module _ (vs' : Vars) (run : scan_registers regs vs ≡ ok vs') where
    -- the invariant of the loop, about the variables of the result
    invariant :
        (last : ℕ) × (s : Scanner) × (s.vars ≡ vs'.vars)
        × Scanned initial regs (taken_up initial vs.order []) last s
    invariant = let (last, s, e, inv) = scanned in (last, s, ap (λ r. vars_of r) (sym e ∙ run), inv)

    context_kept : (vs'.vars c).reg ≡ context_reg
    context_kept =
        let (last, s, e, inv) = invariant in
        let set : (initial c).reg ≡ context_reg =
          ground (arith, reg-set_reg vs.vars c context_reg c) in
        let out = count-taken_up_set initial c vs.order [] refl (λ q. ground (arith, set)) in
        ap (λ f. (f c).reg) (sym e) ∙ inv.fresh c out ∙ set

    taken : (v : ℕ) → v ≢ c → 0 < count v vs.order → 0 < count v (taken_up initial vs.order [])
    taken v ne h' =
        count-taken_up initial v vs.order [] h'
          (ground (arith, reg-set_reg vs.vars c context_reg v, h.unset v h', ne))

    -- Of at most 128 variables, a variable other than that of the context is spilled, or its register is an available one.
    pub scan_registers-available :
        (v : ℕ)
        → 0 < count v vs.order
        → v ≢ c
        → ((vs'.vars v).reg ≡ spilled_reg) ⊎ (0 < count (vs'.vars v).reg regs)
    scan_registers-available v h' ne =
        let (last, s, e, inv) = invariant in
        let p : (vs'.vars v).reg ≡ (s.vars v).reg = ap (λ f. (f v).reg) (sym e) in
        elim (Bool-cases ((vs'.vars v).reg == spilled_reg)) [
          | inl q ↦ inl (ground arith)
          | inr q ↦ inr (rw p (inv.from v (taken v ne h') (ground arith)))
        ]

    beside_context :
        (v w : ℕ)
        → v ≡ c
        → 0 < count w vs.order
        → v ≢ w
        → ((vs'.vars w).reg ≡ spilled_reg) ⊎ ((vs'.vars v).reg ≢ (vs'.vars w).reg)
    beside_context v w vc hw ne = elim (scan_registers-available w hw (λ wc. ne (vc ∙ sym wc))) [
      | inl gone ↦ inl gone
      | inr more ↦ inr (λ e.
          let r : context_reg ≡ (vs'.vars w).reg =
            sym context_kept ∙ ap (λ k. (vs'.vars k).reg) (sym vc) ∙ e in
          let n = ap (λ x. count x regs) r in omega (arith, h.reserved, more, n))
    ]

    -- Of at most 128 variables, two whose live ranges overlap: one of them is spilled, or their registers differ.
    pub scan_registers-apart :
        (v w : ℕ)
        → 0 < count v vs.order
        → 0 < count w vs.order
        → v ≢ w
        → Overlap vs.vars v w
        → ((vs'.vars v).reg ≡ spilled_reg)
          ⊎ (((vs'.vars w).reg ≡ spilled_reg) ⊎ ((vs'.vars v).reg ≢ (vs'.vars w).reg))
    scan_registers-apart v w hv hw ne live =
        let (last, s, e, inv) = invariant in
        let p : (vs'.vars v).reg ≡ (s.vars v).reg = ap (λ f. (f v).reg) (sym e) in
        let q : (vs'.vars w).reg ≡ (s.vars w).reg = ap (λ f. (f w).reg) (sym e) in
        let live' : Overlap initial v w = (
          rw (start-set_reg vs.vars c context_reg v, stop-set_reg vs.vars c context_reg w) live.0,
          rw (start-set_reg vs.vars c context_reg w, stop-set_reg vs.vars c context_reg v) live.1,
        ) in
        elim (Bool-cases (v == c)) [
          | inl vc ↦ inr (beside_context v w (ground arith) hw ne)
          | inr vc ↦ elim (Bool-cases (w == c)) [
            | inl wc ↦ elim (beside_context w v (ground arith) hv (λ r. ne (sym r))) [
              | inl gone ↦ inl gone
              | inr differ ↦ inr (inr (λ r. differ (sym r)))
            ]
            | inr wc ↦ elim (Bool-cases ((s.vars v).reg == spilled_reg)) [
              | inl gone ↦ inl (ground arith)
              | inr rv ↦ elim (Bool-cases ((s.vars w).reg == spilled_reg)) [
                | inl gone ↦ inr (inl (ground arith))
                | inr rw' ↦ inr (
                    inr (λ r.
                      inv.apart v w (taken v (ground arith) hv) (taken w (ground arith) hw) ne
                        (ground arith) (ground arith) live' (sym p ∙ r ∙ q)))
              ]
            ]
          ]
        ]
