-- ===== src/RegisterAllocator/Scan/Extend.antt =====
-- What holds after each round of the loop of `scanRegisters`, and what one more variable keeps.
use yet_another_smalltalk_vm.Base.{
  ℕ, suc, ◌+◌, ◌≤◌, ◌<◌, List, ◌∷◌, ◌≡◌, sym, ap, ◌∙◌, ◌≢◌, ◌⊎◌, inl, inr, ◌==◌, if◌then◌else◌,
  length, arith, Bool-cases,
}
use yet_another_smalltalk_vm.RegisterAllocator.{VarArray, spilled_reg}
use yet_another_smalltalk_vm.RegisterAllocator.Registers.{Scanner}
use yet_another_smalltalk_vm.Base.Counts.{count}
use yet_another_smalltalk_vm.RegisterAllocator.Pool.{held, count-le-held}

-- Two variables are live at the same bytecode.
abbrev pub Overlap : VarArray → ℕ → ℕ → Type 0
Overlap vars v w = ((vars v).start ≤ (vars w).stop) × ((vars w).start ≤ (vars v).stop)

-- No register is available twice, and SPILLED_REG is not one.
abbrev pub IsRegs : List ℕ → Type 0
IsRegs regs = (x : ℕ) → count x regs ≤ (if x == spilled_reg then 0 else 1)

-- `done` are the variables that got a register or were spilled, newest first; the last of them
-- starts at `bound`.
pub record Scanned (v₀ : VarArray) (regs done : List ℕ) (bound : ℕ) (s : Scanner) : Type 0 where
  pub start : (v : ℕ) → (s.vars v).start ≡ (v₀ v).start
  pub stop : (v : ℕ) → (s.vars v).stop ≡ (v₀ v).stop
  pub fresh : (v : ℕ) → count v done ≡ 0 → (s.vars v).reg ≡ (v₀ v).reg
  pub free : (x : ℕ) → count x s.pool + held s.vars x s.sorted ≤ count x regs
  pub inside : (v : ℕ) → count v s.sorted ≤ count v done
  pub gone :
      (v : ℕ)
      → 0 < count v done
      → (s.vars v).reg ≢ spilled_reg
      → count v s.sorted ≡ 0
      → (v₀ v).stop < bound
  pub from :
      (v : ℕ) → 0 < count v done → (s.vars v).reg ≢ spilled_reg → 0 < count (s.vars v).reg regs
  pub apart :
      (v w : ℕ)
      → 0 < count v done
      → 0 < count w done
      → v ≢ w
      → (s.vars v).reg ≢ spilled_reg
      → (s.vars w).reg ≢ spilled_reg
      → Overlap v₀ v w
      → (s.vars v).reg ≢ (s.vars w).reg
  pub used : s.used ≡ length s.sorted
  pub first : (s.first ≤ 128) × (128 ≤ s.first + length done)
  pub last : length s.sorted ≤ length done

-- A step that takes up the variable `i` and, beside it, at most spills others.
pub record Extension (regs done : List ℕ) (i : ℕ) (s s' : Scanner) : Type 0 where
  pub start : (v : ℕ) → (s'.vars v).start ≡ (s.vars v).start
  pub stop : (v : ℕ) → (s'.vars v).stop ≡ (s.vars v).stop
  pub others :
      (v : ℕ) → v ≢ i → ((s'.vars v).reg ≡ (s.vars v).reg) ⊎ ((s'.vars v).reg ≡ spilled_reg)
  pub fresh : (v : ℕ) → v ≢ i → count v done ≡ 0 → (s'.vars v).reg ≡ (s.vars v).reg
  pub free : (x : ℕ) → count x s'.pool + held s'.vars x s'.sorted ≤ count x regs
  pub fewer : (v : ℕ) → v ≢ i → count v s'.sorted ≤ count v s.sorted
  pub kept : (v : ℕ) → v ≢ i → (s'.vars v).reg ≢ spilled_reg → count v s'.sorted ≡ count v s.sorted
  pub at_most_once : count i s'.sorted ≤ 1
  pub itself :
      (s'.vars i).reg ≢ spilled_reg → (0 < count i s'.sorted) × (0 < count (s'.vars i).reg regs)
  pub used : s'.used ≡ length s'.sorted
  pub first : (s'.first ≤ 128) × (128 ≤ s'.first + suc (length done))
  pub last : length s'.sorted ≤ suc (length done)

module _ {v₀ : VarArray} {regs done : List ℕ} {bound i : ℕ} {s s' : Scanner} (regs_ok : IsRegs regs)
    (inv : Scanned v₀ regs done bound s) (step : Extension regs done i s s')
    (at : bound ≡ (v₀ i).start) where
  was : (v : ℕ) → v ≢ i → (s'.vars v).reg ≢ spilled_reg → (s'.vars v).reg ≡ (s.vars v).reg
  was v ne h = elim (step.others v ne) [ inl e ↦ e | inr e ↦ absurd (h e) ]

  older : (v : ℕ) → v ≢ i → 0 < count v (i ∷ done) → 0 < count v done
  older v ne h = ground (arith, h)

  not_spilled : (v : ℕ) → v ≢ i → (s'.vars v).reg ≢ spilled_reg → (s.vars v).reg ≢ spilled_reg
  not_spilled v ne h e = h (was v ne h ∙ e)

  moved : (v : ℕ) → v ≡ i → (s'.vars v).reg ≡ (s'.vars i).reg
  moved v p = ap (λ k. (s'.vars k).reg) p

  -- The new variable and an older one that is live with it.
  new_apart :
      (w : ℕ)
      → w ≢ i
      → 0 < count w (i ∷ done)
      → (s'.vars i).reg ≢ spilled_reg
      → (s'.vars w).reg ≢ spilled_reg
      → (v₀ i).start ≤ (v₀ w).stop
      → (s'.vars i).reg ≢ (s'.vars w).reg
  new_apart w ne hw ri rw' live same =
      let two = count-le-held s'.vars i w s'.sorted (λ e. ne (sym e)) same in
      let one = step.free (s'.vars i).reg in
      let le = regs_ok (s'.vars i).reg in
      let (mine, _) = step.itself ri in
      elim (Bool-cases (count w s.sorted == 0)) [
        | inl out ↦
            let late = inv.gone w (older w ne hw) (not_spilled w ne rw') (ground arith) in
            absurd (omega arith)
        | inr within ↦ let e = step.kept w ne rw' in ground arith
      ]

  pub extend : Scanned v₀ regs (i ∷ done) bound s'
  extend = record {
    start = λ v. step.start v ∙ inv.start v;
    stop = λ v. step.stop v ∙ inv.stop v;
    fresh = λ v h.
        let ne : v ≢ i = λ e. ground (arith, h) in
        step.fresh v ne (ground (arith, h)) ∙ inv.fresh v (ground (arith, h));
    free = step.free;
    inside = λ v. elim (Bool-cases (v == i)) [
      | inl e ↦
          let p : v ≡ i = ground arith in
          ground (arith, step.at_most_once, ap (λ k. count k s'.sorted) p)
      | inr e ↦ let ne : v ≢ i = ground arith in ground (arith, step.fewer v ne, inv.inside v)
    ];
    gone = λ v h r z. elim (Bool-cases (v == i)) [
      | inl e ↦
          let p : v ≡ i = ground arith in
          let (mine, _) = step.itself (λ q. r (moved v p ∙ q)) in
          let same : count v s'.sorted ≡ count i s'.sorted = ap (λ k. count k s'.sorted) p in
          absurd (omega arith)
      | inr e ↦
          let ne : v ≢ i = ground arith in
          inv.gone v (older v ne h) (not_spilled v ne r) (sym (step.kept v ne r) ∙ z)
    ];
    from = λ v h r. elim (Bool-cases (v == i)) [
      | inl e ↦
          let p : v ≡ i = ground arith in
          let (_, more) = step.itself (λ q. r (moved v p ∙ q)) in rw (moved v p) more
      | inr e ↦
          let ne : v ≢ i = ground arith in
          let more = inv.from v (older v ne h) (not_spilled v ne r) in rw (was v ne r) more
    ];
    apart = λ v w hv hw ne rv rw' (live, live'). elim (Bool-cases (v == i)) [
      | inl e ↦
          let p : v ≡ i = ground arith in
          let ne' : w ≢ i = λ q. ne (p ∙ sym q) in
          let from : (v₀ v).start ≡ (v₀ i).start = ap (λ k. (v₀ k).start) p in
          let differ = new_apart w ne' hw (λ q. rv (moved v p ∙ q)) rw' (omega arith) in
          λ q. differ (sym (moved v p) ∙ q)
      | inr e ↦
          let ne' : v ≢ i = ground arith in
          elim (Bool-cases (w == i)) [
            | inl d ↦
                let p : w ≡ i = ground arith in
                let from : (v₀ w).start ≡ (v₀ i).start = ap (λ k. (v₀ k).start) p in
                let differ = new_apart v ne' hv (λ q. rw' (moved w p ∙ q)) rv (omega arith) in
                λ q. differ (sym (moved w p) ∙ sym q)
            | inr d ↦
                let ne'' : w ≢ i = ground arith in
                let differ =
                  inv.apart v w (older v ne' hv) (older w ne'' hw) ne (not_spilled v ne' rv)
                    (not_spilled w ne'' rw') (live, live') in
                λ q. differ (sym (was v ne' rv) ∙ q ∙ was w ne'' rw')
          ]
    ];
    used = step.used;
    first = step.first;
    last = step.last;
  }
