-- ===== src/RegisterAllocator/Scan/Steps.antt =====
-- One round of the loop of `scanRegisters`, for a variable without a register.
use yet_another_smalltalk_vm.Base.{
  ℕ, suc, ◌+◌, ◌≤◌, ◌<◌, false, List, [], ◌∷◌, ◌++◌, ◌≡◌, refl, ap, ◌∙◌, ◌≢◌, inl, inr, ◌==◌, ltb,
  length, arith, Bool-cases, length-append,
}
use yet_another_smalltalk_vm.Base.Result.{ok}
use yet_another_smalltalk_vm.RegisterAllocator.{VarArray, spilled_reg}
use yet_another_smalltalk_vm.RegisterAllocator.Registers.{Scanner, remove_dead_vars, set_reg}
use yet_another_smalltalk_vm.Base.Counts.{count, count-append}
use yet_another_smalltalk_vm.RegisterAllocator.Pool.{
  held, held-append, held_congr, count-le-held_one, reg-set_reg, start-set_reg, stop-set_reg,
  remove_dead-Removed,
}
use yet_another_smalltalk_vm.RegisterAllocator.Scan.Extend.{IsRegs, Scanned, Extension}

-- `removeDeadVars` at the start of the next variable.
pub remove_dead_vars-Scanned :
    {v₀ : VarArray} {regs done : List ℕ} {bound : ℕ} (s : Scanner) (offset : ℕ)
    → Scanned v₀ regs done bound s
    → bound ≤ offset
    → (s' : Scanner) × (remove_dead_vars offset s ≡ ok s')
      × Scanned v₀ regs done offset s'
      × (s'.vars ≡ s.vars)
unfolding remove_dead_vars
remove_dead_vars-Scanned s offset inv h =
    let (r, e) =
      remove_dead-Removed s.vars offset false s.sorted s.pool s.used (omega (arith, inv.used)) in
    (
      record s { sorted = r.live; pool = r.pool'; used = r.used' },
      rw e,
      record {
        start = inv.start;
        stop = inv.stop;
        fresh = inv.fresh;
        free = λ x. omega (arith, r.registers x, inv.free x);
        inside = λ v. omega (arith, r.fewer v, inv.inside v);
        gone = λ v d reg z. elim (Bool-cases (ltb (s.vars v).stop offset)) [
          | inl late ↦ ground (arith, inv.stop v)
          | inr live ↦
              let same = r.kept v (ground arith) in
              let out = inv.gone v d reg (omega arith) in omega arith
        ];
        from = inv.from;
        apart = inv.apart;
        used = omega (arith, r.slots, inv.used);
        first = inv.first;
        last = omega (arith, r.shorter, inv.last);
      },
      refl,
    )

module _ {v₀ : VarArray} {regs done : List ℕ} {i : ℕ} {s : Scanner}
    (inv : Scanned v₀ regs done (v₀ i).start s) (new : count i done ≡ 0)
    (unset : (v₀ i).reg ≡ spilled_reg) where
  -- What a new list of sorted variables has when the variable `i` is put at either end.
  abbrev pub Added : List ℕ → Type 0
  Added sorted =
      ((v : ℕ) → count v sorted ≡ count v s.sorted + count v (i ∷ []))
      × ((vars : VarArray) (x : ℕ)
          → held vars x sorted ≡ held vars x s.sorted + held vars x (i ∷ []))
      × (length sorted ≡ suc (length s.sorted))

  absent : count i s.sorted ≡ 0
  absent = omega (arith, inv.inside i)

  other : (v : ℕ) → 0 < count v s.sorted → v ≢ i
  other v lt e = let same = ap (λ k. count k s.sorted) e in omega (arith, absent, same)

  reg_other : (v r : ℕ) → v ≢ i → (set_reg s.vars i r v).reg ≡ (s.vars v).reg
  reg_other v r ne = ground (arith, reg-set_reg s.vars i r v, ne)

  reg_itself : (r : ℕ) → (set_reg s.vars i r i).reg ≡ r
  reg_itself r = ground (arith, reg-set_reg s.vars i r i)

  -- The pool has a register.
  pub extend_reg :
      (sorted rest : List ℕ) (r first : ℕ)
      → IsRegs regs
      → s.pool ≡ r ∷ rest
      → Added sorted
      → (first ≤ 128) × (128 ≤ first + suc (length done))
      → Extension regs done i s (record {
        vars = set_reg s.vars i r;
        first = first;
        sorted = sorted;
        pool = rest;
        used = s.used + 1;
      })
  extend_reg sorted rest r first regs_ok pool (counts, holds, longer) at = record {
    start = λ v. start-set_reg s.vars i r v;
    stop = λ v. stop-set_reg s.vars i r v;
    others = λ v ne. inl (ground (arith, reg-set_reg s.vars i r v, ne));
    fresh = λ v ne h. ground (arith, reg-set_reg s.vars i r v, ne);
    free = λ x.
        let old =
          held_congr s.vars (set_reg s.vars i r) x s.sorted (λ v lt. reg_other v r (other v lt)) in
        let all = holds (set_reg s.vars i r) x in
        let le = inv.free x in
        let mine = reg_itself r in let whole = ap (count x) pool in ground arith;
    fewer = λ v ne. ground (arith, counts v, ne);
    kept = λ v ne h. ground (arith, counts v, ne);
    at_most_once = ground (arith, counts i, absent);
    itself = λ h.
        let mine = reg_itself r in
        let le = inv.free r in
        let whole = ap (count r) pool in (ground (arith, counts i), ground arith);
    used = omega (arith, longer, inv.used);
    first = at;
    last = omega (arith, longer, inv.last);
  }

  -- The pool is empty and the new variable is spilled.
  pub extend_spilled :
      (vars : VarArray) (first : ℕ)
      → ((v : ℕ) → (vars v).start ≡ (s.vars v).start)
      → ((v : ℕ) → (vars v).stop ≡ (s.vars v).stop)
      → ((v : ℕ) → v ≢ i → (vars v).reg ≡ (s.vars v).reg)
      → (vars i).reg ≡ spilled_reg
      → (first ≤ 128) × (128 ≤ first + suc (length done))
      → Extension regs done i s (record s { vars = vars; first = first })
  extend_spilled vars first starts stops same gone at = record {
    start = starts;
    stop = stops;
    others = λ v ne. inl (same v ne);
    fresh = λ v ne h. same v ne;
    free = λ x.
        let old = held_congr s.vars vars x s.sorted (λ v lt. same v (other v lt)) in
        omega (arith, inv.free x, old);
    fewer = λ v ne. omega arith;
    kept = λ v ne h. refl;
    at_most_once = omega (arith, absent);
    itself = λ h. absurd (h gone);
    used = inv.used;
    first = at;
    last = omega (arith, inv.last);
  }

  -- The pool is empty and the new variable takes the register of the first one.
  pub extend_exchange :
      (vars : VarArray) (j : ℕ) (js : List ℕ)
      → IsRegs regs
      → s.sorted ≡ j ∷ js
      → ((v : ℕ) → (vars v).start ≡ (s.vars v).start)
      → ((v : ℕ) → (vars v).stop ≡ (s.vars v).stop)
      → ((v : ℕ) → v ≢ i → v ≢ j → (vars v).reg ≡ (s.vars v).reg)
      → (vars i).reg ≡ (s.vars j).reg
      → (vars j).reg ≡ spilled_reg
      → Extension regs done i s (record s { vars = vars; sorted = js ++ i ∷ [] })
  extend_exchange vars j js regs_ok sorted starts stops same mine gone =
      let whole : (x : ℕ) → count x s.sorted ≡ count x (j ∷ js) = λ x. ap (count x) sorted in
      let holds : (x : ℕ) → held s.vars x s.sorted ≡ held s.vars x (j ∷ js) =
        λ x. ap (held s.vars x) sorted in
      let size : length s.sorted ≡ suc (length js) = ap length sorted in
      let once : count j js ≡ 0 =
        let le = count-le-held_one s.vars j js in
        let all = holds (s.vars j).reg in
        let free = inv.free (s.vars j).reg in let one = regs_ok (s.vars j).reg in ground arith in
      let away : (v : ℕ) → 0 < count v js → v ≢ j =
        λ v lt e. let c = ap (λ k. count k js) e in omega arith in
      let away' : (v : ℕ) → 0 < count v js → v ≢ i = λ v lt. other v (ground (arith, whole v)) in
      let taken : 0 < count (s.vars j).reg regs =
        let all = holds (s.vars j).reg in let free = inv.free (s.vars j).reg in ground arith in
      record {
        start = starts;
        stop = stops;
        others = λ v ne. elim (Bool-cases (v == j)) [
          | inl e ↦ let p : v ≡ j = ground arith in inr (ap (λ k. (vars k).reg) p ∙ gone)
          | inr e ↦ inl (same v ne (ground arith))
        ];
        fresh = λ v ne h. let le = inv.inside v in let c = whole v in same v ne (ground arith);
        free = λ x.
            let old = held_congr s.vars vars x js (λ v lt. same v (away' v lt) (away v lt)) in
            let all = holds x in
            let le = inv.free x in let sum = held-append vars x js (i ∷ []) in ground arith;
        fewer = λ v ne. let sum = count-append v js (i ∷ []) in let c = whole v in ground arith;
        kept = λ v ne h.
            let sum = count-append v js (i ∷ []) in
            let c = whole v in
            let ne' : v ≢ j = λ e. h (ap (λ k. (vars k).reg) e ∙ gone) in ground arith;
        at_most_once =
            let sum = count-append i js (i ∷ []) in let c = whole i in ground (arith, absent);
        itself = λ h. let sum = count-append i js (i ∷ []) in (ground arith, rw mine taken);
        used = omega (arith, inv.used, size, length-append js (i ∷ []));
        first = omega (arith, inv.first.0, inv.first.1);
        last = omega (arith, inv.last, size, length-append js (i ∷ []));
      }
