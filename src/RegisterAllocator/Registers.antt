-- ===== src/RegisterAllocator/Registers.antt =====
-- `scanRegisters` and what it calls: a linear scan over the variables.
use yet_another_smalltalk_vm.Base.{
  ℕ, ◌+◌, ◌-◌, Bool, true, false, none, some, List, [], ◌∷◌, ◌++◌, ◌==◌, ltb, leb, if◌then◌else◌,
  length,
}
use yet_another_smalltalk_vm.Base.Result.{
  Run, ok, fault, out_of_bounds, null_pointer, ◌>>=◌, ◌>>◌, check,
}
use yet_another_smalltalk_vm.RegisterAllocator.{context, VarArray, update, Vars, spilled_reg}

abbrev pub sorted_vars_size : ℕ
sorted_vars_size = 256

-- `SortedVars` and `RegsPool`: `first` is the index of the first slot in use, `sorted` are the
-- variables from there to `last`; `pool` are the registers from `tmp` to `end`, and `used` is the
-- number of slots before `tmp`. The slot behind the last variable is always NULL.
pub record Scanner : Type 0 where
  pub vars : VarArray
  pub first : ℕ
  pub sorted : List ℕ
  pub pool : List ℕ
  pub used : ℕ

-- `initSortedVars` and `initRegsPool`
unfoldable pub init_scanner : VarArray → List ℕ → Scanner
init_scanner vars regs = record { vars = vars; first = 128; sorted = []; pool = regs; used = 0 }

-- The assertion of `addFirstVar` holds at `first = vars` too, where the step below is out of bounds.
unfoldable pub add_first_var : ℕ → Scanner → Run Scanner
add_first_var i s =
    if s.first == 0
    then fault out_of_bounds
    else ok (record s { first = s.first - 1; sorted = i ∷ s.sorted })

unfoldable pub add_last_var : ℕ → Scanner → Run Scanner
add_last_var i s = do
  check (ltb (s.first + length s.sorted) sorted_vars_size)
  ok (record s { sorted = s.sorted ++ i ∷ [] })

-- `reuseVarReg`
unfoldable pub reuse_var_reg : ℕ → List ℕ × ℕ → Run (List ℕ × ℕ)
reuse_var_reg reg (pool, used) =
    if used == 0 then fault out_of_bounds else ok (reg ∷ pool, used - 1)

-- The loop of `removeDeadVars`: it moves on after a removal too, so it passes over the variable
-- behind a removed one; `true` says that this is the next one.
unfoldable pub remove_dead : VarArray → ℕ → Bool → List ℕ → List ℕ × ℕ → Run (List ℕ × (List ℕ × ℕ))
remove_dead vars offset passed [] p = ok ([], p)
remove_dead vars offset true (i ∷ is) p = do
  (rest, p₁) ← remove_dead vars offset false is p
  ok (i ∷ rest, p₁)
remove_dead vars offset false (i ∷ is) p =
    if ltb (vars i).stop offset
    then (reuse_var_reg (vars i).reg p >>= remove_dead vars offset true is)
    else (remove_dead vars offset false is p >>= λ (rest, p₁). ok (i ∷ rest, p₁))

unfoldable pub remove_dead_vars : ℕ → Scanner → Run Scanner
remove_dead_vars offset s = do
  (sorted, (pool, used)) ← remove_dead s.vars offset false s.sorted (s.pool, s.used)
  ok (record s { sorted = sorted; pool = pool; used = used })

-- `getFirstVar(...) == NULL || var->end >= getFirstVar(...)->end`
abbrev pub goes_first : VarArray → ℕ → List ℕ → Bool
goes_first vars i [] = true
goes_first vars i (j ∷ js) = leb (vars j).stop (vars i).stop

unfoldable pub add_var : ℕ → Scanner → Run Scanner
add_var i s = if goes_first s.vars i s.sorted then add_first_var i s else add_last_var i s

abbrev pub set_reg : VarArray → ℕ → ℕ → VarArray
set_reg vars i reg = update vars i (record (vars i) { reg = reg })

-- `removeFirstVar`, and the exchange of registers
unfoldable pub spill : ℕ → Scanner → Run Scanner
spill i s = elim s.sorted [
  | [] ↦ fault null_pointer
  | j ∷ js ↦
      let vars = set_reg s.vars i (s.vars j).reg in
      ok (record s { vars = set_reg vars j spilled_reg; sorted = js })
]

-- `nextReg`, and what follows it
unfoldable pub assign_reg : ℕ → Scanner → Run Scanner
assign_reg i s = elim s.pool [
  | [] ↦ spill i (record s { vars = set_reg s.vars i spilled_reg })
  | r ∷ rest ↦
      let s' = record s { vars = set_reg s.vars i r; pool = rest; used = s.used + 1 } in
      if r == spilled_reg then spill i s' else ok s'
]

-- one round of the loop of `scanRegisters`
unfoldable pub scan_var : ℕ → Scanner → Run Scanner
scan_var i s =
    let round = remove_dead_vars (s.vars i).start s >>= add_var i >>= assign_reg i in
    if (s.vars i).reg == spilled_reg then round else ok s

unfoldable pub scan_vars : List ℕ → Scanner → Run Scanner
scan_vars [] s = ok s
scan_vars (i ∷ is) s = scan_var i s >>= scan_vars is

abbrev pub context_reg : ℕ
context_reg = 12

-- `vars->specialVars[VAR_CONTEXT][0]` has been set by `computeRegsAlloc`.
unfoldable pub scan_registers : List ℕ → Vars → Run Vars
scan_registers regs vs = elim (vs.special_vars context 0) [
  | none ↦ fault null_pointer
  | some c ↦ do
    s ← scan_vars vs.order (init_scanner (set_reg vs.vars c context_reg) regs)
    ok (record vs { vars = s.vars })
]
