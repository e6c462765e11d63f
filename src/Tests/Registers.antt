-- ===== src/Tests/Registers.antt =====
-- The linear scan (vm/RegisterAllocator.c) of three variables over two registers.
use yet_another_smalltalk_vm.Base.{
  ℕ, ◌<◌, ◌≡◌, ◌≢◌, ◌⊎◌, refl, true, false, none, some, Option, zero, suc, List, [], ◌∷◌, ◌==◌,
  if◌then◌else◌, arith, map,
}
use yet_another_smalltalk_vm.Base.Counts.{count}
use yet_another_smalltalk_vm.Base.Int.{pos}
use yet_another_smalltalk_vm.Base.Result.{Run, Fault, ok, fault, out_of_bounds}
use yet_another_smalltalk_vm.RegisterAllocator.{Vars, VarArray, spilled_reg, update}
use yet_another_smalltalk_vm.RegisterAllocator.Registers.{
  scan_registers, scan_vars, scan_var, remove_dead_vars, remove_dead, add_var, add_first_var,
  add_last_var, assign_reg, spill, init_scanner, reuse_var_reg,
}
use yet_another_smalltalk_vm.RegisterAllocator.Scan.Apart.{
  IsScannable, scan_registers-ok, scan_registers-available, scan_registers-apart,
}

abbrev vars : VarArray
vars i = record {
  index = i;
  defined = true;
  in_reg = false;
  on_stack = false;
  reg = spilled_reg;
  start = if i == 2 then 1 else 0;
  stop = if i == 1 then 5 else 9;
  frame_offset = pos 0;
}

abbrev sample : Vars
sample = record {
  vars_size = 4;
  vars = vars;
  special_vars = λ t i. some 0;
  order = 1 ∷ 0 ∷ 3 ∷ 2 ∷ [];
  max_offset = 9;
  frame_less = true;
  frame_size = pos 0;
}

abbrev regs : List ℕ
regs = 3 ∷ 5 ∷ []

sample-IsScannable : IsScannable regs sample 0
sample-IsScannable = record {
  context_var = refl;
  ordered = omega arith;
  unset = λ v h. refl;
  available = λ x. ground arith;
  reserved = refl;
}

abbrev scanned : (vs' : Vars) × (scan_registers regs sample ≡ ok vs')
scanned = scan_registers-ok regs sample 0 sample-IsScannable (omega arith)

scan_registers-ok_example : (vs' : Vars) × (scan_registers regs sample ≡ ok vs')
scan_registers-ok_example = scan_registers-ok regs sample 0 sample-IsScannable (omega arith)

scan_registers-available_example :
    ((scanned.0.vars 2).reg ≡ spilled_reg) ⊎ (0 < count (scanned.0.vars 2).reg regs)
scan_registers-available_example =
    scan_registers-available regs sample 0 sample-IsScannable (omega arith) scanned.0 scanned.1 2
      (omega arith) (omega arith)

scan_registers-apart_example :
    ((scanned.0.vars 1).reg ≡ spilled_reg)
    ⊎ (((scanned.0.vars 2).reg ≡ spilled_reg) ⊎ ((scanned.0.vars 1).reg ≢ (scanned.0.vars 2).reg))
scan_registers-apart_example =
    scan_registers-apart regs sample 0 sample-IsScannable (omega arith) scanned.0 scanned.1 1 2
      (omega arith) (omega arith) (omega arith) (omega arith)

abbrev reg_in : Run Vars → ℕ → ℕ
reg_in (ok vs) v = (vs.vars v).reg
reg_in (fault e) v = 0

-- The third variable that wants a register ends last and stays without.
registers_of_sample :
    map (reg_in (scan_registers regs sample)) (0 ∷ 1 ∷ 2 ∷ 3 ∷ []) ≡ 12 ∷ 3 ∷ 255 ∷ 5 ∷ []
unfolding scan_registers scan_vars scan_var remove_dead_vars remove_dead add_var add_first_var
    add_last_var assign_reg spill init_scanner reuse_var_reg update
registers_of_sample = refl

-- `n`, ..., 1
abbrev numbers_to : ℕ → List ℕ
numbers_to zero = []
numbers_to (suc n) = suc n ∷ numbers_to n

abbrev error_of : Run Vars → Option Fault
error_of (ok vs) = none
error_of (fault e) = some e

-- `first` is never raised: with 128 variables it has reached the begin of the array, and the next
-- `addFirstVar` steps before it, although its assertion holds.
error_of_128_and_129 :
    map
      (λ n. error_of (
        scan_registers regs (record sample {
          order = numbers_to n;
          vars = λ i. record (vars i) { start = 0; stop = 9 };
        })))
      (128 ∷ 129 ∷ [])
    ≡ none ∷ some out_of_bounds ∷ []
unfolding scan_registers scan_vars scan_var remove_dead_vars remove_dead add_var add_first_var
    add_last_var assign_reg spill init_scanner reuse_var_reg update
error_of_128_and_129 = refl
