-- ===== src/RegisterAllocator/Alloc.antt =====
-- `computeRegsAlloc` and `invalidateRegs`.
use yet_another_smalltalk_vm.Base.{
  ℕ, zero, suc, ◌+◌, ◌-◌, ◌%◌, ◌^◌, Bool, true, false, Option, none, List, [], leb, ltb,
  if◌then◌else◌,
}
use yet_another_smalltalk_vm.Base.Int.{ℤ, pos, negsuc, ◌+ℤ◌}
use yet_another_smalltalk_vm.Base.Result.{Run, ok, ◌>>=◌, ◌>>◌, check}
use yet_another_smalltalk_vm.RegisterAllocator.{
  VariableType, context, tmp, VarArray, zeroed, update, Vars,
}
use yet_another_smalltalk_vm.RegisterAllocator.Registers.{scan_registers}
use yet_another_smalltalk_vm.RegisterAllocator.Ranges.{
  context_index, define_var, set_special, scan_code,
}

pub record RegsAlloc : Type 0 where
  pub regs : List ℕ
  pub vars_size : ℕ
  pub vars : VarArray
  pub special_vars : VariableType → ℕ → Option ℕ
  pub frame_size : ℕ
  pub frame_less : Bool

-- the parts of `CompiledCode` that the allocator reads
pub record Code : Type 0 where
  pub args_size : ℕ
  pub temps_size : ℕ
  pub bytes : List ℕ

unfoldable pub init_vars : Code → Vars
init_vars code = record {
  vars_size = (code.args_size + code.temps_size + 2) % 256;
  vars = λ i. zeroed;
  special_vars = λ t i. none;
  order = [];
  max_offset = 0;
  frame_less = true;
  frame_size = pos code.args_size;
}

-- the loop `for (i = argsSize; i >= 0; i--)`, on `i + 1`
unfoldable pub define_args : ℕ → Vars → Run Vars
define_args zero vs = ok vs
define_args (suc i) vs = do
  vs₁ ← define_var tmp (i + 1) 0 vs
  define_args i (record vs₁ {
    vars = update vs₁.vars (i + 1) (record (vs₁.vars (i + 1)) { on_stack = true });
  })

unfoldable pub define_context : Vars → Run Vars
define_context vs = do
  vs₁ ← define_var context context_index 0 (record vs { frame_size = vs.frame_size +ℤ negsuc 0 })
  ok (set_special context 0 context_index vs₁)

-- the loop that moves the arguments behind the saved registers, on `i + 1`
unfoldable pub move_args : ℕ → ℕ → VarArray → VarArray
move_args zero n vars = vars
move_args (suc i) n vars = move_args i n (
    update vars (i + 1)
      (record (vars (i + 1)) { frame_offset = (vars (i + 1)).frame_offset +ℤ pos n }))

-- `-frameSize - 1` as a `size_t`
unfoldable pub frame_size_of : ℤ → ℕ
frame_size_of (pos n) = 2 ^ 64 - n - 1
frame_size_of (negsuc n) = n

unfoldable pub compute_regs_alloc : List ℕ → Code → Run RegsAlloc
compute_regs_alloc regs code = do
  check (leb code.temps_size 128)
  vs₁ ← define_args (code.args_size + 1) (init_vars code)
  vs₂ ← define_context vs₁
  vs₃ ← scan_code code.bytes vs₂
  vs₄ ← scan_registers regs vs₃
  ok (record {
    regs = regs;
    vars_size = vs₄.vars_size;
    vars = move_args (code.args_size + 1) (if vs₄.frame_less then 1 else 2) vs₄.vars;
    special_vars = vs₄.special_vars;
    frame_size = frame_size_of vs₄.frame_size;
    frame_less = vs₄.frame_less;
  })

-- `invalidateRegs`
unfoldable pub invalidate_regs : RegsAlloc → RegsAlloc
invalidate_regs a = record a {
  vars = λ i. if ltb i a.vars_size then record (a.vars i) { in_reg = false } else a.vars i;
}
