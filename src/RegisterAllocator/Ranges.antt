-- ===== src/RegisterAllocator/Ranges.antt =====
-- `scanCode` and what it calls: the variables of a method and their live ranges, in bytecodes.
use yet_another_smalltalk_vm.Base.{
  ℕ, ◌+◌, ◌-◌, ◌%◌, Bool, true, false, not, none, some, List, [], ◌∷◌, ◌++◌, ◌==◌, ltb,
  if◌then◌else◌, length,
}
use yet_another_smalltalk_vm.Base.Int.{negsuc, ◌+ℤ◌}
use yet_another_smalltalk_vm.Base.Result.{Run, ok, ◌>>=◌, ◌>>◌, check}
use yet_another_smalltalk_vm.Bytecodes.{
  Operand, temp_var, arg_var, super, context_var, inst_var, block, Bytecode, copy, send,
  send_with_store, return, outer_return, jump, jump_not_member_of, bytecode_init_iterator,
  bytecodes,
}
use yet_another_smalltalk_vm.Bytecodes as Codes
use yet_another_smalltalk_vm.RegisterAllocator.{
  VariableType, context, class, assoc, tmp, update, Vars, spilled_reg,
}

abbrev pub context_index : ℕ
context_index = 0

abbrev pub self_index : ℕ
self_index = 1

abbrev pub super_index : ℕ
super_index = 1

-- the types that take a slot of the frame
abbrev pub has_slot : VariableType → Bool
has_slot tmp = true
has_slot context = true
has_slot class = true
has_slot assoc = false

unfoldable pub define_var : VariableType → ℕ → ℕ → Vars → Run Vars
define_var type index offset vs =
    let var = record (vs.vars index) {
      defined = true;
      in_reg = false;
      on_stack = false;
      index = index;
      reg = spilled_reg;
      start = offset;
      stop = offset;
      frame_offset = if has_slot type then vs.frame_size else (vs.vars index).frame_offset;
    } in
    let order = vs.order ++ index ∷ [] in
    check (ltb (length order) 255)
    >> ok (record vs {
      vars = update vs.vars index var;
      frame_size = if has_slot type then vs.frame_size +ℤ negsuc 0 else vs.frame_size;
      order = order;
    })

-- `vars->vars[index].end = offset`
abbrev pub set_stop : ℕ → ℕ → Vars → Vars
set_stop index offset vs = record vs {
  vars = update vs.vars index (record (vs.vars index) { stop = offset });
}

abbrev pub raise_max : ℕ → Vars → Vars
raise_max offset vs = if ltb vs.max_offset offset then record vs { max_offset = offset } else vs

unfoldable pub define_tmp_var : ℕ → ℕ → Vars → Run Vars
define_tmp_var index offset vs = do
  vs₁ ←
      if not (vs.vars index).defined
      then define_var tmp index offset vs
      else ok (set_stop index offset vs)
  ok (raise_max offset vs₁)

abbrev pub is_context : VariableType → Bool
is_context context = true
is_context t = false

abbrev pub same_type : VariableType → VariableType → Bool
same_type context context = true
same_type class class = true
same_type assoc assoc = true
same_type tmp tmp = true
same_type s t = false

abbrev pub set_special : VariableType → ℕ → ℕ → Vars → Vars
set_special type index var vs = record vs {
  special_vars = λ t i.
      if same_type t type
      then (if i == index then some var else vs.special_vars t i)
      else vs.special_vars t i;
}

-- `vars->varsSize` has 8 bits.
unfoldable pub define_special_var : VariableType → ℕ → ℕ → Vars → Run Vars
define_special_var type index offset vs = elim (vs.special_vars type index) [
  | none ↦ do
    let vs₁ = if is_context type then set_stop context_index offset vs else vs
    vs₂ ←
        define_var type vs₁.vars_size offset (record vs₁ { vars_size = (vs₁.vars_size + 1) % 256 })
    ok (raise_max offset (set_special type index vs₁.vars_size vs₂))
  | some var ↦ ok (raise_max offset (set_stop var offset vs))
]

abbrev pub needs_frame : Vars → Vars
needs_frame vs = record vs { frame_less = false }

unfoldable pub examine_operand_class : Operand → ℕ → Vars → Run Vars
examine_operand_class (temp_var i) offset vs = define_special_var class i offset vs
examine_operand_class (arg_var i) offset vs = define_special_var class i offset vs
examine_operand_class o offset vs = ok vs

unfoldable pub examine_operand : Operand → ℕ → Vars → Run Vars
examine_operand (temp_var i) offset vs = define_tmp_var i offset vs
examine_operand (arg_var i) offset vs = define_tmp_var i offset vs
examine_operand super offset vs = define_tmp_var super_index offset vs
examine_operand (context_var i level) offset vs =
    define_special_var context level offset (needs_frame vs)
examine_operand (Codes.assoc i) offset vs = define_special_var assoc i offset vs
examine_operand (block i) offset vs = do
  vs₁ ← define_tmp_var self_index offset (needs_frame vs)
  define_special_var context 0 offset vs₁
examine_operand (inst_var i) offset vs = define_tmp_var self_index offset vs
examine_operand o offset vs = ok vs

unfoldable pub examine_copy_operands : Operand → Operand → ℕ → Vars → Run Vars
examine_copy_operands src dst offset vs =
    examine_operand src offset vs >>= examine_operand dst offset

unfoldable pub examine_operands : List Operand → ℕ → Vars → Run Vars
examine_operands [] offset vs = ok vs
examine_operands (o ∷ os) offset vs = examine_operand o offset vs >>= examine_operands os offset

-- one round of the loop, for the bytecode with the number `n`; with `returns`
unfoldable pub scan_bytecode : Bytecode → ℕ → Vars × Bool → Run (Vars × Bool)
scan_bytecode (copy src dst) n (vs, returns) = do
  vs₁ ← examine_copy_operands src dst n vs
  ok (vs₁, returns)
scan_bytecode (send k receiver args) n (vs, returns) = do
  vs₁ ← examine_operand_class receiver n (needs_frame vs)
  vs₂ ← examine_operand receiver n vs₁
  vs₃ ← examine_operands args n vs₂
  ok (vs₃, returns)
scan_bytecode (send_with_store k receiver args result) n (vs, returns) = do
  vs₁ ← examine_operand_class receiver n (needs_frame vs)
  vs₂ ← examine_operand receiver n vs₁
  vs₃ ← examine_operands args n vs₂
  vs₄ ← examine_operand result (n + 1) vs₃
  ok (vs₄, returns)
scan_bytecode (return o) n (vs, returns) = do vs₁ ← examine_operand o n vs; ok (vs₁, true)
scan_bytecode (outer_return o) n (vs, returns) = do
  vs₁ ← examine_operand o n (needs_frame vs)
  ok (vs₁, true)
scan_bytecode (jump d) n (vs, returns) = ok (vs, returns)
scan_bytecode (jump_not_member_of c o d) n (vs, returns) = do
  vs₁ ← examine_operand o n vs
  ok (vs₁, returns)

unfoldable pub scan_bytecodes : List Bytecode → ℕ → Vars × Bool → Run (Vars × Bool)
scan_bytecodes [] n s = ok s
scan_bytecodes (c ∷ cs) n s = scan_bytecode c n s >>= scan_bytecodes cs (n + 1)

-- The end defines `self` at the number of the last bytecode, or at 0 if there is none.
unfoldable pub scan_code : List ℕ → Vars → Run Vars
scan_code code vs = do
  (cs, it) ← bytecodes (length code) (bytecode_init_iterator code)
  (vs₁, returns) ← scan_bytecodes cs 0 (vs, false)
  if returns then ok vs₁ else define_tmp_var self_index (it.count - 1) vs₁
