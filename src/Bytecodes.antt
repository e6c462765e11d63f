-- ===== src/Bytecodes.antt =====
-- vm/Bytecodes.h: operands and bytecodes are written to an assembler buffer and read back by an
-- iterator. Left out is the operand OPERAND_INST_VAR_OF, whose inner operand is written through a
-- cast between two struct types of different layout; see Lib.
pub mod Operands
pub mod RoundTrip
pub mod Jumps
pub mod Program
pub mod Room
use yet_another_smalltalk_vm.Base.{
  ℕ, zero, suc, ◌+◌, ◌-◌, ◌%◌, ◌^◌, Bool, true, false, List, [], ◌∷◌, ◌++◌, ◌==◌, if◌then◌else◌,
  length,
}
use mathlib.Core.List.{reverse}
use yet_another_smalltalk_vm.Base.Result.{
  Run, ok, fault, fatal, assertion, out_of_bounds, ◌>>=◌, ◌>>◌, check,
}
use yet_another_smalltalk_vm.Assembler.{
  Buffer, Label, asm_ensure_capacity, asm_emit_uint8, asm_emit_uint64, asm_emit_label32,
}
use yet_another_smalltalk_vm.Assembler.Words.{read_le}

-- `OperandType` with the fields that each type uses
pub data Operand : Type 0 where
  value : ℕ → Operand
  nil : Operand
  true_value : Operand
  false_value : Operand
  this_context : Operand
  temp_var : ℕ → Operand
  arg_var : ℕ → Operand
  super : Operand
  context_var : ℕ → ℕ → Operand
  inst_var : ℕ → Operand
  literal : ℕ → Operand
  assoc : ℕ → Operand
  block : ℕ → Operand

-- the enumeration value; 10 is OPERAND_INST_VAR_OF
unfoldable pub type_of : Operand → ℕ
type_of (value v) = 0
type_of nil = 1
type_of true_value = 2
type_of false_value = 3
type_of this_context = 4
type_of (temp_var i) = 5
type_of (arg_var i) = 6
type_of super = 7
type_of (context_var i l) = 8
type_of (inst_var i) = 9
type_of (literal i) = 11
type_of (assoc i) = 12
type_of (block i) = 13

-- `bytecodeOperand` is a switch over the type: what follows the byte of the type
unfoldable pub operand_fields : Operand → Buffer → Run Buffer
operand_fields (value v) b = asm_emit_uint64 v b
operand_fields (temp_var i) b = asm_emit_uint8 i b
operand_fields (arg_var i) b = asm_emit_uint8 i b
operand_fields (inst_var i) b = asm_emit_uint8 i b
operand_fields (literal i) b = asm_emit_uint8 i b
operand_fields (assoc i) b = asm_emit_uint8 i b
operand_fields (block i) b = asm_emit_uint8 i b
operand_fields (context_var i l) b = asm_emit_uint8 i b >>= asm_emit_uint8 l
operand_fields nil b = ok b
operand_fields true_value b = ok b
operand_fields false_value b = ok b
operand_fields this_context b = ok b
operand_fields super b = ok b

unfoldable pub bytecode_operand : Operand → Buffer → Run Buffer
unfolding type_of operand_fields
bytecode_operand o b = asm_emit_uint8 (type_of o) b >>= operand_fields o

-- the loop over the arguments, given in the order in which it takes them
unfoldable pub bytecode_operands : List Operand → Buffer → Run Buffer
bytecode_operands [] b = ok b
bytecode_operands (o ∷ os) b = bytecode_operand o b >>= bytecode_operands os

-- `buffer->instOffset++`
abbrev pub next_inst : Buffer → Run Buffer
next_inst b = ok (record b { inst_offset = b.inst_offset + 1 })

abbrev pub is_destination : Operand → Bool
is_destination (temp_var i) = true
is_destination (context_var i l) = true
is_destination (inst_var i) = true
is_destination (assoc i) = true
is_destination o = false

unfoldable pub bytecode_copy : Buffer → Operand → Operand → Run Buffer
bytecode_copy b source dest = do
  b₁ ← asm_emit_uint8 0 (asm_ensure_capacity b)
  b₂ ← bytecode_operand source b₁
  check (is_destination dest)
  b₃ ← bytecode_operand dest b₂
  next_inst b₃

-- `numArgs` is the length of the arguments, which has 8 bits in the source: the list stands for its
-- array where it has less than 256 operands.
unfoldable pub bytecode_send : Buffer → ℕ → Operand → List Operand → Run Buffer
bytecode_send b selector receiver args = do
  b₁ ← asm_emit_uint8 1 (asm_ensure_capacity b)
  b₂ ← asm_emit_uint8 selector b₁
  b₃ ← asm_emit_uint8 (length args) b₂
  b₄ ← bytecode_operand receiver b₃
  b₅ ← bytecode_operands (reverse args) b₄
  next_inst b₅

unfoldable pub bytecode_send_with_store : Buffer → ℕ → Operand → Operand → List Operand → Run Buffer
bytecode_send_with_store b selector receiver result args = do
  b₁ ← asm_emit_uint8 2 (asm_ensure_capacity b)
  b₂ ← asm_emit_uint8 selector b₁
  b₃ ← asm_emit_uint8 (length args) b₂
  b₄ ← bytecode_operand receiver b₃
  b₅ ← bytecode_operands (reverse args) b₄
  b₆ ← bytecode_operand result b₅
  next_inst b₆

unfoldable pub bytecode_return : Buffer → Operand → Bool → Run Buffer
bytecode_return b operand outer = do
  b₁ ← asm_emit_uint8 (if outer then 4 else 3) (asm_ensure_capacity b)
  b₂ ← bytecode_operand operand b₁
  next_inst b₂

unfoldable pub bytecode_jump : Buffer → Label → Run (Buffer × Label)
bytecode_jump b l = do
  b₁ ← asm_emit_uint8 5 (asm_ensure_capacity b)
  (b₂, l') ← asm_emit_label32 b₁ l
  ok (record b₂ { inst_offset = b₂.inst_offset + 1 }, l')

unfoldable pub bytecode_jump_not_member_of : Buffer → Operand → ℕ → Label → Run (Buffer × Label)
bytecode_jump_not_member_of b operand class l = do
  b₁ ← asm_emit_uint8 6 (asm_ensure_capacity b)
  b₂ ← asm_emit_uint8 class b₁
  b₃ ← bytecode_operand operand b₂
  (b₄, l') ← asm_emit_label32 b₃ l
  ok (record b₄ { inst_offset = b₄.inst_offset + 1 }, l')

-- The bytes from `p` to `end`, and `bytecodeNumber + 1`.
pub record BytecodesIterator : Type 0 where
  pub rest : List ℕ
  pub count : ℕ

unfoldable pub bytecode_init_iterator : List ℕ → BytecodesIterator
bytecode_init_iterator bytes = record { rest = bytes; count = 0 }

unfoldable pub bytecode_next_byte : List ℕ → Run (ℕ × List ℕ)
bytecode_next_byte [] = fault out_of_bounds
bytecode_next_byte (b ∷ rest) = ok (b, rest)

abbrev pub indexed : (ℕ → Operand) → List ℕ → Run (Operand × List ℕ)
indexed c bytes = do (i, rest) ← bytecode_next_byte bytes; ok (c i, rest)

-- the switch of `bytecodeNextOperand`; a byte that is no type of the enumeration is a fault here
unfoldable pub operand_by_type : ℕ → List ℕ → Run (Operand × List ℕ)
operand_by_type t bytes =
    if t == 0
    then (read_le 8 bytes >>= λ (v, rest). ok (value v, rest))
    else if t == 1
    then ok (nil, bytes)
    else if t == 2
    then ok (true_value, bytes)
    else if t == 3
    then ok (false_value, bytes)
    else if t == 4
    then ok (this_context, bytes)
    else if t == 5
    then indexed temp_var bytes
    else if t == 6
    then indexed arg_var bytes
    else if t == 7
    then ok (super, bytes)
    else if t == 8
    then (do
      (i, r) ← bytecode_next_byte bytes
      (l, rest) ← bytecode_next_byte r
      ok (context_var i l, rest))
    else if t == 9
    then indexed inst_var bytes
    else if t == 11
    then indexed literal bytes
    else if t == 12
    then indexed assoc bytes
    else if t == 13
    then indexed block bytes
    else fault fatal

unfoldable pub bytecode_next_operand : List ℕ → Run (Operand × List ℕ)
unfolding bytecode_next_byte operand_by_type
bytecode_next_operand bytes = do (t, rest) ← bytecode_next_byte bytes; operand_by_type t rest

unfoldable pub next_operands : ℕ → List ℕ → Run (List Operand × List ℕ)
next_operands zero bytes = ok ([], bytes)
next_operands (suc n) bytes = do
  (o, r) ← bytecode_next_operand bytes
  (os, rest) ← next_operands n r
  ok (o ∷ os, rest)

-- One bytecode as the readers take it apart. The arguments of a send are in the order of the code,
-- the last one first. A jump is the 32 bits of its displacement.
pub data Bytecode : Type 0 where
  copy : Operand → Operand → Bytecode
  send : ℕ → Operand → List Operand → Bytecode
  send_with_store : ℕ → Operand → List Operand → Operand → Bytecode
  return : Operand → Bytecode
  outer_return : Operand → Bytecode
  jump : ℕ → Bytecode
  jump_not_member_of : ℕ → Operand → ℕ → Bytecode

unfoldable pub next_copy : List ℕ → Run (Bytecode × List ℕ)
next_copy bytes = do
  (source, r) ← bytecode_next_operand bytes
  (dest, rest) ← bytecode_next_operand r
  ok (copy source dest, rest)

-- selector, number of arguments, receiver and arguments
unfoldable pub next_message : List ℕ → Run (ℕ × Operand × List Operand × List ℕ)
unfolding next_operands
next_message bytes = do
  (selector, r₁) ← bytecode_next_byte bytes
  (args_size, r₂) ← bytecode_next_byte r₁
  (receiver, r₃) ← bytecode_next_operand r₂
  (args, rest) ← next_operands args_size r₃
  ok (selector, receiver, args, rest)

unfoldable pub next_send : List ℕ → Run (Bytecode × List ℕ)
next_send bytes = do
  (selector, receiver, args, rest) ← next_message bytes
  ok (send selector receiver args, rest)

unfoldable pub next_send_with_store : List ℕ → Run (Bytecode × List ℕ)
next_send_with_store bytes = do
  (selector, receiver, args, r) ← next_message bytes
  (result, rest) ← bytecode_next_operand r
  ok (send_with_store selector receiver args result, rest)

unfoldable pub next_return : (Operand → Bytecode) → List ℕ → Run (Bytecode × List ℕ)
next_return c bytes = do (o, rest) ← bytecode_next_operand bytes; ok (c o, rest)

unfoldable pub next_jump : List ℕ → Run (Bytecode × List ℕ)
next_jump bytes = do (d, rest) ← read_le 4 bytes; ok (jump d, rest)

unfoldable pub next_jump_not_member_of : List ℕ → Run (Bytecode × List ℕ)
next_jump_not_member_of bytes = do
  (class, r₁) ← bytecode_next_byte bytes
  (o, r₂) ← bytecode_next_operand r₁
  (d, rest) ← read_le 4 r₂
  ok (jump_not_member_of class o d, rest)

-- the switch in the loop of `printBytecodes` (and of `scanCode` in vm/RegisterAllocator.c)
unfoldable pub bytecode_by_type : ℕ → List ℕ → Run (Bytecode × List ℕ)
bytecode_by_type t bytes =
    if t == 0
    then next_copy bytes
    else if t == 1
    then next_send bytes
    else if t == 2
    then next_send_with_store bytes
    else if t == 3
    then next_return return bytes
    else if t == 4
    then next_return outer_return bytes
    else if t == 5
    then next_jump bytes
    else if t == 6
    then next_jump_not_member_of bytes
    else fault fatal

-- `bytecodeNext` and the operands behind it
unfoldable pub bytecode_next : BytecodesIterator → Run (Bytecode × BytecodesIterator)
unfolding bytecode_by_type
bytecode_next it = do
  (t, r) ← bytecode_next_byte it.rest
  (c, rest) ← bytecode_by_type t r
  ok (c, record { rest = rest; count = it.count + 1 })

abbrev pub has_bytes : List ℕ → Bool
has_bytes [] = false
has_bytes (b ∷ rest) = true

unfoldable pub bytecode_has_next : BytecodesIterator → Bool
bytecode_has_next it = has_bytes it.rest

-- `while (bytecodeHasNext(&iterator))`; each round takes a byte at least.
unfoldable pub bytecodes : ℕ → BytecodesIterator → Run (List Bytecode × BytecodesIterator)
unfolding bytecode_has_next
bytecodes zero it = ok ([], it)
bytecodes (suc fuel) it =
    let round : Run (List Bytecode × BytecodesIterator) = (do
      (c, it₁) ← bytecode_next it
      (cs, it₂) ← bytecodes fuel it₁
      ok (c ∷ cs, it₂)) in
    if bytecode_has_next it then round else ok ([], it)
