-- ===== src/Bytecodes/RoundTrip.antt =====
-- What the emitters of vm/Bytecodes.h append to the buffer, and that the readers take it apart.
use mathlib.Core.List.{reverse}
use yet_another_smalltalk_vm.Base.{
  ℕ, ◌+◌, ◌%◌, ◌^◌, ◌<◌, ◌≡◌, Bool, true, false, List, ◌∷◌, ◌++◌, append_assoc, if◌then◌else◌,
  length, arith,
}
use yet_another_smalltalk_vm.Base.Result.{Run, ok, ◌>>=◌}
use yet_another_smalltalk_vm.Assembler.{
  Buffer, asm_ensure_capacity, le_bytes, write, asm_emit_uint8,
}
use yet_another_smalltalk_vm.Assembler.Words.{read_le-le_bytes}
use yet_another_smalltalk_vm.Bytecodes.{
  Operand, Bytecode, copy, send, send_with_store, return, outer_return, jump, jump_not_member_of,
  is_destination, bytecode_copy, bytecode_send, bytecode_send_with_store, bytecode_return,
  next_inst, bytecode_next, bytecode_next_byte, next_copy, next_message, next_send,
  next_send_with_store, next_return, next_jump, next_jump_not_member_of,
}
use yet_another_smalltalk_vm.Bytecodes.Operands.{
  operand_bytes, operands_bytes, write_then, write_operands_then, bytecode_operand-write, IsOperand,
  AllOperands, bytecode_next_operand-bytes, next_operands-bytes,
}

abbrev message_bytes : ℕ → Operand → List Operand → List ℕ
message_bytes k r args = k % 256 ∷ length args % 256 ∷ (operand_bytes r ++ operands_bytes args)

abbrev pub bytecode_bytes : Bytecode → List ℕ
bytecode_bytes (copy s d) = 0 ∷ (operand_bytes s ++ operand_bytes d)
bytecode_bytes (send k r args) = 1 ∷ message_bytes k r args
bytecode_bytes (send_with_store k r args o) = 2 ∷ (message_bytes k r args ++ operand_bytes o)
bytecode_bytes (return o) = 3 ∷ operand_bytes o
bytecode_bytes (outer_return o) = 4 ∷ operand_bytes o
bytecode_bytes (jump d) = 5 ∷ le_bytes 4 d
bytecode_bytes (jump_not_member_of c o d) = 6 ∷ c % 256 ∷ (operand_bytes o ++ le_bytes 4 d)

abbrev pub IsBytecode : Bytecode → Type 0
IsBytecode (copy s d) = IsOperand s × IsOperand d
IsBytecode (send k r args) = (k < 256) × (length args < 256) × IsOperand r × AllOperands args
IsBytecode (send_with_store k r args o) =
    (k < 256) × (length args < 256) × IsOperand r × AllOperands args × IsOperand o
IsBytecode (return o) = IsOperand o
IsBytecode (outer_return o) = IsOperand o
IsBytecode (jump d) = d < 256 ^ 4
IsBytecode (jump_not_member_of c o d) = (c < 256) × IsOperand o × (d < 256 ^ 4)

-- all the bytes at once behind `asmEnsureCapacity`, and the count of bytecodes
abbrev pub emitted : List ℕ → Buffer → Run Buffer
emitted bytes b = write bytes (asm_ensure_capacity b) >>= next_inst

module _ (b : Buffer) where
  pub bytecode_copy-emitted :
      (s d : Operand)
      → is_destination d ≡ true
      → bytecode_copy b s d ≡ emitted (bytecode_bytes (copy s d)) b
  unfolding bytecode_copy asm_emit_uint8
  bytecode_copy-emitted s d h = simp (bytecode_operand-write, h, write_then)

  pub bytecode_send-emitted :
      (k : ℕ) (r : Operand) (args : List Operand)
      → bytecode_send b k r args
        ≡ emitted
            (1 ∷ k % 256 ∷ length args % 256 ∷ (operand_bytes r ++ operands_bytes (reverse args)))
            b
  unfolding bytecode_send asm_emit_uint8
  bytecode_send-emitted k r args = simp (bytecode_operand-write, write_then, write_operands_then)

  pub bytecode_send_with_store-emitted :
      (k : ℕ) (r o : Operand) (args : List Operand)
      → bytecode_send_with_store b k r o args
        ≡ emitted
            (2
              ∷ k % 256
              ∷ length args % 256
              ∷ ((operand_bytes r ++ operands_bytes (reverse args)) ++ operand_bytes o))
            b
  unfolding bytecode_send_with_store asm_emit_uint8
  bytecode_send_with_store-emitted k r o args =
      simp (bytecode_operand-write, write_then, write_operands_then, append_assoc)

  pub bytecode_return-emitted :
      (o : Operand) (outer : Bool)
      → bytecode_return b o outer
        ≡ emitted (bytecode_bytes (if outer then outer_return o else return o)) b
  unfolding bytecode_return asm_emit_uint8
  bytecode_return-emitted o true = simp (bytecode_operand-write, write_then)
  bytecode_return-emitted o false = simp (bytecode_operand-write, write_then)

-- A bytecode is read back from its bytes, whatever follows them.
pub bytecode_next-bytes :
    (c : Bytecode) (rest : List ℕ) (n : ℕ)
    → IsBytecode c
    → bytecode_next (record { rest = bytecode_bytes c ++ rest; count = n })
      ≡ ok (c, record { rest = rest; count = n + 1 })
unfolding bytecode_next bytecode_next_byte next_copy next_message next_send next_send_with_store
    next_return next_jump next_jump_not_member_of
bytecode_next-bytes (copy s d) rest n h = rw (
  append_assoc (operand_bytes s) (operand_bytes d) rest,
  bytecode_next_operand-bytes s _ h.0,
  bytecode_next_operand-bytes d rest h.1,
)
bytecode_next-bytes (return o) rest n h = rw (bytecode_next_operand-bytes o rest h)
bytecode_next-bytes (outer_return o) rest n h = rw (bytecode_next_operand-bytes o rest h)
bytecode_next-bytes (jump d) rest n h = rw (read_le-le_bytes 4 d rest h)
bytecode_next-bytes (jump_not_member_of c o d) rest n h =
    let e : c % 256 ≡ c = omega arith in
    rw (
      e,
      append_assoc (operand_bytes o) (le_bytes 4 d) rest,
      bytecode_next_operand-bytes o _ h.1,
      read_le-le_bytes 4 d rest h.2,
    )
bytecode_next-bytes (send k r args) rest n h =
    let e : k % 256 ≡ k = omega arith in
    let e' : length args % 256 ≡ length args = omega arith in
    rw (
      e,
      e',
      append_assoc (operand_bytes r) (operands_bytes args) rest,
      bytecode_next_operand-bytes r _ h.2,
      next_operands-bytes args rest h.3,
    )
bytecode_next-bytes (send_with_store k r args o) rest n h =
    let e : k % 256 ≡ k = omega arith in
    let e' : length args % 256 ≡ length args = omega arith in
    rw (
      e,
      e',
      append_assoc (operand_bytes r ++ operands_bytes args) (operand_bytes o) rest,
      append_assoc (operand_bytes r) (operands_bytes args) _,
      bytecode_next_operand-bytes r _ h.2,
      next_operands-bytes args _ h.3,
      bytecode_next_operand-bytes o rest h.4,
    )
