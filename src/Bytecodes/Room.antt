-- ===== src/Bytecodes/Room.antt =====
-- Room for a bytecode (vm/Bytecodes.h): every emitter asks for room once, through
-- `asmEnsureCapacity`, and then writes all its bytes.
use mathlib.Core.List.{reverse}
use yet_another_smalltalk_vm.Base.{
  ℕ, ◌+◌, ◌%◌, ◌≤◌, ◌<◌, ◌≡◌, ap, ◌∙◌, List, ◌∷◌, ◌++◌, length, length-append, arith,
}
use yet_another_smalltalk_vm.Base.Result.{ok, fault, out_of_bounds}
use yet_another_smalltalk_vm.Assembler.{Buffer, asm_offset, asm_ensure_capacity, write}
use yet_another_smalltalk_vm.Assembler.Labels.{IsInside, room_of_ensure, code_of_ensure}
use yet_another_smalltalk_vm.Bytecodes.{Operand, bytecode_send}
use yet_another_smalltalk_vm.Bytecodes.Operands.{operand_bytes, operands_bytes}
use yet_another_smalltalk_vm.Bytecodes.RoundTrip.{emitted, bytecode_send-emitted}

-- the bytes that a send takes
abbrev pub send_bytes : ℕ → Operand → List Operand → List ℕ
send_bytes k r args =
    1 ∷ k % 256 ∷ length args % 256 ∷ (operand_bytes r ++ operands_bytes (reverse args))

emitted-fits :
    (bytes : List ℕ) (b : Buffer)
    → IsInside b
    → length bytes ≤ 33
    → (b' : Buffer) × (emitted bytes b ≡ ok b') × (b'.code ≡ b.code ++ bytes) × IsInside b'
unfolding write
emitted-fits bytes b v h =
    let room = room_of_ensure b v in
    let same = code_of_ensure b in
    let size = ap length same in
    (
      record (asm_ensure_capacity b) {
        code = (asm_ensure_capacity b).code ++ bytes;
        inst_offset = (asm_ensure_capacity b).inst_offset + 1;
      },
      ground (arith, room, size),
      ap (λ c. c ++ bytes) same,
      record {
        positive = room.1;
        inside = omega (arith, room, size, length-append (asm_ensure_capacity b).code bytes);
      },
    )

emitted-overflow :
    (bytes : List ℕ) (b : Buffer)
    → asm_offset b + 1 ≡ b.capacity
    → 33 < length bytes
    → emitted bytes b ≡ fault out_of_bounds
unfolding write asm_ensure_capacity
emitted-overflow bytes b h long = ground arith

module _ (b : Buffer) (k : ℕ) (r : Operand) (args : List Operand) where
  -- A send of at most 33 bytes succeeds in every buffer that keeps to its allocation: it appends its
  -- bytes and keeps to the allocation.
  pub bytecode_send-fits :
      IsInside b
      → length (send_bytes k r args) ≤ 33
      → (b' : Buffer) × (bytecode_send b k r args ≡ ok b')
        × (b'.code ≡ b.code ++ send_bytes k r args)
        × IsInside b'
  bytecode_send-fits v h =
      let (b', e, code, inside) = emitted-fits (send_bytes k r args) b v h in
      (b', bytecode_send-emitted b k r args ∙ e, code, inside)

  -- A send of more than 33 bytes that starts one byte before `end` is written past the end of the
  -- allocation: `asmEnsureCapacity` does not see how long it is.
  pub bytecode_send-overflow :
      asm_offset b + 1 ≡ b.capacity
      → 33 < length (send_bytes k r args)
      → bytecode_send b k r args ≡ fault out_of_bounds
  bytecode_send-overflow at long =
      bytecode_send-emitted b k r args ∙ emitted-overflow (send_bytes k r args) b at long
