-- ===== src/Tests/Codes.antt =====
-- Labels and bytecodes (vm/Assembler.h, vm/Bytecodes.h) in small buffers.
use yet_another_smalltalk_vm.Base.{
  ℕ, ◌+◌, ◌-◌, ◌%◌, inl, inr, ◌^◌, ◌≤◌, ◌<◌, ◌≡◌, refl, true, false, List, [], ◌∷◌, ◌++◌, length,
  take, drop, replicate, arith,
}
use yet_another_smalltalk_vm.Base.Result.{ok, fault, out_of_bounds}
use yet_another_smalltalk_vm.Assembler.{
  Buffer, Label, asm_init_buffer, asm_ensure_capacity, asm_emit_label32, asm_emit_int32,
  asm_emit_uint8, asm_emit_uint64, asm_label_bind, le_bytes, write, displacement,
}
use yet_another_smalltalk_vm.Assembler.Labels.{
  IsInside, HasField, emit-target, bind-HasField, HasField-target,
}
use yet_another_smalltalk_vm.Assembler.Words.{read_le}
use yet_another_smalltalk_vm.Bytecodes.{
  value, temp_var, arg_var, nil, Bytecode, copy, send, jump, jump_not_member_of, bytecode_send,
  bytecode_copy, bytecode_jump, bytecode_jump_not_member_of, bytecode_init_iterator, bytecodes,
  bytecode_operand, bytecode_operands, type_of,
}
use yet_another_smalltalk_vm.Bytecodes.Program.{
  copied, sent, jumped, jumped_not_member_of, Program, start, step, bytecodes-Program,
}
use yet_another_smalltalk_vm.Bytecodes.Room.{send_bytes, bytecode_send-fits, bytecode_send-overflow}

abbrev buffer : Buffer
buffer = record { code = 1 ∷ 2 ∷ []; capacity = 256; inst_offset = 0 }

buffer-IsInside : IsInside buffer
buffer-IsInside = record { positive = omega arith; inside = omega arith }

abbrev bound_label : Label
bound_label = record { is_bound = true; is_resolved = false; offset = 1; size = 4 }

abbrev unbound_label : Label
unbound_label = record { is_bound = false; is_resolved = false; offset = 0; size = 0 }

emit-target_example :
    (b₁ : Buffer) × (l₁ : Label) × (d : ℕ) × (asm_emit_label32 buffer bound_label ≡ ok (b₁, l₁))
    × (take 2 b₁.code ≡ 1 ∷ 2 ∷ [])
    × (read_le 4 (drop 2 b₁.code) ≡ ok (d, []))
    × ((2 + 4 + d) % 2 ^ 32 ≡ 1)
emit-target_example = emit-target buffer buffer-IsInside bound_label refl refl (omega arith)

abbrev after_field : Buffer
after_field = record buffer { code = 1 ∷ 2 ∷ 0 ∷ 0 ∷ 0 ∷ 0 ∷ [] }

abbrev resolved_label : Label
resolved_label = record { is_bound = false; is_resolved = true; offset = 2; size = 4 }

emitted_field : asm_emit_label32 buffer unbound_label ≡ ok (after_field, resolved_label)
unfolding asm_emit_label32 asm_ensure_capacity asm_emit_int32 write le_bytes
emitted_field = refl

abbrev after_more : Buffer
after_more = record buffer { code = 1 ∷ 2 ∷ 0 ∷ 0 ∷ 0 ∷ 0 ∷ 9 ∷ 9 ∷ [] }

bind-HasField_example :
    (b₃ : Buffer) × (l₃ : Label) × (asm_label_bind after_more resolved_label 8 ≡ ok (b₃, l₃))
    × HasField buffer buffer-IsInside unbound_label refl 8 (9 ∷ 9 ∷ []) b₃
bind-HasField_example =
    bind-HasField buffer buffer-IsInside unbound_label refl refl emitted_field after_more
      (9 ∷ 9 ∷ []) 8 (refl, record { positive = omega arith; inside = omega arith })

abbrev with_field : Buffer
with_field = record buffer { code = 1 ∷ 2 ∷ (le_bytes 4 (displacement 8 2 4) ++ 9 ∷ []) }

HasField-target_example :
    (d : ℕ) × (read_le 4 (drop 2 with_field.code) ≡ ok (d, 9 ∷ []))
    × ((2 + 4 + d) % 2 ^ 32 ≡ 8 % 2 ^ 32)
HasField-target_example =
    HasField-target buffer buffer-IsInside unbound_label refl 8 {more = 9 ∷ []} with_field refl
      (omega arith)

abbrev b₁ : Buffer
b₁ = record {
  code = 0 ∷ 0 ∷ 12 ∷ 0 ∷ 0 ∷ 0 ∷ 0 ∷ 0 ∷ 0 ∷ 0 ∷ 5 ∷ 3 ∷ [];
  capacity = 64;
  inst_offset = 1;
}

abbrev b₂ : Buffer
b₂ = record b₁ { code = b₁.code ++ 1 ∷ 7 ∷ 2 ∷ 6 ∷ 1 ∷ 5 ∷ 3 ∷ 1 ∷ []; inst_offset = 2 }

emitters : Unit {0}
unfolding asm_init_buffer asm_ensure_capacity asm_emit_uint8 asm_emit_uint64 write le_bytes
    bytecode_copy bytecode_send bytecode_operand bytecode_operands
emitters = tt

first_code : bytecode_copy (asm_init_buffer 64) (value 12) (temp_var 3) ≡ ok b₁
unfolding emitters
first_code = refl

second_code : bytecode_send b₁ 7 (arg_var 1) (nil ∷ temp_var 3 ∷ []) ≡ ok b₂
unfolding emitters
second_code = refl

abbrev start_label : Label
start_label = record { is_bound = true; is_resolved = false; offset = 0; size = 4 }

abbrev b₃ : Buffer
b₃ = record b₂ { code = b₂.code ++ 5 ∷ 231 ∷ 255 ∷ 255 ∷ 255 ∷ []; inst_offset = 3 }

third_code : bytecode_jump b₂ start_label ≡ ok (b₃, record start_label { is_resolved = true })
unfolding emitters bytecode_jump asm_emit_label32 asm_emit_int32 displacement
third_code = refl

abbrev b₄ : Buffer
b₄ = record b₃ { code = b₃.code ++ 6 ∷ 2 ∷ 6 ∷ 1 ∷ 0 ∷ 0 ∷ 0 ∷ 0 ∷ []; inst_offset = 4 }

fourth_code :
    bytecode_jump_not_member_of b₃ (arg_var 1) 2 unbound_label
    ≡ ok (b₄, record { is_bound = false; is_resolved = true; offset = 29; size = 4 })
unfolding emitters bytecode_jump_not_member_of asm_emit_label32 asm_emit_int32 displacement
fourth_code = refl

-- The send's arguments come out in reverse order; the first jump goes back 25 bytes, and the label
-- of the second is not bound.
abbrev sample : List Bytecode
sample =
    copy (value 12) (temp_var 3)
    ∷ send 7 (arg_var 1) (temp_var 3 ∷ nil ∷ [])
    ∷ jump (2 ^ 32 - 25)
    ∷ jump_not_member_of 2 (arg_var 1) 0
    ∷ []

program : Program (asm_init_buffer 64) b₄ sample
program =
    step
      (step
        (step (step start (copied (value 12) (temp_var 3) refl first_code))
          (sent 7 (arg_var 1) (nil ∷ temp_var 3 ∷ []) second_code))
        (jumped start_label _ (2 ^ 32 - 25) third_code
          (omega arith, omega arith, inr (refl, omega arith))))
      (jumped_not_member_of (arg_var 1) 2 unbound_label _ 0 fourth_code
        (omega arith, omega arith, inl (refl, refl)))

bytecodes-Program_example :
    bytecodes 33 (bytecode_init_iterator b₄.code) ≡ ok (sample, record { rest = []; count = 4 })
bytecodes-Program_example = bytecodes-Program {b' = b₄} {cs = sample} 64 program (omega arith)

short : length (send_bytes 7 (arg_var 1) (nil ∷ [])) ≤ 33
unfolding emitters type_of
short = omega arith

bytecode_send-fits_example :
    (b' : Buffer) × (bytecode_send b₁ 7 (arg_var 1) (nil ∷ []) ≡ ok b')
    × (b'.code ≡ b₁.code ++ send_bytes 7 (arg_var 1) (nil ∷ []))
    × IsInside b'
bytecode_send-fits_example =
    bytecode_send-fits b₁ 7 (arg_var 1) (nil ∷ [])
      (record { positive = omega arith; inside = omega arith }) short

abbrev nearly_full : Buffer
nearly_full = record { code = replicate 15 0; capacity = 16; inst_offset = 0 }

long : 33 < length (send_bytes 7 nil (value 4 ∷ value 8 ∷ value 12 ∷ value 16 ∷ []))
unfolding emitters type_of
long = omega arith

-- `r at: 1 put: 2 with: 3 and: 4`, whose arguments are values
bytecode_send-overflow_example :
    bytecode_send nearly_full 7 nil (value 4 ∷ value 8 ∷ value 12 ∷ value 16 ∷ [])
    ≡ fault out_of_bounds
bytecode_send-overflow_example =
    bytecode_send-overflow nearly_full 7 nil (value 4 ∷ value 8 ∷ value 12 ∷ value 16 ∷ []) refl
      long
