-- ===== src/Bytecodes/Program.antt =====
-- A run of the emitters, and the loop of the readers over the code that it leaves.
use mathlib.Core.List.{reverse}
use yet_another_smalltalk_vm.Base.{
  ℕ, zero, suc, ◌+◌, ◌≤◌, ◌<◌, ◌≡◌, refl, sym, ap, ◌∙◌, true, false, List, [], ◌∷◌, ◌++◌,
  append_assoc, append-nil, length, length-append, length-reverse, arith,
}
use yet_another_smalltalk_vm.Base.Result.{ok}
use yet_another_smalltalk_vm.Assembler.{Buffer, Label, asm_ensure_capacity, asm_init_buffer, write}
use yet_another_smalltalk_vm.Bytecodes.{
  Operand, Bytecode, copy, send, send_with_store, return, outer_return, jump, jump_not_member_of,
  is_destination, bytecode_copy, bytecode_send, bytecode_send_with_store, bytecode_return,
  bytecode_jump, bytecode_jump_not_member_of, bytecode_init_iterator, has_bytes, bytecodes,
}
use yet_another_smalltalk_vm.Bytecodes.Jumps.{
  JumpsTo, bytecode_jump-code, bytecode_jump_not_member_of-code,
}
use yet_another_smalltalk_vm.Bytecodes.RoundTrip.{
  bytecode_bytes, IsBytecode, emitted, bytecode_copy-emitted, bytecode_send-emitted,
  bytecode_send_with_store-emitted, bytecode_return-emitted, bytecode_next-bytes,
}

-- A successful call of an emitter, and the bytecode that stands for it.
pub data Emits (b b' : Buffer) : Bytecode → Type 0 where
  copied :
      (s d : Operand)
      → is_destination d ≡ true
      → bytecode_copy b s d ≡ ok b'
      → Emits b b' (copy s d)
  sent :
      (k : ℕ) (r : Operand) (args : List Operand)
      → bytecode_send b k r args ≡ ok b'
      → Emits b b' (send k r (reverse args))
  sent_with_store :
      (k : ℕ) (r o : Operand) (args : List Operand)
      → bytecode_send_with_store b k r o args ≡ ok b'
      → Emits b b' (send_with_store k r (reverse args) o)
  returned : (o : Operand) → bytecode_return b o false ≡ ok b' → Emits b b' (return o)
  outer_returned : (o : Operand) → bytecode_return b o true ≡ ok b' → Emits b b' (outer_return o)
  jumped :
      (l l' : Label) (d : ℕ)
      → bytecode_jump b l ≡ ok (b', l')
      → JumpsTo l b' d
      → Emits b b' (jump d)
  jumped_not_member_of :
      (o : Operand) (class : ℕ) (l l' : Label) (d : ℕ)
      → bytecode_jump_not_member_of b o class l ≡ ok (b', l')
      → JumpsTo l b' d
      → Emits b b' (jump_not_member_of class o d)

-- calls in a row
pub data Program (b : Buffer) : Buffer → List Bytecode → Type 0 where
  start : Program b b []
  step :
      {b₁ b₂ : Buffer} {cs : List Bytecode} {c : Bytecode}
      → Program b b₁ cs
      → Emits b₁ b₂ c
      → Program b b₂ (cs ++ c ∷ [])

pub record Appends (b b' : Buffer) (bytes : List ℕ) : Type 0 where
  pub code : b'.code ≡ b.code ++ bytes
  pub count : b'.inst_offset ≡ b.inst_offset + 1

emitted-Appends :
    (bytes : List ℕ) (b : Buffer) {b' : Buffer} → emitted bytes b ≡ ok b' → Appends b b' bytes
unfolding write asm_ensure_capacity
emitted-Appends bytes b h = ground arith

Emits-Appends : {b b' : Buffer} {c : Bytecode} → Emits b b' c → Appends b b' (bytecode_bytes c)
Emits-Appends {b} (copied s d dest h) =
    emitted-Appends _ b (sym (bytecode_copy-emitted b s d dest) ∙ h)
Emits-Appends {b} (sent k r args h) =
    rw length-reverse (emitted-Appends _ b (sym (bytecode_send-emitted b k r args) ∙ h))
Emits-Appends {b} (sent_with_store k r o args h) =
    rw length-reverse
      (emitted-Appends _ b (sym (bytecode_send_with_store-emitted b k r o args) ∙ h))
Emits-Appends {b} (returned o h) = emitted-Appends _ b (sym (bytecode_return-emitted b o false) ∙ h)
Emits-Appends {b} (outer_returned o h) =
    emitted-Appends _ b (sym (bytecode_return-emitted b o true) ∙ h)
Emits-Appends {b} (jumped l l' d h to) =
    let (code, count) = bytecode_jump-code b l d h to in record { code = code; count = count }
Emits-Appends {b} (jumped_not_member_of o class l l' d h to) =
    let (code, count) = bytecode_jump_not_member_of-code b o class l d h to in
    record { code = code; count = count }

abbrev program_bytes : List Bytecode → List ℕ
program_bytes [] = []
program_bytes (c ∷ cs) = bytecode_bytes c ++ program_bytes cs

abbrev pub AllBytecodes : List Bytecode → Type 0
AllBytecodes [] = Unit {0}
AllBytecodes (c ∷ cs) = IsBytecode c × AllBytecodes cs

program_bytes-append :
    (cs ds : List Bytecode) → program_bytes (cs ++ ds) ≡ program_bytes cs ++ program_bytes ds
program_bytes-append [] ds = refl
program_bytes-append (c ∷ cs) ds =
    ap (λ r. bytecode_bytes c ++ r) (program_bytes-append cs ds)
    ∙ sym (append_assoc (bytecode_bytes c) (program_bytes cs) (program_bytes ds))

pub record Holds (b b' : Buffer) (cs : List Bytecode) : Type 0 where
  pub code : b'.code ≡ b.code ++ program_bytes cs
  pub count : b'.inst_offset ≡ b.inst_offset + length cs

Program-Holds : {b b' : Buffer} {cs : List Bytecode} → Program b b' cs → Holds b b' cs
Program-Holds start = record { code = sym (append-nil _); count = omega arith }
Program-Holds {b} (step {b₁} {cs} {c} p e) =
    let h = Program-Holds p in
    let a = Emits-Appends e in
    record {
      code =
          a.code
          ∙ ap (λ r. r ++ bytecode_bytes c) h.code
          ∙ append_assoc b.code (program_bytes cs) (bytecode_bytes c)
          ∙ ap (λ r. b.code ++ r)
              (sym (
                program_bytes-append cs (c ∷ [])
                ∙ ap (λ r. program_bytes cs ++ r) (append-nil (bytecode_bytes c))));
      count = omega (arith, h.count, a.count, length-append cs (c ∷ []));
    }

length-bytes : (c : Bytecode) → 0 < length (bytecode_bytes c)
length-bytes (copy s d) = omega arith
length-bytes _ = omega arith

has_bytes-bytes : (c : Bytecode) (rest : List ℕ) → has_bytes (bytecode_bytes c ++ rest) ≡ true
has_bytes-bytes (copy s d) rest = refl
has_bytes-bytes _ rest = refl

bytecodes-program_bytes :
    (cs : List Bytecode) (fuel n : ℕ)
    → AllBytecodes cs
    → length (program_bytes cs) ≤ fuel
    → bytecodes fuel (record { rest = program_bytes cs; count = n })
      ≡ ok (cs, record { rest = []; count = n + length cs })
unfolding bytecodes
bytecodes-program_bytes [] zero n h f =
    ap (λ m. ok ([], record { rest = []; count = m })) (omega arith)
bytecodes-program_bytes [] (suc fuel) n h f =
    ap (λ m. ok ([], record { rest = []; count = m })) (omega arith)
bytecodes-program_bytes (c ∷ cs) zero n h f =
    absurd (omega (arith, length-bytes c, length-append (bytecode_bytes c) (program_bytes cs)))
bytecodes-program_bytes (c ∷ cs) (suc fuel) n h f =
    let shorter : length (program_bytes cs) ≤ fuel =
      omega (arith, length-bytes c, length-append (bytecode_bytes c) (program_bytes cs)) in
    rw
      (
        has_bytes-bytes c (program_bytes cs),
        bytecode_next-bytes c (program_bytes cs) n h.0,
        bytecodes-program_bytes cs fuel (n + 1) h.1 shorter,
      )
      (ap (λ m. ok (c ∷ cs, record { rest = []; count = m })) (omega arith))

-- The reader's loop over the code that any run of the emitters leaves in a new buffer gives back
-- the bytecodes, if the operands keep to their ranges, and counts as many of them as the buffer:
-- each send with its arguments in reverse order, and each jump with the displacement from its end
-- to its label, modulo 2 ^ 32, if the label was bound when the jump was emitted, and with 0 if it
-- was not, where a jump ends below the offset 2 ^ 64. The length of the code is enough fuel.
pub bytecodes-Program :
    {b' : Buffer} {cs : List Bytecode} (size : ℕ)
    → Program (asm_init_buffer size) b' cs
    → AllBytecodes cs
    → bytecodes (length b'.code) (bytecode_init_iterator b'.code)
      ≡ ok (cs, record { rest = []; count = b'.inst_offset })
unfolding asm_init_buffer bytecode_init_iterator
bytecodes-Program {b'} {cs} size p h =
    let held = Program-Holds p in
    rw (held.code, held.count)
      (bytecodes-program_bytes cs _ 0 h (omega arith)
        ∙ ap (λ m. ok (cs, record { rest = []; count = m })) (omega arith))
