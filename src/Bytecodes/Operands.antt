-- ===== src/Bytecodes/Operands.antt =====
-- An operand is written as one block of bytes, and read back from it.
use yet_another_smalltalk_vm.Base.{
  ℕ, ◌%◌, ◌^◌, ◌<◌, ◌≡◌, refl, sym, ap, ◌∙◌, ◌≡⟨◌⟩◌, ◌∎, List, [], ◌∷◌, ◌++◌, append-nil,
  append_assoc, length, length-append, arith,
}
use yet_another_smalltalk_vm.Base.Result.{Run, ok, fault, ◌>>=◌}
use yet_another_smalltalk_vm.Assembler.{Buffer, le_bytes, write, asm_emit_uint8, asm_emit_uint64}
use yet_another_smalltalk_vm.Assembler.Words.{read_le-le_bytes}
use yet_another_smalltalk_vm.Bytecodes.{
  Operand, value, nil, true_value, false_value, this_context, temp_var, arg_var, super, context_var,
  inst_var, literal, assoc, block, type_of, bytecode_operand, bytecode_operands,
  bytecode_next_operand, next_operands,
}

-- Two stores in a row are one store of all the bytes, faults included.
pub write-append : (xs ys : List ℕ) (b : Buffer) → (write xs b >>= write ys) ≡ write (xs ++ ys) b
unfolding write
write-append xs ys b =
    ground (arith, length-append xs ys, length-append b.code xs, append_assoc b.code xs ys)

abbrev pub field_bytes : Operand → List ℕ
field_bytes (value v) = le_bytes 8 v
field_bytes (temp_var i) = i % 256 ∷ []
field_bytes (arg_var i) = i % 256 ∷ []
field_bytes (inst_var i) = i % 256 ∷ []
field_bytes (literal i) = i % 256 ∷ []
field_bytes (assoc i) = i % 256 ∷ []
field_bytes (block i) = i % 256 ∷ []
field_bytes (context_var i l) = i % 256 ∷ l % 256 ∷ []
field_bytes nil = []
field_bytes true_value = []
field_bytes false_value = []
field_bytes this_context = []
field_bytes super = []

abbrev pub operand_bytes : Operand → List ℕ
operand_bytes o = type_of o % 256 ∷ field_bytes o

abbrev pub operands_bytes : List Operand → List ℕ
operands_bytes [] = []
operands_bytes (o ∷ os) = operand_bytes o ++ operands_bytes os

pub write_then {ℓ} :
    {C : Type ℓ} (xs ys : List ℕ) (b : Buffer) (k : Buffer → Run C)
    → (write xs b >>= λ b₁. write ys b₁ >>= k) ≡ (write (xs ++ ys) b >>= k)
unfolding write
write_then xs ys b k =
    ground (arith, length-append xs ys, length-append b.code xs, append_assoc b.code xs ys)

write-nothing : (m : Run Buffer) → (m >>= λ b. ok b) ≡ m
write-nothing (ok b) = refl
write-nothing (fault e) = refl

-- The byte of the type and the fields are one store.
pub bytecode_operand-write :
    (o : Operand) (b : Buffer) → bytecode_operand o b ≡ write (operand_bytes o) b
unfolding bytecode_operand asm_emit_uint8 asm_emit_uint64
bytecode_operand-write (value v) b = write-append (0 ∷ []) (le_bytes 8 v) b
bytecode_operand-write (temp_var i) b = write-append (5 ∷ []) (i % 256 ∷ []) b
bytecode_operand-write (arg_var i) b = write-append (6 ∷ []) (i % 256 ∷ []) b
bytecode_operand-write (inst_var i) b = write-append (9 ∷ []) (i % 256 ∷ []) b
bytecode_operand-write (literal i) b = write-append (11 ∷ []) (i % 256 ∷ []) b
bytecode_operand-write (assoc i) b = write-append (12 ∷ []) (i % 256 ∷ []) b
bytecode_operand-write (block i) b = write-append (13 ∷ []) (i % 256 ∷ []) b
bytecode_operand-write (context_var i l) b =
    write_then (8 ∷ []) (i % 256 ∷ []) b (write (l % 256 ∷ []))
    ∙ write-append (8 ∷ i % 256 ∷ []) (l % 256 ∷ []) b
bytecode_operand-write nil b = write-nothing _
bytecode_operand-write true_value b = write-nothing _
bytecode_operand-write false_value b = write-nothing _
bytecode_operand-write this_context b = write-nothing _
bytecode_operand-write super b = write-nothing _

-- A store and the operands behind it are one store.
pub write-operands :
    (os : List Operand) (xs : List ℕ) (b : Buffer)
    → (write xs b >>= bytecode_operands os) ≡ write (xs ++ operands_bytes os) b
unfolding bytecode_operands
write-operands [] xs b = rw append-nil (write-nothing (write xs b))
write-operands (o ∷ os) xs b =
    (write xs b >>= λ b₁. bytecode_operand o b₁ >>= bytecode_operands os)
    ≡⟨ (simp bytecode_operand-write) ⟩
      (write xs b >>= λ b₁. write (operand_bytes o) b₁ >>= bytecode_operands os)
    ≡⟨ write_then xs (operand_bytes o) b (bytecode_operands os) ⟩
      (write (xs ++ operand_bytes o) b >>= bytecode_operands os)
    ≡⟨ write-operands os (xs ++ operand_bytes o) b ⟩
      write ((xs ++ operand_bytes o) ++ operands_bytes os) b
    ≡⟨ ap (λ r. write r b) (append_assoc xs (operand_bytes o) (operands_bytes os)) ⟩
      write (xs ++ operands_bytes (o ∷ os)) b ∎

bind_assoc {ℓ} :
    {C : Type ℓ} (m : Run Buffer) (f : Buffer → Run Buffer) (k : Buffer → Run C)
    → (m >>= f >>= k) ≡ (m >>= λ b. f b >>= k)
bind_assoc (ok b) f k = refl
bind_assoc (fault e) f k = refl

pub write_operands_then {ℓ} :
    {C : Type ℓ} (xs : List ℕ) (os : List Operand) (b : Buffer) (k : Buffer → Run C)
    → (write xs b >>= λ b₁. bytecode_operands os b₁ >>= k)
      ≡ (write (xs ++ operands_bytes os) b >>= k)
write_operands_then xs os b k =
    sym (bind_assoc (write xs b) (bytecode_operands os) k)
    ∙ ap (λ m. m >>= k) (write-operands os xs b)

-- the ranges of the fields
abbrev pub IsOperand : Operand → Type 0
IsOperand (value v) = v < 256 ^ 8
IsOperand (temp_var i) = i < 256
IsOperand (arg_var i) = i < 256
IsOperand (inst_var i) = i < 256
IsOperand (literal i) = i < 256
IsOperand (assoc i) = i < 256
IsOperand (block i) = i < 256
IsOperand (context_var i l) = (i < 256) × (l < 256)
IsOperand nil = Unit {0}
IsOperand true_value = Unit {0}
IsOperand false_value = Unit {0}
IsOperand this_context = Unit {0}
IsOperand super = Unit {0}

abbrev pub AllOperands : List Operand → Type 0
AllOperands [] = Unit {0}
AllOperands (o ∷ os) = IsOperand o × AllOperands os

byte :
    (c : ℕ → Operand) (i : ℕ) (rest : List ℕ)
    → i < 256
    → ◌≡◌ {A = Run (Operand × List ℕ)} (ok (c (i % 256), rest)) (ok (c i, rest))
byte c i rest h = ap (λ n. ok (c n, rest)) (omega arith)

-- An operand is read back from its bytes, whatever follows them.
pub bytecode_next_operand-bytes :
    (o : Operand) (rest : List ℕ)
    → IsOperand o
    → bytecode_next_operand (operand_bytes o ++ rest) ≡ ok (o, rest)
unfolding bytecode_next_operand type_of
bytecode_next_operand-bytes (value v) rest h = rw (read_le-le_bytes 8 v rest h)
bytecode_next_operand-bytes (temp_var i) rest h = byte temp_var i rest h
bytecode_next_operand-bytes (arg_var i) rest h = byte arg_var i rest h
bytecode_next_operand-bytes (inst_var i) rest h = byte inst_var i rest h
bytecode_next_operand-bytes (literal i) rest h = byte literal i rest h
bytecode_next_operand-bytes (assoc i) rest h = byte assoc i rest h
bytecode_next_operand-bytes (block i) rest h = byte block i rest h
bytecode_next_operand-bytes (context_var i l) rest h =
    let e : i % 256 ≡ i = omega arith in let e' : l % 256 ≡ l = omega arith in rw (e, e')
bytecode_next_operand-bytes nil rest h = refl
bytecode_next_operand-bytes true_value rest h = refl
bytecode_next_operand-bytes false_value rest h = refl
bytecode_next_operand-bytes this_context rest h = refl
bytecode_next_operand-bytes super rest h = refl

pub next_operands-bytes :
    (os : List Operand) (rest : List ℕ)
    → AllOperands os
    → next_operands (length os) (operands_bytes os ++ rest) ≡ ok (os, rest)
unfolding next_operands
next_operands-bytes [] rest h = refl
next_operands-bytes (o ∷ os) rest h = rw (
  append_assoc (operand_bytes o) (operands_bytes os) rest,
  bytecode_next_operand-bytes o (operands_bytes os ++ rest) h.0,
  next_operands-bytes os rest h.1,
)
