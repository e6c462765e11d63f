-- ===== src/Bytecodes/Jumps.antt =====
-- The emitters of jumps of vm/Bytecodes.h: the field of a jump holds the distance from the end of
-- the bytecode to the label, or 0 for a label that is not bound yet.
use yet_another_smalltalk_vm.Base.{
  ℕ, ◌+◌, ◌/◌, ◌%◌, ◌^◌, ◌<◌, ◌≡◌, ◌⊎◌, inl, inr, refl, sym, ap, ◌∙◌, true, false, List, [], ◌∷◌,
  ◌++◌, append_assoc, if◌then◌else◌, length, length-append, arith,
}
use yet_another_smalltalk_vm.Base.Result.{Run, ok, fault, ◌>>=◌}
use yet_another_smalltalk_vm.Assembler.{
  Buffer, Label, asm_offset, asm_ensure_capacity, le_bytes, write, asm_emit_uint8, asm_emit_int32,
  displacement, asm_emit_label32,
}
use yet_another_smalltalk_vm.Assembler.Words.{length-le_bytes}
use yet_another_smalltalk_vm.Bytecodes.{
  Operand, bytecode_operand, bytecode_jump, bytecode_jump_not_member_of,
}
use yet_another_smalltalk_vm.Bytecodes.Operands.{operand_bytes, bytecode_operand-write}

-- The jump that ends `b'` is read with the displacement `d`: from the end of the jump to the label
-- if it is bound, and 0 if it is not.
abbrev pub JumpsTo : Label → Buffer → ℕ → Type 0
JumpsTo l b' d =
    (asm_offset b' < 2 ^ 64)
    × (d < 2 ^ 32)
    × (((l.is_bound ≡ false) × (d ≡ 0))
        ⊎ ((l.is_bound ≡ true) × ((asm_offset b' + d) % 2 ^ 32 ≡ l.offset % 2 ^ 32)))

bind_inversion :
    {A B : Type 0} (m : Run A) (f : A → Run B) {b : B}
    → (m >>= f) ≡ ok b
    → (a : A) × (m ≡ ok a) × (f a ≡ ok b)
bind_inversion (ok a) f h = (a, refl, h)
bind_inversion (fault e) f h = cc h

-- `b'` is `b` with more bytes of code, as far as the readers go.
pub record Grows (b b' : Buffer) (bytes : List ℕ) : Type 0 where
  pub code : b'.code ≡ b.code ++ bytes
  pub count : b'.inst_offset ≡ b.inst_offset

write-Grows : (bytes : List ℕ) (b : Buffer) {b' : Buffer} → write bytes b ≡ ok b' → Grows b b' bytes
unfolding write
write-Grows bytes b h = ground arith

ensure-Grows :
    (bytes : List ℕ) (b : Buffer) {b' : Buffer}
    → Grows (asm_ensure_capacity b) b' bytes
    → Grows b b' bytes
unfolding asm_ensure_capacity
ensure-Grows bytes b g = ground arith

Grows-append :
    {b b' b'' : Buffer} (xs ys : List ℕ) → Grows b b' xs → Grows b' b'' ys → Grows b b'' (xs ++ ys)
Grows-append {b} xs ys g h = record {
  code = h.code ∙ ap (λ r. r ++ ys) g.code ∙ append_assoc b.code xs ys;
  count = h.count ∙ g.count;
}

abbrev label_field : Label → ℕ → ℕ
label_field l at = if l.is_bound then displacement l.offset at 4 else 0

emit_label-Grows :
    (b : Buffer) (l : Label) {b' : Buffer} {l' : Label}
    → asm_emit_label32 b l ≡ ok (b', l')
    → Grows b b' (le_bytes 4 (label_field l (asm_offset b)))
unfolding asm_emit_label32 asm_emit_int32 asm_ensure_capacity write
emit_label-Grows b l h = ground arith

le_bytes-low : (v : ℕ) → le_bytes 4 (v % 2 ^ 32) ≡ le_bytes 4 v
unfolding le_bytes
le_bytes-low v =
    let a : v % 2 ^ 32 % 256 ≡ v % 256 = omega arith in
    let b : v % 2 ^ 32 / 256 % 256 ≡ v / 256 % 256 = omega arith in
    let c : v % 2 ^ 32 / 256 / 256 % 256 ≡ v / 256 / 256 % 256 = omega arith in
    let d : v % 2 ^ 32 / 256 / 256 / 256 % 256 ≡ v / 256 / 256 / 256 % 256 = omega arith in
    rw (a, b, c, d) refl

field-JumpsTo :
    (l : Label) (b' : Buffer) (d at : ℕ)
    → asm_offset b' ≡ at + 4
    → JumpsTo l b' d
    → le_bytes 4 (label_field l at) ≡ le_bytes 4 d
unfolding displacement
field-JumpsTo l b' d at e (small, low, inl (unbound, zero_d)) = rw (unbound, zero_d) refl
field-JumpsTo l b' d at e (small, low, inr (bound, leads)) =
    let same : displacement l.offset at 4 % 2 ^ 32 ≡ d = omega (arith, e, small, low, leads) in
    rw bound (sym (le_bytes-low (displacement l.offset at 4)) ∙ ap (le_bytes 4) same)

abbrev buffer_of : Buffer → Run (Buffer × Label) → Buffer
buffer_of d (ok (b, l)) = b
buffer_of d (fault e) = d

abbrev counted : Buffer × Label → Run (Buffer × Label)
counted (c, k) = ok (record c { inst_offset = c.inst_offset + 1 }, k)

-- The end of both emitters: the field of the label, and the count of bytecodes.
emit_field :
    (bytes : List ℕ) (b b₁ : Buffer) (l : Label) (d : ℕ) {b' : Buffer} {l' : Label}
    → Grows b b₁ bytes
    → (asm_emit_label32 b₁ l >>= counted) ≡ ok (b', l')
    → JumpsTo l b' d
    → (b'.code ≡ b.code ++ (bytes ++ le_bytes 4 d)) × (b'.inst_offset ≡ b.inst_offset + 1)
emit_field bytes b b₁ l d {b'} {l'} g h to =
    let ((b₂, l₂), emitted, last) = bind_inversion (asm_emit_label32 b₁ l) counted h in
    let same : record b₂ { inst_offset = b₂.inst_offset + 1 } ≡ b' = ap (buffer_of b₂) last in
    let at = asm_offset b₁ in
    let field = emit_label-Grows b₁ l emitted in
    let all = Grows-append bytes (le_bytes 4 (label_field l at)) g field in
    let code_same : b₂.code ≡ b'.code = ap (λ x. x.code) same in
    let four : asm_offset b' ≡ at + 4 =
      ap length (sym code_same ∙ field.code)
      ∙ length-append b₁.code (le_bytes 4 (label_field l at))
      ∙ ap (λ n. at + n) (length-le_bytes 4 (label_field l at)) in
    let bytes_same = field-JumpsTo l b' d at four to in
    (
      sym code_same ∙ all.code ∙ ap (λ r. b.code ++ (bytes ++ r)) bytes_same,
      sym (ap (λ x. x.inst_offset) same) ∙ ap (λ n. n + 1) all.count,
    )

pub bytecode_jump-code :
    (b : Buffer) (l : Label) (d : ℕ) {b' : Buffer} {l' : Label}
    → bytecode_jump b l ≡ ok (b', l')
    → JumpsTo l b' d
    → (b'.code ≡ b.code ++ (5 ∷ le_bytes 4 d)) × (b'.inst_offset ≡ b.inst_offset + 1)
unfolding bytecode_jump asm_emit_uint8
bytecode_jump-code b l d h to =
    let (b₁, first, h₁) = bind_inversion (write (5 ∷ []) (asm_ensure_capacity b)) _ h in
    emit_field (5 ∷ []) b b₁ l d (ensure-Grows (5 ∷ []) b (write-Grows (5 ∷ []) _ first)) h₁ to

pub bytecode_jump_not_member_of-code :
    (b : Buffer) (o : Operand) (c : ℕ) (l : Label) (d : ℕ) {b' : Buffer} {l' : Label}
    → bytecode_jump_not_member_of b o c l ≡ ok (b', l')
    → JumpsTo l b' d
    → (b'.code ≡ b.code ++ (6 ∷ c % 256 ∷ (operand_bytes o ++ le_bytes 4 d)))
      × (b'.inst_offset ≡ b.inst_offset + 1)
unfolding bytecode_jump_not_member_of asm_emit_uint8
bytecode_jump_not_member_of-code b o c l d h to =
    let (b₁, first, h₁) = bind_inversion (write (6 ∷ []) (asm_ensure_capacity b)) _ h in
    let (b₂, second, h₂) = bind_inversion (write (c % 256 ∷ []) b₁) _ h₁ in
    let (b₃, third, h₃) = bind_inversion (bytecode_operand o b₂) _ h₂ in
    let g = ensure-Grows (6 ∷ []) b (write-Grows (6 ∷ []) _ first) in
    let g₂ = Grows-append (6 ∷ []) (c % 256 ∷ []) g (write-Grows _ b₁ second) in
    let g₃ = write-Grows (operand_bytes o) b₂ (sym (bytecode_operand-write o b₂) ∙ third) in
    emit_field (6 ∷ c % 256 ∷ operand_bytes o) b b₃ l d (Grows-append _ (operand_bytes o) g₂ g₃) h₃
      to
