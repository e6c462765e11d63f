-- ===== src/Assembler/Labels.antt =====
-- A jump field and the label that it refers to may come in either order.
use yet_another_smalltalk_vm.Base.{
  ℕ, zero, suc, ◌+◌, ◌%◌, ◌^◌, ◌≤◌, ◌<◌, ◌≡◌, refl, ap, sym, ◌∙◌, true, false, List, [], ◌∷◌, ◌++◌,
  append-nil, length, take, drop, length-append, drop-append, take-append, arith,
}
use yet_another_smalltalk_vm.Base.Result.{Run, ok, fault}
use yet_another_smalltalk_vm.Assembler.{
  Buffer, Label, asm_offset, asm_ensure_capacity, le_bytes, write, asm_emit_int32, displacement,
  asm_emit_label32, patch, asm_label_bind,
}
use yet_another_smalltalk_vm.Assembler.Words.{read_le, length-le_bytes, read_le-le_bytes_four}

pub code_of_ensure : (b : Buffer) → (asm_ensure_capacity b).code ≡ b.code
unfolding asm_ensure_capacity
code_of_ensure b = ground arith

-- what every write keeps: the code ends in the allocation
pub record IsInside (b : Buffer) : Type 0 where
  pub positive : 0 < b.capacity
  pub inside : asm_offset b ≤ b.capacity + 32

-- After `asmEnsureCapacity` there is room for 33 bytes.
pub room_of_ensure :
    (b : Buffer)
    → IsInside b
    → (asm_offset b + 33 ≤ (asm_ensure_capacity b).capacity + 32)
      × (0 < (asm_ensure_capacity b).capacity)
      × ((asm_ensure_capacity b).inst_offset ≡ b.inst_offset)
unfolding asm_ensure_capacity
room_of_ensure b v = ground arith

pub write-ok :
    (bytes : List ℕ) (b : Buffer)
    → length b.code + length bytes ≤ b.capacity + 32
    → write bytes b ≡ ok (record b { code = b.code ++ bytes })
unfolding write
write-ok bytes b h = ground arith

module _ (b : Buffer) (v : IsInside b) (l : Label) where
  pub field : ℕ → Buffer
  field d = record (asm_ensure_capacity b) { code = b.code ++ le_bytes 4 d }

  emit-field : (d : ℕ) → asm_emit_int32 d (asm_ensure_capacity b) ≡ ok (field d)
  unfolding asm_emit_int32 field
  emit-field d = rw (
    write-ok (le_bytes 4 d) (asm_ensure_capacity b)
        (rw (code_of_ensure b, length-le_bytes) (omega (arith, room_of_ensure b v))),
    code_of_ensure b,
  )

  offset_of_ensure : asm_offset (asm_ensure_capacity b) ≡ asm_offset b
  offset_of_ensure = ap length (code_of_ensure b)

  module _ (unresolved : l.is_resolved ≡ false) where
    pub emit-bound :
        l.is_bound ≡ true
        → asm_emit_label32 b l
          ≡ ok (field (displacement l.offset (asm_offset b) 4), record l { is_resolved = true })
    unfolding asm_emit_label32 field
    emit-bound bound = rw (unresolved, bound, emit-field, offset_of_ensure)

    emit-unbound :
        l.is_bound ≡ false
        → asm_emit_label32 b l
          ≡ ok (field 0, record l { is_resolved = true; offset = asm_offset b; size = 4 })
    unfolding asm_emit_label32 field
    emit-unbound unbound = rw (unresolved, unbound, emit-field, offset_of_ensure)

-- Bytes in the middle are replaced, those around them stay.
replace_middle :
    (xs ys zs more : List ℕ) (n : ℕ)
    → n ≡ length xs + length ys
    → take (length xs) ((xs ++ ys) ++ more) ++ (zs ++ drop n ((xs ++ ys) ++ more))
      ≡ xs ++ (zs ++ more)
replace_middle [] ys zs more n e =
    let e' : n ≡ length ys = omega arith in rw (e', drop-append ys more)
replace_middle (x ∷ xs) ys zs more zero e = absurd (omega arith)
replace_middle (x ∷ xs) ys zs more (suc n) e =
    ap (λ r. x ∷ r) (replace_middle xs ys zs more n (omega arith))

abbrev first_of_run : Buffer → Run (Buffer × Label) → Buffer
first_of_run d (ok (b, l)) = b
first_of_run d (fault e) = d

abbrev second_of_run : Label → Run (Buffer × Label) → Label
second_of_run d (ok (b, l)) = l
second_of_run d (fault e) = d

module _ (b : Buffer) (v : IsInside b) (l : Label) (unresolved : l.is_resolved ≡ false) where
  -- `b'` holds the code of `b`, a field with the distance from its end to `target`, and `more`.
  abbrev pub HasField : ℕ → List ℕ → Buffer → Type 0
  HasField target more b' =
      b'.code ≡ b.code ++ (le_bytes 4 (displacement target (asm_offset b) 4) ++ more)

  -- `b'` goes on from `b₁` with `more`.
  abbrev pub Extends : Buffer → List ℕ → Buffer → Type 0
  Extends b₁ more b' = (b'.code ≡ b₁.code ++ more) × IsInside b'

  -- for a label that is bound already
  emit-HasField :
      l.is_bound ≡ true
      → (b₁ : Buffer) × (l₁ : Label) × (asm_emit_label32 b l ≡ ok (b₁, l₁))
        × HasField l.offset [] b₁
  unfolding field
  emit-HasField bound = (
    field b v l _,
    record l { is_resolved = true },
    emit-bound b v l unresolved bound,
    rw append-nil,
  )

  patched : (b₂ : Buffer) (more : List ℕ) → Extends (field b v l 0) more b₂ → ℕ → Buffer
  patched b₂ more ext d = record b₂ { code = b.code ++ (le_bytes 4 d ++ more) }

  code_of_patched :
      (b₂ : Buffer) (more : List ℕ) (ext : Extends (field b v l 0) more b₂) (d : ℕ)
      → (patched b₂ more ext d).code ≡ b.code ++ (le_bytes 4 d ++ more)
  unfolding patched
  code_of_patched b₂ more ext d = refl

  patch-field :
      (b₂ : Buffer) (more : List ℕ) (ext : Extends (field b v l 0) more b₂) (d : ℕ)
      → patch (asm_offset b) (le_bytes 4 d) b₂ ≡ ok (patched b₂ more ext d)
  unfolding patch patched field
  patch-field b₂ more ext d =
      let four = length-le_bytes 4 d in
      let room : asm_offset b + 4 ≤ b₂.capacity + 32 = omega (
        arith,
        ap length ext.0,
        ext.1.inside,
        length-append (b.code ++ le_bytes 4 0) more,
        length-append b.code (le_bytes 4 0),
        length-le_bytes 4 0,
      ) in
      let middle =
        replace_middle b.code (le_bytes 4 0) (le_bytes 4 d) more (asm_offset b + 4)
          (omega (arith, length-le_bytes 4 0)) in
      rw (four, ext.0, middle) (ground arith)

  bound-patched :
      (b₂ : Buffer) (more : List ℕ) (target : ℕ) (ext : Extends (field b v l 0) more b₂)
      → l.is_bound ≡ false
      → asm_label_bind b₂ (record l { is_resolved = true; offset = asm_offset b; size = 4 }) target
        ≡ ok (
          patched b₂ more ext (displacement target (asm_offset b) 4),
          record l { is_bound = true; is_resolved = true; offset = asm_offset b; size = 4 },
        )
  unfolding asm_label_bind
  bound-patched b₂ more target ext unbound =
      ground (arith, patch-field b₂ more ext (displacement target (asm_offset b) 4))

  -- Forwards: a field is emitted, more code follows, then the label is bound at `target`, which
  -- succeeds. The field then holds the distance to `target`, and no other byte has changed.
  pub bind-HasField :
      {b₁ : Buffer} {l₁ : Label}
      → l.is_bound ≡ false
      → asm_emit_label32 b l ≡ ok (b₁, l₁)
      → (b₂ : Buffer) (more : List ℕ) (target : ℕ) → Extends b₁ more b₂
      → (b₃ : Buffer) × (l₃ : Label) × (asm_label_bind b₂ l₁ target ≡ ok (b₃, l₃))
        × HasField target more b₃
  bind-HasField {b₁} {l₁} unbound run b₂ more target ext =
      let same : ◌≡◌ {A = Run (Buffer × Label)} (ok (b₁, l₁))
          (ok (field b v l 0, record l { is_resolved = true; offset = asm_offset b; size = 4 })) =
        sym run ∙ emit-unbound b v l unresolved unbound in
      let same_buffer : b₁ ≡ field b v l 0 = ap (first_of_run b₁) same in
      let same_label : l₁ ≡ record l { is_resolved = true; offset = asm_offset b; size = 4 } =
        ap (second_of_run l₁) same in
      let ext' : Extends (field b v l 0) more b₂ = rw same_buffer at ext in
      (
        patched b₂ more ext' (displacement target (asm_offset b) 4),
        record l { is_bound = true; is_resolved = true; offset = asm_offset b; size = 4 },
        rw same_label (bound-patched b₂ more target ext' unbound),
        code_of_patched b₂ more ext' _,
      )

  -- A field can be emitted for a label that is not bound yet.
  pub emit-unbound_ok :
      l.is_bound ≡ false → (b₁ : Buffer) × (l₁ : Label) × (asm_emit_label32 b l ≡ ok (b₁, l₁))
  emit-unbound_ok unbound = (_, _, emit-unbound b v l unresolved unbound)

  -- What is read from such a field leads from its end to the target, in 32 bits.
  pub HasField-target :
      (target : ℕ) {more : List ℕ} (b' : Buffer)
      → HasField target more b'
      → asm_offset b < 2 ^ 64
      → (d : ℕ) × (read_le 4 (drop (asm_offset b) b'.code) ≡ ok (d, more))
        × ((asm_offset b + 4 + d) % 2 ^ 32 ≡ target % 2 ^ 32)
  unfolding displacement
  HasField-target target {more} b' has small = (
    displacement target (asm_offset b) 4 % 2 ^ 32,
    rw (has, drop-append) (read_le-le_bytes_four (displacement target (asm_offset b) 4) more),
    omega arith,
  )

  -- Backwards: a field for a label that is bound already can be emitted; only the field is added, and
  -- the number read from it, added to the offset behind it, is the offset of the label in 32 bits.
  pub emit-target :
      l.is_bound ≡ true
      → asm_offset b < 2 ^ 64
      → (b₁ : Buffer) × (l₁ : Label) × (d : ℕ) × (asm_emit_label32 b l ≡ ok (b₁, l₁))
        × (take (asm_offset b) b₁.code ≡ b.code)
        × (read_le 4 (drop (asm_offset b) b₁.code) ≡ ok (d, []))
        × ((asm_offset b + 4 + d) % 2 ^ 32 ≡ l.offset % 2 ^ 32)
  emit-target bound small =
      let (b₁, l₁, run, has) = emit-HasField bound in
      let (d, read, leads) = HasField-target l.offset b₁ has small in
      (b₁, l₁, d, run, rw (has, take-append) refl, read, leads)
