-- ===== src/Assembler.antt =====
-- vm/Assembler.h: the growing code buffer and its labels. `code` are the bytes from `buffer` to
-- `p`, `capacity` is `end - buffer`; behind `end` the allocation has `ASM_BUFFER_GAP` more bytes,
-- and a write past these is out of bounds. Integers are written in little-endian order.
pub mod Words
pub mod Labels
use yet_another_smalltalk_vm.Base.{
  ℕ, zero, suc, ◌+◌, ◌-◌, ◌*◌, ◌/◌, ◌%◌, ◌^◌, Bool, true, false, not, ◌||◌, List, [], ◌∷◌, ◌++◌,
  ◌==◌, ltb, leb, if◌then◌else◌, length, take, drop,
}
use yet_another_smalltalk_vm.Base.Result.{Run, ok, fault, fatal, out_of_bounds, ◌>>=◌, ◌>>◌, check}

abbrev pub asm_buffer_gap : ℕ
asm_buffer_gap = 32

pub record Buffer : Type 0 where
  pub code : List ℕ
  pub capacity : ℕ
  pub inst_offset : ℕ

unfoldable pub asm_init_buffer : ℕ → Buffer
asm_init_buffer size = record { code = []; capacity = size; inst_offset = 0 }

abbrev pub asm_offset : Buffer → ℕ
asm_offset b = length b.code

-- The reallocation is taken to succeed.
unfoldable pub asm_ensure_capacity : Buffer → Buffer
asm_ensure_capacity b =
    if leb b.capacity (asm_offset b)
    then record b { capacity = (b.capacity + asm_buffer_gap) * 2 - asm_buffer_gap }
    else b

-- the `n` bytes of a word
unfoldable pub le_bytes : ℕ → ℕ → List ℕ
le_bytes zero v = []
le_bytes (suc n) v = v % 256 ∷ le_bytes n (v / 256)

-- a store at `p` and the step of `p` behind it
unfoldable pub write : List ℕ → Buffer → Run Buffer
write bytes b =
    if leb (asm_offset b + length bytes) (b.capacity + asm_buffer_gap)
    then ok (record b { code = b.code ++ bytes })
    else fault out_of_bounds

unfoldable pub asm_emit_uint8 : ℕ → Buffer → Run Buffer
asm_emit_uint8 v b = write (v % 256 ∷ []) b

-- The argument is the bit pattern of the `int32_t`.
unfoldable pub asm_emit_int32 : ℕ → Buffer → Run Buffer
asm_emit_int32 v b = write (le_bytes 4 v) b

unfoldable pub asm_emit_uint64 : ℕ → Buffer → Run Buffer
asm_emit_uint64 v b = write (le_bytes 8 v) b

pub record Label : Type 0 where
  pub is_bound : Bool
  pub is_resolved : Bool
  pub offset : ℕ
  pub size : ℕ

-- `asmInitLabel` leaves the other two fields as they are.
unfoldable pub asm_init_label : Label → Label
asm_init_label l = record l { is_bound = false; is_resolved = false }

-- `to - from - size` in 64 bits
unfoldable pub displacement : ℕ → ℕ → ℕ → ℕ
displacement to from size = (to + 2 ^ 64 + 2 ^ 64 - from - size) % 2 ^ 64

unfoldable pub asm_emit_label32 : Buffer → Label → Run (Buffer × Label)
asm_emit_label32 b l =
    let b' = asm_ensure_capacity b in
    let l' = record l { is_resolved = true } in
    check (not l.is_resolved)
    >> (if l.is_bound
        then (asm_emit_int32 (displacement l.offset (asm_offset b') 4) b' >>= λ c. ok (c, l'))
        else (asm_emit_int32 0 b' >>= λ c. ok (c, record l' { offset = asm_offset b'; size = 4 })))

-- a store into the bytes that are already there
unfoldable pub patch : ℕ → List ℕ → Buffer → Run Buffer
patch at bytes b =
    if leb (at + length bytes) (b.capacity + asm_buffer_gap)
    then ok (record b { code = take at b.code ++ (bytes ++ drop (at + length bytes) b.code) })
    else fault out_of_bounds

unfoldable pub asm_label_bind : Buffer → Label → ℕ → Run (Buffer × Label)
asm_label_bind b l offset =
    let l' = record l { is_bound = true } in
    let bytes = le_bytes l.size (displacement offset l.offset l.size) in
    check (not l.is_bound)
    >> (if l.is_resolved
        then (if l.size == 1 || (l.size == 4 || l.size == 8)
            then (patch l.offset bytes b >>= λ c. ok (c, l'))
            else fault fatal)
        else ok (b, record l' { offset = offset }))
