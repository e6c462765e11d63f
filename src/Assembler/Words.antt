-- ===== src/Assembler/Words.antt =====
-- Reading back the little-endian words of the buffer.
use native.Mathlib.Nat.{pow-suc}
use yet_another_smalltalk_vm.Base.{
  ℕ, zero, suc, ◌+◌, ◌*◌, ◌/◌, ◌%◌, ◌^◌, ◌<◌, ◌≡◌, refl, ap, List, [], ◌∷◌, ◌++◌, length, arith,
}
use yet_another_smalltalk_vm.Base.Result.{Run, ok, fault, out_of_bounds, ◌>>=◌}
use yet_another_smalltalk_vm.Assembler.{le_bytes}

-- a load of `n` bytes; past the end it is out of bounds
unfoldable pub read_le : ℕ → List ℕ → Run (ℕ × List ℕ)
read_le zero bytes = ok (0, bytes)
read_le (suc n) [] = fault out_of_bounds
read_le (suc n) (b ∷ bytes) = do (v, rest) ← read_le n bytes; ok (b + 256 * v, rest)

pub length-le_bytes : (n v : ℕ) → length (le_bytes n v) ≡ n
unfolding le_bytes
length-le_bytes zero v = refl
length-le_bytes (suc n) v = ap suc (length-le_bytes n (v / 256))

pub read_le-le_bytes :
    (n v : ℕ) (rest : List ℕ) → v < 256 ^ n → read_le n (le_bytes n v ++ rest) ≡ ok (v, rest)
unfolding le_bytes read_le
read_le-le_bytes zero v rest h = let e : 0 ≡ v = omega arith in rw e
read_le-le_bytes (suc n) v rest h =
    let small : v / 256 < 256 ^ n = omega (arith, pow-suc 256 n) in
    let e : v % 256 + 256 * (v / 256) ≡ v = omega arith in
    rw (read_le-le_bytes n (v / 256) rest small, e)

-- A 32 bit word keeps the low 32 bits of what is stored.
pub read_le-le_bytes_four :
    (v : ℕ) (rest : List ℕ) → read_le 4 (le_bytes 4 v ++ rest) ≡ ok (v % 2 ^ 32, rest)
unfolding le_bytes read_le
read_le-le_bytes_four v rest = ap (λ t. ok (t, rest)) (omega arith)
