-- ===== src/Base/Result.antt =====
-- What a run of the C code can end in: a value, or one of the faults that the code can meet. The
-- build is a debug build (CMakeLists.txt), so a failed ASSERT aborts. `out_of_fuel` is a loop of the
-- model that was cut off.
use mathlib.Core.Bool.{Bool, true, false}

pub data Fault : Type 0 where
  assertion : Fault
  out_of_bounds : Fault
  null_pointer : Fault
  fatal : Fault
  out_of_fuel : Fault

pub data Run {ℓ} (A : Type ℓ) : Type ℓ where
  fault : Fault → Run A
  ok : A → Run A

infixl 5 ◌>>◌ ◌>>=◌
-- The statement after a fault does not run.
abbrev pub ◌>>=◌ {κ ℓ} : {R : Type κ} {S : Type ℓ} → Run R → (R → Run S) → Run S
fault reason >>= next = fault reason
ok value >>= next = next value

abbrev pub ◌>>◌ {ℓ} : {S : Type ℓ} → Run (Unit {0}) → Run S → Run S
fault reason >> next = fault reason
ok _ >> next = next

-- `ASSERT(cond)`
abbrev pub check : Bool → Run (Unit {0})
check true = ok tt
check false = fault assertion
