-- ===== src/FreeList/Accounting.antt =====
-- How often a byte is free: each function on the list accounts for every address.
use yet_another_smalltalk_vm.Base.{
  ℕ, zero, suc, ◌+◌, ◌-◌, ◌≤◌, ◌<◌, ◌≡◌, ◌&&◌, List, [], ◌∷◌, ltb, leb, if◌then◌else◌, length,
  get_or, set, arith,
}
use yet_another_smalltalk_vm.FreeList.{FreeSpace, FreeList}

-- 1 if the address `a` lies in the `n` bytes from `p` on, else 0
abbrev pub covers : ℕ → ℕ → ℕ → ℕ
covers a p n = if leb p a && ltb a (p + n) then 1 else 0

abbrev pub free_in : ℕ → List FreeSpace → ℕ
free_in a [] = 0
free_in a (s ∷ r) = covers a s.addr s.size + free_in a r

abbrev pub free_in_all : ℕ → List (List FreeSpace) → ℕ
free_in_all a [] = 0
free_in_all a (b ∷ bs) = free_in a b + free_in_all a bs

-- how many free spaces hold the byte at `a`
abbrev pub free_at : ℕ → FreeList → ℕ
free_at a fl = free_in_all a fl.free_spaces

pub free_in_all-set :
    (a : ℕ) (bs : List (List FreeSpace)) (i : ℕ) (c : List FreeSpace)
    → i < length bs
    → free_in_all a (set bs i c) + free_in a (get_or bs i []) ≡ free_in_all a bs + free_in a c
free_in_all-set a [] i c h = absurd (omega arith)
free_in_all-set a (b ∷ bs) zero c h = omega arith
free_in_all-set a (b ∷ bs) (suc i) c h = omega (arith, free_in_all-set a bs i c (omega arith))

-- cutting a region in two
pub covers-split : (a p m n : ℕ) → m ≤ n → covers a p n ≡ covers a p m + covers a (p + m) (n - m)
covers-split a p m n h = ground arith
