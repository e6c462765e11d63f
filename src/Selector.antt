-- ===== src/Selector.antt =====
-- vm/String.c: the number of the arguments of a selector. The selector is the list of its bytes, and
-- `past` the byte that stands after them in memory.
use yet_another_smalltalk_vm.Base.{
  ℕ, zero, suc, ◌≤◌, ◌<◌, ◌≡◌, refl, ap, ◌∙◌, Bool, true, false, not, ◌&&◌, ◌||◌, Option, none,
  some, List, [], ◌∷◌, ◌==◌, ltb, leb, if◌then◌else◌, length, get_or, Bool-cases, Option-cases, inl,
  inr, arith,
}
use yet_another_smalltalk_vm.Base.Counts.{count, one_if}
use yet_another_smalltalk_vm.Base.Result.{Run, ok, fault, out_of_bounds, out_of_fuel, ◌>>=◌}

abbrev pub colon : ℕ
colon = 58

-- `memchr`: the bytes after the first that is `c`
unfoldable pub after_byte : ℕ → List ℕ → Option (List ℕ)
after_byte c [] = none
after_byte c (x ∷ xs) = if x == c then some xs else after_byte c xs

-- The loop over the colons, on fuel.
unfoldable pub count_colons : ℕ → List ℕ → Run ℕ
count_colons zero s = elim s [ [] ↦ ok 0 | x ∷ xs ↦ fault out_of_fuel ]
count_colons (suc n) s = elim (after_byte colon s) [
  | none ↦ ok 0
  | some rest ↦ count_colons n rest >>= λ k. ok (suc k)
]

-- Comparisons of a `char`, which is signed.
abbrev pub below : ℕ → ℕ → Bool
below c k = leb 128 c || ltb c k

abbrev pub above : ℕ → ℕ → Bool
above c k = ltb c 128 && ltb k c

-- The test reads `s[1]` against 'z', where it means `s[0]`.
unfoldable pub compute_arguments : ℕ → List ℕ → Run ℕ
compute_arguments past [] = fault out_of_bounds
compute_arguments past (c ∷ s) =
    if get_or (c ∷ s) (length s) past == colon
    then count_colons (length (c ∷ s)) (c ∷ s)
    else ok (one_if ((below c 65 || above c 90) && (below c 97 || above (get_or s 0 past) 122)))

after_byte-count :
    (c : ℕ) (s : List ℕ)
    → (elim (after_byte c s) [ none ↦ 0 | some rest ↦ suc (count c rest) ]) ≡ count c s
unfolding after_byte
after_byte-count c [] = refl
after_byte-count c (x ∷ xs) = elim (Bool-cases (x == c)) [
  | inl h ↦ let g : (c == x) ≡ true = ground arith in rw (h, g) (omega arith)
  | inr h ↦
      let g : (c == x) ≡ false = ground arith in rw (h, g) (after_byte-count c xs ∙ omega arith)
]

after_byte-lt : (c : ℕ) (s rest : List ℕ) → after_byte c s ≡ some rest → length rest < length s
unfolding after_byte
after_byte-lt c [] rest e = absurd (cc e)
after_byte-lt c (x ∷ xs) rest e = elim (Bool-cases (x == c)) [
  | inl h ↦
      let tail : some xs ≡ some rest = rw h at e in
      let same : xs ≡ rest = cc tail in omega (arith, ap length same)
  | inr h ↦ omega (arith, after_byte-lt c xs rest (rw h at e))
]

count_colons-count : (n : ℕ) (s : List ℕ) → length s ≤ n → count_colons n s ≡ ok (count colon s)
unfolding count_colons
count_colons-count zero [] le = refl
count_colons-count zero (x ∷ s) le = absurd (omega arith)
count_colons-count (suc n) s le =
    let counted = after_byte-count colon s in
    elim (Option-cases (after_byte colon s)) [
      | inl e ↦ rw (e, count_colons) (ap ok (rw e at counted))
      | inr (rest, e) ↦
          let shorter = after_byte-lt colon s rest e in
          let all : suc (count colon rest) ≡ count colon s = rw e at counted in
          rw (e, count_colons, count_colons-count n rest (omega (arith, le, shorter))) (ap ok all)
    ]

abbrev pub is_letter : ℕ → Bool
is_letter c = (leb 65 c && leb c 90) || (leb 97 c && leb c 122)

-- For a selector where neither the first byte nor the one after it is one of those after z in ASCII, computeArguments gives the number of the colons if it ends in one, and else none for a selector that starts with a letter and one for any other.
pub compute_arguments-count :
    (past c : ℕ) (s : List ℕ)
    → above c 122 ≡ false
    → above (get_or s 0 past) 122 ≡ false
    → compute_arguments past (c ∷ s)
      ≡ ok (
          if get_or (c ∷ s) (length s) past == colon
          then count colon (c ∷ s)
          else one_if (not (is_letter c)))
unfolding compute_arguments
compute_arguments-count past c s first second =
    let colons = count_colons-count (suc (length s)) (c ∷ s) (omega arith) in
    elim (Bool-cases (get_or (c ∷ s) (length s) past == colon)) [
      | inl h ↦ rw (h, compute_arguments) colons
      | inr h ↦ rw (h, compute_arguments) (ap ok (ground (arith, first, second)))
    ]
