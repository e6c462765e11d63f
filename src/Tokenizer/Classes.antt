-- ===== src/Tokenizer/Classes.antt =====
-- The classes of the characters of vm/Tokenizer.c, against their ranges in ASCII. The tables are
-- checked at every byte by evaluation.
use yet_another_smalltalk_vm.Base.{
  ℕ, ◌-◌, ◌≤◌, ◌<◌, ◌∙◌, ◌≡◌, refl, ap, Bool, true, ◌&&◌, ◌||◌, ltb, leb, ◌==◌, ==_iff, List,
  if◌then◌else◌, get_or, arith,
}
use yet_another_smalltalk_vm.Base.Result.{ok, ◌>>=◌}
use yet_another_smalltalk_vm.Base.Bits.{holds_below, holds_below-true, bool_eq, bool_eq_sound}
use yet_another_smalltalk_vm.Tokenizer.Characters.{
  characters, character_classes, character_digit_values, char_at, is_numeric, is_digit,
  is_separator, is_identifier, is_identifier_begining, num, sep, ident_begin,
}

abbrev pub in_range : ℕ → ℕ → ℕ → Bool
in_range low high ch = leb low ch && leb ch high

-- 0 to 9
abbrev pub is_decimal : ℕ → Bool
is_decimal = in_range 48 57

-- A to Z, a to z and the underscore
abbrev pub is_word_start : ℕ → Bool
is_word_start ch = in_range 65 90 ch || (in_range 97 122 ch || ch == 95)

-- tab, line feed, carriage return and space
abbrev pub is_blank : ℕ → Bool
is_blank ch = ch == 9 || (ch == 10 || (ch == 13 || ch == 32))

-- A digit of a number in `base`: one of the decimal digits, then A to Z, that is below `base`.
abbrev pub is_digit_in : ℕ → ℕ → Bool
is_digit_in base ch =
    (is_decimal ch && ltb (ch - 48) base) || (in_range 65 90 ch && ltb (ch - 55) base)

-- the entries of the table: 36 for what is no digit
abbrev digit_value : ℕ → ℕ
digit_value ch = if is_decimal ch then ch - 48 else if in_range 65 90 ch then ch - 55 else 36

char_at-get_or : (table : List ℕ) (ch : ℕ) → ch < 128 → char_at table ch ≡ ok (get_or table ch 0)
unfolding char_at
char_at-get_or table ch h = ground arith

-- A test of the table is checked against its range at every byte.
agrees : List ℕ → (ℕ → Bool) → (ℕ → Bool) → Bool
unfolding holds_below bool_eq
agrees table test range = holds_below (λ ch. bool_eq (test (get_or table ch 0)) (range ch)) 128

test_agrees :
    (table : List ℕ) (test range : ℕ → Bool) (ch : ℕ)
    → ch < 128
    → agrees table test range ≡ true
    → (char_at table ch >>= (λ c. ok (test c))) ≡ ok (range ch)
unfolding agrees
test_agrees table test range ch h all =
    let same : test (get_or table ch 0) ≡ range ch =
      bool_eq_sound _ _
        (holds_below-true (λ c. bool_eq (test (get_or table c 0)) (range c)) 128 ch h all) in
    rw (char_at-get_or table ch h) (ap ok same)

digits_agree : (ch : ℕ) → ch < 128 → get_or character_digit_values ch 0 ≡ digit_value ch
unfolding holds_below character_digit_values
digits_agree ch h =
    (==_iff _ _).0
      (holds_below-true (λ c. get_or character_digit_values c 0 == digit_value c) 128 ch h refl)

-- Up to base 36 what is no digit has a value that is not below the base.
digit_value-is_digit_in :
    (base ch : ℕ) → base ≤ 36 → ltb (digit_value ch) base ≡ is_digit_in base ch
digit_value-is_digit_in base ch h = ground arith

-- For a byte below 128 the tests for decimal digits, for blanks, for the characters of an
-- identifier, which starts with a letter or an underscore, and, for a base up to 36, for the digits of
-- a number in that base, which are the decimal digits and then the capital letters whose place is
-- below the base, agree with the ranges of ASCII.
pub is_identifier-classes :
    (ch base : ℕ)
    → ch < 128
    → base ≤ 36
    → (is_numeric ch ≡ ok (is_decimal ch))
      × (is_separator ch ≡ ok (is_blank ch))
      × (is_identifier_begining ch ≡ ok (is_word_start ch))
      × (is_identifier ch ≡ ok (is_word_start ch || is_decimal ch))
      × (is_digit base ch ≡ ok (is_digit_in base ch))
unfolding is_numeric is_separator is_identifier_begining is_identifier is_digit agrees bool_eq
    holds_below characters character_classes character_digit_values
is_identifier-classes ch base h small = (
  test_agrees characters (λ c. c == num) is_decimal ch h refl,
  test_agrees characters (λ c. c == sep) is_blank ch h refl,
  test_agrees character_classes (λ c. c == ident_begin) is_word_start ch h refl,
  test_agrees character_classes (λ c. leb ident_begin c) (λ c. is_word_start c || is_decimal c) ch h
      refl,
  rw (char_at-get_or character_digit_values ch h)
      (ap ok (ap (λ v. ltb v base) (digits_agree ch h) ∙ digit_value-is_digit_in base ch small)),
)
