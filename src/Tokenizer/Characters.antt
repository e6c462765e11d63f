-- ===== src/Tokenizer/Characters.antt =====
-- The character tables of vm/Tokenizer.c and the tests that read them. `char` is signed in the
-- build of the VM (x86-64), so the index of a byte of 128 or more is negative.
use yet_another_smalltalk_vm.Base.{ℕ, Bool, List, [], ◌∷◌, ltb, leb, ◌==◌, if◌then◌else◌, get_or}
use yet_another_smalltalk_vm.Base.Result.{Run, ok, fault, out_of_bounds, ◌>>=◌}

abbrev pub sep : ℕ
sep = 1

abbrev pub spec : ℕ
spec = 2

abbrev pub num : ℕ
num = 3

abbrev pub let_ : ℕ
let_ = 4

abbrev pub ident_begin : ℕ
ident_begin = 5

abbrev pub ident : ℕ
ident = 6

unfoldable pub characters : List ℕ
characters =
    0 ∷ 0 ∷ 0 ∷ 0 ∷ 0 ∷ 0 ∷ 0 ∷ 0 ∷ 0 ∷ sep ∷ sep ∷ 0 ∷ 0 ∷ sep ∷ 0 ∷ 0 ∷ 0 ∷ 0 ∷ 0 ∷ 0 ∷ 0 ∷ 0 ∷ 0
    ∷ 0 ∷ 0 ∷ 0 ∷ 0 ∷ 0 ∷ 0 ∷ 0 ∷ 0 ∷ 0 ∷ sep ∷ spec ∷ 0 ∷ 0 ∷ 0 ∷ spec ∷ spec ∷ 0 ∷ 0 ∷ 0 ∷ spec
    ∷ spec ∷ spec ∷ spec ∷ 0 ∷ spec ∷ num ∷ num ∷ num ∷ num ∷ num ∷ num ∷ num ∷ num ∷ num ∷ num ∷ 0
    ∷ 0 ∷ spec ∷ spec ∷ spec ∷ spec ∷ spec ∷ let_ ∷ let_ ∷ let_ ∷ let_ ∷ let_ ∷ let_ ∷ let_ ∷ let_
    ∷ let_ ∷ let_ ∷ let_ ∷ let_ ∷ let_ ∷ let_ ∷ let_ ∷ let_ ∷ let_ ∷ let_ ∷ let_ ∷ let_ ∷ let_
    ∷ let_ ∷ let_ ∷ let_ ∷ let_ ∷ let_ ∷ 0 ∷ spec ∷ 0 ∷ 0 ∷ 0 ∷ 0 ∷ let_ ∷ let_ ∷ let_ ∷ let_ ∷ let_
    ∷ let_ ∷ let_ ∷ let_ ∷ let_ ∷ let_ ∷ let_ ∷ let_ ∷ let_ ∷ let_ ∷ let_ ∷ let_ ∷ let_ ∷ let_
    ∷ let_ ∷ let_ ∷ let_ ∷ let_ ∷ let_ ∷ let_ ∷ let_ ∷ let_ ∷ 0 ∷ spec ∷ 0 ∷ spec ∷ 0 ∷ 0 ∷ 0 ∷ 0
    ∷ 0 ∷ 0 ∷ 0 ∷ 0 ∷ 0 ∷ 0 ∷ 0 ∷ 0 ∷ 0 ∷ 0 ∷ 0 ∷ 0 ∷ 0 ∷ 0 ∷ 0 ∷ 0 ∷ 0 ∷ 0 ∷ 0 ∷ 0 ∷ 0 ∷ 0 ∷ 0 ∷ 0
    ∷ 0 ∷ 0 ∷ 0 ∷ 0 ∷ 0 ∷ 0 ∷ 0 ∷ 0 ∷ 0 ∷ 0 ∷ 0 ∷ 0 ∷ 0 ∷ 0 ∷ 0 ∷ 0 ∷ 0 ∷ 0 ∷ 0 ∷ 0 ∷ 0 ∷ 0 ∷ 0 ∷ 0
    ∷ 0 ∷ 0 ∷ 0 ∷ 0 ∷ 0 ∷ 0 ∷ 0 ∷ 0 ∷ 0 ∷ 0 ∷ 0 ∷ 0 ∷ 0 ∷ 0 ∷ 0 ∷ 0 ∷ 0 ∷ 0 ∷ 0 ∷ 0 ∷ 0 ∷ 0 ∷ 0 ∷ 0
    ∷ 0 ∷ 0 ∷ 0 ∷ 0 ∷ 0 ∷ 0 ∷ 0 ∷ 0 ∷ 0 ∷ 0 ∷ 0 ∷ 0 ∷ 0 ∷ 0 ∷ 0 ∷ 0 ∷ 0 ∷ 0 ∷ 0 ∷ 0 ∷ 0 ∷ 0 ∷ 0 ∷ 0
    ∷ 0 ∷ 0 ∷ 0 ∷ 0 ∷ 0 ∷ 0 ∷ 0 ∷ 0 ∷ 0 ∷ 0 ∷ 0 ∷ 0 ∷ 0 ∷ 0 ∷ 0 ∷ 0 ∷ 0 ∷ 0 ∷ 0 ∷ 0 ∷ 0 ∷ 0 ∷ 0 ∷ 0
    ∷ 0 ∷ 0 ∷ 0 ∷ 0 ∷ 0 ∷ []

unfoldable pub character_classes : List ℕ
character_classes =
    0 ∷ 0 ∷ 0 ∷ 0 ∷ 0 ∷ 0 ∷ 0 ∷ 0 ∷ 0 ∷ 0 ∷ 0 ∷ 0 ∷ 0 ∷ 0 ∷ 0 ∷ 0 ∷ 0 ∷ 0 ∷ 0 ∷ 0 ∷ 0 ∷ 0 ∷ 0 ∷ 0
    ∷ 0 ∷ 0 ∷ 0 ∷ 0 ∷ 0 ∷ 0 ∷ 0 ∷ 0 ∷ 0 ∷ 0 ∷ 0 ∷ 0 ∷ 0 ∷ 0 ∷ 0 ∷ 0 ∷ 0 ∷ 0 ∷ 0 ∷ 0 ∷ 0 ∷ 0 ∷ 0 ∷ 0
    ∷ ident ∷ ident ∷ ident ∷ ident ∷ ident ∷ ident ∷ ident ∷ ident ∷ ident ∷ ident ∷ 0 ∷ 0 ∷ 0 ∷ 0
    ∷ 0 ∷ 0 ∷ 0 ∷ ident_begin ∷ ident_begin ∷ ident_begin ∷ ident_begin ∷ ident_begin ∷ ident_begin
    ∷ ident_begin ∷ ident_begin ∷ ident_begin ∷ ident_begin ∷ ident_begin ∷ ident_begin
    ∷ ident_begin ∷ ident_begin ∷ ident_begin ∷ ident_begin ∷ ident_begin ∷ ident_begin
    ∷ ident_begin ∷ ident_begin ∷ ident_begin ∷ ident_begin ∷ ident_begin ∷ ident_begin
    ∷ ident_begin ∷ ident_begin ∷ 0 ∷ 0 ∷ 0 ∷ 0 ∷ ident_begin ∷ 0 ∷ ident_begin ∷ ident_begin
    ∷ ident_begin ∷ ident_begin ∷ ident_begin ∷ ident_begin ∷ ident_begin ∷ ident_begin
    ∷ ident_begin ∷ ident_begin ∷ ident_begin ∷ ident_begin ∷ ident_begin ∷ ident_begin
    ∷ ident_begin ∷ ident_begin ∷ ident_begin ∷ ident_begin ∷ ident_begin ∷ ident_begin
    ∷ ident_begin ∷ ident_begin ∷ ident_begin ∷ ident_begin ∷ ident_begin ∷ ident_begin ∷ 0 ∷ 0 ∷ 0
    ∷ 0 ∷ 0 ∷ 0 ∷ 0 ∷ 0 ∷ 0 ∷ 0 ∷ 0 ∷ 0 ∷ 0 ∷ 0 ∷ 0 ∷ 0 ∷ 0 ∷ 0 ∷ 0 ∷ 0 ∷ 0 ∷ 0 ∷ 0 ∷ 0 ∷ 0 ∷ 0 ∷ 0
    ∷ 0 ∷ 0 ∷ 0 ∷ 0 ∷ 0 ∷ 0 ∷ 0 ∷ 0 ∷ 0 ∷ 0 ∷ 0 ∷ 0 ∷ 0 ∷ 0 ∷ 0 ∷ 0 ∷ 0 ∷ 0 ∷ 0 ∷ 0 ∷ 0 ∷ 0 ∷ 0 ∷ 0
    ∷ 0 ∷ 0 ∷ 0 ∷ 0 ∷ 0 ∷ 0 ∷ 0 ∷ 0 ∷ 0 ∷ 0 ∷ 0 ∷ 0 ∷ 0 ∷ 0 ∷ 0 ∷ 0 ∷ 0 ∷ 0 ∷ 0 ∷ 0 ∷ 0 ∷ 0 ∷ 0 ∷ 0
    ∷ 0 ∷ 0 ∷ 0 ∷ 0 ∷ 0 ∷ 0 ∷ 0 ∷ 0 ∷ 0 ∷ 0 ∷ 0 ∷ 0 ∷ 0 ∷ 0 ∷ 0 ∷ 0 ∷ 0 ∷ 0 ∷ 0 ∷ 0 ∷ 0 ∷ 0 ∷ 0 ∷ 0
    ∷ 0 ∷ 0 ∷ 0 ∷ 0 ∷ 0 ∷ 0 ∷ 0 ∷ 0 ∷ 0 ∷ 0 ∷ 0 ∷ 0 ∷ 0 ∷ 0 ∷ 0 ∷ 0 ∷ 0 ∷ 0 ∷ 0 ∷ 0 ∷ 0 ∷ 0 ∷ 0 ∷ 0
    ∷ 0 ∷ 0 ∷ 0 ∷ 0 ∷ 0 ∷ 0 ∷ 0 ∷ 0 ∷ 0 ∷ 0 ∷ []

unfoldable pub character_digit_values : List ℕ
character_digit_values =
    36 ∷ 36 ∷ 36 ∷ 36 ∷ 36 ∷ 36 ∷ 36 ∷ 36 ∷ 36 ∷ 36 ∷ 36 ∷ 36 ∷ 36 ∷ 36 ∷ 36 ∷ 36 ∷ 36 ∷ 36 ∷ 36
    ∷ 36 ∷ 36 ∷ 36 ∷ 36 ∷ 36 ∷ 36 ∷ 36 ∷ 36 ∷ 36 ∷ 36 ∷ 36 ∷ 36 ∷ 36 ∷ 36 ∷ 36 ∷ 36 ∷ 36 ∷ 36 ∷ 36
    ∷ 36 ∷ 36 ∷ 36 ∷ 36 ∷ 36 ∷ 36 ∷ 36 ∷ 36 ∷ 36 ∷ 36 ∷ 0 ∷ 1 ∷ 2 ∷ 3 ∷ 4 ∷ 5 ∷ 6 ∷ 7 ∷ 8 ∷ 9 ∷ 36
    ∷ 36 ∷ 36 ∷ 36 ∷ 36 ∷ 36 ∷ 36 ∷ 10 ∷ 11 ∷ 12 ∷ 13 ∷ 14 ∷ 15 ∷ 16 ∷ 17 ∷ 18 ∷ 19 ∷ 20 ∷ 21 ∷ 22
    ∷ 23 ∷ 24 ∷ 25 ∷ 26 ∷ 27 ∷ 28 ∷ 29 ∷ 30 ∷ 31 ∷ 32 ∷ 33 ∷ 34 ∷ 35 ∷ 36 ∷ 36 ∷ 36 ∷ 36 ∷ 36 ∷ 36
    ∷ 36 ∷ 36 ∷ 36 ∷ 36 ∷ 36 ∷ 36 ∷ 36 ∷ 36 ∷ 36 ∷ 36 ∷ 36 ∷ 36 ∷ 36 ∷ 36 ∷ 36 ∷ 36 ∷ 36 ∷ 36 ∷ 36
    ∷ 36 ∷ 36 ∷ 36 ∷ 36 ∷ 36 ∷ 36 ∷ 36 ∷ 36 ∷ 36 ∷ 36 ∷ 36 ∷ 36 ∷ 36 ∷ 36 ∷ 36 ∷ 36 ∷ 36 ∷ 36 ∷ 36
    ∷ 36 ∷ 36 ∷ 36 ∷ 36 ∷ 36 ∷ 36 ∷ 36 ∷ 36 ∷ 36 ∷ 36 ∷ 36 ∷ 36 ∷ 36 ∷ 36 ∷ 36 ∷ 36 ∷ 36 ∷ 36 ∷ 36
    ∷ 36 ∷ 36 ∷ 36 ∷ 36 ∷ 36 ∷ 36 ∷ 36 ∷ 36 ∷ 36 ∷ 36 ∷ 36 ∷ 36 ∷ 36 ∷ 36 ∷ 36 ∷ 36 ∷ 36 ∷ 36 ∷ 36
    ∷ 36 ∷ 36 ∷ 36 ∷ 36 ∷ 36 ∷ 36 ∷ 36 ∷ 36 ∷ 36 ∷ 36 ∷ 36 ∷ 36 ∷ 36 ∷ 36 ∷ 36 ∷ 36 ∷ 36 ∷ 36 ∷ 36
    ∷ 36 ∷ 36 ∷ 36 ∷ 36 ∷ 36 ∷ 36 ∷ 36 ∷ 36 ∷ 36 ∷ 36 ∷ 36 ∷ 36 ∷ 36 ∷ 36 ∷ 36 ∷ 36 ∷ 36 ∷ 36 ∷ 36
    ∷ 36 ∷ 36 ∷ 36 ∷ 36 ∷ 36 ∷ 36 ∷ 36 ∷ 36 ∷ 36 ∷ 36 ∷ 36 ∷ 36 ∷ 36 ∷ 36 ∷ 36 ∷ 36 ∷ 36 ∷ 36 ∷ 36
    ∷ 36 ∷ 36 ∷ 36 ∷ 36 ∷ 36 ∷ 36 ∷ 36 ∷ 36 ∷ 36 ∷ 36 ∷ 36 ∷ 36 ∷ 36 ∷ 36 ∷ 36 ∷ 36 ∷ 36 ∷ 36 ∷ 36
    ∷ 36 ∷ 36 ∷ 36 ∷ 36 ∷ 36 ∷ 36 ∷ 36 ∷ []

-- `table[ch]`
unfoldable pub char_at : List ℕ → ℕ → Run ℕ
char_at table ch = if ltb ch 128 then ok (get_or table ch 0) else fault out_of_bounds

unfoldable pub is_numeric : ℕ → Run Bool
unfolding char_at characters
is_numeric ch = do c ← char_at characters ch; ok (c == num)

unfoldable pub is_digit : ℕ → ℕ → Run Bool
unfolding char_at character_digit_values
is_digit base ch = do v ← char_at character_digit_values ch; ok (ltb v base)

unfoldable pub is_letter : ℕ → Run Bool
unfolding char_at characters
is_letter ch = do c ← char_at characters ch; ok (c == let_)

unfoldable pub is_separator : ℕ → Run Bool
unfolding char_at characters
is_separator ch = do c ← char_at characters ch; ok (c == sep)

unfoldable pub is_special : ℕ → Run Bool
unfolding char_at characters
is_special ch = do c ← char_at characters ch; ok (c == spec)

unfoldable pub is_identifier : ℕ → Run Bool
unfolding char_at character_classes
is_identifier ch = do c ← char_at character_classes ch; ok (leb ident_begin c)

unfoldable pub is_identifier_begining : ℕ → Run Bool
unfolding char_at character_classes
is_identifier_begining ch = do c ← char_at character_classes ch; ok (c == ident_begin)
