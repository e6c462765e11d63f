-- ===== src/Tokenizer/WordStart.antt =====
-- The first character of a word in vm/Tokenizer.c, and the branch of `readToken` that it picks.
use yet_another_smalltalk_vm.Base.{
  ℕ, ◌<◌, ◌≡◌, refl, ap, ◌∙◌, Bool, true, false, not, ◌&&◌, ◌||◌, arith,
}
use yet_another_smalltalk_vm.Base.Result.{Run, ok}
use yet_another_smalltalk_vm.Tokenizer.{Tokenizer}
use yet_another_smalltalk_vm.Base.Bits.{holds_below, holds_below-true}
use yet_another_smalltalk_vm.Tokenizer.Characters.{
  characters, character_classes, char_at, is_numeric, is_separator, is_identifier_begining,
}
use yet_another_smalltalk_vm.Tokenizer.Classes.{is_word_start, is_blank, is_identifier-classes}
use yet_another_smalltalk_vm.Tokenizer.Read.{
  word, Start, inside, stands_alone, is_pair, is_other_pair, first_taken, branches, token_start,
}

is_word : Run Start → Bool
is_word (ok (inside word)) = true
is_word _ = false

is_word-true : (m : Run Start) → is_word m ≡ true → m ≡ ok (inside word)
unfolding is_word
is_word-true (ok (inside word)) h = refl
is_word-true _ h = cc h

abbrev with_ch : Tokenizer → ℕ → Tokenizer
with_ch t c = record t { ch = c }

-- The chain picks the branch of a word whatever comes after its first character.
start_words :
    (t : Tokenizer)
    → holds_below
        (λ c. not (is_word_start c) || (not (is_blank c) && is_word (token_start (with_ch t c))))
        128
      ≡ true
unfolding holds_below token_start branches first_taken is_word stands_alone is_pair is_other_pair
    is_numeric is_identifier_begining char_at characters character_classes
start_words t = refl

begins_small : (c : ℕ) → is_identifier_begining c ≡ ok true → c < 128
unfolding is_identifier_begining char_at
begins_small c b = ground arith

split_check : (a b c : Bool) → a ≡ true → (not a || (not b && c)) ≡ true → (b ≡ false) × (c ≡ true)
split_check a b c h k = ground arith

pub begins-word :
    (t : Tokenizer) (c : ℕ)
    → t.ch ≡ c
    → is_identifier_begining c ≡ ok true
    → (is_separator c ≡ ok false) × (token_start t ≡ ok (inside word))
begins-word t c h b =
    let small = begins_small c b in
    let (_, blank, begins, _, _) = is_identifier-classes c 0 small (omega arith) in
    let starts : is_word_start c ≡ true = cc (begins, b) in
    let (not_blank, in_word) =
      split_check (is_word_start c) (is_blank c) (is_word (token_start (with_ch t c))) starts (
        holds_below-true
          (λ c. not (is_word_start c) || (not (is_blank c) && is_word (token_start (with_ch t c))))
          128 c small (start_words t)) in
    (blank ∙ ap ok not_blank, ap token_start (ap (with_ch t) h) ∙ is_word-true _ in_word)
