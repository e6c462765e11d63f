-- ===== src/Tests/Scanner.antt =====
-- Runs of the tokenizer of vm/Tokenizer.c on small sources.
use yet_another_smalltalk_vm.Base.{
  ℕ, ◌+◌, ◌%◌, take, ◌≡◌, refl, ◌≢◌, true, false, Option, none, some, List, [], ◌∷◌, ◌++◌,
  replicate, arith,
}
use yet_another_smalltalk_vm.Base.Result.{Run, ok, fault, out_of_fuel, out_of_bounds}
use yet_another_smalltalk_vm.Base.Int.{pos}
use yet_another_smalltalk_vm.Tokenizer.{
  TokenType, token_none, token_unknown, token_keyword, token_identifier, token_unclosed_string,
  token_unclosed_comment, Token, Tokenizer, init_base_tokenizer, next_char, write_char, append_char,
  peek_char,
}
use yet_another_smalltalk_vm.Tokenizer.Characters.{
  characters, character_classes, character_digit_values, char_at, is_numeric, is_separator,
  is_identifier, is_identifier_begining, is_special, is_digit,
}
use yet_another_smalltalk_vm.Tokenizer.Read.{
  append, append_loop, append_while, skip_separators, stands_alone, is_pair, is_other_pair,
  first_taken, branches, token_start, read_body, finish, place_token, read_token, quoted, unclosed,
  close_comment, radix, radix_base, decimal,
}
use yet_another_smalltalk_vm.Tokenizer.Window.{
  init_tokenizer, skip_token, next_tokens, next_token, peek_token, step_back, peek_nth_token,
}
use yet_another_smalltalk_vm.Tokenizer.Position.{skip_token-ends}
use yet_another_smalltalk_vm.Tokenizer.Ring.{IsRing, peek_nth_token-token_index, next_token-IsRing}
use yet_another_smalltalk_vm.Tokenizer.Classes.{is_identifier-classes}
use yet_another_smalltalk_vm.Tokenizer.Munch.{ahead}
use yet_another_smalltalk_vm.Tokenizer.Words.{IsNextWord, read_token-identifier, read_token-keyword}

-- "ab: c"
abbrev source : List ℕ
source = 0x61 ∷ 0x62 ∷ 0x3A ∷ 0x20 ∷ 0x63 ∷ 0 ∷ []

abbrev blank_token : Token
blank_token = record {
  token_type = token_none;
  content_size = 64;
  content = [];
  position = 0;
  line = 0;
  column = 0;
  is_separated = false;
}

abbrev read_at : TokenType → List ℕ → ℕ → Token
read_at ty text position = record blank_token {
  token_type = ty;
  content = text ++ 0 ∷ [];
  position = position;
  line = 1;
  column = position;
}

-- after "ab:"
abbrev started : Tokenizer
started = record {
  memory = source;
  current = 4;
  ch = 0x20;
  line = 1;
  column = 5;
  tokens = read_at token_keyword (0x61 ∷ 0x62 ∷ 0x3A ∷ []) 1 ∷ replicate 5 blank_token;
  token_index = 1;
  tokenized = 1;
  comment = record blank_token { token_type = token_unknown };
}

started_run : init_tokenizer source ≡ ok started
unfolding init_tokenizer init_base_tokenizer next_char write_char append_char peek_char characters
    character_classes char_at is_numeric is_separator is_identifier is_identifier_begining
    is_special append append_loop append_while skip_separators stands_alone is_pair is_other_pair
    first_taken branches token_start read_body finish place_token read_token quoted unclosed
    close_comment radix radix_base decimal skip_token next_tokens next_token peek_token step_back
started_run = refl

-- after "c"
abbrev read_all : ℕ → Tokenizer
read_all index = record started {
  current = 6;
  ch = 0;
  column = 7;
  tokens =
      read_at token_keyword (0x61 ∷ 0x62 ∷ 0x3A ∷ []) 1
      ∷ record (read_at token_identifier (0x63 ∷ []) 5) { is_separated = true }
      ∷ replicate 4 blank_token;
  token_index = index;
  tokenized = 2;
}

peek_run : peek_nth_token started (pos 1) ≡ ok (read_all 1, some 1)
unfolding init_tokenizer init_base_tokenizer next_char write_char append_char peek_char characters
    character_classes char_at is_numeric is_separator is_identifier is_identifier_begining
    is_special append append_loop append_while skip_separators stands_alone is_pair is_other_pair
    first_taken branches token_start read_body finish place_token read_token quoted unclosed
    close_comment radix radix_base decimal skip_token next_tokens next_token peek_token step_back
    peek_nth_token
peek_run = refl

started-IsRing : IsRing started
started-IsRing = record { slots = refl; reached = omega arith; in_ring = omega arith }

skip_token-ends_example : skip_token started (pos 3) ≢ fault out_of_fuel
skip_token-ends_example = skip_token-ends started (pos 3)

next_run : next_token started ≡ ok (read_all 2, 1)
unfolding init_tokenizer init_base_tokenizer next_char write_char append_char peek_char characters
    character_classes char_at is_numeric is_separator is_identifier is_identifier_begining
    is_special append append_loop append_while skip_separators stands_alone is_pair is_other_pair
    first_taken branches token_start read_body finish place_token read_token quoted unclosed
    close_comment radix radix_base decimal skip_token next_tokens next_token peek_token step_back
next_run = refl

next_token-IsRing_example : IsRing (read_all 2) × ((read_all 2).token_index ≡ 1 + 1) × (1 ≡ 1 % 6)
next_token-IsRing_example = next_token-IsRing started (read_all 2) 1 started-IsRing next_run

peek_nth_token-token_index_example :
    IsRing (read_all 1) × ((read_all 1).token_index ≡ 1) × (some 1 ≡ some ((1 + 0) % 6))
peek_nth_token-token_index_example =
    peek_nth_token-token_index started (read_all 1) 0 (some 1) started-IsRing (omega arith)
      (omega arith) peek_run

-- the letter G in base 16
is_identifier-classes_example :
    (is_numeric 0x47 ≡ ok false)
    × (is_separator 0x47 ≡ ok false)
    × (is_identifier_begining 0x47 ≡ ok true)
    × (is_identifier 0x47 ≡ ok true)
    × (is_digit 16 0x47 ≡ ok false)
is_identifier-classes_example = is_identifier-classes 0x47 16 (omega arith) (omega arith)

-- With a radix above 36, which nothing excludes, the NUL at the end and a blank are digits too.
digits_of_base_37 : (is_digit 37 0 ≡ ok true) × (is_digit 37 0x20 ≡ ok true)
unfolding is_digit char_at character_digit_values
digits_of_base_37 = (refl, refl)

-- before "ab", which the byte `stop` follows
abbrev before_word : ℕ → Tokenizer
before_word stop = record started {
  memory = 0x61 ∷ 0x62 ∷ stop ∷ 0x20 ∷ 0x63 ∷ 0 ∷ [];
  current = 1;
  ch = 0x61;
  column = 2;
}

module _ (stop : ℕ) where
  word_ahead :
      is_identifier stop ≡ ok false
      → IsNextWord (before_word stop) 0x61 (0x62 ∷ []) stop (0x20 ∷ 0x63 ∷ 0 ∷ [])
  unfolding is_identifier_begining is_identifier char_at character_classes
  word_ahead ends = record { here = refl; begins = refl; goes_on = (refl, tt); ends = ends }

colon_ends : is_identifier 0x3A ≡ ok false
unfolding is_identifier char_at character_classes
colon_ends = refl

blank_ends : is_identifier 0x20 ≡ ok false
unfolding is_identifier char_at character_classes
blank_ends = refl

read_token-identifier_example :
    (q : Tokenizer × Token) × (read_token 3 (before_word 0x20) blank_token false ≡ ok q)
    × (q.1.token_type ≡ token_identifier)
    × (take 3 q.1.content ≡ 0x61 ∷ 0x62 ∷ 0 ∷ [])
    × (ahead q.0 ≡ 0x20 ∷ 0x20 ∷ 0x63 ∷ 0 ∷ [])
read_token-identifier_example =
    read_token-identifier (before_word 0x20) 0x61 (0x62 ∷ []) 0x20 (0x20 ∷ 0x63 ∷ 0 ∷ []) 2
      blank_token false (word_ahead 0x20 blank_ends) (omega arith) (omega arith) (omega arith)

read_token-keyword_example :
    (q : Tokenizer × Token) × (read_token 3 (before_word 0x3A) blank_token false ≡ ok q)
    × (q.1.token_type ≡ token_keyword)
    × (take 4 q.1.content ≡ 0x61 ∷ 0x62 ∷ 0x3A ∷ 0 ∷ [])
    × (ahead q.0 ≡ 0x20 ∷ 0x63 ∷ 0 ∷ [])
read_token-keyword_example =
    read_token-keyword (before_word 0x3A) 0x61 (0x62 ∷ []) 0x20 (0x63 ∷ 0 ∷ []) 2 blank_token false
      (word_ahead 0x3A colon_ends) (omega arith) (omega arith) (omega arith)

abbrev first_type : Run Tokenizer → Option TokenType
first_type (fault e) = none
first_type (ok t) = elim t.tokens [ [] ↦ none | token ∷ _ ↦ some token.token_type ]

-- A string and a comment that end where the source ends are taken for open ones.
closed_at_end :
    (first_type (init_tokenizer (0x27 ∷ 0x61 ∷ 0x27 ∷ 0 ∷ [])) ≡ some token_unclosed_string)
    × (first_type (init_tokenizer (0x22 ∷ 0x61 ∷ 0x22 ∷ 0 ∷ [])) ≡ some token_unclosed_comment)
unfolding init_tokenizer init_base_tokenizer next_char write_char append_char peek_char characters
    character_classes char_at is_numeric is_separator is_identifier is_identifier_begining
    is_special append append_loop append_while skip_separators stands_alone is_pair is_other_pair
    first_taken branches token_start read_body finish place_token read_token quoted unclosed
    close_comment radix radix_base decimal skip_token next_tokens next_token peek_token step_back
closed_at_end = (refl, refl)

-- A radix after 64 digits, an open comment of 65 characters, a dollar sign at the end and a byte of
-- 128 or more are accesses out of bounds.
out_of_bounds_runs :
    (init_tokenizer (replicate 64 0x31 ++ 0x72 ∷ 0x31 ∷ 0 ∷ []) ≡ fault out_of_bounds)
    × (init_tokenizer (0x22 ∷ replicate 65 0x61 ++ 0 ∷ []) ≡ fault out_of_bounds)
    × (init_tokenizer (0x24 ∷ 0 ∷ []) ≡ fault out_of_bounds)
    × (init_tokenizer (0xC3 ∷ 0xA9 ∷ 0 ∷ []) ≡ fault out_of_bounds)
unfolding init_tokenizer init_base_tokenizer next_char write_char append_char peek_char characters
    character_classes char_at is_numeric is_separator is_identifier is_identifier_begining
    is_special append append_loop append_while skip_separators stands_alone is_pair is_other_pair
    first_taken branches token_start read_body finish place_token read_token quoted unclosed
    close_comment radix radix_base decimal skip_token next_tokens next_token peek_token step_back
out_of_bounds_runs = (refl, refl, refl, refl)
