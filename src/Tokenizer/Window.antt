-- ===== src/Tokenizer/Window.antt =====
-- The ring of the last six tokens of vm/Tokenizer.c: `tokenIndex` counts the tokens that the parser
-- has taken, `tokenized` the ones that have been read. A pointer to a token is its slot in the ring.
use yet_another_smalltalk_vm.Base.{
  ℕ, zero, suc, ◌+◌, ◌-◌, ◌%◌, ◌^◌, false, Option, none, some, List, ltb, leb, ◌==◌, if◌then◌else◌,
  length, get_elem?, set,
}
use yet_another_smalltalk_vm.Base.Result.{Run, ok, fault, out_of_bounds, check, ◌>>=◌, ◌>>◌}
use yet_another_smalltalk_vm.Base.Int.{ℤ, pos, negsuc}
use yet_another_smalltalk_vm.Tokenizer.{
  TokenType, token_none, token_unknown, token_digit, token_identifier, token_symbol_start,
  token_char, token_string, token_comment, token_special_chars, token_keyword, token_assign,
  token_return, token_dot, token_array_open_bracket, token_open_bracket, token_close_bracket,
  token_open_square_bracket, token_close_square_bracket, token_end_of_input, token_colon,
  token_semicolon, token_vertical_bar, token_less_than, token_greater_than, token_minus,
  token_unclosed_string, token_unclosed_comment, Tokenizer, max_tokens, init_base_tokenizer,
  next_char,
}
use yet_another_smalltalk_vm.Tokenizer.Read.{read_token}

-- the values of the enumeration
unfoldable pub token_code : TokenType → ℕ
token_code token_none = 2 ^ 0
token_code token_unknown = 2 ^ 1
token_code token_digit = 2 ^ 2
token_code token_identifier = 2 ^ 3
token_code token_symbol_start = 2 ^ 4
token_code token_char = 2 ^ 5
token_code token_string = 2 ^ 6
token_code token_comment = 2 ^ 7
token_code token_special_chars = 2 ^ 8
token_code token_keyword = 2 ^ 9
token_code token_assign = 2 ^ 10
token_code token_return = 2 ^ 11
token_code token_dot = 2 ^ 12
token_code token_array_open_bracket = 2 ^ 13
token_code token_open_bracket = 2 ^ 14
token_code token_close_bracket = 2 ^ 15
token_code token_open_square_bracket = 2 ^ 16
token_code token_close_square_bracket = 2 ^ 17
token_code token_end_of_input = 2 ^ 18
token_code token_colon = 2 ^ 19
token_code token_semicolon = 2 ^ 20
token_code token_vertical_bar = 2 ^ 21
token_code token_less_than = 2 ^ 22
token_code token_greater_than = 2 ^ 23
token_code token_minus = 2 ^ 24
token_code token_unclosed_string = 2 ^ 25
token_code token_unclosed_comment = 2 ^ 26

-- `(count - back) % MAX_TOKENS` on 64 bits
abbrev pub slot_before : ℕ → ℕ → ℕ
slot_before count back = (count + 2 ^ 64 - back) % 2 ^ 64 % max_tokens

unfoldable pub current_token : Tokenizer → ℕ
current_token t = slot_before t.token_index 1

unfoldable pub prev_token : Tokenizer → ℕ
prev_token t = slot_before t.token_index 2

-- `peekToken`; the fuel is a round for each byte of the source and one more.
unfoldable pub peek_token : Tokenizer → Run (Tokenizer × ℕ)
peek_token t =
    let i = t.token_index % max_tokens in
    if leb t.tokenized t.token_index
    then elim (get_elem? t.tokens i) [
      | none ↦ fault out_of_bounds
      | some old ↦ do
        (t', token) ← read_token (suc (length t.memory)) t old false
        ok (record t' { tokens = set t'.tokens i token }, i)
    ]
    else ok (t, i)

unfoldable pub next_token : Tokenizer → Run (Tokenizer × ℕ)
next_token t = do (t', i) ← peek_token t; ok (record t' { token_index = t'.token_index + 1 }, i)

-- The loop of `skipToken` over a positive number of steps, after its first round.
unfoldable pub next_tokens : ℕ → Tokenizer → Run (Tokenizer × ℕ)
next_tokens zero t = next_token t
next_tokens (suc steps) t = do (t', i) ← next_token t; next_tokens steps t'

-- `skipToken` by 0 or a negative number of steps
unfoldable pub step_back : ℕ → Tokenizer → Tokenizer × Option ℕ
step_back steps t =
    let index = (t.token_index + 2 ^ 64 - steps) % 2 ^ 64 in
    if leb (t.tokenized + steps) (t.token_index + max_tokens)
    then (record t { token_index = index }, some (slot_before index 1))
    else (t, none)

unfoldable pub skip_token : Tokenizer → ℤ → Run (Tokenizer × Option ℕ)
skip_token t (pos zero) = ok (step_back 0 t)
skip_token t (pos (suc n)) = do
  check (ltb (n + 1) max_tokens)
  (t', i) ← next_tokens n t
  ok (t', some i)
skip_token t (negsuc n) = do check (ltb (n + 1) max_tokens); ok (step_back (n + 1) t)

abbrev pub opposite : ℤ → ℤ
opposite (pos zero) = pos zero
opposite (pos (suc n)) = negsuc n
opposite (negsuc n) = pos (suc n)

unfoldable pub peek_nth_token : Tokenizer → ℤ → Run (Tokenizer × Option ℕ)
peek_nth_token t steps = do
  (t', token) ← skip_token t steps
  (t'', _) ← skip_token t' (opposite steps)
  ok (t'', token)

unfoldable pub peek_for_token : Tokenizer → TokenType → Run (Tokenizer × Option ℕ)
peek_for_token t ty = do
  (t', i) ← peek_token t
  elim (get_elem? t'.tokens i) [
    | none ↦ fault out_of_bounds
    | some token ↦
        if token_code token.token_type == token_code ty
        then ok (record t' { token_index = t'.token_index + 1 }, some i)
        else ok (t', none)
  ]

unfoldable pub init_tokenizer : List ℕ → Run Tokenizer
init_tokenizer source = do t ← next_char (init_base_tokenizer source); (t', _) ← next_token t; ok t'
