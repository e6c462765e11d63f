-- ===== src/Tokenizer/Read.antt =====
-- `readToken` of vm/Tokenizer.c. `token_start` is the chain of conditions that picks the branch, in the
-- source's order, `read_body` the branch. The loops and the call of itself after a comment run on
-- fuel, a round for each byte of the source and one more.
use yet_another_smalltalk_vm.Base.{
  ℕ, zero, suc, ◌+◌, ◌-◌, ◌*◌, ◌%◌, ◌^◌, Bool, true, false, not, ◌&&◌, List, [], ◌∷◌, ◌++◌, ltb,
  leb, ◌==◌, if◌then◌else◌, take, drop,
}
use yet_another_smalltalk_vm.Base.Result.{Run, ok, fault, out_of_bounds, out_of_fuel, ◌>>=◌}
use yet_another_smalltalk_vm.Tokenizer.{
  TokenType, token_unknown, token_digit, token_identifier, token_symbol_start, token_char,
  token_string, token_comment, token_special_chars, token_keyword, token_assign, token_return,
  token_dot, token_array_open_bracket, token_open_bracket, token_close_bracket,
  token_open_square_bracket, token_close_square_bracket, token_end_of_input, token_colon,
  token_semicolon, token_vertical_bar, token_less_than, token_greater_than, token_minus,
  token_unclosed_string, token_unclosed_comment, Token, Tokenizer, next_char, peek_char, write_char,
  append_char,
}
use yet_another_smalltalk_vm.Tokenizer.Characters.{
  is_numeric, is_digit, is_separator, is_special, is_identifier, is_identifier_begining,
}

-- The tokenizer, the token that is read and its length so far, `i`.
pub record Reading : Type 0 where
  pub tokenizer : Tokenizer
  pub token : Token
  pub i : ℕ

-- What the branches of `readToken` do: append one or two characters, or more.
pub data Branch : Type 0 where
  one two : TokenType → Branch
  string end digits word specials : Branch

pub data Start : Type 0 where
  inside : Branch → Start
  comment_start : Start

-- `SKIP_WHILE(isSeparator(tokenizer->ch))`
unfoldable pub skip_separators : ℕ → Tokenizer → Run Tokenizer
skip_separators zero t = fault out_of_fuel
skip_separators (suc n) t = do
  more ← is_separator t.ch
  elim more [ true ↦ next_char t >>= skip_separators n | false ↦ ok t ]

-- `APPEND()`
unfoldable pub append : Reading → Run Reading
append r = do
  token ← append_char r.token r.i r.tokenizer.ch
  t ← next_char r.tokenizer
  ok (record { tokenizer = t; token = token; i = r.i + 1 })

-- `while (cond) { APPEND(); }`
unfoldable pub append_loop : ℕ → (ℕ → Run Bool) → Reading → Run Reading
append_loop zero cond r = fault out_of_fuel
append_loop (suc n) cond r = do
  more ← cond r.tokenizer.ch
  elim more [ true ↦ append r >>= append_loop n cond | false ↦ ok r ]

-- `APPEND_WHILE(cond)`
unfoldable pub append_while : ℕ → (ℕ → Run Bool) → Reading → Run Reading
append_while n cond r = append r >>= append_loop n cond

-- The loop over the characters of a string or a comment; a doubled quote stands for one.
unfoldable pub quoted : ℕ → ℕ → Reading → Run Reading
quoted zero quote r = fault out_of_fuel
quoted (suc n) quote r = elim (r.tokenizer.ch == 0) [
  | true ↦ ok r
  | false ↦ elim (r.tokenizer.ch == quote) [
    | false ↦ append r >>= quoted n quote
    | true ↦ do
      t ← next_char r.tokenizer
      elim (t.ch == quote) [
        | true ↦ append (record r { tokenizer = t }) >>= quoted n quote
        | false ↦ ok (record r { tokenizer = t })
      ]
  ]
]

-- `ch == c && !isSpecial(peekChar(tokenizer))`
unfoldable pub stands_alone : ℕ → Tokenizer → Run Bool
stands_alone c t = elim (t.ch == c) [
  | false ↦ ok false
  | true ↦ do next ← peek_char t; special ← is_special next; ok (not special)
]

-- `ch == c && peekChar(tokenizer) == d`
unfoldable pub is_pair : ℕ → ℕ → Tokenizer → Run Bool
is_pair c d t = elim (t.ch == c) [ false ↦ ok false | true ↦ do next ← peek_char t; ok (next == d) ]

-- `ch == c && peekChar(tokenizer) != d`
unfoldable pub is_other_pair : ℕ → ℕ → Tokenizer → Run Bool
is_other_pair c d t = elim (t.ch == c) [
  | false ↦ ok false
  | true ↦ do next ← peek_char t; ok (not (next == d))
]

-- The first branch whose condition holds; the last `else` is an unknown character.
unfoldable pub first_taken : List (Run Bool × Start) → Run Start
first_taken [] = ok (inside (one token_unknown))
first_taken ((cond, here) ∷ others) = do
  taken ← cond
  elim taken [ true ↦ ok here | false ↦ first_taken others ]

unfoldable pub branches : Tokenizer → List (Run Bool × Start)
branches t =
    (ok (t.ch == 0x5B), inside (one token_open_square_bracket))
    ∷ (ok (t.ch == 0x5D), inside (one token_close_square_bracket))
    ∷ (ok (t.ch == 0x28), inside (one token_open_bracket))
    ∷ (ok (t.ch == 0x29), inside (one token_close_bracket))
    ∷ (ok (t.ch == 0x2E), inside (one token_dot))
    ∷ (stands_alone 0x2D t, inside (one token_minus))
    ∷ (stands_alone 0x3C t, inside (one token_less_than))
    ∷ (stands_alone 0x3E t, inside (one token_greater_than))
    ∷ (is_pair 0x3A 0x3D t, inside (two token_assign))
    ∷ (is_other_pair 0x7C 0x7C t, inside (one token_vertical_bar))
    ∷ (ok (t.ch == 0x3A), inside (one token_colon))
    ∷ (ok (t.ch == 0x3B), inside (one token_semicolon))
    ∷ (ok (t.ch == 0x5E), inside (one token_return))
    ∷ (ok (t.ch == 0x24), inside (two token_char))
    ∷ (is_pair 0x23 0x28 t, inside (two token_array_open_bracket))
    ∷ (ok (t.ch == 0x23), inside (one token_symbol_start))
    ∷ (ok (t.ch == 0x27), inside string)
    ∷ (ok (t.ch == 0x22), comment_start)
    ∷ (ok (t.ch == 0), inside end)
    ∷ (is_numeric t.ch, inside digits)
    ∷ (is_identifier_begining t.ch, inside word)
    ∷ (is_special t.ch, inside specials)
    ∷ []

unfoldable pub token_start : Tokenizer → Run Start
token_start t = first_taken (branches t)

-- The decimal digits at the start of the text, as `atoi` reads them.
unfoldable pub decimal : ℕ → List ℕ → ℕ
decimal value [] = value
decimal value (c ∷ cs) = if leb 48 c && leb c 57 then decimal (value * 10 + (c - 48)) cs else value

-- `(uint8_t) atoi(content)`: glibc reads a long, the largest one for a number that does not fit.
unfoldable pub radix_base : List ℕ → ℕ
unfolding decimal
radix_base content =
    let value = decimal 0 content in
    if ltb value (2 ^ 63) then value % 2 ^ 8 else (2 ^ 63 - 1) % 2 ^ 8

-- The rest of a number after its radix. The NUL is written without a look at `contentSize`.
unfoldable pub radix : ℕ → Reading → Run Reading
radix n r = do
  token ← write_char r.token r.i 0
  let base = radix_base token.content
  r' ← append (record r { token = token })
  r'' ← if r'.tokenizer.ch == 0x2D then append r' else ok r'
  append_loop n (is_digit base) r''

abbrev pub with_type : TokenType → Reading → Reading
with_type ty r = record r { token = record r.token { token_type = ty } }

unfoldable pub read_body : ℕ → Branch → Reading → Run Reading
read_body n (one ty) r = append (with_type ty r)
read_body n (two ty) r = append (with_type ty r) >>= append
read_body n string r = do
  t ← next_char r.tokenizer
  r' ← quoted n 0x27 (record r { tokenizer = t })
  ok (with_type (if r'.tokenizer.ch == 0 then token_unclosed_string else token_string) r')
read_body n end r = ok (with_type token_end_of_input r)
read_body n digits r = do
  r' ← append_while n is_numeric (with_type token_digit r)
  if r'.tokenizer.ch == 0x72 then radix n r' else ok r'
read_body n word r = do
  r' ← append_while n is_identifier r
  keyword ← is_other_pair 0x3A 0x3D r'.tokenizer
  if keyword then append (with_type token_keyword r') else ok (with_type token_identifier r')
read_body n specials r = append_while n is_special (with_type token_special_chars r)

-- `appendChar(token, i, '\0'); tokenizer->tokenized++`
unfoldable pub finish : Reading → Run (Tokenizer × Token)
finish r = do
  token ← append_char r.token r.i 0
  ok (record r.tokenizer { tokenized = r.tokenizer.tokenized + 1 }, token)

-- A comment that the source ends in: its text is copied to the token, without a look at the size of
-- the token's buffer.
unfoldable pub unclosed : Reading → Token → Run Reading
unclosed r next =
    if leb r.i next.content_size
    then ok (record {
      tokenizer = record r.tokenizer { comment = r.token };
      token = record next {
        token_type = token_unclosed_comment;
        content = take r.i r.token.content ++ drop r.i next.content;
      };
      i = r.i;
    })
    else fault out_of_bounds

-- The comment before a token.
unfoldable pub close_comment : Reading → Token → Run Tokenizer
close_comment r next = do
  comment ←
      append_char
        (record r.token {
          token_type = token_comment;
          position = next.position;
          line = next.line;
          column = next.column;
        })
        r.i 0
  ok (record r.tokenizer { comment = comment })

-- What `readToken` does before the chain: the token gets its place.
unfoldable pub place_token : ℕ → Tokenizer → Token → Bool → Run (Tokenizer × Token)
place_token n t token separated = do
  separated' ← if separated then ok true else is_separator t.ch
  t' ← skip_separators n (record t { comment = record t.comment { token_type = token_unknown } })
  ok (
    t',
    record token {
      is_separated = separated';
      position = t'.current;
      line = t'.line;
      column = t'.column - 1;
    },
  )

unfoldable pub read_token : ℕ → Tokenizer → Token → Bool → Run (Tokenizer × Token)
read_token zero t token separated = fault out_of_fuel
read_token (suc n) t token separated = do
  (t', next) ← place_token (suc n) t token separated
  s ← token_start t'
  elim s [
    | inside b ↦ read_body (suc n) b (record { tokenizer = t'; token = next; i = 0 }) >>= finish
    | comment_start ↦ do
      t'' ← next_char t'
      r ← quoted (suc n) 0x22 (record { tokenizer = t''; token = t''.comment; i = 0 })
      elim (r.tokenizer.ch == 0) [
        | true ↦ unclosed r next >>= finish
        | false ↦ do u ← close_comment r next; read_token n u next true
      ]
  ]
