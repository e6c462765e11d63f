-- ===== src/Tokenizer.antt =====
-- vm/Tokenizer.h and the state of vm/Tokenizer.c, for a source in memory. The source is the list of
-- its bytes with the NUL at the end, `current` an index into it: a read past the end is a fault.
-- The counts of bytes, lines and tokens are at most the length of the source and do not wrap.
pub mod Characters
pub mod Read
pub mod Window
pub mod Ends
pub mod Chain
pub mod Keep
pub mod Calls
pub mod Position
pub mod Ring
pub mod Classes
pub mod Munch
pub mod WordStart
pub mod Words
use yet_another_smalltalk_vm.Base.{
  ℕ, ◌+◌, ◌-◌, ◌*◌, ◌<◌, Bool, true, false, Option, none, some, List, [], ◌∷◌, ◌++◌, ltb, leb, ◌==◌,
  if◌then◌else◌, length, get_elem?, take, drop, replicate,
}
use yet_another_smalltalk_vm.Base.Result.{Run, ok, fault, out_of_bounds, ◌>>=◌}

abbrev pub max_tokens : ℕ
max_tokens = 6

abbrev pub token_buffer_size : ℕ
token_buffer_size = 64

pub data TokenType : Type 0 where
  token_none token_unknown token_digit token_identifier token_symbol_start token_char : TokenType
  token_string token_comment token_special_chars token_keyword token_assign : TokenType
  token_return token_dot token_array_open_bracket token_open_bracket : TokenType
  token_close_bracket token_open_square_bracket token_close_square_bracket : TokenType
  token_end_of_input token_colon token_semicolon token_vertical_bar token_less_than : TokenType
  token_greater_than token_minus token_unclosed_string token_unclosed_comment : TokenType

-- `content` is the bytes that were written, from the start; the ones after are not initialised.
pub record Token : Type 0 where
  pub token_type : TokenType
  pub content_size : ℕ
  pub content : List ℕ
  pub position : ℕ
  pub line : ℕ
  pub column : ℕ
  pub is_separated : Bool

pub record Tokenizer : Type 0 where
  pub memory : List ℕ
  pub current : ℕ
  pub ch : ℕ
  pub line : ℕ
  pub column : ℕ
  pub tokens : List Token
  pub token_index : ℕ
  pub tokenized : ℕ
  pub comment : Token

-- A token whose fields no code has set but for the buffer.
abbrev empty_token : Token
empty_token = record {
  token_type = token_none;
  content_size = token_buffer_size;
  content = [];
  position = 0;
  line = 0;
  column = 0;
  is_separated = false;
}

-- `initBaseTokenizer`
unfoldable pub init_base_tokenizer : List ℕ → Tokenizer
init_base_tokenizer source = record {
  memory = source;
  current = 0;
  ch = 0;
  line = 1;
  column = 1;
  tokens = replicate max_tokens empty_token;
  token_index = 0;
  tokenized = 0;
  comment = empty_token;
}

unfoldable pub next_char : Tokenizer → Run Tokenizer
next_char t = elim (get_elem? t.memory t.current) [
  | none ↦ fault out_of_bounds
  | some c ↦
      if c == 10
      then ok (record t { current = t.current + 1; line = t.line + 1; column = 1; ch = c })
      else ok (record t { current = t.current + 1; column = t.column + 1; ch = c })
]

unfoldable pub peek_char : Tokenizer → Run ℕ
peek_char t = elim (get_elem? t.memory t.current) [ none ↦ fault out_of_bounds | some c ↦ ok c ]

-- `token->content[pos] = ch`
unfoldable pub write_char : Token → ℕ → ℕ → Run Token
write_char token pos ch =
    if ltb pos token.content_size
    then ok (record token { content = take pos token.content ++ ch ∷ drop (pos + 1) token.content })
    else fault out_of_bounds

-- `appendChar`; the buffer is moved to the heap, or enlarged there, with its bytes.
unfoldable pub append_char : Token → ℕ → ℕ → Run Token
unfolding write_char
append_char token pos ch =
    write_char
      (if pos == token.content_size
        then record token { content_size = token.content_size * 2 }
        else token)
      pos ch
