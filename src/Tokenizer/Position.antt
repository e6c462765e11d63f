-- ===== src/Tokenizer/Position.antt =====
-- The place of the tokenizer of vm/Tokenizer.c in its source: `line`, `column` and `ch` against the
-- bytes that have been read, and the end of every call.
use yet_another_smalltalk_vm.Base.{
  ℕ, zero, suc, ◌+◌, ◌-◌, ◌≤◌, ◌<◌, ◌≡◌, ◌≢◌, refl, some, List, [], ◌∷◌, ◌==◌, if◌then◌else◌,
  length, take, get_elem?, get_elem?-lt, arith,
}
use yet_another_smalltalk_vm.Base.Result.{ok, fault, out_of_fuel}
use yet_another_smalltalk_vm.Tokenizer.{Token, Tokenizer, init_base_tokenizer, next_char}
use yet_another_smalltalk_vm.Tokenizer.Ends.{
  Ends, returned, Ends-bind, Ends-ok, Ends-stop, next_char-rule,
}
use yet_another_smalltalk_vm.Tokenizer.Window.{skip_token, init_tokenizer}
use yet_another_smalltalk_vm.Tokenizer.Calls.{next_token-keeps, skip_token-keeps}
use yet_another_smalltalk_vm.Base.Int.{ℤ}

unfoldable pub newlines : List ℕ → ℕ
newlines [] = 0
newlines (c ∷ cs) = (if c == 10 then 1 else 0) + newlines cs

newlines-take :
    (xs : List ℕ) (i : ℕ) {c : ℕ}
    → get_elem? xs i ≡ some c
    → newlines (take (suc i) xs) ≡ newlines (take i xs) + (if c == 10 then 1 else 0)
unfolding newlines
newlines-take [] i h = cc h
newlines-take (x ∷ xs) zero h = ground arith
newlines-take (x ∷ xs) (suc i) h = omega (arith, newlines-take xs i h)

-- `current` is in the source, `ch` is the byte before it, and `line` counts the newlines so far.
pub record IsCounted (t : Tokenizer) : Type 0 where
  pub inside : t.current ≤ length t.memory
  pub read : (0 < t.current) × (get_elem? t.memory (t.current - 1) ≡ some t.ch)
  pub line : t.line ≡ 1 + newlines (take t.current t.memory)
  pub column : (1 ≤ t.column) × (t.column ≤ t.current + 1)

next_char_counts :
    (t : Tokenizer)
    → t.line ≡ 1 + newlines (take t.current t.memory)
    → 1 ≤ t.column
    → t.column ≤ t.current + 1
    → Ends IsCounted (next_char t)
next_char_counts t line low high =
    next_char-rule IsCounted t
      (λ c h e. record {
        inside = omega (arith, get_elem?-lt t.memory t.current h);
        read = (omega arith, ground (arith, h));
        line = grind (arith, newlines-take t.memory t.current h);
        column = omega arith;
      })
      (λ c h e. record {
        inside = omega (arith, get_elem?-lt t.memory t.current h);
        read = (omega arith, ground (arith, h));
        line = grind (arith, newlines-take t.memory t.current h);
        column = omega arith;
      })

next_char-IsCounted : (t : Tokenizer) → IsCounted t → Ends IsCounted (next_char t)
next_char-IsCounted t k = next_char_counts t k.line k.column.0 k.column.1

IsCounted-note :
    (t : Tokenizer) (comment : Token) → IsCounted t → IsCounted (record t { comment = comment })
IsCounted-note t comment k = record {
  inside = k.inside;
  read = k.read;
  line = k.line;
  column = k.column;
}

IsCounted-turn :
    (t : Tokenizer) (tokens : List Token) (index count : ℕ)
    → IsCounted t
    → IsCounted (record t { tokens = tokens; token_index = index; tokenized = count })
IsCounted-turn t tokens index count k = record {
  inside = k.inside;
  read = k.read;
  line = k.line;
  column = k.column;
}

-- No call of `skipToken` is cut off: whatever the source and the number of steps, every loop of
-- `readToken` stops, also the one over the comments before a token.
pub skip_token-ends : (t : Tokenizer) (steps : ℤ) → skip_token t steps ≢ fault out_of_fuel
skip_token-ends t steps = Ends-stop (
    skip_token-keeps (λ _. Unit {0}) (λ u _. next_char-rule _ u (λ _ _ _. tt) (λ _ _ _. tt))
      (λ _ _ _. tt) (λ _ _ _ _ _. tt) t steps tt)

-- The tokenizer that `initTokenizer` returns has the right place in the source.
pub init_tokenizer-IsCounted :
    (source : List ℕ) (t : Tokenizer) → init_tokenizer source ≡ ok t → IsCounted t
unfolding init_tokenizer init_base_tokenizer newlines
init_tokenizer-IsCounted source t h =
    Ends-ok {Q = IsCounted}
      (Ends-bind (next_char_counts (init_base_tokenizer source) refl (omega arith) (omega arith))
        (λ u k.
          Ends-bind
            (next_token-keeps IsCounted next_char-IsCounted IsCounted-note IsCounted-turn u k)
            (λ q k'. returned k')))
      t h
