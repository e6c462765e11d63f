-- ===== src/Tokenizer/Calls.antt =====
-- Rules for the callers of `readToken` in vm/Tokenizer.c.
use yet_another_smalltalk_vm.Base.{
  ℕ, zero, suc, ◌+◌, ◌≡◌, refl, true, false, List, leb, ltb, ◌%◌, length-set, length, get_elem?,
  Option-cases, Bool-cases, inl, inr, arith,
}
use yet_another_smalltalk_vm.Base.Int.{ℤ, pos, negsuc}
use yet_another_smalltalk_vm.Tokenizer.{Token, Tokenizer, max_tokens, next_char}
use yet_another_smalltalk_vm.Tokenizer.Ends.{Ends, returned, stopped, Ends-bind, bounds_end}
use yet_another_smalltalk_vm.Tokenizer.Keep.{read_token-Keeps}
use yet_another_smalltalk_vm.Tokenizer.Window.{
  peek_token, next_token, next_tokens, step_back, skip_token,
}

module _ (P Q : Tokenizer → Type 0) (step : (t : Tokenizer) → P t → Ends P (next_char t))
    (note : (t : Tokenizer) (comment : Token) → P t → P (record t { comment = comment }))
    (done : (t : Tokenizer) (tokens : List Token)
      → P t
      → length tokens ≡ length t.tokens
      → Q (record t { tokenized = t.tokenized + 1; tokens = tokens })) where
  pub peek_token-Keeps :
      (t : Tokenizer)
      → (leb t.tokenized t.token_index ≡ true → P t)
      → (leb t.tokenized t.token_index ≡ false → Q t)
      → Ends (λ q. Q q.0 × (q.1 ≡ t.token_index % max_tokens)) (peek_token t)
  unfolding peek_token
  peek_token-Keeps t p same = elim (Bool-cases (leb t.tokenized t.token_index)) [
    | inr h ↦ rw (h, peek_token) (returned (same h, refl))
    | inl h ↦ elim (Option-cases (get_elem? t.tokens (t.token_index % max_tokens))) [
      | inl e ↦ rw (h, e, peek_token) (stopped bounds_end)
      | inr (old, e) ↦
          rw (h, e, peek_token)
            (Ends-bind
              (read_token-Keeps P step note
                (λ u.
                  (tokens : List Token)
                  → length tokens ≡ length u.tokens
                  → Q (record u { tokens = tokens }))
                (λ u k tokens. done u tokens k) (suc (length t.memory)) t old false (p h)
                (omega arith))
              (λ q k. returned (k _ (length-set q.0.tokens _ q.1), refl)))
    ]
  ]

-- A property that the ring of tokens does not touch.
module _ (P : Tokenizer → Type 0) (step : (t : Tokenizer) → P t → Ends P (next_char t))
    (note : (t : Tokenizer) (comment : Token) → P t → P (record t { comment = comment }))
    (turn : (t : Tokenizer) (tokens : List Token) (index count : ℕ)
      → P t
      → P (record t { tokens = tokens; token_index = index; tokenized = count })) where
  pub next_token-keeps : (t : Tokenizer) → P t → Ends (λ q. P q.0) (next_token t)
  unfolding next_token
  next_token-keeps t p =
      Ends-bind
        (peek_token-Keeps P P step note (λ u tokens h e. turn u tokens u.token_index _ h) t (λ _. p)
          (λ _. p))
        (λ q h. returned (turn q.0 q.0.tokens _ q.0.tokenized h.0))

  next_tokens-keeps : (n : ℕ) (t : Tokenizer) → P t → Ends (λ q. P q.0) (next_tokens n t)
  unfolding next_tokens
  next_tokens-keeps zero t p = next_token-keeps t p
  next_tokens-keeps (suc n) t p =
      Ends-bind (next_token-keeps t p) (λ q h. next_tokens-keeps n q.0 h)

  step_back-keeps : (n : ℕ) (t : Tokenizer) → P t → P (step_back n t).0
  unfolding step_back
  step_back-keeps n t p = elim (Bool-cases (leb (t.tokenized + n) (t.token_index + max_tokens))) [
    | inl h ↦ rw (h, step_back) (turn t t.tokens _ t.tokenized p)
    | inr h ↦ rw (h, step_back) p
  ]

  pub skip_token-keeps : (t : Tokenizer) (steps : ℤ) → P t → Ends (λ q. P q.0) (skip_token t steps)
  unfolding skip_token
  skip_token-keeps t (pos zero) p = returned (step_back-keeps 0 t p)
  skip_token-keeps t (pos (suc n)) p = elim (Bool-cases (ltb (n + 1) max_tokens)) [
    | inl h ↦ rw (h, skip_token) (Ends-bind (next_tokens-keeps n t p) (λ q k. returned k))
    | inr h ↦ rw (h, skip_token) (stopped (λ e. cc e))
  ]
  skip_token-keeps t (negsuc n) p = elim (Bool-cases (ltb (n + 1) max_tokens)) [
    | inl h ↦ rw (h, skip_token) (returned (step_back-keeps (n + 1) t p))
    | inr h ↦ rw (h, skip_token) (stopped (λ e. cc e))
  ]
