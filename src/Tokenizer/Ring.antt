-- ===== src/Tokenizer/Ring.antt =====
-- The ring of the last six tokens of vm/Tokenizer.c: looking ahead changes no place in it.
use yet_another_smalltalk_vm.Base.{
  ℕ, zero, suc, ◌+◌, ◌-◌, ◌%◌, ◌^◌, ◌≤◌, ◌<◌, ◌≡◌, refl, ap, true, Option, some, List, leb, ltb,
  length, arith,
}
use yet_another_smalltalk_vm.Base.Result.{ok}
use Prim.Native.Nat.{max}
use yet_another_smalltalk_vm.Base.Int.{pos, negsuc}
use yet_another_smalltalk_vm.Tokenizer.{Tokenizer, max_tokens, init_base_tokenizer}
use yet_another_smalltalk_vm.Tokenizer.Ends.{
  Ends, returned, Ends-bind, Ends-ok, Ends-mono, next_char-rule,
}
use yet_another_smalltalk_vm.Tokenizer.Window.{
  peek_token, next_token, next_tokens, step_back, skip_token, peek_nth_token, init_tokenizer,
}
use yet_another_smalltalk_vm.Tokenizer.Calls.{peek_token-Keeps}

-- Six slots, and no token is counted that has left the ring or is not yet in it.
pub record IsRing (t : Tokenizer) : Type 0 where
  pub slots : length t.tokens ≡ max_tokens
  pub reached : t.token_index ≤ t.tokenized
  pub in_ring : t.tokenized ≤ t.token_index + max_tokens

-- The counts after the read of a token, or of none.
Looked : Tokenizer → Tokenizer → Type 0
Looked t u =
    (length u.tokens ≡ max_tokens)
    × (u.token_index ≡ t.token_index)
    × (t.token_index < u.tokenized)
    × (u.tokenized ≤ max t.tokenized (t.token_index + 1))

peek_token-Looked :
    (t : Tokenizer)
    → IsRing t
    → Ends (λ q. Looked t q.0 × (q.1 ≡ t.token_index % max_tokens)) (peek_token t)
unfolding Looked
peek_token-Looked t v =
    let Same : Tokenizer → Type 0 = λ u.
      (u.tokenized ≡ t.token_index)
      × (u.token_index ≡ t.token_index)
      × (length u.tokens ≡ max_tokens) in
    peek_token-Keeps Same (Looked t) (λ u k. next_char-rule Same u (λ _ _ _. k) (λ _ _ _. k))
      (λ u comment k. k) (λ u tokens k e. omega (arith, k, e)) t
      (λ h. ground (arith, v.slots, v.reached)) (λ h. ground (arith, v.slots, v.reached))

-- `u` is `n` tokens further than `t`.
Ahead : ℕ → Tokenizer → Tokenizer → Type 0
Ahead n t u =
    IsRing u
    × (u.token_index ≡ t.token_index + n)
    × (u.tokenized ≤ max t.tokenized (t.token_index + n))

next_token-Ahead :
    (t : Tokenizer)
    → IsRing t
    → Ends (λ q. Ahead 1 t q.0 × (q.1 ≡ t.token_index % max_tokens)) (next_token t)
unfolding next_token Looked Ahead
next_token-Ahead t v = Ends-bind (peek_token-Looked t v) (λ (u, i) (k, e). returned (
  (
    record { slots = k.0; reached = omega (arith, k); in_ring = omega (arith, k, v.in_ring) },
    omega (arith, k),
    omega (arith, k),
  ),
  e,
))

next_tokens-Ahead :
    (n : ℕ) (t : Tokenizer)
    → IsRing t
    → Ends (λ q. Ahead (n + 1) t q.0 × (q.1 ≡ (t.token_index + n) % max_tokens)) (next_tokens n t)
unfolding next_tokens Ahead
next_tokens-Ahead zero t v =
    Ends-mono (next_token-Ahead t v) (λ q k. ((k.0.0, k.0.1, k.0.2), omega (arith, k.1)))
next_tokens-Ahead (suc n) t v = Ends-bind (next_token-Ahead t v) (λ (u, i) (k, e).
    Ends-mono (next_tokens-Ahead n u k.0)
      (λ q k'. ((k'.0.0, omega (arith, k, k'), omega (arith, k, k')), omega (arith, k, k'))))

-- The steps back to `t` from `n` tokens further.
step_back-Ahead :
    (n : ℕ) (t u : Tokenizer)
    → IsRing t
    → Ahead n t u
    → n < max_tokens
    → t.token_index + max_tokens < 2 ^ 64
    → IsRing (step_back n u).0 × ((step_back n u).0.token_index ≡ t.token_index)
unfolding step_back Ahead
step_back-Ahead n t u v k lt big =
    let near : leb (u.tokenized + n) (u.token_index + max_tokens) ≡ true =
      ground (arith, k.1, k.2, v.in_ring, lt) in
    let back : (u.token_index + 2 ^ 64 - n) % 2 ^ 64 ≡ t.token_index =
      omega (arith, k.1, big, lt) in
    rw (near, step_back)
      (
        record {
          slots = k.0.slots;
          reached = omega (arith, back, k, v.reached, v.in_ring);
          in_ring = omega (arith, back, k, v.reached, v.in_ring, lt);
        },
        back,
      )

skip_token-Ahead :
    (t : Tokenizer) (n : ℕ)
    → IsRing t
    → n + 1 < max_tokens
    → Ends
        (λ q. Ahead (n + 1) t q.0 × (q.1 ≡ some ((t.token_index + n) % max_tokens)))
        (skip_token t (pos (suc n)))
unfolding skip_token
skip_token-Ahead t n v lt =
    let less : ltb (n + 1) max_tokens ≡ true = ground (arith, lt) in
    rw (less, skip_token) (Ends-bind (next_tokens-Ahead n t v) (λ q k. returned (k.0, ap some k.1)))

skip_token-step_back :
    (u : Tokenizer) (n : ℕ)
    → n + 1 < max_tokens
    → skip_token u (negsuc n) ≡ ok (step_back (n + 1) u)
unfolding skip_token
skip_token-step_back u n lt =
    let less : ltb (n + 1) max_tokens ≡ true = ground (arith, lt) in rw (less, skip_token) refl

-- Where `peekNthToken` by 1 to 5 steps returns, the place in the ring is the one before the call,
-- and the slot is that of the token so many steps ahead. The ring is kept.
pub peek_nth_token-token_index :
    (t t' : Tokenizer) (n : ℕ) (token : Option ℕ)
    → IsRing t
    → n + 1 < max_tokens
    → t.token_index + max_tokens < 2 ^ 64
    → peek_nth_token t (pos (suc n)) ≡ ok (t', token)
    → IsRing t'
      × (t'.token_index ≡ t.token_index)
      × (token ≡ some ((t.token_index + n) % max_tokens))
unfolding peek_nth_token
peek_nth_token-token_index t t' n token v lt big h =
    let run : Ends
        (λ q.
          IsRing q.0
          × (q.0.token_index ≡ t.token_index)
          × (q.1 ≡ some ((t.token_index + n) % max_tokens)))
        (peek_nth_token t (pos (suc n))) =
      Ends-bind (skip_token-Ahead t n v lt) (λ (u, i) (k, e).
        let (v', same) = step_back-Ahead (n + 1) t u v k lt big in
        rw (skip_token-step_back u n lt) (returned (v', same, e))) in
    Ends-ok run (t', token) h

-- Where `nextToken` returns, the ring is kept, one more token is taken, and the slot is the one that
-- was next.
pub next_token-IsRing :
    (t t' : Tokenizer) (i : ℕ)
    → IsRing t
    → next_token t ≡ ok (t', i)
    → IsRing t' × (t'.token_index ≡ t.token_index + 1) × (i ≡ t.token_index % max_tokens)
unfolding Ahead
next_token-IsRing t t' i v h =
    let (ahead, slot) = Ends-ok (next_token-Ahead t v) (t', i) h in (ahead.0, ahead.1, slot)

-- The tokenizer that `initTokenizer` returns has a ring with one token taken.
pub init_tokenizer-IsRing :
    (source : List ℕ) (t : Tokenizer)
    → init_tokenizer source ≡ ok t
    → IsRing t × (t.token_index ≡ 1)
unfolding init_tokenizer init_base_tokenizer Ahead
init_tokenizer-IsRing source t h =
    let Fresh : Tokenizer → Type 0 = λ u. IsRing u × (u.token_index ≡ 0) in
    Ends-ok {Q = λ u. IsRing u × (u.token_index ≡ 1)}
      (Ends-bind {Q = Fresh}
        (next_char-rule Fresh (init_base_tokenizer source)
          (λ _ _ _. (record { slots = refl; reached = omega arith; in_ring = omega arith }, refl))
          (λ _ _ _. (record { slots = refl; reached = omega arith; in_ring = omega arith }, refl)))
        (λ u (v, e).
          Ends-bind (next_token-Ahead u v) (λ q k. returned (k.0.0, omega (arith, k, e)))))
      t h
