-- ===== src/Tokenizer/Keep.antt =====
-- `readToken` ends, and keeps what `nextChar` and a write of the last comment keep. The argument is
-- the number of bytes that are left to read, which every round of every loop takes from.
use yet_another_smalltalk_vm.Base.{
  ℕ, zero, suc, ◌+◌, ◌≤◌, ◌<◌, Bool, true, false, ◌==◌, if◌then◌else◌, arith, Bool-cases, inl, inr,
}
use yet_another_smalltalk_vm.Base.Result.{Run, ok, ◌>>=◌}
use yet_another_smalltalk_vm.Tokenizer.{Token, Tokenizer, next_char}
use yet_another_smalltalk_vm.Tokenizer.Characters.{
  is_numeric, is_digit, is_separator, is_special, is_identifier,
}
use yet_another_smalltalk_vm.Tokenizer.Ends.{
  Ends, returned, stopped, Any, Ends-bind, Ends-mono, Ends-both, Ends-if, bounds_end, left,
  next_char-left, write_char-Ends, append_char-Ends, is_numeric-Ends, is_separator-Ends,
  is_special-Ends, is_identifier-Ends, is_digit-Ends,
}
use yet_another_smalltalk_vm.Tokenizer.Chain.{is_other_pair-Ends, token_start-Ends}
use yet_another_smalltalk_vm.Tokenizer.Read.{
  Reading, Branch, one, two, string, end, digits, word, specials, inside, comment_start,
  skip_separators, append, append_loop, append_while, quoted, radix_base, radix, read_body, finish,
  unclosed, close_comment, place_token, read_token,
}

module _ (P : Tokenizer → Type 0) (step : (t : Tokenizer) → P t → Ends P (next_char t))
    (note : (t : Tokenizer) (comment : Token) → P t → P (record t { comment = comment })) where
  -- `P`, and fewer than `b` bytes left
  abbrev Kept : ℕ → Tokenizer → Type 0
  Kept b t = P t × (left t < b)

  abbrev KeptReading : ℕ → Reading → Type 0
  KeptReading b r = Kept b r.tokenizer

  more-Kept : (b : ℕ) (t : Tokenizer) → Kept b t → Kept (suc b) t
  more-Kept b t k = (k.0, omega (arith, k.1))

  next_char-Kept : (b : ℕ) (t : Tokenizer) → Kept (suc b) t → Ends (Kept b) (next_char t)
  next_char-Kept b t k =
      Ends-mono (Ends-both _ (step t k.0) (next_char-left t))
        (λ u p. (p.0, omega (arith, p.1, k.1)))

  append-Kept : (b : ℕ) (r : Reading) → KeptReading (suc b) r → Ends (KeptReading b) (append r)
  unfolding append
  append-Kept b r k =
      Ends-bind (append_char-Ends _ _ _)
        (λ token _. Ends-bind (next_char-Kept b r.tokenizer k) (λ t p. returned p))

  skip_separators-Kept : (b : ℕ) (t : Tokenizer) → Kept b t → Ends (Kept b) (skip_separators b t)
  unfolding skip_separators
  skip_separators-Kept zero t k = absurd (omega (arith, k.1))
  skip_separators-Kept (suc b) t k = Ends-bind (is_separator-Ends t.ch) (elim [
    | true ↦ λ _.
        Ends-bind (next_char-Kept b t k)
          (λ u p. Ends-mono (skip_separators-Kept b u p) (more-Kept b))
    | false ↦ λ _. returned k
  ])

  append_loop-Kept :
      (cond : ℕ → Run Bool) (ends : (ch : ℕ) → Ends Any (cond ch)) (b : ℕ) (r : Reading)
      → KeptReading b r
      → Ends (KeptReading b) (append_loop b cond r)
  unfolding append_loop
  append_loop-Kept cond ends zero r k = absurd (omega (arith, k.1))
  append_loop-Kept cond ends (suc b) r k = Ends-bind (ends r.tokenizer.ch) (elim [
    | true ↦ λ _.
        Ends-bind (append-Kept b r k)
          (λ u p. Ends-mono (append_loop-Kept cond ends b u p) (λ v. more-Kept b v.tokenizer))
    | false ↦ λ _. returned k
  ])

  append_while-Kept :
      (cond : ℕ → Run Bool) (ends : (ch : ℕ) → Ends Any (cond ch)) (b : ℕ) (r : Reading)
      → KeptReading b r
      → Ends (KeptReading b) (append_while b cond r)
  unfolding append_while
  append_while-Kept cond ends b r k =
      Ends-bind (append-Kept b r (more-Kept b r.tokenizer k)) (append_loop-Kept cond ends b)

  append_again-Kept : (b : ℕ) (r : Reading) → KeptReading b r → Ends (KeptReading b) (append r)
  append_again-Kept b r k = append-Kept b r (more-Kept b r.tokenizer k)

  quoted-Kept :
      (n b quote : ℕ) (r : Reading)
      → b ≤ n
      → KeptReading b r
      → Ends (KeptReading b) (quoted n quote r)
  unfolding quoted
  quoted-Kept zero b quote r le k = absurd (omega (arith, k.1))
  quoted-Kept (suc n) zero quote r le k = absurd (omega (arith, k.1))
  quoted-Kept (suc n) (suc b) quote r le k =
      let again : (q : Reading)
          → KeptReading (suc b) q
          → Ends (KeptReading (suc b)) (append q >>= quoted n quote) =
        λ q p. Ends-bind (append-Kept b q p) (λ v h.
          Ends-mono (quoted-Kept n b quote v (omega arith) h) (λ w. more-Kept b w.tokenizer)) in
      elim (Bool-cases (r.tokenizer.ch == 0)) [
        | inl h ↦ rw (h, quoted) (returned k)
        | inr h ↦ elim (Bool-cases (r.tokenizer.ch == quote)) [
          | inr h' ↦ rw (h, h', quoted) (again r k)
          | inl h' ↦
              rw (h, h', quoted)
                (Ends-bind (next_char-Kept b r.tokenizer k) (λ t p.
                  elim (Bool-cases (t.ch == quote)) [
                    | inl e ↦ rw e (again (record r { tokenizer = t }) (more-Kept b t p))
                    | inr e ↦ rw e (returned (more-Kept b t p))
                  ]))
        ]
      ]

  radix-Kept : (b : ℕ) (r : Reading) → KeptReading b r → Ends (KeptReading b) (radix b r)
  unfolding radix
  radix-Kept b r k =
      let signed : (q : Reading)
          → KeptReading b q
          → Ends (KeptReading b) (if q.tokenizer.ch == 0x2D then append q else ok q) =
        λ q p. Ends-if (q.tokenizer.ch == 0x2D) (append_again-Kept b q p) (returned p) in
      Ends-bind (write_char-Ends r.token r.i 0) (λ token _.
        Ends-bind (append_again-Kept b (record r { token = token }) k) (λ q p.
          let base = radix_base token.content in
          Ends-bind (signed q p) (append_loop-Kept (is_digit base) (is_digit-Ends base) b)))

  read_body-Kept :
      (b : ℕ) (branch : Branch) (r : Reading)
      → KeptReading b r
      → Ends (KeptReading b) (read_body b branch r)
  unfolding read_body
  read_body-Kept b (one ty) r k = append_again-Kept b _ k
  read_body-Kept b (two ty) r k = Ends-bind (append_again-Kept b _ k) (append_again-Kept b)
  read_body-Kept b string r k =
      Ends-bind (next_char-Kept b r.tokenizer (more-Kept b r.tokenizer k))
        (λ t p. Ends-bind (quoted-Kept b b _ _ (omega arith) p) (λ r' q. returned q))
  read_body-Kept b end r k = returned k
  read_body-Kept b digits r k =
      Ends-bind (append_while-Kept is_numeric is_numeric-Ends b _ k)
        (λ r' p. Ends-if (r'.tokenizer.ch == 0x72) (radix-Kept b r' p) (returned p))
  read_body-Kept b word r k =
      Ends-bind (append_while-Kept is_identifier is_identifier-Ends b r k) (λ r' p.
        Ends-bind (is_other_pair-Ends _ _ r'.tokenizer)
          (λ keyword _. Ends-if keyword (append_again-Kept b _ p) (returned p)))
  read_body-Kept b specials r k = append_while-Kept is_special is_special-Ends b _ k

  place_token-Kept :
      (b : ℕ) (t : Tokenizer) (token : Token) (separated : Bool)
      → Kept b t
      → Ends (λ q. Kept b q.0) (place_token b t token separated)
  unfolding place_token
  place_token-Kept b t token separated k =
      let asked : Ends Any (if separated then ok true else is_separator t.ch) =
        Ends-if separated (returned tt) (is_separator-Ends t.ch) in
      Ends-bind asked (λ separated' _.
        Ends-bind (skip_separators-Kept b _ (note t _ k.0, k.1)) (λ t' p. returned p))

  module _ (Q : Tokenizer → Type 0)
      (done : (t : Tokenizer) → P t → Q (record t { tokenized = t.tokenized + 1 })) where
    finish-Kept : (r : Reading) → P r.tokenizer → Ends (λ q. Q q.0) (finish r)
    unfolding finish
    finish-Kept r p = Ends-bind (append_char-Ends _ _ _) (λ token _. returned (done r.tokenizer p))

    unclosed-Kept :
        (r : Reading) (next : Token)
        → P r.tokenizer
        → Ends (λ q. Q q.0) (unclosed r next >>= finish)
    unfolding unclosed
    unclosed-Kept r next p =
        Ends-bind {Q = λ u. P u.tokenizer}
          (Ends-if _ (returned (note r.tokenizer _ p)) (stopped bounds_end)) finish-Kept

    close_comment-Kept :
        (r : Reading) (next : Token) {b : ℕ}
        → P r.tokenizer
        → left r.tokenizer < b
        → Ends (Kept b) (close_comment r next)
    unfolding close_comment
    close_comment-Kept r next p lt =
        Ends-bind (append_char-Ends _ _ _) (λ token _. returned (note r.tokenizer token p, lt))

    pub read_token-Keeps :
        (n : ℕ) (t : Tokenizer) (token : Token) (separated : Bool)
        → P t
        → left t < n
        → Ends (λ q. Q q.0) (read_token n t token separated)
    unfolding read_token
    read_token-Keeps zero t token separated p lt = absurd (omega arith)
    read_token-Keeps (suc n) t token separated p lt =
        Ends-bind (place_token-Kept (suc n) t token separated (p, lt)) (λ (t', next) k.
          Ends-bind (token_start-Ends t') (elim [
            | inside b ↦ λ _. Ends-bind (read_body-Kept (suc n) b _ k) (λ r q. finish-Kept r q.0)
            | comment_start ↦ λ _. Ends-bind (next_char-Kept n t' k) (λ u q.
                Ends-bind (quoted-Kept (suc n) n 0x22 _ (omega arith) q) (λ r h.
                  elim (Bool-cases (r.tokenizer.ch == 0)) [
                    | inl e ↦ rw e (unclosed-Kept r next h.0)
                    | inr e ↦ rw e (
                        Ends-bind (close_comment-Kept r next h.0 h.1)
                          (λ v w. read_token-Keeps n v next true w.0 w.1))
                  ]))
          ]))
