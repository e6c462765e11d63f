-- ===== src/Tokenizer/Words.antt =====
-- Identifiers and keywords in vm/Tokenizer.c: the longest run of characters is the token.
use yet_another_smalltalk_vm.Base.{
  ℕ, suc, ◌+◌, ◌<◌, ◌≡◌, ◌≢◌, refl, sym, ap, ◌∙◌, Bool, true, false, List, [], ◌∷◌, ◌++◌, ◌==◌,
  if◌then◌else◌, length, length-append, take, arith,
}
use yet_another_smalltalk_vm.Base.Result.{Run, ok, ◌>>=◌}
use yet_another_smalltalk_vm.Tokenizer.{
  TokenType, token_identifier, token_keyword, Token, Tokenizer,
}
use yet_another_smalltalk_vm.Tokenizer.Characters.{
  is_separator, is_identifier, is_identifier_begining,
}
use yet_another_smalltalk_vm.Tokenizer.Read.{
  Reading, skip_separators, append, append_while, is_other_pair, with_type, read_body, finish,
  place_token, read_token,
}
use yet_another_smalltalk_vm.Tokenizer.WordStart.{begins-word}
use yet_another_smalltalk_vm.Tokenizer.Munch.{
  Gives, gives, Gives-bind, Gives-bind_twice, Gives-mono, Gives-ok, peek_char-ahead,
  append_char-content, ahead, Holds, append-Holds, append_loop-Holds, take_written, AllPass,
}

-- The token gets its place, and nothing is skipped.
place_token-ahead :
    (n : ℕ) (t : Tokenizer) (token : Token) (separated : Bool)
    → is_separator t.ch ≡ ok false
    → Gives
        (λ q. (ahead q.0 ≡ ahead t) × (q.1.content_size ≡ token.content_size))
        (place_token (suc n) t token separated)
unfolding place_token skip_separators
place_token-ahead n t token true solid =
    rw (solid, place_token, skip_separators) (gives (refl, refl))
place_token-ahead n t token false solid =
    rw (solid, place_token, skip_separators) (gives (refl, refl))

-- A word in the source: `c` and `cs`, then `stop`, which is in no identifier.
pub record IsNextWord (t : Tokenizer) (c : ℕ) (cs : List ℕ) (stop : ℕ) (more : List ℕ)
    : Type 0 where
  pub here : ahead t ≡ c ∷ cs ++ stop ∷ more
  pub begins : is_identifier_begining c ≡ ok true
  pub goes_on : AllPass is_identifier cs
  pub ends : is_identifier stop ≡ ok false

retyped : (ty : TokenType) (r : Reading) {w l : List ℕ} → Holds r w l → Holds (with_type ty r) w l
retyped ty r k = record {
  next = k.next;
  text = k.text;
  count = k.count;
  room = k.room;
  size = k.size;
}

-- What follows the word in its branch.
after_word : Reading → Run Reading
after_word r = do
  keyword ← is_other_pair 0x3A 0x3D r.tokenizer
  if keyword then append (with_type token_keyword r) else ok (with_type token_identifier r)

finish-content :
    (stop : ℕ) (more : List ℕ) (r : Reading) (w : List ℕ)
    → Holds r w (stop ∷ more)
    → Gives
        (λ q.
          (ahead q.0 ≡ stop ∷ more)
          × (q.1.token_type ≡ r.token.token_type)
          × (take (length w + 1) q.1.content ≡ w ++ 0 ∷ []))
        (finish r)
unfolding finish
finish-content stop more r w k =
    Gives-bind (append_char-content r.token r.i 0 k.room k.size) (λ token p.
      gives (k.next, p.2, rw k.count (take_written token.content _ w _ r.i 0 p.0 k.text k.count)))

after_word-identifier :
    (stop : ℕ) (more : List ℕ) (r : Reading) (w : List ℕ)
    → stop ≢ 0x3A
    → Holds r w (stop ∷ more)
    → after_word r ≡ ok (with_type token_identifier r)
unfolding after_word is_other_pair
after_word-identifier stop more r w ne k =
    let here : r.tokenizer.ch ≡ stop = cc k.next in
    let other : (r.tokenizer.ch == 0x3A) ≡ false = ground (arith, ne, here) in
    rw (other, is_other_pair) refl

module _ (t : Tokenizer) (c : ℕ) (cs : List ℕ) (stop : ℕ) (more : List ℕ)
    (v : IsNextWord t c cs stop more) where
  append_while-Holds :
      (n : ℕ) (r : Reading)
      → ahead r.tokenizer ≡ ahead t
      → r.i ≡ 0
      → 0 < r.token.content_size
      → length cs < n
      → Gives (λ r'. Holds r' (c ∷ cs) (stop ∷ more)) (append_while n is_identifier r)
  unfolding append_while
  append_while-Holds n r same zero_i has lt =
      Gives-bind
        (append-Holds r [] c (cs ++ stop ∷ more)
          (record {
            next = same ∙ v.here;
            text = rw zero_i refl;
            count = sym zero_i;
            room = omega arith;
            size = has;
          })
          (omega (arith, length-append cs (stop ∷ more))))
        (λ r' k. append_loop-Holds is_identifier n r' (c ∷ []) cs stop more k.0 v.goes_on v.ends lt)

  -- `readToken` comes to the word, whatever is then asked of the rest of its run.
  read_token-Holds :
      (Q : Tokenizer × Token → Type 0) (n : ℕ) (token : Token) (separated : Bool)
      → 0 < token.content_size
      → length cs < suc n
      → ((r : Reading) → Holds r (c ∷ cs) (stop ∷ more) → Gives Q (after_word r >>= finish))
      → Gives Q (read_token (suc n) t token separated)
  unfolding read_token read_body after_word
  read_token-Holds Q n token separated has lt rest =
      let (solid, _) = begins-word t c (cc v.here) v.begins in
      Gives-bind (place_token-ahead n t token separated (ap is_separator (cc v.here) ∙ solid))
        (λ (t', next) (same, size).
          let (_, in_word) = begins-word t' c (cc (same ∙ v.here)) v.begins in
          rw in_word (
            Gives-bind_twice after_word finish
              (append_while-Holds (suc n) (record { tokenizer = t'; token = next; i = 0 }) same refl
                (omega arith) lt)
              rest))

-- A word that ends before a character that is neither in an identifier nor a colon is read as an
-- identifier: `readToken` returns, the token's text is the word with a NUL after it, and the
-- tokenizer stands at the character after the word.
pub read_token-identifier :
    (t : Tokenizer) (c : ℕ) (cs : List ℕ) (stop : ℕ) (more : List ℕ) (n : ℕ) (token : Token)
    (separated : Bool)
    → IsNextWord t c cs stop more
    → stop ≢ 0x3A
    → 0 < token.content_size
    → length cs < suc n
    → (q : Tokenizer × Token) × (read_token (suc n) t token separated ≡ ok q)
      × (q.1.token_type ≡ token_identifier)
      × (take (length (c ∷ cs) + 1) q.1.content ≡ (c ∷ cs) ++ 0 ∷ [])
      × (ahead q.0 ≡ stop ∷ more)
read_token-identifier t c cs stop more n token separated v ne has lt =
    let (q, e, (next, ty, text)) = Gives-ok (
      read_token-Holds t c cs stop more v
        (λ q.
          (ahead q.0 ≡ stop ∷ more)
          × (q.1.token_type ≡ token_identifier)
          × (take (length (c ∷ cs) + 1) q.1.content ≡ (c ∷ cs) ++ 0 ∷ []))
        n token separated has lt
        (λ r k. rw (after_word-identifier stop more r (c ∷ cs) ne k) (
          finish-content stop more (with_type token_identifier r) (c ∷ cs)
            (retyped token_identifier r k)))) in
    (q, e, ty, text, next)

after_word-keyword :
    (r : Reading) (w : List ℕ) (d : ℕ) (more : List ℕ)
    → d ≢ 0x3D
    → Holds r w (0x3A ∷ d ∷ more)
    → after_word r ≡ append (with_type token_keyword r)
unfolding after_word is_other_pair
after_word-keyword r w d more ne k =
    let here : (r.tokenizer.ch == 0x3A) ≡ true =
      let e : r.tokenizer.ch ≡ 0x3A = cc k.next in ground (arith, e) in
    let other : (d == 0x3D) ≡ false = ground (arith, ne) in
    rw (here, peek_char-ahead r.tokenizer 0x3A d more k.next, other, is_other_pair) refl

-- A word before a colon that no equals sign follows is read as a keyword: `readToken` returns, the
-- token's text is the word, the colon and a NUL, and the tokenizer stands after the colon.
pub read_token-keyword :
    (t : Tokenizer) (c : ℕ) (cs : List ℕ) (d : ℕ) (more : List ℕ) (n : ℕ) (token : Token)
    (separated : Bool)
    → IsNextWord t c cs 0x3A (d ∷ more)
    → d ≢ 0x3D
    → 0 < token.content_size
    → length cs < suc n
    → (q : Tokenizer × Token) × (read_token (suc n) t token separated ≡ ok q)
      × (q.1.token_type ≡ token_keyword)
      × (take (length ((c ∷ cs) ++ 0x3A ∷ []) + 1) q.1.content ≡ ((c ∷ cs) ++ 0x3A ∷ []) ++ 0 ∷ [])
      × (ahead q.0 ≡ d ∷ more)
read_token-keyword t c cs d more n token separated v ne has lt =
    let (q, e, (next, ty, text)) = Gives-ok (
      read_token-Holds t c cs 0x3A (d ∷ more) v
        (λ q.
          (ahead q.0 ≡ d ∷ more)
          × (q.1.token_type ≡ token_keyword)
          × (take (length ((c ∷ cs) ++ 0x3A ∷ []) + 1) q.1.content
              ≡ ((c ∷ cs) ++ 0x3A ∷ []) ++ 0 ∷ []))
        n token separated has lt
        (λ r k. rw (after_word-keyword r (c ∷ cs) d more ne k) (
          Gives-bind
            (append-Holds (with_type token_keyword r) (c ∷ cs) 0x3A (d ∷ more)
              (retyped token_keyword r k) (omega arith))
            (λ r' (k', ty').
              Gives-mono (finish-content d more r' ((c ∷ cs) ++ 0x3A ∷ []) k')
                (λ q p. (p.0, p.1 ∙ ty', p.2)))))) in
    (q, e, ty, text, next)
