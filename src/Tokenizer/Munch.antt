-- ===== src/Tokenizer/Munch.antt =====
-- Runs of the readers of vm/Tokenizer.c that return, and what `APPEND` and its loops write.
use yet_another_smalltalk_vm.Base.{
  ℕ, zero, suc, ◌+◌, ◌*◌, ◌≤◌, ◌<◌, ◌≡◌, refl, sym, ap, ◌∙◌, Bool, true, false, some, List, [], ◌∷◌,
  ◌++◌, append_assoc, append-nil, ltb, ◌==◌, length, length-append, get_elem?, take, drop,
  Bool-cases, inl, inr, arith,
}
use yet_another_smalltalk_vm.Base.Result.{Run, ok, ◌>>=◌}
use yet_another_smalltalk_vm.Tokenizer.{
  Token, Tokenizer, next_char, peek_char, write_char, append_char,
}
use yet_another_smalltalk_vm.Tokenizer.Read.{Reading, append, append_loop}

-- The run returns, with a value that satisfies `Q`.
pub data Gives {ℓ} {A : Type ℓ} (Q : A → Type 0) : Run A → Type ℓ where
  gives : {a : A} → Q a → Gives Q (ok a)

pub Gives-bind {ℓ κ} :
    {A : Type ℓ} {B : Type κ} {Q : A → Type 0} {R : B → Type 0} {m : Run A} {f : A → Run B}
    → Gives Q m
    → ((a : A) → Q a → Gives R (f a))
    → Gives R (m >>= f)
Gives-bind (gives q) rest = rest _ q

pub Gives-mono {ℓ} :
    {A : Type ℓ} {Q R : A → Type 0} {m : Run A} → Gives Q m → ((a : A) → Q a → R a) → Gives R m
Gives-mono (gives q) more = gives (more _ q)

pub Gives-bind_twice {ℓ κ μ} :
    {A : Type ℓ} {B : Type κ} {C : Type μ} {Q : A → Type 0} {R : C → Type 0} {m : Run A}
    (f : A → Run B) (g : B → Run C)
    → Gives Q m
    → ((a : A) → Q a → Gives R (f a >>= g))
    → Gives R (m >>= f >>= g)
Gives-bind_twice f g (gives q) rest = rest _ q

pub Gives-ok {ℓ} :
    {A : Type ℓ} {Q : A → Type 0} {m : Run A} → Gives Q m → (a : A) × (m ≡ ok a) × Q a
Gives-ok (gives q) = (_, refl, q)

drop_cons :
    (xs : List ℕ) (i : ℕ) {d : ℕ} {rest : List ℕ}
    → drop i xs ≡ d ∷ rest
    → (get_elem? xs i ≡ some d) × (drop (suc i) xs ≡ rest)
drop_cons [] zero h = cc h
drop_cons [] (suc i) h = cc h
drop_cons (x ∷ xs) zero h = (cc h, cc h)
drop_cons (x ∷ xs) (suc i) h = drop_cons xs i h

take_append : (w : List ℕ) (c : ℕ) (ds : List ℕ) → take (suc (length w)) (w ++ c ∷ ds) ≡ w ++ c ∷ []
take_append [] c ds = refl
take_append (x ∷ w) c ds = ap (λ r. x ∷ r) (take_append w c ds)

pub take_written :
    (content old w ds : List ℕ) (i c : ℕ)
    → content ≡ old ++ c ∷ ds
    → old ≡ w
    → length w ≡ i
    → take (i + 1) content ≡ w ++ c ∷ []
take_written content old w ds i c h e count =
    let next : i + 1 ≡ suc (length w) = omega arith in rw (h, e, next) (take_append w c ds)

-- The characters before the place in the source: the tokenizer's own, and those after it.
abbrev pub ahead : Tokenizer → List ℕ
ahead t = t.ch ∷ drop t.current t.memory

next_char-ahead :
    (t : Tokenizer) (c d : ℕ) (rest : List ℕ)
    → ahead t ≡ c ∷ d ∷ rest
    → Gives (λ u. ahead u ≡ d ∷ rest) (next_char t)
unfolding next_char
next_char-ahead t c d rest h =
    let (found, left) = drop_cons t.memory t.current {d = d} {rest = rest} (cc h) in
    let one : t.current + 1 ≡ suc t.current = omega arith in
    elim (Bool-cases (d == 10)) [
      | inl e ↦ rw (found, e, next_char) (gives (rw one (ap (λ r. d ∷ r) left)))
      | inr e ↦ rw (found, e, next_char) (gives (rw one (ap (λ r. d ∷ r) left)))
    ]

pub peek_char-ahead :
    (t : Tokenizer) (c d : ℕ) (rest : List ℕ) → ahead t ≡ c ∷ d ∷ rest → peek_char t ≡ ok d
unfolding peek_char
peek_char-ahead t c d rest h =
    let (found, left) = drop_cons t.memory t.current {d = d} {rest = rest} (cc h) in
    rw (found, peek_char) refl

write_char-content :
    (token : Token) (pos ch : ℕ)
    → pos < token.content_size
    → Gives
        (λ u.
          (u.content ≡ take pos token.content ++ ch ∷ drop (pos + 1) token.content)
          × (pos + 1 ≤ u.content_size)
          × (u.token_type ≡ token.token_type))
        (write_char token pos ch)
unfolding write_char
write_char-content token pos ch lt =
    let fits : ltb pos token.content_size ≡ true = ground (arith, lt) in
    rw (fits, write_char) (gives (refl, omega arith, refl))

pub append_char-content :
    (token : Token) (pos ch : ℕ)
    → pos ≤ token.content_size
    → 0 < token.content_size
    → Gives
        (λ u.
          (u.content ≡ take pos token.content ++ ch ∷ drop (pos + 1) token.content)
          × (pos + 1 ≤ u.content_size)
          × (u.token_type ≡ token.token_type))
        (append_char token pos ch)
unfolding append_char
append_char-content token pos ch le has = elim (Bool-cases (pos == token.content_size)) [
  | inl e ↦
      rw (e, append_char)
        (write_char-content (record token { content_size = token.content_size * 2 }) pos ch
          (ground arith))
  | inr e ↦ rw (e, append_char) (write_char-content token pos ch (ground arith))
]

-- `w` has been written to the token, `l` is what comes next.
pub record Holds (r : Reading) (w l : List ℕ) : Type 0 where
  pub next : ahead r.tokenizer ≡ l
  pub text : take r.i r.token.content ≡ w
  pub count : length w ≡ r.i
  pub room : r.i ≤ r.token.content_size
  pub size : 0 < r.token.content_size

pub append-Holds :
    (r : Reading) (w : List ℕ) (c : ℕ) (l : List ℕ)
    → Holds r w (c ∷ l)
    → 0 < length l
    → Gives (λ r'. Holds r' (w ++ c ∷ []) l × (r'.token.token_type ≡ r.token.token_type)) (append r)
unfolding append
append-Holds r w c [] k more = absurd (omega arith)
append-Holds r w c (d ∷ l) k more =
    Gives-bind (append_char-content r.token r.i r.tokenizer.ch k.room k.size) (λ token p.
      Gives-bind (next_char-ahead r.tokenizer c d l k.next) (λ t q. gives (
        (
          record {
            next = q;
            text =
                take_written token.content _ w _ r.i c
                  (p.0
                    ∙ ap (λ x. take r.i r.token.content ++ x ∷ drop (r.i + 1) r.token.content)
                        (cc k.next))
                  k.text k.count;
            count = omega (arith, length-append w (c ∷ []), k.count);
            room = p.1;
            size = omega (arith, p.1);
          },
          p.2,
        ))))

abbrev pub AllPass : (ℕ → Run Bool) → List ℕ → Type 0
AllPass cond [] = Unit {0}
AllPass cond (c ∷ cs) = (cond c ≡ ok true) × AllPass cond cs

pub append_loop-Holds :
    (cond : ℕ → Run Bool) (n : ℕ) (r : Reading) (w cs : List ℕ) (stop : ℕ) (l : List ℕ)
    → Holds r w (cs ++ stop ∷ l)
    → AllPass cond cs
    → cond stop ≡ ok false
    → length cs < n
    → Gives (λ r'. Holds r' (w ++ cs) (stop ∷ l)) (append_loop n cond r)
unfolding append_loop
append_loop-Holds cond zero r w cs stop l k all ends lt = absurd (omega arith)
append_loop-Holds cond (suc n) r w [] stop l k all ends lt =
    let here : r.tokenizer.ch ≡ stop = cc k.next in
    rw (here, ends, append_loop) (gives (rw append-nil k))
append_loop-Holds cond (suc n) r w (c ∷ cs) stop l k all ends lt =
    let here : r.tokenizer.ch ≡ c = cc k.next in
    rw (here, all.0, append_loop)
      (Gives-bind
        (append-Holds r w c (cs ++ stop ∷ l) k (omega (arith, length-append cs (stop ∷ l))))
        (λ r' k'.
          rw (sym (append_assoc w (c ∷ []) cs))
            (append_loop-Holds cond n r' (w ++ c ∷ []) cs stop l k'.0 all.1 ends (omega arith))))
