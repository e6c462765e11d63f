-- ===== src/Tokenizer/Ends.antt =====
-- Rules for the readers of vm/Tokenizer.c: a run that does not run out of fuel, and what holds of its
-- value when it has one.
use yet_another_smalltalk_vm.Base.{
  ℕ, ◌+◌, ◌-◌, ◌<◌, ◌≡◌, ◌≢◌, Bool, true, false, some, List, ◌==◌, if◌then◌else◌, ltb, leb, inl,
  inr, length, get_elem?, get_elem?-lt, Option-cases, Bool-cases, arith,
}
use yet_another_smalltalk_vm.Base.Result.{Run, ok, fault, Fault, out_of_fuel, out_of_bounds, ◌>>=◌}
use yet_another_smalltalk_vm.Tokenizer.{
  Token, Tokenizer, next_char, peek_char, write_char, append_char,
}
use yet_another_smalltalk_vm.Tokenizer.Characters.{
  num, sep, spec, ident_begin, characters, character_classes, character_digit_values, char_at,
  is_numeric, is_digit, is_separator, is_special, is_identifier, is_identifier_begining,
}

-- The run is not cut off, and its value satisfies `Q`.
pub data Ends {ℓ} {A : Type ℓ} (Q : A → Type 0) : Run A → Type ℓ where
  returned : {a : A} → Q a → Ends Q (ok a)
  stopped : {e : Fault} → e ≢ out_of_fuel → Ends Q (fault e)

abbrev pub Any {ℓ} : {A : Type ℓ} → A → Type 0
Any a = Unit {0}

pub Ends-bind {ℓ κ} :
    {A : Type ℓ} {B : Type κ} {Q : A → Type 0} {R : B → Type 0} {m : Run A} {f : A → Run B}
    → Ends Q m
    → ((a : A) → Q a → Ends R (f a))
    → Ends R (m >>= f)
Ends-bind (returned h) rest = rest _ h
Ends-bind (stopped h) rest = stopped h

pub Ends-mono {ℓ} :
    {A : Type ℓ} {Q R : A → Type 0} {m : Run A} → Ends Q m → ((a : A) → Q a → R a) → Ends R m
Ends-mono (returned q) more = returned (more _ q)
Ends-mono (stopped h) more = stopped h

pub Ends-both {ℓ} :
    {A : Type ℓ} {Q R : A → Type 0} (m : Run A) → Ends Q m → Ends R m → Ends (λ a. Q a × R a) m
Ends-both (ok a) (returned q) (returned r) = returned (q, r)
Ends-both (fault e) (stopped q) r = stopped q

pub Ends-if {ℓ} :
    {A : Type ℓ} {Q : A → Type 0} (b : Bool) {x y : Run A}
    → Ends Q x
    → Ends Q y
    → Ends Q (if b then x else y)
Ends-if true h k = h
Ends-if false h k = k

pub Ends-ok {ℓ} : {A : Type ℓ} {Q : A → Type 0} {m : Run A} → Ends Q m → (a : A) → m ≡ ok a → Q a
Ends-ok (returned {a = b} q) a h = let e : b ≡ a = cc h in rw e at q
Ends-ok (stopped q) a h = cc h

pub Ends-stop {ℓ} : {A : Type ℓ} {Q : A → Type 0} {m : Run A} → Ends Q m → m ≢ fault out_of_fuel
Ends-stop (returned q) h = cc h
Ends-stop (stopped ne) h = ne (cc h)

pub bounds_end : out_of_bounds ≢ out_of_fuel
bounds_end h = cc h

-- The bytes that are left to read.
abbrev pub left : Tokenizer → ℕ
left t = length t.memory - t.current

pub next_char-left : (t : Tokenizer) → Ends (λ u. left u < left t) (next_char t)
unfolding next_char
next_char-left t = elim (Option-cases (get_elem? t.memory t.current)) [
  | inl h ↦ rw (h, next_char) (stopped bounds_end)
  | inr (c, h) ↦
      let lt = get_elem?-lt t.memory t.current h in
      rw (h, next_char)
        (Ends-if (c == 10) (returned (omega (arith, lt))) (returned (omega (arith, lt))))
]

-- What holds after `nextChar`, by the byte that it reads.
pub next_char-rule :
    (P : Tokenizer → Type 0) (t : Tokenizer)
    → ((c : ℕ)
        → get_elem? t.memory t.current ≡ some c
        → (c == 10) ≡ true
        → P (record t { current = t.current + 1; line = t.line + 1; column = 1; ch = c }))
    → ((c : ℕ)
        → get_elem? t.memory t.current ≡ some c
        → (c == 10) ≡ false
        → P (record t { current = t.current + 1; column = t.column + 1; ch = c }))
    → Ends P (next_char t)
unfolding next_char
next_char-rule P t newline other = elim (Option-cases (get_elem? t.memory t.current)) [
  | inl h ↦ rw (h, next_char) (stopped bounds_end)
  | inr (c, h) ↦ elim (Bool-cases (c == 10)) [
    | inl e ↦ rw (h, e, next_char) (returned (newline c h e))
    | inr e ↦ rw (h, e, next_char) (returned (other c h e))
  ]
]

pub peek_char-Ends : (t : Tokenizer) → Ends Any (peek_char t)
unfolding peek_char
peek_char-Ends t = elim (Option-cases (get_elem? t.memory t.current)) [
  | inl h ↦ rw (h, peek_char) (stopped bounds_end)
  | inr (c, h) ↦ rw (h, peek_char) (returned tt)
]

char_at-Ends : (table : List ℕ) (ch : ℕ) → Ends Any (char_at table ch)
unfolding char_at
char_at-Ends table ch = Ends-if (ltb ch 128) (returned tt) (stopped bounds_end)

pub write_char-Ends : (token : Token) (pos ch : ℕ) → Ends Any (write_char token pos ch)
unfolding write_char
write_char-Ends token pos ch =
    Ends-if (ltb pos token.content_size) (returned tt) (stopped bounds_end)

pub append_char-Ends : (token : Token) (pos ch : ℕ) → Ends Any (append_char token pos ch)
unfolding append_char write_char
append_char-Ends token pos ch = Ends-if _ (returned tt) (stopped bounds_end)

test-Ends :
    (table : List ℕ) (test : ℕ → Bool) (ch : ℕ) → Ends Any (char_at table ch >>= (λ c. ok (test c)))
test-Ends table test ch = Ends-bind (char_at-Ends table ch) (λ c _. returned tt)

pub is_numeric-Ends : (ch : ℕ) → Ends Any (is_numeric ch)
unfolding is_numeric
is_numeric-Ends ch = test-Ends characters (λ c. c == num) ch

pub is_separator-Ends : (ch : ℕ) → Ends Any (is_separator ch)
unfolding is_separator
is_separator-Ends ch = test-Ends characters (λ c. c == sep) ch

pub is_special-Ends : (ch : ℕ) → Ends Any (is_special ch)
unfolding is_special
is_special-Ends ch = test-Ends characters (λ c. c == spec) ch

pub is_identifier-Ends : (ch : ℕ) → Ends Any (is_identifier ch)
unfolding is_identifier
is_identifier-Ends ch = test-Ends character_classes (λ c. leb ident_begin c) ch

pub is_identifier_begining-Ends : (ch : ℕ) → Ends Any (is_identifier_begining ch)
unfolding is_identifier_begining
is_identifier_begining-Ends ch = test-Ends character_classes (λ c. c == ident_begin) ch

pub is_digit-Ends : (base ch : ℕ) → Ends Any (is_digit base ch)
unfolding is_digit
is_digit-Ends base ch = test-Ends character_digit_values (λ v. ltb v base) ch
