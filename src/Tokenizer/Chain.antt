-- ===== src/Tokenizer/Chain.antt =====
-- The chain of conditions in `readToken` of vm/Tokenizer.c comes to an end.
use yet_another_smalltalk_vm.Base.{ℕ, Bool, true, false, List, [], ◌∷◌, ◌==◌, Bool-cases, inl, inr}
use yet_another_smalltalk_vm.Base.Result.{Run, ok}
use yet_another_smalltalk_vm.Tokenizer.{Tokenizer}
use yet_another_smalltalk_vm.Tokenizer.Ends.{
  Ends, returned, Any, Ends-bind, peek_char-Ends, is_numeric-Ends, is_special-Ends,
  is_identifier_begining-Ends,
}
use yet_another_smalltalk_vm.Tokenizer.Read.{
  Start, stands_alone, is_pair, is_other_pair, first_taken, branches, token_start,
}

-- The conditions of the chain end.
infixr 30 ◌▸◌
data AllEnd : List (Run Bool × Start) → Type 0 where
  no_more : AllEnd []
  ◌▸◌ :
      {cond : Run Bool} {here : Start} {others : List (Run Bool × Start)}
      → Ends Any cond
      → AllEnd others
      → AllEnd ((cond, here) ∷ others)

first_taken-Ends : (cases : List (Run Bool × Start)) → AllEnd cases → Ends Any (first_taken cases)
unfolding first_taken
first_taken-Ends [] all = returned tt
first_taken-Ends ((cond, here) ∷ others) (this ▸ all) =
    Ends-bind this (elim [ true ↦ λ _. returned tt | false ↦ λ _. first_taken-Ends others all ])

stands_alone-Ends : (c : ℕ) (t : Tokenizer) → Ends Any (stands_alone c t)
unfolding stands_alone
stands_alone-Ends c t = elim (Bool-cases (t.ch == c)) [
  | inl h ↦
      rw (h, stands_alone)
        (Ends-bind (peek_char-Ends t)
          (λ next _. Ends-bind (is_special-Ends next) (λ special _. returned tt)))
  | inr h ↦ rw (h, stands_alone) (returned tt)
]

is_pair-Ends : (c d : ℕ) (t : Tokenizer) → Ends Any (is_pair c d t)
unfolding is_pair
is_pair-Ends c d t = elim (Bool-cases (t.ch == c)) [
  | inl h ↦ rw (h, is_pair) (Ends-bind (peek_char-Ends t) (λ next _. returned tt))
  | inr h ↦ rw (h, is_pair) (returned tt)
]

pub is_other_pair-Ends : (c d : ℕ) (t : Tokenizer) → Ends Any (is_other_pair c d t)
unfolding is_other_pair
is_other_pair-Ends c d t = elim (Bool-cases (t.ch == c)) [
  | inl h ↦ rw (h, is_other_pair) (Ends-bind (peek_char-Ends t) (λ next _. returned tt))
  | inr h ↦ rw (h, is_other_pair) (returned tt)
]

branches-Ends : (t : Tokenizer) → AllEnd (branches t)
unfolding branches
branches-Ends t =
    let at : (b : Bool) → Ends Any (ok b) = λ b. returned tt in
    at _
    ▸ at _
    ▸ at _
    ▸ at _
    ▸ at _
    ▸ stands_alone-Ends _ t
    ▸ stands_alone-Ends _ t
    ▸ stands_alone-Ends _ t
    ▸ is_pair-Ends _ _ t
    ▸ is_other_pair-Ends _ _ t
    ▸ at _
    ▸ at _
    ▸ at _
    ▸ at _
    ▸ is_pair-Ends _ _ t
    ▸ at _
    ▸ at _
    ▸ at _
    ▸ at _
    ▸ is_numeric-Ends _
    ▸ is_identifier_begining-Ends _
    ▸ is_special-Ends _
    ▸ no_more

pub token_start-Ends : (t : Tokenizer) → Ends Any (token_start t)
unfolding token_start
token_start-Ends t = first_taken-Ends (branches t) (branches-Ends t)
