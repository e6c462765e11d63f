-- ===== src/Handles/Scopes.antt =====
-- The scopes of handles of vm/Handle.h are opened and closed in pairs.
use yet_another_smalltalk_vm.Base.{
  ℕ, suc, ◌+◌, ◌≤◌, ◌<◌, ◌≡◌, refl, ◌∙◌, true, false, Option, none, some, List, [], ◌∷◌, ◌++◌,
  ==_refl, ltb, leb, if◌then◌else◌, length, length-append, append-nil, append_assoc, Bool-cases,
  inl, inr, arith,
}
use yet_another_smalltalk_vm.Base.Result.{Run, ok, fault, assertion, ◌>>=◌}
use yet_another_smalltalk_vm.Handles.{
  HandleScope, Thread, open_handle_scope, scope_handle, close_handle_scope,
}

-- `scopeHandle` of each object in turn
abbrev pub scope_handles : List ℕ → Thread → Run Thread
scope_handles [] t = ok t
scope_handles (object ∷ objects) t = scope_handle object t >>= scope_handles objects

-- What a function returns from its scope: nothing, or one handle in the scope of its caller.
abbrev pub returned : Option ℕ → Thread → Run Thread
returned none t = ok t
returned (some object) t = scope_handle object t

abbrev scoped : Thread → ℕ → List ℕ → List HandleScope → Thread
scoped t address handles scopes = record t {
  handle_scopes = (record { address = address; handles = handles }) ∷ scopes;
}

scope_handle-room :
    (t : Thread) (address object : ℕ) (handles : List ℕ) (scopes : List HandleScope)
    → length handles < 256
    → scope_handle object (scoped t address handles scopes)
      ≡ ok (scoped t address (handles ++ object ∷ []) scopes)
unfolding scope_handle
scope_handle-room t address object handles scopes lt =
    let room : ltb (length handles) 256 ≡ true = ground arith in rw (room, scope_handle) refl

scope_handle-full :
    (t : Thread) (address object : ℕ) (handles : List ℕ) (scopes : List HandleScope)
    → 256 ≤ length handles
    → scope_handle object (scoped t address handles scopes) ≡ fault assertion
unfolding scope_handle
scope_handle-full t address object handles scopes le =
    let full : ltb (length handles) 256 ≡ false = ground arith in rw (full, scope_handle) refl

scope_handles-all :
    (t : Thread) (address : ℕ) (scopes : List HandleScope) (objects handles : List ℕ)
    → length handles ≤ 256
    → scope_handles objects (scoped t address handles scopes) ≡ (
        if leb (length handles + length objects) 256
        then ok (scoped t address (handles ++ objects) scopes)
        else fault assertion)
scope_handles-all t address scopes [] handles le =
    let fits : leb (length handles + 0) 256 ≡ true = ground arith in
    rw (fits, append-nil handles) refl
scope_handles-all t address scopes (object ∷ objects) handles le =
    elim (Bool-cases (ltb (length handles) 256)) [
      | inl room ↦
          let one = length-append handles (object ∷ []) in
          let rest =
            scope_handles-all t address scopes objects (handles ++ object ∷ [])
              (ground (arith, one)) in
          let sum : length (handles ++ object ∷ []) + length objects
              ≡ length handles + suc (length objects) =
            omega (arith, one) in
          rw (scope_handle-room t address object handles scopes (ground arith))
            (rest ∙ rw (sum, append_assoc handles (object ∷ []) objects) refl)
      | inr full ↦
          let over : leb (length handles + suc (length objects)) 256 ≡ false = ground arith in
          rw (scope_handle-full t address object handles scopes (ground arith), over) refl
    ]

close_returned :
    (t : Thread) (address : ℕ) (handles : List ℕ) (result : Option ℕ)
    → close_handle_scope address result (scoped t address handles t.handle_scopes)
      ≡ returned result t
unfolding close_handle_scope
close_returned t address handles none = rw (==_refl address, close_handle_scope) refl
close_returned t address handles (some object) = rw (==_refl address, close_handle_scope) refl

-- A scope that is opened, given up to 256 handles and closed leaves the thread as it was but for the handle that it returns, which the scope around it takes; with more handles the assertion of scopeHandle fails.
pub close_handle_scope-returned :
    (t : Thread) (address : ℕ) (objects : List ℕ) (result : Option ℕ)
    → (scope_handles objects (open_handle_scope address t) >>= close_handle_scope address result)
      ≡ (if leb (length objects) 256 then returned result t else fault assertion)
unfolding open_handle_scope
close_handle_scope-returned t address objects result =
    let all = scope_handles-all t address t.handle_scopes objects [] (omega arith) in
    let sum : 0 + length objects ≡ length objects = omega arith in
    elim (Bool-cases (leb (length objects) 256)) [
      | inl h ↦ rw (all, sum, h) (close_returned t address objects result)
      | inr h ↦ rw (all, sum, h) refl
    ]
