-- ===== src/Handles.antt =====
-- vm/Handle.c and vm/Handle.h: the handles of a thread, which keep objects alive. The persistent
-- handles are nodes of a list linked by addresses, in a store; the scopes are a list, the open one
-- first. `malloc` gives the address of a new handle and is assumed to succeed.
pub mod Chain
pub mod Scopes
use yet_another_smalltalk_vm.Base.{
  ℕ, zero, suc, ◌+◌, Bool, true, false, not, Option, none, some, List, [], ◌∷◌, ◌++◌, ◌==◌, ltb,
  if◌then◌else◌, length,
}
use yet_another_smalltalk_vm.Base.Result.{
  Run, ok, fault, assertion, out_of_bounds, out_of_fuel, ◌>>=◌, ◌>>◌, check,
}
use yet_another_smalltalk_vm.Object.{as_object}

pub record Handle : Type 0 where
  pub object : ℕ
  pub prev : Option ℕ
  pub next : Option ℕ

-- `used` and `handles` are the `size` of a scope and the objects below it.
pub record HandleScope : Type 0 where
  pub address : ℕ
  pub handles : List ℕ

pub record Thread : Type 0 where
  pub memory : ℕ → Option Handle
  pub handles : Option ℕ
  pub handle_scopes : List HandleScope
  pub context : ℕ

abbrev pub write : ℕ → Option Handle → (ℕ → Option Handle) → ℕ → Option Handle
write p h memory a = if a == p then h else memory a

unfoldable pub handle_at : (ℕ → Option Handle) → ℕ → Run Handle
handle_at memory p = elim (memory p) [ none ↦ fault out_of_bounds | some h ↦ ok h ]

-- `handle`, where `malloc` gives `p`
unfoldable pub handle : ℕ → ℕ → Thread → Thread
handle p object t = record t {
  memory = write p (some (record { object = object; prev = none; next = t.handles })) t.memory;
  handles = some p;
}

unfoldable pub free_handle : ℕ → Thread → Run Thread
free_handle p t = do
  h ← handle_at t.memory p
  t' ← elim h.prev [
    | some q ↦ handle_at t.memory q >>= λ before.
        ok (record t { memory = write q (some (record before { next = h.next })) t.memory })
    | none ↦ ok (record t { handles = h.next })
  ]
  ok (record t' { memory = write p none t'.memory })

-- The loop of `freeHandles`, on fuel.
unfoldable pub free_all : ℕ → Option ℕ → (ℕ → Option Handle) → Run (ℕ → Option Handle)
free_all n none memory = ok memory
free_all zero (some p) memory = fault out_of_fuel
free_all (suc n) (some p) memory =
    handle_at memory p >>= λ h. free_all n h.next (write p none memory)

unfoldable pub free_handles : ℕ → Thread → Run Thread
free_handles n t =
    free_all n t.handles t.memory >>= λ memory. ok (record t { memory = memory; handles = none })

-- The loop over a `HandlesIterator`, on fuel: the objects of the handles.
unfoldable pub iterate_handles : ℕ → (ℕ → Option Handle) → Option ℕ → Run (List ℕ)
iterate_handles n memory none = ok []
iterate_handles zero memory (some p) = fault out_of_fuel
iterate_handles (suc n) memory (some p) = do
  h ← handle_at memory p
  rest ← iterate_handles n memory h.next
  ok (h.object ∷ rest)

-- `openHandleScope`; the caller has the scope on its stack at `address`.
unfoldable pub open_handle_scope : ℕ → Thread → Thread
open_handle_scope address t = record t {
  handle_scopes = (record { address = address; handles = [] }) ∷ t.handle_scopes;
}

-- `scopeHandle`
unfoldable pub scope_handle : ℕ → Thread → Run Thread
scope_handle object t = elim t.handle_scopes [
  | [] ↦ fault assertion
  | scope ∷ scopes ↦
      check (ltb (length scope.handles) 256)
      >> ok (record t {
        handle_scopes = (record scope { handles = scope.handles ++ object ∷ [] }) ∷ scopes;
      })
]

-- `closeHandleScope`, with the object of the handle that it returns
unfoldable pub close_handle_scope : ℕ → Option ℕ → Thread → Run Thread
close_handle_scope address result t = elim t.handle_scopes [
  | [] ↦ fault assertion
  | scope ∷ scopes ↦
      check (scope.address == address)
      >> (let t' = record t { handle_scopes = scopes } in
          elim result [ none ↦ ok t' | some object ↦ scope_handle object t' ])
]

-- The loop over a `HandleScopeIterator`.
abbrev pub scope_objects : List HandleScope → List ℕ
scope_objects [] = []
scope_objects (scope ∷ scopes) = scope.handles ++ scope_objects scopes

-- The objects that `iterateHandles` of vm/GarbageCollector.c marks, in its order.
unfoldable pub handle_roots : ℕ → Thread → Run (List ℕ)
handle_roots n t = do
  objects ← iterate_handles n t.memory t.handles
  context ← (if t.context == 0 then ok [] else (as_object t.context >>= λ c. ok (c ∷ [])))
  ok (objects ++ (scope_objects t.handle_scopes ++ context))
