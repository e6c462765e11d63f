-- ===== src/Handles/Chain.antt =====
-- The list of persistent handles of vm/Handle.c.
use yet_another_smalltalk_vm.Base.{
  ℕ, ◌≡◌, refl, ap, false, Option, none, some, List, [], ◌∷◌, ◌++◌, ◌==◌, ==_refl, ==_iff, length,
  Bool-cases, inl, inr, arith,
}
use yet_another_smalltalk_vm.Base.Counts.{count}
use yet_another_smalltalk_vm.Base.Result.{ok}
use yet_another_smalltalk_vm.Handles.{
  Handle, Thread, write, handle_at, handle, free_handle, iterate_handles,
}

abbrev pub addresses : List (ℕ × ℕ) → List ℕ
addresses [] = []
addresses ((p, object) ∷ xs) = p ∷ addresses xs

abbrev pub objects_in : List (ℕ × ℕ) → List ℕ
objects_in [] = []
objects_in ((p, object) ∷ xs) = object ∷ objects_in xs

-- The handles from a pointer on, with their objects. None has a `prev`, as `handle` leaves it.
pub data IsChain (memory : ℕ → Option Handle) : Option ℕ → List (ℕ × ℕ) → Type 0 where
  end : IsChain memory none []
  link :
      {p object : ℕ} {next : Option ℕ} {xs : List (ℕ × ℕ)}
      → memory p ≡ some (record { object = object; prev = none; next = next })
      → count p (addresses xs) ≡ 0
      → IsChain memory next xs
      → IsChain memory (some p) ((p, object) ∷ xs)

write-other :
    (memory : ℕ → Option Handle) (k : ℕ) (h : Option Handle) (o : Option ℕ) (ys : List (ℕ × ℕ))
    → count k (addresses ys) ≡ 0
    → IsChain memory o ys
    → IsChain (write k h memory) o ys
write-other memory k h o ys away end = end
write-other memory k h o ys away (link {p} {object} {next} {xs} found fresh rest) =
    let apart : (p == k) ≡ false = ground arith in
    link (rw apart found) fresh (write-other memory k h next xs (ground arith) rest)

fresh_address :
    (memory : ℕ → Option Handle) (k : ℕ) (o : Option ℕ) (ys : List (ℕ × ℕ))
    → memory k ≡ none
    → IsChain memory o ys
    → count k (addresses ys) ≡ 0
fresh_address memory k o ys free end = omega arith
fresh_address memory k o ys free (link {p} {object} {next} {xs} found fresh rest) =
    let later = fresh_address memory k next xs free rest in
    elim (Bool-cases (k == p)) [
      | inl h ↦ let same = ap memory ((==_iff k p).0 h) in absurd (cc (same, found, free))
      | inr h ↦ ground (arith, later)
    ]

-- When malloc gives a free address, handle puts the new handle before the others.
pub handle-IsChain :
    (p object : ℕ) (t : Thread) (xs : List (ℕ × ℕ))
    → t.memory p ≡ none
    → IsChain t.memory t.handles xs
    → let t' = handle p object t in IsChain t'.memory t'.handles ((p, object) ∷ xs)
unfolding handle
handle-IsChain p object t xs free chain =
    let away = fresh_address t.memory p t.handles xs free chain in
    link (rw (==_refl p) refl) away (write-other t.memory p _ t.handles xs away chain)

-- The loop over the handles gives their objects, the newest first.
pub iterate_handles-objects :
    (memory : ℕ → Option Handle) (o : Option ℕ) (xs : List (ℕ × ℕ))
    → IsChain memory o xs
    → iterate_handles (length xs) memory o ≡ ok (objects_in xs)
unfolding iterate_handles handle_at
iterate_handles-objects memory o xs end = refl
iterate_handles-objects memory o ys (link {p} {object} {next} {xs} found fresh rest) =
    rw (found, handle_at, iterate_handles) (rw (iterate_handles-objects memory next xs rest) refl)

-- the first handle of a chain
record Head (memory : ℕ → Option Handle) (p object : ℕ) (older : List (ℕ × ℕ)) : Type 0 where
  next : Option ℕ
  found : memory p ≡ some (record { object = object; prev = none; next = next })
  fresh : count p (addresses older) ≡ 0
  rest : IsChain memory next older

Head-append :
    (memory : ℕ → Option Handle) (o : Option ℕ) (newer : List (ℕ × ℕ)) (k object : ℕ)
    (older : List (ℕ × ℕ))
    → IsChain memory o (newer ++ (k, object) ∷ older)
    → Head memory k object older
Head-append memory o [] k object older (link {next = next} found fresh rest) = record {
  next = next;
  found = found;
  fresh = fresh;
  rest = rest;
}
Head-append memory o (x ∷ newer) k object older (link {next = next} found fresh rest) =
    Head-append memory next newer k object older rest

free_chain :
    (t : Thread) (p object : ℕ) (older : List (ℕ × ℕ))
    → Head t.memory p object older
    → (t' : Thread) × (free_handle p t ≡ ok t') × IsChain t'.memory t'.handles older
unfolding free_handle handle_at
free_chain t p object older h = (
  record t { memory = write p none t.memory; handles = h.next },
  rw (h.found, free_handle, handle_at) refl,
  write-other t.memory p none h.next older h.fresh h.rest,
)

-- freeHandle leaves only the handles older than the one it frees in the list of the thread: the newer ones are not in it any more, since no handle has a `prev`.
pub free_handle-older :
    (t : Thread) (newer : List (ℕ × ℕ)) (p object : ℕ) (older : List (ℕ × ℕ))
    → IsChain t.memory t.handles (newer ++ (p, object) ∷ older)
    → (t' : Thread) × (free_handle p t ≡ ok t')
      × IsChain t'.memory t'.handles older
      × (iterate_handles (length older) t'.memory t'.handles ≡ ok (objects_in older))
free_handle-older t newer p object older chain =
    let (t', e, left) =
      free_chain t p object older (Head-append t.memory t.handles newer p object older chain) in
    (t', e, left, iterate_handles-objects t'.memory t'.handles older left)
