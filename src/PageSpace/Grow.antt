-- ===== src/PageSpace/Grow.antt =====
-- The invariant of a page space, and what an allocation in it does.
use native.Mathlib.Decide.{dec_lt}
use yet_another_smalltalk_vm.Base.{
  ℕ, ◌+◌, ◌*◌, ◌/◌, ◌%◌, ◌<◌, ◌≡◌, ◌⊎◌, refl, ap, true, false, ◌||◌, Bool, Option, none, some, inl,
  inr, List, [], ◌∷◌, ◌++◌, get_or-set, arith,
}
use yet_another_smalltalk_vm.Base.Result.{Run, ok, fault, assertion, ◌>>=◌, ◌>>◌, check}
use yet_another_smalltalk_vm.FreeList.{
  FreeSpace, FreeList, bucket, align, index_for_size, create_free_space, create_initial_free_space,
  add_free_space, expand_free_list, has_fit, try_allocate,
}
use yet_another_smalltalk_vm.FreeList.Accounting.{covers, free_at}
use yet_another_smalltalk_vm.FreeList.Allocate.{
  Allocated, IsShadowed, Outcome, IsRequest, try_allocate-Outcome,
}
use yet_another_smalltalk_vm.FreeList.Bucket.{add_free_space-IsValid, add_free_space-free_at}
use yet_another_smalltalk_vm.FreeList.Valid as Lists
use yet_another_smalltalk_vm.FreeList.Valid.{IsFit}
use yet_another_smalltalk_vm.PageSpace.{
  HeapPage, PageSpace, map_heap_page, includes, null_or_included, space_try_allocate,
  tail_executable, not_null, grow, page_space_allocate, default_size,
}

pub record IsValid (space : PageSpace) : Type 0 where
  pub list : Lists.IsValid space.free_list
  pub covered : (a : ℕ) → a % 16 ≡ 0 → 0 < free_at a space.free_list → includes space.pages a ≡ true
  pub executable : (b : Bool) × (tail_executable space.pages ≡ ok b)

-- `size` bytes at `p`, inside a page, have been taken out of bytes that are free as `before` says
pub record Taken (before : ℕ → ℕ) (size p : ℕ) (space' : PageSpace) : Type 0 where
  pub valid : IsValid space'
  pub aligned : p % 16 ≡ 0
  pub inside : includes space'.pages p ≡ true
  pub bytes : (a : ℕ) → before a ≡ free_at a space'.free_list + covers a p size

abbrev pub SpaceOutcome : PageSpace → ℕ → Run (Option ℕ × PageSpace) → Type 0
SpaceOutcome space size (ok (some p, space')) = Taken (λ a. free_at a space.free_list) size p space'
SpaceOutcome space size (ok (none, space')) =
    (space' ≡ space) × (has_fit size (bucket space.free_list 128) ≡ false)
SpaceOutcome space size (fault e) = (e ≡ assertion) × IsShadowed space.free_list size

module _ (space : PageSpace) (v : IsValid space) (size : ℕ) (r : IsRequest size) where
  taken :
      (p : ℕ) (fl : FreeList)
      → Allocated space.free_list size p fl
      → Taken (λ a. free_at a space.free_list) size p (record space { free_list = fl })
  taken p fl t = record {
    valid = record {
      list = t.valid;
      covered = λ a h pos. v.covered a h (omega (arith, t.bytes a));
      executable = v.executable;
    };
    aligned = t.aligned;
    inside = v.covered p t.aligned (ground (arith, t.bytes p, r.least));
    bytes = t.bytes;
  }

  checked :
      (o : Run (Option ℕ × FreeList))
      → Outcome space.free_list size o
      → SpaceOutcome space size (
          o >>= λ (p, fl).
          check (null_or_included space.pages p) >> ok (p, record space { free_list = fl }))
  checked (ok (some p, fl)) t = rw (taken p fl t).inside (taken p fl t)
  checked (ok (none, fl)) (same, unfit) = (ap (λ fl. record space { free_list = fl }) same, unfit)
  checked (fault e) s = s

  -- In a valid space an aligned request is met from the free list, or refused with the space as it
  -- was, or ends in the failed assertion of the free list.
  pub space_try_allocate-Outcome : SpaceOutcome space size (space_try_allocate space size)
  unfolding space_try_allocate
  space_try_allocate-Outcome = rw r.multiple (
      checked (try_allocate space.free_list size)
        (try_allocate-Outcome space.free_list v.list size r))

-- the free space of a new page
abbrev pub page_region : ℕ → FreeSpace
page_region start = record { addr = start + 48; size = 262096 }

module _ (start : ℕ) (h : start % 4096 ≡ 0) where
  abbrev pub new_page : Bool → HeapPage
  new_page executable = record {
    start = start;
    is_executable = executable;
    size = 262144;
    body_size = 262096;
    body = start + 40;
  }

  map-new_page : (b : Bool) → map_heap_page (some start) default_size b ≡ ok (new_page b)
  unfolding map_heap_page align
  map-new_page b = refl

  pub page_region-IsFit : IsFit 128 (page_region start)
  unfolding index_for_size
  page_region-IsFit = record {
    address = omega arith;
    aligned = refl;
    least = omega arith;
    narrow = omega arith;
    index = refl;
  }

  expand-page_region :
      (fl : FreeList)
      → expand_free_list fl (start + 40) 262096 ≡ ok (add_free_space fl (page_region start))
  unfolding expand_free_list create_initial_free_space create_free_space align
  expand-page_region fl =
      let e : (start + 40 + 15) / 16 * 16 ≡ start + 48 = omega arith in
      let m : (start + 48) % 16 ≡ 0 = omega arith in rw (e, m)

  pub page_region_inside :
      (a : ℕ) (b : Bool)
      → a % 16 ≡ 0
      → 0 < covers a (start + 48) 262096
      → includes (new_page b ∷ []) a ≡ true
  unfolding includes
  page_region_inside a b m pos = ground arith

includes-append :
    (ps qs : List HeapPage) (a : ℕ) → includes (ps ++ qs) a ≡ (includes ps a || includes qs a)
unfolding includes
includes-append [] qs a = refl
includes-append (p ∷ ps) qs a = ground (arith, includes-append ps qs a)

tail_executable-append :
    (ps : List HeapPage) (p : HeapPage) → tail_executable (ps ++ p ∷ []) ≡ ok p.is_executable
unfolding tail_executable
tail_executable-append [] p = refl
tail_executable-append (q ∷ []) p = refl
tail_executable-append (q ∷ r ∷ ps) p = tail_executable-append (r ∷ ps) p

module _ (space : PageSpace) (v : IsValid space) (start : ℕ) (h : start % 4096 ≡ 0) where
  abbrev grown : Bool → PageSpace
  grown b = record {
    pages = space.pages ++ new_page start h b ∷ [];
    free_list = add_free_space space.free_list (page_region start);
  }

  -- the free bytes, with `n` more bytes of a new page
  abbrev pub free_with : ℕ → ℕ → ℕ
  free_with n a = free_at a space.free_list + covers a (start + 48) n

  added :
      (a : ℕ) → free_at a (add_free_space space.free_list (page_region start)) ≡ free_with 262096 a
  added =
      add_free_space-free_at space.free_list (page_region start) (omega arith) v.list
        (page_region-IsFit start h)

  grown-IsValid : (b : Bool) → IsValid (grown b)
  grown-IsValid b = record {
    list =
        add_free_space-IsValid space.free_list (page_region start) (omega arith) v.list
          (page_region-IsFit start h);
    covered = λ a m pos.
        rw (includes-append space.pages (new_page start h b ∷ []) a)
          (elim (dec_lt 0 (covers a (start + 48) 262096)) [
            | yes new ↦ ground (arith, page_region_inside start h a b m new)
            | no old ↦ ground (arith, v.covered a m (omega (arith, added a)))
          ]);
    executable = (b, tail_executable-append space.pages (new_page start h b));
  }

  new_bucket :
      bucket (add_free_space space.free_list (page_region start)) 128
      ≡ page_region start ∷ bucket space.free_list 128
  unfolding add_free_space index_for_size
  new_bucket = get_or-set space.free_list.free_spaces 128 128 _ [] (omega (arith, v.list.buckets))

  module _ (size : ℕ) (r : IsRequest size) (room : size < 262096) where
    shown : has_fit size (page_region start ∷ bucket space.free_list 128) ≡ false → ⊥
    unfolding has_fit
    shown e = ground arith

    widen :
        (b : Bool) {p : ℕ} {space' : PageSpace}
        → Taken (λ a. free_at a (grown b).free_list) size p space'
        → Taken (free_with 262096) size p space'
    widen b t = record {
      valid = t.valid;
      aligned = t.aligned;
      inside = t.inside;
      bytes = λ a. omega (arith, added a, t.bytes a);
    }

    after_growth :
        (b : Bool) (o : Run (Option ℕ × PageSpace))
        → SpaceOutcome (grown b) size o
        → (p : ℕ) × (space' : PageSpace) × ((o >>= not_null) ≡ ok (p, space'))
          × Taken (free_with 262096) size p space'
    after_growth b (ok (some p, space')) t = (p, space', refl, widen b t)
    after_growth b (ok (none, space')) t = absurd (shown (rw new_bucket at t.1))
    after_growth b (fault e) t = absurd (ground (arith, new_bucket, t.1.first, t.1.short))

    -- With a new page at hand the second try succeeds.
    grow-Taken :
        (p : ℕ) × (space' : PageSpace) × (grow space (some start) size ≡ ok (p, space'))
        × Taken (free_with 262096) size p space'
    unfolding grow
    grow-Taken =
        let (b, runs) = v.executable in
        rw (runs, map-new_page start h b, expand-page_region start h space.free_list)
          (after_growth b _ (space_try_allocate-Outcome (grown b) (grown-IsValid b) size r))

    -- the result and what it was taken from: the free bytes, or these and a new page's
    abbrev pub Succeeds : Run (ℕ × PageSpace) → Type 0
    Succeeds o =
        (p : ℕ) × (space' : PageSpace) × (n : ℕ) × (o ≡ ok (p, space'))
        × Taken (free_with n) size p space'
        × ((n ≡ 0) ⊎ (n ≡ 262096))

    unwiden :
        {p : ℕ} {space' : PageSpace}
        → Taken (λ a. free_at a space.free_list) size p space'
        → Taken (free_with 0) size p space'
    unwiden t = record {
      valid = t.valid;
      aligned = t.aligned;
      inside = t.inside;
      bytes = λ a. ground (arith, t.bytes a);
    }

    first_try :
        (o : Run (Option ℕ × PageSpace))
        → SpaceOutcome space size o
        → ((o ≡ fault assertion) × IsShadowed space.free_list size)
          ⊎ Succeeds (
              o >>= λ (p, space'). elim p [
                | none ↦ grow space' (some start) size
                | some q ↦ ok (q, space')
              ])
    first_try (ok (some p, space')) t = inr (p, space', 0, refl, unwiden t, inl refl)
    first_try (ok (none, space')) (same, unfit) =
        let (p, space'', runs, t) = grow-Taken in
        inr (p, space'', 262096, rw same runs, t, inr refl)
    first_try (fault e) (same, s) = inl (ap fault same, s)

    -- `pageSpaceAllocate` of less than a page's space, with a valid space and a page from `mmap` if
    -- it is called: it returns an aligned address inside a page, the invariant is kept, and the
    -- bytes that were free, with those of the new page if one was mapped, are the bytes of the
    -- region and those free after; or an assertion fails, and then the last bucket holds a fitting
    -- space behind a first one that does not exceed the request.
    pub page_space_allocate-Taken :
        ((page_space_allocate space (some start) size ≡ fault assertion)
          × IsShadowed space.free_list size)
        ⊎ Succeeds (page_space_allocate space (some start) size)
    unfolding page_space_allocate
    page_space_allocate-Taken =
        elim (first_try (space_try_allocate space size)
          (space_try_allocate-Outcome space v size r)) [
            | inl (e, s) ↦ inl (rw e refl, s)
            | inr t ↦ inr t
          ]
