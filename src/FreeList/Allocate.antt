-- ===== src/FreeList/Allocate.antt =====
-- What `freeListTryAllocate` does on every branch: an aligned region taken out of the free bytes,
-- NULL, or the failed assertion of `splitFreeSpace`.
use native.Mathlib.Decide.{dec_lt}
use yet_another_smalltalk_vm.Base.{
  ℕ, ◌+◌, ◌-◌, ◌/◌, ◌%◌, ◌≤◌, ◌<◌, ◌≡◌, refl, sym, not, true, false, ◌==◌, ◌&&◌, ltb, Bool-cases,
  Option, none, some, inl, inr, List, [], ◌∷◌, get_elem?-eq-get_or, arith,
}
use yet_another_smalltalk_vm.Base.Result.{Run, ok, fault, assertion, ◌>>◌, check}
use yet_another_smalltalk_vm.FreeList.{
  FreeSpace, FreeList, bucket, is_marked, is_nil, index_for_size, create_free_space, add_free_space,
  unlink, pop_free_space, split_free_space, pop_and_split_free_space, has_fit, found,
  allocate_large, allocate_larger, try_allocate,
}
use yet_another_smalltalk_vm.FreeList.Accounting.{covers, free_at, covers-split}
use yet_another_smalltalk_vm.FreeList.Bucket.{
  add_free_space-IsValid, add_free_space-free_at, unlink-IsValid, unlink-free_at,
}
use yet_another_smalltalk_vm.FreeList.Scan.{Finds, IsFound, free_map_next-Finds}
use yet_another_smalltalk_vm.FreeList.Valid.{IsFit, AllFit, IsValid}

-- `size` bytes at `p` have been taken out of the free bytes of `fl`
pub record Allocated (fl : FreeList) (size p : ℕ) (fl' : FreeList) : Type 0 where
  pub valid : IsValid fl'
  pub aligned : p % 16 ≡ 0
  pub bytes : (a : ℕ) → free_at a fl ≡ free_at a fl' + covers a p size

-- the last bucket holds a space that fits, and begins with one that does not
pub record IsShadowed (fl : FreeList) (size : ℕ) : Type 0 where
  pub head : FreeSpace
  pub next : List FreeSpace
  pub first : bucket fl 128 ≡ head ∷ next
  pub short : head.size ≤ size
  pub fits : has_fit size (bucket fl 128) ≡ true

abbrev pub Outcome : FreeList → ℕ → Run (Option ℕ × FreeList) → Type 0
Outcome fl size (ok (some p, fl')) = Allocated fl size p fl'
Outcome fl size (ok (none, fl')) = (fl' ≡ fl) × (has_fit size (bucket fl 128) ≡ false)
Outcome fl size (fault e) = (e ≡ assertion) × IsShadowed fl size

-- what an allocation asks for
pub record IsRequest (size : ℕ) : Type 0 where
  pub multiple : size % 16 ≡ 0
  pub least : 16 ≤ size

pub index_for_size-le : (size : ℕ) → index_for_size size ≤ 128
unfolding index_for_size
index_for_size-le size = ground arith

size_of_index : (size i : ℕ) → index_for_size size ≡ i → i < 128 → size / 16 ≡ i
unfolding index_for_size
size_of_index size i h lt = ground arith

fit_not_nil : (size : ℕ) (b : List FreeSpace) → has_fit size b ≡ true → is_nil b ≡ false
unfolding has_fit
fit_not_nil size [] h = cc
fit_not_nil size (s ∷ r) h = refl

module _ (fl : FreeList) (v : IsValid fl) where
  module _ (i : ℕ) (hi : i ≤ 128) (s : FreeSpace) (next : List FreeSpace)
      (head : bucket fl i ≡ s ∷ next) where
    pub pop_free_space-head : pop_free_space fl i ≡ ok (s, unlink fl i next)
    unfolding pop_free_space
    pop_free_space-head =
        ground (arith, get_elem?-eq-get_or fl.free_spaces i [] (omega (arith, v.buckets)), head)

    pub head-IsFit_of : IsFit i s
    head-IsFit_of = let fits : AllFit i (s ∷ next) = rw head at (v.sized i hi) in fits.0

    module _ (size : ℕ) (r : IsRequest size) (more : size < s.size) where
      abbrev rest : FreeSpace
      rest = record { addr = s.addr + size; size = s.size - size }

      rest-IsFit : IsFit (index_for_size (s.size - size)) rest
      rest-IsFit = record {
        address = omega (arith, head-IsFit_of.address, r.multiple);
        aligned = omega (arith, head-IsFit_of.aligned, r.multiple);
        least = omega (arith, head-IsFit_of.aligned, r.multiple);
        narrow = omega (arith, head-IsFit_of.narrow);
        index = refl;
      }

      abbrev after : FreeList
      after = add_free_space (unlink fl i next) rest

      split-after : pop_and_split_free_space fl i size ≡ ok (s.addr, after)
      unfolding pop_and_split_free_space split_free_space create_free_space
      split-after = rw pop_free_space-head (
          ground
            (arith, rest-IsFit.address, rest-IsFit.aligned, rest-IsFit.least, rest-IsFit.narrow))

      after-Allocated : Allocated fl size s.addr after
      after-Allocated = record {
        valid =
            add_free_space-IsValid (unlink fl i next) rest (index_for_size-le _)
              (unlink-IsValid fl s hi v next head) rest-IsFit;
        aligned = head-IsFit_of.address;
        bytes = λ a. omega (
          arith,
          unlink-free_at fl s hi v next head a,
          covers-split a s.addr size s.size,
          add_free_space-free_at (unlink fl i next) rest (index_for_size-le _)
              (unlink-IsValid fl s hi v next head) rest-IsFit a,
        );
      }

      found-Outcome : Outcome fl size (found (pop_and_split_free_space fl i size))
      found-Outcome = rw split-after after-Allocated

    short_split :
        (size : ℕ) → s.size ≤ size → found (pop_and_split_free_space fl i size) ≡ fault assertion
    unfolding pop_and_split_free_space split_free_space
    short_split size h = rw pop_free_space-head (ground arith)

    -- An exact fit is taken whole.
    exact-Allocated :
        (size : ℕ)
        → IsRequest size
        → i < 128
        → index_for_size size ≡ i
        → Allocated fl size s.addr (unlink fl i next)
    exact-Allocated size r lt e =
        let fit = head-IsFit_of in
        let same : s.size ≡ size = omega (
          arith,
          size_of_index s.size i fit.index lt,
          size_of_index size i e lt,
          fit.aligned,
          r.multiple,
        ) in
        record {
          valid = unlink-IsValid fl s hi v next head;
          aligned = fit.address;
          bytes = λ a. sym (rw same at (unlink-free_at fl s hi v next head a));
        }

  head_of :
      (b : List FreeSpace)
      → is_nil b ≡ false
      → (s : FreeSpace) × (next : List FreeSpace) × (b ≡ s ∷ next)
  head_of [] h = absurd (cc)
  head_of (s ∷ next) h = (s, next, refl)

  marked_head :
      (i : ℕ)
      → i < 128
      → is_marked fl i ≡ true
      → (s : FreeSpace) × (next : List FreeSpace) × (bucket fl i ≡ s ∷ next)
  marked_head i h m = head_of (bucket fl i) (ground (arith, v.marks i h))

  module _ (size : ℕ) (r : IsRequest size) where
    large-Outcome : Outcome fl size (allocate_large fl size)
    unfolding allocate_large
    large-Outcome = elim (Bool-cases (has_fit size (bucket fl 128))) [
      | inr nothing ↦ rw nothing (refl, nothing)
      | inl fits ↦
          let (s, next, first) = head_of (bucket fl 128) (fit_not_nil size (bucket fl 128) fits) in
          rw fits (elim (dec_lt size s.size) [
            | yes more ↦ found-Outcome 128 (omega arith) s next first size r more
            | no short ↦ rw (short_split 128 (omega arith) s next first size (omega arith)) (
              refl,
              record { head = s; next = next; first = first; short = omega arith; fits = fits },
            )
          ])
    ]

    -- A marked bucket above the request's own holds only spaces that are larger.
    larger-Outcome :
        (j : ℕ)
        → IsFound fl (index_for_size size + 1) j
        → Outcome fl size (found (pop_and_split_free_space fl j size))
    larger-Outcome j f =
        let (s, next, first) = marked_head j f.small f.marked in
        let fit = head-IsFit_of j (omega (arith, f.small)) s next first in
        let more : size < s.size = omega (
          arith,
          size_of_index s.size j fit.index f.small,
          f.above,
          size_of_index size (index_for_size size) refl (omega (arith, f.above, f.small)),
        ) in
        found-Outcome j (omega (arith, f.small)) s next first size r more

    larger_or_large :
        (o : Option ℕ)
        → Finds fl (index_for_size size + 1) o
        → Outcome fl size (elim o [
          | some j ↦
              check (ltb (index_for_size size) j) >> found (pop_and_split_free_space fl j size)
          | none ↦ allocate_large fl size
        ])
    larger_or_large none f = large-Outcome
    larger_or_large (some j) f =
        let above : ltb (index_for_size size) j ≡ true = ground (arith, f.above) in
        rw above (larger-Outcome j f)

    allocate_larger-Outcome : Outcome fl size (allocate_larger fl (index_for_size size) size)
    unfolding allocate_larger
    allocate_larger-Outcome = elim (Bool-cases (ltb (index_for_size size + 1) 128)) [
      | inl low ↦
          let (o, runs, f) = free_map_next-Finds v.map (index_for_size size + 1) (ground arith) in
          rw (low, runs) (larger_or_large o f)
      | inr high ↦ rw high large-Outcome
    ]

    -- Of a valid list and an aligned request, `freeListTryAllocate` either returns an aligned
    -- region, and the bytes free before are those of the region and those free after, with the
    -- invariant kept; or it returns NULL, changes nothing, and no space of the last bucket fits;
    -- or an assertion fails, and then the last bucket holds a space that fits, behind a first
    -- space that does not exceed the request.
    pub try_allocate-Outcome : Outcome fl size (try_allocate fl size)
    unfolding try_allocate
    try_allocate-Outcome =
        let index = index_for_size size in
        elim (Bool-cases (not (index == 128) && is_marked fl index)) [
          | inl exact ↦
              let low : index < 128 = ground (arith, index_for_size-le size) in
              let (s, next, first) = marked_head index low (ground arith) in
              rw (exact, pop_free_space-head index (omega arith) s next first)
                (exact-Allocated index (omega arith) s next first size r low refl)
          | inr other ↦ rw other allocate_larger-Outcome
        ]
