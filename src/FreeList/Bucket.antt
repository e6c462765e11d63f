-- ===== src/FreeList/Bucket.antt =====
-- One bucket and its bit are changed together: `freeListAddFreeSpace` and `popFreeSpace` keep the
-- invariant and account for their space.
use yet_another_smalltalk_vm.Base.{
  ℕ, ◌+◌, ◌/◌, ◌%◌, ◌≤◌, ◌<◌, ◌≡◌, ap, inl, inr, Bool-cases, ◌∙◌, not, true, ◌==◌, List, [], ◌∷◌,
  if◌then◌else◌, set, length-set, get_or-set, set-get_or, arith,
}
use yet_another_smalltalk_vm.Base.Bits.{
  has_bit, set_bit, clear_bit, set_bit-lt, clear_bit-lt, has_bit-set_bit, has_bit-clear_bit,
}
use yet_another_smalltalk_vm.FreeList.{
  FreeSpace, FreeList, bucket, map_byte, is_marked, is_nil, add_free_space, unlink,
}
use yet_another_smalltalk_vm.FreeList.Accounting.{covers, free_in, free_at, free_in_all-set}
use yet_another_smalltalk_vm.FreeList.Bitmap.{bit_zero_top}
use yet_another_smalltalk_vm.FreeList.Valid.{IsFit, AllFit, IsValid}

module _ (fl : FreeList) (i : ℕ) (hi : i ≤ 128) where
  -- the list with the byte of `i` replaced by `b`, and its bucket by `c`
  abbrev with_bucket : ℕ → List FreeSpace → FreeList
  with_bucket b c = record fl {
    free_spaces = set fl.free_spaces i c;
    free_map = set fl.free_map (i / 8) b;
  }

  module _ (v : IsValid fl) (b : ℕ) (c : List FreeSpace) where
    byte_with : (e : ℕ) → map_byte (with_bucket b c) e ≡ (if i / 8 == e then b else map_byte fl e)
    byte_with e = get_or-set fl.free_map (i / 8) e b fl.past (omega (arith, v.map.bytes))

    bucket_with : (j : ℕ) → bucket (with_bucket b c) j ≡ (if i == j then c else bucket fl j)
    bucket_with j = get_or-set fl.free_spaces i j c [] (omega (arith, v.buckets))

    sized_with : (j : ℕ) → j ≤ 128 → AllFit i c → AllFit j (if i == j then c else bucket fl j)
    sized_with j h fit = elim (Bool-cases (i == j)) [
      | inl same ↦ let e : i ≡ j = ground arith in rw (same, ← e) fit
      | inr other ↦ rw other (v.sized j h)
    ]

    -- a change of one bit keeps the invariant if the bit is right for the new bucket
    with_bucket-IsValid :
        b < 256
        → (i ≡ 128 → b < 2)
        → ((j : ℕ)
            → j < 128
            → i / 8 ≡ j / 8
            → has_bit b (j % 8) ≡ (if i == j then not (is_nil c) else is_marked fl j))
        → AllFit i c
        → IsValid (with_bucket b c)
    with_bucket-IsValid hb top marks fit = record {
      buckets = length-set fl.free_spaces i c ∙ v.buckets;
      map = record {
        bytes = length-set fl.free_map (i / 8) b ∙ v.map.bytes;
        small = λ e. rw (byte_with e) (ground (arith, v.map.small e));
        top = rw (byte_with 16) (ground (arith, v.map.top));
        beyond = λ e h. rw (byte_with e) (ground (arith, v.map.beyond e));
      };
      marks = λ j h. rw (byte_with (j / 8), bucket_with j) (ground (arith, marks j h, v.marks j h));
      sized = λ j h. rw (bucket_with j) (sized_with j h fit);
    }

    -- a byte is as often free as before, but for the old and the new bucket
    with_bucket-free_at :
        (a : ℕ) → free_at a (with_bucket b c) + free_in a (bucket fl i) ≡ free_at a fl + free_in a c
    with_bucket-free_at a = free_in_all-set a fl.free_spaces i c (omega (arith, v.buckets))

module _ (fl : FreeList) (s : FreeSpace) {i : ℕ} (hi : i ≤ 128) (v : IsValid fl) where
  small : map_byte fl (i / 8) < 256
  small = v.map.small (i / 8)

  column : i % 8 < 8
  column = omega arith

  add_free_space-with_bucket :
      IsFit i s
      → add_free_space fl s
        ≡ with_bucket fl i hi (set_bit (map_byte fl (i / 8)) (i % 8)) (s ∷ bucket fl i)
  unfolding add_free_space
  add_free_space-with_bucket fit = rw fit.index

  pub add_free_space-IsValid : IsFit i s → IsValid (add_free_space fl s)
  add_free_space-IsValid fit = rw (add_free_space-with_bucket fit) (
      with_bucket-IsValid fl i hi v _ _ (set_bit-lt _ _ small column)
        (λ e. rw e (bit_zero_top _ v.map.top).0)
        (λ j h e. rw (has_bit-set_bit _ _ small column (j % 8) (omega arith), e) (ground arith))
        (fit, v.sized i hi))

  pub add_free_space-free_at :
      IsFit i s → (a : ℕ) → free_at a (add_free_space fl s) ≡ free_at a fl + covers a s.addr s.size
  add_free_space-free_at fit a = rw (add_free_space-with_bucket fit) (
      omega (
        arith,
        with_bucket-free_at fl i hi v (set_bit (map_byte fl (i / 8)) (i % 8)) (s ∷ bucket fl i) a,
      ))

  module _ (next : List FreeSpace) (head : bucket fl i ≡ s ∷ next) where
    byte_left : ℕ
    byte_left = if is_nil next then clear_bit (map_byte fl (i / 8)) (i % 8) else map_byte fl (i / 8)

    unlink-with_bucket : unlink fl i next ≡ with_bucket fl i hi byte_left next
    unfolding byte_left
    unlink-with_bucket = ground (arith, set-get_or fl.free_map (i / 8) fl.past)

    head-IsFit : AllFit i (s ∷ next)
    head-IsFit = rw head at (v.sized i hi)

    marked_head : i < 128 → is_marked fl i ≡ true
    marked_head h = v.marks i h ∙ ap (λ b. not (is_nil b)) head

    byte_left_bit :
        (j : ℕ)
        → j < 128
        → i / 8 ≡ j / 8
        → has_bit byte_left (j % 8) ≡ (if i == j then not (is_nil next) else is_marked fl j)
    unfolding byte_left
    byte_left_bit j h e =
        let cleared = has_bit-clear_bit _ _ small column (j % 8) (omega arith) in
        let same : has_bit (map_byte fl (i / 8)) (j % 8) ≡ is_marked fl j = rw e in
        elim (Bool-cases (i == j)) [
          | inl at ↦
              let e' : i ≡ j = ground arith in
              let marked : is_marked fl j ≡ true = rw e' at (marked_head (omega arith)) in
              ground (arith, cleared, same, marked)
          | inr off ↦ ground (arith, cleared, same)
        ]

    pub unlink-IsValid : IsValid (unlink fl i next)
    unfolding byte_left
    unlink-IsValid = rw unlink-with_bucket (
        with_bucket-IsValid fl i hi v _ _ (ground (arith, small, clear_bit-lt _ _ small column))
          (λ e. rw e (ground (arith, v.map.top, (bit_zero_top _ v.map.top).1))) byte_left_bit
          head-IsFit.1)

    pub unlink-free_at :
        (a : ℕ) → free_at a (unlink fl i next) + covers a s.addr s.size ≡ free_at a fl
    unlink-free_at a =
        omega (arith, with_bucket-free_at fl i hi v byte_left next a, ap (free_in a) head)
