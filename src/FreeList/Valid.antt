-- ===== src/FreeList/Valid.antt =====
-- The representation invariant of a `FreeList`: the map marks exactly the small buckets that hold
-- a space, and each space stands in the bucket for its size.
use yet_another_smalltalk_vm.Base.{ℕ, ◌%◌, ◌^◌, ◌≤◌, ◌<◌, ◌≡◌, not, List, [], ◌∷◌, length}
use yet_another_smalltalk_vm.FreeList.{
  FreeSpace, FreeList, bucket, map_byte, is_marked, is_nil, index_for_size,
}

-- a well-formed space in the bucket with index `i`
pub record IsFit (i : ℕ) (s : FreeSpace) : Type 0 where
  pub address : s.addr % 16 ≡ 0
  pub aligned : s.size % 16 ≡ 0
  pub least : 16 ≤ s.size
  pub narrow : s.size < 2 ^ 56
  pub index : index_for_size s.size ≡ i

abbrev pub AllFit : ℕ → List FreeSpace → Type 0
AllFit i [] = Unit {0}
AllFit i (s ∷ r) = IsFit i s × AllFit i r

-- The byte behind the map is 0: the thread and its free lists lie in zeroed storage.
pub record IsMap (fl : FreeList) : Type 0 where
  pub bytes : length fl.free_map ≡ 17
  pub small : (e : ℕ) → map_byte fl e < 256
  pub top : map_byte fl 16 < 2
  pub beyond : (e : ℕ) → 16 < e → map_byte fl e ≡ 0

pub record IsValid (fl : FreeList) : Type 0 where
  pub buckets : length fl.free_spaces ≡ 129
  pub map : IsMap fl
  pub marks : (i : ℕ) → i < 128 → is_marked fl i ≡ not (is_nil (bucket fl i))
  pub sized : (i : ℕ) → i ≤ 128 → AllFit i (bucket fl i)
