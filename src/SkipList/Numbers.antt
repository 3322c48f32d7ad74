-- ===== src/SkipList/Numbers.antt =====
-- Lists of numbers: the comparator of src/db/test_skiplist.cpp, and a list of two levels.
use rockscopy.Base.{
  ℕ, zero, suc, ◌<◌, ◌≡◌, arith, ◌↔◌, ltb, if◌then◌else◌, List, [], ◌∷◌, Option, none, some,
}
use rockscopy.Slice.{Sign, less, same, greater}
use rockscopy.Random
use rockscopy.Arena
use rockscopy.SkipList.{SkipList, Node}
use rockscopy.SkipList.Chain.{IsOrder}

-- `TestComparator` of src/db/test_skiplist.cpp.
abbrev pub by_number : ℕ → ℕ → Sign
by_number a b = if ltb a b then less else if ltb b a then greater else same

less_number : (a b : ℕ) → (by_number a b ≡ less) ↔ (a < b)
less_number a b = ground arith

greater_number : (a b : ℕ) → (by_number a b ≡ greater) ↔ (b < a)
greater_number a b = ground arith

same_number : (a b : ℕ) → (by_number a b ≡ same) ↔ (a ≡ b)
same_number a b = ground arith

pub by_number-IsOrder : IsOrder by_number
by_number-IsOrder = record {
  trans = λ a b c h k.
      (less_number a c).1
        (let i = (less_number a b).0 h in let j = (less_number b c).0 k in omega arith);
  same_iff = same_number;
  less_iff = λ a b. (
    λ h. (greater_number b a).1 ((less_number a b).0 h),
    λ h. (less_number a b).1 ((greater_number b a).0 h),
  );
}

-- The links of three nodes: the head and node 1 on two levels, node 2 on the lowest.
abbrev pub link : ℕ → ℕ → Option ℕ
link zero zero = some 1
link zero (suc zero) = some 1
link (suc zero) zero = some 2
link x i = none

abbrev pub number : ℕ → ℕ
number (suc zero) = 10
number (suc (suc zero)) = 20
number x = 0

abbrev pub two_levels : SkipList ℕ
two_levels = record {
  nodes = λ x. record { key = number x; next_ = link x };
  arena_ = Arena.make;
  head_ = 0;
  max_height_ = 2;
  prev_ = λ i. 0;
  rnd_ = Random.make 0xdeadbeef;
}

abbrev pub chains : ℕ → List ℕ
chains zero = 1 ∷ 2 ∷ []
chains (suc zero) = 1 ∷ []
chains i = []

abbrev pub blank : ℕ → Node ℕ
blank x = record { key = 0; next_ = λ i. none }
