-- ===== src/SkipList/Tests.antt =====
-- The constructor at a concrete arena, and runs of `Insert`.
use rockscopy.Base.{ℕ, zero, suc, ◌≡◌, refl, arith}
use rockscopy.Base.{Bool, true, List, [], ◌∷◌, Option, none, some}
use rockscopy.Random
use rockscopy.Arena
use rockscopy.SkipList.{
  insert_steps, link_steps, SkipList, next, key_of, find_loop, find_great_or_equal, contains,
  is_less,
}
use rockscopy.SkipList.Layered.Loop.{stores}
use rockscopy.SkipList.Numbers.{by_number, blank}
use rockscopy.SkipList.Empty.{IsEmpty, make_lem}
use rockscopy.Arena.Bump.{bump, bump-IsAllocator}
use rockscopy.Arena.Invariant.{IsConsistent, make-IsConsistent}
use rockscopy.SkipList.{random_height, make}
use rockscopy.Base.{false}
use rockscopy.SkipList.{
  insert, new_node, link_loop, raise_loop, random_height_loop, set_next, key_is_after_node, is_same,
  equal,
}

make_lem_example :
    (s : SkipList ℕ) × (make bump 16 0 blank Arena.make ≡ some s)
    × IsEmpty s
    × IsConsistent s.arena_ (record { start = s.head_; bytes = 104 } ∷ [])
make_lem_example =
    make_lem bump 16 bump-IsAllocator 0 blank Arena.make [] (omega arith) (omega arith)
      make-IsConsistent

abbrev empty_list : SkipList ℕ
empty_list = record {
  nodes = blank;
  arena_ = Arena.make;
  head_ = 8;
  max_height_ = 1;
  prev_ = λ i. 8;
  rnd_ = Random.make 0xdeadbeef;
}

empty_list-IsEmpty : IsEmpty empty_list
unfolding next
empty_list-IsEmpty = record { low = refl; ends = λ l h. refl; heads = λ l h. refl }

-- Whether a list has a key after some keys were inserted, in order.
abbrev insert_all :
    (ℕ → ℕ → Option ℕ → SkipList ℕ → SkipList ℕ) → List ℕ → SkipList ℕ → Option (SkipList ℕ)
insert_all link_new [] s = some s
insert_all link_new (key ∷ keys) s = elim (insert bump 16 by_number link_new 20 key s) [
  | none ↦ none
  | some s' ↦ insert_all link_new keys s'
]

-- Line 124 of skiplist.h with its value dropped.
abbrev loads : ℕ → ℕ → Option ℕ → SkipList ℕ → SkipList ℕ
loads x i y s = s

abbrev has : ℕ → Option (SkipList ℕ) → Option Bool
has key none = none
has key (some s) = contains by_number 20 s key

-- The keys along a level, for at most `left` nodes.
abbrev keys_along : ℕ → ℕ → ℕ → SkipList ℕ → List ℕ
keys_along zero x level s = []
keys_along (suc left) x level s = elim (next s x level) [
  | none ↦ []
  | some n ↦ key_of s n ∷ keys_along left n level s
]

abbrev keys_on : ℕ → Option (SkipList ℕ) → List ℕ
keys_on level none = []
keys_on level (some s) = keys_along 9 s.head_ level s

abbrev set_lists : List ℕ → Option (SkipList ℕ)
set_lists keys = insert_all stores keys empty_list

-- With the links of line 124 set, the keys that were inserted are found, and another one is not.
-- With a load in its place, a smaller key cuts the list off behind itself.
-- After keys in ascending order, which all but the first take the shortcut, level 1 leads from the
-- greatest key to the smallest, where a stale `prev_` linked it; the lowest level is in order.
insert_runs :
    (has 20 (set_lists (20 ∷ 10 ∷ 30 ∷ [])) ≡ some true)
    × (has 25 (set_lists (20 ∷ 10 ∷ 30 ∷ [])) ≡ some false)
    × (has 20 (insert_all loads (20 ∷ 10 ∷ []) empty_list) ≡ some false)
    × (keys_on 1 (set_lists (1 ∷ 2 ∷ 3 ∷ 4 ∷ 5 ∷ [])) ≡ 5 ∷ 1 ∷ [])
    × (keys_on 0 (set_lists (1 ∷ 2 ∷ 3 ∷ 4 ∷ 5 ∷ [])) ≡ 1 ∷ 2 ∷ 3 ∷ 4 ∷ 5 ∷ [])
unfolding insert insert_steps link_steps new_node link_loop raise_loop set_next next
    find_great_or_equal find_loop key_is_after_node is_less is_same equal key_of contains
    random_height random_height_loop Random.next Random.make Arena.make Arena.allocate_aligned
    Arena.allocate_fallback Arena.allocate_new_block Arena.slop Arena.check_aligned
insert_runs = (refl, refl, refl, refl, refl)
