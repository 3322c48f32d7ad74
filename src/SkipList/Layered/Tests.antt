-- ===== src/SkipList/Layered/Tests.antt =====
-- The theorems on layered lists at a list of two levels, and at lists that the constructor made.
use rockscopy.Base.{◌-◌, ℕ, zero, suc, ◌+◌, ◌≡◌, refl, arith, inl, inr, ◌↔◌}
use rockscopy.Base.{Bool, true, List, [], ◌∷◌, some}
use rockscopy.Arena
use rockscopy.Arena.{Region}
use rockscopy.Arena.Bump.{bump, bump-IsAllocator}
use rockscopy.Arena.Invariant.{IsConsistent, make-IsConsistent}
use rockscopy.SkipList.{SkipList, next, key_of, contains, find_less_than, find_last, make, is_less}
use rockscopy.SkipList.Chain.{Among, Links, Ascending}
use rockscopy.SkipList.Empty.{IsEmpty, make_lem}
use rockscopy.SkipList.Numbers.{
  by_number, by_number-IsOrder, two_levels, chains, blank, link, number,
}
use rockscopy.SkipList.Layered.{IsLayered, IsPrev, IsShort}
use rockscopy.SkipList.Layered.Contains.{Has, keys, contains-Has, find_some, Finds}
use rockscopy.SkipList.Layered.Last.{find_less_than_layered, find_last_lem}
use rockscopy.SkipList.Layered.Link.{IsLinkedUpTo}
use rockscopy.SkipList.Layered.Insert.{insert_lem, Inserts}
use rockscopy.SkipList.Layered.Ready.{Holds}
use rockscopy.SkipList.Layered.Trace.{insert_all, insert_all-contains, empty-Holds}
use rockscopy.SkipList.Layered.Orders.{insert_all-Permᴰ}
use mathlib.Core.List.Permᴰ
use rockscopy.SkipList.Layered.Splice.{linked}
use rockscopy.SkipList.{set_next, key_is_after_node, find_loop, equal, is_same}
use rockscopy.SkipList.{last_of}
use rockscopy.SkipList.Layered.Stages.{stages}
use rockscopy.SkipList.Layered.Watch.{Turn, load, store, watch_contains, loads}
use rockscopy.SkipList.Layered.Wait.{watch_contains-ends}
use rockscopy.SkipList.Layered.Writer.{
  AnswersIn, insert_all_steps, ReadsAmong, watch_contains-insert_all,
}

two_levels-Links : (i : ℕ) → Links by_number two_levels i 0 (chains i)
unfolding next
two_levels-Links zero = (refl, (refl, refl))
two_levels-Links (suc zero) = (refl, refl)
two_levels-Links (suc (suc i)) = refl

two_levels-Ascending : Ascending by_number two_levels (chains 0)
unfolding key_of
two_levels-Ascending = ((λ e. ground (arith, e), tt), (tt, tt))

two_levels_nested : (i x : ℕ) → Among x (chains (suc i)) → Among x (chains i)
two_levels_nested zero x (inl e) = inl e
two_levels_nested zero x (inr m) = absurd m
two_levels_nested (suc i) x m = absurd m

two_levels_headless : ¬ Among 0 (chains 0)
two_levels_headless m = omega arith

two_levels-IsLayered : IsLayered by_number two_levels chains
two_levels-IsLayered = record {
  links = λ i lt. two_levels-Links i;
  ascending = two_levels-Ascending;
  nested = two_levels_nested;
  headless = two_levels_headless;
  low = omega arith;
  high = omega arith;
}

two_levels-IsShort : IsShort 2 chains
two_levels-IsShort zero = omega arith
two_levels-IsShort (suc zero) = omega arith
two_levels-IsShort (suc (suc i)) = omega arith

contains-Has_example :
    (b : Bool) × (contains by_number 36 two_levels 20 ≡ some b)
    × ((b ≡ true) ↔ Has 20 (keys two_levels (1 ∷ 2 ∷ [])))
contains-Has_example =
    contains-Has by_number by_number-IsOrder two_levels 20 chains 2 36 two_levels-IsLayered
      two_levels-IsShort (omega arith)

find_some_example :
    Finds by_number by_number-IsOrder two_levels chains two_levels-IsLayered 15 36 (λ i. 0)
find_some_example =
    find_some by_number by_number-IsOrder two_levels chains two_levels-IsLayered 15 2 36 (λ i. 0)
      two_levels-IsShort (omega arith) (λ i lt. inl refl)

find_less_than_layered_example : find_less_than by_number 36 two_levels 15 ≡ some 1
unfolding is_less key_of
find_less_than_layered_example =
    find_less_than_layered by_number by_number-IsOrder two_levels chains two_levels-IsLayered 15 2
      36 two_levels-IsShort (omega arith)

find_last_lem_example : find_last 36 two_levels ≡ some 2
find_last_lem_example =
    find_last_lem by_number two_levels chains two_levels-IsLayered 2 36 two_levels-IsShort
      (omega arith)

-- The constructor's list, and what holds of it.
abbrev made :
    (s : SkipList ℕ) × (make bump 16 0 blank Arena.make ≡ some s)
    × IsEmpty s
    × IsConsistent s.arena_ (record { start = s.head_; bytes = 104 } ∷ [])
made =
    make_lem bump 16 bump-IsAllocator 0 blank Arena.make [] (omega arith) (omega arith)
      make-IsConsistent

abbrev live : List Region
live = record { start = made.0.head_; bytes = 104 } ∷ []

made-Holds : Holds 16 by_number made.0 (λ i. []) 0 live
made-Holds = empty-Holds 16 by_number made.0 live made.2 made.3 (inl (refl, omega arith))

insert_lem_example : Inserts bump 16 by_number 12 10 made.0 (λ i. []) 0
insert_lem_example =
    insert_lem bump bump-IsAllocator 16 (omega arith) (omega arith) by_number by_number-IsOrder 12 0
      10 made.0 (λ i. []) live made-Holds (omega arith)

insert_all-contains_example :
    (s : SkipList ℕ) × (s' : SkipList ℕ) × (make bump 16 0 blank Arena.make ≡ some s)
    × (insert_all bump 16 by_number 48 (20 ∷ 10 ∷ 20 ∷ []) s ≡ some s')
    × ((q : ℕ)
        → (b : Bool) × (contains by_number 48 s' q ≡ some b)
          × ((b ≡ true) ↔ Has q (20 ∷ 10 ∷ 20 ∷ [])))
insert_all-contains_example =
    insert_all-contains bump bump-IsAllocator 16 (omega arith) (omega arith) by_number
      by_number-IsOrder 0 blank Arena.make [] (20 ∷ 10 ∷ 20 ∷ []) 48 make-IsConsistent (omega arith)

insert_all-Permᴰ_example :
    (s : SkipList ℕ) × (s1 : SkipList ℕ) × (s2 : SkipList ℕ) × (chain1 : List ℕ) × (chain2 : List ℕ)
    × (make bump 16 0 blank Arena.make ≡ some s)
    × (insert_all bump 16 by_number 48 (20 ∷ 10 ∷ 20 ∷ []) s ≡ some s1)
    × (insert_all bump 16 by_number 48 (10 ∷ 20 ∷ 20 ∷ []) s ≡ some s2)
    × Links by_number s1 0 s1.head_ chain1
    × Links by_number s2 0 s2.head_ chain2
    × (keys s1 chain1 ≡ keys s2 chain2)
insert_all-Permᴰ_example =
    insert_all-Permᴰ bump bump-IsAllocator 16 (omega arith) (omega arith) by_number
      by_number-IsOrder 0 blank Arena.make [] (20 ∷ 10 ∷ 20 ∷ []) (10 ∷ 20 ∷ 20 ∷ []) 48
      make-IsConsistent (Permᴰ.swap refl refl) (omega arith)

-- The node 3 with the key 15, before it is linked behind node 1 on both levels.
abbrev number3 : ℕ → ℕ
number3 (suc (suc (suc zero))) = 15
number3 x = number x

abbrev prev3 : ℕ → ℕ
prev3 zero = 1
prev3 (suc zero) = 1
prev3 i = 0

abbrev unlinked : SkipList ℕ
unlinked = record two_levels {
  nodes = λ x. record { key = number3 x; next_ = link x };
  prev_ = prev3;
}

unlinked-Links : (i : ℕ) → Links by_number unlinked i 0 (chains i)
unfolding next
unlinked-Links zero = (refl, (refl, refl))
unlinked-Links (suc zero) = (refl, refl)
unlinked-Links (suc (suc i)) = refl

unlinked-Ascending : Ascending by_number unlinked (chains 0)
unfolding key_of
unlinked-Ascending = ((λ e. ground (arith, e), tt), (tt, tt))

unlinked-IsPrev : IsPrev 0 chains prev3
unlinked-IsPrev zero lt = inr (inl refl)
unlinked-IsPrev (suc zero) lt = inr (inl refl)
unlinked-IsPrev (suc (suc i)) lt = inl refl

unlinked_above : (j : ℕ) → ¬ Among 3 (chains j)
unlinked_above zero m = ground arith
unlinked_above (suc zero) m = ground arith
unlinked_above (suc (suc j)) m = m

unlinked-IsLinkedUpTo : IsLinkedUpTo by_number by_number-IsOrder 0 3 unlinked chains
unfolding key_of is_less
unlinked-IsLinkedUpTo = record {
  ok = record {
    links = λ i lt. unlinked-Links i;
    ascending = unlinked-Ascending;
    nested = two_levels_nested;
    headless = two_levels_headless;
    low = omega arith;
    high = omega arith;
  };
  prev = unlinked-IsPrev;
  away = λ e. omega arith;
  above = λ j _. unlinked_above j;
  below = λ j e. absurd (omega arith);
  lowest = λ _. refl;
}

abbrev reader_first : List Turn
reader_first = load ∷ store ∷ store ∷ load ∷ store ∷ []

-- A reader on its way while the node with the key 15 is linked: it finds the key 20 behind it.
raced : watch_contains by_number 48 reader_first (stages 2 0 3 unlinked) unlinked 20 1 ≡ some true
unfolding next key_of set_next linked key_is_after_node is_less find_loop equal is_same
raced = refl

-- A reader of the key 10 while 20 and 10 are inserted into the constructor's list.
watch_contains-insert_all_example :
    (ts : List (SkipList ℕ)) × (insert_all_steps bump 16 by_number 36 (20 ∷ 10 ∷ []) made.0
      ≡ some ts)
    × (insert_all bump 16 by_number 36 (20 ∷ 10 ∷ []) made.0 ≡ some (last_of made.0 ts))
    × (watch_contains by_number 36 (loads 3) ts made.0 10 (made.0.max_height_ - 1)
        ≡ contains by_number (3 + 36) made.0 10)
    × ReadsAmong by_number 36 reader_first ts made.0 10 4 (20 ∷ 10 ∷ []) []
watch_contains-insert_all_example =
    watch_contains-insert_all bump bump-IsAllocator 16 (omega arith) (omega arith) by_number
      by_number-IsOrder 0 36 3 4 (20 ∷ 10 ∷ []) made.0 (λ i. []) live reader_first 10 made-Holds
      (omega arith) (omega arith)

abbrev patient_reader : List Turn
patient_reader = load ∷ store ∷ store ∷ load ∷ store ∷ loads 36

watch_contains-ends_example :
    (ts : List (SkipList ℕ)) × (insert_all_steps bump 16 by_number 36 (20 ∷ 10 ∷ []) made.0
      ≡ some ts)
    × (insert_all bump 16 by_number 36 (20 ∷ 10 ∷ []) made.0 ≡ some (last_of made.0 ts))
    × (watch_contains by_number 36 (loads 3) ts made.0 10 (made.0.max_height_ - 1)
        ≡ contains by_number (3 + 36) made.0 10)
    × (b : Bool) × ((left : ℕ)
        → watch_contains by_number left patient_reader ts made.0 10 4 ≡ some b)
    × AnswersIn by_number b 10 (made.0 ∷ ts)
watch_contains-ends_example =
    watch_contains-ends bump bump-IsAllocator 16 (omega arith) (omega arith) by_number
      by_number-IsOrder 0 36 3 4 (20 ∷ 10 ∷ []) made.0 (λ i. []) live patient_reader 10 made-Holds
      (omega arith) (omega arith) (omega arith)
