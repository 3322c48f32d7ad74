-- ===== src/SkipList/Contains.antt =====
-- `FindGreatOrEqual` with and without its shortcut, and `Contains`.
use rockscopy.Base.{ℕ, ◌-◌, ◌≤◌, ◌≡◌, arith, ◌⊎◌, inl, inr, sym, ◌∙◌, ap}
use rockscopy.Base.{List, [], ◌∷◌, Option, none, some, Bool, true, false, not, ◌&&◌, ◌||◌, ◌==◌}
use rockscopy.Base.{Bool-cases, ◌↔◌}
use rockscopy.Slice.{Sign}
use rockscopy.SkipList.{SkipList, next, key_of, key_is_after_node}
use rockscopy.SkipList.{find_loop, find_great_or_equal, contains}
use rockscopy.SkipList.Chain.{IsOrder, Among, IsSkipList, first_ge}
use rockscopy.SkipList.Position.{At, At-descend, is_less-less}
use rockscopy.SkipList.Search.{Stops, HasPassed, stops_out, stops_before, search_rounds}
use rockscopy.SkipList.Search.{find_from_head, fill}
use rockscopy.SkipList.Layered.Contains.{Has, keys, matches, matches_iff, shortcut-cases}

module _ {K : Type 0} (compare_ : K → K → Sign) (order : IsOrder compare_) (s : SkipList K)
    (ok : IsSkipList compare_ s) (key : K) where
  abbrev first : Option ℕ
  first = first_ge compare_ s key (ok.chain 0)

  -- A node that the lowest level has passed, where the level goes on with no smaller key, stands
  -- right before the answer.
  Stops-first :
      (x : ℕ)
      → HasPassed compare_ s key order ok 0 x
      → Stops compare_ s key (next s x 0)
      → next s x 0 ≡ first
  unfolding key_is_after_node
  Stops-first x passed stops = go (
      At-descend compare_ s order key (ok.chain 0) 0 x (ok.links 0 ok.positive)
        (ok.ascending 0 ok.positive) passed)
    where
      go : ((rest : List ℕ) × At compare_ s key (ok.chain 0) 0 x rest) → next s x 0 ≡ first
      go ([], a) = sym (stops_out compare_ s key order ok 0 x a).1
      go (y ∷ ys, a) =
          sym (stops_before compare_ s key order ok 0 x y ys a (rw a.linked.0 at stops)).1

  -- With enough fuel `FindGreatOrEqual(key, nullptr)` returns, and what it returns is the first
  -- node of the lowest level whose key is not less than `key`.
  pub find_great_or_equal_lem :
      (fuel : ℕ)
      → search_rounds compare_ s key order ok ≤ fuel
      → find_great_or_equal compare_ fuel s key none ≡ some (first, none)
  unfolding find_great_or_equal
  find_great_or_equal_lem fuel enough = find_from_head compare_ s key order ok fuel none enough

  -- When the shortcut through `prev` is taken.
  abbrev shortcut : (ℕ → ℕ) → Bool
  shortcut prev =
      not (key_is_after_node compare_ s key (next s (prev 0) 0))
      && (prev 0 == s.head_ || key_is_after_node compare_ s key (some (prev 0)))

  with_shortcut :
      (fuel : ℕ) (prev : ℕ → ℕ)
      → shortcut prev ≡ true
      → find_great_or_equal compare_ fuel s key (some prev) ≡ some (next s (prev 0) 0, some prev)
  unfolding find_great_or_equal
  with_shortcut fuel prev h = rw h

  without_shortcut :
      (fuel : ℕ) (prev : ℕ → ℕ)
      → shortcut prev ≡ false
      → find_great_or_equal compare_ fuel s key (some prev)
        ≡ find_loop compare_ fuel s key (some prev) s.head_ (s.max_height_ - 1)
  unfolding find_great_or_equal
  without_shortcut fuel prev h = rw h

  -- The shortcut's test on `x` says that the search has passed it.
  passes :
      (x : ℕ)
      → (x ≡ s.head_) ⊎ Among x (ok.chain 0)
      → ((x == s.head_) ≡ true) ⊎ (key_is_after_node compare_ s key (some x) ≡ true)
      → HasPassed compare_ s key order ok 0 x
  unfolding key_is_after_node
  passes x valid (inl at_head) = inl (ground arith)
  passes x (inl e) (inr under) = inl e
  passes x (inr m) (inr under) = inr (m, is_less-less compare_ s (key_of s x) key under)

  -- On a well-formed list, with a comparator that is a strict order, and with enough fuel,
  -- `FindGreatOrEqual` returns the first node of the lowest level whose key is not less, through
  -- the shortcut or without it, for any `prev` whose entry for the lowest level is the head or a
  -- node of that level.
  pub find_great_or_equal_shortcut :
      (fuel : ℕ) (prev : ℕ → ℕ)
      → search_rounds compare_ s key order ok ≤ fuel
      → (prev 0 ≡ s.head_) ⊎ Among (prev 0) (ok.chain 0)
      → (out : Option (ℕ → ℕ)) × (find_great_or_equal compare_ fuel s key (some prev)
          ≡ some (first, out))
  find_great_or_equal_shortcut fuel prev enough valid = elim (Bool-cases (shortcut prev)) [
    | inl taken ↦
        let (stops, how) =
          shortcut-cases (key_is_after_node compare_ s key (next s (prev 0) 0)) (prev 0 == s.head_)
            (key_is_after_node compare_ s key (some (prev 0))) taken in
        (
          some prev,
          with_shortcut fuel prev taken
              ∙ ap (λ (t : Option ℕ). some (t, some prev))
                  (Stops-first (prev 0) (passes (prev 0) valid how) stops),
        )
    | inr not_taken ↦ (
      some (fill compare_ s key order ok (s.max_height_ - 1) prev),
      without_shortcut fuel prev not_taken
          ∙ find_from_head compare_ s key order ok fuel (some prev) enough,
    )
  ]

  contains-matches :
      (fuel : ℕ)
      → search_rounds compare_ s key order ok ≤ fuel
      → contains compare_ fuel s key ≡ some (matches compare_ order s key first)
  unfolding contains
  contains-matches fuel enough = ground (arith, find_great_or_equal_lem fuel enough)

  -- On a well-formed list, with a comparator that is a strict order, and with enough fuel,
  -- `Contains` returns, and `true` exactly if a node of the lowest level has the key.
  pub contains_lem :
      (fuel : ℕ)
      → search_rounds compare_ s key order ok ≤ fuel
      → (b : Bool) × (contains compare_ fuel s key ≡ some b)
        × ((b ≡ true) ↔ Has key (keys s (ok.chain 0)))
  contains_lem fuel enough = (
    matches compare_ order s key first,
    contains-matches fuel enough,
    matches_iff compare_ order s key (ok.chain 0) (ok.ascending 0 ok.positive),
  )
