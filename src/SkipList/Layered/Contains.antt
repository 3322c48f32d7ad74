-- ===== src/SkipList/Layered/Contains.antt =====
-- `FindGreatOrEqual`, through its shortcut or not, and `Contains`.
use rockscopy.Base.{ℕ, ◌-◌, ◌≤◌, ◌<◌, ◌≡◌, refl, arith, ◌⊎◌, inl, inr, sym, ◌∙◌, ap}
use rockscopy.Base.{
  List, [], ◌∷◌, All, Option, none, some, Bool, true, false, Bool-cases, ◌==◌, ◌↔◌, not, ◌&&◌, ◌||◌,
}
use rockscopy.Slice.{Sign, less}
use rockscopy.SkipList.{
  SkipList, next, key_of, key_is_after_node, is_less, is_same, max_height, find_great_or_equal,
}
use rockscopy.SkipList.{equal, contains}
use rockscopy.SkipList.Chain.{IsOrder, Among, Below, Ascending, first_ge, neither}
use rockscopy.SkipList.Position.{is_less-less, past-less}
use rockscopy.SkipList.Search.{Stops}
use rockscopy.SkipList.Layered.{IsLayered, IsPrev, IsShort}
use rockscopy.SkipList.Layered.Rounds.{enough, rounds-enough}
use rockscopy.SkipList.Layered.Find.{
  first, last, find_loop_lem, Stands, Stands-on, HasPassed, HasStopped, stops_out, stops_before,
  IsIn, Answers,
}

-- When the shortcut through `prev` is taken.
pub shortcut-cases :
    (a b c : Bool) → (not a && (b || c)) ≡ true → (a ≡ false) × ((b ≡ true) ⊎ (c ≡ true))
shortcut-cases a b c h = ground arith

module _ {K : Type 0} (compare_ : K → K → Sign) (order : IsOrder compare_) (s : SkipList K)
    (chain : ℕ → List ℕ) (ok : IsLayered compare_ s chain) (key : K) where
  abbrev pub top : ℕ
  top = s.max_height_ - 1

  -- The search from the head.
  pub from_head :
      (n fuel : ℕ) (prev : Option (ℕ → ℕ))
      → IsShort n chain
      → enough n ≤ fuel
      → IsIn compare_ order s chain ok key prev
      → Answers compare_ order s chain ok key fuel top s.head_ prev
  from_head n fuel prev short fuel_enough h =
      let lt : top < max_height = omega (arith, ok.low, ok.high) in
      let (rest, a) = Stands-on compare_ order s chain ok key top s.head_ lt (inl refl) in
      find_loop_lem compare_ order s chain ok key fuel top s.head_ rest prev lt a h
        (omega (arith, a.short, rounds-enough chain n top fuel short lt fuel_enough))

  find_none :
      (n fuel : ℕ)
      → IsShort n chain
      → enough n ≤ fuel
      → find_great_or_equal compare_ fuel s key none
        ≡ some (first compare_ order s chain ok key, none)
  unfolding find_great_or_equal
  find_none n fuel short fuel_enough =
      let (out, e, good) = from_head n fuel none short fuel_enough tt in
      e ∙ ap (λ (o : Option (ℕ → ℕ)). some (first compare_ order s chain ok key, o)) good

  -- A node that the lowest level has passed, where the level goes on with no smaller key.
  stopped :
      (x : ℕ)
      → HasPassed compare_ order s chain ok key 0 x
      → Stops compare_ s key (next s x 0)
      → HasStopped compare_ order s chain ok key 0 x
  unfolding key_is_after_node
  stopped x passed stops = go (Stands-on compare_ order s chain ok key 0 x (omega arith) passed)
    where
      go :
          ((rest : List ℕ) × Stands compare_ order s chain ok key 0 x rest)
          → HasStopped compare_ order s chain ok key 0 x
      go ([], a) = stops_out compare_ order s chain ok key 0 x a
      go (y ∷ ys, a) =
          stops_before compare_ order s chain ok key 0 x y ys a (rw a.linked.0 at stops)

  abbrev shortcut : (ℕ → ℕ) → Bool
  shortcut prev =
      not (key_is_after_node compare_ s key (next s (prev 0) 0))
      && (prev 0 == s.head_ || key_is_after_node compare_ s key (some (prev 0)))

  passes :
      (x : ℕ)
      → (x ≡ s.head_) ⊎ Among x (chain 0)
      → ((x == s.head_) ≡ true) ⊎ (key_is_after_node compare_ s key (some x) ≡ true)
      → HasPassed compare_ order s chain ok key 0 x
  unfolding key_is_after_node
  passes x valid (inl at_head) = inl (ground arith)
  passes x (inl e) (inr under) = inl e
  passes x (inr m) (inr under) = inr (m, is_less-less compare_ s (key_of s x) key under)

  -- The answer, and an array that is good for an insertion.
  abbrev pub Finds : ℕ → (ℕ → ℕ) → Type 0
  Finds fuel prev =
      (p : ℕ → ℕ) × (find_great_or_equal compare_ fuel s key (some prev)
        ≡ some (first compare_ order s chain ok key, some p))
      × IsPrev s.head_ chain p
      × (p 0 ≡ last compare_ order s chain ok key)

  with_shortcut :
      (fuel : ℕ) (prev : ℕ → ℕ) → IsPrev s.head_ chain prev → shortcut prev ≡ true → Finds fuel prev
  unfolding find_great_or_equal
  with_shortcut fuel prev h taken =
      let (stops, how) =
        shortcut-cases (key_is_after_node compare_ s key (next s (prev 0) 0)) (prev 0 == s.head_)
          (key_is_after_node compare_ s key (some (prev 0))) taken in
      let stop = stopped (prev 0) (passes (prev 0) (h 0 (omega arith)) how) stops in
      (
        prev,
        rw taken (ap (λ (t : Option ℕ). some (t, some prev)) (sym (stop.found refl))),
        h,
        sym (stop.before refl),
      )

  without_shortcut :
      (n fuel : ℕ) (prev : ℕ → ℕ)
      → IsShort n chain
      → enough n ≤ fuel
      → IsPrev s.head_ chain prev
      → shortcut prev ≡ false
      → Finds fuel prev
  unfolding find_great_or_equal
  without_shortcut n fuel prev short fuel_enough h not_taken =
      let (out, e, good) = from_head n fuel (some prev) short fuel_enough h in
      let (p, is_p, valid, lowest) = good in
      (
        p,
        rw not_taken
            (e ∙ ap (λ (o : Option (ℕ → ℕ)). some (first compare_ order s chain ok key, o)) is_p),
        valid,
        lowest,
      )

  -- With a comparator that is a strict order: on a list of at most `n` nodes on a level of which
  -- only the lowest level need be in order, `FindGreatOrEqual` with an array whose entries are the
  -- head or nodes of their level returns within 12 * (n + 1) rounds, through its shortcut or not.
  -- It returns the first node of the lowest level whose key is not less, and the array again has
  -- such entries, the one of the lowest level the last node there whose key is less, or the head.
  pub find_some :
      (n fuel : ℕ) (prev : ℕ → ℕ)
      → IsShort n chain
      → enough n ≤ fuel
      → IsPrev s.head_ chain prev
      → Finds fuel prev
  find_some n fuel prev short fuel_enough h = elim (Bool-cases (shortcut prev)) [
    | inl taken ↦ with_shortcut fuel prev h taken
    | inr not_taken ↦ without_shortcut n fuel prev short fuel_enough h not_taken
  ]

-- The keys of the nodes, in order, and whether a key is one of them.
abbrev pub keys : {K : Type 0} → SkipList K → List ℕ → List K
keys s [] = []
keys s (x ∷ xs) = key_of s x ∷ keys s xs

abbrev pub Has : {K : Type 0} → K → List K → Type 0
Has key [] = ⊥
Has key (k ∷ ks) = (key ≡ k) ⊎ Has key ks

module _ {K : Type 0} (compare_ : K → K → Sign) (order : IsOrder compare_) (s : SkipList K)
    (key : K) where
  abbrev pub matches : Option ℕ → Bool
  matches none = false
  matches (some n) = equal compare_ key (key_of s n)

  equal_iff : (y : ℕ) → (equal compare_ key (key_of s y) ≡ true) ↔ (key ≡ key_of s y)
  unfolding equal is_same
  equal_iff y = ground (arith, order.same_iff key (key_of s y))

  less-ne : (y : ℕ) → is_less (compare_ (key_of s y) key) ≡ true → ¬ (key ≡ key_of s y)
  less-ne y under e =
      cc (
        is_less-less compare_ s (key_of s y) key under,
        (order.same_iff (key_of s y) key).1 (sym e),
      )

  Has-later :
      (y : ℕ) (ys : List ℕ)
      → All (Below compare_ s y) ys
      → ¬ (compare_ (key_of s y) key ≡ less)
      → Has key (keys s ys)
      → key ≡ key_of s y
  Has-later y [] below past h = absurd h
  Has-later y (z ∷ ys) (b, bs) past (inl e) = neither compare_ order key (key_of s y) (rw e b) past
  Has-later y (z ∷ ys) (b, bs) past (inr h) = Has-later y ys bs past h

  pub matches_iff :
      (xs : List ℕ)
      → Ascending compare_ s xs
      → (matches (first_ge compare_ s key xs) ≡ true) ↔ Has key (keys s xs)
  matches_iff [] asc = (λ e. cc, λ h. absurd h)
  matches_iff (y ∷ ys) asc = elim (Bool-cases (is_less (compare_ (key_of s y) key))) [
    | inl under ↦
        let (there, back) = matches_iff ys asc.1 in
        rw (under, first_ge)
          (λ e. inr (there e), λ h. elim h [ inl e ↦ absurd (less-ne y under e) | inr k ↦ back k ])
    | inr past ↦
        rw (past, first_ge)
          (
            λ e. inl ((equal_iff y).0 e),
            λ h. elim h [
              | inl e ↦ (equal_iff y).1 e
              | inr k ↦
                  (equal_iff y).1
                    (Has-later y ys asc.0 (past-less compare_ s (key_of s y) key past) k)
            ],
          )
  ]

  -- With a comparator that is a strict order: on a list of at most `n` nodes on a level of which
  -- only the lowest level need be in order, `Contains` returns within 12 * (n + 1) rounds, and
  -- `true` exactly if a node of the lowest level has the key.
  pub contains-Has :
      (chain : ℕ → List ℕ) (n fuel : ℕ)
      → IsLayered compare_ s chain
      → IsShort n chain
      → enough n ≤ fuel
      → (b : Bool) × (contains compare_ fuel s key ≡ some b)
        × ((b ≡ true) ↔ Has key (keys s (chain 0)))
  unfolding contains
  contains-Has chain n fuel ok short fuel_enough = (
    matches (first_ge compare_ s key (chain 0)),
    ground (arith, find_none compare_ order s chain ok key n fuel short fuel_enough),
    matches_iff (chain 0) ok.ascending,
  )
