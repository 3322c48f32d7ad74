-- ===== src/SkipList/Search.antt =====
-- `FindGreatOrEqual` and `Contains` on a well-formed list, against a walk along its lowest level.
use mathlib.Core.Option
use rockscopy.Base.{
  update, ℕ, zero, suc, ◌+◌, ◌-◌, ◌≤◌, ◌<◌, ◌≡◌, refl, arith, ◌⊎◌, inl, inr, sym, ◌∙◌, ap,
}
use rockscopy.Base.{List, [], ◌∷◌, Option, none, some, length, true, false, Bool-cases}
use rockscopy.Slice.{Sign}
use rockscopy.SkipList.{SkipList, next, key_of, key_is_after_node, is_less}
use rockscopy.SkipList.{find_loop}
use rockscopy.SkipList.Chain.{IsOrder, Among, IsSkipList, first_ge, last_lt}
use rockscopy.SkipList.Position.{Under, At, At-start, At-advance, At-descend, is_less-less}

module _ {K : Type 0} (compare_ : K → K → Sign) (s : SkipList K) (key : K) where
  -- One round of the loop: along the level, down, and out.
  pub find_loop_along :
      (fuel x level n : ℕ) (prev : Option (ℕ → ℕ))
      → next s x level ≡ some n
      → is_less (compare_ (key_of s n) key) ≡ true
      → find_loop compare_ (suc fuel) s key prev x level
        ≡ find_loop compare_ fuel s key prev n level
  unfolding find_loop key_is_after_node
  find_loop_along fuel x level n prev e under = ground arith

  -- The loop does not go on along the level.
  abbrev pub Stops : Option ℕ → Type 0
  Stops y = key_is_after_node compare_ s key y ≡ false

  pub find_loop_down :
      (fuel x l : ℕ) (prev : Option (ℕ → ℕ))
      → Stops (next s x (suc l))
      → find_loop compare_ (suc fuel) s key prev x (suc l)
        ≡ find_loop compare_ fuel s key (Option.map (λ p. update p (suc l) x) prev) x l
  unfolding find_loop
  find_loop_down fuel x l prev e = ground arith

  pub find_loop_out :
      (fuel x : ℕ) (prev : Option (ℕ → ℕ))
      → Stops (next s x 0)
      → find_loop compare_ (suc fuel) s key prev x 0
        ≡ some (next s x 0, Option.map (λ p. update p 0 x) prev)
  unfolding find_loop
  find_loop_out fuel x prev e = ground arith

  module _ (order : IsOrder compare_) (ok : IsSkipList compare_ s) where
    -- The rounds that are enough below a level.
    unfoldable pub rounds : ℕ → ℕ
    rounds zero = 0
    rounds (suc l) = rounds l + length (ok.chain l) + 1

    -- The last node with a smaller key on a level, and `prev` with that node on each level.
    abbrev pub last_on : ℕ → ℕ
    last_on l = last_lt compare_ s key s.head_ (ok.chain l)

    abbrev pub fill : ℕ → (ℕ → ℕ) → ℕ → ℕ
    fill zero p = update p 0 (last_on 0)
    fill (suc l) p = fill l (update p (suc l) (last_on (suc l)))

    abbrev pub HasPassed : ℕ → ℕ → Type 0
    HasPassed level x = (x ≡ s.head_) ⊎ (Among x (ok.chain level) × Under compare_ s key x)

    -- The loop stops on a level: what it has found there, and the node that it goes down from.
    abbrev pub HasStopped : ℕ → ℕ → Type 0
    HasStopped level x =
        Stops (next s x level)
        × (first_ge compare_ s key (ok.chain level) ≡ next s x level)
        × (last_on level ≡ x)

    pub stops_out :
        (level x : ℕ) → At compare_ s key (ok.chain level) level x [] → HasStopped level x
    unfolding key_is_after_node
    stops_out level x a = (rw a.linked refl, a.found ∙ sym a.linked, a.before)

    pub stops_before :
        (level x y : ℕ) (ys : List ℕ)
        → At compare_ s key (ok.chain level) level x (y ∷ ys)
        → is_less (compare_ (key_of s y) key) ≡ false
        → HasStopped level x
    unfolding key_is_after_node
    stops_before level x y ys a past = (
      rw a.linked.0 past,
      a.found ∙ rw (past, first_ge) (sym a.linked.0),
      a.before ∙ rw (past, last_lt),
    )

    -- What the rest of the search answers.
    abbrev Answers : ℕ → ℕ → ℕ → Option (ℕ → ℕ) → Type 0
    Answers fuel level x prev =
        find_loop compare_ fuel s key prev x level
        ≡ some (first_ge compare_ s key (ok.chain 0), Option.map (fill level) prev)

    fill_below :
        (l x : ℕ) (prev : Option (ℕ → ℕ))
        → last_on (suc l) ≡ x
        → Option.map (fill l) (Option.map (λ p. update p (suc l) x) prev)
          ≡ Option.map (fill (suc l)) prev
    fill_below l x none e = refl
    fill_below l x (some p) e = ap (λ (z : ℕ). some (fill l (update p (suc l) z))) (sym e)

    leave :
        (fuel level x : ℕ) (prev : Option (ℕ → ℕ))
        → level < s.max_height_
        → HasStopped level x
        → HasPassed level x
        → rounds level < suc fuel
        → ((l : ℕ) (rest : List ℕ) (prev' : Option (ℕ → ℕ))
            → l < s.max_height_
            → At compare_ s key (ok.chain l) l x rest
            → HasPassed l x
            → rounds l + length rest < fuel
            → Answers fuel l x prev')
        → Answers (suc fuel) level x prev
    unfolding rounds
    leave fuel zero x prev lt (stops, found, last) passed enough lower =
        find_loop_out fuel x prev stops
        ∙ ap (λ (t : Option ℕ). some (t, Option.map (λ p. update p 0 x) prev)) (sym found)
        ∙ ap
            (λ (z : ℕ).
              some (first_ge compare_ s key (ok.chain 0), Option.map (λ p. update p 0 z) prev))
            (sym last)
    leave fuel (suc l) x prev lt (stops, found, last) passed enough lower =
        let passed' : HasPassed l x = elim passed [
          | inl e ↦ inl e
          | inr (m, u) ↦ inr (ok.nested l lt x m, u)
        ] in
        let (rest, a) =
          At-descend compare_ s order key (ok.chain l) l x (ok.links l (omega arith))
            (ok.ascending l (omega arith)) passed' in
        find_loop_down fuel x l prev stops
        ∙ lower l rest (Option.map (λ p. update p (suc l) x) prev) (omega arith) a passed'
            (omega (arith, a.short))
        ∙ ap (λ (t : Option (ℕ → ℕ)). some (first_ge compare_ s key (ok.chain 0), t))
            (fill_below l x prev last)

    find_loop_lem :
        (fuel level x : ℕ) (rest : List ℕ) (prev : Option (ℕ → ℕ))
        → level < s.max_height_
        → At compare_ s key (ok.chain level) level x rest
        → HasPassed level x
        → rounds level + length rest < fuel
        → Answers fuel level x prev
    find_loop_lem zero level x rest prev lt a passed enough = absurd (omega arith)
    find_loop_lem (suc fuel) level x [] prev lt a passed enough =
        leave fuel level x prev lt (stops_out level x a) passed (omega arith)
          (λ l rest prev'. find_loop_lem fuel l x rest prev')
    find_loop_lem (suc fuel) level x (y ∷ ys) prev lt a passed enough =
        elim (Bool-cases (is_less (compare_ (key_of s y) key))) [
          | inl under ↦
              find_loop_along fuel x level y prev a.linked.0 under
              ∙ find_loop_lem fuel level y ys prev lt (At-advance compare_ s y ys a under)
                  (inr (a.members y (inl refl), is_less-less compare_ s (key_of s y) key under))
                  (omega arith)
          | inr past ↦
              leave fuel level x prev lt (stops_before level x y ys a past) passed (omega arith)
                (λ l rest prev'. find_loop_lem fuel l x rest prev')
        ]

    -- Rounds that are enough for a whole search.
    unfoldable pub search_rounds : ℕ
    search_rounds = rounds (s.max_height_ - 1) + length (ok.chain (s.max_height_ - 1)) + 1

    -- On a well-formed list, with a comparator that is a strict order, and with enough fuel, the
    -- search from the head returns the first node of the lowest level whose key is not less, and
    -- leaves in `prev`, on each level in use, the last node whose key is less, or the head.
    pub find_from_head :
        (fuel : ℕ) (prev : Option (ℕ → ℕ))
        → search_rounds ≤ fuel
        → find_loop compare_ fuel s key prev s.head_ (s.max_height_ - 1)
          ≡ some (first_ge compare_ s key (ok.chain 0), Option.map (fill (s.max_height_ - 1)) prev)
    unfolding search_rounds
    find_from_head fuel prev enough =
        let top : s.max_height_ - 1 < s.max_height_ = omega (arith, ok.positive) in
        find_loop_lem fuel (s.max_height_ - 1) s.head_ (ok.chain (s.max_height_ - 1)) prev top
          (At-start compare_ s key (ok.chain (s.max_height_ - 1)) (s.max_height_ - 1)
            (ok.links (s.max_height_ - 1) top))
          (inl refl) (omega arith)
