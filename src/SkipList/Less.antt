-- ===== src/SkipList/Less.antt =====
-- `FindLessThan` on a well-formed list, by way of the search that fills `prev`.
use rockscopy.Base.{
  ℕ, zero, suc, ◌-◌, ◌≤◌, ◌≡◌, refl, arith, ◌||◌, not, ◌==◌, update, sym, ◌∙◌, ap, ◌⊎◌, inl, inr,
}
use rockscopy.Base.{Option, none, some, true, false, Bool-cases}
use rockscopy.Slice.{Sign}
use rockscopy.SkipList.{SkipList, next, key_of, key_is_after_node, is_less, find_loop, at_or_past}
use rockscopy.SkipList.{find_less_than_loop, find_less_than}
use rockscopy.SkipList.Chain.{IsOrder, IsSkipList, last_lt, first_ge}
use rockscopy.SkipList.Search.{
  search_rounds, find_from_head, fill, find_loop_along, find_loop_down, find_loop_out,
}

module _ {K : Type 0} (compare_ : K → K → Sign) (s : SkipList K) (key : K) where
  -- The assertion of `FindLessThan`.
  abbrev pub Asserted : ℕ → Type 0
  Asserted x = (x == s.head_ || is_less (compare_ (key_of s x) key)) ≡ true

  at_or_past-not :
      (y : Option ℕ) → at_or_past compare_ s key y ≡ not (key_is_after_node compare_ s key y)
  unfolding at_or_past key_is_after_node
  at_or_past-not none = refl
  at_or_past-not (some n) = refl

  less_than_along :
      (fuel level x n : ℕ)
      → Asserted x
      → next s x level ≡ some n
      → is_less (compare_ (key_of s n) key) ≡ true
      → find_less_than_loop compare_ (suc fuel) s key x level
        ≡ find_less_than_loop compare_ fuel s key n level
  unfolding find_less_than_loop at_or_past
  less_than_along fuel level x n a e under = ground (arith, a, e, under)

  less_than_down :
      (fuel l x : ℕ)
      → Asserted x
      → key_is_after_node compare_ s key (next s x (suc l)) ≡ false
      → find_less_than_loop compare_ (suc fuel) s key x (suc l)
        ≡ find_less_than_loop compare_ fuel s key x l
  unfolding find_less_than_loop
  less_than_down fuel l x a stops = ground (arith, a, at_or_past-not (next s x (suc l)), stops)

  less_than_out :
      (fuel x : ℕ)
      → Asserted x
      → key_is_after_node compare_ s key (next s x 0) ≡ false
      → find_less_than_loop compare_ (suc fuel) s key x 0 ≡ some x
  unfolding find_less_than_loop
  less_than_out fuel x a stops = ground (arith, a, at_or_past-not (next s x 0), stops)

  -- Where the search stands, by what the pointer leads to.
  after-cases :
      (y : Option ℕ)
      → (key_is_after_node compare_ s key y ≡ false)
        ⊎ ((n : ℕ) × (y ≡ some n) × (is_less (compare_ (key_of s n) key) ≡ true))
  unfolding key_is_after_node
  after-cases none = inl refl
  after-cases (some n) = elim (Bool-cases (is_less (compare_ (key_of s n) key))) [
    | inl under ↦ inr (n, refl, under)
    | inr past ↦ inl past
  ]

  out_prev :
      (p p' : ℕ → ℕ) (x : ℕ) (found found' : Option ℕ)
      → ◌≡◌ {A = Option (Option ℕ × Option (ℕ → ℕ))}
          (some (found', some (update p 0 x)))
          (some (found, some p'))
      → x ≡ p' 0
  out_prev p p' x found found' e = let same : update p 0 x ≡ p' = cc in ap (λ (f : ℕ → ℕ). f 0) same

  Asserted-next : (n : ℕ) → is_less (compare_ (key_of s n) key) ≡ true → Asserted n
  Asserted-next n under = ground arith

  pub less_than-follows :
      (fuel level x : ℕ) (p p' : ℕ → ℕ) (found : Option ℕ)
      → Asserted x
      → find_loop compare_ fuel s key (some p) x level ≡ some (found, some p')
      → find_less_than_loop compare_ fuel s key x level ≡ some (p' 0)
  less_than-follows zero level x p p' found a e = unfold find_loop in cc
  less_than-follows (suc fuel) zero x p p' found a e = elim (after-cases (next s x 0)) [
    | inl stops ↦
        less_than_out fuel x a stops
        ∙ ap some (
            out_prev p p' x found (next s x 0)
              (sym (find_loop_out compare_ s key fuel x (some p) stops) ∙ e))
    | inr (n, link, under) ↦
        less_than_along fuel 0 x n a link under
        ∙ less_than-follows fuel 0 n p p' found (Asserted-next n under)
            (sym (find_loop_along compare_ s key fuel x 0 n (some p) link under) ∙ e)
  ]
  less_than-follows (suc fuel) (suc l) x p p' found a e = elim (after-cases (next s x (suc l))) [
    | inl stops ↦
        less_than_down fuel l x a stops
        ∙ less_than-follows fuel l x (update p (suc l) x) p' found a
            (sym (find_loop_down compare_ s key fuel x l (some p) stops) ∙ e)
    | inr (n, link, under) ↦
        less_than_along fuel (suc l) x n a link under
        ∙ less_than-follows fuel (suc l) n p p' found (Asserted-next n under)
            (sym (find_loop_along compare_ s key fuel x (suc l) n (some p) link under) ∙ e)
  ]

  module _ (order : IsOrder compare_) (ok : IsSkipList compare_ s) where
    fill_lowest :
        (level : ℕ) (p : ℕ → ℕ)
        → fill compare_ s key order ok level p 0 ≡ last_lt compare_ s key s.head_ (ok.chain 0)
    fill_lowest zero p = refl
    fill_lowest (suc l) p = fill_lowest l _

    -- On a well-formed list, with a comparator that is a strict order, and with enough fuel,
    -- `FindLessThan` returns: its assertion holds in every round, and what it returns is the last
    -- node of the lowest level whose key is less than `key`, or the head if there is none.
    pub find_less_than_lem :
        (fuel : ℕ)
        → search_rounds compare_ s key order ok ≤ fuel
        → find_less_than compare_ fuel s key ≡ some (last_lt compare_ s key s.head_ (ok.chain 0))
    unfolding find_less_than
    find_less_than_lem fuel enough =
        let top = s.max_height_ - 1 in
        let prev : ℕ → ℕ = λ i. 0 in
        let head : Asserted s.head_ = ground arith in
        less_than-follows fuel top s.head_ prev (fill compare_ s key order ok top prev)
          (first_ge compare_ s key (ok.chain 0)) head
          (find_from_head compare_ s key order ok fuel (some prev) enough)
        ∙ ap some (fill_lowest top prev)
