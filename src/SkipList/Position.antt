-- ===== src/SkipList/Position.antt =====
-- Where a search stands on a level, and how it moves: along the level, and down to the next one.
use rockscopy.Base.{ℕ, ◌≤◌, ◌≡◌, refl, arith, ◌⊎◌, inl, inr, sym, ◌∙◌, ap}
use rockscopy.Base.{List, [], ◌∷◌, All, length, true, false}
use rockscopy.Slice.{Sign, less}
use rockscopy.SkipList.{SkipList, key_of, is_less}
use rockscopy.SkipList.Chain.{IsOrder, Among, Links, Below, Ascending, first_ge, last_lt, less_via}

module _ {K : Type 0} (compare_ : K → K → Sign) (s : SkipList K) where
  pub is_less-less : (a b : K) → is_less (compare_ a b) ≡ true → compare_ a b ≡ less
  unfolding is_less
  is_less-less a b h = ground arith

  pub past-less : (a b : K) → is_less (compare_ a b) ≡ false → ¬ (compare_ a b ≡ less)
  unfolding is_less
  past-less a b past h = cc (rw h at past)

  pub less-is_less : (a b : K) → compare_ a b ≡ less → is_less (compare_ a b) ≡ true
  unfolding is_less
  less-is_less a b h = rw h

  -- The key of `x` is less than `key`.
  abbrev pub Under : K → ℕ → Type 0
  Under key x = compare_ (key_of s x) key ≡ less

  -- The search for `key` has come to `x` on a level, with `rest` behind it.
  pub record At (key : K) (chain : List ℕ) (level x : ℕ) (rest : List ℕ) : Type 0 where
    pub linked : Links compare_ s level x rest
    pub found : first_ge compare_ s key chain ≡ first_ge compare_ s key rest
    pub before : last_lt compare_ s key s.head_ chain ≡ last_lt compare_ s key x rest
    pub short : length rest ≤ length chain
    pub members : (z : ℕ) → Among z rest → Among z chain

  module _ (key : K) (y : ℕ) (ys : List ℕ)
      (under : is_less (compare_ (key_of s y) key) ≡ true) where
    first_ge_passes : first_ge compare_ s key (y ∷ ys) ≡ first_ge compare_ s key ys
    first_ge_passes = rw (under, first_ge)

    last_lt_passes : (x : ℕ) → last_lt compare_ s key x (y ∷ ys) ≡ last_lt compare_ s key y ys
    last_lt_passes x = rw (under, last_lt)

  pub At-start :
      (key : K) (chain : List ℕ) (level : ℕ)
      → Links compare_ s level s.head_ chain
      → At key chain level s.head_ chain
  At-start key chain level h = record {
    linked = h;
    found = refl;
    before = refl;
    short = omega arith;
    members = λ z m. m;
  }

  pub At-advance :
      {key : K} {chain : List ℕ} {level x : ℕ} (y : ℕ) (ys : List ℕ)
      → At key chain level x (y ∷ ys)
      → is_less (compare_ (key_of s y) key) ≡ true
      → At key chain level y ys
  At-advance {key} {x = x} y ys a under = record {
    linked = a.linked.1;
    found = a.found ∙ first_ge_passes key y ys under;
    before = a.before ∙ last_lt_passes key y ys under x;
    short = omega (arith, a.short);
    members = λ z m. a.members z (inr m);
  }

  Among-All : (P : ℕ → Type 0) (xs : List ℕ) (x : ℕ) → All P xs → Among x xs → P x
  Among-All P [] x h m = absurd m
  Among-All P (y ∷ ys) x (hy, hs) (inl e) = rw e hy
  Among-All P (y ∷ ys) x (hy, hs) (inr m) = Among-All P ys x hs m

  module _ (order : IsOrder compare_) where
    -- From `p` with `xs` behind it, the search passes every node up to `x`.
    walk :
        (key : K) (level p : ℕ) (xs : List ℕ) (x : ℕ)
        → Links compare_ s level p xs
        → Ascending compare_ s xs
        → Among x xs
        → Under key x
        → (rest : List ℕ) × Links compare_ s level x rest
          × (first_ge compare_ s key xs ≡ first_ge compare_ s key rest)
          × (last_lt compare_ s key p xs ≡ last_lt compare_ s key x rest)
          × (length rest ≤ length xs)
          × ((z : ℕ) → Among z rest → Among z xs)
    walk key level p [] x links asc m u = absurd m
    walk key level p (y ∷ ys) x links asc (inl e) u =
        let under : is_less (compare_ (key_of s y) key) ≡ true =
          less-is_less (key_of s y) key (rw (← e) u) in
        (
          ys,
          rw e links.1,
          first_ge_passes key y ys under,
          last_lt_passes key y ys under p ∙ ap (λ (t : ℕ). last_lt compare_ s key t ys) (sym e),
          omega arith,
          λ z m. inr m,
        )
    walk key level p (y ∷ ys) x links asc (inr m) u =
        let below : Below compare_ s y x = Among-All (Below compare_ s y) ys x asc.0 m in
        let under : is_less (compare_ (key_of s y) key) ≡ true =
          less-is_less (key_of s y) key
            (less_via compare_ order (key_of s x) (key_of s y) key below u) in
        let (rest, l, f, b, short, members) = walk key level y ys x links.1 asc.1 m u in
        (
          rest,
          l,
          first_ge_passes key y ys under ∙ f,
          last_lt_passes key y ys under p ∙ b,
          omega arith,
          λ z k. inr (members z k),
        )

    -- On the level below, the search goes on from the same node.
    pub At-descend :
        (key : K) (chain : List ℕ) (level x : ℕ)
        → Links compare_ s level s.head_ chain
        → Ascending compare_ s chain
        → (x ≡ s.head_) ⊎ (Among x chain × Under key x)
        → (rest : List ℕ) × At key chain level x rest
    At-descend key chain level x links asc (inl e) = (chain, rw e (At-start key chain level links))
    At-descend key chain level x links asc (inr (m, u)) =
        let (rest, l, f, b, short, members) = walk key level s.head_ chain x links asc m u in
        (rest, record { linked = l; found = f; before = b; short = short; members = members })
