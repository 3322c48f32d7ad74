-- ===== src/SkipList/Chain.antt =====
-- The shape of a skip list: a chain of nodes on each level, in the order of their keys, and every
-- node of a level also on the level below.
use rockscopy.Base.{ℕ, suc, ◌≤◌, ◌<◌, ◌≡◌, refl, ◌⊎◌}
use rockscopy.Base.{List, [], ◌∷◌, All, Option, none, some, true, false, ◌↔◌}
use rockscopy.Slice.{Sign, less, same, greater}
use rockscopy.SkipList.{SkipList, next, key_of, is_less}

-- What a comparator owes the list: a strict order, and 0 on equal keys and only there.
pub record IsOrder {K : Type 0} (compare_ : K → K → Sign) : Type 0 where
  pub trans : (a b c : K) → compare_ a b ≡ less → compare_ b c ≡ less → compare_ a c ≡ less
  pub same_iff : (a b : K) → (compare_ a b ≡ same) ↔ (a ≡ b)
  pub less_iff : (a b : K) → (compare_ a b ≡ less) ↔ (compare_ b a ≡ greater)

module _ {K : Type 0} (compare_ : K → K → Sign) (order : IsOrder compare_) where
  -- What is not less than a smaller key is not less either, read the other way round.
  pub less_via : (a b c : K) → ¬ (compare_ a b ≡ less) → compare_ a c ≡ less → compare_ b c ≡ less
  less_via a b c past h = go (compare_ b c) refl
    where
      go : (r : Sign) → compare_ b c ≡ r → compare_ b c ≡ less
      go less e = e
      go same e = absurd (past (rw ((order.same_iff b c).0 e) h))
      go greater e = absurd (past (order.trans a c b h ((order.less_iff c b).1 e)))

  pub less_asym : (a b : K) → compare_ a b ≡ less → ¬ (compare_ b a ≡ less)
  less_asym a b h k = cc ((order.less_iff a b).0 h)

  pub neither : (a b : K) → ¬ (compare_ a b ≡ less) → ¬ (compare_ b a ≡ less) → a ≡ b
  neither a b h k = go (compare_ a b) refl
    where
      go : (r : Sign) → compare_ a b ≡ r → a ≡ b
      go less e = absurd (h e)
      go same e = (order.same_iff a b).0 e
      go greater e = absurd (k ((order.less_iff b a).1 e))

-- `x` is one of the nodes of the list.
abbrev pub Among : ℕ → List ℕ → Type 0
Among x [] = ⊥
Among x (y ∷ ys) = (x ≡ y) ⊎ Among x ys

module _ {K : Type 0} (compare_ : K → K → Sign) (s : SkipList K) where
  -- From `x` on, the pointers of a level lead through these nodes and then to null.
  abbrev pub Links : ℕ → ℕ → List ℕ → Type 0
  Links level x [] = next s x level ≡ none
  Links level x (y ∷ ys) = (next s x level ≡ some y) × Links level y ys

  -- The key of `y` is not less than that of `x`.
  abbrev pub Below : ℕ → ℕ → Type 0
  Below x y = ¬ (compare_ (key_of s y) (key_of s x) ≡ less)

  abbrev pub Ascending : List ℕ → Type 0
  Ascending [] = Unit {0}
  Ascending (x ∷ xs) = All (Below x) xs × Ascending xs

  pub record IsSkipList : Type 0 where
    pub chain : ℕ → List ℕ
    pub links : (i : ℕ) → i < s.max_height_ → Links i s.head_ (chain i)
    pub ascending : (i : ℕ) → i < s.max_height_ → Ascending (chain i)
    pub nested :
        (i : ℕ) → suc i < s.max_height_ → (x : ℕ) → Among x (chain (suc i)) → Among x (chain i)
    pub positive : 1 ≤ s.max_height_
    pub headless : (i : ℕ) → i < s.max_height_ → ¬ Among s.head_ (chain i)

  -- The specification of a search by a walk through a single chain: the first node whose key is not
  -- less than `key`, and the last one whose key is, or `x` if there is none.
  abbrev pub first_ge : K → List ℕ → Option ℕ
  first_ge key [] = none
  first_ge key (y ∷ ys) = elim (is_less (compare_ (key_of s y) key)) [
    | true ↦ first_ge key ys
    | false ↦ some y
  ]

  abbrev pub last_lt : K → ℕ → List ℕ → ℕ
  last_lt key x [] = x
  last_lt key x (y ∷ ys) = elim (is_less (compare_ (key_of s y) key)) [
    | true ↦ last_lt key y ys
    | false ↦ x
  ]
