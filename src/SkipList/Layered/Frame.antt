-- ===== src/SkipList/Layered/Frame.antt =====
-- What of a list's shape depends on which of its links and keys.
use rockscopy.Base.{ℕ, ◌≤◌, ◌<◌, ◌≡◌, refl, ◌⊎◌, inl, inr}
use rockscopy.Base.{List, [], ◌∷◌, All, true, false, Bool-cases}
use rockscopy.Slice.{Sign}
use rockscopy.SkipList.{SkipList, next, key_of, is_less, max_height}
use rockscopy.SkipList.Chain.{Among, Below, Ascending, last_lt}
use rockscopy.SkipList.Layered.{IsLayered}
use rockscopy.SkipList.Layered.Contains.{keys}
use rockscopy.SkipList.Layered.Splice.{Links-frame}

module _ {K : Type 0} (compare_ : K → K → Sign) (s s' : SkipList K) where
  Below-frame :
      (y : ℕ) (ys : List ℕ)
      → key_of s' y ≡ key_of s y
      → ((z : ℕ) → Among z ys → key_of s' z ≡ key_of s z)
      → All (Below compare_ s y) ys
      → All (Below compare_ s' y) ys
  Below-frame y [] e eq below = tt
  Below-frame y (z ∷ zs) e eq (b, bs) =
      (rw (e, eq z (inl refl)) b, Below-frame y zs e (λ w m. eq w (inr m)) bs)

  pub Ascending-frame :
      (xs : List ℕ)
      → ((z : ℕ) → Among z xs → key_of s' z ≡ key_of s z)
      → Ascending compare_ s xs
      → Ascending compare_ s' xs
  Ascending-frame [] eq asc = tt
  Ascending-frame (y ∷ ys) eq (below, asc) = (
    Below-frame y ys (eq y (inl refl)) (λ z m. eq z (inr m)) below,
    Ascending-frame ys (λ z m. eq z (inr m)) asc,
  )

  pub keys-frame :
      (xs : List ℕ) → ((z : ℕ) → Among z xs → key_of s' z ≡ key_of s z) → keys s' xs ≡ keys s xs
  keys-frame [] eq = refl
  keys-frame (y ∷ ys) eq = rw (eq y (inl refl), keys-frame ys (λ z m. eq z (inr m))) refl

  pub last_lt-frame :
      (key : K) (h : ℕ) (xs : List ℕ)
      → ((z : ℕ) → Among z xs → key_of s' z ≡ key_of s z)
      → last_lt compare_ s' key h xs ≡ last_lt compare_ s key h xs
  last_lt-frame key h [] eq = refl
  last_lt-frame key h (y ∷ ys) eq =
      let at_y : key_of s' y ≡ key_of s y = eq y (inl refl) in
      elim (Bool-cases (is_less (compare_ (key_of s y) key))) [
        | inl under ↦
            let under' : is_less (compare_ (key_of s' y) key) ≡ true = rw at_y under in
            rw (last_lt, under, under') (last_lt-frame key y ys (λ z m. eq z (inr m)))
        | inr past ↦
            let past' : is_less (compare_ (key_of s' y) key) ≡ false = rw at_y past in
            rw (last_lt, past, past') refl
      ]

  -- A change that leaves the head, the links and the keys of the nodes keeps the shape.
  pub IsLayered-frame :
      (chain : ℕ → List ℕ)
      → s'.head_ ≡ s.head_
      → 1 ≤ s'.max_height_
      → s'.max_height_ ≤ max_height
      → ((i z : ℕ) → i < max_height → (z ≡ s.head_) ⊎ Among z (chain i) → next s' z i ≡ next s z i)
      → ((z : ℕ) → Among z (chain 0) → key_of s' z ≡ key_of s z)
      → IsLayered compare_ s chain
      → IsLayered compare_ s' chain
  unfolding next
  IsLayered-frame chain head low high links_eq keys_eq ok = record {
    links = λ i lt.
        rw head (
          Links-frame compare_ s s' i s.head_ (chain i) (λ z m. links_eq i z lt m) (ok.links i lt));
    ascending = Ascending-frame (chain 0) keys_eq ok.ascending;
    nested = ok.nested;
    headless = λ m. ok.headless (rw head at m);
    low = low;
    high = high;
  }
