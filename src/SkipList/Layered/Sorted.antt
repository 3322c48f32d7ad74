-- ===== src/SkipList/Layered/Sorted.antt =====
-- A chain in the order of the keys, with a node put behind the last smaller one.
use rockscopy.Base.{◌↔◌, ℕ, ◌≡◌, refl, arith, ◌⊎◌, inl, inr, sym, ◌∙◌, ap}
use rockscopy.Base.{List, [], ◌∷◌, All, true, false, Bool-cases, ◌==◌}
use rockscopy.Slice.{Sign}
use rockscopy.SkipList.{SkipList, key_of, is_less}
use rockscopy.SkipList.Chain.{IsOrder, Among, Below, Ascending, Links, last_lt, less_via, less_asym}
use rockscopy.SkipList.Position.{is_less-less, past-less}
use rockscopy.SkipList.Layered.Contains.{keys, Has}
use rockscopy.SkipList.Layered.Splice.{put_after, put_after-members, Among-move, Links-acyclic}

-- The keys in order, with one more.
unfoldable pub insert_sorted : {K : Type 0} → (K → K → Sign) → K → List K → List K
insert_sorted compare_ key [] = key ∷ []
insert_sorted compare_ key (k ∷ ks) = elim (is_less (compare_ k key)) [
  | true ↦ k ∷ insert_sorted compare_ key ks
  | false ↦ key ∷ k ∷ ks
]

module _ {K : Type 0} (compare_ : K → K → Sign) (key : K) where
  pub insert_sorted-under :
      (k : K) (ks : List K)
      → is_less (compare_ k key) ≡ true
      → insert_sorted compare_ key (k ∷ ks) ≡ k ∷ insert_sorted compare_ key ks
  unfolding insert_sorted
  insert_sorted-under k ks under = rw (under, insert_sorted) refl

  pub insert_sorted-past :
      (k : K) (ks : List K)
      → is_less (compare_ k key) ≡ false
      → insert_sorted compare_ key (k ∷ ks) ≡ key ∷ k ∷ ks
  unfolding insert_sorted
  insert_sorted-past k ks past = rw (past, insert_sorted) refl

module _ {K : Type 0} (compare_ : K → K → Sign) where
  pub Has-insert_sorted :
      (q key : K) (ks : List K) → Has q (insert_sorted compare_ key ks) ↔ ((q ≡ key) ⊎ Has q ks)
  unfolding insert_sorted
  Has-insert_sorted q key [] = (λ h. h, λ h. h)
  Has-insert_sorted q key (k ∷ ks) = elim (Bool-cases (is_less (compare_ k key))) [
    | inl under ↦
        let (there, back) = Has-insert_sorted q key ks in
        rw (insert_sorted, under)
          (
            λ h. elim h [
              | inl e ↦ inr (inl e)
              | inr m ↦ elim (there m) [ inl e ↦ inl e | inr n ↦ inr (inr n) ]
            ],
            λ h. elim h [
              | inl e ↦ inr (back (inl e))
              | inr m ↦ elim m [ inl e ↦ inl e | inr n ↦ inr (back (inr n)) ]
            ],
          )
    | inr past ↦ rw (insert_sorted, past) (λ h. h, λ h. h)
  ]

module _ {K : Type 0} (compare_ : K → K → Sign) (order : IsOrder compare_) (s : SkipList K)
    (x : ℕ) where
  abbrev key : K
  key = key_of s x

  All-members : (P : ℕ → Type 0) (xs : List ℕ) → ((z : ℕ) → Among z xs → P z) → All P xs
  All-members P [] h = tt
  All-members P (y ∷ ys) h = (h y (inl refl), All-members P ys (λ z m. h z (inr m)))

  All-Among : (P : ℕ → Type 0) (xs : List ℕ) (z : ℕ) → All P xs → Among z xs → P z
  All-Among P [] z h m = absurd m
  All-Among P (y ∷ ys) z (hy, hs) (inl e) = rw e hy
  All-Among P (y ∷ ys) z (hy, hs) (inr m) = All-Among P ys z hs m

  last_lt_under :
      (h y : ℕ) (ys : List ℕ)
      → is_less (compare_ (key_of s y) key) ≡ true
      → last_lt compare_ s key h (y ∷ ys) ≡ last_lt compare_ s key y ys
  last_lt_under h y ys under = rw (under, last_lt) refl

  last_lt_past :
      (h y : ℕ) (ys : List ℕ)
      → is_less (compare_ (key_of s y) key) ≡ false
      → last_lt compare_ s key h (y ∷ ys) ≡ h
  last_lt_past h y ys past = rw (past, last_lt) refl

  last_lt-Among : (h q : ℕ) (xs : List ℕ) → last_lt compare_ s key h xs ≡ q → (q ≡ h) ⊎ Among q xs
  last_lt-Among h q [] e = inl (sym e)
  last_lt-Among h q (y ∷ ys) e = elim (Bool-cases (is_less (compare_ (key_of s y) key))) [
    | inl under ↦ inr (last_lt-Among y q ys (sym (last_lt_under h y ys under) ∙ e))
    | inr past ↦ inl (sym e ∙ last_lt_past h y ys past)
  ]

  -- What is put behind `q` is in order.
  abbrev Sorted : ℕ → ℕ → List ℕ → Type 0
  Sorted h q xs =
      Ascending compare_ s (put_after h q x xs)
      × (keys s (put_after h q x xs) ≡ insert_sorted compare_ key (keys s xs))

  Sorted-under :
      (h q y : ℕ) (ys : List ℕ)
      → is_less (compare_ (key_of s y) key) ≡ true
      → (h == q) ≡ false
      → All (Below compare_ s y) ys
      → Sorted y q ys
      → Sorted h q (y ∷ ys)
  unfolding put_after
  Sorted-under h q y ys under there below (asc, eq) =
      let behind_y : All (Below compare_ s y) (put_after y q x ys) =
        All-members (Below compare_ s y) (put_after y q x ys) (λ z m.
          elim (put_after-members y q x ys z m) [
            | inl e ↦ rw e (
                less_asym compare_ order (key_of s y) key
                  (is_less-less compare_ s (key_of s y) key under))
            | inr k ↦ All-Among (Below compare_ s y) ys z below k
          ]) in
      rw there (
        (behind_y, asc),
        ap (λ (t : List K). key_of s y ∷ t) eq
            ∙ sym (insert_sorted-under compare_ key (key_of s y) (keys s ys) under),
      )

  Sorted-past :
      (h q y : ℕ) (ys : List ℕ)
      → is_less (compare_ (key_of s y) key) ≡ false
      → (h == q) ≡ true
      → Ascending compare_ s (y ∷ ys)
      → Sorted h q (y ∷ ys)
  unfolding put_after
  Sorted-past h q y ys past here (below, asc) =
      let first_ : Below compare_ s x y = past-less compare_ s (key_of s y) key past in
      let others : All (Below compare_ s x) ys = All-members (Below compare_ s x) ys (λ z m under.
        first_ (
          less_via compare_ order (key_of s z) (key_of s y) key
            (All-Among (Below compare_ s y) ys z below m) under)) in
      rw here (
        ((first_, others), (below, asc)),
        sym (insert_sorted-past compare_ key (key_of s y) (keys s ys) past),
      )

  -- Behind the last smaller node, `x` leaves the level in order, and its key comes into its place.
  pub put_after-Sorted :
      (h q level : ℕ) (xs : List ℕ)
      → Links compare_ s level h xs
      → last_lt compare_ s key h xs ≡ q
      → Ascending compare_ s xs
      → Sorted h q xs
  unfolding put_after insert_sorted
  put_after-Sorted h q level [] links e asc =
      let here : (h == q) ≡ true = ground arith in rw here ((tt, tt), refl)
  put_after-Sorted h q level (y ∷ ys) links e (below, asc) =
      elim (Bool-cases (is_less (compare_ (key_of s y) key))) [
        | inl under ↦
            let e' = sym (last_lt_under h y ys under) ∙ e in
            let there : (h == q) ≡ false = elim (Bool-cases (h == q)) [
              | inl k ↦
                  let e'' : h ≡ q = ground arith in
                  absurd (
                    Links-acyclic compare_ s level h (y ∷ ys) links
                      (Among-move h q (y ∷ ys) e'' (last_lt-Among y q ys e')))
              | inr k ↦ k
            ] in
            Sorted-under h q y ys under there below (put_after-Sorted y q level ys links.1 e' asc)
        | inr past ↦
            let here : (h == q) ≡ true = ground (arith, last_lt_past h y ys past) in
            Sorted-past h q y ys past here (below, asc)
      ]
