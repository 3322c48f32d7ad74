-- ===== src/SkipList/Layered/Splice.antt =====
-- A node put into a chain behind another one.
use rockscopy.Base.{ℕ, suc, ◌≤◌, ◌<◌, ◌≡◌, refl, arith, ◌⊎◌, inl, inr, sym, ◌∙◌, ap, if◌then◌else◌}
use rockscopy.Base.{List, [], ◌∷◌, some, length, true, false, Bool-cases, ◌==◌}
use rockscopy.Slice.{Sign}
use rockscopy.SkipList.{SkipList, next, set_next, key_of}
use rockscopy.SkipList.Chain.{Among, Links}

-- `x` behind `p` in the chain `xs` that follows `h`.
unfoldable pub put_after : ℕ → ℕ → ℕ → List ℕ → List ℕ
put_after h p x [] = if h == p then x ∷ [] else []
put_after h p x (y ∷ ys) = if h == p then x ∷ y ∷ ys else y ∷ put_after y p x ys

pub put_after-members :
    (h p x : ℕ) (xs : List ℕ) (z : ℕ) → Among z (put_after h p x xs) → (z ≡ x) ⊎ Among z xs
unfolding put_after
put_after-members h p x [] z m = elim (Bool-cases (h == p)) [
  | inl here ↦ elim (rw here at m) [ inl e ↦ inl e | inr k ↦ absurd k ]
  | inr there ↦ absurd (rw there at m)
]
put_after-members h p x (y ∷ ys) z m = elim (Bool-cases (h == p)) [
  | inl here ↦ rw here at m
  | inr there ↦ elim (rw there at m) [
    | inl e ↦ inr (inl e)
    | inr k ↦ elim (put_after-members y p x ys z k) [ inl e ↦ inl e | inr n ↦ inr (inr n) ]
  ]
]

pub put_after-keeps : (h p x : ℕ) (xs : List ℕ) (z : ℕ) → Among z xs → Among z (put_after h p x xs)
unfolding put_after
put_after-keeps h p x [] z m = absurd m
put_after-keeps h p x (y ∷ ys) z m = elim (Bool-cases (h == p)) [
  | inl here ↦ rw here (inr m)
  | inr there ↦ rw there (elim m [ inl e ↦ inl e | inr k ↦ inr (put_after-keeps y p x ys z k) ])
]

pub put_after-adds : (h p x : ℕ) (xs : List ℕ) → (p ≡ h) ⊎ Among p xs → Among x (put_after h p x xs)
unfolding put_after
put_after-adds h p x [] (inl e) = ground arith
put_after-adds h p x [] (inr m) = absurd m
put_after-adds h p x (y ∷ ys) v = elim (Bool-cases (h == p)) [
  | inl here ↦ rw here (inl refl)
  | inr there ↦
      rw there
        (inr (put_after-adds y p x ys (elim v [ inl e ↦ absurd (ground arith) | inr m ↦ m ])))
]

pub length-put_after : (h p x : ℕ) (xs : List ℕ) → length (put_after h p x xs) ≤ suc (length xs)
unfolding put_after
length-put_after h p x [] = ground arith
length-put_after h p x (y ∷ ys) = ground (arith, length-put_after y p x ys)

pub Among-move : (a b : ℕ) (xs : List ℕ) → a ≡ b → Among b xs → Among a xs
Among-move a b xs e m = rw e m

module _ {K : Type 0} (compare_ : K → K → Sign) where
  Links-unique :
      (s : SkipList K) (i h : ℕ) (xs ys : List ℕ)
      → Links compare_ s i h xs
      → Links compare_ s i h ys
      → xs ≡ ys
  Links-unique s i h [] [] l k = refl
  Links-unique s i h [] (y ∷ ys) l (e, k) = cc
  Links-unique s i h (x ∷ xs) [] (e, l) k = cc
  Links-unique s i h (x ∷ xs) (y ∷ ys) (e, l) (e', k) =
      let here : x ≡ y = ground (arith, e, e') in
      rw here (ap (λ (t : List ℕ). y ∷ t) (Links-unique s i y xs ys (rw here at l) k))

  Links-behind :
      (s : SkipList K) (i h x : ℕ) (xs : List ℕ)
      → Links compare_ s i h xs
      → Among x xs
      → (rest : List ℕ) × Links compare_ s i x rest × (length rest < length xs)
  Links-behind s i h x [] l m = absurd m
  Links-behind s i h x (y ∷ ys) (e, l) (inl k) = (ys, rw k l, omega arith)
  Links-behind s i h x (y ∷ ys) (e, l) (inr m) =
      let (rest, k, shorter) = Links-behind s i y x ys l m in (rest, k, omega arith)

  -- A chain that ends does not come back to where it starts.
  pub Links-acyclic :
      (s : SkipList K) (i h : ℕ) (xs : List ℕ) → Links compare_ s i h xs → ¬ Among h xs
  Links-acyclic s i h xs l m =
      let (rest, k, shorter) = Links-behind s i h h xs l m in
      omega (arith, ap length (Links-unique s i h xs rest l k), shorter)

  pub Links-frame :
      (s s' : SkipList K) (i h : ℕ) (xs : List ℕ)
      → ((z : ℕ) → (z ≡ h) ⊎ Among z xs → next s' z i ≡ next s z i)
      → Links compare_ s i h xs
      → Links compare_ s' i h xs
  Links-frame s s' i h [] eq links = eq h (inl refl) ∙ links
  Links-frame s s' i h (y ∷ ys) eq (e, links) =
      (eq h (inl refl) ∙ e, Links-frame s s' i y ys (λ z m. eq z (inr m)) links)

  links_unique :
      (s : SkipList K) (i x : ℕ) (xs ys : List ℕ)
      → Links compare_ s i x xs
      → Links compare_ s i x ys
      → length xs ≡ length ys
  links_unique s i x [] [] a b = refl
  links_unique s i x [] (y ∷ ys) a (e, b) = cc
  links_unique s i x (y ∷ ys) [] (e, a) b = cc
  links_unique s i x (y ∷ ys) (z ∷ zs) (e, a) (e', b) =
      let same_ : z ≡ y = cc in ap suc (links_unique s i y ys zs a (rw (← same_) b))

  behind :
      (s : SkipList K) (i p : ℕ) (xs : List ℕ) (x : ℕ)
      → Links compare_ s i p xs
      → Among x xs
      → (rest : List ℕ) × Links compare_ s i x rest × (length rest < length xs)
  behind s i p [] x links m = absurd m
  behind s i p (y ∷ ys) x links (inl e) = (ys, rw e links.1, omega arith)
  behind s i p (y ∷ ys) x links (inr m) =
      let (rest, l, short) = behind s i y ys x links.1 m in (rest, l, omega (arith, short))

  -- No node comes again on its level.
  pub no_return : (s : SkipList K) (i x : ℕ) (xs : List ℕ) → Links compare_ s i x xs → ¬ Among x xs
  no_return s i x xs links m =
      let (rest, l, short) = behind s i x xs x links m in
      let e = links_unique s i x xs rest links l in omega (arith, e, short)

-- The node `x` linked behind `p` on level `i`.
unfoldable pub linked : {K : Type 0} → ℕ → ℕ → ℕ → SkipList K → SkipList K
linked i p x s = set_next p i (some x) (set_next x i (next s p i) s)

module _ {K : Type 0} (compare_ : K → K → Sign) (s : SkipList K) (i p x : ℕ)
    (apart : (p == x) ≡ false) where
  linked_behind : next (linked i p x s) p i ≡ some x
  unfolding linked next set_next
  linked_behind = ground arith

  linked_new : next (linked i p x s) x i ≡ next s p i
  unfolding linked next set_next
  linked_new = ground arith

  pub linked_else :
      (z j : ℕ) → (z == p) ≡ false → (z == x) ≡ false → next (linked i p x s) z j ≡ next s z j
  unfolding linked next set_next
  linked_else z j e e' = ground arith

  pub linked_level : (z j : ℕ) → (i == j) ≡ false → next (linked i p x s) z j ≡ next s z j
  unfolding linked next set_next
  linked_level z j e = ground arith

  pub linked_key : (z : ℕ) → key_of (linked i p x s) z ≡ key_of s z
  unfolding linked key_of set_next
  linked_key z = ground arith

  -- The level behind a node that is not `p`, and that does not lead to it.
  linked_rest :
      (h : ℕ) (xs : List ℕ)
      → ¬ (h ≡ p)
      → ¬ Among p xs
      → ¬ (h ≡ x)
      → ¬ Among x xs
      → Links compare_ s i h xs
      → Links compare_ (linked i p x s) i h xs
  linked_rest h xs hp mp hx mx links =
      Links-frame compare_ s (linked i p x s) i h xs
        (λ z m.
          linked_else z i
            (elim (Bool-cases (z == p)) [
              | inl e ↦
                  let e' : z ≡ p = ground arith in
                  elim m [ inl k ↦ absurd (hp (sym k ∙ e')) | inr k ↦ absurd (mp (rw (← e') k)) ]
              | inr e ↦ e
            ])
            (elim (Bool-cases (z == x)) [
              | inl e ↦
                  let e' : z ≡ x = ground arith in
                  elim m [ inl k ↦ absurd (hx (sym k ∙ e')) | inr k ↦ absurd (mx (rw (← e') k)) ]
              | inr e ↦ e
            ]))
        links

  -- The level then leads through `x`.
  pub Links-linked :
      (h : ℕ) (xs : List ℕ)
      → Links compare_ s i h xs
      → ¬ (h ≡ x)
      → ¬ Among x xs
      → (p ≡ h) ⊎ Among p xs
      → Links compare_ (linked i p x s) i h (put_after h p x xs)
  unfolding put_after
  Links-linked h [] links hx mx (inr m) = absurd m
  Links-linked h [] links hx mx (inl e) =
      let here : (h == p) ≡ true = ground arith in
      rw here (rw (← e) linked_behind, linked_new ∙ rw e links)
  Links-linked h (y ∷ ys) links hx mx v = elim (Bool-cases (h == p)) [
    | inl here ↦
        let e : h ≡ p = ground arith in
        let back = no_return compare_ s i h (y ∷ ys) links in
        rw here (
          rw e linked_behind,
          (
            linked_new ∙ rw (← e) links.0,
            linked_rest y ys (λ k. back (inl (e ∙ sym k))) (λ m. back (inr (Among-move h p ys e m)))
                (λ k. mx (inl (sym k))) (λ m. mx (inr m)) links.1,
          ),
        )
    | inr there ↦
        let hx' : (h == x) ≡ false = elim (Bool-cases (h == x)) [
          | inl e ↦ absurd (hx (ground arith))
          | inr e ↦ e
        ] in
        rw there (
          linked_else h i there hx' ∙ links.0,
          Links-linked y ys links.1 (λ k. mx (inl (sym k))) (λ m. mx (inr m))
              (elim v [ inl e ↦ absurd (ground arith) | inr m ↦ m ]),
        )
  ]
