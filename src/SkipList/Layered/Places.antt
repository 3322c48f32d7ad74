-- ===== src/SkipList/Layered/Places.antt =====
-- Where a node stands on a level, and how that changes when nodes come between.
use rockscopy.Base.{ℕ, suc, ◌≤◌, ◌<◌, ◌≡◌, arith, inl, inr, ◌==◌, if◌then◌else◌}
use rockscopy.Base.{List, [], ◌∷◌, Bool-cases, length, some, false}
use rockscopy.Slice.{Sign}
use rockscopy.SkipList.{SkipList, next}
use rockscopy.SkipList.Chain.{Among, Links}
use rockscopy.SkipList.Layered.Splice.{put_after, Links-acyclic, Among-move}

-- The second list is the first with more nodes between.
pub data Within : List ℕ → List ℕ → Type 0 where
  done : Within [] []
  keep : {xs ys : List ℕ} (x : ℕ) → Within xs ys → Within (x ∷ xs) (x ∷ ys)
  skip : {xs ys : List ℕ} (y : ℕ) → Within xs ys → Within xs (y ∷ ys)

pub Within-refl : (xs : List ℕ) → Within xs xs
Within-refl [] = done
Within-refl (x ∷ xs) = keep x (Within-refl xs)

pub put_after-Within : (h p x : ℕ) (xs : List ℕ) → Within xs (put_after h p x xs)
unfolding put_after
put_after-Within h p x [] = elim (Bool-cases (h == p)) [
  | inl here ↦ rw here (skip x done)
  | inr there ↦ rw there done
]
put_after-Within h p x (y ∷ ys) = elim (Bool-cases (h == p)) [
  | inl here ↦ rw here (skip x (Within-refl (y ∷ ys)))
  | inr there ↦ rw there (keep y (put_after-Within y p x ys))
]

pub Within-Among : {xs ys : List ℕ} (z : ℕ) → Within xs ys → Among z xs → Among z ys
Within-Among z done m = m
Within-Among z (keep x w) (inl e) = inl e
Within-Among z (keep x w) (inr m) = inr (Within-Among z w m)
Within-Among z (skip y w) m = inr (Within-Among z w m)

-- How many nodes stand before `x`.
abbrev pub place : ℕ → List ℕ → ℕ
place x [] = 0
place x (y ∷ ys) = if y == x then 0 else suc (place x ys)

pub place-lt : (x : ℕ) (xs : List ℕ) → Among x xs → place x xs < length xs
place-lt x [] m = absurd m
place-lt x (y ∷ ys) m = elim (Bool-cases (y == x)) [
  | inl here ↦ rw here (omega arith)
  | inr there ↦
      rw there (omega (arith, place-lt x ys (elim m [ inl e ↦ absurd (ground arith) | inr k ↦ k ])))
]

abbrev pub IsWithoutRepeats : List ℕ → Type 0
IsWithoutRepeats [] = Unit {0}
IsWithoutRepeats (x ∷ xs) = (¬ Among x xs) × IsWithoutRepeats xs

pub place-Within :
    {xs ys : List ℕ} (x : ℕ)
    → Within xs ys
    → IsWithoutRepeats ys
    → Among x xs
    → place x xs ≤ place x ys
place-Within x done d m = omega arith
place-Within x (keep {xs = xs} {ys = ys} y w) d m = elim (Bool-cases (y == x)) [
  | inl here ↦ rw here (omega arith)
  | inr there ↦
      rw there
        (omega (arith, place-Within x w d.1 (elim m [ inl e ↦ absurd (ground arith) | inr k ↦ k ])))
]
place-Within x (skip {ys = ys} y w) d m = elim (Bool-cases (y == x)) [
  | inl here ↦ absurd (d.0 (let e : y ≡ x = ground arith in rw e (Within-Among x w m)))
  | inr there ↦ rw there (omega (arith, place-Within x w d.1 m))
]

module _ {K : Type 0} (compare_ : K → K → Sign) (s : SkipList K) (i : ℕ) where
  pub Links-IsWithoutRepeats :
      (h : ℕ) (xs : List ℕ) → Links compare_ s i h xs → IsWithoutRepeats (h ∷ xs)
  Links-IsWithoutRepeats h [] l = (λ m. m, tt)
  Links-IsWithoutRepeats h (y ∷ ys) l =
      (Links-acyclic compare_ s i h (y ∷ ys) l, Links-IsWithoutRepeats y ys l.1)

  next-Among :
      (h x y : ℕ) (xs : List ℕ)
      → Links compare_ s i h xs
      → Among x (h ∷ xs)
      → next s x i ≡ some y
      → Among y xs
  next-Among h x y [] l (inl e) n = cc
  next-Among h x y [] l (inr m) n = absurd m
  next-Among h x y (z ∷ zs) l (inl e) n = inl (ground (arith, l.0, n, e))
  next-Among h x y (z ∷ zs) l (inr m) n = inr (next-Among z x y zs l.1 m n)

  -- The next node stands one further.
  pub place-next :
      (h x y : ℕ) (xs : List ℕ)
      → Links compare_ s i h xs
      → Among x (h ∷ xs)
      → next s x i ≡ some y
      → place y (h ∷ xs) ≡ suc (place x (h ∷ xs))
  place-next h x y [] l (inl e) n = cc
  place-next h x y [] l (inr m) n = absurd m
  place-next h x y (z ∷ zs) l (inl e) n =
      let e' : y ≡ z = ground (arith, l.0, n, e) in
      let apart : (h == z) ≡ false = elim (Bool-cases (h == z)) [
        | inl k ↦ absurd (Links-acyclic compare_ s i h (z ∷ zs) l (inl (ground arith)))
        | inr k ↦ k
      ] in
      rw (e, e') (ground (arith, apart))
  place-next h x y (z ∷ zs) l (inr m) n =
      let far : (h == x) ≡ false = elim (Bool-cases (h == x)) [
        | inl k ↦
            let e : h ≡ x = ground arith in
            absurd (Links-acyclic compare_ s i h (z ∷ zs) l (Among-move h x (z ∷ zs) e m))
        | inr k ↦ k
      ] in
      let farther : (h == y) ≡ false = elim (Bool-cases (h == y)) [
        | inl k ↦
            let e : h ≡ y = ground arith in
            absurd (
              Links-acyclic compare_ s i h (z ∷ zs) l
                (Among-move h y (z ∷ zs) e (inr (next-Among z x y zs l.1 m n))))
        | inr k ↦ k
      ] in
      let later = place-next z x y zs l.1 m n in rw (far, farther) (omega (arith, later))
