-- ===== src/Slice/Compare.antt =====
-- The comparisons of slices against the lexicographic order of their bytes.
use rockscopy.Base.{ℕ, zero, suc, ◌%◌, ◌^◌, ◌≤◌, ◌<◌, Bytes, ◌≡◌, refl, arith, ap}
use rockscopy.Base.{Bool, true, false, not, ltb, leb, ◌==◌, if◌then◌else◌, length, take, ◌↔◌}
use rockscopy.Base.{[], ◌∷◌, none, some, min, ◌∙◌, Bool-cases, inl, inr, length-take}
use rockscopy.Slice.{Slice, Sign, less, same, greater, first_difference, memcmp, compare}
use rockscopy.Slice.{is_same, starts_with, equal, not_equal}

-- The order of the bytes as unsigned numbers, a proper prefix first.
abbrev pub lexicographic : Bytes → Bytes → Sign
lexicographic [] [] = same
lexicographic [] (y ∷ b) = less
lexicographic (x ∷ a) [] = greater
lexicographic (x ∷ a) (y ∷ b) =
    if ltb x y then less else if ltb y x then greater else lexicographic a b

abbrev pub flip : Sign → Sign
flip less = greater
flip same = same
flip greater = less

-- `Slice::compare` behind its `memcmp`.
abbrev by_size : Bytes → Bytes → Sign → Sign
by_size a b r =
    if is_same r
    then if ltb (length a) (length b)
      then less
      else if ltb (length b) (length a)
      then greater
      else r
    else r

by_size-first_difference :
    (n : ℕ) (a b : Bytes)
    → n ≡ min (length a) (length b)
    → by_size a b (first_difference n a b) ≡ lexicographic a b
unfolding is_same first_difference
by_size-first_difference zero [] [] h = refl
by_size-first_difference zero [] (y ∷ b) h = ground arith
by_size-first_difference zero (x ∷ a) [] h = ground arith
by_size-first_difference zero (x ∷ a) (y ∷ b) h = absurd (omega arith)
by_size-first_difference (suc n) [] b h = absurd (omega arith)
by_size-first_difference (suc n) (x ∷ a) [] h = absurd (omega arith)
by_size-first_difference (suc n) (x ∷ a) (y ∷ b) h =
    ground (arith, by_size-first_difference n a b (omega arith))

-- As long as one of the sizes fits an `int`, `compare` reads nothing that the slices do not refer
-- to, and gives the lexicographic order.
pub compare-lexicographic :
    (a b : Slice) → min (length a) (length b) < 2 ^ 31 → compare a b ≡ some (lexicographic a b)
unfolding compare memcmp
compare-lexicographic a b h =
    ground (arith, by_size-first_difference (min (length a) (length b)) a b)

-- Where the smaller size does not fit an `int` and its bit 31 is set, the cast makes it negative,
-- `memcmp` is handed a size past 2^63, and reads beyond both slices.
pub compare_overread :
    (a b : Slice)
    → 2 ^ 31 ≤ min (length a) (length b) % 2 ^ 32
    → min (length a) (length b) < 2 ^ 63
    → compare a b ≡ none
unfolding compare memcmp
compare_overread a b h k = ground arith

lexicographic_self : (a : Bytes) → lexicographic a a ≡ same
lexicographic_self [] = refl
lexicographic_self (x ∷ a) = ground (arith, lexicographic_self a)

lexicographic-eq_same : (a b : Bytes) → lexicographic a b ≡ same → a ≡ b
lexicographic-eq_same [] [] h = refl
lexicographic-eq_same [] (y ∷ b) h = cc
lexicographic-eq_same (x ∷ a) [] h = cc
lexicographic-eq_same (x ∷ a) (y ∷ b) h = ground (arith, lexicographic-eq_same a b)

lexicographic-flip : (a b : Bytes) → lexicographic b a ≡ flip (lexicographic a b)
lexicographic-flip [] [] = refl
lexicographic-flip [] (y ∷ b) = refl
lexicographic-flip (x ∷ a) [] = refl
lexicographic-flip (x ∷ a) (y ∷ b) = ground (arith, lexicographic-flip a b)

lexicographic_trans :
    (a b c : Bytes) → lexicographic a b ≡ less → lexicographic b c ≡ less → lexicographic a c ≡ less
lexicographic_trans [] [] c h k = cc
lexicographic_trans [] (y ∷ b) [] h k = cc
lexicographic_trans [] (y ∷ b) (z ∷ c) h k = refl
lexicographic_trans (x ∷ a) [] c h k = cc
lexicographic_trans (x ∷ a) (y ∷ b) [] h k = cc
lexicographic_trans (x ∷ a) (y ∷ b) (z ∷ c) h k = ground (arith, lexicographic_trans a b c)

abbrev pub IsIntSized : Slice → Type 0
IsIntSized s = length s < 2 ^ 31

compare_small : (a b : Slice) → IsIntSized a → compare a b ≡ some (lexicographic a b)
compare_small a b h = compare-lexicographic a b (omega arith)

-- On slices whose sizes fit an `int`, `compare` always answers, answers 0 on equal contents and
-- only there, and answers the other way round when the operands change places.
pub compare_order :
    (a b : Slice)
    → IsIntSized a
    → IsIntSized b
    → (r : Sign) × (compare a b ≡ some r) × (compare b a ≡ some (flip r)) × ((r ≡ same) ↔ (a ≡ b))
compare_order a b ha hb = (
  lexicographic a b,
  compare_small a b ha,
  compare_small b a hb ∙ ap some (lexicographic-flip a b),
  (lexicographic-eq_same a b, λ e. rw (← e) (lexicographic_self a)),
)

-- On such slices `compare` is transitive.
pub compare_trans :
    (a b c : Slice)
    → IsIntSized a
    → IsIntSized b
    → compare a b ≡ some less
    → compare b c ≡ some less
    → compare a c ≡ some less
compare_trans a b c ha hb h k =
    compare_small a c ha
    ∙ ap some (lexicographic_trans a b c (cc (compare_small a b ha)) (cc (compare_small b c hb)))

-- No difference in the first bytes: they are the same.
same_prefix_iff :
    (x s : Bytes)
    → length x ≤ length s
    → (is_same (first_difference (length x) s x) ≡ true) ↔ (take (length x) s ≡ x)
unfolding is_same first_difference
same_prefix_iff [] s h = (λ e. refl, λ e. refl)
same_prefix_iff (y ∷ x) [] h = absurd (omega arith)
same_prefix_iff (y ∷ x) (z ∷ s) h = ground (arith, same_prefix_iff x s (omega arith))

take_all : (s : Bytes) → take (length s) s ≡ s
take_all [] = refl
take_all (b ∷ s) = ap (λ t. b ∷ t) (take_all s)

-- `starts_with` always answers, and `true` exactly if the first bytes of the slice are those of `x`.
pub starts_with_lem :
    (s x : Slice) → (b : Bool) × (starts_with s x ≡ some b) × ((b ≡ true) ↔ (take (length x) s ≡ x))
unfolding starts_with memcmp
starts_with_lem s x = elim (Bool-cases (leb (length x) (length s))) [
  | inl long ↦
      (is_same (first_difference (length x) s x), ground arith, same_prefix_iff x s (ground arith))
  | inr short ↦
      (false, ground arith, (λ e. cc, λ e. ground (arith, length-take (length x) s, ap length e)))
]

same_contents_iff :
    (x y : Bytes)
    → length x ≡ length y
    → (is_same (first_difference (length x) x y) ≡ true) ↔ (x ≡ y)
same_contents_iff x y e =
    let whole : take (length y) x ≡ x = rw (← e) (take_all x) in
    rw e (rw whole at (same_prefix_iff y x (omega arith)))

-- `operator==` always answers, and `true` exactly on equal contents; `operator!=` answers the
-- opposite.
pub equal_lem :
    (x y : Slice)
    → (b : Bool) × (equal x y ≡ some b) × (not_equal x y ≡ some (not b)) × ((b ≡ true) ↔ (x ≡ y))
unfolding equal not_equal memcmp
equal_lem x y = elim (Bool-cases (length x == length y)) [
  | inl long ↦ (
    is_same (first_difference (length x) x y),
    ground arith,
    ground arith,
    same_contents_iff x y (ground arith),
  )
  | inr short ↦ (false, ground arith, ground arith, (λ e. cc, λ e. ground (arith, ap length e)))
]
