-- ===== src/Random/Laws.antt =====
-- `Random` against the recurrence that its comments state, and the ranges of its results.
use native.Mathlib.Nat.{mod-lt, div-add-mod, pow-suc, pow-le-pow_right, one-le-pow}
use rockscopy.Base.{
  ℕ, zero, suc, ◌+◌, ◌-◌, ◌*◌, ◌/◌, ◌%◌, ◌^◌, ◌≤◌, ◌<◌, ◌≡◌, refl, arith, ◌∙◌, ap, ◌≢◌,
}
use rockscopy.Base.{◌<<<◌, ltb, true, ◌↔◌, if◌then◌else◌}
use rockscopy.Base.Bits.{bit_and_mask}
use rockscopy.Random.{Random, modulus, multiplier, make, next, uniform, one_in, skewed}

-- A seed that is neither 0 nor M.
abbrev pub IsSeed : Random → Type 0
IsSeed rnd = (1 ≤ rnd.seed_) × (rnd.seed_ < modulus)

-- What the shift and the mask make of the product, before the conditional subtraction.
abbrev folded : ℕ → ℕ
folded s = s * multiplier / 2 ^ 31 + s * multiplier % 2 ^ 31

next_value : ℕ → ℕ
next_value s = if ltb modulus (folded s) then folded s - modulus else folded s

next-next_value :
    (rnd : Random)
    → IsSeed rnd
    → next rnd ≡ (next_value rnd.seed_, record { seed_ = next_value rnd.seed_ })
unfolding next next_value
next-next_value rnd h = ground (arith, bit_and_mask 31 (rnd.seed_ * multiplier))

-- The product is no multiple of M.
folded-ne-modulus : (s : ℕ) → 1 ≤ s → s < modulus → folded s ≢ modulus
folded-ne-modulus s lo hi = omega arith

next_value_lem :
    (s : ℕ)
    → 1 ≤ s
    → s < modulus
    → (next_value s ≡ s * multiplier % modulus) × (1 ≤ next_value s) × (next_value s < modulus)
unfolding next_value
next_value_lem s lo hi = ground (arith, folded-ne-modulus s lo hi)

-- On a seed from 1 to M - 1, `Next` computes seed * A mod M without a division, and returns the
-- new seed, which again is neither 0 nor M.
pub next_lem :
    (rnd : Random)
    → IsSeed rnd
    → ((next rnd).0 ≡ rnd.seed_ * multiplier % modulus)
      × ((next rnd).1.seed_ ≡ (next rnd).0)
      × IsSeed (next rnd).1
next_lem rnd h =
    let (value, lo, hi) = next_value_lem rnd.seed_ h.0 h.1 in
    rw (next-next_value rnd h) (value, refl, (lo, hi))

-- A seed of 0 or M stays what it is for ever, as the comment in `Next` warns.
pub next_degenerate :
    (next (record { seed_ = 0 }) ≡ (0, record { seed_ = 0 }))
    × (next (record { seed_ = modulus }) ≡ (modulus, record { seed_ = modulus }))
unfolding next
next_degenerate = (refl, refl)

-- The constructor gives a seed other than 0 and M exactly if the low 31 bits of its argument are
-- neither all clear nor all set.
pub make-IsSeed : (s : ℕ) → IsSeed (make s) ↔ ((s % 2 ^ 31 ≢ 0) × (s % 2 ^ 31 ≢ modulus))
unfolding make
make-IsSeed s = ground (arith, bit_and_mask 31 s)

-- 1407677000 is the inverse of A modulo M.
next_value_back : (s : ℕ) → s < modulus → s * multiplier % modulus * 1407677000 % modulus ≡ s
next_value_back s h = omega arith

-- No two seeds from 1 to M - 1 have the same successor.
pub next_injective : (a b : Random) → IsSeed a → IsSeed b → (next a).0 ≡ (next b).0 → a ≡ b
next_injective a b ha hb e =
    ground (arith, next_lem a ha, next_lem b hb, next_value_back a.seed_, next_value_back b.seed_)

-- The state after `n` calls of `Next`.
abbrev pub advance : ℕ → Random → Random
advance zero rnd = rnd
advance (suc n) rnd = advance n (next rnd).1

mod_mul : (x y : ℕ) → x % modulus * y % modulus ≡ x * y % modulus
mod_mul x y = omega (arith, ap (λ (t : ℕ). t * y) (div-add-mod x modulus))

mod_step :
    (s n : ℕ)
    → s * multiplier % modulus * multiplier ^ n % modulus ≡ s * multiplier ^ suc n % modulus
mod_step s n =
    mod_mul (s * multiplier) (multiplier ^ n)
    ∙ ap (λ (t : ℕ). t % modulus) (omega (arith, ap (λ (t : ℕ). s * t) (pow-suc multiplier n)))

-- After `n` calls the seed is seed * A^n mod M.
pub advance_lem :
    (n : ℕ) (rnd : Random)
    → IsSeed rnd
    → ((advance n rnd).seed_ ≡ rnd.seed_ * multiplier ^ n % modulus) × IsSeed (advance n rnd)
advance_lem zero rnd h = (omega arith, h)
advance_lem (suc n) rnd h =
    let (value, seed, ok) = next_lem rnd h in
    let (later, later_ok) = advance_lem n (next rnd).1 ok in
    let start : (next rnd).1.seed_ ≡ rnd.seed_ * multiplier % modulus = seed ∙ value in
    (later ∙ rw start (mod_step rnd.seed_ n), later_ok)

-- `Uniform(n)` is below `n`.
pub uniform-lt : (n : ℕ) (rnd : Random) → 0 < n → (uniform n rnd).0 < n
unfolding uniform
uniform-lt n rnd h = mod-lt (next rnd).0 h

-- `Skewed(max_log)` is below 2^max_log, whatever base it draws.
pub skewed-lt : (max_log : ℕ) (rnd : Random) → (skewed max_log rnd).0 < 2 ^ max_log
unfolding skewed
skewed-lt max_log rnd =
    let base = (uniform (max_log + 1) rnd).0 in
    let small : base ≤ max_log = omega (arith, uniform-lt (max_log + 1) rnd (omega arith)) in
    omega (
      arith,
      uniform-lt (1 <<< base) (uniform (max_log + 1) rnd).1
          (omega (arith, one-le-pow base 2 (omega arith))),
      pow-le-pow_right {n = 2} (omega arith) small,
    )

-- `OneIn(n)` is true exactly if `Uniform(n)` would have given 0, and both leave the same state.
pub one_in-uniform :
    (n : ℕ) (rnd : Random)
    → (((one_in n rnd).0 ≡ true) ↔ ((uniform n rnd).0 ≡ 0)) × ((one_in n rnd).1 ≡ (uniform n rnd).1)
unfolding one_in uniform
one_in-uniform n rnd = ground arith
