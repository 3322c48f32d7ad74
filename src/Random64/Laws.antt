-- ===== src/Random64/Laws.antt =====
-- Bounds of what `Random64` draws.
use rockscopy.Base.{ℕ, ◌+◌, ◌-◌, ◌^◌, ◌≤◌, ◌<◌, ◌≡◌, refl, arith, u64}
use rockscopy.Base.{some}
use native.Mathlib.Nat.{pow-le-pow_right}
use rockscopy.Random64.{uniform, skewed, shift_one}

-- A draw from a range that is not empty lies in it.
abbrev pub IsUniform : {G : Type 0} → (ℕ → ℕ → G → ℕ × G) → Type 0
IsUniform {G} draw_from =
    (low high : ℕ) (g : G)
    → low ≤ high
    → (low ≤ (draw_from low high g).0) × ((draw_from low high g).0 ≤ high)

module _ {G : Type 0} (draw : G → ℕ × G) (draw_from : ℕ → ℕ → G → ℕ × G)
    (law : IsUniform draw_from) where
  uniform-lt : (n : ℕ) (g : G) → 0 < n → n < 2 ^ 64 → (uniform draw draw_from n g).0 < n
  unfolding uniform
  uniform-lt n g pos small =
      let e : u64 (n + 2 ^ 64 - 1) ≡ n - 1 = omega arith in
      let bound : (draw_from 0 (u64 (n + 2 ^ 64 - 1)) g).0 ≤ n - 1 =
        rw e (law 0 (n - 1) g (omega arith)).1 in
      omega arith

  shift_one_lem : (k : ℕ) → k < 31 → shift_one k ≡ some (2 ^ k)
  unfolding shift_one
  shift_one_lem k h = ground arith

  skewed_from :
      (max_log : ℕ) (g : G)
      → (uniform draw draw_from (max_log + 1) g).0 < 31
      → skewed draw draw_from max_log g
        ≡ some (
            uniform draw draw_from
              (2 ^ (uniform draw draw_from (max_log + 1) g).0)
              (uniform draw draw_from (max_log + 1) g).1)
  unfolding skewed
  skewed_from max_log g h =
      rw (skewed, shift_one_lem (uniform draw draw_from (max_log + 1) g).0 h) refl

  -- With a distribution that draws from the range it is given, `Skewed` is defined for a `max_log`
  -- below 31, and draws a number below 2^max_log, as its comment says.
  pub skewed_bounds :
      (max_log : ℕ) (g : G)
      → max_log < 31
      → (r : ℕ × G) × (skewed draw draw_from max_log g ≡ some r) × (r.0 < 2 ^ max_log)
  skewed_bounds max_log g h =
      let k = (uniform draw draw_from (max_log + 1) g).0 in
      let k_small : k < max_log + 1 = uniform-lt (max_log + 1) g (omega arith) (omega arith) in
      let power : 2 ^ k ≤ 2 ^ max_log =
        pow-le-pow_right (omega arith) {j = max_log} (omega arith) in
      let limit : 2 ^ k ≤ 2 ^ 31 = pow-le-pow_right (omega arith) {j = 31} (omega arith) in
      let one : 2 ^ 0 ≤ 2 ^ k = pow-le-pow_right (omega arith) {i = 0} {j = k} (omega arith) in
      (
        uniform draw draw_from (2 ^ k) (uniform draw draw_from (max_log + 1) g).1,
        skewed_from max_log g (omega arith),
        let below =
              uniform-lt (2 ^ k) (uniform draw draw_from (max_log + 1) g).1 (omega arith)
                (omega arith) in
            omega (arith, below),
      )
