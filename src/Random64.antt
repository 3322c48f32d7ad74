-- ===== src/Random64.antt =====
-- src/util/random.h: `Random64`. Its generator, `std::mt19937_64`, and
-- `std::uniform_int_distribution` are arguments: a draw, and a draw from a range.
mod Tests
pub mod Laws
use rockscopy.Base.{ℕ, ◌+◌, ◌-◌, ◌^◌, u64, Bool, ltb, ◌==◌, if◌then◌else◌, Option, none, some}

-- `1 << k` of `int`, as a `uint64_t`: 2^31 is the least negative number, and a shift by more bits than
-- an `int` has is undefined.
shift_one : ℕ → Option ℕ
shift_one k = if ltb k 31 then some (2 ^ k) else if k == 31 then some (2 ^ 64 - 2 ^ 31) else none

module _ {G : Type 0} (draw : G → ℕ × G) (draw_from : ℕ → ℕ → G → ℕ × G) where
  pub next : G → ℕ × G
  next generator = draw generator

  pub uniform : ℕ → G → ℕ × G
  uniform n generator = draw_from 0 (u64 (n + 2 ^ 64 - 1)) generator

  pub one_in : ℕ → G → Bool × G
  one_in n generator = let (r, generator') = uniform n generator in (r == 0, generator')

  -- `none` is undefined behaviour.
  pub skewed : ℕ → G → Option (ℕ × G)
  skewed max_log generator =
      let (k, generator') = uniform (max_log + 1) generator in
      elim (shift_one k) [ none ↦ none | some n ↦ some (uniform n generator') ]
