-- ===== src/Random.antt =====
-- src/util/random.h: the generator `Random`. A method gives its result and the new `seed_`.
mod Tests
pub mod Laws
use rockscopy.Base.{ℕ, ◌+◌, ◌-◌, ◌*◌, ◌/◌, ◌%◌, ◌^◌, u32, u64, ◌<<<◌, ◌>>>◌, bit_and, ltb, ◌==◌}
use rockscopy.Base.{Bool, if◌then◌else◌}

pub record Random : Type 0 where
  pub seed_ : ℕ

-- `M`, 2^31 - 1, and `A`.
abbrev pub modulus : ℕ
modulus = 2147483647

abbrev pub multiplier : ℕ
multiplier = 16807

unfoldable pub make : ℕ → Random
make s = record { seed_ = bit_and s 0x7fffffff }

unfoldable pub next : Random → ℕ × Random
next rnd =
    let product = u64 (rnd.seed_ * multiplier) in
    let folded = u32 (u64 ((product >>> 31) + bit_and product modulus)) in
    let seed = if ltb modulus folded then folded - modulus else folded in
    (seed, record { seed_ = seed })

-- `n` is a positive `int`.
unfoldable pub uniform : ℕ → Random → ℕ × Random
uniform n rnd = let (value, rnd') = next rnd in (value % n, rnd')

unfoldable pub one_in : ℕ → Random → Bool × Random
one_in n rnd = let (value, rnd') = next rnd in (value % n == 0, rnd')

pub skewed : ℕ → Random → ℕ × Random
skewed max_log rnd = let (base, rnd') = uniform (max_log + 1) rnd in uniform (1 <<< base) rnd'
