-- ===== src/Base/Bits.antt =====
-- `|`, `&` and `^` at variables, from the recursion on binary digits that they stand for.
use Prim.Native.Nat.{digits, bitwise, bit_and-bitwise, bit_or-bitwise, bit_xor-bitwise}
use mathlib.Core.Path.{ap}
use native.Mathlib.Nat.{le_refl, pow-suc, pow-succ', one-le-pow, div-div-eq-div-mul, div-add-mod}
use rockscopy.Base.Words.{◌<<<◌, low_mask}
use Prim.Native.Nat.{ℕ, zero, suc, ◌+◌, ◌*◌, ◌/◌, ◌%◌, ◌^◌, ◌≤◌, ◌<◌, min, max}
use Prim.Native.Nat.{bit_and, bit_or, bit_xor, differ}
use mathlib.Core.Path.{◌≡◌, refl, sym, ◌∙◌}
use native.Mathlib.Omega.{arith}

-- The digit recursion carries fuel; any that reaches the first operand gives the same digits.
module _ (z : ℕ → ℕ) (f : ℕ → ℕ → ℕ) where
  digits_enough : (n m a b : ℕ) → a ≤ n → a ≤ m → digits z f n a b ≡ digits z f m a b
  digits_enough zero zero a b p q = refl
  digits_enough zero (suc m) zero b p q = refl
  digits_enough zero (suc m) (suc a) b p q = absurd (omega arith)
  digits_enough (suc n) zero zero b p q = refl
  digits_enough (suc n) zero (suc a) b p q = absurd (omega arith)
  digits_enough (suc n) (suc m) zero b p q = refl
  digits_enough (suc n) (suc m) (suc a) b p q =
      rw (digits_enough n m (suc a / 2) (b / 2) (omega arith) (omega arith))

  bitwise_digit :
      (a b : ℕ)
      → bitwise z f (suc a) b ≡ bitwise z f (suc a / 2) (b / 2) * 2 + f (suc a % 2) (b % 2)
  bitwise_digit a b =
      omega (arith, digits_enough a (suc a / 2) (suc a / 2) (b / 2) (omega arith) (le_refl _))

-- The lowest digit of each operation, and the rest.
pub bit_or_digit : (a b : ℕ) → bit_or a b ≡ bit_or (a / 2) (b / 2) * 2 + max (a % 2) (b % 2)
bit_or_digit zero b = simp bit_or-bitwise (omega arith)
bit_or_digit (suc a) b = simp bit_or-bitwise (bitwise_digit (λ y. y) max a b)

pub bit_and_digit : (a b : ℕ) → bit_and a b ≡ bit_and (a / 2) (b / 2) * 2 + min (a % 2) (b % 2)
bit_and_digit zero b = simp bit_and-bitwise (omega arith)
bit_and_digit (suc a) b = simp bit_and-bitwise (bitwise_digit (λ y. 0) min a b)

-- A property that passes from halves to a number holds of every number.
below_by_halves :
    (P : ℕ → Type 0) → P 0 → ((a : ℕ) → P (a / 2) → P a) → (fuel a : ℕ) → a ≤ fuel → P a
below_by_halves P base step fuel zero h = base
below_by_halves P base step zero (suc a) h = absurd (omega arith)
below_by_halves P base step (suc fuel) (suc a) h =
    step (suc a) (below_by_halves P base step fuel (suc a / 2) (omega arith))

by_halves : (P : ℕ → Type 0) → P 0 → ((a : ℕ) → P (a / 2) → P a) → (a : ℕ) → P a
by_halves P base step a = below_by_halves P base step a a (le_refl a)

pub zero-bit_or : (b : ℕ) → bit_or 0 b ≡ b
zero-bit_or b = simp bit_or-bitwise

pub bit_or-zero : (a : ℕ) → bit_or a 0 ≡ a
bit_or-zero = by_halves (λ a. bit_or a 0 ≡ a) refl (λ a ih. omega (arith, bit_or_digit a 0))

pub bit_and-zero : (a : ℕ) → bit_and a 0 ≡ 0
bit_and-zero = by_halves (λ a. bit_and a 0 ≡ 0) refl (λ a ih. omega (arith, bit_and_digit a 0))

mul-two_pow : (q k : ℕ) → q * 2 ^ suc k ≡ 2 * (q * 2 ^ k)
mul-two_pow q k = omega (arith, ap (λ (t : ℕ). q * t) (pow-suc 2 k))

-- `low | (high << k)` is a sum when `low` fits `k` bits.
pub bit_or_fields : (k low high : ℕ) → low < 2 ^ k → bit_or low (high <<< k) ≡ low + high * 2 ^ k
bit_or_fields zero zero high fits = simp zero-bit_or (omega arith)
bit_or_fields zero (suc low) high fits = absurd (omega arith)
bit_or_fields (suc k) low high fits = ground (
  arith,
  bit_or_digit low (high * 2 ^ suc k),
  mul-two_pow high k,
  pow-suc 2 k,
  bit_or_fields k (low / 2) high (omega (arith, pow-suc 2 k)),
)

bit_and_low : (k high low : ℕ) → low < 2 ^ k → bit_and (high * 2 ^ k + low) (low_mask k) ≡ low
bit_and_low zero high low fits = simp bit_and-zero (omega arith)
bit_and_low (suc k) high low fits = ground (
  arith,
  bit_and_digit (high * 2 ^ suc k + low) (low_mask (suc k)),
  mul-two_pow high k,
  pow-suc 2 k,
  one-le-pow k 2,
  bit_and_low k high (low / 2) (omega (arith, pow-suc 2 k)),
)

-- `a & ((1 << k) - 1)` is the remainder by `2 ^ k`.
pub bit_and_mask : (k a : ℕ) → bit_and a (low_mask k) ≡ a % 2 ^ k
bit_and_mask k a = ground (arith, one-le-pow k 2, bit_and_low k (a / 2 ^ k) (a % 2 ^ k))

pub bit_or_comm : (a b : ℕ) → bit_or a b ≡ bit_or b a
bit_or_comm =
    by_halves (λ a. (b : ℕ) → bit_or a b ≡ bit_or b a) (λ b. simp (zero-bit_or, bit_or-zero))
      λ a ih b. omega (arith, bit_or_digit a b, bit_or_digit b a, ih (b / 2))

shr_suc : (a k : ℕ) → a / 2 ^ suc k ≡ a / 2 / 2 ^ k
shr_suc a k = rw (pow-succ' 2 k) (sym (div-div-eq-div-mul a 2 (2 ^ k)))

-- A single bit, picked out by `&`, and set by `|`.
pub bit_and_two_pow : (k a : ℕ) → bit_and a (2 ^ k) ≡ a / 2 ^ k % 2 * 2 ^ k
bit_and_two_pow zero a = omega (arith, bit_and_digit a 1, bit_and-zero (a / 2))
bit_and_two_pow (suc k) a =
    rw (shr_suc a k, pow-suc 2 k)
      (ground (arith, bit_and_digit a (2 ^ k * 2), bit_and_two_pow k (a / 2)))

bit_or_two_pow : (k a : ℕ) → bit_or a (2 ^ k) + a / 2 ^ k % 2 * 2 ^ k ≡ a + 2 ^ k
bit_or_two_pow zero a = omega (arith, bit_or_digit a 1, bit_or-zero (a / 2))
bit_or_two_pow (suc k) a =
    rw (shr_suc a k, pow-suc 2 k)
      (ground (arith, bit_or_digit a (2 ^ k * 2), bit_or_two_pow k (a / 2)))

-- The top bit of a byte, tested and set.
pub bit_and_top : (b : ℕ) → bit_and b 128 ≡ b / 128 % 2 * 128
bit_and_top = bit_and_two_pow 7

pub bit_or_top : (b : ℕ) → bit_or b 128 % 256 ≡ b % 128 + 128
bit_or_top b = omega (arith, bit_or_two_pow 7 b)

-- `|` keeps a width.
pub bit_or-lt : (k a b : ℕ) → a < 2 ^ k → b < 2 ^ k → bit_or a b < 2 ^ k
bit_or-lt zero zero b h j = simp zero-bit_or j
bit_or-lt zero (suc a) b h j = absurd (omega arith)
bit_or-lt (suc k) a b h j = omega (
  arith,
  bit_or_digit a b,
  pow-suc 2 k,
  bit_or-lt k (a / 2) (b / 2) (omega (arith, pow-suc 2 k)) (omega (arith, pow-suc 2 k)),
)

bit_xor_digit : (a b : ℕ) → bit_xor a b ≡ bit_xor (a / 2) (b / 2) * 2 + differ (a % 2) (b % 2)
bit_xor_digit zero b = simp bit_xor-bitwise (omega arith)
bit_xor_digit (suc a) b = simp bit_xor-bitwise (bitwise_digit (λ y. y) differ a b)

differ-lt : (a b : ℕ) → a < 2 → b < 2 → differ a b < 2
differ-lt zero b h k = k
differ-lt (suc a) zero h k = h
differ-lt (suc a) (suc b) h k = differ-lt a b (omega arith) (omega arith)

-- `^` keeps a width.
pub bit_xor-lt : (k a b : ℕ) → a < 2 ^ k → b < 2 ^ k → bit_xor a b < 2 ^ k
bit_xor-lt zero zero b h j = simp bit_xor-bitwise j
bit_xor-lt zero (suc a) b h j = absurd (omega arith)
bit_xor-lt (suc k) a b h j = omega (
  arith,
  bit_xor_digit a b,
  pow-suc 2 k,
  differ-lt (a % 2) (b % 2) (omega arith) (omega arith),
  bit_xor-lt k (a / 2) (b / 2) (omega (arith, pow-suc 2 k)) (omega (arith, pow-suc 2 k)),
)

-- The lowest digit of a remainder, and the others.
mod_digit : (m a : ℕ) → a % (2 * m) ≡ a / 2 % m * 2 + a % 2
mod_digit m a =
    let whole = div-add-mod a (2 * m) in
    let same_ : 2 * m * (a / 2 / m) ≡ 2 * (m * (a / 2 / m)) = grind arith in
    omega (arith, rw (← div-div-eq-div-mul a 2 m) at whole, same_, div-add-mod (a / 2) m)

-- The low bits of an exclusive or are those of its operands.
pub bit_xor_mod : (k a b : ℕ) → bit_xor a b % 2 ^ k ≡ bit_xor (a % 2 ^ k) (b % 2 ^ k)
bit_xor_mod zero a b =
    let none_of_a : a % 2 ^ 0 ≡ 0 = omega arith in
    let none_of_b : b % 2 ^ 0 ≡ 0 = omega arith in rw (none_of_a, none_of_b) (omega arith)
bit_xor_mod (suc k) a b =
    let e : 2 ^ suc k ≡ 2 * 2 ^ k = omega (arith, pow-suc 2 k) in
    let half_a : a % (2 * 2 ^ k) / 2 ≡ a / 2 % 2 ^ k = omega (arith, mod_digit (2 ^ k) a) in
    let half_b : b % (2 * 2 ^ k) / 2 ≡ b / 2 % 2 ^ k = omega (arith, mod_digit (2 ^ k) b) in
    let digit_a : a % (2 * 2 ^ k) % 2 ≡ a % 2 = omega (arith, mod_digit (2 ^ k) a) in
    let digit_b : b % (2 * 2 ^ k) % 2 ≡ b % 2 = omega (arith, mod_digit (2 ^ k) b) in
    let halves = bit_xor_digit (a % (2 * 2 ^ k)) (b % (2 * 2 ^ k)) in
    let digits_ = mod_digit (2 ^ k) (bit_xor a b) in
    let bit = differ-lt (a % 2) (b % 2) (omega arith) (omega arith) in
    let top : bit_xor a b / 2 ≡ bit_xor (a / 2) (b / 2) = omega (arith, bit_xor_digit a b, bit) in
    let low : bit_xor a b % 2 ≡ differ (a % 2) (b % 2) = omega (arith, bit_xor_digit a b, bit) in
    rw e (
      digits_
      ∙ rw (top, low, bit_xor_mod k (a / 2) (b / 2), ← half_a, ← half_b, ← digit_a, ← digit_b)
          (sym halves))
