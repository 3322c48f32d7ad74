-- ===== src/Coding/BitStream/Sums.antt =====
-- The value that is read, gathered from the bits of each byte.
use native.Mathlib.Nat.{div-add-mod, mod-lt, add-mul-mod_self_left, mod-eq_of_lt, pow-le-pow_right}
use rockscopy.Base.{ℕ, ◌+◌, ◌-◌, ◌*◌, ◌/◌, ◌%◌, ◌^◌, ◌≤◌, ◌<◌, ◌≡◌, arith, u64}
use rockscopy.Base.{sym, ◌∙◌, ap}
use rockscopy.Coding.BitStream.Field.{pow_split, pow-pos}

pub grow : (r v shift n : ℕ) → r < 2 ^ shift → v < 2 ^ n → r + v * 2 ^ shift < 2 ^ (shift + n)
grow r v shift n hr hv =
    let a : v * 2 ^ shift + 2 ^ shift ≤ 2 ^ n * 2 ^ shift = grind arith in
    rw (pow_split shift n) (grind arith)

pub regroup : (p q lo w z : ℕ) → p * (q * z + w) + lo ≡ lo + w * p + p * q * z
regroup p q lo w z = grind arith

-- The low `n` bits of a value and the `m` above them.
pub split_value : (n m v : ℕ) → v % 2 ^ (n + m) ≡ v % 2 ^ n + v / 2 ^ n % 2 ^ m * 2 ^ n
split_value n m v =
    let p = 2 ^ n in
    let q = 2 ^ m in
    let w = v / p % q in
    let whole : v ≡ v % p + w * p + p * q * (v / p / q) =
      sym (div-add-mod v p)
      ∙ ap (λ (y : ℕ). p * y + v % p) (sym (div-add-mod (v / p) q))
      ∙ regroup p q (v % p) w (v / p / q) in
    let small : v % p + w * p < 2 ^ (n + m) =
      grow (v % p) w n m (mod-lt v (pow-pos n)) (mod-lt (v / p) (pow-pos m)) in
    ap (λ (x : ℕ). x % 2 ^ (n + m)) whole
    ∙ ap (λ (x : ℕ). (v % p + w * p + x * (v / p / q)) % 2 ^ (n + m)) (sym (pow_split n m))
    ∙ add-mul-mod_self_left (v % p + w * p) (2 ^ (n + m)) (v / p / q)
    ∙ mod-eq_of_lt small

-- No sum wraps around in a `uint64_t`.
pub no_wrap :
    (result got shift n : ℕ)
    → result + got * 2 ^ shift < 2 ^ (shift + n)
    → shift + n ≤ 64
    → u64 (result + u64 (got * 2 ^ shift)) ≡ result + got * 2 ^ shift
no_wrap result got shift n small top =
    let limit : 2 ^ (shift + n) ≤ 2 ^ 64 = pow-le-pow_right (omega arith) {j = 64} top in
    omega arith

pub joined :
    (value result shift n bits : ℕ)
    → n ≤ bits
    → result + value % 2 ^ n * 2 ^ shift + value / 2 ^ n % 2 ^ (bits - n) * 2 ^ (shift + n)
      ≡ result + value % 2 ^ bits * 2 ^ shift
joined value result shift n bits h =
    let e : n + (bits - n) ≡ bits = omega arith in
    let split : value % 2 ^ bits ≡ value % 2 ^ n + value / 2 ^ n % 2 ^ (bits - n) * 2 ^ n =
      ap (λ (k : ℕ). value % 2 ^ k) (sym e) ∙ split_value n (bits - n) value in
    rw (split, pow_split shift n) (grind arith)
