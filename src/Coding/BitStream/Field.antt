-- ===== src/Coding/BitStream/Field.antt =====
-- What `BitStreamPutInt` stores in a byte, and that `BitStreamGetInt` finds it there.
use native.Mathlib.Nat.{
  mod-lt, mul-add-div, add-mul-mod_self_left, pow-suc, pow-le-pow_right, mod-eq_of_lt, div-eq_of_lt,
  div-lt_iff_lt-mul,
}
use rockscopy.Base.{
  ℕ, zero, suc, ◌+◌, ◌-◌, ◌*◌, ◌/◌, ◌%◌, ◌^◌, ◌≤◌, ◌<◌, ◌≡◌, refl, arith, bit_and, ◌>>>◌,
}
use rockscopy.Base.{Bool, true, leb, ◌==◌, not, ◌&&◌, ◌||◌, Bool-cases, inl, inr, ◌∙◌, ap}
use rockscopy.Base.Bits.{bit_and_mask}
use rockscopy.Coding.BitStream.{mask_of, complement, new_byte}

all_below : ℕ → (ℕ → Bool) → Bool
all_below zero f = true
all_below (suc n) f = f n && all_below n f

all_below_lem : (n : ℕ) (f : ℕ → Bool) (i : ℕ) → all_below n f ≡ true → i < n → f i ≡ true
unfolding all_below
all_below_lem zero f i h k = absurd (omega arith)
all_below_lem (suc n) f i h k = elim (Bool-cases (i == n)) [
  | inl here ↦ let e : i ≡ n = ground arith in rw e (ground arith)
  | inr there ↦ all_below_lem n f i (ground arith) (ground arith)
]

-- Clearing `n` bits from bit `b` on leaves the bits below and those above.
cleared_here : ℕ → ℕ → ℕ → Bool
unfolding complement
cleared_here b n byte =
    not (leb (b + n) 8)
    || bit_and byte (complement ((2 ^ n - 1) * 2 ^ b))
      == byte % 2 ^ b + byte / 2 ^ (b + n) * 2 ^ (b + n)

cleared_everywhere :
    all_below 8 (λ b. all_below 9 (λ n. all_below 256 (λ byte. cleared_here b n byte))) ≡ true
unfolding all_below cleared_here complement
cleared_everywhere = refl

cleared :
    (b n byte : ℕ)
    → b < 8
    → b + n ≤ 8
    → byte < 256
    → bit_and byte (complement ((2 ^ n - 1) * 2 ^ b))
      ≡ byte % 2 ^ b + byte / 2 ^ (b + n) * 2 ^ (b + n)
unfolding cleared_here
cleared b n byte hb hn hbyte =
    let here : cleared_here b n byte ≡ true =
      all_below_lem 256 (λ byte. cleared_here b n byte) byte
        (all_below_lem 9 (λ n. all_below 256 (λ byte. cleared_here b n byte)) n
          (all_below_lem 8 (λ b. all_below 9 (λ n. all_below 256 (λ byte. cleared_here b n byte))) b
            cleared_everywhere hb)
          (omega arith))
        hbyte in
    ground arith

pub pow_split : (k n : ℕ) → 2 ^ (k + n) ≡ 2 ^ k * 2 ^ n
pow_split k zero = grind arith
pow_split k (suc n) =
    let e : k + suc n ≡ suc (k + n) = omega arith in
    ap (λ (x : ℕ). 2 ^ x) e ∙ grind (arith, pow_split k n, pow-suc 2 n, pow-suc 2 (k + n))

pub pow-pos : (n : ℕ) → 0 < 2 ^ n
pow-pos zero = omega arith
pow-pos (suc n) = grind (arith, pow-pos n)

below_end : (p q r lo v hi : ℕ) → lo < p → v < q → hi < r → lo + hi * (p * q) + v * p < p * q * r
below_end p q r lo v hi hlo hv hhi =
    let a : v * p + p ≤ p * q = grind arith in
    let c : hi * (p * q) + p * q ≤ p * q * r = grind arith in omega arith

regroup : (p q lo v hi : ℕ) → lo + hi * (p * q) + v * p ≡ p * (v + q * hi) + lo
regroup p q lo v hi = grind arith

drop_multiple : (q v hi : ℕ) → (v + q * hi + 0) % q ≡ v % q
drop_multiple q v hi = ap (λ (x : ℕ). x % q) (grind arith) ∙ add-mul-mod_self_left v q hi

field_back : (p q lo v hi : ℕ) → lo < p → v < q → (lo + hi * (p * q) + v * p) / p % q ≡ v
field_back p q lo v hi hlo hv =
    let pos : 0 < p = omega arith in
    ap (λ (x : ℕ). x / p % q) (regroup p q lo v hi)
    ∙ ap (λ (x : ℕ). x % q) (mul-add-div pos (v + q * hi) lo)
    ∙ ap (λ (x : ℕ). (v + q * hi + x) % q) (div-eq_of_lt hlo)
    ∙ drop_multiple q v hi
    ∙ mod-eq_of_lt hv

module _ (b n byte value : ℕ) (hb : b < 8) (hn : b + n ≤ 8) (hbyte : byte < 256) where
  abbrev above : ℕ
  above = 2 ^ (8 - (b + n))

  blocks : 2 ^ b * 2 ^ n * above ≡ 256
  blocks =
      let e : b + n + (8 - (b + n)) ≡ 8 = omega arith in
      grind (arith, pow_split b n, pow_split (b + n) (8 - (b + n)), ap (λ (x : ℕ). 2 ^ x) e)

  pub mask_small : mask_of n ≡ 2 ^ n - 1
  unfolding mask_of
  mask_small =
      let small : 2 ^ n ≤ 2 ^ 8 = pow-le-pow_right (omega arith) {j = 8} (omega arith) in
      omega (arith, pow-pos n)

  pub new_byte-eq :
      new_byte byte b n value
      ≡ (byte % 2 ^ b + byte / 2 ^ (b + n) * 2 ^ (b + n) + value % 2 ^ n * 2 ^ b) % 2 ^ 8
  unfolding new_byte
  new_byte-eq = rw (mask_small, bit_and_mask n value, cleared b n byte hb hn hbyte) refl

  pub new_byte_small : byte % 2 ^ b + byte / 2 ^ (b + n) * 2 ^ (b + n) + value % 2 ^ n * 2 ^ b < 256
  new_byte_small =
      let high : byte / (2 ^ b * 2 ^ n) < above =
        (div-lt_iff_lt-mul (grind (arith, pow-pos b, pow-pos n))).1 (grind (arith, blocks)) in
      rw (pow_split b n, ← blocks)
        (below_end (2 ^ b) (2 ^ n) above (byte % 2 ^ b) (value % 2 ^ n) (byte / (2 ^ b * 2 ^ n))
          (mod-lt byte (pow-pos b)) (mod-lt value (pow-pos n)) high)

  -- What is stored in a byte is found there.
  pub new_byte_back : bit_and (new_byte byte b n value >>> b) (mask_of n) ≡ value % 2 ^ n
  new_byte_back =
      rw (new_byte-eq, mask_small, bit_and_mask n, mod-eq_of_lt new_byte_small, pow_split b n)
        (field_back (2 ^ b) (2 ^ n) (byte % 2 ^ b) (value % 2 ^ n) (byte / (2 ^ b * 2 ^ n))
          (mod-lt byte (pow-pos b)) (mod-lt value (pow-pos n)))

pub new_byte-IsByte : (b n byte value : ℕ) → new_byte byte b n value < 256
unfolding new_byte
new_byte-IsByte b n byte value = omega arith
