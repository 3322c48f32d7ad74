-- ===== src/Coding/BitStream/Frame.antt =====
-- What `BitStreamPutInt` leaves: every field of bits apart from the one that it writes.
use native.Mathlib.Nat.{
  mod-lt, mod-eq_of_lt, mul-add-div, div-eq_of_lt, add-mul-mod_self_left, mod-mod, mod-mod_of_dvd,
  dvd-mul_right, div-div-eq-div-mul,
}
use rockscopy.Base.{
  ℕ, ◌+◌, ◌-◌, ◌*◌, ◌/◌, ◌%◌, ◌^◌, ◌≤◌, ◌<◌, ◌≡◌, arith, sym, ◌∙◌, ap, ◌⊎◌, inl, inr,
}
use rockscopy.Base.{}
use rockscopy.Coding.BitStream.{new_byte}
use rockscopy.Coding.BitStream.Sums.{split_value}
use rockscopy.Coding.BitStream.Field.{pow_split, pow-pos, new_byte-eq, new_byte_small}

-- The `n` bits of a byte from bit `q` on.
abbrev pub field : ℕ → ℕ → ℕ → ℕ
field q n byte = byte / 2 ^ q % 2 ^ n

mod_inner : (x k b : ℕ) → k ≤ b → x % 2 ^ b % 2 ^ k ≡ x % 2 ^ k
mod_inner x k b h =
    let e : 2 ^ b ≡ 2 ^ k * 2 ^ (b - k) =
      (let e' : k + (b - k) ≡ b = omega arith in
        ap (λ (y : ℕ). 2 ^ y) (sym e') ∙ pow_split k (b - k)) in
    mod-mod_of_dvd (2 ^ k) x (rw e (dvd-mul_right (2 ^ k) (2 ^ (b - k))))

field-mod : (x q n : ℕ) → field q n x ≡ x % 2 ^ (q + n) / 2 ^ q
field-mod x q n =
    let w = x / 2 ^ q % 2 ^ n in
    let lo = x % 2 ^ q in
    let e : lo + w * 2 ^ q ≡ 2 ^ q * w + lo = grind arith in
    sym (
      ap (λ (y : ℕ). y / 2 ^ q) (split_value q n x ∙ e)
      ∙ mul-add-div (pow-pos q) w lo
      ∙ ap (λ (y : ℕ). w + y) (div-eq_of_lt (mod-lt x (pow-pos q)))
      ∙ (omega arith))

-- The bits under a power of two, and those from one on, are all that a field there depends on.
field_under : (x y q n b : ℕ) → q + n ≤ b → x % 2 ^ b ≡ y % 2 ^ b → field q n x ≡ field q n y
field_under x y q n b h e =
    field-mod x q n
    ∙ ap (λ (z : ℕ). z / 2 ^ q)
        (sym (mod_inner x (q + n) b h)
          ∙ ap (λ (z : ℕ). z % 2 ^ (q + n)) e
          ∙ mod_inner y (q + n) b h)
    ∙ sym (field-mod y q n)

div_outer : (x q b : ℕ) → b ≤ q → x / 2 ^ q ≡ x / 2 ^ b / 2 ^ (q - b)
div_outer x q b h =
    let e : b + (q - b) ≡ q = omega arith in
    ap (λ (z : ℕ). x / 2 ^ z) (sym e)
    ∙ ap (λ (z : ℕ). x / z) (pow_split b (q - b))
    ∙ sym (div-div-eq-div-mul x (2 ^ b) (2 ^ (q - b)))

field_over : (x y q n b : ℕ) → b ≤ q → x / 2 ^ b ≡ y / 2 ^ b → field q n x ≡ field q n y
field_over x y q n b h e =
    ap (λ (z : ℕ). z % 2 ^ n)
      (div_outer x q b h ∙ ap (λ (z : ℕ). z / 2 ^ (q - b)) e ∙ sym (div_outer y q b h))

module _ (b n byte value : ℕ) (hb : b < 8) (hn : b + n ≤ 8) (is_byte : byte < 256) where
  abbrev stored : ℕ
  stored = byte % 2 ^ b + byte / 2 ^ (b + n) * 2 ^ (b + n) + value % 2 ^ n * 2 ^ b

  new_byte_sum : new_byte byte b n value ≡ stored
  new_byte_sum =
      new_byte-eq b n byte value hb hn is_byte
      ∙ mod-eq_of_lt (new_byte_small b n byte value hb hn is_byte)

  regroup_under : (p q lo hi v : ℕ) → lo + hi * (p * q) + v * p ≡ lo + p * (q * hi + v)
  regroup_under p q lo hi v = grind arith

  regroup_over : (p q lo hi v : ℕ) → lo + hi * (p * q) + v * p ≡ p * q * hi + (lo + v * p)
  regroup_over p q lo hi v = grind arith

  below_both : (p q lo v : ℕ) → lo < p → v < q → lo + v * p < p * q
  below_both p q lo v h k = let a : v * p + p ≤ q * p = grind arith in grind arith

  under_same : new_byte byte b n value % 2 ^ b ≡ byte % 2 ^ b
  under_same =
      rw (new_byte_sum, pow_split b n)
        (ap (λ (z : ℕ). z % 2 ^ b)
            (regroup_under (2 ^ b) (2 ^ n) (byte % 2 ^ b) (byte / (2 ^ b * 2 ^ n)) (value % 2 ^ n))
          ∙ add-mul-mod_self_left (byte % 2 ^ b) (2 ^ b)
              (2 ^ n * (byte / (2 ^ b * 2 ^ n)) + value % 2 ^ n)
          ∙ mod-mod byte (2 ^ b))

  over_same : new_byte byte b n value / 2 ^ (b + n) ≡ byte / 2 ^ (b + n)
  over_same =
      let p = 2 ^ b in
      let q = 2 ^ n in
      let hi = byte / (p * q) in
      let low : byte % p + value % q * p < p * q =
        below_both p q (byte % p) (value % q) (mod-lt byte (pow-pos b))
          (mod-lt value (pow-pos n)) in
      rw (new_byte_sum, pow_split b n)
        (ap (λ (z : ℕ). z / (p * q)) (regroup_over p q (byte % p) hi (value % q))
          ∙ mul-add-div (omega (arith, low)) hi (byte % p + value % q * p)
          ∙ ap (λ (z : ℕ). hi + z) (div-eq_of_lt low)
          ∙ (omega arith))

  -- A field of the byte apart from what is stored.
  pub new_byte-field :
      (q m : ℕ) → (q + m ≤ b) ⊎ (b + n ≤ q) → field q m (new_byte byte b n value) ≡ field q m byte
  new_byte-field q m (inl h) = field_under (new_byte byte b n value) byte q m b h under_same
  new_byte-field q m (inr h) = field_over (new_byte byte b n value) byte q m (b + n) h over_same
