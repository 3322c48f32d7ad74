-- ===== src/Hash.antt =====
-- src/util/hash.h, src/util/hash.cpp: `Hash`, on the `n` bytes from `data` on.
mod Tests
pub mod Laws
use mathlib.Core.Option
use rockscopy.Base.{
  ℕ, zero, suc, ◌+◌, ◌-◌, ◌*◌, ◌/◌, ◌%◌, ◌^◌, u32, u64, ◌<<<◌, ◌>>>◌, Bytes, bit_xor,
}
use rockscopy.Base.{
  Bool, true, false, ltb, if◌then◌else◌, length, List, [], ◌∷◌, Option, none, some,
}
use rockscopy.Coding.Fixed.{decode_fixed32, little_endian}

-- `m` and `r`.
abbrev pub hash_multiplier : ℕ
hash_multiplier = 0xc6a4a793

abbrev pub hash_shift : ℕ
hash_shift = 24

-- A `char` as a `uint32_t`: where `char` is signed, a byte from 128 on is negative.
unfoldable pub char_value : Bool → ℕ → ℕ
char_value signed c = if signed then if ltb c 128 then c else c + 2 ^ 32 - 2 ^ 8 else c

-- The body of the loop, on the word `w`.
mix_word : ℕ → ℕ → ℕ
mix_word h w =
    let added = u32 (h + w) in
    let multiplied = u32 (added * hash_multiplier) in bit_xor multiplied (multiplied >>> 16)

-- `case 1` of the switch, on `data[0]`.
finish : Bool → ℕ → ℕ → ℕ
finish signed h c0 =
    let added = u32 (h + char_value signed c0) in
    let multiplied = u32 (added * hash_multiplier) in bit_xor multiplied (multiplied >>> hash_shift)

-- `switch (limit - data)`, the cases falling through.
tail : Bool → Bytes → ℕ → ℕ
unfolding finish
tail signed (c0 ∷ c1 ∷ c2 ∷ []) h =
    let h2 = u32 (h + u32 (char_value signed c2 <<< 16)) in
    let h1 = u32 (h2 + u32 (char_value signed c1 <<< 8)) in finish signed h1 c0
tail signed (c0 ∷ c1 ∷ []) h =
    let h1 = u32 (h + u32 (char_value signed c1 <<< 8)) in finish signed h1 c0
tail signed (c0 ∷ []) h = finish signed h c0
tail signed _ h = h

-- `while (data + 4 <= limit)`, and the switch behind it.
hash_loop : Bool → Bytes → ℕ → Option ℕ
unfolding tail mix_word
hash_loop signed (c0 ∷ c1 ∷ c2 ∷ c3 ∷ rest) h =
    elim (decode_fixed32 little_endian (c0 ∷ c1 ∷ c2 ∷ c3 ∷ rest)) [
      | none ↦ none
      | some w ↦ hash_loop signed rest (mix_word h w)
    ]
hash_loop signed rest h = some (tail signed rest h)

-- `none` would be a read past the bytes.
pub hash : Bool → Bytes → ℕ → Option ℕ
hash signed bytes seed =
    hash_loop signed bytes (u32 (bit_xor seed (u64 (length bytes * hash_multiplier))))
