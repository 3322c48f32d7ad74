-- ===== src/Coding/Varint/RoundTrip.antt =====
-- What the encoders write is read back by the decoders.
use native.Mathlib.Nat.{pow-suc, mod-eq_of_lt, div-add-mod}
use native.Mathlib.Numerals.{towards_suc}
use rockscopy.Base.{ℕ, zero, suc, ◌+◌, ◌*◌, ◌/◌, ◌%◌, ◌^◌, ◌≤◌, ◌<◌, ◌≡◌, arith, ltb, ap}
use rockscopy.Base.{Bytes, ◌∷◌, ◌++◌, All, IsByte, IsU32, IsU64, ◌∙◌}
use rockscopy.Base.{some, bit_or, ◌<<<◌, Bool-cases, inl, inr, All-append}
use rockscopy.Base.Bits.{bit_and_top, bit_and_mask, bit_or_fields}
use rockscopy.Coding.Varint.{get_varint_loop, get_varint32_ptr_fallback, get_varint32_ptr}
use rockscopy.Coding.Varint.{get_varint64_ptr, encode_varint32}
use rockscopy.Coding.Varint.{encode_varint64}
use rockscopy.Coding.Varint.Groups.{groups, groups-IsByte}
use rockscopy.Coding.Varint.Encode.{encode_varint32-groups, encode_varint64-groups}
use rockscopy.Coding.Varint.Decode.{get_varint32_ptr-fallback}

two_pow_add_seven : (s : ℕ) → 2 ^ (s + 7) ≡ 128 * 2 ^ s
two_pow_add_seven s = simp towards_suc (omega arith)

-- A number shifted by `s` is its lowest group there and the others seven bits on.
shift_split : (v s : ℕ) → v * 2 ^ s ≡ v % 128 * 2 ^ s + v / 128 * 2 ^ (s + 7)
shift_split v s = omega (
  arith,
  ap (λ (t : ℕ). t * 2 ^ s) (div-add-mod v 128),
  ap (λ (t : ℕ). v / 128 * t) (two_pow_add_seven s),
)

group_fits : (g result unit : ℕ) → g < 128 → result < unit → result + g * unit < 128 * unit
group_fits g result unit hg h = grind arith

module _ (width last : ℕ) where
  -- A group that fits is added to `result`.
  merge_group :
      (g shift result : ℕ)
      → result < 2 ^ shift
      → result + g * 2 ^ shift < 2 ^ width
      → bit_or result ((g <<< shift) % 2 ^ width) ≡ result + g * 2 ^ shift
  merge_group g shift result low fits =
      rw (mod-eq_of_lt {n = g * 2 ^ shift} {m = 2 ^ width} (omega arith))
        (bit_or_fields shift result g low)

  last_group :
      (v shift result : ℕ) (rest : Bytes)
      → v < 128
      → shift ≤ last
      → result < 2 ^ shift
      → result + v * 2 ^ shift < 2 ^ width
      → get_varint_loop width last (v ∷ rest) shift result ≡ some (result + v * 2 ^ shift, rest)
  unfolding get_varint_loop
  last_group v shift result rest hv hs low fits =
      ground (arith, bit_and_top v, merge_group v shift result low fits)

  inner_group :
      (g shift result : ℕ) (rest : Bytes)
      → g < 128
      → shift ≤ last
      → result < 2 ^ shift
      → result + g * 2 ^ shift < 2 ^ width
      → get_varint_loop width last ((g + 128) ∷ rest) shift result
        ≡ get_varint_loop width last rest (shift + 7) (result + g * 2 ^ shift)
  unfolding get_varint_loop
  inner_group g shift result rest hg hs low fits =
      ground (
        arith,
        bit_and_top (g + 128),
        bit_and_mask 7 (g + 128),
        merge_group g shift result low fits,
      )

  -- `v` is what is still to be read, and counts from bit `shift` on.
  get_varint_loop-groups :
      (k v shift result : ℕ) (rest : Bytes)
      → v < 128 ^ suc k
      → shift + 7 * k ≤ last
      → result < 2 ^ shift
      → result + v * 2 ^ shift < 2 ^ width
      → get_varint_loop width last (groups k v ++ rest) shift result
        ≡ some (result + v * 2 ^ shift, rest)
  unfolding groups
  get_varint_loop-groups zero v shift result rest hv hs low fits =
      last_group v shift result rest (omega arith) (omega arith) low fits
  get_varint_loop-groups (suc k) v shift result rest hv hs low fits =
      elim (Bool-cases (ltb v 128)) [
        | inl small ↦
            rw small (last_group v shift result rest (ground arith) (omega arith) low fits)
        | inr large ↦
            let fits' : result + v % 128 * 2 ^ shift + v / 128 * 2 ^ (shift + 7) < 2 ^ width =
              omega (arith, shift_split v shift) in
            let low' : result + v % 128 * 2 ^ shift < 2 ^ (shift + 7) = omega (
              arith,
              two_pow_add_seven shift,
              group_fits (v % 128) result (2 ^ shift) (omega arith) low,
            ) in
            rw large (
              inner_group (v % 128) shift result (groups k (v / 128) ++ rest) (omega arith)
                (omega arith) low (omega arith)
              ∙ get_varint_loop-groups k (v / 128) (shift + 7) (result + v % 128 * 2 ^ shift) rest
                  (omega (arith, pow-suc 128 (suc k))) (omega arith) low' fits'
              ∙ ap (λ (t : ℕ). some (t, rest)) (omega (arith, shift_split v shift)))
      ]

-- `GetVarint32Ptr` reads back the `uint32_t` that `EncodeVarint32` wrote, and stops just past it,
-- whatever bytes follow.
pub get_varint32_ptr-encode_varint32 :
    (v : ℕ) (rest : Bytes)
    → IsU32 v
    → All IsByte rest
    → get_varint32_ptr (encode_varint32 v ++ rest) ≡ some (v, rest)
get_varint32_ptr-encode_varint32 v rest h bytes = rw (encode_varint32-groups v h) (
    get_varint32_ptr-fallback (groups 4 v ++ rest)
      (All-append IsByte (groups 4 v) rest (groups-IsByte 4 v (omega arith)) bytes)
    ∙ unfold get_varint32_ptr_fallback in
      get_varint_loop-groups 32 28 4 v 0 0 rest (omega arith) (omega arith) (omega arith)
        (omega arith)
      ∙ ap (λ (t : ℕ). some (t, rest)) (omega arith))

-- `GetVarint64Ptr` reads back the `uint64_t` that `EncodeVarint64` wrote, and stops just past it,
-- whatever bytes follow.
pub get_varint64_ptr-encode_varint64 :
    (v : ℕ) (rest : Bytes) → IsU64 v → get_varint64_ptr (encode_varint64 v ++ rest) ≡ some (v, rest)
unfolding get_varint64_ptr
get_varint64_ptr-encode_varint64 v rest h = rw (encode_varint64-groups v h) (
    get_varint_loop-groups 64 63 9 v 0 0 rest (omega arith) (omega arith) (omega arith)
      (omega arith)
    ∙ ap (λ (t : ℕ). some (t, rest)) (omega arith))
