-- ===== src/Coding/Varint.antt =====
-- src/util/coding.h, src/util/coding.cpp: integers of variable length, seven bits a byte with the
-- lowest first, the top bit set on every byte but the last.
-- A range `[p, limit)` of memory is the list of its bytes, so a pointer that a routine returns
-- is the list of what is left of the range, and `nullptr` is `none`.
mod Tests
pub mod Groups
pub mod Encode
pub mod Decode
pub mod RoundTrip
use mathlib.Core.Logic.{dite}
use mathlib.Core.WellFounded.{Acc}
use native.Mathlib.Decide.{dec_le}
use rockscopy.Base.{ℕ, zero, suc, ◌+◌, ◌-◌, ◌*◌, ◌/◌, ◌%◌, ◌^◌, ◌≤◌, ◌<◌, Bytes, bit_and, bit_or}
use rockscopy.Base.{◌<<<◌, ◌>>>◌, u8, u32, Bool, true, false, not, ltb, leb, ◌==◌, if◌then◌else◌}
use rockscopy.Base.{List, [], ◌∷◌, ◌++◌, Option, none, some, arith, lt_wf}

-- The bytes that `EncodeVarint32` writes from `dst` on; the pointer returned stands behind them.
pub encode_varint32 : ℕ → Bytes
encode_varint32 v =
    if ltb v (1 <<< 7)
    then u8 v ∷ []
    else if ltb v (1 <<< 14)
    then u8 (bit_or v 128) ∷ u8 (v >>> 7) ∷ []
    else if ltb v (1 <<< 21)
    then u8 (bit_or v 128) ∷ u8 (bit_or (v >>> 7) 128) ∷ u8 (v >>> 14) ∷ []
    else if ltb v (1 <<< 28)
    then u8 (bit_or v 128)
      ∷ u8 (bit_or (v >>> 7) 128)
      ∷ u8 (bit_or (v >>> 14) 128)
      ∷ u8 (v >>> 21)
      ∷ []
    else u8 (bit_or v 128)
      ∷ u8 (bit_or (v >>> 7) 128)
      ∷ u8 (bit_or (v >>> 14) 128)
      ∷ u8 (bit_or (v >>> 21) 128)
      ∷ u8 (v >>> 28)
      ∷ []

unfoldable pub put_varint32 : Bytes → ℕ → Bytes
put_varint32 dst v = dst ++ encode_varint32 v

shift_shrinks : (v : ℕ) → 128 ≤ v → v >>> 7 < v
shift_shrinks v h = omega arith

-- `while (v >= B)` of `EncodeVarint64`, and the last byte behind the loop.
encode_varint64_loop : (v : ℕ) → Acc ◌<◌ v → Bytes
encode_varint64_loop v (Acc.intro _ smaller) =
    dite (dec_le 128 v)
      (λ h.
        u8 (bit_or (bit_and v (128 - 1)) 128)
        ∷ encode_varint64_loop (v >>> 7) (smaller _ (shift_shrinks v h)))
      (λ _. u8 v ∷ [])

pub encode_varint64 : ℕ → Bytes
encode_varint64 v = encode_varint64_loop v (lt_wf.apply v)

unfoldable pub put_varint64 : Bytes → ℕ → Bytes
put_varint64 dst v = dst ++ encode_varint64 v

-- `while (v >= 128)` of `VarintLength`.
varint_length_loop : ℕ → (v : ℕ) → Acc ◌<◌ v → ℕ
varint_length_loop len v (Acc.intro _ smaller) =
    dite (dec_le 128 v)
      (λ h. varint_length_loop (len + 1) (v >>> 7) (smaller _ (shift_shrinks v h))) (λ _. len)

pub varint_length : ℕ → ℕ
varint_length v = varint_length_loop 1 v (lt_wf.apply v)

-- The loop that `GetVarint32PtrFallback` and `GetVarint64Ptr` share: `width` is that of `result`,
-- and `last` the largest shift that the loop's condition lets in.
get_varint_loop : ℕ → ℕ → Bytes → ℕ → ℕ → Option (ℕ × Bytes)
get_varint_loop width last [] shift result = none
get_varint_loop width last (byte ∷ p) shift result =
    let more =
      get_varint_loop width last p (shift + 7)
        (bit_or result ((bit_and byte 127 <<< shift) % 2 ^ width)) in
    if leb shift last
    then if not (bit_and byte 128 == 0)
      then more
      else some (bit_or result ((byte <<< shift) % 2 ^ width), p)
    else none

pub get_varint32_ptr_fallback : Bytes → Option (ℕ × Bytes)
get_varint32_ptr_fallback p = get_varint_loop 32 28 p 0 0

-- The fast path takes a single byte; an empty range and a longer number go to the fallback.
pub get_varint32_ptr : Bytes → Option (ℕ × Bytes)
get_varint32_ptr [] = get_varint32_ptr_fallback []
get_varint32_ptr (byte ∷ p) =
    if bit_and byte 128 == 0 then some (byte, p) else get_varint32_ptr_fallback (byte ∷ p)

pub get_varint64_ptr : Bytes → Option (ℕ × Bytes)
get_varint64_ptr p = get_varint_loop 64 63 p 0 0

-- The slice versions: `none` is `false`, with `*input` and `*value` as they were; a pair is
-- `true`, with `*value` and the `Slice(q, limit - q)` that `*input` becomes.
unfoldable pub get_varint32 : Bytes → Option (ℕ × Bytes)
get_varint32 input = get_varint32_ptr input

unfoldable pub get_varint64 : Bytes → Option (ℕ × Bytes)
get_varint64 input = get_varint64_ptr input
