-- ===== src/Coding/Fixed.antt =====
-- src/util/coding.h, src/util/coding.cpp: fixed-length integers, `EncodeFixed32/64`,
-- `PutFixed32/64`, `DecodeFixed32/64`.
pub mod Laws
mod Tests
use mathlib.Core.Option
use rockscopy.Base.{ℕ, zero, suc, ◌+◌, ◌*◌, ◌/◌, ◌%◌, ◌^◌, Bytes, IsByte, bit_or, ◌<<<◌, u32, u64}
use rockscopy.Base.{Bool, true, if◌then◌else◌, leb, length, take, drop}
use rockscopy.Base.{List, [], ◌∷◌, ◌++◌, Option, none, some, ◌>>=◌}

-- `port::kLittleEndian`. The decoders below take it as an argument, so that the branch that
-- this constant leaves out is translated too.
abbrev pub little_endian : Bool
little_endian = true

-- The bytes of an integer of `n` bytes in the memory of a little-endian host, and the integer
-- that such bytes stand for. `memcpy` moves between the two.
unfoldable pub object_bytes : ℕ → ℕ → Bytes
object_bytes zero v = []
object_bytes (suc n) v = (v % 256) ∷ object_bytes n (v / 256)

unfoldable pub object_value : Bytes → ℕ
object_value [] = 0
object_value (b ∷ bs) = b + 256 * object_value bs

-- `memcpy(&result, ptr, n)`; a read past the memory behind `ptr` is `none`.
load : ℕ → Bytes → Option ℕ
load n ptr = if leb n (length ptr) then some (object_value (take n ptr)) else none

-- `static_cast<unsigned char>(ptr[0])`, for the memory behind `ptr`.
load_byte : Bytes → Option ℕ
load_byte [] = none
load_byte (b ∷ bs) = some b

unfoldable pub encode_fixed32 : ℕ → Bytes
encode_fixed32 value = object_bytes 4 value

unfoldable pub encode_fixed64 : ℕ → Bytes
encode_fixed64 value = object_bytes 8 value

unfoldable pub put_fixed32 : Bytes → ℕ → Bytes
put_fixed32 dst value = dst ++ encode_fixed32 value

unfoldable pub put_fixed64 : Bytes → ℕ → Bytes
put_fixed64 dst value = dst ++ encode_fixed64 value

unfoldable pub decode_fixed32 : Bool → Bytes → Option ℕ
unfolding load load_byte
decode_fixed32 little ptr = if little then load 4 ptr else do
  b0 ← load_byte ptr
  b1 ← load_byte (drop 1 ptr)
  b2 ← load_byte (drop 2 ptr)
  b3 ← load_byte (drop 3 ptr)
  some (bit_or (bit_or (bit_or b0 (u32 (b1 <<< 8))) (u32 (b2 <<< 16))) (u32 (b3 <<< 24)))

unfoldable pub decode_fixed64 : Bool → Bytes → Option ℕ
unfolding load
decode_fixed64 little ptr = if little then load 8 ptr else do
  lo ← decode_fixed32 little ptr
  hi ← decode_fixed32 little (drop 4 ptr)
  some (bit_or (u64 (hi <<< 32)) lo)
