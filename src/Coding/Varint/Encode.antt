-- ===== src/Coding/Varint/Encode.antt =====
-- The encoders against the format, their lengths, and `VarintLength`.
use mathlib.Core.WellFounded.{Acc}
use native.Mathlib.Nat.{pow-suc}
use rockscopy.Base.{ℕ, zero, suc, ◌+◌, ◌-◌, ◌/◌, ◌%◌, ◌^◌, ◌≤◌, ◌<◌, ◌≡◌, arith}
use rockscopy.Base.{Bytes, ◌++◌, length, All, IsByte, IsU32, IsU64, sym, ◌∙◌}
use rockscopy.Base.{
  length-append, All-append, take, take-length-append, ◌>>>◌, u8, bit_and, bit_or, lt_wf,
}
use rockscopy.Base.Bits.{bit_or_top, bit_and_mask}
use rockscopy.Coding.Varint.{encode_varint32, encode_varint64_loop, encode_varint64, put_varint32}
use rockscopy.Coding.Varint.{put_varint64, varint_length_loop, varint_length, shift_shrinks}
use rockscopy.Coding.Varint.Groups.{groups, groups-IsByte, length-groups}

pub encode_varint32-groups : (v : ℕ) → IsU32 v → encode_varint32 v ≡ groups 4 v
unfolding encode_varint32 groups
encode_varint32-groups v h =
    ground
      (arith, bit_or_top v, bit_or_top (v / 128), bit_or_top (v / 2 ^ 14), bit_or_top (v / 2 ^ 21))

-- The byte that a round of the loop writes.
group_byte : (v : ℕ) → u8 (bit_or (bit_and v (128 - 1)) 128) ≡ v % 128 + 128
group_byte v = bit_or_top (bit_and v 127) ∙ omega (arith, bit_and_mask 7 v)

encode_varint64_loop-groups :
    (k v : ℕ) (w : Acc ◌<◌ v) → v < 128 ^ suc k → encode_varint64_loop v w ≡ groups k v
unfolding encode_varint64_loop groups
encode_varint64_loop-groups zero v (Acc.intro _ smaller) h = ground arith
encode_varint64_loop-groups (suc k) v (Acc.intro _ smaller) h = grind (
  arith,
  group_byte v,
  pow-suc 128 (suc k),
  λ (w : Acc ◌<◌ (v / 128)). encode_varint64_loop-groups k (v / 128) w,
)

pub encode_varint64-groups : (v : ℕ) → IsU64 v → encode_varint64 v ≡ groups 9 v
unfolding encode_varint64
encode_varint64-groups v h = encode_varint64_loop-groups 9 v _ (omega arith)

-- On a `uint32_t` the unrolled encoder and the loop write the same bytes.
pub encode_varint32-eq-encode_varint64 : (v : ℕ) → IsU32 v → encode_varint32 v ≡ encode_varint64 v
unfolding encode_varint64
encode_varint32-eq-encode_varint64 v h =
    encode_varint32-groups v h ∙ sym (encode_varint64_loop-groups 4 v (lt_wf.apply v) (omega arith))

varint_length_loop-encode :
    (len v : ℕ) (w : Acc ◌<◌ v)
    → varint_length_loop len v w + 1 ≡ len + length (encode_varint64_loop v w)
unfolding varint_length_loop encode_varint64_loop
varint_length_loop-encode len v (Acc.intro _ smaller) = grind (
  arith,
  λ (p : 128 ≤ v). varint_length_loop-encode (len + 1) (v >>> 7) (smaller _ (shift_shrinks v p)),
)

-- `VarintLength` is the number of bytes that `EncodeVarint64` writes.
pub varint_length-length : (v : ℕ) → varint_length v ≡ length (encode_varint64 v)
unfolding varint_length encode_varint64
varint_length-length v = omega (arith, varint_length_loop-encode 1 v (lt_wf.apply v))

pub varint_length-length32 : (v : ℕ) → IsU32 v → varint_length v ≡ length (encode_varint32 v)
varint_length-length32 v h = rw (encode_varint32-eq-encode_varint64 v h) (varint_length-length v)

-- What it means that `out` is `dst` with 1 to `room` bytes appended.
abbrev pub Appends : ℕ → Bytes → Bytes → Type 0
Appends room dst out =
    All IsByte out
    × (length dst + 1 ≤ length out)
    × (length out ≤ length dst + room)
    × (take (length dst) out ≡ dst)

groups-Appends :
    (k : ℕ) (dst : Bytes) (v : ℕ)
    → All IsByte dst
    → v < 128 ^ suc k
    → Appends (k + 1) dst (dst ++ groups k v)
groups-Appends k dst v bytes h = (
  All-append IsByte dst (groups k v) bytes (groups-IsByte k v h),
  omega (arith, length-append dst (groups k v), length-groups k v),
  omega (arith, length-append dst (groups k v), length-groups k v),
  take-length-append dst (groups k v),
)

-- `PutVarint32` keeps what `dst` holds and appends 1 to 5 bytes, so that the buffer of 5 bytes
-- which it encodes into is not overrun.
pub put_varint32-Appends :
    (dst : Bytes) (v : ℕ) → All IsByte dst → IsU32 v → Appends 5 dst (put_varint32 dst v)
unfolding put_varint32
put_varint32-Appends dst v bytes h =
    rw (encode_varint32-groups v h) (groups-Appends 4 dst v bytes (omega arith))

-- The same of `PutVarint64` and its buffer of 10 bytes.
pub put_varint64-Appends :
    (dst : Bytes) (v : ℕ) → All IsByte dst → IsU64 v → Appends 10 dst (put_varint64 dst v)
unfolding put_varint64
put_varint64-Appends dst v bytes h =
    rw (encode_varint64-groups v h) (groups-Appends 9 dst v bytes (omega arith))

pub encode_varint32-IsByte : (v : ℕ) → IsU32 v → All IsByte (encode_varint32 v)
encode_varint32-IsByte v h = rw (encode_varint32-groups v h) (groups-IsByte 4 v (omega arith))
