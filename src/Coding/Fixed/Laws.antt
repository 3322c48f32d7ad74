-- ===== src/Coding/Fixed/Laws.antt =====
-- Fixed-length integers: sizes, byte order, and the round trips through either decoder branch.
use native.Mathlib.Nat.{pow-suc}
use mathlib.Core.List.{append_assoc}
use rockscopy.Base.{ℕ, zero, suc, ◌+◌, ◌*◌, ◌/◌, ◌%◌, ◌^◌, ◌<◌, Bytes, IsByte, IsU32, IsU64}
use rockscopy.Base.{Bool, true, false, length, take, drop, All, ◌≡◌, refl, ap, ◌∙◌, sym, arith}
use rockscopy.Base.{[], ◌∷◌, ◌++◌, some, length-append, bit_or, ◌<<<◌}
use rockscopy.Base.{take-length-append, All-append, u32, u64}
use rockscopy.Base.Bits.{bit_or_fields, bit_or_comm}
use rockscopy.Coding.Fixed.{object_bytes, object_value, load, encode_fixed32, encode_fixed64}
use rockscopy.Coding.Fixed.{put_fixed32, put_fixed64, decode_fixed32, decode_fixed64}

pub length-object_bytes : (n v : ℕ) → length (object_bytes n v) ≡ n
unfolding object_bytes
length-object_bytes zero v = refl
length-object_bytes (suc n) v = ap suc (length-object_bytes n (v / 256))

pub object_bytes-IsByte : (n v : ℕ) → All IsByte (object_bytes n v)
unfolding object_bytes
object_bytes-IsByte zero v = tt
object_bytes-IsByte (suc n) v = (omega arith, object_bytes-IsByte n (v / 256))

pub object_value-object_bytes : (n v : ℕ) → v < 256 ^ n → object_value (object_bytes n v) ≡ v
unfolding object_bytes object_value
object_value-object_bytes zero v h = omega arith
object_value-object_bytes (suc n) v h =
    let fits : v / 256 < 256 ^ n = omega (arith, pow-suc 256 n) in
    omega (arith, object_value-object_bytes n (v / 256) fits)

-- The shifts and `|` of the byte-wise branch, on bytes.
join_four :
    (b0 b1 b2 b3 : ℕ)
    → IsByte b0
    → IsByte b1
    → IsByte b2
    → IsByte b3
    → bit_or (bit_or (bit_or b0 (u32 (b1 <<< 8))) (u32 (b2 <<< 16))) (u32 (b3 <<< 24))
      ≡ b0 + 256 * (b1 + 256 * (b2 + 256 * b3))
join_four b0 b1 b2 b3 h0 h1 h2 h3 = ground (
  arith,
  bit_or_fields 8 b0 b1,
  bit_or_fields 16 (b0 + b1 * 2 ^ 8) b2,
  bit_or_fields 24 (b0 + b1 * 2 ^ 8 + b2 * 2 ^ 16) b3,
)

join_halves : (lo hi : ℕ) → IsU32 lo → IsU32 hi → bit_or (u64 (hi <<< 32)) lo ≡ lo + hi * 2 ^ 32
join_halves lo hi hl hh = ground (arith, bit_or_comm (hi * 2 ^ 32) lo, bit_or_fields 32 lo hi)

-- `DecodeFixed32` on four bytes, through either branch.
decode_fixed32_four :
    (little : Bool) (b0 b1 b2 b3 : ℕ) (rest : Bytes)
    → IsByte b0
    → IsByte b1
    → IsByte b2
    → IsByte b3
    → decode_fixed32 little (b0 ∷ b1 ∷ b2 ∷ b3 ∷ rest)
      ≡ some (b0 + 256 * (b1 + 256 * (b2 + 256 * b3)))
unfolding decode_fixed32 object_value
decode_fixed32_four true b0 b1 b2 b3 rest h0 h1 h2 h3 = ground arith
decode_fixed32_four false b0 b1 b2 b3 rest h0 h1 h2 h3 = ap some (join_four b0 b1 b2 b3 h0 h1 h2 h3)

pub decode_fixed32_loads :
    (b0 b1 b2 b3 : ℕ) (rest : Bytes)
    → decode_fixed32 true (b0 ∷ b1 ∷ b2 ∷ b3 ∷ rest) ≡ some (object_value (b0 ∷ b1 ∷ b2 ∷ b3 ∷ []))
unfolding decode_fixed32
decode_fixed32_loads b0 b1 b2 b3 rest = ground arith

-- Both branches of `DecodeFixed32` give the same answer on every memory of bytes, a fault included.
pub decode_fixed32_branches :
    (ptr : Bytes) → All IsByte ptr → decode_fixed32 false ptr ≡ decode_fixed32 true ptr
decode_fixed32_branches [] h = unfold decode_fixed32 in refl
decode_fixed32_branches (b0 ∷ []) h = unfold decode_fixed32 in refl
decode_fixed32_branches (b0 ∷ b1 ∷ []) h = unfold decode_fixed32 in refl
decode_fixed32_branches (b0 ∷ b1 ∷ b2 ∷ []) h = unfold decode_fixed32 in refl
decode_fixed32_branches (b0 ∷ b1 ∷ b2 ∷ b3 ∷ rest) (h0, (h1, (h2, (h3, _)))) =
    decode_fixed32_four false b0 b1 b2 b3 rest h0 h1 h2 h3
    ∙ sym (decode_fixed32_four true b0 b1 b2 b3 rest h0 h1 h2 h3)

load-object_bytes :
    (n v : ℕ) (rest : Bytes) → v < 256 ^ n → load n (object_bytes n v ++ rest) ≡ some v
unfolding load
load-object_bytes n v rest h = ground (
  arith,
  length-append (object_bytes n v) rest,
  length-object_bytes n v,
  object_value-object_bytes n v h,
  ap (λ (k : ℕ). take k (object_bytes n v ++ rest)) (sym (length-object_bytes n v)),
  take-length-append (object_bytes n v) rest,
)

-- `DecodeFixed32` reads back the `uint32_t` that `EncodeFixed32` wrote, whatever follows it and
-- whichever branch the byte order selects.
pub decode_fixed32-encode_fixed32 :
    (little : Bool) (value : ℕ) (rest : Bytes)
    → IsU32 value
    → decode_fixed32 little (encode_fixed32 value ++ rest) ≡ some value
unfolding encode_fixed32 object_bytes
decode_fixed32-encode_fixed32 little value rest h =
    decode_fixed32_four little _ _ _ _ rest (omega arith) (omega arith) (omega arith) (omega arith)
    ∙ ap some (omega arith)

-- The eight bytes of a `uint64_t` are the four of its low half and the four of its high half.
encode_fixed64_halves :
    (value : ℕ)
    → encode_fixed64 value
      ≡ encode_fixed32 (value % 2 ^ 32) ++ encode_fixed32 (value / 2 ^ 32 % 2 ^ 32)
unfolding encode_fixed64 encode_fixed32 object_bytes
encode_fixed64_halves value = ground arith

decode_fixed64_joins :
    (ptr : Bytes) (lo hi : ℕ)
    → decode_fixed32 false ptr ≡ some lo
    → decode_fixed32 false (drop 4 ptr) ≡ some hi
    → decode_fixed64 false ptr ≡ some (bit_or (u64 (hi <<< 32)) lo)
unfolding decode_fixed64
decode_fixed64_joins ptr lo hi el eh = ground arith

drop-encode_fixed32 : (v : ℕ) (rest : Bytes) → drop 4 (encode_fixed32 v ++ rest) ≡ rest
unfolding encode_fixed32 object_bytes
drop-encode_fixed32 v rest = refl

decode_fixed64_two_halves :
    (lo hi : ℕ) (rest : Bytes)
    → IsU32 lo
    → IsU32 hi
    → decode_fixed64 false (encode_fixed32 lo ++ (encode_fixed32 hi ++ rest))
      ≡ some (lo + hi * 2 ^ 32)
decode_fixed64_two_halves lo hi rest hl hh =
    decode_fixed64_joins _ lo hi (decode_fixed32-encode_fixed32 false lo _ hl)
      (rw drop-encode_fixed32 (decode_fixed32-encode_fixed32 false hi rest hh))
    ∙ ap some (join_halves lo hi hl hh)

-- `DecodeFixed64` reads back the `uint64_t` that `EncodeFixed64` wrote, in either branch and
-- whatever bytes follow.
pub decode_fixed64-encode_fixed64 :
    (little : Bool) (value : ℕ) (rest : Bytes)
    → IsU64 value
    → decode_fixed64 little (encode_fixed64 value ++ rest) ≡ some value
decode_fixed64-encode_fixed64 true value rest h =
    unfold decode_fixed64 encode_fixed64 in load-object_bytes 8 value rest h
decode_fixed64-encode_fixed64 false value rest h =
    rw (encode_fixed64_halves, append_assoc)
      (decode_fixed64_two_halves (value % 2 ^ 32) (value / 2 ^ 32 % 2 ^ 32) rest (omega arith)
          (omega arith)
        ∙ ap some (omega arith))

-- `PutFixed32` and `PutFixed64` keep what `dst` holds and append four and eight bytes.
pub put_fixed_shape :
    (dst : Bytes) (value : ℕ)
    → All IsByte dst
    → (length (put_fixed32 dst value) ≡ length dst + 4)
      × (length (put_fixed64 dst value) ≡ length dst + 8)
      × All IsByte (put_fixed32 dst value)
      × All IsByte (put_fixed64 dst value)
      × (take (length dst) (put_fixed32 dst value) ≡ dst)
      × (take (length dst) (put_fixed64 dst value) ≡ dst)
unfolding put_fixed32 put_fixed64 encode_fixed32 encode_fixed64
put_fixed_shape dst value h = (
  omega (arith, length-append dst (object_bytes 4 value), length-object_bytes 4 value),
  omega (arith, length-append dst (object_bytes 8 value), length-object_bytes 8 value),
  All-append IsByte dst _ h (object_bytes-IsByte 4 value),
  All-append IsByte dst _ h (object_bytes-IsByte 8 value),
  take-length-append dst _,
  take-length-append dst _,
)
