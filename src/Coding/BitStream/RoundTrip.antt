-- ===== src/Coding/BitStream/RoundTrip.antt =====
-- `BitStreamGetInt` after `BitStreamPutInt`.
use native.Mathlib.Nat.{mod-lt, mod-eq_of_lt}
use rockscopy.Base.{
  ℕ, zero, suc, ◌+◌, ◌-◌, ◌*◌, ◌/◌, ◌%◌, ◌^◌, ◌≤◌, ◌<◌, ◌≡◌, refl, arith, u64, bit_and, ◌<<<◌,
  ◌>>>◌, min,
}
use rockscopy.Base.{true, false, leb, ltb, ◌==◌, Bool-cases, inl, inr, ◌∙◌, ap}
use rockscopy.Base.{Bytes, IsByte, All, some, length, get_elem?, set}
use rockscopy.Base.Bits.{bit_and_mask}
use rockscopy.Coding.BitStream.{
  mask_of, new_byte, put_loop, get_loop, fits, orig_value, bit_stream_get_int, bit_stream_put_int,
}
use rockscopy.Coding.BitStream.Field.{pow-pos, new_byte_back, new_byte-IsByte}
use rockscopy.Coding.BitStream.Arrays.{
  length-set, get_elem?-set, get_elem?-set_before, set-IsByte, get_elem?-IsByte,
}
use rockscopy.Coding.BitStream.Sums.{grow, no_wrap, joined}

pub put_step :
    (fuel bo b bits value byte : ℕ) (dst : Bytes)
    → 0 < bits
    → get_elem? dst bo ≡ some byte
    → let n = min bits (8 - b) in
      put_loop (suc fuel) dst bo b bits value
      ≡ put_loop fuel (set dst bo (new_byte byte b n value)) (bo + 1) 0 (bits - n) (value >>> n)
unfolding put_loop
put_step fuel bo b bits value byte dst pos e =
    let some_left : (bits == 0) ≡ false = ground arith in rw (put_loop, some_left, e) refl

pub get_step :
    (fuel bo b shift bits result byte : ℕ) (src : Bytes)
    → 0 < bits
    → get_elem? src bo ≡ some byte
    → let n = min bits (8 - b) in
      get_loop (suc fuel) src bo b shift bits result
      ≡ get_loop fuel src
          (bo + 1)
          0
          (shift + n)
          (bits - n)
          (u64 (result + u64 (bit_and (byte >>> b) (mask_of n) <<< shift)))
unfolding get_loop
get_step fuel bo b shift bits result byte src pos e =
    let some_left : (bits == 0) ≡ false = ground arith in rw (get_loop, some_left, e) refl

-- What a put leaves of an array, and what a get reads back from there.
abbrev Reads : ℕ → Bytes → ℕ → ℕ → ℕ → ℕ → ℕ → ℕ → Bytes → Type 0
Reads fuel dst bo b bits value shift result dst' =
    (put_loop fuel dst bo b bits value ≡ some dst')
    × (length dst' ≡ length dst)
    × ((i : ℕ) → i < bo → get_elem? dst' i ≡ get_elem? dst i)
    × (get_loop fuel dst' bo b shift bits result ≡ some (result + value % 2 ^ bits * 2 ^ shift))

module _ (fuel : ℕ) (dst : Bytes) (bo b bits value shift result byte : ℕ) (pos : 0 < bits)
    (hb : b < 8) (here : get_elem? dst bo ≡ some byte) (inside : bo < length dst)
    (is_byte : IsByte byte) (top : shift + bits ≤ 64) (small : result < 2 ^ shift) where
  abbrev n : ℕ
  n = min bits (8 - b)

  abbrev result1 : ℕ
  result1 = result + value % 2 ^ n * 2 ^ shift

  abbrev dst1 : Bytes
  dst1 = set dst bo (new_byte byte b n value)

  small1 : result1 < 2 ^ (shift + n)
  small1 = grow result (value % 2 ^ n) shift n small (mod-lt value (pow-pos n))

  get_on :
      (dst' : Bytes)
      → get_elem? dst' bo ≡ some (new_byte byte b n value)
      → get_loop (suc fuel) dst' bo b shift bits result
        ≡ get_loop fuel dst' (bo + 1) 0 (shift + n) (bits - n) result1
  get_on dst' there =
      get_step fuel bo b shift bits result (new_byte byte b n value) dst' pos there
      ∙ ap
          (λ (x : ℕ).
            get_loop fuel dst' (bo + 1) 0 (shift + n) (bits - n) (u64 (result + u64 (x <<< shift))))
          (new_byte_back b n byte value hb (omega arith) is_byte)
      ∙ ap (λ (x : ℕ). get_loop fuel dst' (bo + 1) 0 (shift + n) (bits - n) x)
          (no_wrap result (value % 2 ^ n) shift n small1 (omega arith))

  read_on :
      (dst' : Bytes)
      → Reads fuel dst1 (bo + 1) 0 (bits - n) (value >>> n) (shift + n) result1 dst'
      → Reads (suc fuel) dst bo b bits value shift result dst'
  read_on dst' (put, len, before, get) = (
    put_step fuel bo b bits value byte dst pos here ∙ put,
    len ∙ length-set dst bo (new_byte byte b n value),
    λ i h. before i (omega arith) ∙ get_elem?-set_before dst bo i (new_byte byte b n value) h,
    get_on dst' (before bo (omega arith) ∙ get_elem?-set dst bo (new_byte byte b n value) inside)
        ∙ get
        ∙ ap some (joined value result shift n bits (omega arith)),
  )

read_nothing :
    (fuel : ℕ) (dst : Bytes) (bo b bits value shift result : ℕ)
    → bits ≡ 0
    → Reads (suc fuel) dst bo b bits value shift result dst
unfolding put_loop get_loop
read_nothing fuel dst bo b bits value shift result e =
    rw e (refl, refl, λ i h. refl, ap some (grind arith))

read_back :
    (fuel : ℕ) (dst : Bytes) (bo b bits value shift result : ℕ)
    → bits < fuel
    → b < 8
    → 8 * bo + b + bits ≤ 8 * length dst
    → All IsByte dst
    → shift + bits ≤ 64
    → result < 2 ^ shift
    → (dst' : Bytes) × Reads fuel dst bo b bits value shift result dst'
read_back zero dst bo b bits value shift result h hb room bytes top small = absurd (omega arith)
read_back (suc fuel) dst bo b bits value shift result h hb room bytes top small =
    elim (Bool-cases (bits == 0)) [
      | inl done ↦ (dst, read_nothing fuel dst bo b bits value shift result (ground arith))
      | inr more ↦
          let pos : 0 < bits = ground arith in
          let k = min bits (8 - b) in
          let inside : bo < length dst = omega arith in
          let (byte, here, is_byte) = get_elem?-IsByte dst bo inside bytes in
          let stored = new_byte byte b k value in
          let room1 : 8 * (bo + 1) + 0 + (bits - k) ≤ 8 * length (set dst bo stored) =
            rw (length-set dst bo stored) (omega arith) in
          let (dst', reads) =
            read_back fuel (set dst bo stored) (bo + 1) 0 (bits - k) (value >>> k) (shift + k)
              (result + value % 2 ^ k * 2 ^ shift) (omega arith) (omega arith) room1
              (set-IsByte dst bo stored bytes (new_byte-IsByte b k byte value)) (omega arith)
              (grow result (value % 2 ^ k) shift k small (mod-lt value (pow-pos k))) in
          (
            dst',
            read_on fuel dst bo b bits value shift result byte pos hb here inside is_byte top small
                dst' reads,
          )
    ]

pub fits_lem :
    (len offset bits : ℕ)
    → offset + bits + 7 < 2 ^ 64
    → (offset + bits + 7) / 8 ≤ len
    → bits ≤ 64
    → fits len offset bits ≡ true
unfolding fits
fits_lem len offset bits small room h =
    let a : leb (u64 (offset + bits + 7) / 8) len ≡ true = rw (mod-eq_of_lt small) (ground arith) in
    let c : leb bits 64 ≡ true = ground arith in rw (a, c) refl

pub orig_value_lem :
    (bits value : ℕ) → bits ≤ 64 → value < 2 ^ 64 → orig_value bits value ≡ value % 2 ^ bits
unfolding orig_value
orig_value_lem bits value h k = elim (Bool-cases (ltb bits 64)) [
  | inl below ↦
      let e : 1 <<< bits ≡ 2 ^ bits = omega arith in rw (below, e, bit_and_mask bits value) refl
  | inr not_below ↦ let e : bits ≡ 64 = ground arith in rw (not_below, e) (omega arith)
]

-- The loops' result is that of the functions.
get_from :
    (dst' : Bytes) (offset bits w : ℕ)
    → fits (length dst') offset bits ≡ true
    → get_loop (bits + 1) dst' (offset / 8) (offset % 8) 0 bits 0 ≡ some (0 + w * 2 ^ 0)
    → bit_stream_get_int dst' offset bits ≡ some w
unfolding bit_stream_get_int
get_from dst' offset bits w ok get =
    let e : 0 + w * 2 ^ 0 ≡ w = omega arith in rw (bit_stream_get_int, ok) (get ∙ ap some e)

put_from :
    (dst dst' : Bytes) (offset bits value : ℕ)
    → fits (length dst) offset bits ≡ true
    → put_loop (bits + 1) dst (offset / 8) (offset % 8) bits value ≡ some dst'
    → bit_stream_get_int dst' offset bits ≡ some (orig_value bits value)
    → bit_stream_put_int dst offset bits value ≡ some dst'
unfolding bit_stream_put_int
put_from dst dst' offset bits value ok put get = ground (arith, ok, put, get)

-- `BitStreamPutInt` of a `uint64_t` by up to 64 bits, on an array with room for them and with an
-- offset that is no sum beyond a `size_t`, succeeds, its last assertion included: the array keeps
-- its length and the bytes before the first one written, and `BitStreamGetInt` at the same place
-- gives the value cut to the number of bits.
pub get_int-put_int :
    (dst : Bytes) (offset bits value : ℕ)
    → All IsByte dst
    → value < 2 ^ 64
    → bits ≤ 64
    → offset + bits + 7 < 2 ^ 64
    → (offset + bits + 7) / 8 ≤ length dst
    → (dst' : Bytes) × (bit_stream_put_int dst offset bits value ≡ some dst')
      × (length dst' ≡ length dst)
      × ((i : ℕ) → i < offset / 8 → get_elem? dst' i ≡ get_elem? dst i)
      × (bit_stream_get_int dst' offset bits ≡ some (value % 2 ^ bits))
get_int-put_int dst offset bits value bytes word few small room =
    let ok = fits_lem (length dst) offset bits small room few in
    let (dst', reads) =
      read_back (bits + 1) dst (offset / 8) (offset % 8) bits value 0 0 (omega arith) (omega arith)
        (omega arith) bytes (omega arith) (omega arith) in
    let (put, len, before, got) = reads in
    let ok' : fits (length dst') offset bits ≡ true = rw len ok in
    let get = get_from dst' offset bits (value % 2 ^ bits) ok' got in
    let get' : bit_stream_get_int dst' offset bits ≡ some (orig_value bits value) =
      rw (orig_value_lem bits value few word) get in
    (dst', put_from dst dst' offset bits value ok put get', len, before, get)
