-- ===== src/Coding/BitStream.antt =====
-- src/util/coding.cpp: `BitStreamPutInt` and `BitStreamGetInt`, integers of any number of bits up to
-- 64 at any bit of an array of bytes.
pub mod Field
pub mod Arrays
pub mod Sums
pub mod RoundTrip
pub mod Window
pub mod Copies
pub mod Strings
pub mod Frame
pub mod Apart
mod Tests
use rockscopy.Base.{
  ℕ, zero, suc, ◌+◌, ◌-◌, ◌*◌, ◌/◌, ◌%◌, ◌^◌, min, u8, u32, u64, bit_and, ◌<<<◌, ◌>>>◌, Bytes,
}
use rockscopy.Base.{
  Bool, true, false, ltb, leb, ◌==◌, if◌then◌else◌, not, ◌&&◌, length, get_elem?, set, take, drop,
}
use rockscopy.Base.{List, [], ◌∷◌, ◌++◌, Option, none, some, ◌>>=◌}

-- `(1 << bitsToGet) - 1` in an `unsigned char`.
pub mask_of : ℕ → ℕ
mask_of bits_to_get = u8 ((1 <<< bits_to_get) - 1)

-- `~` of an `int`, by its 32 bits.
complement : ℕ → ℕ
complement x = 2 ^ 32 - 1 - x

-- The byte that is stored in place of `byte`.
pub new_byte : ℕ → ℕ → ℕ → ℕ → ℕ
unfolding mask_of complement
new_byte byte bit_offset bits_to_get value =
    let mask = mask_of bits_to_get in
    u8 (bit_and byte (complement (mask <<< bit_offset)) + (bit_and value mask <<< bit_offset))

-- The loop `while (bits > 0)` of both functions takes fuel: `none` means that it ran out, or that a
-- byte is not in the array.
pub put_loop : ℕ → Bytes → ℕ → ℕ → ℕ → ℕ → Option Bytes
put_loop zero ptr byte_offset bit_offset bits value = none
put_loop (suc fuel) ptr byte_offset bit_offset bits value = elim (bits == 0) [
  | true ↦ some ptr
  | false ↦ elim (get_elem? ptr byte_offset) [
    | none ↦ none
    | some byte ↦
        let bits_to_get = min bits (8 - bit_offset) in
        put_loop fuel (set ptr byte_offset (new_byte byte bit_offset bits_to_get value))
          (byte_offset + 1) 0 (bits - bits_to_get) (value >>> bits_to_get)
  ]
]

pub get_loop : ℕ → Bytes → ℕ → ℕ → ℕ → ℕ → ℕ → Option ℕ
unfolding mask_of
get_loop zero ptr byte_offset bit_offset shift bits result = none
get_loop (suc fuel) ptr byte_offset bit_offset shift bits result = elim (bits == 0) [
  | true ↦ some result
  | false ↦ elim (get_elem? ptr byte_offset) [
    | none ↦ none
    | some byte ↦
        let bits_to_get = min bits (8 - bit_offset) in
        let got = bit_and (byte >>> bit_offset) (mask_of bits_to_get) in
        get_loop fuel ptr (byte_offset + 1) 0 (shift + bits_to_get) (bits - bits_to_get)
          (u64 (result + u64 (got <<< shift)))
  ]
]

-- The assertions that both functions begin with.
pub fits : ℕ → ℕ → ℕ → Bool
fits len offset bits = leb (u64 (offset + bits + 7) / 8) len && leb bits 64

pub bit_stream_get_int : Bytes → ℕ → ℕ → Option ℕ
bit_stream_get_int src offset bits =
    if fits (length src) offset bits
    then get_loop (bits + 1) src (offset / 8) (offset % 8) 0 bits 0
    else none

-- `origValue`.
pub orig_value : ℕ → ℕ → ℕ
orig_value bits value = if ltb bits 64 then bit_and value ((1 <<< bits) - 1) else value

-- `none` is a failed assertion, the last one included.
pub bit_stream_put_int : Bytes → ℕ → ℕ → ℕ → Option Bytes
bit_stream_put_int dst offset bits value =
    if fits (length dst) offset bits
    then elim (put_loop (bits + 1) dst (offset / 8) (offset % 8) bits value) [
      | none ↦ none
      | some dst' ↦ elim (bit_stream_get_int dst' offset bits) [
        | none ↦ none
        | some got ↦ if orig_value bits value == got then some dst' else none
      ]
    ]
    else none

-- `(*dst)[i]` of a `std::string`: at `size()` stands a zero byte, which may only be set to zero.
pub string_at : Bytes → ℕ → Option ℕ
string_at dst i = if i == length dst then some 0 else get_elem? dst i

pub string_set : Bytes → ℕ → ℕ → Option Bytes
string_set dst i byte =
    if i == length dst
    then if byte == 0 then some dst else none
    else if ltb i (length dst)
    then some (set dst i byte)
    else none

-- The loops `for (size_t idx = 0; idx <= kUsedBytes; ++idx)`, `left` rounds from `idx` on, with
-- `first` for `offset / 8`. `none` is an index past an end.
pub copy_in : ℕ → ℕ → Bytes → ℕ → Bytes → Option Bytes
copy_in zero idx dst first tmp_buf = some tmp_buf
copy_in (suc left) idx dst first tmp_buf = elim (string_at dst (first + idx)) [
  | none ↦ none
  | some byte ↦ elim (ltb idx (length tmp_buf)) [
    | false ↦ none
    | true ↦ copy_in left (idx + 1) dst first (set tmp_buf idx byte)
  ]
]

pub copy_out : ℕ → ℕ → Bytes → ℕ → Bytes → Option Bytes
copy_out zero idx tmp_buf first dst = some dst
copy_out (suc left) idx tmp_buf first dst = elim (get_elem? tmp_buf idx) [
  | none ↦ none
  | some byte ↦ elim (string_set dst (first + idx) byte) [
    | none ↦ none
    | some dst' ↦ copy_out left (idx + 1) tmp_buf first dst'
  ]
]

pub bit_stream_get_int_string : Bytes → ℕ → ℕ → Option ℕ
bit_stream_get_int_string src offset bits = bit_stream_get_int src offset bits

pub bit_stream_get_int_slice : Bytes → ℕ → ℕ → Option ℕ
bit_stream_get_int_slice src offset bits = bit_stream_get_int src offset bits

-- What the overload on a string does behind its first assertion. `tmp_buf` is what the 9 bytes of
-- the buffer hold before.
pub put_buffered : Bytes → Bytes → ℕ → ℕ → ℕ → Option Bytes
put_buffered tmp_buf dst offset bits value =
    let used_bytes = (offset % 8 + bits) / 8 in
    do
      filled ← copy_in (used_bytes + 1) 0 dst (offset / 8) tmp_buf
      stored ← bit_stream_put_int filled (offset % 8) bits value
      dst' ← copy_out (used_bytes + 1) 0 stored (offset / 8) dst
      got ← bit_stream_get_int_string dst' offset bits
      if orig_value bits value == got then some dst' else none

pub bit_stream_put_int_string : Bytes → Bytes → ℕ → ℕ → ℕ → Option Bytes
bit_stream_put_int_string tmp_buf dst offset bits value =
    if leb (u64 (offset + bits + 7) / 8) (length dst)
    then put_buffered tmp_buf dst offset bits value
    else none
