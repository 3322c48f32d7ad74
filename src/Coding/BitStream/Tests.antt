-- ===== src/Coding/BitStream/Tests.antt =====
-- Concrete runs on bit streams, and the theorem at a concrete input.
use rockscopy.Base.{ℕ, ◌<◌, ◌≡◌, refl, arith, Bytes, [], ◌∷◌, some, length, get_elem?}
use rockscopy.Coding.BitStream.{
  bit_stream_get_int, bit_stream_put_int, put_loop, get_loop, fits, new_byte, mask_of, orig_value,
  complement,
}
use rockscopy.Base.{inr, none, ◌++◌}
use rockscopy.Coding.BitStream.{
  bit_stream_put_int_string, bit_stream_get_int_string, put_buffered, copy_in, copy_out, string_at,
  string_set,
}
use rockscopy.Coding.BitStream.RoundTrip.{get_int-put_int}
use rockscopy.Coding.BitStream.Strings.{put_int_string-put_int}
use rockscopy.Coding.BitStream.Apart.{get_int-put_int_apart}

abbrev ones : Bytes
ones = 0xff ∷ 0xff ∷ 0xff ∷ []

-- The 12 bits from bit 6 on.
put_run : bit_stream_put_int ones 6 12 0x123 ≡ some (0xff ∷ 0x48 ∷ 0xfc ∷ [])
unfolding bit_stream_put_int bit_stream_get_int put_loop get_loop fits new_byte mask_of orig_value
    complement
put_run = refl

get_int-put_int_example :
    (dst' : Bytes) × (bit_stream_put_int ones 10 9 0x155 ≡ some dst')
    × (length dst' ≡ 3)
    × ((i : ℕ) → i < 1 → get_elem? dst' i ≡ get_elem? ones i)
    × (bit_stream_get_int dst' 10 9 ≡ some 0x155)
get_int-put_int_example =
    get_int-put_int ones 10 9 0x155 (omega arith) (omega arith) (omega arith) (omega arith)
      (omega arith)

-- The 12 bits up to the end of a string, where the copies take the byte behind it along.
abbrev buffer : Bytes
buffer = 1 ∷ 2 ∷ 3 ∷ 4 ∷ 5 ∷ 6 ∷ 7 ∷ 8 ∷ 9 ∷ []

put_string_run : bit_stream_put_int_string buffer ones 12 12 0x123 ≡ some (0xff ∷ 0x3f ∷ 0x12 ∷ [])
unfolding bit_stream_put_int_string put_buffered copy_in copy_out string_at string_set
    bit_stream_get_int_string bit_stream_put_int bit_stream_get_int put_loop get_loop fits new_byte
    mask_of orig_value complement
put_string_run = refl

-- With more than 64 bits the copy runs past the buffer before any assertion stops it.
put_string_overrun : bit_stream_put_int_string buffer (ones ++ buffer) 0 72 0x123 ≡ none
unfolding bit_stream_put_int_string put_buffered copy_in string_at
put_string_overrun = refl

put_int_string-put_int_example :
    (dst' : Bytes) × (bit_stream_put_int_string buffer ones 12 12 0x123 ≡ some dst')
    × (bit_stream_put_int ones 12 12 0x123 ≡ some dst')
    × (bit_stream_get_int_string dst' 12 12 ≡ some 0x123)
put_int_string-put_int_example =
    put_int_string-put_int buffer ones 12 12 0x123 refl (omega arith) (omega arith) (omega arith)
      (omega arith) (omega arith) (omega arith)

get_int-put_int_apart_example :
    (dst' : Bytes) × (bit_stream_put_int ones 6 12 0x123 ≡ some dst')
    × (bit_stream_get_int dst' 18 6 ≡ bit_stream_get_int ones 18 6)
get_int-put_int_apart_example =
    get_int-put_int_apart ones 6 12 0x123 18 6 (omega arith) (omega arith) (omega arith)
      (omega arith) (omega arith) (omega arith) (omega arith) (omega arith) (inr (omega arith))
