-- ===== src/Coding/Varint/Tests.antt =====
-- Concrete runs of the varint codecs, and the theorems at concrete inputs.
use rockscopy.Base.{◌≡◌, refl, arith, [], ◌∷◌, ◌++◌, none, some}
use rockscopy.Base.{length, ◌↔◌, lt_wf}
use native.Mathlib.Decide.{dec_le}
use rockscopy.Coding.Varint.{encode_varint32, encode_varint64, encode_varint64_loop}
use rockscopy.Coding.Varint.{varint_length, get_varint32_ptr, get_varint32_ptr_fallback}
use rockscopy.Coding.Varint.{get_varint64_ptr, get_varint_loop}
use rockscopy.Coding.Varint.Encode.{encode_varint32-eq-encode_varint64}
use rockscopy.Coding.Varint.Encode.{varint_length-length}
use rockscopy.Coding.Varint.Decode.{Unterminated}
use rockscopy.Coding.Varint.Decode.{get_varint32_ptr-eq-none}
use rockscopy.Coding.Varint.RoundTrip.{get_varint32_ptr-encode_varint32}
use rockscopy.Coding.Varint.RoundTrip.{get_varint64_ptr-encode_varint64}

encode_varint32_run : encode_varint32 300 ≡ 0xac ∷ 0x02 ∷ []
unfolding encode_varint32
encode_varint32_run = refl

encode_varint64_run : encode_varint64 300 ≡ 0xac ∷ 0x02 ∷ []
unfolding encode_varint64 encode_varint64_loop lt_wf dec_le
encode_varint64_run = refl

-- A number padded with empty groups, which the encoders never write, is accepted.
get_varint32_padded : get_varint32_ptr (0x87 ∷ 0x80 ∷ 0x00 ∷ 9 ∷ []) ≡ some (7, 9 ∷ [])
unfolding get_varint32_ptr get_varint32_ptr_fallback get_varint_loop
get_varint32_padded = refl

-- Five bytes hold 35 bits: the three that do not fit are dropped without an error.
get_varint32_too_wide :
    get_varint32_ptr (0x80 ∷ 0x80 ∷ 0x80 ∷ 0x80 ∷ 0x7f ∷ []) ≡ some (0xf0000000, [])
unfolding get_varint32_ptr get_varint32_ptr_fallback get_varint_loop
get_varint32_too_wide = refl

get_varint64_padded : get_varint64_ptr (0x87 ∷ 0x80 ∷ 0x00 ∷ 9 ∷ []) ≡ some (7, 9 ∷ [])
unfolding get_varint64_ptr get_varint_loop
get_varint64_padded = refl

encode_varint32-eq-encode_varint64_example : encode_varint32 0xdeadbeef ≡ encode_varint64 0xdeadbeef
encode_varint32-eq-encode_varint64_example =
    encode_varint32-eq-encode_varint64 0xdeadbeef (omega arith)

varint_length-length_example : varint_length 300 ≡ length (encode_varint64 300)
varint_length-length_example = varint_length-length 300

get_varint32_ptr-eq-none_example :
    (get_varint32_ptr (0x80 ∷ 0x81 ∷ []) ≡ none) ↔ Unterminated 5 (0x80 ∷ 0x81 ∷ [])
get_varint32_ptr-eq-none_example = get_varint32_ptr-eq-none (0x80 ∷ 0x81 ∷ []) (omega arith)

get_varint32_ptr-encode_varint32_example :
    get_varint32_ptr (encode_varint32 0xdeadbeef ++ 9 ∷ []) ≡ some (0xdeadbeef, 9 ∷ [])
get_varint32_ptr-encode_varint32_example =
    get_varint32_ptr-encode_varint32 0xdeadbeef (9 ∷ []) (omega arith) (omega arith)

get_varint64_ptr-encode_varint64_example :
    get_varint64_ptr (encode_varint64 0xdeadbeef01020304 ++ 9 ∷ [])
    ≡ some (0xdeadbeef01020304, 9 ∷ [])
get_varint64_ptr-encode_varint64_example =
    get_varint64_ptr-encode_varint64 0xdeadbeef01020304 (9 ∷ []) (omega arith)
