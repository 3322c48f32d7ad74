-- ===== src/Coding/Fixed/Tests.antt =====
-- Concrete runs of the fixed-length codecs, and the theorems at concrete inputs.
use rockscopy.Base.{true, false, ◌≡◌, refl, arith, [], ◌∷◌, ◌++◌, none, some}
use rockscopy.Coding.Fixed.{object_bytes, encode_fixed32, encode_fixed64}
use rockscopy.Coding.Fixed.{put_fixed32, decode_fixed32, decode_fixed64}
use rockscopy.Coding.Fixed.Laws.{decode_fixed32_branches}
use rockscopy.Coding.Fixed.Laws.{decode_fixed64-encode_fixed64}

-- The least significant byte stands first.
put_fixed32_run : put_fixed32 (9 ∷ []) 0x01020304 ≡ 9 ∷ 4 ∷ 3 ∷ 2 ∷ 1 ∷ []
unfolding put_fixed32 encode_fixed32 object_bytes
put_fixed32_run = refl

decode_fixed32_short : decode_fixed32 true (1 ∷ 2 ∷ 3 ∷ []) ≡ none
unfolding decode_fixed32
decode_fixed32_short = refl

decode_fixed32_branches_example :
    decode_fixed32 false (0xef ∷ 0xbe ∷ 0xad ∷ 0xde ∷ 7 ∷ [])
    ≡ decode_fixed32 true (0xef ∷ 0xbe ∷ 0xad ∷ 0xde ∷ 7 ∷ [])
decode_fixed32_branches_example =
    decode_fixed32_branches (0xef ∷ 0xbe ∷ 0xad ∷ 0xde ∷ 7 ∷ []) (omega arith)

decode_fixed64-encode_fixed64_example :
    decode_fixed64 false (encode_fixed64 0xdeadbeef01020304 ++ (7 ∷ [])) ≡ some 0xdeadbeef01020304
decode_fixed64-encode_fixed64_example =
    decode_fixed64-encode_fixed64 false 0xdeadbeef01020304 (7 ∷ []) (omega arith)
