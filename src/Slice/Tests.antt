-- ===== src/Slice/Tests.antt =====
-- Concrete runs on slices, and the theorems at concrete inputs.
use rockscopy.Base.{◌*◌, ◌≡◌, refl, arith, [], ◌∷◌}
use rockscopy.Base.{some, true, false, length, All}
use rockscopy.Slice.{Slice, less, compare}
use rockscopy.Slice.{to_string, hex_loop, hex_byte, hex_digit}
use rockscopy.Slice.Compare.{lexicographic, compare-lexicographic}
use rockscopy.Slice.Text.{read_hex, IsHexDigit, to_string_hex}

abbrev ab : Slice
ab = b'a' ∷ b'b' ∷ []

abbrev abc : Slice
abc = b'a' ∷ b'b' ∷ b'c' ∷ []

abbrev high : Slice
high = 0xff ∷ []

to_string_run : to_string (0x0a ∷ 0xff ∷ []) true ≡ b'0' ∷ b'A' ∷ b'F' ∷ b'F' ∷ []
unfolding to_string hex_loop hex_byte hex_digit
to_string_run = refl

compare-lexicographic_example : compare ab abc ≡ some (lexicographic ab abc)
compare-lexicographic_example = compare-lexicographic ab abc (omega arith)

ab_before_abc : compare ab abc ≡ some less
ab_before_abc = compare-lexicographic ab abc (omega arith)

abc_before_high : compare abc high ≡ some less
abc_before_high = compare-lexicographic abc high (omega arith)

to_string_hex_example :
    (read_hex (to_string high true) ≡ high)
    × (length (to_string high true) ≡ 2 * length high)
    × All IsHexDigit (to_string high true)
    × (to_string high false ≡ high)
to_string_hex_example = to_string_hex high (omega arith)
