-- ===== src/Coding/Prefixed/Tests.antt =====
-- Concrete runs of the length-prefixed codecs, and the theorems at concrete inputs.
use rockscopy.Base.{ℕ, ◌<◌, ◌≡◌, arith, [], ◌∷◌, ◌++◌, none, some}
use rockscopy.Base.{true, ◌⊎◌}
use rockscopy.Slice.{size}
use rockscopy.Coding.Varint.{get_varint32_ptr}
use rockscopy.Coding.Prefixed.{put_length_prefixed_slice, get_length_prefixed_slice_ptr, Parse}
use rockscopy.Coding.Prefixed.{get_length_prefixed_slice}
use rockscopy.Coding.Prefixed.Laws.{get_ptr-put, Agrees, get_length_prefixed_slice-Agrees}

get_ptr-put_example :
    get_length_prefixed_slice_ptr
      (put_length_prefixed_slice [] (b'a' ∷ b'b' ∷ b'c' ∷ []) ++ b'd' ∷ [])
    ≡ some (b'a' ∷ b'b' ∷ b'c' ∷ [], b'd' ∷ [])
get_ptr-put_example =
    get_ptr-put (b'a' ∷ b'b' ∷ b'c' ∷ []) (b'd' ∷ []) (omega arith) (omega arith) (omega arith)

-- A length of 3 before two bytes.
get_length_prefixed_slice-Agrees_example :
    (parse : Parse) × (get_length_prefixed_slice (3 ∷ 7 ∷ 8 ∷ []) [] ≡ some parse)
    × Agrees [] (get_length_prefixed_slice_ptr (3 ∷ 7 ∷ 8 ∷ [])) parse
    × ((parse.found ≡ true)
        ⊎ ((get_varint32_ptr (3 ∷ 7 ∷ 8 ∷ []) ≡ none) × (parse.input ≡ 3 ∷ 7 ∷ 8 ∷ []))
        ⊎ ((len : ℕ) × (get_varint32_ptr (3 ∷ 7 ∷ 8 ∷ []) ≡ some (len, parse.input))
            × (size parse.input < len)))
get_length_prefixed_slice-Agrees_example = get_length_prefixed_slice-Agrees (3 ∷ 7 ∷ 8 ∷ []) []
