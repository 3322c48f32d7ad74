-- ===== src/Coding/Records/Tests.antt =====
-- A record of three fields.
use rockscopy.Base.{◌≡◌, arith, List, [], ◌∷◌, ◌++◌, some}
use mathlib.Core.List.{map}
use rockscopy.Coding.Records.{Field, number32, number64, text, kind_of, put_fields, get_fields}
use rockscopy.Coding.Records.RoundTrip.{get_fields-put_fields}

abbrev three : List Field
three = number32 300 ∷ text (b'k' ∷ b'e' ∷ b'y' ∷ []) ∷ number64 5000000000 ∷ []

get_fields-put_fields_example :
    get_fields (map kind_of three) (put_fields [] three ++ (7 ∷ [])) ≡ some (three, 7 ∷ [])
get_fields-put_fields_example = get_fields-put_fields three (7 ∷ []) (omega arith) (omega arith)
