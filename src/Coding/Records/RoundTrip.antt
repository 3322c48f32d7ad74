-- ===== src/Coding/Records/RoundTrip.antt =====
-- What a sequence of `Put`s wrote, the same sequence of `Get`s reads back.
use mathlib.Core.List.{append_assoc, map}
use rockscopy.Base.{Bytes, ◌≡◌, refl, sym, arith, ◌∙◌, ap, u32}
use rockscopy.Base.{List, [], ◌∷◌, ◌++◌, some, length, All, All-append, IsByte}
use rockscopy.Slice.{Slice, size}
use rockscopy.Coding.Varint.{
  encode_varint32, encode_varint64, put_varint32, put_varint64, get_varint32, get_varint64,
}
use rockscopy.Coding.Varint.Groups.{groups-IsByte}
use rockscopy.Coding.Varint.Encode.{encode_varint32-IsByte, encode_varint64-groups}
use rockscopy.Coding.Varint.RoundTrip.{
  get_varint32_ptr-encode_varint32, get_varint64_ptr-encode_varint64,
}
use rockscopy.Coding.Prefixed.{put_length_prefixed_slice, get_length_prefixed_slice_ptr}
use rockscopy.Coding.Prefixed.Laws.{get_ptr-put, get_length_prefixed_slice-Agrees}
use rockscopy.Coding.Records.{
  Field, number32, number64, text, kind_of, IsField, put_field, put_fields, get_field, get_fields,
}

abbrev bytes_of : Field → Bytes
bytes_of (number32 v) = encode_varint32 v
bytes_of (number64 v) = encode_varint64 v
bytes_of (text s) = put_length_prefixed_slice [] s

abbrev all_bytes : List Field → Bytes
all_bytes [] = []
all_bytes (f ∷ fs) = bytes_of f ++ all_bytes fs

put_field-append : (dst : Bytes) (f : Field) → put_field dst f ≡ dst ++ bytes_of f
unfolding put_varint32 put_varint64 put_length_prefixed_slice
put_field-append dst (number32 v) = refl
put_field-append dst (number64 v) = refl
put_field-append dst (text s) = append_assoc dst (encode_varint32 (u32 (size s))) s

append-nil : (xs : Bytes) → xs ++ [] ≡ xs
append-nil [] = refl
append-nil (x ∷ xs) = ap (λ (t : Bytes). x ∷ t) (append-nil xs)

put_fields-append : (dst : Bytes) (fs : List Field) → put_fields dst fs ≡ dst ++ all_bytes fs
put_fields-append dst [] = sym (append-nil dst)
put_fields-append dst (f ∷ fs) =
    put_fields-append (put_field dst f) fs
    ∙ ap (λ (t : Bytes). t ++ all_bytes fs) (put_field-append dst f)
    ∙ append_assoc dst (bytes_of f) (all_bytes fs)

bytes_of-IsByte : (f : Field) → IsField f → All IsByte (bytes_of f)
unfolding put_length_prefixed_slice put_varint32 size
bytes_of-IsByte (number32 v) h = encode_varint32-IsByte v h
bytes_of-IsByte (number64 v) h = rw (encode_varint64-groups v h) (groups-IsByte 9 v (omega arith))
bytes_of-IsByte (text s) h =
    All-append IsByte (encode_varint32 (u32 (length s))) s
      (encode_varint32-IsByte (u32 (length s)) (omega arith)) h.1

all_bytes-IsByte : (fs : List Field) → All IsField fs → All IsByte (all_bytes fs)
all_bytes-IsByte [] h = tt
all_bytes-IsByte (f ∷ fs) (h, hs) =
    All-append IsByte (bytes_of f) (all_bytes fs) (bytes_of-IsByte f h) (all_bytes-IsByte fs hs)

get_text :
    (s rest : Slice)
    → get_length_prefixed_slice_ptr (bytes_of (text s) ++ rest) ≡ some (s, rest)
    → get_field (kind_of (text s)) (bytes_of (text s) ++ rest) ≡ some (text s, rest)
get_text s rest e =
    let (parse, e', agrees, _) = get_length_prefixed_slice-Agrees (bytes_of (text s) ++ rest) [] in
    rw (get_field, e', (rw e at agrees)) refl

get_field-bytes_of :
    (f : Field) (rest : Slice)
    → IsField f
    → All IsByte rest
    → get_field (kind_of f) (bytes_of f ++ rest) ≡ some (f, rest)
unfolding get_varint32 get_varint64
get_field-bytes_of (number32 v) rest h hr =
    rw (get_field, get_varint32_ptr-encode_varint32 v rest h hr) refl
get_field-bytes_of (number64 v) rest h hr =
    rw (get_field, get_varint64_ptr-encode_varint64 v rest h) refl
get_field-bytes_of (text s) rest h hr = get_text s rest (get_ptr-put s rest h.0 h.1 hr)

get_all_bytes :
    (fs : List Field) (rest : Slice)
    → All IsField fs
    → All IsByte rest
    → get_fields (map kind_of fs) (all_bytes fs ++ rest) ≡ some (fs, rest)
get_all_bytes [] rest h hr = refl
get_all_bytes (f ∷ fs) rest (h, hs) hr =
    let here =
      get_field-bytes_of f (all_bytes fs ++ rest) h
        (All-append IsByte (all_bytes fs) rest (all_bytes-IsByte fs hs) hr) in
    let later = get_all_bytes fs rest hs hr in
    rw (append_assoc (bytes_of f) (all_bytes fs) rest) (rw (get_fields, here, later) refl)

-- What any sequence of `PutVarint32`, `PutVarint64` and `PutLengthPrefixedSlice`, of values in
-- their range and strings of bytes below 4 GB, wrote to one string, the same sequence of
-- `GetVarint32`, `GetVarint64` and `GetLengthPrefixedSlice` on a slice reads back: none of them
-- answers false, and they leave the bytes behind it.
pub get_fields-put_fields :
    (fs : List Field) (rest : Slice)
    → All IsField fs
    → All IsByte rest
    → get_fields (map kind_of fs) (put_fields [] fs ++ rest) ≡ some (fs, rest)
get_fields-put_fields fs rest h hr = rw (put_fields-append [] fs) (get_all_bytes fs rest h hr)
