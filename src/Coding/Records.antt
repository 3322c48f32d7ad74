-- ===== src/Coding/Records.antt =====
-- src/util/coding.cpp in use: records of numbers and strings, written to one string with
-- `PutVarint32`, `PutVarint64` and `PutLengthPrefixedSlice` and read from it with their `Get`s.
mod Tests
pub mod RoundTrip
use mathlib.Core.List.{append_assoc}
use mathlib.Core.List.{map}
use native.Mathlib.Nat.{mod-eq_of_lt}
use rockscopy.Base.{ℕ, ◌^◌, Bytes, true, false, ◌≡◌, refl, sym, arith, ◌∙◌, ap, u32}
use rockscopy.Base.{
  List, [], ◌∷◌, ◌++◌, Option, none, some, length, All, All-append, IsByte, IsU32, IsU64,
  if◌then◌else◌,
}
use rockscopy.Slice.{Slice, size}
use rockscopy.Coding.Varint.{
  encode_varint32, encode_varint64, put_varint32, put_varint64, get_varint32, get_varint64,
}
use rockscopy.Coding.Varint.RoundTrip.{
  get_varint32_ptr-encode_varint32, get_varint64_ptr-encode_varint64,
}
use rockscopy.Coding.Prefixed.{put_length_prefixed_slice, get_length_prefixed_slice, Parse}
use rockscopy.Coding.Prefixed.Laws.{get_ptr-put, get_length_prefixed_slice-Agrees, Agrees}

pub data Field : Type 0 where
  number32 : ℕ → Field
  number64 : ℕ → Field
  text : Slice → Field

pub data Kind : Type 0 where
  a_number32 a_number64 a_text : Kind

abbrev pub kind_of : Field → Kind
kind_of (number32 v) = a_number32
kind_of (number64 v) = a_number64
kind_of (text s) = a_text

-- A field that its `Put` can hold.
abbrev pub IsField : Field → Type 0
IsField (number32 v) = IsU32 v
IsField (number64 v) = IsU64 v
IsField (text s) = IsU32 (length s) × All IsByte s

abbrev pub put_field : Bytes → Field → Bytes
put_field dst (number32 v) = put_varint32 dst v
put_field dst (number64 v) = put_varint64 dst v
put_field dst (text s) = put_length_prefixed_slice dst s

abbrev pub put_fields : Bytes → List Field → Bytes
put_fields dst [] = dst
put_fields dst (f ∷ fs) = put_fields (put_field dst f) fs

-- A field of this kind, and what is left of the input; `none` where the `Get` answers `false`.
abbrev pub get_field : Kind → Slice → Option (Field × Slice)
get_field a_number32 input = elim (get_varint32 input) [
  | none ↦ none
  | some (v, rest) ↦ some (number32 v, rest)
]
get_field a_number64 input = elim (get_varint64 input) [
  | none ↦ none
  | some (v, rest) ↦ some (number64 v, rest)
]
get_field a_text input = elim (get_length_prefixed_slice input []) [
  | none ↦ none
  | some parse ↦ if parse.found then some (text parse.result, parse.input) else none
]

abbrev pub get_fields : List Kind → Slice → Option (List Field × Slice)
get_fields [] input = some ([], input)
get_fields (kind ∷ kinds) input = elim (get_field kind input) [
  | none ↦ none
  | some (f, rest) ↦ elim (get_fields kinds rest) [
    | none ↦ none
    | some (fs, rest') ↦ some (f ∷ fs, rest')
  ]
]
