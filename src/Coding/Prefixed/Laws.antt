-- ===== src/Coding/Prefixed/Laws.antt =====
-- Length-prefixed strings: the round trip, the agreement of the two readers, and their failures.
use mathlib.Core.List.{append_assoc}
use native.Mathlib.Nat.{mod-eq_of_lt}
use rockscopy.Base.{ℕ, ◌^◌, ◌≤◌, ◌<◌, Bytes, true, false, leb}
use rockscopy.Base.{take, drop, ◌++◌, Option, none, some, length, length-append, ◌≡◌, refl, arith}
use rockscopy.Base.{All, IsByte, IsU32, take-length-append, drop-length-append, All-append}
use rockscopy.Base.{Option-cases, Bool-cases, inl, inr, ◌⊎◌, []}
use rockscopy.Slice.{Slice, size, remove_prefix}
use rockscopy.Coding.Varint.{put_varint32, get_varint32_ptr, get_varint32, encode_varint32}
use rockscopy.Coding.Varint.RoundTrip.{get_varint32_ptr-encode_varint32}
use rockscopy.Coding.Prefixed.{put_length_prefixed_slice, get_length_prefixed_slice_ptr, Parse}
use rockscopy.Coding.Prefixed.{get_length_prefixed_slice}

put_from_empty :
    (value rest : Slice)
    → IsU32 (length value)
    → put_length_prefixed_slice [] value ++ rest ≡ encode_varint32 (length value) ++ (value ++ rest)
unfolding put_length_prefixed_slice size put_varint32
put_from_empty value rest h =
    rw (mod-eq_of_lt {n = length value} {m = 2 ^ 32} h) (append_assoc _ value rest)

-- What `PutLengthPrefixedSlice` wrote of a value below 4 GB, `GetLengthPrefixedSlice` reads back
-- from the range, and it leaves the bytes behind it.
pub get_ptr-put :
    (value rest : Slice)
    → IsU32 (length value)
    → All IsByte value
    → All IsByte rest
    → get_length_prefixed_slice_ptr (put_length_prefixed_slice [] value ++ rest)
      ≡ some (value, rest)
unfolding get_length_prefixed_slice_ptr
get_ptr-put value rest h hv hr = rw (put_from_empty value rest h) (
    ground (
      arith,
      get_varint32_ptr-encode_varint32 (length value) (value ++ rest) h
          (All-append IsByte value rest hv hr),
      length-append value rest,
      take-length-append value rest,
      drop-length-append value rest,
    ))

-- How the version on a slice answers, told by the version on a range: `true` with the same slice
-- and the same rest, or `false` with `*result` untouched.
abbrev pub Agrees : Slice → Option (Slice × Bytes) → Parse → Type 0
Agrees result (some (s, rest)) parse = parse ≡ record { found = true; input = rest; result = s }
Agrees result none parse = (parse.found ≡ false) × (parse.result ≡ result)

-- Both versions where the length cannot be read, and where it can: with enough bytes behind it,
-- and with fewer.
module _ (input result : Slice) where
  no_length :
      get_varint32_ptr input ≡ none
      → (get_length_prefixed_slice_ptr input ≡ none)
        × (get_length_prefixed_slice input result
            ≡ some (record { found = false; input = input; result = result }))
  unfolding get_length_prefixed_slice get_length_prefixed_slice_ptr get_varint32
  no_length e = ground arith

  enough_bytes :
      (len : ℕ) (q : Slice)
      → get_varint32_ptr input ≡ some (len, q)
      → len ≤ length q
      → (get_length_prefixed_slice_ptr input ≡ some (take len q, drop len q))
        × (get_length_prefixed_slice input result
            ≡ some (record { found = true; input = drop len q; result = take len q }))
  unfolding get_length_prefixed_slice get_length_prefixed_slice_ptr get_varint32 remove_prefix size
  enough_bytes len q e h = ground arith

  too_few_bytes :
      (len : ℕ) (q : Slice)
      → get_varint32_ptr input ≡ some (len, q)
      → length q < len
      → (get_length_prefixed_slice_ptr input ≡ none)
        × (get_length_prefixed_slice input result
            ≡ some (record { found = false; input = q; result = result }))
  unfolding get_length_prefixed_slice get_length_prefixed_slice_ptr get_varint32 size
  too_few_bytes len q e h = ground arith

-- The version on a slice never fails its assertion, and agrees with the version on a range. Where
-- they fail, `*input` is left as it was if the length cannot be read, and behind the length if
-- that can be read and promises more bytes than there are.
pub get_length_prefixed_slice-Agrees :
    (input result : Slice)
    → (parse : Parse) × (get_length_prefixed_slice input result ≡ some parse)
      × Agrees result (get_length_prefixed_slice_ptr input) parse
      × ((parse.found ≡ true)
          ⊎ ((get_varint32_ptr input ≡ none) × (parse.input ≡ input))
          ⊎ ((len : ℕ) × (get_varint32_ptr input ≡ some (len, parse.input))
              × (size parse.input < len)))
get_length_prefixed_slice-Agrees input result = elim (Option-cases (get_varint32_ptr input)) [
  | inl stops ↦
      let (range, slice) = no_length input result stops in
      (_, slice, rw range (refl, refl), inr (inl (stops, refl)))
  | inr ((len, q), e) ↦ elim (Bool-cases (leb len (length q))) [
    | inl long ↦
        let (range, slice) = enough_bytes input result len q e (ground arith) in
        (_, slice, rw range refl, inl refl)
    | inr short ↦
        let (range, slice) = too_few_bytes input result len q e (ground arith) in
        (_, slice, rw range (refl, refl), inr (inr (len, e, unfold size in ground arith)))
  ]
]
