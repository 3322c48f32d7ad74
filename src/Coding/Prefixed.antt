-- ===== src/Coding/Prefixed.antt =====
-- src/util/coding.cpp: strings behind their length, `PutLengthPrefixedSlice` and both
-- `GetLengthPrefixedSlice`.
mod Tests
pub mod Laws
use rockscopy.Base.{
  ℕ, ◌+◌, ◌%◌, ◌^◌, Bytes, u32, Bool, true, false, ltb, leb, if◌then◌else◌, length,
}
use rockscopy.Base.{take, drop, List, ◌++◌, Option, none, some}
use rockscopy.Slice.{Slice, size, remove_prefix}
use rockscopy.Coding.Varint.{put_varint32, get_varint32_ptr, get_varint32}

-- The size is handed on as a `uint32_t`.
unfoldable pub put_length_prefixed_slice : Bytes → Slice → Bytes
unfolding size
put_length_prefixed_slice dst value = put_varint32 dst (u32 (size value)) ++ value

-- On the range `[p, limit)`: the slice, and what is left of the range; `none` is `nullptr`.
pub get_length_prefixed_slice_ptr : Bytes → Option (Slice × Bytes)
get_length_prefixed_slice_ptr p = elim (get_varint32_ptr p) [
  | none ↦ none
  | some (len, q) ↦ if ltb (length q) len then none else some (take len q, drop len q)
]

-- The version on a slice: its Boolean, and `*input` and `*result` after the call.
pub record Parse : Type 0 where
  pub found : Bool
  pub input : Slice
  pub result : Slice

-- `none` is the failed assertion of `remove_prefix`.
pub get_length_prefixed_slice : Slice → Slice → Option Parse
get_length_prefixed_slice input result = elim (get_varint32 input) [
  | none ↦ some (record { found = false; input = input; result = result })
  | some (len, q) ↦
      if leb len (size q)
      then elim (remove_prefix len q) [
        | none ↦ none
        | some rest ↦ some (record { found = true; input = rest; result = take len q })
      ]
      else some (record { found = false; input = q; result = result })
]
