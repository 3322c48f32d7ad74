-- ===== src/Slice.antt =====
-- include/leveldb/slice.h: `Slice`, a pointer and a size. The model has the bytes that the two
-- refer to, so the size is the list's length, and a copy of the bytes is the same list.
-- `none` is a failed assertion, or a read outside of the memory that an operand refers to.
mod Tests
pub mod Compare
pub mod Text
use rockscopy.Base.{ℕ, zero, suc, ◌+◌, ◌-◌, ◌*◌, ◌/◌, ◌%◌, ◌^◌, ◌≤◌, ◌<◌, Bytes}
use rockscopy.Base.{Bool, true, false, not, ltb, leb, ◌==◌, if◌then◌else◌, length, take, drop}
use rockscopy.Base.{List, [], ◌∷◌, ◌++◌, Option, none, some, get_elem?}

abbrev pub Slice : Type 0
Slice = Bytes

-- A C `int` that is only read by its sign.
pub data Sign : Type 0 where
  less same greater : Sign

-- `Slice()`, `Slice(d, n)` for the memory `d`, and `Slice(s)` for a zero-terminated string.
pub empty_slice : Slice
empty_slice = []

pub slice_of : Bytes → ℕ → Option Slice
slice_of d n = if leb n (length d) then some (take n d) else none

strlen : Bytes → Option ℕ
strlen [] = none
strlen (c ∷ s) = if c == 0 then some 0 else elim (strlen s) [ none ↦ none | some n ↦ some (n + 1) ]

pub slice_of_c_string : Bytes → Option Slice
slice_of_c_string s = elim (strlen s) [ none ↦ none | some n ↦ slice_of s n ]

unfoldable pub size : Slice → ℕ
size s = length s

pub empty : Slice → Bool
unfolding size
empty s = size s == 0

-- `operator[]`.
pub index : Slice → ℕ → Option ℕ
unfolding size
index s n = if ltb n (size s) then get_elem? s n else none

pub clear : Slice → Slice
clear s = []

unfoldable pub remove_prefix : ℕ → Slice → Option Slice
unfolding size
remove_prefix n s = if leb n (size s) then some (drop n s) else none

-- The digit that `%X` prints, and what `%02X` prints of a byte.
hex_digit : ℕ → ℕ
hex_digit d = if ltb d 10 then b'0' + d else b'A' + d - 10

hex_byte : ℕ → Bytes
unfolding hex_digit
hex_byte b = hex_digit (b / 16) ∷ hex_digit (b % 16) ∷ []

-- The loop of `ToString(true)`.
hex_loop : Bytes → Bytes → Bytes
hex_loop [] result = result
hex_loop (b ∷ s) result = hex_loop s (result ++ hex_byte b)

pub to_string : Slice → Bool → Bytes
to_string s hex = if hex then hex_loop s [] else s

-- `memcmp` on `n` bytes of each operand: the sign is that of the first difference.
first_difference : ℕ → Bytes → Bytes → Sign
first_difference zero a b = same
first_difference (suc n) [] b = same
first_difference (suc n) (x ∷ a) [] = same
first_difference (suc n) (x ∷ a) (y ∷ b) =
    if ltb x y then less else if ltb y x then greater else first_difference n a b

memcmp : Bytes → Bytes → ℕ → Option Sign
memcmp a b n =
    if leb n (length a)
    then if leb n (length b) then some (first_difference n a b) else none
    else none

-- A `size_t` that is stored in an `int` and handed on as a `size_t`.
size_through_int : ℕ → ℕ
size_through_int n =
    let low = n % 2 ^ 32 in if ltb low (2 ^ 31) then low else low + (2 ^ 64 - 2 ^ 32)

is_same : Sign → Bool
is_same same = true
is_same _ = false

pub compare : Slice → Slice → Option Sign
unfolding size size_through_int is_same
compare a b =
    let min_len = size_through_int (if ltb (size a) (size b) then size a else size b) in
    elim (memcmp a b min_len) [
      | none ↦ none
      | some r ↦
          if is_same r
          then if ltb (size a) (size b)
            then some less
            else if ltb (size b) (size a)
            then some greater
            else some r
          else some r
    ]

pub starts_with : Slice → Slice → Option Bool
unfolding size is_same
starts_with s x =
    if leb (size x) (size s)
    then elim (memcmp s x (size x)) [ none ↦ none | some r ↦ some (is_same r) ]
    else some false

-- `operator==` and `operator!=`.
pub equal : Slice → Slice → Option Bool
unfolding size is_same
equal x y =
    if size x == size y
    then elim (memcmp x y (size x)) [ none ↦ none | some r ↦ some (is_same r) ]
    else some false

pub not_equal : Slice → Slice → Option Bool
not_equal x y = elim (equal x y) [ none ↦ none | some e ↦ some (not e) ]
