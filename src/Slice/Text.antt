-- ===== src/Slice/Text.antt =====
-- The printed form of a slice, and the constructors and cuts.
use rockscopy.Base.{ℕ, ◌+◌, ◌-◌, ◌*◌, ◌/◌, ◌%◌, ◌≤◌, ◌<◌, Bytes, ◌≡◌, refl, arith}
use rockscopy.Base.{true, false, ltb, leb, if◌then◌else◌, length, take, drop, sym, ◌∙◌}
use rockscopy.Base.{[], ◌∷◌, ◌++◌, none, some, All, IsByte, length-append}
use rockscopy.Base.{Bool-cases, inl, inr, ◌⊎◌, take-append-drop, ◌≢◌, take-length-append}
use mathlib.Core.List.{append_assoc, append-nil}
use mathlib.Core.Path.{ap₂}
use rockscopy.Slice.{Slice, size, hex_digit, hex_byte, hex_loop, to_string, remove_prefix}
use rockscopy.Slice.{strlen, slice_of, slice_of_c_string}

-- An independent reader of the printed form: digits to values, two digits to a byte.
abbrev pub digit_value : ℕ → ℕ
digit_value c = if ltb c 65 then c - 48 else c - 55

abbrev pub read_hex : Bytes → Bytes
read_hex [] = []
read_hex (h ∷ []) = []
read_hex (h ∷ l ∷ s) = (digit_value h * 16 + digit_value l) ∷ read_hex s

-- The digits of the printed form.
abbrev pub IsHexDigit : ℕ → Type 0
IsHexDigit c = ((b'0' ≤ c) × (c ≤ b'9')) ⊎ ((b'A' ≤ c) × (c ≤ b'F'))

hex_digit_lem : (d : ℕ) → d < 16 → (digit_value (hex_digit d) ≡ d) × IsHexDigit (hex_digit d)
unfolding hex_digit
hex_digit_lem d h = ground arith

hex_bytes : Bytes → Bytes
hex_bytes [] = []
hex_bytes (b ∷ s) = hex_digit (b / 16) ∷ hex_digit (b % 16) ∷ hex_bytes s

hex_loop-hex_bytes : (s result : Bytes) → hex_loop s result ≡ result ++ hex_bytes s
unfolding hex_loop hex_byte hex_bytes
hex_loop-hex_bytes [] result = sym (append-nil result)
hex_loop-hex_bytes (b ∷ s) result =
    hex_loop-hex_bytes s (result ++ hex_byte b) ∙ append_assoc result (hex_byte b) (hex_bytes s)

hex_bytes_lem :
    (s : Bytes)
    → All IsByte s
    → (read_hex (hex_bytes s) ≡ s)
      × (length (hex_bytes s) ≡ 2 * length s)
      × All IsHexDigit (hex_bytes s)
unfolding hex_bytes
hex_bytes_lem [] h = (refl, refl, tt)
hex_bytes_lem (b ∷ s) (hb, hs) =
    let (value, len, digits) = hex_bytes_lem s hs in
    let (high, high_digit) = hex_digit_lem (b / 16) (omega arith) in
    let (low, low_digit) = hex_digit_lem (b % 16) (omega arith) in
    (ap₂ ◌∷◌ (omega arith) value, omega arith, (high_digit, (low_digit, digits)))

-- `ToString(true)` prints two digits of base 16 for each byte of the slice, from which the bytes
-- can be read back; `ToString(false)` is the contents.
pub to_string_hex :
    (s : Slice)
    → All IsByte s
    → (read_hex (to_string s true) ≡ s)
      × (length (to_string s true) ≡ 2 * length s)
      × All IsHexDigit (to_string s true)
      × (to_string s false ≡ s)
unfolding to_string
to_string_hex s h =
    let (value, len, digits) = hex_bytes_lem s h in
    rw (hex_loop-hex_bytes s []) (value, len, digits, refl)

-- `remove_prefix` cuts off the first `n` bytes, and fails its assertion exactly where the slice
-- has fewer.
pub remove_prefix_lem :
    (n : ℕ) (s : Slice)
    → ((n ≤ size s) × ((t : Slice) × (remove_prefix n s ≡ some t) × (take n s ++ t ≡ s)))
      ⊎ ((size s < n) × (remove_prefix n s ≡ none))
unfolding remove_prefix
remove_prefix_lem n s = elim (Bool-cases (leb n (length s))) [
  | inl long ↦ inl (ground arith, (drop n s, ground arith, take-append-drop n s))
  | inr short ↦ inr (ground arith, ground arith)
]

strlen-append :
    (text behind : Bytes) → All (λ c. c ≢ 0) text → strlen (text ++ 0 ∷ behind) ≡ some (length text)
unfolding strlen
strlen-append [] behind h = refl
strlen-append (c ∷ text) behind (hc, ht) = ground (arith, strlen-append text behind ht)

-- `Slice(s)` on a zero-terminated string has the bytes before the first zero.
pub slice_of_c_string_lem :
    (text behind : Bytes)
    → All (λ c. c ≢ 0) text
    → slice_of_c_string (text ++ 0 ∷ behind) ≡ some text
unfolding slice_of_c_string slice_of
slice_of_c_string_lem text behind h = ground (
  arith,
  strlen-append text behind h,
  take-length-append text (0 ∷ behind),
  length-append text (0 ∷ behind),
)
