-- ===== src/Coding/Varint/Decode.antt =====
-- The decoders on any input: what is taken, what is refused, and that nothing behind the number
-- is looked at.
use native.Mathlib.Nat.{mod-lt, one-le-pow}
use rockscopy.Base.{ℕ, zero, suc, ◌+◌, ◌*◌, ◌%◌, ◌^◌, ◌≤◌, ◌<◌, ◌≡◌, refl, arith}
use rockscopy.Base.{Bytes, [], ◌∷◌, ◌++◌, length, drop, ◌↔◌, All, IsByte, sym, ◌∙◌}
use rockscopy.Base.{none, some, Bool-cases, All-append, inl, inr, bit_and, bit_or, ◌<<<◌, ◌==◌}
use rockscopy.Base.Bits.{bit_and_top, bit_and_mask, bit_or-lt, zero-bit_or}
use rockscopy.Coding.Varint.{get_varint_loop, get_varint32_ptr_fallback, get_varint32_ptr}
use rockscopy.Coding.Varint.{get_varint64_ptr}

-- None of the first `n` bytes, as far as there are any, ends a number.
abbrev pub Unterminated : ℕ → Bytes → Type 0
Unterminated zero p = Unit {0}
Unterminated (suc n) [] = Unit {0}
Unterminated (suc n) (b ∷ p) = (128 ≤ b) × Unterminated n p

-- A decoder's answer on the range `p`: a number of the width from the first 1 to `room` bytes,
-- and the range behind them.
abbrev pub Takes : ℕ → ℕ → Bytes → ℕ → Bytes → Type 0
Takes width room p v rest =
    (v < 2 ^ width) × ((m : ℕ) × (1 ≤ m) × (m ≤ room) × (m ≤ length p) × (rest ≡ drop m p))

low_part : (byte : ℕ) → bit_and byte 127 ≡ byte % 128
low_part byte = bit_and_mask 7 byte

module _ (width last : ℕ) where
  -- The next value of `result`.
  abbrev next_result : ℕ → ℕ → ℕ → ℕ
  next_result byte shift result = bit_or result ((bit_and byte 127 <<< shift) % 2 ^ width)

  next_result-lt :
      (x shift result : ℕ)
      → result < 2 ^ width
      → bit_or result ((x <<< shift) % 2 ^ width) < 2 ^ width
  next_result-lt x shift result h =
      bit_or-lt width result ((x <<< shift) % 2 ^ width) h
        (mod-lt (x * 2 ^ shift) (one-le-pow width 2 (omega arith)))

  -- `n` rounds are left when the loop is at `shift`.
  get_varint_loop-Takes :
      (n : ℕ) (p : Bytes) (shift result v : ℕ) (rest : Bytes)
      → shift + 7 * n ≡ last + 7
      → result < 2 ^ width
      → get_varint_loop width last p shift result ≡ some (v, rest)
      → Takes width n p v rest
  unfolding get_varint_loop
  get_varint_loop-Takes n [] shift result v rest e h run = cc
  get_varint_loop-Takes zero (byte ∷ p) shift result v rest e h run = ground arith
  get_varint_loop-Takes (suc n) (byte ∷ p) shift result v rest e h run =
      elim (Bool-cases (bit_and byte 128 == 0)) [
        | inl ends ↦
            let last_round : (bit_or result ((byte <<< shift) % 2 ^ width) ≡ v) × (p ≡ rest) =
              ground arith in
            (
              rw (← last_round.0) (next_result-lt byte shift result h),
              (1, omega arith, omega arith, omega arith, sym last_round.1),
            )
        | inr goes_on ↦
            let later =
              get_varint_loop-Takes n p (shift + 7) (next_result byte shift result) v rest
                (omega arith) (next_result-lt (bit_and byte 127) shift result h) (ground arith) in
            (later.0, (suc later.1.0, omega arith, omega arith, omega arith, later.1.4))
      ]

  get_varint_loop-eq-none :
      (n : ℕ) (p : Bytes) (shift result : ℕ)
      → shift + 7 * n ≡ last + 7
      → All IsByte p
      → (get_varint_loop width last p shift result ≡ none) ↔ Unterminated n p
  unfolding get_varint_loop
  get_varint_loop-eq-none zero [] shift result e h = (λ q. tt, λ q. refl)
  get_varint_loop-eq-none zero (byte ∷ p) shift result e h = (λ q. tt, λ q. ground arith)
  get_varint_loop-eq-none (suc n) [] shift result e h = (λ q. tt, λ q. refl)
  get_varint_loop-eq-none (suc n) (byte ∷ p) shift result e (hb, hp) = ground (
    arith,
    bit_and_top byte,
    get_varint_loop-eq-none n p (shift + 7) (next_result byte shift result),
  )

  get_varint_loop-append :
      (p more : Bytes) (shift result v : ℕ) (rest : Bytes)
      → get_varint_loop width last p shift result ≡ some (v, rest)
      → get_varint_loop width last (p ++ more) shift result ≡ some (v, rest ++ more)
  unfolding get_varint_loop
  get_varint_loop-append [] more shift result v rest e = cc
  get_varint_loop-append (byte ∷ p) more shift result v rest e =
      ground
        (arith, get_varint_loop-append p more (shift + 7) (next_result byte shift result) v rest)

-- The fast path of `GetVarint32Ptr` only saves a round of the fallback.
pub get_varint32_ptr-fallback :
    (p : Bytes) → All IsByte p → get_varint32_ptr p ≡ get_varint32_ptr_fallback p
unfolding get_varint32_ptr get_varint32_ptr_fallback get_varint_loop
get_varint32_ptr-fallback [] h = refl
get_varint32_ptr-fallback (byte ∷ p) h = ground (arith, zero-bit_or (byte % 2 ^ 32))

-- `GetVarint32Ptr` on any bytes: an answer is a `uint32_t`, from the first 1 to 5 bytes of the
-- range, with a pointer just past them.
pub get_varint32_ptr-Takes :
    (p : Bytes) (v : ℕ) (rest : Bytes)
    → All IsByte p
    → get_varint32_ptr p ≡ some (v, rest)
    → Takes 32 5 p v rest
get_varint32_ptr-Takes p v rest h e =
    get_varint_loop-Takes 32 28 5 p 0 0 v rest refl (omega arith)
      (unfold get_varint32_ptr_fallback in (sym (get_varint32_ptr-fallback p h) ∙ e))

-- `GetVarint64Ptr` in the same way: a `uint64_t` from the first 1 to 10 bytes.
pub get_varint64_ptr-Takes :
    (p : Bytes) (v : ℕ) (rest : Bytes) → get_varint64_ptr p ≡ some (v, rest) → Takes 64 10 p v rest
unfolding get_varint64_ptr
get_varint64_ptr-Takes p v rest e = get_varint_loop-Takes 64 63 10 p 0 0 v rest refl (omega arith) e

-- `GetVarint32Ptr` returns `nullptr` exactly if none of the first five bytes ends a number.
pub get_varint32_ptr-eq-none :
    (p : Bytes) → All IsByte p → (get_varint32_ptr p ≡ none) ↔ Unterminated 5 p
get_varint32_ptr-eq-none p h =
    rw (get_varint32_ptr-fallback p h)
      (unfold get_varint32_ptr_fallback in get_varint_loop-eq-none 32 28 5 p 0 0 refl h)

-- `GetVarint64Ptr` returns `nullptr` exactly if none of the first ten bytes ends a number.
pub get_varint64_ptr-eq-none :
    (p : Bytes) → All IsByte p → (get_varint64_ptr p ≡ none) ↔ Unterminated 10 p
unfolding get_varint64_ptr
get_varint64_ptr-eq-none p h = get_varint_loop-eq-none 64 63 10 p 0 0 refl h

-- Bytes added behind the range change nothing but what is left of it.
pub get_varint32_ptr-append :
    (p more : Bytes) (v : ℕ) (rest : Bytes)
    → All IsByte p
    → All IsByte more
    → get_varint32_ptr p ≡ some (v, rest)
    → get_varint32_ptr (p ++ more) ≡ some (v, rest ++ more)
get_varint32_ptr-append p more v rest h hm e =
    get_varint32_ptr-fallback (p ++ more) (All-append IsByte p more h hm)
    ∙ unfold get_varint32_ptr_fallback in
      get_varint_loop-append 32 28 p more 0 0 v rest (sym (get_varint32_ptr-fallback p h) ∙ e)
