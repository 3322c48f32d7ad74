-- ===== src/Hash/Laws.antt =====
-- `Hash` and the function that it computes, written down in another way.
use rockscopy.Base.{ℕ, ◌≡◌, refl, arith, ◌∙◌, ap, ◌+◌, ◌*◌, ◌/◌, ◌%◌, ◌^◌, ◌-◌}
use rockscopy.Base.{Bytes, Bool, true, false, u32, u64, List, length, IsByte, bit_xor}
use rockscopy.Base.{[], ◌∷◌, some, All, IsU32}
use rockscopy.Base.Bits.{bit_xor_mod}
use rockscopy.Coding.Fixed.{object_value}
use rockscopy.Coding.Fixed.Laws.{decode_fixed32_loads}
use rockscopy.Hash.{char_value, hash_multiplier, mix_word, finish, tail, hash_loop, hash}

-- The function that `Hash` computes, written with arithmetic: `h` takes one number after another,
-- by a sum, a product with m modulo 2^32 and an exclusive or with the high bits of the product.
abbrev take_in : ℕ → ℕ → ℕ → ℕ
take_in k h w = bit_xor ((h + w) * 3332679571 % 2 ^ 32) ((h + w) * 3332679571 % 2 ^ 32 / 2 ^ k)

-- A `char` modulo 2^32.
abbrev digit : Bool → ℕ → ℕ
digit false c = c
digit true c = c + c / 128 * (2 ^ 32 - 256)

-- A number from digits of the base 256, the lowest first, which a signed `char` may borrow from.
abbrev number : Bool → List ℕ → ℕ
number signed [] = 0
number signed (c ∷ cs) = digit signed c + 256 * number signed cs

-- Each four bytes are a number, of unsigned digits, and so are the last ones, of `char`s.
abbrev pub take_all : Bool → Bytes → ℕ → ℕ
take_all signed [] h = h
take_all signed (c0 ∷ []) h = take_in 24 h (number signed (c0 ∷ []))
take_all signed (c0 ∷ c1 ∷ []) h = take_in 24 h (number signed (c0 ∷ c1 ∷ []))
take_all signed (c0 ∷ c1 ∷ c2 ∷ []) h = take_in 24 h (number signed (c0 ∷ c1 ∷ c2 ∷ []))
take_all signed (c0 ∷ c1 ∷ c2 ∷ c3 ∷ rest) h =
    take_all signed rest (take_in 16 h (number false (c0 ∷ c1 ∷ c2 ∷ c3 ∷ [])))

-- A round takes the next four bytes as a word, the lowest first.
abbrev word : ℕ → ℕ → ℕ → ℕ → ℕ
word c0 c1 c2 c3 = object_value (c0 ∷ c1 ∷ c2 ∷ c3 ∷ [])

hash_loop_round :
    (signed : Bool) (c0 c1 c2 c3 : ℕ) (rest : Bytes) (h : ℕ)
    → hash_loop signed (c0 ∷ c1 ∷ c2 ∷ c3 ∷ rest) h
      ≡ hash_loop signed rest (mix_word h (word c0 c1 c2 c3))
unfolding hash_loop
hash_loop_round signed c0 c1 c2 c3 rest h = ground (arith, decode_fixed32_loads c0 c1 c2 c3 rest)

digit_value : (signed : Bool) (c : ℕ) → IsByte c → char_value signed c ≡ digit signed c
unfolding char_value
digit_value true c h = ground arith
digit_value false c h = refl

mix_word-take_in : (h w : ℕ) → mix_word h w ≡ take_in 16 h w
unfolding mix_word
mix_word-take_in h w = ground arith

finish-take_in :
    (signed : Bool) (h h' w c0 : ℕ)
    → (h + char_value signed c0) % 2 ^ 32 ≡ (h' + w) % 2 ^ 32
    → finish signed h c0 ≡ take_in 24 h' w
unfolding finish
finish-take_in signed h h' w c0 e =
    let product : u32 (u32 (h + char_value signed c0) * hash_multiplier)
        ≡ (h' + w) * 3332679571 % 2 ^ 32 =
      omega (arith, e) in
    rw product refl

tail-take_all :
    (signed : Bool) (c0 c1 c2 h : ℕ)
    → IsByte c0
    → IsByte c1
    → IsByte c2
    → (tail signed (c0 ∷ []) h ≡ take_all signed (c0 ∷ []) h)
      × (tail signed (c0 ∷ c1 ∷ []) h ≡ take_all signed (c0 ∷ c1 ∷ []) h)
      × (tail signed (c0 ∷ c1 ∷ c2 ∷ []) h ≡ take_all signed (c0 ∷ c1 ∷ c2 ∷ []) h)
unfolding tail
tail-take_all signed c0 c1 c2 h b0 b1 b2 =
    let e0 = digit_value signed c0 b0 in
    let e1 = digit_value signed c1 b1 in
    let e2 = digit_value signed c2 b2 in
    (
      finish-take_in signed h h _ c0 (omega arith),
      finish-take_in signed _ h _ c0 (omega arith),
      finish-take_in signed _ h _ c0 (omega arith),
    )

hash_loop-take_all :
    (signed : Bool) (bytes : Bytes) (h : ℕ)
    → All IsByte bytes
    → hash_loop signed bytes h ≡ some (take_all signed bytes h)
unfolding hash_loop
hash_loop-take_all signed [] h k = unfold tail in refl
hash_loop-take_all signed (c0 ∷ []) h (b0, _) = ap some (tail-take_all signed c0 c0 c0 h b0 b0 b0).0
hash_loop-take_all signed (c0 ∷ c1 ∷ []) h (b0, (b1, _)) =
    ap some (tail-take_all signed c0 c1 c1 h b0 b1 b1).1
hash_loop-take_all signed (c0 ∷ c1 ∷ c2 ∷ []) h (b0, (b1, (b2, _))) =
    ap some (tail-take_all signed c0 c1 c2 h b0 b1 b2).2
hash_loop-take_all signed (c0 ∷ c1 ∷ c2 ∷ c3 ∷ rest) h (b0, (b1, (b2, (b3, k)))) =
    let same_ : word c0 c1 c2 c3 ≡ number false (c0 ∷ c1 ∷ c2 ∷ c3 ∷ []) =
      unfold object_value in omega arith in
    hash_loop_round signed c0 c1 c2 c3 rest h
    ∙ ap (hash_loop signed rest) (mix_word-take_in h (word c0 c1 c2 c3) ∙ ap (take_in 16 h) same_)
    ∙ hash_loop-take_all signed rest (take_in 16 h (number false (c0 ∷ c1 ∷ c2 ∷ c3 ∷ []))) k

-- On any bytes and with a seed of 32 bits, `Hash` returns without a read past the bytes: the value
-- starts as the seed, exclusive or the product of the length and m = 0xc6a4a793 modulo 2^32, and
-- takes in each four bytes as a number of base 256, with a shift by 16, and then the up to three
-- that are left as a number whose digits are `char`s, signed or not as on the platform, with a
-- shift by 24. To take in a number is to add it, to multiply by m modulo 2^32, and to put the
-- shifted product over the product by an exclusive or.
pub hash-take_all :
    (signed : Bool) (bytes : Bytes) (seed : ℕ)
    → All IsByte bytes
    → IsU32 seed
    → hash signed bytes seed
      ≡ some (take_all signed bytes (bit_xor seed (length bytes * 3332679571 % 2 ^ 32)))
unfolding hash
hash-take_all signed bytes seed k small =
    let start = bit_xor_mod 32 seed (u64 (length bytes * hash_multiplier)) in
    let same_seed : seed % 2 ^ 32 ≡ seed = omega arith in
    let product : u64 (length bytes * hash_multiplier) % 2 ^ 32
        ≡ length bytes * 3332679571 % 2 ^ 32 =
      omega arith in
    ap (hash_loop signed bytes) (rw (same_seed, product) at start)
    ∙ hash_loop-take_all signed bytes _ k
