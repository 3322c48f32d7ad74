-- ===== src/Hash/Tests.antt =====
-- Concrete runs of `Hash`, and the theorems at concrete inputs.
use rockscopy.Base.{
  ℕ, ◌≡◌, refl, arith, some, List, [], ◌∷◌, true, false, length, bit_xor, ◌*◌, ◌%◌, ◌^◌,
}
use rockscopy.Hash.{hash, hash_loop, tail, finish, mix_word, char_value}
use rockscopy.Hash.Laws.{take_all, hash-take_all}

abbrev high : List ℕ
high = 0x80 ∷ []

unsigned_run : hash false high 0xbc9f1d34 ≡ some 912189523
unfolding hash hash_loop tail finish mix_word char_value
unsigned_run = refl

signed_run : hash true high 0xbc9f1d34 ≡ some 2444711412
unfolding hash hash_loop tail finish mix_word char_value
signed_run = refl

abbrev five : List ℕ
five = b'a' ∷ b'b' ∷ 0xc3 ∷ b'd' ∷ 0xe9 ∷ []

hash-take_all_example :
    hash true five 7 ≡ some (take_all true five (bit_xor 7 (length five * 3332679571 % 2 ^ 32)))
hash-take_all_example = hash-take_all true five 7 (omega arith) (omega arith)
