-- ===== src/Coding/BitStream/Window.antt =====
-- `BitStreamPutInt` on a part of an array and on the whole of it.
use rockscopy.Base.{
  ℕ, zero, suc, ◌+◌, ◌-◌, ◌*◌, ◌≤◌, ◌<◌, ◌≡◌, refl, arith, ◌>>>◌, min, sym, ◌∙◌, ap, ◌⊎◌, inl, inr,
}
use rockscopy.Base.{◌==◌, Bool-cases, Bytes, IsByte, All, some, length, get_elem?, set}
use rockscopy.Coding.BitStream.{put_loop, new_byte}
use rockscopy.Coding.BitStream.Field.{new_byte-IsByte}
use rockscopy.Coding.BitStream.Arrays.{
  length-set, get_elem?-set, get_elem?-set_else, set-IsByte, get_elem?-IsByte,
}
use rockscopy.Coding.BitStream.RoundTrip.{put_step}

-- A byte from `bo` on that the loop writes, and one that it does not.
abbrev pub Written : ℕ → ℕ → ℕ → ℕ → Type 0
Written bo b bits i = (bo ≤ i) × (8 * i < 8 * bo + b + bits)

abbrev pub Left : ℕ → ℕ → ℕ → ℕ → Type 0
Left bo b bits i = (i < bo) ⊎ (8 * bo + b + bits ≤ 8 * i)

-- What the loop does to `small`, which is `big` from byte `first` on as far as it writes, and to
-- `big`.
pub record Puts (first bo b bits value fuel : ℕ) (small big small' big' : Bytes) : Type 0 where
  pub put_small : put_loop fuel small bo b bits value ≡ some small'
  pub put_big : put_loop fuel big (first + bo) b bits value ≡ some big'
  pub len_small : length small' ≡ length small
  pub len_big : length big' ≡ length big
  pub agrees : (i : ℕ) → Written bo b bits i → get_elem? small' i ≡ get_elem? big' (first + i)
  pub left_small : (i : ℕ) → Left bo b bits i → get_elem? small' i ≡ get_elem? small i
  pub left_big : (i : ℕ) → Left (first + bo) b bits i → get_elem? big' i ≡ get_elem? big i

put_nothing :
    (first bo b bits value fuel : ℕ) (small big : Bytes)
    → bits ≡ 0
    → ((i : ℕ) → Written bo b bits i → get_elem? small i ≡ get_elem? big (first + i))
    → Puts first bo b bits value (suc fuel) small big small big
unfolding put_loop
put_nothing first bo b bits value fuel small big e agree = record {
  put_small = rw (put_loop, e) refl;
  put_big = rw (put_loop, e) refl;
  len_small = refl;
  len_big = refl;
  agrees = agree;
  left_small = λ i _. refl;
  left_big = λ i _. refl;
}

module _ (first bo b bits value fuel byte : ℕ) (small big : Bytes) (pos : 0 < bits) (hb : b < 8)
    (here : get_elem? small bo ≡ some byte) (there : get_elem? big (first + bo) ≡ some byte)
    (inside : bo < length small) (within : first + bo < length big) where
  abbrev n : ℕ
  n = min bits (8 - b)

  abbrev stored : ℕ
  stored = new_byte byte b n value

  abbrev small1 : Bytes
  small1 = set small bo stored

  abbrev big1 : Bytes
  big1 = set big (first + bo) stored

  next_place : first + bo + 1 ≡ first + (bo + 1)
  next_place = omega arith

  put_on :
      (small' big' : Bytes)
      → Puts first (bo + 1) 0 (bits - n) (value >>> n) fuel small1 big1 small' big'
      → Puts first bo b bits value (suc fuel) small big small' big'
  put_on small' big' p = record {
    put_small = put_step fuel bo b bits value byte small pos here ∙ p.put_small;
    put_big =
        put_step fuel (first + bo) b bits value byte big pos there
        ∙ ap (λ (x : ℕ). put_loop fuel big1 x 0 (bits - n) (value >>> n)) next_place
        ∙ p.put_big;
    len_small = p.len_small ∙ length-set small bo stored;
    len_big = p.len_big ∙ length-set big (first + bo) stored;
    agrees = λ i w. elim (Bool-cases (bo == i)) [
      | inl at_bo ↦
          let e : bo ≡ i = ground arith in
          rw (← e) (
            p.left_small bo (inl (omega arith))
            ∙ get_elem?-set small bo stored inside
            ∙ sym (get_elem?-set big (first + bo) stored within)
            ∙ sym (p.left_big (first + bo) (inl (omega arith))))
      | inr later ↦ p.agrees i (ground arith)
    ];
    left_small = λ i l.
        p.left_small i (omega (arith, l)) ∙ get_elem?-set_else small bo i stored (omega (arith, l));
    left_big = λ i l.
        p.left_big i (omega (arith, l))
        ∙ get_elem?-set_else big (first + bo) i stored (omega (arith, l));
  }

  agree_on :
      ((i : ℕ) → Written bo b bits i → get_elem? small i ≡ get_elem? big (first + i))
      → (i : ℕ) → Written (bo + 1) 0 (bits - n) i
      → get_elem? small1 i ≡ get_elem? big1 (first + i)
  agree_on agree i (low, high) =
      get_elem?-set_else small bo i stored (omega arith)
      ∙ agree i (omega arith)
      ∙ sym (get_elem?-set_else big (first + bo) (first + i) stored (omega arith))

-- The loop succeeds on both, writes the same bytes, and leaves the others.
pub put_both :
    (first bo b bits value fuel : ℕ) (small big : Bytes)
    → bits < fuel
    → b < 8
    → 8 * bo + b + bits ≤ 8 * length small
    → 8 * (first + bo) + b + bits ≤ 8 * length big
    → All IsByte small
    → ((i : ℕ) → Written bo b bits i → get_elem? small i ≡ get_elem? big (first + i))
    → (small' : Bytes) × (big' : Bytes) × Puts first bo b bits value fuel small big small' big'
put_both first bo b bits value zero small big h hb room room' bytes agree = absurd (omega arith)
put_both first bo b bits value (suc fuel) small big h hb room room' bytes agree =
    elim (Bool-cases (bits == 0)) [
      | inl done ↦
          (small, big, put_nothing first bo b bits value fuel small big (ground arith) agree)
      | inr more ↦
          let pos : 0 < bits = ground arith in
          let k = min bits (8 - b) in
          let inside : bo < length small = omega arith in
          let within : first + bo < length big = omega arith in
          let (byte, here, is_byte) = get_elem?-IsByte small bo inside bytes in
          let there : get_elem? big (first + bo) ≡ some byte =
            sym (agree bo (omega arith)) ∙ here in
          let st = new_byte byte b k value in
          let room1 : 8 * (bo + 1) + 0 + (bits - k) ≤ 8 * length (set small bo st) =
            rw (length-set small bo st) (omega arith) in
          let room2 : 8 * (first + (bo + 1)) + 0 + (bits - k)
              ≤ 8 * length (set big (first + bo) st) =
            rw (length-set big (first + bo) st) (omega arith) in
          let (small', big', p) =
            put_both first (bo + 1) 0 (bits - k) (value >>> k) fuel (set small bo st)
              (set big (first + bo) st) (omega arith) (omega arith) room1 room2
              (set-IsByte small bo st bytes (new_byte-IsByte b k byte value))
              (agree_on first bo b bits value fuel byte small big pos hb here there inside within
                agree) in
          (
            small',
            big',
            put_on first bo b bits value fuel byte small big pos hb here there inside within small'
                big' p,
          )
    ]
