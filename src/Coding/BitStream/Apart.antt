-- ===== src/Coding/BitStream/Apart.antt =====
-- `BitStreamGetInt` of a field apart from the one that `BitStreamPutInt` wrote.
use mathlib.Core.Option
use rockscopy.Base.{
  ℕ, zero, suc, ◌+◌, ◌-◌, ◌*◌, ◌/◌, ◌%◌, ◌^◌, ◌≤◌, ◌<◌, ◌≡◌, refl, arith, sym, ◌∙◌, ap, ◌⊎◌, inl,
  inr, ◌>>>◌, ◌<<<◌, min, u64,
}
use rockscopy.Base.{
  true, ◌==◌, Bool-cases, Bytes, IsByte, All, some, length, get_elem?, set, bit_and, Option,
}
use rockscopy.Base.Bits.{bit_and_mask}
use rockscopy.Coding.BitStream.{
  put_loop, get_loop, new_byte, mask_of, bit_stream_put_int, bit_stream_get_int, fits,
}
use rockscopy.Coding.BitStream.Field.{mask_small, new_byte-IsByte}
use rockscopy.Coding.BitStream.Arrays.{
  length-set, get_elem?-set, get_elem?-set_else, set-IsByte, get_elem?-IsByte,
}
use rockscopy.Coding.BitStream.Frame.{field, new_byte-field}
use rockscopy.Coding.BitStream.RoundTrip.{put_step, get_step, get_int-put_int, fits_lem}
use rockscopy.Coding.BitStream.Strings.{put_loop-put_int, some-injective}

-- The `m` bits from bit `q` on of the byte at `i`.
abbrev field_at : Bytes → ℕ → ℕ → ℕ → Option ℕ
field_at dst i q m = Option.map (field q m) (get_elem? dst i)

-- The bits outside those from bit `start` to `end` are the same.
abbrev Keeps : ℕ → ℕ → Bytes → Bytes → Type 0
Keeps start end dst dst' =
    (i q m : ℕ)
    → q + m ≤ 8
    → (8 * i + q + m ≤ start) ⊎ (end ≤ 8 * i + q)
    → field_at dst' i q m ≡ field_at dst i q m

-- The bits from bit `start` to `end` are the same.
abbrev Shares : ℕ → ℕ → Bytes → Bytes → Type 0
Shares start end dst dst' =
    (i q m : ℕ)
    → 0 < m
    → q + m ≤ 8
    → start ≤ 8 * i + q
    → 8 * i + q + m ≤ end
    → field_at dst' i q m ≡ field_at dst i q m

module _ (bo b n byte value : ℕ) (dst : Bytes) (hb : b < 8) (hn : b + n ≤ 8) (is_byte : IsByte byte)
    (here : get_elem? dst bo ≡ some byte) (inside : bo < length dst) where
  set-Keeps : Keeps (8 * bo + b) (8 * bo + b + n) dst (set dst bo (new_byte byte b n value))
  set-Keeps i q m h apart = elim (Bool-cases (bo == i)) [
    | inl at_bo ↦
        let e : bo ≡ i = ground arith in
        let apart' : (q + m ≤ b) ⊎ (b + n ≤ q) = elim apart [
          | inl k ↦ inl (omega arith)
          | inr k ↦ inr (omega arith)
        ] in
        rw (← e) (
          ap (Option.map (field q m)) (get_elem?-set dst bo (new_byte byte b n value) inside)
          ∙ ap some (new_byte-field b n byte value hb hn is_byte q m apart')
          ∙ ap (Option.map (field q m)) (sym here))
    | inr other ↦
        ap (Option.map (field q m))
          (get_elem?-set_else dst bo i (new_byte byte b n value) (ground arith))
  ]

put-Keeps :
    (fuel bo b bits value : ℕ) (dst : Bytes)
    → bits < fuel
    → b < 8
    → 8 * bo + b + bits ≤ 8 * length dst
    → All IsByte dst
    → (dst' : Bytes) × (put_loop fuel dst bo b bits value ≡ some dst')
      × All IsByte dst'
      × Keeps (8 * bo + b) (8 * bo + b + bits) dst dst'
unfolding put_loop
put-Keeps zero bo b bits value dst h hb room bytes = absurd (omega arith)
put-Keeps (suc fuel) bo b bits value dst h hb room bytes = elim (Bool-cases (bits == 0)) [
  | inl done ↦ (dst, rw (put_loop, done) refl, bytes, λ i q m _ _. refl)
  | inr more ↦
      let pos : 0 < bits = ground arith in
      let n = min bits (8 - b) in
      let inside : bo < length dst = omega arith in
      let (byte, here, is_byte) = get_elem?-IsByte dst bo inside bytes in
      let st = new_byte byte b n value in
      let (dst', put, bytes', keeps) =
        put-Keeps fuel (bo + 1) 0 (bits - n) (value >>> n) (set dst bo st) (omega arith)
          (omega arith) (rw (length-set dst bo st) (omega arith))
          (set-IsByte dst bo st bytes (new_byte-IsByte b n byte value)) in
      (
        dst',
        put_step fuel bo b bits value byte dst pos here ∙ put,
        bytes',
        λ i q m k apart.
            keeps i q m k (elim apart [
              | inl low ↦ inl (omega arith)
              | inr high ↦ elim (Bool-cases (bo == i)) [
                | inl at_bo ↦ inl (ground arith)
                | inr other ↦ inr (ground arith)
              ]
            ])
            ∙ set-Keeps bo b n byte value dst hb (omega arith) is_byte here inside i q m k
                (elim apart [ inl low ↦ inl low | inr high ↦ inr (omega arith) ]),
      )
]

some-injective_nat : (a b : ℕ) → some a ≡ some b → a ≡ b
some-injective_nat a b e = cc e

-- What a round of the loop takes out of a byte.
got_field :
    (b n byte : ℕ)
    → b < 8
    → b + n ≤ 8
    → byte < 256
    → bit_and (byte >>> b) (mask_of n) ≡ field b n byte
got_field b n byte hb hn is_byte =
    ap (λ (x : ℕ). bit_and (byte >>> b) x) (mask_small b n byte 0 hb hn is_byte)
    ∙ bit_and_mask n (byte >>> b)

get_loop-Shares :
    (fuel bo b shift bits result : ℕ) (dst dst' : Bytes)
    → bits < fuel
    → b < 8
    → 8 * bo + b + bits ≤ 8 * length dst
    → length dst' ≡ length dst
    → All IsByte dst
    → All IsByte dst'
    → Shares (8 * bo + b) (8 * bo + b + bits) dst dst'
    → get_loop fuel dst' bo b shift bits result ≡ get_loop fuel dst bo b shift bits result
unfolding get_loop
get_loop-Shares zero bo b shift bits result dst dst' h hb room len bytes bytes' shares =
    absurd (omega arith)
get_loop-Shares (suc fuel) bo b shift bits result dst dst' h hb room len bytes bytes' shares =
    elim (Bool-cases (bits == 0)) [
      | inl done ↦ rw (get_loop, done) refl
      | inr more ↦
          let pos : 0 < bits = ground arith in
          let n = min bits (8 - b) in
          let (byte, here, is_byte) = get_elem?-IsByte dst bo (omega arith) bytes in
          let (byte', here', is_byte') = get_elem?-IsByte dst' bo (omega (arith, len)) bytes' in
          let same_ : field b n byte' ≡ field b n byte =
            some-injective_nat (field b n byte') (field b n byte) (
              sym (ap (Option.map (field b n)) here')
              ∙ shares bo b n (omega arith) (omega arith) (omega arith) (omega arith)
              ∙ ap (Option.map (field b n)) here) in
          let same_got : bit_and (byte' >>> b) (mask_of n) ≡ bit_and (byte >>> b) (mask_of n) =
            got_field b n byte' hb (omega arith) is_byte'
            ∙ same_
            ∙ sym (got_field b n byte hb (omega arith) is_byte) in
          get_step fuel bo b shift bits result byte' dst' pos here'
          ∙ ap
              (λ (x : ℕ).
                get_loop fuel dst' (bo + 1) 0 (shift + n) (bits - n)
                  (u64 (result + u64 (x <<< shift))))
              same_got
          ∙ get_loop-Shares fuel (bo + 1) 0 (shift + n) (bits - n)
              (u64 (result + u64 (bit_and (byte >>> b) (mask_of n) <<< shift))) dst dst'
              (omega arith) (omega arith) (omega arith) len bytes bytes'
              (λ i q m some_ k low high. shares i q m some_ k (omega arith) (omega arith))
          ∙ sym (get_step fuel bo b shift bits result byte dst pos here)
    ]

-- After `BitStreamPutInt` of a `uint64_t` by up to 64 bits, on an array with room for them,
-- `BitStreamGetInt` of any up to 64 bits of the array that are all before or all behind those
-- written gives what it gave before, where no offset is a sum beyond a `size_t`.
pub get_int-put_int_apart :
    (dst : Bytes) (offset bits value offset' bits' : ℕ)
    → All IsByte dst
    → value < 2 ^ 64
    → bits ≤ 64
    → bits' ≤ 64
    → offset + bits + 7 < 2 ^ 64
    → offset' + bits' + 7 < 2 ^ 64
    → (offset + bits + 7) / 8 ≤ length dst
    → (offset' + bits' + 7) / 8 ≤ length dst
    → (offset' + bits' ≤ offset) ⊎ (offset + bits ≤ offset')
    → (dst' : Bytes) × (bit_stream_put_int dst offset bits value ≡ some dst')
      × (bit_stream_get_int dst' offset' bits' ≡ bit_stream_get_int dst offset' bits')
unfolding bit_stream_get_int
get_int-put_int_apart dst offset bits value offset' bits' bytes word few few' small small' room
      room' apart =
    let (dst', put, len, _, _) = get_int-put_int dst offset bits value bytes word few small room in
    let (dst'', put', bytes', keeps) =
      put-Keeps (bits + 1) (offset / 8) (offset % 8) bits value dst (omega arith) (omega arith)
        (omega arith) bytes in
    let same_ : dst'' ≡ dst' =
      some-injective dst'' dst' (sym put' ∙ put_loop-put_int dst dst' offset bits value put) in
    let len' : length dst'' ≡ length dst = rw same_ len in
    let ok : fits (length dst) offset' bits' ≡ true =
      fits_lem (length dst) offset' bits' small' room' few' in
    let ok'' : fits (length dst'') offset' bits' ≡ true = rw len' ok in
    (
      dst'',
      put ∙ ap some (sym same_),
      rw (ok, ok'')
          (get_loop-Shares (bits' + 1) (offset' / 8) (offset' % 8) 0 bits' 0 dst dst'' (omega arith)
            (omega arith) (omega arith) len' bytes bytes'
            (λ i q m _ k low high.
              keeps i q m k
                (elim apart [ inl before ↦ inl (omega arith) | inr behind ↦ inr (omega arith) ]))),
    )
