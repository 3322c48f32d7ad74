-- ===== src/Coding/BitStream/Strings.antt =====
-- The overload of `BitStreamPutInt` on a string, against the one on an array.
use native.Mathlib.Nat.{mod-eq_of_lt}
use rockscopy.Base.{
  ℕ, ◌+◌, ◌-◌, ◌*◌, ◌/◌, ◌%◌, ◌^◌, ◌≤◌, ◌<◌, ◌≡◌, arith, sym, ◌∙◌, ap, inl, inr, u64,
}
use rockscopy.Base.{true, leb, Bool-cases, Bytes, IsByte, All, some, length, get_elem?}
use rockscopy.Coding.BitStream.{put_loop, orig_value, copy_in, copy_out, put_buffered}
use rockscopy.Coding.BitStream.{
  bit_stream_put_int, bit_stream_get_int, bit_stream_put_int_string, bit_stream_get_int_string,
}
use rockscopy.Coding.BitStream.Arrays.{get_elem?-injective}
use rockscopy.Coding.BitStream.RoundTrip.{get_int-put_int, orig_value_lem}
use rockscopy.Coding.BitStream.Window.{Puts, put_both, Written}
use rockscopy.Coding.BitStream.Copies.{
  Fills, copy_in-Fills, Stores, copy_out-Stores, string_at-get_elem?, string_at_end,
}

-- What `BitStreamPutInt` returns is what its loop leaves.
pub put_loop-put_int :
    (dst dst' : Bytes) (offset bits value : ℕ)
    → bit_stream_put_int dst offset bits value ≡ some dst'
    → put_loop (bits + 1) dst (offset / 8) (offset % 8) bits value ≡ some dst'
unfolding bit_stream_put_int
put_loop-put_int dst dst' offset bits value e = ground (arith, e)

put_buffered_from :
    (tmp_buf filled stored dst dst' : Bytes) (offset bits value : ℕ)
    → copy_in ((offset % 8 + bits) / 8 + 1) 0 dst (offset / 8) tmp_buf ≡ some filled
    → bit_stream_put_int filled (offset % 8) bits value ≡ some stored
    → copy_out ((offset % 8 + bits) / 8 + 1) 0 stored (offset / 8) dst ≡ some dst'
    → bit_stream_get_int dst' offset bits ≡ some (orig_value bits value)
    → put_buffered tmp_buf dst offset bits value ≡ some dst'
unfolding put_buffered bit_stream_get_int_string
put_buffered_from tmp_buf filled stored dst dst' offset bits value e1 e2 e3 e4 =
    ground (arith, e1, e2, e3, e4)

module _ (tmp_buf dst : Bytes) (offset bits value : ℕ) (nine : length tmp_buf ≡ 9)
    (bytes : All IsByte dst) (room : (offset + bits + 7) / 8 ≤ length dst) (few : bits ≤ 64) where
  abbrev used : ℕ
  used = (offset % 8 + bits) / 8

  abbrev first : ℕ
  first = offset / 8

  module _ (filled small' big' dst' : Bytes) (f : Fills (used + 1) 0 dst first tmp_buf filled)
      (p : Puts first 0 (offset % 8) bits value (bits + 1) filled dst small' big')
      (s : Stores (used + 1) 0 small' first dst dst') where
    -- The byte at a place of the buffer.
    at_place :
        (k : ℕ)
        → k ≤ used
        → first + k < length dst
        → get_elem? dst' (first + k) ≡ get_elem? big' (first + k)
    at_place k h lt =
        s.same_bytes k (omega arith) (omega arith) lt
        ∙ elim (Bool-cases (leb (offset % 8 + bits) (8 * k))) [
          | inl left ↦
              p.left_small k (inr (ground arith))
              ∙ f.same_bytes k (omega arith) (omega arith)
              ∙ string_at-get_elem? dst (first + k) lt
              ∙ sym (p.left_big (first + k) (inr (ground arith)))
          | inr written ↦ p.agrees k (ground arith)
        ]

    place : (i : ℕ) → first ≤ i → first + (i - first) ≡ i
    place i h = omega arith

    Stores-Puts : dst' ≡ big'
    Stores-Puts = get_elem?-injective dst' big' (s.len ∙ sym p.len_big) (λ i lt.
        let inside : i < length dst = omega (arith, s.len) in
        elim (Bool-cases (leb first i)) [
          | inr before ↦
              let b : i < first = ground arith in
              s.outside i (inl (omega arith)) ∙ sym (p.left_big i (inl (omega arith)))
          | inl not_before ↦
              let nb : first ≤ i = ground arith in
              elim (Bool-cases (leb (i - first) used)) [
                | inl copied ↦
                    let c : i - first ≤ used = ground arith in
                    ap (λ (j : ℕ). get_elem? dst' j) (sym (place i nb))
                    ∙ at_place (i - first) c (omega arith)
                    ∙ ap (λ (j : ℕ). get_elem? big' j) (place i nb)
                | inr behind ↦
                    let c : used < i - first = ground arith in
                    s.outside i (inr (omega arith)) ∙ sym (p.left_big i (inr (omega arith)))
              ]
        ])

  -- Where the buffer reaches past the end of the string, it holds a zero.
  zero_behind :
      (filled small' big' : Bytes)
      → Fills (used + 1) 0 dst first tmp_buf filled
      → Puts first 0 (offset % 8) bits value (bits + 1) filled dst small' big'
      → (k : ℕ) → k < 0 + (used + 1)
      → first + k ≡ length dst
      → get_elem? small' k ≡ some 0
  zero_behind filled small' big' f p k h e =
      p.left_small k (inr (omega arith))
      ∙ f.same_bytes k (omega arith) (omega arith)
      ∙ string_at_end dst (first + k) e

  filled_agrees :
      (filled : Bytes)
      → Fills (used + 1) 0 dst first tmp_buf filled
      → (i : ℕ) → Written 0 (offset % 8) bits i
      → get_elem? filled i ≡ get_elem? dst (first + i)
  filled_agrees filled f i (low, high) =
      f.same_bytes i (omega arith) (omega arith) ∙ string_at-get_elem? dst (first + i) (omega arith)

  -- Both loops and both copies.
  pub buffered :
      All IsByte tmp_buf
      → (filled : Bytes) × (small' : Bytes) × (big' : Bytes) × Fills
          (used + 1)
          0
          dst
          first
          tmp_buf
          filled
        × Puts first 0 (offset % 8) bits value (bits + 1) filled dst small' big'
  buffered bytes' =
      let (filled, f) =
        copy_in-Fills (used + 1) 0 dst first tmp_buf (omega arith) (omega arith) bytes bytes' in
      let len : length filled ≡ 9 = f.len ∙ nine in
      let (small', big', p) =
        put_both first 0 (offset % 8) bits value (bits + 1) filled dst (omega arith) (omega arith)
          (omega arith) (omega arith) f.bytes (filled_agrees filled f) in
      (filled, small', big', f, p)

pub some-injective : (a b : Bytes) → some a ≡ some b → a ≡ b
some-injective a b e = cc e

-- With the 9 bytes of the buffer holding any bytes before, `BitStreamPutInt` of a `uint64_t` by up
-- to 64 bits on a string with room for them, with an offset that is no sum beyond a `size_t`,
-- succeeds: its copies stay in the buffer and the string, and its assertions hold. The string is
-- then what `BitStreamPutInt` makes of an array with the same bytes, and `BitStreamGetInt` at the
-- same place gives the value cut to the number of bits.
pub put_int_string-put_int :
    (tmp_buf dst : Bytes) (offset bits value : ℕ)
    → length tmp_buf ≡ 9
    → All IsByte tmp_buf
    → All IsByte dst
    → value < 2 ^ 64
    → bits ≤ 64
    → offset + bits + 7 < 2 ^ 64
    → (offset + bits + 7) / 8 ≤ length dst
    → (dst' : Bytes) × (bit_stream_put_int_string tmp_buf dst offset bits value ≡ some dst')
      × (bit_stream_put_int dst offset bits value ≡ some dst')
      × (bit_stream_get_int_string dst' offset bits ≡ some (value % 2 ^ bits))
unfolding bit_stream_put_int_string bit_stream_get_int_string
put_int_string-put_int tmp_buf dst offset bits value nine bytes' bytes word few small room =
    let (filled, small', big', f, p) =
      buffered tmp_buf dst offset bits value nine bytes room few bytes' in
    let (s_small, put_small, len_small, _, _) =
      get_int-put_int filled (offset % 8) bits value f.bytes word few (omega arith)
        (omega (arith, f.len)) in
    let (s_big, put_big, len_big, _, got) =
      get_int-put_int dst offset bits value bytes word few small room in
    let is_small : s_small ≡ small' = some-injective s_small small' (
      sym (put_loop-put_int filled s_small (offset % 8) bits value put_small)
      ∙ (let e : offset % 8 / 8 ≡ 0 = omega arith in
          let e' : offset % 8 % 8 ≡ offset % 8 = omega arith in rw (e, e') p.put_small)) in
    let is_big : s_big ≡ big' = some-injective s_big big' (
      sym (put_loop-put_int dst s_big offset bits value put_big)
      ∙ (let e : offset / 8 ≡ offset / 8 + 0 = omega arith in
          ap (λ (x : ℕ). put_loop (bits + 1) dst x (offset % 8) bits value) e ∙ p.put_big)) in
    let (dst', s) =
      copy_out-Stores ((offset % 8 + bits) / 8 + 1) 0 small' (offset / 8) dst
        (omega (arith, p.len_small, f.len)) (omega arith)
        (zero_behind tmp_buf dst offset bits value nine bytes room few filled small' big' f p) in
    let same_ : dst' ≡ s_big =
      Stores-Puts tmp_buf dst offset bits value nine bytes room few filled small' big' dst' f p s
      ∙ sym is_big in
    let get : bit_stream_get_int dst' offset bits ≡ some (value % 2 ^ bits) = rw same_ got in
    let get' : bit_stream_get_int dst' offset bits ≡ some (orig_value bits value) =
      rw (orig_value_lem bits value few word) get in
    let put_small' : bit_stream_put_int filled (offset % 8) bits value ≡ some small' =
      put_small ∙ ap some is_small in
    let asserted : leb (u64 (offset + bits + 7) / 8) (length dst) ≡ true =
      rw (mod-eq_of_lt small) (ground arith) in
    (
      dst',
      rw asserted (
          put_buffered_from tmp_buf filled small' dst dst' offset bits value f.copied put_small'
            s.copied get'),
      put_big ∙ ap some (sym same_),
      get,
    )
