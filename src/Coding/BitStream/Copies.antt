-- ===== src/Coding/BitStream/Copies.antt =====
-- The loops that copy between a string and the buffer.
use rockscopy.Base.{ℕ, zero, suc, ◌+◌, ◌≤◌, ◌<◌, ◌≡◌, refl, arith, sym, ◌∙◌, ◌⊎◌, inl, inr}
use rockscopy.Base.{
  true, false, ◌==◌, ltb, Bool-cases, Bytes, IsByte, All, some, length, get_elem?, set,
}
use rockscopy.Coding.BitStream.{string_at, string_set, copy_in, copy_out}
use rockscopy.Coding.BitStream.Arrays.{
  length-set, get_elem?-set, get_elem?-set_else, set-IsByte, get_elem?-IsByte, get_elem?_inside,
}

string_at-IsByte :
    (dst : Bytes) (i : ℕ)
    → i ≤ length dst
    → All IsByte dst
    → (byte : ℕ) × (string_at dst i ≡ some byte) × IsByte byte
unfolding string_at
string_at-IsByte dst i h bytes = elim (Bool-cases (i == length dst)) [
  | inl at_end ↦ (0, rw at_end refl, omega arith)
  | inr not_end ↦
      let (byte, e, is_byte) = get_elem?-IsByte dst i (ground arith) bytes in
      (byte, rw not_end e, is_byte)
]

pub string_at-get_elem? : (dst : Bytes) (i : ℕ) → i < length dst → string_at dst i ≡ get_elem? dst i
unfolding string_at
string_at-get_elem? dst i h = let e : (i == length dst) ≡ false = ground arith in rw e refl

pub string_at_end : (dst : Bytes) (i : ℕ) → i ≡ length dst → string_at dst i ≡ some 0
unfolding string_at
string_at_end dst i h = let e : (i == length dst) ≡ true = ground arith in rw e refl

-- The buffer holds the bytes of the string from `first` on.
pub record Fills (left idx : ℕ) (dst : Bytes) (first : ℕ) (tmp_buf filled : Bytes) : Type 0 where
  pub copied : copy_in left idx dst first tmp_buf ≡ some filled
  pub len : length filled ≡ length tmp_buf
  pub bytes : All IsByte filled
  pub before : (i : ℕ) → i < idx → get_elem? filled i ≡ get_elem? tmp_buf i
  pub same_bytes :
      (i : ℕ) → idx ≤ i → i < idx + left → get_elem? filled i ≡ string_at dst (first + i)

pub copy_in-Fills :
    (left idx : ℕ) (dst : Bytes) (first : ℕ) (tmp_buf : Bytes)
    → idx + left ≤ length tmp_buf
    → first + idx + left ≤ length dst + 1
    → All IsByte dst
    → All IsByte tmp_buf
    → (filled : Bytes) × Fills left idx dst first tmp_buf filled
unfolding copy_in
copy_in-Fills zero idx dst first tmp_buf room room' bytes bytes' = (
  tmp_buf,
  record {
    copied = refl;
    len = refl;
    bytes = bytes';
    before = λ i _. refl;
    same_bytes = λ i l h. absurd (omega arith);
  },
)
copy_in-Fills (suc left) idx dst first tmp_buf room room' bytes bytes' =
    let (byte, here, is_byte) = string_at-IsByte dst (first + idx) (omega arith) bytes in
    let inside : ltb idx (length tmp_buf) ≡ true = ground arith in
    let (filled, f) =
      copy_in-Fills left (idx + 1) dst first (set tmp_buf idx byte)
        (rw (length-set tmp_buf idx byte) (omega arith)) (omega arith) bytes
        (set-IsByte tmp_buf idx byte bytes' is_byte) in
    (
      filled,
      record {
        copied = rw (copy_in, here, inside) f.copied;
        len = f.len ∙ length-set tmp_buf idx byte;
        bytes = f.bytes;
        before = λ i h. f.before i (omega arith) ∙ get_elem?-set_else tmp_buf idx i byte (inl h);
        same_bytes = λ i l h. elim (Bool-cases (idx == i)) [
          | inl at_idx ↦
              let e : idx ≡ i = ground arith in
              rw (← e) (
                f.before idx (omega arith)
                ∙ get_elem?-set tmp_buf idx byte (omega arith)
                ∙ sym here)
          | inr later ↦ f.same_bytes i (ground arith) (omega arith)
        ];
      },
    )

string_set_inside :
    (dst : Bytes) (i byte : ℕ) → i < length dst → string_set dst i byte ≡ some (set dst i byte)
unfolding string_set
string_set_inside dst i byte h =
    let e : (i == length dst) ≡ false = ground arith in
    let l : ltb i (length dst) ≡ true = ground arith in rw (e, l) refl

string_set_end : (dst : Bytes) (i : ℕ) → i ≡ length dst → string_set dst i 0 ≡ some dst
unfolding string_set
string_set_end dst i h = let e : (i == length dst) ≡ true = ground arith in rw e refl

-- The string holds the bytes of the buffer from `first` on.
pub record Stores (left idx : ℕ) (tmp_buf : Bytes) (first : ℕ) (dst dst' : Bytes) : Type 0 where
  pub copied : copy_out left idx tmp_buf first dst ≡ some dst'
  pub len : length dst' ≡ length dst
  pub outside :
      (i : ℕ) → (i < first + idx) ⊎ (first + idx + left ≤ i) → get_elem? dst' i ≡ get_elem? dst i
  pub same_bytes :
      (i : ℕ)
      → idx ≤ i
      → i < idx + left
      → first + i < length dst
      → get_elem? dst' (first + i) ≡ get_elem? tmp_buf i

pub copy_out-Stores :
    (left idx : ℕ) (tmp_buf : Bytes) (first : ℕ) (dst : Bytes)
    → idx + left ≤ length tmp_buf
    → first + idx + left ≤ length dst + 1
    → ((i : ℕ) → i < idx + left → first + i ≡ length dst → get_elem? tmp_buf i ≡ some 0)
    → (dst' : Bytes) × Stores left idx tmp_buf first dst dst'
unfolding copy_out
copy_out-Stores zero idx tmp_buf first dst room room' zero_end = (
  dst,
  record {
    copied = refl;
    len = refl;
    outside = λ i _. refl;
    same_bytes = λ i l h _. absurd (omega arith);
  },
)
copy_out-Stores (suc left) idx tmp_buf first dst room room' zero_end =
    let (byte, here) = get_elem?_inside tmp_buf idx (omega arith) in
    elim (Bool-cases (first + idx == length dst)) [
      | inl at_end ↦
          let e : first + idx ≡ length dst = ground arith in
          let is_zero : byte ≡ 0 =
            let k : some byte ≡ some 0 = sym here ∙ zero_end idx (omega arith) e in cc k in
          let (dst', f) =
            copy_out-Stores left (idx + 1) tmp_buf first dst (omega arith) (omega arith)
              (λ i h. zero_end i (omega arith)) in
          (
            dst',
            record {
              copied = rw (copy_out, here, is_zero, string_set_end dst (first + idx) e) f.copied;
              len = f.len;
              outside = λ i o. f.outside i (omega (arith, o));
              same_bytes = λ i l h k. f.same_bytes i (omega arith) (omega arith) k;
            },
          )
      | inr before_end ↦
          let lt : first + idx < length dst = ground arith in
          let dst1 = set dst (first + idx) byte in
          let len1 : length dst1 ≡ length dst = length-set dst (first + idx) byte in
          let (dst', f) =
            copy_out-Stores left (idx + 1) tmp_buf first dst1 (omega arith) (rw len1 (omega arith))
              (λ i h k. zero_end i (omega arith) (k ∙ len1)) in
          (
            dst',
            record {
              copied = rw (copy_out, here, string_set_inside dst (first + idx) byte lt) f.copied;
              len = f.len ∙ len1;
              outside = λ i o.
                  f.outside i (omega (arith, o))
                  ∙ get_elem?-set_else dst (first + idx) i byte (omega (arith, o));
              same_bytes = λ i l h k. elim (Bool-cases (idx == i)) [
                | inl at_idx ↦
                    let e : idx ≡ i = ground arith in
                    rw (← e) (
                      f.outside (first + idx) (inl (omega arith))
                      ∙ get_elem?-set dst (first + idx) byte lt
                      ∙ sym here)
                | inr later ↦ f.same_bytes i (ground arith) (omega arith) (rw len1 k)
              ];
            },
          )
    ]
