-- ===== src/Env/WritableFile/Laws.antt =====
-- What `PrepareWrite` has preallocated, over one write and over any sequence of them.
use native.Mathlib.Nat.{div-add-mod, mod-lt}
use rockscopy.Base.{ℕ, ◌+◌, ◌-◌, ◌*◌, ◌/◌, ◌^◌, ◌≤◌, ◌<◌, ◌≡◌, refl, arith, u64}
use rockscopy.Base.{ltb, Option, none, some, Bool-cases, inl, inr}
use rockscopy.Base.{ap}
use rockscopy.Env.WritableFile.{WritableFile, Extent, pos, off_t, prepare_write, last_block_for}

-- A write whose end is, with a block more, no further than 2^63, behind the last `off_t`.
abbrev pub Fits : ℕ → ℕ → ℕ → Type 0
Fits block_size offset len = offset + len + block_size ≤ 2 ^ 63

last_block_for-div :
    (block_size offset len : ℕ)
    → 0 < block_size
    → Fits block_size offset len
    → last_block_for block_size offset len ≡ (offset + len + block_size - 1) / block_size
unfolding last_block_for
last_block_for-div block_size offset len some_bytes fits =
    ap (λ (n : ℕ). n / block_size) (omega arith)

-- The last block is the first that the write does not reach past.
last_block_bounds : (b n : ℕ) → 0 < b → (n ≤ (n + b - 1) / b * b) × ((n + b - 1) / b * b < n + b)
last_block_bounds b n h = omega (arith, div-add-mod (n + b - 1) b, mod-lt (n + b - 1) h)

-- The end of what is preallocated.
abbrev pub reach : WritableFile → ℕ
reach file = file.last_preallocated_block_ * file.preallocation_block_size_

-- A file whose preallocated end is no further than that.
abbrev pub IsSmall : WritableFile → Type 0
IsSmall file = reach file ≤ 2 ^ 63

-- What a call of `PrepareWrite` does to a file with a block size: either the write ends in what is
-- preallocated, and nothing changes; or `Allocate` is asked for the bytes from the old end to the
-- new one, which is the first block boundary at or behind the end of the write.
abbrev pub Prepares : WritableFile → ℕ → ℕ → Option Extent × WritableFile → Type 0
Prepares file offset len (none, file') = (file' ≡ file) × (offset + len ≤ reach file)
Prepares file offset len (some extent, file') =
    (file'.preallocation_block_size_ ≡ file.preallocation_block_size_)
    × (extent.offset ≡ pos (reach file))
    × ((bytes : ℕ) × (extent.len ≡ pos bytes) × (reach file + bytes ≡ reach file') × (0 < bytes))
    × (offset + len ≤ reach file')
    × (reach file' < offset + len + file.preallocation_block_size_)

mul-pos : (b k : ℕ) → 0 < b → 0 < k → 0 < k * b
mul-pos b k hb hk = grind arith

off_t-pos : (n m : ℕ) → n ≡ m → m < 2 ^ 63 → off_t n ≡ pos m
unfolding off_t
off_t-pos n m e fits = ground arith

span_of_blocks :
    (b last k : ℕ)
    → 0 < b
    → 0 < k
    → (last + k) * b < 2 ^ 63
    → (off_t (u64 (b * last)) ≡ pos (last * b))
      × ((bytes : ℕ) × (off_t (u64 (b * k)) ≡ pos bytes)
          × (last * b + bytes ≡ (last + k) * b)
          × (0 < bytes))
span_of_blocks b last k hb hk fits = (
  off_t-pos (u64 (b * last)) (last * b) (omega arith) (omega arith),
  (
    k * b,
    off_t-pos (u64 (b * k)) (k * b) (omega arith) (omega arith),
    omega arith,
    mul-pos b k hb hk,
  ),
)

boundary_mono : (b new last n : ℕ) → new ≤ last → n ≤ new * b → n ≤ last * b
boundary_mono b new last n h k = grind arith

module _ (file : WritableFile) (offset len : ℕ)
    (has_block : 0 < file.preallocation_block_size_) where
  abbrev block_size : ℕ
  block_size = file.preallocation_block_size_

  abbrev last : ℕ
  last = file.last_preallocated_block_

  abbrev new_last : ℕ
  new_last = last_block_for block_size offset len

  prepare_write_stays : new_last ≤ last → prepare_write offset len file ≡ (none, file)
  unfolding prepare_write
  prepare_write_stays h = ground arith

  prepare_write_extends :
      last < new_last
      → prepare_write offset len file ≡ (
        some (record {
          offset = off_t (u64 (block_size * last));
          len = off_t (u64 (block_size * (new_last - last)));
        }),
        record file { last_preallocated_block_ = new_last },
      )
  unfolding prepare_write
  prepare_write_extends h = ground arith

  module _ (small : IsSmall file) (fits : Fits block_size offset len) where
    new_bounds :
        (offset + len ≤ new_last * block_size) × (new_last * block_size < offset + len + block_size)
    new_bounds =
        rw (last_block_for-div block_size offset len has_block fits)
          (last_block_bounds block_size (offset + len) has_block)

    -- On a file with a block size and a preallocated end of at most 2^63, and for a write whose
    -- end is at most 2^63 less the block size, `PrepareWrite` changes nothing if the write ends in
    -- what is preallocated. Otherwise it asks `Allocate` for the bytes from the old end of that to
    -- the new end, which is the first block boundary at or behind the end of the write, and the
    -- conversions to `off_t` leave these numbers as they are.
    pub prepare_write-Prepares : Prepares file offset len (prepare_write offset len file)
    prepare_write-Prepares = elim (Bool-cases (ltb last new_last)) [
      | inl more ↦ rw (prepare_write_extends (ground arith)) (
          let grows : last + (new_last - last) ≡ new_last = ground arith in
          let (start, (bytes, len, end, some_bytes)) =
            span_of_blocks block_size last (new_last - last) has_block (ground arith)
              (rw grows (omega (arith, new_bounds))) in
          (refl, start, (bytes, len, rw grows at end, some_bytes), new_bounds.0, new_bounds.1))
      | inr enough ↦
          rw (prepare_write_stays (ground arith)) (
            refl,
            boundary_mono block_size new_last last (offset + len) (ground arith) new_bounds.0,
          )
    ]
