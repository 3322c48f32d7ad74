-- ===== src/Arena/Growth.antt =====
-- How much a call of `Allocate` or `AllocateAligned` adds to the arena's blocks.
use rockscopy.Base.{
  ◌<◌, ◌*◌, ◌^◌, ℕ, suc, ◌+◌, ◌≤◌, ◌≡◌, arith, Bool-cases, inl, inr, leb, ltb, ◌/◌,
}
use rockscopy.Base.{List, [], ◌∷◌, length, length-append, some, u64}
use rockscopy.Arena.{
  Region, Arena, block_size, slop, check_aligned, allocate_new_block, allocate_fallback, allocate,
  allocate_aligned,
}
use rockscopy.Arena.{memory_usage, pointer_size}
use rockscopy.Arena.Invariant.{IsConsistent}
use rockscopy.Arena.Regions.{total, total-append}

-- One block more at most, of a block's size or of that of the request.
abbrev pub GrowsBy : ℕ → Arena → Arena → Type 0
GrowsBy bytes a a' =
    (length a'.blocks_ ≤ suc (length a.blocks_))
    × (total a'.blocks_ ≤ total a.blocks_ + (block_size + bytes))

-- The blocks hold what was handed out.
pub usage-le :
    (capacity : ℕ → ℕ) (a : Arena) (live : List Region)
    → IsConsistent a live
    → total a.blocks_ + capacity (length a.blocks_) * pointer_size < 2 ^ 64
    → total live ≤ memory_usage capacity a
unfolding memory_usage
usage-le capacity a live c fits = omega (arith, c.room, c.memory)

module _ (new_chars : List Region → ℕ → ℕ) where
  allocate_new_block-GrowsBy :
      (size bytes : ℕ) (a : Arena)
      → size ≤ block_size + bytes
      → GrowsBy bytes a (allocate_new_block new_chars size a).1
  unfolding allocate_new_block
  allocate_new_block-GrowsBy size bytes a le =
      let b : Region = record { start = new_chars a.blocks_ size; bytes = size } in
      (
        omega (arith, length-append {0} a.blocks_ (b ∷ [])),
        omega (arith, total-append a.blocks_ (b ∷ [])),
      )

  allocate_fallback-GrowsBy :
      (bytes : ℕ) (a : Arena) → GrowsBy bytes a (allocate_fallback new_chars bytes a).1
  unfolding allocate_fallback
  allocate_fallback-GrowsBy bytes a = elim (Bool-cases (ltb (block_size / 4) bytes)) [
    | inl large ↦ rw large (allocate_new_block-GrowsBy bytes bytes a (omega arith))
    | inr small ↦ rw small (allocate_new_block-GrowsBy block_size bytes a (omega arith))
  ]

  pub allocate-GrowsBy :
      (bytes : ℕ) (a : Arena) (r : ℕ × Arena)
      → allocate new_chars bytes a ≡ some r
      → GrowsBy bytes a r.1
  unfolding allocate
  allocate-GrowsBy bytes a r e = ground (arith, allocate_fallback-GrowsBy bytes a, e)

  check_aligned-same : (q r : ℕ × Arena) → check_aligned new_chars q ≡ some r → q ≡ r
  unfolding check_aligned
  check_aligned-same q r e = ground (arith, e)

  pub allocate_aligned-GrowsBy :
      (bytes : ℕ) (a : Arena) (r : ℕ × Arena)
      → allocate_aligned new_chars bytes a ≡ some r
      → GrowsBy bytes a r.1
  unfolding allocate_aligned
  allocate_aligned-GrowsBy bytes a r e =
      elim (Bool-cases (leb (u64 (bytes + slop new_chars a)) a.alloc_bytes_remaining_)) [
        | inl fits ↦ rw (← check_aligned-same _ r (rw fits at e)) (omega arith, omega arith)
        | inr full ↦
            rw (← check_aligned-same _ r (rw full at e)) (allocate_fallback-GrowsBy bytes a)
      ]
