-- ===== src/Arena/Allocation.antt =====
-- Each allocation keeps the invariant, with the region that it hands out added.
use rockscopy.Base.{ℕ, ◌+◌, ◌%◌, ◌^◌, ◌≤◌, ◌<◌, ◌≡◌, arith, inl, inr, u64}
use rockscopy.Base.{List, [], ◌∷◌, ◌++◌, some, ltb, leb, Bool-cases}
use rockscopy.Base.Bits.{bit_and_mask}
use rockscopy.Arena.{Region, Arena, allocate_new_block, allocate_fallback, allocate, slop}
use rockscopy.Arena.{check_aligned, allocate_aligned, align, block_size}
use rockscopy.Arena.Regions.{Apart, Apart-symm, total, IsAllocator, InSome-append}
use rockscopy.Arena.Regions.{
  InSome-last, All-InSome-append, total-append, InSome-Apart, All-InSome-Apart,
}
use rockscopy.Arena.Invariant.{window, IsConsistent, cut, carve-IsConsistent}

module _ (new_chars : List Region → ℕ → ℕ) (law : IsAllocator new_chars) where
  -- The block of `n` bytes that the arena would get next.
  abbrev next_block : ℕ → Arena → Region
  next_block n a = record { start = new_chars a.blocks_ n; bytes = n }

  module _ (n : ℕ) (a : Arena) (live : List Region) (c : IsConsistent a live) where
    abbrev with_block : Arena
    with_block = (allocate_new_block new_chars n a).1

    memory_added : u64 (a.blocks_memory_ + n) ≡ u64 (total (a.blocks_ ++ (next_block n a ∷ [])))
    memory_added = omega (arith, total-append a.blocks_ (next_block n a ∷ []), c.memory)

    window-Apart : Apart (window a) (next_block n a)
    window-Apart = elim c.placed [
      | inl h ↦ inl (omega arith)
      | inr h ↦ Apart-symm (next_block n a) (window a) (
          InSome-Apart a.blocks_ (next_block n a) (window a) (next_block n a)
            (law.fresh a.blocks_ n) h (omega arith))
    ]

    -- A block of its own for one region.
    separate-IsConsistent : IsConsistent with_block (next_block n a ∷ live)
    unfolding allocate_new_block
    separate-IsConsistent = record {
      placed = elim c.placed [
        | inl h ↦ inl h
        | inr h ↦ inr (InSome-append a.blocks_ _ (window a) h)
      ];
      inside = (
        InSome-last a.blocks_ (next_block n a) (next_block n a) (omega arith),
        All-InSome-append a.blocks_ _ live c.inside,
      );
      apart = (
        All-InSome-Apart a.blocks_ live (next_block n a) (next_block n a) (law.fresh a.blocks_ n)
            c.inside (omega arith),
        c.apart,
      );
      free = (window-Apart, c.free);
      room = omega (arith, total-append a.blocks_ (next_block n a ∷ []), c.room);
      memory = memory_added;
    }

    abbrev opened : Arena
    opened = record (allocate_new_block new_chars n a).1 {
      alloc_ptr_ = new_chars a.blocks_ n;
      alloc_bytes_remaining_ = n;
    }

    -- A block that the arena cuts from, in place of what was left of the one before.
    opened-IsConsistent : IsConsistent opened live
    unfolding allocate_new_block
    opened-IsConsistent = record {
      placed = inr (InSome-last a.blocks_ (next_block n a) (next_block n a) (omega arith));
      inside = All-InSome-append a.blocks_ _ live c.inside;
      apart = c.apart;
      free =
          All-InSome-Apart a.blocks_ live (next_block n a) (next_block n a) (law.fresh a.blocks_ n)
            c.inside (omega arith);
      room = omega (arith, total-append a.blocks_ (next_block n a ∷ []), c.room);
      memory = memory_added;
    }

  -- What an allocation of `n` bytes promises of its result and the arena behind it.
  abbrev pub Serves : ℕ → List Region → ℕ × Arena → Type 0
  Serves n live (result, a) = IsConsistent a (record { start = result; bytes = n } ∷ live)

  fallback_cuts :
      (n : ℕ) (a : Arena) (live : List Region) (c : IsConsistent a live)
      → n ≤ 1024
      → allocate_fallback new_chars n a
        ≡ (new_chars a.blocks_ block_size + 0, cut 0 n (opened block_size a live c))
  unfolding allocate_fallback
  fallback_cuts n a live c h = ground arith

  fallback_separates :
      (n : ℕ) (a : Arena) (live : List Region) (c : IsConsistent a live)
      → 1024 < n
      → allocate_fallback new_chars n a ≡ (new_chars a.blocks_ n, with_block n a live c)
  unfolding allocate_fallback
  fallback_separates n a live c h = ground arith

  allocate_fallback-Serves :
      (n : ℕ) (a : Arena) (live : List Region)
      → 0 < n
      → IsConsistent a live
      → Serves n live (allocate_fallback new_chars n a)
        × ((allocate_fallback new_chars n a).0 % align ≡ 0)
  allocate_fallback-Serves n a live pos c = elim (Bool-cases (ltb 1024 n)) [
    | inl large ↦
        rw (fallback_separates n a live c (ground arith))
          (separate-IsConsistent n a live c, law.aligned a.blocks_ n)
    | inr small ↦ rw (fallback_cuts n a live c (ground arith)) (
      carve-IsConsistent (opened block_size a live c) 0 n pos (ground arith) live
          (opened-IsConsistent block_size a live c),
      omega (arith, law.aligned a.blocks_ block_size),
    )
  ]

  -- On an arena that is consistent with what it has handed out, `Allocate` serves every positive
  -- request: its assertion holds, and the region that it hands out lies in a block and shares no
  -- byte with any region handed out before or with the free bytes left, so that the invariant
  -- holds with the region added.
  pub allocate-Serves :
      (n : ℕ) (a : Arena) (live : List Region)
      → 0 < n
      → IsConsistent a live
      → (r : ℕ × Arena) × (allocate new_chars n a ≡ some r) × Serves n live r
  allocate-Serves n a live pos c = elim (Bool-cases (leb n a.alloc_bytes_remaining_)) [
    | inl here ↦ (
      (a.alloc_ptr_ + 0, cut 0 n a),
      unfold allocate in ground arith,
      carve-IsConsistent a 0 n pos (ground arith) live c,
    )
    | inr not_here ↦ (
      allocate_fallback new_chars n a,
      unfold allocate in ground arith,
      (allocate_fallback-Serves n a live pos c).0,
    )
  ]

  slop_aligns :
      (a : Arena) → ((a.alloc_ptr_ + slop new_chars a) % align ≡ 0) × (slop new_chars a < align)
  unfolding slop
  slop_aligns a = ground (arith, bit_and_mask 3 a.alloc_ptr_)

  check_aligned_passes : (r : ℕ × Arena) → r.0 % align ≡ 0 → check_aligned new_chars r ≡ some r
  unfolding check_aligned
  check_aligned_passes (result, a) h = ground (arith, bit_and_mask 3 result)

  aligned_here :
      (n : ℕ) (a : Arena)
      → n + slop new_chars a < 2 ^ 64
      → n + slop new_chars a ≤ a.alloc_bytes_remaining_
      → (a.alloc_ptr_ + slop new_chars a) % align ≡ 0
      → allocate_aligned new_chars n a
        ≡ some (a.alloc_ptr_ + slop new_chars a, cut (slop new_chars a) n a)
  unfolding allocate_aligned
  aligned_here n a small fits starts = ground (
    arith,
    check_aligned_passes (a.alloc_ptr_ + slop new_chars a, cut (slop new_chars a) n a) starts,
  )

  aligned_elsewhere :
      (n : ℕ) (a : Arena)
      → n + slop new_chars a < 2 ^ 64
      → a.alloc_bytes_remaining_ < n + slop new_chars a
      → (allocate_fallback new_chars n a).0 % align ≡ 0
      → allocate_aligned new_chars n a ≡ some (allocate_fallback new_chars n a)
  unfolding allocate_aligned
  aligned_elsewhere n a small fits starts =
      ground (arith, check_aligned_passes (allocate_fallback new_chars n a) starts)

  -- On an arena that is consistent with what it has handed out, `AllocateAligned` serves every
  -- positive request that leaves room for the slop in a `size_t`: its assertion holds, so that the
  -- region starts at a multiple of 8, and the invariant holds with the region added.
  pub allocate_aligned-Serves :
      (n : ℕ) (a : Arena) (live : List Region)
      → 0 < n
      → n + align ≤ 2 ^ 64
      → IsConsistent a live
      → (r : ℕ × Arena) × (allocate_aligned new_chars n a ≡ some r)
        × Serves n live r
        × (r.0 % align ≡ 0)
  allocate_aligned-Serves n a live pos small c =
      let (starts, below) = slop_aligns a in
      let skip = slop new_chars a in
      elim (Bool-cases (leb (n + skip) a.alloc_bytes_remaining_)) [
        | inl here ↦ (
          (a.alloc_ptr_ + skip, cut skip n a),
          aligned_here n a (omega arith) (ground arith) starts,
          carve-IsConsistent a skip n pos (ground arith) live c,
          starts,
        )
        | inr not_here ↦
            let (serves, starts') = allocate_fallback-Serves n a live pos c in
            (
              allocate_fallback new_chars n a,
              aligned_elsewhere n a (omega arith) (ground arith) starts',
              serves,
              starts',
            )
      ]
