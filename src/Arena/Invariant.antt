-- ===== src/Arena/Invariant.antt =====
-- What holds between the arena and the regions that it has handed out, and that every operation
-- keeps it.
use rockscopy.Base.{ℕ, ◌+◌, ◌-◌, ◌≤◌, ◌<◌, ◌≡◌, refl, arith, ◌⊎◌, inl, inr, u64}
use rockscopy.Base.{List, [], ◌∷◌, All}
use rockscopy.Arena.{Region, Arena, make}
use rockscopy.Arena.Regions.{Apart, InSome, AllApart, total}

abbrev pub window : Arena → Region
window a = record { start = a.alloc_ptr_; bytes = a.alloc_bytes_remaining_ }

-- `live` are the regions handed out so far.
pub record IsConsistent (a : Arena) (live : List Region) : Type 0 where
  -- The free bytes lie in one block, unless there is no block yet.
  pub placed : ((a.alloc_ptr_ ≡ 0) × (a.alloc_bytes_remaining_ ≡ 0)) ⊎ InSome a.blocks_ (window a)
  -- So does each region handed out.
  pub inside : All (InSome a.blocks_) live
  -- No two regions share a byte, and none a byte with the free ones.
  pub apart : AllApart live
  pub free : All (Apart (window a)) live
  -- The blocks have room for all of them.
  pub room : total live + a.alloc_bytes_remaining_ ≤ total a.blocks_
  -- `blocks_memory_` is what was allocated, as a `size_t`.
  pub memory : a.blocks_memory_ ≡ u64 (total a.blocks_)

pub make-IsConsistent : IsConsistent make []
unfolding make
make-IsConsistent = record {
  placed = inl (refl, refl);
  inside = tt;
  apart = tt;
  free = tt;
  room = omega arith;
  memory = refl;
}

-- The free bytes after `skip` and `n` of them were cut off.
abbrev pub cut : ℕ → ℕ → Arena → Arena
cut skip n a = record a {
  alloc_ptr_ = a.alloc_ptr_ + skip + n;
  alloc_bytes_remaining_ = a.alloc_bytes_remaining_ - (skip + n);
}

abbrev pub carved : ℕ → ℕ → Arena → Region
carved skip n a = record { start = a.alloc_ptr_ + skip; bytes = n }

module _ (a : Arena) (skip n : ℕ) (pos : 0 < n) (fits : skip + n ≤ a.alloc_bytes_remaining_) where
  carve_inside :
      (blocks : List Region)
      → InSome blocks (window a)
      → InSome blocks (carved skip n a) × InSome blocks (window (cut skip n a))
  carve_inside [] h = absurd h
  carve_inside (b ∷ blocks) (inl h) = (inl (omega arith), inl (omega arith))
  carve_inside (b ∷ blocks) (inr h) = let (i, j) = carve_inside blocks h in (inr i, inr j)

  carve-Apart :
      (live : List Region)
      → All (Apart (window a)) live
      → All (Apart (carved skip n a)) live × All (Apart (window (cut skip n a))) live
  carve-Apart [] h = (tt, tt)
  carve-Apart (r ∷ live) (hr, hs) =
      let (i, j) = carve-Apart live hs in ((ground arith, i), (ground arith, j))

  pub carve-IsConsistent :
      (live : List Region)
      → IsConsistent a live
      → IsConsistent (cut skip n a) (carved skip n a ∷ live)
  carve-IsConsistent live c = elim c.placed [
    | inl h ↦ absurd (omega arith)
    | inr h ↦
        let (i, j) = carve_inside a.blocks_ h in
        let (p, q) = carve-Apart live c.free in
        record {
          placed = inr j;
          inside = (i, c.inside);
          apart = (p, c.apart);
          free = (inr (omega arith), q);
          room = omega (arith, c.room);
          memory = c.memory;
        }
  ]
