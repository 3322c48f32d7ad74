-- ===== src/Arena/Bump.antt =====
-- An allocator as the arena expects it: every block behind all the blocks before.
use rockscopy.Base.{ℕ, ◌+◌, ◌*◌, ◌/◌, ◌%◌, ◌≤◌, ◌≡◌, refl, arith}
use rockscopy.Base.{ltb, if◌then◌else◌, inr, List, [], ◌∷◌, All}
use rockscopy.Arena.{Region}
use rockscopy.Arena.Regions.{Apart, IsAllocator}

-- The first multiple of 8 behind a region.
abbrev behind : Region → ℕ
behind b = (b.start + b.bytes + 7) / 8 * 8

abbrev later : ℕ → ℕ → ℕ
later p q = if ltb p q then q else p

-- Every block behind all the blocks before.
abbrev pub bump : List Region → ℕ → ℕ
bump [] n = 4096
bump (b ∷ blocks) n = later (bump blocks n) (behind b)

later_bounds :
    (p q : ℕ) → p % 8 ≡ 0 → q % 8 ≡ 0 → (later p q % 8 ≡ 0) × (p ≤ later p q) × (q ≤ later p q)
later_bounds p q hp hq = ground arith

bump-aligned : (blocks : List Region) (n : ℕ) → bump blocks n % 8 ≡ 0
bump-aligned [] n = refl
bump-aligned (b ∷ blocks) n =
    (later_bounds (bump blocks n) (behind b) (bump-aligned blocks n) (omega arith)).0

behind-All :
    (blocks : List Region) (p n : ℕ)
    → bump blocks n ≤ p
    → All (Apart (record { start = p; bytes = n })) blocks
behind-All [] p n h = tt
behind-All (b ∷ blocks) p n h =
    let (_, before, own) =
      later_bounds (bump blocks n) (behind b) (bump-aligned blocks n) (omega arith) in
    (inr (omega (arith, own)), behind-All blocks p n (omega arith))

pub bump-IsAllocator : IsAllocator bump
bump-IsAllocator = record {
  aligned = bump-aligned;
  fresh = λ blocks n. behind-All blocks (bump blocks n) n (omega arith);
}
