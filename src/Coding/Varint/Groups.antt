-- ===== src/Coding/Varint/Groups.antt =====
-- The varint format in plain arithmetic: groups of seven bits, lowest first.
use native.Mathlib.Nat.{pow-suc}
use rockscopy.Base.{ℕ, zero, suc, ◌+◌, ◌/◌, ◌%◌, ◌^◌, ◌≤◌, ◌<◌, ◌≡◌, arith, ltb, IsByte}
use rockscopy.Base.{Bytes, [], ◌∷◌, if◌then◌else◌, length, All}

-- The encoding of `v` in at most `k + 1` bytes.
unfoldable pub groups : ℕ → ℕ → Bytes
groups zero v = v ∷ []
groups (suc k) v = if ltb v 128 then v ∷ [] else (v % 128 + 128) ∷ groups k (v / 128)

pub groups-IsByte : (k v : ℕ) → v < 128 ^ suc k → All IsByte (groups k v)
unfolding groups
groups-IsByte zero v h = omega arith
groups-IsByte (suc k) v h = ground (arith, pow-suc 128 (suc k), groups-IsByte k (v / 128))

pub length-groups : (k v : ℕ) → (1 ≤ length (groups k v)) × (length (groups k v) ≤ k + 1)
unfolding groups
length-groups zero v = omega arith
length-groups (suc k) v = ground (arith, length-groups k (v / 128))

-- One byte more of room changes nothing for a number that fits already.
pub groups_room : (k v : ℕ) → v < 128 ^ suc k → groups (suc k) v ≡ groups k v
unfolding groups
groups_room zero v h = ground arith
groups_room (suc k) v h = ground (arith, pow-suc 128 (suc k), groups_room k (v / 128))
