-- ===== src/Random64/Tests.antt =====
-- A generator that counts, and the theorem at it.
use rockscopy.Base.{ℕ, ◌+◌, ◌-◌, ◌%◌, ◌^◌, ◌<◌, ◌≡◌, arith, some}
use native.Mathlib.Nat.{mod-lt}
use rockscopy.Random64.{skewed}
use rockscopy.Random64.Laws.{IsUniform, skewed_bounds}

abbrev draw : ℕ → ℕ × ℕ
draw g = (g, g + 1)

abbrev draw_from : ℕ → ℕ → ℕ → ℕ × ℕ
draw_from low high g = (low + g % (high - low + 1), g + 1)

draw_from-IsUniform : IsUniform draw_from
draw_from-IsUniform low high g h =
    let below : g % (high - low + 1) < high - low + 1 = mod-lt g (omega arith) in
    (omega arith, omega (arith, below))

skewed_bounds_example : (r : ℕ × ℕ) × (skewed draw draw_from 10 77 ≡ some r) × (r.0 < 2 ^ 10)
skewed_bounds_example = skewed_bounds draw draw_from draw_from-IsUniform 10 77 (omega arith)
