-- ===== src/ArenaTest/Tests.antt =====
-- The test with 20 rounds.
use rockscopy.Base.{ℕ, ◌+◌, ◌*◌, ◌≡◌, refl, arith, ◌⊎◌, Bool, leb}
use rockscopy.Arena.Bump.{bump, bump-IsAllocator}
use rockscopy.ArenaTest.{
  passed, usage_above, simple, rounds, round, request, record_block, random_size, drawn_size,
  allocate_block, zero_division, at_least_1, fill, matches, matches_all, start,
}
use rockscopy.Arena.{
  memory_usage, allocate, allocate_aligned, allocate_fallback, allocate_new_block, slop,
  check_aligned,
}
use rockscopy.Arena
use rockscopy.Random.{uniform, one_in, next}
use rockscopy.Random
use rockscopy.ArenaTest.Simple.{Exceeds, simple_lem}

-- Up to a tenth and a block more than what was asked for.
abbrev roughly : ℕ → ℕ → Bool
roughly usage bytes = leb (usage * 10) (bytes * 11 + 10 * 5000)

simple_lem_example :
    (simple bump (λ k. 16) roughly 20 ≡ passed)
    ⊎ ((simple bump (λ k. 16) roughly 20 ≡ usage_above) × Exceeds roughly)
simple_lem_example =
    simple_lem bump bump-IsAllocator (λ k. 16) (λ k. omega arith) roughly 20 (omega arith)
      (omega arith)

passes : simple bump (λ k. 16) roughly 20 ≡ passed
unfolding simple rounds round request record_block allocate_block random_size drawn_size at_least_1
    fill matches matches_all start memory_usage allocate allocate_aligned allocate_fallback
    allocate_new_block slop check_aligned Arena.make uniform one_in next Random.make
passes = refl

-- With `N` below 10 the first round takes a remainder by 0.
divides_by_0 : simple bump (λ k. 16) roughly 9 ≡ zero_division
unfolding simple rounds round random_size
divides_by_0 = refl
