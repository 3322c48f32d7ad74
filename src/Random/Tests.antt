-- ===== src/Random/Tests.antt =====
-- Concrete runs of the generator, and the theorems at concrete inputs.
use rockscopy.Base.{◌*◌, ◌%◌, ◌≡◌, refl, arith}
use rockscopy.Random.{Random, modulus, multiplier, next}
use rockscopy.Random.Laws.{IsSeed, next_lem}

abbrev seeded : Random
seeded = record { seed_ = 301 }

next_run : next seeded ≡ (5058907, record { seed_ = 5058907 })
unfolding next
next_run = refl

next_lem_example :
    ((next seeded).0 ≡ seeded.seed_ * multiplier % modulus)
    × ((next seeded).1.seed_ ≡ (next seeded).0)
    × IsSeed (next seeded).1
next_lem_example = next_lem seeded (omega arith)
