-- ===== src/SkipList/Heights.antt =====
-- `RandomHeight`: its bounds.
use rockscopy.Base.{ℕ, zero, suc, ◌+◌, ◌-◌, ◌≤◌, arith}
use rockscopy.Random
use rockscopy.Random.{Random}
use rockscopy.SkipList.{random_height_loop, random_height, max_height}

random_height_loop_bounds :
    (left height : ℕ) (rnd : Random)
    → (height ≤ (random_height_loop left height rnd).0)
      × ((random_height_loop left height rnd).0 ≤ height + left)
unfolding random_height_loop
random_height_loop_bounds zero height rnd = omega arith
random_height_loop_bounds (suc left) height rnd =
    let ih = random_height_loop_bounds left (height + 1) (Random.next rnd).1 in ground (arith, ih)

-- `RandomHeight` gives a height from 1 to `kMaxHeight`, as its assertions say, whatever the state of
-- the random number generator.
pub random_height_bounds :
    (rnd : Random) → (1 ≤ (random_height rnd).0) × ((random_height rnd).0 ≤ max_height)
unfolding random_height
random_height_bounds rnd =
    let (low, high) = random_height_loop_bounds (max_height - 1) 1 rnd in (low, omega arith)
