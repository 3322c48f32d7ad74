-- ===== src/SkipList/Layered/Rounds.antt =====
-- Rounds that are enough for a walk from the top level of a list down to the end of the lowest.
use rockscopy.Base.{ℕ, zero, suc, ◌+◌, ◌*◌, ◌≤◌, ◌<◌, arith}
use rockscopy.Base.{List, length}
use rockscopy.SkipList.{max_height}
use rockscopy.SkipList.Layered.{IsShort}

-- The rounds that are enough below a level.
unfoldable pub rounds : (ℕ → List ℕ) → ℕ → ℕ
rounds chain zero = 0
rounds chain (suc l) = rounds chain l + length (chain l) + 1

-- Rounds that are enough in a list of `n` nodes.
abbrev pub enough : ℕ → ℕ
enough n = max_height * (n + 1)

rounds-le : (chain : ℕ → List ℕ) (n l : ℕ) → IsShort n chain → rounds chain l ≤ l * (n + 1)
unfolding rounds
rounds-le chain n zero h = omega arith
rounds-le chain n (suc l) h = grind (arith, rounds-le chain n l h, h l)

pub rounds-enough :
    (chain : ℕ → List ℕ) (n top fuel : ℕ)
    → IsShort n chain
    → top < max_height
    → enough n ≤ fuel
    → rounds chain top + length (chain top) < fuel
rounds-enough chain n top fuel h lt e =
    let most : top * (n + 1) ≤ 11 * (n + 1) = grind arith in
    omega (arith, rounds-le chain n top h, h top, most)
