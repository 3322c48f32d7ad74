-- ===== src/ArenaTest.antt =====
-- src/util/test_arena.cpp: `TEST(ArenaTest, Simple)`, a client of `Arena` and `Random`. The memory
-- is a function from addresses to bytes.
-- The capacity of a vector and `MemoryUsage() <= bytes * 1.10`, which is computed in doubles, are
-- arguments, and so is `N`, which is 100000. A `char` is kept as its byte, and fresh memory as zeros.
mod Tests
pub mod Memory
pub mod Simple
use rockscopy.Base.{ℕ, zero, suc, ◌+◌, ◌%◌, ◌/◌, u64, bit_and, Bool, true, false, not, ◌&&◌}
use rockscopy.Base.{ltb, ◌==◌, if◌then◌else◌, List, [], ◌∷◌, ◌++◌, Option, none, some, update}
use rockscopy.Arena.{Region, Arena, allocate, allocate_aligned, memory_usage}
use rockscopy.Arena
use rockscopy.Random.{Random, uniform, one_in}
use rockscopy.Random

-- What the test ends with: `aborted` by an assertion of the arena, `usage_below` and `usage_above`
-- by its own assertions on the memory usage, `wrong_byte` by that on the contents, and
-- `zero_division` where `N / 10` is 0.
pub data Outcome : Type 0 where
  passed aborted usage_below usage_above wrong_byte zero_division : Outcome

-- `r[b] = i % 256` for each `b` below `s`, `left` rounds from `b` on.
unfoldable pub fill : ℕ → ℕ → ℕ → ℕ → (ℕ → ℕ) → ℕ → ℕ
fill zero b r i memory = memory
fill (suc left) b r i memory = fill left (b + 1) r i (update memory (r + b) (i % 256))

-- The same for the comparisons `int(p[b]) & 0xff == i % 256`.
unfoldable pub matches : ℕ → ℕ → ℕ → ℕ → (ℕ → ℕ) → Bool
matches zero b p i memory = true
matches (suc left) b p i memory =
    bit_and (memory (p + b)) 0xff == i % 256 && matches left (b + 1) p i memory

unfoldable pub matches_all : ℕ → List (ℕ × ℕ) → (ℕ → ℕ) → Bool
matches_all i [] memory = true
matches_all i ((num_bytes, p) ∷ allocated) memory =
    matches num_bytes 0 p i memory && matches_all (i + 1) allocated memory

-- The size that is asked for in round `i`, before 0 is made 1, where `N / 10` is not 0.
unfoldable pub drawn_size : ℕ → ℕ → Random → ℕ × Random
drawn_size n i rnd =
    if i % (n / 10) == 0
    then (i, rnd)
    else let (large, rnd1) = one_in 4000 rnd in
      if large
      then uniform 6000 rnd1
      else let (middle, rnd2) = one_in 10 rnd1 in
        if middle then uniform 100 rnd2 else uniform 20 rnd2

-- A remainder by 0 is `none`.
unfoldable pub random_size : ℕ → ℕ → Random → Option (ℕ × Random)
random_size n i rnd = if n / 10 == 0 then none else some (drawn_size n i rnd)

unfoldable pub at_least_1 : ℕ → ℕ
at_least_1 s = if s == 0 then 1 else s

pub record State : Type 0 where
  pub allocated : List (ℕ × ℕ)
  pub arena : Arena
  pub bytes : ℕ
  pub rnd : Random
  pub memory : ℕ → ℕ

pub data Progress : Type 0 where
  stop : Outcome → Progress
  go_on : State → Progress

unfoldable pub start : State
start = record {
  allocated = [];
  arena = Arena.make;
  bytes = 0;
  rnd = Random.make 301;
  memory = λ a. 0;
}

module _ (new_chars : List Region → ℕ → ℕ) (capacity : ℕ → ℕ) (within : ℕ → ℕ → Bool) where
  unfoldable pub request : Bool → ℕ → Arena → Option (ℕ × Arena)
  request aligned s arena =
      if aligned then allocate_aligned new_chars s arena else allocate new_chars s arena

  -- What follows the call in a round: the bytes are written, and the usage is checked.
  unfoldable pub record_block : ℕ → ℕ → ℕ → ℕ × Arena → Random → State → Progress
  record_block n i s (r, arena) rnd st =
      let bytes = u64 (st.bytes + s) in
      let usage = memory_usage capacity arena in
      if ltb usage bytes
      then stop usage_below
      else if ltb (n / 10) i && not (within usage bytes)
      then stop usage_above
      else go_on (record {
        allocated = st.allocated ++ ((s, r) ∷ []);
        arena = arena;
        bytes = bytes;
        rnd = rnd;
        memory = fill s 0 r i st.memory;
      })

  -- The round from the choice of the allocation on.
  unfoldable pub allocate_block : ℕ → ℕ → ℕ × Random → State → Progress
  allocate_block n i (size, rnd1) st =
      let s = at_least_1 size in
      let (aligned, rnd2) = one_in 10 rnd1 in
      elim (request aligned s st.arena) [
        | none ↦ stop aborted
        | some r ↦ record_block n i s r rnd2 st
      ]

  unfoldable pub round : ℕ → ℕ → State → Progress
  round n i st = elim (random_size n i st.rnd) [
    | none ↦ stop zero_division
    | some drawn ↦ allocate_block n i drawn st
  ]

  unfoldable pub rounds : ℕ → ℕ → ℕ → State → Progress
  rounds n zero i st = go_on st
  rounds n (suc left) i st = elim (round n i st) [
    | stop o ↦ stop o
    | go_on st' ↦ rounds n left (i + 1) st'
  ]

  unfoldable pub simple : ℕ → Outcome
  simple n = elim (rounds n n 0 start) [
    | stop o ↦ o
    | go_on st ↦ if matches_all 0 st.allocated st.memory then passed else wrong_byte
  ]
