-- ===== src/ArenaTest/Simple.antt =====
-- The test: every allocation succeeds, the usage is never below what was asked for, and all blocks
-- keep their bytes.
use rockscopy.Base.{
  ℕ, zero, suc, ◌+◌, ◌*◌, ◌%◌, ◌/◌, ◌^◌, ◌≤◌, ◌<◌, ◌≡◌, refl, arith, ◌⊎◌, inl, inr, u64,
}
use rockscopy.Base.{
  Bool, true, false, Bool-cases, not, ◌&&◌, List, [], ◌∷◌, ◌++◌, some, length, length-append,
}
use rockscopy.Base.{ltb, ◌==◌}
use rockscopy.Arena.{Region, Arena, block_size, align, pointer_size, memory_usage}
use rockscopy.Arena
use rockscopy.Arena.Regions.{IsAllocator, total}
use rockscopy.Arena.Invariant.{IsConsistent, make-IsConsistent}
use rockscopy.Arena.Allocation.{allocate-Serves, allocate_aligned-Serves}
use rockscopy.Arena.Growth.{GrowsBy, usage-le, allocate-GrowsBy, allocate_aligned-GrowsBy}
use rockscopy.Random.{Random, one_in}
use rockscopy.Random.Laws.{uniform-lt}
use rockscopy.ArenaTest.{
  passed, usage_above, State, Progress, stop, go_on, start, fill, random_size, drawn_size,
  at_least_1, request, allocate_block, record_block, round, rounds, simple,
}
use rockscopy.ArenaTest.Memory.{
  regions, regions-append, AllFilled, fill-AllFilled, matches_all_filled,
}

drawn_size-le : (n i : ℕ) (rnd : Random) → (drawn_size n i rnd).0 ≤ i + 6000
unfolding drawn_size
drawn_size-le n i rnd = elim (Bool-cases (i % (n / 10) == 0)) [
  | inl tenth ↦ rw tenth (omega arith)
  | inr other ↦ rw other (elim (Bool-cases (one_in 4000 rnd).0) [
    | inl large ↦ rw large (omega (arith, uniform-lt 6000 (one_in 4000 rnd).1 (omega arith)))
    | inr small ↦ rw small (elim (Bool-cases (one_in 10 (one_in 4000 rnd).1).0) [
      | inl middle ↦
          rw middle (omega (arith, uniform-lt 100 (one_in 10 (one_in 4000 rnd).1).1 (omega arith)))
      | inr tiny ↦
          rw tiny (omega (arith, uniform-lt 20 (one_in 10 (one_in 4000 rnd).1).1 (omega arith)))
    ])
  ])
]

random_size-some :
    (n i : ℕ) (rnd : Random) → 10 ≤ n → random_size n i rnd ≡ some (drawn_size n i rnd)
unfolding random_size
random_size-some n i rnd tenth = ground arith

at_least_1_bounds : (s m : ℕ) → s ≤ m → 1 ≤ m → (0 < at_least_1 s) × (at_least_1 s ≤ m)
unfolding at_least_1
at_least_1_bounds s m le pos = ground arith

-- Between two rounds.
record IsRunning (i : ℕ) (st : State) : Type 0 where
  pub count : length st.allocated ≡ i
  pub consistent : IsConsistent st.arena (regions [] st.allocated)
  pub sum : st.bytes ≡ total (regions [] st.allocated)
  pub filled : AllFilled 0 st.allocated st.memory
  pub room : total st.arena.blocks_ ≤ i * (block_size + 2 ^ 31 + 6000)

-- A usage of which the comparison in doubles says that it is too high.
abbrev pub Exceeds : (ℕ → ℕ → Bool) → Type 0
Exceeds within = (usage : ℕ) × (bytes : ℕ) × (bytes ≤ usage) × (within usage bytes ≡ false)

module _ (new_chars : List Region → ℕ → ℕ) (law : IsAllocator new_chars) (capacity : ℕ → ℕ)
    (slots : (k : ℕ) → capacity k < 2 ^ 60) (within : ℕ → ℕ → Bool) where
  request_lem :
      (aligned : Bool) (s : ℕ) (arena : Arena) (live : List Region)
      → 0 < s
      → s + align ≤ 2 ^ 64
      → IsConsistent arena live
      → (r : ℕ × Arena) × (request new_chars capacity within aligned s arena ≡ some r)
        × IsConsistent r.1 (record { start = r.0; bytes = s } ∷ live)
        × GrowsBy s arena r.1
  unfolding request
  request_lem true s arena live pos fits c =
      let (r, e, ok, _) = allocate_aligned-Serves new_chars law s arena live pos fits c in
      (r, e, ok, allocate_aligned-GrowsBy new_chars s arena r e)
  request_lem false s arena live pos fits c =
      let (r, e, ok) = allocate-Serves new_chars law s arena live pos c in
      (r, e, ok, allocate-GrowsBy new_chars s arena r e)

  abbrev GoesOn : Progress → ℕ → Type 0
  GoesOn p i =
      ((st' : State) × (p ≡ go_on st') × IsRunning i st')
      ⊎ ((p ≡ stop usage_above) × Exceeds within)

  record_block_lem :
      (n i s : ℕ) (r : ℕ × Arena) (rnd : Random) (st : State)
      → i < n
      → n < 2 ^ 31
      → s ≤ 2 ^ 31 + 6000
      → IsRunning i st
      → IsConsistent r.1 (record { start = r.0; bytes = s } ∷ regions [] st.allocated)
      → GrowsBy s st.arena r.1
      → GoesOn (record_block new_chars capacity within n i s r rnd st) (suc i)
  unfolding record_block
  record_block_lem n i s r rnd st lt fits small running c grows =
      let room : total r.1.blocks_ ≤ suc i * (block_size + 2 ^ 31 + 6000) =
        omega (arith, running.room, grows.1) in
      let below : total r.1.blocks_ < 2 ^ 63 = omega arith in
      let usage =
        usage-le capacity r.1 (record { start = r.0; bytes = s } ∷ regions [] st.allocated) c
          (omega (arith, below, slots (length r.1.blocks_))) in
      let sum : u64 (st.bytes + s) ≡ s + total (regions [] st.allocated) =
        omega (arith, running.sum, c.room) in
      let enough : ltb (memory_usage capacity r.1) (u64 (st.bytes + s)) ≡ false = ground arith in
      rw enough
        (elim (Bool-cases
          (ltb (n / 10) i && not (within (memory_usage capacity r.1) (u64 (st.bytes + s))))) [
            | inl above ↦
                let too_high : within (memory_usage capacity r.1) (u64 (st.bytes + s)) ≡ false =
                  ground arith in
                rw above (
                  inr (
                    refl,
                    (
                      memory_usage capacity r.1,
                      u64 (st.bytes + s),
                      omega (arith, sum, usage),
                      too_high,
                    ),
                  ))
            | inr fine ↦ rw fine (
                inl (
                  record {
                    allocated = st.allocated ++ ((s, r.0) ∷ []);
                    arena = r.1;
                    bytes = u64 (st.bytes + s);
                    rnd = rnd;
                    memory = fill s 0 r.0 i st.memory;
                  },
                  refl,
                  record {
                    count =
                        omega
                          (arith, length-append {0} st.allocated ((s, r.0) ∷ []), running.count);
                    consistent = rw (regions-append [] st.allocated s r.0) c;
                    sum = rw (regions-append [] st.allocated s r.0) sum;
                    filled =
                        rw (← running.count)
                          (fill-AllFilled s r.0 st.memory st.allocated c.apart.0 running.filled);
                    room = room;
                  },
                ))
          ])

  round_lem :
      (n i : ℕ) (st : State)
      → 10 ≤ n
      → i < n
      → n < 2 ^ 31
      → IsRunning i st
      → GoesOn (round new_chars capacity within n i st) (suc i)
  unfolding round allocate_block
  round_lem n i st tenth lt fits running =
      let drawn = drawn_size n i st.rnd in
      let (pos, small) =
        at_least_1_bounds drawn.0 (2 ^ 31 + 6000) (omega (arith, drawn_size-le n i st.rnd))
          (omega arith) in
      let (r, e, ok, grows) =
        request_lem (one_in 10 drawn.1).0 (at_least_1 drawn.0) st.arena (regions [] st.allocated)
          pos (omega (arith, small)) running.consistent in
      rw (round, random_size-some n i st.rnd tenth, allocate_block, e)
        (record_block_lem n i (at_least_1 drawn.0) r (one_in 10 drawn.1).1 st lt fits small running
          ok grows)

  rounds_lem :
      (n left i : ℕ) (st : State)
      → 10 ≤ n
      → i + left ≡ n
      → n < 2 ^ 31
      → IsRunning i st
      → GoesOn (rounds new_chars capacity within n left i st) n
  unfolding rounds
  rounds_lem n zero i st tenth sum fits running =
      let e : i ≡ n = omega arith in inl (st, refl, rw (← e) running)
  rounds_lem n (suc left) i st tenth sum fits running =
      elim (round_lem n i st tenth (omega arith) fits running) [
        | inr (e, x) ↦ rw (rounds, e) (inr (refl, x))
        | inl (st', e, running') ↦
            let e' : suc i ≡ i + 1 = omega arith in
            rw (rounds, e)
              (rounds_lem n left (i + 1) st' tenth (omega arith) fits (rw e' at running'))
      ]

  start-IsRunning : IsRunning 0 start
  unfolding start
  start-IsRunning = record {
    count = refl;
    consistent = make-IsConsistent;
    sum = refl;
    filled = tt;
    room = unfold Arena.make in omega arith;
  }

  -- Over an allocator that gives aligned and fresh blocks, and with a vector's capacity below 2^60:
  -- for any `N` from 10 to below 2^31, the test `Simple` passes, or it ends at the assertion on
  -- `bytes * 1.10`, and then the comparison says no of a usage that is at least the bytes asked
  -- for. No remainder by 0 is taken, no assertion of the arena fails, the usage is never below the
  -- bytes asked for, and in the end each block still holds what was written to it in its round.
  pub simple_lem :
      (n : ℕ)
      → 10 ≤ n
      → n < 2 ^ 31
      → (simple new_chars capacity within n ≡ passed)
        ⊎ ((simple new_chars capacity within n ≡ usage_above) × Exceeds within)
  unfolding simple
  simple_lem n tenth fits = elim (rounds_lem n n 0 start tenth (omega arith) fits start-IsRunning) [
    | inr (e, x) ↦ inr (rw (simple, e) refl, x)
    | inl (st, e, running) ↦
        inl (rw (simple, e, matches_all_filled 0 st.allocated st.memory running.filled) refl)
  ]
