-- ===== src/Arena/Tests.antt =====
-- Concrete runs of the arena, and the theorems at concrete inputs.
use rockscopy.Base.{ℕ, ◌%◌, ◌≤◌, ◌≡◌, refl, arith}
use rockscopy.Base.{List, [], ◌∷◌, some, All}
use rockscopy.Arena.{Region, Arena, make, allocate, allocate_aligned, align, memory_usage}
use rockscopy.Arena.{allocate_fallback, allocate_new_block, slop, check_aligned}
use rockscopy.Arena.Bump.{bump, bump-IsAllocator}
use rockscopy.Arena.Regions.{InSome, AllApart, total}
use rockscopy.Arena.Invariant.{make-IsConsistent}
use rockscopy.Arena.Allocation.{Serves, allocate-Serves, allocate_aligned-Serves}
use rockscopy.Arena.Trace.{Request, plain, aligned, run, serve, run_from_make, memory_usage-le}
use rockscopy.Arena.Trace.{asked_in_all}

abbrev requests : List Request
requests = plain 5 ∷ aligned 16 ∷ plain 5000 ∷ aligned 3000 ∷ plain 7 ∷ []

-- The arena behind two requests: a block of 4096 bytes of which the first 24 are taken.
abbrev small_requests : List Request
small_requests = plain 5 ∷ aligned 16 ∷ []

abbrev small_arena : Arena
small_arena = record {
  alloc_ptr_ = 4120;
  alloc_bytes_remaining_ = 4072;
  blocks_ = record { start = 4096; bytes = 4096 } ∷ [];
  blocks_memory_ = 4096;
}

abbrev small_live : List Region
small_live = record { start = 4104; bytes = 16 } ∷ record { start = 4096; bytes = 5 } ∷ []

small_run : run bump small_requests [] make ≡ some (small_live, small_arena)
unfolding run serve make allocate allocate_aligned allocate_fallback allocate_new_block slop
    check_aligned
small_run = refl

run_from_make_example :
    (out : List Region × Arena) × (run bump requests [] make ≡ some out)
    × (total out.0 ≡ asked_in_all requests)
    × All (InSome out.1.blocks_) out.0
    × AllApart out.0
run_from_make_example = run_from_make bump bump-IsAllocator requests (omega arith)

memory_usage-le_example : 21 ≤ memory_usage (λ n. n) small_arena
memory_usage-le_example =
    memory_usage-le bump bump-IsAllocator (λ n. n) small_requests (small_live, small_arena)
      (omega arith) small_run (omega arith)

allocate-Serves_example :
    (r : ℕ × Arena) × (allocate bump 100 make ≡ some r) × Serves bump bump-IsAllocator 100 [] r
allocate-Serves_example =
    allocate-Serves bump bump-IsAllocator 100 make [] (omega arith) make-IsConsistent

allocate_aligned-Serves_example :
    (r : ℕ × Arena) × (allocate_aligned bump 2000 make ≡ some r)
    × Serves bump bump-IsAllocator 2000 [] r
    × (r.0 % align ≡ 0)
allocate_aligned-Serves_example =
    allocate_aligned-Serves bump bump-IsAllocator 2000 make [] (omega arith) (omega arith)
      make-IsConsistent
