-- ===== src/Env/WritableFile/Tests.antt =====
-- Concrete runs of `PrepareWrite`, and the theorems at concrete inputs.
use rockscopy.Base.{◌+◌, ◌≤◌, ◌≡◌, refl, arith, List, [], ◌∷◌, All}
use rockscopy.Env.WritableFile.{
  WritableFile, pos, off_t, make, set_preallocation_block_size, prepare_write, last_block_for,
}
use rockscopy.Env.WritableFile.Laws.{Prepares, reach, prepare_write-Prepares}
use rockscopy.Env.WritableFile.Sequence.{Write, extents, after, Contiguous, writes_preallocated}

abbrev file : WritableFile
file = record { last_preallocated_block_ = 0; preallocation_block_size_ = 100 }

abbrev writes : List Write
writes =
    record { offset = 0; len = 30 }
    ∷ record { offset = 30; len = 20 }
    ∷ record { offset = 50; len = 260 }
    ∷ []

file_made : set_preallocation_block_size 100 make ≡ file
unfolding set_preallocation_block_size make
file_made = refl

extents_run :
    extents writes file
    ≡ record { offset = pos 0; len = pos 100 } ∷ record { offset = pos 100; len = pos 300 } ∷ []
unfolding extents prepare_write last_block_for off_t
extents_run = refl

prepare_write-Prepares_example : Prepares file 50 260 (prepare_write 50 260 file)
prepare_write-Prepares_example =
    prepare_write-Prepares file 50 260 (omega arith) (omega arith) (omega arith)

writes_preallocated_example :
    Contiguous (reach file) (extents writes file) (reach (after writes file))
    × All (λ w. w.offset + w.len ≤ reach (after writes file)) writes
    × (reach file ≤ reach (after writes file))
writes_preallocated_example =
    writes_preallocated writes file (omega arith) (omega arith) (omega arith)
