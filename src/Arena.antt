-- ===== src/Arena.antt =====
-- src/util/arena.h, src/util/arena.cpp: `Arena`. A pointer is the number of its address, and
-- `nullptr` is 0. Pointers have 8 bytes.
-- `operator new[]` and the capacity of a `std::vector` are arguments: the address of a block of so
-- many bytes beside the blocks that there are, and the slots that a vector of so many has.
mod Tests
pub mod Regions
pub mod Invariant
pub mod Allocation
pub mod Trace
pub mod Growth
pub mod Bump
use rockscopy.Base.{ℕ, zero, suc, ◌+◌, ◌-◌, ◌*◌, ◌/◌, ◌%◌, ◌^◌, u64, bit_and, Bool, true, false}
use rockscopy.Base.{ltb, leb, ◌==◌, if◌then◌else◌, List, [], ◌∷◌, ◌++◌, Option, none, some, length}
use rockscopy.Base.{get_elem?}

-- Bytes from an address on. The vector has only the address of a block; the model keeps the size
-- that the block was allocated with beside it.
pub record Region : Type 0 where
  pub start : ℕ
  pub bytes : ℕ

pub record Arena : Type 0 where
  pub alloc_ptr_ : ℕ
  pub alloc_bytes_remaining_ : ℕ
  pub blocks_ : List Region
  pub blocks_memory_ : ℕ

abbrev pub block_size : ℕ
block_size = 4096

abbrev pub pointer_size : ℕ
pointer_size = 8

abbrev pub align : ℕ
align = if ltb 8 pointer_size then pointer_size else 8

-- `Arena()`.
unfoldable pub make : Arena
make = record { alloc_ptr_ = 0; alloc_bytes_remaining_ = 0; blocks_ = []; blocks_memory_ = 0 }

-- `~Arena`: the addresses that are handed to `delete[]`, in order; `left` rounds from index `i` on.
-- `none` would be an index past the end.
destroy_loop : List Region → ℕ → ℕ → Option (List ℕ)
destroy_loop blocks zero i = some []
destroy_loop blocks (suc left) i = elim (get_elem? blocks i) [
  | none ↦ none
  | some block ↦ elim (destroy_loop blocks left (i + 1)) [
    | none ↦ none
    | some later ↦ some (block.start ∷ later)
  ]
]

pub destroy : Arena → Option (List ℕ)
destroy a = destroy_loop a.blocks_ (length a.blocks_) 0

unfoldable pub memory_usage : (ℕ → ℕ) → Arena → ℕ
memory_usage capacity a = u64 (a.blocks_memory_ + u64 (capacity (length a.blocks_) * pointer_size))

module _ (new_chars : List Region → ℕ → ℕ) where
  unfoldable pub allocate_new_block : ℕ → Arena → ℕ × Arena
  allocate_new_block bytes a =
      let result = new_chars a.blocks_ bytes in
      (
        result,
        record a {
          blocks_memory_ = u64 (a.blocks_memory_ + bytes);
          blocks_ = a.blocks_ ++ (record { start = result; bytes = bytes } ∷ []);
        },
      )

  unfoldable pub allocate_fallback : ℕ → Arena → ℕ × Arena
  unfolding allocate_new_block
  allocate_fallback bytes a =
      if ltb (block_size / 4) bytes
      then allocate_new_block bytes a
      else let (result, a') = allocate_new_block block_size a in
        (
          result,
          record a' { alloc_ptr_ = result + bytes; alloc_bytes_remaining_ = block_size - bytes },
        )

  -- `none` is a failed assertion, here and below.
  unfoldable pub allocate : ℕ → Arena → Option (ℕ × Arena)
  allocate bytes a =
      if bytes == 0
      then none
      else if leb bytes a.alloc_bytes_remaining_
      then some (
        a.alloc_ptr_,
        record a {
          alloc_ptr_ = a.alloc_ptr_ + bytes;
          alloc_bytes_remaining_ = a.alloc_bytes_remaining_ - bytes;
        },
      )
      else some (allocate_fallback bytes a)

  -- `current_mod` and `slop` of `AllocateAligned`.
  unfoldable pub slop : Arena → ℕ
  slop a =
      let current_mod = bit_and a.alloc_ptr_ (align - 1) in
      if current_mod == 0 then 0 else align - current_mod

  unfoldable pub check_aligned : ℕ × Arena → Option (ℕ × Arena)
  check_aligned (result, a) = if bit_and result (align - 1) == 0 then some (result, a) else none

  unfoldable pub allocate_aligned : ℕ → Arena → Option (ℕ × Arena)
  allocate_aligned bytes a =
      let needed = u64 (bytes + slop a) in
      check_aligned (
        if leb needed a.alloc_bytes_remaining_
        then (
          a.alloc_ptr_ + slop a,
          record a {
            alloc_ptr_ = a.alloc_ptr_ + needed;
            alloc_bytes_remaining_ = a.alloc_bytes_remaining_ - needed;
          },
        )
        else allocate_fallback bytes a)
