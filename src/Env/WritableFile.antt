-- ===== src/Env/WritableFile.antt =====
-- include/leveldb/env.h: `WritableFile`, the state that its base class keeps and the methods that
-- have a body. `Allocate` and `RangeSync` are virtual: a call of `Allocate` is a value that
-- `prepare_write` hands to whatever implements it.
mod Tests
pub mod Laws
pub mod Sequence
use rockscopy.Base.{ℕ, ◌+◌, ◌-◌, ◌*◌, ◌/◌, ◌%◌, ◌^◌, u64, Bool, ltb, ◌==◌, if◌then◌else◌}
use rockscopy.Base.{Option, none, some}

pub record WritableFile : Type 0 where
  pub last_preallocated_block_ : ℕ
  pub preallocation_block_size_ : ℕ

-- A signed number, as in the library's ℤ: `negsuc n` is `- n - 1`.
pub data ℤ : Type 0 where
  pos : ℕ → ℤ
  negsuc : ℕ → ℤ

-- The conversion of a `size_t` to an `off_t`, which is signed.
unfoldable pub off_t : ℕ → ℤ
off_t n = if ltb n (2 ^ 63) then pos n else negsuc (2 ^ 64 - 1 - n)

-- The arguments of a call of `Allocate`.
pub record Extent : Type 0 where
  pub offset : ℤ
  pub len : ℤ

pub make : WritableFile
make = record { last_preallocated_block_ = 0; preallocation_block_size_ = 0 }

pub set_preallocation_block_size : ℕ → WritableFile → WritableFile
set_preallocation_block_size size file = record file { preallocation_block_size_ = size }

-- `*block_size` and `*last_allocated_block`.
pub get_preallocation_status : WritableFile → ℕ × ℕ
get_preallocation_status file = (file.preallocation_block_size_, file.last_preallocated_block_)

-- `new_last_preallocated_block`.
unfoldable pub last_block_for : ℕ → ℕ → ℕ → ℕ
last_block_for block_size offset len =
    u64 (u64 (u64 (offset + len) + block_size) + 2 ^ 64 - 1) / block_size

pub prepare_write : ℕ → ℕ → WritableFile → Option Extent × WritableFile
prepare_write offset len file =
    if file.preallocation_block_size_ == 0
    then (none, file)
    else let block_size = file.preallocation_block_size_ in
      let last = file.last_preallocated_block_ in
      let new_last = last_block_for block_size offset len in
      let num_spanned_blocks = new_last - last in
      if ltb last new_last
      then (
        some (record {
          offset = off_t (u64 (block_size * last));
          len = off_t (u64 (block_size * num_spanned_blocks));
        }),
        record file { last_preallocated_block_ = new_last },
      )
      else (none, file)
