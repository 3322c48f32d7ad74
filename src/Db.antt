-- ===== src/Db.antt =====
-- src/db/db_impl.cpp: `DB::Put`; include/leveldb/db.h: `Range`; include/leveldb/write_batch.h: what
-- `WriteBatch` has with a body; src/db/write_batch_interal.h: `Contents` and `ByteSize`.
-- The other methods of a batch and of a database have no body and are arguments.
use rockscopy.Base.{ℕ, Bytes, length}
use rockscopy.Slice.{Slice, empty_slice}
use rockscopy.Options.{WriteOptions}

-- A range of keys, from `start` to before `limit`: `Range(s, l)`, and `Range()` with empty slices.
pub record Range : Type 0 where
  pub start : Slice
  pub limit : Slice

pub range_of : Slice → Slice → Range
range_of s l = record { start = s; limit = l }

pub empty_range : Range
empty_range = record { start = empty_slice; limit = empty_slice }

pub record WriteBatch : Type 0 where
  pub rep_ : Bytes

-- `WriteBatch(std::string rep)`, `Data`, and `Contents` and `ByteSize` of `WriteBatchInternal`.
pub of_rep : Bytes → WriteBatch
of_rep rep = record { rep_ = rep }

pub data_of : WriteBatch → Bytes
data_of batch = batch.rep_

pub contents : WriteBatch → Slice
contents batch = batch.rep_

pub byte_size : WriteBatch → ℕ
byte_size batch = length batch.rep_

-- `DB::Put`: `new_batch` is `WriteBatch()`, `batch_put` is `WriteBatch::Put` and `write` is the
-- virtual `Write` of a database with the states `D`, with a status of type `R`.
module _ {D R : Type 0} (new_batch : WriteBatch)
    (batch_put : Slice → Slice → WriteBatch → WriteBatch)
    (write : WriteOptions → WriteBatch → D → R × D) where
  pub put : WriteOptions → Slice → Slice → D → R × D
  put opt key value db = let batch = batch_put key value new_batch in write opt batch db
