-- ===== src/Statistics.antt =====
-- include/leveldb/statistics.h: the tickers and histograms with their name maps, the counter `Ticker`,
-- and `RecordTick`. `Statistics` is an interface: its `recordTick` is an argument.
mod Tests
pub mod Laws
use Prim.Native.String.{String}
use rockscopy.Base.{ℕ, ◌+◌, ◌-◌, ◌^◌, u64, Bool, ltb, ◌==◌, ◌&&◌, if◌then◌else◌, length}
use rockscopy.Base.{List, [], ◌∷◌, Option, none, some}

pub data Tickers : Type 0 where
  block_cache_miss : Tickers
  block_cache_hit : Tickers
  bloom_filter_useful : Tickers
  compaction_key_drop_newer_entry : Tickers
  compaction_key_drop_obsolete : Tickers
  compaction_key_drop_user : Tickers
  number_keys_written : Tickers
  number_keys_read : Tickers
  bytes_written : Tickers
  bytes_read : Tickers
  no_file_closes : Tickers
  no_file_opens : Tickers
  no_file_errors : Tickers
  stall_l0_slowdown_micros : Tickers
  stall_memtable_compaction_micros : Tickers
  stall_l0_num_files_micros : Tickers
  rate_limit_delay_millis : Tickers
  no_iterators : Tickers
  number_multiget_calls : Tickers
  number_multiget_keys_read : Tickers
  number_multiget_bytes_read : Tickers

unfoldable pub ticker_value : Tickers → ℕ
ticker_value block_cache_miss = 0
ticker_value block_cache_hit = 1
ticker_value bloom_filter_useful = 2
ticker_value compaction_key_drop_newer_entry = 3
ticker_value compaction_key_drop_obsolete = 4
ticker_value compaction_key_drop_user = 5
ticker_value number_keys_written = 6
ticker_value number_keys_read = 7
ticker_value bytes_written = 8
ticker_value bytes_read = 9
ticker_value no_file_closes = 10
ticker_value no_file_opens = 11
ticker_value no_file_errors = 12
ticker_value stall_l0_slowdown_micros = 13
ticker_value stall_memtable_compaction_micros = 14
ticker_value stall_l0_num_files_micros = 15
ticker_value rate_limit_delay_millis = 16
ticker_value no_iterators = 17
ticker_value number_multiget_calls = 18
ticker_value number_multiget_keys_read = 19
ticker_value number_multiget_bytes_read = 20

abbrev pub ticker_enum_max : ℕ
ticker_enum_max = 21

unfoldable pub tickers_name_map : List (Tickers × String)
tickers_name_map =
    (block_cache_miss, "rocksdb.block.cache.miss")
    ∷ (block_cache_hit, "rocksdb.block.cache.hit")
    ∷ (bloom_filter_useful, "rocksdb.bloom.filter.useful")
    ∷ (compaction_key_drop_newer_entry, "rocksdb.compaction.key.drop.new")
    ∷ (compaction_key_drop_obsolete, "rocksdb.compaction.key.drop.obsolete")
    ∷ (compaction_key_drop_user, "rocksdb.compaction.key.drop.user")
    ∷ (number_keys_written, "rocksdb.number.keys.written")
    ∷ (number_keys_read, "rocksdb.number.keys.read")
    ∷ (bytes_written, "rocksdb.bytes.written")
    ∷ (bytes_read, "rocksdb.bytes.read")
    ∷ (no_file_closes, "rocksdb.no.file.closes")
    ∷ (no_file_opens, "rocksdb.no.file.opens")
    ∷ (no_file_errors, "rocksdb.no.file.errors")
    ∷ (stall_l0_slowdown_micros, "rocksdb.l0.slowdown.micros")
    ∷ (stall_memtable_compaction_micros, "rocksdb.memtable.compaction.micros")
    ∷ (stall_l0_num_files_micros, "rocksdb.l0.num.files.stall.micros")
    ∷ (rate_limit_delay_millis, "rocksdb.rate.limit.dleay.millis")
    ∷ (no_iterators, "rocksdb.num.iterators")
    ∷ (number_multiget_calls, "rocksdb.number.multiget.get")
    ∷ (number_multiget_keys_read, "rocksdb.number.multiget.keys.read")
    ∷ (number_multiget_bytes_read, "rocksdb.number.multiget.bytes.read")
    ∷ []

pub data Histograms : Type 0 where
  db_get : Histograms
  db_write : Histograms
  compaction_time : Histograms
  table_sync_micros : Histograms
  compaction_outfile_sync_micros : Histograms
  wal_file_sync_micros : Histograms
  manifest_file_sync_micros : Histograms
  table_open_io_micros : Histograms
  db_multiget : Histograms
  read_block_compaction_micros : Histograms
  read_block_get_micros : Histograms
  write_raw_block_micros : Histograms

unfoldable pub histogram_value : Histograms → ℕ
histogram_value db_get = 0
histogram_value db_write = 1
histogram_value compaction_time = 2
histogram_value table_sync_micros = 3
histogram_value compaction_outfile_sync_micros = 4
histogram_value wal_file_sync_micros = 5
histogram_value manifest_file_sync_micros = 6
histogram_value table_open_io_micros = 7
histogram_value db_multiget = 8
histogram_value read_block_compaction_micros = 9
histogram_value read_block_get_micros = 10
histogram_value write_raw_block_micros = 11

abbrev pub histogram_enum_max : ℕ
histogram_enum_max = 12

unfoldable pub histograms_name_map : List (Histograms × String)
histograms_name_map =
    (db_get, "rocksdb.db.get.micros")
    ∷ (db_write, "rocksdb.db.write.micros")
    ∷ (compaction_time, "rocksdb.compaction.times.micros")
    ∷ (table_sync_micros, "rocksdb.table.sync.micros")
    ∷ (compaction_outfile_sync_micros, "rocksdb.compaction.outfile.sync.micros")
    ∷ (wal_file_sync_micros, "rocksdb.wal.file.sync.micros")
    ∷ (manifest_file_sync_micros, "rocksdb.manifest.file.sync.micros")
    ∷ (table_open_io_micros, "rocksdb.table.open.io.micros")
    ∷ (db_multiget, "rocksdb.db.multiget.micros")
    ∷ (read_block_compaction_micros, "rocksdb.read.block.compaction.micros")
    ∷ (read_block_get_micros, "rocksdb.read.block.get.micros")
    ∷ (write_raw_block_micros, "rocksdb.write.raw.block.micros")
    ∷ []

pub record Ticker : Type 0 where
  pub count_ : ℕ

pub make_ticker : Ticker
make_ticker = record { count_ = 0 }

pub tick : Ticker → Ticker
tick ticker = record { count_ = u64 (ticker.count_ + 1) }

-- An `int`, given by its 32 bits, as a `uint64_t`.
unfoldable pub int_to_u64 : ℕ → ℕ
int_to_u64 count = if ltb count (2 ^ 31) then count else count + 2 ^ 64 - 2 ^ 32

pub tick_by : ℕ → Ticker → Ticker
tick_by count ticker = record { count_ = u64 (ticker.count_ + int_to_u64 count) }

pub get_count : Ticker → ℕ
get_count ticker = ticker.count_

-- `RecordTick`, on a pointer to the statistics: `none` outside is a failed assertion.
module _ {S : Type 0} (record_tick_ : Tickers → ℕ → S → S) where
  pub record_tick : Option S → Tickers → ℕ → Option (Option S)
  unfolding tickers_name_map histograms_name_map
  record_tick statistics ticker count =
      if length histograms_name_map == histogram_enum_max
        && length tickers_name_map == ticker_enum_max
      then elim statistics [ none ↦ some none | some s ↦ some (some (record_tick_ ticker count s)) ]
      else none
