-- ===== src/Options.antt =====
-- include/leveldb/options.h: the settings, and the values that they have in the header:
-- `CompressionType`, `CompressionOptions`, `Options`, `ReadOptions`, `WriteOptions` and `FlushOptions`.
use rockscopy.Base.{ℕ, ◌-◌, ◌^◌, Bool, true, false, Option, none, List, Bytes}

pub data CompressionType : Type 0 where
  no_compression : CompressionType
  snappy_compression : CompressionType
  zlib_compression : CompressionType
  bzip2_compression : CompressionType

-- The value of a constant in the file format.
pub compression_value : CompressionType → ℕ
compression_value no_compression = 0
compression_value snappy_compression = 1
compression_value zlib_compression = 2
compression_value bzip2_compression = 3

-- An `int` is given by its 32 bits.
pub record CompressionOptions : Type 0 where
  pub window_bits : ℕ
  pub level : ℕ
  pub strategy : ℕ

-- `CompressionOptions()`: -14, -1 and 0.
abbrev pub compression_options : CompressionOptions
compression_options = record { window_bits = 2 ^ 32 - 14; level = 2 ^ 32 - 1; strategy = 0 }

pub compression_options_of : ℕ → ℕ → ℕ → CompressionOptions
compression_options_of wbits lev strategy = record {
  window_bits = wbits;
  level = lev;
  strategy = strategy;
}

-- The hint on how a compaction reads its files.
pub data AccessHint : Type 0 where
  none_ : AccessHint
  normal : AccessHint
  sequential : AccessHint
  willneed : AccessHint

-- `Options`, whose constructor has no body here. A pointer is an address or none for `nullptr`, and
-- the type of a `double` is an argument.
pub record Options (Real : Type 0) : Type 0 where
  pub comparator : Option ℕ
  pub merge_operator : Option ℕ
  pub compaction_filter : Option ℕ
  pub create_if_missing : Bool
  pub error_if_exists : Bool
  pub paranoid_checks : Bool
  pub env : Option ℕ
  pub info_log : Option ℕ
  pub write_buffer_size : ℕ
  pub max_write_buffer_number : ℕ
  pub min_write_buffer_number_to_merge : ℕ
  pub max_open_files : ℕ
  pub block_cache : Option ℕ
  pub block_size : ℕ
  pub block_restart_interval : ℕ
  pub compression : CompressionType
  pub compression_per_level : List CompressionType
  pub compression_opts : CompressionOptions
  pub filter_policy : Option ℕ
  pub num_levels : ℕ
  pub level0_file_num_compaction_trigger : ℕ
  pub level0_slowdown_writes_trigger : ℕ
  pub level0_stop_writes_trigger : ℕ
  pub max_mem_compaction_level : ℕ
  pub target_file_size_base : ℕ
  pub target_file_size_multiplier : ℕ
  pub max_bytes_for_level_base : ℕ
  pub max_bytes_for_level_multiplier : ℕ
  pub max_bytes_for_level_multiplier_additional : List ℕ
  pub expanded_compaction_factor : ℕ
  pub source_compaction_factor : ℕ
  pub max_grandparent_overlap_factor : ℕ
  pub statistics : Option ℕ
  pub disable_data_sync : Bool
  pub use_fsync : Bool
  pub db_stats_log_interval : ℕ
  pub db_log_dir : Bytes
  pub disable_seek_compaction : Bool
  pub delete_obsolete_files_period_micros : ℕ
  pub max_background_compactions : ℕ
  pub max_log_file_size : ℕ
  pub log_file_time_to_roll : ℕ
  pub keep_log_file_num : ℕ
  pub rate_limit : Real
  pub rate_limit_delay_milliseconds : ℕ
  pub max_manifest_file_size : ℕ
  pub no_block_cache : Bool
  pub table_cache_numshardbits : ℕ
  pub disable_auto_compactions : Bool
  pub wal_ttl_seconds : ℕ
  pub manifest_preallocation_size : ℕ
  pub purge_redundant_kvs_while_flush : Bool
  pub allow_os_buffer : Bool
  pub allow_readahead : Bool
  pub allow_readahead_compactions : Bool
  pub allow_mmap_reads : Bool
  pub allow_mmap_writes : Bool
  pub is_fd_close_on_exec : Bool
  pub skip_log_error_on_recovery : Bool
  pub stats_dump_period_sec : ℕ
  pub block_size_deviation : ℕ
  pub advise_random_on_open : Bool
  pub access_hint_on_compaction_start : AccessHint
  pub use_adaptive_mutex : Bool
  pub bytes_per_sync : ℕ

-- `snapshot` is the address of a snapshot, or none for `nullptr`.
pub record ReadOptions : Type 0 where
  pub verify_checksums : Bool
  pub fill_cache : Bool
  pub snapshot : Option ℕ

abbrev pub read_options : ReadOptions
read_options = record { verify_checksums = false; fill_cache = true; snapshot = none }

pub read_options_of : Bool → Bool → ReadOptions
read_options_of cksum cache = record {
  verify_checksums = cksum;
  fill_cache = cache;
  snapshot = none;
}

pub record WriteOptions : Type 0 where
  pub sync : Bool
  pub disable_wal : Bool

abbrev pub write_options : WriteOptions
write_options = record { sync = false; disable_wal = false }

pub record FlushOptions : Type 0 where
  pub wait : Bool

abbrev pub flush_options : FlushOptions
flush_options = record { wait = true }
