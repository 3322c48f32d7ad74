-- ===== src/Statistics/Laws.antt =====
-- Every ticker and histogram stands in its name map in the place of its value; what `RecordTick` and
-- any sequence of ticks do.
use Prim.Native.String.{String}
use rockscopy.Base.{ℕ, ◌+◌, ◌-◌, ◌^◌, ◌%◌, ◌<◌, ◌≡◌, refl, arith, length, get_elem?}
use rockscopy.Base.{List, [], ◌∷◌, none, some, IsU32, All, if◌then◌else◌, ltb}
use rockscopy.Statistics.{
  Tickers, ticker_value, ticker_enum_max, tickers_name_map, Histograms, histogram_value,
}
use rockscopy.Statistics.{
  histogram_enum_max, histograms_name_map, Ticker, make_ticker, tick, tick_by,
}
use rockscopy.Statistics.{int_to_u64, get_count, record_tick}

-- The entry at the place of a value is that of the enumerator, and the value is below the bound.
abbrev pub Named : {A : Type 0} → List (A × String) → ℕ → A → ℕ → Type 0
Named names bound a value =
    (value < bound)
    × (bound ≡ length names)
    × ((name : String) × (get_elem? names value ≡ some (a, name)))

-- The name map of the tickers has an entry for each ticker at the place of its value, which is
-- below `TICKER_ENUM_MAX`, and as many entries as that.
pub tickers-Named : (t : Tickers) → Named tickers_name_map ticker_enum_max t (ticker_value t)
unfolding tickers_name_map ticker_value
tickers-Named Tickers.block_cache_miss = (omega arith, refl, (_, refl))
tickers-Named Tickers.block_cache_hit = (omega arith, refl, (_, refl))
tickers-Named Tickers.bloom_filter_useful = (omega arith, refl, (_, refl))
tickers-Named Tickers.compaction_key_drop_newer_entry = (omega arith, refl, (_, refl))
tickers-Named Tickers.compaction_key_drop_obsolete = (omega arith, refl, (_, refl))
tickers-Named Tickers.compaction_key_drop_user = (omega arith, refl, (_, refl))
tickers-Named Tickers.number_keys_written = (omega arith, refl, (_, refl))
tickers-Named Tickers.number_keys_read = (omega arith, refl, (_, refl))
tickers-Named Tickers.bytes_written = (omega arith, refl, (_, refl))
tickers-Named Tickers.bytes_read = (omega arith, refl, (_, refl))
tickers-Named Tickers.no_file_closes = (omega arith, refl, (_, refl))
tickers-Named Tickers.no_file_opens = (omega arith, refl, (_, refl))
tickers-Named Tickers.no_file_errors = (omega arith, refl, (_, refl))
tickers-Named Tickers.stall_l0_slowdown_micros = (omega arith, refl, (_, refl))
tickers-Named Tickers.stall_memtable_compaction_micros = (omega arith, refl, (_, refl))
tickers-Named Tickers.stall_l0_num_files_micros = (omega arith, refl, (_, refl))
tickers-Named Tickers.rate_limit_delay_millis = (omega arith, refl, (_, refl))
tickers-Named Tickers.no_iterators = (omega arith, refl, (_, refl))
tickers-Named Tickers.number_multiget_calls = (omega arith, refl, (_, refl))
tickers-Named Tickers.number_multiget_keys_read = (omega arith, refl, (_, refl))
tickers-Named Tickers.number_multiget_bytes_read = (omega arith, refl, (_, refl))

-- The name map of the histograms has an entry for each histogram at the place of its value, which
-- is below `HISTOGRAM_ENUM_MAX`, and as many entries as that.
pub histograms-Named :
    (h : Histograms) → Named histograms_name_map histogram_enum_max h (histogram_value h)
unfolding histograms_name_map histogram_value
histograms-Named Histograms.db_get = (omega arith, refl, (_, refl))
histograms-Named Histograms.db_write = (omega arith, refl, (_, refl))
histograms-Named Histograms.compaction_time = (omega arith, refl, (_, refl))
histograms-Named Histograms.table_sync_micros = (omega arith, refl, (_, refl))
histograms-Named Histograms.compaction_outfile_sync_micros = (omega arith, refl, (_, refl))
histograms-Named Histograms.wal_file_sync_micros = (omega arith, refl, (_, refl))
histograms-Named Histograms.manifest_file_sync_micros = (omega arith, refl, (_, refl))
histograms-Named Histograms.table_open_io_micros = (omega arith, refl, (_, refl))
histograms-Named Histograms.db_multiget = (omega arith, refl, (_, refl))
histograms-Named Histograms.read_block_compaction_micros = (omega arith, refl, (_, refl))
histograms-Named Histograms.read_block_get_micros = (omega arith, refl, (_, refl))
histograms-Named Histograms.write_raw_block_micros = (omega arith, refl, (_, refl))

-- The assertions of `RecordTick` hold. It does nothing without statistics, and otherwise hands the
-- ticker and the count to `recordTick` of the statistics, once.
pub record_tick_lem :
    {S : Type 0} (record_tick_ : Tickers → ℕ → S → S) (t : Tickers) (count : ℕ)
    → (record_tick record_tick_ none t count ≡ some none)
      × ((s : S) → record_tick record_tick_ (some s) t count ≡ some (some (record_tick_ t count s)))
unfolding record_tick
record_tick_lem record_tick_ t count = (refl, λ s. refl)

-- A call of `recordTick()` or of `recordTick(int)`.
pub data Tick : Type 0 where
  one : Tick
  by : ℕ → Tick

pub apply : Tick → Ticker → Ticker
apply one ticker = tick ticker
apply (by count) ticker = tick_by count ticker

pub apply_all : List Tick → Ticker → Ticker
apply_all [] ticker = ticker
apply_all (t ∷ ticks) ticker = apply_all ticks (apply t ticker)

-- The part of a count above zero, and the part below.
abbrev pub gained : List Tick → ℕ
gained [] = 0
gained (one ∷ ticks) = 1 + gained ticks
gained (by count ∷ ticks) = (if ltb count (2 ^ 31) then count else 0) + gained ticks

abbrev pub lost : List Tick → ℕ
lost [] = 0
lost (one ∷ ticks) = lost ticks
lost (by count ∷ ticks) = (if ltb count (2 ^ 31) then 0 else 2 ^ 32 - count) + lost ticks

abbrev pub IsCount : Tick → Type 0
IsCount one = Unit {0}
IsCount (by count) = IsU32 count

counted :
    (ticks : List Tick) (ticker : Ticker)
    → All IsCount ticks
    → (get_count (apply_all ticks ticker) + lost ticks) % 2 ^ 64
      ≡ (get_count ticker + gained ticks) % 2 ^ 64
unfolding apply_all apply tick tick_by int_to_u64 get_count
counted [] ticker h = refl
counted (one ∷ ticks) ticker (h, hs) = omega (arith, counted ticks (tick ticker) hs)
counted (by count ∷ ticks) ticker (h, hs) = ground (arith, counted ticks (tick_by count ticker) hs)

-- A new ticker counts, up to multiples of 2^64: after any ticks, by positive or by negative numbers,
-- its count and what the negative ones took are together what the others added.
pub ticks_counted :
    (ticks : List Tick)
    → All IsCount ticks
    → (get_count (apply_all ticks make_ticker) + lost ticks) % 2 ^ 64 ≡ gained ticks % 2 ^ 64
unfolding make_ticker get_count
ticks_counted ticks h = omega (arith, counted ticks make_ticker h)
