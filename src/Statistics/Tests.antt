-- ===== src/Statistics/Tests.antt =====
-- The theorems on statistics at concrete inputs.
use rockscopy.Base.{ℕ, ◌+◌, ◌^◌, ◌%◌, ◌≡◌, arith}
use rockscopy.Base.{List, [], ◌∷◌}
use rockscopy.Statistics.{Tickers}
use rockscopy.Statistics.{get_count, make_ticker}
use rockscopy.Statistics.Laws.{Tick, one, by}
use rockscopy.Statistics.Laws.{apply_all, ticks_counted}

-- Statistics that only keep a sum.
abbrev add_up : Tickers → ℕ → ℕ → ℕ
add_up t count s = s + count

-- 1, then 5, then -2.
abbrev ticks : List Tick
ticks = one ∷ by 5 ∷ by 0xfffffffe ∷ []

ticks_counted_example : (get_count (apply_all ticks make_ticker) + 2) % 2 ^ 64 ≡ 6 % 2 ^ 64
ticks_counted_example = ticks_counted ticks (omega arith)
