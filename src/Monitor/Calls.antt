-- ===== src/Monitor/Calls.antt =====
-- The monitor as the client of the feed handler, from its first call to its files.
use market_data_disseminatio.Base.Tests.{ℕ, suc, ◌+◌, ◌≡◌, refl, some, List, [], ◌∷◌, arith}
use market_data_disseminatio.Base.Lists.{length, drop, All, All-append, length-append}
use market_data_disseminatio.Types.{MarketDataMsg, quote, trade}
use market_data_disseminatio.Monitor.{
  LatencyRecord, LatencyMonitor, on_quote, on_trade, on_message, monitor_calls, save_to_csv,
}
use market_data_disseminatio.Monitor.Csv.{read_lines, IsRecord, save_to_csv_lem}

-- Every latency kept is a `uint64_t`.
record IsMonitor (m : LatencyMonitor) : Type 0 where
  quotes : All IsRecord m.quote_latencies
  trades : All IsRecord m.trade_latencies

on_message-IsMonitor :
    (msg : MarketDataMsg) (t3 : ℕ) (m : LatencyMonitor)
    → IsMonitor m
    → IsMonitor (on_message msg t3 m)
unfolding on_message on_quote on_trade
on_message-IsMonitor (quote q) t3 m v = record {
  quotes = All-append IsRecord m.quote_latencies _ v.quotes (
    record { queue_word = omega arith; network_word = omega arith; total_word = omega arith },
    tt,
  );
  trades = v.trades;
}
on_message-IsMonitor (trade t) t3 m v = record {
  quotes = v.quotes;
  trades = All-append IsRecord m.trade_latencies _ v.trades (
    record { queue_word = omega arith; network_word = omega arith; total_word = omega arith },
    tt,
  );
}

-- How many latencies a monitor keeps.
abbrev pub kept : LatencyMonitor → ℕ
kept m = length m.quote_latencies + length m.trade_latencies

kept-on_message :
    (msg : MarketDataMsg) (t3 : ℕ) (m : LatencyMonitor) → kept (on_message msg t3 m) ≡ suc (kept m)
unfolding on_message on_quote on_trade
kept-on_message (quote q) t3 m = omega (arith, length-append {0} m.quote_latencies)
kept-on_message (trade t) t3 m = omega (arith, length-append {0} m.trade_latencies)

monitor_calls-IsMonitor : (calls : List (MarketDataMsg × ℕ)) → IsMonitor (monitor_calls calls)
unfolding monitor_calls
monitor_calls-IsMonitor [] = record { quotes = tt; trades = tt }
monitor_calls-IsMonitor ((msg, t3) ∷ calls) =
    on_message-IsMonitor msg t3 (monitor_calls calls) (monitor_calls-IsMonitor calls)

pub kept-monitor_calls :
    (calls : List (MarketDataMsg × ℕ)) → kept (monitor_calls calls) ≡ length calls
unfolding monitor_calls
kept-monitor_calls [] = refl
kept-monitor_calls ((msg, t3) ∷ calls) =
    omega (arith, kept-on_message msg t3 (monitor_calls calls), kept-monitor_calls calls)

-- Whatever calls the feed handler makes, the two files can be read back, each line as three decimal
-- numbers: together they hold exactly one line for each call, and nothing else behind their headers.
pub save_to_csv-monitor_calls :
    (calls : List (MarketDataMsg × ℕ))
    → (quotes : List LatencyRecord) × (trades : List LatencyRecord) × (read_lines
          (length quotes)
          (drop 29 (save_to_csv (monitor_calls calls)).0)
        ≡ some quotes)
      × (read_lines (length trades) (drop 29 (save_to_csv (monitor_calls calls)).1) ≡ some trades)
      × (length quotes + length trades ≡ length calls)
save_to_csv-monitor_calls calls =
    let m = monitor_calls calls in
    let v = monitor_calls-IsMonitor calls in
    let (read_quotes, read_trades) = save_to_csv_lem m v.quotes v.trades in
    (m.quote_latencies, m.trade_latencies, read_quotes, read_trades, kept-monitor_calls calls)
