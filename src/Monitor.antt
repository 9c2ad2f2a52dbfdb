-- ===== src/Monitor.antt =====
-- src/monitor/LatencyMonitor.h: the latencies of the messages received, and the CSV text that is
-- written for them. Times are `uint64_t` nanoseconds and their differences wrap.
-- Creating the directory, and opening and writing the files, are not modelled: the text is the result.
pub mod Latency
pub mod Csv
pub mod Calls
mod Tests
use Prim.Native.Char.{code}
use Prim.Native.String.{String}
use market_data_disseminatio.Base.Tests.{
  ℕ, zero, suc, ◌+◌, ◌/◌, ◌%◌, List, [], ◌∷◌, ◌++◌, ◌==◌, if◌then◌else◌,
}
use market_data_disseminatio.Base.Words.{sub64}
use market_data_disseminatio.Types.{Quote, Trade, MarketDataMsg, quote, trade}

-- The bytes of an ASCII text.
abbrev pub codes : String → List ℕ
codes String.[] = []
codes (String.◌∷◌ c s) = code c ∷ codes s

pub record LatencyRecord : Type 0 where
  pub queue_ns : ℕ
  pub network_ns : ℕ
  pub total_ns : ℕ

pub record LatencyMonitor : Type 0 where
  pub quote_latencies : List LatencyRecord
  pub trade_latencies : List LatencyRecord

unfoldable pub on_quote : Quote → ℕ → LatencyMonitor → LatencyMonitor
on_quote q receive_timestamp m = record m {
  quote_latencies =
      m.quote_latencies
      ++ record {
        queue_ns = sub64 q.disseminate_timestamp q.enqueue_timestamp;
        network_ns = sub64 receive_timestamp q.disseminate_timestamp;
        total_ns = sub64 receive_timestamp q.enqueue_timestamp;
      }
        ∷ [];
}

unfoldable pub on_trade : Trade → ℕ → LatencyMonitor → LatencyMonitor
on_trade t receive_timestamp m = record m {
  trade_latencies =
      m.trade_latencies
      ++ record {
        queue_ns = sub64 t.disseminate_timestamp t.enqueue_timestamp;
        network_ns = sub64 receive_timestamp t.disseminate_timestamp;
        total_ns = sub64 receive_timestamp t.enqueue_timestamp;
      }
        ∷ [];
}

-- The callbacks that run_benchmark_pipeline sets.
unfoldable pub on_message : MarketDataMsg → ℕ → LatencyMonitor → LatencyMonitor
on_message (quote q) t3 m = on_quote q t3 m
on_message (trade t) t3 m = on_trade t t3 m

-- `ostream << uint64_t` in decimal, in front of what follows: the digits from the last on, at most
-- `fuel` of them.
unfoldable pub decimal_onto : ℕ → ℕ → List ℕ → List ℕ
decimal_onto zero n out = out
decimal_onto (suc fuel) n out =
    let digit = b'0' + n % 10 in
    let more = decimal_onto fuel (n / 10) (digit ∷ out) in if n / 10 == 0 then digit ∷ out else more

-- 20 digits hold every `uint64_t`.
abbrev pub u64_digits : ℕ
u64_digits = 20

-- A line of the file, in front of what follows.
unfoldable pub csv_line : LatencyRecord → List ℕ → List ℕ
csv_line lat out = decimal_onto u64_digits lat.queue_ns (
    b','
    ∷ decimal_onto u64_digits lat.network_ns
        (b',' ∷ decimal_onto u64_digits lat.total_ns (b'\n' ∷ out)))

unfoldable pub csv_lines : List LatencyRecord → List ℕ
csv_lines [] = []
csv_lines (lat ∷ lats) = csv_line lat (csv_lines lats)

-- "queue_ns,network_ns,total_ns\n".
abbrev pub csv_header : List ℕ
csv_header = codes "queue_ns,network_ns,total_ns" ++ b'\n' ∷ []

-- save_to_csv: the texts of quote_latencies.csv and trade_latencies.csv.
unfoldable pub save_to_csv : LatencyMonitor → List ℕ × List ℕ
save_to_csv m =
    (csv_header ++ csv_lines m.quote_latencies, csv_header ++ csv_lines m.trade_latencies)

-- The constructor: no latency yet.
abbrev pub new_monitor : LatencyMonitor
new_monitor = record { quote_latencies = []; trade_latencies = [] }

-- The monitor behind the client's calls, the latest first.
unfoldable pub monitor_calls : List (MarketDataMsg × ℕ) → LatencyMonitor
monitor_calls [] = new_monitor
monitor_calls ((msg, t3) ∷ calls) = on_message msg t3 (monitor_calls calls)
