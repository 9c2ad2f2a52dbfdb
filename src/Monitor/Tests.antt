-- ===== src/Monitor/Tests.antt =====
-- The monitor at concrete messages.
use market_data_disseminatio.Base.Tests.{◌≡◌, ◌<◌, ◌≤◌, ◌^◌, ◌⊎◌, refl, some, [], ◌∷◌, ◌++◌, arith}
use market_data_disseminatio.Base.Lists.{drop}
use market_data_disseminatio.Types.{Trade, trade}
use market_data_disseminatio.Disseminator.{stamp}
use market_data_disseminatio.Monitor.{
  codes, LatencyRecord, LatencyMonitor, on_message, decimal_onto, csv_line, save_to_csv,
}
use market_data_disseminatio.Monitor.Latency.{IsTrue, latencies_of, other_latencies, on_message_lem}
use market_data_disseminatio.Monitor.Csv.{read_lines, save_to_csv_lem}

abbrev one_trade : Trade
one_trade = record {
  symbol = 73 ∷ 66 ∷ 77 ∷ 0 ∷ 0 ∷ 0 ∷ 0 ∷ 0 ∷ [];
  price = 0;
  size = 10;
  enqueue_timestamp = 1000;
  disseminate_timestamp = 0;
}

abbrev one_latency : LatencyRecord
one_latency = record { queue_ns = 250; network_ns = 1050; total_ns = 1300 }

abbrev monitor : LatencyMonitor
monitor = record { quote_latencies = []; trade_latencies = one_latency ∷ [] }

on_message_lem_example :
    (lat : LatencyRecord) × (latencies_of
        (trade one_trade)
        (on_message (stamp 1500 (trade one_trade)) 2500 monitor)
      ≡ one_latency ∷ lat ∷ [])
    × (other_latencies (trade one_trade) (on_message (stamp 1500 (trade one_trade)) 2500 monitor)
        ≡ [])
    × ((1500 < 1000) ⊎ (2500 < 1500) ⊎ (2 ^ 64 ≤ 2500) ⊎ IsTrue 1000 1500 2500 lat)
on_message_lem_example = on_message_lem (trade one_trade) 1500 2500 monitor

csv_of_one : csv_line one_latency [] ≡ codes "250,1050,1300" ++ b'\n' ∷ []
unfolding csv_line decimal_onto
csv_of_one = refl

save_to_csv_lem_example :
    (read_lines 0 (drop 29 (save_to_csv monitor).0) ≡ some [])
    × (read_lines 1 (drop 29 (save_to_csv monitor).1) ≡ some (one_latency ∷ []))
save_to_csv_lem_example =
    save_to_csv_lem monitor tt (
      record { queue_word = omega arith; network_word = omega arith; total_word = omega arith },
      tt,
    )
