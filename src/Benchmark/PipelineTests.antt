-- ===== src/Benchmark/PipelineTests.antt =====
-- run_benchmark_pipeline on hosts that can and cannot make all its threads.
use market_data_disseminatio.Base.Tests.{ℕ, ◌≡◌, ◌≢◌, refl, true, false, none, some, List, [], ◌∷◌}
use mathlib.Core.List.{flatten}
use market_data_disseminatio.Base.Lists.{All}
use market_data_disseminatio.Types.{MarketDataMsg, quote}
use market_data_disseminatio.Symbols.{read_symbols_file, strip, onto_first, get_lines, tickers_from}
use market_data_disseminatio.Queue.{fresh}
use market_data_disseminatio.Generator.{set_rate, load_symbols, after_rate, configure, start, stop}
use market_data_disseminatio.Monitor.{on_message}
use market_data_disseminatio.Benchmark.{
  udp_subscriber, udp_is_subscriber, subscribe_symbols_file, subscribe_lines,
}
use market_data_disseminatio.Benchmark.Threads.{
  throwing, blocked, dangling, generator, disseminator, feedhandler, Host, Process, record_calls,
  call_back, receive, make_monitor, configure_generator, start_generator, stop_generator,
  start_disseminator, stop_disseminator, start_feedhandler, stop_feedhandler, subscribe_all, sleep,
  destroy_monitor,
}
use market_data_disseminatio.Benchmark.Run.{
  Run, beside, perform_at, perform, rethrow, destruct_at, destruct, run_statements, statements,
  run_benchmark_pipeline,
}
use market_data_disseminatio.Benchmark.InOrder.{IsInOrder}
use market_data_disseminatio.Benchmark.Pipeline.{IsIdle, Ended, run_benchmark_pipeline_lem}
use market_data_disseminatio.Benchmark.Tests.{file, least, read_file, generator as unset}

abbrev pub able : Host
able = record { can_start = λ part. true; returns = λ part. true; directory = true }

abbrev call : MarketDataMsg × ℕ
call = (
  quote (record {
    symbol = [];
    bid_price = 0;
    ask_price = 0;
    bid_size = 0;
    ask_size = 0;
    enqueue_timestamp = 1;
    disseminate_timestamp = 3;
  }),
  6,
)

-- A call comes beside the second statement after the feed handler's start.
abbrev pub calls : List (List (MarketDataMsg × ℕ))
calls = [] ∷ (call ∷ []) ∷ []

abbrev idle : Process least udp_subscriber
idle = record {
  generator = unset;
  disseminator = false;
  feedhandler = false;
  subscriptions = fresh;
  sub_count = 0;
  monitor = none;
  csv = none;
  incoming = calls;
}

idle-IsIdle : IsIdle idle
idle-IsIdle = record {
  generator = refl;
  disseminator = refl;
  feedhandler = refl;
  monitor = refl;
  csv = refl;
}

abbrev whole : Run least udp_subscriber
whole = run_benchmark_pipeline able 1000 (some file) idle

run_benchmark_pipeline_lem_example :
    All IsInOrder whole.past
    × Ended udp_is_subscriber able 1000 (some file) (flatten idle.incoming) whole
run_benchmark_pipeline_lem_example =
    run_benchmark_pipeline_lem udp_is_subscriber able 1000 (some file) idle idle-IsIdle tt

pub symbols_some : read_symbols_file (some file) ≢ []
symbols_some e = cc (e, read_file)

-- All calls have come when the pipeline ends.
whole_heard : whole.now.incoming ≡ []
unfolding run_benchmark_pipeline run_statements statements perform perform_at destruct destruct_at
    beside receive call_back record_calls on_message make_monitor configure_generator configure
    set_rate load_symbols after_rate read_symbols_file tickers_from get_lines onto_first strip
    start_feedhandler subscribe_all subscribe_symbols_file subscribe_lines start_disseminator sleep
    start_generator stop_generator stop_disseminator stop_feedhandler start stop destroy_monitor
    rethrow
whole_heard = refl

-- Where the disseminator's thread cannot be made, the monitor is destroyed with the feed handler still
-- running, and the next call uses what was destroyed.
abbrev no_disseminator : Host
no_disseminator = record able {
  can_start = λ part. elim part [ generator ↦ true | disseminator ↦ false | feedhandler ↦ true ];
}

abbrev thrown : Run least udp_subscriber
thrown =
    run_benchmark_pipeline no_disseminator 1000 (some file)
      (record idle { incoming = [] ∷ [] ∷ [] ∷ [] ∷ (call ∷ []) ∷ [] })

thrown_dangling :
    (thrown.status ≡ throwing)
    × (thrown.now.feedhandler ≡ true)
    × (thrown.now.monitor ≡ none)
    × ((beside (stop_feedhandler no_disseminator) thrown.now).0 ≡ dangling)
unfolding run_benchmark_pipeline run_statements statements perform perform_at destruct destruct_at
    beside receive call_back record_calls make_monitor configure_generator configure set_rate
    load_symbols after_rate read_symbols_file tickers_from get_lines onto_first strip
    start_feedhandler subscribe_all subscribe_symbols_file subscribe_lines start_disseminator sleep
    start_generator stop_generator destroy_monitor rethrow
thrown_dangling = (refl, refl, refl, refl)

-- Where the disseminator's loop misses the stop, no file is written.
abbrev deaf : Host
deaf = record able {
  returns = λ part. elim part [ generator ↦ true | disseminator ↦ false | feedhandler ↦ true ];
}

abbrev stays : Run least udp_subscriber
stays = run_benchmark_pipeline deaf 1000 (some file) idle

stays_blocked : (stays.status ≡ blocked) × (stays.now.csv ≡ none)
unfolding run_benchmark_pipeline run_statements statements perform perform_at destruct destruct_at
    beside receive call_back record_calls on_message make_monitor configure_generator configure
    set_rate load_symbols after_rate read_symbols_file tickers_from get_lines onto_first strip
    start_feedhandler subscribe_all subscribe_symbols_file subscribe_lines start_disseminator sleep
    start_generator stop_generator stop_disseminator start stop destroy_monitor rethrow
stays_blocked = (refl, refl)
