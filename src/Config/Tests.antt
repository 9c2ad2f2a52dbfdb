-- ===== src/Config/Tests.antt =====
-- The command line at concrete options.
use Prim.Native.String.{String}
use text.Mathlib.Text.{◌==◌ as str_eq}
use text.Mathlib.TextEquality.{eq_iff}
use market_data_disseminatio.Base.Tests.{◌≡◌, ◌≢◌, ◌⊎◌, inr, refl, true, false, some}
use market_data_disseminatio.Queue.Refine.{IsCapacity}
use market_data_disseminatio.Config.{
  BenchmarkConfig, Options, Pipeline, config_of, strategy_of, underlying_of, transport_of,
  dispatch_size, dispatch_types, Ran, returned, ending, exit, uncaught, main, spin, custom,
  udp_multicast,
}
use market_data_disseminatio.Config.Dispatch.{
  IsSize, pipeline_of, dispatch_size-some, main_uncaught,
}
use market_data_disseminatio.Config.Named.{main_lem}

-- The defaults of the options.
abbrev defaults : Options
defaults = record {
  help = false;
  queue = "spin";
  size = 1024;
  transport = "udp";
  rate = 10000;
  duration = 10;
  symbols = "../data/symbols.txt";
  out = "../data";
  underlying = "custom";
}

abbrev default_config : BenchmarkConfig
default_config = record {
  queue_strategy = spin;
  transport = udp_multicast;
  underlying_queue = custom;
  queue_size = 1024;
  message_rate = 10000;
  duration_sec = 10;
  ip_address = "239.192.1.1";
  port = 5555;
  symbols_file = "../data/symbols.txt";
  out_dir = "../data";
}

abbrev returns : Pipeline → BenchmarkConfig → Ran
returns p config = returned

config_of-defaults : config_of defaults ≡ some default_config
unfolding config_of strategy_of underlying_of transport_of
config_of-defaults = refl

dispatch_size-defaults : dispatch_size default_config ≡ some (pipeline_of default_config)
unfolding dispatch_size dispatch_types
dispatch_size-defaults = refl

dispatch_size-some_example :
    IsSize 1024 × (pipeline_of default_config ≡ pipeline_of default_config) × IsCapacity 1024
dispatch_size-some_example = dispatch_size-some default_config dispatch_size-defaults

-- Texts that the Boolean test tells apart.
differ : (a b : String) → str_eq a b ≡ false → a ≢ b
differ a b h e = let t : str_eq a b ≡ true = (eq_iff a b).1 e in cc

abbrev misspelt : Options
misspelt = record defaults { transport = "UDP" }

main_uncaught_example : main returns misspelt ≡ uncaught
main_uncaught_example =
    main_uncaught returns misspelt refl
      (inr (inr (differ "UDP" "udp" refl, differ "UDP" "zmq" refl)))

main_lem_example :
    IsSize 1024
      × (main returns defaults ≡ ending (returns (pipeline_of default_config) default_config))
    ⊎ ¬ IsSize 1024 × (main returns defaults ≡ exit 1)
main_lem_example = main_lem returns spin custom udp_multicast defaults refl refl refl refl
