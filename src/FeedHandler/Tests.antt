-- ===== src/FeedHandler/Tests.antt =====
-- The feed handler at concrete requests and datagrams.
use market_data_disseminatio.Base.Tests.{
  ℕ, zero, suc, ◌<◌, ◌≡◌, refl, true, false, some, List, [], ◌∷◌, ◌++◌, arith,
}
use market_data_disseminatio.Base.Lists.{get_elem?, replicate, All, length-replicate}
use market_data_disseminatio.Symbols.{pack_symbol, IsText}
use market_data_disseminatio.Queue.{fresh}
use market_data_disseminatio.Queue.Refine.{Holds, fresh-Holds}
use market_data_disseminatio.FeedHandler.{
  SubCommand, CommandQueue, command_capacity, contains, subscribe_impl, subscribe, unsubscribe,
  drain, datagram, would_block, Receiver, Round, receive_loop,
}
use market_data_disseminatio.FeedHandler.Commands.{
  command_capacity-IsCapacity, apply_all, drain_lem, subscribe_impl-Holds, subscribe_impl-full,
}
use market_data_disseminatio.FeedHandler.Loop.{listener_of, listen, receive_loop_refines}
use market_data_disseminatio.FeedHandler.Subscribed.{IsRound, wants, requested, receive_loop-wants}

-- "IBM" and "KO".
abbrev ibm : List ℕ
ibm = 73 ∷ 66 ∷ 77 ∷ []

abbrev ko : List ℕ
ko = 75 ∷ 79 ∷ []

ibm-IsText : IsText ibm
ibm-IsText =
    ((omega arith, omega arith), ((omega arith, omega arith), ((omega arith, omega arith), tt)))

ko-IsText : IsText ko
ko-IsText = ((omega arith, omega arith), ((omega arith, omega arith), tt))

-- A trade in IBM: "T:IBM", and 40 bytes.
abbrev trade_datagram : List ℕ
trade_datagram =
    (84 ∷ 58 ∷ []) ++ (ibm ++ (replicate 5 0 ++ (ibm ++ (replicate 5 0 ++ replicate 32 1))))

abbrev rounds : List Round
rounds =
    record {
      stop_requested = false;
      called = (subscribe ibm ∷ subscribe ko ∷ []) ∷ (unsubscribe ko ∷ []) ∷ [];
      received = datagram trade_datagram;
      now = 7;
    }
    ∷ record { stop_requested = true; called = []; received = would_block; now = 8 }
    ∷ []

abbrev receiver : Receiver
receiver = record {
  command_queue = fresh;
  local_subscriptions = [];
  client = record { has_on_quote = true; has_on_trade = true; calls = [] };
}

receive_loop_refines_example :
    (r' : Receiver) × (receive_loop rounds receiver ≡ some r')
    × (listener_of r' ≡ listen rounds (listener_of receiver))
    × Holds command_capacity r'.command_queue []
receive_loop_refines_example =
    receive_loop_refines rounds receiver (fresh-Holds command_capacity-IsCapacity)

rounds-IsRound : All IsRound rounds
rounds-IsRound = (
  record {
    few = omega arith;
    valid = (
      record { short = omega arith; text = ibm-IsText },
      (
        record { short = omega arith; text = ko-IsText },
        (record { short = omega arith; text = ko-IsText }, tt),
      ),
    );
  },
  (record { few = omega arith; valid = tt }, tt),
)

receive_loop-wants_example :
    (r' : Receiver) × (receive_loop rounds receiver ≡ some r')
    × (contains r'.local_subscriptions (pack_symbol ibm)
        ≡ wants (contains [] (pack_symbol ibm)) (requested rounds) ibm)
receive_loop-wants_example =
    receive_loop-wants ibm (omega arith) ibm-IsText rounds receiver
      (fresh-Holds command_capacity-IsCapacity) rounds-IsRound

abbrev for_ibm : SubCommand
for_ibm = record { is_subscribe = true; symbol_id = pack_symbol ibm }

one_command : Holds command_capacity (subscribe_impl ibm fresh) (for_ibm ∷ [])
one_command = subscribe_impl-Holds ibm (fresh-Holds command_capacity-IsCapacity) (omega arith)

drain_lem_example :
    (q' : CommandQueue) × (drain 2 (subscribe_impl ibm fresh) []
      ≡ some (q', apply_all (for_ibm ∷ []) []))
    × Holds command_capacity q' []
drain_lem_example = drain_lem (for_ibm ∷ []) [] 2 one_command (omega arith)

-- 128 commands that wait.
abbrev crowded : CommandQueue
crowded = record { read = 0; write = 128; cells = λ i. some for_ibm }

get_elem?-replicate : (n i : ℕ) (c : SubCommand) → i < n → some c ≡ get_elem? (replicate n c) i
get_elem?-replicate zero i c h = absurd (omega arith)
get_elem?-replicate (suc n) zero c h = refl
get_elem?-replicate (suc n) (suc i) c h = get_elem?-replicate n i c (omega arith)

crowded-Holds : Holds command_capacity crowded (replicate 128 for_ibm)
crowded-Holds = record {
  bounded = omega (arith, length-replicate 128 for_ibm);
  read_word = omega arith;
  write_at = omega (arith, length-replicate 128 for_ibm);
  cell = λ i h. get_elem?-replicate 128 i for_ibm h;
}

subscribe_impl-full_example : subscribe_impl ko crowded ≡ crowded
subscribe_impl-full_example = subscribe_impl-full ko crowded-Holds (length-replicate 128 for_ibm)
