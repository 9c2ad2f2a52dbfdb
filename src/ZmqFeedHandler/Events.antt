-- ===== src/ZmqFeedHandler/Events.antt =====
-- What the rounds of ZmqFeedHandler's receive loop meet while it goes on: messages of two parts, and
-- between them timeouts, errors and parts without their second.
use market_data_disseminatio.Base.Tests.{
  ℕ, ◌≡◌, refl, ap, ◌∙◌, Bool, true, false, List, [], ◌∷◌, map, if◌then◌else◌,
}
use market_data_disseminatio.Base.Lists.{All}
use market_data_disseminatio.Disseminator.{stamp, Turn}
use market_data_disseminatio.Disseminator.Wire.{IsTurn}
use market_data_disseminatio.FeedHandler.{Client, deliver_to_client}
use market_data_disseminatio.ZmqFeedHandler.{
  timed_out, thrown, part, ZmqRound, on_second, on_first, zmq_receive_loop,
}
use market_data_disseminatio.ZmqFeedHandler.Delivery.{round_of, deliver_all, on_first-round_of}

-- `arrives` is a message with the time; `silent` a timeout; `failing` an error that does not end the loop;
-- the others are a first part without a second, or whose second times out or fails.
pub data ZmqEvent : Type 0 where
  arrives : Turn → ℕ → ZmqEvent
  silent failing : ZmqEvent
  incomplete half_silent half_failing : List ℕ → ZmqEvent

abbrev pub event_round : ZmqEvent → ZmqRound
event_round (arrives t t3) = round_of (t, t3)
event_round silent = record {
  stop_requested = false;
  first = timed_out;
  more = false;
  second = timed_out;
  now = 0;
}
event_round failing = record {
  stop_requested = false;
  first = thrown false;
  more = false;
  second = timed_out;
  now = 0;
}
event_round (incomplete topic_msg) = record {
  stop_requested = false;
  first = part topic_msg;
  more = false;
  second = timed_out;
  now = 0;
}
event_round (half_silent topic_msg) = record {
  stop_requested = false;
  first = part topic_msg;
  more = true;
  second = timed_out;
  now = 0;
}
event_round (half_failing topic_msg) = record {
  stop_requested = false;
  first = part topic_msg;
  more = true;
  second = thrown false;
  now = 0;
}

-- The messages that arrive whole, in order, with their times.
abbrev pub messages_of : List ZmqEvent → List (Turn × ℕ)
messages_of [] = []
messages_of (arrives t t3 ∷ events) = (t, t3) ∷ messages_of events
messages_of (_ ∷ events) = messages_of events

-- Only the messages that arrive whole reach the client, in order and bit for bit as stamped.
pub zmq_events :
    (events : List ZmqEvent) (c : Client)
    → All (λ p. IsTurn p.0) (messages_of events)
    → zmq_receive_loop (map event_round events) c ≡ deliver_all (messages_of events) c
unfolding zmq_receive_loop on_first on_second
zmq_events [] c v = refl
zmq_events (arrives t t3 ∷ events) c v =
    ap
      (λ (after : Bool × Client).
        let rest = zmq_receive_loop (map event_round events) after.1 in
        if after.0 then rest else after.1)
      (on_first-round_of t t3 c v.0)
    ∙ zmq_events events (deliver_to_client t3 (stamp t.now t.msg) c) v.1
zmq_events (silent ∷ events) c v = zmq_events events c v
zmq_events (failing ∷ events) c v = zmq_events events c v
zmq_events (incomplete m ∷ events) c v = zmq_events events c v
zmq_events (half_silent m ∷ events) c v = zmq_events events c v
zmq_events (half_failing m ∷ events) c v = zmq_events events c v
