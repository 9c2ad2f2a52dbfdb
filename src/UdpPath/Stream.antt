-- ===== src/UdpPath/Stream.antt =====
-- The feed handler's loop on datagrams of the disseminator, among rounds in which none waits or `recvfrom`
-- fails.
use market_data_disseminatio.Base.Tests.{
  ℕ, suc, ◌≡◌, refl, sym, ap, subst, ◌∙◌, true, false, Option, some, List, map, [], ◌∷◌, arith,
  ◌>>=◌,
}
use market_data_disseminatio.Base.Lists.{All, length}
use market_data_disseminatio.Base.Bytes.{of_bytes}
use market_data_disseminatio.Types.{symbol_of}
use market_data_disseminatio.Disseminator.{stamp, Turn, udp_disseminate}
use market_data_disseminatio.Disseminator.Wire.{IsTurn}
use market_data_disseminatio.Queue.Refine.{Holds}
use market_data_disseminatio.FeedHandler.{
  drain_beside, SubCommand, command_capacity, contains, Received, failed, would_block, datagram,
  Client, deliver_to_client, on_received, Receiver, Round, receive_round, receive_loop,
}
use market_data_disseminatio.FeedHandler.Commands.{apply_all, drain_lem}
use market_data_disseminatio.UdpPath.{udp_delivery}

-- What a round of the receive loop meets while it goes on: a datagram arrives, at a time, or none waits, or
-- `recvfrom` fails.
pub data UdpEvent : Type 0 where
  arrives : List ℕ → ℕ → UdpEvent
  silent failing : UdpEvent

-- The client makes no calls meanwhile and nothing is stopped.
abbrev pub event_round : UdpEvent → Round
event_round (arrives bytes t3) = record {
  stop_requested = false;
  called = [];
  received = datagram bytes;
  now = t3;
}
event_round silent = record { stop_requested = false; called = []; received = would_block; now = 0 }
event_round failing = record { stop_requested = false; called = []; received = failed; now = 0 }

-- The datagrams that arrive, and their times.
abbrev pub datagrams_of : List UdpEvent → List (Option (List ℕ))
datagrams_of [] = []
datagrams_of (arrives bytes t3 ∷ events) = some bytes ∷ datagrams_of events
datagrams_of (_ ∷ events) = datagrams_of events

abbrev pub times_of : List UdpEvent → List ℕ
times_of [] = []
times_of (arrives bytes t3 ∷ events) = t3 ∷ times_of events
times_of (_ ∷ events) = times_of events

pub length-times_of :
    (events : List UdpEvent) → length (times_of events) ≡ length (datagrams_of events)
length-times_of [] = refl
length-times_of (arrives bytes t3 ∷ events) = ap suc (length-times_of events)
length-times_of (silent ∷ events) = length-times_of events
length-times_of (failing ∷ events) = length-times_of events

-- The calls to the client's callbacks, for the messages in order.
abbrev pub deliver_all : List Turn → List ℕ → Client → Client
deliver_all [] times c = c
deliver_all (t ∷ turns) [] c = c
deliver_all (t ∷ turns) (t3 ∷ times) c =
    deliver_all turns times (deliver_to_client t3 (stamp t.now t.msg) c)

-- A message that can be sent, about a symbol that is subscribed to.
pub record IsWanted (subs : List ℕ) (t : Turn) : Type 0 where
  pub turn : IsTurn t
  pub wanted : contains subs (of_bytes (symbol_of t.msg)) ≡ true

-- A round in which a wanted message's datagram arrives.
on_received-arrives :
    (t : Turn) (bytes : List ℕ) (t3 : ℕ) (subs : List ℕ) (c : Client)
    → IsWanted subs t
    → udp_disseminate t ≡ some bytes
    → on_received t3 subs (datagram bytes) c ≡ deliver_to_client t3 (stamp t.now t.msg) c
unfolding on_received
on_received-arrives t bytes t3 subs c v e =
    let (whole, sent, got) = udp_delivery t subs v.turn in
    let same : bytes ≡ whole = cc in rw same (rw (on_received, got, v.wanted) refl)

receive_round_waiting :
    (received : Received) (t3 : ℕ) (cmds : List SubCommand) (r : Receiver)
    → Holds command_capacity r.command_queue cmds
    → (r' : Receiver) × (receive_round
          (record { stop_requested = false; called = []; received = received; now = t3 })
          r
        ≡ some r')
      × Holds command_capacity r'.command_queue []
      × (r'.local_subscriptions ≡ apply_all cmds r.local_subscriptions)
      × (r'.client ≡ on_received t3 (apply_all cmds r.local_subscriptions) received r.client)
unfolding receive_round drain_beside
receive_round_waiting received t3 cmds r h =
    let (q', done, empty) =
      drain_lem cmds r.local_subscriptions (suc command_capacity) h (omega (arith, h.bounded)) in
    (_, rw done refl, empty, refl, refl)

receive_loop-next :
    (received : Received) (t3 : ℕ) (rounds : List Round) (r : Receiver) {r' : Receiver}
    → receive_round
        (record { stop_requested = false; called = []; received = received; now = t3 })
        r
      ≡ some r'
    → receive_loop
        (record { stop_requested = false; called = []; received = received; now = t3 } ∷ rounds)
        r
      ≡ receive_loop rounds r'
unfolding receive_loop
receive_loop-next received t3 rounds r e = ap (λ o. o >>= receive_loop rounds) e

apply_all-nil : (subs : List ℕ) → apply_all [] subs ≡ subs
unfolding apply_all
apply_all-nil subs = refl

receive_loop-nil : (r : Receiver) → receive_loop [] r ≡ some r
unfolding receive_loop
receive_loop-nil r = refl

apply_all-same :
    (cmds : List SubCommand) (r r1 : Receiver)
    → r1.local_subscriptions ≡ apply_all cmds r.local_subscriptions
    → apply_all cmds r.local_subscriptions ≡ apply_all [] r1.local_subscriptions
apply_all-same cmds r r1 subs = sym (apply_all-nil r1.local_subscriptions ∙ subs)

-- A round without a datagram only applies the commands that wait, and makes no call.
quiet_round :
    (received : Received) (events : List UdpEvent) (cmds : List SubCommand) (r : Receiver)
    → ((t3 : ℕ) (subs : List ℕ) (c : Client) → on_received t3 subs received c ≡ c)
    → Holds command_capacity r.command_queue cmds
    → (r1 : Receiver) × (receive_loop
          (record { stop_requested = false; called = []; received = received; now = 0 }
            ∷ map event_round events)
          r
        ≡ receive_loop (map event_round events) r1)
      × Holds command_capacity r1.command_queue []
      × (apply_all cmds r.local_subscriptions ≡ apply_all [] r1.local_subscriptions)
      × (r1.client ≡ r.client)
quiet_round received events cmds r same h =
    let (r1, step, h1, subs, client) = receive_round_waiting received 0 cmds r h in
    (
      r1,
      receive_loop-next received 0 (map event_round events) r step,
      h1,
      apply_all-same cmds r r1 subs,
      client ∙ same 0 _ r.client,
    )

-- Whatever rounds without a datagram come before, between and behind the datagrams, the client's callbacks
-- are called for the message of every datagram that arrives, in order and bit for bit as it was stamped,
-- and for nothing else, if every message is about a symbol that is subscribed to once the commands that
-- wait are applied.
pub udp_stream :
    (turns : List Turn) (events : List UdpEvent) (cmds : List SubCommand) (r : Receiver)
    → Holds command_capacity r.command_queue cmds
    → All (IsWanted (apply_all cmds r.local_subscriptions)) turns
    → map udp_disseminate turns ≡ datagrams_of events
    → (r' : Receiver) × (receive_loop (map event_round events) r ≡ some r')
      × (r'.client ≡ deliver_all turns (times_of events) r.client)
unfolding on_received
udp_stream [] [] cmds r h v e = (r, receive_loop-nil r, refl)
udp_stream (t ∷ turns) [] cmds r h v e = absurd (cc)
udp_stream [] (arrives bytes t3 ∷ events) cmds r h v e = absurd (cc)
udp_stream (t ∷ turns) (arrives bytes t3 ∷ events) cmds r h v e =
    let (r1, step, h1, subs, client) = receive_round_waiting (datagram bytes) t3 cmds r h in
    let (r2, run, delivered) =
      udp_stream turns events [] r1 h1
        (subst (λ s. All (IsWanted s) turns) (apply_all-same cmds r r1 subs) v.1) (cc) in
    (
      r2,
      receive_loop-next (datagram bytes) t3 (map event_round events) r step ∙ run,
      delivered
          ∙ ap (deliver_all turns (times_of events))
              (client ∙ on_received-arrives t bytes t3 _ r.client v.0 (cc)),
    )
udp_stream turns (silent ∷ events) cmds r h v e =
    let (r1, step, h1, subs, client) =
      quiet_round would_block events cmds r (λ t3 subs c. refl) h in
    let (r2, run, delivered) =
      udp_stream turns events [] r1 h1 (subst (λ s. All (IsWanted s) turns) subs v) e in
    (r2, step ∙ run, delivered ∙ ap (deliver_all turns (times_of events)) client)
udp_stream turns (failing ∷ events) cmds r h v e =
    let (r1, step, h1, subs, client) = quiet_round failed events cmds r (λ t3 subs c. refl) h in
    let (r2, run, delivered) =
      udp_stream turns events [] r1 h1 (subst (λ s. All (IsWanted s) turns) subs v) e in
    (r2, step ∙ run, delivered ∙ ap (deliver_all turns (times_of events)) client)
