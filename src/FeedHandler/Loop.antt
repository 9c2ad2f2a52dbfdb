-- ===== src/FeedHandler/Loop.antt =====
-- The receive loop of UdpFeedHandler against a listener that keeps its requests in a list of at most 128, and
-- calls the client only for a datagram's message.
use market_data_disseminatio.Base.Tests.{
  ℕ, none, suc, ◌≡◌, refl, sym, ap, ◌∙◌, Bool, true, false, Option, some, List, [], ◌∷◌, arith,
  if◌then◌else◌, ◌>>=◌, Bool-cases, inl, inr,
}
use market_data_disseminatio.Base.Lists.{take}
use market_data_disseminatio.Types.{MarketDataMsg, quote, trade}
use market_data_disseminatio.Symbols.{pack_symbol}
use market_data_disseminatio.Queue.Refine.{Holds}
use market_data_disseminatio.Queue.{pop, nothing, item}
use market_data_disseminatio.Queue.Fifo.{pop_refines, fifo_push, push_refines}
use market_data_disseminatio.FeedHandler.{
  drain_beside, apply_command, SubCommand, CommandQueue, command_capacity, Received, would_block,
  failed, datagram, receive_buffer_size, handle_datagram, deliver_to_client, subscribe_impl,
  unsubscribe_impl, Request, subscribe, unsubscribe, request, requests, Client, on_received,
  Receiver, Round, receive_round, receive_loop,
}
use market_data_disseminatio.FeedHandler.Commands.{
  command_capacity-IsCapacity, apply_all, drain_lem,
}

abbrev pub command_of : Request → SubCommand
command_of (subscribe symbol) = record { is_subscribe = true; symbol_id = pack_symbol symbol }
command_of (unsubscribe symbol) = record { is_subscribe = false; symbol_id = pack_symbol symbol }

-- The commands that wait after some requests: those beyond the 128th are lost.
unfoldable pub accepted : List SubCommand → List Request → List SubCommand
accepted cmds [] = cmds
accepted cmds (r ∷ rs) = accepted (fifo_push command_capacity cmds (command_of r)).1 rs

-- The commands that a drain applies, with those that wait at first, and the client's requests before each pop:
-- a request that finds 128 commands waiting is lost.
unfoldable pub drained : List SubCommand → List (List Request) → List SubCommand
drained cmds [] = cmds
drained cmds (called ∷ beside) = elim (accepted cmds called) [
  | [] ↦ []
  | cmd ∷ waiting ↦ cmd ∷ drained waiting beside
]

pub record Listener : Type 0 where
  pub subscriptions : List ℕ
  pub client : Client

-- The messages that a call of `recvfrom` brings: at most one, and none without a datagram.
abbrev pub heard : List ℕ → Received → List MarketDataMsg
heard subs would_block = []
heard subs failed = []
heard subs (datagram bytes) = elim (handle_datagram subs (take receive_buffer_size bytes)) [
  | none ↦ []
  | some msg ↦ msg ∷ []
]

abbrev pub has_callback : MarketDataMsg → Client → Bool
has_callback (quote q) c = c.has_on_quote
has_callback (trade t) c = c.has_on_trade

-- A message is a call of the client's, if the callback for its type is set.
abbrev pub tell : ℕ → List MarketDataMsg → Client → Client
tell t3 [] c = c
tell t3 (msg ∷ msgs) c =
    tell t3 msgs (if has_callback msg c then record c { calls = (msg, t3) ∷ c.calls } else c)

deliver_to_client-tell :
    (t3 : ℕ) (msg : MarketDataMsg) (c : Client) → deliver_to_client t3 msg c ≡ tell t3 (msg ∷ []) c
unfolding deliver_to_client
deliver_to_client-tell t3 (quote q) c = refl
deliver_to_client-tell t3 (trade t) c = refl

pub on_received-tell :
    (t3 : ℕ) (subs : List ℕ) (received : Received) (c : Client)
    → on_received t3 subs received c ≡ tell t3 (heard subs received) c
unfolding on_received
on_received-tell t3 subs would_block c = refl
on_received-tell t3 subs failed c = refl
on_received-tell t3 subs (datagram bytes) c =
    told (handle_datagram subs (take receive_buffer_size bytes))
  where
    told :
        (o : Option MarketDataMsg)
        → (elim o [ none ↦ c | some msg ↦ deliver_to_client t3 msg c ])
          ≡ tell t3 (elim o [ none ↦ [] | some msg ↦ msg ∷ [] ]) c
    told none = refl
    told (some msg) = deliver_to_client-tell t3 msg c

unfoldable pub listen_round : Round → Listener → Listener
listen_round round l =
    let subs = apply_all (drained [] round.called) l.subscriptions in
    record { subscriptions = subs; client = tell round.now (heard subs round.received) l.client }

unfoldable pub listen : List Round → Listener → Listener
listen [] l = l
listen (round ∷ rounds) l =
    let rest = listen rounds (listen_round round l) in if round.stop_requested then l else rest

abbrev pub listener_of : Receiver → Listener
listener_of r = record { subscriptions = r.local_subscriptions; client = r.client }

request-Holds :
    (r : Request) {q : CommandQueue} {cmds : List SubCommand}
    → Holds command_capacity q cmds
    → Holds command_capacity (request r q) (fifo_push command_capacity cmds (command_of r)).1
unfolding request subscribe_impl unsubscribe_impl
request-Holds (subscribe symbol) h =
    (push_refines command_capacity-IsCapacity (command_of (subscribe symbol)) h).1
request-Holds (unsubscribe symbol) h =
    (push_refines command_capacity-IsCapacity (command_of (unsubscribe symbol)) h).1

pub requests-Holds :
    (rs : List Request) {q : CommandQueue} {cmds : List SubCommand}
    → Holds command_capacity q cmds
    → Holds command_capacity (requests rs q) (accepted cmds rs)
unfolding requests accepted
requests-Holds [] h = h
requests-Holds (r ∷ rs) h = requests-Holds rs (request-Holds r h)

drain_beside-nothing :
    (called : List Request) (beside : List (List Request)) (q : CommandQueue) (subs : List ℕ)
    → (pop command_capacity (requests called q)).0 ≡ nothing
    → drain_beside (called ∷ beside) q subs
      ≡ some ((pop command_capacity (requests called q)).1, subs)
unfolding drain_beside
drain_beside-nothing called beside q subs e = rw (drain_beside, e) refl

drain_beside-item :
    (called : List Request) (beside : List (List Request)) (q : CommandQueue) (subs : List ℕ)
    (cmd : SubCommand)
    → (pop command_capacity (requests called q)).0 ≡ item cmd
    → drain_beside (called ∷ beside) q subs
      ≡ drain_beside beside (pop command_capacity (requests called q)).1 (apply_command cmd subs)
unfolding drain_beside
drain_beside-item called beside q subs cmd e = rw (drain_beside, e) refl

-- The drain ends, whatever the client requests meanwhile.
pub drain_beside_lem :
    (beside : List (List Request)) (cmds : List SubCommand) (subs : List ℕ) {q : CommandQueue}
    → Holds command_capacity q cmds
    → (q' : CommandQueue) × (drain_beside beside q subs
        ≡ some (q', apply_all (drained cmds beside) subs))
      × Holds command_capacity q' []
unfolding drained drain_beside apply_all
drain_beside_lem [] cmds subs h =
    drain_lem cmds subs (suc command_capacity) h (omega (arith, h.bounded))
drain_beside_lem (called ∷ beside) cmds subs {q} h =
    popped (accepted cmds called) (requests-Holds called h)
      (λ more subs' q1 h1. drain_beside_lem beside more subs' h1)
  where
    popped :
        (waiting : List SubCommand)
        → Holds command_capacity (requests called q) waiting
        → ((more : List SubCommand) (subs' : List ℕ) (q1 : CommandQueue)
            → Holds command_capacity q1 more
            → (q' : CommandQueue) × (drain_beside beside q1 subs'
                ≡ some (q', apply_all (drained more beside) subs'))
              × Holds command_capacity q' [])
        → (q' : CommandQueue) × (drain_beside (called ∷ beside) q subs
            ≡ some (
              q',
              apply_all (elim waiting [ [] ↦ [] | cmd ∷ more ↦ cmd ∷ drained more beside ]) subs,
            ))
          × Holds command_capacity q' []
    popped [] h1 behind =
        let (e, h2) = pop_refines command_capacity-IsCapacity [] h1 in
        (_, drain_beside-nothing called beside q subs e, h2)
    popped (cmd ∷ more) h1 behind =
        let (e, h2) = pop_refines command_capacity-IsCapacity (cmd ∷ more) h1 in
        let (q', done, empty) = behind more (apply_command cmd subs) _ h2 in
        (q', drain_beside-item called beside q subs cmd e ∙ done, empty)

receive_round_lem :
    (round : Round) (r : Receiver)
    → Holds command_capacity r.command_queue []
    → (r' : Receiver) × (receive_round round r ≡ some r')
      × (listener_of r' ≡ listen_round round (listener_of r))
      × Holds command_capacity r'.command_queue []
unfolding receive_round listen_round
receive_round_lem round r h =
    let subs = apply_all (drained [] round.called) r.local_subscriptions in
    let (q', done, empty) = drain_beside_lem round.called [] r.local_subscriptions h in
    (
      record {
        command_queue = q';
        local_subscriptions = subs;
        client = on_received round.now subs round.received r.client;
      },
      rw done refl,
      ap (λ client. let l : Listener = record { subscriptions = subs; client = client } in l)
          (on_received-tell round.now subs round.received r.client),
      empty,
    )

-- With an empty command queue at first, whatever the client requests, between the rounds and while one drains
-- the command queue, and whatever the network delivers, no round of the receive loop gets stuck, and after any
-- number of rounds, up to a stop, its subscriptions and the calls made to the client's callbacks are the
-- listener's: it takes the requests in order, but for those that find 128 waiting, which are dropped; a
-- datagram that the filter lets through is one call, if the callback for its type is set, and any other
-- datagram, and a round without one, leaves the calls made so far. No command is left in the queue.
pub receive_loop_refines :
    (rounds : List Round) (r : Receiver)
    → Holds command_capacity r.command_queue []
    → (r' : Receiver) × (receive_loop rounds r ≡ some r')
      × (listener_of r' ≡ listen rounds (listener_of r))
      × Holds command_capacity r'.command_queue []
unfolding receive_loop listen
receive_loop_refines [] r h = (r, refl, refl, h)
receive_loop_refines (round ∷ rounds) r h = elim (Bool-cases round.stop_requested) [
  | inl e ↦ (r, ap loop_if e, sym (ap listen_if e), h)
  | inr e ↦
      let (r1, step, same, h1) = receive_round_lem round r h in
      let (r2, run, same2, h2) = receive_loop_refines rounds r1 h1 in
      (
        r2,
        ap loop_if e ∙ ap (λ o. o >>= receive_loop rounds) step ∙ run,
        same2 ∙ ap (listen rounds) same ∙ sym (ap listen_if e),
        h2,
      )
]
  where
    loop_if : Bool → Option Receiver
    loop_if b = if b then some r else (receive_round round r >>= receive_loop rounds)

    listen_if : Bool → Listener
    listen_if b = if b then listener_of r else listen rounds (listen_round round (listener_of r))
