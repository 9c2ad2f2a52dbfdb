-- ===== src/Benchmark/ZmqClosed.antt =====
-- The destructors of a benchmark over ZeroMQ, where nothing runs any more and no option is refused.
use market_data_disseminatio.Base.Tests.{
  ℕ, ◌≡◌, refl, sym, ap, subst, ◌∙◌, Bool, true, false, Option, none, some, List, if◌then◌else◌,
}
use market_data_disseminatio.Base.Handles.{Same, Held}
use market_data_disseminatio.Generator.{Random}
use market_data_disseminatio.Sockets.Zmq.{
  ZmqSocket, Zmq, IsZmq, subscribe_to, close_zmq_feed_handler,
}
use market_data_disseminatio.Sockets.ZmqClosed.{
  Obliging, close_zmq_feed_handler-Same, set_topics-Held, set_topics-true,
}
use market_data_disseminatio.Benchmark.{IsSubscriber}
use market_data_disseminatio.Benchmark.Threads.{going, terminating, Host, Process}
use market_data_disseminatio.Benchmark.Run.{Run, after, destruct}
use market_data_disseminatio.Benchmark.Destruct.{
  destruct_quiet, stop_feedhandler-off, stop_disseminator-off,
}
use market_data_disseminatio.Benchmark.Zmq.{
  ZmqSide, subscribe_at, zmq_subscriber, close_at, close_sub, close_pub, over_sub,
  destroy_zmq_feedhandler, destroy_zmq_disseminator,
}

module _ (z : Zmq) (v : IsZmq z) (s0 : z.State) (sub : ℕ) where
  -- The feed handler's socket is open, and all else is as it was before it was made.
  pub record IsListening (side : ZmqSide z) : Type 0 where
    pub is_sub : side.multicast_sub ≡ some sub
    pub socket : ZmqSocket
    pub held : Held z.look s0 sub socket side.system

  pub IsListening-subscribe :
      (symbol : List ℕ) (side : ZmqSide z)
      → IsListening side
      → IsListening (subscribe_at z side.multicast_sub symbol side).1
  IsListening-subscribe symbol side h =
      let (d, held) = set_topics-Held z v s0 side.system sub h.socket h.held subscribe_to symbol in
      subst (λ o. IsListening (subscribe_at z o symbol side).1) (sym h.is_sub)
        (record { is_sub = h.is_sub; socket = d; held = held })

  abbrev pub zmq_is_subscriber : IsSubscriber (zmq_subscriber z)
  zmq_is_subscriber = record { Ready = IsListening; subscribe_keeps = IsListening-subscribe }

  pub subscribe-true :
      (symbol : List ℕ) (side : ZmqSide z)
      → Obliging z
      → IsListening side
      → (subscribe_at z side.multicast_sub symbol side).0 ≡ true
  subscribe-true symbol side obliging h =
      ap (λ (o : Option ℕ). (subscribe_at z o symbol side).0) h.is_sub
      ∙ set_topics-true z v s0 side.system sub h.socket h.held subscribe_to symbol obliging

  module _ {random : Random} (obliging : Obliging z) (s : Process random (zmq_subscriber z))
      (h : IsListening s.subscriptions) where
    abbrev closed : z.State
    closed = (close_zmq_feed_handler z sub s.subscriptions.system).1

    close_sub_lem : (close_sub z s ≡ (going, over_sub z none closed s)) × Same z.look s0 closed
    unfolding close_sub
    close_sub_lem =
        let (returned, same) =
          close_zmq_feed_handler-Same z v s0 s.subscriptions.system sub h.socket h.held obliging in
        (
          ap (λ o. close_at z o s) h.is_sub
              ∙ ap
                  (λ (b : Bool).
                    if b
                    then (going, over_sub z none closed s)
                    else (terminating, over_sub z (some sub) closed s))
                  returned,
          same,
        )

module _ {random : Random} (z : Zmq) where
  -- A run that has returned, with what cppzmq keeps once the handler's socket is closed.
  pub record Closed (before : Process random (zmq_subscriber z)) (system : z.State)
      (end : Run random (zmq_subscriber z)) : Type 0 where
    pub finished : end.status ≡ going
    pub now_is : end.now ≡ over_sub z none system before

  module _ (host : Host) (run : Run random (zmq_subscriber z)) (went : run.status ≡ going)
      (off : run.now.feedhandler ≡ false) where
    pub destroy_zmq_feedhandler-Closed :
        (v : IsZmq z) (obliging : Obliging z) (s0 : z.State) (sub : ℕ)
        → IsListening z v s0 sub run.now.subscriptions
        → (system : z.State) × Same z.look s0 system
          × Closed run.now system (destroy_zmq_feedhandler z host run)
    unfolding destroy_zmq_feedhandler
    destroy_zmq_feedhandler-Closed v obliging s0 sub h =
        let (closes, same) = close_sub_lem z v s0 sub obliging run.now h in
        let stopped = after run (going, run.now) in
        let path =
          ap (destruct (close_sub z)) (stop_feedhandler-off host run went off)
          ∙ destruct_quiet (close_sub z) stopped refl off
          ∙ ap (after stopped) closes in
        (
          _,
          same,
          record {
            finished = ap (λ (r : Run random (zmq_subscriber z)). r.status) path;
            now_is = ap (λ (r : Run random (zmq_subscriber z)). r.now) path;
          },
        )

    pub destroy_zmq_disseminator_lem :
        (h : ℕ)
        → run.now.disseminator ≡ false
        → ((destroy_zmq_disseminator z host h run).status ≡ going)
          × ((destroy_zmq_disseminator z host h run).now ≡ (close_pub z h run.now).1)
    unfolding destroy_zmq_disseminator close_pub
    destroy_zmq_disseminator_lem h idle =
        let stopped = after run (going, run.now) in
        let path =
          ap (destruct (close_pub z h)) (stop_disseminator-off host run went off idle)
          ∙ destruct_quiet (close_pub z h) stopped refl off in
        (
          ap (λ (r : Run random (zmq_subscriber z)). r.status) path,
          ap (λ (r : Run random (zmq_subscriber z)). r.now) path,
        )
