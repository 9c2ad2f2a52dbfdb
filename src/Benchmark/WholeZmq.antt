-- ===== src/Benchmark/WholeZmq.antt =====
-- A benchmark over ZeroMQ from its first constructor to its last destructor.
use mathlib.Core.List.{flatten}
use Prim.Native.String.{String}
use market_data_disseminatio.Base.Tests.{
  ℕ, ◌<◌, ◌≡◌, ◌≢◌, ◌⊎◌, refl, sym, ap, subst, ◌∙◌, true, false, Option, none, some, List, [], ◌∷◌,
}
use market_data_disseminatio.Base.Handles.{Held-Same, Same, Held, closed_Same}
use market_data_disseminatio.Symbols.{read_symbols_file}
use market_data_disseminatio.Generator.{Random}
use market_data_disseminatio.Sockets.Zmq.{
  pub_socket, sub_socket, linger, rcvtimeo, ZmqSocket, Zmq, IsZmq, new_zmq_disseminator,
  new_zmq_feed_handler, close_zmq_disseminator, close_zmq_feed_handler,
}
use market_data_disseminatio.Sockets.ZmqOpened.{
  Lifetime, new_zmq_disseminator_lem, new_zmq_feed_handler_lem,
}
use market_data_disseminatio.Sockets.ZmqClosed.{Obliging}
use market_data_disseminatio.Benchmark.Threads.{going, Part, Host, Process}
use market_data_disseminatio.Benchmark.Run.{Run, run_benchmark_pipeline}
use market_data_disseminatio.Benchmark.Pipeline.{IsIdle, Wrote, run_benchmark_pipeline-returns}
use market_data_disseminatio.Benchmark.Zmq.{
  zmq_subscriber, close_pub, over_sub, destroy_zmq_feedhandler, destroy_zmq_disseminator, with_sub,
  with_pub, dispatch_zmq,
}
use market_data_disseminatio.Benchmark.ZmqClosed.{
  IsListening, zmq_is_subscriber, subscribe-true, destroy_zmq_feedhandler-Closed,
  destroy_zmq_disseminator_lem,
}

abbrev pub publisher : String → ZmqSocket
publisher address = record {
  kind = pub_socket;
  bound = some address;
  connected = none;
  options = linger 0 ∷ [];
}

abbrev pub listener : String → ZmqSocket
listener address = record {
  kind = sub_socket;
  bound = none;
  connected = some address;
  options = rcvtimeo 1000 ∷ [];
}

module _ (z : Zmq) (v : IsZmq z) (s0 : z.State) (address : String) {h : ℕ} where
  pub published :
      (new_zmq_disseminator z address s0).0 ≡ some h
      → Held z.look s0 h (publisher address) (new_zmq_disseminator z address s0).1
  published sends =
      (subst
        (λ o.
          Lifetime z (publisher address) (λ h s. Same z.look s0 (close_zmq_disseminator z h s)) s0
            (o, (new_zmq_disseminator z address s0).1))
        sends (new_zmq_disseminator_lem z v s0 address)).0

  listened :
      (new_zmq_feed_handler z address s0).0 ≡ some h
      → Held z.look s0 h (listener address) (new_zmq_feed_handler z address s0).1
  listened hears =
      (subst
        (λ o.
          Lifetime z (listener address)
            (λ h s.
              ((z.set h (linger 0) s).0 ≡ false) × ((close_zmq_feed_handler z h s).0 ≡ false)
              ⊎ Same z.look s0 (close_zmq_feed_handler z h s).1)
            s0 (o, (new_zmq_feed_handler z address s0).1))
        hears (new_zmq_feed_handler_lem z v s0 address)).0

module _ {random : Random} (z : Zmq) (v : IsZmq z) (host : Host) (rate : ℕ) (file : Option (List ℕ))
    (s : Process random (zmq_subscriber z)) (address : String) where
  dispatched :
      {h sub : ℕ}
      → (new_zmq_disseminator z address s.subscriptions.system).0 ≡ some h
      → (new_zmq_feed_handler z address (new_zmq_disseminator z address s.subscriptions.system).1).0
        ≡ some sub
      → let heard =
          new_zmq_feed_handler z address
            (new_zmq_disseminator z address s.subscriptions.system).1 in
        dispatch_zmq z host rate file s address
        ≡ destroy_zmq_disseminator z host h (
            destroy_zmq_feedhandler z host
              (run_benchmark_pipeline host rate file (over_sub z (some sub) heard.1 s)))
  unfolding dispatch_zmq with_pub with_sub
  dispatched {h} {sub} sends hears =
      let made = new_zmq_disseminator z address s.subscriptions.system in
      let heard = new_zmq_feed_handler z address made.1 in
      ap (λ o. with_pub z host rate file s address o made.1) sends
      ∙ ap (λ o. destroy_zmq_disseminator z host h (with_sub z host rate file s o heard.1)) hears

  -- If both sockets can be made and set up, no option is refused on an open socket, the directory and all
  -- threads can be made, the rate is at least 1, the file has a symbol and every loop returns that is asked
  -- to stop, then a benchmark over ZeroMQ returns from its first constructor to its last destructor: no
  -- thread is left, every socket is open or closed as before, and the files hold the latencies of just
  -- the calls that came, in order.
  pub dispatch_zmq-returns :
      {h sub : ℕ}
      → Obliging z
      → IsIdle s
      → (new_zmq_disseminator z address s.subscriptions.system).0 ≡ some h
      → (new_zmq_feed_handler z address (new_zmq_disseminator z address s.subscriptions.system).1).0
        ≡ some sub
      → host.directory ≡ true
      → 0 < rate
      → read_symbols_file file ≢ []
      → ((part : Part) → host.can_start part ≡ true)
      → ((part : Part) → host.returns part ≡ true)
      → let run = dispatch_zmq z host rate file s address in
        (run.status ≡ going)
        × ((run.now.generator.running ≡ false)
            × (run.now.disseminator ≡ false)
            × (run.now.feedhandler ≡ false))
        × Wrote (flatten s.incoming) run.now
        × Same z.look s.subscriptions.system run.now.subscriptions.system
  unfolding close_pub close_zmq_disseminator
  dispatch_zmq-returns {h} {sub} obliging idle sends hears directory positive symbols starts
        returns =
      let s0 = s.subscriptions.system in
      let made = new_zmq_disseminator z address s0 in
      let heard = new_zmq_feed_handler z address made.1 in
      let start = over_sub z (some sub) heard.1 s in
      let run = run_benchmark_pipeline host rate file start in
      let listening : IsListening z v made.1 sub start.subscriptions = record {
        is_sub = refl;
        socket = listener address;
        held = listened z v made.1 address hears;
      } in
      let idle' : IsIdle start = record {
        generator = idle.generator;
        disseminator = idle.disseminator;
        feedhandler = idle.feedhandler;
        monitor = idle.monitor;
        csv = idle.csv;
      } in
      let (went, stopped, wrote, still) =
        run_benchmark_pipeline-returns (zmq_is_subscriber z v made.1 sub) host rate file start idle'
          listening directory positive symbols starts returns
          (λ symbol side now. subscribe-true z v made.1 sub symbol side obliging now) in
      let (system, same, closed) =
        destroy_zmq_feedhandler-Closed z host run went stopped.2 v obliging made.1 sub still in
      let off = ap (λ (p : Process random (zmq_subscriber z)). p.feedhandler) closed.now_is in
      let quiet = ap (λ (p : Process random (zmq_subscriber z)). p.disseminator) closed.now_is in
      let (ends, now) =
        destroy_zmq_disseminator_lem z host (destroy_zmq_feedhandler z host run) closed.finished
          (off ∙ stopped.2) h (quiet ∙ stopped.1) in
      let last = over_sub z none (z.close h system) run.now in
      let path : (dispatch_zmq z host rate file s address).now ≡ last =
        ap (λ (r : Run random (zmq_subscriber z)). r.now) (dispatched sends hears)
        ∙ now
        ∙ ap (λ p. (close_pub z h p).1) closed.now_is in
      let held =
        Held-Same z.look s0 made.1 system h (publisher address) (published z v s0 address sends)
          same in
      subst
        (λ (now : Process random (zmq_subscriber z)).
          ((dispatch_zmq z host rate file s address).status ≡ going)
          × ((now.generator.running ≡ false)
              × (now.disseminator ≡ false)
              × (now.feedhandler ≡ false))
          × Wrote (flatten s.incoming) now
          × Same z.look s0 now.subscriptions.system)
        (sym path)
        (
          ap (λ (r : Run random (zmq_subscriber z)). r.status) (dispatched sends hears) ∙ ends,
          stopped,
          wrote,
          closed_Same z.look s0 system h (publisher address) (z.close h system) held
              (λ k. v.close_closes system h k),
        )
