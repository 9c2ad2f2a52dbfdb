-- ===== src/Benchmark/Whole.antt =====
-- A benchmark over UDP from its first constructor to its last destructor.
use mathlib.Core.List.{flatten}
use Prim.Native.String.{String}
use market_data_disseminatio.Base.Tests.{
  ℕ, ◌≡◌, refl, sym, ap, ◌∙◌, subst, Option, List, [], if◌then◌else◌, true, false, none, ◌==◌, ◌<◌,
  ◌≢◌,
}
use market_data_disseminatio.Symbols.{read_symbols_file}
use market_data_disseminatio.Generator.{Random}
use market_data_disseminatio.Sockets.{Os, IsOs}
use market_data_disseminatio.Sockets.Udp.{
  create_failed, in_addr, built, UdpFeedHandler, UdpDisseminator, new_udp_feed_handler,
  new_udp_disseminator, close_sock,
}
use market_data_disseminatio.Sockets.Opened.{
  Unchanged, Leaves, IsReceiving, IsSender, new_udp_feed_handler_lem, new_udp_disseminator_lem,
}
use market_data_disseminatio.Benchmark.{udp_subscriber, udp_is_subscriber}
use market_data_disseminatio.Benchmark.Threads.{going, Host, Process, Part}
use market_data_disseminatio.Benchmark.Run.{Run, after, run_benchmark_pipeline}
use market_data_disseminatio.Benchmark.Udp.{
  Stage, close_behind, destroy_feedhandler, destroy_disseminator, with_feedhandler,
  with_disseminator, dispatch_udp,
}
use market_data_disseminatio.Benchmark.Pipeline.{IsIdle, Wrote, run_benchmark_pipeline-returns}
use market_data_disseminatio.Benchmark.Destruct.{stop_feedhandler-off, stop_disseminator-off}

module _ (os : Os) (v : IsOs os) where
  -- Closing a descriptor of two states that agree leaves two that agree.
  close_sock-Unchanged :
      (fd : ℕ) (s0 s : os.State)
      → Unchanged os s0 s
      → Unchanged os (close_sock os fd s0) (close_sock os fd s)
  unfolding close_sock
  close_sock-Unchanged fd s0 s same k =
      v.close_closes s fd k
      ∙ ap (λ o. if k == fd then none else o) (same k)
      ∙ sym (v.close_closes s0 fd k)

module _ {random : Random} (os : Os) (host : Host) (sock : ℕ) (stage : Stage random os) where
  -- What the destructors come to once the threads have stopped.
  abbrev closed : Stage random os
  closed = record {
    run = after stage.run (going, stage.run.now);
    system = close_sock os sock stage.system;
  }

  abbrev staged : Run random udp_subscriber → Stage random os
  staged run = record { run = run; system = close_behind os run.status sock stage.system }

  destroy_feedhandler-closed :
      stage.run.status ≡ going
      → stage.run.now.feedhandler ≡ false
      → destroy_feedhandler os host sock stage ≡ closed
  unfolding destroy_feedhandler
  destroy_feedhandler-closed went off = ap staged (stop_feedhandler-off host stage.run went off)

  destroy_disseminator-closed :
      stage.run.status ≡ going
      → stage.run.now.feedhandler ≡ false
      → stage.run.now.disseminator ≡ false
      → destroy_disseminator os host sock stage ≡ closed
  unfolding destroy_disseminator
  destroy_disseminator-closed went off idle =
      ap staged (stop_disseminator-off host stage.run went off idle)

module _ {random : Random} (os : Os) (v : IsOs os) (host : Host) (rate : ℕ) (file : Option (List ℕ))
    (s : Process random udp_subscriber) (ip : String) (port : ℕ) (system : os.State) where
  -- If both sockets can be made and set up, the directory and all threads can be made, the rate is at
  -- least 1, the file has a symbol and every loop returns that is asked to stop, then a benchmark over UDP
  -- returns from its first constructor to its last destructor: no thread is left, every descriptor is open
  -- or closed as before, and the files hold the latencies of just the calls that came, in order.
  pub dispatch_udp-returns :
      {u : UdpDisseminator} {h : UdpFeedHandler}
      → IsIdle s
      → (new_udp_disseminator os ip port system).0 ≡ built u
      → (new_udp_feed_handler os ip port (new_udp_disseminator os ip port system).1).0 ≡ built h
      → host.directory ≡ true
      → 0 < rate
      → read_symbols_file file ≢ []
      → ((part : Part) → host.can_start part ≡ true)
      → ((part : Part) → host.returns part ≡ true)
      → let stage = dispatch_udp os host rate file s ip port system in
        (stage.run.status ≡ going)
        × ((stage.run.now.generator.running ≡ false)
            × (stage.run.now.disseminator ≡ false)
            × (stage.run.now.feedhandler ≡ false))
        × Wrote (flatten s.incoming) stage.run.now
        × Unchanged os system stage.system
  unfolding dispatch_udp with_disseminator with_feedhandler
  dispatch_udp-returns {u} {h} idle sends hears directory positive symbols starts returns =
      let made = new_udp_disseminator os ip port system in
      let heard = new_udp_feed_handler os ip port made.1 in
      let run = run_benchmark_pipeline host rate file s in
      let (went, stopped, wrote, _) =
        run_benchmark_pipeline-returns udp_is_subscriber host rate file s idle tt directory positive
          symbols starts returns (λ symbol q now. refl) in
      let stage : Stage random os = record { run = run; system = heard.1 } in
      let closed_once = closed os host h.sock stage in
      let path =
        ap (λ c. with_disseminator os host rate file s ip port c made.1) sends
        ∙ ap
            (λ c.
              destroy_disseminator os host u.sock (with_feedhandler os host rate file s c heard.1))
            hears
        ∙ ap (destroy_disseminator os host u.sock)
            (destroy_feedhandler-closed os host h.sock stage went stopped.2)
        ∙ destroy_disseminator-closed os host u.sock closed_once refl stopped.2 stopped.1 in
      let hears_back : Unchanged os made.1 (close_sock os h.sock heard.1) =
        (subst
          (λ c.
            Leaves os (λ e. e ≢ create_failed) (λ h. h.sock)
              (λ h d. IsReceiving port (in_addr (os.inet_pton ip)) d) made.1 (c, heard.1))
          hears (new_udp_feed_handler_lem os v made.1 ip port)).1 in
      let sends_back : Unchanged os system (close_sock os u.sock made.1) =
        (subst
          (λ c.
            Leaves os (λ e. ⊥) (λ u. u.sock) (IsSender port (in_addr (os.inet_pton ip))) system
              (c, made.1))
          sends (new_udp_disseminator_lem os v system ip port)).1 in
      subst
        (λ (stage : Stage random os).
          (stage.run.status ≡ going)
          × ((stage.run.now.generator.running ≡ false)
              × (stage.run.now.disseminator ≡ false)
              × (stage.run.now.feedhandler ≡ false))
          × Wrote (flatten s.incoming) stage.run.now
          × Unchanged os system stage.system)
        (sym path)
        (
          refl,
          stopped,
          wrote,
          (λ k.
              close_sock-Unchanged os v u.sock made.1 (close_sock os h.sock heard.1) hears_back k
              ∙ sends_back k),
        )
