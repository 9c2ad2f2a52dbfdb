-- ===== src/Benchmark/Refused.antt =====
-- A benchmark whose sockets cannot be made or set up: an exception is thrown before any thread is made.
use Prim.Native.String.{String}
use market_data_disseminatio.Base.Tests.{
  ℕ, ◌≡◌, ◌≢◌, ◌⊎◌, inl, inr, refl, sym, ap, subst, ◌∙◌, Option, List, [], false,
}
use market_data_disseminatio.Base.Handles.{Held-Same, closed_first, closed_Same}
use market_data_disseminatio.Generator.{Random}
use market_data_disseminatio.Sockets.{Os, IsOs, Descriptor}
use market_data_disseminatio.Sockets.Owned.{Owns}
use market_data_disseminatio.Sockets.Udp.{
  SocketError, create_failed, in_addr, built, threw, UdpDisseminator, new_udp_feed_handler,
  new_udp_disseminator, close_sock,
}
use market_data_disseminatio.Sockets.Opened.{
  Unchanged, Leaves, IsReceiving, IsSender, new_udp_feed_handler_lem, new_udp_disseminator_lem,
}
use market_data_disseminatio.Benchmark.{udp_subscriber}
use market_data_disseminatio.Benchmark.Threads.{throwing, Host, Process, stop_disseminator}
use market_data_disseminatio.Benchmark.Run.{Run}
use market_data_disseminatio.Benchmark.Destruct.{destruct_thrown, stop_disseminator-idle}
use market_data_disseminatio.Benchmark.Udp.{
  Stage, close_behind, destroy_disseminator, with_feedhandler, with_disseminator, dispatch_udp,
}

module _ {random : Random} (os : Os) (v : IsOs os) (host : Host) (rate : ℕ) (file : Option (List ℕ))
    (s : Process random udp_subscriber) (ip : String) (port : ℕ) (system : os.State) where
  abbrev made : os.State
  made = (new_udp_disseminator os ip port system).1

  abbrev heard : os.State
  heard = (new_udp_feed_handler os ip port made).1

  -- It has thrown, with the process as it was, and nothing is open that was not before, or one descriptor.
  pub record IsRefused (stage : Stage random os) : Type 0 where
    pub threw_out : stage.run.status ≡ throwing
    pub untouched : stage.run.now ≡ s
    pub left :
        Unchanged os system stage.system
        ⊎ ((fd : ℕ) × (d : Descriptor) × Owns os system fd d stage.system)

  disseminator-IsRefused :
      (e : SocketError)
      → (new_udp_disseminator os ip port system).0 ≡ threw e
      → IsRefused (dispatch_udp os host rate file s ip port system)
  unfolding dispatch_udp with_disseminator
  disseminator-IsRefused e refused =
      subst (λ c. IsRefused (with_disseminator os host rate file s ip port c made)) (sym refused)
        (record {
          threw_out = refl;
          untouched = refl;
          left =
              elim (subst
                (λ c.
                  Leaves os (λ e. ⊥) (λ u. u.sock) (IsSender port (in_addr (os.inet_pton ip)))
                    system (c, made))
                refused (new_udp_disseminator_lem os v system ip port)) [
                  | inl (first, same) ↦ inl same
                  | inr (never, more) ↦ absurd never
                ];
        })

  feedhandler-IsRefused :
      {u : UdpDisseminator} (e : SocketError)
      → s.feedhandler ≡ false
      → s.disseminator ≡ false
      → (new_udp_disseminator os ip port system).0 ≡ built u
      → (new_udp_feed_handler os ip port made).0 ≡ threw e
      → IsRefused (dispatch_udp os host rate file s ip port system)
  unfolding dispatch_udp with_disseminator with_feedhandler destroy_disseminator close_sock
  feedhandler-IsRefused {u} e off idle sends refused =
      let thrown : Run random udp_subscriber = record { status = throwing; now = s; past = [] } in
      let staged : Run random udp_subscriber → Stage random os =
        λ run. record { run = run; system = close_behind os run.status u.sock heard } in
      let path =
        ap (λ c. with_disseminator os host rate file s ip port c made) sends
        ∙ ap
            (λ c.
              destroy_disseminator os host u.sock (with_feedhandler os host rate file s c heard))
            refused
        ∙ ap staged (
            destruct_thrown (stop_disseminator host) thrown refl off
              (stop_disseminator-idle host s idle)) in
      let ((d, first, _), _) =
        subst
          (λ c.
            Leaves os (λ e. ⊥) (λ u. u.sock) (IsSender port (in_addr (os.inet_pton ip))) system
              (c, made))
          sends (new_udp_disseminator_lem os v system ip port) in
      let close = λ (k : ℕ). v.close_closes heard u.sock k in
      subst IsRefused (sym path) (record {
        threw_out = refl;
        untouched = refl;
        left =
            elim (subst
              (λ c.
                Leaves os (λ e. e ≢ create_failed) (λ h. h.sock)
                  (λ h d. IsReceiving port (in_addr (os.inet_pton ip)) d) made (c, heard))
              refused (new_udp_feed_handler_lem os v made ip port)) [
                | inl (kind, same) ↦ inl (
                    closed_Same os.descriptor system heard u.sock d (os.close u.sock heard)
                      (Held-Same os.descriptor system made heard u.sock d first same) close)
                | inr (late, (fd, d2, second)) ↦ inr (
                  fd,
                  d2,
                  closed_first os.descriptor system made heard (os.close u.sock heard) u.sock fd d
                      d2 first second close,
                )
              ];
      })

  -- Where a constructor throws, the benchmark throws before any thread is made.
  pub dispatch_udp-IsRefused :
      s.feedhandler ≡ false
      → s.disseminator ≡ false
      → ((e : SocketError) × ((new_udp_disseminator os ip port system).0 ≡ threw e))
        ⊎ ((u : UdpDisseminator) × (e : SocketError) × ((new_udp_disseminator os ip port system).0
              ≡ built u)
            × ((new_udp_feed_handler os ip port made).0 ≡ threw e))
      → IsRefused (dispatch_udp os host rate file s ip port system)
  dispatch_udp-IsRefused off idle (inl (e, refused)) = disseminator-IsRefused e refused
  dispatch_udp-IsRefused off idle (inr (u, e, sends, refused)) =
      feedhandler-IsRefused e off idle sends refused
