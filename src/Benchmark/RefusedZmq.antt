-- ===== src/Benchmark/RefusedZmq.antt =====
-- A benchmark over ZeroMQ whose sockets cannot be made or set up: an exception is thrown before any thread is
-- made.
use Prim.Native.String.{String}
use market_data_disseminatio.Base.Tests.{
  ℕ, ◌≡◌, ◌⊎◌, inl, inr, refl, sym, ap, subst, ◌∙◌, Option, none, some, List, [], false,
}
use market_data_disseminatio.Base.Handles.{Held-Same, Same, closed_Same}
use market_data_disseminatio.Generator.{Random}
use market_data_disseminatio.Sockets.Zmq.{
  linger, Zmq, IsZmq, new_zmq_disseminator, new_zmq_feed_handler, close_zmq_disseminator,
  close_zmq_feed_handler,
}
use market_data_disseminatio.Sockets.ZmqOpened.{
  Lifetime, new_zmq_disseminator_lem, new_zmq_feed_handler_lem,
}
use market_data_disseminatio.Benchmark.Threads.{throwing, Host, Process, stop_disseminator}
use market_data_disseminatio.Benchmark.Run.{Run, after, destruct}
use market_data_disseminatio.Benchmark.Destruct.{destruct_thrown, stop_disseminator-idle}
use market_data_disseminatio.Benchmark.Zmq.{
  zmq_subscriber, close_pub, over_sub, destroy_zmq_disseminator, with_sub, with_pub, dispatch_zmq,
}
use market_data_disseminatio.Benchmark.WholeZmq.{publisher, listener, published}

module _ {random : Random} (z : Zmq) (v : IsZmq z) (host : Host) (rate : ℕ) (file : Option (List ℕ))
    (s : Process random (zmq_subscriber z)) (address : String) where
  abbrev made : z.State
  made = (new_zmq_disseminator z address s.subscriptions.system).1

  abbrev heard : z.State
  heard = (new_zmq_feed_handler z address made).1

  -- It has thrown, with the process as it was, and every socket is open or closed as before.
  pub record IsRefused (run : Run random (zmq_subscriber z)) : Type 0 where
    pub threw_out : run.status ≡ throwing
    pub system : z.State
    pub untouched : run.now ≡ over_sub z none system s
    pub same : Same z.look s.subscriptions.system system

  disseminator-IsRefused :
      (new_zmq_disseminator z address s.subscriptions.system).0 ≡ none
      → IsRefused (dispatch_zmq z host rate file s address)
  unfolding dispatch_zmq with_pub
  disseminator-IsRefused refused =
      let s0 = s.subscriptions.system in
      subst (λ o. IsRefused (with_pub z host rate file s address o made)) (sym refused)
        (record {
          threw_out = refl;
          system = made;
          untouched = refl;
          same =
              subst
                (λ o.
                  Lifetime z (publisher address)
                    (λ h s. Same z.look s0 (close_zmq_disseminator z h s)) s0 (o, made))
                refused (new_zmq_disseminator_lem z v s0 address);
        })

  feedhandler-IsRefused :
      {h : ℕ}
      → s.feedhandler ≡ false
      → s.disseminator ≡ false
      → (new_zmq_disseminator z address s.subscriptions.system).0 ≡ some h
      → (new_zmq_feed_handler z address made).0 ≡ none
      → IsRefused (dispatch_zmq z host rate file s address)
  unfolding dispatch_zmq with_pub with_sub destroy_zmq_disseminator close_pub close_zmq_disseminator
  feedhandler-IsRefused {h} off idle sends refused =
      let s0 = s.subscriptions.system in
      let now = over_sub z none heard s in
      let thrown : Run random (zmq_subscriber z) = record {
        status = throwing;
        now = now;
        past = [];
      } in
      let stopped = after thrown (throwing, now) in
      let path =
        ap (λ o. with_pub z host rate file s address o made) sends
        ∙ ap (λ o. destroy_zmq_disseminator z host h (with_sub z host rate file s o heard)) refused
        ∙ ap (destruct (close_pub z h)) (
            destruct_thrown (stop_disseminator host) thrown refl off
              (stop_disseminator-idle host now idle))
        ∙ destruct_thrown (close_pub z h) stopped refl off refl in
      let same : Same z.look made heard =
        subst
          (λ o.
            Lifetime z (listener address)
              (λ h s.
                ((z.set h (linger 0) s).0 ≡ false) × ((close_zmq_feed_handler z h s).0 ≡ false)
                ⊎ Same z.look made (close_zmq_feed_handler z h s).1)
              made (o, heard))
          refused (new_zmq_feed_handler_lem z v made address) in
      subst IsRefused (sym path) (record {
        threw_out = refl;
        system = z.close h heard;
        untouched = refl;
        same =
            closed_Same z.look s0 heard h (publisher address) (z.close h heard)
              (Held-Same z.look s0 made heard h (publisher address) (published z v s0 address sends)
                same)
              (λ k. v.close_closes heard h k);
      })

  -- Where a constructor throws, the benchmark throws before any thread is made.
  pub dispatch_zmq-IsRefused :
      s.feedhandler ≡ false
      → s.disseminator ≡ false
      → ((new_zmq_disseminator z address s.subscriptions.system).0 ≡ none)
        ⊎ ((h : ℕ) × ((new_zmq_disseminator z address s.subscriptions.system).0 ≡ some h)
            × ((new_zmq_feed_handler z address made).0 ≡ none))
      → IsRefused (dispatch_zmq z host rate file s address)
  dispatch_zmq-IsRefused off idle (inl refused) = disseminator-IsRefused refused
  dispatch_zmq-IsRefused off idle (inr (h, sends, refused)) =
      feedhandler-IsRefused off idle sends refused
