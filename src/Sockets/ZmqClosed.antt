-- ===== src/Sockets/ZmqClosed.antt =====
-- What the calls on an open ZeroMQ socket keep, and what the destructors bring back, where no option is
-- refused.
use market_data_disseminatio.Base.Tests.{
  ℕ, ◌≡◌, refl, sym, subst, ap, ◌∙◌, Bool, true, false, some, List, ◌∷◌, if◌then◌else◌,
}
use market_data_disseminatio.Base.Handles.{Same, Held, at_self, then_Held, closed_Same}
use market_data_disseminatio.Sockets.Zmq.{
  ZmqOption, linger, ZmqSocket, Zmq, IsZmq, set_topics, close_zmq_feed_handler,
}

-- No option is refused on an open socket.
abbrev pub Obliging : Zmq → Type 0
Obliging z =
    (s : z.State) (h : ℕ) (o : ZmqOption) (d : ZmqSocket)
    → z.look s h ≡ some d
    → (z.set h o s).0 ≡ true

module _ (z : Zmq) (v : IsZmq z) (s0 s : z.State) (h : ℕ) (d : ZmqSocket)
    (held : Held z.look s0 h d s) where
  -- The socket behind an option that was set or refused.
  pub set-Held : (o : ZmqOption) → (d' : ZmqSocket) × Held z.look s0 h d' (z.set h o s).1
  set-Held o = (
    _,
    then_Held z.look s0 s h d (z.set h o s).1 _ held
        (v.set_sets s h o d (at_self z.look s0 s h d held)),
  )

  pub close_zmq_feed_handler-Same :
      Obliging z
      → ((close_zmq_feed_handler z h s).0 ≡ true) × Same z.look s0 (close_zmq_feed_handler z h s).1
  unfolding close_zmq_feed_handler
  close_zmq_feed_handler-Same obliging =
      let set = z.set h (linger 0) s in
      let (d', now) = set-Held (linger 0) in
      let end : Bool → Bool × z.State =
        λ b. if b then (true, z.close h set.1) else (false, set.1) in
      subst (λ (c : Bool × z.State). (c.0 ≡ true) × Same z.look s0 c.1)
        (sym (ap end (obliging s h (linger 0) d (at_self z.look s0 s h d held))))
        (
          refl,
          closed_Same z.look s0 set.1 h d' (z.close h set.1) now (λ k. v.close_closes set.1 h k),
        )

module _ (z : Zmq) (v : IsZmq z) (s0 s : z.State) (h : ℕ) (d : ZmqSocket)
    (held : Held z.look s0 h d s) (option : List ℕ → ZmqOption) (symbol : List ℕ) where
  pub set_topics-Held : (d' : ZmqSocket) × Held z.look s0 h d' (set_topics z option h symbol s).1
  set_topics-Held =
      let quotes = z.set h (option (b'Q' ∷ b':' ∷ symbol)) s in
      let trades = z.set h (option (b'T' ∷ b':' ∷ symbol)) quotes.1 in
      let (d1, held1) = set-Held z v s0 s h d held (option (b'Q' ∷ b':' ∷ symbol)) in
      either quotes.0 trades quotes.1
        (set-Held z v s0 quotes.1 h d1 held1 (option (b'T' ∷ b':' ∷ symbol))) (d1, held1)
    where
      either :
          (b : Bool) (trades : Bool × z.State) (s : z.State)
          → (d' : ZmqSocket) × Held z.look s0 h d' trades.1
          → (d' : ZmqSocket) × Held z.look s0 h d' s
          → (d' : ZmqSocket) × Held z.look s0 h d' (if b then trades else (false, s)).1
      either true trades s on off = on
      either false trades s on off = off

  pub set_topics-true : Obliging z → (set_topics z option h symbol s).0 ≡ true
  set_topics-true obliging =
      let quotes = z.set h (option (b'Q' ∷ b':' ∷ symbol)) s in
      let trades = z.set h (option (b'T' ∷ b':' ∷ symbol)) quotes.1 in
      let (d1, held1) = set-Held z v s0 s h d held (option (b'Q' ∷ b':' ∷ symbol)) in
      ap (λ (b : Bool). (if b then trades else (false, quotes.1)).0)
        (obliging s h (option (b'Q' ∷ b':' ∷ symbol)) d (at_self z.look s0 s h d held))
      ∙ obliging quotes.1 h (option (b'T' ∷ b':' ∷ symbol)) d1
          (at_self z.look s0 quotes.1 h d1 held1)
