-- ===== src/Sockets/ZmqOpened.antt =====
-- What the constructors of the ZeroMQ classes leave open.
use Prim.Native.String.{String}
use market_data_disseminatio.Base.Tests.{
  ℕ, ◌≡◌, ◌⊎◌, inl, inr, refl, sym, subst, ap, Bool, Bool-cases, true, false, Option, none, some,
  [], ◌∷◌, if◌then◌else◌,
}
use market_data_disseminatio.Base.Handles.{Same, Held, at_self, then_Held, closed_Same}
use market_data_disseminatio.Sockets.Zmq.{
  SocketType, pub_socket, sub_socket, ZmqOption, linger, rcvtimeo, ZmqSocket, Zmq, IsZmq, try_call,
  try_socket, set_last, bind_pub, new_zmq_disseminator, connect_sub, new_zmq_feed_handler,
  close_zmq_disseminator, close_zmq_feed_handler,
}

-- A constructor is done with one new socket, which is `d`, or it throws and leaves what was open before.
abbrev pub Made : (z : Zmq) → ZmqSocket → z.State → Option ℕ × z.State → Type 0
Made z d s0 (some h, s) = Held z.look s0 h d s
Made z d s0 (none, s) = Same z.look s0 s

-- The same, with what the destructor brings for an object that was built.
abbrev pub Lifetime :
    (z : Zmq) → ZmqSocket → (ℕ → z.State → Type 0) → z.State → Option ℕ × z.State → Type 0
Lifetime z d Closed s0 (some h, s) = Held z.look s0 h d s × Closed h s
Lifetime z d Closed s0 (none, s) = Same z.look s0 s

module _ (z : Zmq) (v : IsZmq z) (s0 : z.State) where
  -- One call on the socket.
  try_call-Made :
      (h : ℕ) (d d1 last : ZmqSocket) (b : Bool) (s : z.State) (rest : z.State → Option ℕ × z.State)
      → Held z.look s0 h (if b then d1 else d) s
      → (Held z.look s0 h d1 s → Made z last s0 (rest s))
      → Made z last s0 (try_call z h b s rest)
  try_call-Made h d d1 last true s rest held go = go held
  try_call-Made h d d1 last false s rest held go =
      closed_Same z.look s0 s h d (z.close h s) held (λ k. v.close_closes s h k)

  set_last-Made :
      (o : ZmqOption) (h : ℕ) (d : ZmqSocket) (s : z.State)
      → Held z.look s0 h d s
      → Made z (record d { options = o ∷ d.options }) s0 (set_last z o h s)
  set_last-Made o h d s held =
      let set = z.set h o s in
      let d1 : ZmqSocket = record d { options = o ∷ d.options } in
      try_call-Made h d d1 d1 set.0 set.1 (λ s. (some h, s))
        (then_Held z.look s0 s h d set.1 _ held (v.set_sets s h o d (at_self z.look s0 s h d held)))
        (λ now. now)

  try_socket-Made :
      (kind : SocketType) (last : ZmqSocket) (rest : ℕ → z.State → Option ℕ × z.State)
      → ((h : ℕ)
          → Held z.look s0 h
              (record { kind = kind; bound = none; connected = none; options = [] })
              (z.socket kind s0).1
          → Made z last s0 (rest h (z.socket kind s0).1))
      → Made z last s0 (try_socket z (z.socket kind s0).0 (z.socket kind s0).1 rest)
  try_socket-Made kind last rest go = made (z.socket kind s0).0 refl
    where
      made :
          (o : Option ℕ)
          → (z.socket kind s0).0 ≡ o
          → Made z last s0 (try_socket z o (z.socket kind s0).1 rest)
      made (some h) e =
          let new = v.socket_new kind s0 h e in go h (record { was_free = new.0; only = new.1 })
      made none e = v.socket_failed kind s0 e

  new_zmq_disseminator-Made :
      (address : String)
      → Made z
          (record {
            kind = pub_socket;
            bound = some address;
            connected = none;
            options = linger 0 ∷ [];
          })
          s0
          (new_zmq_disseminator z address s0)
  unfolding new_zmq_disseminator bind_pub
  new_zmq_disseminator-Made address = try_socket-Made pub_socket _ (bind_pub z address) (λ h held.
      let s = (z.socket pub_socket s0).1 in
      let bound = z.bind h address s in
      try_call-Made h _ _ _ bound.0 bound.1 (set_last z (linger 0) h)
        (then_Held z.look s0 s h _ bound.1 _ held
          (v.bind_binds s h address _ (at_self z.look s0 s h _ held)))
        (set_last-Made (linger 0) h _ bound.1))

  new_zmq_feed_handler-Made :
      (address : String)
      → Made z
          (record {
            kind = sub_socket;
            bound = none;
            connected = some address;
            options = rcvtimeo 1000 ∷ [];
          })
          s0
          (new_zmq_feed_handler z address s0)
  unfolding new_zmq_feed_handler connect_sub
  new_zmq_feed_handler-Made address =
      try_socket-Made sub_socket _ (connect_sub z address) (λ h held.
        let s = (z.socket sub_socket s0).1 in
        let connected = z.connect h address s in
        try_call-Made h _ _ _ connected.0 connected.1 (set_last z (rcvtimeo 1000) h)
          (then_Held z.look s0 s h _ connected.1 _ held
            (v.connect_connects s h address _ (at_self z.look s0 s h _ held)))
          (set_last-Made (rcvtimeo 1000) h _ connected.1))

  with_close :
      (Closed : ℕ → z.State → Type 0) (d : ZmqSocket) (made : Option ℕ × z.State)
      → Made z d s0 made
      → ((h : ℕ) (s : z.State) → Held z.look s0 h d s → Closed h s)
      → Lifetime z d Closed s0 made
  with_close Closed d (some h, s) held close = (held, close h s held)
  with_close Closed d (none, s) same close = same

  -- ZmqDisseminator's constructor makes one socket that publishes, bound to the address, and without
  -- linger, and the destructor brings back what was open before; or it throws and leaves that. It never
  -- throws with a socket left open.
  pub new_zmq_disseminator_lem :
      (address : String)
      → Lifetime z
          (record {
            kind = pub_socket;
            bound = some address;
            connected = none;
            options = linger 0 ∷ [];
          })
          (λ h s. Same z.look s0 (close_zmq_disseminator z h s))
          s0
          (new_zmq_disseminator z address s0)
  unfolding close_zmq_disseminator
  new_zmq_disseminator_lem address =
      with_close _ _ (new_zmq_disseminator z address s0) (new_zmq_disseminator-Made address)
        (λ h s held. closed_Same z.look s0 s h _ (z.close h s) held (λ k. v.close_closes s h k))

  -- ZmqFeedHandler's constructor from an address makes one socket that subscribes, connected to the
  -- address, with a second's time to receive, and the destructor brings back what was open before, or it
  -- ends the process, because an option cannot be set in it; or the constructor throws and leaves what was
  -- open before. It never throws with a socket left open.
  pub new_zmq_feed_handler_lem :
      (address : String)
      → Lifetime z
          (record {
            kind = sub_socket;
            bound = none;
            connected = some address;
            options = rcvtimeo 1000 ∷ [];
          })
          (λ h s.
            ((z.set h (linger 0) s).0 ≡ false) × ((close_zmq_feed_handler z h s).0 ≡ false)
            ⊎ Same z.look s0 (close_zmq_feed_handler z h s).1)
          s0
          (new_zmq_feed_handler z address s0)
  unfolding close_zmq_feed_handler
  new_zmq_feed_handler_lem address =
      with_close _ _ (new_zmq_feed_handler z address s0) (new_zmq_feed_handler-Made address)
        (λ h s held.
          let set = z.set h (linger 0) s in
          let now =
            then_Held z.look s0 s h _ set.1 _ held
              (v.set_sets s h (linger 0) _ (at_self z.look s0 s h _ held)) in
          let end : Bool → Bool × z.State =
            λ b. if b then (true, z.close h set.1) else (false, set.1) in
          elim (Bool-cases set.0) [
            | inl ok ↦ inr (
                subst (λ (c : Bool × z.State). Same z.look s0 c.1) (sym (ap end ok))
                  (closed_Same z.look s0 set.1 h _ (z.close h set.1) now
                    (λ k. v.close_closes set.1 h k)))
            | inr failed ↦ inl (failed, ap (λ (b : Bool). (end b).0) failed)
          ])
