-- ===== src/Sockets/Zmq.antt =====
-- The constructors and destructors of ZmqDisseminator (src/disseminator/ZmqDisseminator.h) and
-- ZmqFeedHandler (src/feedhandler/ZmqFeedHandler.h), apart from the stop of their threads. cppzmq is a
-- parameter, with what its documentation says of sockets; its calls throw `zmq::error_t` where they fail,
-- which is `none` or `false` here. A constructor that throws destroys the members that it has made, the
-- socket among them. The context is made and destroyed with the object, and is left out.
use Prim.Native.String.{String}
use market_data_disseminatio.Base.Tests.{
  ℕ, ◌≡◌, Bool, true, false, Option, none, some, List, [], ◌∷◌, ◌==◌, if◌then◌else◌,
}
use market_data_disseminatio.Base.Handles.{Turns, Same}

pub data SocketType : Type 0 where
  pub_socket sub_socket : SocketType

-- The options that are set: times in milliseconds, and topics.
pub data ZmqOption : Type 0 where
  linger rcvtimeo : ℕ → ZmqOption
  subscribe_to unsubscribe_from : List ℕ → ZmqOption

-- What is known of an open socket, the option set last first.
pub record ZmqSocket : Type 0 where
  pub kind : SocketType
  pub bound : Option String
  pub connected : Option String
  pub options : List ZmqOption

pub record Zmq : Type 1 where
  pub State : Type 0
  pub socket : SocketType → State → Option ℕ × State
  pub bind : ℕ → String → State → Bool × State
  pub connect : ℕ → String → State → Bool × State
  pub set : ℕ → ZmqOption → State → Bool × State
  pub close : ℕ → State → State
  pub look : State → ℕ → Option ZmqSocket

-- A new socket is one that was not open; a call that fails changes nothing.
pub record IsZmq (z : Zmq) : Type 0 where
  pub socket_new :
      (kind : SocketType) (s : z.State) (h : ℕ)
      → (z.socket kind s).0 ≡ some h
      → (z.look s h ≡ none)
        × Turns z.look s h
            (record { kind = kind; bound = none; connected = none; options = [] })
            (z.socket kind s).1
  pub socket_failed :
      (kind : SocketType) (s : z.State)
      → (z.socket kind s).0 ≡ none
      → Same z.look s (z.socket kind s).1
  pub bind_binds :
      (s : z.State) (h : ℕ) (address : String) (d : ZmqSocket)
      → z.look s h ≡ some d
      → Turns z.look s h
          (if (z.bind h address s).0 then record d { bound = some address } else d)
          (z.bind h address s).1
  pub connect_connects :
      (s : z.State) (h : ℕ) (address : String) (d : ZmqSocket)
      → z.look s h ≡ some d
      → Turns z.look s h
          (if (z.connect h address s).0 then record d { connected = some address } else d)
          (z.connect h address s).1
  pub set_sets :
      (s : z.State) (h : ℕ) (o : ZmqOption) (d : ZmqSocket)
      → z.look s h ≡ some d
      → Turns z.look s h
          (if (z.set h o s).0 then record d { options = o ∷ d.options } else d)
          (z.set h o s).1
  pub close_closes :
      (s : z.State) (h k : ℕ) → z.look (z.close h s) k ≡ (if k == h then none else z.look s k)

module _ (z : Zmq) where
  -- A call in a constructor that has its socket: where it throws, the socket is closed.
  abbrev pub try_call : ℕ → Bool → z.State → (z.State → Option ℕ × z.State) → Option ℕ × z.State
  try_call h true s rest = rest s
  try_call h false s rest = (none, z.close h s)

  -- The member that is made first, where that throws there is nothing to close.
  abbrev pub try_socket :
      Option ℕ → z.State → (ℕ → z.State → Option ℕ × z.State) → Option ℕ × z.State
  try_socket (some h) s rest = rest h s
  try_socket none s rest = (none, s)

  abbrev pub set_last : ZmqOption → ℕ → z.State → Option ℕ × z.State
  set_last o h s = let set = z.set h o s in try_call h set.0 set.1 (λ s. (some h, s))

  -- ZmqDisseminator::ZmqDisseminator: `pub_socket_`, or `none` where it throws.
  unfoldable pub bind_pub : String → ℕ → z.State → Option ℕ × z.State
  bind_pub address h s =
      let bound = z.bind h address s in try_call h bound.0 bound.1 (set_last (linger 0) h)

  unfoldable pub new_zmq_disseminator : String → z.State → Option ℕ × z.State
  new_zmq_disseminator address s =
      let made = z.socket pub_socket s in try_socket made.0 made.1 (bind_pub address)

  -- ZmqFeedHandler::ZmqFeedHandler from an address, and from a socket that is moved in.
  unfoldable pub connect_sub : String → ℕ → z.State → Option ℕ × z.State
  connect_sub address h s =
      let connected = z.connect h address s in
      try_call h connected.0 connected.1 (set_last (rcvtimeo 1000) h)

  unfoldable pub new_zmq_feed_handler : String → z.State → Option ℕ × z.State
  new_zmq_feed_handler address s =
      let made = z.socket sub_socket s in try_socket made.0 made.1 (connect_sub address)

  unfoldable pub zmq_feed_handler_of : ℕ → z.State → Option ℕ × z.State
  zmq_feed_handler_of h s = set_last (rcvtimeo 200) h s

  -- ZmqFeedHandler::subscribe_impl and unsubscribe_impl: where the first call throws, the second is not
  -- made.
  abbrev pub set_topics : (List ℕ → ZmqOption) → ℕ → List ℕ → z.State → Bool × z.State
  set_topics option h symbol s =
      let quotes = z.set h (option (b'Q' ∷ b':' ∷ symbol)) s in
      let trades = z.set h (option (b'T' ∷ b':' ∷ symbol)) quotes.1 in
      if quotes.0 then trades else (false, quotes.1)

  -- The destructors behind the stop: `false` is the end of the process by `std::terminate`, since a
  -- destructor must not throw.
  unfoldable pub close_zmq_disseminator : ℕ → z.State → z.State
  close_zmq_disseminator h s = z.close h s

  unfoldable pub close_zmq_feed_handler : ℕ → z.State → Bool × z.State
  close_zmq_feed_handler h s =
      let set = z.set h (linger 0) s in if set.0 then (true, z.close h set.1) else (false, set.1)
