-- ===== src/Sockets/ZmqTests.antt =====
-- The constructors of the ZeroMQ classes on a small system.
use market_data_disseminatio.Base.Tests.{◌≡◌, ◌⊎◌, refl, false, none, some, [], ◌∷◌}
use market_data_disseminatio.Base.Handles.{Same}
use market_data_disseminatio.Sockets.Zmq.{
  sub_socket, linger, rcvtimeo, new_zmq_feed_handler, connect_sub, close_zmq_feed_handler,
}
use market_data_disseminatio.Sockets.ZmqOpened.{Lifetime, new_zmq_feed_handler_lem}
use market_data_disseminatio.Sockets.ZmqToy.{toy, toy-IsZmq, none_open}

new_zmq_feed_handler_example :
    Lifetime toy
      (record {
        kind = sub_socket;
        bound = none;
        connected = some "tcp://127.0.0.1:5555";
        options = rcvtimeo 1000 ∷ [];
      })
      (λ h s.
        ((toy.set h (linger 0) s).0 ≡ false) × ((close_zmq_feed_handler toy h s).0 ≡ false)
        ⊎ Same toy.look none_open (close_zmq_feed_handler toy h s).1)
      none_open
      (new_zmq_feed_handler toy "tcp://127.0.0.1:5555" none_open)
new_zmq_feed_handler_example =
    new_zmq_feed_handler_lem toy toy-IsZmq none_open "tcp://127.0.0.1:5555"

-- An address that cannot be connected to leaves no socket.
handler_refused :
    ((new_zmq_feed_handler toy "" none_open).0 ≡ none)
    × ((new_zmq_feed_handler toy "" none_open).1 8 ≡ none)
unfolding new_zmq_feed_handler connect_sub
handler_refused = (refl, refl)
