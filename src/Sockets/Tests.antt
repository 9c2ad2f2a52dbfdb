-- ===== src/Sockets/Tests.antt =====
-- The constructors of the UDP classes on a small system.
use market_data_disseminatio.Base.Tests.{◌≡◌, ◌≢◌, refl, some, [], ◌∷◌}
use market_data_disseminatio.Sockets.{reuse_addr, rcv_buf}
use market_data_disseminatio.Sockets.Udp.{
  built, threw, create_failed, bind_failed, bind_socket, join_group, make_nonblocking,
  new_udp_feed_handler,
}
use market_data_disseminatio.Sockets.Opened.{Leaves, IsReceiving, new_udp_feed_handler_lem}
use market_data_disseminatio.Sockets.Toy.{new, toy, toy-IsOs, none_open}

new_udp_feed_handler_example :
    Leaves toy
      (λ e. e ≢ create_failed)
      (λ h. h.sock)
      (λ h d. IsReceiving 5555 0xEF000001 d)
      none_open
      (new_udp_feed_handler toy "239.0.0.1" 5555 none_open)
new_udp_feed_handler_example = new_udp_feed_handler_lem toy toy-IsOs none_open "239.0.0.1" 5555

-- The handler's socket is bound and not blocking.
handler_built :
    (new_udp_feed_handler toy "239.0.0.1" 5555 none_open).0 ≡ built (record { sock = 3 })
unfolding new_udp_feed_handler bind_socket join_group make_nonblocking
handler_built = refl

-- A port that is taken leaves the socket open.
handler_leaks :
    let made = new_udp_feed_handler toy "239.0.0.1" 80 none_open in
    (made.0 ≡ threw bind_failed)
    × (made.1 3 ≡ some (record new { options = rcv_buf 8388608 ∷ reuse_addr ∷ [] }))
unfolding new_udp_feed_handler bind_socket join_group make_nonblocking
handler_leaks = (refl, refl)
