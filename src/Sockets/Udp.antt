-- ===== src/Sockets/Udp.antt =====
-- The constructors and destructors of UdpDisseminator (src/disseminator/UdpDisseminator.h) and
-- UdpFeedHandler (src/feedhandler/UdpFeedHandler.h), apart from the stop of their threads. A constructor
-- that throws leaves an object whose destructor is not called.
use Prim.Native.Nat.{bit_or}
use Prim.Native.String.{String}
use market_data_disseminatio.Base.Tests.{ℕ, ◌*◌, Bool, true, false, Option, none, some}
use market_data_disseminatio.Sockets.{
  reuse_addr, rcv_buf, snd_buf, multicast_ttl, multicast_loop, add_membership, Os,
}

-- The `std::runtime_error`s, by their texts.
pub data SocketError : Type 0 where
  create_failed bind_failed join_failed flags_failed nonblocking_failed : SocketError

-- How a constructor ends.
pub data Constructed (A : Type 0) : Type 0 where
  built : A → Constructed A
  threw : SocketError → Constructed A

-- `sock_`.
pub record UdpFeedHandler : Type 0 where
  pub sock : ℕ

-- `sock_`, and `sin_port` and `sin_addr` of `dest_addr_`.
pub record UdpDisseminator : Type 0 where
  pub sock : ℕ
  pub dest_port : ℕ
  pub dest_addr : ℕ

-- O_NONBLOCK on Linux.
abbrev pub o_nonblock : ℕ
o_nonblock = 0x800

-- An address that `inet_pton` writes into memory of zeros, its result not looked at.
abbrev pub in_addr : Option ℕ → ℕ
in_addr none = 0
in_addr (some address) = address

-- `if (failed) throw error;` before the rest.
abbrev pub check :
    {S A : Type 0} → Bool → SocketError → S → (S → Constructed A × S) → Constructed A × S
check true error s rest = rest s
check false error s rest = (threw error, s)

abbrev pub check_some :
    {S A : Type 0} → Option ℕ → SocketError → S → (ℕ → S → Constructed A × S) → Constructed A × S
check_some (some n) error s rest = rest n s
check_some none error s rest = (threw error, s)

module _ (os : Os) where
  -- UdpFeedHandler::UdpFeedHandler behind the joining of the group.
  unfoldable pub make_nonblocking : ℕ → os.State → Constructed UdpFeedHandler × os.State
  make_nonblocking fd s = check_some (os.get_flags fd s) flags_failed s (λ flags s.
      let set = os.set_flags fd (bit_or flags o_nonblock) s in
      check set.0 nonblocking_failed set.1 (λ s. (built (record { sock = fd }), s)))

  unfoldable pub join_group : String → ℕ → os.State → Constructed UdpFeedHandler × os.State
  join_group ip fd s =
      let joined = os.setsockopt fd (add_membership (in_addr (os.inet_pton ip))) s in
      check joined.0 join_failed joined.1 (make_nonblocking fd)

  unfoldable pub bind_socket : String → ℕ → ℕ → os.State → Constructed UdpFeedHandler × os.State
  bind_socket ip port fd s =
      let s1 = (os.setsockopt fd reuse_addr s).1 in
      let s2 = (os.setsockopt fd (rcv_buf (1024 * 1024 * 8)) s1).1 in
      let bound = os.bind fd port s2 in check bound.0 bind_failed bound.1 (join_group ip fd)

  unfoldable pub new_udp_feed_handler :
      String → ℕ → os.State → Constructed UdpFeedHandler × os.State
  new_udp_feed_handler ip port s =
      let made = os.socket s in check_some made.0 create_failed made.1 (bind_socket ip port)

  -- `if (sock_ >= 0) close(sock_);` of both destructors: an object that was built has a socket.
  unfoldable pub close_sock : ℕ → os.State → os.State
  close_sock sock s = os.close sock s

  -- UdpDisseminator::UdpDisseminator: none of the options' results is looked at.
  unfoldable pub set_multicast : String → ℕ → ℕ → os.State → Constructed UdpDisseminator × os.State
  set_multicast ip port fd s =
      let s1 = (os.setsockopt fd (snd_buf (1024 * 1024)) s).1 in
      let s2 = (os.setsockopt fd (multicast_ttl 1) s1).1 in
      let s3 = (os.setsockopt fd (multicast_loop 1) s2).1 in
      (built (record { sock = fd; dest_port = port; dest_addr = in_addr (os.inet_pton ip) }), s3)

  unfoldable pub new_udp_disseminator :
      String → ℕ → os.State → Constructed UdpDisseminator × os.State
  new_udp_disseminator ip port s =
      let made = os.socket s in check_some made.0 create_failed made.1 (set_multicast ip port)
