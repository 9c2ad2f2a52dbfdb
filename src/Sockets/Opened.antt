-- ===== src/Sockets/Opened.antt =====
-- How the constructors of the UDP classes end, and what they leave open.
use Prim.Native.Nat.{bit_or}
use Prim.Native.String.{String}
use market_data_disseminatio.Base.Handles.{Same, done}
use market_data_disseminatio.Base.Tests.{
  ℕ, ◌*◌, ◌≡◌, ◌≢◌, ◌⊎◌, inl, inr, refl, Bool, true, false, Option, none, some, List, [], ◌∷◌,
  if◌then◌else◌,
}
use market_data_disseminatio.Sockets.{
  SocketOption, reuse_addr, rcv_buf, snd_buf, multicast_ttl, multicast_loop, add_membership,
  Descriptor, Os, IsOs,
}
use market_data_disseminatio.Sockets.Owned.{
  Owns, after_setsockopt, after_bind, after_set_flags, after_close,
}
use market_data_disseminatio.Sockets.Udp.{
  SocketError, create_failed, bind_failed, join_failed, flags_failed, nonblocking_failed,
  Constructed, built, threw, UdpFeedHandler, UdpDisseminator, o_nonblock, in_addr, check,
  check_some, make_nonblocking, join_group, bind_socket, new_udp_feed_handler, close_sock,
  set_multicast, new_udp_disseminator,
}

-- Nothing is open that was not before, and nothing is closed.
abbrev pub Unchanged : (os : Os) → os.State → os.State → Type 0
Unchanged os s0 s = Same os.descriptor s0 s

-- A descriptor on which the feed handler can spin: bound to the port, its last option the membership of
-- the group, and not blocking.
pub record IsReceiving (port group : ℕ) (d : Descriptor) : Type 0 where
  pub bound : d.bound ≡ some port
  pub member : (options : List SocketOption) × (d.options ≡ add_membership group ∷ options)
  pub nonblocking : (flags : ℕ) × (d.flags ≡ bit_or flags o_nonblock)

-- An object that sends to an address, on a descriptor bound to no port.
pub record IsSender (port address : ℕ) (u : UdpDisseminator) (d : Descriptor) : Type 0 where
  pub dest_port : u.dest_port ≡ port
  pub dest_addr : u.dest_addr ≡ address
  pub unbound : d.bound ≡ none

-- What a constructor leaves: an object with its descriptor, as `P` says, and a destructor that brings back
-- what was open before; or, with the first exception, what was open before; or, with one of the `Late`
-- exceptions, one more descriptor.
abbrev pub Leaves :
    {A : Type 0} (os : Os) (Late : SocketError → Type 0) (sock : A → ℕ)
    (P : A → Descriptor → Type 0)
    → os.State
    → Constructed A × os.State
    → Type 0
Leaves os Late sock P s0 (built a, s) =
    ((d : Descriptor) × Owns os s0 (sock a) d s × P a d)
    × Unchanged os s0 (close_sock os (sock a) s)
Leaves os Late sock P s0 (threw e, s) =
    (e ≡ create_failed) × Unchanged os s0 s
    ⊎ Late e × ((fd : ℕ) × (d : Descriptor) × Owns os s0 fd d s)

module _ {A : Type 0} (os : Os) (Late : SocketError → Type 0) (sock : A → ℕ)
    (P : A → Descriptor → Type 0) (s0 : os.State) where
  check-Leaves :
      (b : Bool) (error : SocketError) (s : os.State) (rest : os.State → Constructed A × os.State)
      → (b ≡ true → Leaves os Late sock P s0 (rest s))
      → Leaves os Late sock P s0 (threw error, s)
      → Leaves os Late sock P s0 (check b error s rest)
  check-Leaves true error s rest good bad = good refl
  check-Leaves false error s rest good bad = bad

  check_some-Leaves :
      (o : Option ℕ) (error : SocketError) (s : os.State)
      (rest : ℕ → os.State → Constructed A × os.State)
      → ((n : ℕ) → o ≡ some n → Leaves os Late sock P s0 (rest n s))
      → (o ≡ none → Leaves os Late sock P s0 (threw error, s))
      → Leaves os Late sock P s0 (check_some o error s rest)
  check_some-Leaves (some n) error s rest good bad = good n refl
  check_some-Leaves none error s rest good bad = bad refl

module _ (os : Os) (v : IsOs os) (s0 : os.State) where
  close_sock_lem :
      (s : os.State) (fd : ℕ) (d : Descriptor)
      → Owns os s0 fd d s
      → Unchanged os s0 (close_sock os fd s)
  unfolding close_sock
  close_sock_lem s fd d h = after_close v h

  opened :
      (fd : ℕ)
      → (os.socket s0).0 ≡ some fd
      → (flags : ℕ) × Owns os s0 fd
          (record { options = []; bound = none; flags = flags })
          (os.socket s0).1
  opened fd e =
      let new = v.socket_new s0 fd e in (new.1.0, record { was_free = new.0; only = new.1.1 })

  -- An option leaves the descriptor unbound, whether it could be set or not.
  set_unbound :
      (s : os.State) (fd : ℕ) (o : SocketOption)
      → ((d : Descriptor) × Owns os s0 fd d s × (d.bound ≡ none))
      → (d : Descriptor) × Owns os s0 fd d (os.setsockopt fd o s).1 × (d.bound ≡ none)
  set_unbound s fd o (d, h, e) = (_, after_setsockopt v h o, kept (os.setsockopt fd o s).0)
    where
      kept : (b : Bool) → (if b then record d { options = o ∷ d.options } else d).bound ≡ none
      kept true = e
      kept false = e

  module _ (ip : String) (port : ℕ) where
    abbrev ReceiverLeaves : Constructed UdpFeedHandler × os.State → Type 0
    ReceiverLeaves =
        Leaves os (λ e. e ≢ create_failed) (λ h. h.sock)
          (λ h d. IsReceiving port (in_addr (os.inet_pton ip)) d) s0

    make_nonblocking-Leaves :
        (s : os.State) (fd : ℕ) (d : Descriptor)
        → Owns os s0 fd d s
        → d.bound ≡ some port
        → (options : List SocketOption) × (d.options
            ≡ add_membership (in_addr (os.inet_pton ip)) ∷ options)
        → ReceiverLeaves (make_nonblocking os fd s)
    unfolding make_nonblocking
    make_nonblocking-Leaves s fd d h bound member =
        check_some-Leaves os _ _ _ s0 (os.get_flags fd s) flags_failed s _
          (λ flags e.
            let f = bit_or flags o_nonblock in
            let set = os.set_flags fd f s in
            let set-Owns = after_set_flags v h f in
            check-Leaves os _ _ _ s0 set.0 nonblocking_failed set.1 _
              (λ ok.
                let d' : Descriptor = record d { flags = f } in
                let now = done os.descriptor s0 set.1 fd d d' set.0 ok set-Owns in
                (
                  (d', now, record { bound = bound; member = member; nonblocking = (flags, refl) }),
                  close_sock_lem set.1 fd d' now,
                ))
              (inr ((λ bad. cc), (fd, _, set-Owns))))
          (λ e. inr ((λ bad. cc), (fd, d, h)))

    join_group-Leaves :
        (s : os.State) (fd : ℕ) (d : Descriptor)
        → Owns os s0 fd d s
        → d.bound ≡ some port
        → ReceiverLeaves (join_group os ip fd s)
    unfolding join_group
    join_group-Leaves s fd d h bound =
        let group = in_addr (os.inet_pton ip) in
        let joined = os.setsockopt fd (add_membership group) s in
        let joined-Owns = after_setsockopt v h (add_membership group) in
        check-Leaves os _ _ _ s0 joined.0 join_failed joined.1 (make_nonblocking os fd)
          (λ ok.
            let d' : Descriptor = record d { options = add_membership group ∷ d.options } in
            let now = done os.descriptor s0 joined.1 fd d d' joined.0 ok joined-Owns in
            make_nonblocking-Leaves joined.1 fd d' now bound (d.options, refl))
          (inr ((λ bad. cc), (fd, _, joined-Owns)))

    bind_socket-Leaves :
        (s : os.State) (fd : ℕ) (d : Descriptor)
        → Owns os s0 fd d s
        → ReceiverLeaves (bind_socket os ip port fd s)
    unfolding bind_socket
    bind_socket-Leaves s fd d h =
        let h1 = after_setsockopt v h reuse_addr in
        let h2 = after_setsockopt v h1 (rcv_buf (1024 * 1024 * 8)) in
        let s2 =
          (os.setsockopt fd (rcv_buf (1024 * 1024 * 8)) (os.setsockopt fd reuse_addr s).1).1 in
        let bound = os.bind fd port s2 in
        let bound-Owns = after_bind v h2 port in
        check-Leaves os _ _ _ s0 bound.0 bind_failed bound.1 (join_group os ip fd)
          (λ ok.
            join_group-Leaves bound.1 fd _
              (done os.descriptor s0 bound.1 fd _ _ bound.0 ok bound-Owns) refl)
          (inr ((λ bad. cc), (fd, _, bound-Owns)))

    -- UdpFeedHandler's constructor ends in one of three ways. It is done: its descriptor is new, bound to
    -- the port, a member of the group last, and not blocking, and the destructor brings back what was open
    -- before. Or no socket could be made: what is open is as before. Or a later call failed: the descriptor
    -- stays open, since no destructor is called.
    pub new_udp_feed_handler_lem :
        Leaves os
          (λ e. e ≢ create_failed)
          (λ h. h.sock)
          (λ h d. IsReceiving port (in_addr (os.inet_pton ip)) d)
          s0
          (new_udp_feed_handler os ip port s0)
    unfolding new_udp_feed_handler
    new_udp_feed_handler_lem =
        let made = os.socket s0 in
        check_some-Leaves os _ _ _ s0 made.0 create_failed made.1 (bind_socket os ip port)
          (λ fd e. let new = opened fd e in bind_socket-Leaves made.1 fd _ new.1)
          (λ e. inl (refl, λ k. v.socket_failed s0 k e))

    -- UdpDisseminator's constructor never throws once it has a socket: its descriptor is new and not bound,
    -- with the port and the address the datagrams go to, and the destructor brings back what was open
    -- before. Else what is open is as before.
    pub new_udp_disseminator_lem :
        Leaves os
          (λ e. ⊥)
          (λ u. u.sock)
          (IsSender port (in_addr (os.inet_pton ip)))
          s0
          (new_udp_disseminator os ip port s0)
    unfolding new_udp_disseminator set_multicast
    new_udp_disseminator_lem =
        let made = os.socket s0 in
        check_some-Leaves os _ _ _ s0 made.0 create_failed made.1 (set_multicast os ip port)
          (λ fd e.
            let new = (opened fd e).1 in
            let last = set_unbound _ fd (multicast_loop 1) (
              set_unbound _ fd (multicast_ttl 1)
                (set_unbound _ fd (snd_buf (1024 * 1024)) (_, new, refl))) in
            (
              (last.0, last.1, record { dest_port = refl; dest_addr = refl; unbound = last.2 }),
              close_sock_lem _ fd last.0 last.1,
            ))
          (λ e. inl (refl, λ k. v.socket_failed s0 k e))
