-- ===== src/Sockets.antt =====
-- What the UDP classes use of the operating system: src/disseminator/UdpDisseminator.h and
-- src/feedhandler/UdpFeedHandler.h call the POSIX socket functions, which are a parameter here, with what
-- their documentation says of descriptors.
pub mod Owned
pub mod Udp
pub mod Opened
pub mod Zmq
pub mod ZmqOpened
pub mod ZmqClosed
pub mod ZmqToy
pub mod Toy
mod Tests
mod ZmqTests
use Prim.Native.String.{String}
use market_data_disseminatio.Base.Handles.{Turns}
use market_data_disseminatio.Base.Tests.{
  ℕ, ◌≡◌, ◌⊎◌, Bool, Option, none, some, List, [], ◌∷◌, ◌==◌, if◌then◌else◌,
}

-- The options that are set by `setsockopt`, with their values; a group is an IPv4 address.
pub data SocketOption : Type 0 where
  reuse_addr : SocketOption
  rcv_buf snd_buf multicast_ttl multicast_loop add_membership : ℕ → SocketOption

-- What is known of an open descriptor, the option set last first.
pub record Descriptor : Type 0 where
  pub options : List SocketOption
  pub bound : Option ℕ
  pub flags : ℕ

-- `none` and `false` stand for -1; `inet_pton` gives an address in network order, or `none` where the text
-- is no address.
pub record Os : Type 1 where
  pub State : Type 0
  pub socket : State → Option ℕ × State
  pub setsockopt : ℕ → SocketOption → State → Bool × State
  pub bind : ℕ → ℕ → State → Bool × State
  pub get_flags : ℕ → State → Option ℕ
  pub set_flags : ℕ → ℕ → State → Bool × State
  pub close : ℕ → State → State
  pub inet_pton : String → Option ℕ
  pub descriptor : State → ℕ → Option Descriptor

-- The descriptors after a call are those before, but for one.
abbrev pub Becomes : (os : Os) → os.State → ℕ → Descriptor → os.State → Type 0
Becomes os = Turns os.descriptor

-- A new descriptor is one that was not open; a call that fails changes nothing.
pub record IsOs (os : Os) : Type 0 where
  pub socket_new :
      (s : os.State) (fd : ℕ)
      → (os.socket s).0 ≡ some fd
      → (os.descriptor s fd ≡ none)
        × ((flags : ℕ) × Becomes os s fd
              (record { options = []; bound = none; flags = flags })
              (os.socket s).1)
  pub socket_failed :
      (s : os.State) (k : ℕ)
      → (os.socket s).0 ≡ none
      → os.descriptor (os.socket s).1 k ≡ os.descriptor s k
  pub setsockopt_sets :
      (s : os.State) (fd : ℕ) (o : SocketOption) (d : Descriptor)
      → os.descriptor s fd ≡ some d
      → Becomes os s fd
          (if (os.setsockopt fd o s).0 then record d { options = o ∷ d.options } else d)
          (os.setsockopt fd o s).1
  pub bind_binds :
      (s : os.State) (fd port : ℕ) (d : Descriptor)
      → os.descriptor s fd ≡ some d
      → Becomes os s fd
          (if (os.bind fd port s).0 then record d { bound = some port } else d)
          (os.bind fd port s).1
  pub set_flags_sets :
      (s : os.State) (fd f : ℕ) (d : Descriptor)
      → os.descriptor s fd ≡ some d
      → Becomes os s fd
          (if (os.set_flags fd f s).0 then record d { flags = f } else d)
          (os.set_flags fd f s).1
  pub close_closes :
      (s : os.State) (fd k : ℕ)
      → os.descriptor (os.close fd s) k ≡ (if k == fd then none else os.descriptor s k)
