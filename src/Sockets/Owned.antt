-- ===== src/Sockets/Owned.antt =====
-- The socket calls on one new descriptor, one after the other.
use market_data_disseminatio.Base.Tests.{ℕ, ◌≡◌, some, ◌∷◌, if◌then◌else◌}
use market_data_disseminatio.Base.Handles.{Held, at_self, then_Held, closed_Same}
use market_data_disseminatio.Sockets.{SocketOption, Descriptor, Os, IsOs}

-- Since the state `s0`, the descriptor `fd` was opened, and is `d` now.
abbrev pub Owns : (os : Os) → os.State → ℕ → Descriptor → os.State → Type 0
Owns os = Held os.descriptor

module _ {os : Os} (v : IsOs os) where
  module _ {s0 s : os.State} {fd : ℕ} {d : Descriptor} (h : Owns os s0 fd d s) where
    pub after_setsockopt :
        (o : SocketOption)
        → Owns os s0 fd
            (if (os.setsockopt fd o s).0 then record d { options = o ∷ d.options } else d)
            (os.setsockopt fd o s).1
    after_setsockopt o =
        then_Held os.descriptor s0 s fd d _ _ h
          (v.setsockopt_sets s fd o d (at_self os.descriptor s0 s fd d h))

    pub after_bind :
        (port : ℕ)
        → Owns os s0 fd
            (if (os.bind fd port s).0 then record d { bound = some port } else d)
            (os.bind fd port s).1
    after_bind port =
        then_Held os.descriptor s0 s fd d _ _ h
          (v.bind_binds s fd port d (at_self os.descriptor s0 s fd d h))

    pub after_set_flags :
        (f : ℕ)
        → Owns os s0 fd
            (if (os.set_flags fd f s).0 then record d { flags = f } else d)
            (os.set_flags fd f s).1
    after_set_flags f =
        then_Held os.descriptor s0 s fd d _ _ h
          (v.set_flags_sets s fd f d (at_self os.descriptor s0 s fd d h))

    -- Closing the descriptor leaves all as it was.
    pub after_close : (k : ℕ) → os.descriptor (os.close fd s) k ≡ os.descriptor s0 k
    after_close = closed_Same os.descriptor s0 s fd d _ h (λ k. v.close_closes s fd k)
