-- ===== src/Sockets/Toy.antt =====
-- A system of two descriptors at most, to try the constructors on.
use market_data_disseminatio.Base.Tests.{
  ℕ, ◌≡◌, refl, ap, ◌∙◌, Bool, true, false, Option, none, some, [], ◌∷◌, ◌==◌, if◌then◌else◌,
}
use market_data_disseminatio.Sockets.{Descriptor, Os, Becomes, IsOs}

-- The descriptors are those of a table; ports below 1024 cannot be bound.
abbrev Table : Type 0
Table = ℕ → Option Descriptor

abbrev put : ℕ → Option Descriptor → Table → Table
put fd d s k = if k == fd then d else s k

abbrev call : ℕ → Bool → (Descriptor → Descriptor) → Table → Bool × Table
call fd allowed f s = elim (s fd) [
  | none ↦ (false, s)
  | some d ↦ (allowed, put fd (some (if allowed then f d else d)) s)
]

abbrev pub new : Descriptor
new = record { options = []; bound = none; flags = 2 }

-- The first of 3 and 4 that is free, by their entries.
abbrev open_free : Option Descriptor → Option Descriptor → Table → Option ℕ × Table
open_free none o s = (some 3, put 3 (some new) s)
open_free (some d) none s = (some 4, put 4 (some new) s)
open_free (some d) (some d') s = (none, s)

abbrev pub toy : Os
toy = record {
  State = Table;
  socket = λ s. open_free (s 3) (s 4) s;
  setsockopt = λ fd o s. call fd true (λ d. record d { options = o ∷ d.options }) s;
  bind = λ fd port s.
      call fd (if port == 80 then false else true) (λ d. record d { bound = some port }) s;
  get_flags = λ fd s. elim (s fd) [ none ↦ none | some d ↦ some d.flags ];
  set_flags = λ fd f s. call fd true (λ d. record d { flags = f }) s;
  close = λ fd s. put fd none s;
  inet_pton = λ ip. some 0xEF000001;
  descriptor = λ s fd. s fd;
}

-- A call on an open descriptor, the table's entry read off beforehand.
call_lem :
    (fd : ℕ) (allowed : Bool) (f : Descriptor → Descriptor) (s : Table) (d : Descriptor)
    → s fd ≡ some d
    → Becomes toy s fd (if (call fd allowed f s).0 then f d else d) (call fd allowed f s).1
call_lem fd true f s d e k = rw (call, e) refl
call_lem fd false f s d e k = rw (call, e) refl

open_free-some :
    (o o' : Option Descriptor) (s : Table) (fd : ℕ)
    → s 3 ≡ o
    → s 4 ≡ o'
    → (open_free o o' s).0 ≡ some fd
    → (s fd ≡ none)
      × ((flags : ℕ) × Becomes toy s fd (record new { flags = flags }) (open_free o o' s).1)
open_free-some none o' s fd e e' found =
    let three : fd ≡ 3 = cc in (ap s three ∙ e, (2, λ k. rw three refl))
open_free-some (some d) none s fd e e' found =
    let four : fd ≡ 4 = cc in (ap s four ∙ e', (2, λ k. rw four refl))
open_free-some (some d) (some d') s fd e e' found = cc

open_free-none :
    (o o' : Option Descriptor) (s : Table) (k : ℕ)
    → (open_free o o' s).0 ≡ none
    → (open_free o o' s).1 k ≡ s k
open_free-none none o' s k found = cc
open_free-none (some d) none s k found = cc
open_free-none (some d) (some d') s k found = refl

pub toy-IsOs : IsOs toy
toy-IsOs = record {
  socket_new = λ s fd found. open_free-some (s 3) (s 4) s fd refl refl found;
  socket_failed = λ s k failed. open_free-none (s 3) (s 4) s k failed;
  setsockopt_sets = λ s fd o d e. call_lem fd true _ s d e;
  bind_binds = λ s fd port d e. call_lem fd _ _ s d e;
  set_flags_sets = λ s fd f d e. call_lem fd true _ s d e;
  close_closes = λ s fd k. refl;
}

abbrev pub none_open : Table
none_open k = none
