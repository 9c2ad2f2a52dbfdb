-- ===== src/Sockets/ZmqToy.antt =====
-- A small ZeroMQ library.
use Prim.Native.String.{String}
use market_data_disseminatio.Base.Tests.{
  ℕ, ◌≡◌, refl, ap, ◌∙◌, Bool, true, false, Option, none, some, [], ◌∷◌, ◌==◌, if◌then◌else◌,
}
use market_data_disseminatio.Base.Handles.{Turns, Same}
use market_data_disseminatio.Sockets.Zmq.{SocketType, pub_socket, sub_socket, ZmqSocket, Zmq, IsZmq}
use market_data_disseminatio.Sockets.ZmqClosed.{Obliging}

-- One socket of each type at most, with the handles 7 and 8; an address "" cannot be connected to.
abbrev pub Table : Type 0
Table = ℕ → Option ZmqSocket

abbrev pub put : ℕ → Option ZmqSocket → Table → Table
put h d s k = if k == h then d else s k

abbrev pub call : ℕ → Bool → (ZmqSocket → ZmqSocket) → Table → Bool × Table
call h allowed f s = elim (s h) [
  | none ↦ (false, s)
  | some d ↦ (allowed, put h (some (if allowed then f d else d)) s)
]

abbrev pub is_empty_text : String → Bool
is_empty_text String.[] = true
is_empty_text (String.◌∷◌ c s) = false

abbrev pub slot : SocketType → ℕ
slot pub_socket = 7
slot sub_socket = 8

abbrev pub open_slot : SocketType → Option ZmqSocket → Table → Option ℕ × Table
open_slot kind none s = (
  some (slot kind),
  put (slot kind) (some (record { kind = kind; bound = none; connected = none; options = [] })) s,
)
open_slot kind (some d) s = (none, s)

abbrev pub toy : Zmq
toy = record {
  State = Table;
  socket = λ kind s. open_slot kind (s (slot kind)) s;
  bind = λ h address s. call h true (λ d. record d { bound = some address }) s;
  connect = λ h address s.
      call h (if is_empty_text address then false else true)
        (λ d. record d { connected = some address }) s;
  set = λ h o s. call h true (λ d. record d { options = o ∷ d.options }) s;
  close = λ h s. put h none s;
  look = λ s h. s h;
}

call_lem :
    (h : ℕ) (allowed : Bool) (f : ZmqSocket → ZmqSocket) (s : Table) (d : ZmqSocket)
    → s h ≡ some d
    → Turns toy.look s h (if (call h allowed f s).0 then f d else d) (call h allowed f s).1
call_lem h true f s d e k = rw (call, e) refl
call_lem h false f s d e k = rw (call, e) refl

open_slot-some :
    (kind : SocketType) (o : Option ZmqSocket) (s : Table) (h : ℕ)
    → s (slot kind) ≡ o
    → (open_slot kind o s).0 ≡ some h
    → (s h ≡ none)
      × Turns toy.look s h
          (record { kind = kind; bound = none; connected = none; options = [] })
          (open_slot kind o s).1
open_slot-some kind none s h e found =
    let first : h ≡ slot kind = cc in (ap s first ∙ e, λ k. rw first refl)
open_slot-some kind (some d) s h e found = cc

open_slot-none :
    (kind : SocketType) (o : Option ZmqSocket) (s : Table)
    → (open_slot kind o s).0 ≡ none
    → Same toy.look s (open_slot kind o s).1
open_slot-none kind none s failed k = cc
open_slot-none kind (some d) s failed k = refl

pub toy-IsZmq : IsZmq toy
toy-IsZmq = record {
  socket_new = λ kind s h found. open_slot-some kind (s (slot kind)) s h refl found;
  socket_failed = λ kind s failed. open_slot-none kind (s (slot kind)) s failed;
  bind_binds = λ s h address d e. call_lem h true _ s d e;
  connect_connects = λ s h address d e. call_lem h _ _ s d e;
  set_sets = λ s h o d e. call_lem h true _ s d e;
  close_closes = λ s h k. refl;
}

abbrev pub none_open : Table
none_open k = none

pub toy-Obliging : Obliging toy
toy-Obliging s h o d e = rw (call, e) refl
