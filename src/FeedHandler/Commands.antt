-- ===== src/FeedHandler/Commands.antt =====
-- The command queue between the client of UdpFeedHandler and its receive loop.
use market_data_disseminatio.Base.Tests.{
  ℕ, zero, suc, ◌<◌, ◌≡◌, refl, ap, ◌∙◌, true, false, some, List, [], ◌∷◌, ◌++◌, arith,
}
use market_data_disseminatio.Base.Lists.{length}
use market_data_disseminatio.Symbols.{pack_symbol}
use market_data_disseminatio.Queue.{pop, nothing, item}
use market_data_disseminatio.Queue.Refine.{
  IsCapacity, Holds, push-full, push-Holds, pop-nil, pop-Holds,
}
use market_data_disseminatio.FeedHandler.{
  SubCommand, CommandQueue, command_capacity, subscribe_impl, unsubscribe_impl, apply_command,
  drain,
}

pub command_capacity-IsCapacity : IsCapacity command_capacity
command_capacity-IsCapacity = record { positive = omega arith; small = omega arith; divides = refl }

-- The commands, applied in order.
unfoldable pub apply_all : List SubCommand → List ℕ → List ℕ
apply_all [] subs = subs
apply_all (cmd ∷ cmds) subs = apply_all cmds (apply_command cmd subs)

drain-nothing :
    (fuel : ℕ) (q : CommandQueue) (subs : List ℕ)
    → pop command_capacity q ≡ (nothing, q)
    → drain (suc fuel) q subs ≡ some (q, subs)
unfolding drain
drain-nothing fuel q subs e =
    let first : (pop command_capacity q).0 ≡ nothing = ap (λ p. p.0) e in
    rw (drain, first) (ap (λ p. some (p.1, subs)) e)

drain-item :
    (fuel : ℕ) (q : CommandQueue) (cmd : SubCommand) (subs : List ℕ)
    → (pop command_capacity q).0 ≡ item cmd
    → drain (suc fuel) q subs ≡ drain fuel (pop command_capacity q).1 (apply_command cmd subs)
unfolding drain
drain-item fuel q cmd subs e = rw (drain, e)

-- Draining ends, applies every command that the queue holds in the order in which the client gave
-- them, and leaves the queue empty; one call of `pop` more than there are commands is enough.
pub drain_lem :
    (cmds : List SubCommand) {q : CommandQueue} (subs : List ℕ) (fuel : ℕ)
    → Holds command_capacity q cmds
    → length cmds < fuel
    → (q' : CommandQueue) × (drain fuel q subs ≡ some (q', apply_all cmds subs))
      × Holds command_capacity q' []
unfolding apply_all
drain_lem cmds subs zero h lt = absurd (omega arith)
drain_lem [] {q} subs (suc fuel) h lt =
    (q, drain-nothing fuel q subs (pop-nil command_capacity-IsCapacity h), h)
drain_lem (cmd ∷ cmds) {q} subs (suc fuel) h lt =
    let (e, h') = pop-Holds command_capacity-IsCapacity h in
    let (q', done, empty) = drain_lem cmds (apply_command cmd subs) fuel h' (omega arith) in
    (q', drain-item fuel q cmd subs e ∙ done, empty)

-- With room for it, a subscription goes behind the commands that wait.
pub subscribe_impl-Holds :
    (symbol : List ℕ) {q : CommandQueue} {cmds : List SubCommand}
    → Holds command_capacity q cmds
    → length cmds < command_capacity
    → Holds command_capacity
        (subscribe_impl symbol q)
        (cmds ++ record { is_subscribe = true; symbol_id = pack_symbol symbol } ∷ [])
unfolding subscribe_impl
subscribe_impl-Holds symbol h room = (push-Holds command_capacity-IsCapacity _ h room).1

pub unsubscribe_impl-Holds :
    (symbol : List ℕ) {q : CommandQueue} {cmds : List SubCommand}
    → Holds command_capacity q cmds
    → length cmds < command_capacity
    → Holds command_capacity
        (unsubscribe_impl symbol q)
        (cmds ++ record { is_subscribe = false; symbol_id = pack_symbol symbol } ∷ [])
unfolding unsubscribe_impl
unsubscribe_impl-Holds symbol h room = (push-Holds command_capacity-IsCapacity _ h room).1

-- With 128 commands waiting, a subscription is lost: nothing changes, and the caller gets no sign.
pub subscribe_impl-full :
    (symbol : List ℕ) {q : CommandQueue} {cmds : List SubCommand}
    → Holds command_capacity q cmds
    → length cmds ≡ command_capacity
    → subscribe_impl symbol q ≡ q
unfolding subscribe_impl
subscribe_impl-full symbol h full = ap (λ p. p.1) (push-full command_capacity-IsCapacity _ h full)
