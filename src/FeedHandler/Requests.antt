-- ===== src/FeedHandler/Requests.antt =====
-- The requests that reach UdpFeedHandler's receive loop by the end of a drain, while no more than 128 are made.
use mathlib.Core.List.{map-append, append_assoc, append-nil}
use market_data_disseminatio.Base.Tests.{
  ℕ, suc, subst, ◌-◌, ◌+◌, ◌≤◌, ◌≡◌, refl, sym, ap, ◌∙◌, List, map, [], ◌∷◌, ◌++◌, arith, ◌==◌,
  if◌then◌else◌, ==-false,
}
use market_data_disseminatio.Base.Lists.{length, length-append, length-map}
use market_data_disseminatio.FeedHandler.{SubCommand, command_capacity, Request}
use market_data_disseminatio.FeedHandler.Loop.{drained, command_of, accepted}

-- The requests made up to the end of a drain, with `n` commands waiting at first: those listed past its end
-- are not made.
abbrev pub happening : ℕ → List (List Request) → List Request
happening n [] = []
happening n (called ∷ beside) =
    let rest = happening (n + length called - 1) beside in
    called ++ (if n + length called == 0 then [] else rest)

pub accepted-fits :
    (cmds : List SubCommand) (rs : List Request)
    → length cmds + length rs ≤ command_capacity
    → accepted cmds rs ≡ cmds ++ map command_of rs
unfolding accepted
accepted-fits cmds [] h = sym (append-nil cmds)
accepted-fits cmds (r ∷ rs) h = rw (==-false (length cmds) command_capacity (omega arith)) (
    accepted-fits (cmds ++ command_of r ∷ []) rs
      (omega (arith, length-append cmds (command_of r ∷ [])))
    ∙ append_assoc cmds (command_of r ∷ []) (map command_of rs))

-- As long as they have room together, the drain applies all of them, in order.
pub drained-happening :
    (beside : List (List Request)) (cmds : List SubCommand)
    → length cmds + length (happening (length cmds) beside) ≤ command_capacity
    → drained cmds beside ≡ cmds ++ map command_of (happening (length cmds) beside)
unfolding drained
drained-happening [] cmds h = sym (append-nil cmds)
drained-happening (called ∷ beside) cmds h =
    behind (accepted cmds called) (ap length fits ∙ count)
      (omega (arith, h, length-append called (later (length cmds + length called))))
      (λ more. drained-happening beside more)
    ∙ ap (λ l. l ++ map command_of (later (length cmds + length called))) fits
    ∙ append_assoc cmds (map command_of called) _
    ∙ ap (λ l. cmds ++ l) (sym (map-append command_of called _))
  where
    later : ℕ → List Request
    later n = if n == 0 then [] else happening (n - 1) beside

    fits : accepted cmds called ≡ cmds ++ map command_of called
    fits =
        accepted-fits cmds called
          (omega (arith, h, length-append called (later (length cmds + length called))))

    count : length (cmds ++ map command_of called) ≡ length cmds + length called
    count = omega (arith, length-append cmds (map command_of called), length-map command_of called)

    behind :
        (waiting : List SubCommand) {n : ℕ}
        → length waiting ≡ n
        → n + length (later n) ≤ command_capacity
        → ((more : List SubCommand)
            → length more + length (happening (length more) beside) ≤ command_capacity
            → drained more beside ≡ more ++ map command_of (happening (length more) beside))
        → (elim waiting [ [] ↦ [] | cmd ∷ more ↦ cmd ∷ drained more beside ])
          ≡ waiting ++ map command_of (later n)
    behind [] {n} e room again = subst (λ k. [] ≡ map command_of (later k)) e refl
    behind (cmd ∷ more) {n} e room again =
        let m : n ≡ suc (length more) = sym e ∙ omega arith in
        let rest : later n ≡ happening (length more) beside =
          ap later m
          ∙ ap (λ b. if b then [] else happening (suc (length more) - 1) beside)
              (==-false (suc (length more)) 0 (omega arith))
          ∙ ap (λ k. happening k beside) (omega arith) in
        ap (λ l. cmd ∷ l) (again more (omega (arith, m, room, ap length rest)))
        ∙ ap (λ l. (cmd ∷ more) ++ map command_of l) (sym rest)
