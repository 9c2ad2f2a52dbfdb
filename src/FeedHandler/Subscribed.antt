-- ===== src/FeedHandler/Subscribed.antt =====
-- The filter of UdpFeedHandler in the client's terms: symbols by name, and the last request about each.
use market_data_disseminatio.Base.Tests.{
  ℕ, some, ◌≤◌, ◌<◌, ◌≡◌, refl, sym, ap, ap₂, ◌∙◌, Bool, true, false, ◌&&◌, List, map, [], ◌∷◌,
  ◌++◌, arith, ◌==◌, if◌then◌else◌, ==-false, ==-refl, Bool-cases, inl, inr,
}
use market_data_disseminatio.Base.Lists.{length, All}
use market_data_disseminatio.Symbols.{pack_symbol, IsText}
use market_data_disseminatio.Symbols.Pack.{pack_symbol-injective}
use market_data_disseminatio.FeedHandler.{
  command_capacity, contains, Request, subscribe, unsubscribe, Round, apply_command, Receiver,
  receive_loop,
}
use market_data_disseminatio.Queue.Refine.{Holds}
use market_data_disseminatio.FeedHandler.Commands.{apply_all}
use market_data_disseminatio.FeedHandler.Filter.{contains-apply_command}
use market_data_disseminatio.FeedHandler.Requests.{happening, drained-happening}
use market_data_disseminatio.FeedHandler.Loop.{
  command_of, Listener, listen_round, listen, listener_of, receive_loop_refines,
}

abbrev pub same : List ℕ → List ℕ → Bool
same [] [] = true
same [] (d ∷ t) = false
same (c ∷ s) [] = false
same (c ∷ s) (d ∷ t) = (c == d) && same s t

pub same_refl : (s : List ℕ) → same s s ≡ true
same_refl [] = refl
same_refl (c ∷ s) = ground (arith, same_refl s)

eq_of_same : (s t : List ℕ) → same s t ≡ true → s ≡ t
eq_of_same [] [] h = refl
eq_of_same [] (d ∷ t) h = cc
eq_of_same (c ∷ s) [] h = cc
eq_of_same (c ∷ s) (d ∷ t) h = ap₂ ◌∷◌ (ground arith) (eq_of_same s t (ground arith))

abbrev pub symbol : Request → List ℕ
symbol (subscribe u) = u
symbol (unsubscribe u) = u

abbrev pub on : Request → Bool
on (subscribe u) = true
on (unsubscribe u) = false

-- Whether the client wants `s` after some requests, `before` saying whether it did at first: the last
-- request about `s` decides.
abbrev pub wants : Bool → List Request → List ℕ → Bool
wants before [] s = before
wants before (r ∷ rs) s = wants (if same (symbol r) s then on r else before) rs s

-- A symbol that the filter takes: at most 8 bytes, none of them NUL.
pub record IsRequest (r : Request) : Type 0 where
  pub short : length (symbol r) < 9
  pub text : IsText (symbol r)

-- The requests made before a stop.
abbrev pub requested : List Round → List Request
requested [] = []
requested (round ∷ rounds) =
    let rest = requested rounds in
    if round.stop_requested then [] else happening 0 round.called ++ rest

pub record IsRound (round : Round) : Type 0 where
  pub few : length (happening 0 round.called) ≤ command_capacity
  pub valid : All IsRequest (happening 0 round.called)

pack-same :
    (u s : List ℕ)
    → length u < 9
    → IsText u
    → length s < 9
    → IsText s
    → (pack_symbol u == pack_symbol s) ≡ same u s
pack-same u s hu tu hs ts = elim (Bool-cases (same u s)) [
  | inl e ↦ rw (eq_of_same u s e) (==-refl (pack_symbol s) ∙ sym (same_refl s))
  | inr ne ↦ rw ne (
      ==-false (pack_symbol u) (pack_symbol s)
        (λ p. differ (pack_symbol-injective u s hu hs tu ts p) ne))
]
  where
    differ : u ≡ s → same u s ≡ false → ⊥
    differ e ne = let t : same u s ≡ true = rw e (same_refl s) in cc

wants-append :
    (s : List ℕ) (before : Bool) (rs more : List Request)
    → wants before (rs ++ more) s ≡ wants (wants before rs s) more s
wants-append s before [] more = refl
wants-append s before (r ∷ rs) more =
    wants-append s (if same (symbol r) s then on r else before) rs more

module _ (s : List ℕ) (short : length s < 9) (text : IsText s) where
  -- One request, seen by its symbol.
  contains-command :
      (r : Request) (subs : List ℕ)
      → IsRequest r
      → contains (apply_command (command_of r) subs) (pack_symbol s)
        ≡ (if same (symbol r) s then on r else contains subs (pack_symbol s))
  contains-command (subscribe u) subs v =
      contains-apply_command (command_of (subscribe u)) (pack_symbol s) subs
      ∙ ap (λ b. if b then true else contains subs (pack_symbol s))
          (pack-same u s v.short v.text short text)
  contains-command (unsubscribe u) subs v =
      contains-apply_command (command_of (unsubscribe u)) (pack_symbol s) subs
      ∙ ap (λ b. if b then false else contains subs (pack_symbol s))
          (pack-same u s v.short v.text short text)

  pub contains-apply_all :
      (rs : List Request) (subs : List ℕ)
      → All IsRequest rs
      → contains (apply_all (map command_of rs) subs) (pack_symbol s)
        ≡ wants (contains subs (pack_symbol s)) rs s
  unfolding apply_all
  contains-apply_all [] subs v = refl
  contains-apply_all (r ∷ rs) subs v =
      contains-apply_all rs (apply_command (command_of r) subs) v.1
      ∙ ap (λ b. wants b rs s) (contains-command r subs v.0)

  contains-listen_round :
      (round : Round) (l : Listener)
      → IsRound round
      → contains (listen_round round l).subscriptions (pack_symbol s)
        ≡ wants (contains l.subscriptions (pack_symbol s)) (happening 0 round.called) s
  unfolding listen_round
  contains-listen_round round l v =
      ap (λ cmds. contains (apply_all cmds l.subscriptions) (pack_symbol s))
        (drained-happening round.called [] (omega (arith, v.few)))
      ∙ contains-apply_all (happening 0 round.called) l.subscriptions v.valid

  contains-listen :
      (rounds : List Round) (l : Listener)
      → All IsRound rounds
      → contains (listen rounds l).subscriptions (pack_symbol s)
        ≡ wants (contains l.subscriptions (pack_symbol s)) (requested rounds) s
  unfolding listen
  contains-listen [] l v = refl
  contains-listen (round ∷ rounds) l v = elim (Bool-cases round.stop_requested) [
    | inl e ↦ ap first e ∙ sym (ap spec e)
    | inr e ↦
        ap first e
        ∙ contains-listen rounds (listen_round round l) v.1
        ∙ ap (λ b. wants b (requested rounds) s) (contains-listen_round round l v.0)
        ∙ sym (
            wants-append s (contains l.subscriptions (pack_symbol s)) (happening 0 round.called)
              (requested rounds))
        ∙ sym (ap spec e)
  ]
    where
      first : Bool → Bool
      first b =
          contains (if b then l else listen rounds (listen_round round l)).subscriptions
            (pack_symbol s)

      spec : Bool → Bool
      spec b =
          wants (contains l.subscriptions (pack_symbol s))
            (if b then [] else happening 0 round.called ++ requested rounds) s

  -- While the client makes at most 128 requests from the end of a drain to the end of the next, each about a
  -- symbol of at most 8 bytes with no NUL, and with an empty command queue at first: the receive loop does not get stuck, and
  -- the set by which it filters holds the packed number of any such symbol exactly when the last request
  -- about that symbol, before a stop, was to subscribe, or, with no request about it, when it did before. No
  -- two symbols share a number, and no request is lost or overtaken.
  pub receive_loop-wants :
      (rounds : List Round) (r : Receiver)
      → Holds command_capacity r.command_queue []
      → All IsRound rounds
      → (r' : Receiver) × (receive_loop rounds r ≡ some r')
        × (contains r'.local_subscriptions (pack_symbol s)
            ≡ wants (contains r.local_subscriptions (pack_symbol s)) (requested rounds) s)
  receive_loop-wants rounds r h v =
      let (r', run, same, empty) = receive_loop_refines rounds r h in
      (
        r',
        run,
        ap (λ (l : Listener). contains l.subscriptions (pack_symbol s)) same
            ∙ contains-listen rounds (listener_of r) v,
      )
