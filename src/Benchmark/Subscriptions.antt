-- ===== src/Benchmark/Subscriptions.antt =====
-- The benchmark subscribes to the generator's symbols.
use mathlib.Core.List.{append_assoc, append-nil}
use market_data_disseminatio.Base.Tests.{
  ℕ, suc, ◌+◌, ◌≤◌, ◌≡◌, refl, sym, ap, subst, ◌∙◌, Bool, true, false, if◌then◌else◌, Option, none,
  some, List, map, [], ◌∷◌, ◌++◌, arith, Bool-cases, inl, inr,
}
use market_data_disseminatio.Base.Lists.{length}
use market_data_disseminatio.Symbols.{strip, is_listed, get_lines, tickers_from, read_symbols_file}
use market_data_disseminatio.Queue.Refine.{Holds}
use market_data_disseminatio.FeedHandler.{
  CommandQueue, command_capacity, subscribe, request, requests,
}
use market_data_disseminatio.FeedHandler.Loop.{command_of, requests-Holds}
use market_data_disseminatio.FeedHandler.Requests.{accepted-fits}
use market_data_disseminatio.Benchmark.{
  Subscriber, IsSubscriber, udp_subscriber, subscribe_lines, subscribe_symbols_file,
}

tickers_from-tickers :
    (lines tickers : List (List ℕ)) → tickers_from lines tickers ≡ tickers ++ tickers_from lines []
unfolding tickers_from
tickers_from-tickers [] tickers = sym (append-nil tickers)
tickers_from-tickers (line ∷ lines) tickers = elim (Bool-cases (is_listed (strip line))) [
  | inl e ↦ rw e (
      tickers_from-tickers lines (tickers ++ strip line ∷ [])
      ∙ append_assoc tickers (strip line ∷ []) (tickers_from lines [])
      ∙ ap (λ l. tickers ++ l) (sym (tickers_from-tickers lines (strip line ∷ []))))
  | inr e ↦ rw e (tickers_from-tickers lines tickers)
]

module _ (subscriber : Subscriber) where
  -- `subscribe` for each symbol, up to a call that throws, and how many returned.
  unfoldable pub subscribe_each :
      List (List ℕ) → subscriber.State × ℕ → Bool × (subscriber.State × ℕ)
  subscribe_each [] s = (true, s)
  subscribe_each (symbol ∷ symbols) (state, n) =
      let subscribed = subscriber.subscribe_one symbol state in
      let rest = subscribe_each symbols (subscribed.1, n + 1) in
      if subscribed.0 then rest else (false, (subscribed.1, n))

  -- The same lines, kept or skipped in the same way.
  subscribe_lines_lem :
      (lines : List (List ℕ)) (state : subscriber.State) (n : ℕ)
      → subscribe_lines subscriber lines (state, n)
        ≡ subscribe_each (tickers_from lines []) (state, n)
  unfolding subscribe_lines subscribe_each tickers_from
  subscribe_lines_lem [] state n = refl
  subscribe_lines_lem (line ∷ lines) state n = elim (Bool-cases (is_listed (strip line))) [
    | inl e ↦
        let more : tickers_from lines (strip line ∷ []) ≡ strip line ∷ tickers_from lines [] =
          tickers_from-tickers lines (strip line ∷ []) in
        let subscribed = subscriber.subscribe_one (strip line) state in
        elim (Bool-cases subscribed.0) [
          | inl returned ↦ rw (e, more, returned) (subscribe_lines_lem lines subscribed.1 (n + 1))
          | inr thrown ↦ rw (e, more, thrown) refl
        ]
    | inr e ↦ rw e (subscribe_lines_lem lines state n)
  ]

  -- The benchmark subscribes to exactly the symbols that the generator reads from the same file, in the
  -- same order, up to a call of `subscribe` that throws, and counts those that return.
  pub subscribe_symbols_file_lem :
      (file : Option (List ℕ)) (state : subscriber.State)
      → subscribe_symbols_file subscriber file state
        ≡ subscribe_each (read_symbols_file file) (state, 0)
  unfolding subscribe_symbols_file read_symbols_file subscribe_each
  subscribe_symbols_file_lem none state = refl
  subscribe_symbols_file_lem (some bytes) state = subscribe_lines_lem (get_lines bytes) state 0

module _ {subscriber : Subscriber} (ready : IsSubscriber subscriber) where
  -- What a run of calls keeps, and the call that throws, where one does.
  record Called (done : Bool × (subscriber.State × ℕ)) : Type 0 where
    kept : ready.Ready done.1.0
    thrown :
        done.0 ≡ false
        → (symbol : List ℕ) × (state : subscriber.State) × ready.Ready state
          × ((subscriber.subscribe_one symbol state).0 ≡ false)

  subscribe_each-Called :
      (symbols : List (List ℕ)) (state : subscriber.State) (n : ℕ)
      → ready.Ready state
      → Called (subscribe_each subscriber symbols (state, n))
  unfolding subscribe_each
  subscribe_each-Called [] state n now = record { kept = now; thrown = λ e. cc }
  subscribe_each-Called (symbol ∷ symbols) state n now =
      let subscribed = subscriber.subscribe_one symbol state in
      let next = ready.subscribe_keeps symbol state now in
      let rest = subscribe_each subscriber symbols (subscribed.1, n + 1) in
      let choose : Bool → Bool × (subscriber.State × ℕ) =
        λ b. if b then rest else (false, (subscribed.1, n)) in
      elim (Bool-cases subscribed.0) [
        | inl returned ↦
            subst Called (sym (ap choose returned))
              (subscribe_each-Called symbols subscribed.1 (n + 1) next)
        | inr thrown ↦
            subst Called (sym (ap choose thrown))
              (record { kept = next; thrown = λ e. (symbol, state, now, thrown) })
      ]

  subscribe_symbols_file-Called :
      (file : Option (List ℕ)) (state : subscriber.State)
      → ready.Ready state
      → Called (subscribe_symbols_file subscriber file state)
  subscribe_symbols_file-Called file state now =
      subst Called (sym (subscribe_symbols_file_lem subscriber file state))
        (subscribe_each-Called (read_symbols_file file) state 0 now)

  pub subscribe_symbols_file-Ready :
      (file : Option (List ℕ)) (state : subscriber.State)
      → ready.Ready state
      → ready.Ready (subscribe_symbols_file subscriber file state).1.0
  subscribe_symbols_file-Ready file state now = (subscribe_symbols_file-Called file state now).kept

  -- Where a call throws, the subscriptions were as they should be before it.
  pub subscribe_symbols_file-false :
      (file : Option (List ℕ)) (state : subscriber.State)
      → ready.Ready state
      → (subscribe_symbols_file subscriber file state).0 ≡ false
      → (symbol : List ℕ) × (state : subscriber.State) × ready.Ready state
        × ((subscriber.subscribe_one symbol state).0 ≡ false)
  subscribe_symbols_file-false file state now =
      (subscribe_symbols_file-Called file state now).thrown

subscribe_each-udp :
    (symbols : List (List ℕ)) (q : CommandQueue) (n : ℕ)
    → subscribe_each udp_subscriber symbols (q, n)
      ≡ (true, (requests (map subscribe symbols) q, n + length symbols))
unfolding subscribe_each requests
subscribe_each-udp [] q n = ap (λ k. (true, (q, k))) (omega arith)
subscribe_each-udp (symbol ∷ symbols) q n =
    subscribe_each-udp symbols (request (subscribe symbol) q) (n + 1)
    ∙ ap (λ k. (true, (requests (map subscribe symbols) (request (subscribe symbol) q), k)))
        (omega arith)

-- Over UDP no call throws.
pub subscribe_symbols_file-udp :
    (file : Option (List ℕ)) (q : CommandQueue)
    → subscribe_symbols_file udp_subscriber file q ≡ (
      true,
      (requests (map subscribe (read_symbols_file file)) q, length (read_symbols_file file)),
    )
subscribe_symbols_file-udp file q =
    subscribe_symbols_file_lem udp_subscriber file q
    ∙ subscribe_each-udp (read_symbols_file file) q 0
    ∙ ap (λ k. (true, (requests (map subscribe (read_symbols_file file)) q, k))) (omega arith)

-- For a file of at most 128 symbols, and with no command waiting before, the command queue then holds a
-- subscription to every one of them, in order.
pub subscribe_symbols_file-Holds :
    (file : Option (List ℕ)) (q : CommandQueue)
    → Holds command_capacity q []
    → length (read_symbols_file file) ≤ command_capacity
    → Holds command_capacity
        (subscribe_symbols_file udp_subscriber file q).1.0
        (map command_of (map subscribe (read_symbols_file file)))
subscribe_symbols_file-Holds file q h few =
    rw
      (
        ap (λ r. r.1.0) (subscribe_symbols_file-udp file q),
        ← accepted-fits [] (map subscribe (read_symbols_file file))
            (omega (arith, length-map (read_symbols_file file))),
      )
      (requests-Holds (map subscribe (read_symbols_file file)) h)
  where
    length-map : (l : List (List ℕ)) → length (map subscribe l) ≡ length l
    length-map [] = refl
    length-map (x ∷ l) = ap suc (length-map l)
