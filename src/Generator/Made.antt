-- ===== src/Generator/Made.antt =====
-- What the pacing loop pushes: messages about the generator's symbols, of values of their C++ types.
use market_data_disseminatio.Base.Tests.{
  ℕ, zero, suc, ◌^◌, ◌<◌, ◌≡◌, refl, sym, ap, subst, ◌∙◌, Bool, true, Option, some, List, [], ◌∷◌,
  arith, leb, if◌then◌else◌, Bool-cases, inl, inr,
}
use market_data_disseminatio.Base.Lists.{length, get_elem?, All, All-append}
use market_data_disseminatio.Types.{MarketDataMsg, quote, trade, IsMsg, symbol_of}
use market_data_disseminatio.Symbols.{stored_symbol, IsText}
use market_data_disseminatio.Symbols.Pack.{
  length-stored_symbol, stored_symbol-IsByte, IsText-IsByte,
}
use market_data_disseminatio.Generator.{Random}
use market_data_disseminatio.Generator.Settings.{IsConfigured}
use market_data_disseminatio.Generator.Walk.{IsDrawn, generate_msg_impl_lem}
use market_data_disseminatio.Generator.Pace.{
  Pushed, taken, dropped, pushing, push_until, Tick, stamp_enqueued, Pace, after_push, tick,
  generation_loop,
}
use market_data_disseminatio.Generator.Rate.{loop_end, loop_stop, loop_tick}

-- A message about one of the symbols, as the generator stores it.
pub record IsMade (symbols : List (List ℕ)) (msg : MarketDataMsg) : Type 0 where
  pub msg_ok : IsMsg msg
  pub idx : ℕ
  pub symbol : List ℕ
  pub listed : get_elem? symbols idx ≡ some symbol
  pub stored : symbol_of msg ≡ stored_symbol symbol

All-get {ℓ κ} :
    {A : Type ℓ} (P : A → Type κ) (xs : List A) (i : ℕ) {x : A}
    → All P xs
    → get_elem? xs i ≡ some x
    → P x
All-get P [] i h e = cc
All-get P (y ∷ xs) zero h e = subst P (cc) h.0
All-get P (y ∷ xs) (suc i) h e = All-get P xs i h.1 e

drawn-IsMsg :
    (made_at at : ℕ) (msg : MarketDataMsg) (s : List ℕ)
    → IsDrawn made_at msg
    → symbol_of msg ≡ stored_symbol s
    → IsText s
    → at < 2 ^ 64
    → IsMsg (stamp_enqueued at msg)
drawn-IsMsg made_at at (quote q) s d e text h = record {
  symbol_size = ap length e ∙ length-stored_symbol s;
  symbol_bytes = rw e (stored_symbol-IsByte s (IsText-IsByte s text));
  bid_word = d.4;
  ask_word = d.5;
  bid_size_word = omega arith;
  ask_size_word = omega arith;
  enqueue_word = h;
  disseminate_word = omega arith;
}
drawn-IsMsg made_at at (trade t) s d e text h = record {
  symbol_size = ap length e ∙ length-stored_symbol s;
  symbol_bytes = rw e (stored_symbol-IsByte s (IsText-IsByte s text));
  price_word = d.2;
  size_word = omega arith;
  enqueue_word = h;
  disseminate_word = omega arith;
}

symbol-stamp_enqueued :
    (at : ℕ) (msg : MarketDataMsg) → symbol_of (stamp_enqueued at msg) ≡ symbol_of msg
symbol-stamp_enqueued at (quote q) = refl
symbol-stamp_enqueued at (trade t) = refl

module _ {random : Random} (symbols : List (List ℕ)) (texts : All IsText symbols) where
  -- The generator can run, on these symbols, and what it has pushed is about them.
  pub record Makes (p : Pace random) : Type 0 where
    pub configured : IsConfigured p.generator
    pub same_symbols : p.generator.symbols ≡ symbols
    pub pushed_made : All (IsMade symbols) p.pushed

  after_push-Makes :
      (answer : Pushed) (msg : MarketDataMsg) (p : Pace random)
      → Makes p
      → IsMade symbols msg
      → Makes (after_push random answer msg p).1
  unfolding after_push
  after_push-Makes taken msg p v made = record {
    configured = v.configured;
    same_symbols = v.same_symbols;
    pushed_made = All-append (IsMade symbols) p.pushed (msg ∷ []) v.pushed_made (made, tt);
  }
  after_push-Makes dropped msg p v made = record {
    configured = v.configured;
    same_symbols = v.same_symbols;
    pushed_made = v.pushed_made;
  }
  after_push-Makes pushing msg p v made = v

  tick-Makes :
      (t : Tick) (p : Pace random)
      → t.enqueued_at < 2 ^ 64
      → Makes p
      → (goes_on : Bool) × (p' : Pace random) × (tick random t p ≡ some (goes_on, p')) × Makes p'
  unfolding tick
  tick-Makes t p h v = elim (Bool-cases (leb p.next_time t.now)) [
    | inl due ↦
        let (msg, g, made, (idx, symbol, found, stored), drawn, ok, same, interval) =
          generate_msg_impl_lem t.made_at p.generator v.configured in
        let stamped = stamp_enqueued t.enqueued_at msg in
        let moved = record p { generator = g; made = suc p.made } in
        let listed : get_elem? symbols idx ≡ some symbol =
          ap (λ l. get_elem? l idx) (sym v.same_symbols) ∙ found in
        let after = after_push random (push_until t.attempts) stamped moved in
        (
          after.0,
          after.1,
          rw (due, made) refl,
          after_push-Makes (push_until t.attempts) stamped moved
              (record {
                configured = ok;
                same_symbols = same ∙ v.same_symbols;
                pushed_made = v.pushed_made;
              })
              (record {
                msg_ok =
                    drawn-IsMsg t.made_at t.enqueued_at msg symbol drawn stored
                      (All-get IsText symbols idx texts listed) h;
                idx = idx;
                symbol = symbol;
                listed = listed;
                stored = symbol-stamp_enqueued t.enqueued_at msg ∙ stored;
              }),
        )
    | inr early ↦ (true, p, rw early refl, v)
  ]

  pub generation_loop-Makes :
      (ticks : List Tick) (p : Pace random)
      → All (λ t. t.enqueued_at < 2 ^ 64) ticks
      → Makes p
      → (p' : Pace random) × (generation_loop random ticks p ≡ some p') × Makes p'
  generation_loop-Makes [] p h v = (p, loop_end p, v)
  generation_loop-Makes (t ∷ ticks) p h v = elim (Bool-cases t.stop_requested) [
    | inl e ↦ (p, loop_stop t ticks p e, v)
    | inr e ↦
        let (goes_on, p1, ticked, ok) = tick-Makes t p h.0 v in
        elim (Bool-cases goes_on) [
          | inl goes ↦
              let (p2, done, ok2) = generation_loop-Makes ticks p1 h.1 ok in
              (p2, loop_tick t ticks p e ticked ∙ ap (choose ticks p1) goes ∙ done, ok2)
          | inr ends ↦ (p1, loop_tick t ticks p e ticked ∙ ap (choose ticks p1) ends, ok)
        ]
  ]
    where
      choose : List Tick → Pace random → Bool → Option (Pace random)
      choose ticks p1 b = if b then generation_loop random ticks p1 else some p1
