-- ===== src/Generator/Walk.antt =====
-- The messages that a configured generator makes.
use market_data_disseminatio.Base.Tests.{
  ℕ, zero, suc, ◌^◌, ◌≤◌, ◌<◌, ◌≡◌, refl, sym, ap, ◌∙◌, some, List, [], ◌∷◌, arith, ◌==◌, ◌>>=◌,
  Bool-cases, inl, inr,
}
use market_data_disseminatio.Base.Lists.{length, get_elem?, set}
use market_data_disseminatio.Base.Words.{sub64}
use market_data_disseminatio.Types.{Double, Quote, Trade, MarketDataMsg, quote, trade, symbol_of}
use market_data_disseminatio.Symbols.{stored_symbol}
use market_data_disseminatio.Generator.{
  Random, RandomWalkGenerator, walk, generate_quote, generate_trade, generate_msg_impl, double_0_1,
  double_0_05,
}
use market_data_disseminatio.Generator.Settings.{IsConfigured}

get_elem?-some {ℓ} :
    {A : Type ℓ} (xs : List A) (i : ℕ) → i < length xs → (x : A) × (get_elem? xs i ≡ some x)
get_elem?-some [] i h = absurd (omega arith)
get_elem?-some (x ∷ xs) zero h = (x, refl)
get_elem?-some (x ∷ xs) (suc i) h = get_elem?-some xs i (omega arith)

length-set {ℓ} : {A : Type ℓ} (xs : List A) (i : ℕ) (x : A) → length (set xs i x) ≡ length xs
length-set [] i x = refl
length-set (y ∷ xs) zero x = refl
length-set (y ∷ xs) (suc i) x = ap suc (length-set xs i x)

-- The sizes that the generator draws, the prices that fit a double, and the time that it puts in.
abbrev pub IsDrawn : ℕ → MarketDataMsg → Type 0
IsDrawn now (quote q) =
    (50 ≤ q.bid_size)
    × (q.bid_size ≤ 500)
    × (50 ≤ q.ask_size)
    × (q.ask_size ≤ 500)
    × (q.bid_price < 2 ^ 64)
    × (q.ask_price < 2 ^ 64)
    × (q.enqueue_timestamp ≡ now)
    × (q.disseminate_timestamp ≡ 0)
IsDrawn now (trade t) =
    (10 ≤ t.size)
    × (t.size ≤ 100)
    × (t.price < 2 ^ 64)
    × (t.enqueue_timestamp ≡ now)
    × (t.disseminate_timestamp ≡ 0)

module _ {random : Random} where
  -- The same settings, and as many prices.
  record Continues (g g' : RandomWalkGenerator random) : Type 0 where
    same_rate : g'.messages_per_sec ≡ g.messages_per_sec
    same_interval : g'.interval ≡ g.interval
    same_symbols : g'.symbols ≡ g.symbols
    same_prices : length g'.current_prices ≡ length g.current_prices

  -- Another state of the engine changes none of these.
  redrawn :
      {g g' : RandomWalkGenerator random}
      → Continues g g'
      → (r : random.State) → Continues g (record g' { rng = r })
  redrawn k r = record {
    same_rate = k.same_rate;
    same_interval = k.same_interval;
    same_symbols = k.same_symbols;
    same_prices = k.same_prices;
  }

  walk-some :
      (deviation : Double) (idx : ℕ) (g : RandomWalkGenerator random)
      → idx < length g.current_prices
      → (price : Double) × (g' : RandomWalkGenerator random) × (walk random deviation idx g
          ≡ some (price, g'))
        × Continues g g'
        × (price < 2 ^ 64)
  unfolding walk
  walk-some deviation idx g h =
      let (old, e) = get_elem?-some g.current_prices idx h in
      (
        _,
        _,
        ap
            (λ o. o >>= (λ old.
              let drawn = random.normal 0 deviation g.rng in
              let price = random.add old drawn.0 in
              some (
                price,
                record g { current_prices = set g.current_prices idx price; rng = drawn.1 },
              )))
            e,
        record {
          same_rate = refl;
          same_interval = refl;
          same_symbols = refl;
          same_prices = length-set g.current_prices idx _;
        },
        random.add_word old _,
      )

  generate_quote-some :
      (now : ℕ) (symbol : List ℕ) (idx : ℕ) (g : RandomWalkGenerator random)
      → idx < length g.current_prices
      → (q : Quote) × (g' : RandomWalkGenerator random) × (generate_quote random now symbol idx g
          ≡ some (q, g'))
        × Continues g g'
        × (q.symbol ≡ stored_symbol symbol)
        × IsDrawn now (quote q)
  unfolding generate_quote
  generate_quote-some now symbol idx g h =
      let (price, g1, e, k, word) = walk-some double_0_1 idx g h in
      let bid = random.uniform_int 50 500 g1.rng in
      rw e (
        _,
        _,
        refl,
        redrawn k _,
        refl,
        (
          random.uniform_lower 50 500 g1.rng (omega arith),
          random.uniform_upper 50 500 g1.rng (omega arith),
          random.uniform_lower 50 500 bid.1 (omega arith),
          random.uniform_upper 50 500 bid.1 (omega arith),
          random.sub_word _ _,
          random.add_word _ _,
          refl,
          refl,
        ),
      )

  generate_trade-some :
      (now : ℕ) (symbol : List ℕ) (idx : ℕ) (g : RandomWalkGenerator random)
      → idx < length g.current_prices
      → (t : Trade) × (g' : RandomWalkGenerator random) × (generate_trade random now symbol idx g
          ≡ some (t, g'))
        × Continues g g'
        × (t.symbol ≡ stored_symbol symbol)
        × IsDrawn now (trade t)
  unfolding generate_trade
  generate_trade-some now symbol idx g h =
      let (price, g1, e, k, word) = walk-some double_0_05 idx g h in
      rw e (
        _,
        _,
        refl,
        redrawn k _,
        refl,
        (
          random.uniform_lower 10 100 g1.rng (omega arith),
          random.uniform_upper 10 100 g1.rng (omega arith),
          word,
          refl,
          refl,
        ),
      )

  Continues-IsConfigured :
      (g : RandomWalkGenerator random) (r : random.State) {g' : RandomWalkGenerator random}
      → Continues (record g { rng = r }) g'
      → IsConfigured g
      → IsConfigured g'
  Continues-IsConfigured g r k v = record {
    rate = omega (arith, k.same_rate, v.rate);
    interval_fits = rw (k.same_interval, k.same_rate) v.interval_fits;
    interval_longest = rw (k.same_interval, k.same_rate) v.interval_longest;
    symbols_some = rw k.same_symbols v.symbols_some;
    symbols_few = rw k.same_symbols v.symbols_few;
    symbols_proper = rw k.same_symbols v.symbols_proper;
    prices = k.same_prices ∙ v.prices ∙ ap length (sym k.same_symbols);
  }

  -- A configured generator makes a message whatever the random engine draws: about one of its symbols,
  -- as the message stores it, with sizes of 50 to 500 for a quote and 10 to 100 for a trade, prices of 8
  -- bytes, the time of the enqueueing and no other. It stays configured, with the same symbols
  -- and the same interval.
  pub generate_msg_impl_lem :
      (now : ℕ) (g : RandomWalkGenerator random)
      → IsConfigured g
      → (msg : MarketDataMsg) × (g' : RandomWalkGenerator random) × (generate_msg_impl random now g
          ≡ some (msg, g'))
        × ((idx : ℕ) × (symbol : List ℕ) × (get_elem? g.symbols idx ≡ some symbol)
            × (symbol_of msg ≡ stored_symbol symbol))
        × IsDrawn now msg
        × IsConfigured g'
        × (g'.symbols ≡ g.symbols)
        × (g'.interval ≡ g.interval)
  unfolding generate_msg_impl
  generate_msg_impl_lem now g v =
      let drawn = random.uniform_int 0 (sub64 (length g.symbols) 1) g.rng in
      let kind = random.uniform_int 0 1 drawn.1 in
      let below : drawn.0 ≤ sub64 (length g.symbols) 1 =
        random.uniform_upper 0 (sub64 (length g.symbols) 1) g.rng (omega arith) in
      let inside : drawn.0 < length g.symbols = omega (arith, v.symbols_some, v.symbols_few) in
      let priced : drawn.0 < length g.current_prices = omega (arith, v.prices) in
      let (symbol, found) = get_elem?-some g.symbols drawn.0 inside in
      let ready = record g { rng = kind.1 } in
      let (q, gq, eq, kq, sq, dq) = generate_quote-some now symbol drawn.0 ready priced in
      let (t, gt, et, kt, st, dt) = generate_trade-some now symbol drawn.0 ready priced in
      elim (Bool-cases (kind.0 == 0)) [
        | inl traded ↦ (
          trade t,
          gt,
          rw (found, traded, et) refl,
          (drawn.0, symbol, found, st),
          dt,
          Continues-IsConfigured g kind.1 kt v,
          kt.same_symbols,
          kt.same_interval,
        )
        | inr quoted ↦ (
          quote q,
          gq,
          rw (found, quoted, eq) refl,
          (drawn.0, symbol, found, sq),
          dq,
          Continues-IsConfigured g kind.1 kq v,
          kq.same_symbols,
          kq.same_interval,
        )
      ]
