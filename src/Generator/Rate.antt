-- ===== src/Generator/Rate.antt =====
-- The pacing loop keeps to the rate: it never runs ahead of its schedule.
use market_data_disseminatio.Base.Tests.{
  ℕ, suc, ◌+◌, ◌-◌, ◌*◌, ◌≤◌, ◌≡◌, refl, ap, ◌∙◌, Bool, true, false, Option, some, List, [], ◌∷◌,
  ◌++◌, arith, leb, if◌then◌else◌, ◌>>=◌, Bool-cases, inl, inr,
}
use market_data_disseminatio.Base.Lists.{length, length-append, All}
use market_data_disseminatio.Types.{MarketDataMsg}
use market_data_disseminatio.Generator.{Random, RandomWalkGenerator}
use market_data_disseminatio.Generator.Settings.{IsConfigured}
use market_data_disseminatio.Generator.Walk.{generate_msg_impl_lem}
use market_data_disseminatio.Generator.Drawn.{
  Drawn, none_drawn, and_pushed, and_dropped, lost, not_taken, after_push-count, after_push-made,
}
use market_data_disseminatio.Generator.Pace.{
  Pushed, taken, dropped, pushing, push_until, Tick, stamp_enqueued, Pace, after_push, tick,
  generation_loop,
}

-- The state in which the loop begins: `next_time` is the clock.
abbrev pub begin : {random : Random} → ℕ → RandomWalkGenerator random → Pace random
begin t0 g = record { generator = g; next_time = t0; made = 0; pushed = [] }

-- The message behind `m` others is made at or after its place in the schedule.
in_time : (iv t0 last m n : ℕ) → n ≡ suc m → t0 + m * iv ≤ last → n * iv ≤ (last - t0) + iv
in_time iv t0 last m n made early =
    let step : n * iv ≡ m * iv + iv = ap (λ k. k * iv) made ∙ omega arith in omega (arith, step)

module _ {random : Random} where
  pub loop_end : (p : Pace random) → generation_loop random [] p ≡ some p
  unfolding generation_loop
  loop_end p = refl

  pub loop_stop :
      (t : Tick) (ticks : List Tick) (p : Pace random)
      → t.stop_requested ≡ true
      → generation_loop random (t ∷ ticks) p ≡ some p
  unfolding generation_loop
  loop_stop t ticks p e =
      ap
        (λ b.
          if b
          then some p
          else (tick random t p >>= (λ r.
              let rest = generation_loop random ticks r.1 in if r.0 then rest else some r.1)))
        e

  pub loop_tick :
      (t : Tick) (ticks : List Tick) (p : Pace random) {goes_on : Bool} {p' : Pace random}
      → t.stop_requested ≡ false
      → tick random t p ≡ some (goes_on, p')
      → generation_loop random (t ∷ ticks) p
        ≡ (if goes_on then generation_loop random ticks p' else some p')
  unfolding generation_loop
  loop_tick t ticks p e ticked =
      ap
        (λ b.
          if b
          then some p
          else (tick random t p >>= (λ r.
              let rest = generation_loop random ticks r.1 in if r.0 then rest else some r.1)))
        e
      ∙ ap
          (λ o. o >>= (λ r.
            let rest = generation_loop random ticks r.1 in if r.0 then rest else some r.1))
          ticked

module _ {random : Random} (g0 : RandomWalkGenerator random) (iv t0 last : ℕ) where
  -- With the loop begun at `t0` and the clock at most at `last`: each message made had its place in
  -- the schedule, and what is pushed is what `g0` made, but for messages dropped.
  record IsPaced (p : Pace random) : Type 0 where
    configured : IsConfigured p.generator
    paced : p.made * iv ≤ (last - t0) + iv
    pushed_made : length p.pushed ≤ p.made
    drawn : Drawn g0 p.made p.pushed p.generator

  -- Between two rounds.
  record Inv (p : Pace random) : Type 0 where
    ok : IsPaced p
    interval : p.generator.interval ≡ iv
    schedule : p.next_time ≡ t0 + p.made * iv

  after_push-IsPaced :
      (answer : Pushed) (msg : MarketDataMsg) (p : Pace random)
      → IsConfigured p.generator
      → p.generator.interval ≡ iv
      → (m : ℕ) → p.made ≡ suc m
      → p.next_time ≡ t0 + m * iv
      → p.next_time ≤ last
      → length p.pushed ≤ m
      → Drawn g0 p.made (p.pushed ++ msg ∷ []) p.generator
      → Drawn g0 p.made p.pushed p.generator
      → IsPaced (after_push random answer msg p).1
        × ((after_push random answer msg p).0 ≡ true → Inv (after_push random answer msg p).1)
  unfolding after_push
  after_push-IsPaced taken msg p v e m made at early few with_msg without =
      let step : p.made * iv ≡ m * iv + iv = ap (λ n. n * iv) made ∙ omega arith in
      let ok : IsPaced (after_push random taken msg p).1 = record {
        configured = v;
        paced = in_time iv t0 last m p.made made (omega arith);
        pushed_made = omega (arith, length-append p.pushed (msg ∷ []));
        drawn = with_msg;
      } in
      (ok, λ h. record { ok = ok; interval = e; schedule = omega (arith, step, at, e) })
  after_push-IsPaced dropped msg p v e m made at early few with_msg without =
      let step : p.made * iv ≡ m * iv + iv = ap (λ n. n * iv) made ∙ omega arith in
      let ok : IsPaced (after_push random dropped msg p).1 = record {
        configured = v;
        paced = in_time iv t0 last m p.made made (omega arith);
        pushed_made = omega arith;
        drawn = without;
      } in
      (ok, λ h. record { ok = ok; interval = e; schedule = omega (arith, step, at, e) })
  after_push-IsPaced pushing msg p v e m made at early few with_msg without = (
    record {
      configured = v;
      paced = in_time iv t0 last m p.made made (omega arith);
      pushed_made = omega arith;
      drawn = without;
    },
    λ h. cc,
  )

  -- No more messages are lost from one state to the other than `n`.
  abbrev Keeps : ℕ → Pace random → Pace random → Type 0
  Keeps n p p' = p'.made + length p.pushed ≤ length p'.pushed + (p.made + n)

  tick-IsPaced :
      (t : Tick) (p : Pace random)
      → t.now ≤ last
      → Inv p
      → (goes_on : Bool) × (p' : Pace random) × (tick random t p ≡ some (goes_on, p'))
        × IsPaced p'
        × (goes_on ≡ true → Inv p')
        × Keeps (lost (push_until t.attempts)) p p'
  unfolding tick
  tick-IsPaced t p h v = elim (Bool-cases (leb p.next_time t.now)) [
    | inl due ↦
        let (msg, g, made, symbol, drawn, ok, symbols, same) =
          generate_msg_impl_lem t.made_at p.generator v.ok.configured in
        let moved = record p { generator = g; made = suc p.made } in
        let answer = push_until t.attempts in
        let stamped = stamp_enqueued t.enqueued_at msg in
        let after = after_push random answer stamped moved in
        let (fine, on) =
          after_push-IsPaced answer stamped moved ok (same ∙ v.interval) p.made refl v.schedule
            (early p.next_time t.now due h) v.ok.pushed_made
            (and_pushed t.made_at t.enqueued_at v.ok.drawn made)
            (and_dropped t.made_at v.ok.drawn made) in
        (
          after.0,
          after.1,
          rw (due, made) refl,
          fine,
          on,
          omega
              (arith, after_push-count answer stamped moved, after_push-made answer stamped moved),
        )
    | inr not_due ↦ (true, p, rw not_due refl, v.ok, (λ e. v), omega arith)
  ]
    where
      early : (next now : ℕ) → leb next now ≡ true → now ≤ last → next ≤ last
      early next now e h = ground arith

  generation_loop-IsPaced :
      (ticks : List Tick) (p : Pace random)
      → All (λ t. t.now ≤ last) ticks
      → Inv p
      → (p' : Pace random) × (generation_loop random ticks p ≡ some p')
        × IsPaced p'
        × Keeps (not_taken ticks) p p'
  generation_loop-IsPaced [] p h v = (p, loop_end p, v.ok, omega arith)
  generation_loop-IsPaced (t ∷ ticks) p h v = elim (Bool-cases t.stop_requested) [
    | inl e ↦ (p, loop_stop t ticks p e, v.ok, omega arith)
    | inr e ↦
        let (goes_on, p1, ticked, ok, on, keeps) = tick-IsPaced t p h.0 v in
        elim (Bool-cases goes_on) [
          | inl goes ↦
              let (p2, done, ok2, keeps2) = generation_loop-IsPaced ticks p1 h.1 (on goes) in
              (
                p2,
                loop_tick t ticks p e ticked ∙ ap (choose ticks p1) goes ∙ done,
                ok2,
                omega (arith, keeps, keeps2),
              )
          | inr ends ↦ (
            p1,
            loop_tick t ticks p e ticked ∙ ap (choose ticks p1) ends,
            ok,
            omega (arith, keeps),
          )
        ]
  ]
    where
      choose : List Tick → Pace random → Bool → Option (Pace random)
      choose ticks p1 b = if b then generation_loop random ticks p1 else some p1

module _ {random : Random} where
  -- The loop of a configured generator, begun at time `t0`, meets no index out of range and keeps to
  -- the rate: by the time `last`, the last message made had its place in the schedule, which has one
  -- place at `t0` and one after each interval. What it pushed are, in order, messages that the generator made
  -- one after the other, each as it was made but stamped again, and so at most as many as were made; and at most
  -- as many of these are missing as there were rounds in which no push was accepted before a stop.
  pub generation_loop_lem :
      (ticks : List Tick) (t0 last : ℕ) (g : RandomWalkGenerator random)
      → IsConfigured g
      → t0 ≤ last
      → All (λ t. t.now ≤ last) ticks
      → (p : Pace random) × (generation_loop random ticks (begin t0 g) ≡ some p)
        × IsConfigured p.generator
        × (p.made * g.interval ≤ (last - t0) + g.interval)
        × (length p.pushed ≤ p.made)
        × Drawn g p.made p.pushed p.generator
        × (p.made ≤ length p.pushed + not_taken ticks)
  generation_loop_lem ticks t0 last g v h all =
      let ok : IsPaced g g.interval t0 last (begin t0 g) = record {
        configured = v;
        paced = omega arith;
        pushed_made = omega arith;
        drawn = none_drawn;
      } in
      let (p, done, fine, keeps) =
        generation_loop-IsPaced g g.interval t0 last ticks (begin t0 g) all
          (record { ok = ok; interval = refl; schedule = omega arith }) in
      (p, done, fine.configured, fine.paced, fine.pushed_made, fine.drawn, omega (arith, keeps))
