-- ===== src/Queue/Tests.antt =====
-- The queue at concrete calls.
use market_data_disseminatio.Base.Tests.{
  ℕ, zero, suc, ◌+◌, ◌-◌, ◌%◌, ◌^◌, ◌≤◌, ◌<◌, ◌≡◌, ◌≢◌, refl, true, false, Option, none, some, List,
  [], ◌∷◌, ◌++◌, arith, ℕ_discrete,
}
use market_data_disseminatio.Base.Lists.{length, get_elem?, update}
use market_data_disseminatio.Base.Words.{u64}
use market_data_disseminatio.Queue.{
  CustomSpscQueue, nothing, item, fresh, push, pop, is_empty, destroy,
}
use market_data_disseminatio.Queue.Refine.{IsCapacity, Holds, push-Holds, fresh-Holds}
use market_data_disseminatio.Queue.Fifo.{
  Call, push_call, pop_call, empty_call, pushed, popped, emptiness, run, fifo_run, run_refines,
}
use market_data_disseminatio.Queue.Destroy.{destroy-none, destroy-wrapped}
use market_data_disseminatio.Queue.Concurrent.{
  has_both, may_take, taken, resting, System, begin_push, load_read, construct, publish, begin_pop,
  load_write, take_item, Reach, here, next,
}
use market_data_disseminatio.Queue.Concurrent.Safety.{first_in_first_out, take_from_full, no_race}

two : IsCapacity 2
two = record { positive = omega arith; small = omega arith; divides = refl }

-- The third item does not fit; the ring then goes round.
abbrev calls : List (Call ℕ)
calls =
    push_call 1
    ∷ push_call 2
    ∷ push_call 3
    ∷ pop_call
    ∷ push_call 4
    ∷ pop_call
    ∷ pop_call
    ∷ pop_call
    ∷ empty_call
    ∷ []

run_calls :
    run 2 fresh calls
    ≡ pushed true
      ∷ pushed true
      ∷ pushed false
      ∷ popped (item 1)
      ∷ pushed true
      ∷ popped (item 2)
      ∷ popped (item 4)
      ∷ popped nothing
      ∷ emptiness true
      ∷ []
unfolding run fresh push pop is_empty ℕ_discrete
run_calls = refl

run_refines_example : run 2 fresh calls ≡ fifo_run 2 [] calls
run_refines_example = run_refines two calls

-- One item is published, and `pop` has loaded both counters.
abbrev before_take : System ℕ
before_take = record {
  read = 0;
  write = u64 (0 + 1);
  cells = update (λ _. none) 0 (some 7);
  producer = resting;
  consumer = may_take 0 1;
  sent = 7 ∷ [];
  received = [];
  seen_read = 0;
  seen_write = 1;
}

Reach-before_take : Reach 2 before_take
Reach-before_take =
    next
      (next
        (next
          (next
            (next (next here (begin_push 7 refl))
              (load_read 7 0 0 refl (omega arith) (omega arith)))
            (construct 7 0 0 refl (λ e. omega arith)))
          (publish 7 0 refl))
        (begin_pop refl))
      (load_write 0 1 refl (omega arith) (omega arith))

first_in_first_out_example : (queued : List ℕ) × (7 ∷ [] ≡ [] ++ queued) × (length queued ≤ 2)
first_in_first_out_example = first_in_first_out two Reach-before_take

take_from_full_example : (a : ℕ) × (update (λ _. none) 0 (some 7) (0 % 2) ≡ some a)
take_from_full_example = take_from_full two Reach-before_take refl (λ e. omega arith)

-- `pop` has moved the item out, and a second `push` is about to construct its object.
abbrev both_at_work : System ℕ
both_at_work = record before_take { producer = has_both 8 1 0; consumer = taken 0 (item 7) }

Reach-both_at_work : Reach 2 both_at_work
unfolding ℕ_discrete
Reach-both_at_work =
    next
      (next (next Reach-before_take (begin_push 8 refl))
        (load_read 8 1 0 refl (omega arith) (omega arith)))
      (take_item 0 1 refl (λ e. omega arith))

no_race_example : 1 % 2 ≢ 0 % 2
no_race_example = no_race two Reach-both_at_work refl (λ e. omega arith) refl

abbrev one_held : CustomSpscQueue ℕ
one_held = (push 2 fresh 5).1

one_held-Holds : Holds 2 one_held (5 ∷ [])
one_held-Holds = (push-Holds two 5 (fresh-Holds two) (omega arith)).1

destroy-none_example :
    (left : ℕ → Option ℕ) × (destroy 2 one_held ≡ some left) × ((k : ℕ) → k < 2 → left k ≡ none)
unfolding push fresh
destroy-none_example = destroy-none two one_held-Holds (omega arith)

-- Two items, the first behind the last counter before the wrap.
abbrev wrapped : CustomSpscQueue ℕ
wrapped = record {
  read = 2 ^ 64 - 1;
  write = 1;
  cells = update (update (λ _. none) 1 (some 5)) 0 (some 6);
}

cells_wrapped : (i : ℕ) → i < 2 → wrapped.cells ((wrapped.read + i) % 2) ≡ get_elem? (5 ∷ 6 ∷ []) i
unfolding ℕ_discrete
cells_wrapped zero h = refl
cells_wrapped (suc zero) h = refl
cells_wrapped (suc (suc i)) h = absurd (omega arith)

wrapped-Holds : Holds 2 wrapped (5 ∷ 6 ∷ [])
wrapped-Holds = record {
  bounded = omega arith;
  read_word = omega arith;
  write_at = refl;
  cell = cells_wrapped;
}

destroy-wrapped_example :
    (destroy 2 wrapped ≡ some wrapped.cells) × (wrapped.cells (wrapped.read % 2) ≡ some 5)
destroy-wrapped_example = destroy-wrapped two wrapped-Holds (omega arith)
