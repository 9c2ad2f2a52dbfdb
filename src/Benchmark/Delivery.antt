-- ===== src/Benchmark/Delivery.antt =====
-- What the benchmark's messages and subscriptions have to do with one another: the generator's messages
-- are about the symbols that the feed handler has subscribed to, and each that is delivered is one call.
use market_data_disseminatio.Base.Tests.{
  ℕ, zero, suc, ◌+◌, ◌^◌, ◌≤◌, ◌<◌, ◌≡◌, refl, sym, ap, subst, ◌∙◌, Bool, true, false, Option, none,
  some, List, map, [], ◌∷◌, arith, if◌then◌else◌, min,
}
use market_data_disseminatio.Base.Lists.{length, get_elem?, All}
use market_data_disseminatio.Base.Bytes.{of_bytes}
use market_data_disseminatio.Types.{MarketDataMsg, quote, trade}
use market_data_disseminatio.Symbols.{IsText}
use market_data_disseminatio.Symbols.Pack.{stored_symbol-fits}
use market_data_disseminatio.Queue.{fresh}
use market_data_disseminatio.Disseminator.{stamp, buffer_size, Turn}
use market_data_disseminatio.FeedHandler.{contains, subscribe, Client, deliver_to_client, Receiver}
use market_data_disseminatio.FeedHandler.Commands.{apply_all}
use market_data_disseminatio.FeedHandler.Loop.{command_of}
use market_data_disseminatio.FeedHandler.Subscribed.{
  same, same_refl, wants, IsRequest, contains-apply_all,
}
use market_data_disseminatio.UdpPath.Stream.{deliver_all, IsWanted}
use market_data_disseminatio.Generator.Made.{IsMade}
use market_data_disseminatio.Benchmark.{udp_subscriber, subscribe_symbols_file}

-- A symbol of at most 7 bytes with no NUL.
pub record IsShort (s : List ℕ) : Type 0 where
  pub short : length s ≤ 7
  pub text : IsText s

-- What a round of the disseminator's loop meets beside the message.
pub record Sending : Type 0 where
  pub now : ℕ
  pub pad : List ℕ
  pub stack : List ℕ

pub record IsSending (e : Sending) : Type 0 where
  pub now_word : e.now < 2 ^ 64
  pub pad_size : length e.pad ≡ 4
  pub stack_size : length e.stack ≡ buffer_size

-- The rounds of the disseminator's loop on the messages from the queue, as many as there are.
abbrev pub turns_of : List MarketDataMsg → List Sending → List Turn
turns_of [] sendings = []
turns_of (msg ∷ msgs) [] = []
turns_of (msg ∷ msgs) (e ∷ sendings) =
    record { msg = msg; now = e.now; pad = e.pad; stack = e.stack } ∷ turns_of msgs sendings

-- The client with the callbacks that the benchmark sets.
abbrev pub client : Client
client = record { has_on_quote = true; has_on_trade = true; calls = [] }

-- The feed handler when the benchmark has subscribed.
abbrev pub receiver_of : Option (List ℕ) → Client → Receiver
receiver_of file c = record {
  command_queue = (subscribe_symbols_file udp_subscriber file fresh).1.0;
  local_subscriptions = [];
  client = c;
}

All-IsRequest :
    (symbols : List (List ℕ)) → All IsShort symbols → All IsRequest (map subscribe symbols)
All-IsRequest [] v = tt
All-IsRequest (s ∷ symbols) v =
    (record { short = omega (arith, v.0.short); text = v.0.text }, All-IsRequest symbols v.1)

pub texts_of : (symbols : List (List ℕ)) → All IsShort symbols → All IsText symbols
texts_of [] v = tt
texts_of (s ∷ symbols) v = (v.0.text, texts_of symbols v.1)

pub IsShort-of :
    (symbols : List (List ℕ)) (i : ℕ) {s : List ℕ}
    → All IsShort symbols
    → get_elem? symbols i ≡ some s
    → IsShort s
IsShort-of [] i v e = cc
IsShort-of (t ∷ symbols) zero v e = let same : t ≡ _ = cc in subst IsShort same v.0
IsShort-of (t ∷ symbols) (suc i) v e = IsShort-of symbols i v.1 e

-- Subscriptions alone never unsubscribe.
wants-subscribed :
    (s : List ℕ) (symbols : List (List ℕ)) → wants true (map subscribe symbols) s ≡ true
wants-subscribed s [] = refl
wants-subscribed s (t ∷ symbols) =
    ap (λ b. wants b (map subscribe symbols) s) (either (same t s)) ∙ wants-subscribed s symbols
  where
    either : (b : Bool) → (if b then true else true) ≡ true
    either true = refl
    either false = refl

wants-listed :
    (s : List ℕ) (symbols : List (List ℕ)) (i : ℕ) (before : Bool)
    → get_elem? symbols i ≡ some s
    → wants before (map subscribe symbols) s ≡ true
wants-listed s [] i before e = cc
wants-listed s (t ∷ symbols) zero before e =
    let is : same t s ≡ true = ap (λ o. same t (from_some t o)) (sym e) ∙ same_refl t in
    ap (λ b. wants (if b then true else before) (map subscribe symbols) s) is
    ∙ wants-subscribed s symbols
  where
    from_some : List ℕ → Option (List ℕ) → List ℕ
    from_some d none = d
    from_some d (some x) = x
wants-listed s (t ∷ symbols) (suc i) before e = wants-listed s symbols i _ e

-- A message about a listed symbol passes the filter of a feed handler that has subscribed to all.
pub made-IsWanted :
    (symbols : List (List ℕ)) (msgs : List MarketDataMsg) (sendings : List Sending)
    → All IsShort symbols
    → All (IsMade symbols) msgs
    → All IsSending sendings
    → All
        (IsWanted (apply_all (map command_of (map subscribe symbols)) []))
        (turns_of msgs sendings)
unfolding contains
made-IsWanted symbols [] sendings shorts made ok = tt
made-IsWanted symbols (msg ∷ msgs) [] shorts made ok = tt
made-IsWanted symbols (msg ∷ msgs) (e ∷ sendings) shorts made ok =
    let v = made.0 in
    let s = IsShort-of symbols v.idx shorts v.listed in
    (
      record {
        turn = record {
          msg_ok = v.msg_ok;
          now_word = ok.0.now_word;
          pad_size = ok.0.pad_size;
          stack_size = ok.0.stack_size;
        };
        wanted =
            ap (contains (apply_all (map command_of (map subscribe symbols)) []))
              (ap of_bytes v.stored ∙ stored_symbol-fits v.symbol s.short s.text)
            ∙ contains-apply_all v.symbol (omega (arith, s.short)) s.text (map subscribe symbols) []
                (All-IsRequest symbols shorts)
            ∙ wants-listed v.symbol symbols v.idx false v.listed;
      },
      made-IsWanted symbols msgs sendings shorts made.1 ok.1,
    )

pub one_call :
    (t3 : ℕ) (msg : MarketDataMsg) (c : Client)
    → c.has_on_quote ≡ true
    → c.has_on_trade ≡ true
    → (length (deliver_to_client t3 msg c).calls ≡ suc (length c.calls))
      × ((deliver_to_client t3 msg c).has_on_quote ≡ true)
      × ((deliver_to_client t3 msg c).has_on_trade ≡ true)
unfolding deliver_to_client
one_call t3 (quote q) c on_quote on_trade = ground arith
one_call t3 (trade t) c on_quote on_trade = ground arith

-- How many calls the client gets for messages in order: each message is one.
pub length-deliver_all :
    (turns : List Turn) (times : List ℕ) (c : Client)
    → c.has_on_quote ≡ true
    → c.has_on_trade ≡ true
    → length (deliver_all turns times c).calls ≡ min (length turns) (length times) + length c.calls
length-deliver_all [] times c q t = omega arith
length-deliver_all (turn ∷ turns) [] c q t = omega arith
length-deliver_all (turn ∷ turns) (t3 ∷ times) c q t =
    let (calls, on_quote, on_trade) = one_call t3 (stamp turn.now turn.msg) c q t in
    omega (
      arith,
      calls,
      length-deliver_all turns times (deliver_to_client t3 (stamp turn.now turn.msg) c) on_quote
          on_trade,
    )
