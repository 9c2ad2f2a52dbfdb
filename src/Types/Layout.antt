-- ===== src/Types/Layout.antt =====
-- The bytes of a message object give the object back.
use native.Mathlib.Nat.{zero-add, suc-add}
use market_data_disseminatio.Base.Tests.{
  ℕ, zero, suc, ◌+◌, ◌≡◌, ap, ◌∙◌, List, [], ◌∷◌, ◌++◌, arith,
}
use market_data_disseminatio.Base.Lists.{length, length-append, take, drop, take-append}
use market_data_disseminatio.Base.Bytes.{of_bytes, of_bytes-to_bytes}
use market_data_disseminatio.Types.{
  field, quote_tail, trade_tail, trade_times, Quote, Trade, quote_bytes, trade_bytes,
  quote_of_bytes, trade_of_bytes, IsQuote, IsTrade, sizeof_quote, sizeof_trade,
}

-- What stands behind the symbol is found behind its 8 bytes.
drop-append_add {ℓ} :
    {A : Type ℓ} (n m : ℕ) (xs ys : List A) → length xs ≡ n → drop (n + m) (xs ++ ys) ≡ drop m ys
drop-append_add zero m [] ys h = ap (λ k. drop k ys) (zero-add m)
drop-append_add zero m (x ∷ xs) ys h = absurd (omega arith)
drop-append_add (suc n) m [] ys h = absurd (omega arith)
drop-append_add (suc n) m (x ∷ xs) ys h =
    ap (λ k. drop k (x ∷ xs ++ ys)) (suc-add n m) ∙ drop-append_add n m xs ys (omega arith)

behind_symbol :
    (m n : ℕ) (symbol rest : List ℕ)
    → length symbol ≡ 8
    → field (8 + m) n (symbol ++ rest) ≡ field m n rest
behind_symbol m n symbol rest h =
    ap (λ bytes. of_bytes (take n bytes)) (drop-append_add 8 m symbol rest h)

-- Copying a Quote object to bytes and the bytes back gives the same Quote.
pub quote_of_bytes-quote_bytes : {q : Quote} → IsQuote q → quote_of_bytes (quote_bytes q) ≡ q
unfolding quote_bytes quote_of_bytes
quote_of_bytes-quote_bytes {q} v = λ i. record {
  symbol = take-append 8 q.symbol (quote_tail q) v.symbol_size i;
  bid_price = (behind 0 8 ∙ of_bytes-to_bytes 8 q.bid_price v.bid_word) i;
  ask_price = (behind 8 8 ∙ of_bytes-to_bytes 8 q.ask_price v.ask_word) i;
  bid_size = (behind 16 4 ∙ of_bytes-to_bytes 4 q.bid_size v.bid_size_word) i;
  ask_size = (behind 20 4 ∙ of_bytes-to_bytes 4 q.ask_size v.ask_size_word) i;
  enqueue_timestamp = (behind 24 8 ∙ of_bytes-to_bytes 8 q.enqueue_timestamp v.enqueue_word) i;
  disseminate_timestamp =
      (behind 32 8 ∙ of_bytes-to_bytes 8 q.disseminate_timestamp v.disseminate_word) i;
}
  where
    behind : (m n : ℕ) → field (8 + m) n (quote_bytes q) ≡ field m n (quote_tail q)
    behind m n = behind_symbol m n q.symbol (quote_tail q) v.symbol_size

-- Copying a Trade object to bytes and the bytes back gives the same Trade, whatever the padding.
pub trade_of_bytes-trade_bytes :
    (pad : List ℕ) {t : Trade} → length pad ≡ 4 → IsTrade t → trade_of_bytes (trade_bytes pad t) ≡ t
unfolding trade_bytes trade_of_bytes
trade_of_bytes-trade_bytes pad {t} p v = λ i. record {
  symbol = take-append 8 t.symbol (trade_tail pad t) v.symbol_size i;
  price = (behind 0 8 ∙ of_bytes-to_bytes 8 t.price v.price_word) i;
  size = (behind 8 4 ∙ of_bytes-to_bytes 4 t.size v.size_word) i;
  enqueue_timestamp =
      (behind 16 8 ∙ past 0 8 ∙ of_bytes-to_bytes 8 t.enqueue_timestamp v.enqueue_word) i;
  disseminate_timestamp =
      (behind 24 8 ∙ past 8 8 ∙ of_bytes-to_bytes 8 t.disseminate_timestamp v.disseminate_word) i;
}
  where
    behind : (m n : ℕ) → field (8 + m) n (trade_bytes pad t) ≡ field m n (trade_tail pad t)
    behind m n = behind_symbol m n t.symbol (trade_tail pad t) v.symbol_size

    past : (m n : ℕ) → field (4 + m) n (pad ++ trade_times t) ≡ field m n (trade_times t)
    past m n = ap (λ bytes. of_bytes (take n bytes)) (drop-append_add 4 m pad (trade_times t) p)

pub length-quote_bytes : (q : Quote) → length q.symbol ≡ 8 → length (quote_bytes q) ≡ sizeof_quote
unfolding quote_bytes
length-quote_bytes q h = length-append q.symbol (quote_tail q) ∙ ap (λ n. n + 40) h

pub length-trade_bytes :
    (pad : List ℕ) (t : Trade)
    → length pad ≡ 4
    → length t.symbol ≡ 8
    → length (trade_bytes pad t) ≡ sizeof_trade
unfolding trade_bytes
length-trade_bytes pad t p h =
    omega (arith, length-append t.symbol (trade_tail pad t), length-append pad (trade_times t))
