-- ===== src/Types.antt =====
-- src/utils/types.h: the messages, and the bytes of their objects.
-- `memcpy` of a message depends on the layout of the struct on the target, x86-64: little-endian
-- integers, 8-byte IEEE doubles, members in order at their natural alignment. So sizeof(Quote) is 48
-- with no padding, and sizeof(Trade) is 40 with 4 bytes of padding behind `size`.
-- A `char[8]` is its list of bytes, and a double is the number that its 8 bytes spell.
pub mod Layout
mod Tests
use market_data_disseminatio.Base.Tests.{ℕ, ◌+◌, ◌^◌, ◌<◌, ◌≡◌, List, ◌++◌}
use market_data_disseminatio.Base.Lists.{length, take, drop, All}
use market_data_disseminatio.Base.Bytes.{IsByte, to_bytes, of_bytes}

-- The 8 bytes of a double.
abbrev pub Double : Type 0
Double = ℕ

pub record Quote : Type 0 where
  pub symbol : List ℕ
  pub bid_price : Double
  pub ask_price : Double
  pub bid_size : ℕ
  pub ask_size : ℕ
  pub enqueue_timestamp : ℕ
  pub disseminate_timestamp : ℕ

pub record Trade : Type 0 where
  pub symbol : List ℕ
  pub price : Double
  pub size : ℕ
  pub enqueue_timestamp : ℕ
  pub disseminate_timestamp : ℕ

-- `std::variant<Quote, Trade>`.
pub data MarketDataMsg : Type 0 where
  quote : Quote → MarketDataMsg
  trade : Trade → MarketDataMsg

abbrev pub topic_header_size : ℕ
topic_header_size = 10

abbrev pub sizeof_quote : ℕ
sizeof_quote = 48

abbrev pub sizeof_trade : ℕ
sizeof_trade = 40

-- The bytes of a Quote object: the symbol, and the members behind it.
abbrev pub quote_tail : Quote → List ℕ
quote_tail q =
    to_bytes 8 q.bid_price
    ++ (to_bytes 8 q.ask_price
        ++ (to_bytes 4 q.bid_size
            ++ (to_bytes 4 q.ask_size
                ++ (to_bytes 8 q.enqueue_timestamp ++ to_bytes 8 q.disseminate_timestamp))))

pub quote_bytes : Quote → List ℕ
quote_bytes q = q.symbol ++ quote_tail q

-- The bytes of a Trade object, whose padding behind `size` holds `pad`.
abbrev pub trade_times : Trade → List ℕ
trade_times t = to_bytes 8 t.enqueue_timestamp ++ to_bytes 8 t.disseminate_timestamp

abbrev pub trade_tail : List ℕ → Trade → List ℕ
trade_tail pad t = to_bytes 8 t.price ++ (to_bytes 4 t.size ++ (pad ++ trade_times t))

pub trade_bytes : List ℕ → Trade → List ℕ
trade_bytes pad t = t.symbol ++ trade_tail pad t

-- The number in the `n` bytes from `offset` on.
abbrev pub field : ℕ → ℕ → List ℕ → ℕ
field offset n bytes = of_bytes (take n (drop offset bytes))

-- The Quote object that `memcpy(&quote, bytes, sizeof(Quote))` makes.
pub quote_of_bytes : List ℕ → Quote
quote_of_bytes bytes = record {
  symbol = take 8 bytes;
  bid_price = field 8 8 bytes;
  ask_price = field 16 8 bytes;
  bid_size = field 24 4 bytes;
  ask_size = field 28 4 bytes;
  enqueue_timestamp = field 32 8 bytes;
  disseminate_timestamp = field 40 8 bytes;
}

pub trade_of_bytes : List ℕ → Trade
trade_of_bytes bytes = record {
  symbol = take 8 bytes;
  price = field 8 8 bytes;
  size = field 16 4 bytes;
  enqueue_timestamp = field 24 8 bytes;
  disseminate_timestamp = field 32 8 bytes;
}

-- Every member holds a value of its C++ type.
pub record IsQuote (q : Quote) : Type 0 where
  pub symbol_size : length q.symbol ≡ 8
  pub symbol_bytes : All IsByte q.symbol
  pub bid_word : q.bid_price < 2 ^ 64
  pub ask_word : q.ask_price < 2 ^ 64
  pub bid_size_word : q.bid_size < 2 ^ 32
  pub ask_size_word : q.ask_size < 2 ^ 32
  pub enqueue_word : q.enqueue_timestamp < 2 ^ 64
  pub disseminate_word : q.disseminate_timestamp < 2 ^ 64

pub record IsTrade (t : Trade) : Type 0 where
  pub symbol_size : length t.symbol ≡ 8
  pub symbol_bytes : All IsByte t.symbol
  pub price_word : t.price < 2 ^ 64
  pub size_word : t.size < 2 ^ 32
  pub enqueue_word : t.enqueue_timestamp < 2 ^ 64
  pub disseminate_word : t.disseminate_timestamp < 2 ^ 64

abbrev pub IsMsg : MarketDataMsg → Type 0
IsMsg (quote q) = IsQuote q
IsMsg (trade t) = IsTrade t

abbrev pub symbol_of : MarketDataMsg → List ℕ
symbol_of (quote q) = q.symbol
symbol_of (trade t) = t.symbol
