-- ===== src/Monitor/Csv.antt =====
-- The files of LatencyMonitor, read back.
use native.Mathlib.Nat.{pow-suc}
use market_data_disseminatio.Base.Tests.{
  ℕ, zero, suc, ◌+◌, ◌-◌, ◌*◌, ◌/◌, ◌%◌, ◌^◌, ◌<◌, ◌≡◌, refl, ap, ◌∙◌, ◌&&◌, Option, none, some,
  List, [], ◌∷◌, arith, leb, ◌==◌, if◌then◌else◌, ◌>>=◌, Bool-cases, inl, inr, ==_iff, le→leb,
  ==-refl,
}
use market_data_disseminatio.Base.Lists.{length, drop, All}
use market_data_disseminatio.Monitor.{
  LatencyRecord, LatencyMonitor, decimal_onto, u64_digits, csv_line, csv_lines, save_to_csv,
}

-- A reader of such files: a number up to the first byte that is no digit.
read_number : ℕ → List ℕ → ℕ × List ℕ
read_number acc [] = (acc, [])
read_number acc (c ∷ s) =
    let rest = read_number (acc * 10 + (c - b'0')) s in
    if leb b'0' c && leb c b'9' then rest else (acc, c ∷ s)

expect : ℕ → ℕ × List ℕ → Option (ℕ × List ℕ)
expect ending (n, []) = none
expect ending (n, c ∷ rest) = if c == ending then some (n, rest) else none

-- A number and the byte that has to follow it.
pub read_field : ℕ → List ℕ → Option (ℕ × List ℕ)
unfolding read_number expect
read_field ending s = expect ending (read_number 0 s)

pub read_line : List ℕ → Option (LatencyRecord × List ℕ)
read_line s = do
  (queue, s1) ← read_field b',' s
  (network, s2) ← read_field b',' s1
  (total, s3) ← read_field b'\n' s2
  some (record { queue_ns = queue; network_ns = network; total_ns = total }, s3)

nothing_left : List ℕ → Option (List LatencyRecord)
nothing_left [] = some []
nothing_left (c ∷ s) = none

-- A given number of lines, and nothing behind them.
pub read_lines : ℕ → List ℕ → Option (List LatencyRecord)
unfolding nothing_left
read_lines zero s = nothing_left s
read_lines (suc k) s = do (lat, rest) ← read_line s; lats ← read_lines k rest; some (lat ∷ lats)

pub record IsRecord (lat : LatencyRecord) : Type 0 where
  pub queue_word : lat.queue_ns < 2 ^ 64
  pub network_word : lat.network_ns < 2 ^ 64
  pub total_word : lat.total_ns < 2 ^ 64

read_digit :
    (acc d : ℕ) (out : List ℕ)
    → d < 10
    → read_number acc ((b'0' + d) ∷ out) ≡ read_number (acc * 10 + d) out
unfolding read_number
read_digit acc d out h =
    rw (le→leb b'0' (b'0' + d) (omega arith), le→leb (b'0' + d) b'9' (omega arith))
      (ap (λ k. read_number k out) (omega arith))

-- The digits of a number are read as the number.
read_decimal :
    (fuel n : ℕ) (out : List ℕ)
    → n < 10 ^ fuel
    → read_number 0 (decimal_onto fuel n out) ≡ read_number n out
unfolding decimal_onto
read_decimal zero n out h = ap (λ k. read_number k out) (omega arith)
read_decimal (suc fuel) n out h = elim (Bool-cases (n / 10 == 0)) [
  | inl e ↦ rw e (
      read_digit 0 (n % 10) out (omega arith)
      ∙ ap (λ k. read_number k out) (let z : n / 10 ≡ 0 = (==_iff (n / 10) 0).0 e in omega arith))
  | inr e ↦
      let p : 10 ^ suc fuel ≡ 10 ^ fuel * 10 = pow-suc 10 fuel in
      rw e (
        read_decimal fuel (n / 10) ((b'0' + n % 10) ∷ out) (omega arith)
        ∙ read_digit (n / 10) (n % 10) out (omega arith)
        ∙ ap (λ k. read_number k out) (omega arith))
]

read_field-decimal :
    (ending n : ℕ) (out : List ℕ)
    → n < 2 ^ 64
    → read_number n (ending ∷ out) ≡ (n, ending ∷ out)
    → read_field ending (decimal_onto u64_digits n (ending ∷ out)) ≡ some (n, out)
unfolding read_field
read_field-decimal ending n out h stops =
    ap (expect ending) (read_decimal u64_digits n (ending ∷ out) (omega arith) ∙ stops)
    ∙ rw (==-refl ending)

comma_stops : (n : ℕ) (out : List ℕ) → read_number n (b',' ∷ out) ≡ (n, b',' ∷ out)
unfolding read_number
comma_stops n out = refl

line_end_stops : (n : ℕ) (out : List ℕ) → read_number n (b'\n' ∷ out) ≡ (n, b'\n' ∷ out)
unfolding read_number
line_end_stops n out = refl

read_line-csv_line :
    (lat : LatencyRecord) (out : List ℕ)
    → IsRecord lat
    → read_line (csv_line lat out) ≡ some (lat, out)
unfolding read_line csv_line
read_line-csv_line lat out v = rw (
  read_field-decimal b',' lat.queue_ns _ v.queue_word (comma_stops _ _),
  read_field-decimal b',' lat.network_ns _ v.network_word (comma_stops _ _),
  read_field-decimal b'\n' lat.total_ns _ v.total_word (line_end_stops _ _),
)

read_lines-csv_lines :
    (lats : List LatencyRecord)
    → All IsRecord lats
    → read_lines (length lats) (csv_lines lats) ≡ some lats
unfolding read_lines csv_lines
read_lines-csv_lines [] v = refl
read_lines-csv_lines (lat ∷ lats) v =
    rw (read_line-csv_line lat (csv_lines lats) v.0, read_lines-csv_lines lats v.1)

-- The two files hold the latencies of the quotes and of the trades: behind the header of 29 bytes,
-- reading each line as three decimal numbers gives back every record, in order, and nothing is left.
pub save_to_csv_lem :
    (m : LatencyMonitor)
    → All IsRecord m.quote_latencies
    → All IsRecord m.trade_latencies
    → (read_lines (length m.quote_latencies) (drop 29 (save_to_csv m).0) ≡ some m.quote_latencies)
      × (read_lines (length m.trade_latencies) (drop 29 (save_to_csv m).1) ≡ some m.trade_latencies)
unfolding save_to_csv
save_to_csv_lem m q t =
    (read_lines-csv_lines m.quote_latencies q, read_lines-csv_lines m.trade_latencies t)
