-- ===== src/Risk/State/Laws.antt =====
-- What the numbers of a loaded state say of the tables they come from.
use iguanatrader.Decimal.{Decimal, lt_irrefl, greater-left}
use iguanatrader.Risk.Models.{allow, RiskState, RiskCaps, TradeProposalInput}
use iguanatrader.Risk.Protections.{seconds_for}
use iguanatrader.Risk.Engine.{evaluate}
use iguanatrader.Risk.Engine.Gate.{allow-Satisfied}
use iguanatrader.Risk.State.{
  Trade, EquitySnapshot, load_risk_state, seconds_between, seconds_map, closing_time,
  seconds_since_last_close_by_symbol, closes_by_symbol, record_close, closed_rows,
  count_open_trades, count_recent_stoplosses, loss_pct, is_live,
}
use iguanatrader.Common.{
  ◌≡◌, String, Option, if◌then◌else◌, max, refl, List, arith, eq_iff, str_eq, some, ℕ, ◌∷◌, none,
  ap, [], ◌∙◌, false, take, length, ◌==◌, suc, ◌≢◌, Option-cases, zero, filter, inl, ◌<◌, inr, Bool,
  ◌≤◌,
}

-- The later of a time and one that may be there.
abbrev pub later : ℕ → Option ℕ → Option ℕ
later at none = some at
later at (some v) = some (max v at)

abbrev pub ago : ℕ → Option ℕ → Option ℕ
ago now none = none
ago now (some at) = some (seconds_between now at)

-- The time of a symbol's latest close, read off the rows one by one.
abbrev pub latest : {A : Type 0} → String → List (Trade A) → Option ℕ
latest k [] = none
latest k (r ∷ rs) = elim (closing_time r) [
  | none ↦ latest k rs
  | some at ↦ if str_eq r.symbol k then later at (latest k rs) else latest k rs
]

seconds_for-map :
    (now : ℕ) (k : String) (m : List (String × ℕ))
    → seconds_for k (seconds_map now m) ≡ ago now (seconds_for k m)
unfolding seconds_map
seconds_for-map now k [] = refl
seconds_for-map now k ((j, at) ∷ m) = ground (arith, seconds_for-map now k m)

seconds_for-record :
    (k j : String) (at : ℕ) (m : List (String × ℕ))
    → seconds_for k (record_close j at m)
      ≡ (if str_eq j k then later at (seconds_for k m) else seconds_for k m)
unfolding record_close
seconds_for-record k j at [] = ground arith
seconds_for-record k j at ((i, v) ∷ m) =
    ground (arith, eq_iff i j, eq_iff i k, eq_iff j k, seconds_for-record k j at m)

seconds_for-closes :
    {A : Type 0} (k : String) (trades : List (Trade A))
    → seconds_for k (closes_by_symbol (closed_rows trades)) ≡ latest k trades
unfolding closes_by_symbol closed_rows
seconds_for-closes k [] = refl
seconds_for-closes k (r ∷ rs) = elim (Option-cases (closing_time r)) [
  | inl e ↦ ground (arith, seconds_for-closes k rs)
  | inr (at, e) ↦ ground (
    arith,
    seconds_for-record k r.symbol at (closes_by_symbol (closed_rows rs)),
    seconds_for-closes k rs,
  )
]

-- The map holds, for each symbol, the seconds since its latest close, and nothing for a symbol
-- that was never closed.
pub seconds_for-seconds_since :
    {A : Type 0} (now : ℕ) (k : String) (trades : List (Trade A))
    → seconds_for k (seconds_since_last_close_by_symbol now trades) ≡ ago now (latest k trades)
unfolding seconds_since_last_close_by_symbol
seconds_for-seconds_since now k trades =
    seconds_for-map now k _ ∙ ap (ago now) (seconds_for-closes k trades)

length-filter {ℓ} : {B : Type ℓ} (p : B → Bool) (xs : List B) → length (filter p xs) ≤ length xs
length-filter p [] = omega arith
length-filter p (x ∷ xs) = ground (arith, length-filter p xs)

length-take {ℓ} : {B : Type ℓ} (n : ℕ) (xs : List B) → length (take n xs) ≤ n
length-take zero xs = omega arith
length-take (suc n) [] = omega arith
length-take (suc n) (x ∷ xs) = omega (arith, length-take n xs)

module _ (dec : Decimal) (tenant now : ℕ) (trades : List (Trade dec.Amount))
    (snapshots : List (EquitySnapshot dec.Amount)) where
  open dec use {Amount, of_int, sub, div, lt}

  abbrev pub loaded : RiskState Amount
  loaded = load_risk_state dec tenant now trades snapshots

  abbrev pub own : List (Trade Amount)
  own = filter (λ r. r.tenant_id == tenant) trades

  -- The stop-outs counted are among the rows counted, and those are five at most.
  pub load_risk_state-stops :
      (loaded.recent_stoploss_count_trailing ≤ loaded.recent_trades_lookback)
      × (loaded.recent_trades_lookback ≤ 5)
  unfolding load_risk_state count_recent_stoplosses
  load_risk_state-stops = (length-filter _ _, length-take 5 _)

  loss_pct_nonneg : (capital pnl : Amount) → lt (loss_pct dec capital pnl) (of_int 0) ≡ false
  unfolding loss_pct
  loss_pct_nonneg capital pnl = ground (
    arith,
    lt_irrefl dec (of_int 0),
    greater-left dec (of_int 0) (div (sub (of_int 0) pnl) capital),
  )

  -- A profit is never reported as a loss below zero, on the day or on the week.
  pub load_risk_state_nonneg :
      (lt loaded.day_to_date_loss_pct (of_int 0) ≡ false)
      × (lt loaded.week_to_date_loss_pct (of_int 0) ≡ false)
  unfolding load_risk_state
  load_risk_state_nonneg = (loss_pct_nonneg _ _, loss_pct_nonneg _ _)

  module _ (dump : RiskState Amount → List (String × String)) (p : TradeProposalInput Amount)
      (c : RiskCaps Amount) where
    -- Once a tenant's open and closing trades fill its slots, the engine allows no proposal.
    pub full_book_refused :
        c.max_open_positions ≤ length (filter (λ r. is_live r.state) own)
        → (evaluate dec dump p loaded c).outcome ≢ allow
    unfolding load_risk_state count_open_trades
    full_book_refused full h =
        let (_, (_, (_, (room, _)))) = allow-Satisfied dec dump p loaded c h in omega arith

    -- Within the cooldown after a symbol's latest close, the engine allows no proposal on it.
    pub cooldown_refused :
        (wait at : ℕ)
        → c.cooldown_seconds ≡ some wait
        → latest p.symbol own ≡ some at
        → seconds_between now at < wait
        → (evaluate dec dump p loaded c).outcome ≢ allow
    unfolding load_risk_state
    cooldown_refused wait at set closed_at soon h =
        let (_, (_, (_, (_, (_, (_, (waited, _))))))) = allow-Satisfied dec dump p loaded c h in
        let w = rw (seconds_for-seconds_since now p.symbol own, closed_at, set) at waited in
        omega arith
