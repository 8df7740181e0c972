-- ===== src/Risk/State.antt =====
-- `RiskRepository.load_risk_state` and its queries. A timestamp is a number of microseconds since
-- the epoch (a Thursday), so a day is a quotient. The tenant listener narrows every query to the
-- current tenant.
pub mod Laws
use iguanatrader.Decimal.{Decimal, greater}
use iguanatrader.Risk.Models.{RiskState}
use iguanatrader.Common.{
  ◌+◌, [], none, max, ◌==◌, take, String, ◌%◌, ◌∷◌, ◌-◌, List, ◌*◌, str_eq, filter, Option, Bool,
  if◌then◌else◌, leb, length, some, false, ℕ, ◌/◌, ◌&&◌, ltb, true,
}

pub data TradeState : Type 0 where
  open_state closing closed : TradeState

-- The columns of `trades` that the queries read.
pub record Trade (A : Type 0) : Type 0 where
  pub tenant_id : ℕ
  pub symbol : String
  pub state : TradeState
  pub exit_reason : Option String
  pub closed_at : Option ℕ
  pub realised_pnl : Option A

pub record EquitySnapshot (A : Type 0) : Type 0 where
  pub tenant_id : ℕ
  pub account_equity : A
  pub created_at : ℕ

abbrev pub day_length : ℕ
day_length = 86400000000

-- midnight UTC of the day of `now`, and of the Monday of its week
unfoldable pub day_start : ℕ → ℕ
day_start now = now / day_length * day_length

unfoldable pub week_start : ℕ → ℕ
week_start now = (now / day_length - (now / day_length + 3) % 7) * day_length

-- `state.in_(("open", "closing"))`
abbrev pub is_live : TradeState → Bool
is_live open_state = true
is_live closing = true
is_live closed = false

abbrev pub is_closed : TradeState → Bool
is_closed closed = true
is_closed open_state = false
is_closed closing = false

-- a closed trade's time of closing, where both conditions of the queries hold
abbrev pub closing_time : {A : Type 0} → Trade A → Option ℕ
closing_time trade = if is_closed trade.state then trade.closed_at else none

-- rows in the order of `closed_at DESC`; the closing times stand beside the rows
unfoldable pub insert_desc {ℓ} : {B : Type ℓ} → ℕ × B → List (ℕ × B) → List (ℕ × B)
insert_desc r [] = r ∷ []
insert_desc r (x ∷ xs) = if ltb x.0 r.0 then r ∷ x ∷ xs else x ∷ insert_desc r xs

unfoldable pub sort_desc {ℓ} : {B : Type ℓ} → List (ℕ × B) → List (ℕ × B)
unfolding insert_desc
sort_desc [] = []
sort_desc (r ∷ rs) = insert_desc r (sort_desc rs)

-- `GROUP BY symbol` with `MAX(closed_at)`: one entry for each symbol
unfoldable pub record_close : String → ℕ → List (String × ℕ) → List (String × ℕ)
record_close k at [] = (k, at) ∷ []
record_close k at ((j, v) ∷ m) =
    if str_eq j k then (j, max v at) ∷ m else (j, v) ∷ record_close k at m

-- whole seconds, and 0 for a close that lies ahead of the clock
abbrev pub seconds_between : ℕ → ℕ → ℕ
seconds_between now at = (now - at) / 1000000

unfoldable pub seconds_map : ℕ → List (String × ℕ) → List (String × ℕ)
seconds_map now [] = []
seconds_map now ((k, at) ∷ m) = (k, seconds_between now at) ∷ seconds_map now m

-- `reason == "stop"`
abbrev pub is_stop : Option String → Bool
is_stop none = false
is_stop (some reason) = str_eq reason "stop"

module _ {A : Type 0} where
  unfoldable pub count_open_trades : List (Trade A) → ℕ
  count_open_trades trades = length (filter (λ r. is_live r.state) trades)

  -- the closed rows, each with its time of closing
  unfoldable pub closed_rows : List (Trade A) → List (ℕ × Trade A)
  closed_rows [] = []
  closed_rows (r ∷ rs) = elim (closing_time r) [
    | none ↦ closed_rows rs
    | some at ↦ (at, r) ∷ closed_rows rs
  ]

  unfoldable pub count_recent_stoplosses : ℕ → List (Trade A) → ℕ × ℕ
  unfolding closed_rows sort_desc
  count_recent_stoplosses lookback trades =
      let rows = take lookback (sort_desc (closed_rows trades)) in
      (length (filter (λ r. is_stop r.1.exit_reason) rows), length rows)

  unfoldable pub closes_by_symbol : List (ℕ × Trade A) → List (String × ℕ)
  unfolding record_close
  closes_by_symbol [] = []
  closes_by_symbol ((at, r) ∷ rs) = record_close r.symbol at (closes_by_symbol rs)

  unfoldable pub seconds_since_last_close_by_symbol : ℕ → List (Trade A) → List (String × ℕ)
  unfolding closed_rows closes_by_symbol seconds_map
  seconds_since_last_close_by_symbol now trades =
      seconds_map now (closes_by_symbol (closed_rows trades))

  -- the newest snapshot's equity; of equally new ones the first
  unfoldable pub newest : EquitySnapshot A → List (EquitySnapshot A) → EquitySnapshot A
  newest best [] = best
  newest best (s ∷ ss) = newest (if ltb best.created_at s.created_at then s else best) ss

  unfoldable pub load_latest_equity : List (EquitySnapshot A) → Option A
  unfolding newest
  load_latest_equity [] = none
  load_latest_equity (s ∷ ss) = some (newest s ss).account_equity

module _ (dec : Decimal) where
  open dec use {Amount, of_int, add, sub, mul, div, lt}

  unfoldable pub peak_from : Amount → List (EquitySnapshot Amount) → Amount
  peak_from best [] = best
  peak_from best (s ∷ ss) = peak_from (greater dec best s.account_equity) ss

  -- `MAX(account_equity)`
  unfoldable pub load_peak_equity : List (EquitySnapshot Amount) → Option Amount
  unfolding peak_from
  load_peak_equity [] = none
  load_peak_equity (s ∷ ss) = some (peak_from s.account_equity ss)

  -- the P&L that a row adds, if the row is summed
  abbrev pub counted_pnl : ℕ → Trade Amount → Option Amount
  counted_pnl since r = elim (closing_time r) [
    | none ↦ none
    | some at ↦ if leb since at then r.realised_pnl else none
  ]

  unfoldable pub sum_from : ℕ → Amount → List (Trade Amount) → Amount
  sum_from since total [] = total
  sum_from since total (r ∷ rs) =
      sum_from since (elim (counted_pnl since r) [ none ↦ total | some pnl ↦ add total pnl ]) rs

  unfoldable pub sum_realised_pnl_since : ℕ → List (Trade Amount) → Amount
  unfolding sum_from
  sum_realised_pnl_since since trades = sum_from since (of_int 0) trades

  -- `max(Decimal("0"), -pnl / capital) if capital > 0 else Decimal("0")`
  unfoldable pub loss_pct : Amount → Amount → Amount
  loss_pct capital pnl =
      if lt (of_int 0) capital
      then greater dec (of_int 0) (div (sub (of_int 0) pnl) capital)
      else of_int 0

  unfoldable pub drawdown_pct : Option Amount → Option Amount → Amount
  drawdown_pct none latest = of_int 0
  drawdown_pct (some peak) none = of_int 0
  drawdown_pct (some peak) (some latest) =
      if lt (of_int 0) peak && lt latest peak then div (sub peak latest) peak else of_int 0

  abbrev pub fallback_capital : Amount
  fallback_capital = of_int 10000

  abbrev pub stoploss_guard_lookback : ℕ
  stoploss_guard_lookback = 5

  abbrev pub or_fallback : Option Amount → Amount
  or_fallback none = fallback_capital
  or_fallback (some equity) = equity

  unfoldable pub load_risk_state :
      ℕ → ℕ → List (Trade Amount) → List (EquitySnapshot Amount) → RiskState Amount
  load_risk_state tenant now all_trades all_snapshots =
      let trades = filter (λ r. r.tenant_id == tenant) all_trades in
      let snapshots = filter (λ s. s.tenant_id == tenant) all_snapshots in
      let latest_equity = load_latest_equity snapshots in
      let capital = or_fallback latest_equity in
      let recent = count_recent_stoplosses stoploss_guard_lookback trades in
      record {
        capital = capital;
        day_to_date_loss_pct = loss_pct capital (sum_realised_pnl_since (day_start now) trades);
        week_to_date_loss_pct = loss_pct capital (sum_realised_pnl_since (week_start now) trades);
        open_positions_count = count_open_trades trades;
        peak_to_trough_drawdown_pct = drawdown_pct (load_peak_equity snapshots) latest_equity;
        recent_stoploss_count_trailing = recent.0;
        recent_trades_lookback = recent.1;
        seconds_since_last_close_by_symbol = seconds_since_last_close_by_symbol now trades;
      }
