-- ===== src/Risk/Protections.antt =====
-- The seven protections of contexts/risk/protections, each with its own `evaluate`.
use iguanatrader.Common.{
  ℕ, String, str_eq, not, Option, none, some, List, [], ◌∷◌, ltb, leb, if◌then◌else◌,
}
use iguanatrader.Decimal.{Decimal}
use iguanatrader.Risk.Models.{
  allow, reject, CapType, per_trade, daily_loss, weekly_loss, max_open, max_drawdown,
  stoploss_guard, cooldown_period, RiskCaps, RiskState, TradeProposalInput, Decision,
}

module _ {A : Type 0} where
  -- `Decision(outcome="allow")`
  abbrev pub allowed : Decision A
  allowed = record {
    outcome = allow;
    cap_type_breached = none;
    current_pct = none;
    clip_quantity = none;
    state_snapshot = [];
  }

  -- `Decision(outcome="reject", cap_type_breached=..., current_pct=...)`
  abbrev pub rejected : CapType → Option A → Decision A
  rejected cap pct = record {
    outcome = reject;
    cap_type_breached = some cap;
    current_pct = pct;
    clip_quantity = none;
    state_snapshot = [];
  }

-- `dict.get(symbol)`
abbrev pub seconds_for : String → List (String × ℕ) → Option ℕ
seconds_for k [] = none
seconds_for k ((j, v) ∷ m) = if str_eq j k then some v else seconds_for k m

module _ (dec : Decimal) where
  open dec use {Amount, of_int, div, lt}

  unfoldable pub evaluate_per_trade :
      TradeProposalInput Amount → RiskState Amount → RiskCaps Amount → Decision Amount
  evaluate_per_trade proposal state caps =
      let current_pct = div proposal.notional_value state.capital in
      if not (lt (of_int 0) state.capital)
      then rejected per_trade none
      else if lt caps.per_trade_pct current_pct
      then rejected per_trade (some current_pct)
      else allowed

  unfoldable pub evaluate_daily :
      TradeProposalInput Amount → RiskState Amount → RiskCaps Amount → Decision Amount
  evaluate_daily proposal state caps =
      if not (lt state.day_to_date_loss_pct caps.daily_loss_pct)
      then rejected daily_loss (some state.day_to_date_loss_pct)
      else allowed

  unfoldable pub evaluate_weekly :
      TradeProposalInput Amount → RiskState Amount → RiskCaps Amount → Decision Amount
  evaluate_weekly proposal state caps =
      if not (lt state.week_to_date_loss_pct caps.weekly_loss_pct)
      then rejected weekly_loss (some state.week_to_date_loss_pct)
      else allowed

  unfoldable pub evaluate_max_open :
      TradeProposalInput Amount → RiskState Amount → RiskCaps Amount → Decision Amount
  evaluate_max_open proposal state caps =
      if leb caps.max_open_positions state.open_positions_count
      then rejected max_open (
          if ltb 0 caps.max_open_positions
          then some (div (of_int state.open_positions_count) (of_int caps.max_open_positions))
          else none)
      else allowed

  unfoldable pub evaluate_max_drawdown :
      TradeProposalInput Amount → RiskState Amount → RiskCaps Amount → Decision Amount
  evaluate_max_drawdown proposal state caps =
      if not (lt state.peak_to_trough_drawdown_pct caps.max_drawdown_pct)
      then rejected max_drawdown (some state.peak_to_trough_drawdown_pct)
      else allowed

  unfoldable pub evaluate_stoploss_guard :
      TradeProposalInput Amount → RiskState Amount → RiskCaps Amount → Decision Amount
  evaluate_stoploss_guard proposal state caps = elim caps.stoploss_guard_threshold [
    | none ↦ allowed
    | some threshold ↦
        if ltb state.recent_stoploss_count_trailing threshold
        then allowed
        else rejected stoploss_guard (
            if ltb 0 state.recent_trades_lookback
            then some (
                div (of_int state.recent_stoploss_count_trailing)
                  (of_int state.recent_trades_lookback))
            else none)
  ]

  abbrev cooldown_test : ℕ → Option ℕ → Decision Amount
  cooldown_test threshold none = allowed
  cooldown_test threshold (some seconds_since_close) =
      if leb threshold seconds_since_close
      then allowed
      else rejected cooldown_period (some (div (of_int seconds_since_close) (of_int threshold)))

  unfoldable pub evaluate_cooldown_period :
      TradeProposalInput Amount → RiskState Amount → RiskCaps Amount → Decision Amount
  evaluate_cooldown_period proposal state caps = elim caps.cooldown_seconds [
    | none ↦ allowed
    | some threshold ↦
        cooldown_test threshold
          (seconds_for proposal.symbol state.seconds_since_last_close_by_symbol)
  ]
