-- ===== src/Risk/Tests.antt =====
-- The risk context on a small book: two tenants, fixed-point amounts.
use iguanatrader.Decimal.Fixed.{Fixed, fixed, amount}
use iguanatrader.Common.{
  String, ℕ, Option, arith, ◌∷◌, ◌+◌, none, refl, List, true, [], ◌≤◌, ◌-◌, ◌*◌, ◌≡◌, some,
}
use iguanatrader.Risk.State.{
  TradeState, EquitySnapshot, Trade, closed, load_risk_state, open_state, load_latest_equity,
  loss_pct, sum_realised_pnl_since, day_start,
}
use iguanatrader.Risk.Service.Evaluation.{Gated, evaluate_proposal-Gated, step, trips, breach_halts}
use iguanatrader.Risk.Models.{
  RiskCaps, RiskState, TradeProposalInput, allow, daily_loss, market, buy,
}
use iguanatrader.Risk.KillSwitch.{load_kill_switch_state}
use iguanatrader.Risk.Engine.{evaluate}
use iguanatrader.Risk.Service.{
  RiskStore, evaluate_proposal, has_today_automatic_breach_event, kill_switch_active,
}
use iguanatrader.Risk.KillSwitch.Log.{fresh}
use iguanatrader.Risk.Engine.Monotone.{evaluate_relax}
use iguanatrader.Risk.Engine.Gate.{Verdict, Satisfied, cap_order, evaluate-Verdict}
use iguanatrader.Risk.Protections.{
  evaluate_per_trade, evaluate_daily, evaluate_weekly, evaluate_max_open, evaluate_max_drawdown,
  evaluate_stoploss_guard, evaluate_cooldown_period,
}
use iguanatrader.Risk.Service.Daily.{breaches, evaluate_proposal-once}

abbrev pub no_dump : RiskState Fixed → List (String × String)
no_dump s = []

abbrev pub caps : RiskCaps Fixed
caps = record {
  per_trade_pct = amount 200;
  daily_loss_pct = amount 500;
  weekly_loss_pct = amount 1500;
  max_open_positions = 5;
  max_drawdown_pct = amount 1500;
  stoploss_guard_threshold = some 3;
  stoploss_guard_lookback = 5;
  cooldown_seconds = some 3600;
  trail_trigger_pct = none;
  trail_atr_mult = amount 20000;
  trail_atr_period = 14;
  execution_algo = market;
}

abbrev pub proposal : TradeProposalInput Fixed
proposal = record {
  id = 71;
  tenant_id = 1;
  notional_value = amount 1000000;
  side = buy;
  symbol = "AAPL";
}

abbrev pub noon : ℕ
noon = 20000 * 86400000000 + 43200000000

abbrev pub trade_of : ℕ → String → TradeState → Option ℕ → Option Fixed → Trade Fixed
trade_of tenant symbol state closed_at pnl = record {
  tenant_id = tenant;
  symbol = symbol;
  state = state;
  exit_reason = some "stop";
  closed_at = closed_at;
  realised_pnl = pnl;
}

-- the tenant has lost 6 % of its equity today
abbrev pub losing : List (Trade Fixed)
losing =
    trade_of 1 "MSFT" closed (some (noon - 60000000)) (some (record { plus = 0; minus = 6000000 }))
    ∷ trade_of 1 "SPY" open_state none none
    ∷ trade_of 2 "AAPL" closed (some (noon - 1000000)) (some (amount 5))
    ∷ []

abbrev pub equity : List (EquitySnapshot Fixed)
equity =
    record { tenant_id = 1; account_equity = amount 100000000; created_at = noon - 5 }
    ∷ record { tenant_id = 2; account_equity = amount 900; created_at = noon - 5 }
    ∷ []

abbrev pub empty_db : RiskStore Fixed
empty_db = record { switches = fresh true; evaluations = []; overrides = []; notices = [] }

abbrev pub small_loss : RiskState Fixed
small_loss = record {
  capital = amount 100000000;
  day_to_date_loss_pct = amount 400;
  week_to_date_loss_pct = amount 400;
  open_positions_count = 4;
  peak_to_trough_drawdown_pct = amount 0;
  recent_stoploss_count_trailing = 2;
  recent_trades_lookback = 5;
  seconds_since_last_close_by_symbol = ("AAPL", 7200) ∷ [];
}

evaluate-Verdict_example :
    Verdict fixed
      (Satisfied fixed proposal small_loss caps)
      cap_order
      (evaluate fixed no_dump proposal small_loss caps)
evaluate-Verdict_example = evaluate-Verdict fixed no_dump proposal small_loss caps

-- at the cap itself the daily loss is refused
at_the_cap :
    (evaluate fixed no_dump proposal
      (record small_loss { day_to_date_loss_pct = amount 500 })
      caps).cap_type_breached
    ≡ some daily_loss
unfolding evaluate evaluate_per_trade evaluate_daily
at_the_cap = refl

evaluate-allow : (evaluate fixed no_dump proposal small_loss caps).outcome ≡ allow
unfolding evaluate evaluate_per_trade evaluate_daily evaluate_weekly evaluate_max_open
    evaluate_max_drawdown evaluate_stoploss_guard evaluate_cooldown_period
evaluate-allow = refl

abbrev pub looser_caps : RiskCaps Fixed
looser_caps = record caps { max_open_positions = 6; stoploss_guard_threshold = none }

evaluate_relax_example : (evaluate fixed no_dump proposal small_loss looser_caps).outcome ≡ allow
evaluate_relax_example =
    evaluate_relax fixed no_dump proposal small_loss caps small_loss looser_caps
      (record {
        capital_same = refl;
        closes_same = refl;
        per_trade_looser = refl;
        daily_better = refl;
        daily_looser = refl;
        weekly_better = refl;
        weekly_looser = refl;
        open_better = omega arith;
        open_looser = omega arith;
        drawdown_better = refl;
        drawdown_looser = refl;
        stops_better = omega arith;
        stops_looser = tt;
        cooldown_looser = omega arith;
      })
      evaluate-allow

breaching : trips fixed no_dump caps losing equity proposal noon empty_db ≡ true
unfolding evaluate load_risk_state has_today_automatic_breach_event evaluate_per_trade
    load_latest_equity evaluate_daily loss_pct sum_realised_pnl_since day_start
breaching = refl

breach_halts_example :
    let db' = (step fixed no_dump caps losing equity proposal noon empty_db).1 in
    evaluate_proposal fixed no_dump
      (record proposal { symbol = "SPY" })
      looser_caps
      []
      []
      (noon + 9)
      db'
    ≡ (kill_switch_active, db')
unfolding load_kill_switch_state
breach_halts_example =
    breach_halts fixed no_dump caps losing equity proposal noon empty_db
      (record proposal { symbol = "SPY" }) looser_caps [] [] (noon + 9) refl breaching refl

evaluate_proposal-Gated_example : Gated fixed no_dump caps losing equity proposal noon empty_db
evaluate_proposal-Gated_example =
    evaluate_proposal-Gated fixed no_dump caps losing equity proposal noon empty_db

evaluate_proposal-once_example :
    breaches 1 noon (step fixed no_dump caps losing equity proposal noon empty_db).1 ≤ 1
evaluate_proposal-once_example =
    evaluate_proposal-once fixed no_dump caps losing equity 1 noon proposal noon empty_db
      (omega arith)
