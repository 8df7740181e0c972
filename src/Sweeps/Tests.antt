-- ===== src/Sweeps/Tests.antt =====
-- The sweeps over one long position, whose close falls below its stop.
use iguanatrader.Common.{
  ℕ, String, ◌≡◌, List, Option, none, ◌-◌, true, ◌+◌, ◌∷◌, [], some, false, refl,
}
use iguanatrader.Decimal.Fixed.{Fixed, fixed, amount}
use iguanatrader.Risk.Models.{RiskCaps, buy, market}
use iguanatrader.Risk.State.{open_state}
use iguanatrader.Risk.Trailing.{Bar}
use iguanatrader.Trading.Models.{Desk, Trade, TradeProposal, paper, approved}
use iguanatrader.Trading.Repository.{get_trade, get_proposal}
use iguanatrader.Trading.Service.{Service, Outside, placed, read}
use iguanatrader.Sweeps.Trailing.{TrailingStopAudit, get_latest_for_trade}
use iguanatrader.Sweeps.Trailing.Raises.{SweepTick, sweeps, Raises, sweeps-Raises}
use iguanatrader.Sweeps.Stops.{evaluate_one, sweep, is_stop_hit}
use iguanatrader.Sweeps.Stops.Handled.{IsUnderway, handle_all}
use iguanatrader.Sweeps.Stops.Enforced.{is_hit, sweep-IsUnderway}

abbrev row : TradeProposal Fixed
row = record {
  id = 7;
  strategy_config_id = 3;
  symbol = "ACME";
  side = buy;
  quantity = amount 30000;
  entry_price_indicative = amount 1000000;
  stop_price = amount 950000;
  target_price = none;
  confidence_score = none;
  mode = paper;
  created_at = 0;
  state = approved;
  rejection_reason = none;
  rejected_at = none;
}

abbrev long : Trade Fixed
long = record {
  id = 100;
  proposal_id = 7;
  symbol = "ACME";
  side = buy;
  quantity = amount 30000;
  mode = paper;
  state = open_state;
  opened_at = 0;
  closed_at = none;
  exit_reason = none;
  realised_pnl = none;
  avg_entry_price = none;
  unrealized_pnl = none;
  marks_updated_at = none;
}

abbrev desk : Desk Fixed
desk = record {
  proposals = row ∷ [];
  trades = long ∷ [];
  orders = [];
  fills = [];
  snapshots = [];
  kill_switch_active = false;
  next_id = 110;
  published = [];
  sent = [];
  releases = [];
}

abbrev svc : Service Fixed
svc = record {
  tenant_id = 1;
  daemon_mode = some paper;
  execution_algo = market;
  native_bracket_enabled = false;
  live_gateway_wait = 3;
  propose_dedup_window_secs = 1800;
  show_uuid = λ n. "u";
  uuid5 = λ s. 902;
  round_down = λ a. a;
}

abbrev outside : Outside Fixed
outside = record {
  now = 9000000;
  kill_switch_reader = some (read false);
  live_gateway = none;
  place_order = λ order. placed 55;
}

abbrev bar : ℕ → ℕ → Bar Fixed
bar at close = record {
  timestamp = at;
  open_price = amount close;
  high = amount (close + 5000);
  low = amount (close - 5000);
  close = amount close;
  volume = amount 0;
}

abbrev bars : String → Option (List (Bar Fixed))
bars symbol = some (bar 1 1000000 ∷ bar 2 1100000 ∷ bar 3 940000 ∷ [])

abbrev audits : List (TrailingStopAudit Fixed)
audits =
    record {
      trade_id = 100;
      swept_at = 5;
      old_stop = amount 950000;
      new_stop = amount 960000;
      highest_close_since_entry = amount 1010000;
      bars_evaluated = 2;
    }
    ∷ []

abbrev caps : RiskCaps Fixed
caps = record {
  per_trade_pct = amount 200;
  daily_loss_pct = amount 500;
  weekly_loss_pct = amount 1000;
  max_open_positions = 5;
  max_drawdown_pct = amount 1500;
  stoploss_guard_threshold = none;
  stoploss_guard_lookback = 10;
  cooldown_seconds = none;
  trail_trigger_pct = some (amount 200);
  trail_atr_mult = amount 10000;
  trail_atr_period = 14;
  execution_algo = market;
}

abbrev tick : SweepTick fixed
tick = record { caps = caps; get_bars = bars; now = 6; desk = desk }

sweeps-Raises_example :
    Raises fixed
      (get_latest_for_trade 100 audits)
      (get_latest_for_trade 100 (sweeps fixed (tick ∷ tick ∷ []) audits))
sweeps-Raises_example = sweeps-Raises fixed 100 (tick ∷ tick ∷ []) audits

there : get_trade 100 desk ≡ some long
unfolding get_trade
there = refl

its_row : get_proposal 7 desk ≡ some row
unfolding get_proposal
its_row = refl

below_stop : is_hit (evaluate_one fixed bars (some audits) long row) ≡ true
unfolding evaluate_one get_latest_for_trade is_stop_hit
below_stop = refl

sweep-IsUnderway_example :
    IsUnderway svc outside 100 (handle_all svc outside (sweep fixed bars (some audits) desk).1 desk)
sweep-IsUnderway_example =
    sweep-IsUnderway fixed bars (some audits) desk svc outside 100 long row (λ order. (55, refl))
      there refl its_row below_stop
