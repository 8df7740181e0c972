-- ===== src/Sweeps/Stops.antt =====
-- contexts/risk/stop_hit_sweep.py: open trades whose stop or target the latest close has reached.
-- Requests are newest first, as they are published; `none` for a symbol's bars is an exception of
-- the market data port.
pub mod Handled
pub mod Enforced
use iguanatrader.Common.{
  ℕ, String, not, ◌∷◌, if◌then◌else◌, Bool, suc, List, [], Option, some, none,
}
use iguanatrader.Decimal.{Decimal}
use iguanatrader.Risk.Models.{Side, buy, sell}
use iguanatrader.Risk.Trailing.{Bar}
use iguanatrader.Trading.Close.{is_open}
use iguanatrader.Trading.Models.{Desk, Trade, TradeProposal}
use iguanatrader.Trading.Repository.{get_proposal}
use iguanatrader.Sweeps.Trailing.{TrailingStopAudit, get_latest_for_trade, stop_from}

-- `CloseTradeRequested`
pub record CloseTradeRequested : Type 0 where
  pub trade_id : ℕ
  pub reason : String

pub record StopHitSweepResult : Type 0 where
  pub trades_evaluated : ℕ
  pub stop_hits_emitted : ℕ
  pub target_hits_emitted : ℕ
  pub trades_skipped_no_bars : ℕ

-- what `_evaluate_one` returns, or that it raises
pub data Verdict : Type 0 where
  stop_hit target_hit no_hit failed : Verdict

abbrev pub counted : Verdict → StopHitSweepResult → StopHitSweepResult
counted stop_hit r = record r { stop_hits_emitted = suc r.stop_hits_emitted }
counted target_hit r = record r { target_hits_emitted = suc r.target_hits_emitted }
counted no_hit r = r
counted failed r = record r { trades_skipped_no_bars = suc r.trades_skipped_no_bars }

abbrev pub published : ℕ → Verdict → List CloseTradeRequested → List CloseTradeRequested
published trade_id stop_hit qs = record { trade_id = trade_id; reason = "stop" } ∷ qs
published trade_id target_hit qs = record { trade_id = trade_id; reason = "target" } ∷ qs
published trade_id no_hit qs = qs
published trade_id failed qs = qs

module _ (dec : Decimal) where
  open dec use {Amount, lt}

  -- `close <= stop` for a long, `close >= stop` for a short
  unfoldable pub is_stop_hit : Side → Amount → Amount → Bool
  is_stop_hit buy close stop = not (lt stop close)
  is_stop_hit sell close stop = not (lt close stop)

  unfoldable pub is_target_hit : Side → Amount → Amount → Bool
  is_target_hit buy close target = not (lt close target)
  is_target_hit sell close target = not (lt target close)

  -- the audit repository is optional
  abbrev pub effective_stop : Option (List (TrailingStopAudit Amount)) → ℕ → Amount → Amount
  effective_stop none trade_id stop_price = stop_price
  effective_stop (some audits) trade_id stop_price =
      stop_from (get_latest_for_trade trade_id audits) stop_price

  -- `bars[-1]`
  abbrev pub last_bar : List (Bar Amount) → Option (Bar Amount)
  last_bar [] = none
  last_bar (b ∷ []) = some b
  last_bar (b ∷ c ∷ bs) = last_bar (c ∷ bs)

  abbrev pub target_reached : Side → Amount → Option Amount → Verdict
  target_reached side close none = no_hit
  target_reached side close (some target) =
      if is_target_hit side close target then target_hit else no_hit

  abbrev pub evaluate_close : Side → Option (Bar Amount) → Amount → Option Amount → Verdict
  evaluate_close side none stop target = no_hit
  evaluate_close side (some bar) stop target =
      if is_stop_hit side bar.close stop then stop_hit else target_reached side bar.close target

  abbrev pub evaluate_bars : Side → Option (List (Bar Amount)) → Amount → Option Amount → Verdict
  evaluate_bars side none stop target = failed
  evaluate_bars side (some bars) stop target = evaluate_close side (last_bar bars) stop target

  unfoldable pub evaluate_one :
      (String → Option (List (Bar Amount)))
      → Option (List (TrailingStopAudit Amount))
      → Trade Amount
      → TradeProposal Amount
      → Verdict
  evaluate_one get_bars audits trade proposal =
      evaluate_bars trade.side (get_bars trade.symbol)
        (effective_stop audits trade.id proposal.stop_price) proposal.target_price

  -- a row of the join, where there is one
  abbrev pub sweep_row :
      (String → Option (List (Bar Amount)))
      → Option (List (TrailingStopAudit Amount))
      → Trade Amount
      → Option (TradeProposal Amount)
      → StopHitSweepResult × List CloseTradeRequested
      → StopHitSweepResult × List CloseTradeRequested
  sweep_row get_bars audits trade none (r, qs) = (r, qs)
  sweep_row get_bars audits trade (some proposal) (r, qs) =
      let verdict = evaluate_one get_bars audits trade proposal in
      (
        counted verdict (record r { trades_evaluated = suc r.trades_evaluated }),
        published trade.id verdict qs,
      )

  unfoldable pub sweep_rows :
      (String → Option (List (Bar Amount)))
      → Option (List (TrailingStopAudit Amount))
      → Desk Amount
      → List (Trade Amount)
      → StopHitSweepResult × List CloseTradeRequested
      → StopHitSweepResult × List CloseTradeRequested
  sweep_rows get_bars audits s [] acc = acc
  sweep_rows get_bars audits s (t ∷ ts) acc = sweep_rows get_bars audits s ts (
      if is_open t.state
      then sweep_row get_bars audits t (get_proposal t.proposal_id s) acc
      else acc)

  unfoldable pub sweep :
      (String → Option (List (Bar Amount)))
      → Option (List (TrailingStopAudit Amount))
      → Desk Amount
      → StopHitSweepResult × List CloseTradeRequested
  sweep get_bars audits s = sweep_rows get_bars audits s s.trades (
    record {
      trades_evaluated = 0;
      stop_hits_emitted = 0;
      target_hits_emitted = 0;
      trades_skipped_no_bars = 0;
    },
    [],
  )
