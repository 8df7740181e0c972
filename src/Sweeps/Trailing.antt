-- ===== src/Sweeps/Trailing.antt =====
-- contexts/risk/trailing_stop_sweep.py over contexts/risk/trailing_stop_repository.py. The audit
-- rows are newest first, and the clock of the sweeps does not go back, so the first row of a trade is
-- the one with the latest `swept_at`. The market data port is given by what it answers for a symbol:
-- `none` is an exception.
pub mod Raises
use iguanatrader.Common.{
  ℕ, String, [], ◌==◌, Bool, some, suc, filter, length, find, true, Option, ◌∷◌, none, false, List,
}
use iguanatrader.Decimal.{Decimal}
use iguanatrader.Trading.Close.{is_open}
use iguanatrader.Risk.Models.{RiskCaps}
use iguanatrader.Risk.State.{open_state, TradeState}
use iguanatrader.Risk.Trailing.{
  Bar, TradeSnapshot, TrailingStopUpdate, TrailingStopReason, trailed, no_update,
  trigger_not_reached, compute_trailing_stop,
}
use iguanatrader.Trading.Models.{Desk, Trade, TradeProposal}
use iguanatrader.Trading.Repository.{get_proposal}

-- `TrailingStopAuditORM`
pub record TrailingStopAudit (A : Type 0) : Type 0 where
  pub trade_id : ℕ
  pub swept_at : ℕ
  pub old_stop : A
  pub new_stop : A
  pub highest_close_since_entry : A
  pub bars_evaluated : ℕ

pub record TrailingStopSweepResult : Type 0 where
  pub trades_evaluated : ℕ
  pub trades_trailed : ℕ
  pub trades_no_update : ℕ
  pub trades_trigger_not_reached : ℕ
  pub trades_skipped_no_bars : ℕ

abbrev pub no_trades : ℕ → TrailingStopSweepResult
no_trades n = record {
  trades_evaluated = n;
  trades_trailed = 0;
  trades_no_update = 0;
  trades_trigger_not_reached = 0;
  trades_skipped_no_bars = 0;
}

abbrev pub counted : Option TrailingStopReason → TrailingStopSweepResult → TrailingStopSweepResult
counted none r = record r { trades_skipped_no_bars = suc r.trades_skipped_no_bars }
counted (some trailed) r = record r { trades_trailed = suc r.trades_trailed }
counted (some no_update) r = record r { trades_no_update = suc r.trades_no_update }
counted (some trigger_not_reached) r = record r {
  trades_trigger_not_reached = suc r.trades_trigger_not_reached;
}

module _ {A : Type 0} where
  unfoldable pub get_latest_for_trade :
      ℕ → List (TrailingStopAudit A) → Option (TrailingStopAudit A)
  get_latest_for_trade trade_id audits = find (λ a. a.trade_id == trade_id) audits

  -- the stop of the latest row, else the proposal's
  abbrev pub stop_from : Option (TrailingStopAudit A) → A → A
  stop_from none stop_price = stop_price
  stop_from (some audit) stop_price = audit.new_stop

  unfoldable pub list_open_trades : Desk A → List (Trade A)
  list_open_trades s = filter (λ t. is_open t.state) s.trades

module _ (dec : Decimal) where
  open dec use {Amount}

  -- the audit row of an update, when it trails
  abbrev pub audited :
      ℕ
      → ℕ
      → ℕ
      → TrailingStopUpdate Amount
      → TrailingStopReason
      → List (TrailingStopAudit Amount)
      → List (TrailingStopAudit Amount)
  audited trade_id now bars update trailed audits =
      record {
        trade_id = trade_id;
        swept_at = now;
        old_stop = update.old_stop;
        new_stop = update.new_stop;
        highest_close_since_entry = update.highest_close_since_entry;
        bars_evaluated = bars;
      }
      ∷ audits
  audited trade_id now bars update no_update audits = audits
  audited trade_id now bars update trigger_not_reached audits = audits

  -- once the update is computed; `none` is its exception
  abbrev pub updated :
      ℕ
      → ℕ
      → ℕ
      → Option (TrailingStopUpdate Amount)
      → List (TrailingStopAudit Amount)
      → Option TrailingStopReason × List (TrailingStopAudit Amount)
  updated trade_id now bars none audits = (none, audits)
  updated trade_id now bars (some update) audits =
      (some update.reason, audited trade_id now bars update update.reason audits)

  -- with the entry, the stop and the bars that it reads
  abbrev pub sweep_read :
      RiskCaps Amount
      → Amount
      → ℕ
      → Trade Amount
      → Option (TradeProposal Amount)
      → Option (List (Bar Amount))
      → List (TrailingStopAudit Amount)
      → Option TrailingStopReason × List (TrailingStopAudit Amount)
  sweep_read caps trigger now trade none bars audits = (none, audits)
  sweep_read caps trigger now trade (some proposal) none audits = (none, audits)
  sweep_read caps trigger now trade (some proposal) (some bars) audits =
      let snapshot : TradeSnapshot Amount = record {
        trade_id = trade.id;
        side = trade.side;
        entry_price = proposal.entry_price_indicative;
        stop_price = stop_from (get_latest_for_trade trade.id audits) proposal.stop_price;
        opened_at = trade.opened_at;
      } in
      updated trade.id now (length bars)
        (compute_trailing_stop dec snapshot bars trigger caps.trail_atr_mult) audits

  unfoldable pub sweep_one :
      RiskCaps Amount
      → Amount
      → (String → Option (List (Bar Amount)))
      → ℕ
      → Desk Amount
      → Trade Amount
      → List (TrailingStopAudit Amount)
      → Option TrailingStopReason × List (TrailingStopAudit Amount)
  sweep_one caps trigger get_bars now s trade audits =
      sweep_read caps trigger now trade (get_proposal trade.proposal_id s) (get_bars trade.symbol)
        audits

  unfoldable pub sweep_trades :
      RiskCaps Amount
      → Amount
      → (String → Option (List (Bar Amount)))
      → ℕ
      → Desk Amount
      → List (Trade Amount)
      → TrailingStopSweepResult
      → List (TrailingStopAudit Amount)
      → TrailingStopSweepResult × List (TrailingStopAudit Amount)
  sweep_trades caps trigger get_bars now s [] r audits = (r, audits)
  sweep_trades caps trigger get_bars now s (t ∷ ts) r audits =
      let (reason, audits') = sweep_one caps trigger get_bars now s t audits in
      sweep_trades caps trigger get_bars now s ts (counted reason r) audits'

  abbrev pub sweep_if :
      Option Amount
      → RiskCaps Amount
      → (String → Option (List (Bar Amount)))
      → ℕ
      → Desk Amount
      → List (TrailingStopAudit Amount)
      → TrailingStopSweepResult × List (TrailingStopAudit Amount)
  sweep_if none caps get_bars now s audits = (no_trades 0, audits)
  sweep_if (some trigger) caps get_bars now s audits =
      let trades = list_open_trades s in
      sweep_trades caps trigger get_bars now s trades (no_trades (length trades)) audits

  unfoldable pub sweep :
      RiskCaps Amount
      → (String → Option (List (Bar Amount)))
      → ℕ
      → Desk Amount
      → List (TrailingStopAudit Amount)
      → TrailingStopSweepResult × List (TrailingStopAudit Amount)
  sweep caps get_bars now s audits = sweep_if caps.trail_trigger_pct caps get_bars now s audits
