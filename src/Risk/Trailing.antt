-- ===== src/Risk/Trailing.antt =====
-- contexts/risk/stop_management.py: the trailing stop of an open trade. A timestamp is a number.
-- `none` is the exception that decimal division by zero raises.
pub mod Ratchet
use iguanatrader.Common.{
  ℕ, Bool, not, ◌&&◌, Option, none, some, List, [], ◌∷◌, length, filter, ltb, if◌then◌else◌,
}
use iguanatrader.Decimal.{Decimal, abs, greater, is_zero}
use iguanatrader.Risk.Models.{Side, buy, sell}

-- `Bar` of contexts/trading/ports.py
pub record Bar (A : Type 0) : Type 0 where
  pub timestamp : ℕ
  pub open_price : A
  pub high : A
  pub low : A
  pub close : A
  pub volume : A

pub data TrailingStopReason : Type 0 where
  trailed no_update trigger_not_reached : TrailingStopReason

pub record TradeSnapshot (A : Type 0) : Type 0 where
  pub trade_id : ℕ
  pub side : Side
  pub entry_price : A
  pub stop_price : A
  pub opened_at : ℕ

pub record TrailingStopUpdate (A : Type 0) : Type 0 where
  pub trade_id : ℕ
  pub old_stop : A
  pub new_stop : A
  pub highest_close_since_entry : A
  pub atr : Option A
  pub reason : TrailingStopReason

module _ {A : Type 0} where
  -- `[b for b in bars.bars if b.timestamp > trade.opened_at]`
  abbrev pub post_entry_bars : ℕ → List (Bar A) → List (Bar A)
  post_entry_bars opened_at = filter (λ b. ltb opened_at b.timestamp)

  -- the update that leaves the stop alone
  abbrev pub keep_stop : TradeSnapshot A → A → Option A → TrailingStopReason → TrailingStopUpdate A
  keep_stop trade highest atr reason = record {
    trade_id = trade.trade_id;
    old_stop = trade.stop_price;
    new_stop = trade.stop_price;
    highest_close_since_entry = highest;
    atr = atr;
    reason = reason;
  }

module _ (dec : Decimal) where
  open dec use {Amount, of_int, add, sub, mul, div, lt}

  unfoldable pub true_range : Bar Amount → Bar Amount → Amount
  true_range prev cur =
      greater dec (greater dec (sub cur.high cur.low) (abs dec (sub cur.high prev.close)))
        (abs dec (sub cur.low prev.close))

  unfoldable pub true_ranges : Bar Amount → List (Bar Amount) → List Amount
  true_ranges prev [] = []
  true_ranges prev (cur ∷ rest) = true_range prev cur ∷ true_ranges cur rest

  -- `sum(xs, start)`
  abbrev pub sum : Amount → List Amount → Amount
  sum total [] = total
  sum total (x ∷ xs) = sum (add total x) xs

  -- The list of ranges is empty exactly when there are fewer than two bars.
  unfoldable pub mean_of : List Amount → Option Amount
  mean_of [] = none
  mean_of (x ∷ xs) = some (div (sum (of_int 0) (x ∷ xs)) (of_int (length (x ∷ xs))))

  unfoldable pub mean_true_range : List (Bar Amount) → Option Amount
  unfolding true_range true_ranges mean_of
  mean_true_range [] = none
  mean_true_range (first ∷ rest) = mean_of (true_ranges first rest)

  -- `max(b.close for b in post_entry)`, from the first bar's close
  unfoldable pub highest_close : Amount → List (Bar Amount) → Amount
  highest_close best [] = best
  highest_close best (b ∷ bs) = highest_close (greater dec best b.close) bs

  -- from the test `atr is None` on
  unfoldable pub ratchet :
      TradeSnapshot Amount → Amount → Amount → Option Amount → TrailingStopUpdate Amount
  ratchet trade highest mult none = keep_stop trade highest none no_update
  ratchet trade highest mult (some atr) =
      let candidate_stop = sub highest (mul mult atr) in
      if lt trade.stop_price candidate_stop
      then record (keep_stop trade highest (some atr) trailed) { new_stop = candidate_stop }
      else keep_stop trade highest (some atr) no_update

  -- the update, once `favorable_pct` is known
  unfoldable pub trail_given :
      TradeSnapshot Amount
      → Amount
      → Option Amount
      → Amount
      → Amount
      → Amount
      → TrailingStopUpdate Amount
  trail_given trade highest atr favorable_pct trail_trigger_pct trail_atr_mult =
      if lt favorable_pct trail_trigger_pct
      then keep_stop trade highest none trigger_not_reached
      else ratchet trade highest trail_atr_mult atr

  unfoldable pub trail_on :
      TradeSnapshot Amount
      → List (Bar Amount)
      → Amount
      → Amount
      → Option (TrailingStopUpdate Amount)
  trail_on trade [] trail_trigger_pct trail_atr_mult =
      some (keep_stop trade trade.entry_price none trigger_not_reached)
  trail_on trade (first ∷ rest) trail_trigger_pct trail_atr_mult =
      let highest = highest_close first.close rest in
      if is_zero dec trade.entry_price
      then none
      else some (
          trail_given trade highest (mean_true_range (first ∷ rest))
            (div (sub highest trade.entry_price) trade.entry_price) trail_trigger_pct
            trail_atr_mult)

  unfoldable pub trail_side :
      Side
      → TradeSnapshot Amount
      → List (Bar Amount)
      → Amount
      → Amount
      → Option (TrailingStopUpdate Amount)
  trail_side sell trade bars trail_trigger_pct trail_atr_mult =
      some (keep_stop trade trade.entry_price none trigger_not_reached)
  trail_side buy trade bars trail_trigger_pct trail_atr_mult =
      trail_on trade (post_entry_bars trade.opened_at bars) trail_trigger_pct trail_atr_mult

  -- `atr_period` is read by nothing in the source, and left out.
  unfoldable pub compute_trailing_stop :
      TradeSnapshot Amount
      → List (Bar Amount)
      → Amount
      → Amount
      → Option (TrailingStopUpdate Amount)
  unfolding trail_side
  compute_trailing_stop trade bars trail_trigger_pct trail_atr_mult =
      trail_side trade.side trade bars trail_trigger_pct trail_atr_mult
