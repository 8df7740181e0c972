-- ===== src/Strategies/Donchian.antt =====
-- contexts/trading/strategies/donchian_atr.py with `evaluate` of base.py and `_compute_atr` of
-- _indicators.py. A parameter is `none` when it is missing, unreadable or not finite; the two
-- lengths are taken as read, and not negative. `raised` is an exception (`bars[-1]` or `max` of
-- nothing). A signal's reasoning, metadata and ids are left out.
pub mod Bracket
pub mod Window
use iguanatrader.Common.{
  ℕ, Bool, not, ◌&&◌, ◌||◌, Option, none, some, List, [], ◌∷◌, length, drop, all, ltb, String,
  if◌then◌else◌, ◌-◌, ◌+◌,
}
use iguanatrader.Decimal.{Decimal, abs, greater}
use iguanatrader.Risk.Models.{Side, buy, sell}
use iguanatrader.Risk.Trailing.{Bar, mean_true_range}
use iguanatrader.Trading.Models.{Mode}
use iguanatrader.Trading.Propose.{Proposal}
use iguanatrader.Strategies.Sizing.{calculate_quantity}

-- `StrategyConfigSnapshot` with the parameters that the strategy reads
pub record StrategyConfigSnapshot (A : Type 0) : Type 0 where
  pub lookback : ℕ
  pub atr_period : ℕ
  pub atr_mult : Option A
  pub target_mult : Option A
  pub risk_pct : Option A
  pub equity : Option A
  pub sizing_mode : String
  pub target_cash : Option A
  pub mode : Mode

-- what `evaluate` ends with
pub data Signal (A : Type 0) : Type 0 where
  raised : Signal A
  no_signal : Signal A
  proposed : Proposal A → Signal A

module _ {ℓ} {A : Type ℓ} where
  -- `xs[:-1]`
  abbrev pub init : List A → List A
  init [] = []
  init (x ∷ []) = []
  init (x ∷ y ∷ ys) = x ∷ init (y ∷ ys)

  -- `xs[-1]`
  abbrev pub last : List A → Option A
  last [] = none
  last (x ∷ []) = some x
  last (x ∷ y ∷ ys) = last (y ∷ ys)

  -- `xs[-n:]`, for a positive `n`
  abbrev pub last_n : ℕ → List A → List A
  last_n n xs = drop (length xs - n) xs

  -- `bars[-lookback - 1 : -1]`
  abbrev pub window : ℕ → List A → List A
  window lookback bars = init (last_n (lookback + 1) bars)

-- `_to_decimal`
module _ {A : Type 0} where
  abbrev pub to_decimal : Option A → A → A
  to_decimal none default = default
  to_decimal (some value) default = value

module _ (dec : Decimal) where
  open dec use {Amount, of_int, add, sub, mul, div, lt}

  -- `max(bar.high for bar in window)` and `min(bar.low for bar in window)`, from the first bar on
  unfoldable pub max_high : Amount → List (Bar Amount) → Amount
  max_high best [] = best
  max_high best (b ∷ bs) = max_high (greater dec best b.high) bs

  unfoldable pub min_low : Amount → List (Bar Amount) → Amount
  min_low best [] = best
  min_low best (b ∷ bs) = min_low (if lt b.low best then b.low else best) bs

  unfoldable pub compute_atr : List (Bar Amount) → Option Amount
  compute_atr bars = if ltb (length bars) 2 then none else mean_true_range dec bars

  -- the direction of the break, if there is one
  unfoldable pub direction : Amount → Amount → Amount → Option Side
  direction latest_close channel_high channel_low =
      if not (lt latest_close channel_high)
      then some buy
      else if not (lt channel_low latest_close)
      then some sell
      else none

  abbrev pub stop_at : Side → Amount → Amount → Amount
  stop_at buy entry distance = sub entry distance
  stop_at sell entry distance = add entry distance

  abbrev pub target_at : Side → Amount → Amount → Amount
  target_at buy entry distance = add entry distance
  target_at sell entry distance = sub entry distance

  -- the last two of the five tests of a bracket
  abbrev pub wrong_side : Side → Amount → Amount → Bool
  wrong_side buy entry target = not (lt entry target)
  wrong_side sell entry target = not (lt target entry)

  unfoldable pub is_degenerate : Side → Amount → Amount → Amount → Bool
  is_degenerate side entry stop target =
      not (lt (of_int 0) (abs dec (sub entry stop)))
      || not (lt (of_int 0) stop)
      || not (lt (of_int 0) target)
      || wrong_side side entry target

  -- from the bracket's test on
  unfoldable pub propose_bracket :
      (Amount → Amount)
      → String
      → StrategyConfigSnapshot Amount
      → Side
      → Amount
      → Amount
      → Amount
      → Signal Amount
  propose_bracket to_integral symbol config side entry stop target =
      let quantity =
        calculate_quantity dec to_integral config.sizing_mode entry stop
          (to_decimal config.risk_pct (div (of_int 1) (of_int 100)))
          (to_decimal config.equity (of_int 10000)) (to_decimal config.target_cash (of_int 0)) in
      if is_degenerate side entry stop target
      then no_signal
      else if not (lt (of_int 0) quantity)
      then no_signal
      else proposed (record {
        symbol = symbol;
        side = side;
        quantity = quantity;
        entry_price_indicative = entry;
        stop_price = stop;
        target_price = some target;
        confidence_score = none;
        mode = config.mode;
      })

  -- from the test of the range on
  unfoldable pub propose_atr :
      (Amount → Amount)
      → String
      → StrategyConfigSnapshot Amount
      → Side
      → Amount
      → Option Amount
      → Signal Amount
  propose_atr to_integral symbol config side entry none = no_signal
  propose_atr to_integral symbol config side entry (some atr) =
      if not (lt (of_int 0) atr)
      then no_signal
      else propose_bracket to_integral symbol config side entry
          (stop_at side entry (mul (to_decimal config.atr_mult (of_int 2)) atr))
          (target_at side entry (mul (to_decimal config.target_mult (of_int 3)) atr))

  abbrev pub propose_side :
      (Amount → Amount)
      → String
      → StrategyConfigSnapshot Amount
      → Option Side
      → Amount
      → List (Bar Amount)
      → Signal Amount
  propose_side to_integral symbol config none entry bars = no_signal
  propose_side to_integral symbol config (some side) entry bars =
      propose_atr to_integral symbol config side entry
        (compute_atr (last_n (config.atr_period + 1) bars))

  -- from `latest_close` on
  abbrev pub propose_break :
      (Amount → Amount)
      → String
      → StrategyConfigSnapshot Amount
      → List (Bar Amount)
      → Option (Bar Amount)
      → List (Bar Amount)
      → Signal Amount
  propose_break to_integral symbol config bars none channel = raised
  propose_break to_integral symbol config bars (some latest) [] = raised
  propose_break to_integral symbol config bars (some latest) (w ∷ ws) =
      propose_side to_integral symbol config
        (direction latest.close (max_high w.high ws) (min_low w.low ws)) latest.close bars

  unfoldable pub compute_signal_impl :
      (Amount → Amount) → String → List (Bar Amount) → StrategyConfigSnapshot Amount → Signal Amount
  compute_signal_impl to_integral symbol bars config =
      if ltb (length bars) (config.lookback + config.atr_period)
      then no_signal
      else propose_break to_integral symbol config bars (last bars) (window config.lookback bars)

  -- `MIN_BARS` is 35.
  unfoldable pub validate_history : (Amount → Bool) → List (Bar Amount) → Bool
  validate_history is_finite bars =
      not (ltb (length bars) 35)
      && all
          (λ b.
            is_finite b.open_price
            && is_finite b.high
            && is_finite b.low
            && is_finite b.close
            && is_finite b.volume)
          bars

  unfoldable pub evaluate :
      (Amount → Amount)
      → (Amount → Bool)
      → String
      → List (Bar Amount)
      → StrategyConfigSnapshot Amount
      → Signal Amount
  evaluate to_integral is_finite symbol bars config =
      if validate_history is_finite (init bars)
      then compute_signal_impl to_integral symbol (init bars) config
      else no_signal
