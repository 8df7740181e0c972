-- ===== src/Strategies/Sizing.antt =====
-- contexts/trading/strategies/sizing.py: how many shares a signal buys. `to_integral` is
-- `to_integral_value(rounding=ROUND_DOWN)`.
use iguanatrader.Common.{not, ◌||◌, if◌then◌else◌, String, str_eq}
use iguanatrader.Decimal.{Decimal, abs}

module _ (dec : Decimal) where
  open dec use {Amount, of_int, sub, mul, div, lt}

  unfoldable pub calculate_quantity :
      (Amount → Amount) → String → Amount → Amount → Amount → Amount → Amount → Amount
  calculate_quantity to_integral sizing_mode entry stop risk_pct equity target_cash =
      let risk_per_share = abs dec (sub entry stop) in
      if str_eq sizing_mode "cash"
      then (if not (lt (of_int 0) entry) || not (lt (of_int 0) target_cash)
          then of_int 0
          else to_integral (div target_cash entry))
      else (if not (lt (of_int 0) risk_per_share)
          then of_int 0
          else to_integral (div (mul risk_pct equity) risk_per_share))
