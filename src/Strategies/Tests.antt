-- ===== src/Strategies/Tests.antt =====
-- The Donchian strategy on a flat history that ends in a break upwards.
use iguanatrader.Common.{
  ℕ, ◌≡◌, refl, true, Bool, none, some, List, [], ◌∷◌, ◌++◌, ◌+◌, ◌-◌, ◌*◌, ◌/◌, ◌⊎◌, arith, suc,
  zero, false,
}
use iguanatrader.Decimal.Fixed.{Fixed, fixed, amount, below}
use iguanatrader.Risk.Trailing.{Bar, mean_true_range}
use iguanatrader.Trading.Models.{paper}
use iguanatrader.Strategies.Sizing.{calculate_quantity}
use iguanatrader.Strategies.Donchian.{
  validate_history, compute_signal_impl, direction, max_high, propose_atr, compute_atr,
  propose_bracket, is_degenerate, StrategyConfigSnapshot, Signal, no_signal, proposed, evaluate,
  init, last, window, raised,
}
use iguanatrader.Strategies.Donchian.Bracket.{IsSignal, evaluate-IsSignal, evaluate_blind}

abbrev floor : Fixed → Fixed
floor a = record {
  plus = (a.plus - a.minus) / 10000 * 10000;
  minus = (a.minus - a.plus) / 10000 * 10000;
}

abbrev bar : ℕ → Bar Fixed
bar close = record {
  timestamp = 0;
  open_price = amount close;
  high = amount (close + 10000);
  low = amount (close - 10000);
  close = amount close;
  volume = amount 10000;
}

abbrev flat : ℕ → List (Bar Fixed)
flat zero = []
flat (suc n) = bar 1000000 ∷ flat n

-- 35 bars, the last of which closes at 103, two above the highs before it
abbrev history : List (Bar Fixed)
history = flat 34 ++ bar 1030000 ∷ []

abbrev config : StrategyConfigSnapshot Fixed
config = record {
  lookback = 20;
  atr_period = 1;
  atr_mult = none;
  target_mult = none;
  risk_pct = none;
  equity = none;
  sizing_mode = "risk";
  target_cash = none;
  mode = paper;
}

evaluate-IsSignal_example :
    (evaluate fixed floor (λ a. true) "ACME" (history ++ bar 1 ∷ []) config ≡ no_signal)
    ⊎ ((latest : Bar Fixed) × (last (init (history ++ bar 1 ∷ [])) ≡ some latest)
        × IsSignal fixed latest
            (window 20 (init (history ++ bar 1 ∷ [])))
            (evaluate fixed floor (λ a. true) "ACME" (history ++ bar 1 ∷ []) config))
evaluate-IsSignal_example =
    evaluate-IsSignal fixed floor "ACME" config (λ a. true) (history ++ bar 1 ∷ []) (omega arith)

evaluate_blind_example :
    evaluate fixed floor (λ a. true) "ACME" (history ++ bar 1 ∷ []) config
    ≡ evaluate fixed floor (λ a. true) "ACME" (history ++ bar 2000000 ∷ []) config
evaluate_blind_example =
    evaluate_blind fixed floor "ACME" config (λ a. true) history (bar 1) (bar 2000000)

abbrev stop_above : Signal Fixed → Bool
stop_above raised = false
stop_above no_signal = false
stop_above (proposed p) = below p.entry_price_indicative p.stop_price

abbrev is_some : Signal Fixed → Bool
is_some raised = false
is_some no_signal = false
is_some (proposed p) = true

-- The break is bought, and with a negative multiple its stop is above the entry.
breakout_bought :
    is_some (evaluate fixed floor (λ a. true) "ACME" (history ++ bar 1 ∷ []) config) ≡ true
unfolding evaluate validate_history compute_signal_impl direction max_high propose_atr compute_atr
    mean_true_range propose_bracket is_degenerate calculate_quantity
breakout_bought = refl

stop_inverted :
    stop_above (
      evaluate fixed floor
        (λ a. true)
        "ACME"
        (history ++ bar 1 ∷ [])
        (record config { atr_mult = some (record { plus = 0; minus = 20000 }) }))
    ≡ true
unfolding evaluate validate_history compute_signal_impl direction max_high propose_atr compute_atr
    mean_true_range propose_bracket is_degenerate calculate_quantity
stop_inverted = refl
