-- ===== src/Replay/Tests.antt =====
-- The simulator on a small history.
use iguanatrader.Decimal.Fixed.{Fixed, fixed, amount}
use iguanatrader.Risk.Models.{buy}
use iguanatrader.Replay.Simulator.{
  stop, simulate_pnl, ExitPolicy, SimulatedOutcome, Position, target_of, ExitReason,
}
use iguanatrader.Common.{◌∷◌, List, ◌*◌, none, some, refl, [], true, ℕ, ◌≡◌, ◌+◌, Option}
use iguanatrader.Risk.Trailing.{
  Bar, compute_trailing_stop, trail_on, trail_given, highest_close, ratchet, mean_true_range,
}
use iguanatrader.Replay.Simulator.Exits.{IsExit, simulate_pnl-IsExit}

abbrev day : ℕ → ℕ → ℕ → Bar Fixed
day n low close = record {
  timestamp = n * 86400000000;
  open_price = amount close;
  high = amount (close + 5000);
  low = amount low;
  close = amount close;
  volume = amount 0;
}

abbrev long : Position Fixed
long = record {
  proposal_id = 7;
  side = buy;
  entry_price = amount 1000000;
  initial_stop = amount 950000;
  quantity = amount 30000;
  opened_at = 0;
}

abbrev quad : ExitPolicy Fixed
quad = record {
  name = "quad-30d";
  horizon_days = 30;
  use_trailing_stop = true;
  use_target = true;
  target_atr_multiplier = amount 200000;
  trail_trigger_pct = amount 200;
  trail_atr_mult = amount 20000;
  trail_atr_period = 14;
}

abbrev later_days : List (Bar Fixed)
later_days = day 2 1040000 1050000 ∷ day 3 960000 970000 ∷ day 4 900000 910000 ∷ []

simulate_pnl-IsExit_example :
    (o : SimulatedOutcome Fixed) × (simulate_pnl fixed long []
        (day 1 1000000 1010000 ∷ later_days)
        quad
      ≡ some o)
    × IsExit fixed long (target_of fixed long [] quad) (amount 950000) 4 o
simulate_pnl-IsExit_example =
    simulate_pnl-IsExit fixed long [] (day 1 1000000 1010000) later_days quad refl

abbrev summary : Option (SimulatedOutcome Fixed) → Option (ExitReason × ℕ)
summary none = none
summary (some o) = some (o.exit_reason, o.bars_held)

abbrev stopped : Option (ExitReason × ℕ)
stopped = some (stop, 3)

-- the third day's low is below the stop that has followed the second day's close
stopped_out :
    summary (simulate_pnl fixed long [] (day 1 1000000 1010000 ∷ later_days) quad) ≡ stopped
unfolding simulate_pnl compute_trailing_stop trail_on trail_given highest_close ratchet
    mean_true_range
stopped_out = refl
