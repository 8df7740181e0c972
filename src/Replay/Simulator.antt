-- ===== src/Replay/Simulator.antt =====
-- contexts/replay/pnl_simulator.py over contexts/replay/models.py: a proposal's exit under a policy,
-- rolled forward over the bars after its entry. `none` is the exception that decimal division by
-- zero raises in `compute_trailing_stop`.
pub mod Exits
use iguanatrader.Risk.Models.{Side, buy, sell}
use iguanatrader.Risk.Trailing.{
  Bar, TrailingStopReason, trailed, no_update, trigger_not_reached, TrailingStopUpdate,
  mean_true_range, compute_trailing_stop,
}
use iguanatrader.Decimal.{Decimal, is_zero}
use iguanatrader.Common.{
  Bool, ◌&&◌, none, ◌+◌, Option, ◌++◌, true, ◌*◌, ◌∷◌, [], if◌then◌else◌, length, ◌-◌, not, ltb,
  false, drop, List, ℕ, some, String,
}

pub record ExitPolicy (A : Type 0) : Type 0 where
  pub name : String
  pub horizon_days : ℕ
  pub use_trailing_stop : Bool
  pub use_target : Bool
  pub target_atr_multiplier : A
  pub trail_trigger_pct : A
  pub trail_atr_mult : A
  pub trail_atr_period : ℕ

pub data ExitReason : Type 0 where
  stop target horizon no_bars no_exit : ExitReason

pub record SimulatedOutcome (A : Type 0) : Type 0 where
  pub proposal_id : ℕ
  pub policy_name : String
  pub exited : Bool
  pub exit_reason : ExitReason
  pub exit_price : A
  pub exit_at : Option ℕ
  pub bars_held : ℕ
  pub pnl_absolute : A
  pub pnl_pct : A

-- the arguments of `simulate_pnl` that stay the same over the loop
pub record Position (A : Type 0) : Type 0 where
  pub proposal_id : ℕ
  pub side : Side
  pub entry_price : A
  pub initial_stop : A
  pub quantity : A
  pub opened_at : ℕ

module _ (dec : Decimal) where
  open dec use {Amount, of_int, add, sub, mul, div, lt}

  -- the window of the last `atr_period + 1` bars
  abbrev pub window : ℕ → List (Bar Amount) → List (Bar Amount)
  window atr_period bars = drop (length bars - (atr_period + 1)) bars

  unfoldable pub compute_atr_at_entry : ℕ → List (Bar Amount) → Option Amount
  compute_atr_at_entry atr_period bars =
      if ltb (length bars) 2 then none else mean_true_range dec (window atr_period bars)

  -- what a unit of the position gains when it is left at a price
  abbrev pub gain : Position Amount → Amount → Amount
  gain position exit_price = elim position.side [
    | buy ↦ sub exit_price position.entry_price
    | sell ↦ sub position.entry_price exit_price
  ]

  unfoldable pub exit_outcome :
      Position Amount → String → Amount → ℕ → ℕ → ExitReason → SimulatedOutcome Amount
  exit_outcome position policy_name exit_price exit_at bars_held reason = record {
    proposal_id = position.proposal_id;
    policy_name = policy_name;
    exited = true;
    exit_reason = reason;
    exit_price = exit_price;
    exit_at = some exit_at;
    bars_held = bars_held;
    pnl_absolute = mul (gain position exit_price) position.quantity;
    pnl_pct =
        if not (is_zero dec position.entry_price)
        then div (gain position exit_price) position.entry_price
        else of_int 0;
  }

  -- the target on the favourable side of the entry
  abbrev pub target_at : Side → Amount → Amount → Amount
  target_at buy entry distance = add entry distance
  target_at sell entry distance = sub entry distance

  abbrev pub target_given : Position Amount → Amount → Option Amount → Option Amount
  target_given position multiplier none = none
  target_given position multiplier (some atr) =
      if lt (of_int 0) atr
      then some (target_at position.side position.entry_price (mul multiplier atr))
      else none

  unfoldable pub target_of : Position Amount → List (Bar Amount) → ExitPolicy Amount → Option Amount
  unfolding compute_atr_at_entry
  target_of position pre_entry_bars policy =
      if policy.use_target
      then target_given position policy.target_atr_multiplier
          (compute_atr_at_entry policy.trail_atr_period pre_entry_bars)
      else none

  -- `if update.reason == "trailed": active_stop = update.new_stop`
  abbrev pub followed : Amount → TrailingStopReason → Amount → Amount
  followed active_stop trailed new_stop = new_stop
  followed active_stop no_update new_stop = active_stop
  followed active_stop trigger_not_reached new_stop = active_stop

  abbrev pub followed_update : Amount → Option (TrailingStopUpdate Amount) → Option Amount
  followed_update active_stop none = none
  followed_update active_stop (some update) =
      some (followed active_stop update.reason update.new_stop)

  abbrev pub is_buy : Side → Bool
  is_buy buy = true
  is_buy sell = false

  -- the active stop for the bar, `bars` being the ones up to and including it
  unfoldable pub next_stop :
      Position Amount → ExitPolicy Amount → Amount → List (Bar Amount) → Option Amount
  next_stop position policy active_stop bars =
      if policy.use_trailing_stop && is_buy position.side
      then followed_update active_stop (
          compute_trailing_stop dec
            (record {
              trade_id = position.proposal_id;
              side = buy;
              entry_price = position.entry_price;
              stop_price = active_stop;
              opened_at = position.opened_at;
            })
            bars policy.trail_trigger_pct policy.trail_atr_mult)
      else some active_stop

  -- buy: the low breaches; sell: the high breaches
  unfoldable pub stop_hit : Side → Bar Amount → Amount → Bool
  stop_hit buy bar active_stop = not (lt active_stop bar.low)
  stop_hit sell bar active_stop = not (lt bar.high active_stop)

  unfoldable pub target_hit : Side → Bar Amount → Amount → Bool
  target_hit buy bar level = not (lt bar.high level)
  target_hit sell bar level = not (lt level bar.low)

  -- the target check, at the end of the body of the loop
  unfoldable pub check_target :
      Position Amount → String → Bar Amount → ℕ → Option Amount → Option (SimulatedOutcome Amount)
  unfolding exit_outcome target_hit
  check_target position name bar held none = none
  check_target position name bar held (some level) =
      if target_hit position.side bar level
      then some (exit_outcome position name level bar.timestamp held target)
      else none

  -- the body after the horizon test and the ratchet
  unfoldable pub check_exits :
      Position Amount
      → String
      → Bar Amount
      → ℕ
      → Option Amount
      → Amount
      → Option (SimulatedOutcome Amount)
  unfolding check_target stop_hit
  check_exits position name bar held level active_stop =
      if stop_hit position.side bar active_stop
      then some (exit_outcome position name active_stop bar.timestamp held stop)
      else check_target position name bar held level

  -- The loop over `bars`, after the bars `seen`, of which `last` is the newest; `bars_held` is the
  -- number of bars seen.
  unfoldable pub roll :
      Position Amount
      → ExitPolicy Amount
      → Option Amount
      → List (Bar Amount)
      → Bar Amount
      → List (Bar Amount)
      → Amount
      → Option (SimulatedOutcome Amount)
  unfolding next_stop check_exits
  roll position policy level seen last [] active_stop =
      some (exit_outcome position policy.name last.close last.timestamp (length seen) no_exit)
  roll position policy level seen last (bar ∷ bars) active_stop =
      let now_seen = seen ++ bar ∷ [] in
      let held = length seen + 1 in
      elim (ltb (position.opened_at + policy.horizon_days * 86400000000) bar.timestamp) [
        | true ↦ some (exit_outcome position policy.name bar.open_price bar.timestamp held horizon)
        | false ↦ elim (next_stop position policy active_stop now_seen) [
          | none ↦ none
          | some stop_now ↦ elim (check_exits position policy.name bar held level stop_now) [
            | some outcome ↦ some outcome
            | none ↦ roll position policy level now_seen bar bars stop_now
          ]
        ]
      ]

  unfoldable pub simulate_pnl :
      Position Amount
      → List (Bar Amount)
      → List (Bar Amount)
      → ExitPolicy Amount
      → Option (SimulatedOutcome Amount)
  unfolding target_of roll
  simulate_pnl position pre_entry_bars [] policy = some (record {
    proposal_id = position.proposal_id;
    policy_name = policy.name;
    exited = false;
    exit_reason = no_bars;
    exit_price = position.entry_price;
    exit_at = none;
    bars_held = 0;
    pnl_absolute = of_int 0;
    pnl_pct = of_int 0;
  })
  simulate_pnl position pre_entry_bars (bar ∷ bars) policy =
      roll position policy (target_of position pre_entry_bars policy) [] bar (bar ∷ bars)
        position.initial_stop
