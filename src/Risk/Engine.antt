-- ===== src/Risk/Engine.antt =====
-- contexts/risk/engine.py: the protections in their fixed order; the first one that does not
-- allow decides.
pub mod Gate
pub mod Monotone
use iguanatrader.Common.{String, Bool, true, false, List, [], ◌∷◌, if◌then◌else◌}
use iguanatrader.Decimal.{Decimal}
use iguanatrader.Risk.Models.{
  Outcome, allow, reject, clip, RiskCaps, RiskState, TradeProposalInput, Decision,
}
use iguanatrader.Risk.Protections.{
  allowed, evaluate_per_trade, evaluate_daily, evaluate_weekly, evaluate_max_open,
  evaluate_max_drawdown, evaluate_stoploss_guard, evaluate_cooldown_period,
}

-- `decision.outcome != "allow"`
abbrev pub is_allow : Outcome → Bool
is_allow allow = true
is_allow reject = false
is_allow clip = false

abbrev pub ProtectionFn : Type 0 → Type 0
ProtectionFn A = TradeProposalInput A → RiskState A → RiskCaps A → Decision A

-- `state.model_dump(mode="json")` with each value as `str` is pydantic's: the parameter `dump`.
module _ (dec : Decimal) (dump : RiskState dec.Amount → List (String × String)) where
  open dec use {Amount}

  unfoldable pub protections : List (ProtectionFn Amount)
  protections =
      evaluate_per_trade dec
      ∷ evaluate_daily dec
      ∷ evaluate_weekly dec
      ∷ evaluate_max_open dec
      ∷ evaluate_max_drawdown dec
      ∷ evaluate_stoploss_guard dec
      ∷ evaluate_cooldown_period dec
      ∷ []

  -- the loop of `evaluate`
  unfoldable pub evaluate_from :
      List (ProtectionFn Amount)
      → TradeProposalInput Amount
      → RiskState Amount
      → RiskCaps Amount
      → Decision Amount
  evaluate_from [] proposal state caps = record allowed { state_snapshot = dump state }
  evaluate_from (protection ∷ rest) proposal state caps =
      let decision = protection proposal state caps in
      if is_allow decision.outcome
      then evaluate_from rest proposal state caps
      else record decision { state_snapshot = dump state }

  unfoldable pub evaluate :
      TradeProposalInput Amount → RiskState Amount → RiskCaps Amount → Decision Amount
  unfolding evaluate_from protections
  evaluate proposal state caps = evaluate_from protections proposal state caps
