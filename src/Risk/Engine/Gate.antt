-- ===== src/Risk/Engine/Gate.antt =====
-- What the engine's answer means: the conditions of the seven caps, said without the engine, and
-- the verdict that it reaches on them.
use iguanatrader.Common.{
  ℕ, ◌≤◌, ◌<◌, String, ◌≡◌, refl, ◌⊎◌, inl, inr, true, false, Option, none, some, List, [], ◌∷◌,
  All, arith, all,
}
use iguanatrader.Decimal.{Decimal}
use iguanatrader.Risk.Models.{
  allow, reject, CapType, per_trade, daily_loss, weekly_loss, max_open, max_drawdown,
  stoploss_guard, cooldown_period, RiskCaps, RiskState, TradeProposalInput, Decision,
}
use iguanatrader.Risk.Protections.{
  seconds_for, evaluate_per_trade, evaluate_daily, evaluate_weekly, evaluate_max_open,
  evaluate_max_drawdown, evaluate_stoploss_guard, evaluate_cooldown_period,
}
use iguanatrader.Risk.Engine.{ProtectionFn, protections, evaluate_from, evaluate}

-- A limit that is not set binds nothing.
abbrev pub Below : ℕ → Option ℕ → Type 0
Below n none = Unit
Below n (some limit) = n < limit

abbrev pub Waited : Option ℕ → Option ℕ → Type 0
Waited none since = Unit
Waited (some wait) none = Unit
Waited (some wait) (some since) = wait ≤ since

-- `k` is the first of the list at which `P` fails.
abbrev pub FirstFailing : (CapType → Type 0) → List CapType → CapType → Type 0
FirstFailing P [] k = ⊥
FirstFailing P (j ∷ js) k = ((j ≡ k) × ¬ (P j)) ⊎ (P j × FirstFailing P js k)

abbrev pub cap_order : List CapType
cap_order =
    per_trade ∷ daily_loss ∷ weekly_loss ∷ max_open ∷ max_drawdown ∷ stoploss_guard
    ∷ cooldown_period ∷ []

module _ (dec : Decimal) where
  open dec use {Amount, of_int, div, lt}

  -- What each cap asks of a proposal.
  abbrev pub Satisfied :
      TradeProposalInput Amount → RiskState Amount → RiskCaps Amount → CapType → Type 0
  Satisfied p s c per_trade =
      (lt (of_int 0) s.capital ≡ true)
      × (lt c.per_trade_pct (div p.notional_value s.capital) ≡ false)
  Satisfied p s c daily_loss = lt s.day_to_date_loss_pct c.daily_loss_pct ≡ true
  Satisfied p s c weekly_loss = lt s.week_to_date_loss_pct c.weekly_loss_pct ≡ true
  Satisfied p s c max_open = s.open_positions_count < c.max_open_positions
  Satisfied p s c max_drawdown = lt s.peak_to_trough_drawdown_pct c.max_drawdown_pct ≡ true
  Satisfied p s c stoploss_guard = Below s.recent_stoploss_count_trailing c.stoploss_guard_threshold
  Satisfied p s c cooldown_period =
      Waited c.cooldown_seconds (seconds_for p.symbol s.seconds_since_last_close_by_symbol)

  -- Every cap of the list holds and the decision allows, or it names the first one that fails.
  abbrev pub Verdict : (CapType → Type 0) → List CapType → Decision Amount → Type 0
  Verdict P ks d =
      ((d.outcome ≡ allow) × (d.cap_type_breached ≡ none) × All P ks)
      ⊎ ((k : CapType) × (d.outcome ≡ reject)
          × (d.cap_type_breached ≡ some k)
          × FirstFailing P ks k)

module _ (dec : Decimal) (dump : RiskState dec.Amount → List (String × String))
    (p : TradeProposalInput dec.Amount) (s : RiskState dec.Amount) (c : RiskCaps dec.Amount) where
  open dec use {Amount}

  abbrev Decides : CapType → ProtectionFn Amount → Type 0
  Decides k f =
      ((f p s c).outcome ≡ allow) × Satisfied dec p s c k
      ⊎ ((f p s c).outcome ≡ reject)
        × ((f p s c).cap_type_breached ≡ some k)
        × (¬ (Satisfied dec p s c k))

  abbrev DecideAll : List CapType → List (ProtectionFn Amount) → Type 0
  DecideAll [] [] = Unit
  DecideAll [] (f ∷ fs) = ⊥
  DecideAll (k ∷ ks) [] = ⊥
  DecideAll (k ∷ ks) (f ∷ fs) = Decides k f × DecideAll ks fs

  evaluate_from-Verdict :
      (ks : List CapType) (fs : List (ProtectionFn Amount))
      → DecideAll ks fs
      → Verdict dec (Satisfied dec p s c) ks (evaluate_from dec dump fs p s c)
  unfolding evaluate_from
  evaluate_from-Verdict [] [] h = inl (refl, refl, tt)
  evaluate_from-Verdict [] (f ∷ fs) h = absurd h
  evaluate_from-Verdict (k ∷ ks) [] h = absurd h
  evaluate_from-Verdict (k ∷ ks) (f ∷ fs) (inl (e, ok), rest) =
      elim (evaluate_from-Verdict ks fs rest) [
        | inl (a, n, all) ↦ rw e (inl (a, n, (ok, all)))
        | inr (j, r, b, first) ↦ rw e (inr (j, r, b, inr (ok, first)))
      ]
  evaluate_from-Verdict (k ∷ ks) (f ∷ fs) (inr (e, b, no_way), rest) =
      rw e (inr (k, refl, b, inl (refl, no_way)))

  per_trade-Decides : Decides per_trade (evaluate_per_trade dec)
  unfolding evaluate_per_trade
  per_trade-Decides = ground arith

  daily-Decides : Decides daily_loss (evaluate_daily dec)
  unfolding evaluate_daily
  daily-Decides = ground arith

  weekly-Decides : Decides weekly_loss (evaluate_weekly dec)
  unfolding evaluate_weekly
  weekly-Decides = ground arith

  max_open-Decides : Decides max_open (evaluate_max_open dec)
  unfolding evaluate_max_open
  max_open-Decides = ground arith

  max_drawdown-Decides : Decides max_drawdown (evaluate_max_drawdown dec)
  unfolding evaluate_max_drawdown
  max_drawdown-Decides = ground arith

  stoploss_guard-Decides : Decides stoploss_guard (evaluate_stoploss_guard dec)
  unfolding evaluate_stoploss_guard
  stoploss_guard-Decides = ground arith

  cooldown_period-Decides : Decides cooldown_period (evaluate_cooldown_period dec)
  unfolding evaluate_cooldown_period
  cooldown_period-Decides = ground arith

  -- The engine allows a proposal when all seven caps are satisfied, and names no cap; otherwise it
  -- rejects it and names the first cap, in the fixed order, that is not satisfied.
  pub evaluate-Verdict : Verdict dec (Satisfied dec p s c) cap_order (evaluate dec dump p s c)
  unfolding evaluate
  evaluate-Verdict = evaluate_from-Verdict cap_order (protections dec dump) (
    per_trade-Decides,
    (
      daily-Decides,
      (
        weekly-Decides,
        (
          max_open-Decides,
          (max_drawdown-Decides, (stoploss_guard-Decides, (cooldown_period-Decides, tt))),
        ),
      ),
    ),
  )

  evaluate_from-snapshot :
      (fs : List (ProtectionFn Amount)) → (evaluate_from dec dump fs p s c).state_snapshot ≡ dump s
  unfolding evaluate_from
  evaluate_from-snapshot [] = refl
  evaluate_from-snapshot (f ∷ fs) = ground (arith, evaluate_from-snapshot fs)

  -- Whatever the engine decides, it attaches the state that it has seen.
  pub evaluate-snapshot : (evaluate dec dump p s c).state_snapshot ≡ dump s
  unfolding evaluate
  evaluate-snapshot = evaluate_from-snapshot (protections dec dump)

  pub allow-Satisfied :
      (evaluate dec dump p s c).outcome ≡ allow → All (Satisfied dec p s c) cap_order
  allow-Satisfied h = elim evaluate-Verdict [ inl (a, n, all) ↦ all | inr (k, r, b, first) ↦ cc ]
