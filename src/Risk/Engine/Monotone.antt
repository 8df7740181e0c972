-- ===== src/Risk/Engine/Monotone.antt =====
-- A better state under looser caps is never refused what a worse one is allowed.
use iguanatrader.Common.{
  ℕ, ◌≤◌, String, ◌≡◌, inl, inr, false, Option, none, some, List, [], ◌∷◌, All, arith, all,
}
use iguanatrader.Decimal.{Decimal, lt_widen}
use iguanatrader.Risk.Models.{allow, CapType, RiskCaps, RiskState, TradeProposalInput}
use iguanatrader.Risk.Protections.{seconds_for}
use iguanatrader.Risk.Engine.{evaluate}
use iguanatrader.Risk.Engine.Gate.{
  Below, Waited, FirstFailing, cap_order, Satisfied, evaluate-Verdict, allow-Satisfied,
}

-- A limit is loosened when it is raised or taken away.
abbrev pub Loosened : Option ℕ → Option ℕ → Type 0
Loosened limit none = Unit
Loosened none (some limit') = ⊥
Loosened (some limit) (some limit') = limit ≤ limit'

-- A wait is shortened when it is lowered or taken away.
abbrev pub Shortened : Option ℕ → Option ℕ → Type 0
Shortened wait none = Unit
Shortened none (some wait') = ⊥
Shortened (some wait) (some wait') = wait' ≤ wait

no_FirstFailing :
    (P : CapType → Type 0) (ks : List CapType) (k : CapType) → All P ks → FirstFailing P ks k → ⊥
no_FirstFailing P [] k all first = first
no_FirstFailing P (j ∷ js) k all (inl (e, n)) = n all.0
no_FirstFailing P (j ∷ js) k all (inr (h, first)) = no_FirstFailing P js k all.1 first

module _ (dec : Decimal) where
  open dec use {Amount, lt, lt_cotrans}

  -- From (s, c) to (s', c') every measured loss falls or stays, and every cap rises or stays.
  pub record Relaxes (symbol : String) (s : RiskState Amount) (c : RiskCaps Amount)
      (s' : RiskState Amount) (c' : RiskCaps Amount) : Type 0 where
    pub capital_same : s'.capital ≡ s.capital
    pub closes_same :
        seconds_for symbol s'.seconds_since_last_close_by_symbol
        ≡ seconds_for symbol s.seconds_since_last_close_by_symbol
    pub per_trade_looser : lt c'.per_trade_pct c.per_trade_pct ≡ false
    pub daily_better : lt s.day_to_date_loss_pct s'.day_to_date_loss_pct ≡ false
    pub daily_looser : lt c'.daily_loss_pct c.daily_loss_pct ≡ false
    pub weekly_better : lt s.week_to_date_loss_pct s'.week_to_date_loss_pct ≡ false
    pub weekly_looser : lt c'.weekly_loss_pct c.weekly_loss_pct ≡ false
    pub open_better : s'.open_positions_count ≤ s.open_positions_count
    pub open_looser : c.max_open_positions ≤ c'.max_open_positions
    pub drawdown_better : lt s.peak_to_trough_drawdown_pct s'.peak_to_trough_drawdown_pct ≡ false
    pub drawdown_looser : lt c'.max_drawdown_pct c.max_drawdown_pct ≡ false
    pub stops_better : s'.recent_stoploss_count_trailing ≤ s.recent_stoploss_count_trailing
    pub stops_looser : Loosened c.stoploss_guard_threshold c'.stoploss_guard_threshold
    pub cooldown_looser : Shortened c.cooldown_seconds c'.cooldown_seconds

  Below-relax :
      (n n' : ℕ) (limit limit' : Option ℕ)
      → n' ≤ n
      → Loosened limit limit'
      → Below n limit
      → Below n' limit'
  Below-relax n n' limit none h l b = tt
  Below-relax n n' none (some k') h l b = absurd l
  Below-relax n n' (some k) (some k') h l b = omega arith

  Waited-relax :
      (wait wait' since : Option ℕ) → Shortened wait wait' → Waited wait since → Waited wait' since
  Waited-relax wait none since l w = tt
  Waited-relax none (some k') since l w = absurd l
  Waited-relax (some k) (some k') none l w = tt
  Waited-relax (some k) (some k') (some n) l w = omega arith

  module _ (dump : RiskState Amount → List (String × String)) where
    All-allow :
        (p : TradeProposalInput Amount) (s : RiskState Amount) (c : RiskCaps Amount)
        → All (Satisfied dec p s c) cap_order
        → (evaluate dec dump p s c).outcome ≡ allow
    All-allow p s c all = elim (evaluate-Verdict dec dump p s c) [
      | inl (a, n, _) ↦ a
      | inr (k, r, b, first) ↦ absurd (no_FirstFailing (Satisfied dec p s c) cap_order k all first)
    ]

    -- With the same capital and the same latest closes, a state with losses and counts no higher
    -- and caps no tighter keep an allowed proposal allowed.
    pub evaluate_relax :
        (p : TradeProposalInput Amount) (s : RiskState Amount) (c : RiskCaps Amount)
        (s' : RiskState Amount) (c' : RiskCaps Amount)
        → Relaxes p.symbol s c s' c'
        → (evaluate dec dump p s c).outcome ≡ allow
        → (evaluate dec dump p s' c').outcome ≡ allow
    evaluate_relax p s c s' c' r h =
        let (trade, (day, (week, (count, (drawdown, (stops, (cooldown, _))))))) =
          allow-Satisfied dec dump p s c h in
        All-allow p s' c' (
          (
            rw r.capital_same trade.0,
            rw r.capital_same (lt_cotrans _ _ _ r.per_trade_looser trade.1),
          ),
          (
            lt_widen dec _ _ _ _ r.daily_better r.daily_looser day,
            (
              lt_widen dec _ _ _ _ r.weekly_better r.weekly_looser week,
              (
                omega arith,
                (
                  lt_widen dec _ _ _ _ r.drawdown_better r.drawdown_looser drawdown,
                  (
                    Below-relax _ _ _ _ r.stops_better r.stops_looser stops,
                    (rw r.closes_same (Waited-relax _ _ _ r.cooldown_looser cooldown), tt),
                  ),
                ),
              ),
            ),
          ),
        )
