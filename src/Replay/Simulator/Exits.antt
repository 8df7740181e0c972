-- ===== src/Replay/Simulator/Exits.antt =====
-- How a simulation ends: it always ends, at a price that its reason allows.
use iguanatrader.Common.{
  Bool-cases, true, some, ◌⊎◌, ℕ, ◌≢◌, false, Option, ◌≡◌, inr, refl, ◌&&◌, ◌≤◌, inl, List, ◌+◌,
  String, length, arith, [], length-append, ◌*◌, ◌++◌, none, ◌∷◌, ltb,
}
use iguanatrader.Decimal.{Decimal, is_zero, lt_irrefl}
use iguanatrader.Risk.Trailing.{
  TradeSnapshot, Bar, TrailingStopReason, trailed, no_update, trigger_not_reached,
}
use iguanatrader.Replay.Simulator.{
  Position, next_stop, SimulatedOutcome, ExitPolicy, Bar, no_bars, simulate_pnl, followed, is_buy,
  stop, buy, target, roll, TrailingStopReason, check_exits, trailed, check_target, exit_outcome,
  horizon, no_exit, target_hit, stop_hit, ExitReason, target_of,
}
use iguanatrader.Risk.Trailing.Ratchet.{compute_trailing_stop-Ratchets}
use iguanatrader.Risk.Models.{buy}

module _ (dec : Decimal) where
  open dec use {Amount, of_int, sub, lt, lt_asymm, lt_cotrans}

  reason-floor :
      (reason : TrailingStopReason) (old new : Amount)
      → (reason ≡ trailed) × (lt old new ≡ true) ⊎ (reason ≢ trailed) × (new ≡ old)
      → lt (followed dec old reason new) old ≡ false
  reason-floor trailed old new h = ground (arith, lt_asymm old new)
  reason-floor no_update old new h = lt_irrefl dec old
  reason-floor trigger_not_reached old new h = lt_irrefl dec old

  -- With an entry price that is not zero, the ratchet returns a stop, and not a lower one.
  next_stop-floor :
      (position : Position Amount) (policy : ExitPolicy Amount) (active : Amount)
      (bars : List (Bar Amount))
      → is_zero dec position.entry_price ≡ false
      → (s : Amount) × (next_stop dec position policy active bars ≡ some s) × (lt s active ≡ false)
  unfolding next_stop
  next_stop-floor position policy active bars z =
      elim (Bool-cases (policy.use_trailing_stop && is_buy dec position.side)) [
        | inl on ↦
            let trade : TradeSnapshot Amount = record {
              trade_id = position.proposal_id;
              side = buy;
              entry_price = position.entry_price;
              stop_price = active;
              opened_at = position.opened_at;
            } in
            let (u, found, r) =
              compute_trailing_stop-Ratchets dec trade bars policy.trail_trigger_pct
                policy.trail_atr_mult z in
            (
              followed dec active u.reason u.new_stop,
              rw (on, found) refl,
              reason-floor u.reason active u.new_stop r.1,
            )
        | inr off ↦ (active, rw off refl, lt_irrefl dec active)
      ]

  -- What an outcome on a nonempty history is: an exit within the bars, at a price that its reason
  -- allows; a stop-out is never below the stop that the position was opened with.
  pub record IsExit (position : Position Amount) (level : Option Amount) (floor : Amount)
      (bound : ℕ) (o : SimulatedOutcome Amount) : Type 0 where
    pub exited : o.exited ≡ true
    pub held : o.bars_held ≤ bound
    pub known : o.exit_reason ≢ no_bars
    pub stopped : (o.exit_reason ≢ stop) ⊎ (lt o.exit_price floor ≡ false)
    pub targeted : (o.exit_reason ≢ target) ⊎ (level ≡ some o.exit_price)

  exit_outcome-IsExit :
      (position : Position Amount) (name : String) (price : Amount) (at held bound : ℕ)
      (reason : ExitReason) (level : Option Amount) (floor : Amount)
      → held ≤ bound
      → reason ≢ no_bars
      → (reason ≢ stop) ⊎ (lt price floor ≡ false)
      → (reason ≢ target) ⊎ (level ≡ some price)
      → IsExit position level floor bound (exit_outcome dec position name price at held reason)
  unfolding exit_outcome
  exit_outcome-IsExit position name price at held bound reason level floor h known st ta = record {
    exited = refl;
    held = h;
    known = known;
    stopped = st;
    targeted = ta;
  }

  -- no exit on this bar, or one that is as it should be
  abbrev Checked :
      Position Amount → Option Amount → Amount → ℕ → Option (SimulatedOutcome Amount) → Type 0
  Checked position level floor bound r =
      (r ≡ none)
      ⊎ ((o : SimulatedOutcome Amount) × (r ≡ some o) × IsExit position level floor bound o)

  check_target-Checked :
      (position : Position Amount) (name : String) (bar : Bar Amount) (held bound : ℕ)
      (level : Option Amount) (floor : Amount)
      → held ≤ bound
      → Checked position level floor bound (check_target dec position name bar held level)
  unfolding check_target
  check_target-Checked position name bar held bound none floor h = inl refl
  check_target-Checked position name bar held bound (some level) floor h =
      elim (Bool-cases (target_hit dec position.side bar level)) [
        | inl e ↦ inr (
          exit_outcome dec position name level bar.timestamp held target,
          rw e refl,
          exit_outcome-IsExit position name level bar.timestamp held bound target (some level) floor
              h (ground arith) (inl (ground arith)) (inr refl),
        )
        | inr e ↦ inl (rw e refl)
      ]

  check_exits-Checked :
      (position : Position Amount) (name : String) (bar : Bar Amount) (held bound : ℕ)
      (level : Option Amount) (active floor : Amount)
      → held ≤ bound
      → lt active floor ≡ false
      → Checked position level floor bound (check_exits dec position name bar held level active)
  unfolding check_exits
  check_exits-Checked position name bar held bound level active floor h above =
      elim (Bool-cases (stop_hit dec position.side bar active)) [
        | inl e ↦ inr (
          exit_outcome dec position name active bar.timestamp held stop,
          rw e refl,
          exit_outcome-IsExit position name active bar.timestamp held bound stop level floor h
              (ground arith) (inr above) (inl (ground arith)),
        )
        | inr e ↦ rw e (check_target-Checked position name bar held bound level floor h)
      ]

  IsExit-bound :
      (position : Position Amount) (level : Option Amount) (floor : Amount) (n m : ℕ)
      (o : SimulatedOutcome Amount)
      → IsExit position level floor n o
      → n ≤ m
      → IsExit position level floor m o
  IsExit-bound position level floor n m o is l = record {
    exited = is.exited;
    held = omega arith;
    known = is.known;
    stopped = is.stopped;
    targeted = is.targeted;
  }

  roll-IsExit :
      (position : Position Amount) (policy : ExitPolicy Amount) (level : Option Amount)
      (seen : List (Bar Amount)) (last : Bar Amount) (bars : List (Bar Amount))
      (active floor : Amount)
      → is_zero dec position.entry_price ≡ false
      → lt active floor ≡ false
      → (o : SimulatedOutcome Amount) × (roll dec position policy level seen last bars active
          ≡ some o)
        × IsExit position level floor (length seen + length bars) o
  unfolding roll
  roll-IsExit position policy level seen last [] active floor z above = (
    exit_outcome dec position policy.name last.close last.timestamp (length seen) no_exit,
    refl,
    exit_outcome-IsExit position policy.name last.close last.timestamp (length seen)
        (length seen + 0) no_exit level floor (omega arith) (ground arith) (inl (ground arith))
        (inl (ground arith)),
  )
  roll-IsExit position policy level seen last (bar ∷ bars) active floor z above =
      let held = length seen + 1 in
      let bound = length seen + length (bar ∷ bars) in
      let now_seen = seen ++ bar ∷ [] in
      elim (Bool-cases
        (ltb (position.opened_at + policy.horizon_days * 86400000000) bar.timestamp)) [
          | inl e ↦ (
            exit_outcome dec position policy.name bar.open_price bar.timestamp held horizon,
            rw (roll, e) refl,
            exit_outcome-IsExit position policy.name bar.open_price bar.timestamp held bound horizon
                level floor (omega arith) (ground arith) (inl (ground arith)) (inl (ground arith)),
          )
          | inr e ↦
              let (s, found, up) = next_stop-floor position policy active now_seen z in
              let s_above = lt_cotrans s active floor up above in
              elim (check_exits-Checked position policy.name bar held bound level s floor
                (omega arith) s_above) [
                  | inl none_yet ↦
                      let (o, eq, is) =
                        roll-IsExit position policy level now_seen bar bars s floor z s_above in
                      (
                        o,
                        rw (roll, e, found, none_yet) eq,
                        IsExit-bound position level floor (length now_seen + length bars) bound o is
                            (omega (arith, length-append seen (bar ∷ []))),
                      )
                  | inr (o, eq, is) ↦ (o, rw (roll, e, found, eq) refl, is)
                ]
        ]

  -- On any bars after the entry of a position whose entry price is not zero, the simulation returns
  -- an outcome: marked as exited, after no more bars than there are; at a stop-out the price is not
  -- below the stop that the position was opened with, and at a target it is the policy's target.
  pub simulate_pnl-IsExit :
      (position : Position Amount) (pre : List (Bar Amount)) (bar : Bar Amount)
      (bars : List (Bar Amount)) (policy : ExitPolicy Amount)
      → is_zero dec position.entry_price ≡ false
      → (o : SimulatedOutcome Amount) × (simulate_pnl dec position pre (bar ∷ bars) policy ≡ some o)
        × IsExit position
            (target_of dec position pre policy)
            position.initial_stop
            (length (bar ∷ bars))
            o
  unfolding simulate_pnl
  simulate_pnl-IsExit position pre bar bars policy z =
      let level = target_of dec position pre policy in
      let (o, eq, is) =
        roll-IsExit position policy level [] bar (bar ∷ bars) position.initial_stop
          position.initial_stop z (lt_irrefl dec position.initial_stop) in
      (
        o,
        eq,
        IsExit-bound position level position.initial_stop (0 + length (bar ∷ bars))
            (length (bar ∷ bars)) o is (omega arith),
      )
