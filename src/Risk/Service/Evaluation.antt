-- ===== src/Risk/Service/Evaluation.antt =====
-- `evaluate_proposal`: the kill-switch gate, what a decision leaves behind, and the automatic halt.
use iguanatrader.Decimal.{Decimal}
use iguanatrader.Risk.Models.{
  RiskCaps, RiskState, TradeProposalInput, Decision, automatic_cap_breach, activated,
}
use iguanatrader.Risk.Engine.{evaluate, is_allow}
use iguanatrader.Risk.KillSwitch.{load_kill_switch_state, activate_kill_switch}
use iguanatrader.Risk.State.{Trade, EquitySnapshot, load_risk_state}
use iguanatrader.Risk.Service.{
  RiskStore, Reply, returned, kill_switch_active, announce, evaluate_proposal, save_evaluation,
  maybe_auto_activate_on_breach, is_regime, has_today_automatic_breach_event, notify, Notice,
  breach_reason, proposal_accepted, proposal_rejected,
}
use iguanatrader.Common.{
  ◌⊎◌, Bool-cases, ◌≡◌, inr, Bool, false, List, true, inl, ℕ, ◌∷◌, String, arith, not, ◌&&◌, ◌+◌,
  if◌then◌else◌, none, some, ◌∙◌,
}
use iguanatrader.Risk.KillSwitch.Cache.{load-update_self, switch-load}
use iguanatrader.Risk.Engine.Gate.{evaluate-Verdict}

-- What the tenant's switch reads in a store.
abbrev pub halted : {A : Type 0} → ℕ → RiskStore A → Bool
halted t db = load_kill_switch_state t db.switches.cache

-- With the switch on, a proposal is refused and changes nothing.
pub halted-refused :
    (dec : Decimal) (dump : RiskState dec.Amount → List (String × String))
    (p : TradeProposalInput dec.Amount) (caps : RiskCaps dec.Amount)
    (trades : List (Trade dec.Amount)) (snapshots : List (EquitySnapshot dec.Amount)) (now : ℕ)
    (db : RiskStore dec.Amount)
    → halted p.tenant_id db ≡ true
    → evaluate_proposal dec dump p caps trades snapshots now db ≡ (kill_switch_active, db)
unfolding evaluate_proposal
halted-refused dec dump p caps trades snapshots now db on = rw on

module _ (dec : Decimal) (dump : RiskState dec.Amount → List (String × String))
    (caps : RiskCaps dec.Amount) (trades : List (Trade dec.Amount))
    (snapshots : List (EquitySnapshot dec.Amount)) where
  open dec use {Amount}

  -- The decision that the engine takes on what is loaded.
  abbrev pub decision_on : TradeProposalInput Amount → ℕ → Decision Amount
  decision_on p now =
      evaluate dec dump p (load_risk_state dec p.tenant_id now trades snapshots) caps

  abbrev pub step :
      TradeProposalInput Amount
      → ℕ
      → RiskStore Amount
      → Reply (ℕ × Decision Amount) × RiskStore Amount
  step p now db = evaluate_proposal dec dump p caps trades snapshots now db

  abbrev saved : TradeProposalInput Amount → ℕ → RiskStore Amount → RiskStore Amount
  saved p now db = (save_evaluation p (decision_on p now) now db).0

  -- What a call returns and saves, by what the switch reads.
  abbrev pub Gated : TradeProposalInput Amount → ℕ → RiskStore Amount → Type 0
  Gated p now db =
      ((halted p.tenant_id db ≡ true) × (step p now db ≡ (kill_switch_active, db)))
      ⊎ ((halted p.tenant_id db ≡ false)
          × ((step p now db).0 ≡ returned (db.switches.next_id, decision_on p now))
          × ((step p now db).1.evaluations
              ≡ record {
                id = db.switches.next_id;
                tenant_id = p.tenant_id;
                proposal_id = p.id;
                decision = decision_on p now;
                created_at = now;
              }
                ∷ db.evaluations))

  announce-evaluations :
      (p : TradeProposalInput Amount) (d : Decision Amount) (i now : ℕ) (db : RiskStore Amount)
      → (announce p d i now db).evaluations ≡ db.evaluations
  unfolding announce
  announce-evaluations p d i now db = ground arith

  -- With the switch on, the proposal is refused and nothing is written or published. With it off,
  -- the engine's decision is returned and saved under a new id, as the one new evaluation.
  pub evaluate_proposal-Gated :
      (p : TradeProposalInput Amount) (now : ℕ) (db : RiskStore Amount) → Gated p now db
  unfolding evaluate_proposal save_evaluation
  evaluate_proposal-Gated p now db = elim (Bool-cases (halted p.tenant_id db)) [
    | inl on ↦ inl (on, rw on)
    | inr off ↦ inr (
      off,
      rw off,
      rw off (announce-evaluations p (decision_on p now) db.switches.next_id now (saved p now db)),
    )
  ]

  -- Whether the call is one that turns the switch on: a regime-level cap is breached, and no
  -- automatic activation of the tenant is logged for the day.
  abbrev pub trips : TradeProposalInput Amount → ℕ → RiskStore Amount → Bool
  trips p now db =
      is_regime (decision_on p now).cap_type_breached
      && not (has_today_automatic_breach_event p.tenant_id now db.switches.events)

  auto_activate-halted :
      (t now : ℕ) (d : Decision Amount) (db : RiskStore Amount)
      → halted t db ≡ false
      → halted t (maybe_auto_activate_on_breach t d now db) ≡ (
          is_regime d.cap_type_breached
          && not (has_today_automatic_breach_event t now db.switches.events))
  unfolding maybe_auto_activate_on_breach activate_kill_switch
  auto_activate-halted t now d db off =
      ground (arith, load-update_self t true db.switches.next_id now db.switches.cache)

  allow-cap :
      (p : TradeProposalInput Amount) (now : ℕ)
      → is_allow (decision_on p now).outcome ≡ true
      → is_regime (decision_on p now).cap_type_breached ≡ false
  allow-cap p now h =
      elim (evaluate-Verdict dec dump p (load_risk_state dec p.tenant_id now trades snapshots)
        caps) [ inl (a, n, _) ↦ rw n | inr (k, r, b, _) ↦ cc ]

  -- A notice touches neither the switch nor its log.
  notify-switches :
      (n : Notice Amount) (db : RiskStore Amount) → (notify n db).switches ≡ db.switches
  unfolding notify
  notify-switches n db = ground arith

  announce-switches :
      (p : TradeProposalInput Amount) (d : Decision Amount) (i now : ℕ) (db : RiskStore Amount)
      → (is_allow d.outcome ≡ true → is_regime d.cap_type_breached ≡ false)
      → (announce p d i now db).switches ≡ (
          if is_regime d.cap_type_breached
            && not (has_today_automatic_breach_event p.tenant_id now db.switches.events)
          then (activate_kill_switch p.tenant_id automatic_cap_breach none
              (some (breach_reason d.cap_type_breached))
              now
              db.switches).0
          else db.switches)
  unfolding announce maybe_auto_activate_on_breach
  announce-switches p d i now db h = ground (
    arith,
    notify-switches (proposal_accepted p.id p.tenant_id i) db,
    notify-switches (proposal_rejected p.id p.tenant_id i d.cap_type_breached d.current_pct) db,
  )

  -- The store of switches after a call, in one equation.
  pub step-switches :
      (p : TradeProposalInput Amount) (now : ℕ) (db : RiskStore Amount)
      → halted p.tenant_id db ≡ false
      → (step p now db).1.switches ≡ (
          if trips p now db
          then (activate_kill_switch p.tenant_id automatic_cap_breach none
              (some (breach_reason (decision_on p now).cap_type_breached))
              now
              (record (db.switches) { next_id = db.switches.next_id + 1 })).0
          else record (db.switches) { next_id = db.switches.next_id + 1 })
  unfolding evaluate_proposal save_evaluation
  step-switches p now db off = rw off (
      announce-switches p (decision_on p now) db.switches.next_id now (saved p now db)
        (allow-cap p now))

  -- A call that finds the switch off leaves it on exactly when a regime-level cap is breached and no
  -- automatic activation of the tenant is logged for the day.
  pub evaluate_proposal-halted :
      (p : TradeProposalInput Amount) (now : ℕ) (db : RiskStore Amount)
      → halted p.tenant_id db ≡ false
      → halted p.tenant_id (step p now db).1 ≡ trips p now db
  unfolding activate_kill_switch
  evaluate_proposal-halted p now db off = elim (Bool-cases (trips p now db)) [
    | inl e ↦ rw (step-switches p now db off, e) (switch-load activated p.tenant_id _ _ _ now _)
    | inr e ↦ rw (step-switches p now db off, e) off
  ]

  -- After a call that finds the switch off, breaches a regime-level cap and finds no automatic
  -- activation of the day, the tenant's next proposal is refused and changes nothing, whatever the
  -- proposal, the time, the caps and the tables.
  pub breach_halts :
      (p : TradeProposalInput Amount) (now : ℕ) (db : RiskStore Amount)
      (p' : TradeProposalInput Amount) (caps' : RiskCaps Amount) (trades' : List (Trade Amount))
      (snapshots' : List (EquitySnapshot Amount)) (now' : ℕ)
      → halted p.tenant_id db ≡ false
      → trips p now db ≡ true
      → p'.tenant_id ≡ p.tenant_id
      → let db' = (step p now db).1 in
        evaluate_proposal dec dump p' caps' trades' snapshots' now' db' ≡ (kill_switch_active, db')
  breach_halts p now db p' caps' trades' snapshots' now' off trip same =
      halted-refused dec dump p' caps' trades' snapshots' now' (step p now db).1
        (rw same (evaluate_proposal-halted p now db off ∙ trip))
