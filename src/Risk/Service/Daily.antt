-- ===== src/Risk/Service/Daily.antt =====
-- The automatic halt, once a day.
use iguanatrader.Risk.Service.Evaluation.{
  step, halted, trips, decision_on, step-switches, halted-refused,
}
use iguanatrader.Common.{
  refl, ℕ, ◌≡◌, some, List, length, Bool-cases, any, arith, Bool, ◌≤◌, filter, ◌∷◌, none, ◌+◌, true,
  inr, inl, String, false, [],
}
use iguanatrader.Risk.Service.{
  RiskStore, is_breach_event, RiskState, Trade, EquitySnapshot, has_today_automatic_breach_event,
  breach_reason,
}
use iguanatrader.Risk.KillSwitch.{SwitchEvent, activate_kill_switch}
use iguanatrader.Decimal.{Decimal}
use iguanatrader.Risk.Models.{
  RiskState, RiskCaps, TradeProposalInput, automatic_cap_breach, activated,
}
use iguanatrader.Risk.State.{Trade, EquitySnapshot}
use iguanatrader.Risk.KillSwitch.Cache.{switch-events}

none-count :
    (p : SwitchEvent → Bool) (es : List SwitchEvent) → any p es ≡ false → length (filter p es) ≡ 0
none-count p [] h = refl
none-count p (e ∷ es) h = ground (arith, none-count p es)

same-day :
    (t u now today : ℕ) (e : SwitchEvent) (es : List SwitchEvent)
    → is_breach_event t today e ≡ true
    → e.tenant_id ≡ u
    → e.created_at ≡ now
    → any (is_breach_event u now) es ≡ any (is_breach_event t today) es
same-day t u now today e [] h a b = refl
same-day t u now today e (x ∷ es) h a b = ground (arith, same-day t u now today e es h a b)

-- An automatic activation that the day's guard lets through is the first of its day.
first_of_day :
    (t today now : ℕ) (e : SwitchEvent) (es : List SwitchEvent)
    → e.created_at ≡ now
    → any (is_breach_event e.tenant_id now) es ≡ false
    → length (filter (is_breach_event t today) es) ≤ 1
    → length (filter (is_breach_event t today) (e ∷ es)) ≤ 1
first_of_day t today now e es c none_today h = elim (Bool-cases (is_breach_event t today e)) [
  | inl k ↦ ground (
    arith,
    none-count (is_breach_event t today) es,
    same-day t e.tenant_id now today e es k refl c,
  )
  | inr k ↦ ground arith
]

-- The automatic activations of a tenant that are logged for the day of `today`.
abbrev pub breaches : {A : Type 0} → ℕ → ℕ → RiskStore A → ℕ
breaches t today db = length (filter (is_breach_event t today) db.switches.events)

module _ (dec : Decimal) (dump : RiskState dec.Amount → List (String × String))
    (caps : RiskCaps dec.Amount) (trades : List (Trade dec.Amount))
    (snapshots : List (EquitySnapshot dec.Amount)) where
  open dec use {Amount}

  activation-first :
      (t today : ℕ) (p : TradeProposalInput Amount) (now : ℕ) (db : RiskStore Amount)
      → trips dec dump caps trades snapshots p now db ≡ true
      → breaches t today db ≤ 1
      → length (
          filter
            (is_breach_event t today)
            (activate_kill_switch p.tenant_id automatic_cap_breach none
              (some (
                breach_reason (decision_on dec dump caps trades snapshots p now).cap_type_breached))
              now
              (record (db.switches) { next_id = db.switches.next_id + 1 })).0.events)
        ≤ 1
  unfolding activate_kill_switch has_today_automatic_breach_event
  activation-first t today p now db e h =
      rw (switch-events activated p.tenant_id automatic_cap_breach none _ now _) (
        first_of_day t today now
          (record {
            id = db.switches.next_id + 1;
            tenant_id = p.tenant_id;
            transition = activated;
            source = automatic_cap_breach;
            actor_user_id = none;
            reason = some (
                breach_reason (decision_on dec dump caps trades snapshots p now).cap_type_breached);
            created_at = now;
          })
          db.switches.events refl (ground arith) h)

  -- An evaluation, of any tenant's proposal, keeps the automatic activations logged for a tenant and
  -- a day at one or fewer.
  pub evaluate_proposal-once :
      (t today : ℕ) (p : TradeProposalInput Amount) (now : ℕ) (db : RiskStore Amount)
      → breaches t today db ≤ 1
      → breaches t today (step dec dump caps trades snapshots p now db).1 ≤ 1
  evaluate_proposal-once t today p now db h = elim (Bool-cases (halted p.tenant_id db)) [
    | inl on ↦ rw (halted-refused dec dump p caps trades snapshots now db on) h
    | inr off ↦ elim (Bool-cases (trips dec dump caps trades snapshots p now db)) [
      | inl e ↦
          rw (step-switches dec dump caps trades snapshots p now db off, e)
            (activation-first t today p now db e h)
      | inr e ↦ rw (step-switches dec dump caps trades snapshots p now db off, e) h
    ]
  ]
