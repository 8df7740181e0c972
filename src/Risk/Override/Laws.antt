-- ===== src/Risk/Override/Laws.antt =====
-- The audit fields of an override, and the operator's halt and resume.
use iguanatrader.Risk.Models.{
  ConfirmationChain, KillSwitchTransition, KillSwitchSource, deactivated, activated,
  channel_command,
}
use iguanatrader.Common.{
  ℕ, ◌∷◌, ◌≤◌, List, ◌≡◌, String, length, ◌⊎◌, ◌≢◌, ◌<◌, arith, some, Option, false, refl, Bool,
  true, ◌==◌, inl, ==_iff, Bool-cases, inr,
}
use iguanatrader.Risk.Service.{RiskStore, Reply, returned, override_audit_missing}
use iguanatrader.Risk.Override.{
  record_override, strip, returned, override_audit_missing, record_resume, record_halt, Session,
  without_bus,
}
use iguanatrader.Risk.KillSwitch.{
  switch, activate_kill_switch, deactivate_kill_switch, load_kill_switch_state, SwitchStore,
}
use iguanatrader.Risk.KillSwitch.Cache.{switch-load, switch-load_ne}

module _ {A : Type 0} (tenant proposal_id evaluation_id user : ℕ) (reason : List ℕ)
    (chain : ConfirmationChain) (snapshot : List (String × String)) (now : ℕ)
    (db : RiskStore A) where
  abbrev pub overriding : Reply ℕ × RiskStore A
  overriding = record_override tenant proposal_id evaluation_id user reason chain snapshot now db

  -- An override is recorded exactly when its reason, stripped, has twenty characters or more and
  -- its user is a real one; else nothing changes. What is recorded is one new row, with the
  -- stripped reason; no cached switch and no evaluation is touched.
  record_override_lem :
      ((20 ≤ length (strip reason))
        × (user ≢ 0)
        × (overriding.0 ≡ returned db.switches.next_id)
        × (overriding.1.overrides
            ≡ record {
              id = db.switches.next_id;
              tenant_id = tenant;
              proposal_id = proposal_id;
              risk_evaluation_id = evaluation_id;
              authorised_by_user_id = user;
              reason_text = strip reason;
              confirmation_chain = chain;
              state_snapshot_at_override = snapshot;
              created_at = now;
            }
              ∷ db.overrides)
        × (overriding.1.evaluations ≡ db.evaluations)
        × (overriding.1.switches.cache ≡ db.switches.cache))
      ⊎ (((length (strip reason) < 20) ⊎ (user ≡ 0)) × (overriding ≡ (override_audit_missing, db)))
  unfolding record_override
  record_override_lem = ground arith

-- What an operator's switch has done once the command returns: it is committed, it binds the
-- tenant alone, and no subscriber was told.
pub record Durable (t : ℕ) (b : Bool) (s s' : Session) : Type 0 where
  pub stored : load_kill_switch_state t s'.committed.cache ≡ b
  pub settled : s'.committed ≡ s'.working
  pub others :
      (u : ℕ)
      → (t ≡ u)
        ⊎ (load_kill_switch_state u s'.committed.cache ≡ load_kill_switch_state u s.working.cache)
  pub untold : s'.committed.published ≡ s.working.published

-- A switch through a service without a bus publishes nothing.
switch-silent :
    (tr : KillSwitchTransition) (t : ℕ) (source : KillSwitchSource) (actor : Option ℕ)
    (reason : Option String) (at : ℕ) (db : SwitchStore)
    → (switch tr t source actor reason at (without_bus db)).0.published ≡ db.published
unfolding switch
switch-silent tr t source actor reason at db = ground arith

-- It binds no other tenant.
switch-others :
    (tr : KillSwitchTransition) (t u : ℕ) (user : Option ℕ) (reason : Option String) (now : ℕ)
    (db : SwitchStore)
    → (t ≡ u)
      ⊎ (load_kill_switch_state u
            (switch tr t channel_command user reason now (without_bus db)).0.cache
          ≡ load_kill_switch_state u db.cache)
switch-others tr t u user reason now db = elim (Bool-cases (t == u)) [
  | inl e ↦ inl (ground (arith, ==_iff t u))
  | inr e ↦ inr (
      switch-load_ne tr t channel_command user reason now (without_bus db) u
        (ground (arith, ==_iff t u)))
]

-- With a tenant and a session, `/halt` returns; it has turned the tenant's switch on in what is
-- committed, has left every other tenant's as it was, and has told no subscriber.
pub record_halt-Durable :
    (t : ℕ) (s : Session) (user : Option ℕ) (reason : Option String) (now : ℕ)
    → (s' : Session) × (record_halt (some t) (some s) user reason now ≡ (returned tt, some s'))
      × Durable t true s s'
unfolding record_halt activate_kill_switch
record_halt-Durable t s user reason now = (
  _,
  refl,
  record {
    stored = switch-load activated t channel_command user reason now (without_bus s.working);
    settled = refl;
    others = λ u. switch-others activated t u user reason now s.working;
    untold = switch-silent activated t channel_command user reason now s.working;
  },
)

-- With a tenant and a session, `/resume` returns; it has turned the tenant's switch off in what is
-- committed, has left every other tenant's as it was, and has told no subscriber.
pub record_resume-Durable :
    (t : ℕ) (s : Session) (user : Option ℕ) (now : ℕ)
    → (s' : Session) × (record_resume (some t) (some s) user now ≡ (returned tt, some s'))
      × Durable t false s s'
unfolding record_resume deactivate_kill_switch
record_resume-Durable t s user now = (
  _,
  refl,
  record {
    stored = switch-load deactivated t channel_command user _ now (without_bus s.working);
    settled = refl;
    others = λ u. switch-others deactivated t u user _ now s.working;
    untold = switch-silent deactivated t channel_command user _ now s.working;
  },
)
