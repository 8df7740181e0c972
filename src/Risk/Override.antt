-- ===== src/Risk/Override.antt =====
-- `record_override`, `record_halt` and `record_resume` of contexts/risk/service.py.
pub mod Laws
use iguanatrader.Risk.Models.{channel_command, ConfirmationChain}
use iguanatrader.Common.{
  none, ℕ, reverse, ◌+◌, leb, some, Option, [], ◌||◌, ◌∷◌, ◌&&◌, if◌then◌else◌, Bool, List, ltb,
  false, String, length, ◌==◌,
}
use iguanatrader.Risk.KillSwitch.{SwitchStore, deactivate_kill_switch, activate_kill_switch}
use iguanatrader.Risk.Service.{
  Reply, notify, no_context, RiskStore, override_audit_missing, returned, override_required,
}

-- `str.strip()`: the white space of Unicode at both ends
unfoldable pub is_space : ℕ → Bool
is_space c =
    leb 9 c && leb c 13
    || leb 28 c && leb c 32
    || c == 133
    || c == 160
    || c == 5760
    || leb 8192 c && leb c 8202
    || c == 8232
    || c == 8233
    || c == 8239
    || c == 8287
    || c == 12288

unfoldable pub drop_spaces : List ℕ → List ℕ
drop_spaces [] = []
drop_spaces (c ∷ cs) = if is_space c then drop_spaces cs else c ∷ cs

unfoldable pub strip : List ℕ → List ℕ
unfolding drop_spaces is_space
strip cs = reverse (drop_spaces (reverse (drop_spaces cs)))

abbrev pub reason_min_length : ℕ
reason_min_length = 20

module _ {A : Type 0} where
  unfoldable pub record_override :
      (tenant_id proposal_id risk_evaluation_id authorised_by_user_id : ℕ)
      → List ℕ
      → ConfirmationChain
      → List (String × String)
      → ℕ
      → RiskStore A
      → Reply ℕ × RiskStore A
  unfolding notify
  record_override tenant proposal_id evaluation_id user reason chain snapshot now db =
      let normalized_reason = strip reason in
      let override_id = db.switches.next_id in
      if ltb (length normalized_reason) reason_min_length
      then (override_audit_missing, db)
      else if user == 0
      then (override_audit_missing, db)
      else (
        returned override_id,
        notify (override_required proposal_id tenant override_id user) (record db {
          switches = record (db.switches) { next_id = override_id + 1 };
          overrides =
              record {
                id = override_id;
                tenant_id = tenant;
                proposal_id = proposal_id;
                risk_evaluation_id = evaluation_id;
                authorised_by_user_id = user;
                reason_text = normalized_reason;
                confirmation_chain = chain;
                state_snapshot_at_override = snapshot;
                created_at = now;
              }
              ∷ db.overrides;
        }),
      )

-- The session of a channel command: the open transaction over what is committed.
pub record Session : Type 0 where
  pub committed : SwitchStore
  pub working : SwitchStore

-- the service of the channel commands holds no bus
abbrev pub without_bus : SwitchStore → SwitchStore
without_bus db = record db { has_bus = false }

abbrev pub commit : Session → Session
commit s = record s { committed = s.working }

-- `record_halt` and `record_resume`: the tenant and the session come from the context variables.
unfoldable pub record_halt :
    Option ℕ → Option Session → Option ℕ → Option String → ℕ → Reply (Unit {0}) × Option Session
record_halt none session user reason now = (no_context, session)
record_halt (some tenant) none user reason now = (no_context, none)
record_halt (some tenant) (some s) user reason now =
    let db = activate_kill_switch tenant channel_command user reason now (without_bus s.working) in
    (
      returned tt,
      some (commit (record s { working = record (db.0) { has_bus = s.working.has_bus } })),
    )

unfoldable pub record_resume :
    Option ℕ → Option Session → Option ℕ → ℕ → Reply (Unit {0}) × Option Session
record_resume none session user now = (no_context, session)
record_resume (some tenant) none user now = (no_context, none)
record_resume (some tenant) (some s) user now =
    let db =
      deactivate_kill_switch tenant channel_command user (some "operator resume via channel") now
        (without_bus s.working) in
    (
      returned tt,
      some (commit (record s { working = record (db.0) { has_bus = s.working.has_bus } })),
    )
