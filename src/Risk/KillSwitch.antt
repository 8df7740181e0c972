-- ===== src/Risk/KillSwitch.antt =====
-- The kill-switch of contexts/risk: the cache row and the event log of repository.py, and the two
-- transitions of service.py. A UUID is drawn from the counter `next_id`; `now` is the time that the
-- operation reads. Logs are kept newest first.
pub mod Cache
pub mod Log
use iguanatrader.Common.{
  ℕ, ◌+◌, String, Bool, true, false, not, ◌&&◌, Option, none, some, List, [], ◌∷◌, ◌++◌, map, any,
  find, ◌==◌, if◌then◌else◌,
}
use iguanatrader.Risk.Models.{KillSwitchSource, KillSwitchTransition, activated, deactivated}

-- `KillSwitchStateORM`, one row for each tenant
pub record CacheRow : Type 0 where
  pub tenant_id : ℕ
  pub is_active : Bool
  pub last_event_id : ℕ
  pub updated_at : ℕ

-- `KillSwitchEventORM`
pub record SwitchEvent : Type 0 where
  pub id : ℕ
  pub tenant_id : ℕ
  pub transition : KillSwitchTransition
  pub source : KillSwitchSource
  pub actor_user_id : Option ℕ
  pub reason : Option String
  pub created_at : ℕ

-- What `RiskKillSwitchActivated` and `RiskKillSwitchDeactivated` carry besides their kind.
pub record SwitchNotice : Type 0 where
  pub tenant_id : ℕ
  pub event_id : ℕ
  pub transition : KillSwitchTransition
  pub source : KillSwitchSource
  pub actor_user_id : Option ℕ
  pub reason : Option String
  pub occurred_at : ℕ

-- The tables, the bus that the service holds (or not), and what was published on it.
pub record SwitchStore : Type 0 where
  pub cache : List CacheRow
  pub events : List SwitchEvent
  pub next_id : ℕ
  pub has_bus : Bool
  pub published : List SwitchNotice

abbrev pub differs : Bool → Bool → Bool
differs true b = not b
differs false b = b

-- `UPDATE ... WHERE p ... VALUES f`
unfoldable pub update_where {ℓ} : {A : Type ℓ} → (A → Bool) → (A → A) → List A → List A
update_where p f [] = []
update_where p f (r ∷ rs) = (if p r then f r else r) ∷ update_where p f rs

unfoldable pub load_kill_switch_state : ℕ → List CacheRow → Bool
load_kill_switch_state tenant rows = elim (find (λ r. r.tenant_id == tenant) rows) [
  | none ↦ false
  | some r ↦ r.is_active
]

-- The upsert, with whether the cached state has changed.
unfoldable pub update_kill_switch_cache : ℕ → Bool → ℕ → ℕ → List CacheRow → List CacheRow × Bool
update_kill_switch_cache tenant is_active last_event_id updated_at rows =
    if any (λ r. r.tenant_id == tenant && differs r.is_active is_active) rows
    then (
      update_where (λ r. r.tenant_id == tenant && differs r.is_active is_active)
          (λ r. record r {
            is_active = is_active;
            last_event_id = last_event_id;
            updated_at = updated_at;
          })
          rows,
      true,
    )
    else if any (λ r. r.tenant_id == tenant) rows
    then (
      update_where (λ r. r.tenant_id == tenant)
          (λ r. record r { last_event_id = last_event_id; updated_at = updated_at }) rows,
      false,
    )
    else (
      rows
          ++ record {
            tenant_id = tenant;
            is_active = is_active;
            last_event_id = last_event_id;
            updated_at = updated_at;
          }
            ∷ [],
      is_active,
    )

-- `append_kill_switch_event`, with the id of the new row
unfoldable pub append_kill_switch_event :
    ℕ
    → KillSwitchTransition
    → KillSwitchSource
    → Option ℕ
    → Option String
    → ℕ
    → SwitchStore
    → SwitchStore × ℕ
append_kill_switch_event tenant transition source actor reason created_at db = (
  record db {
    events =
        record {
          id = db.next_id;
          tenant_id = tenant;
          transition = transition;
          source = source;
          actor_user_id = actor;
          reason = reason;
          created_at = created_at;
        }
        ∷ db.events;
    next_id = db.next_id + 1;
  },
  db.next_id,
)

-- `_publish`: no bus, no publication
unfoldable pub publish : SwitchNotice → SwitchStore → SwitchStore
publish notice db = if db.has_bus then record db { published = notice ∷ db.published } else db

abbrev pub target_state : KillSwitchTransition → Bool
target_state activated = true
target_state deactivated = false

-- The two methods differ in the transition alone: `activate_kill_switch` and
-- `deactivate_kill_switch` below are this at `activated` and `deactivated`.
unfoldable pub switch :
    KillSwitchTransition
    → ℕ
    → KillSwitchSource
    → Option ℕ
    → Option String
    → ℕ
    → SwitchStore
    → SwitchStore × ℕ
unfolding append_kill_switch_event publish
switch transition tenant source actor reason when db =
    let (db', event_id) = append_kill_switch_event tenant transition source actor reason when db in
    let (rows, transitioned) =
      update_kill_switch_cache tenant (target_state transition) event_id when db'.cache in
    let db'' = record db' { cache = rows } in
    (
      if transitioned
          then publish
              (record {
                tenant_id = tenant;
                event_id = event_id;
                transition = transition;
                source = source;
                actor_user_id = actor;
                reason = reason;
                occurred_at = when;
              })
              db''
          else db'',
      event_id,
    )

unfoldable pub activate_kill_switch :
    ℕ → KillSwitchSource → Option ℕ → Option String → ℕ → SwitchStore → SwitchStore × ℕ
unfolding switch
activate_kill_switch = switch activated

unfoldable pub deactivate_kill_switch :
    ℕ → KillSwitchSource → Option ℕ → Option String → ℕ → SwitchStore → SwitchStore × ℕ
unfolding switch
deactivate_kill_switch = switch deactivated
