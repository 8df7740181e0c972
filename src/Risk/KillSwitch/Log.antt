-- ===== src/Risk/KillSwitch/Log.antt =====
-- The cache against the event log, and what subscribers are told, over any sequence of switches.
use iguanatrader.Risk.Models.{KillSwitchSource, KillSwitchTransition}
use iguanatrader.Risk.KillSwitch.{
  SwitchEvent, SwitchNotice, SwitchStore, differs, load_kill_switch_state, target_state, switch,
}
use iguanatrader.Risk.KillSwitch.Cache.{
  IsKeyed, load-update_self, load-update_ne, update_changed, update-IsKeyed,
}
use iguanatrader.Common.{
  [], List, ◌≡◌, ◌==◌, false, true, Option, Bool, ◌∷◌, String, if◌then◌else◌, ℕ, arith, ◌+◌, ◌≤◌,
  suc, refl, length, inr, ◌⊎◌, ◌≢◌,
}

-- The state that the newest event of a tenant leaves; a tenant with none is inactive.
abbrev pub last_state : ℕ → List SwitchEvent → Bool
last_state t [] = false
last_state t (e ∷ es) = if e.tenant_id == t then target_state e.transition else last_state t es

-- What a subscriber last heard of a tenant.
abbrev pub last_heard : ℕ → List SwitchNotice → Bool
last_heard t [] = false
last_heard t (n ∷ ns) = if n.tenant_id == t then target_state n.transition else last_heard t ns

-- Each notice about a tenant tells of a state that differs from the one told before it.
abbrev pub Alternates : ℕ → List SwitchNotice → Type 0
Alternates t [] = Unit
Alternates t (n ∷ ns) =
    ((n.tenant_id ≢ t) ⊎ (differs (last_heard t ns) (target_state n.transition) ≡ true))
    × Alternates t ns

-- What holds of one tenant's part of the store between two calls.
pub record IsConsistent (t : ℕ) (db : SwitchStore) : Type 0 where
  pub keyed : IsKeyed db.cache
  pub logged : load_kill_switch_state t db.cache ≡ last_state t db.events
  pub told : (db.has_bus ≡ false) ⊎ (last_heard t db.published ≡ load_kill_switch_state t db.cache)
  pub alternates : Alternates t db.published

-- One call of `activate_kill_switch` or `deactivate_kill_switch`.
pub record SwitchCall : Type 0 where
  pub transition : KillSwitchTransition
  pub tenant_id : ℕ
  pub source : KillSwitchSource
  pub actor_user_id : Option ℕ
  pub reason : Option String
  pub at : ℕ

abbrev pub call : SwitchCall → SwitchStore → SwitchStore
call c db = (switch c.transition c.tenant_id c.source c.actor_user_id c.reason c.at db).0

abbrev pub run : List SwitchCall → SwitchStore → SwitchStore
run [] db = db
run (c ∷ cs) db = run cs (call c db)

-- A call keeps every tenant's part consistent, whichever tenant it is about.
pub call-IsConsistent :
    (t : ℕ) (c : SwitchCall) (db : SwitchStore) → IsConsistent t db → IsConsistent t (call c db)
unfolding switch
call-IsConsistent t c db h =
    let b = target_state c.transition in
    let keyed = update-IsKeyed c.tenant_id b db.next_id c.at db.cache h.keyed in
    let self = load-update_self c.tenant_id b db.next_id c.at db.cache in
    let other = load-update_ne c.tenant_id t b db.next_id c.at db.cache in
    let changed = update_changed c.tenant_id b db.next_id c.at db.cache h.keyed in
    record {
      keyed = ground arith;
      logged = ground arith;
      told = ground arith;
      alternates = ground arith;
    }

pub run-IsConsistent :
    (t : ℕ) (cs : List SwitchCall) (db : SwitchStore)
    → IsConsistent t db
    → IsConsistent t (run cs db)
run-IsConsistent t [] db h = h
run-IsConsistent t (c ∷ cs) db h = run-IsConsistent t cs (call c db) (call-IsConsistent t c db h)

-- Empty tables, with a bus or without one.
abbrev pub fresh : Bool → SwitchStore
fresh has_bus = record { cache = []; events = []; next_id = 0; has_bus = has_bus; published = [] }

-- From empty tables, after any sequence of activations and deactivations by any tenants, each
-- tenant's cached state is the one that its newest logged event leaves; with a bus it is also the
-- one that subscribers last heard, and no two successive notices about a tenant tell the same.
pub run-fresh :
    (t : ℕ) (cs : List SwitchCall) (has_bus : Bool) → IsConsistent t (run cs (fresh has_bus))
unfolding load_kill_switch_state
run-fresh t cs has_bus =
    run-IsConsistent t cs (fresh has_bus)
      (record { keyed = tt; logged = refl; told = inr refl; alternates = tt })

-- Ids are below `n`, and fall from each event to the one before it.
abbrev pub IsNumbered : ℕ → List SwitchEvent → Type 0
IsNumbered n [] = Unit
IsNumbered n (e ∷ es) = (suc e.id ≤ n) × IsNumbered e.id es

call_logs : (c : SwitchCall) (db : SwitchStore) → length (call c db).events ≡ length db.events + 1
unfolding switch
call_logs c db = ground arith

call-IsNumbered :
    (c : SwitchCall) (db : SwitchStore)
    → IsNumbered db.next_id db.events
    → IsNumbered (call c db).next_id (call c db).events
unfolding switch
call-IsNumbered c db h = ground arith

-- From a log with strictly ordered ids below the counter, over any sequence of calls each one is
-- logged once, the repetitions that change no state too, and the ids stay strictly ordered: none is
-- used twice.
pub run_logs :
    (cs : List SwitchCall) (db : SwitchStore)
    → IsNumbered db.next_id db.events
    → (length (run cs db).events ≡ length db.events + length cs)
      × IsNumbered (run cs db).next_id (run cs db).events
run_logs [] db h = (omega arith, h)
run_logs (c ∷ cs) db h =
    let (l, n) = run_logs cs (call c db) (call-IsNumbered c db h) in
    (omega (arith, call_logs c db), n)
