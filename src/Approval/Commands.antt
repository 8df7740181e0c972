-- ===== src/Approval/Commands.antt =====
-- contexts/approval/channels/command_handler.py: routing a command to its handler. The registry, the
-- pause flag and the handlers are parameters, and so is how a string is built from its parts. One
-- dispatch is one step. The texts of the replies are left out.
pub mod Window
pub mod Dispatch
pub mod Repeats
use iguanatrader.Shared.Bus.{has_key}
use iguanatrader.Common.{
  ℕ, ◌∷◌, Option, not, true, List, if◌then◌else◌, some, ◌/◌, ◌&&◌, false, ◌++◌, leb, ◌-◌, length,
  Bool, drop, [], none, String,
}

pub data Role : Type 0 where
  admin user : Role

pub data KeySource : Type 0 where
  payload request no_key : KeySource

pub record IncomingCommand : Type 0 where
  pub command_name : String
  pub raw_args : String
  pub sender_external_id : String
  pub tenant_id : ℕ
  pub request_id : Option ℕ
  pub role : Role

pub record CommandSpec : Type 0 where
  pub name : String
  pub required_role : Role
  pub idempotency_key_source : KeySource
  pub blocked_when_paused : Bool

pub data Status : Type 0 where
  done denied unknown_command error : Status

pub record CommandResult : Type 0 where
  pub status : Status
  pub deduped : Bool

-- The process-wide deque and set, and the commands that reached a handler, newest first.
pub record Dispatcher : Type 0 where
  pub recent_keys : List String
  pub recent_keys_set : List String
  pub handled : List IncomingCommand

abbrev pub dedup_window : ℕ
dedup_window = 1024

-- `deque(maxlen=...)`: the oldest elements go
abbrev pub bounded : List String → List String
bounded ks = drop (length ks - dedup_window) ks

-- with the keys after the append
unfoldable pub resync : List String → String → Dispatcher → Dispatcher
resync keys key d =
    if leb dedup_window (length keys)
    then record d { recent_keys = keys; recent_keys_set = keys }
    else record d { recent_keys = keys; recent_keys_set = key ∷ d.recent_keys_set }

unfoldable pub record_key : String → Dispatcher → Dispatcher
unfolding resync
record_key key d =
    if has_key key d.recent_keys_set then d else resync (bounded (d.recent_keys ++ key ∷ [])) key d

abbrev pub is_admin : Role → Bool
is_admin admin = true
is_admin user = false

abbrev pub is_done : Status → Bool
is_done done = true
is_done denied = false
is_done unknown_command = false
is_done error = false

abbrev pub answer : Status → CommandResult
answer status = record { status = status; deduped = false }

module _ (registry : String → Option CommandSpec) (paused : ℕ → Bool)
    (handler : IncomingCommand → Status) (show : ℕ → String) (joined : List String → String) where
  -- `now` is in seconds
  unfoldable pub idempotency_check : KeySource → String → IncomingCommand → ℕ → Option String
  idempotency_check no_key name incoming now = none
  idempotency_check request name incoming now = elim incoming.request_id [
    | none ↦ none
    | some id ↦ some (joined (show incoming.tenant_id ∷ name ∷ show id ∷ []))
  ]
  idempotency_check payload name incoming now =
      some (
        joined
          (show incoming.tenant_id ∷ name ∷ incoming.sender_external_id ∷ show (now / 30) ∷ []))

  -- `dedup_key is not None and _has_seen(dedup_key)`
  abbrev pub is_repeated : Option String → Dispatcher → Bool
  is_repeated none d = false
  is_repeated (some key) d = has_key key d.recent_keys_set

  -- after the handler
  unfoldable pub remember : Option String → Bool → Dispatcher → Dispatcher
  unfolding record_key
  remember none succeeded d = d
  remember (some key) false d = d
  remember (some key) true d = record_key key d

  -- from the key on
  unfoldable pub dispatch_keyed :
      Option String → IncomingCommand → Dispatcher → CommandResult × Dispatcher
  unfolding remember
  dispatch_keyed key incoming d =
      if is_repeated key d then (record { status = done; deduped = true }, d) else (
        answer (handler incoming),
        remember key (is_done (handler incoming)) (record d { handled = incoming ∷ d.handled }),
      )

  unfoldable pub dispatch_found :
      CommandSpec → IncomingCommand → ℕ → Dispatcher → CommandResult × Dispatcher
  unfolding dispatch_keyed idempotency_check
  dispatch_found spec incoming now d =
      if is_admin spec.required_role && not (is_admin incoming.role)
      then (answer denied, d)
      else if spec.blocked_when_paused && paused incoming.tenant_id
      then (answer denied, d)
      else dispatch_keyed (idempotency_check spec.idempotency_key_source spec.name incoming now)
          incoming d

  unfoldable pub dispatch_to :
      Option CommandSpec → IncomingCommand → ℕ → Dispatcher → CommandResult × Dispatcher
  unfolding dispatch_found
  dispatch_to none incoming now d = (answer unknown_command, d)
  dispatch_to (some spec) incoming now d = dispatch_found spec incoming now d

  unfoldable pub dispatch : IncomingCommand → ℕ → Dispatcher → CommandResult × Dispatcher
  unfolding dispatch_to
  dispatch incoming now d = dispatch_to (registry incoming.command_name) incoming now d
