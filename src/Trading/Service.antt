-- ===== src/Trading/Service.antt =====
-- What a `TradingService` of contexts/trading/service.py is built with and asks of the outside, and
-- the steps that its handlers share.
use iguanatrader.Common.{ℕ, String, ◌∷◌, some, suc, string_append, true, Option, none, Bool}
use iguanatrader.Risk.Models.{Side, ExecutionAlgo, buy, sell}
use iguanatrader.Trading.Models.{Mode, NewOrder, Desk, Event, Order}
use iguanatrader.Trading.Gateway.{Gateway}

-- The arguments of `__init__` that the handlers read, and the library functions they call: the
-- printing of a UUID, `uuid5` over the fixed namespace, and rounding a decimal towards zero.
pub record Service (A : Type 0) : Type 0 where
  pub tenant_id : ℕ
  pub daemon_mode : Option Mode
  pub execution_algo : ExecutionAlgo
  pub native_bracket_enabled : Bool
  pub live_gateway_wait : ℕ
  pub propose_dedup_window_secs : ℕ
  pub show_uuid : ℕ → String
  pub uuid5 : String → ℕ
  pub round_down : A → A

-- How `asyncio.wait_for(broker.place_order(order))` ends: an id, or the exception that is raised.
pub data Answer : Type 0 where
  placed : ℕ → Answer
  timed_out auth_error budget_exceeded integration_error other_error : Answer

-- what the authoritative kill-switch reader answers; an exception is a failure
pub data Reading : Type 0 where
  read : Bool → Reading
  read_failed : Reading

-- What the outside answers during one handler: the time, the reader and the gateway where they are
-- wired, and the broker.
pub record Outside (A : Type 0) : Type 0 where
  pub now : ℕ
  pub kill_switch_reader : Option Reading
  pub live_gateway : Option Gateway
  pub place_order : NewOrder A → Answer

unfoldable pub opposite : Side → Side
opposite buy = sell
opposite sell = buy

module _ {A : Type 0} where
  unfoldable pub publish : Event A → Desk A → Desk A
  publish event s = record s { published = event ∷ s.published }

  -- ":".join((str(tenant_id), role, str(part)))
  unfoldable pub derive_client_order_id : Service A → String → ℕ → ℕ
  derive_client_order_id svc role part = svc.uuid5 (
      string_append (svc.show_uuid svc.tenant_id)
        (string_append ":" (string_append role (string_append ":" (svc.show_uuid part)))))

  unfoldable pub is_halted : Outside A → Desk A → Bool
  is_halted out s = elim out.kill_switch_reader [
    | none ↦ s.kill_switch_active
    | some answer ↦ elim answer [ read active ↦ active | read_failed ↦ true ]
  ]

  unfoldable pub halt_handler : Desk A → Desk A
  halt_handler s = record s { kill_switch_active = true }

  unfoldable pub add_order : Order A → Desk A → Desk A
  add_order o s = record s { orders = o ∷ s.orders; next_id = suc s.next_id }

  -- the call of the broker, whose answer the handler goes on with
  abbrev pub send : NewOrder A → Desk A → Desk A
  send order s = record s { sent = order ∷ s.sent }
