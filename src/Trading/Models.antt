-- ===== src/Trading/Models.antt =====
-- The rows of contexts/trading/models.py, the ports' value objects of contexts/trading/ports.py and
-- the events of contexts/trading/events.py, over the type `A` of decimal numbers. The rows are those
-- of one tenant, the one that the tenant listener narrows every SELECT to, so they do not name it;
-- columns that the modelled code neither reads nor writes are left out. A UUID is a number.
use iguanatrader.Common.{ℕ, String, List, Option, Bool}
use iguanatrader.Risk.Models.{Side, ExecutionAlgo}
use iguanatrader.Risk.State.{TradeState}

pub data Mode : Type 0 where
  paper live : Mode

pub data ProposalState : Type 0 where
  pending_approval approved rejected expired : ProposalState

-- `TradeProposal`
pub record TradeProposal (A : Type 0) : Type 0 where
  pub id : ℕ
  pub strategy_config_id : ℕ
  pub symbol : String
  pub side : Side
  pub quantity : A
  pub entry_price_indicative : A
  pub stop_price : A
  pub target_price : Option A
  pub confidence_score : Option A
  pub mode : Mode
  pub created_at : ℕ
  pub state : ProposalState
  pub rejection_reason : Option String
  pub rejected_at : Option ℕ

-- `Trade`
pub record Trade (A : Type 0) : Type 0 where
  pub id : ℕ
  pub proposal_id : ℕ
  pub symbol : String
  pub side : Side
  pub quantity : A
  pub mode : Mode
  pub state : TradeState
  pub opened_at : ℕ
  pub closed_at : Option ℕ
  pub exit_reason : Option String
  pub realised_pnl : Option A
  pub avg_entry_price : Option A
  pub unrealized_pnl : Option A
  pub marks_updated_at : Option ℕ

pub data OrderType : Type 0 where
  market stop limit : OrderType

-- the states that the service gives an order
pub data OrderState : Type 0 where
  submitted timeout_pending refused : OrderState  -- `refused` is "rejected"

-- `Order`
pub record Order (A : Type 0) : Type 0 where
  pub id : ℕ
  pub trade_id : ℕ
  pub broker_order_id : Option ℕ
  pub client_order_id : ℕ
  pub order_type : OrderType
  pub side : Side
  pub quantity : A
  pub limit_price : Option A
  pub stop_price : Option A
  pub target_price : Option A
  pub state : OrderState
  pub submitted_at : Option ℕ

-- `Fill`
pub record Fill (A : Type 0) : Type 0 where
  pub id : ℕ
  pub order_id : ℕ
  pub quantity_filled : A
  pub fill_price : A
  pub commission : A
  pub filled_at : ℕ
  pub broker_fill_id : Option String

-- `EquitySnapshot`, and the `EquitySnapshotValue` that a broker gives
pub record EquitySnapshot (A : Type 0) : Type 0 where
  pub id : ℕ
  pub account_equity : A

-- `NewOrder`
pub record NewOrder (A : Type 0) : Type 0 where
  pub trade_id : ℕ
  pub symbol : String
  pub side : Side
  pub quantity : A
  pub order_type : OrderType
  pub stop_price : Option A
  pub target_price : Option A
  pub client_order_id : ℕ
  pub algo_kind : ExecutionAlgo

-- `FillEvent`
pub record FillEvent (A : Type 0) : Type 0 where
  pub order_id : ℕ
  pub quantity_filled : A
  pub fill_price : A
  pub commission : A
  pub filled_at : ℕ
  pub broker_fill_id : Option String

-- what the service publishes
pub data Event (A : Type 0) : Type 0 where
  proposal_created : ℕ → String → Event A
  approval_requested : ℕ → Event A
  proposal_rejected : ℕ → String → Event A
  order_placed : ℕ → ℕ → Event A
  order_rejected : ℕ → String → Event A
  order_filled : ℕ → ℕ → Event A
  trade_closed : ℕ → A → String → ℕ → Event A
  equity_updated : ℕ → Event A

-- The tables, the service's own halt flag, the counter that new ids are drawn from, and what the
-- service has told others, newest first: its events, the orders it has sent to the broker, and the
-- releases it has scheduled at the gateway.
pub record Desk (A : Type 0) : Type 0 where
  pub proposals : List (TradeProposal A)
  pub trades : List (Trade A)
  pub orders : List (Order A)
  pub fills : List (Fill A)
  pub snapshots : List (EquitySnapshot A)
  pub kill_switch_active : Bool
  pub next_id : ℕ
  pub published : List (Event A)
  pub sent : List (NewOrder A)
  pub releases : List ℕ
