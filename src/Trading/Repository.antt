-- ===== src/Trading/Repository.antt =====
-- contexts/trading/repository.py: the queries on proposals, trades, orders and fills that the
-- service makes, and the changes of state that the repositories write.
pub mod Ordered
use iguanatrader.Common.{
  ℕ, String, some, Bool, max, none, true, str_eq, ◌&&◌, if◌then◌else◌, ◌∷◌, filter, any, ◌*◌, find,
  false, [], ◌==◌, ◌+◌, List, Option, leb,
}
use iguanatrader.Decimal.{Decimal}
use iguanatrader.Risk.State.{TradeState, is_live}
use iguanatrader.Trading.Models.{
  Desk, TradeProposal, ProposalState, rejected, expired, Trade, Order, Fill, pending_approval,
}

abbrev pub is_pending : ProposalState → Bool
is_pending pending_approval = true
is_pending _ = false

-- `if state in ("rejected", "expired"): proposal.rejected_at = utc_now()`
abbrev pub stamped : ProposalState → ℕ → Option ℕ → Option ℕ
stamped rejected now before = some now
stamped expired now before = some now
stamped _ now before = before

-- `if value is not None: column = value`
abbrev pub kept : {B : Type 0} → Option B → Option B → Option B
kept none before = before
kept (some v) before = some v

abbrev pub is_named : String → Option String → Bool
is_named id none = false
is_named id (some other) = str_eq other id

abbrev later : ℕ → Option ℕ → Option ℕ
later t none = some t
later t (some u) = some (max t u)

-- the row that `scalars().first()` gives is changed in place
abbrev pub update_first {ℓ} : {B : Type ℓ} → (B → Bool) → (B → B) → List B → List B
update_first wanted change [] = []
update_first wanted change (x ∷ xs) =
    if wanted x then change x ∷ xs else x ∷ update_first wanted change xs

module _ {A : Type 0} where
  unfoldable pub get_proposal : ℕ → Desk A → Option (TradeProposal A)
  get_proposal proposal_id s = find (λ p. p.id == proposal_id) s.proposals

  -- `created_at >= now - within_seconds`, in microseconds
  unfoldable pub has_recent_pending : ℕ → ℕ → ℕ → Desk A → Bool
  has_recent_pending strategy_config_id within_seconds now s =
      any
        (λ p.
          p.strategy_config_id == strategy_config_id
          && (is_pending p.state && leb now (p.created_at + within_seconds * 1000000)))
        s.proposals

  abbrev pub with_state : ProposalState → Option String → ℕ → TradeProposal A → TradeProposal A
  with_state state reason now p = record p {
    state = state;
    rejection_reason = reason;
    rejected_at = stamped state now p.rejected_at;
  }

  unfoldable pub set_state : ℕ → ProposalState → Option String → ℕ → Desk A → Desk A
  set_state proposal_id state reason now s = record s {
    proposals = update_first (λ p. p.id == proposal_id) (with_state state reason now) s.proposals;
  }

  unfoldable pub get_trade : ℕ → Desk A → Option (Trade A)
  get_trade trade_id s = find (λ t. t.id == trade_id) s.trades

  unfoldable pub has_open_position : String → Desk A → Bool
  has_open_position symbol s = any (λ t. str_eq t.symbol symbol && is_live t.state) s.trades

  abbrev pub with_exit : TradeState → Option ℕ → Option String → Option A → Trade A → Trade A
  with_exit state closed_at exit_reason realised_pnl t = record t {
    state = state;
    closed_at = kept closed_at t.closed_at;
    exit_reason = kept exit_reason t.exit_reason;
    realised_pnl = kept realised_pnl t.realised_pnl;
  }

  unfoldable pub update_state :
      ℕ → TradeState → Option ℕ → Option String → Option A → Desk A → Desk A
  update_state trade_id state closed_at exit_reason realised_pnl s = record s {
    trades =
        update_first (λ t. t.id == trade_id) (with_exit state closed_at exit_reason realised_pnl)
          s.trades;
  }

  -- the join `Order.trade_id == Trade.id` under `Trade.proposal_id == :proposal_id`
  unfoldable pub is_order_of : ℕ → List (Trade A) → Order A → Bool
  is_order_of proposal_id trades o =
      any (λ t. t.id == o.trade_id && t.proposal_id == proposal_id) trades

  unfoldable pub get_by_proposal_id : ℕ → Desk A → Option (Order A)
  get_by_proposal_id proposal_id s = find (is_order_of proposal_id s.trades) s.orders

  unfoldable pub get_by_client_order_id : ℕ → Desk A → Option (Order A)
  get_by_client_order_id client_order_id s =
      find (λ o. o.client_order_id == client_order_id) s.orders

  unfoldable pub get_order : ℕ → Desk A → Option (Order A)
  get_order order_id s = find (λ o. o.id == order_id) s.orders

  unfoldable pub list_orders_for_trade : ℕ → Desk A → List (Order A)
  list_orders_for_trade trade_id s = filter (λ o. o.trade_id == trade_id) s.orders

  unfoldable pub exists_by_broker_fill_id : String → Desk A → Bool
  exists_by_broker_fill_id broker_fill_id s =
      any (λ f. is_named broker_fill_id f.broker_fill_id) s.fills

  -- `ORDER BY filled_at ASC`
  abbrev pub put_in_order : Fill A → List (Fill A) → List (Fill A)
  put_in_order f [] = f ∷ []
  put_in_order f (g ∷ gs) =
      if leb f.filled_at g.filled_at then f ∷ g ∷ gs else g ∷ put_in_order f gs

  abbrev pub in_order : List (Fill A) → List (Fill A)
  in_order [] = []
  in_order (f ∷ fs) = put_in_order f (in_order fs)

  -- the join `Fill.order_id == Order.id` for the trade
  unfoldable pub list_fills_for_trade : ℕ → Desk A → List (Fill A)
  list_fills_for_trade trade_id s =
      in_order
        (filter (λ f. any (λ o. o.id == f.order_id && o.trade_id == trade_id) s.orders) s.fills)

  abbrev latest_in : List (Fill A) → Option ℕ
  latest_in [] = none
  latest_in (f ∷ fs) = later f.filled_at (latest_in fs)

  unfoldable pub latest_filled_at : Desk A → Option ℕ
  latest_filled_at s = latest_in s.fills

module _ (dec : Decimal) where
  open dec use {Amount, of_int, add}

  abbrev pub total_of : List (Fill Amount) → Amount
  total_of [] = of_int 0
  total_of (f ∷ fs) = add (total_of fs) f.quantity_filled

  -- `SUM(quantity_filled)` of an order's fills, 0 when it has none
  unfoldable pub sum_quantity_for_order : ℕ → Desk Amount → Amount
  sum_quantity_for_order order_id s = total_of (filter (λ f. f.order_id == order_id) s.fills)
