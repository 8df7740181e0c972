-- ===== src/Risk/Models.antt =====
-- The value objects of contexts/risk/models.py, over the type `A` of decimal numbers. A UUID is a
-- number; an int that its validator keeps at zero or more is a number too.
use iguanatrader.Common.{ℕ, String, List, Option}

pub data Outcome : Type 0 where
  allow reject clip : Outcome

pub data CapType : Type 0 where
  per_trade daily_loss weekly_loss max_open max_drawdown stoploss_guard cooldown_period : CapType

pub data ExecutionAlgo : Type 0 where
  market adaptive twap : ExecutionAlgo

pub data Side : Type 0 where
  buy sell : Side

pub data KillSwitchSource : Type 0 where
  file_flag env_var channel_command dashboard_button : KillSwitchSource
  automatic_backoff automatic_cap_breach cli : KillSwitchSource

pub data KillSwitchTransition : Type 0 where
  activated deactivated : KillSwitchTransition

pub record RiskCaps (A : Type 0) : Type 0 where
  pub per_trade_pct : A
  pub daily_loss_pct : A
  pub weekly_loss_pct : A
  pub max_open_positions : ℕ
  pub max_drawdown_pct : A
  pub stoploss_guard_threshold : Option ℕ
  pub stoploss_guard_lookback : ℕ
  pub cooldown_seconds : Option ℕ
  pub trail_trigger_pct : Option A
  pub trail_atr_mult : A
  pub trail_atr_period : ℕ
  pub execution_algo : ExecutionAlgo

pub record RiskState (A : Type 0) : Type 0 where
  pub capital : A
  pub day_to_date_loss_pct : A
  pub week_to_date_loss_pct : A
  pub open_positions_count : ℕ
  pub peak_to_trough_drawdown_pct : A
  pub recent_stoploss_count_trailing : ℕ
  pub recent_trades_lookback : ℕ
  pub seconds_since_last_close_by_symbol : List (String × ℕ)

pub record TradeProposalInput (A : Type 0) : Type 0 where
  pub id : ℕ
  pub tenant_id : ℕ
  pub notional_value : A
  pub side : Side
  pub symbol : String

pub record Decision (A : Type 0) : Type 0 where
  pub outcome : Outcome
  pub cap_type_breached : Option CapType
  pub current_pct : Option A
  pub clip_quantity : Option A
  pub state_snapshot : List (String × String)

pub data ConfirmationChannel : Type 0 where
  telegram whatsapp cli_channel dashboard : ConfirmationChannel

pub record Confirmation : Type 0 where
  pub channel : ConfirmationChannel
  pub at : ℕ
  pub actor_user_id : ℕ

pub record ConfirmationChain : Type 0 where
  pub first_confirmation : Confirmation
  pub second_confirmation : Confirmation
