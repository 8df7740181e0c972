-- ===== src/Risk/Examples.antt =====
-- Trailing stops, the state loader, the switch, overrides and the bridge at concrete inputs.
use iguanatrader.Risk.Override.{Session, record_halt}
use iguanatrader.Decimal.Fixed.{Fixed, fixed, amount}
use iguanatrader.Risk.Tests.{caps}
use iguanatrader.Common.{◌∷◌, ◌++◌, List, false, ◌≡◌, none, some, true, ◌-◌, refl, ℕ, [], ◌+◌}
use iguanatrader.Risk.Trailing.Ratchet.{Ratchets, compute_trailing_stop-Ratchets}
use iguanatrader.Risk.Trailing.{
  highest_close, Bar, TradeSnapshot, compute_trailing_stop, TrailingStopUpdate, trailed, trail_on,
  trail_given, ratchet, mean_true_range,
}
use iguanatrader.Risk.Models.{
  RiskCaps, KillSwitchTransition, activated, allow, buy, dashboard_button, deactivated,
  ConfirmationChain, telegram, dashboard,
}
use iguanatrader.Risk.KillSwitch.{CacheRow}
use iguanatrader.Risk.KillSwitch.Log.{SwitchCall, IsConsistent, run, fresh, run-fresh}
use iguanatrader.Trading.Propose.{risk_check_handler}
use iguanatrader.Trading.Propose.Risked.{is_request}
use iguanatrader.Trading.Service.{publish}
use iguanatrader.Trading.Models.{Desk}
use iguanatrader.Risk.Bridge.{ProposalRiskEvaluated, TradeProposal, breached}
use iguanatrader.Risk.Override.Laws.{Durable, record_halt-Durable}
use iguanatrader.Risk.Service.{returned}

abbrev bar : ℕ → ℕ → Bar Fixed
bar at close = record {
  timestamp = at;
  open_price = amount close;
  high = amount (close + 10000);
  low = amount (close - 10000);
  close = amount close;
  volume = amount 0;
}

abbrev position : TradeSnapshot Fixed
position = record {
  trade_id = 5;
  side = buy;
  entry_price = amount 1000000;
  stop_price = amount 950000;
  opened_at = 10;
}

abbrev old_bar : List (Bar Fixed)
old_bar = bar 10 9000000 ∷ []

abbrev bars : List (Bar Fixed)
bars = bar 11 1010000 ∷ bar 12 1060000 ∷ bar 13 1050000 ∷ []

-- the stop that follows: 106 less twice the mean range (60000 + 20000) / 2 in ten-thousandths
abbrev followed : TrailingStopUpdate Fixed
followed = record {
  trade_id = 5;
  old_stop = amount 950000;
  new_stop = record { plus = 1060000; minus = 80000 };
  highest_close_since_entry = amount 1060000;
  atr = some (amount 40000);
  reason = trailed;
}

compute_trailing_stop-Ratchets_example :
    (u : TrailingStopUpdate Fixed) × (compute_trailing_stop fixed position
        (old_bar ++ bars)
        (amount 500)
        (amount 20000)
      ≡ some u)
    × Ratchets fixed position u
compute_trailing_stop-Ratchets_example =
    compute_trailing_stop-Ratchets fixed position (old_bar ++ bars) (amount 500) (amount 20000) refl

follows : compute_trailing_stop fixed position bars (amount 500) (amount 20000) ≡ some followed
unfolding compute_trailing_stop trail_on trail_given highest_close ratchet mean_true_range
follows = refl

abbrev one_slot : RiskCaps Fixed
one_slot = record caps { max_open_positions = 1 }

abbrev switch_call : KillSwitchTransition → ℕ → ℕ → SwitchCall
switch_call transition tenant at = record {
  transition = transition;
  tenant_id = tenant;
  source = dashboard_button;
  actor_user_id = some 3;
  reason = none;
  at = at;
}

abbrev calls : List SwitchCall
calls =
    switch_call activated 1 10
    ∷ switch_call activated 1 11
    ∷ switch_call activated 2 12
    ∷ switch_call deactivated 1 13
    ∷ []

run-fresh_example : IsConsistent 1 (run calls (fresh true))
run-fresh_example = run-fresh 1 calls true

abbrev cached : List CacheRow
cached =
    record { tenant_id = 2; is_active = true; last_event_id = 0; updated_at = 1 }
    ∷ record { tenant_id = 1; is_active = false; last_event_id = 4; updated_at = 9 }
    ∷ []

abbrev session : Session
session = record { committed = fresh true; working = run calls (fresh true) }

record_halt-Durable_example :
    (s' : Session) × (record_halt (some 1) (some session) (some 3) none 30 ≡ (returned tt, some s'))
    × Durable 1 true session s'
record_halt-Durable_example = record_halt-Durable 1 session (some 3) none 30

abbrev chain : ConfirmationChain
chain = record {
  first_confirmation = record { channel = telegram; at = 20; actor_user_id = 3 };
  second_confirmation = record { channel = dashboard; at = 25; actor_user_id = 3 };
}

abbrev user : ℕ
user = 3

-- twenty letters between two blanks
abbrev reason : List ℕ
reason =
    32 ∷ 97 ∷ 97 ∷ 97 ∷ 97 ∷ 97 ∷ 97 ∷ 97 ∷ 97 ∷ 97 ∷ 97 ∷ 97 ∷ 97 ∷ 97 ∷ 97 ∷ 97 ∷ 97 ∷ 97 ∷ 97
    ∷ 97 ∷ 97 ∷ 32 ∷ []

abbrev stored : List (TradeProposal Fixed)
stored =
    record {
      id = 71;
      tenant_id = 1;
      quantity = amount 100000;
      entry_price_indicative = amount 50000;
      side = buy;
      symbol = "AAPL";
    }
    ∷ []

abbrev allow_event : ProposalRiskEvaluated Fixed
allow_event = record {
  tenant_id = 1;
  proposal_id = 71;
  outcome = allow;
  cap_type_breached = breached none;
  clip_quantity = none;
}

abbrev desk : Desk Fixed
desk = record {
  proposals = [];
  trades = [];
  orders = [];
  fills = [];
  snapshots = [];
  kill_switch_active = false;
  next_id = 0;
  published = [];
  sent = [];
  releases = [];
}

asked : is_request (risk_check_handler allow_event desk).published ≡ true
unfolding risk_check_handler publish
asked = refl
