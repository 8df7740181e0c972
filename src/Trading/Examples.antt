-- ===== src/Trading/Examples.antt =====
-- The theorems on the trading service at concrete inputs.
use iguanatrader.Common.{
  All, ◌++◌, ℕ, false, refl, ◌+◌, [], some, inr, true, ◌≡◌, List, none, ◌∷◌, arith, ◌==◌, inl, ◌⊎◌,
}
use iguanatrader.Decimal.Fixed.{Fixed, fixed, amount}
use iguanatrader.Trading.Models.{paper, Desk, Trade, Fill}
use iguanatrader.Trading.Service.{placed, is_halted, auth_error}
use iguanatrader.Trading.Repository.{
  get_by_proposal_id, get_proposal, get_trade, has_open_position, has_recent_pending,
}
use iguanatrader.Trading.Gateway.{
  Gateway, IsTicking, HasEnded, ensure_live_gateway_ready, ensure_live_gateway_ready-HasEnded,
}
use iguanatrader.Trading.Execute.{execute_on_approval, gateway_ready}
use iguanatrader.Trading.Execute.Cleared.{is_cleared}
use iguanatrader.Trading.Execute.Outcome.{HasOutcome, execute_on_approval-HasOutcome}
use iguanatrader.Risk.State.{closed}
use iguanatrader.Trading.Repository.Ordered.{IsHistory, orders_of}
use iguanatrader.Trading.Desk.{Call, proposal_approved, fills_reported, close_requested, run}
use iguanatrader.Trading.Desk.Ledger.{HasGrown}
use iguanatrader.Trading.Desk.Lifecycle.{run-HasGrown}
use iguanatrader.Trading.Desk.Once.{IsTradedOnce, run-IsTradedOnce}
use iguanatrader.Trading.Tests.{svc, outside, desk, fill_of, reports, long, held, row}
use iguanatrader.Trading.Reconcile.{compute_realised_pnl, reconcile_fills, reconcile_one_fill}
use iguanatrader.Trading.Close.{close_trade, exit_answered}
use iguanatrader.Trading.Reconcile.Outcome.{IsReconciled, reconcile_one_fill-IsReconciled}
use iguanatrader.Trading.Propose.{Tick, propose, is_in_flight}
use iguanatrader.Trading.Propose.Flood.{IsIdle, propose-again, is_proposed}
use iguanatrader.Trading.Close.Once.{
  IsClosing, IsUnclosed, close_trade-again, is_placed, close_trade-cases,
}
use iguanatrader.Trading.Reconcile.Again.{reconcile_fills-again}
use iguanatrader.Risk.Models.{buy}
use iguanatrader.Trading.Reconcile.Profit.{profit, compute_realised_pnl-net}
use iguanatrader.Trading.Daemon.{
  Position, Watermarks, drain_pending_proposals, TenantTradingMode, poll_row, reconcile_positions,
}
use iguanatrader.Trading.Daemon.Drain.{IsQuiet, drain_pending_proposals-again, poll_row-IsQuiet}
use iguanatrader.Trading.Daemon.Stranded.{execute_on_approval-blocks}
use iguanatrader.Trading.Daemon.Marks.{IsMarked, IsAccounted}
use iguanatrader.Trading.Daemon.Positions.{unfilled_states, untimed_desk, reconcile_positions-again}

-- answers with yes at the third attempt
abbrev warming : Gateway
warming = record { ensure_up = λ k. k == 2; clock = λ k. 10 + k }

warming-IsTicking : IsTicking warming 10
warming-IsTicking = (omega arith, λ k. omega arith)

ensure_live_gateway_ready-HasEnded_example :
    HasEnded warming (10 + 5) (ensure_live_gateway_ready warming 10 5)
ensure_live_gateway_ready-HasEnded_example =
    ensure_live_gateway_ready-HasEnded warming 10 5 warming-IsTicking

execute_on_approval-HasOutcome_example :
    HasOutcome fixed svc
      (outside (placed 55))
      7
      desk
      (execute_on_approval fixed svc (outside (placed 55)) 7 desk)
execute_on_approval-HasOutcome_example =
    execute_on_approval-HasOutcome fixed svc (outside (placed 55)) 7 desk

-- an approval that is delivered twice, its fills, and a request to close
abbrev calls : List (Call Fixed)
calls =
    proposal_approved (outside (placed 55)) 7
    ∷ proposal_approved (outside (placed 56)) 7
    ∷ fills_reported reports
    ∷ close_requested (outside (placed 57)) 100 "manual"
    ∷ []

run-HasGrown_example : HasGrown held.trades (run fixed svc calls held).trades
run-HasGrown_example = run-HasGrown fixed svc calls held

run-IsTradedOnce_example : IsTradedOnce 7 (run fixed svc calls desk)
run-IsTradedOnce_example = run-IsTradedOnce fixed svc 7 calls desk (inl refl)

reconcile_fills-again_example :
    reconcile_fills fixed (fill_of 102 940000 "b" ∷ []) (reconcile_fills fixed reports held)
    ≡ reconcile_fills fixed reports held
reconcile_fills-again_example =
    reconcile_fills-again fixed reports (fill_of 102 940000 "b" ∷ []) held
      ((refl, inr (inl refl)), tt)

compute_realised_pnl-net_example :
    (fills : List (Fill Fixed)) × IsHistory 100 (reconcile_fills fixed reports held) fills
    × (compute_realised_pnl fixed long (reconcile_fills fixed reports held)
        ≡ profit fixed (orders_of 100 (reconcile_fills fixed reports held)) fills)
compute_realised_pnl-net_example =
    compute_realised_pnl-net fixed long (reconcile_fills fixed reports held)

reconcile_one_fill-IsReconciled_example :
    IsReconciled fixed
      (fill_of 102 940000 "b")
      held
      (reconcile_one_fill fixed (fill_of 102 940000 "b") held)
reconcile_one_fill-IsReconciled_example =
    reconcile_one_fill-IsReconciled fixed (fill_of 102 940000 "b") held

close_trade-cases_example :
    IsClosing svc
      (outside (placed 57))
      100
      "manual"
      held
      (close_trade svc (outside (placed 57)) 100 "manual" held)
    ⊎ IsUnclosed svc
        (outside (placed 57))
        held
        (close_trade svc (outside (placed 57)) 100 "manual" held)
close_trade-cases_example = close_trade-cases svc (outside (placed 57)) 100 "manual" held

exit_taken : is_placed (close_trade svc (outside (placed 57)) 100 "manual" held).0 ≡ true
unfolding close_trade get_trade exit_answered
exit_taken = refl

close_trade-again_example :
    (close_trade svc
      (outside (placed 58))
      100
      "stop"
      (close_trade svc (outside (placed 57)) 100 "manual" held).1).1
    ≡ (close_trade svc (outside (placed 57)) 100 "manual" held).1
close_trade-again_example =
    close_trade-again svc (outside (placed 57)) (outside (placed 58)) 100 "manual" "stop" held
      exit_taken

abbrev tick : ℕ → Tick Fixed
tick now = record {
  now = now;
  tenant = some 1;
  symbol = "BRIO";
  strategy_config_id = 4;
  strategy_kind = "donchian_atr";
  signal = some (record {
    symbol = "BRIO";
    side = buy;
    quantity = amount 20000;
    entry_price_indicative = amount 500000;
    stop_price = amount 470000;
    target_price = none;
    confidence_score = none;
    mode = paper;
  });
  entry_gate = none;
}

put_forward : is_proposed fixed svc (propose fixed svc (tick 7000000000) held).0 ≡ true
unfolding propose is_in_flight has_open_position has_recent_pending
put_forward = refl

propose-again_example :
    IsIdle fixed svc
      (propose fixed svc (tick 7000000000) held).1
      (propose fixed svc (tick 8000000000) (propose fixed svc (tick 7000000000) held).1)
propose-again_example =
    propose-again fixed svc (tick 7000000000) (tick 8000000000) held put_forward refl (omega arith)

drain_pending_proposals-again_example :
    drain_pending_proposals paper "mode off" 9000000000
      (drain_pending_proposals paper "daemon_drained" 8000000000 desk).1
    ≡ (0, (drain_pending_proposals paper "daemon_drained" 8000000000 desk).1)
drain_pending_proposals-again_example =
    drain_pending_proposals-again paper "daemon_drained" "mode off" 8000000000 9000000000 desk

abbrev toggled_off : TenantTradingMode
toggled_off = record { enabled = false; last_toggled_at = 20; pending_reconcile_at = some 15 }

abbrev marks : Watermarks
marks = record {
  last_toggle_handled = some 10;
  last_reconcile_handled = none;
  poll_initialised = true;
}

acts : (poll_row marks toggled_off).drains ≡ true
unfolding poll_row
acts = refl

poll_row-IsQuiet_example : IsQuiet (poll_row (poll_row marks toggled_off).marks toggled_off)
poll_row-IsQuiet_example = poll_row-IsQuiet marks toggled_off

abbrev bought : Desk Fixed
bought = reconcile_fills fixed (fill_of 101 1000000 "a" ∷ []) held

abbrev book : List (Position Fixed)
book =
    record {
      symbol = "ACME";
      quantity = amount 30000;
      average_price = amount 1000000;
      unrealized_pnl = amount 50000;
    }
    ∷ []

reconcile_positions-again_example :
    let s' = reconcile_positions fixed paper book 8000000000 bought in
    All (IsAccounted fixed paper book s') s'.trades
    × All (IsMarked fixed paper book 8000000000) s'.trades
    × (unfilled_states fixed bought s'.trades ≡ unfilled_states fixed bought bought.trades)
    × (reconcile_positions fixed paper book 8000000000 s' ≡ s')
    × (untimed_desk fixed (reconcile_positions fixed paper book 9000000000 s')
        ≡ untimed_desk fixed s')
reconcile_positions-again_example =
    reconcile_positions-again fixed paper book 8000000000 9000000000 bought

refused_clear :
    is_cleared fixed svc
      (outside auth_error)
      (get_by_proposal_id 7 desk)
      (is_halted (outside auth_error) desk)
      (get_proposal 7 desk)
    ≡ true
unfolding get_by_proposal_id is_halted get_proposal gateway_ready
refused_clear = refl

row_found : get_proposal 7 desk ≡ some row
unfolding get_proposal
row_found = refl

abbrev same_symbol : Tick Fixed
same_symbol = record (tick 9000000000) { symbol = "ACME" }

-- The broker refuses the order, and an approval that is delivered again changes nothing of that.
execute_on_approval-blocks_example :
    let s' =
      run fixed svc
        (proposal_approved (outside (placed 56)) 7 ∷ [])
        (execute_on_approval fixed svc (outside auth_error) 7 desk) in
    (t : Trade Fixed) × (before : List (Trade Fixed)) × (after : List (Trade Fixed)) × (s'.trades
      ≡ before ++ t ∷ after)
    × (t.id ≡ 100)
    × (t.proposal_id ≡ 7)
    × ((t.state ≡ closed) ⊎ IsIdle fixed svc s' (propose fixed svc same_symbol s'))
execute_on_approval-blocks_example =
    execute_on_approval-blocks fixed svc (outside auth_error) 7 row same_symbol
      (proposal_approved (outside (placed 56)) 7 ∷ []) desk refused_clear row_found refl
