-- ===== src/Trading/Daemon/Drain.antt =====
-- Draining twice, and polling twice.
use iguanatrader.Common.{
  ℕ, String, Option, [], List, false, inr, arith, Bool-cases, refl, ◌≡◌, length, and_false, none,
  some, filter, inl, map, ap, true, ◌∷◌, Bool, subst, sym,
}
use iguanatrader.Trading.Models.{Desk, Mode, TradeProposal}
use iguanatrader.Trading.Execute.{same_mode}
use iguanatrader.Trading.Daemon.{
  TenantTradingMode, Watermarks, Polled, poll_row, is_after, reconcile_due, is_drained, drain_row,
  drain_pending_proposals, advanced, poll_as, advanced_to,
}

module _ {A : Type 0} where
  drained_row :
      (mode : Mode) (reason : String) (now : ℕ) (p : TradeProposal A)
      → is_drained mode (drain_row mode reason now p) ≡ false
  drained_row mode reason now p = elim (Bool-cases (is_drained mode p)) [
    | inl e ↦ rw e (and_false (same_mode p.mode mode))
    | inr e ↦ rw (e, e) refl
  ]

  drained_count :
      (mode : Mode) (reason : String) (now : ℕ) (ps : List (TradeProposal A))
      → length (filter (is_drained mode) (map (drain_row mode reason now) ps)) ≡ 0
  drained_count mode reason now [] = refl
  drained_count mode reason now (p ∷ ps) =
      rw (drained_row mode reason now p) (drained_count mode reason now ps)

  drained_same :
      (mode : Mode) (reason reason' : String) (now now' : ℕ) (ps : List (TradeProposal A))
      → map (drain_row mode reason' now') (map (drain_row mode reason now) ps)
        ≡ map (drain_row mode reason now) ps
  drained_same mode reason reason' now now' [] = refl
  drained_same mode reason reason' now now' (p ∷ ps) = rw (drained_row mode reason now p) (
      ap (λ rest. drain_row mode reason now p ∷ rest)
        (drained_same mode reason reason' now now' ps))

  -- A drain leaves no pending proposal of the daemon's mode: a second one, with whatever reason and
  -- at whatever time, counts none and changes nothing.
  pub drain_pending_proposals-again :
      (mode : Mode) (reason reason' : String) (now now' : ℕ) (s : Desk A)
      → drain_pending_proposals mode reason' now' (drain_pending_proposals mode reason now s).1
        ≡ (0, (drain_pending_proposals mode reason now s).1)
  unfolding drain_pending_proposals
  drain_pending_proposals-again mode reason reason' now now' s =
      rw
        (
          drained_count mode reason now s.proposals,
          drained_same mode reason reason' now now' s.proposals,
        )
        refl

after_irrefl : (at : ℕ) → is_after (some at) at ≡ false
after_irrefl at = ground arith

due_irrefl : (at : Option ℕ) → reconcile_due at at ≡ false
due_irrefl none = refl
due_irrefl (some at) = after_irrefl at

advanced_after : (last : Option ℕ) (at : ℕ) → is_after (advanced last at) at ≡ false
advanced_after last at = elim (Bool-cases (is_after last at)) [
  | inl e ↦ rw e (after_irrefl at)
  | inr e ↦ rw e e
]

advanced_due : (last at : Option ℕ) → reconcile_due (advanced_to last at) at ≡ false
advanced_due last none = refl
advanced_due last (some at) = advanced_after last at

-- The poll does neither of its two actions.
abbrev pub IsQuiet : Polled → Type 0
IsQuiet p = (p.drains ≡ false) × (p.reconciles ≡ false)

poll_as-IsQuiet :
    (initialised : Bool) (marks : Watermarks) (row : TenantTradingMode)
    → IsQuiet (poll_as true (poll_as initialised marks row).marks row)
poll_as-IsQuiet false marks row =
    (rw (after_irrefl row.last_toggled_at) refl, due_irrefl row.pending_reconcile_at)
poll_as-IsQuiet true marks row = (
  rw (advanced_after marks.last_toggle_handled row.last_toggled_at) refl,
  advanced_due marks.last_reconcile_handled row.pending_reconcile_at,
)

poll_as-initialised :
    (initialised : Bool) (marks : Watermarks) (row : TenantTradingMode)
    → (poll_as initialised marks row).marks.poll_initialised ≡ true
poll_as-initialised false marks row = refl
poll_as-initialised true marks row = refl

-- A toggle or a request to reconcile is acted on once: after a poll of a row, whatever the
-- watermarks were, a second poll of the same row neither drains nor reconciles.
pub poll_row-IsQuiet :
    (marks : Watermarks) (row : TenantTradingMode)
    → IsQuiet (poll_row (poll_row marks row).marks row)
unfolding poll_row
poll_row-IsQuiet marks row =
    let initialised = marks.poll_initialised in
    let next = (poll_as initialised marks row).marks in
    subst (λ b. IsQuiet (poll_as b next row)) (sym (poll_as-initialised initialised marks row))
      (poll_as-IsQuiet initialised marks row)
