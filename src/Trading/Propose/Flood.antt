-- ===== src/Trading/Propose/Flood.antt =====
-- A signal that persists does not propose again while its entry is in flight.
use iguanatrader.Common.{
  ℕ, ◌+◌, false, ◌⊎◌, Bool, ◌∷◌, List, ◌≡◌, inr, none, true, sym, refl, some, ◌∙◌, inl, arith, ◌≤◌,
  Option, ◌*◌, ◌==◌, leb, ap, or_true, ==_iff,
}
use iguanatrader.Decimal.{Decimal}
use iguanatrader.Trading.Models.{Desk, TradeProposal, pending_approval}
use iguanatrader.Trading.Repository.{has_recent_pending, has_open_position, is_pending}
use iguanatrader.Trading.Service.{Service, publish}
use iguanatrader.Trading.Propose.{
  Tick, Proposal, Proposed, EntryDecision, returned, propose, propose_unless, propose_for,
  propose_signal, propose_entry, entry_decided, insert_proposal, is_in_flight,
}

module _ (dec : Decimal) (svc : Service dec.Amount) where
  open dec use {Amount}

  -- whether a tick put a proposal forward
  abbrev pub is_proposed : Proposed Amount → Bool
  is_proposed (returned (some proposal)) = true
  is_proposed _ = false

  -- Nothing is put forward, and nothing is written.
  abbrev pub IsIdle : Desk Amount → Proposed Amount × Desk Amount → Type 0
  IsIdle s r = (is_proposed r.0 ≡ false) × (r.1 ≡ s)

  -- A new proposal of the tick's configuration waits for approval; there was no halt, a tenant, and
  -- no entry in flight.
  abbrev pub IsProposing : Tick Amount → Desk Amount → Proposed Amount × Desk Amount → Type 0
  IsProposing tick s r =
      (row : TradeProposal Amount) × (is_proposed r.0 ≡ true)
      × (s.kill_switch_active ≡ false)
      × (is_in_flight dec svc tick s ≡ false)
      × (r.1.proposals ≡ row ∷ s.proposals)
      × (row.strategy_config_id ≡ tick.strategy_config_id)
      × (row.state ≡ pending_approval)
      × (row.created_at ≡ tick.now)

  -- the outcome of a tick that passes the flood guard
  abbrev pub HasRow : Tick Amount → Desk Amount → Desk Amount → Type 0
  HasRow tick s s' =
      (row : TradeProposal Amount) × (s'.proposals ≡ row ∷ s.proposals)
      × (row.strategy_config_id ≡ tick.strategy_config_id)
      × (row.state ≡ pending_approval)
      × (row.created_at ≡ tick.now)

  insert_proposal-HasRow :
      (tick : Tick Amount) (proposal : Proposal Amount) (confidence : Option Amount)
      (s : Desk Amount)
      → HasRow tick s (insert_proposal dec svc tick proposal confidence s)
  unfolding insert_proposal publish
  insert_proposal-HasRow tick proposal confidence s = (_, refl, refl, refl, refl)

  abbrev pub HasEntry : Tick Amount → Desk Amount → Proposed Amount × Desk Amount → Type 0
  HasEntry tick s r = IsIdle s r ⊎ ((is_proposed r.0 ≡ true) × HasRow tick s r.1)

  entry-cases :
      (tick : Tick Amount) (proposal : Proposal Amount)
      (gate : Option (Proposal Amount → EntryDecision Amount)) (s : Desk Amount)
      → HasEntry tick s (propose_entry dec svc tick proposal gate s)
  entry-cases tick proposal none s = inr (refl, insert_proposal-HasRow tick proposal _ s)
  entry-cases tick proposal (some gate) s =
      elim (gate proposal).blocked
        as (λ b.
          HasEntry tick s (entry_decided dec svc tick proposal b (gate proposal).confidence s)) [
            | true ↦ inl (refl, refl)
            | false ↦ inr (refl, insert_proposal-HasRow tick proposal _ s)
          ]

  abbrev pub HasCases : Tick Amount → Desk Amount → Proposed Amount × Desk Amount → Type 0
  HasCases tick s r = IsIdle s r ⊎ IsProposing tick s r

  signal-cases :
      (tick : Tick Amount) (proposal : Proposal Amount) (flight : Bool) (s : Desk Amount)
      → s.kill_switch_active ≡ false
      → is_in_flight dec svc tick s ≡ flight
      → HasCases tick s (propose_signal dec svc tick proposal flight s)
  signal-cases tick proposal true s h e = inl (refl, refl)
  signal-cases tick proposal false s h e = elim (entry-cases tick proposal tick.entry_gate s) [
    | inl idle ↦ inl idle
    | inr (told, (row, rows, config, state, at)) ↦ inr (row, told, h, e, rows, config, state, at)
  ]

  for-cases :
      (tick : Tick Amount) (tenant : Option ℕ) (signal : Option (Proposal Amount)) (s : Desk Amount)
      → s.kill_switch_active ≡ false
      → HasCases tick s (propose_for dec svc tick tenant signal s)
  for-cases tick none signal s h = inl (refl, refl)
  for-cases tick (some tenant) none s h = inl (refl, refl)
  for-cases tick (some tenant) (some proposal) s h =
      signal-cases tick proposal (is_in_flight dec svc tick s) s h refl

  unless-cases :
      (halted : Bool) (tick : Tick Amount) (s : Desk Amount)
      → s.kill_switch_active ≡ halted
      → HasCases tick s (propose_unless dec svc tick halted s)
  unless-cases true tick s h = inl (refl, refl)
  unless-cases false tick s h = for-cases tick tick.tenant tick.signal s h

  pub propose-cases :
      (tick : Tick Amount) (s : Desk Amount) → HasCases tick s (propose dec svc tick s)
  unfolding propose
  propose-cases tick s = unless-cases s.kill_switch_active tick s refl

  -- in flight: nothing is proposed
  pub flight-IsIdle :
      (tick : Tick Amount) (s : Desk Amount)
      → is_in_flight dec svc tick s ≡ true
      → IsIdle s (propose dec svc tick s)
  flight-IsIdle tick s h = elim (propose-cases tick s) [
    | inl idle ↦ idle
    | inr (row, told, flag, free, rows, config, state, at) ↦ absurd (ground (arith, h, free))
  ]

  row-flight :
      (tick : Tick Amount) (row : TradeProposal Amount) (rows : List (TradeProposal Amount))
      (s : Desk Amount)
      → s.proposals ≡ row ∷ rows
      → row.strategy_config_id ≡ tick.strategy_config_id
      → row.state ≡ pending_approval
      → tick.now ≤ row.created_at + svc.propose_dedup_window_secs * 1000000
      → is_in_flight dec svc tick s ≡ true
  unfolding is_in_flight has_recent_pending has_open_position
  row-flight tick row rows s e config state recent =
      let named : (row.strategy_config_id == tick.strategy_config_id) ≡ true =
        (==_iff row.strategy_config_id tick.strategy_config_id).1 config in
      let waiting : is_pending row.state ≡ true = ap is_pending state in
      let young : leb tick.now (row.created_at + svc.propose_dedup_window_secs * 1000000) ≡ true =
        ground (arith, recent) in
      rw (e, named, waiting, young) (or_true (has_open_position tick.symbol s))

  -- After a tick has put a proposal forward, a tick for the same configuration within the window
  -- puts none forward, and changes nothing.
  pub propose-again :
      (tick again : Tick Amount) (s : Desk Amount)
      → is_proposed (propose dec svc tick s).0 ≡ true
      → again.strategy_config_id ≡ tick.strategy_config_id
      → again.now ≤ tick.now + svc.propose_dedup_window_secs * 1000000
      → IsIdle (propose dec svc tick s).1 (propose dec svc again (propose dec svc tick s).1)
  propose-again tick again s done same recent = elim (propose-cases tick s) [
    | inl idle ↦ absurd (ground (arith, idle.0, done))
    | inr (row, told, flag, free, rows, config, state, at) ↦
        flight-IsIdle again (propose dec svc tick s).1 (
          row-flight again row s.proposals (propose dec svc tick s).1 rows (config ∙ sym same) state
            (omega (arith, at, recent)))
  ]
