-- ===== src/Trading/Execute/Guards.antt =====
-- The guards of the execution of an approved proposal, in terms of the rows and the answers alone.
use iguanatrader.Common.{
  ℕ, ◌≡◌, ◌≢◌, ◌⊎◌, inl, inr, refl, true, false, Bool, Option, none, some, any, ◌==◌, Bool-cases,
  ◌&&◌, List, [], find, Option-cases, ◌∷◌, arith, find-any, ◌∙◌,
}
use iguanatrader.Decimal.{Decimal}
use iguanatrader.Trading.Models.{Desk, TradeProposal, Order, Mode, paper, live}
use iguanatrader.Trading.Service.{Service, Outside, is_halted, read, read_failed}
use iguanatrader.Trading.Gateway.{Gateway, ensure_live_gateway_ready}
use iguanatrader.Trading.Repository.{get_by_proposal_id, get_proposal, is_order_of}
use iguanatrader.Trading.Execute.{mode_matches, gateway_ready, waited}
use iguanatrader.Trading.Execute.Cleared.{is_cleared, is_executable}

find-some-any {ℓ} :
    {B : Type ℓ} (wanted : B → Bool) (xs : List B) (x : B)
    → find wanted xs ≡ some x
    → any wanted xs ≡ true
find-some-any wanted [] x h = absurd (ground (arith, h))
find-some-any wanted (y ∷ ys) x h = elim (Bool-cases (wanted y)) [
  | inl e ↦ rw e refl
  | inr e ↦ rw e (find-some-any wanted ys x (ground (arith, h, e)))
]

mode-cases : (m : Mode) → (m ≡ paper) ⊎ (m ≡ live)
mode-cases paper = inl refl
mode-cases live = inr refl

-- The daemon is of the mode, or of none.
abbrev pub Fits : Option Mode → Mode → Type 0
Fits daemon mode = (daemon ≡ none) ⊎ (daemon ≡ some mode)

module _ (dec : Decimal) (svc : Service dec.Amount) (out : Outside dec.Amount) where
  open dec use {Amount, of_int, lt}

  -- the join of the tables `orders` and `trades`
  abbrev pub has_entry : ℕ → Desk Amount → Bool
  has_entry id s = any (λ o. any (λ t. t.id == o.trade_id && t.proposal_id == id) s.trades) s.orders

  abbrev pub IsRunning : Desk Amount → Type 0
  IsRunning s =
      ((out.kill_switch_reader ≡ none) × (s.kill_switch_active ≡ false))
      ⊎ (out.kill_switch_reader ≡ some (read false))

  -- The flag is up, or the reader answers yes or fails.
  abbrev pub IsHalted : Desk Amount → Type 0
  IsHalted s =
      ((out.kill_switch_reader ≡ none) × (s.kill_switch_active ≡ true))
      ⊎ ((out.kill_switch_reader ≡ some read_failed) ⊎ (out.kill_switch_reader ≡ some (read true)))

  -- No gateway is wired, none is needed, or it comes up in time.
  abbrev pub IsUp : Mode → Option Gateway → Type 0
  IsUp mode gateway =
      (gateway ≡ none)
      ⊎ ((mode ≡ paper)
          ⊎ ((g : Gateway) × (gateway ≡ some g)
              × (ensure_live_gateway_ready g out.now svc.live_gateway_wait ≡ some true)))

  -- Nothing stands in the way of the row.
  pub record IsClear (id : ℕ) (s : Desk Amount) (row : TradeProposal Amount) : Type 0 where
    pub unordered : has_entry id s ≡ false
    pub running : IsRunning s
    pub found : get_proposal id s ≡ some row
    pub fits : Fits svc.daemon_mode row.mode
    pub sized : lt (of_int 0) (svc.round_down row.quantity) ≡ true
    pub up : IsUp row.mode out.live_gateway

  -- What stands in the way.
  pub data IsBarred (id : ℕ) (s : Desk Amount) : Type 0 where
    ordered : has_entry id s ≡ true → IsBarred id s
    halted : IsHalted s → IsBarred id s
    missing : get_proposal id s ≡ none → IsBarred id s
    wrong_mode :
        (row : TradeProposal Amount) (daemon : Mode)
        → get_proposal id s ≡ some row
        → svc.daemon_mode ≡ some daemon
        → daemon ≢ row.mode
        → IsBarred id s
    too_small :
        (row : TradeProposal Amount)
        → get_proposal id s ≡ some row
        → lt (of_int 0) (svc.round_down row.quantity) ≡ false
        → IsBarred id s
    gateway_down :
        (row : TradeProposal Amount) (g : Gateway)
        → get_proposal id s ≡ some row
        → row.mode ≡ live
        → out.live_gateway ≡ some g
        → ensure_live_gateway_ready g out.now svc.live_gateway_wait ≢ some true
        → IsBarred id s

  mode_matches-Fits :
      (daemon : Option Mode) (mode : Mode)
      → mode_matches dec svc out daemon mode ≡ true
      → Fits daemon mode
  mode_matches-Fits none mode h = inl refl
  mode_matches-Fits (some paper) paper h = inr refl
  mode_matches-Fits (some live) live h = inr refl
  mode_matches-Fits (some paper) live h = absurd (ground (arith, h))
  mode_matches-Fits (some live) paper h = absurd (ground (arith, h))

  mode_matches-differ :
      (daemon : Option Mode) (mode : Mode)
      → mode_matches dec svc out daemon mode ≡ false
      → (m : Mode) × (daemon ≡ some m) × (m ≢ mode)
  mode_matches-differ none mode h = absurd (ground (arith, h))
  mode_matches-differ (some paper) paper h = absurd (ground (arith, h))
  mode_matches-differ (some live) live h = absurd (ground (arith, h))
  mode_matches-differ (some paper) live h = (paper, refl, λ e. ground (arith, e))
  mode_matches-differ (some live) paper h = (live, refl, λ e. ground (arith, e))

  is_halted-IsRunning : (s : Desk Amount) → is_halted out s ≡ false → IsRunning s
  unfolding is_halted
  is_halted-IsRunning s h = elim (Option-cases out.kill_switch_reader) [
    | inl e ↦ inl (e, ground (arith, e, h))
    | inr (read active, e) ↦ inr (ground (arith, e, h))
    | inr (read_failed, e) ↦ absurd (ground (arith, e, h))
  ]

  is_halted-IsHalted : (s : Desk Amount) → is_halted out s ≡ true → IsHalted s
  unfolding is_halted
  is_halted-IsHalted s h = elim (Option-cases out.kill_switch_reader) [
    | inl e ↦ inl (e, ground (arith, e, h))
    | inr (read active, e) ↦ inr (inr (ground (arith, e, h)))
    | inr (read_failed, e) ↦ inr (inl e)
  ]

  waited-up : (answer : Option Bool) → waited dec svc out answer ≡ true → answer ≡ some true
  waited-up none h = absurd (ground (arith, h))
  waited-up (some true) h = refl
  waited-up (some false) h = absurd (ground (arith, h))

  gateway_ready-IsUp :
      (row : TradeProposal Amount) (gateway : Option Gateway)
      → gateway_ready dec svc out row gateway ≡ true
      → IsUp row.mode gateway
  unfolding gateway_ready
  gateway_ready-IsUp row none h = inl refl
  gateway_ready-IsUp row (some g) h = elim (mode-cases row.mode) [
    | inl e ↦ inr (inl e)
    | inr e ↦ inr (inr (g, refl, waited-up _ (ground (arith, e, h))))
  ]

  gateway_ready-down :
      (row : TradeProposal Amount) (gateway : Option Gateway)
      → gateway_ready dec svc out row gateway ≡ false
      → (g : Gateway) × (row.mode ≡ live)
        × (gateway ≡ some g)
        × (ensure_live_gateway_ready g out.now svc.live_gateway_wait ≢ some true)
  unfolding gateway_ready
  gateway_ready-down row none h = absurd (ground (arith, h))
  gateway_ready-down row (some g) h = elim (mode-cases row.mode) [
    | inl e ↦ absurd (ground (arith, e, h))
    | inr e ↦ (g, e, refl, λ up. ground (arith, e, h, up))
  ]

  row-barred :
      (id : ℕ) (s : Desk Amount) (row : TradeProposal Amount)
      → get_proposal id s ≡ some row
      → is_executable dec svc out row ≡ false
      → IsBarred id s
  row-barred id s row found h =
      elim (Bool-cases (mode_matches dec svc out svc.daemon_mode row.mode)) [
        | inr differs ↦
            let (m, daemon, differ) = mode_matches-differ svc.daemon_mode row.mode differs in
            wrong_mode row m found daemon differ
        | inl fits ↦ elim (Bool-cases (lt (of_int 0) (svc.round_down row.quantity))) [
          | inr small ↦ too_small row found small
          | inl sized ↦
              let (g, is, wired, down) =
                gateway_ready-down row out.live_gateway (ground (arith, h, fits, sized)) in
              gateway_down row g found is wired down
        ]
      ]

  -- `is_cleared` at the values of its arguments
  cleared_at :
      (existing o : Option (Order Amount)) (halting b : Bool)
      (found f : Option (TradeProposal Amount))
      → existing ≡ o
      → halting ≡ b
      → found ≡ f
      → is_cleared dec svc out o b f ≡ is_cleared dec svc out existing halting found
  cleared_at existing o halting b found f e1 e2 e3 = rw (e1, e2, e3) refl

  pub barred :
      (id : ℕ) (s : Desk Amount)
      → is_cleared dec svc out (get_by_proposal_id id s) (is_halted out s) (get_proposal id s)
        ≡ false
      → IsBarred id s
  unfolding get_by_proposal_id is_order_of
  barred id s h = elim (Option-cases (get_by_proposal_id id s)) [
    | inr (o, e) ↦ ordered (find-some-any (is_order_of id s.trades) s.orders o e)
    | inl e ↦ elim (Bool-cases (is_halted out s)) [
      | inl stopped ↦ halted (is_halted-IsHalted s stopped)
      | inr running ↦ elim (Option-cases (get_proposal id s)) [
        | inl gone ↦ missing gone
        | inr (row, found) ↦ row-barred id s row found (cleared_at _ _ _ _ _ _ e running found ∙ h)
      ]
    ]
  ]

  pub cleared-IsClear :
      (id : ℕ) (s : Desk Amount) (row : TradeProposal Amount)
      → is_cleared dec svc out (get_by_proposal_id id s) (is_halted out s) (get_proposal id s)
        ≡ true
      → get_proposal id s ≡ some row
      → IsClear id s row
  unfolding get_by_proposal_id is_order_of
  cleared-IsClear id s row h found = elim (Option-cases (get_by_proposal_id id s)) [
    | inr (o, e) ↦ absurd (ground (arith, cleared_at _ _ _ _ _ _ e refl refl ∙ h))
    | inl e ↦ elim (Bool-cases (is_halted out s)) [
      | inl stopped ↦ absurd (ground (arith, cleared_at _ _ _ _ _ _ e stopped refl ∙ h))
      | inr running ↦
          let clear : is_executable dec svc out row ≡ true =
            cleared_at _ _ _ _ _ _ e running found ∙ h in
          record {
            unordered = find-any (is_order_of id s.trades) s.orders e;
            running = is_halted-IsRunning s running;
            found = found;
            fits = mode_matches-Fits svc.daemon_mode row.mode (ground (arith, clear));
            sized = ground (arith, clear);
            up = gateway_ready-IsUp row out.live_gateway (ground (arith, clear));
          }
    ]
  ]
