-- ===== src/Trading/Daemon/Rows.antt =====
-- One row of `trades` in the reconciliation with the broker's positions.
use iguanatrader.Common.{
  ℕ, none, if◌then◌else◌, map, false, some, true, refl, ◌≡◌, [], List, ◌∷◌, inl, inr, Bool-cases,
  arith, ◌&&◌, Option-cases, ◌⊎◌,
}
use iguanatrader.Decimal.{Decimal}
use iguanatrader.Risk.State.{closed, is_live}
use iguanatrader.Trading.Models.{Desk, Mode, Trade}
use iguanatrader.Trading.Repository.{with_exit}
use iguanatrader.Trading.Execute.{same_mode}
use iguanatrader.Trading.Daemon.{
  mark_row, marked, mark_for, Position, is_orphan, orphan_row, with_exit,
}
use iguanatrader.Trading.Desk.Ledger.{IsLater, IsLater-refl, AreLater, no_rows, later_row}
use iguanatrader.Trading.Desk.Fills.{closed_rank}

module _ (dec : Decimal) where
  open dec use {Amount}

  pub map-AreLater :
      (f : Trade Amount → Trade Amount)
      → ((t : Trade Amount) → IsLater t (f t))
      → (ts : List (Trade Amount)) → AreLater ts (map f ts)
  map-AreLater f h [] = no_rows
  map-AreLater f h (t ∷ ts) = later_row (h t) (map-AreLater f h ts)

  pub orphan_row-IsLater :
      (mode : Mode) (positions : List (Position Amount)) (now : ℕ) (s : Desk Amount)
      (t : Trade Amount)
      → IsLater t (orphan_row dec mode positions now s t)
  orphan_row-IsLater mode positions now s t =
      elim (is_orphan dec mode positions s t)
        as (λ b.
          IsLater t (if b then with_exit closed (some now) (some "ibkr_reconcile") none t else t)) [
            | true ↦ record {
              id_same = refl;
              proposal_same = refl;
              symbol_same = refl;
              side_same = refl;
              quantity_same = refl;
              opened_same = refl;
              forward = closed_rank t.state;
            }
            | false ↦ IsLater-refl t
          ]

  pub mark_row-cases :
      (mode : Mode) (positions : List (Position Amount)) (t : Trade Amount)
      → ((n : ℕ) → mark_row dec mode positions n t ≡ t)
        ⊎ ((pos : Position Amount) × ((n : ℕ)
              → mark_row dec mode positions n t ≡ marked dec n pos t)
            × ((n m : ℕ) → mark_row dec mode positions m (marked dec n pos t) ≡ marked dec m pos t))
  mark_row-cases mode positions t = elim (Bool-cases (is_live t.state && same_mode t.mode mode)) [
    | inr e ↦ inl (λ n. rw e refl)
    | inl e ↦ elim (Option-cases (mark_for dec positions t.symbol)) [
      | inl f ↦ inl (λ n. rw (e, f) refl)
      | inr (pos, f) ↦ inr (pos, (λ n. rw (e, f) refl), λ n m. rw (e, f) refl)
    ]
  ]

  pub mark_row-IsLater :
      (mode : Mode) (positions : List (Position Amount)) (now : ℕ) (t : Trade Amount)
      → IsLater t (mark_row dec mode positions now t)
  mark_row-IsLater mode positions now t = elim (mark_row-cases mode positions t) [
    | inl same ↦ rw (same now) (IsLater-refl t)
    | inr (pos, now_marked, again) ↦ rw (now_marked now) (record {
      id_same = refl;
      proposal_same = refl;
      symbol_same = refl;
      side_same = refl;
      quantity_same = refl;
      opened_same = refl;
      forward = omega arith;
    })
  ]

  -- both loops, for one row
  abbrev pub position_row :
      Mode → List (Position Amount) → ℕ → Desk Amount → Trade Amount → Trade Amount
  position_row mode positions now s t =
      orphan_row dec mode positions now s (mark_row dec mode positions now t)
