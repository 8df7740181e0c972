-- ===== src/Trading/Daemon/Positions.antt =====
-- The reconciliation with the broker's positions, done once and twice.
use iguanatrader.Trading.Daemon.Marks.{
  IsMarked, IsAccounted, rows-HasMark, All-IsMarked, All-IsAccounted,
}
use iguanatrader.Trading.Daemon.Rows.{mark_row-cases, position_row}
use iguanatrader.Risk.State.{TradeState}
use iguanatrader.Common.{
  ◌≢◌, ◌⊎◌, arith, All, ℕ, none, map, false, refl, ◌≡◌, [], List, ◌∷◌, filter, inl, inr, ap, ◌∙◌,
  Bool-cases, sym, subst, Bool, true,
}
use iguanatrader.Decimal.{Decimal}
use iguanatrader.Trading.Models.{Fill, Desk, Mode, Trade}
use iguanatrader.Trading.Repository.{list_fills_for_trade}
use iguanatrader.Trading.Daemon.{
  mark_row, marked, Position, is_orphan, reconcile_positions, orphan_row,
}

module _ (dec : Decimal) where
  open dec use {Amount}

  orphan_same :
      (mode : Mode) (positions : List (Position Amount)) (s s' : Desk Amount) (t : Trade Amount)
      → s'.fills ≡ s.fills
      → s'.orders ≡ s.orders
      → is_orphan dec mode positions s' t ≡ is_orphan dec mode positions s t
  unfolding list_fills_for_trade
  orphan_same mode positions s s' t f o = rw (f, o) refl

  -- a row without the time of its marks
  abbrev pub untimed : Trade Amount → Trade Amount
  untimed t = record t { marks_updated_at = none }

  -- The row is no orphan, and a second reconciliation gives it the marks that it has.
  abbrev IsSettled : Mode → List (Position Amount) → ℕ → ℕ → Desk Amount → Trade Amount → Type 0
  IsSettled mode positions now now' s' t' =
      (is_orphan dec mode positions s' t' ≡ false)
      × (position_row dec mode positions now s' t' ≡ t')
      × (untimed (position_row dec mode positions now' s' t') ≡ untimed t')

  no_orphan :
      (mode : Mode) (positions : List (Position Amount)) (now : ℕ) (s : Desk Amount)
      (t t' : Trade Amount)
      → mark_row dec mode positions now t ≡ t'
      → is_orphan dec mode positions s t' ≡ false
      → position_row dec mode positions now s t ≡ t'
  no_orphan mode positions now s t t' e h = rw (e, h) refl

  position_row-IsSettled :
      (mode : Mode) (positions : List (Position Amount)) (now now' : ℕ) (s s' : Desk Amount)
      (t : Trade Amount)
      → s'.fills ≡ s.fills
      → s'.orders ≡ s.orders
      → IsSettled mode positions now now' s' (position_row dec mode positions now s t)
  position_row-IsSettled mode positions now now' s s' t f o =
      elim (Bool-cases (is_orphan dec mode positions s (mark_row dec mode positions now t))) [
        | inl e ↦ rw e (refl, refl, refl)
        | inr e ↦ elim (mark_row-cases dec mode positions t) [
          | inl same ↦
              let own : is_orphan dec mode positions s t ≡ false = rw (← same now) e in
              let still = orphan_same mode positions s s' t f o ∙ own in
              subst (IsSettled mode positions now now' s')
                (sym (no_orphan mode positions now s t t (same now) own))
                (
                  still,
                  no_orphan mode positions now s' t t (same now) still,
                  ap untimed (no_orphan mode positions now' s' t t (same now') still),
                )
          | inr (pos, at, again) ↦
              let row = marked dec now pos t in
              let own : is_orphan dec mode positions s row ≡ false =
                sym (ap (is_orphan dec mode positions s) (at now)) ∙ e in
              let still = orphan_same mode positions s s' row f o ∙ own in
              subst (IsSettled mode positions now now' s')
                (sym (no_orphan mode positions now s t row (at now) own))
                (
                  still,
                  no_orphan mode positions now s' row row (again now now) still,
                  ap untimed (
                      no_orphan mode positions now' s' row (marked dec now' pos t) (again now now')
                        still),
                )
        ]
      ]

  rows_settled :
      (mode : Mode) (positions : List (Position Amount)) (now now' : ℕ) (s s' : Desk Amount)
      (ts : List (Trade Amount))
      → s'.fills ≡ s.fills
      → s'.orders ≡ s.orders
      → let ts' = map (position_row dec mode positions now s) ts in
        (filter (is_orphan dec mode positions s') ts' ≡ [])
        × (map (position_row dec mode positions now s') ts' ≡ ts')
        × (map untimed (map (position_row dec mode positions now' s') ts') ≡ map untimed ts')
  rows_settled mode positions now now' s s' [] f o = (refl, refl, refl)
  rows_settled mode positions now now' s s' (t ∷ ts) f o =
      let (none_left, same, marks) = rows_settled mode positions now now' s s' ts f o in
      let (here, kept, timed) = position_row-IsSettled mode positions now now' s s' t f o in
      (rw here none_left, rw (kept, same) refl, rw (timed, marks) refl)

  -- the desk without the times of the marks
  abbrev pub untimed_desk : Desk Amount → Desk Amount
  untimed_desk s = record s { trades = map untimed s.trades }

  abbrev pub no_fills : List (Fill Amount) → Bool
  no_fills [] = true
  no_fills (f ∷ fs) = false

  -- the states of the trades without a fill
  abbrev pub unfilled_states : Desk Amount → List (Trade Amount) → List TradeState
  unfilled_states s ts =
      map (λ t. t.state) (filter (λ t. no_fills (list_fills_for_trade t.id s)) ts)

  mark_row-same :
      (mode : Mode) (positions : List (Position Amount)) (now : ℕ) (t : Trade Amount)
      → ((mark_row dec mode positions now t).id ≡ t.id)
        × ((mark_row dec mode positions now t).state ≡ t.state)
  mark_row-same mode positions now t = elim (mark_row-cases dec mode positions t) [
    | inl same ↦ rw (same now) (refl, refl)
    | inr (pos, at, again) ↦ rw (at now) (refl, refl)
  ]

  fills_cases :
      (fs : List (Fill Amount))
      → (fs ≡ []) ⊎ ((g : Fill Amount) × (gs : List (Fill Amount)) × (fs ≡ g ∷ gs))
  fills_cases [] = inl refl
  fills_cases (g ∷ gs) = inr (g, gs, refl)

  unfilled_kept :
      (mode : Mode) (positions : List (Position Amount)) (s : Desk Amount) (t : Trade Amount)
      → no_fills (list_fills_for_trade t.id s) ≡ true
      → is_orphan dec mode positions s t ≢ true
  unfilled_kept mode positions s t h e = elim (fills_cases (list_fills_for_trade t.id s)) [
    | inl none_filled ↦ ground (arith, e, none_filled)
    | inr (f, fs, filled) ↦ ground (arith, h, filled)
  ]

  orphan_row-same :
      (mode : Mode) (positions : List (Position Amount)) (now : ℕ) (s : Desk Amount)
      (t : Trade Amount)
      → ((orphan_row dec mode positions now s t).id ≡ t.id)
        × (no_fills (list_fills_for_trade t.id s) ≡ true
            → (orphan_row dec mode positions now s t).state ≡ t.state)
  orphan_row-same mode positions now s t = elim (Bool-cases (is_orphan dec mode positions s t)) [
    | inr e ↦ rw e (refl, λ h. refl)
    | inl e ↦ rw e (refl, λ h. absurd (unfilled_kept mode positions s t h e))
  ]

  unfilled_cons :
      (s : Desk Amount) (t u : Trade Amount) (ts us : List (Trade Amount))
      → u.id ≡ t.id
      → (no_fills (list_fills_for_trade t.id s) ≡ true → u.state ≡ t.state)
      → unfilled_states s us ≡ unfilled_states s ts
      → unfilled_states s (u ∷ us) ≡ unfilled_states s (t ∷ ts)
  unfilled_cons s t u ts us e same rest =
      elim (Bool-cases (no_fills (list_fills_for_trade t.id s))) [
        | inl h ↦ rw (e, h, same h, rest) refl
        | inr h ↦ rw (e, h) rest
      ]

  rows_unfilled :
      (mode : Mode) (positions : List (Position Amount)) (now : ℕ) (s : Desk Amount)
      (ts : List (Trade Amount))
      → unfilled_states s (map (position_row dec mode positions now s) ts) ≡ unfilled_states s ts
  rows_unfilled mode positions now s [] = refl
  rows_unfilled mode positions now s (t ∷ ts) =
      let (id_same, state_same) = mark_row-same mode positions now t in
      let (id_kept, state_kept) =
        orphan_row-same mode positions now s (mark_row dec mode positions now t) in
      unfilled_cons s t _ ts _ (id_kept ∙ id_same)
        (λ h. state_kept (ap (λ i. no_fills (list_fills_for_trade i s)) id_same ∙ h) ∙ state_same)
        (rows_unfilled mode positions now s ts)

  -- After the reconciliation with the broker's positions, of which those of zero do not count, each
  -- live trade of the mode with a fill has a position in its symbol, and each live trade of the mode
  -- in whose symbol there is a position has the marks of the last one, as of now; a trade without a
  -- fill keeps its state. A second one with the same positions changes nothing at the same time, and
  -- at any other time nothing but the times of the marks.
  pub reconcile_positions-again :
      (mode : Mode) (positions : List (Position Amount)) (now now' : ℕ) (s : Desk Amount)
      → let s' = reconcile_positions dec mode positions now s in
        All (IsAccounted dec mode positions s') s'.trades
        × All (IsMarked dec mode positions now) s'.trades
        × (unfilled_states s s'.trades ≡ unfilled_states s s.trades)
        × (reconcile_positions dec mode positions now s' ≡ s')
        × (untimed_desk (reconcile_positions dec mode positions now' s') ≡ untimed_desk s')
  unfolding reconcile_positions
  reconcile_positions-again mode positions now now' s =
      let s' : Desk Amount = record s {
        trades = map (position_row dec mode positions now s) s.trades;
      } in
      let (none_left, same, marks) = rows_settled mode positions now now' s s' s.trades refl refl in
      (
        All-IsAccounted dec mode positions s' s'.trades none_left,
        All-IsMarked dec mode positions now s'.trades
            (rows-HasMark dec mode positions now s s.trades),
        rows_unfilled mode positions now s s.trades,
        ap (λ ts. record s { trades = ts }) same,
        ap (λ ts. record s { trades = ts }) marks,
      )
