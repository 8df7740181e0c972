-- ===== src/Trading/Daemon/Marks.antt =====
-- What the marks and the orphans are of the positions of the broker, by the list of these alone.
use iguanatrader.Trading.Daemon.Rows.{position_row}
use iguanatrader.Common.{
  any, ◌++◌, str_eq, not, arith, All, ℕ, none, map, false, some, true, refl, ◌≡◌, [], List, ◌∷◌,
  filter, inl, inr, ap, ◌∙◌, Bool-cases, arith, ◌&&◌, Option-cases, String, Bool,
}
use iguanatrader.Decimal.{Decimal, is_zero}
use iguanatrader.Risk.State.{is_live}
use iguanatrader.Trading.Models.{Fill, paper, live, Desk, Mode, Trade}
use iguanatrader.Trading.Repository.{list_fills_for_trade}
use iguanatrader.Trading.Execute.{same_mode}
use iguanatrader.Trading.Daemon.{mark_row, mark_for, Position, is_orphan}

module _ (dec : Decimal) where
  open dec use {Amount}

  -- A live trade of the mode has the marks of the broker's position in its symbol, as of `now`.
  abbrev pub HasMark : Mode → List (Position Amount) → ℕ → Trade Amount → Type 0
  HasMark mode positions now t =
      (pos : Position Amount)
      → (is_live t.state && same_mode t.mode mode) ≡ true
      → mark_for dec positions t.symbol ≡ some pos
      → (t.avg_entry_price ≡ some pos.average_price)
        × (t.unrealized_pnl ≡ some pos.unrealized_pnl)
        × (t.marks_updated_at ≡ some now)

  mark_row-HasMark :
      (mode : Mode) (positions : List (Position Amount)) (now : ℕ) (t : Trade Amount)
      → HasMark mode positions now (mark_row dec mode positions now t)
  mark_row-HasMark mode positions now t =
      elim (Bool-cases (is_live t.state && same_mode t.mode mode)) [
        | inr e ↦ rw e (λ pos l h. absurd (ground (arith, e, l)))
        | inl e ↦ elim (Option-cases (mark_for dec positions t.symbol)) [
          | inl f ↦ rw (e, f) (λ pos l h. absurd (ground (arith, f, h)))
          | inr (pos', f) ↦
              rw (e, f)
                (λ pos l h.
                  let same : pos' ≡ pos = ground (arith, f, h) in
                  (ap (λ p. some p.average_price) same, ap (λ p. some p.unrealized_pnl) same, refl))
        ]
      ]

  pub rows-HasMark :
      (mode : Mode) (positions : List (Position Amount)) (now : ℕ) (s : Desk Amount)
      (ts : List (Trade Amount))
      → All (HasMark mode positions now) (map (position_row dec mode positions now s) ts)
  rows-HasMark mode positions now s [] = tt
  rows-HasMark mode positions now s (t ∷ ts) = (
    elim (Bool-cases (is_orphan dec mode positions s (mark_row dec mode positions now t))) [
      | inl e ↦ rw e (λ pos l h. absurd (ground (arith, l)))
      | inr e ↦ rw e (mark_row-HasMark mode positions now t)
    ],
    rows-HasMark mode positions now s ts,
  )

  -- The position is one of the symbol, and not of zero.
  abbrev pub stands_in : String → Position Amount → Bool
  stands_in symbol p = not (is_zero dec p.quantity) && str_eq p.symbol symbol

  mark_for-none :
      (positions : List (Position Amount)) (symbol : String)
      → any (stands_in symbol) positions ≡ false
      → mark_for dec positions symbol ≡ none
  mark_for-none [] symbol h = refl
  mark_for-none (p ∷ ps) symbol h = elim (Bool-cases (stands_in symbol p)) [
    | inl e ↦ absurd (ground (arith, e, h))
    | inr e ↦ rw (mark_for-none ps symbol (ground (arith, e, h)), e) refl
  ]

  mark_for-last :
      (before after : List (Position Amount)) (pos : Position Amount) (symbol : String)
      → stands_in symbol pos ≡ true
      → any (stands_in symbol) after ≡ false
      → mark_for dec (before ++ pos ∷ after) symbol ≡ some pos
  mark_for-last [] after pos symbol h last = rw (mark_for-none after symbol last, h) refl
  mark_for-last (b ∷ bs) after pos symbol h last =
      rw (mark_for-last bs after pos symbol h last) refl

  same_mode_refl : (mode : Mode) → same_mode mode mode ≡ true
  same_mode_refl paper = refl
  same_mode_refl live = refl

  own_mode : (t : Trade Amount) (mode : Mode) → t.mode ≡ mode → same_mode t.mode mode ≡ true
  own_mode t mode e = rw e (same_mode_refl mode)

  -- A live trade of the mode has the marks of the last position that stands in its symbol.
  abbrev pub IsMarked : Mode → List (Position Amount) → ℕ → Trade Amount → Type 0
  IsMarked mode positions now t =
      (before after : List (Position Amount)) (pos : Position Amount)
      → is_live t.state ≡ true
      → t.mode ≡ mode
      → positions ≡ before ++ pos ∷ after
      → stands_in t.symbol pos ≡ true
      → any (stands_in t.symbol) after ≡ false
      → (t.avg_entry_price ≡ some pos.average_price)
        × (t.unrealized_pnl ≡ some pos.unrealized_pnl)
        × (t.marks_updated_at ≡ some now)

  -- A live trade of the mode with a fill has a position that stands in its symbol.
  abbrev pub IsAccounted : Mode → List (Position Amount) → Desk Amount → Trade Amount → Type 0
  IsAccounted mode positions s t =
      (f : Fill Amount) (fs : List (Fill Amount))
      → is_live t.state ≡ true
      → t.mode ≡ mode
      → list_fills_for_trade t.id s ≡ f ∷ fs
      → any (stands_in t.symbol) positions ≡ true

  pub All-IsMarked :
      (mode : Mode) (positions : List (Position Amount)) (now : ℕ) (ts : List (Trade Amount))
      → All (HasMark mode positions now) ts
      → All (IsMarked mode positions now) ts
  All-IsMarked mode positions now [] h = tt
  All-IsMarked mode positions now (t ∷ ts) (h, hs) = (
    λ before after pos alive own e stands last. h pos (ground (arith, alive, own_mode t mode own)) (
        ap (λ ps. mark_for dec ps t.symbol) e
        ∙ mark_for-last before after pos t.symbol stands last),
    All-IsMarked mode positions now ts hs,
  )

  pub All-IsAccounted :
      (mode : Mode) (positions : List (Position Amount)) (s : Desk Amount)
      (ts : List (Trade Amount))
      → filter (is_orphan dec mode positions s) ts ≡ []
      → All (IsAccounted mode positions s) ts
  All-IsAccounted mode positions s [] h = tt
  All-IsAccounted mode positions s (t ∷ ts) h =
      elim (Bool-cases (is_orphan dec mode positions s t)) [
        | inl e ↦ absurd (ground (arith, e, h))
        | inr e ↦ (
          λ f fs alive own filled. elim (Bool-cases (any (stands_in t.symbol) positions)) [
            | inl there ↦ there
            | inr gone ↦
                let unmarked = mark_for-none positions t.symbol gone in
                let orphan : is_orphan dec mode positions s t ≡ true =
                  rw (alive, own_mode t mode own, unmarked, filled) refl in
                absurd (ground (arith, orphan, e))
          ],
          All-IsAccounted mode positions s ts (ground (arith, e, h)),
        )
      ]
