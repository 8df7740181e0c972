-- ===== src/Trading/Desk/Ledger.antt =====
-- How the rows of `trades` and `orders` change: the columns off the append-only whitelist stay, a
-- state moves forward, and rows are only added.
use iguanatrader.Common.{
  ℕ, arith, ◌≡◌, ◌∙◌, refl, ◌≤◌, Bool, some, [], ◌∷◌, List, find, inr, Bool-cases, inl,
}
use iguanatrader.Risk.State.{TradeState, open_state, closing, closed}
use iguanatrader.Trading.Models.{Trade}
use iguanatrader.Trading.Repository.{update_first}

-- open, then closing, then closed
abbrev pub rank : TradeState → ℕ
rank open_state = 0
rank closing = 1
rank closed = 2

module _ {A : Type 0} where
  -- A row after an UPDATE.
  pub record IsLater (t t' : Trade A) : Type 0 where
    pub id_same : t'.id ≡ t.id
    pub proposal_same : t'.proposal_id ≡ t.proposal_id
    pub symbol_same : t'.symbol ≡ t.symbol
    pub side_same : t'.side ≡ t.side
    pub quantity_same : t'.quantity ≡ t.quantity
    pub opened_same : t'.opened_at ≡ t.opened_at
    pub forward : rank t.state ≤ rank t'.state

  pub IsLater-refl : (t : Trade A) → IsLater t t
  IsLater-refl t = record {
    id_same = refl;
    proposal_same = refl;
    symbol_same = refl;
    side_same = refl;
    quantity_same = refl;
    opened_same = refl;
    forward = omega arith;
  }

  pub IsLater-trans : (t t' t'' : Trade A) → IsLater t t' → IsLater t' t'' → IsLater t t''
  IsLater-trans t t' t'' a b = record {
    id_same = b.id_same ∙ a.id_same;
    proposal_same = b.proposal_same ∙ a.proposal_same;
    symbol_same = b.symbol_same ∙ a.symbol_same;
    side_same = b.side_same ∙ a.side_same;
    quantity_same = b.quantity_same ∙ a.quantity_same;
    opened_same = b.opened_same ∙ a.opened_same;
    forward = omega (arith, a.forward, b.forward);
  }

  -- The rows of a table, each more it was or later.
  pub data AreLater : List (Trade A) → List (Trade A) → Type 0 where
    no_rows : AreLater [] []
    later_row :
        {t t' : Trade A} {ts ts' : List (Trade A)}
        → IsLater t t'
        → AreLater ts ts'
        → AreLater (t ∷ ts) (t' ∷ ts')

  -- The same, with rows added in front of them.
  pub data HasGrown : List (Trade A) → List (Trade A) → Type 0 where
    no_more : HasGrown [] []
    moved :
        {t t' : Trade A} {ts ts' : List (Trade A)}
        → IsLater t t'
        → HasGrown ts ts'
        → HasGrown (t ∷ ts) (t' ∷ ts')
    added : {t : Trade A} {ts ts' : List (Trade A)} → HasGrown ts ts' → HasGrown ts (t ∷ ts')

  pub AreLater-refl : (ts : List (Trade A)) → AreLater ts ts
  AreLater-refl [] = no_rows
  AreLater-refl (t ∷ ts) = later_row (IsLater-refl t) (AreLater-refl ts)

  pub HasGrown-refl : (ts : List (Trade A)) → HasGrown ts ts
  HasGrown-refl [] = no_more
  HasGrown-refl (t ∷ ts) = moved (IsLater-refl t) (HasGrown-refl ts)

  pub AreLater-trans :
      {ts ts' ts'' : List (Trade A)} → AreLater ts ts' → AreLater ts' ts'' → AreLater ts ts''
  AreLater-trans no_rows no_rows = no_rows
  AreLater-trans (later_row a more) (later_row b rest) =
      later_row (IsLater-trans _ _ _ a b) (AreLater-trans more rest)

  pub HasGrown-trans :
      (ts'' ts' ts : List (Trade A)) → HasGrown ts ts' → HasGrown ts' ts'' → HasGrown ts ts''
  HasGrown-trans (t'' ∷ ts'') ts' ts a (added b) = added (HasGrown-trans ts'' ts' ts a b)
  HasGrown-trans [] [] [] no_more no_more = no_more
  HasGrown-trans [] [] (t ∷ ts) a b = elim a [ ]
  HasGrown-trans [] (t' ∷ ts') ts a b = elim b [ ]
  HasGrown-trans (t'' ∷ ts'') (t' ∷ ts') (t ∷ ts) (moved a more) (moved b rest) =
      moved (IsLater-trans t t' t'' a b) (HasGrown-trans ts'' ts' ts more rest)
  HasGrown-trans (t'' ∷ ts'') (t' ∷ ts') ts (added a) (moved b rest) =
      added (HasGrown-trans ts'' ts' ts a rest)

  pub AreLater-HasGrown : {ts ts' : List (Trade A)} → AreLater ts ts' → HasGrown ts ts'
  AreLater-HasGrown no_rows = no_more
  AreLater-HasGrown (later_row a more) = moved a (AreLater-HasGrown more)

  -- The UPDATE of the row that a SELECT found, when the row moves forward.
  pub update_first-AreLater :
      (wanted : Trade A → Bool) (change : Trade A → Trade A) (t : Trade A) (ts : List (Trade A))
      → find wanted ts ≡ some t
      → IsLater t (change t)
      → AreLater ts (update_first wanted change ts)
  update_first-AreLater wanted change t [] found h = no_rows
  update_first-AreLater wanted change t (x ∷ xs) found h = elim (Bool-cases (wanted x)) [
    | inl e ↦
        let same : t ≡ x = ground (arith, found, e) in
        rw e (later_row (rw (← same) h) (AreLater-refl xs))
    | inr e ↦ rw e (
        later_row (IsLater-refl x)
          (update_first-AreLater wanted change t xs (ground (arith, found, e)) h))
  ]
