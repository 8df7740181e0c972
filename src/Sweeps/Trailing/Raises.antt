-- ===== src/Sweeps/Trailing/Raises.antt =====
-- The stops that the trailing sweep records never fall.
use iguanatrader.Common.{
  ℕ, String, subst, arith, some, List, false, none, Option, ◌≡◌, inr, ◌∷◌, length, ◌==◌, true, find,
  ==_iff, [], refl, inl, Bool-cases,
}
use iguanatrader.Decimal.{Decimal, is_zero, lt_irrefl}
use iguanatrader.Risk.Models.{RiskCaps, Side, buy, sell}
use iguanatrader.Risk.Trailing.{
  Bar, TradeSnapshot, TrailingStopUpdate, TrailingStopReason, trailed, no_update,
  trigger_not_reached, compute_trailing_stop, trail_on, post_entry_bars, trail_side,
}
use iguanatrader.Risk.Trailing.Ratchet.{Ratchets, compute_trailing_stop-Ratchets}
use iguanatrader.Trading.Models.{Desk, Trade, TradeProposal}
use iguanatrader.Trading.Repository.{get_proposal}
use iguanatrader.Sweeps.Trailing.{
  TrailingStopAudit, TrailingStopSweepResult, get_latest_for_trade, stop_from, audited, updated,
  sweep_read, sweep_one, sweep_trades, sweep_if, sweep, list_open_trades, counted,
}

module _ (dec : Decimal) where
  open dec use {Amount, lt, lt_asymm, lt_cotrans}

  -- The latest row of a trade stays or is followed by one whose stop is not lower.
  abbrev pub Raises : Option (TrailingStopAudit Amount) → Option (TrailingStopAudit Amount) → Type 0
  Raises none after = Unit
  Raises (some a) none = ⊥
  Raises (some a) (some b) = lt b.new_stop a.new_stop ≡ false

  Raises-refl : (a : Option (TrailingStopAudit Amount)) → Raises a a
  Raises-refl none = tt
  Raises-refl (some a) = lt_irrefl dec a.new_stop

  Raises-trans : (a b c : Option (TrailingStopAudit Amount)) → Raises a b → Raises b c → Raises a c
  Raises-trans none b c h k = tt
  Raises-trans (some a) (some b) (some c) h k = lt_cotrans c.new_stop b.new_stop a.new_stop k h
  Raises-trans (some a) none c h k = absurd h
  Raises-trans (some a) (some b) none h k = absurd k

  zero_side :
      (side : Side) (trade : TradeSnapshot Amount) (post bars : List (Bar Amount))
      (trigger mult : Amount) (u : TrailingStopUpdate Amount)
      → post_entry_bars trade.opened_at bars ≡ post
      → trail_side dec side trade bars trigger mult ≡ some u
      → is_zero dec trade.entry_price ≡ true
      → Ratchets dec trade u
  unfolding trail_side trail_on
  zero_side sell trade post bars trigger mult u e h is_nil = ground (arith, h)
  zero_side buy trade [] bars trigger mult u e h is_nil = ground (arith, h, e)
  zero_side buy trade (first ∷ rest) bars trigger mult u e h is_nil =
      absurd (ground (arith, h, e, is_nil))

  -- what the function returns ratchets, also where the entry price is zero
  some-Ratchets :
      (trade : TradeSnapshot Amount) (bars : List (Bar Amount)) (trigger mult : Amount)
      (u : TrailingStopUpdate Amount)
      → compute_trailing_stop dec trade bars trigger mult ≡ some u
      → Ratchets dec trade u
  unfolding compute_trailing_stop
  some-Ratchets trade bars trigger mult u h = elim (Bool-cases (is_zero dec trade.entry_price)) [
    | inl nil ↦
        zero_side trade.side trade (post_entry_bars trade.opened_at bars) bars trigger mult u refl h
          nil
    | inr nonzero ↦
        let (u', e, ratchets) =
          compute_trailing_stop-Ratchets dec trade bars trigger mult nonzero in
        let same : u' ≡ u = ground (arith, e, h) in subst (Ratchets dec trade) same ratchets
  ]

  -- a stop above the latest one
  above-Raises :
      (latest : Option (TrailingStopAudit Amount)) (row : TrailingStopAudit Amount)
      (stop_price : Amount)
      → lt (stop_from latest stop_price) row.new_stop ≡ true
      → Raises latest (some row)
  above-Raises none row stop_price h = tt
  above-Raises (some a) row stop_price h = lt_asymm a.new_stop row.new_stop h

  above :
      (trade : TradeSnapshot Amount) (update : TrailingStopUpdate Amount)
      → update.reason ≡ trailed
      → Ratchets dec trade update
      → lt trade.stop_price update.new_stop ≡ true
  above trade update e (old, inl (r, up)) = up
  above trade update e (old, inr (r, same)) = absurd (r e)

  -- a row that trails, before the rows of before
  audited-Raises :
      (id trade_id now bars : ℕ) (trade : TradeSnapshot Amount) (update : TrailingStopUpdate Amount)
      (stop_price : Amount) (reason : TrailingStopReason) (audits : List (TrailingStopAudit Amount))
      → update.reason ≡ reason
      → trade.stop_price ≡ stop_from (get_latest_for_trade trade_id audits) stop_price
      → Ratchets dec trade update
      → Raises
          (get_latest_for_trade id audits)
          (get_latest_for_trade id (audited dec trade_id now bars update reason audits))
  unfolding get_latest_for_trade
  audited-Raises id trade_id now bars trade update stop_price no_update audits e st r =
      Raises-refl _
  audited-Raises id trade_id now bars trade update stop_price trigger_not_reached audits e st r =
      Raises-refl _
  audited-Raises id trade_id now bars trade update stop_price trailed audits e st r =
      let row : TrailingStopAudit Amount = record {
        trade_id = trade_id;
        swept_at = now;
        old_stop = update.old_stop;
        new_stop = update.new_stop;
        highest_close_since_entry = update.highest_close_since_entry;
        bars_evaluated = bars;
      } in
      let up : lt (stop_from (find (λ a. a.trade_id == trade_id) audits) stop_price) update.new_stop
          ≡ true =
        rw (← st) (above trade update e r) in
      elim (Bool-cases (trade_id == id)) [
        | inl same ↦ rw same (
            subst (λ i. Raises (find (λ a. a.trade_id == i) audits) (some row))
              ((==_iff trade_id id).0 same)
              (above-Raises (find (λ a. a.trade_id == trade_id) audits) row stop_price up))
        | inr other ↦ rw other (Raises-refl (find (λ a. a.trade_id == id) audits))
      ]

  updated-Raises :
      (id trade_id now bars : ℕ) (trade : TradeSnapshot Amount) (stop_price : Amount)
      (computed : Option (TrailingStopUpdate Amount)) (audits : List (TrailingStopAudit Amount))
      → trade.stop_price ≡ stop_from (get_latest_for_trade trade_id audits) stop_price
      → ((u : TrailingStopUpdate Amount) → computed ≡ some u → Ratchets dec trade u)
      → Raises
          (get_latest_for_trade id audits)
          (get_latest_for_trade id (updated dec trade_id now bars computed audits).1)
  updated-Raises id trade_id now bars trade stop_price none audits st h = Raises-refl _
  updated-Raises id trade_id now bars trade stop_price (some u) audits st h =
      audited-Raises id trade_id now bars trade u stop_price u.reason audits refl st (h u refl)

  sweep_read-Raises :
      (id : ℕ) (caps : RiskCaps Amount) (trigger : Amount) (now : ℕ) (trade : Trade Amount)
      (proposal : Option (TradeProposal Amount)) (bars : Option (List (Bar Amount)))
      (audits : List (TrailingStopAudit Amount))
      → Raises
          (get_latest_for_trade id audits)
          (get_latest_for_trade id (sweep_read dec caps trigger now trade proposal bars audits).1)
  sweep_read-Raises id caps trigger now trade none bars audits = Raises-refl _
  sweep_read-Raises id caps trigger now trade (some proposal) none audits = Raises-refl _
  sweep_read-Raises id caps trigger now trade (some proposal) (some bars) audits =
      let snapshot : TradeSnapshot Amount = record {
        trade_id = trade.id;
        side = trade.side;
        entry_price = proposal.entry_price_indicative;
        stop_price = stop_from (get_latest_for_trade trade.id audits) proposal.stop_price;
        opened_at = trade.opened_at;
      } in
      updated-Raises id trade.id now (length bars) snapshot proposal.stop_price
        (compute_trailing_stop dec snapshot bars trigger caps.trail_atr_mult) audits refl
        (λ u h. some-Ratchets snapshot bars trigger caps.trail_atr_mult u h)

  sweep_trades-Raises :
      (id : ℕ) (caps : RiskCaps Amount) (trigger : Amount)
      (get_bars : String → Option (List (Bar Amount))) (now : ℕ) (s : Desk Amount)
      (ts : List (Trade Amount)) (r : TrailingStopSweepResult)
      (audits : List (TrailingStopAudit Amount))
      → Raises
          (get_latest_for_trade id audits)
          (get_latest_for_trade id (sweep_trades dec caps trigger get_bars now s ts r audits).1)
  unfolding sweep_trades sweep_one
  sweep_trades-Raises id caps trigger get_bars now s [] r audits = Raises-refl _
  sweep_trades-Raises id caps trigger get_bars now s (t ∷ ts) r audits =
      let done = sweep_one dec caps trigger get_bars now s t audits in
      Raises-trans (get_latest_for_trade id audits) (get_latest_for_trade id done.1) _
        (sweep_read-Raises id caps trigger now t (get_proposal t.proposal_id s) (get_bars t.symbol)
          audits)
        (sweep_trades-Raises id caps trigger get_bars now s ts (counted done.0 r) done.1)

  sweep_if-Raises :
      (id : ℕ) (trigger : Option Amount) (caps : RiskCaps Amount)
      (get_bars : String → Option (List (Bar Amount))) (now : ℕ) (s : Desk Amount)
      (audits : List (TrailingStopAudit Amount))
      → Raises
          (get_latest_for_trade id audits)
          (get_latest_for_trade id (sweep_if dec trigger caps get_bars now s audits).1)
  sweep_if-Raises id none caps get_bars now s audits = Raises-refl _
  sweep_if-Raises id (some trigger) caps get_bars now s audits =
      sweep_trades-Raises id caps trigger get_bars now s (list_open_trades s) _ audits

  -- one tick of the sweep: what it reads
  pub record SweepTick : Type 0 where
    pub caps : RiskCaps Amount
    pub get_bars : String → Option (List (Bar Amount))
    pub now : ℕ
    pub desk : Desk Amount

  abbrev pub sweeps :
      List SweepTick → List (TrailingStopAudit Amount) → List (TrailingStopAudit Amount)
  sweeps [] audits = audits
  sweeps (k ∷ ks) audits = sweeps ks (sweep dec k.caps k.get_bars k.now k.desk audits).1

  -- Over any ticks of the trailing sweep, with whatever caps, bars and trades each finds, and with
  -- the exceptions of single trades: the stop that is recorded last for a trade never falls.
  pub sweeps-Raises :
      (id : ℕ) (ticks : List SweepTick) (audits : List (TrailingStopAudit Amount))
      → Raises (get_latest_for_trade id audits) (get_latest_for_trade id (sweeps ticks audits))
  unfolding sweep
  sweeps-Raises id [] audits = Raises-refl _
  sweeps-Raises id (k ∷ ks) audits =
      let audits' = (sweep dec k.caps k.get_bars k.now k.desk audits).1 in
      Raises-trans (get_latest_for_trade id audits) (get_latest_for_trade id audits')
        (get_latest_for_trade id (sweeps ks audits'))
        (sweep_if-Raises id k.caps.trail_trigger_pct k.caps k.get_bars k.now k.desk audits)
        (sweeps-Raises id ks audits')
