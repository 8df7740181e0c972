-- ===== src/Risk/Trailing/Ratchet.antt =====
-- The stop of a long trade only rises, what decides its rise, and which bars it is read from.
use iguanatrader.Common.{
  ℕ, ◌≤◌, ◌≡◌, ◌≢◌, refl, ◌⊎◌, inl, inr, true, false, Option, none, some, List, [], ◌∷◌, ◌++◌, All,
  filter-append, arith, Option-cases, ltb,
}
use iguanatrader.Decimal.{Decimal, is_zero, greater, lt_irrefl, greater-left, greater-right}
use iguanatrader.Risk.Models.{Side, buy, sell}
use iguanatrader.Risk.Trailing.{
  Bar, trailed, trigger_not_reached, TradeSnapshot, TrailingStopUpdate, post_entry_bars, keep_stop,
  mean_true_range, ratchet, trail_on, compute_trailing_stop, trail_side, trail_given, highest_close,
}

module _ (dec : Decimal) where
  open dec use {Amount, of_int, sub, mul, div, lt, lt_asymm, lt_cotrans}

  -- An update raises the stop strictly and says so, or leaves it as it was.
  abbrev pub Ratchets : TradeSnapshot Amount → TrailingStopUpdate Amount → Type 0
  Ratchets trade u =
      (u.old_stop ≡ trade.stop_price)
      × ((u.reason ≡ trailed) × (lt trade.stop_price u.new_stop ≡ true)
          ⊎ (u.reason ≢ trailed) × (u.new_stop ≡ trade.stop_price))

  ratchet-Ratchets :
      (trade : TradeSnapshot Amount) (highest mult : Amount) (atr : Option Amount)
      → Ratchets trade (ratchet dec trade highest mult atr)
  unfolding ratchet
  ratchet-Ratchets trade highest mult none = ground arith
  ratchet-Ratchets trade highest mult (some atr) = ground arith

  trail_given-Ratchets :
      (trade : TradeSnapshot Amount) (highest : Amount) (atr : Option Amount)
      (favorable trigger mult : Amount)
      → Ratchets trade (trail_given dec trade highest atr favorable trigger mult)
  unfolding trail_given
  trail_given-Ratchets trade highest atr favorable trigger mult =
      ground (arith, ratchet-Ratchets trade highest mult atr)

  trail_on-Ratchets :
      (trade : TradeSnapshot Amount) (post : List (Bar Amount)) (trigger mult : Amount)
      → is_zero dec trade.entry_price ≡ false
      → (u : TrailingStopUpdate Amount) × (trail_on dec trade post trigger mult ≡ some u)
        × Ratchets trade u
  unfolding trail_on
  trail_on-Ratchets trade [] trigger mult h =
      (keep_stop trade trade.entry_price none trigger_not_reached, refl, ground arith)
  trail_on-Ratchets trade (first ∷ rest) trigger mult h =
      rw h (_, refl, trail_given-Ratchets trade _ _ _ trigger mult)

  trail_side-Ratchets :
      (side : Side) (trade : TradeSnapshot Amount) (bars : List (Bar Amount))
      (trigger mult : Amount)
      → is_zero dec trade.entry_price ≡ false
      → (u : TrailingStopUpdate Amount) × (trail_side dec side trade bars trigger mult ≡ some u)
        × Ratchets trade u
  unfolding trail_side
  trail_side-Ratchets sell trade bars trigger mult h =
      (keep_stop trade trade.entry_price none trigger_not_reached, refl, ground arith)
  trail_side-Ratchets buy trade bars trigger mult h =
      trail_on-Ratchets trade (post_entry_bars trade.opened_at bars) trigger mult h

  -- For a trade whose entry price is not zero the function returns an update, which raises the stop
  -- strictly (reason `trailed`) or leaves it exactly as it was (any other reason).
  pub compute_trailing_stop-Ratchets :
      (trade : TradeSnapshot Amount) (bars : List (Bar Amount)) (trigger mult : Amount)
      → is_zero dec trade.entry_price ≡ false
      → (u : TrailingStopUpdate Amount) × (compute_trailing_stop dec trade bars trigger mult
          ≡ some u)
        × Ratchets trade u
  unfolding compute_trailing_stop
  compute_trailing_stop-Ratchets trade bars trigger mult h =
      trail_side-Ratchets trade.side trade bars trigger mult h

  old_bars :
      (opened_at : ℕ) (old : List (Bar Amount))
      → All (λ b. b.timestamp ≤ opened_at) old
      → post_entry_bars opened_at old ≡ []
  old_bars opened_at [] h = refl
  old_bars opened_at (b ∷ old) h = ground (arith, old_bars opened_at old h.1)

  trail_side-old :
      (side : Side) (trade : TradeSnapshot Amount) (old bars : List (Bar Amount))
      (trigger mult : Amount)
      → All (λ b. b.timestamp ≤ trade.opened_at) old
      → trail_side dec side trade (old ++ bars) trigger mult
        ≡ trail_side dec side trade bars trigger mult
  unfolding trail_side
  trail_side-old sell trade old bars trigger mult h = refl
  trail_side-old buy trade old bars trigger mult h =
      rw (filter-append (λ b. ltb trade.opened_at b.timestamp) old bars)
        (rw (old_bars trade.opened_at old h))

  -- Bars at or before the entry, the entry's own bar among them, change nothing.
  pub compute_trailing_stop-old :
      (trade : TradeSnapshot Amount) (old bars : List (Bar Amount)) (trigger mult : Amount)
      → All (λ b. b.timestamp ≤ trade.opened_at) old
      → compute_trailing_stop dec trade (old ++ bars) trigger mult
        ≡ compute_trailing_stop dec trade bars trigger mult
  unfolding compute_trailing_stop
  compute_trailing_stop-old trade old bars trigger mult h =
      trail_side-old trade.side trade old bars trigger mult h

  -- What a raise rests on, for the bars `post` after the entry.
  pub record Raised (trade : TradeSnapshot Amount) (post : List (Bar Amount))
      (trigger mult : Amount) (u : TrailingStopUpdate Amount) : Type 0 where
    pub long : trade.side ≡ buy
    pub range : Amount
    pub range_known : mean_true_range dec post ≡ some range
    pub atr_reported : u.atr ≡ some range
    pub new_stop_is : u.new_stop ≡ sub u.highest_close_since_entry (mul mult range)
    pub triggered :
        lt (div (sub u.highest_close_since_entry trade.entry_price) trade.entry_price) trigger
        ≡ false

  trail_on-Raised :
      (trade : TradeSnapshot Amount) (post : List (Bar Amount)) (trigger mult : Amount)
      (u : TrailingStopUpdate Amount)
      → trade.side ≡ buy
      → trail_on dec trade post trigger mult ≡ some u
      → u.reason ≡ trailed
      → Raised trade post trigger mult u
  unfolding trail_on trail_given ratchet
  trail_on-Raised trade [] trigger mult u s h r = ground arith
  trail_on-Raised trade (first ∷ rest) trigger mult u s h r =
      elim (Option-cases (mean_true_range dec (first ∷ rest))) [
        | inl e ↦ ground arith
        | inr (range, e) ↦ record {
          long = s;
          range = range;
          range_known = e;
          atr_reported = ground arith;
          new_stop_is = ground arith;
          triggered = ground arith;
        }
      ]

  trail_side-Raised :
      (side : Side) (trade : TradeSnapshot Amount) (bars : List (Bar Amount))
      (trigger mult : Amount) (u : TrailingStopUpdate Amount)
      → trade.side ≡ side
      → trail_side dec side trade bars trigger mult ≡ some u
      → u.reason ≡ trailed
      → Raised trade (post_entry_bars trade.opened_at bars) trigger mult u
  unfolding trail_side
  trail_side-Raised sell trade bars trigger mult u s h r = ground arith
  trail_side-Raised buy trade bars trigger mult u s h r =
      trail_on-Raised trade (post_entry_bars trade.opened_at bars) trigger mult u s h r

  -- A stop is raised only on a long trade that has a true range after its entry and whose best
  -- close has met the trigger; the new stop is the best close less the multiple of the range.
  compute_trailing_stop-Raised :
      (trade : TradeSnapshot Amount) (bars : List (Bar Amount)) (trigger mult : Amount)
      (u : TrailingStopUpdate Amount)
      → compute_trailing_stop dec trade bars trigger mult ≡ some u
      → u.reason ≡ trailed
      → Raised trade (post_entry_bars trade.opened_at bars) trigger mult u
  unfolding compute_trailing_stop
  compute_trailing_stop-Raised trade bars trigger mult u h r =
      trail_side-Raised trade.side trade bars trigger mult u refl h r

  -- `m` is a bar's close.
  abbrev pub IsClose : Amount → List (Bar Amount) → Type 0
  IsClose m [] = ⊥
  IsClose m (b ∷ bs) = (m ≡ b.close) ⊎ IsClose m bs

  highest_close-first :
      (best : Amount) (bs : List (Bar Amount)) → lt (highest_close dec best bs) best ≡ false
  unfolding highest_close
  highest_close-first best [] = lt_irrefl dec best
  highest_close-first best (b ∷ bs) =
      lt_cotrans _ _ _ (highest_close-first (greater dec best b.close) bs)
        (greater-left dec best b.close)

  highest_close-All :
      (best : Amount) (bs : List (Bar Amount))
      → All (λ b. lt (highest_close dec best bs) b.close ≡ false) bs
  unfolding highest_close
  highest_close-All best [] = tt
  highest_close-All best (b ∷ bs) = (
    lt_cotrans _ _ _ (highest_close-first (greater dec best b.close) bs)
        (greater-right dec best b.close),
    highest_close-All (greater dec best b.close) bs,
  )

  highest_close-attained :
      (best : Amount) (bs : List (Bar Amount))
      → (highest_close dec best bs ≡ best) ⊎ IsClose (highest_close dec best bs) bs
  unfolding highest_close
  highest_close-attained best [] = inl refl
  highest_close-attained best (b ∷ bs) =
      ground (arith, highest_close-attained (greater dec best b.close) bs)

  -- Over a window of at least one bar, the high water mark is the close of one of its bars, and no
  -- close lies above it.
  pub highest_close-peak :
      (first : Bar Amount) (rest : List (Bar Amount))
      → let peak = highest_close dec first.close rest in
        IsClose peak (first ∷ rest) × All (λ b. lt peak b.close ≡ false) (first ∷ rest)
  highest_close-peak first rest = (
    highest_close-attained first.close rest,
    (highest_close-first first.close rest, highest_close-All first.close rest),
  )
