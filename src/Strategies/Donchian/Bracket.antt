-- ===== src/Strategies/Donchian/Bracket.antt =====
-- What the Donchian strategy proposes: an order bracket with its levels on their sides, at the
-- last close that it is shown.
use iguanatrader.Common.{
  ◌≡◌, refl, true, false, List, [], ◌∷◌, ◌++◌, Option, none, some, All, length, ltb, ◌+◌, ◌≤◌,
  arith, Bool, Bool-cases, inl, inr, String, Option-cases, ◌⊎◌,
}
use iguanatrader.Decimal.{Decimal, abs}
use iguanatrader.Risk.Models.{Side, buy, sell}
use iguanatrader.Risk.Trailing.{Bar}
use iguanatrader.Trading.Propose.{Proposal}
use iguanatrader.Strategies.Donchian.{
  StrategyConfigSnapshot, Signal, no_signal, proposed, init, last, window, max_high, min_low,
  direction, is_degenerate, wrong_side, propose_bracket, propose_atr, propose_break,
  compute_signal_impl, validate_history, evaluate, compute_atr, stop_at, target_at, to_decimal,
  last_n,
}
use iguanatrader.Strategies.Sizing.{calculate_quantity}
use iguanatrader.Strategies.Donchian.Window.{
  init-snoc, last-cons, window-cons, max_high-All, min_low-All,
}

module _ (dec : Decimal) where
  open dec use {Amount, of_int, sub, mul, div, lt, lt_asymm, lt_cotrans}

  -- `entry` is below no high of the channel, or above no low of it.
  abbrev pub IsBreak : Side → Amount → List (Bar Amount) → Type 0
  IsBreak buy entry = All (λ b. lt entry b.high ≡ false)
  IsBreak sell entry = All (λ b. lt b.low entry ≡ false)

  -- the profit side of `entry`
  abbrev pub IsAhead : Side → Amount → Amount → Type 0
  IsAhead buy entry target = lt entry target ≡ true
  IsAhead sell entry target = lt target entry ≡ true

  pub record IsBracket (side : Side) (entry stop target : Amount) : Type 0 where
    pub apart : lt (of_int 0) (abs dec (sub entry stop)) ≡ true
    pub stop_positive : lt (of_int 0) stop ≡ true
    pub target_positive : lt (of_int 0) target ≡ true
    pub ahead : IsAhead side entry target

  -- a proposal on the break of `channel` by the close of `latest`
  pub record IsSound (latest : Bar Amount) (channel : List (Bar Amount)) (p : Proposal Amount)
      : Type 0 where
    pub entry : p.entry_price_indicative ≡ latest.close
    pub some_shares : lt (of_int 0) p.quantity ≡ true
    pub bracket :
        (target : Amount) × (p.target_price ≡ some target)
        × IsBracket p.side latest.close p.stop_price target
    pub break : IsBreak p.side latest.close channel

  -- either no signal or a sound proposal, and no exception
  pub data IsSignal (latest : Bar Amount) (channel : List (Bar Amount))
      : Signal Amount → Type 0 where
    quiet : IsSignal latest channel no_signal
    sound : (p : Proposal Amount) → IsSound latest channel p → IsSignal latest channel (proposed p)

  not_wrong :
      (side : Side) (entry target : Amount)
      → wrong_side dec side entry target ≡ false
      → IsAhead side entry target
  not_wrong buy entry target h = ground (arith, h)
  not_wrong sell entry target h = ground (arith, h)

  is_degenerate-IsBracket :
      (side : Side) (entry stop target : Amount)
      → is_degenerate dec side entry stop target ≡ false
      → IsBracket side entry stop target
  unfolding is_degenerate
  is_degenerate-IsBracket side entry stop target h = record {
    apart = ground (arith, h);
    stop_positive = ground (arith, h);
    target_positive = ground (arith, h);
    ahead = not_wrong side entry target (ground (arith, h));
  }

  module _ (to_integral : Amount → Amount) (symbol : String)
      (config : StrategyConfigSnapshot Amount) (latest : Bar Amount)
      (channel : List (Bar Amount)) where
    propose_bracket-IsSignal :
        (side : Side) (stop target : Amount)
        → IsBreak side latest.close channel
        → IsSignal latest channel
            (propose_bracket dec to_integral symbol config side latest.close stop target)
    unfolding propose_bracket
    propose_bracket-IsSignal side stop target h =
        let quantity =
          calculate_quantity dec to_integral config.sizing_mode latest.close stop
            (to_decimal config.risk_pct (div (of_int 1) (of_int 100)))
            (to_decimal config.equity (of_int 10000)) (to_decimal config.target_cash (of_int 0)) in
        elim (Bool-cases (is_degenerate dec side latest.close stop target)) [
          | inl e ↦ rw e quiet
          | inr e ↦ elim (Bool-cases (lt (of_int 0) quantity)) [
            | inr none_bought ↦ rw (e, none_bought) quiet
            | inl bought ↦
                rw (e, bought)
                  (sound _ (record {
                    entry = refl;
                    some_shares = bought;
                    bracket =
                        (target, refl, is_degenerate-IsBracket side latest.close stop target e);
                    break = h;
                  }))
          ]
        ]

    propose_atr-IsSignal :
        (side : Side) (atr : Option Amount)
        → IsBreak side latest.close channel
        → IsSignal latest channel (propose_atr dec to_integral symbol config side latest.close atr)
    unfolding propose_atr
    propose_atr-IsSignal side none h = quiet
    propose_atr-IsSignal side (some atr) h = elim (Bool-cases (lt (of_int 0) atr)) [
      | inr e ↦ rw e quiet
      | inl e ↦ rw e (
          propose_bracket-IsSignal side
            (stop_at dec side latest.close (mul (to_decimal config.atr_mult (of_int 2)) atr))
            (target_at dec side latest.close (mul (to_decimal config.target_mult (of_int 3)) atr))
            h)
    ]

  All-map :
      {P Q : Bar Amount → Type 0}
      → ((b : Bar Amount) → P b → Q b)
      → (bars : List (Bar Amount)) → All P bars
      → All Q bars
  All-map f [] h = tt
  All-map f (b ∷ bs) (h, hs) = (f b h, All-map f bs hs)

  direction-IsBreak :
      (close : Amount) (w : Bar Amount) (ws : List (Bar Amount)) (side : Side)
      → direction dec close (max_high dec w.high ws) (min_low dec w.low ws) ≡ some side
      → IsBreak side close (w ∷ ws)
  unfolding direction
  direction-IsBreak close w ws buy h =
      let top = max_high dec w.high ws in
      let (up, rest) = max_high-All dec w.high ws in
      let over : lt close top ≡ false = ground (arith, h) in
      (
        lt_cotrans close top w.high over up,
        All-map (λ b k. lt_cotrans close top b.high over k) ws rest,
      )
  direction-IsBreak close w ws sell h =
      let bottom = min_low dec w.low ws in
      let (up, rest) = min_low-All dec w.low ws in
      let under : lt bottom close ≡ false = ground (arith, h) in
      (
        lt_cotrans w.low bottom close up under,
        All-map (λ b k. lt_cotrans b.low bottom close k under) ws rest,
      )

  module _ (to_integral : Amount → Amount) (symbol : String)
      (config : StrategyConfigSnapshot Amount) where
    propose_break-IsSignal :
        (bars : List (Bar Amount)) (latest w : Bar Amount) (ws : List (Bar Amount))
        → IsSignal latest
            (w ∷ ws)
            (propose_break dec to_integral symbol config bars (some latest) (w ∷ ws))
    propose_break-IsSignal bars latest w ws =
        let found = direction dec latest.close (max_high dec w.high ws) (min_low dec w.low ws) in
        elim (Option-cases found) [
          | inl e ↦ rw e quiet
          | inr (side, e) ↦ rw e (
              propose_atr-IsSignal to_integral symbol config latest (w ∷ ws) side
                (compute_atr dec (last_n (config.atr_period + 1) bars))
                (direction-IsBreak latest.close w ws side e))
        ]

    compute_signal_impl-IsSignal :
        (bars : List (Bar Amount))
        → 1 ≤ config.lookback
        → 2 ≤ length bars
        → (latest : Bar Amount) × (last bars ≡ some latest)
          × IsSignal latest
              (window config.lookback bars)
              (compute_signal_impl dec to_integral symbol bars config)
    unfolding compute_signal_impl
    compute_signal_impl-IsSignal bars h k =
        let (latest, e) = last-cons bars (omega arith) in
        let (w, ws, found) = window-cons config.lookback bars h k in
        (
          latest,
          e,
          elim (Bool-cases (ltb (length bars) (config.lookback + config.atr_period))) [
            | inl short ↦ rw short quiet
            | inr enough ↦ rw (enough, e, found) (propose_break-IsSignal bars latest w ws)
          ],
        )

    -- With a lookback of at least one bar, `evaluate` raises nothing. It gives no signal, or the bar
    -- before the current one has closed on or beyond the edge of the channel (no high of it is above
    -- a long's entry, no low below a short's), and the proposal is at that close, of more than no
    -- shares, its stop positive and apart from the entry, its target positive and on the profit side
    -- of the entry.
    pub evaluate-IsSignal :
        (is_finite : Amount → Bool) (bars : List (Bar Amount))
        → 1 ≤ config.lookback
        → (evaluate dec to_integral is_finite symbol bars config ≡ no_signal)
          ⊎ ((latest : Bar Amount) × (last (init bars) ≡ some latest)
              × IsSignal latest
                  (window config.lookback (init bars))
                  (evaluate dec to_integral is_finite symbol bars config))
    unfolding evaluate validate_history
    evaluate-IsSignal is_finite bars h =
        elim (Bool-cases (validate_history dec is_finite (init bars))) [
          | inr e ↦ inl (rw e refl)
          | inl e ↦ inr (rw e (compute_signal_impl-IsSignal (init bars) h (ground (arith, e))))
        ]

    -- The current bar, the last of the history, has no influence on what `evaluate` returns.
    pub evaluate_blind :
        (is_finite : Amount → Bool) (bars : List (Bar Amount)) (current other : Bar Amount)
        → evaluate dec to_integral is_finite symbol (bars ++ current ∷ []) config
          ≡ evaluate dec to_integral is_finite symbol (bars ++ other ∷ []) config
    unfolding evaluate
    evaluate_blind is_finite bars current other =
        rw (init-snoc bars current, init-snoc bars other) refl
