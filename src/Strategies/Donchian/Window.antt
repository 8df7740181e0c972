-- ===== src/Strategies/Donchian/Window.antt =====
-- The bars that a signal looks at: the channel before the latest bar, which is never empty here,
-- and the extremes of the channel.
use iguanatrader.Common.{
  ℕ, ◌≡◌, refl, ap, false, List, [], ◌∷◌, ◌++◌, some, All, length, drop, suc, zero, ◌-◌, ◌+◌, ◌≤◌,
  arith, if◌then◌else◌,
}
use iguanatrader.Decimal.{Decimal, greater, greater-left, greater-right, lt_irrefl}
use iguanatrader.Risk.Trailing.{Bar}
use iguanatrader.Strategies.Donchian.{init, last, last_n, window, max_high, min_low}

module _ {ℓ} {A : Type ℓ} where
  pub init-snoc : (xs : List A) (x : A) → init (xs ++ x ∷ []) ≡ xs
  init-snoc [] x = refl
  init-snoc (y ∷ []) x = refl
  init-snoc (y ∷ z ∷ zs) x = ap (λ ws. y ∷ ws) (init-snoc (z ∷ zs) x)

  length-drop : (n : ℕ) (xs : List A) → length (drop n xs) ≡ length xs - n
  length-drop zero xs = omega arith
  length-drop (suc n) [] = omega arith
  length-drop (suc n) (x ∷ xs) = grind (arith, length-drop n xs)

  pub last-cons : (xs : List A) → 1 ≤ length xs → (x : A) × (last xs ≡ some x)
  last-cons [] h = absurd (omega arith)
  last-cons (x ∷ []) h = (x, refl)
  last-cons (x ∷ y ∷ ys) h = last-cons (y ∷ ys) (omega arith)

  init-cons : (xs : List A) → 2 ≤ length xs → (x : A) × (ys : List A) × (init xs ≡ x ∷ ys)
  init-cons [] h = absurd (omega arith)
  init-cons (x ∷ []) h = absurd (omega arith)
  init-cons (x ∷ y ∷ ys) h = (x, init (y ∷ ys), refl)

  pub window-cons :
      (lookback : ℕ) (xs : List A)
      → 1 ≤ lookback
      → 2 ≤ length xs
      → (x : A) × (ys : List A) × (window lookback xs ≡ x ∷ ys)
  window-cons lookback xs h k =
      let len = length-drop (length xs - (lookback + 1)) xs in
      init-cons (last_n (lookback + 1) xs) (omega arith)

module _ (dec : Decimal) where
  open dec use {Amount, lt, lt_asymm, lt_cotrans}

  -- The largest high is below none of the highs.
  pub max_high-All :
      (best : Amount) (bars : List (Bar Amount))
      → (lt (max_high dec best bars) best ≡ false)
        × All (λ b. lt (max_high dec best bars) b.high ≡ false) bars
  unfolding max_high
  max_high-All best [] = (lt_irrefl dec best, tt)
  max_high-All best (b ∷ bs) =
      let next = greater dec best b.high in
      let (up, rest) = max_high-All next bs in
      (
        lt_cotrans (max_high dec next bs) next best up (greater-left dec best b.high),
        (lt_cotrans (max_high dec next bs) next b.high up (greater-right dec best b.high), rest),
      )

  lesser-left : (a b : Amount) → lt a (if lt b a then b else a) ≡ false
  lesser-left a b = ground (arith, lt_irrefl dec a, lt_asymm b a)

  lesser-right : (a b : Amount) → lt b (if lt b a then b else a) ≡ false
  lesser-right a b = ground (arith, lt_irrefl dec b)

  -- None of the lows is below the smallest low.
  pub min_low-All :
      (best : Amount) (bars : List (Bar Amount))
      → (lt best (min_low dec best bars) ≡ false)
        × All (λ b. lt b.low (min_low dec best bars) ≡ false) bars
  unfolding min_low
  min_low-All best [] = (lt_irrefl dec best, tt)
  min_low-All best (b ∷ bs) =
      let next = if lt b.low best then b.low else best in
      let (up, rest) = min_low-All next bs in
      (
        lt_cotrans best next (min_low dec next bs) (lesser-left best b.low) up,
        (lt_cotrans b.low next (min_low dec next bs) (lesser-right best b.low) up, rest),
      )
