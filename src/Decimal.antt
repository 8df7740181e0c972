-- ===== src/Decimal.antt =====
-- Python's `decimal.Decimal`, as the risk and replay code uses it: a carrier with arithmetic that
-- rounds as its context says, and comparisons. Only the order has laws here: on numbers that are
-- no NaN, `<` is a strict weak order (1.0 and 1.00 are two values, and neither is below the other).
pub mod Fixed
use iguanatrader.Common.{
  ℕ, ◌≡◌, Bool, true, false, not, Bool-cases, arith, inr, if◌then◌else◌, inl, ◌&&◌,
}

pub record Decimal : Type 1 where
  pub Amount : Type 0
  pub of_int : ℕ → Amount
  pub add : Amount → Amount → Amount
  pub sub : Amount → Amount → Amount
  pub mul : Amount → Amount → Amount
  pub div : Amount → Amount → Amount
  pub lt : Amount → Amount → Bool
  pub lt_asymm : (a b : Amount) → lt a b ≡ true → lt b a ≡ false
  pub lt_cotrans : (a b c : Amount) → lt a b ≡ false → lt b c ≡ false → lt a c ≡ false

module _ (dec : Decimal) where
  open dec use {Amount, of_int, sub, lt, lt_asymm, lt_cotrans}

  -- the built-ins `abs` and two-argument `max`, which keeps the first of equals
  abbrev pub abs : Amount → Amount
  abs a = if lt a (of_int 0) then sub (of_int 0) a else a

  abbrev pub greater : Amount → Amount → Amount
  greater a b = if lt a b then b else a

  -- `a == 0`
  abbrev pub is_zero : Amount → Bool
  is_zero a = not (lt a (of_int 0)) && not (lt (of_int 0) a)

  pub lt_irrefl : (a : Amount) → lt a a ≡ false
  lt_irrefl a = elim (Bool-cases (lt a a)) [ inl e ↦ ground (arith, lt_asymm a a) | inr e ↦ e ]

  pub greater-left : (a b : Amount) → lt (greater a b) a ≡ false
  greater-left a b = ground (arith, lt_irrefl a, lt_asymm a b)

  pub greater-right : (a b : Amount) → lt (greater a b) b ≡ false
  greater-right a b = ground (arith, lt_irrefl b)

  -- `a' ≤ a < b ≤ b'`
  pub lt_widen :
      (a b a' b' : Amount) → lt a a' ≡ false → lt b' b ≡ false → lt a b ≡ true → lt a' b' ≡ true
  lt_widen a b a' b' ha hb h = elim (Bool-cases (lt a' b')) [
    | inl e ↦ e
    | inr e ↦ ground (arith, lt_cotrans a a' b', lt_cotrans a b' b)
  ]
