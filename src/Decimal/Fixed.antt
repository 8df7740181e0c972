-- ===== src/Decimal/Fixed.antt =====
-- A concrete decimal arithmetic to run the code on: fixed point with four digits, a number being
-- the difference of two counts of ten-thousandths.
use iguanatrader.Common.{ℕ, ◌≡◌, ◌-◌, arith, ltb, ◌/◌, ◌+◌, false, Bool, true, if◌then◌else◌, ◌*◌}
use iguanatrader.Decimal.{Decimal}

pub record Fixed : Type 0 where
  pub plus : ℕ
  pub minus : ℕ

abbrev pub below : Fixed → Fixed → Bool
below a b = ltb (a.plus + b.minus) (b.plus + a.minus)

pub below-asymm : (a b : Fixed) → below a b ≡ true → below b a ≡ false
below-asymm a b h = ground arith

pub below-cotrans : (a b c : Fixed) → below a b ≡ false → below b c ≡ false → below a c ≡ false
below-cotrans a b c h k = ground arith

-- with one of the two counts at zero
abbrev reduced : Fixed → Fixed
reduced a = record { plus = a.plus - a.minus; minus = a.minus - a.plus }

abbrev times : Fixed → Fixed → Fixed
times a b = record {
  plus = (a.plus * b.plus + a.minus * b.minus) / 10000;
  minus = (a.plus * b.minus + a.minus * b.plus) / 10000;
}

abbrev over : Fixed → Fixed → Fixed
over a b =
    if ltb 0 b.plus
    then record { plus = a.plus * 10000 / b.plus; minus = a.minus * 10000 / b.plus }
    else record { plus = a.minus * 10000 / b.minus; minus = a.plus * 10000 / b.minus }

abbrev pub fixed : Decimal
fixed = record {
  Amount = Fixed;
  of_int = λ n. record { plus = n * 10000; minus = 0 };
  add = λ a b. record { plus = a.plus + b.plus; minus = a.minus + b.minus };
  sub = λ a b. record { plus = a.plus + b.minus; minus = a.minus + b.plus };
  mul = λ a b. times (reduced a) (reduced b);
  div = λ a b. over (reduced a) (reduced b);
  lt = below;
  lt_asymm = below-asymm;
  lt_cotrans = below-cotrans;
}

-- `n` ten-thousandths
abbrev pub amount : ℕ → Fixed
amount n = record { plus = n; minus = 0 }
