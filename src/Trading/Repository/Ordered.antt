-- ===== src/Trading/Repository/Ordered.antt =====
-- `FillRepository.list_for_trade`: all fills of the trade's orders, by their time.
use iguanatrader.Common.{
  ℕ, ◌≤◌, ◌&&◌, ◌==◌, List, [], ◌∷◌, All, any, filter, Bool-cases, inl, inr, leb, arith,
}
use mathlib.Core.List.{Perm}
use mathlib.Core.List.Perm
use iguanatrader.Trading.Models.{Desk, Fill, Order}
use iguanatrader.Trading.Repository.{put_in_order, in_order, list_fills_for_trade}

module _ {A : Type 0} where
  abbrev pub IsFirst : Fill A → List (Fill A) → Type 0
  IsFirst f = All (λ g. f.filled_at ≤ g.filled_at)

  -- Each fill is no later than those after it.
  abbrev pub IsOrdered : List (Fill A) → Type 0
  IsOrdered [] = Unit
  IsOrdered (f ∷ fs) = IsFirst f fs × IsOrdered fs

  -- The orders of the trade, and the fills of these.
  abbrev pub orders_of : ℕ → Desk A → List (Order A)
  orders_of id s = filter (λ o. o.trade_id == id) s.orders

  abbrev pub fills_of : ℕ → Desk A → List (Fill A)
  fills_of id s = filter (λ f. any (λ o. o.id == f.order_id && o.trade_id == id) s.orders) s.fills

  put_in_order-Perm : (f : Fill A) (fs : List (Fill A)) → Perm (put_in_order f fs) (f ∷ fs)
  put_in_order-Perm f [] = Perm.rfl
  put_in_order-Perm f (g ∷ gs) = elim (Bool-cases (leb f.filled_at g.filled_at)) [
    | inl e ↦ rw e Perm.rfl
    | inr e ↦ rw e (Perm.trans (Perm.cons g (put_in_order-Perm f gs)) (Perm.swap f g gs))
  ]

  in_order-Perm : (fs : List (Fill A)) → Perm (in_order fs) fs
  in_order-Perm [] = Perm.rfl
  in_order-Perm (f ∷ fs) =
      Perm.trans (put_in_order-Perm f (in_order fs)) (Perm.cons f (in_order-Perm fs))

  IsFirst-mono :
      (f g : Fill A) (gs : List (Fill A)) → f.filled_at ≤ g.filled_at → IsFirst g gs → IsFirst f gs
  IsFirst-mono f g [] h hs = tt
  IsFirst-mono f g (k ∷ ks) h (first, rest) = (omega (arith, h, first), IsFirst-mono f g ks h rest)

  put_in_order-IsFirst :
      (g f : Fill A) (fs : List (Fill A))
      → g.filled_at ≤ f.filled_at
      → IsFirst g fs
      → IsFirst g (put_in_order f fs)
  put_in_order-IsFirst g f [] h hs = (h, tt)
  put_in_order-IsFirst g f (k ∷ ks) h (first, rest) =
      elim (Bool-cases (leb f.filled_at k.filled_at)) [
        | inl e ↦ rw e (h, (first, rest))
        | inr e ↦ rw e (first, put_in_order-IsFirst g f ks h rest)
      ]

  put_in_order-IsOrdered :
      (f : Fill A) (fs : List (Fill A)) → IsOrdered fs → IsOrdered (put_in_order f fs)
  put_in_order-IsOrdered f [] h = (tt, tt)
  put_in_order-IsOrdered f (g ∷ gs) (first, rest) =
      elim (Bool-cases (leb f.filled_at g.filled_at)) [
        | inl e ↦
            let h : f.filled_at ≤ g.filled_at = ground (arith, e) in
            rw e ((h, IsFirst-mono f g gs h first), (first, rest))
        | inr e ↦
            let h : g.filled_at ≤ f.filled_at = ground (arith, e) in
            rw e (put_in_order-IsFirst g f gs h first, put_in_order-IsOrdered f gs rest)
      ]

  in_order-IsOrdered : (fs : List (Fill A)) → IsOrdered (in_order fs)
  in_order-IsOrdered [] = tt
  in_order-IsOrdered (f ∷ fs) = put_in_order-IsOrdered f (in_order fs) (in_order-IsOrdered fs)

  -- the fills of the trade, each once, by their time
  abbrev pub IsHistory : ℕ → Desk A → List (Fill A) → Type 0
  IsHistory id s fs = Perm fs (fills_of id s) × IsOrdered fs

  pub list_fills_for_trade-IsHistory :
      (id : ℕ) (s : Desk A) → IsHistory id s (list_fills_for_trade id s)
  unfolding list_fills_for_trade
  list_fills_for_trade-IsHistory id s =
      (in_order-Perm (fills_of id s), in_order-IsOrdered (fills_of id s))
