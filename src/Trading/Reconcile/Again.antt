-- ===== src/Trading/Reconcile/Again.antt =====
-- Fills that the broker reports again, after a restart or a reconnect.
use iguanatrader.Common.{
  String, arith, Bool, refl, true, inr, is_some, inl, ◌∷◌, ◌≡◌, or_true, subst, All, some, ◌∙◌,
  Option, eq_iff, ◌⊎◌, none, Bool-cases, sym, List, str_eq, [],
}
use iguanatrader.Decimal.{Decimal}
use iguanatrader.Trading.Models.{Desk, Fill, FillEvent}
use iguanatrader.Trading.Repository.{
  exists_by_broker_fill_id, get_by_client_order_id, get_order, is_named,
}
use iguanatrader.Trading.Reconcile.{
  Incoming, fill_row, reconcile_one_fill, reconcile_fills, order_for, already_recorded, fill_name,
  is_recorded,
}
use iguanatrader.Trading.Reconcile.Written.{IsSettled, reconcile_one_fill-IsHandled}

module _ (dec : Decimal) where
  open dec use {Amount}

  -- the broker gave the fill an id
  abbrev pub is_identified : FillEvent Amount → Bool
  is_identified event = is_some (fill_name event.broker_fill_id)

  settled_skip :
      (incoming : Incoming Amount) (s : Desk Amount)
      → IsSettled dec incoming.event s
      → reconcile_one_fill dec incoming s ≡ s
  settled_skip incoming s settled = elim (reconcile_one_fill-IsHandled dec incoming s) [
    | inl (e, same) ↦ same
    | inr (order, found, new, o, f) ↦ elim settled [
      | inl seen ↦ absurd (ground (arith, seen, new))
      | inr missing ↦ absurd (ground (arith, missing, found))
    ]
  ]

  recorded_more :
      (name : Option String) (f : Fill Amount) (s s' : Desk Amount)
      → s'.fills ≡ f ∷ s.fills
      → is_recorded dec name s ≡ true
      → is_recorded dec name s' ≡ true
  unfolding exists_by_broker_fill_id
  recorded_more none f s s' e h = h
  recorded_more (some id) f s s' e h = rw (e, h) (or_true (is_named id f.broker_fill_id))

  now_recorded :
      (name : Option String) (f : Fill Amount) (s s' : Desk Amount)
      → f.broker_fill_id ≡ name
      → is_some (fill_name name) ≡ true
      → s'.fills ≡ f ∷ s.fills
      → is_recorded dec (fill_name name) s' ≡ true
  unfolding exists_by_broker_fill_id
  now_recorded none f s s' own named e = absurd (ground (arith, named))
  now_recorded (some id) f s s' own named e = elim (Bool-cases (str_eq id "")) [
    | inl empty ↦ absurd (ground (arith, named, empty))
    | inr full ↦ rw (full, e, own, (eq_iff id id).1 refl) refl
  ]

  order_for_same :
      (event : FillEvent Amount) (s s' : Desk Amount)
      → s'.orders ≡ s.orders
      → order_for dec event s' ≡ order_for dec event s
  unfolding order_for get_by_client_order_id get_order
  order_for_same event s s' e = rw e refl

  -- What is settled stays settled while another fill is handled.
  on-IsSettled :
      (event : FillEvent Amount) (incoming : Incoming Amount) (s : Desk Amount)
      → IsSettled dec event s
      → IsSettled dec event (reconcile_one_fill dec incoming s)
  unfolding already_recorded
  on-IsSettled event incoming s settled =
      let s' = reconcile_one_fill dec incoming s in
      elim (reconcile_one_fill-IsHandled dec incoming s) [
        | inl (e, same) ↦ subst (IsSettled dec event) (sym same) settled
        | inr (order, found, new, o, f) ↦ elim settled [
          | inl seen ↦ inl (
              recorded_more (fill_name event.broker_fill_id)
                (fill_row dec incoming.event order s.next_id) s s' f seen)
          | inr missing ↦ inr (order_for_same event s s' o ∙ missing)
        ]
      ]

  -- A fill with an id is settled once it has been handled.
  now-IsSettled :
      (incoming : Incoming Amount) (s : Desk Amount)
      → is_identified incoming.event ≡ true
      → IsSettled dec incoming.event (reconcile_one_fill dec incoming s)
  unfolding already_recorded
  now-IsSettled incoming s named =
      let s' = reconcile_one_fill dec incoming s in
      elim (reconcile_one_fill-IsHandled dec incoming s) [
        | inl (e, same) ↦ subst (IsSettled dec incoming.event) (sym same) e
        | inr (order, found, new, o, f) ↦ inl (
            now_recorded incoming.event.broker_fill_id (fill_row dec incoming.event order s.next_id)
              s s' refl named f)
      ]

  through-IsSettled :
      (event : FillEvent Amount) (fills : List (Incoming Amount)) (s : Desk Amount)
      → IsSettled dec event s
      → IsSettled dec event (reconcile_fills dec fills s)
  unfolding reconcile_fills
  through-IsSettled event [] s settled = settled
  through-IsSettled event (f ∷ fs) s settled =
      through-IsSettled event fs (reconcile_one_fill dec f s) (on-IsSettled event f s settled)

  -- the event is one of those reported
  abbrev pub IsAmong : FillEvent Amount → List (Incoming Amount) → Type 0
  IsAmong event [] = ⊥
  IsAmong event (f ∷ fs) = (f.event ≡ event) ⊎ IsAmong event fs

  among-IsSettled :
      (event : FillEvent Amount) (fills : List (Incoming Amount)) (s : Desk Amount)
      → is_identified event ≡ true
      → IsAmong event fills
      → IsSettled dec event (reconcile_fills dec fills s)
  unfolding reconcile_fills
  among-IsSettled event [] s named h = absurd h
  among-IsSettled event (f ∷ fs) s named (inl here) =
      let now : IsSettled dec event (reconcile_one_fill dec f s) =
        subst (λ e. IsSettled dec e (reconcile_one_fill dec f s)) here
          (now-IsSettled f s (rw here named)) in
      through-IsSettled event fs (reconcile_one_fill dec f s) now
  among-IsSettled event (f ∷ fs) s named (inr later) =
      among-IsSettled event fs (reconcile_one_fill dec f s) named later

  skipped :
      (again : List (Incoming Amount)) (s : Desk Amount)
      → All (λ f. IsSettled dec f.event s) again
      → reconcile_fills dec again s ≡ s
  unfolding reconcile_fills
  skipped [] s h = refl
  skipped (f ∷ fs) s h = rw (settled_skip f s h.0) (skipped fs s h.1)

  again-IsSettled :
      (fills again : List (Incoming Amount)) (s : Desk Amount)
      → All (λ f. (is_identified f.event ≡ true) × IsAmong f.event fills) again
      → All (λ f. IsSettled dec f.event (reconcile_fills dec fills s)) again
  again-IsSettled fills [] s h = tt
  again-IsSettled fills (f ∷ fs) s h =
      (among-IsSettled f.event fills s h.0.0 h.0.1, again-IsSettled fills fs s h.1)

  -- Fills that have been reconciled and are reported again, at any later time, in any order and
  -- number, and each with an id of the broker's, change nothing: no row, no state and no event.
  pub reconcile_fills-again :
      (fills again : List (Incoming Amount)) (s : Desk Amount)
      → All (λ f. (is_identified f.event ≡ true) × IsAmong f.event fills) again
      → reconcile_fills dec again (reconcile_fills dec fills s) ≡ reconcile_fills dec fills s
  reconcile_fills-again fills again s h =
      skipped again (reconcile_fills dec fills s) (again-IsSettled fills again s h)
