-- ===== src/Trading/Propose/Risked.antt =====
-- What the request for an approval rests on: the risk context's evaluation of the proposal.
use iguanatrader.Common.{List, ◌∷◌, Bool, [], false, true}
use iguanatrader.Decimal.{Decimal}
use iguanatrader.Trading.Models.{Event, approval_requested}

abbrev pub is_request : {A : Type 0} → List (Event A) → Bool
is_request [] = false
is_request (approval_requested id ∷ events) = true
is_request (_ ∷ events) = false
