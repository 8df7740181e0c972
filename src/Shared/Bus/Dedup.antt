-- ===== src/Shared/Bus/Dedup.antt =====
-- How long a key is remembered, and which duplicates are suppressed.
use iguanatrader.Shared.Bus.{
  has_key, record_key, evict, Subscription, discard, record_event, deliver, deliver_from, accept,
  after_handler, Event, is_duplicate,
}
use iguanatrader.Common.{
  ◌+◌, length-append, eq_iff, [], ◌≡◌, ltb, inr, true, String, ℕ, ◌≤◌, ◌++◌, ◌<◌, List, inl, ◌⊎◌,
  if◌then◌else◌, arith, ◌&&◌, length, Bool-cases, ◌∷◌, ◌==◌, refl, Bool, Option, false, none, not,
  some, ◌∙◌, ap,
}
use iguanatrader.Shared.Bus.Fifo.{
  Step, publication, turn, run_local, deliver_from-taken, local, nth, run, local-immune, nth-run,
}
use iguanatrader.Shared.Bus.Window.{IsWindow, run_local-IsWindow, local-IsWindow}

-- `k` is in the deque, with `n` younger keys at most.
abbrev pub Within : String → ℕ → List String → Type 0
Within k n [] = ⊥
Within k n (j ∷ ks) = ((j ≡ k) × (length ks ≤ n)) ⊎ Within k n ks

pub Within-has_key : (k : String) (n : ℕ) (ks : List String) → Within k n ks → has_key k ks ≡ true
Within-has_key k n [] h = absurd h
Within-has_key k n (j ∷ ks) (inl (e, l)) = ground (arith, eq_iff j k)
Within-has_key k n (j ∷ ks) (inr h) = ground (arith, Within-has_key k n ks h)

pub Within-evict :
    (k : String) (n window : ℕ) (ks set : List String)
    → n < window
    → Within k n ks
    → Within k n (evict window ks set).0
unfolding evict
Within-evict k n window [] set l h = absurd h
Within-evict k n window (j ∷ ks) set l (inl (e, m)) =
    elim (Bool-cases (ltb window (length (j ∷ ks)))) [
      | inl over ↦ absurd (ground arith)
      | inr fits ↦ rw fits (inl (e, m))
    ]
Within-evict k n window (j ∷ ks) set l (inr h) = elim (Bool-cases (ltb window (length (j ∷ ks)))) [
  | inl over ↦ rw over (Within-evict k n window ks (discard j set) l h)
  | inr fits ↦ rw fits (inr h)
]

pub Within-append :
    (k i : String) (n : ℕ) (ks : List String) → Within k n ks → Within k (n + 1) (ks ++ i ∷ [])
Within-append k i n [] h = absurd h
Within-append k i n (j ∷ ks) (inl (e, l)) = inl (e, ground (arith, length-append ks (i ∷ [])))
Within-append k i n (j ∷ ks) (inr h) = inr (Within-append k i n ks h)

pub Within-self : (k : String) (ks : List String) → Within k 0 (ks ++ k ∷ [])
Within-self k [] = inl (refl, omega arith)
Within-self k (j ∷ ks) = inr (Within-self k ks)

pub Within-raise : (k : String) (n m : ℕ) (ks : List String) → n ≤ m → Within k n ks → Within k m ks
Within-raise k n m [] l h = absurd h
Within-raise k n m (j ∷ ks) l (inl (e, i)) = inl (e, omega arith)
Within-raise k n m (j ∷ ks) l (inr h) = inr (Within-raise k n m ks l h)

-- One more recorded key ages `k` by one at most.
record_key-Within :
    (k key : String) (n : ℕ) (sub : Subscription)
    → n + 1 < sub.dedup_window
    → Within k n sub.recent_keys
    → Within k (n + 1) (record_key key sub).recent_keys
unfolding record_key
record_key-Within k key n sub l h = elim (Bool-cases (has_key key sub.recent_keys_set)) [
  | inl seen ↦ rw seen (Within-raise k n (n + 1) sub.recent_keys (omega arith) h)
  | inr new ↦ rw new (
      Within-evict k (n + 1) sub.dedup_window (sub.recent_keys ++ key ∷ [])
        (key ∷ sub.recent_keys_set) l (Within-append k key n sub.recent_keys h))
]

-- the turns of a subscriber's worker whose handler returns
abbrev pub clean_turns : ℕ → List Step → ℕ
clean_turns n [] = 0
clean_turns n (publication event ∷ ss) = clean_turns n ss
clean_turns n (turn m succeeds ∷ ss) =
    if m == n && succeeds then clean_turns n ss + 1 else clean_turns n ss

record_event-Within :
    (k : String) (n : ℕ) (idempotent : Bool) (key : Option String) (sub : Subscription)
    → n + 1 < sub.dedup_window
    → Within k n sub.recent_keys
    → Within k (n + 1) (record_event idempotent key sub).recent_keys
unfolding record_event
record_event-Within k n false key sub l h = Within-raise k n (n + 1) sub.recent_keys (omega arith) h
record_event-Within k n true none sub l h = Within-raise k n (n + 1) sub.recent_keys (omega arith) h
record_event-Within k n true (some key) sub l h = record_key-Within k key n sub l h

-- A turn that fails ages no key.
deliver_from-Within :
    (k : String) (n : ℕ) (queue : List Event) (succeeds : Bool) (sub : Subscription)
    → n + (if succeeds then 1 else 0) < sub.dedup_window
    → Within k n sub.recent_keys
    → Within k (n + (if succeeds then 1 else 0)) (deliver_from queue succeeds sub).recent_keys
unfolding deliver_from after_handler
deliver_from-Within k n [] succeeds sub l h =
    Within-raise k n (n + (if succeeds then 1 else 0)) sub.recent_keys (ground arith) h
deliver_from-Within k n (event ∷ rest) false sub l h =
    Within-raise k n (n + 0) sub.recent_keys (omega arith) h
deliver_from-Within k n (event ∷ rest) true sub l h =
    record_event-Within k n sub.idempotent event.idempotency_key
      (record sub { queue = rest; handled = sub.handled ++ event ∷ [] }) l h

run_local-Within :
    (n : ℕ) (k : String) (age : ℕ) (ss : List Step) (sub : Subscription)
    → age + clean_turns n ss < sub.dedup_window
    → Within k age sub.recent_keys
    → Within k (age + clean_turns n ss) (run_local n ss sub).recent_keys
unfolding deliver accept
run_local-Within n k age [] sub l h = Within-raise k age (age + 0) sub.recent_keys (omega arith) h
run_local-Within n k age (publication event ∷ ss) sub l h =
    elim (Bool-cases (sub.event_type == event.event_type && not (is_duplicate event sub))) [
      | inl e ↦
          ground
            (arith, run_local-Within n k age ss (record sub { queue = sub.queue ++ event ∷ [] }))
      | inr e ↦ ground (arith, run_local-Within n k age ss sub)
    ]
run_local-Within n k age (turn m succeeds ∷ ss) sub l h = elim (Bool-cases (m == n)) [
  | inl e ↦
      let aged = age + (if succeeds then 1 else 0) in
      ground (
        arith,
        deliver_from-Within k age sub.queue succeeds sub,
        deliver_from-taken sub.queue succeeds sub refl,
        run_local-Within n k aged ss (deliver_from sub.queue succeeds sub),
      )
  | inr e ↦ ground (arith, run_local-Within n k age ss sub)
]

run_local-idempotent :
    (n : ℕ) (ss : List Step) (sub : Subscription) → (run_local n ss sub).idempotent ≡ sub.idempotent
run_local-idempotent n [] sub = refl
run_local-idempotent n (s ∷ ss) sub =
    run_local-idempotent n ss (local n s sub) ∙ (local-immune n s sub).0.0

-- The clean delivery of a new key puts it in front.
deliver-Within :
    (event : Event) (rest : List Event) (k : String) (sub : Subscription)
    → IsWindow sub
    → sub.queue ≡ event ∷ rest
    → sub.idempotent ≡ true
    → event.idempotency_key ≡ some k
    → has_key k sub.recent_keys ≡ false
    → 0 < sub.dedup_window
    → Within k 0 (deliver true sub).recent_keys
unfolding deliver deliver_from after_handler record_event record_key
deliver-Within event rest k sub w q i e new l =
    rw (q, i, e, w.same k, new)
      (Within-evict k 0 sub.dedup_window (sub.recent_keys ++ k ∷ []) (k ∷ sub.recent_keys_set) l
        (Within-self k sub.recent_keys))

seen-suppressed :
    (n : ℕ) (k : String) (event : Event) (sub : Subscription)
    → sub.idempotent ≡ true
    → event.idempotency_key ≡ some k
    → has_key k sub.recent_keys_set ≡ true
    → local n (publication event) sub ≡ sub
unfolding accept is_duplicate
seen-suppressed n k event sub i e seen = ground arith

run_local-append :
    (n : ℕ) (ss ts : List Step) (sub : Subscription)
    → run_local n (ss ++ ts) sub ≡ run_local n ts (run_local n ss sub)
run_local-append n [] ts sub = refl
run_local-append n (s ∷ ss) ts sub = run_local-append n ss ts (local n s sub)

-- From a subscription in which the key is in front, it is seen after the steps.
front-seen :
    (n : ℕ) (ss : List Step) (k : String) (sub : Subscription)
    → IsWindow sub
    → Within k 0 sub.recent_keys
    → clean_turns n ss < sub.dedup_window
    → has_key k (run_local n ss sub).recent_keys_set ≡ true
front-seen n ss k sub w front l =
    (run_local-IsWindow n ss sub w).same k
    ∙ Within-has_key k (0 + clean_turns n ss) (run_local n ss sub).recent_keys
        (run_local-Within n k 0 ss sub (omega arith) front)

pub turn-deliver : (n : ℕ) (sub : Subscription) → local n (turn n true) sub ≡ deliver true sub
turn-deliver n sub = ground arith

-- A subscriber that has cleanly handled an event with a new key is offered no event with that key
-- again until its worker has cleanly handled as many further events as its window holds: each such
-- publication leaves it as it is.
pub delivered_once :
    (n : ℕ) (ss : List Step) (subs : List Subscription) (sub : Subscription) (event : Event)
    (rest : List Event) (k : String) (event' : Event)
    → nth n subs ≡ some sub
    → IsWindow sub
    → sub.idempotent ≡ true
    → sub.queue ≡ event ∷ rest
    → event.idempotency_key ≡ some k
    → has_key k sub.recent_keys ≡ false
    → clean_turns n ss < sub.dedup_window
    → event'.idempotency_key ≡ some k
    → nth n (run (turn n true ∷ ss ++ publication event' ∷ []) subs)
      ≡ nth n (run (turn n true ∷ ss) subs)
delivered_once n ss subs sub event rest k event' at w i q e new l e' =
    let first = local n (turn n true) sub in
    let last = run_local n ss first in
    let same = (local-immune n (turn n true) sub).0 in
    let seen =
      front-seen n ss k first (local-IsWindow n (turn n true) sub w)
        (rw (turn-deliver n sub) (deliver-Within event rest k sub w q i e new (omega arith)))
        (rw same.2 l) in
    rw
      (
        nth-run n (turn n true ∷ ss ++ publication event' ∷ []) subs,
        nth-run n (turn n true ∷ ss) subs,
        at,
        run_local-append n ss (publication event' ∷ []) first,
      )
      (ap some
        (seen-suppressed n k event' last (run_local-idempotent n ss first ∙ (same.0 ∙ i)) e' seen))
