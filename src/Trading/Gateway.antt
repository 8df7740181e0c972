-- ===== src/Trading/Gateway.antt =====
-- `TradingService._ensure_live_gateway_ready` of contexts/trading/service.py. The gateway's answers
-- and the clock are given by the attempt's number; a wait is in the clock's units.
use iguanatrader.Common.{
  ℕ, Bool, true, Option, zero, ◌≤◌, none, ◌≡◌, if◌then◌else◌, leb, some, ◌+◌, suc, false, ◌⊎◌,
  arith, ◌||◌, Bool-cases, inr, refl, inl,
}

-- The coordinator: what the k-th `ensure_up` answers, and the time that is read after it.
pub record Gateway : Type 0 where
  pub ensure_up : ℕ → Bool
  pub clock : ℕ → ℕ

-- The body of the `while True`, `fuel` rounds at most: `none` when they do not suffice.
unfoldable pub poll : ℕ → Gateway → ℕ → ℕ → Option Bool
poll zero g deadline k = none
poll (suc fuel) g deadline k =
    let rest = poll fuel g deadline (suc k) in
    if g.ensure_up k then some true else if leb deadline (g.clock k) then some false else rest

-- `started` is the time read before the first attempt. One round for each unit of the wait and
-- one more.
unfoldable pub ensure_live_gateway_ready : Gateway → ℕ → ℕ → Option Bool
ensure_live_gateway_ready g started wait = poll (suc wait) g (started + wait) 0

-- the clock moves by the sleep between two attempts, which is not zero
abbrev pub IsTicking : Gateway → ℕ → Type 0
IsTicking g started = (started ≤ g.clock 0) × ((k : ℕ) → suc (g.clock k) ≤ g.clock (suc k))

-- one of the first `n` attempts was answered with yes
abbrev pub any_up : Gateway → ℕ → Bool
any_up g zero = false
any_up g (suc n) = any_up g n || g.ensure_up n

-- The loop ended after `n` attempts: it says whether one of them was answered with yes, and
-- without one the deadline is over.
abbrev pub HasEnded : Gateway → ℕ → Option Bool → Type 0
HasEnded g deadline result =
    (n : ℕ) × (result ≡ some (any_up g (suc n)))
    × ((any_up g (suc n) ≡ true) ⊎ (deadline ≤ g.clock n))

clock_bound : (g : Gateway) (started : ℕ) → IsTicking g started → (k : ℕ) → started + k ≤ g.clock k
clock_bound g started ticks zero = omega (arith, ticks.0)
clock_bound g started ticks (suc k) = omega (arith, ticks.1 k, clock_bound g started ticks k)

poll-HasEnded :
    (g : Gateway) (started wait : ℕ)
    → IsTicking g started
    → (fuel k : ℕ) → wait ≤ fuel + k
    → any_up g k ≡ false
    → HasEnded g (started + wait) (poll (suc fuel) g (started + wait) k)
unfolding poll
poll-HasEnded g started wait ticks zero k enough before = elim (Bool-cases (g.ensure_up k)) [
  | inl e ↦ (k, ground arith, ground arith)
  | inr e ↦ (
    k,
    ground (arith, clock_bound g started ticks k),
    inr (omega (arith, clock_bound g started ticks k)),
  )
]
poll-HasEnded g started wait ticks (suc fuel) k enough before = elim (Bool-cases (g.ensure_up k)) [
  | inl e ↦ (k, ground arith, ground arith)
  | inr e ↦ elim (Bool-cases (leb (started + wait) (g.clock k))) [
    | inl over ↦ (k, ground arith, inr (ground arith))
    | inr early ↦
        rw (e, early) (poll-HasEnded g started wait ticks fuel (suc k) (omega arith) (ground arith))
  ]
]

-- When the clock moves from one attempt to the next, the wait for the gateway always ends, and it
-- says yes exactly when an attempt was answered with yes; it says no only after the deadline.
pub ensure_live_gateway_ready-HasEnded :
    (g : Gateway) (started wait : ℕ)
    → IsTicking g started
    → HasEnded g (started + wait) (ensure_live_gateway_ready g started wait)
unfolding ensure_live_gateway_ready
ensure_live_gateway_ready-HasEnded g started wait ticks =
    poll-HasEnded g started wait ticks wait 0 (omega arith) refl
