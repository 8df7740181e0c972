-- ===== src/Approval/Commands/Dispatch.antt =====
-- What a dispatch lets through to a handler, and what it suppresses.
use iguanatrader.Approval.Commands.{
  record_key, dispatch, CommandSpec, IncomingCommand, Status, remember, idempotency_check,
  Dispatcher, resync, user, CommandResult, admin, is_repeated, answer, dispatch_found, Role,
  is_admin, dispatch_keyed, is_done,
}
use iguanatrader.Common.{
  true, Bool, ◌≡◌, ℕ, refl, arith, none, ◌⊎◌, List, some, false, String, Option, ◌∷◌, inl, inr,
  ◌&&◌, not, Option-cases, Bool-cases,
}

module _ (registry : String → Option CommandSpec) (paused : ℕ → Bool)
    (handler : IncomingCommand → Status) (show : ℕ → String) (joined : List String → String) where
  -- the key under which a command is remembered
  abbrev pub key_of : CommandSpec → IncomingCommand → ℕ → Option String
  key_of spec incoming now =
      idempotency_check registry paused handler show joined spec.idempotency_key_source spec.name
        incoming now

  abbrev pub step : IncomingCommand → ℕ → Dispatcher → CommandResult × Dispatcher
  step = dispatch registry paused handler show joined

  -- What stands behind a command that reached its handler.
  pub record Admitted (incoming : IncomingCommand) (now : ℕ) (d : Dispatcher) : Type 0 where
    pub spec : CommandSpec
    pub known : registry incoming.command_name ≡ some spec
    pub authorised : (spec.required_role ≡ user) ⊎ (incoming.role ≡ admin)
    pub running : (spec.blocked_when_paused ≡ false) ⊎ (paused incoming.tenant_id ≡ false)
    pub new_key :
        is_repeated registry paused handler show joined (key_of spec incoming now) d ≡ false
    pub reply : (step incoming now d).0 ≡ answer (handler incoming)
    pub logged : (step incoming now d).1.handled ≡ incoming ∷ d.handled

  remember-handled :
      (key : Option String) (succeeded : Bool) (d : Dispatcher)
      → (remember registry paused handler show joined key succeeded d).handled ≡ d.handled
  unfolding remember record_key resync
  remember-handled none succeeded d = refl
  remember-handled (some key) false d = refl
  remember-handled (some key) true d = ground arith

  admin-eq : (r : Role) → is_admin r ≡ true → r ≡ admin
  admin-eq admin h = refl
  admin-eq user h = ground arith

  user-eq : (r : Role) → is_admin r ≡ false → r ≡ user
  user-eq admin h = ground arith
  user-eq user h = refl

  found-Admitted :
      (spec : CommandSpec) (incoming : IncomingCommand) (now : ℕ) (d : Dispatcher)
      → registry incoming.command_name ≡ some spec
      → is_admin spec.required_role && not (is_admin incoming.role) ≡ false
      → spec.blocked_when_paused && paused incoming.tenant_id ≡ false
      → is_repeated registry paused handler show joined (key_of spec incoming now) d ≡ false
      → Admitted incoming now d
  unfolding dispatch dispatch_found dispatch_keyed
  found-Admitted spec incoming now d e role open_now fresh_key = record {
    spec = spec;
    known = e;
    authorised = ground (arith, admin-eq incoming.role, user-eq spec.required_role);
    running = ground arith;
    new_key = fresh_key;
    reply = rw (e, role, open_now, fresh_key) refl;
    logged =
        rw (e, role, open_now, fresh_key)
          (remember-handled (key_of spec incoming now) (is_done (handler incoming))
            (record d { handled = incoming ∷ d.handled }));
  }

  -- A command changes nothing at all, or it reaches its handler; and then the registry has it, its
  -- caller has the role, its tenant is not paused where that blocks it, its key is new, and the
  -- reply is the handler's.
  pub dispatch-Admitted :
      (incoming : IncomingCommand) (now : ℕ) (d : Dispatcher)
      → ((step incoming now d).1 ≡ d) ⊎ Admitted incoming now d
  unfolding dispatch dispatch_found dispatch_keyed
  dispatch-Admitted incoming now d = elim (Option-cases (registry incoming.command_name)) [
    | inl e ↦ inl (rw e refl)
    | inr (spec, e) ↦
        elim (Bool-cases (is_admin spec.required_role && not (is_admin incoming.role))) [
          | inl role ↦ inl (rw (e, role) refl)
          | inr role ↦ elim (Bool-cases (spec.blocked_when_paused && paused incoming.tenant_id)) [
            | inl shut ↦ inl (rw (e, role, shut) refl)
            | inr open_now ↦
                elim (Bool-cases
                  (is_repeated registry paused handler show joined (key_of spec incoming now) d)) [
                    | inl seen ↦ inl (rw (e, role, open_now, seen) refl)
                    | inr fresh_key ↦
                        inr (found-Admitted spec incoming now d e role open_now fresh_key)
                  ]
          ]
        ]
  ]
