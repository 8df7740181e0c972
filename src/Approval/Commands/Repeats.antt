-- ===== src/Approval/Commands/Repeats.antt =====
-- How long a handled command suppresses its repetitions.
use iguanatrader.Approval.Commands.{
  dispatch, done, CommandSpec, IncomingCommand, Status, Dispatcher, dispatch_found, remember,
  is_repeated, dispatch_keyed, dedup_window, answer, is_admin, is_done, has_key, CommandResult,
}
use iguanatrader.Approval.Commands.Dispatch.{step, key_of}
use iguanatrader.Common.{
  inl, Bool-cases, List, String, some, arith, length, not, inr, none, Bool, Option, ◌+◌,
  Option-cases, ◌&&◌, ℕ, refl, ◌⊎◌, [], ◌∷◌, ◌≢◌, ◌<◌, ◌≡◌, true, false, ◌∙◌, sym, ap,
}
use iguanatrader.Approval.Commands.Window.{
  IsMemory, record_key-Within, record_key-IsMemory, record_key-front,
}
use iguanatrader.Shared.Bus.Dedup.{Within, Within-raise, Within-has_key}
use iguanatrader.Shared.Bus.{has_key}

module _ (registry : String → Option CommandSpec) (paused : ℕ → Bool)
    (handler : IncomingCommand → Status) (show : ℕ → String) (joined : List String → String) where
  -- a sequence of dispatches, each with its time
  abbrev pub run : List (IncomingCommand × ℕ) → Dispatcher → Dispatcher
  run [] d = d
  run ((incoming, now) ∷ cs) d = run cs (step registry paused handler show joined incoming now d).1

  abbrev Handled : IncomingCommand → ℕ → Dispatcher → CommandSpec → Type 0
  Handled incoming now d spec =
      (registry incoming.command_name ≡ some spec)
      × (is_repeated registry paused handler show joined
            (key_of registry paused handler show joined spec incoming now) d
          ≡ false)
      × (step registry paused handler show joined incoming now d ≡ (
        answer (handler incoming),
        remember registry paused handler show joined
            (key_of registry paused handler show joined spec incoming now)
            (is_done (handler incoming)) (record d { handled = incoming ∷ d.handled }),
      ))

  step-cases :
      (incoming : IncomingCommand) (now : ℕ) (d : Dispatcher)
      → (((step registry paused handler show joined incoming now d).1 ≡ d)
          × ((step registry paused handler show joined incoming now d).0 ≢ answer done))
        ⊎ ((spec : CommandSpec) × Handled incoming now d spec)
  unfolding dispatch dispatch_found dispatch_keyed
  step-cases incoming now d = elim (Option-cases (registry incoming.command_name)) [
    | inl e ↦ inl (rw e (refl, ground arith))
    | inr (spec, e) ↦
        elim (Bool-cases (is_admin spec.required_role && not (is_admin incoming.role))) [
          | inl role ↦ inl (rw (e, role) (refl, ground arith))
          | inr role ↦ elim (Bool-cases (spec.blocked_when_paused && paused incoming.tenant_id)) [
            | inl shut ↦ inl (rw (e, role, shut) (refl, ground arith))
            | inr open_now ↦
                elim (Bool-cases (
                  is_repeated registry paused handler show joined
                    (key_of registry paused handler show joined spec incoming now) d)) [
                      | inl seen ↦ inl (rw (e, role, open_now, seen) (refl, ground arith))
                      | inr fresh_key ↦
                          inr (spec, (e, fresh_key, rw (e, role, open_now, fresh_key) refl))
                    ]
          ]
        ]
  ]

  remember-IsMemory :
      (key : Option String) (succeeded : Bool) (d : Dispatcher)
      → IsMemory d
      → IsMemory (remember registry paused handler show joined key succeeded d)
  unfolding remember
  remember-IsMemory none succeeded d w = w
  remember-IsMemory (some key) false d w = w
  remember-IsMemory (some key) true d w = record_key-IsMemory key d w

  remember-Within :
      (k : String) (n : ℕ) (key : Option String) (succeeded : Bool) (d : Dispatcher)
      → n + 1 < dedup_window
      → Within k n d.recent_keys
      → Within k (n + 1) (remember registry paused handler show joined key succeeded d).recent_keys
  unfolding remember
  remember-Within k n none succeeded d l h = Within-raise k n (n + 1) d.recent_keys (omega arith) h
  remember-Within k n (some key) false d l h =
      Within-raise k n (n + 1) d.recent_keys (omega arith) h
  remember-Within k n (some key) true d l h = record_key-Within k key n d l h

  step-IsMemory :
      (incoming : IncomingCommand) (now : ℕ) (d : Dispatcher)
      → IsMemory d
      → IsMemory (step registry paused handler show joined incoming now d).1
  step-IsMemory incoming now d w = elim (step-cases incoming now d) [
    | inl (same, _) ↦ rw same w
    | inr (spec, (_, _, e)) ↦ rw e (
        remember-IsMemory (key_of registry paused handler show joined spec incoming now)
          (is_done (handler incoming)) (record d { handled = incoming ∷ d.handled })
          (record { bound = w.bound; same = w.same }))
  ]

  step-Within :
      (k : String) (n : ℕ) (incoming : IncomingCommand) (now : ℕ) (d : Dispatcher)
      → n + 1 < dedup_window
      → Within k n d.recent_keys
      → Within k (n + 1) (step registry paused handler show joined incoming now d).1.recent_keys
  step-Within k n incoming now d l h = elim (step-cases incoming now d) [
    | inl (same, _) ↦ rw same (Within-raise k n (n + 1) d.recent_keys (omega arith) h)
    | inr (spec, (_, _, e)) ↦ rw e (
        remember-Within k n (key_of registry paused handler show joined spec incoming now)
          (is_done (handler incoming)) (record d { handled = incoming ∷ d.handled }) l h)
  ]

  -- Over any commands the deque stays within its 1024 keys, and the set holds exactly its keys.
  pub run-IsMemory :
      (cs : List (IncomingCommand × ℕ)) (d : Dispatcher) → IsMemory d → IsMemory (run cs d)
  run-IsMemory [] d w = w
  run-IsMemory ((incoming, now) ∷ cs) d w =
      run-IsMemory cs (step registry paused handler show joined incoming now d).1
        (step-IsMemory incoming now d w)

  run-Within :
      (k : String) (n : ℕ) (cs : List (IncomingCommand × ℕ)) (d : Dispatcher)
      → n + length cs < dedup_window
      → Within k n d.recent_keys
      → Within k (n + length cs) (run cs d).recent_keys
  run-Within k n [] d l h = Within-raise k n (n + 0) d.recent_keys (omega arith) h
  run-Within k n ((incoming, now) ∷ cs) d l h =
      let d' = (step registry paused handler show joined incoming now d).1 in
      Within-raise k (n + 1 + length cs) (n + length ((incoming, now) ∷ cs)) (run cs d').recent_keys
        (omega arith)
        (run-Within k (n + 1) cs d' (omega arith) (step-Within k n incoming now d (omega arith) h))

  -- the registry has one specification of a command
  same-key :
      (incoming : IncomingCommand) (now : ℕ) (spec spec' : CommandSpec) (k : String)
      → registry incoming.command_name ≡ some spec
      → registry incoming.command_name ≡ some spec'
      → key_of registry paused handler show joined spec incoming now ≡ some k
      → key_of registry paused handler show joined spec' incoming now ≡ some k
  same-key incoming now spec spec' k known known' key = cc

  fresh :
      (key : Option String) (k : String) (d : Dispatcher)
      → key ≡ some k
      → is_repeated registry paused handler show joined key d ≡ false
      → has_key k d.recent_keys_set ≡ false
  fresh none k d h f = ground arith
  fresh (some j) k d h f = ground arith

  -- A command that its handler has carried out, under a key, has the key in front.
  step-front :
      (incoming : IncomingCommand) (now : ℕ) (d : Dispatcher) (spec : CommandSpec) (k : String)
      → registry incoming.command_name ≡ some spec
      → key_of registry paused handler show joined spec incoming now ≡ some k
      → (step registry paused handler show joined incoming now d).0 ≡ answer done
      → Within k 0 (step registry paused handler show joined incoming now d).1.recent_keys
  unfolding remember
  step-front incoming now d spec k known key carried = elim (step-cases incoming now d) [
    | inl (_, refused) ↦ absurd (refused carried)
    | inr (spec', (known', fresh_key, e)) ↦
        let key' = same-key incoming now spec spec' k known known' key in
        let finished : is_done (handler incoming) ≡ true =
          ap {A = CommandResult} {B = Bool} (λ r. is_done r.status)
            (sym (ap {A = CommandResult × Dispatcher} {B = CommandResult} (λ x. x.0) e)
              ∙ carried) in
        rw (e, key', finished)
          (record_key-front k (record d { handled = incoming ∷ d.handled })
            (fresh (key_of registry paused handler show joined spec' incoming now) k d key'
              fresh_key))
  ]

  repeated-same :
      (incoming : IncomingCommand) (now : ℕ) (d : Dispatcher) (spec : CommandSpec) (k : String)
      → registry incoming.command_name ≡ some spec
      → key_of registry paused handler show joined spec incoming now ≡ some k
      → has_key k d.recent_keys_set ≡ true
      → (step registry paused handler show joined incoming now d).1 ≡ d
  repeated-same incoming now d spec k known key seen = elim (step-cases incoming now d) [
    | inl (same, _) ↦ same
    | inr (spec', (known', fresh_key, e)) ↦
        let key' = same-key incoming now spec spec' k known known' key in
        let unseen =
          fresh (key_of registry paused handler show joined spec' incoming now) k d key'
            fresh_key in
        absurd (ground arith)
  ]

  -- A command that its handler has carried out, under a key, is carried out no more under that key
  -- while fewer than 1024 further commands are dispatched: a command with the same key then changes
  -- nothing.
  pub dispatched_once :
      (incoming : IncomingCommand) (now : ℕ) (d : Dispatcher) (spec : CommandSpec) (k : String)
      (cs : List (IncomingCommand × ℕ)) (incoming' : IncomingCommand) (now' : ℕ)
      (spec' : CommandSpec)
      → IsMemory d
      → registry incoming.command_name ≡ some spec
      → key_of registry paused handler show joined spec incoming now ≡ some k
      → (step registry paused handler show joined incoming now d).0 ≡ answer done
      → length cs < dedup_window
      → registry incoming'.command_name ≡ some spec'
      → key_of registry paused handler show joined spec' incoming' now' ≡ some k
      → let after = run ((incoming, now) ∷ cs) d in
        (step registry paused handler show joined incoming' now' after).1 ≡ after
  dispatched_once incoming now d spec k cs incoming' now' spec' w known key carried few known'
        key' =
      let d' = (step registry paused handler show joined incoming now d).1 in
      let kept =
        run-Within k 0 cs d' (omega arith) (step-front incoming now d spec k known key carried) in
      repeated-same incoming' now' (run cs d') spec' k known' key' (
        (run-IsMemory cs d' (step-IsMemory incoming now d w)).same k
        ∙ Within-has_key k (0 + length cs) (run cs d').recent_keys kept)
