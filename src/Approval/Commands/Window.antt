-- ===== src/Approval/Commands/Window.antt =====
-- The dispatcher's memory of keys: the deque and the set agree, and how long a key stays.
use iguanatrader.Approval.Commands.{record_key, resync, Dispatcher, dedup_window, has_key, bounded}
use iguanatrader.Common.{
  ℕ, any-append, ◌∷◌, refl, List, arith, ◌++◌, leb, ◌-◌, length, inl, ◌≡◌, Bool-cases, inr, ◌≤◌,
  suc, ◌<◌, ◌+◌, drop, zero, [], str_eq, String, false,
}
use iguanatrader.Shared.Bus.Dedup.{Within, Within-self, Within-raise, Within-append}
use iguanatrader.Shared.Bus.{has_key}

-- The deque holds no more keys than the window; the set holds the same keys.
pub record IsMemory (d : Dispatcher) : Type 0 where
  pub bound : length d.recent_keys ≤ dedup_window
  pub same : (k : String) → has_key k d.recent_keys_set ≡ has_key k d.recent_keys

length-drop : (n : ℕ) (ks : List String) → length (drop n ks) ≡ length ks - n
length-drop zero ks = ground arith
length-drop (suc n) [] = omega arith
length-drop (suc n) (k ∷ ks) = ground (arith, length-drop n ks)

Within-drop :
    (k : String) (m n : ℕ) (ks : List String)
    → Within k m ks
    → m + n < length ks
    → Within k m (drop n ks)
Within-drop k m zero ks h l = h
Within-drop k m (suc n) [] h l = absurd h
Within-drop k m (suc n) (j ∷ ks) (inl (e, i)) l = absurd (omega arith)
Within-drop k m (suc n) (j ∷ ks) (inr h) l = Within-drop k m n ks h (omega arith)

drop-short : (n : ℕ) (ks : List String) → n ≡ 0 → drop n ks ≡ ks
drop-short zero ks h = refl
drop-short (suc n) ks h = absurd (omega arith)

pub record_key-IsMemory : (key : String) (d : Dispatcher) → IsMemory d → IsMemory (record_key key d)
unfolding record_key resync
record_key-IsMemory key d w = elim (Bool-cases (has_key key d.recent_keys_set)) [
  | inl seen ↦ rw seen w
  | inr new ↦
      let appended = d.recent_keys ++ key ∷ [] in
      let keys = bounded appended in
      elim (Bool-cases (leb dedup_window (length keys))) [
        | inl full ↦
            rw (new, full)
              (record {
                bound = omega (arith, length-drop (length appended - 1024) appended);
                same = λ k. refl;
              })
        | inr room ↦
            let whole : keys ≡ appended =
              drop-short (length appended - 1024) appended
                (ground (arith, length-drop (length appended - 1024) appended)) in
            rw (new, room)
              (record {
                bound = omega (arith, length-drop (length appended - 1024) appended);
                same = λ k. rw whole (
                    ground
                      (arith, w.same k, any-append (λ i. str_eq i k) d.recent_keys (key ∷ [])));
              })
      ]
]

pub resync-keys :
    (keys : List String) (key : String) (d : Dispatcher) → (resync keys key d).recent_keys ≡ keys
unfolding resync
resync-keys keys key d = ground arith

Within-bounded :
    (k : String) (n : ℕ) (ks : List String)
    → n < dedup_window
    → Within k n ks
    → Within k n (bounded ks)
Within-bounded k n ks l h = elim (Bool-cases (leb dedup_window (length ks))) [
  | inl full ↦ Within-drop k n (length ks - 1024) ks h (ground arith)
  | inr room ↦ rw (drop-short (length ks - 1024) ks (ground arith)) h
]

-- One more recorded key ages `k` by one at most.
pub record_key-Within :
    (k key : String) (n : ℕ) (d : Dispatcher)
    → n + 1 < dedup_window
    → Within k n d.recent_keys
    → Within k (n + 1) (record_key key d).recent_keys
unfolding record_key
record_key-Within k key n d l h = elim (Bool-cases (has_key key d.recent_keys_set)) [
  | inl seen ↦ rw seen (Within-raise k n (n + 1) d.recent_keys (omega arith) h)
  | inr new ↦
      rw (new, resync-keys (bounded (d.recent_keys ++ key ∷ [])) key d)
        (Within-bounded k (n + 1) (d.recent_keys ++ key ∷ []) l
          (Within-append k key n d.recent_keys h))
]

-- A new key is in front.
pub record_key-front :
    (key : String) (d : Dispatcher)
    → has_key key d.recent_keys_set ≡ false
    → Within key 0 (record_key key d).recent_keys
unfolding record_key
record_key-front key d new =
    rw (new, resync-keys (bounded (d.recent_keys ++ key ∷ [])) key d)
      (Within-bounded key 0 (d.recent_keys ++ key ∷ []) (omega arith)
        (Within-self key d.recent_keys))
