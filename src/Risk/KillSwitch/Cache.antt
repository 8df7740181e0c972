-- ===== src/Risk/KillSwitch/Cache.antt =====
-- The upsert of the cache row: what it stores, whom it leaves alone, and when it reports a change.
use iguanatrader.Common.{
  ℕ, ◌≡◌, Bool, false, List, [], ◌∷◌, any, arith, ◌==◌, Bool-cases, true, ◌≢◌, any-append, inl, inr,
  ◌&&◌, refl, ◌++◌, String, Option,
}
use iguanatrader.Risk.KillSwitch.{
  CacheRow, update_where, load_kill_switch_state, update_kill_switch_cache, differs,
  KillSwitchTransition, KillSwitchSource, SwitchStore, switch, target_state,
}
use iguanatrader.Risk.Models.{KillSwitchTransition, KillSwitchSource}

-- One row for each tenant at most: the table's primary key.
abbrev pub IsKeyed : List CacheRow → Type 0
IsKeyed [] = Unit
IsKeyed (r ∷ rs) = (any (λ r'. r'.tenant_id == r.tenant_id) rs ≡ false) × IsKeyed rs

-- After the upsert the tenant's cached state is the new one.
pub load-update_self :
    (t : ℕ) (b : Bool) (e at : ℕ) (rows : List CacheRow)
    → load_kill_switch_state t (update_kill_switch_cache t b e at rows).0 ≡ b
unfolding load_kill_switch_state update_kill_switch_cache update_where
load-update_self t b e at [] = ground arith
load-update_self t b e at (r ∷ rows) = ground (arith, load-update_self t b e at rows)

update_where-other :
    (t u : ℕ) (p : CacheRow → Bool) (f : CacheRow → CacheRow) (rows : List CacheRow)
    → t ≢ u
    → ((r : CacheRow) → p r ≡ true → r.tenant_id ≡ t)
    → ((r : CacheRow) → (f r).tenant_id ≡ r.tenant_id)
    → load_kill_switch_state u (update_where p f rows) ≡ load_kill_switch_state u rows
unfolding load_kill_switch_state update_where
update_where-other t u p f [] ne only keeps = refl
update_where-other t u p f (r ∷ rows) ne only keeps =
    ground (arith, only r, keeps r, update_where-other t u p f rows ne only keeps)

load-append_other :
    (u : ℕ) (r : CacheRow) (rows : List CacheRow)
    → r.tenant_id ≢ u
    → load_kill_switch_state u (rows ++ r ∷ []) ≡ load_kill_switch_state u rows
unfolding load_kill_switch_state
load-append_other u r [] ne = ground arith
load-append_other u r (x ∷ rows) ne = ground (arith, load-append_other u r rows ne)

-- The upsert of one tenant leaves what is cached for every other tenant.
pub load-update_ne :
    (t u : ℕ) (b : Bool) (e at : ℕ) (rows : List CacheRow)
    → t ≢ u
    → load_kill_switch_state u (update_kill_switch_cache t b e at rows).0
      ≡ load_kill_switch_state u rows
unfolding update_kill_switch_cache
load-update_ne t u b e at rows ne =
    elim (Bool-cases (any (λ r. r.tenant_id == t && differs r.is_active b) rows)) [
      | inl h ↦ rw h (update_where-other t u _ _ rows ne (λ r k. ground arith) (λ r. refl))
      | inr h ↦ elim (Bool-cases (any (λ r. r.tenant_id == t) rows)) [
        | inl k ↦ rw (h, k) (update_where-other t u _ _ rows ne (λ r k. ground arith) (λ r. refl))
        | inr k ↦ rw (h, k) (load-append_other u _ rows ne)
      ]
    ]

absent-load :
    (t : ℕ) (rows : List CacheRow)
    → any (λ r. r.tenant_id == t) rows ≡ false
    → load_kill_switch_state t rows ≡ false
unfolding load_kill_switch_state
absent-load t [] h = refl
absent-load t (r ∷ rows) h = ground (arith, absent-load t rows)

absent-differs :
    (t : ℕ) (b : Bool) (rows : List CacheRow)
    → any (λ r. r.tenant_id == t) rows ≡ false
    → any (λ r. r.tenant_id == t && differs r.is_active b) rows ≡ false
absent-differs t b [] h = refl
absent-differs t b (r ∷ rows) h = ground (arith, absent-differs t b rows)

differs-load :
    (t : ℕ) (b : Bool) (rows : List CacheRow)
    → IsKeyed rows
    → any (λ r. r.tenant_id == t) rows ≡ true
    → any (λ r. r.tenant_id == t && differs r.is_active b) rows
      ≡ differs (load_kill_switch_state t rows) b
unfolding load_kill_switch_state
differs-load t b [] keyed h = cc
differs-load t b (r ∷ rows) keyed h = elim (Bool-cases (r.tenant_id == t)) [
  | inl e ↦ ground (arith, absent-differs t b rows)
  | inr e ↦ ground (arith, differs-load t b rows keyed.1)
]

-- On a cache with one row at most for each tenant, the update reports a change exactly when the
-- cached state was another one.
pub update_changed :
    (t : ℕ) (b : Bool) (e at : ℕ) (rows : List CacheRow)
    → IsKeyed rows
    → (update_kill_switch_cache t b e at rows).1 ≡ differs (load_kill_switch_state t rows) b
unfolding update_kill_switch_cache
update_changed t b e at rows keyed = elim (Bool-cases (any (λ r. r.tenant_id == t) rows)) [
  | inl known ↦ ground (arith, differs-load t b rows keyed known)
  | inr new ↦ ground (arith, absent-load t rows, absent-differs t b rows)
]

update_where-any :
    (t : ℕ) (p : CacheRow → Bool) (f : CacheRow → CacheRow) (rows : List CacheRow)
    → ((r : CacheRow) → (f r).tenant_id ≡ r.tenant_id)
    → any (λ r. r.tenant_id == t) (update_where p f rows) ≡ any (λ r. r.tenant_id == t) rows
unfolding update_where
update_where-any t p f [] keeps = refl
update_where-any t p f (r ∷ rows) keeps = ground (arith, keeps r, update_where-any t p f rows keeps)

update_where-IsKeyed :
    (p : CacheRow → Bool) (f : CacheRow → CacheRow) (rows : List CacheRow)
    → ((r : CacheRow) → (f r).tenant_id ≡ r.tenant_id)
    → IsKeyed rows
    → IsKeyed (update_where p f rows)
unfolding update_where
update_where-IsKeyed p f [] keeps k = tt
update_where-IsKeyed p f (r ∷ rows) keeps k = ground (
  arith,
  keeps r,
  update_where-any r.tenant_id p f rows keeps,
  update_where-IsKeyed p f rows keeps k.1,
)

append-IsKeyed :
    (r : CacheRow) (rows : List CacheRow)
    → any (λ r'. r'.tenant_id == r.tenant_id) rows ≡ false
    → IsKeyed rows
    → IsKeyed (rows ++ r ∷ [])
append-IsKeyed r [] new k = (refl, tt)
append-IsKeyed r (x ∷ rows) new k =
    ground
      (arith, append-IsKeyed r rows, any-append (λ r'. r'.tenant_id == x.tenant_id) rows (r ∷ []))

-- The upsert keeps the table's key.
pub update-IsKeyed :
    (t : ℕ) (b : Bool) (e at : ℕ) (rows : List CacheRow)
    → IsKeyed rows
    → IsKeyed (update_kill_switch_cache t b e at rows).0
unfolding update_kill_switch_cache
update-IsKeyed t b e at rows keyed =
    elim (Bool-cases (any (λ r. r.tenant_id == t && differs r.is_active b) rows)) [
      | inl h ↦ rw h (update_where-IsKeyed _ _ rows (λ r. refl) keyed)
      | inr h ↦ elim (Bool-cases (any (λ r. r.tenant_id == t) rows)) [
        | inl k ↦ rw (h, k) (update_where-IsKeyed _ _ rows (λ r. refl) keyed)
        | inr k ↦ rw (h, k) (append-IsKeyed _ rows k keyed)
      ]
    ]

-- One transition through the service: the cache that it leaves, and its row in the log.
module _ (transition : KillSwitchTransition) (t : ℕ) (source : KillSwitchSource) (actor : Option ℕ)
    (reason : Option String) (at : ℕ) (db : SwitchStore) where
  pub switch-load :
      load_kill_switch_state t (switch transition t source actor reason at db).0.cache
      ≡ target_state transition
  unfolding switch
  switch-load = ground (arith, load-update_self t (target_state transition) db.next_id at db.cache)

  pub switch-load_ne :
      (u : ℕ)
      → t ≢ u
      → load_kill_switch_state u (switch transition t source actor reason at db).0.cache
        ≡ load_kill_switch_state u db.cache
  unfolding switch
  switch-load_ne u ne =
      ground (arith, load-update_ne t u (target_state transition) db.next_id at db.cache ne)

  pub switch-events :
      (switch transition t source actor reason at db).0.events
      ≡ record {
        id = db.next_id;
        tenant_id = t;
        transition = transition;
        source = source;
        actor_user_id = actor;
        reason = reason;
        created_at = at;
      }
        ∷ db.events
  unfolding switch
  switch-events = ground arith
