-- ===== src/Lock/Exclusion/Safety.antt =====
-- internal/lock/manager.go: the holders of the lock of one name, over the events.
use sky_lock.Common.{
  ℕ, ◌≡◌, ◌≢◌, refl, sym, ap, ◌∙◌, inl, true, List, Text, text, lookup, ok, arith,
}
use sky_lock.Path.{normalize_path, parent_path}
use sky_lock.Path.Segments.{IsProper}
use sky_lock.Store.{Store, create, new_store}
use sky_lock.Store.Tree.{has_name}
use sky_lock.Store.Listing.{lists}
use sky_lock.Store.ListingCreate.{create-Adds}
use sky_lock.Lock.{Lock, check_lock_acquired, Outcome, held, failed, waits, lock_path, try_lock}
use sky_lock.Lock.First.{text_lt_total}
use sky_lock.Lock.Waiting.{wake}
use sky_lock.Lock.Exclusion.{
  Site, Step, try_step, other_try_step, wake_step, time_out_step, unlock_step, manager_step,
  create_step, set_step, delete_step, expire_step, new_site, Reachable, here, next, add_holder,
}
use sky_lock.Lock.Exclusion.Effects.{
  wake-Contends, time_out-Calm, unlock-Calm, delete_node-Calm, set-Calm, delete_ephemerals-Calm,
}
use sky_lock.Lock.Exclusion.Tries.{Adds-away, try_lock-Tries}
use sky_lock.Lock.Exclusion.Fairness.{IsFair, grow-IsFair, shrink-IsFair, hold-IsFair}

module _ (name : Text) (proper : IsProper name) where
  abbrev Fair : Site → Type 0
  Fair y = IsFair name y.world.store y.holders

  below_locks : text "/locks" ≢ lock_path name
  below_locks e = ground (arith, e)

  -- The holders after a call that may acquire the lock.
  add_holder-IsFair :
      (o : Outcome) (s : Store) (hs : List Text)
      → ((l : Lock) → o ≡ held l → check_lock_acquired (lock_path name) l.path s ≡ ok true)
      → IsFair name s hs
      → IsFair name s (add_holder name o hs)
  add_holder-IsFair (held l) s hs front fair =
      hold-IsFair name s hs l.path proper (front l refl) fair
  add_holder-IsFair (failed e) s hs front fair = fair
  add_holder-IsFair (waits l) s hs front fair = fair

  Step-IsFair : (y z : Site) → Step name y z → Fair y → Fair z
  Step-IsFair y z (try_step a same room) fair =
      let (counter, grows, front) =
        try_lock-Tries (lock_path name) a y.world (rw same proper) below_locks in
      let own = ap lock_path same in
      add_holder-IsFair (try_lock a y.world).2 (try_lock a y.world).0.store y.holders
        (λ l e.
          ap (λ d. check_lock_acquired d l.path (try_lock a y.world).0.store) (sym own) ∙ front l e)
        (grow-IsFair name y.world.store (try_lock a y.world).0.store y.holders room counter
          (λ x h. ground (arith, grows x h)) fair)
  Step-IsFair y z (other_try_step a proper' other room) fair =
      let (counter, grows, _) = try_lock-Tries (lock_path name) a y.world proper' below_locks in
      grow-IsFair name y.world.store (try_lock a y.world).0.store y.holders room counter
        (λ x h. ground (arith, grows x h)) fair
  Step-IsFair y z (wake_step now channel lock same) fair =
      let (calm, front) = wake-Contends (lock_path name) now lock y.world channel in
      let s' = (wake now channel lock y.world).0.store in
      let own = ap lock_path same in
      add_holder-IsFair (wake now channel lock y.world).2 s' y.holders
        (λ l e. ap (λ d. check_lock_acquired d l.path s') (sym own) ∙ front l e)
        (shrink-IsFair name y.world.store s' y.holders calm.0 calm.1 fair)
  Step-IsFair y z (time_out_step channel lock) fair =
      let calm = time_out-Calm (lock_path name) channel lock y.world in
      shrink-IsFair name _ _ y.holders calm.0 calm.1 fair
  Step-IsFair y z (unlock_step lock) fair =
      let calm = unlock-Calm (lock_path name) lock y.world in
      shrink-IsFair name _ _ y.holders calm.0 calm.1 fair
  Step-IsFair y z (manager_step m) fair = fair
  Step-IsFair y z (create_step c node_path away room) fair =
      let path = normalize_path node_path in
      let s = y.world.store in
      let (shrinks, counter) =
        Adds-away (lock_path name) c (parent_path path) path s (create c node_path s)
          (create-Adds (lock_path name) c node_path s) away in
      grow-IsFair name s (create c node_path s).0 y.holders room (ground (arith, counter))
        (λ x h. inl (shrinks x h)) fair
  Step-IsFair y z (set_step now node_path payload expected) fair =
      let calm = set-Calm (lock_path name) now node_path payload expected y.world.store in
      shrink-IsFair name _ _ y.holders calm.0 calm.1 fair
  Step-IsFair y z (delete_step node_path expected) fair =
      let calm = delete_node-Calm (lock_path name) node_path expected y.world.store in
      shrink-IsFair name _ _ y.holders calm.0 calm.1 fair
  Step-IsFair y z (expire_step session_id) fair =
      let calm = delete_ephemerals-Calm (lock_path name) session_id y.world.store in
      shrink-IsFair name _ _ y.holders calm.0 calm.1 fair

  new_site-IsFair : (now : ℕ) → Fair (new_site now)
  unfolding new_store lookup has_name
  new_site-IsFair now = record {
    tickets = λ x h. absurd (ground (arith, h));
    issued = λ h held. absurd (ground (arith, held));
    first = λ h x held there here. absurd (ground (arith, held));
    small = omega arith;
  }

  Reachable-IsFair : (now : ℕ) (y : Site) → Reachable name (new_site now) y → Fair y
  Reachable-IsFair now _ here = new_site-IsFair now
  Reachable-IsFair now z (next {y = y} reached step) =
      Step-IsFair y z step (Reachable-IsFair now y reached)

  -- For a lock name that is one path segment, over any sequence of calls of the lock manager and
  -- the store that begins with an empty store, keeps the sequence numbers below 10^10, and creates
  -- nodes in the lock directory by TryLock only: of the nodes with which the lock has been
  -- acquired, by TryLock or by a wake-up, at most one is still listed in the lock directory.
  pub one_holder :
      (now : ℕ) (y : Site) (h h' : Text)
      → Reachable name (new_site now) y
      → has_name h y.holders ≡ true
      → has_name h' y.holders ≡ true
      → lists (lock_path name) h y.world.store.nodes ≡ true
      → lists (lock_path name) h' y.world.store.nodes ≡ true
      → h ≡ h'
  one_holder now y h h' reached was was' there there' =
      let fair = Reachable-IsFair now y reached in
      text_lt_total h h' (fair.first h' h was' there' there) (fair.first h h' was there there')
