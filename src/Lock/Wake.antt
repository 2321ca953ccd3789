-- ===== src/Lock/Wake.antt =====
-- internal/lock/manager.go, `waitForLock`: a waiter that takes a signal.
use sky_lock.Common.{
  ℕ, ◌≡◌, refl, ◌∙◌, Bool, true, false, some, List, [], ◌∷◌, ap, ◌≢◌, ◌++◌, Text, text, str_eq_refl,
  lookup, put, lookup-put, Result, ok, err, arith,
}
use sky_lock.Path.{normalize_path}
use sky_lock.Store.{StoreError}
use sky_lock.Lock.{
  Lock, Waiter, Manager, World, Outcome, held, failed, waits, store_error, waiters_of, lock_path,
  trim_prefix, hold,
}
use sky_lock.Lock.First.{front_of, check_lock_acquired_lem}
use sky_lock.Lock.Waiting.{cut_waiter, take_signal, stop_waiting, wake}

-- How the wait goes on, from whether the lock node is at the front.
abbrev pub woken : ℕ → Lock → Result StoreError Bool → Outcome
woken now lock (err e) = failed (store_error e)
woken now lock (ok true) = held (record lock { acquired = now })
woken now lock (ok false) = waits lock

-- What is left of the waiter: it waits on, without a signal, or it is gone.
abbrev pub left_of : ℕ → Result StoreError Bool → List Waiter
left_of channel (ok false) = record { channel = channel; signalled = false } ∷ []
left_of channel (ok true) = []
left_of channel (err e) = []

-- Waiters on other channels.
abbrev pub Others : ℕ → List Waiter → Type 0
Others channel [] = Unit
Others channel (w ∷ ws) = (w.channel ≢ channel) × Others channel ws

module _ (channel : ℕ) (signalled : Bool) (after : List Waiter) where
  abbrev pub waiter : Waiter
  waiter = record { channel = channel; signalled = signalled }

  abbrev pub waiting : Waiter
  waiting = record { channel = channel; signalled = false }

  take_signal_lem :
      (before : List Waiter)
      → Others channel before
      → take_signal channel (before ++ waiter ∷ after) ≡ before ++ waiting ∷ after
  unfolding take_signal
  take_signal_lem [] others = ground arith
  take_signal_lem (w ∷ ws) (other, others) = ground (arith, other, take_signal_lem ws others)

  cut_waiter_lem :
      (before : List Waiter)
      → Others channel before
      → cut_waiter channel (before ++ waiter ∷ after) ≡ before ++ after
  unfolding cut_waiter
  cut_waiter_lem [] others = ground arith
  cut_waiter_lem (w ∷ ws) (other, others) = ground (arith, other, cut_waiter_lem ws others)

waiters_of-taken :
    (name : Text) (ws : List Waiter) (m : Manager)
    → lookup name m.waiters ≡ some ws
    → waiters_of name m ≡ ws
unfolding waiters_of
waiters_of-taken name ws m there = ground (arith, there)

waiters_of-stop_waiting :
    (channel : ℕ) (lock : Lock) (ws : List Waiter) (m : Manager)
    → lookup lock.name m.waiters ≡ some ws
    → waiters_of lock.name (stop_waiting channel lock m) ≡ cut_waiter channel ws
unfolding stop_waiting waiters_of
waiters_of-stop_waiting channel lock ws m there = ground (
  arith,
  there,
  lookup-put lock.name lock.name (cut_waiter channel ws) m.waiters,
  str_eq_refl lock.name,
)

-- The waiters after the code's own steps.
abbrev stepped : ℕ → Result StoreError Bool → List Waiter → List Waiter
stepped channel (ok false) ws = take_signal channel ws
stepped channel (ok true) ws = cut_waiter channel (take_signal channel ws)
stepped channel (err e) ws = cut_waiter channel (take_signal channel ws)

-- Whether the node of the lock is at the front.
abbrev pub answer_of : Lock → World → Result StoreError Bool
answer_of lock w =
    front_of (trim_prefix lock.path (lock_path lock.name ++ text "/"))
      (lookup (normalize_path (lock_path lock.name)) w.store.nodes)

wake-stepped :
    (now channel : ℕ) (lock : Lock) (w : World)
    → let (w', _, outcome) = wake now channel lock w in
      (outcome ≡ woken now lock (answer_of lock w))
      × (waiters_of lock.name w'.manager
          ≡ stepped channel (answer_of lock w) (waiters_of lock.name w.manager))
unfolding wake hold
wake-stepped now channel lock w =
    let name = lock.name in
    let ws = take_signal channel (waiters_of name w.manager) in
    let taken : Manager = record w.manager { waiters = put name ws w.manager.waiters } in
    let holding : Manager = record taken {
      locks = put lock.path (record lock { acquired = now }) taken.locks;
    } in
    let there : lookup name taken.waiters ≡ some ws =
      lookup-put name name ws w.manager.waiters ∙ rw (str_eq_refl name) refl in
    ground (
      arith,
      check_lock_acquired_lem (lock_path lock.name) lock.path w.store,
      waiters_of-taken name ws taken there,
      waiters_of-stop_waiting channel lock ws taken there,
      waiters_of-stop_waiting channel lock ws holding there,
    )

stepped_lem :
    (channel : ℕ) (signalled : Bool) (before after ws : List Waiter)
    (answer : Result StoreError Bool)
    → ws ≡ before ++ waiter channel signalled after ∷ after
    → Others channel before
    → stepped channel answer ws ≡ before ++ (left_of channel answer ++ after)
stepped_lem channel signalled before after ws answer listed others =
    let taken : take_signal channel ws ≡ before ++ waiting channel signalled after ∷ after =
      ap (take_signal channel) listed ∙ take_signal_lem channel signalled after before others in
    let cut : cut_waiter channel (take_signal channel ws) ≡ before ++ after =
      ap (cut_waiter channel) taken ∙ cut_waiter_lem channel false after before others in
    by_answer answer taken cut
  where
    by_answer :
        (answer : Result StoreError Bool)
        → take_signal channel ws ≡ before ++ waiting channel signalled after ∷ after
        → cut_waiter channel (take_signal channel ws) ≡ before ++ after
        → stepped channel answer ws ≡ before ++ (left_of channel answer ++ after)
    by_answer (ok false) taken cut = taken
    by_answer (ok true) taken cut = cut
    by_answer (err e) taken cut = cut

-- A waiter that takes a signal holds the lock when its node is at the front of the lock directory,
-- goes on waiting when it is not, and fails with the store's error when the directory is gone. Of
-- the waiters of the lock, among which it is the first on its channel, it stays in its place,
-- without a signal, only while it waits, and the others stay as they are.
pub wake_lem :
    (now channel : ℕ) (signalled : Bool) (before after : List Waiter) (lock : Lock) (w : World)
    → waiters_of lock.name w.manager
      ≡ before ++ record { channel = channel; signalled = signalled } ∷ after
    → Others channel before
    → let answer =
        front_of
          (trim_prefix lock.path (lock_path lock.name ++ text "/"))
          (lookup (normalize_path (lock_path lock.name)) w.store.nodes) in
      let (w', _, outcome) = wake now channel lock w in
      (outcome ≡ woken now lock answer)
      × (waiters_of lock.name w'.manager ≡ before ++ (left_of channel answer ++ after))
wake_lem now channel signalled before after lock w listed others =
    let (outcome, left) = wake-stepped now channel lock w in
    let after_steps =
      stepped_lem channel signalled before after (waiters_of lock.name w.manager) (answer_of lock w)
        listed others in
    (outcome, left ∙ after_steps)
