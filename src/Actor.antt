-- ===== src/Actor.antt =====
-- lib/Framework/ActorInterface.hpp: the lock between the threads that work on an actor and those
-- that call it. One `Move` is one access to what the threads share; a thread's `Pc` says which access
-- comes next. A notification changes no shared state, so it is part of the access before it, and a
-- thread that waits may go on at any time, as the waits have timeouts.
pub mod Inv
pub mod Safety
pub mod Progress
mod Tests
use pothos_core.Base.{
  ℕ, ◌+◌, ◌-◌, ◌%◌, ◌^◌, ◌<◌, ◌≡◌, Bool, true, false, List, replicate, set, get_elem?, Option, some,
}

-- the atomic counter of type `unsigned`
abbrev pub increment : ℕ → ℕ
increment n = (n + 1) % 2 ^ 32

abbrev pub decrement : ℕ → ℕ
decrement n = (n + (2 ^ 32 - 1)) % 2 ^ 32

-- What the threads share. `change_flagged` is that `_changeFlagged` is clear; `unserved` is not in
-- the code: a change was flagged, and no worker acquired the actor since.
pub record Actor : Type 0 where
  pub change_flagged : Bool
  pub external_acquired : ℕ
  pub ext_call_lock : Bool
  pub acquire_mutex : Bool
  pub aquire_waiting : Bool
  pub unserved : Bool

-- Where `isReady` is called: without waiting; before waiting, without the mutex; in the wait; in
-- the wait after its timeout.
pub data Stage : Type 0 where
  quick first held last : Stage

pub data Pc : Type 0 where
  outside : Pc
  -- externalCallAcquire
  acquire_locked acquire_trying acquire_failed acquire_waiting acquired : Pc
  -- the call, and externalCallRelease
  in_call release_counted release_unlocked : Pc
  -- _workerThreadAcquireWait: `isReady`, and the wait
  check test : Stage → Pc
  announce locking nap sleeping : Pc
  wait_over wait_stored : Bool → Pc
  -- workerThreadAcquire, and the work
  taken refused working : Pc

abbrev pub when_ready : Stage → Pc
when_ready quick = taken
when_ready first = taken
when_ready held = wait_over true
when_ready last = wait_over true

abbrev pub when_not_ready : Stage → Pc
when_not_ready quick = outside
when_not_ready first = announce
when_not_ready held = nap
when_not_ready last = wait_over false

abbrev pub after_wait : Bool → Pc
after_wait true = taken
after_wait false = outside

pub data Move (a : Actor) : Pc → Actor → Pc → Type 0 where
  -- flagExternalChange and flagInternalChange, which any thread may call at any time
  flag_change : {p : Pc} → Move a p (record a { change_flagged = true; unserved = true }) p
  -- externalCallAcquire
  lock_mutex :
      a.acquire_mutex ≡ false → Move a outside (record a { acquire_mutex = true }) acquire_locked
  count_caller :
      Move a acquire_locked
        (record a { external_acquired = increment a.external_acquired })
        acquire_trying
  try_acquire :
      a.ext_call_lock ≡ false → Move a acquire_trying (record a { ext_call_lock = true }) acquired
  fail_acquire : a.ext_call_lock ≡ true → Move a acquire_trying a acquire_failed
  wait_call : Move a acquire_failed (record a { acquire_mutex = false }) acquire_waiting
  wake_call :
      a.acquire_mutex ≡ false
      → Move a acquire_waiting (record a { acquire_mutex = true }) acquire_trying
  begin_call : Move a acquired (record a { acquire_mutex = false }) in_call
  -- externalCallRelease
  uncount_caller :
      Move a in_call
        (record a { external_acquired = decrement a.external_acquired })
        release_counted
  unlock_call : Move a release_counted (record a { ext_call_lock = false }) release_unlocked
  flag_call : Move a release_unlocked (record a { change_flagged = true; unserved = true }) outside
  -- workerThreadAcquire(false) and workerThreadAcquire(true)
  start_quick : Move a outside a (check quick)
  start_wait : Move a outside a (check first)
  -- isReady
  no_call : {s : Stage} → a.external_acquired ≡ 0 → Move a (check s) a (test s)
  some_call : {s : Stage} → 0 < a.external_acquired → Move a (check s) a (when_not_ready s)
  take_change :
      {s : Stage}
      → a.change_flagged ≡ true
      → Move a (test s) (record a { change_flagged = false }) (when_ready s)
  no_change : {s : Stage} → a.change_flagged ≡ false → Move a (test s) a (when_not_ready s)
  -- the wait
  announce_wait : Move a announce (record a { aquire_waiting = true }) locking
  lock_wait :
      a.acquire_mutex ≡ false → Move a locking (record a { acquire_mutex = true }) (check held)
  sleep : Move a nap (record a { acquire_mutex = false }) sleeping
  notified :
      a.acquire_mutex ≡ false → Move a sleeping (record a { acquire_mutex = true }) (check held)
  timed_out :
      a.acquire_mutex ≡ false → Move a sleeping (record a { acquire_mutex = true }) (check last)
  store_over :
      {b : Bool} → Move a (wait_over b) (record a { aquire_waiting = false }) (wait_stored b)
  unlock_wait :
      {b : Bool} → Move a (wait_stored b) (record a { acquire_mutex = false }) (after_wait b)
  -- the rest of workerThreadAcquire
  lock_worker :
      a.ext_call_lock ≡ false
      → Move a taken (record a { ext_call_lock = true; unserved = false }) working
  refuse_worker : a.ext_call_lock ≡ true → Move a taken a refused
  flag_again : Move a refused (record a { change_flagged = true; unserved = true }) outside
  -- workerThreadRelease
  release_worker : Move a working (record a { ext_call_lock = false }) outside

pub record System : Type 0 where
  pub actor : Actor
  pub threads : List Pc

-- the constructor, and `n` threads that have not yet called
abbrev pub init : ℕ → System
init n = record {
  actor = record {
    change_flagged = false;
    external_acquired = 0;
    ext_call_lock = false;
    acquire_mutex = false;
    aquire_waiting = false;
    unserved = false;
  };
  threads = replicate n outside;
}

pub data Step (s : System) : System → Type 0 where
  pick :
      (i : ℕ) {p : Pc} {a : Actor} {q : Pc}
      → get_elem? s.threads i ≡ some p
      → Move s.actor p a q
      → Step s (record { actor = a; threads = set s.threads i q })

pub data Reach (n : ℕ) : System → Type 0 where
  start : Reach n (init n)
  later : {s t : System} → Reach n s → Step s t → Reach n t
