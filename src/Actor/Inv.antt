-- ===== src/Actor/Inv.antt =====
-- What holds in every reachable state of an actor's lock: how many threads stand where.
use pothos_core.Base.{
  ℕ, ◌+◌, ◌^◌, ◌≤◌, ◌<◌, ◌≡◌, ◌∙◌, Bool, true, false, List, length, length-set, length-replicate,
  set, arith,
}
use pothos_core.Actor.{
  Actor, quick, first, held, last, Pc, outside, acquire_locked, acquire_trying, acquire_failed,
  acquire_waiting, acquired, in_call, release_counted, check, test, nap, wait_over, wait_stored,
  taken, refused, working, Move, System, init, Step, pick, Reach, start, later, flag_change,
  lock_mutex, count_caller, try_acquire, fail_acquire, wait_call, wake_call, begin_call,
  uncount_caller, unlock_call, flag_call, start_quick, start_wait, no_call, some_call, take_change,
  no_change, announce_wait, lock_wait, sleep, notified, timed_out, store_over, unlock_wait,
  lock_worker, refuse_worker, flag_again, release_worker,
}
use pothos_core.Base.{total, total-set, total-replicate, total-le, total-get}

abbrev pub bit : Bool → ℕ
bit true = 1
bit false = 0

-- 1 if the thread has the context of the actor
abbrev pub owns : Pc → ℕ
owns acquired = 1
owns in_call = 1
owns release_counted = 1
owns working = 1
owns p = 0

-- 1 if the thread is in an external call, or waits for one
abbrev pub calling : Pc → ℕ
calling acquire_trying = 1
calling acquire_failed = 1
calling acquire_waiting = 1
calling acquired = 1
calling in_call = 1
calling p = 0

-- 1 if the thread holds the mutex
abbrev pub has_mutex : Pc → ℕ
has_mutex acquire_locked = 1
has_mutex acquire_trying = 1
has_mutex acquire_failed = 1
has_mutex acquired = 1
has_mutex (check held) = 1
has_mutex (check last) = 1
has_mutex (test held) = 1
has_mutex (test last) = 1
has_mutex nap = 1
has_mutex (wait_over b) = 1
has_mutex (wait_stored b) = 1
has_mutex p = 0

-- 1 if the thread took a change that it has not yet served or flagged again
abbrev pub serving : Pc → ℕ
serving (wait_over true) = 1
serving (wait_stored true) = 1
serving taken = 1
serving refused = 1
serving p = 0

pub record Invariant (n : ℕ) (s : System) : Type 0 where
  pub size : length s.threads ≡ n
  pub one_owner : total owns s.threads ≡ bit s.actor.ext_call_lock
  pub one_mutex : total has_mutex s.threads ≡ bit s.actor.acquire_mutex
  pub callers : total calling s.threads ≡ s.actor.external_acquired
  pub change_kept : bit s.actor.unserved ≤ bit s.actor.change_flagged + total serving s.threads

init_lem : (n : ℕ) → Invariant n (init n)
init_lem n = record {
  size = length-replicate n outside;
  one_owner = omega (arith, total-replicate owns n outside);
  one_mutex = omega (arith, total-replicate has_mutex n outside);
  callers = omega (arith, total-replicate calling n outside);
  change_kept = omega arith;
}

-- What a move changes, where `c` threads call, and `k` serve a change, before it.
Effect : ℕ → ℕ → Actor → Pc → Actor → Pc → Type 0
Effect c k a p b q =
    (bit b.ext_call_lock + owns p ≡ bit a.ext_call_lock + owns q)
    × (bit b.acquire_mutex + has_mutex p ≡ bit a.acquire_mutex + has_mutex q)
    × (b.external_acquired + calling p ≡ c + calling q)
    × (bit b.unserved + serving p ≤ bit b.change_flagged + (k + serving q))

effect :
    (c k : ℕ) {a b : Actor} {p q : Pc}
    → (m : Move a p b q) → owns p ≤ bit a.ext_call_lock
    → has_mutex p ≤ bit a.acquire_mutex
    → calling p ≤ c
    → c + calling q < 2 ^ 32 + calling p
    → c ≡ a.external_acquired
    → serving p ≤ k
    → bit a.unserved ≤ bit a.change_flagged + k
    → Effect c k a p b q
unfolding Effect
effect c k flag_change h1 h2 h3 h4 h5 h6 h7 = ground arith
effect c k (lock_mutex e) h1 h2 h3 h4 h5 h6 h7 = ground arith
effect c k count_caller h1 h2 h3 h4 h5 h6 h7 = ground arith
effect c k (try_acquire e) h1 h2 h3 h4 h5 h6 h7 = ground arith
effect c k (fail_acquire e) h1 h2 h3 h4 h5 h6 h7 = ground arith
effect c k wait_call h1 h2 h3 h4 h5 h6 h7 = ground arith
effect c k (wake_call e) h1 h2 h3 h4 h5 h6 h7 = ground arith
effect c k begin_call h1 h2 h3 h4 h5 h6 h7 = ground arith
effect c k uncount_caller h1 h2 h3 h4 h5 h6 h7 = ground arith
effect c k unlock_call h1 h2 h3 h4 h5 h6 h7 = ground arith
effect c k flag_call h1 h2 h3 h4 h5 h6 h7 = ground arith
effect c k start_quick h1 h2 h3 h4 h5 h6 h7 = ground arith
effect c k start_wait h1 h2 h3 h4 h5 h6 h7 = ground arith
effect c k (no_call {s = quick} e) h1 h2 h3 h4 h5 h6 h7 = ground arith
effect c k (no_call {s = first} e) h1 h2 h3 h4 h5 h6 h7 = ground arith
effect c k (no_call {s = held} e) h1 h2 h3 h4 h5 h6 h7 = ground arith
effect c k (no_call {s = last} e) h1 h2 h3 h4 h5 h6 h7 = ground arith
effect c k (some_call {s = quick} e) h1 h2 h3 h4 h5 h6 h7 = ground arith
effect c k (some_call {s = first} e) h1 h2 h3 h4 h5 h6 h7 = ground arith
effect c k (some_call {s = held} e) h1 h2 h3 h4 h5 h6 h7 = ground arith
effect c k (some_call {s = last} e) h1 h2 h3 h4 h5 h6 h7 = ground arith
effect c k (take_change {s = quick} e) h1 h2 h3 h4 h5 h6 h7 = ground arith
effect c k (take_change {s = first} e) h1 h2 h3 h4 h5 h6 h7 = ground arith
effect c k (take_change {s = held} e) h1 h2 h3 h4 h5 h6 h7 = ground arith
effect c k (take_change {s = last} e) h1 h2 h3 h4 h5 h6 h7 = ground arith
effect c k (no_change {s = quick} e) h1 h2 h3 h4 h5 h6 h7 = ground arith
effect c k (no_change {s = first} e) h1 h2 h3 h4 h5 h6 h7 = ground arith
effect c k (no_change {s = held} e) h1 h2 h3 h4 h5 h6 h7 = ground arith
effect c k (no_change {s = last} e) h1 h2 h3 h4 h5 h6 h7 = ground arith
effect c k announce_wait h1 h2 h3 h4 h5 h6 h7 = ground arith
effect c k (lock_wait e) h1 h2 h3 h4 h5 h6 h7 = ground arith
effect c k sleep h1 h2 h3 h4 h5 h6 h7 = ground arith
effect c k (notified e) h1 h2 h3 h4 h5 h6 h7 = ground arith
effect c k (timed_out e) h1 h2 h3 h4 h5 h6 h7 = ground arith
effect c k (store_over {b = true}) h1 h2 h3 h4 h5 h6 h7 = ground arith
effect c k (store_over {b = false}) h1 h2 h3 h4 h5 h6 h7 = ground arith
effect c k (unlock_wait {b = true}) h1 h2 h3 h4 h5 h6 h7 = ground arith
effect c k (unlock_wait {b = false}) h1 h2 h3 h4 h5 h6 h7 = ground arith
effect c k (lock_worker e) h1 h2 h3 h4 h5 h6 h7 = ground arith
effect c k (refuse_worker e) h1 h2 h3 h4 h5 h6 h7 = ground arith
effect c k flag_again h1 h2 h3 h4 h5 h6 h7 = ground arith
effect c k release_worker h1 h2 h3 h4 h5 h6 h7 = ground arith

calling_le : (p : Pc) → calling p ≤ 1
calling_le p = ground arith

step_lem : (n : ℕ) {s t : System} → n < 2 ^ 32 → Invariant n s → Step s t → Invariant n t
unfolding Effect
step_lem n {s} small v (pick i {p} {a = b} {q} at_i m) =
    let xs : List Pc = s.threads in
    let owner = total-set owns xs i p q at_i in
    let mutex = total-set has_mutex xs i p q at_i in
    let call = total-set calling xs i p q at_i in
    let serve = total-set serving xs i p q at_i in
    let few = total-le calling (set xs i q) calling_le in
    let (e1, e2, e3, e4) =
      effect (total calling xs) (total serving xs) m
        (omega (arith, v.one_owner, total-get owns xs i p at_i))
        (omega (arith, v.one_mutex, total-get has_mutex xs i p at_i))
        (total-get calling xs i p at_i) (omega (arith, v.size, length-set xs i q)) v.callers
        (total-get serving xs i p at_i) v.change_kept in
    record {
      size = length-set xs i q ∙ v.size;
      one_owner = omega (arith, v.one_owner);
      one_mutex = omega (arith, v.one_mutex);
      callers = omega arith;
      change_kept = omega arith;
    }

-- In every state that fewer than 2 ^ 32 threads can reach: the context lock is taken exactly when one
-- thread has the context, the mutex exactly when one thread holds it, the counter of external
-- callers is the number of threads in a call or waiting for one, and a flagged change that no
-- worker has served is still flagged, or in the hands of a worker that will serve or flag it again.
pub Reach-Invariant : (n : ℕ) {s : System} → n < 2 ^ 32 → Reach n s → Invariant n s
Reach-Invariant n small start = init_lem n
Reach-Invariant n small (later r m) = step_lem n small (Reach-Invariant n small r) m
