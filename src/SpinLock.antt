-- ===== src/SpinLock.antt =====
-- include/Pothos/Util/SpinLockRW.hpp: a lock for many readers or one writer. One `Move` is one access
-- to the shared word; the loops of lock() and lock_shared() try again from `idle`.
pub mod Safety
mod Tests
use pothos_core.Base.{
  ℕ, ◌+◌, ◌-◌, ◌%◌, ◌^◌, ◌≡◌, ◌≢◌, List, replicate, set, get_elem?, Option, some,
}

-- `WRITER_LOCK` and `UNLOCKED`, of type `unsigned`
abbrev pub writer_lock : ℕ
writer_lock = 2 ^ 32 - 1

abbrev pub unlocked : ℕ
unlocked = 0

-- where a thread is; `loaded` has the local `expected` of try_lock_shared()
pub data Pc : Type 0 where
  idle : Pc
  loaded : ℕ → Pc
  reading : Pc
  writing : Pc

pub data Move (lock : ℕ) : Pc → ℕ → Pc → Type 0 where
  -- try_lock_shared(); the weak exchange may also fail where the values are the same
  load_shared : Move lock idle lock (loaded lock)
  give_up : {e : ℕ} → e ≡ writer_lock → Move lock (loaded e) lock idle
  swap_shared :
      {e : ℕ} → e ≢ writer_lock → lock ≡ e → Move lock (loaded e) ((e + 1) % 2 ^ 32) reading
  fail_shared : {e : ℕ} → e ≢ writer_lock → Move lock (loaded e) lock idle
  -- unlock_shared()
  unlock_shared : Move lock reading ((lock + (2 ^ 32 - 1)) % 2 ^ 32) idle
  -- try_lock()
  swap_lock : lock ≡ unlocked → Move lock idle writer_lock writing
  fail_lock : Move lock idle lock idle
  -- unlock()
  unlock : Move lock writing unlocked idle

pub record System : Type 0 where
  pub lock : ℕ
  pub threads : List Pc

-- the constructor, and `n` threads that have not yet called
abbrev pub init : ℕ → System
init n = record { lock = unlocked; threads = replicate n idle }

pub data Step (s : System) : System → Type 0 where
  pick :
      (i : ℕ) {p : Pc} {l : ℕ} {q : Pc}
      → get_elem? s.threads i ≡ some p
      → Move s.lock p l q
      → Step s (record { lock = l; threads = set s.threads i q })

pub data Reach (n : ℕ) : System → Type 0 where
  start : Reach n (init n)
  later : {s t : System} → Reach n s → Step s t → Reach n t
