-- ===== src/SpinLock/Safety.antt =====
-- What the reader and writer lock promises.
use native.Mathlib.Decide.{dec_lt}
use pothos_core.Base.{
  ℕ, ◌+◌, ◌≤◌, ◌<◌, ◌≡◌, ◌≢◌, ◌⊎◌, inl, ◌∙◌, List, length, length-set, length-replicate, set,
  get_elem?, some, arith, total, total-set, total-replicate, total-le, total-get, total-two,
}
use pothos_core.SpinLock.{
  Pc, idle, reading, writing, Move, load_shared, give_up, swap_shared, fail_shared, unlock_shared,
  swap_lock, fail_lock, unlock, writer_lock, unlocked, System, init, Step, pick, Reach, start,
  later,
}

-- 1 if the thread reads, or writes
abbrev pub reads : Pc → ℕ
reads reading = 1
reads p = 0

abbrev pub writes : Pc → ℕ
writes writing = 1
writes p = 0

-- With `r` readers and `w` writers: no writer, and the lock counts the readers; or one writer, no
-- reader, and the lock is the writer's.
abbrev pub Mode : ℕ → ℕ → ℕ → Type 0
Mode r w l = ((w ≡ 0) × (l ≡ r)) ⊎ ((w ≡ 1) × (r ≡ 0) × (l ≡ writer_lock))

pub record Invariant (n : ℕ) (s : System) : Type 0 where
  pub size : length s.threads ≡ n
  pub mode : Mode (total reads s.threads) (total writes s.threads) s.lock

effect :
    (n l r w r' w' : ℕ) {l' : ℕ} {p q : Pc}
    → (m : Move l p l' q) → n < writer_lock
    → r ≤ n
    → r' ≤ n
    → reads p ≤ r
    → writes p ≤ w
    → r' + reads p ≡ r + reads q
    → w' + writes p ≡ w + writes q
    → Mode r w l
    → Mode r' w' l'
effect n l r w r' w' load_shared h1 h2 h3 h4 h5 h6 h7 v = ground arith
effect n l r w r' w' (give_up e) h1 h2 h3 h4 h5 h6 h7 v = ground arith
effect n l r w r' w' (swap_shared ne e) h1 h2 h3 h4 h5 h6 h7 v = ground arith
effect n l r w r' w' (fail_shared ne) h1 h2 h3 h4 h5 h6 h7 v = ground arith
effect n l r w r' w' unlock_shared h1 h2 h3 h4 h5 h6 h7 v = ground arith
effect n l r w r' w' (swap_lock e) h1 h2 h3 h4 h5 h6 h7 v = ground arith
effect n l r w r' w' fail_lock h1 h2 h3 h4 h5 h6 h7 v = ground arith
effect n l r w r' w' unlock h1 h2 h3 h4 h5 h6 h7 v = ground arith

reads_le : (p : Pc) → reads p ≤ 1
reads_le p = ground arith

step_lem : (n : ℕ) {s t : System} → n < writer_lock → Invariant n s → Step s t → Invariant n t
step_lem n {s} small v (pick i {p} {l} {q} at_i m) =
    let xs : List Pc = s.threads in
    record {
      size = length-set xs i q ∙ v.size;
      mode =
          effect n s.lock (total reads xs) (total writes xs) (total reads (set xs i q))
            (total writes (set xs i q)) m small (omega (arith, total-le reads xs reads_le, v.size))
            (omega (arith, total-le reads (set xs i q) reads_le, length-set xs i q, v.size))
            (total-get reads xs i p at_i) (total-get writes xs i p at_i)
            (total-set reads xs i p q at_i) (total-set writes xs i p q at_i) v.mode;
    }

init_lem : (n : ℕ) → Invariant n (init n)
init_lem n = record {
  size = length-replicate n idle;
  mode =
      inl
        (omega (arith, total-replicate writes n idle), omega (arith, total-replicate reads n idle));
}

Reach-Invariant : (n : ℕ) {s : System} → n < writer_lock → Reach n s → Invariant n s
Reach-Invariant n small start = init_lem n
Reach-Invariant n small (later r m) = step_lem n small (Reach-Invariant n small r) m

-- Of the threads of a lock, fewer than 2 ^ 32 - 1, no other reads or writes while one writes.
pub writer_alone :
    (n : ℕ) (s : System) (i j : ℕ) (p q : Pc)
    → n < writer_lock
    → Reach n s
    → i ≢ j
    → get_elem? s.threads i ≡ some p
    → get_elem? s.threads j ≡ some q
    → writes p ≡ 1
    → (reads q ≡ 0) × (writes q ≡ 0)
writer_alone n s i j p q small r ne e e' mine =
    let v = Reach-Invariant n small r in
    let two : writes p + writes q ≤ total writes s.threads = elim (dec_lt i j) [
      | yes h ↦ total-two writes s.threads i j p q h e e'
      | no h ↦ omega (arith, total-two writes s.threads j i q p (omega arith) e' e)
    ] in
    ground (arith, v.mode, two, total-get reads s.threads j q e')

-- In every state that fewer than 2 ^ 32 - 1 threads can reach: where no thread reads or writes, the
-- lock is unlocked.
pub free_when_idle :
    (n : ℕ) (s : System)
    → n < writer_lock
    → Reach n s
    → total reads s.threads ≡ 0
    → total writes s.threads ≡ 0
    → s.lock ≡ unlocked
free_when_idle n s small r none_reads none_writes = ground (arith, (Reach-Invariant n small r).mode)
