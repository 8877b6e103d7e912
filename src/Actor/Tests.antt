-- ===== src/Actor/Tests.antt =====
-- Two threads: one calls from outside while the other looks for work, and one that flagged a change.
use pothos_core.Base.{ℕ, zero, suc, ◌≡◌, ◌⊎◌, refl, true, false, [], ◌∷◌, get_elem?, some, arith}
use pothos_core.Actor.{
  Pc, System, Reach, start, later, pick, outside, in_call, working, check, quick, flag_change,
  lock_mutex, count_caller, try_acquire, begin_call, start_quick,
}
use pothos_core.Actor.Inv.{owns, serving}
use pothos_core.Actor.Safety.{exclusive, change_not_lost}
use pothos_core.Actor.Progress.{Alone, worker_acquires}

abbrev in_use : System
in_use = record {
  actor = record {
    change_flagged = true;
    external_acquired = 1;
    ext_call_lock = true;
    acquire_mutex = false;
    aquire_waiting = false;
    unserved = true;
  };
  threads = in_call ∷ check quick ∷ [];
}

in_use-Reach : Reach 2 in_use
in_use-Reach =
    later
      (later
        (later
          (later (later (later start (pick 0 refl (lock_mutex refl))) (pick 0 refl count_caller))
            (pick 0 refl (try_acquire refl)))
          (pick 0 refl begin_call))
        (pick 1 refl start_quick))
      (pick 0 refl flag_change)

abbrev flagged : System
flagged = record {
  actor = record {
    change_flagged = true;
    external_acquired = 0;
    ext_call_lock = false;
    acquire_mutex = false;
    aquire_waiting = false;
    unserved = true;
  };
  threads = outside ∷ outside ∷ [];
}

flagged-Reach : Reach 2 flagged
flagged-Reach = later start (pick 0 refl flag_change)

all_outside : (j : ℕ) (p : Pc) → get_elem? flagged.threads j ≡ some p → p ≡ outside
all_outside zero p e = cc
all_outside (suc zero) p e = cc
all_outside (suc (suc j)) p e = cc

exclusive_example : owns (check quick) ≡ 0
exclusive_example =
    exclusive 2 in_use 0 1 in_call (check quick) (omega arith) in_use-Reach (omega arith) refl refl
      refl

change_example :
    (true ≡ true) ⊎ ((i : ℕ) × (p : Pc) × (get_elem? in_use.threads i ≡ some p) × (serving p ≡ 1))
change_example = change_not_lost 2 in_use (omega arith) in_use-Reach refl

worker_example : (t : System) × Alone 0 flagged outside t working × (t.actor.unserved ≡ false)
worker_example = worker_acquires 2 flagged 0 (omega arith) flagged-Reach all_outside refl refl
