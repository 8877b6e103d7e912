-- ===== src/Actor/Progress.antt =====
-- When nobody is in the way: a change that was flagged is served by the next worker that looks.
use pothos_core.Base.{
  ℕ, suc, ◌^◌, ◌≤◌, ◌<◌, ◌≡◌, refl, ap, Bool, true, false, List, [], ◌∷◌, get_elem?, set,
  get_elem?-set_self, get_elem?-lt_length, some, arith,
}
use pothos_core.Actor.{
  Actor, Pc, Move, outside, working, System, pick, Reach, later, start_quick, no_call, take_change,
  lock_worker,
}
use pothos_core.Base.{total}
use pothos_core.Actor.Inv.{owns, calling, serving, bit, Invariant, Reach-Invariant}

-- steps of thread `i` alone, from its place `p` to its place `q`
pub data Alone (i : ℕ) : System → Pc → System → Pc → Type 0 where
  stay : {s : System} {p : Pc} → Alone i s p s p
  go_on :
      {s : System} {p : Pc} {a : Actor} {q : Pc} {t : System} {r : Pc}
      → Move s.actor p a q
      → Alone i (record { actor = a; threads = set s.threads i q }) q t r
      → Alone i s p t r

-- The steps of a thread alone are steps of the system.
pub Alone-Reach :
    (n i : ℕ) {s t : System} {p q : Pc}
    → Reach n s
    → get_elem? s.threads i ≡ some p
    → Alone i s p t q
    → Reach n t × (get_elem? t.threads i ≡ some q)
Alone-Reach n i r e stay = (r, e)
Alone-Reach n i {s} r e (go_on {q} m more) =
    Alone-Reach n i (later r (pick i e m))
      (get_elem?-set_self s.threads i q (get_elem?-lt_length s.threads i e)) more

idle_total :
    (f : Pc → ℕ) (xs : List Pc)
    → f outside ≡ 0
    → ((i : ℕ) (p : Pc) → get_elem? xs i ≡ some p → p ≡ outside)
    → total f xs ≡ 0
idle_total f [] z h = refl
idle_total f (x ∷ xs) z h =
    omega (arith, ap f (h 0 x refl), idle_total f xs z (λ i p e. h (suc i) p e))

bit_zero : (b : Bool) → bit b ≡ 0 → b ≡ false
bit_zero b h = ground arith

bit_one : (b : Bool) → 1 ≤ bit b → b ≡ true
bit_one b h = ground arith

-- In a reachable state where no thread is in the middle of anything and a flagged change is not yet
-- served, any idle thread can get the context by steps of its own alone, and the change is then
-- served. There are fewer than 2 ^ 32 threads.
pub worker_acquires :
    (n : ℕ) (s : System) (i : ℕ)
    → n < 2 ^ 32
    → Reach n s
    → ((j : ℕ) (p : Pc) → get_elem? s.threads j ≡ some p → p ≡ outside)
    → s.actor.unserved ≡ true
    → get_elem? s.threads i ≡ some outside
    → (t : System) × Alone i s outside t working × (t.actor.unserved ≡ false)
worker_acquires n s i small r idle e here = (
  _,
  go_on start_quick
      (go_on (no_call no_callers) (go_on (take_change flagged) (go_on (lock_worker free) stay))),
  refl,
)
  where
    v : Invariant n s
    v = Reach-Invariant n small r

    no_callers : s.actor.external_acquired ≡ 0
    no_callers = omega (arith, v.callers, idle_total calling s.threads refl idle)

    free : s.actor.ext_call_lock ≡ false
    free =
        bit_zero s.actor.ext_call_lock
          (omega (arith, v.one_owner, idle_total owns s.threads refl idle))

    flagged : s.actor.change_flagged ≡ true
    flagged =
        bit_one s.actor.change_flagged
          (omega (arith, v.change_kept, ap bit e, idle_total serving s.threads refl idle))
