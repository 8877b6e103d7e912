-- ===== src/Actor/Safety.antt =====
-- What the lock of an actor promises: exclusive access, and no lost change.
use pothos_core.Base.{
  ℕ, suc, ◌+◌, ◌^◌, ◌≤◌, ◌<◌, ◌≡◌, ◌⊎◌, inl, inr, refl, ap, Bool, true, false, List, [], ◌∷◌,
  get_elem?, some, arith,
}
use pothos_core.Actor.{Pc, System, Reach}
use pothos_core.Base.{total, total-two}
use pothos_core.Actor.Inv.{owns, serving, bit, Reach-Invariant}

bit_le : (b : Bool) → bit b ≤ 1
bit_le b = ground arith

-- Of the threads of an actor, fewer than 2 ^ 32, at most one is ever in an external call or at work.
pub exclusive :
    (n : ℕ) (s : System) (i j : ℕ) (p q : Pc)
    → n < 2 ^ 32
    → Reach n s
    → i < j
    → get_elem? s.threads i ≡ some p
    → get_elem? s.threads j ≡ some q
    → owns p ≡ 1
    → owns q ≡ 0
exclusive n s i j p q small r h e e' mine = omega (
  arith,
  total-two owns s.threads i j p q h e e',
  (Reach-Invariant n small r).one_owner,
  bit_le s.actor.ext_call_lock,
)

-- where a thread is that holds a change which it took
pub some-serving :
    (xs : List Pc)
    → 0 < total serving xs
    → (i : ℕ) × (p : Pc) × (get_elem? xs i ≡ some p) × (serving p ≡ 1)
some-serving [] h = absurd (omega arith)
some-serving (p ∷ xs) h = elim (serving_cases p) [
  | inl e ↦ (0, p, refl, e)
  | inr e ↦ let (i, q, at_i, f) = some-serving xs (omega arith) in (suc i, q, at_i, f)
]
  where
    serving_cases : (p : Pc) → (serving p ≡ 1) ⊎ (serving p ≡ 0)
    serving_cases p = ground arith

-- A change that was flagged and that no worker has served since is never lost: it is flagged, or a
-- thread took it and is about to work or to flag it again.
pub change_not_lost :
    (n : ℕ) (s : System)
    → n < 2 ^ 32
    → Reach n s
    → s.actor.unserved ≡ true
    → (s.actor.change_flagged ≡ true)
      ⊎ ((i : ℕ) × (p : Pc) × (get_elem? s.threads i ≡ some p) × (serving p ≡ 1))
change_not_lost n s small r e = go s.actor.change_flagged (omega (arith, ap bit e, kept))
  where
    kept : bit s.actor.unserved ≤ bit s.actor.change_flagged + total serving s.threads
    kept = (Reach-Invariant n small r).change_kept

    go :
        (b : Bool)
        → 1 ≤ bit b + total serving s.threads
        → (b ≡ true) ⊎ ((i : ℕ) × (p : Pc) × (get_elem? s.threads i ≡ some p) × (serving p ≡ 1))
    go true h = inl refl
    go false h = inr (some-serving s.threads (omega arith))
