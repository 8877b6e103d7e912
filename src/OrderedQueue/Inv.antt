-- ===== src/OrderedQueue/Inv.antt =====
-- What holds of an OrderedQueue between and during its operations, and what is waiting in it.
use mathlib.Core.List.{Perm}
use mathlib.Core.List.Perm
use pothos_core.Base.{
  ℕ, zero, suc, ◌^◌, ◌≤◌, ◌<◌, ◌≡◌, refl, ap, subst, ◌∙◌, ◌≢◌, List, [], ◌∷◌, ◌++◌, Bool, true,
  false, some, length, get_elem?, set, length-append, arith,
}
use pothos_core.RingDeque.Rep.{Represents}
use pothos_core.RingDeque.Ends.{pushed_back, push_back-eq, push_back-Represents}
use pothos_core.OrderedQueue.{OrderedQueue, wrap_index, deliver}
use pothos_core.OrderedQueue.Order.{turn, ahead, InOrder, InOrder-snoc}

-- the elements that were pushed too early
abbrev pub waiting {ℓ} : {A : Type ℓ} → List (A × Bool) → List A
waiting [] = []
waiting ((x, true) ∷ p) = x ∷ waiting p
waiting ((x, false) ∷ p) = waiting p

module _ {ℓ} {A : Type ℓ} (slot : A → ℕ) where
  -- An entry with a flag stands at its element's index, and after the `k` ready ones from `s`.
  abbrev pub WaitsWell : List (A × Bool) → ℕ → ℕ → Type ℓ
  WaitsWell p s k =
      (i : ℕ) (x : A) → get_elem? p i ≡ some (x, true) → (slot x ≡ i) × (k ≤ ahead (length p) s i)

  -- `xs` are ready, with the indices from `s` on; what waits has later ones.
  pub record Ordered (q : OrderedQueue A) (s : ℕ) (xs : List A) : Type ℓ where
    pub ready : Represents q.ready_elems xs
    pub sized : q.ready_elems.capacity ≡ length q.pushed_elems
    pub small : length q.pushed_elems ≤ 2 ^ 63
    pub start : s < length q.pushed_elems
    pub fits : length xs ≤ length q.pushed_elems
    pub ack : q.index_to_ack ≡ turn (length q.pushed_elems) s (length xs)
    pub order : InOrder slot (length q.pushed_elems) s xs
    pub waits : WaitsWell q.pushed_elems s (length xs)

  -- Between two operations nothing waits at the index that comes next.
  pub record Settled (q : OrderedQueue A) (s : ℕ) (xs : List A) : Type ℓ where
    pub ordered : Ordered q s xs
    pub idle : (x : A) → get_elem? q.pushed_elems q.index_to_ack ≢ some (x, true)

  pub deliver-eq :
      (q : OrderedQueue A) (xs : List A) (x : A)
      → Represents q.ready_elems xs
      → length xs < q.ready_elems.capacity
      → deliver q x ≡ some (record q { ready_elems = pushed_back q.ready_elems (length xs) x })
  unfolding deliver
  deliver-eq q xs x v room = ground (arith, v.count, push_back-eq v x room)

  -- An element with the next index goes to the ready ones.
  pub advance :
      {q : OrderedQueue A} {s : ℕ} {xs : List A}
      → Ordered q s xs
      → (x : A) (p : List (A × Bool)) → slot x ≡ q.index_to_ack
      → length xs < length q.pushed_elems
      → length p ≡ length q.pushed_elems
      → WaitsWell p s (suc (length xs))
      → Ordered
          (wrap_index
            (record q { pushed_elems = p; ready_elems = pushed_back q.ready_elems (length xs) x }))
          s
          (xs ++ x ∷ [])
  advance {q} {s} {xs} v x p e room same w = record {
    ready = push_back-Represents v.ready x (omega (arith, v.sized));
    sized = omega (arith, v.sized);
    small = omega (arith, v.small);
    start = omega (arith, v.start);
    fits = omega (arith, length-append xs (x ∷ []));
    ack = ground (arith, v.ack, same, v.small, v.start, length-append xs (x ∷ []));
    order =
        rw same (InOrder-snoc slot (length q.pushed_elems) s xs x v.start room v.order (e ∙ v.ack));
    waits =
        subst (WaitsWell p s) {x = suc (length xs)} (omega (arith, length-append xs (x ∷ []))) w;
  }

pub waiting-set_flag {ℓ} :
    {A : Type ℓ} (p : List (A × Bool)) (i : ℕ) (x y : A)
    → get_elem? p i ≡ some (y, false)
    → Perm (waiting (set p i (x, true))) (x ∷ waiting p)
waiting-set_flag [] i x y e = cc
waiting-set_flag ((z, true) ∷ p) zero x y e = cc
waiting-set_flag ((z, false) ∷ p) zero x y e = Perm.refl _
waiting-set_flag ((z, true) ∷ p) (suc i) x y e =
    Perm.trans (Perm.cons z (waiting-set_flag p i x y e)) (Perm.swap x z _)
waiting-set_flag ((z, false) ∷ p) (suc i) x y e = waiting-set_flag p i x y e

pub waiting-clear_flag {ℓ} :
    {A : Type ℓ} (p : List (A × Bool)) (i : ℕ) (x : A)
    → get_elem? p i ≡ some (x, true)
    → Perm (x ∷ waiting (set p i (x, false))) (waiting p)
waiting-clear_flag [] i x e = cc
waiting-clear_flag ((z, true) ∷ p) zero x e = Perm.cons' (ground arith) (Perm.refl _)
waiting-clear_flag ((z, false) ∷ p) zero x e = cc
waiting-clear_flag ((z, true) ∷ p) (suc i) x e =
    Perm.trans (Perm.swap z x _) (Perm.cons z (waiting-clear_flag p i x e))
waiting-clear_flag ((z, false) ∷ p) (suc i) x e = waiting-clear_flag p i x e

pub length-waiting-clear_flag {ℓ} :
    {A : Type ℓ} (p : List (A × Bool)) (i : ℕ) (x : A)
    → get_elem? p i ≡ some (x, true)
    → suc (length (waiting (set p i (x, false)))) ≡ length (waiting p)
length-waiting-clear_flag [] i x e = cc
length-waiting-clear_flag ((z, true) ∷ p) zero x e = refl
length-waiting-clear_flag ((z, false) ∷ p) zero x e = cc
length-waiting-clear_flag ((z, true) ∷ p) (suc i) x e = ap suc (length-waiting-clear_flag p i x e)
length-waiting-clear_flag ((z, false) ∷ p) (suc i) x e = length-waiting-clear_flag p i x e

pub length-waiting-le {ℓ} : {A : Type ℓ} (p : List (A × Bool)) → length (waiting p) ≤ length p
length-waiting-le [] = omega arith
length-waiting-le ((z, true) ∷ p) = omega (arith, length-waiting-le p)
length-waiting-le ((z, false) ∷ p) = omega (arith, length-waiting-le p)

-- Where nothing waits, no flag is set.
pub unflagged_of_waiting {ℓ} :
    {A : Type ℓ} (p : List (A × Bool)) (i : ℕ) (x : A)
    → waiting p ≡ []
    → get_elem? p i ≢ some (x, true)
unflagged_of_waiting [] i x e h = cc
unflagged_of_waiting ((y, true) ∷ p) i x e h = cc
unflagged_of_waiting ((y, false) ∷ p) zero x e h = cc
unflagged_of_waiting ((y, false) ∷ p) (suc i) x e h = unflagged_of_waiting p i x e h
