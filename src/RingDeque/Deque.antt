-- ===== src/RingDeque/Deque.antt =====
-- A bounded deque as a list, and the ring of RingDeque.hpp as its implementation: a client's calls
-- one after another, each with what it returns.
use pothos_core.Base.{
  ℕ, ◌^◌, ◌≡◌, List, [], ◌∷◌, ◌++◌, Option, none, some, ◌>>=◌, ◌==◌, ltb, if◌then◌else◌, length,
}
use pothos_core.RingDeque.{
  RingDeque, push_back, pop_front, pop_back, push_front, front, back, clear, set_capacity,
}
use pothos_core.RingDeque.Rep.{Represents}

pub data Op {ℓ} (A : Type ℓ) : Type ℓ where
  put_front put_back : A → Op A
  drop_front drop_back clear_all : Op A
  read_front read_back : Op A
  resize : ℕ → Op A

-- What a call shows: an element, or nothing.
abbrev pub Reply {ℓ} : Type ℓ → Type ℓ
Reply A = Option A

-- the specification's state: the capacity and the elements, front first
pub record Deque {ℓ} (A : Type ℓ) : Type ℓ where
  pub cap : ℕ
  pub items : List A

unfoldable pub split_last {ℓ} : {A : Type ℓ} → List A → Option (List A × A)
split_last [] = none
split_last (x ∷ xs) = elim (split_last xs) [ none ↦ some ([], x) | some (ys, y) ↦ some (x ∷ ys, y) ]

module _ {ℓ} {A : Type ℓ} where
  abbrev pub at_last :
      Option (List A × A) → (List A → A → Reply A × Deque A) → Option (Reply A × Deque A)
  at_last none f = none
  at_last (some (xs, x)) f = some (f xs x)

  -- `none`: the call is not allowed, or does not return.
  unfoldable pub step : Deque A → Op A → Option (Reply A × Deque A)
  step d (put_front x) =
      if length d.items == d.cap then none else some (none, record d { items = x ∷ d.items })
  step d (put_back x) =
      if length d.items == d.cap then none else some (none, record d { items = d.items ++ x ∷ [] })
  step d drop_front = elim d.items [ [] ↦ none | x ∷ xs ↦ some (none, record d { items = xs }) ]
  step d drop_back = at_last (split_last d.items) λ xs x. (none, record d { items = xs })
  step d clear_all = some (none, record d { items = [] })
  step d read_front = elim d.items [ [] ↦ none | x ∷ xs ↦ some (some x, d) ]
  step d read_back = at_last (split_last d.items) λ xs x. (some x, d)
  step d (resize n) =
      if ltb n (length d.items)
      then some (none, d)
      else if n == 0
      then none
      else if ltb (2 ^ 63) n
      then none
      else some (none, record d { cap = n })

  abbrev pub quiet : Option (RingDeque A) → Option (Reply A × RingDeque A)
  quiet m = m >>= λ r. some (none, r)

  abbrev pub show : RingDeque A → Option A → Option (Reply A × RingDeque A)
  show r m = m >>= λ x. some (some x, r)

  -- the ring's calls
  unfoldable pub ring_step : RingDeque A → Op A → Option (Reply A × RingDeque A)
  ring_step r (put_front x) = quiet (push_front r x)
  ring_step r (put_back x) = quiet (push_back r x)
  ring_step r drop_front = quiet (pop_front r)
  ring_step r drop_back = quiet (pop_back r)
  ring_step r clear_all = quiet (clear r)
  ring_step r read_front = show r (front r)
  ring_step r read_back = show r (back r)
  ring_step r (resize n) = quiet (set_capacity r n)

  -- the replies of a client's calls, up to the first that is not allowed or does not return
  unfoldable pub run : Deque A → List (Op A) → List (Reply A)
  run d [] = []
  run d (op ∷ ops) = elim (step d op) [ none ↦ [] | some (reply, d') ↦ reply ∷ run d' ops ]

  unfoldable pub ring_run : RingDeque A → List (Op A) → List (Reply A)
  ring_run r [] = []
  ring_run r (op ∷ ops) = elim (ring_step r op) [
    | none ↦ []
    | some (reply, r') ↦ reply ∷ ring_run r' ops
  ]

  abbrev pub Implements : RingDeque A → Deque A → Type ℓ
  Implements r d = Represents r d.items × (r.capacity ≡ d.cap)
