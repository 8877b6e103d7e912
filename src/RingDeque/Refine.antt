-- ===== src/RingDeque/Refine.antt =====
-- The ring of RingDeque.hpp answers a client as the bounded deque does.
use pothos_core.Base.{
  ℕ, ◌^◌, ◌<◌, ◌≡◌, refl, ap, subst, ◌∙◌, ◌⊎◌, inl, inr, List, [], ◌∷◌, ◌++◌, Option, none, some,
  ◌==◌, ltb, length, arith, Bool-cases, ltb→lt, ltb→ge,
}
use pothos_core.RingDeque.{
  RingDeque, make, push_back, pop_front, pop_back, push_front, front, back, set_capacity,
}
use pothos_core.RingDeque.Rep.{Represents, front_lem, back_lem}
use pothos_core.RingDeque.Ends.{
  push_back-eq, push_back-Represents, push_front-eq, push_front-Represents, pop_front-eq,
  pop_front-Represents, pop_back-eq, pop_back-Represents,
}
use pothos_core.RingDeque.Growth.{make-zero, make_diverges}
use pothos_core.RingDeque.Moves.{
  clear_lem, set_capacity_lem, set_capacity_ignored, set_capacity_stops,
}
use pothos_core.RingDeque.Deque.{
  Op, put_front, put_back, drop_front, drop_back, clear_all, read_front, read_back, resize, Reply,
  Deque, split_last, step, ring_step, run, ring_run, Implements,
}

module _ {ℓ} {A : Type ℓ} where
  -- Both stop, or both reply the same and go on in states that correspond.
  data Agree : Option (Reply A × RingDeque A) → Option (Reply A × Deque A) → Type ℓ where
    stopped : Agree none none
    went_on :
        (a : Reply A) (r : RingDeque A) (d : Deque A)
        → Implements r d
        → Agree (some (a, r)) (some (a, d))

  split_last_cases :
      (xs : List A)
      → ((xs ≡ []) × (split_last xs ≡ none))
        ⊎ ((ys : List A) × (y : A) × (xs ≡ ys ++ y ∷ []) × (split_last xs ≡ some (ys, y)))
  unfolding split_last
  split_last_cases [] = inl (refl, refl)
  split_last_cases (x ∷ xs) = elim (split_last_cases xs) [
    | inl (e, f) ↦ inr ([], x, ap (◌∷◌ x) e, rw f)
    | inr (ys, y, e, f) ↦ inr (x ∷ ys, y, ap (◌∷◌ x) e, rw f)
  ]

  module _ (r : RingDeque A) (d : Deque A) (v : Represents r d.items)
      (same : r.capacity ≡ d.cap) where
    Agree-put_front : (x : A) → Agree (ring_step r (put_front x)) (step d (put_front x))
    unfolding ring_step step push_front
    Agree-put_front x = elim (Bool-cases (length d.items == d.cap)) [
      | inl e ↦ let stop : push_front r x ≡ none = ground (arith, v.count) in rw (e, stop) stopped
      | inr e ↦
          let room : length d.items < r.capacity = ground (arith, v.count_fits) in
          rw (e, push_front-eq v x room) (went_on none _ _ (push_front-Represents v x room, same))
    ]

    Agree-put_back : (x : A) → Agree (ring_step r (put_back x)) (step d (put_back x))
    unfolding ring_step step push_back
    Agree-put_back x = elim (Bool-cases (length d.items == d.cap)) [
      | inl e ↦ let stop : push_back r x ≡ none = ground (arith, v.count) in rw (e, stop) stopped
      | inr e ↦
          let room : length d.items < r.capacity = ground (arith, v.count_fits) in
          rw (e, push_back-eq v x room) (went_on none _ _ (push_back-Represents v x room, same))
    ]

    Agree-clear : Agree (ring_step r clear_all) (step d clear_all)
    unfolding ring_step step
    Agree-clear =
        let (r', ran, v', cap) = clear_lem r d.items v in rw ran (went_on none _ _ (v', cap ∙ same))

    Agree-resize : (n : ℕ) → Agree (ring_step r (resize n)) (step d (resize n))
    unfolding ring_step step
    Agree-resize n = elim (Bool-cases (ltb n (length d.items))) [
      | inl e ↦
          rw (e, set_capacity_ignored r n (ground (arith, v.count))) (went_on none _ _ (v, same))
      | inr fits ↦ elim (Bool-cases (n == 0)) [
        | inl e ↦
            let zero_eq : 0 ≡ n = ground arith in
            let stop : make {A = A} n ≡ none =
              subst (λ c. make {A = A} c ≡ none) zero_eq make-zero in
            rw (fits, e, set_capacity_stops r n (ground (arith, v.count)) stop) stopped
        | inr pos ↦ elim (Bool-cases (ltb (2 ^ 63) n)) [
          | inl e ↦
              let stop : set_capacity r n ≡ none =
                set_capacity_stops r n (ground (arith, v.count))
                  (make_diverges n (ltb→lt (2 ^ 63) n e)) in
              rw (fits, pos, e, stop) stopped
          | inr small ↦
              let (r', ran, v', cap) =
                set_capacity_lem r d.items n v (ltb→ge n (length d.items) fits) (ground arith)
                  (ltb→ge (2 ^ 63) n small) in
              rw (fits, pos, small, ran) (went_on none _ _ (v', cap))
        ]
      ]
    ]

  Agree-drop_front :
      (r : RingDeque A) (c : ℕ) (xs : List A)
      → Implements r (record { cap = c; items = xs })
      → Agree (ring_step r drop_front) (step (record { cap = c; items = xs }) drop_front)
  unfolding ring_step step pop_front
  Agree-drop_front r c [] (v, same) =
      let stop : pop_front r ≡ none = ground (arith, v.count) in rw stop stopped
  Agree-drop_front r c (x ∷ xs) (v, same) =
      rw (pop_front-eq x xs v) (went_on none _ _ (pop_front-Represents x xs v, same))

  Agree-read_front :
      (r : RingDeque A) (c : ℕ) (xs : List A)
      → Implements r (record { cap = c; items = xs })
      → Agree (ring_step r read_front) (step (record { cap = c; items = xs }) read_front)
  unfolding ring_step step front
  Agree-read_front r c [] (v, same) =
      let stop : front r ≡ none = ground (arith, v.count) in rw stop stopped
  Agree-read_front r c (x ∷ xs) (v, same) = rw (front_lem x v) (went_on (some x) _ _ (v, same))

  Agree-drop_back :
      (r : RingDeque A) (d : Deque A)
      → Implements r d
      → Agree (ring_step r drop_back) (step d drop_back)
  unfolding ring_step step pop_back
  Agree-drop_back r d (v, same) = elim (split_last_cases d.items) [
    | inl (e, f) ↦ let stop : pop_back r ≡ none = ground (arith, v.count) in rw (stop, f) stopped
    | inr (ys, y, e, f) ↦
        let w : Represents r (ys ++ y ∷ []) = subst (Represents r) e v in
        rw (f, pop_back-eq ys y w) (went_on none _ _ (pop_back-Represents ys y w, same))
  ]

  Agree-read_back :
      (r : RingDeque A) (d : Deque A)
      → Implements r d
      → Agree (ring_step r read_back) (step d read_back)
  unfolding ring_step step back
  Agree-read_back r d (v, same) = elim (split_last_cases d.items) [
    | inl (e, f) ↦ let stop : back r ≡ none = ground (arith, v.count) in rw (stop, f) stopped
    | inr (ys, y, e, f) ↦
        let w : Represents r (ys ++ y ∷ []) = subst (Represents r) e v in
        rw (f, back_lem ys y w) (went_on (some y) _ _ (v, same))
  ]

  Agree-step :
      (r : RingDeque A) (d : Deque A) (op : Op A)
      → Implements r d
      → Agree (ring_step r op) (step d op)
  Agree-step r d (put_front x) (v, same) = Agree-put_front r d v same x
  Agree-step r d (put_back x) (v, same) = Agree-put_back r d v same x
  Agree-step r d drop_front i = Agree-drop_front r d.cap d.items i
  Agree-step r d drop_back i = Agree-drop_back r d i
  Agree-step r d clear_all (v, same) = Agree-clear r d v same
  Agree-step r d read_front i = Agree-read_front r d.cap d.items i
  Agree-step r d read_back i = Agree-read_back r d i
  Agree-step r d (resize n) (v, same) = Agree-resize r d v same n

  -- A ring that holds the elements of a bounded deque answers every sequence of calls as that deque
  -- does, and stops at the same call: at one that is not allowed (a push on a full deque, a pop or a
  -- read on an empty one, a capacity of 0) or that does not return (a capacity above 2 ^ 63).
  pub ring_run-eq-run :
      (ops : List (Op A)) (r : RingDeque A) (d : Deque A)
      → Implements r d
      → ring_run r ops ≡ run d ops
  unfolding ring_run run
  ring_run-eq-run [] r d i = refl
  ring_run-eq-run (op ∷ ops) r d i =
      go (λ r' d' j. ring_run-eq-run ops r' d' j) (ring_step r op) (step d op) (Agree-step r d op i)
    where
      go :
          ((r' : RingDeque A) (d' : Deque A) → Implements r' d' → ring_run r' ops ≡ run d' ops)
          → (m : Option (Reply A × RingDeque A)) (n : Option (Reply A × Deque A)) → Agree m n
          → elim m as (λ _. List (Reply A)) [
            | none ↦ []
            | some (reply, r') ↦ reply ∷ ring_run r' ops
          ]
            ≡ elim n as (λ _. List (Reply A)) [ none ↦ [] | some (reply, d') ↦ reply ∷ run d' ops ]
      go ih m n stopped = refl
      go ih m n (went_on a r' d' j) = ap (◌∷◌ a) (ih r' d' j)
