-- ===== src/Port/Slots.antt =====
-- The slot calls of an input port: what is pushed is popped, in order.
use pothos_core.Base.{
  ℕ, zero, suc, ◌+◌, ◌≡◌, ◌≤◌, refl, sym, subst, true, false, Option, none, some, ◌>>=◌, ◌==◌,
  if◌then◌else◌, List, [], ◌∷◌, ◌++◌, map, append_assoc, append-nil, length, length-append, arith,
}
use pothos_core.RingDeque.Rep.{front_lem}
use pothos_core.RingDeque.Ends.{popped_front, pop_front-eq, pop_front-Represents}
use pothos_core.Buffer.{BufferChunk}
use pothos_core.Port.{
  InputPort, slot_overflow, max_queue_capacity, slot_calls_push, slot_calls_pop, slot_calls_empty,
}
use pothos_core.Port.Bounded.{Bounded, received, push_bounded_lem}

module _ {ℓ} {M : Type ℓ} where
  -- other actors' pushes, one after another
  pub push_all : InputPort M → List (M × BufferChunk) → Option (InputPort M)
  push_all p [] = some p
  push_all p ((args, token) ∷ xs) = slot_calls_push p args token >>= λ p'. push_all p' xs

  -- the worker's loop `while (not port.slotCallsEmpty()) ... port.slotCallsPop()`, for at most so
  -- many rounds: the arguments that it handles, in order
  pub pop_all : ℕ → InputPort M → Option (List M × InputPort M)
  pop_all zero p = if slot_calls_empty p then some ([], p) else none
  pop_all (suc rounds) p =
      if slot_calls_empty p
      then some ([], p)
      else (slot_calls_pop p >>= λ (args, p').
          pop_all rounds p' >>= λ (rest, p''). some (args ∷ rest, p''))

  -- A push of a slot call always succeeds, and marks the change for the worker. At 1024 calls all
  -- are lost but the new one, which is reported.
  pub slot_calls_push_lem :
      (p : InputPort M) (xs : List (M × BufferChunk)) (args : M) (token : BufferChunk)
      → Bounded p.slot_calls xs
      → (p' : InputPort M) × (slot_calls_push p args token ≡ some p')
        × Bounded p'.slot_calls (received xs (args, token))
        × (p'.change_flagged ≡ true)
        × (p'.reports
            ≡ (if length xs == max_queue_capacity then slot_overflow ∷ p.reports else p.reports))
        × (p'.async_messages ≡ p.async_messages)
  unfolding slot_calls_push
  slot_calls_push_lem p xs args token b =
      let (q, ran, w) = push_bounded_lem p.slot_calls xs args token b in
      (
        record p {
          slot_calls = q;
          change_flagged = true;
          reports =
              if length xs == max_queue_capacity then slot_overflow ∷ p.reports else p.reports;
        },
        rw ran refl,
        w,
        refl,
        refl,
        refl,
      )

  push_all_lem :
      (ys xs : List (M × BufferChunk)) (p : InputPort M)
      → Bounded p.slot_calls xs
      → length xs + length ys ≤ max_queue_capacity
      → (p' : InputPort M) × (push_all p ys ≡ some p') × Bounded p'.slot_calls (xs ++ ys)
  unfolding push_all
  push_all_lem [] xs p b h = (p, refl, subst (Bounded p.slot_calls) (sym (append-nil xs)) b)
  push_all_lem ((args, token) ∷ ys) xs p b h =
      let (p1, ran, w, _, _, _) = slot_calls_push_lem p xs args token b in
      let kept : received xs (args, token) ≡ xs ++ (args, token) ∷ [] = ground arith in
      let (p2, rest, w2) =
        push_all_lem ys (xs ++ (args, token) ∷ []) p1 (subst (Bounded p1.slot_calls) kept w)
          (omega (arith, length-append xs ((args, token) ∷ []))) in
      (
        p2,
        rw (ran, rest) refl,
        subst (Bounded p2.slot_calls) (append_assoc xs ((args, token) ∷ []) ys) w2,
      )

  pop_all_lem :
      (xs : List (M × BufferChunk)) (rounds : ℕ) (p : InputPort M)
      → Bounded p.slot_calls xs
      → length xs ≤ rounds
      → (p' : InputPort M) × (pop_all rounds p ≡ some (map (λ x. x.0) xs, p'))
        × Bounded p'.slot_calls []
  unfolding pop_all slot_calls_pop
  pop_all_lem [] zero p b h = (p, ground (arith, b.ring.count), b)
  pop_all_lem [] (suc rounds) p b h = (p, ground (arith, b.ring.count), b)
  pop_all_lem (x ∷ xs) zero p b h = absurd (omega arith)
  pop_all_lem (x ∷ xs) (suc rounds) p b h =
      let p1 : InputPort M = record p { slot_calls = popped_front p.slot_calls (length xs) } in
      let (p', ran, w) =
        pop_all_lem xs rounds p1
          (record {
            ring = pop_front-Represents x xs b.ring;
            doublings = b.doublings;
            few = b.few;
            capacity_eq = b.capacity_eq;
          })
          (omega arith) in
      (p', rw (busy, front_lem x b.ring, pop_front-eq x xs b.ring, ran) refl, w)
    where
      busy : slot_calls_empty p ≡ false
      busy = ground (arith, b.ring.count)

  -- Slot calls that are pushed on a port, at most 1024 with those that it has, are all handled: the
  -- worker's loop ends, no assertion fails, and each call is handled once, the oldest first.
  pub push_all-pop_all :
      (p : InputPort M) (xs ys : List (M × BufferChunk)) (rounds : ℕ)
      → Bounded p.slot_calls xs
      → length xs + length ys ≤ max_queue_capacity
      → max_queue_capacity ≤ rounds
      → (p' : InputPort M) × ((push_all p ys >>= pop_all rounds)
          ≡ some (map (λ x. x.0) (xs ++ ys), p'))
        × Bounded p'.slot_calls []
  push_all-pop_all p xs ys rounds b h k =
      let (p1, ran, w) = push_all_lem ys xs p b h in
      let (p2, popped, w2) =
        pop_all_lem (xs ++ ys) rounds p1 w (omega (arith, length-append xs ys)) in
      (p2, rw ran popped, w2)
