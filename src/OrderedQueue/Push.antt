-- ===== src/OrderedQueue/Push.antt =====
-- The operations of OrderedQueue.hpp on a queue in order.
use mathlib.Core.List.{Perm}
use mathlib.Core.List.Perm
use native.Mathlib.Decide.{ℕ_discrete}
use pothos_core.Base.{
  ℕ, suc, ◌≤◌, ◌<◌, ◌≡◌, refl, sym, subst, ◌∙◌, ◌≢◌, ◌⊎◌, inl, inr, List, [], ◌∷◌, ◌++◌, Bool, true,
  false, some, length, get_elem?, set, length-set, get_elem?_of_lt, get_elem?-lt_length,
  get_elem?-set_self, get_elem?-set_ne, append_assoc, append-nil, arith,
}
use pothos_core.RingDeque.Rep.{Represents, front_lem}
use pothos_core.RingDeque.Ends.{pushed_back, popped_front, pop_front-eq, pop_front-Represents}
use pothos_core.OrderedQueue.{OrderedQueue, wrap_index, release, accept, push, pop, front}
use pothos_core.OrderedQueue.Order.{next, ahead, ahead-ge, ahead-turn, turn-next, Lacks}
use pothos_core.OrderedQueue.Inv.{
  waiting, WaitsWell, Settled, deliver-eq, advance, waiting-set_flag, length-waiting-le,
}
use pothos_core.OrderedQueue.Release.{next_entry, release_lem}

module _ {ℓ} {A : Type ℓ} (slot : A → ℕ) where
  -- The index of the element is in range, and no element of that index is in the queue.
  pub record IsAway (q : OrderedQueue A) (xs : List A) (i : ℕ) : Type ℓ where
    pub in_range : i < length q.pushed_elems
    pub not_ready : Lacks slot (length q.pushed_elems) i xs
    pub not_waiting : (y : A) → get_elem? q.pushed_elems i ≢ some (y, true)

  -- The loop ends at once where nothing waits at the next index.
  release_idle :
      (q : OrderedQueue A) (s : ℕ) (xs : List A) (fuel : ℕ)
      → Settled slot q s xs
      → release (suc fuel) q ≡ some q
  unfolding release
  release_idle q s xs fuel v = elim (next_entry slot v.ordered) [
    | inl (x, e) ↦ absurd (v.idle x e)
    | inr (x, e) ↦ ground (arith, e)
  ]

  unflagged :
      (q : OrderedQueue A) (xs : List A) (i : ℕ)
      → IsAway q xs i
      → (y : A) × (get_elem? q.pushed_elems i ≡ some (y, false))
  unflagged q xs i away =
      let (entry, e) = get_elem?_of_lt q.pushed_elems i away.in_range in go entry e
    where
      go :
          (entry : A × Bool)
          → get_elem? q.pushed_elems i ≡ some entry
          → (y : A) × (get_elem? q.pushed_elems i ≡ some (y, false))
      go (y, true) e = absurd (away.not_waiting y e)
      go (y, false) e = (y, e)

  module _ {q : OrderedQueue A} {s : ℕ} {xs : List A} (v : Settled slot q s xs) where
    later_waits : WaitsWell slot q.pushed_elems s (suc (length xs))
    later_waits i y h =
        let old = v.ordered.waits i y h in
        let ne : q.index_to_ack ≢ i = λ e. v.idle y (rw e h) in
        (
          old.0,
          ground (
            arith,
            old.1,
            v.ordered.start,
            v.ordered.fits,
            v.ordered.ack,
            ne,
            ahead-turn _ s i v.ordered.start (get_elem?-lt_length q.pushed_elems i h),
          ),
        )

    module _ (x : A) (away : IsAway q xs (slot x)) where
      comes_after : length xs ≤ ahead (length q.pushed_elems) s (slot x)
      comes_after =
          ahead-ge slot (length q.pushed_elems) s (slot x) xs v.ordered.start away.in_range
            v.ordered.fits v.ordered.order away.not_ready

      room : length xs < length q.pushed_elems
      room = ground (arith, comes_after, v.ordered.start, away.in_range)

      abbrev set_aside : OrderedQueue A
      set_aside = record q { pushed_elems = set q.pushed_elems (slot x) (x, true) }

      set_aside-Settled : slot x ≢ q.index_to_ack → Settled slot set_aside s xs
      set_aside-Settled ne = record {
        ordered = record {
          ready = v.ordered.ready;
          sized = v.ordered.sized ∙ sym same;
          small = omega (arith, same, v.ordered.small);
          start = omega (arith, same, v.ordered.start);
          fits = omega (arith, same, v.ordered.fits);
          ack = rw same v.ordered.ack;
          order = rw same v.ordered.order;
          waits = waits;
        };
        idle = λ y h. v.idle y (sym (get_elem?-set_ne q.pushed_elems (x, true) ne) ∙ h);
      }
        where
          same : length (set q.pushed_elems (slot x) (x, true)) ≡ length q.pushed_elems
          same = length-set q.pushed_elems (slot x) (x, true)

          waits : WaitsWell slot (set q.pushed_elems (slot x) (x, true)) s (length xs)
          waits i y h = elim (ℕ_discrete (slot x) i) [
            | yes e ↦
                let w = get_elem?-set_self q.pushed_elems (slot x) (x, true) away.in_range in
                let x_eq : x ≡ y = ground (arith, w, rw (← e) at h) in
                (rw (← x_eq) e, rw (same, ← e) comes_after)
            | no n ↦
                rw same
                  (v.ordered.waits i y (sym (get_elem?-set_ne q.pushed_elems (x, true) n) ∙ h))
          ]

      push_early : slot x ≢ q.index_to_ack → push q x (slot x) ≡ some set_aside
      unfolding push accept
      push_early ne = ground (
        arith,
        ne,
        away.in_range,
        release_idle set_aside s xs (length set_aside.pushed_elems) (set_aside-Settled ne),
      )

  push_next :
      (q : OrderedQueue A) (xs : List A) (x : A)
      → slot x ≡ q.index_to_ack
      → Represents q.ready_elems xs
      → length xs < q.ready_elems.capacity
      → push q x (slot x)
        ≡ release
            (suc (length q.pushed_elems))
            (wrap_index (record q { ready_elems = pushed_back q.ready_elems (length xs) x }))
  unfolding push accept
  push_next q xs x e v room = ground (arith, e, deliver-eq slot q xs x v room)

  -- The element with the next index goes to the ready ones, with all that waited for it.
  pub push_in_order :
      (q : OrderedQueue A) (s : ℕ) (xs : List A) (x : A)
      → Settled slot q s xs
      → IsAway q xs (slot x)
      → slot x ≡ q.index_to_ack
      → (q' : OrderedQueue A) × (rest : List A) × (push q x (slot x) ≡ some q')
        × Settled slot q' s (xs ++ x ∷ rest)
        × Perm (rest ++ waiting q'.pushed_elems) (waiting q.pushed_elems)
        × (length q'.pushed_elems ≡ length q.pushed_elems)
  push_in_order q s xs x v away e =
      let v' = advance slot v.ordered x q.pushed_elems e (room v x away) refl (later_waits v) in
      let (q', rest, ran, w, moved, size) =
        release_lem slot (suc (length q.pushed_elems)) _ s (xs ++ x ∷ []) v'
          (omega (arith, length-waiting-le q.pushed_elems)) in
      (
        q',
        rest,
        push_next q xs x e v.ordered.ready (rw v.ordered.sized (room v x away)) ∙ ran,
        subst (Settled slot q' s) (append_assoc xs (x ∷ []) rest) w,
        moved,
        size,
      )

  -- An element that is pushed with its index, while none of that index is in the queue, goes to
  -- the ready elements if its index is next, with all that waited for it, and is set aside if not.
  -- No assertion fails, the loop ends, the order is kept, and no element is lost or doubled.
  pub push_lem :
      (q : OrderedQueue A) (s : ℕ) (xs : List A) (x : A)
      → Settled slot q s xs
      → IsAway q xs (slot x)
      → (q' : OrderedQueue A) × (more : List A) × (push q x (slot x) ≡ some q')
        × Settled slot q' s (xs ++ more)
        × Perm (more ++ waiting q'.pushed_elems) (x ∷ waiting q.pushed_elems)
        × (length q'.pushed_elems ≡ length q.pushed_elems)
        × (((slot x ≢ q.index_to_ack) × (more ≡ []))
            ⊎ ((slot x ≡ q.index_to_ack) × ((rest : List A) × (more ≡ x ∷ rest))))
  push_lem q s xs x v away = elim (ℕ_discrete (slot x) q.index_to_ack) [
    | no ne ↦
        let (y, e) = unflagged q xs (slot x) away in
        (
          set_aside v x away,
          [],
          push_early v x away ne,
          rw append-nil (set_aside-Settled v x away ne),
          waiting-set_flag q.pushed_elems (slot x) x y e,
          length-set q.pushed_elems (slot x) (x, true),
          inl (ne, refl),
        )
    | yes e ↦
        let (q', rest, ran, w, moved, size) = push_in_order q s xs x v away e in
        (q', x ∷ rest, ran, w, Perm.cons x moved, size, inr (e, (rest, refl)))
  ]

  -- `front` shows the first of the ready elements, and `pop` takes it; the others stay, in order.
  pub pop_lem :
      (q : OrderedQueue A) (s : ℕ) (x : A) (xs : List A)
      → Settled slot q s (x ∷ xs)
      → (front q ≡ some x)
        × (pop q ≡ some (record q { ready_elems = popped_front q.ready_elems (length xs) }))
        × Settled slot
            (record q { ready_elems = popped_front q.ready_elems (length xs) })
            (next (length q.pushed_elems) s)
            xs
  unfolding front pop
  pop_lem q s x xs v = (
    front_lem x v.ordered.ready,
    rw (pop_front-eq x xs v.ordered.ready),
    record {
      ordered = record {
        ready = pop_front-Represents x xs v.ordered.ready;
        sized = v.ordered.sized;
        small = v.ordered.small;
        start = ground (arith, v.ordered.start);
        fits = omega (arith, v.ordered.fits);
        ack =
            v.ordered.ack
            ∙ sym (turn-next (length q.pushed_elems) s (length xs) v.ordered.start v.ordered.fits);
        order = v.ordered.order.1;
        waits = λ i y h.
            let old = v.ordered.waits i y h in
            (old.0, ground (arith, old.1, v.ordered.start, get_elem?-lt_length q.pushed_elems i h));
      };
      idle = v.idle;
    },
  )
