-- ===== src/OrderedQueue/Assign.antt =====
-- An assignment through the reference that `front()` of OrderedQueue.hpp gives.
use pothos_core.Base.{ℕ, ◌≡◌, ◌∙◌, List, ◌∷◌, some, arith}
use pothos_core.RingDeque.Assign.{replaced_front, assign-eq, replaced_front-Represents}
use pothos_core.OrderedQueue.{OrderedQueue, assign_front}
use pothos_core.OrderedQueue.Inv.{Settled}

module _ {ℓ} {A : Type ℓ} (slot : A → ℕ) where
  abbrev pub with_front : OrderedQueue A → A → OrderedQueue A
  with_front q y = record q { ready_elems = replaced_front q.ready_elems y }

  pub assign_front-eq :
      (q : OrderedQueue A) (s : ℕ) (x y : A) (xs : List A)
      → Settled slot q s (x ∷ xs)
      → assign_front q y ≡ some (with_front q y)
  unfolding assign_front
  assign_front-eq q s x y xs v =
      ground (arith, v.ordered.ready.count, assign-eq x y v.ordered.ready)

  -- Another front element of the same index keeps the queue in order.
  pub assign_front-Settled :
      (q : OrderedQueue A) (s : ℕ) (x y : A) (xs : List A)
      → Settled slot q s (x ∷ xs)
      → slot y ≡ slot x
      → Settled slot (with_front q y) s (y ∷ xs)
  assign_front-Settled q s x y xs v e = record {
    ordered = record {
      ready = replaced_front-Represents x y v.ordered.ready;
      sized = v.ordered.sized;
      small = v.ordered.small;
      start = v.ordered.start;
      fits = v.ordered.fits;
      ack = v.ordered.ack;
      order = (e ∙ v.ordered.order.0, v.ordered.order.1);
      waits = v.ordered.waits;
    };
    idle = v.idle;
  }
