-- ===== src/OrderedQueue/Make.antt =====
-- The constructor of OrderedQueue.hpp.
use pothos_core.Base.{
  ℕ, zero, suc, ◌^◌, ◌≤◌, ◌<◌, ◌≡◌, refl, sym, ◌∙◌, ◌≢◌, List, [], Bool, true, false, some, length,
  get_elem?, replicate, length-replicate, arith,
}
use pothos_core.RingDeque.Growth.{make_lem}
use pothos_core.OrderedQueue.{OrderedQueue, make}
use pothos_core.OrderedQueue.Order.{turn-zero}
use pothos_core.OrderedQueue.Inv.{waiting, Settled}

module _ {ℓ} {A : Type ℓ} (slot : A → ℕ) where
  blank_flag :
      (n i : ℕ) (x y : A) → get_elem? {A = A × Bool} (replicate n (x, false)) i ≢ some (y, true)
  blank_flag zero i x y h = cc
  blank_flag (suc n) zero x y h = cc
  blank_flag (suc n) (suc i) x y h = blank_flag n i x y h

  blank_waiting : (n : ℕ) (x : A) → waiting (replicate n (x, false)) ≡ []
  blank_waiting zero x = refl
  blank_waiting (suc n) x = blank_waiting n x

  -- A new queue of a positive capacity, at most 2 ^ 63, has nothing ready or waiting, and room for
  -- that many indices, of which 0 is first.
  pub make-Settled :
      (initial : A) (c : ℕ)
      → 0 < c
      → c ≤ 2 ^ 63
      → (q : OrderedQueue A) × (make initial c ≡ some q)
        × Settled slot q 0 []
        × (waiting q.pushed_elems ≡ [])
        × (length q.pushed_elems ≡ c)
  unfolding make
  make-Settled initial c pos h =
      let (ready, made, v, cap) = make_lem {A = A} c pos h in
      let p : List (A × Bool) = replicate c (initial, false) in
      let size : length p ≡ c = length-replicate c (initial, false) in
      (
        record { index_to_ack = 0; pushed_elems = p; ready_elems = ready },
        ground (arith, made),
        record {
          ordered = record {
            ready = v;
            sized = cap ∙ sym size;
            small = omega (arith, size);
            start = omega (arith, size);
            fits = omega arith;
            ack = sym (turn-zero (length p) 0 (omega (arith, size)));
            order = tt;
            waits = λ i x e. absurd (blank_flag c i initial x e);
          };
          idle = λ x. blank_flag c 0 initial x;
        },
        blank_waiting c initial,
        size,
      )
