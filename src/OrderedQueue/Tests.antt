-- ===== src/OrderedQueue/Tests.antt =====
-- A queue of four indices where 0 and 1 are ready and 3 waits for 2, and the theorems on it.
use mathlib.Core.List.{Perm}
use pothos_core.Base.{
  ℕ, zero, suc, ◌≡◌, ◌≢◌, ◌⊎◌, refl, sym, List, [], ◌∷◌, ◌++◌, true, false, some, none, length,
  arith,
}
use pothos_core.RingDeque.{RingDeque}
use pothos_core.RingDeque.Rep.{Represents}
use pothos_core.RingDeque.Ends.{popped_front}
use pothos_core.OrderedQueue.{OrderedQueue, push, make}
use pothos_core.OrderedQueue.Inv.{Settled, WaitsWell, waiting}
use pothos_core.OrderedQueue.Push.{IsAway, push_lem}
use pothos_core.OrderedQueue.Make.{make-Settled}

abbrev slot : ℕ → ℕ
slot x = x

abbrev ready : RingDeque ℕ
ready = record {
  mask = 3;
  capacity = 4;
  front_index = 3;
  num_elements = 2;
  container = some 1 ∷ none ∷ none ∷ some 0 ∷ [];
}

abbrev queue : OrderedQueue ℕ
queue = record {
  index_to_ack = 2;
  pushed_elems = (0, false) ∷ (0, false) ∷ (0, false) ∷ (3, true) ∷ [];
  ready_elems = ready;
}

ready-Represents : Represents ready (0 ∷ 1 ∷ [])
ready-Represents = record {
  bits = 2;
  bits_small = omega arith;
  mask_eq = refl;
  storage = refl;
  capacity_fits = omega arith;
  mask_small = omega arith;
  count = refl;
  count_fits = omega arith;
  front_word = omega arith;
  cells = (refl, (refl, tt));
}

queue_waits : WaitsWell slot queue.pushed_elems 0 2
queue_waits zero x e = cc
queue_waits (suc zero) x e = cc
queue_waits (suc (suc zero)) x e = cc
queue_waits (suc (suc (suc zero))) x e = let same : 3 ≡ x = cc in (sym same, omega arith)
queue_waits (suc (suc (suc (suc i)))) x e = cc

queue-Settled : Settled slot queue 0 (0 ∷ 1 ∷ [])
queue-Settled = record {
  ordered = record {
    ready = ready-Represents;
    sized = refl;
    small = omega arith;
    start = omega arith;
    fits = omega arith;
    ack = refl;
    order = (refl, (refl, tt));
    waits = queue_waits;
  };
  idle = λ x e. cc;
}

away : IsAway slot queue (0 ∷ 1 ∷ []) 2
away = record {
  in_range = omega arith;
  not_ready = (λ e. absurd (omega arith), (λ e. absurd (omega arith), tt));
  not_waiting = λ y e. cc;
}

push_example :
    (q : OrderedQueue ℕ) × (more : List ℕ) × (push queue 2 2 ≡ some q)
    × Settled slot q 0 ((0 ∷ 1 ∷ []) ++ more)
    × Perm (more ++ waiting q.pushed_elems) (2 ∷ waiting queue.pushed_elems)
    × (length q.pushed_elems ≡ length queue.pushed_elems)
    × (((2 ≢ queue.index_to_ack) × (more ≡ []))
        ⊎ ((2 ≡ queue.index_to_ack) × ((rest : List ℕ) × (more ≡ 2 ∷ rest))))
push_example = push_lem slot queue 0 (0 ∷ 1 ∷ []) 2 queue-Settled away

abbrev queue_popped : OrderedQueue ℕ
queue_popped = record queue { ready_elems = popped_front ready 1 }

make_example :
    (q : OrderedQueue ℕ) × (make 0 3 ≡ some q)
    × Settled slot q 0 []
    × (waiting q.pushed_elems ≡ [])
    × (length q.pushed_elems ≡ 3)
make_example = make-Settled slot 0 3 (omega arith) (omega arith)
