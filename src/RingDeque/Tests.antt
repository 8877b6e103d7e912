-- ===== src/RingDeque/Tests.antt =====
-- A ring whose three elements go round its end, and the theorems on it.
use pothos_core.Base.{ℕ, ◌^◌, ◌≡◌, refl, List, [], ◌∷◌, none, some, arith}
use pothos_core.RingDeque.{RingDeque, next_pow2}
use pothos_core.RingDeque.Rep.{Represents}
use pothos_core.RingDeque.Growth.{IsNextPow, next_pow2_lem}
use pothos_core.RingDeque.Deque.{
  Op, put_front, put_back, drop_front, drop_back, clear_all, read_front, read_back, resize, Deque,
  ring_run, run, step, split_last,
}
use pothos_core.RingDeque.Refine.{ring_run-eq-run}

abbrev ring : RingDeque ℕ
ring = record {
  mask = 3;
  capacity = 4;
  front_index = 2;
  num_elements = 3;
  container = some 12 ∷ none ∷ some 10 ∷ some 11 ∷ [];
}

abbrev elems : List ℕ
elems = 10 ∷ 11 ∷ 12 ∷ []

ring-Represents : Represents ring elems
ring-Represents = record {
  bits = 2;
  bits_small = omega arith;
  mask_eq = refl;
  storage = refl;
  capacity_fits = omega arith;
  mask_small = omega arith;
  count = refl;
  count_fits = omega arith;
  front_word = omega arith;
  cells = (refl, (refl, (refl, tt)));
}

abbrev deque : Deque ℕ
deque = record { cap = 4; items = elems }

abbrev calls : List (Op ℕ)
calls =
    put_front 9
    ∷ read_front
    ∷ drop_back
    ∷ drop_back
    ∷ put_back 20
    ∷ resize 8
    ∷ read_back
    ∷ drop_front
    ∷ resize 1
    ∷ clear_all
    ∷ drop_front
    ∷ put_back 1
    ∷ []

run-calls :
    run deque calls ≡ none ∷ some 9 ∷ none ∷ none ∷ none ∷ none ∷ some 20 ∷ none ∷ none ∷ none ∷ []
unfolding run step split_last
run-calls = refl

ring_run-eq-run_example : ring_run ring calls ≡ run deque calls
ring_run-eq-run_example = ring_run-eq-run calls ring deque (ring-Represents, refl)

abbrev other : RingDeque ℕ
other = record {
  mask = 1;
  capacity = 2;
  front_index = 1;
  num_elements = 1;
  container = none ∷ some 7 ∷ [];
}

other-Represents : Represents other (7 ∷ [])
other-Represents = record {
  bits = 1;
  bits_small = omega arith;
  mask_eq = refl;
  storage = refl;
  capacity_fits = omega arith;
  mask_small = omega arith;
  count = refl;
  count_fits = omega arith;
  front_word = omega arith;
  cells = (refl, tt);
}

next_pow2_example : (k : ℕ) × (next_pow2 1000 ≡ some (2 ^ k)) × IsNextPow 1000 k
next_pow2_example = next_pow2_lem 1000 (omega arith)
