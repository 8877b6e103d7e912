-- ===== src/Manager/Circular/Tests.antt =====
-- A manager of two buffers of 100 bytes in a circular buffer of 200, of which the first is ready and
-- goes over the end of the first mapping.
use mathlib.Core.List.{Perm}
use pothos_core.Base.{
  ℕ, zero, suc, ◌+◌, ◌*◌, ◌≤◌, ◌<◌, ◌≡◌, ◌⊎◌, inr, refl, List, [], ◌∷◌, true, false, some, none,
  arith,
}
use pothos_core.RingDeque.{RingDeque}
use pothos_core.OrderedQueue.{OrderedQueue}
use pothos_core.OrderedQueue.Order.{next}
use pothos_core.OrderedQueue.Inv.{WaitsWell}
use pothos_core.OrderedQueue.Push.{IsAway}
use pothos_core.Buffer.{SharedBuffer, ManagedBuffer, chunk_of}
use pothos_core.Manager.{Args, done, null_managed}
use pothos_core.Manager.Generic.Inv.{slot}
use pothos_core.Manager.Circular.{CircularManager, push, pop}
use pothos_core.Manager.Circular.Inv.{IsRing, window, Turns, position, slots}
use pothos_core.Manager.Circular.Ops.{push-Turns}
use pothos_core.Manager.Circular.Pop.{byte_at, pop-Turns}

abbrev args : Args
args = record { num_buffers = 2; buffer_size = 100; node_affinity = 0 }

abbrev circ : SharedBuffer
circ = record { address = 1000; length = 200; alias = 1200; container = some 1 }

abbrev buffer : ℕ → ℕ → ManagedBuffer
buffer i address = record {
  id = i;
  buffer = window args circ address;
  slab_index = i;
  next_buffer = none;
}

abbrev ready : RingDeque ManagedBuffer
ready = record {
  mask = 1;
  capacity = 2;
  front_index = 0;
  num_elements = 1;
  container = some (buffer 0 1150) ∷ none ∷ [];
}

abbrev manager : CircularManager
manager = record {
  initialized = true;
  front_buffer = record (chunk_of (buffer 0 1150)) { address = 1180; length = 70 };
  front_address = 1150;
  buffer_size = 100;
  bytes_to_pop = 30;
  circ_buff = circ;
  ready_buffs = record {
    index_to_ack = 1;
    pushed_elems = (null_managed, false) ∷ (null_managed, false) ∷ [];
    ready_elems = ready;
  };
}

is_ring : IsRing args circ
is_ring = record {
  some_buffers = omega arith;
  buffers_fit = omega arith;
  circular = record {
    somewhere = omega arith;
    some_bytes = omega arith;
    fits = omega arith;
    aliased = refl;
  };
  size_fits = omega arith;
  buffer_fits = omega arith;
}

no_waits : WaitsWell slot manager.ready_buffs.pushed_elems 0 1
no_waits zero x e = cc
no_waits (suc zero) x e = cc
no_waits (suc (suc i)) x e = cc

manager-Turns : Turns args circ manager 0 (buffer 0 1150 ∷ [])
manager-Turns = record {
  settled = record {
    ordered = record {
      ready = record {
        bits = 1;
        bits_small = omega arith;
        mask_eq = refl;
        storage = refl;
        capacity_fits = omega arith;
        mask_small = omega arith;
        count = refl;
        count_fits = omega arith;
        front_word = omega arith;
        cells = (refl, tt);
      };
      sized = refl;
      small = omega arith;
      start = omega arith;
      fits = omega arith;
      ack = refl;
      order = (refl, tt);
      waits = no_waits;
    };
    idle = λ x e. cc;
  };
  size_eq = refl;
  sized = refl;
  circ_eq = refl;
  low = omega arith;
  high = omega arith;
  window_is = (refl, refl, inr (omega arith));
}

away : IsAway slot manager.ready_buffs (buffer 0 1150 ∷ []) 1
away = record {
  in_range = omega arith;
  not_ready = (λ e. absurd (omega arith), tt);
  not_waiting = λ y e. cc;
}

push_window_example :
    (m : CircularManager) × (bs : List ManagedBuffer) × (push manager (buffer 1 1000) ≡ done m)
    × Turns args circ m 0 bs
    × Perm (slots m.ready_buffs bs) (1 ∷ slots manager.ready_buffs (buffer 0 1150 ∷ []))
    × (position m ≡ 1180)
push_window_example =
    push-Turns args circ is_ring manager 0 (buffer 0 1150 ∷ []) (buffer 1 1000) manager-Turns away

pop_window_example :
    (m : CircularManager) × (bs : List ManagedBuffer) × (pop manager 30 ≡ done m)
    × (byte_at circ (position m) ≡ 10)
    × ((Turns args circ m 0 (buffer 0 1150 ∷ []) × (2 * (30 + 30) < 100))
        ⊎ (Turns args circ m (next 2 0) bs
            × (slots manager.ready_buffs (buffer 0 1150 ∷ []) ≡ 0 ∷ slots m.ready_buffs bs)
            × (100 ≤ 2 * (30 + 30))))
pop_window_example =
    pop-Turns args circ is_ring manager 0 (buffer 0 1150) [] 30 manager-Turns (omega arith)

-- the queue before `init`
abbrev no_queue : OrderedQueue ManagedBuffer
no_queue = record { index_to_ack = 0; pushed_elems = []; ready_elems = ready }
