-- ===== src/Manager/Tests.antt =====
-- A manager of two buffers of 100 bytes, of which the first is ready.
use mathlib.Core.List.{Mem, Perm, mem-cons, not-mem-nil}
use mathlib.Core.Logic.Or
use pothos_core.Base.{
  ℕ, zero, suc, ◌+◌, ◌*◌, ◌≤◌, ◌<◌, ◌≡◌, ◌⊎◌, inr, refl, subst, sym, List, [], ◌∷◌, ◌++◌, true,
  false, some, none, length, arith,
}
use pothos_core.RingDeque.{RingDeque}
use pothos_core.RingDeque.Rep.{Represents}
use pothos_core.OrderedQueue.{OrderedQueue}
use pothos_core.OrderedQueue.Order.{next}
use pothos_core.OrderedQueue.Inv.{WaitsWell}
use pothos_core.OrderedQueue.Push.{IsAway}
use pothos_core.Buffer.{SharedBuffer, ManagedBuffer, chunk_of}
use pothos_core.Manager.{Args, done, already_initialized, null_managed}
use pothos_core.Manager.Slots.{IsSlab, IsRegion, IsRegion-prop, owned}
use pothos_core.Manager.Generic.{GenericManager, constructed, push, pop, init}
use pothos_core.Manager.Generic.Inv.{slot, Manages}
use pothos_core.Manager.Generic.Ops.{push-Manages, pop-Manages}
use pothos_core.Manager.Generic.Init.{init_lem}

abbrev args : Args
args = record { num_buffers = 2; buffer_size = 100; node_affinity = 0 }

abbrev slab : SharedBuffer
slab = record { address = 1000; length = 200; alias = 0; container = some 1 }

abbrev buffer : ℕ → ManagedBuffer
buffer i = record {
  id = i;
  buffer = record { address = 1000 + 100 * i; length = 100; alias = 0; container = some 1 };
  slab_index = i;
  next_buffer = none;
}

abbrev ready : RingDeque ManagedBuffer
ready = record {
  mask = 1;
  capacity = 2;
  front_index = 0;
  num_elements = 1;
  container = some (buffer 0) ∷ none ∷ [];
}

abbrev manager : GenericManager
manager = record {
  initialized = true;
  front_buffer = record (chunk_of (buffer 0)) { address = 1030; length = 70 };
  buffer_size = 100;
  bytes_popped = 30;
  ready_buffs = record {
    index_to_ack = 1;
    pushed_elems = (null_managed, false) ∷ (null_managed, false) ∷ [];
    ready_elems = ready;
  };
}

is_slab : IsSlab args slab
is_slab = record {
  some_buffers = omega arith;
  buffers_fit = omega arith;
  size_fits = omega arith;
  slab_length = refl;
  slab_fits = omega arith;
  plain = refl;
}

buffer-IsRegion : (i : ℕ) → i < 2 → IsRegion args slab (buffer i)
buffer-IsRegion i h = record { in_slab = h; starts = omega arith; sized = refl; same_memory = refl }

ready-Represents : Represents ready (buffer 0 ∷ [])
ready-Represents = record {
  bits = 1;
  bits_small = omega arith;
  mask_eq = refl;
  storage = refl;
  capacity_fits = omega arith;
  mask_small = omega arith;
  count = refl;
  count_fits = omega arith;
  front_word = omega arith;
  cells = (refl, tt);
}

no_waits : WaitsWell slot manager.ready_buffs.pushed_elems 0 1
no_waits zero x e = cc
no_waits (suc zero) x e = cc
no_waits (suc (suc i)) x e = cc

only : (b : ManagedBuffer) → Mem b (buffer 0 ∷ []) → IsRegion args slab b
only b h =
    Or.elim (IsRegion-prop args slab b) (mem-cons.0 h)
      (λ e. subst (IsRegion args slab) (sym e) (buffer-IsRegion 0 (omega arith)))
      (λ h'. absurd (not-mem-nil h'))

manager-Manages : Manages args slab manager 0 (buffer 0 ∷ [])
manager-Manages = record {
  settled = record {
    ordered = record {
      ready = ready-Represents;
      sized = refl;
      small = omega arith;
      start = omega arith;
      fits = omega arith;
      ack = refl;
      order = (refl, tt);
      waits = no_waits;
    };
    idle = λ x e. cc;
  };
  size_eq = refl;
  sized = refl;
  regions = only;
  front_is = (refl, inr (omega arith));
}

away : IsAway slot manager.ready_buffs (buffer 0 ∷ []) 1
away = record {
  in_range = omega arith;
  not_ready = (λ e. absurd (omega arith), tt);
  not_waiting = λ y e. cc;
}

push_buffer_example :
    (m : GenericManager) × (more : List ManagedBuffer) × (push manager (buffer 1) ≡ done m)
    × Manages args slab m 0 ((buffer 0 ∷ []) ++ more)
    × Perm
        (owned m.ready_buffs ((buffer 0 ∷ []) ++ more))
        (buffer 1 ∷ owned manager.ready_buffs (buffer 0 ∷ []))
push_buffer_example =
    push-Manages args slab is_slab manager 0 (buffer 0 ∷ []) (buffer 1) manager-Manages
      (buffer-IsRegion 1 (omega arith)) away

pop_bytes_example :
    (m : GenericManager) × (pop manager 20 ≡ done m)
    × ((Manages args slab m 0 (buffer 0 ∷ []) × (m.bytes_popped ≡ 30 + 20) × (2 * (30 + 20) < 100))
        ⊎ (Manages args slab m (next 2 0) [] × (m.bytes_popped ≡ 0) × (100 ≤ 2 * (30 + 20))))
pop_bytes_example =
    pop-Manages args slab is_slab manager 0 (buffer 0) [] 20 manager-Manages (omega arith)

-- the queue before `init`
abbrev no_queue : OrderedQueue ManagedBuffer
no_queue = record { index_to_ack = 0; pushed_elems = []; ready_elems = ready }

init_example :
    (m : GenericManager) × (bs : List ManagedBuffer) × (init (λ a. slab) args (constructed no_queue)
      ≡ done m)
    × Manages args slab m 0 bs
    × (length bs ≡ 2)
    × (init (λ a. slab) args m ≡ already_initialized)
init_example = init_lem (λ a. slab) args (constructed no_queue) is_slab refl refl
