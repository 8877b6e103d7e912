-- ===== src/Manager/Circular/Ops.antt =====
-- The operations of CircularBufferManager.cpp on a manager that satisfies the invariant.
use mathlib.Core.List.{Perm, map-append}
use mathlib.Core.List.Perm
use pothos_core.Base.{
  map, ℕ, ◌+◌, ◌-◌, ◌≤◌, ◌<◌, ◌≡◌, inl, refl, sym, ◌∙◌, List, [], ◌∷◌, ◌++◌, length, arith, some,
}
use pothos_core.OrderedQueue
use pothos_core.OrderedQueue.{OrderedQueue}
use pothos_core.OrderedQueue.Inv.{Settled, waiting}
use pothos_core.OrderedQueue.Push.{IsAway, push_lem, pop_lem}
use pothos_core.OrderedQueue.Assign.{with_front, assign_front-eq, assign_front-Settled}
use pothos_core.Buffer.{SharedBuffer, ManagedBuffer, chunk_of, make_subset}
use pothos_core.Manager.{Args, done}
use pothos_core.Manager.Generic.Inv.{slot}
use pothos_core.Manager.Generic.Ops.{owned-push}
use pothos_core.Manager.Circular.{CircularManager, push, set_circ_front}
use pothos_core.Manager.Circular.Inv.{IsRing, window, Turns, position, slots}

module _ (args : Args) (circ : SharedBuffer) (k : IsRing args circ) where
  window_lem :
      (address : ℕ)
      → circ.address ≤ address
      → address < circ.address + circ.length
      → make_subset address args.buffer_size circ ≡ some (window args circ address)
  unfolding make_subset
  window_lem address low high =
      ground (arith, k.circular.somewhere, k.circular.fits, k.circular.aliased, k.buffer_fits)

  whole_window :
      (n a : ℕ) (b : ManagedBuffer)
      → b.buffer.address ≡ a
      → b.buffer.length ≡ args.buffer_size
      → n ≡ 0
      → chunk_of b ≡ record (chunk_of b) { address = a + n; length = args.buffer_size - n }
  whole_window n a b starts sized none = ground arith

  -- The front buffer of the queue becomes the window at the front address.
  pub set_circ_front_lem :
      (m : CircularManager) (s : ℕ) (b : ManagedBuffer) (bs : List ManagedBuffer)
      → Settled slot m.ready_buffs s (b ∷ bs)
      → m.buffer_size ≡ args.buffer_size
      → length m.ready_buffs.pushed_elems ≡ args.num_buffers
      → m.circ_buff ≡ circ
      → circ.address ≤ m.front_address
      → m.front_address < circ.address + circ.length
      → m.bytes_to_pop ≡ 0
      → (m' : CircularManager) × (set_circ_front m ≡ done m')
        × Turns args circ m' s (record b { buffer = window args circ m.front_address } ∷ bs)
        × (m'.ready_buffs.pushed_elems ≡ m.ready_buffs.pushed_elems)
        × (position m' ≡ position m)
        × (m'.initialized ≡ m.initialized)
  unfolding set_circ_front
  set_circ_front_lem m s b bs v size sized same low high none_popped =
      let b' : ManagedBuffer = record b { buffer = window args circ m.front_address } in
      let front : OrderedQueue.front m.ready_buffs ≡ some b =
        (pop_lem slot m.ready_buffs s b bs v).0 in
      (
        record m { ready_buffs = with_front slot m.ready_buffs b'; front_buffer = chunk_of b' },
        rw
            (
              front,
              size,
              same,
              window_lem m.front_address low high,
              assign_front-eq slot m.ready_buffs s b b' bs v,
            )
            refl,
        record {
          settled = assign_front-Settled slot m.ready_buffs s b b' bs v refl;
          size_eq = size;
          sized = sized;
          circ_eq = same;
          low = low;
          high = high;
          window_is = (
            refl,
            whole_window m.bytes_to_pop m.front_address b' refl refl none_popped,
            inl none_popped,
          );
        },
        refl,
        refl,
        refl,
      )

  pub slots_eq :
      (q q' : OrderedQueue ManagedBuffer) (bs bs' : List ManagedBuffer)
      → q.pushed_elems ≡ q'.pushed_elems
      → map slot bs ≡ map slot bs'
      → slots q bs ≡ slots q' bs'
  slots_eq q q' bs bs' e f =
      map-append slot bs (waiting q.pushed_elems)
      ∙ rw (e, f) (sym (map-append slot bs' (waiting q'.pushed_elems)))

  -- What a push on the queue gives the manager: the window, if the queue was empty and is not now.
  pub after_push :
      (m : CircularManager) (s : ℕ) (bs more : List ManagedBuffer) (b : ManagedBuffer)
      (q : OrderedQueue ManagedBuffer)
      → Turns args circ m s bs
      → OrderedQueue.push m.ready_buffs b b.slab_index ≡ some q
      → Settled slot q s (bs ++ more)
      → length q.pushed_elems ≡ args.num_buffers
      → b.slab_index < OrderedQueue.capacity m.ready_buffs
      → (m' : CircularManager) × (bs' : List ManagedBuffer) × (push m b ≡ done m')
        × Turns args circ m' s bs'
        × (m'.ready_buffs.pushed_elems ≡ q.pushed_elems)
        × (map slot bs' ≡ map slot (bs ++ more))
        × (position m' ≡ position m)
        × (m'.initialized ≡ m.initialized)
  unfolding push
  after_push m s [] [] b q v ran w size room = (
    record m { ready_buffs = q },
    [],
    ground (arith, ran, room, w.ordered.ready.count),
    record {
      settled = w;
      size_eq = v.size_eq;
      sized = size;
      circ_eq = v.circ_eq;
      low = v.low;
      high = v.high;
      window_is = v.window_is;
    },
    refl,
    refl,
    refl,
    refl,
  )
  after_push m s [] (c ∷ cs) b q v ran w size room =
      let (m', set, w', kept, same, init_same) =
        set_circ_front_lem (record m { ready_buffs = q }) s c cs w v.size_eq size v.circ_eq v.low
          v.high v.window_is in
      (
        m',
        _,
        ground (arith, ran, room, w.ordered.ready.count, v.settled.ordered.ready.count, set),
        w',
        kept,
        refl,
        same,
        init_same,
      )
  after_push m s (c ∷ cs) more b q v ran w size room = (
    record m { ready_buffs = q },
    (c ∷ cs) ++ more,
    ground (arith, ran, room, v.settled.ordered.ready.count),
    record {
      settled = w;
      size_eq = v.size_eq;
      sized = size;
      circ_eq = v.circ_eq;
      low = v.low;
      high = v.high;
      window_is = v.window_is;
    },
    refl,
    refl,
    refl,
    refl,
  )

  -- A buffer that is not in the manager comes back to it: no assertion fails, the ready buffers stay
  -- in order, the front chunk is what is left of the window at the front address, the manager has the
  -- indices that it had and this one, and its place in the circular buffer stays.
  pub push-Turns :
      (m : CircularManager) (s : ℕ) (bs : List ManagedBuffer) (b : ManagedBuffer)
      → Turns args circ m s bs
      → IsAway slot m.ready_buffs bs b.slab_index
      → (m' : CircularManager) × (bs' : List ManagedBuffer) × (push m b ≡ done m')
        × Turns args circ m' s bs'
        × Perm (slots m'.ready_buffs bs') (b.slab_index ∷ slots m.ready_buffs bs)
        × (position m' ≡ position m)
  push-Turns m s bs b v away =
      let (q, more, ran, w, moved, size, _) = push_lem slot m.ready_buffs s bs b v.settled away in
      let perm =
        owned-push bs more (waiting m.ready_buffs.pushed_elems) (waiting q.pushed_elems) b moved in
      let (m', bs', done_push, v', kept, named, same, _) =
        after_push m s bs more b q v ran w (size ∙ v.sized)
          (omega (arith, away.in_range, v.settled.ordered.sized)) in
      (
        m',
        bs',
        done_push,
        v',
        rw (slots_eq m'.ready_buffs q bs' (bs ++ more) kept named) (Perm.map slot perm),
        same,
      )
