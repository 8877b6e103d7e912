-- ===== src/Manager/Generic/Init.antt =====
-- GenericBufferManager::init: it cuts the slab into its buffers, and all are ready, in order.
use mathlib.Core.List.{Mem, Perm, append-eq-nil_iff, not-mem-nil}
use mathlib.Core.List.Perm
use pothos_core.Base.{
  ℕ, zero, suc, ◌+◌, ◌*◌, ◌≤◌, ◌<◌, ◌≡◌, inr, refl, subst, ◌∙◌, ap, List, [], ◌∷◌, ◌++◌, true,
  false, length, length-append, arith, some,
}
use pothos_core.OrderedQueue.{OrderedQueue}
use pothos_core.OrderedQueue.Order.{InOrder-Lacks}
use pothos_core.OrderedQueue.Inv.{Settled, waiting, unflagged_of_waiting}
use pothos_core.OrderedQueue.Push.{IsAway, push_in_order}
use pothos_core.OrderedQueue.Make.{make-Settled}
use pothos_core.Buffer.{SharedBuffer, ManagedBuffer, make_subset}
use pothos_core.Manager.{Args, done, null_managed, already_initialized}
use pothos_core.Manager.Slots.{IsSlab, IsRegion, region, mul_step}
use pothos_core.Manager.Generic.{GenericManager, make_buffer, next_of, fill, init, push}
use pothos_core.Manager.Generic.Inv.{slot, Manages}
use pothos_core.Manager.Generic.Ops.{after_push, push-eq, pushed}

module _ (args : Args) (slab : SharedBuffer) (k : IsSlab args slab) where
  -- the buffer number `i`
  abbrev nth_buffer : ℕ → ManagedBuffer
  nth_buffer i = record {
    id = i;
    buffer = record {
      address = region args slab i;
      length = args.buffer_size;
      alias = 0;
      container = slab.container;
    };
    slab_index = i;
    next_buffer = next_of args i;
  }

  nth_buffer-IsRegion : (i : ℕ) → i < args.num_buffers → IsRegion args slab (nth_buffer i)
  nth_buffer-IsRegion i h = record { in_slab = h; starts = refl; sized = refl; same_memory = refl }

  make_buffer_lem :
      (i : ℕ) → i < args.num_buffers → make_buffer args slab i ≡ some (nth_buffer i).buffer
  unfolding make_buffer make_subset
  make_buffer_lem i h = ground (arith, k.plain, k.slab_fits, k.slab_length, room)
    where
      room : args.buffer_size * i + args.buffer_size ≤ args.buffer_size * args.num_buffers
      room = mul_step args.buffer_size i args.num_buffers h

  -- One round: the next buffer is pushed in order, and no other moves.
  fill_step :
      (i : ℕ) (m : GenericManager) (bs : List ManagedBuffer)
      → i < args.num_buffers
      → length bs ≡ i
      → waiting m.ready_buffs.pushed_elems ≡ []
      → Manages args slab m 0 bs
      → (q : OrderedQueue ManagedBuffer) × (push m (nth_buffer i)
          ≡ done (pushed m (nth_buffer i) q))
        × Manages args slab (pushed m (nth_buffer i) q) 0 (bs ++ nth_buffer i ∷ [])
        × (waiting q.pushed_elems ≡ [])
  fill_step i m bs lt n w v =
      let (q, rest, ran, settled, moved, size) =
        push_in_order slot m.ready_buffs 0 bs (nth_buffer i) v.settled away in_order in
      let (no_rest, no_more) =
        append-eq-nil_iff.0 (Perm.eq-nil (subst (Perm (rest ++ waiting q.pushed_elems)) w moved)) in
      (
        q,
        push-eq m (nth_buffer i) q ran,
        (after_push args slab k m 0 bs (nth_buffer i ∷ []) (nth_buffer i) q v
            (nth_buffer-IsRegion i lt)
            (subst (λ r. Settled slot q 0 (bs ++ nth_buffer i ∷ r)) no_rest settled)
            (rw (no_more, w) (Perm.refl (nth_buffer i ∷ []))) size (inr ([], refl))).0,
        no_more,
      )
    where
      away : IsAway slot m.ready_buffs bs i
      away = record {
        in_range = omega (arith, v.sized);
        not_ready =
            InOrder-Lacks slot (length m.ready_buffs.pushed_elems) 0 i bs (omega arith)
              (omega (arith, v.sized)) v.settled.ordered.order;
        not_waiting = λ y. unflagged_of_waiting m.ready_buffs.pushed_elems i y w;
      }

      in_order : i ≡ m.ready_buffs.index_to_ack
      in_order = ground (arith, v.settled.ordered.ack, v.sized)

  fill-suc :
      (rounds i : ℕ) (m m' : GenericManager)
      → i < args.num_buffers
      → push m (nth_buffer i) ≡ done m'
      → fill (suc rounds) i args slab m ≡ fill rounds (i + 1) args slab m'
  unfolding fill
  fill-suc rounds i m m' lt e = rw (make_buffer_lem i lt, e)

  fill_lem :
      (rounds i : ℕ) (m : GenericManager) (bs : List ManagedBuffer)
      → i + rounds ≡ args.num_buffers
      → length bs ≡ i
      → waiting m.ready_buffs.pushed_elems ≡ []
      → Manages args slab m 0 bs
      → (m' : GenericManager) × (bs' : List ManagedBuffer) × (fill rounds i args slab m ≡ done m')
        × Manages args slab m' 0 bs'
        × (length bs' ≡ args.num_buffers)
        × (m'.initialized ≡ m.initialized)
  unfolding fill
  fill_lem zero i m bs e n w v = (m, bs, refl, v, omega arith, refl)
  fill_lem (suc rounds) i m bs e n w v =
      let lt : i < args.num_buffers = omega arith in
      let (q, ran, v', w') = fill_step i m bs lt n w v in
      let (m', bs', filled, done_v, size, kept) =
        fill_lem rounds (i + 1) (pushed m (nth_buffer i) q) (bs ++ nth_buffer i ∷ []) (omega arith)
          (length-append bs (nth_buffer i ∷ []) ∙ ap (λ n. n + 1) n) w' v' in
      (m', bs', fill-suc rounds i m _ lt ran ∙ filled, done_v, size, kept)

-- A manager that is not yet initialized allocates its slab, cuts it into all its buffers, and has
-- them all ready, each its own region; a second `init` is refused.
pub init_lem :
    (allocate : Args → SharedBuffer) (args : Args) (m : GenericManager)
    → IsSlab args (allocate args)
    → m.initialized ≡ false
    → m.bytes_popped ≡ 0
    → (m' : GenericManager) × (bs : List ManagedBuffer) × (init allocate args m ≡ done m')
      × Manages args (allocate args) m' 0 bs
      × (length bs ≡ args.num_buffers)
      × (init allocate args m' ≡ already_initialized)
unfolding init
init_lem allocate args m k fresh unpopped =
    let (q, made, v, w, size) =
      make-Settled slot null_managed args.num_buffers k.some_buffers k.buffers_fit in
    let m0 : GenericManager = record m {
      initialized = true;
      buffer_size = args.buffer_size;
      ready_buffs = q;
    } in
    let (m', bs, filled, v', all, kept) =
      fill_lem args (allocate args) k args.num_buffers 0 m0 [] (omega arith) refl w (record {
        settled = v;
        size_eq = refl;
        sized = size;
        regions = λ b h. absurd (not-mem-nil (subst (λ l. Mem b l) w h));
        front_is = unpopped;
      }) in
    (m', bs, rw (fresh, made) filled, v', all, rw kept refl)
