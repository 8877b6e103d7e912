-- ===== src/Manager/Circular/Init.antt =====
-- CircularBufferManager::init: all buffers are ready, in order, and the front chunk is the first window.
use mathlib.Core.List.{Perm, append-eq-nil_iff}
use mathlib.Core.List.Perm
use pothos_core.Base.{
  ℕ, zero, suc, ◌+◌, ◌<◌, ◌≡◌, refl, sym, subst, ◌∙◌, ap, List, [], ◌∷◌, ◌++◌, true, false, length,
  length-append, length-map, arith, some,
}
use pothos_core.OrderedQueue.Order.{InOrder-Lacks}
use pothos_core.OrderedQueue.Inv.{waiting, unflagged_of_waiting}
use pothos_core.OrderedQueue.Push.{IsAway, push_in_order}
use pothos_core.OrderedQueue.Make.{make-Settled}
use pothos_core.Buffer.{SharedBuffer, ManagedBuffer}
use pothos_core.Manager.{Args, done, null_managed, already_initialized}
use pothos_core.Manager.Generic.Inv.{slot}
use pothos_core.Manager.Circular.{CircularManager, next_of, fill, init, push}
use pothos_core.Manager.Circular.Inv.{IsRing, Turns, position}
use pothos_core.Manager.Circular.Ops.{after_push}

module _ (args : Args) (circ : SharedBuffer) (k : IsRing args circ) where
  -- the buffer number `i` as it is pushed
  abbrev nth_buffer : SharedBuffer → ℕ → ManagedBuffer
  nth_buffer whole i = record {
    id = i;
    buffer = whole;
    slab_index = i;
    next_buffer = some (next_of args i);
  }

  -- `i` buffers are ready and none waits; the place in the circular buffer is `p`
  record Filled (m : CircularManager) (i p : ℕ) (bs : List ManagedBuffer) : Type 0 where
    turns : Turns args circ m 0 bs
    count : length bs ≡ i
    none_waits : waiting m.ready_buffs.pushed_elems ≡ []
    place : position m ≡ p

  fill_step :
      (i p : ℕ) (m : CircularManager) (bs : List ManagedBuffer)
      → i < args.num_buffers
      → Filled m i p bs
      → (m' : CircularManager) × (bs' : List ManagedBuffer) × (push m (nth_buffer m.circ_buff i)
          ≡ done m')
        × Filled m' (i + 1) p bs'
        × (m'.initialized ≡ m.initialized)
  fill_step i p m bs lt f =
      let v = f.turns in
      let b : ManagedBuffer = nth_buffer m.circ_buff i in
      let (q, rest, ran, settled, moved, size) =
        push_in_order slot m.ready_buffs 0 bs b v.settled away in_order in
      let (no_rest, no_more) =
        (append-eq-nil_iff {p = rest} {q = waiting q.pushed_elems}).0
          (Perm.eq-nil (subst (Perm (rest ++ waiting q.pushed_elems)) f.none_waits moved)) in
      let (m', bs', ran', w, kept, named, same, init_same) =
        after_push args circ k m 0 bs (b ∷ rest) b q v ran settled (size ∙ v.sized)
          (omega (arith, v.settled.ordered.sized, v.sized)) in
      (
        m',
        bs',
        ran',
        record {
          turns = w;
          count =
              sym (length-map slot bs')
              ∙ ap length named
              ∙ length-map slot (bs ++ b ∷ rest)
              ∙ omega (arith, length-append bs (b ∷ rest), f.count, ap length no_rest);
          none_waits = ap waiting kept ∙ no_more;
          place = same ∙ f.place;
        },
        init_same,
      )
    where
      away : IsAway slot m.ready_buffs bs i
      away = record {
        in_range = omega (arith, f.turns.sized);
        not_ready =
            InOrder-Lacks slot (length m.ready_buffs.pushed_elems) 0 i bs (omega (arith, f.count))
              (omega (arith, f.turns.sized)) f.turns.settled.ordered.order;
        not_waiting = λ y. unflagged_of_waiting m.ready_buffs.pushed_elems i y f.none_waits;
      }

      in_order : i ≡ m.ready_buffs.index_to_ack
      in_order = ground (arith, f.turns.settled.ordered.ack, f.turns.sized, f.count)

  fill_lem :
      (rounds i p : ℕ) (m : CircularManager) (bs : List ManagedBuffer)
      → i + rounds ≡ args.num_buffers
      → Filled m i p bs
      → (m' : CircularManager) × (bs' : List ManagedBuffer) × (fill rounds i args m ≡ done m')
        × Filled m' args.num_buffers p bs'
        × (m'.initialized ≡ m.initialized)
  unfolding fill
  fill_lem zero i p m bs e f = (m, bs, refl, subst (λ n. Filled m n p bs) (omega arith) f, refl)
  fill_lem (suc rounds) i p m bs e f =
      let (m1, bs1, ran, f1, same) = fill_step i p m bs (omega arith) f in
      let (m', bs', filled, f', kept) = fill_lem rounds (i + 1) p m1 bs1 (omega arith) f1 in
      (m', bs', rw ran filled, f', kept ∙ same)

-- A manager that is not yet initialized allocates its circular buffer and has all its buffers ready,
-- in order, the first as the window at the start of the circular buffer; a second `init` is refused.
pub init-Turns :
    (allocate : Args → SharedBuffer) (args : Args) (m : CircularManager)
    → IsRing args (allocate args)
    → m.initialized ≡ false
    → m.bytes_to_pop ≡ 0
    → (m' : CircularManager) × (bs : List ManagedBuffer) × (init allocate args m ≡ done m')
      × Turns args (allocate args) m' 0 bs
      × (length bs ≡ args.num_buffers)
      × (position m' ≡ (allocate args).address)
      × (init allocate args m' ≡ already_initialized)
unfolding init
init-Turns allocate args m k fresh unpopped =
    let (q, made, v, w, size) =
      make-Settled slot null_managed args.num_buffers k.some_buffers k.buffers_fit in
    let (m', bs, filled, f, kept) =
      fill_lem args (allocate args) k args.num_buffers 0 (allocate args).address
        (record m {
          initialized = true;
          circ_buff = allocate args;
          front_address = (allocate args).address;
          buffer_size = args.buffer_size;
          ready_buffs = q;
        })
        [] (omega arith)
        (record {
          turns = record {
            settled = v;
            size_eq = refl;
            sized = size;
            circ_eq = refl;
            low = omega arith;
            high = omega (arith, k.circular.some_bytes);
            window_is = unpopped;
          };
          count = refl;
          none_waits = w;
          place = omega (arith, unpopped);
        }) in
    (m', bs, rw (fresh, made) filled, f.turns, f.count, f.place, rw kept refl)
