-- ===== src/Manager/Generic/Ops.antt =====
-- The operations of GenericBufferManager.cpp on a manager that satisfies the invariant.
use mathlib.Core.List.{Perm, mem-cons_of_mem, mem-cons_self, perm_middle}
use native.Mathlib.Decide.{dec_lt}
use pothos_core.RingDeque.Ends.{popped_front}
use mathlib.Core.List.Perm
use pothos_core.Base.{
  ℕ, ◌+◌, ◌-◌, ◌*◌, ◌≤◌, ◌<◌, ◌^◌, ◌≡◌, ◌≢◌, ◌⊎◌, inl, inr, refl, sym, ◌∙◌, ap, List, [], ◌∷◌, ◌++◌,
  Bool-cases, length, if◌then◌else◌, word, arith, some, append_assoc,
}
use pothos_core.OrderedQueue
use pothos_core.OrderedQueue.{OrderedQueue}
use pothos_core.OrderedQueue.Order.{next}
use pothos_core.OrderedQueue.Inv.{Settled, waiting}
use pothos_core.OrderedQueue.Push.{IsAway, push_lem, pop_lem}
use pothos_core.Buffer.{SharedBuffer, ManagedBuffer, BufferChunk, chunk_of, null_chunk}
use pothos_core.Manager.{Args, done}
use pothos_core.Manager.Slots.{IsSlab, IsRegion, owned, regions-cons, region_in_slab}
use pothos_core.Manager.Generic.{GenericManager, empty, push, pop, next_front}
use pothos_core.Manager.Generic.Inv.{slot, remainder, FrontIs, Manages}

pub owned-push :
    (bs more w w' : List ManagedBuffer) (b : ManagedBuffer)
    → Perm (more ++ w') (b ∷ w)
    → Perm ((bs ++ more) ++ w') (b ∷ (bs ++ w))
owned-push bs more w w' b p =
    rw append_assoc (Perm.trans (Perm.append_left bs p) (perm_middle bs w))

-- the manager after a push that gives the queue `q`
abbrev pub pushed : GenericManager → ManagedBuffer → OrderedQueue ManagedBuffer → GenericManager
pushed m b q = record m {
  front_buffer = if empty m then chunk_of b else m.front_buffer;
  ready_buffs = q;
}

pub push-eq :
    (m : GenericManager) (b : ManagedBuffer) (q : OrderedQueue ManagedBuffer)
    → OrderedQueue.push m.ready_buffs b b.slab_index ≡ some q
    → push m b ≡ done (pushed m b q)
unfolding push
push-eq m b q e = elim (Bool-cases (empty m)) [
  | inl yes_empty ↦ rw (yes_empty, e)
  | inr not_empty ↦ rw (not_empty, e)
]

-- The front chunk stays, or is the first buffer's.
front-pushed :
    (m : GenericManager) (b : ManagedBuffer) (q : OrderedQueue ManagedBuffer)
    (bs more : List ManagedBuffer)
    → m.ready_buffs.ready_elems.num_elements ≡ length bs
    → FrontIs m bs
    → (more ≡ []) ⊎ ((rest : List ManagedBuffer) × (more ≡ b ∷ rest))
    → FrontIs (pushed m b q) (bs ++ more)
front-pushed m b q [] more count f (inl e) = rw e f
front-pushed m b q [] more count f (inr (rest, e)) = rw e (ground arith, inl f)
front-pushed m b q (c ∷ cs) more count f h = (ground arith, f.1)

next_front_lem :
    (m : GenericManager) (q : OrderedQueue ManagedBuffer) (s : ℕ) (bs : List ManagedBuffer)
    → Settled slot q s bs
    → (chunk : BufferChunk) × (next_front q ≡ done chunk)
      × FrontIs (record m { bytes_popped = 0; ready_buffs = q; front_buffer = chunk }) bs
unfolding next_front
next_front_lem m q s [] v = (null_chunk, ground (arith, v.ordered.ready.count), refl)
next_front_lem m q s (c ∷ cs) v = (
  chunk_of c,
  ground (arith, v.ordered.ready.count, (pop_lem slot q s c cs v).0),
  (ground arith, inl refl),
)

-- the two ways of `pop`
pop_small :
    (m : GenericManager) (b : ManagedBuffer) (n : ℕ)
    → m.ready_buffs.ready_elems.num_elements ≢ 0
    → m.front_buffer ≡ remainder b m.bytes_popped
    → b.buffer.address + b.buffer.length < word
    → b.buffer.length ≡ m.buffer_size
    → 2 * (m.bytes_popped + n) < m.buffer_size
    → pop m n
      ≡ done (record m {
        bytes_popped = m.bytes_popped + n;
        front_buffer = remainder b (m.bytes_popped + n);
      })
unfolding pop
pop_small m b n busy front fits sized small = ground arith

pop_whole :
    (m : GenericManager) (n : ℕ) (q : OrderedQueue ManagedBuffer) (chunk : BufferChunk)
    → m.ready_buffs.ready_elems.num_elements ≢ 0
    → m.bytes_popped + n < 2 ^ 63
    → m.buffer_size ≤ 2 * (m.bytes_popped + n)
    → OrderedQueue.pop m.ready_buffs ≡ some q
    → next_front q ≡ done chunk
    → pop m n ≡ done (record m { bytes_popped = 0; ready_buffs = q; front_buffer = chunk })
unfolding pop
pop_whole m n q chunk busy fits large popped found = ground arith

module _ (args : Args) (slab : SharedBuffer) (k : IsSlab args slab) where
  -- What a push on the queue makes of the manager.
  pub after_push :
      (m : GenericManager) (s : ℕ) (bs more : List ManagedBuffer) (b : ManagedBuffer)
      (q : OrderedQueue ManagedBuffer)
      → Manages args slab m s bs
      → IsRegion args slab b
      → Settled slot q s (bs ++ more)
      → Perm (more ++ waiting q.pushed_elems) (b ∷ waiting m.ready_buffs.pushed_elems)
      → length q.pushed_elems ≡ length m.ready_buffs.pushed_elems
      → (more ≡ []) ⊎ ((rest : List ManagedBuffer) × (more ≡ b ∷ rest))
      → Manages args slab (pushed m b q) s (bs ++ more)
        × Perm (owned q (bs ++ more)) (b ∷ owned m.ready_buffs bs)
  after_push m s bs more b q v r w moved size starts =
      let perm =
        owned-push bs more (waiting m.ready_buffs.pushed_elems) (waiting q.pushed_elems) b moved in
      (
        record {
          settled = w;
          size_eq = v.size_eq;
          sized = size ∙ v.sized;
          regions = regions-cons args slab b _ _ perm r v.regions;
          front_is = front-pushed m b q bs more v.settled.ordered.ready.count v.front_is starts;
        },
        perm,
      )

  -- A buffer of the slab that is not in the manager comes back to it. The buffers that are ready
  -- stay, in their order; the manager has all that it had, and this one.
  pub push-Manages :
      (m : GenericManager) (s : ℕ) (bs : List ManagedBuffer) (b : ManagedBuffer)
      → Manages args slab m s bs
      → IsRegion args slab b
      → IsAway slot m.ready_buffs bs b.slab_index
      → (m' : GenericManager) × (more : List ManagedBuffer) × (push m b ≡ done m')
        × Manages args slab m' s (bs ++ more)
        × Perm (owned m'.ready_buffs (bs ++ more)) (b ∷ owned m.ready_buffs bs)
  push-Manages m s bs b v r away =
      let (q, more, ran, w, moved, size, head) =
        push_lem slot m.ready_buffs s bs b v.settled away in
      let starts : (more ≡ []) ⊎ ((rest : List ManagedBuffer) × (more ≡ b ∷ rest)) = elim head [
        | inl (_, e) ↦ inl e
        | inr (_, e) ↦ inr e
      ] in
      let (v', perm) = after_push m s bs more b q v r w moved size starts in
      (pushed m b q, more, push-eq m b q ran, v', perm)

  -- A pop of at most the bytes of the front chunk succeeds. While less than half of the buffer is
  -- used up, the front chunk shrinks by those bytes and the buffer stays; from a half on, the buffer
  -- leaves the ready ones, and the front chunk is the whole next one, or null.
  pub pop-Manages :
      (m : GenericManager) (s : ℕ) (b : ManagedBuffer) (bs : List ManagedBuffer) (n : ℕ)
      → Manages args slab m s (b ∷ bs)
      → n ≤ m.front_buffer.length
      → (m' : GenericManager) × (pop m n ≡ done m')
        × ((Manages args slab m' s (b ∷ bs)
              × (m'.bytes_popped ≡ m.bytes_popped + n)
              × (2 * (m.bytes_popped + n) < args.buffer_size))
            ⊎ (Manages args slab m' (next args.num_buffers s) bs
                × (m'.bytes_popped ≡ 0)
                × (args.buffer_size ≤ 2 * (m.bytes_popped + n))))
  pop-Manages m s b bs n v h = elim (dec_lt (2 * (m.bytes_popped + n)) args.buffer_size) [
    | yes small ↦ (
      record m {
        bytes_popped = m.bytes_popped + n;
        front_buffer = remainder b (m.bytes_popped + n);
      },
      pop_small m b n busy v.front_is.0 (omega (arith, k.slab_fits, inside))
          (r.sized ∙ sym v.size_eq) (omega (arith, v.size_eq)),
      inl (
        record {
          settled = v.settled;
          size_eq = v.size_eq;
          sized = v.sized;
          regions = v.regions;
          front_is = (refl, inr (omega (arith, v.size_eq)));
        },
        refl,
        small,
      ),
    )
    | no large ↦
        let (_, popped, w) = pop_lem slot m.ready_buffs s b bs v.settled in
        let q : OrderedQueue ManagedBuffer = record m.ready_buffs {
          ready_elems = popped_front m.ready_buffs.ready_elems (length bs);
        } in
        let (chunk, found, f) = next_front_lem m q _ bs w in
        (
          record m { bytes_popped = 0; ready_buffs = q; front_buffer = chunk },
          pop_whole m n q chunk busy
              (omega (arith, k.size_fits, r.sized, left, v.front_is.1, v.size_eq))
              (omega (arith, v.size_eq)) popped found,
          inr (
            record {
              settled = rw (← v.sized) w;
              size_eq = v.size_eq;
              sized = v.sized;
              regions = λ x e. v.regions x (mem-cons_of_mem b e);
              front_is = f;
            },
            refl,
            omega arith,
          ),
        )
  ]
    where
      r : IsRegion args slab b
      r = v.regions b mem-cons_self

      inside : b.buffer.address + b.buffer.length ≤ slab.address + slab.length
      inside = (region_in_slab args slab b k r).1

      left : m.front_buffer.length ≡ b.buffer.length - m.bytes_popped
      left = ap (λ c. c.length) v.front_is.0

      busy : m.ready_buffs.ready_elems.num_elements ≢ 0
      busy = omega (arith, v.settled.ordered.ready.count)
