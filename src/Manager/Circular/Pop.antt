-- ===== src/Manager/Circular/Pop.antt =====
-- `pop` of CircularBufferManager.cpp: the place in the circular buffer goes on by the bytes popped.
use native.Mathlib.Decide.{dec_lt}
use native.Mathlib.Nat.{add-mod_right}
use pothos_core.Base.{
  ℕ, ◌+◌, ◌-◌, ◌*◌, ◌%◌, ◌≤◌, ◌<◌, ◌^◌, ◌≡◌, ◌≢◌, ◌⊎◌, inl, inr, refl, sym, ◌∙◌, ap, List, [], ◌∷◌,
  false, length, word, arith, some, add_size, le→leb,
}
use pothos_core.RingDeque.Ends.{popped_front}
use pothos_core.OrderedQueue
use pothos_core.OrderedQueue.{OrderedQueue}
use pothos_core.OrderedQueue.Order.{next}
use pothos_core.OrderedQueue.Inv.{Settled}
use pothos_core.OrderedQueue.Push.{pop_lem}
use pothos_core.Buffer.{SharedBuffer, ManagedBuffer, null_chunk}
use pothos_core.Manager.{Args, done}
use pothos_core.Manager.Generic.Inv.{slot}
use pothos_core.Manager.Circular.{CircularManager, pop, move_on, wrapped}
use pothos_core.Manager.Circular.Inv.{IsRing, Turns, position, slots}
use pothos_core.Manager.Circular.Ops.{set_circ_front_lem, slots_eq}

-- the byte of the circular buffer that an address shows
abbrev pub byte_at : SharedBuffer → ℕ → ℕ
byte_at circ address = (address - circ.address) % circ.length

-- An address of either mapping goes to the first one, at the same byte.
wrapped_lem :
    (circ : SharedBuffer) (a : ℕ)
    → circ.address + circ.length + circ.length < word
    → circ.address ≤ a
    → a < circ.address + circ.length + circ.length
    → (circ.address ≤ wrapped circ a)
      × (wrapped circ a < circ.address + circ.length)
      × (byte_at circ (wrapped circ a) ≡ byte_at circ a)
wrapped_lem circ a fits low high = elim (dec_lt a (circ.address + circ.length)) [
  | yes h ↦
      let e : wrapped circ a ≡ a = ground arith in (omega arith, omega arith, ap (byte_at circ) e)
  | no h ↦
      let e : wrapped circ a ≡ a - circ.length = ground arith in
      (
        omega arith,
        omega arith,
        ap (byte_at circ) e
            ∙ ap (λ t. t % circ.length) (omega arith)
            ∙ sym (add-mod_right (a - circ.length - circ.address) circ.length)
            ∙ ap (λ t. t % circ.length) (omega arith),
      )
]

pop_small :
    (m : CircularManager) (n : ℕ)
    → m.ready_buffs.ready_elems.num_elements ≢ 0
    → m.front_buffer.address + n < word
    → n ≤ m.front_buffer.length
    → m.front_buffer.length < word
    → m.buffer_size < word
    → 2 * (m.bytes_to_pop + n) < m.buffer_size
    → pop m n
      ≡ done (record m {
        bytes_to_pop = m.bytes_to_pop + n;
        front_buffer = record m.front_buffer {
          address = m.front_buffer.address + n;
          length = m.front_buffer.length - n;
        };
      })
unfolding pop
pop_small m n busy fits room f1 f2 small = ground arith

pop_large :
    (m : CircularManager) (n : ℕ) (q : OrderedQueue ManagedBuffer)
    → m.ready_buffs.ready_elems.num_elements ≢ 0
    → m.bytes_to_pop + n < 2 ^ 63
    → m.buffer_size ≤ 2 * (m.bytes_to_pop + n)
    → OrderedQueue.pop m.ready_buffs ≡ some q
    → pop m n ≡ move_on m q (m.bytes_to_pop + n)
unfolding pop
pop_large m n q busy fits large popped = ground arith

module _ (args : Args) (circ : SharedBuffer) (k : IsRing args circ) where
  -- where the front address goes
  moved_to :
      (m : CircularManager) (popped : ℕ)
      → m.circ_buff ≡ circ
      → circ.address ≤ m.front_address
      → m.front_address < circ.address + circ.length
      → popped ≤ args.buffer_size
      → (circ.address ≤ wrapped m.circ_buff (add_size m.front_address popped))
        × (wrapped m.circ_buff (add_size m.front_address popped) < circ.address + circ.length)
        × (byte_at circ (wrapped m.circ_buff (add_size m.front_address popped))
            ≡ byte_at circ (m.front_address + popped))
  moved_to m popped same low high small =
      let e : wrapped m.circ_buff (add_size m.front_address popped)
          ≡ wrapped circ (m.front_address + popped) =
        rw same (ap (wrapped circ) (omega (arith, k.circular.fits, k.buffer_fits))) in
      let (h1, h2, h3) =
        wrapped_lem circ (m.front_address + popped) k.circular.fits (omega arith)
          (omega (arith, k.buffer_fits)) in
      (rw e h1, rw e h2, ap (byte_at circ) e ∙ h3)

  move_on_lem :
      (m : CircularManager) (s : ℕ) (bs : List ManagedBuffer) (q : OrderedQueue ManagedBuffer)
      (popped : ℕ)
      → Settled slot q s bs
      → length q.pushed_elems ≡ args.num_buffers
      → m.buffer_size ≡ args.buffer_size
      → m.circ_buff ≡ circ
      → circ.address ≤ m.front_address
      → m.front_address < circ.address + circ.length
      → popped ≤ args.buffer_size
      → (m' : CircularManager) × (bs' : List ManagedBuffer) × (move_on m q popped ≡ done m')
        × Turns args circ m' s bs'
        × (slots m'.ready_buffs bs' ≡ slots q bs)
        × (position m' ≡ wrapped m.circ_buff (add_size m.front_address popped) + 0)
  unfolding move_on
  move_on_lem m s [] q popped v sized size same low high small =
      let (h1, h2, _) = moved_to m popped same low high small in
      (
        record m {
          front_address = wrapped m.circ_buff (add_size m.front_address popped);
          bytes_to_pop = 0;
          ready_buffs = q;
          front_buffer = null_chunk;
        },
        [],
        rw (le→leb popped m.buffer_size (omega arith), v.ordered.ready.count) refl,
        record {
          settled = v;
          size_eq = size;
          sized = sized;
          circ_eq = same;
          low = h1;
          high = h2;
          window_is = refl;
        },
        refl,
        refl,
      )
  move_on_lem m s (c ∷ cs) q popped v sized size same low high small =
      let (h1, h2, _) = moved_to m popped same low high small in
      let (m', set, w, kept, at, _) =
        set_circ_front_lem args circ k
          (record m {
            front_address = wrapped m.circ_buff (add_size m.front_address popped);
            bytes_to_pop = 0;
            ready_buffs = q;
          })
          s c cs v size sized same h1 h2 refl in
      let busy : OrderedQueue.empty q ≡ false = ground (arith, v.ordered.ready.count) in
      (
        m',
        _,
        rw (le→leb popped m.buffer_size (omega arith), busy) set,
        w,
        slots_eq args circ k m'.ready_buffs q (c ∷ cs) (c ∷ cs) kept refl,
        at,
      )

  -- A pop of at most the bytes of the front chunk succeeds, and moves the place of the manager in the
  -- circular buffer on by exactly those bytes, round and round. While less than half of the buffer
  -- size is used up the front chunk shrinks; from a half on, the buffer leaves the manager, and the
  -- next one is the window behind the bytes popped.
  pub pop-Turns :
      (m : CircularManager) (s : ℕ) (b : ManagedBuffer) (bs : List ManagedBuffer) (n : ℕ)
      → Turns args circ m s (b ∷ bs)
      → n ≤ m.front_buffer.length
      → (m' : CircularManager) × (bs' : List ManagedBuffer) × (pop m n ≡ done m')
        × (byte_at circ (position m') ≡ byte_at circ (position m + n))
        × ((Turns args circ m' s (b ∷ bs) × (2 * (m.bytes_to_pop + n) < args.buffer_size))
            ⊎ (Turns args circ m' (next args.num_buffers s) bs'
                × (slots m.ready_buffs (b ∷ bs) ≡ b.slab_index ∷ slots m'.ready_buffs bs')
                × (args.buffer_size ≤ 2 * (m.bytes_to_pop + n))))
  pop-Turns m s b bs n v h = elim (dec_lt (2 * (m.bytes_to_pop + n)) args.buffer_size) [
    | yes small ↦ (
      record m {
        bytes_to_pop = m.bytes_to_pop + n;
        front_buffer = record m.front_buffer {
          address = m.front_buffer.address + n;
          length = m.front_buffer.length - n;
        };
      },
      bs,
      pop_small m n busy (omega (arith, starts, left, k.circular.fits, k.buffer_fits, v.high)) h
          (omega (arith, left, k.size_fits)) (omega (arith, v.size_eq, k.size_fits))
          (omega (arith, v.size_eq)),
      ap (byte_at circ) (omega arith),
      inl (
        record {
          settled = v.settled;
          size_eq = v.size_eq;
          sized = v.sized;
          circ_eq = v.circ_eq;
          low = v.low;
          high = v.high;
          window_is = (v.window_is.0, ground (arith, v.window_is.1), inr small);
        },
        small,
      ),
    )
    | no large ↦
        let popped : ℕ = m.bytes_to_pop + n in
        let q : OrderedQueue ManagedBuffer = record m.ready_buffs {
          ready_elems = popped_front m.ready_buffs.ready_elems (length bs);
        } in
        let (_, taken, w) = pop_lem slot m.ready_buffs s b bs v.settled in
        let fits : popped ≤ args.buffer_size = omega (arith, left, v.window_is.2) in
        let (_, _, same_byte) = moved_to m popped v.circ_eq v.low v.high fits in
        let (m', bs', moved, w', kept, at) =
          move_on_lem m (next args.num_buffers s) bs q popped (rw (← v.sized) w) v.sized v.size_eq
            v.circ_eq v.low v.high fits in
        (
          m',
          bs',
          pop_large m n q busy (omega (arith, k.size_fits)) (omega (arith, v.size_eq)) taken
              ∙ moved,
          ap (byte_at circ) (at ∙ omega arith) ∙ same_byte ∙ ap (byte_at circ) (omega arith),
          inr (w', ap (◌∷◌ b.slab_index) (sym kept), omega arith),
        )
  ]
    where
      busy : m.ready_buffs.ready_elems.num_elements ≢ 0
      busy = omega (arith, v.settled.ordered.ready.count)

      starts : m.front_buffer.address ≡ m.front_address + m.bytes_to_pop
      starts = ap (λ c. c.address) v.window_is.1

      left : m.front_buffer.length ≡ args.buffer_size - m.bytes_to_pop
      left = ap (λ c. c.length) v.window_is.1
