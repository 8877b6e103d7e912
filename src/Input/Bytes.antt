-- ===== src/Input/Bytes.antt =====
-- The bytes that the labels of an input port mark, through `bufferLabelPush` and
-- `bufferAccumulatorPop` of lib/Framework/InputPort.cpp.
use mathlib.Core.List.{map, reverse}
use pothos_core.Base.{
  ℕ, suc, ◌+◌, ◌-◌, ◌≤◌, ◌<◌, ◌≡◌, inl, inr, refl, ap, ◌∙◌, sym, List, [], ◌∷◌, ◌++◌, ltb, Bool,
  true, false, Bool-cases, word, arith, length, get_elem?, add_size, sub_size, some, append_assoc,
  append-nil, ◌==◌, not, ◌||◌,
}
use pothos_core.Buffer.{DType, BufferChunk, is_specified, dtype_size}
use pothos_core.Label.{Label}
use pothos_core.Accumulator
use pothos_core.Buffer.Copy.{Heap, PositiveLengths, copy_chunk_lem}
use pothos_core.Accumulator.{BufferAccumulator, Memory, drop_dummy, front, front_of}
use pothos_core.Accumulator.Stream.{stream, bytes, region, size, Fits, length-region, length-stream}
use pothos_core.Accumulator.Push.{IsValid, Shown, Linked, stream-push}
use pothos_core.Accumulator.Pop.{Traced, stream-pop}
use pothos_core.Input.{
  InputPort, typed, copy_chunks, sent, kept, buffer_accumulator_push_no_lock, push_buffers,
  buffer_label_push, shift, unshift, buffer_accumulator_pop,
}

-- What a push of the accumulator takes for granted
pub record CanPush (memory : Memory) (heap : Heap) (s : BufferAccumulator) (c : BufferChunk)
    : Type 0 where
  pub fits : Fits c
  pub room : s.bytes_available + c.length < word
  pub shown : Shown memory c (reverse (drop_dummy s.queue))
  pub links : Linked heap c.next_buffers c.managed

-- The same for each buffer, when those before it were pushed; and each is of the size of the port's
-- type, or one of the types is unspecified.
unfoldable pub CanPushAll : Memory → Heap → DType → BufferAccumulator → List BufferChunk → Type 0
CanPushAll memory heap dtype s [] = Unit
CanPushAll memory heap dtype s (b ∷ bs) =
    (not (is_specified b.dtype)
        || not (is_specified dtype)
        || (dtype_size dtype == dtype_size b.dtype)
      ≡ true)
    × CanPush memory heap s (typed dtype b)
    × ((s' : BufferAccumulator)
        → Accumulator.push heap s (typed dtype b) ≡ some s'
        → CanPushAll memory heap dtype s' bs)

-- A type that is copied from the port changes no byte.
typed_lem :
    (memory : Memory) (dtype : DType) (b : BufferChunk)
    → ((typed dtype b).length ≡ b.length) × (bytes memory (typed dtype b) ≡ bytes memory b)
typed_lem memory dtype b = elim (Bool-cases (is_specified b.dtype)) [
  | inl e ↦ rw e (refl, refl)
  | inr e ↦ rw e (refl, refl)
]

-- The bytes behind the first ones
get_elem?-append_add :
    (xs ys : List ℕ) (i : ℕ) → get_elem? (xs ++ ys) (i + length xs) ≡ get_elem? ys i
get_elem?-append_add [] ys i = let e : i + 0 ≡ i = omega arith in rw e refl
get_elem?-append_add (x ∷ xs) ys i =
    let e : i + suc (length xs) ≡ suc (i + length xs) = omega arith in
    rw e (get_elem?-append_add xs ys i)

marked_behind :
    (xs ys zs : List ℕ) (i n : ℕ)
    → zs ≡ xs ++ ys
    → n ≡ length xs
    → i + n < word
    → get_elem? zs (add_size i n) ≡ get_elem? ys i
marked_behind xs ys zs i n e len fits =
    let at : add_size i n ≡ i + length xs = omega arith in rw (e, at) (get_elem?-append_add xs ys i)

marked_after :
    (xs ys zs : List ℕ) (i n : ℕ)
    → zs ≡ xs ++ ys
    → n ≡ length xs
    → n ≤ i
    → i < word
    → get_elem? ys (sub_size i n) ≡ get_elem? zs i
marked_after xs ys zs i n e len le fits =
    let at : sub_size i n ≡ i - n = omega arith in
    let back : i - n + length xs ≡ i = omega arith in
    rw (e, at) (sym (get_elem?-append_add xs ys (i - n)) ∙ ap (get_elem? (xs ++ ys)) back)

front_le_size : (q : List BufferChunk) → (front_of q).length ≤ size q
front_le_size [] = omega arith
front_le_size (c ∷ q) = omega arith

-- What is sent is made and shows the same bytes.
Sent : Memory → Heap → Bool → List BufferChunk → Type 0
Sent memory heap enable_move bs =
    (cs : List BufferChunk) × (sent heap enable_move bs ≡ some cs)
    × (stream memory cs ≡ stream memory bs)

copies-Sent :
    (memory : Memory) (heap : Heap) (bs : List BufferChunk)
    → PositiveLengths heap
    → Sent memory heap false bs
unfolding stream copy_chunks Sent
copies-Sent memory heap [] lengths = ([], refl, refl)
copies-Sent memory heap (b ∷ bs) lengths =
    let (n, _, copied) = copy_chunk_lem heap b lengths in
    let (cs, made, show) = copies-Sent memory heap bs lengths in
    (record b { next_buffers = n } ∷ cs, rw (copied, made) refl, ap (λ r. bytes memory b ++ r) show)

all-Sent :
    (memory : Memory) (heap : Heap) (enable_move : Bool) (bs : List BufferChunk)
    → (enable_move ≡ false → PositiveLengths heap)
    → Sent memory heap enable_move bs
unfolding Sent
all-Sent memory heap true bs lengths = (bs, refl, refl)
all-Sent memory heap false bs lengths = copies-Sent memory heap bs (lengths refl)

module _ {A : Type 0} (memory : Memory) (heap : Heap) where
  -- What the port keeps, and what is new in its accumulator
  abbrev Pushed : InputPort A → List BufferChunk → InputPort A → Type 0
  Pushed p bs p' =
      IsValid p'.bytes
      × (p'.input_inline_messages ≡ p.input_inline_messages)
      × (p'.bytes.bytes_available ≡ p.bytes.bytes_available + size bs)
      × (stream memory p'.bytes.queue ≡ stream memory p.bytes.queue ++ stream memory bs)

  push_buffers_lem :
      (p : InputPort A) (bs : List BufferChunk)
      → IsValid p.bytes
      → ((i : ℕ) → (heap i).buffer.address < word)
      → CanPushAll memory heap p.dtype p.bytes bs
      → (p' : InputPort A) × (push_buffers heap p bs ≡ some p') × Pushed p bs p'
  unfolding push_buffers CanPushAll stream buffer_accumulator_push_no_lock
  push_buffers_lem p [] ok small can = (p, refl, (ok, refl, omega arith, sym (append-nil _)))
  push_buffers_lem p (b ∷ bs) ok small can =
      let (s', e, ok', more, show) =
        stream-push memory heap p.bytes (typed p.dtype b) ok can.1.fits can.1.room can.1.shown small
          can.1.links in
      let (same, same_bytes) = typed_lem memory p.dtype b in
      let p1 = record p { bytes = s'; total_buffers = add_size p.total_buffers 1 } in
      let first : buffer_accumulator_push_no_lock heap p b ≡ some p1 =
        rw (buffer_accumulator_push_no_lock, can.0, e) refl in
      let (p', made, (valid, labels, count, shown)) =
        push_buffers_lem p1 bs ok' small (can.2 s' e) in
      (
        p',
        rw first made,
        (
          valid,
          labels,
          omega (arith, count, more, same),
          rw (shown, show, same_bytes, append_assoc) refl,
        ),
      )

  -- Buffers and labels that are posted to a valid port, where each buffer can be pushed after those
  -- before it, and where for copies each managed buffer has a positive length that an int holds, so that
  -- the copy ends: the port stays valid, it shows what it showed, then the bytes of the buffers; its
  -- labels stay, then come the posted ones; each of these marks in the port the byte that it marked in the
  -- posted buffers; and a move leaves the caller no labels and buffers, else it keeps both.
  pub buffer_label_push_lem :
      (enable_move : Bool) (labels : List (Label A)) (buffers : List BufferChunk) (p : InputPort A)
      → IsValid p.bytes
      → ((i : ℕ) → (heap i).buffer.address < word)
      → (enable_move ≡ false → PositiveLengths heap)
      → ((cs : List BufferChunk)
          → sent heap enable_move buffers ≡ some cs
          → CanPushAll memory heap p.dtype p.bytes cs)
      → (p' : InputPort A) × (buffer_label_push heap enable_move labels buffers p
          ≡ some (p', kept enable_move labels, kept enable_move buffers))
        × IsValid p'.bytes
        × (p'.input_inline_messages
            ≡ p.input_inline_messages ++ map (shift p.bytes.bytes_available) labels)
        × (stream memory p'.bytes.queue ≡ stream memory p.bytes.queue ++ stream memory buffers)
        × ((l : Label A)
            → l.index + p.bytes.bytes_available < word
            → get_elem? (stream memory p'.bytes.queue) (shift p.bytes.bytes_available l).index
              ≡ get_elem? (stream memory buffers) l.index)
  unfolding buffer_label_push Sent
  buffer_label_push_lem enable_move labels buffers p ok small lengths can =
      let p0 = record p {
        input_inline_messages =
            p.input_inline_messages ++ map (shift p.bytes.bytes_available) labels;
      } in
      let (cs, copied, same) = all-Sent memory heap enable_move buffers lengths in
      let (p', made, (valid, messages, count, shown)) =
        push_buffers_lem p0 cs ok small (can cs copied) in
      let show : stream memory p'.bytes.queue
          ≡ stream memory p.bytes.queue ++ stream memory buffers =
        shown ∙ ap (λ r. stream memory p.bytes.queue ++ r) same in
      let avail : p.bytes.bytes_available ≡ length (stream memory p.bytes.queue) =
        omega (arith, length-stream memory p.bytes.queue, ok.counted) in
      (
        p',
        rw (copied, made) refl,
        valid,
        messages,
        show,
        λ l fits. marked_behind _ _ _ l.index _ show avail fits,
      )

module _ {A : Type 0} (memory : Memory) where
  -- A pop of at most the bytes of the front of a valid port, where a front from the pool is followed by a
  -- chunk that comes behind the front's last bytes in memory: the port stays valid, the bytes are
  -- taken from the count, the labels are moved by them, and a label behind the popped bytes marks the byte
  -- that it marked.
  pub buffer_accumulator_pop_lem :
      (p : InputPort A) (n : ℕ)
      → IsValid p.bytes
      → n ≤ (front p.bytes).length
      → Traced memory p.bytes.in_pool_buffer p.bytes.queue
      → let p' = buffer_accumulator_pop p n in
        IsValid p'.bytes
        × (p'.input_inline_messages ≡ map (unshift n) p.input_inline_messages)
        × (p'.bytes.bytes_available + n ≡ p.bytes.bytes_available)
        × ((l : Label A)
            → n ≤ l.index
            → l.index < word
            → get_elem? (stream memory p'.bytes.queue) (unshift n l).index
              ≡ get_elem? (stream memory p.bytes.queue) l.index)
  unfolding buffer_accumulator_pop
  buffer_accumulator_pop_lem p n ok le traced =
      let (ok', traced', count, show) = stream-pop memory p.bytes n ok le traced in
      let enough : n ≤ p.bytes.bytes_available =
        omega (arith, front_le_size p.bytes.queue, ok.counted) in
      let accepted : ltb p.bytes.bytes_available n ≡ false = ground arith in
      let n_is : n ≡ length (region memory (front p.bytes).address n) =
        sym (length-region memory (front p.bytes).address n) in
      rw accepted (ok', refl, count, λ l le fits. marked_after _ _ _ l.index n show n_is le fits)
