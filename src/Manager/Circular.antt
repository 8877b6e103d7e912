-- ===== src/Manager/Circular.antt =====
-- lib/Framework/Builtin/CircularBufferManager.cpp
pub mod Inv
pub mod Ops
pub mod Pop
pub mod Init
mod Tests
use pothos_core.Base.{
  ℕ, zero, suc, ◌+◌, ◌==◌, if◌then◌else◌, ltb, leb, Bool, true, false, not, ◌&&◌, some, add_size,
  sub_size, mul_size,
}
use pothos_core.OrderedQueue
use pothos_core.OrderedQueue.{OrderedQueue}
use pothos_core.Buffer.{
  SharedBuffer, ManagedBuffer, BufferChunk, make_subset, chunk_of, null_chunk, null_shared,
}
use pothos_core.Manager.{
  Args, Outcome, done, already_initialized, stuck, ◌>>=◌, asserted, subset_of, null_managed,
}

pub record CircularManager : Type 0 where
  pub initialized : Bool
  pub front_buffer : BufferChunk
  pub front_address : ℕ
  pub buffer_size : ℕ
  pub bytes_to_pop : ℕ
  pub circ_buff : SharedBuffer
  pub ready_buffs : OrderedQueue ManagedBuffer

-- the constructor, with the empty queue that OrderedQueue() makes
abbrev pub constructed : OrderedQueue ManagedBuffer → CircularManager
constructed q = record {
  initialized = false;
  front_buffer = null_chunk;
  front_address = 0;
  buffer_size = 0;
  bytes_to_pop = 0;
  circ_buff = null_shared;
  ready_buffs = q;
}

abbrev pub empty : CircularManager → Bool
empty m = OrderedQueue.empty m.ready_buffs

-- `setCircFrontBuffer` of the queue's front: the buffer there becomes the window at the front address
unfoldable pub set_circ_front : CircularManager → Outcome CircularManager
set_circ_front m = asserted (OrderedQueue.front m.ready_buffs) >>= λ b.
    subset_of (make_subset m.front_address m.buffer_size m.circ_buff) >>= λ window.
    asserted (OrderedQueue.assign_front m.ready_buffs (record b { buffer = window })) >>= λ q.
    done (record m { ready_buffs = q; front_buffer = chunk_of (record b { buffer = window }) })

-- `push`
unfoldable pub push : CircularManager → ManagedBuffer → Outcome CircularManager
push m b =
    if ltb b.slab_index (OrderedQueue.capacity m.ready_buffs)
    then (asserted (OrderedQueue.push m.ready_buffs b b.slab_index) >>= λ q.
        (if not (OrderedQueue.empty q) && empty m
          then set_circ_front (record m { ready_buffs = q })
          else done (record m { ready_buffs = q })))
    else stuck

-- the front address after so many bytes, back in the first mapping
abbrev pub wrapped : SharedBuffer → ℕ → ℕ
wrapped circ address =
    if leb (add_size circ.address circ.length) address
    then sub_size address circ.length
    else address

-- what `pop` does after it takes a buffer from the queue
unfoldable pub move_on : CircularManager → OrderedQueue ManagedBuffer → ℕ → Outcome CircularManager
move_on m q popped =
    let m' = record m {
      front_address = wrapped m.circ_buff (add_size m.front_address popped);
      bytes_to_pop = 0;
      ready_buffs = q;
    } in
    if leb popped m.buffer_size
    then (if OrderedQueue.empty q
        then done (record m' { front_buffer = null_chunk })
        else set_circ_front m')
    else stuck

-- `pop`
unfoldable pub pop : CircularManager → ℕ → Outcome CircularManager
pop m num_bytes =
    let popped = add_size m.bytes_to_pop num_bytes in
    let front = m.front_buffer in
    if empty m
    then stuck
    else if ltb (mul_size popped 2) m.buffer_size
    then done (record m {
      bytes_to_pop = popped;
      front_buffer = record front {
        address = add_size front.address num_bytes;
        length = sub_size front.length num_bytes;
      };
    })
    else (asserted (OrderedQueue.pop m.ready_buffs) >>= λ q. move_on m q popped)

-- The next buffer of buffer number `i`; the last one's is the first. It is set in a second loop of
-- `init`; nothing reads it before.
abbrev pub next_of : Args → ℕ → ℕ
next_of args i = if i + 1 == args.num_buffers then 0 else i + 1

-- the loop of `init`, with `rounds` buffers to come from number `i` on
pub fill : ℕ → ℕ → Args → CircularManager → Outcome CircularManager
fill zero i args m = done m
fill (suc rounds) i args m =
    push m
      (record { id = i; buffer = m.circ_buff; slab_index = i; next_buffer = some (next_of args i) })
    >>= λ m'. fill rounds (i + 1) args m'

-- `init`, with the function that allocates the circular buffer
unfoldable pub init : (Args → SharedBuffer) → Args → CircularManager → Outcome CircularManager
init allocate args m =
    if m.initialized
    then already_initialized
    else (asserted (OrderedQueue.make null_managed args.num_buffers) >>= λ q.
        fill args.num_buffers 0 args (record m {
          initialized = true;
          circ_buff = allocate args;
          front_address = (allocate args).address;
          buffer_size = args.buffer_size;
          ready_buffs = q;
        }))
