-- ===== src/Manager/Generic.antt =====
-- lib/Framework/Builtin/GenericBufferManager.cpp
pub mod Inv
pub mod Init
pub mod Ops
use pothos_core.Base.{
  ℕ, zero, suc, ◌+◌, ◌==◌, if◌then◌else◌, ltb, Bool, true, false, not, List, [], ◌∷◌, Option, none,
  some, add_size, sub_size, mul_size,
}
use pothos_core.OrderedQueue
use pothos_core.OrderedQueue.{OrderedQueue}
use pothos_core.Buffer.{SharedBuffer, ManagedBuffer, BufferChunk, make_subset, chunk_of, null_chunk}
use pothos_core.Manager.{
  Args, Outcome, done, already_initialized, stuck, ◌>>=◌, asserted, subset_of, null_managed,
}

pub record GenericManager : Type 0 where
  pub initialized : Bool
  pub front_buffer : BufferChunk
  pub buffer_size : ℕ
  pub bytes_popped : ℕ
  pub ready_buffs : OrderedQueue ManagedBuffer

-- the constructor, with the empty queue that OrderedQueue() makes
abbrev pub constructed : OrderedQueue ManagedBuffer → GenericManager
constructed q = record {
  initialized = false;
  front_buffer = null_chunk;
  buffer_size = 0;
  bytes_popped = 0;
  ready_buffs = q;
}

abbrev pub empty : GenericManager → Bool
empty m = OrderedQueue.empty m.ready_buffs

-- `push`
unfoldable pub push : GenericManager → ManagedBuffer → Outcome GenericManager
push m b =
    let m' = if empty m then record m { front_buffer = chunk_of b } else m in
    asserted (OrderedQueue.push m'.ready_buffs b b.slab_index) >>= λ ready.
    done (record m' { ready_buffs = ready })

-- what `setFrontBuffer` is given after a buffer is used up
unfoldable pub next_front : OrderedQueue ManagedBuffer → Outcome BufferChunk
next_front q =
    if OrderedQueue.empty q
    then done null_chunk
    else (asserted (OrderedQueue.front q) >>= λ b. done (chunk_of b))

-- `pop`
unfoldable pub pop : GenericManager → ℕ → Outcome GenericManager
pop m num_bytes =
    let popped = add_size m.bytes_popped num_bytes in
    let front = m.front_buffer in
    if empty m
    then stuck
    else if ltb (mul_size popped 2) m.buffer_size
    then done (record m {
      bytes_popped = popped;
      front_buffer = record front {
        address = add_size front.address num_bytes;
        length = sub_size front.length num_bytes;
      };
    })
    else (asserted (OrderedQueue.pop m.ready_buffs) >>= λ ready. next_front ready >>= λ chunk.
        done (record m { bytes_popped = 0; ready_buffs = ready; front_buffer = chunk }))

-- The buffer number `i` of the slab. Its next buffer is set in a second loop of `init`; nothing
-- reads it before.
unfoldable pub make_buffer : Args → SharedBuffer → ℕ → Option SharedBuffer
make_buffer args slab i =
    make_subset (add_size slab.address (mul_size args.buffer_size i)) args.buffer_size slab

abbrev pub next_of : Args → ℕ → Option ℕ
next_of args i = if ltb (i + 1) args.num_buffers then some (i + 1) else none

-- the loop of `init`, with `rounds` buffers to come from number `i` on
pub fill : ℕ → ℕ → Args → SharedBuffer → GenericManager → Outcome GenericManager
fill zero i args slab m = done m
fill (suc rounds) i args slab m = subset_of (make_buffer args slab i) >>= λ buff.
    push m (record { id = i; buffer = buff; slab_index = i; next_buffer = next_of args i })
    >>= λ m'. fill rounds (i + 1) args slab m'

-- `init`, with the function that allocates the slab
unfoldable pub init : (Args → SharedBuffer) → Args → GenericManager → Outcome GenericManager
init allocate args m =
    if m.initialized
    then already_initialized
    else (asserted (OrderedQueue.make null_managed args.num_buffers) >>= λ q.
        fill args.num_buffers 0 args (allocate args)
          (record m { initialized = true; buffer_size = args.buffer_size; ready_buffs = q }))
