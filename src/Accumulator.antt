-- ===== src/Accumulator.antt =====
-- The buffers that wait at an input: lib/Framework/BufferAccumulator.cpp and BufferPool.cpp.
-- `_queue` is the list that its ring holds, front first; a ring that is full gets twice the capacity
-- and keeps its elements. The heap gives the content of a `ManagedBuffer::Impl`, and `allocate` and
-- `unique` stand for the memory that `SharedBuffer::make` finds and for its reference counts.
-- The asserts are left out, as they are in a release build.
pub mod Stream
pub mod Links
pub mod Push
pub mod Pop
pub mod Require
mod Tests
use mathlib.Core.List.{reverse}
use pothos_core.Base.{
  ℕ, zero, suc, ◌+◌, ◌-◌, ◌<◌, ◌≡◌, ◌==◌, if◌then◌else◌, ltb, leb, Bool, true, false, ◌&&◌, ◌||◌,
  Option, none, some, min, List, [], ◌∷◌, ◌++◌, ◌>>=◌, add_size, sub_size,
}
use pothos_core.Buffer.Copy.{Heap, next_of}
use pothos_core.Buffer.{
  BufferChunk, ManagedBuffer, SharedBuffer, null_chunk, chunk_of, buffer_of, get_alias, chunk_end,
}

-- The byte at an address
abbrev pub Memory : Type 0
Memory = ℕ → ℕ

pub record BufferPool : Type 0 where
  pub min_buff_size : ℕ
  pub buffs : List BufferChunk

-- `BufferPool()`
abbrev pub empty_pool : BufferPool
empty_pool = record { min_buff_size = 8192; buffs = [] }

pub record BufferAccumulator : Type 0 where
  pub queue : List BufferChunk
  pub bytes_available : ℕ
  pub in_pool_buffer : Bool
  pub pool : BufferPool

-- `BufferAccumulator()`
abbrev pub make : BufferAccumulator
make = record {
  queue = null_chunk ∷ [];
  bytes_available = 0;
  in_pool_buffer = false;
  pool = empty_pool;
}

-- "never let the queue become empty"
abbrev pub hold_empty : List BufferChunk → List BufferChunk
hold_empty [] = null_chunk ∷ []
hold_empty (c ∷ q) = c ∷ q

-- `clear`
unfoldable pub clear : BufferAccumulator → BufferAccumulator
clear s = record s {
  queue = hold_empty [];
  bytes_available = 0;
  in_pool_buffer = false;
  pool = empty_pool;
}

-- `front`; the queue is never empty
abbrev pub front_of : List BufferChunk → BufferChunk
front_of [] = null_chunk
front_of (c ∷ q) = c

abbrev pub front : BufferAccumulator → BufferChunk
front s = front_of s.queue

-- `ManagedBuffer::operator==`: the same `Impl`, or no `Impl` at both
abbrev pub same_managed : Option ManagedBuffer → Option ManagedBuffer → Bool
same_managed none none = true
same_managed none (some b) = false
same_managed (some a) none = false
same_managed (some a) (some b) = a.id == b.id

-- The dummy at the front, popped before a push
abbrev pub drop_dummy : List BufferChunk → List BufferChunk
drop_dummy [] = []
drop_dummy (f ∷ q) = if f.length == 0 then q else f ∷ q

abbrev pub extend : BufferChunk → BufferChunk → BufferChunk
extend f b = record f { length = add_size f.length b.length }

abbrev pub drained : BufferChunk → BufferChunk
drained b = record b { address = add_size b.address b.length; length = 0 }

-- The loop of `push`, on the queue from its back: `b` is the chunk at `i`, and the list has those
-- before it.
unfoldable pub amalgamate : BufferChunk → List BufferChunk → List BufferChunk
amalgamate b [] = b ∷ []
amalgamate b (f ∷ rest) =
    let further = amalgamate (extend f b) rest in
    if (b.address == chunk_end f) || (get_alias b == chunk_end f)
    then drained b ∷ further
    else b ∷ f ∷ rest

-- The test after the loop, on the queue from its back
unfoldable pub drop_drained : List BufferChunk → List BufferChunk
drop_drained [] = []
drop_drained (b ∷ []) = b ∷ []
drop_drained (b ∷ f ∷ rest) =
    if same_managed b.managed f.managed && (b.length == 0) then f ∷ rest else b ∷ f ∷ rest

-- `BufferChunk(mb)` with its length set to 0
abbrev pub empty_chunk : Option ManagedBuffer → BufferChunk
empty_chunk none = null_chunk
empty_chunk (some m) = record (chunk_of m) { length = 0 }

-- `restoreNextBuffers`: the empty buffers that were amalgamated upstream. `none` is a step from a
-- null pointer.
unfoldable pub next_chunks : Heap → ℕ → Option ManagedBuffer → Option (List BufferChunk)
next_chunks heap zero mb = some []
next_chunks heap (suc n) none = none
next_chunks heap (suc n) (some m) =
    next_chunks heap n (next_of heap m) >>= λ rest. some (empty_chunk (next_of heap m) ∷ rest)

-- `push`
unfoldable pub push : Heap → BufferAccumulator → BufferChunk → Option BufferAccumulator
push heap s buffer =
    let kept = drop_dummy s.queue in
    let pushed = reverse (drop_drained (amalgamate buffer (reverse kept))) in
    next_chunks heap buffer.next_buffers buffer.managed >>= λ nexts. some (record s {
      queue = pushed ++ nexts;
      bytes_available = add_size s.bytes_available buffer.length;
    })

abbrev pub advance : ℕ → BufferChunk → BufferChunk
advance n c = record c { address = add_size c.address n; length = sub_size c.length n }

-- `queue[1].address -= front.length; queue[1].length += front.length`
abbrev pub move_back : ℕ → BufferChunk → BufferChunk
move_back n c = record c { address = sub_size c.address n; length = add_size c.length n }

-- `queue[1].address - queue[1].getBuffer().getAddress()`
abbrev pub offset_of : BufferChunk → ℕ
offset_of c = sub_size c.address (buffer_of c.managed).address

-- The three tests of `pop` after the front has moved on
unfoldable pub pop_front : Bool → List BufferChunk → List BufferChunk
pop_front in_pool [] = []
pop_front in_pool (f ∷ []) = if f.length == 0 then [] else f ∷ []
pop_front in_pool (f ∷ b ∷ q) =
    if in_pool && leb f.length (offset_of b)
    then move_back f.length b ∷ q
    else if f.length == 0
    then b ∷ q
    else if leb (add_size (buffer_of f.managed).address (buffer_of f.managed).length) f.address
        && (chunk_end f == b.address)
    then move_back f.length b ∷ q
    else f ∷ b ∷ q

-- "pop all of the front-most consumed buffers"
unfoldable pub drop_consumed : List BufferChunk → List BufferChunk
drop_consumed [] = []
drop_consumed (f ∷ q) = let rest = drop_consumed q in if f.length == 0 then rest else f ∷ q

abbrev pub advance_front : ℕ → List BufferChunk → List BufferChunk
advance_front n [] = []
advance_front n (f ∷ q) = advance n f ∷ q

-- `queueSize != queue.size()`: the three tests pop at most the front
abbrev pub same_size : List BufferChunk → List BufferChunk → Bool
same_size [] [] = true
same_size [] (c ∷ q) = false
same_size (c ∷ q) [] = false
same_size (c ∷ q) (d ∷ r) = same_size q r

-- `pop`
unfoldable pub pop : BufferAccumulator → ℕ → BufferAccumulator
pop s n =
    let moved = advance_front n s.queue in
    let popped = pop_front s.in_pool_buffer moved in
    record s {
      queue = hold_empty (drop_consumed popped);
      bytes_available = sub_size s.bytes_available n;
      in_pool_buffer = s.in_pool_buffer && same_size moved popped;
    }

-- `memcpy(target, source, n)` between regions that do not overlap
abbrev pub memcpy : Memory → ℕ → ℕ → ℕ → Memory
memcpy memory target source n a =
    if leb target a && ltb a (target + n) then memory (source + (a - target)) else memory a

-- The loop of `require`: `room` is `newBuffBytes`.
unfoldable pub copy_queue :
    Memory → ℕ → BufferChunk → List BufferChunk → Memory × BufferChunk × List BufferChunk
copy_queue memory room new_buffer [] = (memory, new_buffer, [])
copy_queue memory room new_buffer (f ∷ q) =
    let n = min room f.length in
    let memory' = memcpy memory (add_size new_buffer.address new_buffer.length) f.address n in
    let new_buffer' = record new_buffer { length = add_size new_buffer.length n } in
    let rest = copy_queue memory' (room - n) new_buffer' q in
    if f.length == n then rest else (memory', new_buffer', advance n f ∷ q)

-- `BufferPool::get` ends its search at the first buffer that no one else holds.
unfoldable pub find_unique : (BufferChunk → Bool) → List BufferChunk → Option BufferChunk
find_unique unique [] = none
find_unique unique (c ∷ cs) = if unique c then some c else find_unique unique cs

-- "user asked for a larger buffer size -- drop all entries"
abbrev pub raise_size : BufferPool → ℕ → BufferPool
raise_size p n = if ltb p.min_buff_size n then record { min_buff_size = n; buffs = [] } else p

-- The search, "otherwise make a new buffer"
unfoldable pub take_unique :
    (BufferChunk → Bool) → (ℕ → BufferChunk) → BufferPool → BufferPool × BufferChunk
take_unique unique allocate p = elim (find_unique unique p.buffs) [
  | some c ↦ (p, c)
  | none ↦ (record p { buffs = p.buffs ++ allocate p.min_buff_size ∷ [] }, allocate p.min_buff_size)
]

-- `BufferPool::get`
unfoldable pub get :
    (BufferChunk → Bool) → (ℕ → BufferChunk) → BufferPool → ℕ → BufferPool × BufferChunk
get unique allocate p n = take_unique unique allocate (raise_size p n)

-- The two early returns of `require`
abbrev pub returns : BufferAccumulator → ℕ → Bool
returns s n =
    leb n (front s).length
    || ltb s.bytes_available n
      && same_size s.queue (null_chunk ∷ [])
      && leb n (buffer_of (front s).managed).length

-- The rest of `require`
unfoldable pub fill :
    (BufferChunk → Bool)
    → (ℕ → BufferChunk)
    → Memory
    → BufferAccumulator
    → ℕ
    → Memory × BufferAccumulator
fill unique allocate memory s n =
    let got = get unique allocate s.pool n in
    let new_buffer = record got.1 { dtype = (front s).dtype; length = 0 } in
    let copied = copy_queue memory (got.1).length new_buffer s.queue in
    (copied.0, record s { queue = copied.1 ∷ copied.2; in_pool_buffer = true; pool = got.0 })

-- `require`
unfoldable pub require :
    (BufferChunk → Bool)
    → (ℕ → BufferChunk)
    → Memory
    → BufferAccumulator
    → ℕ
    → Memory × BufferAccumulator
require unique allocate memory s n =
    if returns s n then (memory, s) else fill unique allocate memory s n
