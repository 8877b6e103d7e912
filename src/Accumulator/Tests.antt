-- ===== src/Accumulator/Tests.antt =====
-- Runs of the accumulator, and examples that meet the hypotheses of its theorems.
use mathlib.Core.List.{map}
use pothos_core.Base.{
  inl, ℕ, ◌+◌, ◌<◌, ◌≡◌, refl, true, false, none, some, List, [], ◌∷◌, ◌++◌, Bool, word, arith, ◌≤◌,
}
use pothos_core.Buffer.{ManagedBuffer, BufferChunk, unspecified, get_alias}
use pothos_core.Buffer.Copy.{Heap}
use pothos_core.Accumulator.{
  Memory, BufferAccumulator, empty_pool, make, push, pop, require, fill, get, take_unique,
  find_unique, copy_queue, amalgamate, drop_drained, next_chunks, pop_front, drop_consumed, front,
}
use pothos_core.Accumulator.Stream.{region, bytes, stream, AllFit}
use pothos_core.Accumulator.Push.{IsValid, Shown, Linked, stream-push}
use pothos_core.Accumulator.Pop.{Traced, stream-pop}
use pothos_core.Accumulator.Require.{stream-require}
use pothos_core.Accumulator.Require.Copy.{AllApart}
use pothos_core.Accumulator.Require.Pool.{IsUniform, AllOf}
use pothos_core.Accumulator.Require.Trace.{StartsBehind, AllAtStart, require-Traced}

-- Each byte shows its address.
abbrev memory : Memory
memory a = a

abbrev buffer_at : ℕ → ℕ → ManagedBuffer
buffer_at i a = record {
  id = i;
  buffer = record { address = a; length = 64; alias = 0; container = some i };
  slab_index = i;
  next_buffer = none;
}

abbrev heap : Heap
heap i = buffer_at i 100

abbrev chunk : ℕ → ℕ → ℕ → ℕ → BufferChunk
chunk i base offset n = record {
  address = base + offset;
  length = n;
  dtype = unspecified;
  managed = some (buffer_at i base);
  next_buffers = 0;
}

-- Two chunks of one buffer are one.
abbrev state : List BufferChunk → ℕ → Bool → BufferAccumulator
state q n in_pool = record {
  queue = q;
  bytes_available = n;
  in_pool_buffer = in_pool;
  pool = empty_pool;
}

push_first : push heap make (chunk 1 100 0 4) ≡ some (state (chunk 1 100 0 4 ∷ []) 4 false)
unfolding push amalgamate drop_drained next_chunks get_alias
push_first = refl

push_contiguous :
    push heap (state (chunk 1 100 0 4 ∷ []) 4 false) (chunk 1 100 4 3)
    ≡ some (state (chunk 1 100 0 7 ∷ []) 7 false)
unfolding push amalgamate drop_drained next_chunks get_alias
push_contiguous = refl

-- A buffer that was amalgamated upstream comes back empty.
push_nexts :
    push heap make (record (chunk 1 100 0 4) {
      managed = some (record (buffer_at 1 100) { next_buffer = some 2 });
      next_buffers = 1;
    })
    ≡ some (
        state
          (record (chunk 1 100 0 4) {
            managed = some (record (buffer_at 1 100) { next_buffer = some 2 });
            next_buffers = 1;
          }
            ∷ chunk 2 100 0 0
            ∷ [])
          4
          false)
unfolding push amalgamate drop_drained next_chunks get_alias
push_nexts = refl

abbrev allocate : ℕ → BufferChunk
allocate k = record (chunk 9 10000 0 k) { managed = some (buffer_at 9 10000) }

abbrev unique : BufferChunk → Bool
unique c = false

-- Two chunks of two buffers, and five bytes in one piece
abbrev two_chunks : BufferAccumulator
two_chunks = state (chunk 1 100 0 3 ∷ chunk 2 200 0 8 ∷ []) 11 false

abbrev required : Memory × BufferAccumulator
required = require unique allocate memory two_chunks 5

require_five :
    stream (required.0) (required.1).queue
    ≡ 100 ∷ 101 ∷ 102 ∷ 200 ∷ 201 ∷ 202 ∷ 203 ∷ 204 ∷ 205 ∷ 206 ∷ 207 ∷ []
unfolding require fill get take_unique find_unique copy_queue stream region
require_five = refl

-- A chunk that starts in the middle of its buffer, behind a front from the pool: the pop of one
-- byte goes back over ten bytes of its buffer, which are not those that waited.
abbrev in_middle : BufferAccumulator
in_middle = state (chunk 9 10000 0 11 ∷ chunk 3 300 20 2 ∷ []) 13 true

pop-in_middle :
    stream memory (pop in_middle 1).queue
    ≡ 310 ∷ 311 ∷ 312 ∷ 313 ∷ 314 ∷ 315 ∷ 316 ∷ 317 ∷ 318 ∷ 319 ∷ 320 ∷ 321 ∷ []
unfolding pop pop_front drop_consumed stream region
pop-in_middle = refl

two_chunks-IsValid : IsValid two_chunks
unfolding AllFit
two_chunks-IsValid = record {
  nonempty = λ e. cc;
  all_fit = (omega arith, (omega arith, tt));
  counted = refl;
  small = omega arith;
}

two_chunks-AllApart : AllApart 10000 8192 two_chunks.queue
unfolding AllApart
two_chunks-AllApart = (ground arith, (ground arith, tt))

-- the chunk that is pushed, and the buffer that is linked behind its own
abbrev behind : BufferChunk
behind = record (chunk 2 200 8 3) {
  managed = some (record (buffer_at 2 200) { next_buffer = some 4 });
  next_buffers = 1;
}

one_next : Linked heap 1 behind.managed
unfolding Linked
one_next = tt

two_chunks-Shown : Shown memory behind (chunk 2 200 0 8 ∷ chunk 1 100 0 3 ∷ [])
unfolding Shown get_alias
two_chunks-Shown =
    (λ ne e. absurd (ne refl), λ joined. (λ ne e. absurd (omega arith), λ joined'. tt))

two_chunks-Traced : Traced memory false two_chunks.queue
unfolding Traced
two_chunks-Traced = tt

two_chunks-IsUniform : IsUniform two_chunks.pool
unfolding IsUniform AllOf
two_chunks-IsUniform = tt

-- A push behind the two chunks, contiguous with the second
stream-push_example :
    (s' : BufferAccumulator) × (push heap two_chunks behind ≡ some s')
    × IsValid s'
    × (s'.bytes_available ≡ 11 + 3)
    × (stream memory s'.queue ≡ stream memory two_chunks.queue ++ bytes memory behind)
stream-push_example =
    stream-push memory heap two_chunks behind two_chunks-IsValid (omega arith) (omega arith)
      two_chunks-Shown (λ i. omega arith) one_next

-- The pop of a byte
stream-pop_example :
    IsValid (pop two_chunks 1)
    × Traced memory (pop two_chunks 1).in_pool_buffer (pop two_chunks 1).queue
    × ((pop two_chunks 1).bytes_available + 1 ≡ 11)
    × (stream memory two_chunks.queue
        ≡ region memory 100 1 ++ stream memory (pop two_chunks 1).queue)
stream-pop_example =
    stream-pop memory two_chunks 1 two_chunks-IsValid (omega arith) two_chunks-Traced

abbrev fresh : BufferChunk
fresh = (get unique allocate two_chunks.pool 5).1

fresh-Fits : fresh.address + fresh.length < word
unfolding get take_unique find_unique
fresh-Fits = omega arith

fresh-AllApart : AllApart fresh.address fresh.length two_chunks.queue
unfolding get take_unique find_unique
fresh-AllApart = two_chunks-AllApart

-- Five bytes of the two chunks
stream-require_example :
    IsValid (required.1)
    × IsUniform (required.1).pool
    × ((required.1).bytes_available ≡ 11)
    × (stream (required.0) (required.1).queue ≡ stream memory two_chunks.queue)
    × (5 ≤ 11 → 5 ≤ (front (required.1)).length)
stream-require_example =
    stream-require unique allocate memory two_chunks 5 (λ k. refl) two_chunks-IsValid
      two_chunks-IsUniform fresh-Fits fresh-AllApart

-- A chunk of nine thousand bytes behind three, of which as many are required as the pool allocates at once and
-- one more: the new front takes 8190 of them, and the rest waits behind it.
abbrev long_chunk : BufferChunk
long_chunk = record {
  address = 20000;
  length = 9000;
  dtype = unspecified;
  managed = some (record (buffer_at 2 20000) {
    buffer = record { address = 20000; length = 9000; alias = 0; container = some 2 };
  });
  next_buffers = 0;
}

abbrev two_long : BufferAccumulator
two_long = state (chunk 1 100 0 3 ∷ long_chunk ∷ []) 9003 false

two_long-IsValid : IsValid two_long
unfolding AllFit
two_long-IsValid = record {
  nonempty = λ e. cc;
  all_fit = (omega arith, (omega arith, tt));
  counted = refl;
  small = omega arith;
}

two_long-IsUniform : IsUniform two_long.pool
unfolding IsUniform AllOf
two_long-IsUniform = tt

abbrev far_allocate : ℕ → BufferChunk
far_allocate k = record (chunk 9 100000 0 k) { managed = some (buffer_at 9 100000) }

abbrev long_fresh : BufferChunk
long_fresh = (get unique far_allocate two_long.pool 8193).1

long_fresh-Fits : long_fresh.address + long_fresh.length < word
unfolding get take_unique find_unique
long_fresh-Fits = omega arith

long_fresh-AllApart : AllApart long_fresh.address long_fresh.length two_long.queue
unfolding get take_unique find_unique AllApart
long_fresh-AllApart = (inl (omega arith), (inl (omega arith), tt))

two_long-StartsBehind : StartsBehind two_long.queue
unfolding StartsBehind AllAtStart
two_long-StartsBehind = (refl, tt)

two_long-Traced : Traced memory false two_long.queue
unfolding Traced
two_long-Traced = tt

require-Traced_example :
    let (memory', s') = require unique far_allocate memory two_long 8193 in
    Traced memory' s'.in_pool_buffer s'.queue
require-Traced_example =
    require-Traced unique far_allocate memory two_long 8193 (λ k. refl) two_long-IsValid
      two_long-IsUniform long_fresh-Fits long_fresh-AllApart two_long-StartsBehind two_long-Traced

abbrev lengths : BufferAccumulator → List ℕ
lengths s = map (λ c. c.length) s.queue

required_long :
    (lengths (require unique far_allocate memory two_long 8193).1 ≡ 8193 ∷ 810 ∷ [])
    × ((require unique far_allocate memory two_long 8193).1.in_pool_buffer ≡ true)
unfolding require fill get take_unique find_unique copy_queue
required_long = (refl, refl)
