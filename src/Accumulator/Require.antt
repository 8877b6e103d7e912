-- ===== src/Accumulator/Require.antt =====
-- `require` of lib/Framework/BufferAccumulator.cpp: the copy into a buffer of the pool.
pub mod Copy
pub mod Pool
pub mod Trace
use pothos_core.Base.{
  ℕ, ◌+◌, ◌≤◌, ◌<◌, ◌≡◌, refl, inl, inr, ap, ◌∙◌, sym, Bool, true, false, ◌&&◌, ◌||◌, Bool-cases,
  List, [], ◌∷◌, leb, ltb, word, max, min, arith,
}
use pothos_core.Buffer.{BufferChunk, null_chunk, buffer_of}
use pothos_core.Accumulator.{
  Memory, BufferAccumulator, front, get, require, returns, fill, BufferPool,
}
use pothos_core.Accumulator.Stream.{stream, size, region}
use pothos_core.Accumulator.Push.{IsValid}
use pothos_core.Accumulator.Require.Copy.{AllApart, Copied, copy_queue_lem}
use pothos_core.Accumulator.Require.Pool.{IsUniform, Taken, get_lem}

abbrev Required : Memory → BufferAccumulator → ℕ → Memory × BufferAccumulator → Type 0
Required memory s n (memory', s') =
    IsValid s'
    × IsUniform s'.pool
    × (s'.bytes_available ≡ s.bytes_available)
    × (stream memory' s'.queue ≡ stream memory s.queue)
    × (n ≤ s.bytes_available → n ≤ (front s').length)

fill_lem :
    (unique : BufferChunk → Bool) (allocate : ℕ → BufferChunk) (memory : Memory)
    (s : BufferAccumulator) (n : ℕ)
    → ((k : ℕ) → (allocate k).length ≡ k)
    → IsValid s
    → IsUniform s.pool
    → let b = (get unique allocate s.pool n).1 in
      (b.address + b.length < word)
      → AllApart b.address b.length s.queue
      → Required memory s n (fill unique allocate memory s n)
unfolding Copied region fill
fill_lem unique allocate memory s n law ok uniform fits apart =
    let got = get unique allocate s.pool n in
    let b = got.1 in
    let taken = get_lem unique allocate s.pool n law uniform in
    let e : b.address + 0 ≡ b.address = omega arith in
    let c =
      copy_queue_lem memory b.length (record b { dtype = (front s).dtype; length = 0 }) s.queue
        (omega arith) ok.all_fit (rw e apart) in
    (
      record {
        nonempty = λ e. cc;
        all_fit = c.0;
        counted = omega (arith, c.2, ok.counted);
        small = ok.small;
      },
      taken.0,
      refl,
      c.3,
      λ enough. omega (arith, c.1, ok.counted, taken.2),
    )

-- `require` on a valid accumulator, where the buffer of the pool lies in the address space and apart
-- from the chunks: the accumulator and its pool stay valid, the count and the bytes that the queue
-- shows stay the same, and if enough bytes wait then the front has the required length.
pub stream-require :
    (unique : BufferChunk → Bool) (allocate : ℕ → BufferChunk) (memory : Memory)
    (s : BufferAccumulator) (n : ℕ)
    → ((k : ℕ) → (allocate k).length ≡ k)
    → IsValid s
    → IsUniform s.pool
    → let b = (get unique allocate s.pool n).1 in
      (b.address + b.length < word)
      → AllApart b.address b.length s.queue
      → let (memory', s') = require unique allocate memory s n in
        IsValid s'
        × IsUniform s'.pool
        × (s'.bytes_available ≡ s.bytes_available)
        × (stream memory' s'.queue ≡ stream memory s.queue)
        × (n ≤ s.bytes_available → n ≤ (front s').length)
unfolding require
stream-require unique allocate memory s n law ok uniform fits apart =
    elim (Bool-cases (returns s n)) [
      | inl e ↦ rw (require, e) (ok, uniform, refl, refl, λ enough. returns_lem e enough)
      | inr e ↦ rw (require, e) (fill_lem unique allocate memory s n law ok uniform fits apart)
    ]
  where
    returns_lem : returns s n ≡ true → n ≤ s.bytes_available → n ≤ (front s).length
    returns_lem e enough = ground arith
