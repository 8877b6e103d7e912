-- ===== src/Accumulator/Require/Trace.antt =====
-- The bytes before the chunk that `require` of lib/Framework/BufferAccumulator.cpp copies in part.
use pothos_core.Base.{
  ℕ, ◌+◌, ◌-◌, ◌≤◌, ◌<◌, ◌≡◌, ◌∙◌, sym, Bool, true, false, Bool-cases, List, [], ◌∷◌, inl, inr,
  word, min, arith, ◌==◌, add_size, ◌⊎◌,
}
use pothos_core.Buffer.{BufferChunk, buffer_of}
use pothos_core.Accumulator.{
  Memory, BufferAccumulator, front, front_of, get, require, returns, fill, copy_queue, memcpy,
  advance,
}
use pothos_core.Accumulator.Stream.{Fits, AllFit}
use pothos_core.Accumulator.Push.{IsValid}
use pothos_core.Accumulator.Pop.{Before, Traced}
use pothos_core.Accumulator.Require.Copy.{
  AllApart, Apart, AllApart-within, memcpy_in, memcpy_out, copied_memory, grown,
}
use pothos_core.Accumulator.Require.Pool.{IsUniform, get_lem}

-- A chunk starts where its buffer does.
abbrev pub AtStart : BufferChunk → Type 0
AtStart c = c.address ≡ (buffer_of c.managed).address

unfoldable pub AllAtStart : List BufferChunk → Type 0
AllAtStart [] = Unit
AllAtStart (c ∷ q) = AtStart c × AllAtStart q

unfoldable pub StartsBehind : List BufferChunk → Type 0
StartsBehind [] = Unit
StartsBehind (c ∷ q) = AllAtStart q

-- A chunk that has no room in the new buffer starts where its buffer does, as do those behind the
-- first.
StartsIn : ℕ → List BufferChunk → Type 0
StartsIn room [] = Unit
StartsIn room (f ∷ q) = (room < f.length → AtStart f) × AllAtStart q

AllAtStart-StartsIn : (room : ℕ) (q : List BufferChunk) → AllAtStart q → StartsIn room q
unfolding AllAtStart StartsIn
AllAtStart-StartsIn room [] h = tt
AllAtStart-StartsIn room (f ∷ q) h = (λ lt. h.0, h.1)

partial_Before :
    (memory : Memory) (room : ℕ) (b f : BufferChunk)
    → b.address + b.length + room < word
    → room < f.length
    → Fits f
    → Apart (b.address + b.length) room f
    → AtStart f
    → Before (copied_memory memory b f room) (grown b room) (advance room f)
partial_Before memory room b f fits lt fits' apart start = (
  omega arith,
  λ k kb kf j lt.
      let target = b.address + b.length in
      let i = room - k + j in
      let e : add_size b.address b.length ≡ target = omega arith in
      let e1 : (advance room f).address - k + j ≡ f.address + i = omega arith in
      let e2 : b.address + (grown b room).length - k + j ≡ target + i = omega arith in
      let memory' = memcpy memory target f.address room in
      let inside : i < room = omega arith in
      let same : memory' (f.address + i) ≡ memory' (target + i) =
        memcpy_out memory target f.address room (f.address + i) (out i inside)
        ∙ sym (memcpy_in memory target f.address room i (omega arith)) in
      rw (e, e1, e2) same,
)
  where
    out :
        (i : ℕ)
        → i < room
        → (f.address + i < b.address + b.length) ⊎ (b.address + b.length + room ≤ f.address + i)
    out i inside = ground arith

Traced-copy_queue :
    (memory : Memory) (room : ℕ) (b : BufferChunk) (q : List BufferChunk)
    → b.address + b.length + room < word
    → AllFit q
    → AllApart (b.address + b.length) room q
    → StartsIn room q
    → let (memory', b', rest) = copy_queue memory room b q in Traced memory' true (b' ∷ rest)
unfolding copy_queue AllFit AllApart StartsIn Traced
Traced-copy_queue memory room b [] fits all apart starts = tt
Traced-copy_queue memory room b (f ∷ q) fits all apart starts =
    let n = min room f.length in
    elim (Bool-cases (f.length == n)) [
      | inl e ↦
          let whole : f.length ≤ room = ground arith in
          let apart' =
            AllApart-within (b.address + b.length) room (b.address + add_size b.length n) (room - n)
              q (omega arith) (omega arith) apart.1 in
          rw e (
            Traced-copy_queue (copied_memory memory b f n) (room - n) (grown b n) q (omega arith)
              all.1 apart' (AllAtStart-StartsIn (room - n) q starts.1))
      | inr e ↦
          let part : room < f.length = ground arith in
          let e' : n ≡ room = omega arith in
          rw (e, e') (partial_Before memory room b f fits part all.0 apart.0 (starts.0 part))
    ]

-- The front is shorter than what is required, and is copied whole.
tail_StartsIn :
    (room : ℕ) (q : List BufferChunk)
    → (front_of q).length ≤ room
    → StartsBehind q
    → StartsIn room q
unfolding StartsBehind StartsIn
tail_StartsIn room [] le h = tt
tail_StartsIn room (f ∷ q) le h = (λ lt. absurd (omega arith), h)

-- `require` as above, where the chunks behind the front start where their buffers do: what a pop of
-- a front from the pool takes for granted holds after it, if it did before.
pub require-Traced :
    (unique : BufferChunk → Bool) (allocate : ℕ → BufferChunk) (memory : Memory)
    (s : BufferAccumulator) (n : ℕ)
    → ((k : ℕ) → (allocate k).length ≡ k)
    → IsValid s
    → IsUniform s.pool
    → let b = (get unique allocate s.pool n).1 in
      (b.address + b.length < word)
      → AllApart b.address b.length s.queue
      → StartsBehind s.queue
      → Traced memory s.in_pool_buffer s.queue
      → let (memory', s') = require unique allocate memory s n in
        Traced memory' s'.in_pool_buffer s'.queue
unfolding require fill
require-Traced unique allocate memory s n law ok uniform fits apart starts traced =
    elim (Bool-cases (returns s n)) [
      | inl e ↦ rw (require, e) traced
      | inr e ↦
          let b = (get unique allocate s.pool n).1 in
          let taken = get_lem unique allocate s.pool n law uniform in
          let e' : b.address + 0 ≡ b.address = omega arith in
          let short : (front s).length < n = short_lem e in
          rw (require, e)
            (Traced-copy_queue memory b.length (record b { dtype = (front s).dtype; length = 0 })
              s.queue (omega arith) ok.all_fit (rw e' apart)
              (tail_StartsIn b.length s.queue (omega (arith, taken.2)) starts))
    ]
  where
    short_lem : returns s n ≡ false → (front s).length < n
    short_lem e = ground arith
