-- ===== src/Buffer/Copy.antt =====
-- The copy of a chunk: `_incrNextBuffers` of lib/Framework/BufferChunk.cpp counts the next buffers that
-- a chunk reaches into. The heap gives the content of a `ManagedBuffer::Impl`.
use pothos_core.Base.{
  ℕ, zero, suc, ◌%◌, ◌^◌, ◌>>=◌, ◌≤◌, ◌<◌, ◌≡◌, ◌⊎◌, inl, inr, refl, ap, ltb, Bool, false, ◌&&◌,
  if◌then◌else◌, Bool-cases, Option, none, some, Option-cases, arith, sub_size,
}
use pothos_core.Buffer.{BufferChunk, ManagedBuffer, buffer_of, chunk_end, shared_end}

-- The content of the `Impl` that a pointer names
abbrev pub Heap : Type 0
Heap = ℕ → ManagedBuffer

-- `mb._impl->nextBuffer`, `none` for a null pointer
abbrev pub next_of : Heap → ManagedBuffer → Option ManagedBuffer
next_of heap m = elim (m.next_buffer) [ none ↦ none | some i ↦ some (heap i) ]

-- An `int` has 32 bits: a positive one is below 2 ^ 31.
abbrev pub positive_int : ℕ → Bool
positive_int r = ltb 0 r && ltb r (2 ^ 31)

-- The loop of `_incrNextBuffers`, on fuel: `r` is `lengthRemain`, by its 32 bits. `none` is a loop that
-- has not ended when the fuel is out, as the one through a ring of buffers of length 0 never does.
unfoldable pub count_next : ℕ → Heap → ℕ → ManagedBuffer → Option ℕ
count_next zero heap r m = none
count_next (suc fuel) heap r m = elim (next_of heap m) [
  | none ↦ some 0
  | some m' ↦
      let further = count_next fuel heap (sub_size r m'.buffer.length % 2 ^ 32) m' in
      if positive_int r then (further >>= λ n. some (suc n)) else some 0
]

-- `getEnd() - getBuffer().getEnd()`, stored in an `int`
abbrev pub length_remain : BufferChunk → ℕ
length_remain c = sub_size (chunk_end c) (shared_end (buffer_of c.managed)) % 2 ^ 32

-- `_incrNextBuffers`
unfoldable pub incr_next_buffers : Heap → BufferChunk → Option ℕ
incr_next_buffers heap c = elim (c.managed) [
  | none ↦ some 0
  | some m ↦ count_next (suc (length_remain c)) heap (length_remain c) m
]

-- `BufferChunk(other)`
abbrev pub copy_chunk : Heap → BufferChunk → Option BufferChunk
copy_chunk heap c = incr_next_buffers heap c >>= λ n. some (record c { next_buffers = n })

-- Each buffer has a positive length that an `int` holds.
abbrev pub PositiveLengths : Heap → Type 0
PositiveLengths heap = (i : ℕ) → (0 < (heap i).buffer.length) × ((heap i).buffer.length < 2 ^ 31)

count_next_stop :
    (fuel : ℕ) (heap : Heap) (r : ℕ) (m : ManagedBuffer)
    → positive_int r ≡ false
    → count_next (suc fuel) heap r m ≡ some 0
unfolding count_next
count_next_stop fuel heap r m e = elim (Option-cases (next_of heap m)) [
  | inl p ↦ rw (count_next, p) refl
  | inr (m', p) ↦ rw (count_next, p, e) refl
]

-- more rounds than the remaining length, or one if that is negative
abbrev pub Enough : ℕ → ℕ → Type 0
Enough r fuel = (r < fuel) ⊎ ((0 < fuel) × (2 ^ 31 ≤ r))

-- What a round leaves of the remaining length: less, or negative
remain_lem :
    (fuel r n : ℕ)
    → r < suc fuel
    → 0 < r
    → r < 2 ^ 31
    → 0 < n
    → n < 2 ^ 31
    → Enough (sub_size r n % 2 ^ 32) fuel
remain_lem fuel r n lt some_left small pos le = elim (Bool-cases (ltb r n)) [
  | inl e ↦ let below : r < n = ground arith in inr (omega arith, omega arith)
  | inr e ↦ let above : n ≤ r = ground arith in inl (omega arith)
]

-- The loop ends: where each buffer has a positive length that an `int` holds, any two fuels of more
-- rounds than the remaining length, or of one round if that is negative, give the same count.
pub count_next-fuel :
    (fuel fuel' : ℕ) (heap : Heap) (r : ℕ) (m : ManagedBuffer)
    → PositiveLengths heap
    → Enough r fuel
    → Enough r fuel'
    → (n : ℕ) × (count_next fuel heap r m ≡ some n) × (count_next fuel' heap r m ≡ some n)
unfolding count_next
count_next-fuel zero fuel' heap r m lengths enough enough' = absurd (ground arith)
count_next-fuel (suc fuel) zero heap r m lengths enough enough' = absurd (ground arith)
count_next-fuel (suc fuel) (suc fuel') heap r m lengths enough enough' =
    elim (Bool-cases (positive_int r)) [
      | inl e ↦ elim (Option-cases m.next_buffer) [
        | inl p ↦ (0, rw (count_next, p) refl, rw (count_next, p) refl)
        | inr (i, p) ↦
            let n = (heap i).buffer.length in
            let small : r < 2 ^ 31 = ground arith in
            let some_left : 0 < r = ground arith in
            let lt : r < suc fuel = ground arith in
            let lt' : r < suc fuel' = ground arith in
            let (k, counts, counts') =
              count_next-fuel fuel fuel' heap (sub_size r n % 2 ^ 32) (heap i) lengths
                (remain_lem fuel r n lt some_left small (lengths i).0 (lengths i).1)
                (remain_lem fuel' r n lt' some_left small (lengths i).0 (lengths i).1) in
            (suc k, rw (count_next, p, e, counts) refl, rw (count_next, p, e, counts') refl)
      ]
      | inr e ↦ (0, count_next_stop fuel heap r m e, count_next_stop fuel' heap r m e)
    ]

counted_lem :
    (heap : Heap) (r : ℕ) (o : Option ManagedBuffer)
    → PositiveLengths heap
    → (n : ℕ) × (elim o [ none ↦ some 0 | some m ↦ count_next (suc r) heap r m ] ≡ some n)
counted_lem heap r none lengths = (0, refl)
counted_lem heap r (some m) lengths =
    let (n, counts, _) =
      count_next-fuel (suc r) (suc r) heap r m lengths (inl (omega arith)) (inl (omega arith)) in
    (n, counts)

-- The copy of a chunk is the chunk, but for the count.
pub copy_chunk_lem :
    (heap : Heap) (c : BufferChunk)
    → PositiveLengths heap
    → (n : ℕ) × (incr_next_buffers heap c ≡ some n)
      × (copy_chunk heap c ≡ some (record c { next_buffers = n }))
unfolding incr_next_buffers
copy_chunk_lem heap c lengths =
    let (n, e) = counted_lem heap (length_remain c) c.managed lengths in
    (n, e, ap (λ o. o >>= λ k. some (record c { next_buffers = k })) e)
