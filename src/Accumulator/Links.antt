-- ===== src/Accumulator/Links.antt =====
-- The next buffers of a copied chunk, which `push` of lib/Framework/BufferAccumulator.cpp goes through.
use pothos_core.Base.{
  ℕ, zero, suc, sub_size, ◌%◌, ◌^◌, ◌>>=◌, ◌≡◌, ◌≢◌, refl, subst, inl, inr, List, Option, none,
  some, Option-cases, Bool-cases,
}
use pothos_core.Buffer.{BufferChunk, ManagedBuffer}
use pothos_core.Buffer.Copy.{
  Heap, PositiveLengths, count_next, incr_next_buffers, copy_chunk, copy_chunk_lem, positive_int,
  length_remain,
}
use pothos_core.Accumulator.{BufferAccumulator, push}
use pothos_core.Accumulator.Push.{Linked, next_chunks-Linked}

none-some : {k : ℕ} → none ≢ some k
none-some e = cc

some-injective : {a b : ℕ} → some a ≡ some b → a ≡ b
some-injective e = cc

count_next-Linked :
    (fuel : ℕ) (heap : Heap) (r : ℕ) (m : ManagedBuffer) (n : ℕ)
    → count_next fuel heap r m ≡ some n
    → Linked heap n (some m)
unfolding count_next Linked
count_next-Linked zero heap r m n counts = absurd (none-some counts)
count_next-Linked (suc fuel) heap r m n counts = elim (Option-cases m.next_buffer) [
  | inl p ↦ stops (rw (count_next, p) at counts)
  | inr (i, p) ↦
      let r' = sub_size r (heap i).buffer.length % 2 ^ 32 in
      elim (Bool-cases (positive_int r)) [
        | inl e ↦ elim (Option-cases (count_next fuel heap r' (heap i))) [
          | inl q ↦ absurd (none-some (rw (count_next, p, e, q) at counts))
          | inr (k, q) ↦
              subst (λ x. Linked heap x (some m))
                (some-injective (rw (count_next, p, e, q) at counts))
                (rw (Linked, p) (count_next-Linked fuel heap r' (heap i) k q))
        ]
        | inr e ↦ stops (rw (count_next, p, e) at counts)
      ]
]
  where
    stops : some 0 ≡ some n → Linked heap n (some m)
    stops e = subst (λ k. Linked heap k (some m)) (some-injective e) tt

-- The copy of a chunk ends where each buffer has a positive length that an `int` holds, and a push of
-- the copy goes through its next buffers without a null pointer, onto every accumulator.
pub push-copy_chunk :
    (heap : Heap) (s : BufferAccumulator) (c : BufferChunk)
    → PositiveLengths heap
    → (c' : BufferChunk) × (copy_chunk heap c ≡ some c')
      × ((s' : BufferAccumulator) × (push heap s c' ≡ some s'))
unfolding push Linked incr_next_buffers
push-copy_chunk heap s c lengths =
    let (n, counts, copied) = copy_chunk_lem heap c lengths in
    let (cs, linked) =
      next_chunks-Linked heap n c.managed (linked_from c.managed (length_remain c) counts) in
    (record c { next_buffers = n }, copied, bound _ _ linked)
  where
    bound :
        (o : Option (List BufferChunk)) (f : List BufferChunk → BufferAccumulator)
        {cs : List BufferChunk}
        → o ≡ some cs
        → (s' : BufferAccumulator) × ((o >>= λ cs. some (f cs)) ≡ some s')
    bound o f {cs} e = (f cs, rw e refl)

    linked_from :
        (o : Option ManagedBuffer) (r : ℕ) {n : ℕ}
        → elim o [ none ↦ some 0 | some m ↦ count_next (suc r) heap r m ] ≡ some n
        → Linked heap n o
    linked_from none r {n} e = subst (λ k. Linked heap k none) (some-injective e) tt
    linked_from (some m) r {n} e = count_next-Linked (suc r) heap r m n e
