-- ===== src/Accumulator/Push.antt =====
-- `push` of lib/Framework/BufferAccumulator.cpp.
use mathlib.Core.List.{reverse, reverse-reverse, reverse-cons}
use pothos_core.Base.{
  ℕ, zero, suc, ◌+◌, ◌<◌, ◌≡◌, ◌≢◌, ◌⊎◌, inl, inr, refl, ap, ◌∙◌, sym, ◌==◌, ◌||◌, ◌&&◌, List, [],
  ◌∷◌, ◌++◌, append-nil, append_assoc, word, arith, Bool-cases, Option-cases, add_size, subst,
  Option, none, some, ==_iff,
}
use pothos_core.Buffer.{BufferChunk, get_alias, chunk_end, ManagedBuffer}
use pothos_core.Buffer.Copy.{Heap, next_of}
use pothos_core.Accumulator.{
  Memory, BufferAccumulator, amalgamate, extend, drained, push, drop_drained, drop_dummy,
  next_chunks, same_managed, empty_chunk,
}
use pothos_core.Accumulator.Stream.{
  region, bytes, stream, size, Fits, AllFit, region-add, region_same, stream-append, size-append,
  AllFit-append, stream-reverse_cons, size-reverse, AllFit-reverse,
}

-- The memory shows the bytes of a chunk at its alias too.
abbrev pub AtAlias : Memory → BufferChunk → Type 0
AtAlias memory b =
    (get_alias b + b.length < word)
    × ((j : ℕ) → j < b.length → memory (get_alias b + j) ≡ memory (b.address + j))

-- Each time that the loop joins chunks through an alias alone, the memory shows the bytes at both.
unfoldable pub Shown : Memory → BufferChunk → List BufferChunk → Type 0
Shown memory b [] = Unit
Shown memory b (f ∷ rest) =
    (b.address ≢ chunk_end f → get_alias b ≡ chunk_end f → AtAlias memory b)
    × ((b.address ≡ chunk_end f) ⊎ (get_alias b ≡ chunk_end f) → Shown memory (extend f b) rest)

-- What a join makes of two chunks
Joined : Memory → BufferChunk → BufferChunk → Type 0
Joined memory f b =
    Fits (extend f b)
    × ((extend f b).length ≡ f.length + b.length)
    × (bytes memory (extend f b) ≡ bytes memory f ++ bytes memory b)

join_lem :
    (memory : Memory) (f b : BufferChunk) (a : ℕ)
    → Fits f
    → a + b.length < word
    → ((j : ℕ) → j < b.length → memory (a + j) ≡ memory (b.address + j))
    → a ≡ chunk_end f
    → Joined memory f b
unfolding Joined
join_lem memory f b a fits room same e =
    let e1 : a ≡ f.address + f.length = omega arith in
    let e2 : (extend f b).length ≡ f.length + b.length = omega arith in
    (
      omega arith,
      e2,
      rw
          (
            e2,
            region-add memory f.address f.length b.length,
            sym e1,
            region_same memory memory a b.address b.length same,
          )
          refl,
    )

Amalgamated : Memory → BufferChunk → List BufferChunk → List BufferChunk → Type 0
Amalgamated memory b rest q =
    AllFit q
    × (size q ≡ size rest + b.length)
    × (stream memory (reverse q) ≡ stream memory (reverse rest) ++ bytes memory b)

further_lem :
    (memory : Memory) (f b : BufferChunk) (rest q : List BufferChunk)
    → Fits b
    → Joined memory f b
    → Amalgamated memory (extend f b) rest q
    → Amalgamated memory b (f ∷ rest) (drained b ∷ q)
unfolding Joined Amalgamated AllFit region
further_lem memory f b rest q fits joined further = (
  (omega arith, further.0),
  omega (arith, further.1, joined.1),
  rw
      (
        stream-reverse_cons memory (drained b) q,
        append-nil,
        further.2,
        joined.2,
        stream-reverse_cons memory f rest,
        append_assoc,
      )
      refl,
)

-- The loop keeps the bytes, wherever it stops.
amalgamate_lem :
    (memory : Memory) (b : BufferChunk) (rest : List BufferChunk)
    → Fits b
    → AllFit rest
    → Shown memory b rest
    → Amalgamated memory b rest (amalgamate b rest)
unfolding amalgamate Shown AllFit Amalgamated Joined
amalgamate_lem memory b [] fits all shown =
    ((fits, tt), omega arith, stream-reverse_cons memory b [])
amalgamate_lem memory b (f ∷ rest) fits all shown = elim (Bool-cases (b.address == chunk_end f)) [
  | inl e ↦
      let at = (==_iff b.address (chunk_end f)).0 e in
      let joined = join_lem memory f b b.address all.0 fits (λ j lt. refl) at in
      let rest_lem = amalgamate_lem memory (extend f b) rest joined.0 all.1 (shown.1 (inl at)) in
      rw e (further_lem memory f b rest _ fits joined rest_lem)
  | inr ne ↦ elim (Bool-cases (get_alias b == chunk_end f)) [
    | inl e ↦
        let at = (==_iff (get_alias b) (chunk_end f)).0 e in
        let mirror = shown.0 (ground arith) at in
        let joined = join_lem memory f b (get_alias b) all.0 mirror.0 mirror.1 at in
        let rest_lem = amalgamate_lem memory (extend f b) rest joined.0 all.1 (shown.1 (inr at)) in
        rw (ne, e) (further_lem memory f b rest _ fits joined rest_lem)
    | inr ne' ↦ rw (ne, ne') ((fits, all), omega arith, stream-reverse_cons memory b (f ∷ rest))
  ]
]

drop_drained_lem :
    (memory : Memory) (q : List BufferChunk)
    → AllFit q
    → AllFit (drop_drained q)
      × (size (drop_drained q) ≡ size q)
      × (stream memory (reverse (drop_drained q)) ≡ stream memory (reverse q))
unfolding drop_drained AllFit region
drop_drained_lem memory [] all = (tt, refl, refl)
drop_drained_lem memory (b ∷ []) all = (all, refl, refl)
drop_drained_lem memory (b ∷ f ∷ rest) all =
    elim (Bool-cases (same_managed b.managed f.managed && (b.length == 0))) [
      | inl e ↦
          let empty : b.length ≡ 0 = ground arith in
          rw e (
            all.1,
            omega arith,
            rw (stream-reverse_cons memory b (f ∷ rest), empty, append-nil) refl,
          )
      | inr e ↦ rw e (all, refl, refl)
    ]

abbrev NoBytes : Memory → List BufferChunk → Type 0
NoBytes memory cs = AllFit cs × (size cs ≡ 0) × (stream memory cs ≡ [])

NoBytes-empty_chunk :
    (memory : Memory) (heap : Heap) (m : ManagedBuffer) (cs : List BufferChunk)
    → ((i : ℕ) → (heap i).buffer.address < word)
    → NoBytes memory cs
    → NoBytes memory (empty_chunk (next_of heap m) ∷ cs)
unfolding AllFit stream region
NoBytes-empty_chunk memory heap m cs small h = elim (Option-cases m.next_buffer) [
  | inl e ↦ rw e ((omega arith, h.0), omega (arith, h.1), h.2)
  | inr (i, e) ↦ rw e ((omega (arith, small i), h.0), omega (arith, h.1), h.2)
]

-- The restored buffers are empty.
next_chunks_lem :
    (memory : Memory) (heap : Heap) (n : ℕ) (m : Option ManagedBuffer) (cs : List BufferChunk)
    → ((i : ℕ) → (heap i).buffer.address < word)
    → next_chunks heap n m ≡ some cs
    → NoBytes memory cs
unfolding next_chunks AllFit stream region
next_chunks_lem memory heap zero m [] small e = (tt, refl, refl)
next_chunks_lem memory heap zero m (c ∷ cs) small e = cc
next_chunks_lem memory heap (suc n) none cs small e = cc
next_chunks_lem memory heap (suc n) (some m) cs small e =
    elim (Option-cases (next_chunks heap n (next_of heap m))) [
      | inl p ↦ absurd (none_impossible (rw p at e))
      | inr (rest, p) ↦ subst (NoBytes memory) (some_cancel (rw p at e)) (
          NoBytes-empty_chunk memory heap m rest small
            (next_chunks_lem memory heap n (next_of heap m) rest small p))
    ]
  where
    none_impossible : {q : List BufferChunk} → none ≢ some q
    none_impossible e = cc

    some_cancel : {q r : List BufferChunk} → some q ≡ some r → q ≡ r
    some_cancel e = cc

-- Behind a managed buffer there are at least this many linked ones.
unfoldable pub Linked : Heap → ℕ → Option ManagedBuffer → Type 0
Linked heap zero m = Unit
Linked heap (suc n) none = ⊥
Linked heap (suc n) (some m) = Linked heap n (next_of heap m)

pub next_chunks-Linked :
    (heap : Heap) (n : ℕ) (m : Option ManagedBuffer)
    → Linked heap n m
    → (cs : List BufferChunk) × (next_chunks heap n m ≡ some cs)
unfolding next_chunks Linked
next_chunks-Linked heap zero m linked = ([], refl)
next_chunks-Linked heap (suc n) none linked = absurd linked
next_chunks-Linked heap (suc n) (some m) linked =
    let (cs, e) = next_chunks-Linked heap n (next_of heap m) linked in
    (empty_chunk (next_of heap m) ∷ cs, rw e refl)

drop_dummy_lem :
    (memory : Memory) (q : List BufferChunk)
    → AllFit q
    → AllFit (drop_dummy q)
      × (size (drop_dummy q) ≡ size q)
      × (stream memory (drop_dummy q) ≡ stream memory q)
unfolding AllFit stream region
drop_dummy_lem memory [] all = (tt, refl, refl)
drop_dummy_lem memory (f ∷ q) all = elim (Bool-cases (f.length == 0)) [
  | inl e ↦ let empty : f.length ≡ 0 = ground arith in rw e (all.1, omega arith, rw empty refl)
  | inr e ↦ rw e (all, refl, refl)
]

-- What the accumulator keeps: its queue has a chunk, and its count is that of the chunks, which lie
-- within the address space.
pub record IsValid (s : BufferAccumulator) : Type 0 where
  pub nonempty : s.queue ≢ []
  pub all_fit : AllFit s.queue
  pub counted : size s.queue ≡ s.bytes_available
  pub small : s.bytes_available < word

NonEmpty : List BufferChunk → Type 0
NonEmpty q = (c : BufferChunk) × (r : List BufferChunk) × (q ≡ c ∷ r)

drop_drained-NonEmpty : (b : BufferChunk) (q : List BufferChunk) → NonEmpty (drop_drained (b ∷ q))
unfolding drop_drained NonEmpty
drop_drained-NonEmpty b [] = (b, [], refl)
drop_drained-NonEmpty b (f ∷ q) =
    elim (Bool-cases (same_managed b.managed f.managed && (b.length == 0))) [
      | inl e ↦ (f, q, rw e refl)
      | inr e ↦ (b, f ∷ q, rw e refl)
    ]

amalgamate-NonEmpty : (b : BufferChunk) (q : List BufferChunk) → NonEmpty (amalgamate b q)
unfolding amalgamate NonEmpty
amalgamate-NonEmpty b [] = (b, [], refl)
amalgamate-NonEmpty b (f ∷ q) =
    elim (Bool-cases ((b.address == chunk_end f) || (get_alias b == chunk_end f))) [
      | inl e ↦ (drained b, amalgamate (extend f b) q, rw e refl)
      | inr e ↦ (b, f ∷ q, rw e refl)
    ]

append-cons_nonempty : (p : List BufferChunk) (c : BufferChunk) → (p ++ c ∷ []) ≢ []
append-cons_nonempty [] c e = cc
append-cons_nonempty (d ∷ p) c e = cc

append_nonempty : (p r : List BufferChunk) → p ≢ [] → (p ++ r) ≢ []
append_nonempty [] r h e = h refl
append_nonempty (d ∷ p) r h e = cc

-- What is pushed has a chunk.
pushed_nonempty :
    (c : BufferChunk) (back : List BufferChunk) → reverse (drop_drained (amalgamate c back)) ≢ []
unfolding NonEmpty
pushed_nonempty c back =
    let (b, q, e) = amalgamate-NonEmpty c back in
    let (d, r, e') = drop_drained-NonEmpty b q in
    rw (e, e', reverse-cons) (append-cons_nonempty (reverse r) d)

-- What `push` has pushed before the buffers that it restores
pushed_lem :
    (memory : Memory) (q : List BufferChunk) (c : BufferChunk)
    → AllFit q
    → Fits c
    → Shown memory c (reverse (drop_dummy q))
    → (p : List BufferChunk) × (p ≡ reverse (drop_drained (amalgamate c (reverse (drop_dummy q)))))
      × AllFit p
      × (size p ≡ size q + c.length)
      × (stream memory p ≡ stream memory q ++ bytes memory c)
unfolding Amalgamated
pushed_lem memory q c all fits shown =
    let kept = drop_dummy_lem memory q all in
    let back = reverse (drop_dummy q) in
    let all' = AllFit-reverse (drop_dummy q) kept.0 in
    let joined = amalgamate_lem memory c back fits all' shown in
    let trimmed = drop_drained_lem memory (amalgamate c back) joined.0 in
    (
      _,
      refl,
      AllFit-reverse _ trimmed.0,
      omega (
        arith,
        size-reverse (drop_drained (amalgamate c back)),
        trimmed.1,
        joined.1,
        size-reverse (drop_dummy q),
        kept.1,
      ),
      trimmed.2
          ∙ joined.2
          ∙ ap (λ r. r ++ bytes memory c)
              (ap (stream memory) (reverse-reverse (drop_dummy q)) ∙ kept.2),
    )

-- A push of a chunk that lies in the address space, and behind whose managed buffer as many buffers are
-- linked as it counts, onto a valid accumulator whose count does not overflow, where the loop joins
-- chunks at an alias only if the memory shows the bytes there too: it succeeds, keeps the accumulator valid, counts the bytes of the chunk,
-- and the queue shows what it showed, then the bytes of the chunk.
pub stream-push :
    (memory : Memory) (heap : Heap) (s : BufferAccumulator) (c : BufferChunk)
    → IsValid s
    → Fits c
    → s.bytes_available + c.length < word
    → Shown memory c (reverse (drop_dummy s.queue))
    → ((i : ℕ) → (heap i).buffer.address < word)
    → Linked heap c.next_buffers c.managed
    → (s' : BufferAccumulator) × (push heap s c ≡ some s')
      × IsValid s'
      × (s'.bytes_available ≡ s.bytes_available + c.length)
      × (stream memory s'.queue ≡ stream memory s.queue ++ bytes memory c)
unfolding push
stream-push memory heap s c ok fits room shown small linked =
    let (nexts, e) = next_chunks-Linked heap c.next_buffers c.managed linked in
    let (p, made, all, sum, show) = pushed_lem memory s.queue c ok.all_fit fits shown in
    let rest = next_chunks_lem memory heap c.next_buffers c.managed nexts small e in
    (
      record s { queue = p ++ nexts; bytes_available = add_size s.bytes_available c.length },
      rw (e, made) refl,
      record {
        nonempty = append_nonempty p nexts (rw made (pushed_nonempty c _));
        all_fit = AllFit-append p nexts all rest.0;
        counted = omega (arith, size-append p nexts, rest.1, sum, ok.counted);
        small = omega arith;
      },
      omega arith,
      stream-append memory p nexts ∙ rw (rest.2, append-nil) show,
    )
