-- ===== src/Accumulator/Pop.antt =====
-- `pop` of lib/Framework/BufferAccumulator.cpp.
use pothos_core.Base.{
  ℕ, ◌+◌, ◌-◌, ◌≤◌, ◌<◌, ◌≡◌, ◌≢◌, inl, inr, refl, ap, ◌∙◌, sym, ◌==◌, ◌&&◌, true, false,
  if◌then◌else◌, Bool, List, [], ◌∷◌, ◌++◌, append_assoc, word, arith, Bool-cases, leb,
}
use pothos_core.Buffer.{BufferChunk, chunk_end, buffer_of}
use pothos_core.Accumulator.{
  Memory, BufferAccumulator, front, front_of, pop, pop_front, drop_consumed, hold_empty, advance,
  advance_front, move_back, offset_of, same_size,
}
use pothos_core.Accumulator.Stream.{
  region, bytes, stream, size, Fits, AllFit, region-add, region_same,
}
use pothos_core.Accumulator.Push.{IsValid}

-- Just before `b`, as far as its buffer reaches, the memory shows the last bytes of `f`.
abbrev pub Before : Memory → BufferChunk → BufferChunk → Type 0
Before memory f b =
    ((buffer_of b.managed).address ≤ b.address)
    × ((k : ℕ)
        → k ≤ f.length
        → k ≤ b.address - (buffer_of b.managed).address
        → (j : ℕ) → j < k
        → memory (b.address - k + j) ≡ memory (f.address + f.length - k + j))

-- When the front is from the pool, its last bytes are those just before the next chunk.
unfoldable pub Traced : Memory → Bool → List BufferChunk → Type 0
Traced memory false q = Unit
Traced memory true [] = Unit
Traced memory true (f ∷ []) = Unit
Traced memory true (f ∷ b ∷ q) = Before memory f b

-- A chunk that takes the bytes before it
move_back_lem :
    (memory : Memory) (f b : BufferChunk)
    → Fits f
    → Fits b
    → f.length + b.length < word
    → f.length ≤ b.address
    → ((j : ℕ) → j < f.length → memory (b.address - f.length + j) ≡ memory (f.address + j))
    → Fits (move_back f.length b)
      × ((move_back f.length b).length ≡ f.length + b.length)
      × (bytes memory (move_back f.length b) ≡ bytes memory f ++ bytes memory b)
move_back_lem memory f b fits fits' room below same =
    let e : (move_back f.length b).address ≡ b.address - f.length = omega arith in
    let e1 : (move_back f.length b).length ≡ f.length + b.length = omega arith in
    let e2 : b.address - f.length + f.length ≡ b.address = omega arith in
    (
      omega arith,
      e1,
      rw
          (
            e,
            e1,
            region-add memory (b.address - f.length) f.length b.length,
            e2,
            region_same memory memory (b.address - f.length) f.address f.length same,
          )
          refl,
    )

abbrev SameBytes : Memory → List BufferChunk → List BufferChunk → Type 0
SameBytes memory q r = AllFit r × (size r ≡ size q) × (stream memory r ≡ stream memory q)

abbrev BytesBefore : Memory → BufferChunk → BufferChunk → Type 0
BytesBefore memory f b =
    (f.length ≤ b.address)
    × ((j : ℕ) → j < f.length → memory (b.address - f.length + j) ≡ memory (f.address + j))

Traced-Before :
    (memory : Memory) (in_pool : Bool) (f b : BufferChunk) (q : List BufferChunk)
    → in_pool ≡ true
    → Traced memory in_pool (f ∷ b ∷ q)
    → Before memory f b
unfolding Traced
Traced-Before memory true f b q e h = h
Traced-Before memory false f b q e h = cc

absorbed_lem :
    (memory : Memory) (f b : BufferChunk)
    → Fits b
    → Before memory f b
    → leb f.length (offset_of b) ≡ true
    → BytesBefore memory f b
absorbed_lem memory f b fits h e =
    let reach : f.length ≤ b.address - (buffer_of b.managed).address = ground (arith, h.0) in
    let e1 : f.address + f.length - f.length ≡ f.address = omega arith in
    (omega arith, λ j lt. h.1 f.length (omega arith) reach j lt ∙ ap (λ a. memory (a + j)) e1)

contiguous_lem :
    (memory : Memory) (f b : BufferChunk)
    → Fits f
    → chunk_end f ≡ b.address
    → BytesBefore memory f b
contiguous_lem memory f b fits e =
    let e1 : b.address - f.length ≡ f.address = omega arith in
    (omega arith, λ j lt. ap (λ a. memory (a + j)) e1)

-- The three tests keep the bytes.
pop_front_lem :
    (memory : Memory) (in_pool : Bool) (q : List BufferChunk)
    → AllFit q
    → size q < word
    → Traced memory in_pool q
    → SameBytes memory q (pop_front in_pool q)
unfolding pop_front AllFit stream region Traced
pop_front_lem memory in_pool [] all room traced = (all, refl, refl)
pop_front_lem memory in_pool (f ∷ []) all room traced = elim (Bool-cases (f.length == 0)) [
  | inl e ↦ let empty : f.length ≡ 0 = ground arith in rw e (tt, omega arith, rw empty refl)
  | inr e ↦ rw e (all, refl, refl)
]
pop_front_lem memory in_pool (f ∷ b ∷ q) all room traced =
    elim (Bool-cases (in_pool && leb f.length (offset_of b))) [
      | inl e ↦ rw e (
          moved (
            absorbed_lem memory f b all.1.0
              (Traced-Before memory in_pool f b q (ground arith) traced) (ground arith)))
      | inr e ↦ elim (Bool-cases (f.length == 0)) [
        | inl e' ↦
            let empty : f.length ≡ 0 = ground arith in
            rw (e, e') (all.1, omega arith, rw empty refl)
        | inr e' ↦ rw (e, e') (over_bounds _)
      ]
    ]
  where
    moved : BytesBefore memory f b → SameBytes memory (f ∷ b ∷ q) (move_back f.length b ∷ q)
    moved (below, same) =
        let m = move_back_lem memory f b all.0 all.1.0 (omega arith) below same in
        ((m.0, all.1.1), omega (arith, m.1), rw (m.2, append_assoc) refl)

    over_bounds :
        (over : Bool)
        → SameBytes memory
            (f ∷ b ∷ q)
            (if over && (chunk_end f == b.address) then move_back f.length b ∷ q else f ∷ b ∷ q)
    over_bounds over = elim (Bool-cases (over && (chunk_end f == b.address))) [
      | inl e ↦ rw e (moved (contiguous_lem memory f b all.0 (ground arith)))
      | inr e ↦ rw e (all, refl, refl)
    ]

drop_consumed_lem :
    (memory : Memory) (q : List BufferChunk) → AllFit q → SameBytes memory q (drop_consumed q)
unfolding drop_consumed AllFit stream region
drop_consumed_lem memory [] all = (all, refl, refl)
drop_consumed_lem memory (f ∷ q) all =
    let rest = drop_consumed_lem memory q all.1 in
    elim (Bool-cases (f.length == 0)) [
      | inl e ↦
          let empty : f.length ≡ 0 = ground arith in
          rw e (rest.0, omega (arith, rest.1), rw (rest.2, empty) refl)
      | inr e ↦ rw e (all, refl, refl)
    ]

pub advance_lem :
    (memory : Memory) (n : ℕ) (f : BufferChunk)
    → Fits f
    → n ≤ f.length
    → Fits (advance n f)
      × ((advance n f).length + n ≡ f.length)
      × (bytes memory f ≡ region memory f.address n ++ bytes memory (advance n f))
advance_lem memory n f fits le =
    let e : f.length ≡ n + (f.length - n) = omega arith in
    let e1 : (advance n f).address ≡ f.address + n = omega arith in
    let e2 : (advance n f).length ≡ f.length - n = omega arith in
    (
      omega arith,
      omega arith,
      rw (e1, e2) (ap (region memory f.address) e ∙ region-add memory f.address n (f.length - n)),
    )

hold_empty_lem :
    (memory : Memory) (q : List BufferChunk) → AllFit q → SameBytes memory q (hold_empty q)
unfolding AllFit stream region
hold_empty_lem memory [] all = ((omega arith, tt), refl, refl)
hold_empty_lem memory (f ∷ q) all = (all, refl, refl)

Before-advance :
    (memory : Memory) (n : ℕ) (f b : BufferChunk)
    → Fits f
    → n ≤ f.length
    → Before memory f b
    → Before memory (advance n f) b
Before-advance memory n f b fits le h = (
  h.0,
  λ k kf kb j lt.
      let e : (advance n f).address + (advance n f).length - k ≡ f.address + f.length - k =
        omega arith in
      h.1 k (omega arith) kb j lt ∙ ap (λ a. memory (a + j)) (sym e),
)

Traced-advance :
    (memory : Memory) (in_pool : Bool) (n : ℕ) (f : BufferChunk) (q : List BufferChunk)
    → Fits f
    → n ≤ f.length
    → Traced memory in_pool (f ∷ q)
    → Traced memory in_pool (advance n f ∷ q)
unfolding Traced
Traced-advance memory false n f q fits le h = tt
Traced-advance memory true n f [] fits le h = tt
Traced-advance memory true n f (b ∷ q) fits le h = Before-advance memory n f b fits le h

longer_lem : (b c : BufferChunk) (q : List BufferChunk) → same_size (b ∷ q) q ≡ false
longer_lem b c [] = refl
longer_lem b c (d ∷ q) = longer_lem d c q

shorter_lem : (f b c : BufferChunk) (q : List BufferChunk) → same_size (f ∷ b ∷ q) (c ∷ q) ≡ false
shorter_lem f b c q = longer_lem b c q

-- The front is still there only if the tests changed nothing.
kept_lem :
    (in_pool : Bool) (q : List BufferChunk)
    → same_size q (pop_front in_pool q) ≡ true
    → hold_empty (drop_consumed (pop_front in_pool q)) ≡ hold_empty q
unfolding pop_front drop_consumed
kept_lem in_pool [] e = refl
kept_lem in_pool (f ∷ []) e = ground arith
kept_lem in_pool (f ∷ b ∷ q) e =
    ground (arith, longer_lem b b q, longer_lem b (move_back f.length b) q)

-- The bytes and the trace after a pop
Popped : Memory → Bool → ℕ → List BufferChunk → Type 0
Popped memory in_pool n q =
    let moved = advance_front n q in
    let popped = pop_front in_pool moved in
    let r = hold_empty (drop_consumed popped) in
    (r ≢ [])
    × AllFit r
    × Traced memory (in_pool && same_size moved popped) r
    × (size r + n ≡ size q)
    × (stream memory q ≡ region memory (front_of q).address n ++ stream memory r)

hold_empty_nonempty : (q : List BufferChunk) → hold_empty q ≢ []
hold_empty_nonempty [] e = cc
hold_empty_nonempty (c ∷ q) e = cc

-- Where the tests keep the front, its trace is kept; else the flag is cleared.
Traced-pop :
    (memory : Memory) (in_pool : Bool) (moved : List BufferChunk)
    → Traced memory in_pool moved
    → moved ≢ []
    → let popped = pop_front in_pool moved in
      Traced memory (in_pool && same_size moved popped) (hold_empty (drop_consumed popped))
unfolding Traced
Traced-pop memory in_pool [] traced h = absurd (h refl)
Traced-pop memory in_pool (f ∷ q) traced h =
    elim (Bool-cases (same_size (f ∷ q) (pop_front in_pool (f ∷ q)))) [
      | inl e ↦ rw (kept_lem in_pool (f ∷ q) e, e, both in_pool) traced
      | inr e ↦ rw (e, neither in_pool) tt
    ]
  where
    both : (b : Bool) → (b && true) ≡ b
    both b = ground arith

    neither : (b : Bool) → (b && false) ≡ false
    neither b = ground arith

popped_lem :
    (memory : Memory) (in_pool : Bool) (n : ℕ) (q : List BufferChunk)
    → q ≢ []
    → AllFit q
    → size q < word
    → n ≤ (front_of q).length
    → Traced memory in_pool q
    → Popped memory in_pool n q
unfolding AllFit stream Popped
popped_lem memory in_pool n [] h all room le traced = absurd (h refl)
popped_lem memory in_pool n (f ∷ q) h all room le traced =
    let moved = advance_lem memory n f all.0 le in
    let traced' = Traced-advance memory in_pool n f q all.0 le traced in
    let tests =
      pop_front_lem memory in_pool (advance n f ∷ q) (moved.0, all.1) (omega (arith, moved.1))
        traced' in
    let left = drop_consumed_lem memory _ tests.0 in
    let held = hold_empty_lem memory _ left.0 in
    (
      hold_empty_nonempty _,
      held.0,
      Traced-pop memory in_pool (advance n f ∷ q) traced' (hold_empty_nonempty (advance n f ∷ q)),
      omega (arith, held.1, left.1, tests.1, moved.1),
      rw (held.2, left.2, tests.2, moved.2, append_assoc) refl,
    )

-- A pop of at most the bytes of the front of a valid accumulator: it stays valid, the count goes down
-- by the bytes, and the queue showed the popped bytes, then what it shows now. With a front from the
-- pool this takes that the next chunk comes behind the front's last bytes in memory, as far back as
-- its buffer reaches, and then it is so after the pop.
pub stream-pop :
    (memory : Memory) (s : BufferAccumulator) (n : ℕ)
    → IsValid s
    → n ≤ (front s).length
    → Traced memory s.in_pool_buffer s.queue
    → IsValid (pop s n)
      × Traced memory (pop s n).in_pool_buffer (pop s n).queue
      × ((pop s n).bytes_available + n ≡ s.bytes_available)
      × (stream memory s.queue ≡ region memory (front s).address n ++ stream memory (pop s n).queue)
unfolding pop Popped
stream-pop memory s n ok le traced =
    let p =
      popped_lem memory s.in_pool_buffer n s.queue ok.nonempty ok.all_fit
        (omega (arith, ok.counted)) le traced in
    (
      record {
        nonempty = p.0;
        all_fit = p.1;
        counted = omega (arith, p.3, ok.counted);
        small = omega arith;
      },
      p.2,
      omega (arith, p.3, ok.counted),
      p.4,
    )
