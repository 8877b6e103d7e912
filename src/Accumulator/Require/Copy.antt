-- ===== src/Accumulator/Require/Copy.antt =====
-- The `memcpy` loop of `require` of lib/Framework/BufferAccumulator.cpp.
use pothos_core.Base.{
  ℕ, ◌+◌, ◌-◌, ◌≤◌, ◌<◌, ◌≡◌, ◌⊎◌, inl, inr, refl, ap, ◌∙◌, ◌==◌, List, [], ◌∷◌, ◌++◌, append_assoc,
  word, arith, Bool-cases, add_size, min,
}
use pothos_core.Buffer.{BufferChunk}
use pothos_core.Accumulator.{Memory, memcpy, copy_queue, advance}
use pothos_core.Accumulator.Stream.{
  region, bytes, stream, size, Fits, AllFit, region-add, region_same,
}
use pothos_core.Accumulator.Pop.{advance_lem}

pub memcpy_in :
    (memory : Memory) (target source n j : ℕ)
    → j < n
    → memcpy memory target source n (target + j) ≡ memory (source + j)
memcpy_in memory target source n j lt =
    let e : target + j - target ≡ j = omega arith in ground (arith, ap (λ i. memory (source + i)) e)

pub memcpy_out :
    (memory : Memory) (target source n a : ℕ)
    → (a < target) ⊎ (target + n ≤ a)
    → memcpy memory target source n a ≡ memory a
memcpy_out memory target source n a out = ground arith

-- A chunk and a region have no byte in common.
abbrev pub Apart : ℕ → ℕ → BufferChunk → Type 0
Apart target n c = (c.address + c.length ≤ target) ⊎ (target + n ≤ c.address)

unfoldable pub AllApart : ℕ → ℕ → List BufferChunk → Type 0
AllApart target n [] = Unit
AllApart target n (c ∷ q) = Apart target n c × AllApart target n q

-- What a copy beside a chunk leaves of it
bytes-memcpy :
    (memory : Memory) (target source n : ℕ) (c : BufferChunk)
    → Apart target n c
    → bytes (memcpy memory target source n) c ≡ bytes memory c
bytes-memcpy memory target source n c apart =
    region_same (memcpy memory target source n) memory c.address c.address c.length
      (λ j lt. memcpy_out memory target source n (c.address + j) (ground arith))

stream-memcpy :
    (memory : Memory) (target source n : ℕ) (q : List BufferChunk)
    → AllApart target n q
    → stream (memcpy memory target source n) q ≡ stream memory q
unfolding AllApart stream
stream-memcpy memory target source n [] apart = refl
stream-memcpy memory target source n (c ∷ q) apart =
    rw
      (
        bytes-memcpy memory target source n c apart.0,
        stream-memcpy memory target source n q apart.1,
      )
      refl

-- A part of the region is apart from what the region is apart from.
pub AllApart-within :
    (target n target' n' : ℕ) (q : List BufferChunk)
    → target ≤ target'
    → target' + n' ≤ target + n
    → AllApart target n q
    → AllApart target' n' q
unfolding AllApart
AllApart-within target n target' n' [] le le' apart = tt
AllApart-within target n target' n' (c ∷ q) le le' apart =
    (ground arith, AllApart-within target n target' n' q le le' apart.1)

-- The new buffer after one copy
grown_lem :
    (memory : Memory) (b : BufferChunk) (source n : ℕ)
    → b.address + b.length + n < word
    → let b' = record b { length = add_size b.length n } in
      let memory' = memcpy memory (add_size b.address b.length) source n in
      Fits b'
      × (b'.length ≡ b.length + n)
      × (bytes memory' b' ≡ bytes memory b ++ region memory source n)
grown_lem memory b source n room =
    let target = b.address + b.length in
    let e : add_size b.address b.length ≡ target = omega arith in
    let e1 : add_size b.length n ≡ b.length + n = omega arith in
    let old = bytes-memcpy memory target source n b (inl (omega arith)) in
    let new =
      region_same (memcpy memory target source n) memory target source n
        (λ j lt. memcpy_in memory target source n j lt) in
    (omega arith, e1, rw (e, e1, region-add _ b.address b.length n, old, new) refl)

-- What the loop makes of the queue: the bytes stay, and as many as have room are in the new buffer.
unfoldable pub Copied :
    Memory → ℕ → BufferChunk → List BufferChunk → Memory × BufferChunk × List BufferChunk → Type 0
Copied memory room b q (memory', b', rest) =
    AllFit (b' ∷ rest)
    × (b'.length ≡ b.length + min room (size q))
    × (size (b' ∷ rest) ≡ b.length + size q)
    × (stream memory' (b' ∷ rest) ≡ bytes memory b ++ stream memory q)

-- One turn of the loop
abbrev pub copied_memory : Memory → BufferChunk → BufferChunk → ℕ → Memory
copied_memory memory b f n = memcpy memory (add_size b.address b.length) f.address n

abbrev pub grown : BufferChunk → ℕ → BufferChunk
grown b n = record b { length = add_size b.length n }

-- A turn that drains the chunk
drained_lem :
    (memory : Memory) (room : ℕ) (b f : BufferChunk) (q : List BufferChunk) (n : ℕ) (r : _)
    → b.address + b.length + room < word
    → n ≡ f.length
    → n ≤ room
    → AllApart (b.address + b.length) room (f ∷ q)
    → Copied (copied_memory memory b f n) (room - n) (grown b n) q r
    → Copied memory room b (f ∷ q) r
unfolding Copied AllApart stream
drained_lem memory room b f q n r fits e le apart c =
    let g = grown_lem memory b f.address n (omega arith) in
    let target : add_size b.address b.length ≡ b.address + b.length = omega arith in
    let apart' =
      AllApart-within (b.address + b.length) room (b.address + b.length) n q (omega arith)
        (omega arith) apart.1 in
    let same = stream-memcpy memory (b.address + b.length) f.address n q apart' in
    (
      c.0,
      omega (arith, c.1, g.1),
      omega (arith, c.2, g.1),
      rw (c.3, g.2, target, same, e, append_assoc) refl,
    )

-- A turn that copies a part of the chunk
partial_lem :
    (memory : Memory) (room : ℕ) (b f : BufferChunk) (q : List BufferChunk)
    → b.address + b.length + room < word
    → room < f.length
    → AllFit (f ∷ q)
    → AllApart (b.address + b.length) room (f ∷ q)
    → Copied memory room b (f ∷ q) (copied_memory memory b f room, grown b room, advance room f ∷ q)
unfolding Copied AllApart AllFit stream
partial_lem memory room b f q fits lt all apart =
    let g = grown_lem memory b f.address room (omega arith) in
    let a = advance_lem memory room f all.0 (omega arith) in
    let target : add_size b.address b.length ≡ b.address + b.length = omega arith in
    let rest_same : stream (copied_memory memory b f room) (advance room f ∷ q)
        ≡ stream memory (advance room f ∷ q) =
      ap (λ t. stream (memcpy memory t f.address room) (advance room f ∷ q)) target
      ∙ stream-memcpy memory (b.address + b.length) f.address room (advance room f ∷ q)
          (ground (arith, a.0), apart.1) in
    let pieces : region memory f.address room ++ stream memory (advance room f ∷ q)
        ≡ stream memory (f ∷ q) =
      rw (a.2, append_assoc) refl in
    (
      (g.0, (a.0, all.1)),
      omega (arith, g.1),
      omega (arith, g.1, a.1),
      ap (λ r. r ++ stream (copied_memory memory b f room) (advance room f ∷ q)) g.2
          ∙ append_assoc (bytes memory b) _ _
          ∙ ap (λ r. bytes memory b ++ (region memory f.address room ++ r)) rest_same
          ∙ ap (λ r. bytes memory b ++ r) pieces,
    )

Copied-nil :
    (memory : Memory) (room : ℕ) (b : BufferChunk)
    → b.address + b.length + room < word
    → Copied memory room b [] (memory, b, [])
unfolding Copied AllFit region stream
Copied-nil memory room b fits = ((omega arith, tt), omega arith, omega arith, refl)

pub copy_queue_lem :
    (memory : Memory) (room : ℕ) (b : BufferChunk) (q : List BufferChunk)
    → b.address + b.length + room < word
    → AllFit q
    → AllApart (b.address + b.length) room q
    → Copied memory room b q (copy_queue memory room b q)
unfolding copy_queue AllFit AllApart
copy_queue_lem memory room b [] fits all apart = Copied-nil memory room b fits
copy_queue_lem memory room b (f ∷ q) fits all apart =
    let n = min room f.length in
    elim (Bool-cases (f.length == n)) [
      | inl e ↦
          let whole : f.length ≤ room = ground arith in
          let apart' =
            AllApart-within (b.address + b.length) room (b.address + add_size b.length n) (room - n)
              q (omega arith) (omega arith) apart.1 in
          rw e (
            drained_lem memory room b f q n _ fits (omega arith) (omega arith) apart (
              copy_queue_lem (copied_memory memory b f n) (room - n) (grown b n) q (omega arith)
                all.1 apart'))
      | inr e ↦
          let part : room < f.length = ground arith in
          let e' : n ≡ room = omega arith in
          rw (e, e') (partial_lem memory room b f q fits part all apart)
    ]
