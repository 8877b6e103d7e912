-- ===== src/Accumulator/Stream.antt =====
-- The bytes that the chunks of lib/Framework/BufferAccumulator.cpp show, in order.
use mathlib.Core.List.{reverse, reverse-cons}
use pothos_core.Base.{
  ℕ, zero, suc, ◌+◌, ◌<◌, ◌≡◌, refl, ap, ◌∙◌, sym, List, [], ◌∷◌, ◌++◌, append-nil, append_assoc,
  length, length-append, word, total, arith,
}
use pothos_core.Buffer.{BufferChunk}
use pothos_core.Accumulator.{Memory}

-- The bytes from an address on
unfoldable pub region : Memory → ℕ → ℕ → List ℕ
region memory a zero = []
region memory a (suc n) = memory a ∷ region memory (suc a) n

abbrev pub bytes : Memory → BufferChunk → List ℕ
bytes memory c = region memory c.address c.length

unfoldable pub stream : Memory → List BufferChunk → List ℕ
stream memory [] = []
stream memory (c ∷ q) = bytes memory c ++ stream memory q

-- The lengths of the chunks together
abbrev pub size : List BufferChunk → ℕ
size = total (λ c. c.length)

-- A chunk lies within the address space.
abbrev pub Fits : BufferChunk → Type 0
Fits c = c.address + c.length < word

unfoldable pub AllFit : List BufferChunk → Type 0
AllFit [] = Unit
AllFit (c ∷ q) = Fits c × AllFit q

pub region-add :
    (memory : Memory) (a n k : ℕ)
    → region memory a (n + k) ≡ region memory a n ++ region memory (a + n) k
unfolding region
region-add memory a zero k =
    let e : 0 + k ≡ k = omega arith in let e' : a + 0 ≡ a = omega arith in rw (e, e') refl
region-add memory a (suc n) k =
    let e : suc n + k ≡ suc (n + k) = omega arith in
    let e' : a + suc n ≡ suc a + n = omega arith in
    rw (e, e') (ap (λ r. memory a ∷ r) (region-add memory (suc a) n k))

pub region_same :
    (memory memory' : Memory) (a b n : ℕ)
    → ((j : ℕ) → j < n → memory (a + j) ≡ memory' (b + j))
    → region memory a n ≡ region memory' b n
unfolding region
region_same memory memory' a b zero h = refl
region_same memory memory' a b (suc n) h =
    let e : a + 0 ≡ a = omega arith in
    let e' : b + 0 ≡ b = omega arith in
    let first : memory a ≡ memory' b = ap memory (sym e) ∙ h 0 (omega arith) ∙ ap memory' e' in
    let rest : region memory (suc a) n ≡ region memory' (suc b) n =
      region_same memory memory' (suc a) (suc b) n (λ j lt. moved j (h (suc j) (omega arith))) in
    rw (first, rest) refl
  where
    moved :
        (j : ℕ)
        → memory (a + suc j) ≡ memory' (b + suc j)
        → memory (suc a + j) ≡ memory' (suc b + j)
    moved j e =
        let p : a + suc j ≡ suc a + j = omega arith in
        let q : b + suc j ≡ suc b + j = omega arith in ap memory (sym p) ∙ e ∙ ap memory' q

pub length-region : (memory : Memory) (a n : ℕ) → length (region memory a n) ≡ n
unfolding region
length-region memory a zero = refl
length-region memory a (suc n) = ap suc (length-region memory (suc a) n)

pub stream-append :
    (memory : Memory) (q r : List BufferChunk)
    → stream memory (q ++ r) ≡ stream memory q ++ stream memory r
unfolding stream
stream-append memory [] r = refl
stream-append memory (c ∷ q) r = rw (stream-append memory q r, append_assoc) refl

pub size-append : (q r : List BufferChunk) → size (q ++ r) ≡ size q + size r
size-append [] r = omega arith
size-append (c ∷ q) r = omega (arith, size-append q r)

pub AllFit-append : (q r : List BufferChunk) → AllFit q → AllFit r → AllFit (q ++ r)
unfolding AllFit
AllFit-append [] r h h' = h'
AllFit-append (c ∷ q) r h h' = (h.0, AllFit-append q r h.1 h')

-- The same on a queue read from its back
pub stream-reverse_cons :
    (memory : Memory) (c : BufferChunk) (q : List BufferChunk)
    → stream memory (reverse (c ∷ q)) ≡ stream memory (reverse q) ++ bytes memory c
unfolding stream
stream-reverse_cons memory c q =
    rw (reverse-cons c q, stream-append memory (reverse q) (c ∷ []), append-nil) refl

pub size-reverse : (q : List BufferChunk) → size (reverse q) ≡ size q
size-reverse [] = refl
size-reverse (c ∷ q) =
    rw (reverse-cons c q) (omega (arith, size-append (reverse q) (c ∷ []), size-reverse q))

pub AllFit-reverse : (q : List BufferChunk) → AllFit q → AllFit (reverse q)
unfolding AllFit
AllFit-reverse [] h = h
AllFit-reverse (c ∷ q) h =
    rw (reverse-cons c q) (AllFit-append (reverse q) (c ∷ []) (AllFit-reverse q h.1) (h.0, tt))

pub length-stream : (memory : Memory) (q : List BufferChunk) → length (stream memory q) ≡ size q
unfolding stream
length-stream memory [] = refl
length-stream memory (c ∷ q) = omega (
  arith,
  length-append (bytes memory c) (stream memory q),
  length-region memory c.address c.length,
  length-stream memory q,
)
