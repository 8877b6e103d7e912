-- ===== src/Port/Bounded.antt =====
-- The queue of a port: it grows up to its bound, and is cleared when more comes.
use pothos_core.Base.{
  ℕ, suc, ◌^◌, ◌*◌, ◌≤◌, ◌<◌, ◌≡◌, refl, ◌∙◌, subst, some, ◌==◌, if◌then◌else◌, List, [], ◌∷◌, ◌++◌,
  length, arith, pow_double, pow_pos,
}
use native.Mathlib.Nat.{pow-le-pow_right}
use native.Mathlib.Decide.{dec_lt}
use pothos_core.RingDeque.{RingDeque}
use pothos_core.RingDeque.Rep.{Represents}
use pothos_core.RingDeque.Ends.{pushed_back, push_back-eq, push_back-Represents}
use pothos_core.RingDeque.Moves.{clear_lem, set_capacity_lem}
use pothos_core.Buffer.{BufferChunk}
use pothos_core.Port.{max_queue_capacity, make_room, push_bounded}

doublings_le : (d : ℕ) → d ≤ 10 → 2 ^ d ≤ 1024
doublings_le d h = pow-le-pow_right {n = 2} (omega arith) h

doublings_lt : (d : ℕ) → 2 ^ d < 1024 → d < 10
doublings_lt d h = elim (dec_lt d 10) [
  | yes lt ↦ lt
  | no ge ↦ omega (arith, h, pow-le-pow_right {n = 2} (omega arith) {i = 10} {j = d} (omega arith))
]

module _ {ℓ} {M : Type ℓ} where
  -- The queue holds `xs`; its capacity is a power of 2 up to the bound.
  pub record Bounded (q : RingDeque (M × BufferChunk)) (xs : List (M × BufferChunk)) : Type ℓ where
    pub ring : Represents q xs
    pub doublings : ℕ
    pub few : doublings ≤ 10
    pub capacity_eq : q.capacity ≡ 2 ^ doublings

  -- what a queue with these elements holds after one more
  abbrev pub received : List (M × BufferChunk) → M × BufferChunk → List (M × BufferChunk)
  received xs x = if length xs == max_queue_capacity then x ∷ [] else xs ++ x ∷ []

  -- what is there to push on
  make_room_lem :
      (q : RingDeque (M × BufferChunk)) (xs : List (M × BufferChunk))
      → Bounded q xs
      → (q' : RingDeque (M × BufferChunk)) × (ys : List (M × BufferChunk)) × (make_room q
          ≡ some (q', length xs == max_queue_capacity))
        × Bounded q' ys
        × (length ys < q'.capacity)
        × ((x : M × BufferChunk) → ys ++ x ∷ [] ≡ received xs x)
  unfolding make_room
  make_room_lem q xs b = elim (dec_lt (length xs) q.capacity) [
    | yes roomy ↦ (q, xs, roomy_lem roomy, b, roomy, λ x. ground (arith, roomy_lem roomy, below))
    | no full ↦ elim (dec_lt (length xs) 1024) [
      | yes small ↦
          let d : b.doublings < 10 = doublings_lt b.doublings (omega (arith, b.capacity_eq)) in
          let (q', ran, v, cap) =
            set_capacity_lem q xs (2 * q.capacity) b.ring (omega (arith, b.ring.count_fits))
              (omega (arith, b.capacity_eq, pow_pos b.doublings))
              (omega (arith, b.capacity_eq, below)) in
          (
            q',
            xs,
            ground (arith, b.ring.count, ran, below),
            record {
              ring = v;
              doublings = suc b.doublings;
              few = omega arith;
              capacity_eq = omega (arith, cap, b.capacity_eq, pow_double b.doublings);
            },
            omega (arith, b.ring.count_fits, cap, b.capacity_eq, pow_pos b.doublings),
            λ x. ground arith,
          )
      | no large ↦
          let (q', ran, v, cap) = clear_lem q xs b.ring in
          (
            q',
            [],
            ground (arith, b.ring.count, ran, below),
            record {
              ring = v;
              doublings = b.doublings;
              few = b.few;
              capacity_eq = cap ∙ b.capacity_eq;
            },
            omega (arith, cap, b.capacity_eq, pow_pos b.doublings),
            λ x. ground (arith, below, b.ring.count_fits),
          )
    ]
  ]
    where
      below : q.capacity ≤ 1024
      below = omega (arith, b.capacity_eq, doublings_le b.doublings b.few)

      roomy_lem : length xs < q.capacity → make_room q ≡ some (q, length xs == max_queue_capacity)
      roomy_lem roomy = ground (arith, below, b.ring.count)

  -- A push on a port's queue always succeeds. A queue with less than 1024 elements keeps them and
  -- has the new one last; one with 1024 is cleared, which is reported, and has the new one alone.
  pub push_bounded_lem :
      (q : RingDeque (M × BufferChunk)) (xs : List (M × BufferChunk)) (m : M) (token : BufferChunk)
      → Bounded q xs
      → (q' : RingDeque (M × BufferChunk)) × (push_bounded q m token
          ≡ some (q', length xs == max_queue_capacity))
        × Bounded q' (received xs (m, token))
  unfolding push_bounded
  push_bounded_lem q xs m token b =
      let (q', ys, room, b', lt, e) = make_room_lem q xs b in
      (
        pushed_back q' (length ys) (m, token),
        rw (room, push_back-eq b'.ring (m, token) lt) refl,
        record {
          ring = subst (Represents _) (e (m, token)) (push_back-Represents b'.ring (m, token) lt);
          doublings = b'.doublings;
          few = b'.few;
          capacity_eq = b'.capacity_eq;
        },
      )
