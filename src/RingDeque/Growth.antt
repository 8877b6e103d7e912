-- ===== src/RingDeque/Growth.antt =====
-- `Detail::nextPow2` and the constructor of RingDeque.hpp.
use native.Mathlib.Decide.{dec_lt}
use native.Mathlib.Nat.{pow-le-pow_right}
use pothos_core.Base.{
  ℕ, zero, suc, ◌+◌, ◌-◌, ◌*◌, ◌^◌, ◌≤◌, ◌<◌, ◌≡◌, refl, subst, ◌⊎◌, inl, inr, [], none, some,
  Bool-cases, ltb, ltb→lt, ltb→ge, lt→ltb, replicate, length-replicate, pow_pos, pow_double,
  mul_size, arith,
}
use pothos_core.RingDeque.{RingDeque, next_pow2_loop, next_pow2, make}
use pothos_core.RingDeque.Rep.{Represents}

-- The least power of two that is not below a number.
pub record IsNextPow (c k : ℕ) : Type 0 where
  pub small : k ≤ 63
  pub fits : c ≤ 2 ^ k
  pub least : (k ≡ 0) ⊎ (2 ^ k < 2 * c)

pow_le : (j k : ℕ) → j ≤ k → 2 ^ j ≤ 2 ^ k
pow_le j k h = pow-le-pow_right {n = 2} (omega arith) h

lt_of_pow_lt : (j k : ℕ) → 2 ^ j < 2 ^ k → j < k
lt_of_pow_lt j k h = elim (dec_lt j k) [
  | yes p ↦ p
  | no p ↦ absurd (omega (arith, pow_le k j (omega arith)))
]

mul_size_pow : (j : ℕ) → j ≤ 62 → mul_size (2 ^ j) 2 ≡ 2 ^ suc j
mul_size_pow j h = omega (arith, pow_double j, pow_le (suc j) 63 (omega arith))

next_pow2_loop_lem :
    (fuel c j : ℕ)
    → c ≤ 2 ^ 63
    → 64 ≤ fuel + j
    → j ≤ 63
    → (j ≡ 0) ⊎ (2 ^ j < 2 * c)
    → (k : ℕ) × (next_pow2_loop fuel c (2 ^ j) ≡ some (2 ^ k)) × IsNextPow c k
unfolding next_pow2_loop
next_pow2_loop_lem zero c j small enough p least = absurd (omega arith)
next_pow2_loop_lem (suc fuel) c j small enough p least = elim (Bool-cases (ltb (2 ^ j) c)) [
  | inl more ↦
      let lt : 2 ^ j < c = ltb→lt (2 ^ j) c more in
      let j_small : j < 63 = lt_of_pow_lt j 63 (omega arith) in
      rw (more, mul_size_pow j (omega arith))
        (next_pow2_loop_lem fuel c (suc j) small (omega arith) (omega arith)
          (inr (omega (arith, pow_double j))))
  | inr done ↦ (j, rw done, record { small = p; fits = ltb→ge (2 ^ j) c done; least = least })
]

-- For a capacity up to 2 ^ 63 the loop of `nextPow2` ends, with the least power of two that fits.
pub next_pow2_lem : (c : ℕ) → c ≤ 2 ^ 63 → (k : ℕ) × (next_pow2 c ≡ some (2 ^ k)) × IsNextPow c k
unfolding next_pow2
next_pow2_lem c h = next_pow2_loop_lem 65 c 0 h (omega arith) (omega arith) (inl refl)

loop_from_zero : (fuel c : ℕ) → 0 < c → next_pow2_loop fuel c 0 ≡ none
unfolding next_pow2_loop
loop_from_zero zero c h = refl
loop_from_zero (suc fuel) c h = rw (lt→ltb 0 c h) (loop_from_zero fuel c h)

-- For a larger capacity it never ends, whatever the number of rounds: the power wraps to 0.
pub next_pow2_loop_diverges :
    (fuel c j : ℕ) → 2 ^ 63 < c → j ≤ 63 → next_pow2_loop fuel c (2 ^ j) ≡ none
unfolding next_pow2_loop
next_pow2_loop_diverges zero c j large p = refl
next_pow2_loop_diverges (suc fuel) c j large p =
    rw (lt→ltb (2 ^ j) c (omega (arith, pow_le j 63 p))) (elim (dec_lt j 63) [
      | yes q ↦
          rw (mul_size_pow j (omega arith))
            (next_pow2_loop_diverges fuel c (suc j) large (omega arith))
      | no q ↦
          let wraps : mul_size (2 ^ j) 2 ≡ 0 =
            subst (λ e. mul_size (2 ^ e) 2 ≡ 0) {x = 63} {y = j} (omega arith) refl in
          rw wraps (loop_from_zero fuel c (omega arith))
    ])

pub next_pow2_diverges : (c : ℕ) → 2 ^ 63 < c → next_pow2 c ≡ none
unfolding next_pow2
next_pow2_diverges c h = next_pow2_loop_diverges 65 c 0 h (omega arith)

module _ {ℓ} {A : Type ℓ} where
  abbrev pub fresh : ℕ → ℕ → RingDeque A
  fresh mask cap = record {
    mask = mask;
    capacity = cap;
    front_index = 0;
    num_elements = 0;
    container = replicate (mask + 1) none;
  }

  -- An empty ring of the least power of two of cells.
  pub fresh-Represents :
      (c k mask : ℕ) → IsNextPow c k → c ≤ 2 ^ 63 → mask + 1 ≡ 2 ^ k → Represents (fresh mask c) []
  fresh-Represents c k mask p h e = record {
    bits = k;
    bits_small = p.small;
    mask_eq = e;
    storage = length-replicate (mask + 1) none;
    capacity_fits = omega (arith, p.fits);
    mask_small = omega (arith, pow_le k 63 p.small);
    count = refl;
    count_fits = omega arith;
    front_word = omega arith;
    cells = tt;
  }

  pub make_lem :
      (c : ℕ)
      → 0 < c
      → c ≤ 2 ^ 63
      → (r : RingDeque A) × (make c ≡ some r) × Represents r [] × (r.capacity ≡ c)
  unfolding make
  make_lem c pos h =
      let (k, found, p) = next_pow2_lem c h in
      let mask : ℕ = 2 ^ k - 1 in
      (
        fresh mask c,
        ground (arith, found, pow_pos k, pow_le k 63 p.small),
        fresh-Represents c k mask p h (omega (arith, pow_pos k)),
        refl,
      )

  -- The constructor refuses a capacity of 0.
  pub make-zero : make {A = A} 0 ≡ none
  unfolding make next_pow2 next_pow2_loop
  make-zero = refl

  -- The constructor does not return for a capacity above 2 ^ 63.
  pub make_diverges : (c : ℕ) → 2 ^ 63 < c → make {A = A} c ≡ none
  unfolding make
  make_diverges c h = rw (next_pow2_diverges c h)
