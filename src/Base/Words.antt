-- ===== src/Base/Words.antt =====
-- `size_t` (64 bits): wrap-around arithmetic, and masks by a power of two.
use Prim.Native.Nat.{
  ℕ, zero, suc, ◌+◌, ◌*◌, ◌-◌, ◌/◌, ◌%◌, ◌^◌, ◌≤◌, ◌<◌, ◌∣◌, min, bit_and, digits, bit_and-bitwise,
}
use mathlib.Core.Path.{◌≡◌, refl, ◌∙◌, ap, subst}
use native.Mathlib.Nat.{
  mod-mod_of_dvd, dvd-mul_left_of_dvd, pow-suc, one-le-pow, dvd_refl, zero-add, suc-add, mod-lt,
  mod-eq_of_lt, mul-add-mod_self_left, div-add-mod,
}
use native.Mathlib.Omega.{arith}

abbrev pub word : ℕ
word = 2 ^ 64

-- `a + b`, `a - b` and `a << 1` on `size_t`
abbrev pub add_size : ℕ → ℕ → ℕ
add_size a b = (a + b) % word

abbrev pub sub_size : ℕ → ℕ → ℕ
sub_size a b = (a + word - b) % word

abbrev pub mul_size : ℕ → ℕ → ℕ
mul_size a b = (a * b) % word

pub pow_pos : (k : ℕ) → 0 < 2 ^ k
pow_pos k = one-le-pow k 2 (omega arith)

pub pow_double : (k : ℕ) → 2 ^ suc k ≡ 2 * 2 ^ k
pow_double k = omega (arith, pow-suc 2 k)

mod_double : (x m : ℕ) → 0 < m → x % (2 * m) ≡ x / 2 % m * 2 + x % 2
mod_double x m h =
    let split : x ≡ 2 * m * (x / 2 / m) + (x / 2 % m * 2 + x % 2) =
      omega (arith, ap (λ (t : ℕ). 2 * t) (div-add-mod (x / 2) m)) in
    ap (λ t. t % (2 * m)) split
    ∙ mul-add-mod_self_left (2 * m) (x / 2 / m) (x / 2 % m * 2 + x % 2)
    ∙ mod-eq_of_lt (omega (arith, mod-lt (x / 2) h))

-- The digits of `x & m`, where `m` is `k` ones: a pass over the digits of `x`.
masked_digits : (n k x m : ℕ) → x ≤ n → m + 1 ≡ 2 ^ k → digits (λ _. zero) min n x m ≡ x % (m + 1)
masked_digits zero k zero m p h = omega arith
masked_digits zero k (suc x) m p h = absurd (omega arith)
masked_digits (suc n) k zero m p h = omega arith
masked_digits (suc n) zero (suc x) m p h =
    let e : m ≡ 0 = omega arith in
    rw e (omega (arith, masked_digits n 0 (suc x / 2) 0 (omega arith) refl))
masked_digits (suc n) (suc k) (suc x) m p h = omega (
  arith,
  masked_digits n k (suc x / 2) (m / 2) (omega arith) (omega (arith, pow_double k, pow_pos k)),
  mod_double (suc x) (m / 2 + 1) (omega arith),
  ap (λ (t : ℕ). suc x % t) m_eq,
  m_eq,
)
  where
    m_eq : m + 1 ≡ 2 * (m / 2 + 1)
    m_eq = omega (arith, pow_double k, pow_pos k)

-- A mask of `k` ones keeps the remainder by `2 ^ k`.
pub bit_and_mask : (k x m : ℕ) → m + 1 ≡ 2 ^ k → bit_and x m ≡ x % (m + 1)
bit_and_mask k x m h = bit_and-bitwise x m ∙ masked_digits x k x m (omega arith) h

pow-dvd-pow : (k j : ℕ) → 2 ^ k ∣ 2 ^ (j + k)
pow-dvd-pow k zero = rw zero-add (dvd_refl (2 ^ k))
pow-dvd-pow k (suc j) =
    rw (suc-add, pow_double (j + k)) (dvd-mul_left_of_dvd (2 ^ k) (pow-dvd-pow k j) 2)

-- Wrapping at 64 bits is not seen under a smaller mask.
pub pow-dvd_word : (k : ℕ) → k ≤ 64 → 2 ^ k ∣ word
pow-dvd_word k h =
    subst (λ e. 2 ^ k ∣ 2 ^ e) {x = 64 - k + k} {y = 64} (omega arith) (pow-dvd-pow k (64 - k))

pub mod_word_mod : (k x : ℕ) → k ≤ 64 → x % word % 2 ^ k ≡ x % 2 ^ k
mod_word_mod k x h = mod-mod_of_dvd (2 ^ k) x (pow-dvd_word k h)
