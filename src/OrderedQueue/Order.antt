-- ===== src/OrderedQueue/Order.antt =====
-- Indices that go round below `n`, and lists of elements whose indices follow one another.
use pothos_core.Base.{
  ℕ, suc, ◌+◌, ◌-◌, ◌≤◌, ◌<◌, ◌≡◌, sym, subst, ◌∙◌, ◌≢◌, List, [], ◌∷◌, ◌++◌, ltb, leb, ◌==◌,
  if◌then◌else◌, length, arith,
}

-- the index after `i`, as `_wrapIndex` computes it
abbrev pub next : ℕ → ℕ → ℕ
next n i = if suc i == n then 0 else suc i

-- `j` indices after `i`, for `j ≤ n`
abbrev pub turn : ℕ → ℕ → ℕ → ℕ
turn n i j = if ltb (i + j) n then i + j else i + j - n

-- how many indices `i` comes after `s`
abbrev pub ahead : ℕ → ℕ → ℕ → ℕ
ahead n s i = if leb s i then i - s else i + n - s

pub turn-next : (n s j : ℕ) → s < n → suc j ≤ n → turn n (next n s) j ≡ turn n s (suc j)
turn-next n s j h p = ground arith

pub turn-suc : (n s j : ℕ) → s < n → j < n → next n (turn n s j) ≡ turn n s (suc j)
turn-suc n s j h p = ground arith

pub turn-zero : (n s : ℕ) → s < n → turn n s 0 ≡ s
turn-zero n s h = ground arith

pub turn-lt : (n s j : ℕ) → s < n → j ≤ n → turn n s j < n
turn-lt n s j h p = ground arith

pub ahead-next : (n s i : ℕ) → s < n → i < n → s ≢ i → ahead n s i ≡ suc (ahead n (next n s) i)
ahead-next n s i h p ne = ground arith

-- Only one index is `j` after `s`.
pub ahead-turn : (n s i : ℕ) → s < n → i < n → turn n s (ahead n s i) ≡ i
ahead-turn n s i h p = ground arith

module _ {ℓ} {A : Type ℓ} (slot : A → ℕ) (n : ℕ) where
  -- The elements have the indices `s`, `next n s`, and so on.
  abbrev pub InOrder : ℕ → List A → Type 0
  InOrder s [] = Unit
  InOrder s (x ∷ xs) = (slot x ≡ s) × InOrder (next n s) xs

  -- No element of the list has the index.
  abbrev pub Lacks : ℕ → List A → Type 0
  Lacks i [] = Unit
  Lacks i (x ∷ xs) = (slot x ≢ i) × Lacks i xs

  pub InOrder-snoc :
      (s : ℕ) (xs : List A) (x : A)
      → s < n
      → length xs < n
      → InOrder s xs
      → slot x ≡ turn n s (length xs)
      → InOrder s (xs ++ x ∷ [])
  InOrder-snoc s [] x h room o e = (e ∙ turn-zero n s h, tt)
  InOrder-snoc s (y ∷ ys) x h room o e = (
    o.0,
    InOrder-snoc (next n s) ys x (ground arith) (omega arith) o.1
        (e ∙ sym (turn-next n s (length ys) h (omega arith))),
  )

  -- An index that the run lacks comes after it.
  pub ahead-ge :
      (s i : ℕ) (xs : List A)
      → s < n
      → i < n
      → length xs ≤ n
      → InOrder s xs
      → Lacks i xs
      → length xs ≤ ahead n s i
  ahead-ge s i [] h p fits o l = omega arith
  ahead-ge s i (x ∷ xs) h p fits o l = omega (
    arith,
    ahead-next n s i h p (λ e. l.0 (o.0 ∙ e)),
    ahead-ge (next n s) i xs (ground arith) p (omega arith) o.1 l.1,
  )

  -- A run that does not go round lacks every index from its end on.
  pub InOrder-Lacks :
      (s i : ℕ) (xs : List A) → s + length xs ≤ i → i < n → InOrder s xs → Lacks i xs
  InOrder-Lacks s i [] h p o = tt
  InOrder-Lacks s i (x ∷ xs) h p o = (
    λ e. omega (arith, o.0, e),
    InOrder-Lacks (suc s) i xs (omega arith) p
        (subst (λ t. InOrder t xs) {x = next n s} {y = suc s} (ground arith) o.1),
  )
