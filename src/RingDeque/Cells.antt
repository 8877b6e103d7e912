-- ===== src/RingDeque/Cells.antt =====
-- The cells of a ring seen from a front index: which elements stand there, in order.
use native.Mathlib.Decide.{dec_lt}
use native.Mathlib.Nat.{mod-add-mod, mod-eq_of_lt, mod-eq-sub-mod, mod-lt}
use pothos_core.Base.{
  ℕ, zero, suc, ◌+◌, ◌-◌, ◌%◌, ◌≤◌, ◌<◌, ◌≡◌, sym, ap, ◌∙◌, subst, ◌≢◌, List, [], ◌∷◌, ◌++◌, Option,
  some, length, get_elem?, set, get_elem?-set_ne, arith,
}

-- Fewer than `m` steps round a ring of `m` cells do not come back.
pub add-mod-ne : (m a d : ℕ) → 0 < d → d < m → (a + d) % m ≢ a % m
add-mod-ne m a d pos small e = elim (dec_lt (a % m + d) m) [
  | yes p ↦ omega (arith, mod-add-mod a m d, mod-eq_of_lt p)
  | no p ↦ omega (
    arith,
    mod-lt a {m = m} (omega arith),
    mod-add-mod a m d,
    mod-eq-sub-mod {n = a % m + d} {m = m} (omega arith),
    mod-eq_of_lt {n = a % m + d - m} {m = m} (omega (arith, mod-lt a {m = m} (omega arith))),
  )
]

pub suc-mod_congr : (m a b : ℕ) → a % m ≡ b % m → suc a % m ≡ suc b % m
suc-mod_congr m a b e =
    ap (λ t. t % m) (omega arith)
    ∙ sym (mod-add-mod a m 1)
    ∙ ap (λ t. (t + 1) % m) e
    ∙ mod-add-mod b m 1
    ∙ ap (λ t. t % m) (omega arith)

module _ {ℓ} {A : Type ℓ} where
  -- The cells from index `f` on, going round at `m`, hold the elements of the list.
  abbrev pub Holds : List (Option A) → ℕ → ℕ → List A → Type ℓ
  Holds cells m f [] = Unit
  Holds cells m f (x ∷ xs) = (get_elem? cells (f % m) ≡ some (some x)) × Holds cells m (suc f) xs

  -- Only the index modulo `m` matters.
  pub Holds-congr :
      (cells : List (Option A)) (m f g : ℕ) (xs : List A)
      → f % m ≡ g % m
      → Holds cells m f xs
      → Holds cells m g xs
  Holds-congr cells m f g [] e h = tt
  Holds-congr cells m f g (x ∷ xs) e h = (
    ap (get_elem? cells) (sym e) ∙ h.0,
    Holds-congr cells m (suc f) (suc g) xs (suc-mod_congr m f g e) h.1,
  )

  -- A write at or behind the end of the elements leaves them alone.
  pub Holds-set :
      (cells : List (Option A)) (m f n : ℕ) (xs : List A) (c : Option A)
      → length xs ≤ n
      → n < m
      → Holds cells m f xs
      → Holds (set cells ((f + n) % m) c) m f xs
  Holds-set cells m f n [] c p q h = tt
  Holds-set cells m f zero (x ∷ xs) c p q h = absurd (omega arith)
  Holds-set cells m f (suc n) (x ∷ xs) c p q h = (
    get_elem?-set_ne cells c (add-mod-ne m f (suc n) (omega arith) q) ∙ h.0,
    subst (λ i. Holds (set cells (i % m) c) m (suc f) xs) {x = suc f + n} {y = f + suc n}
        (omega arith) (Holds-set cells m (suc f) n xs c (omega arith) (omega arith) h.1),
  )

  pub Holds-snoc :
      (cells : List (Option A)) (m f : ℕ) (xs : List A) (x : A)
      → Holds cells m f xs
      → get_elem? cells ((f + length xs) % m) ≡ some (some x)
      → Holds cells m f (xs ++ x ∷ [])
  Holds-snoc cells m f [] x h e = (ap (λ i. get_elem? cells (i % m)) (omega arith) ∙ e, tt)
  Holds-snoc cells m f (y ∷ ys) x h e = (
    h.0,
    Holds-snoc cells m (suc f) ys x h.1 (ap (λ i. get_elem? cells (i % m)) (omega arith) ∙ e),
  )

  pub Holds-init :
      (cells : List (Option A)) (m f : ℕ) (xs ys : List A)
      → Holds cells m f (xs ++ ys)
      → Holds cells m f xs
  Holds-init cells m f [] ys h = tt
  Holds-init cells m f (x ∷ xs) ys h = (h.0, Holds-init cells m (suc f) xs ys h.1)

  pub Holds-get :
      (cells : List (Option A)) (m f i : ℕ) (xs : List A) {x : A}
      → Holds cells m f xs
      → get_elem? xs i ≡ some x
      → get_elem? cells ((f + i) % m) ≡ some (some x)
  Holds-get cells m f i [] h e = cc
  Holds-get cells m f zero (y ∷ ys) h e =
      ap (λ j. get_elem? cells (j % m)) (omega arith) ∙ h.0 ∙ ap some e
  Holds-get cells m f (suc i) (y ∷ ys) h e =
      ap (λ j. get_elem? cells (j % m)) (omega arith) ∙ Holds-get cells m (suc f) i ys h.1 e
