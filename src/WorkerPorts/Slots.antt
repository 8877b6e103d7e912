-- ===== src/WorkerPorts/Slots.antt =====
-- The list of the indexed ports: an entry installed, cleared, and the end stripped.
use native.Mathlib.Decide.{ℕ_discrete}
use pothos_core.Base.{
  List, [], ◌∷◌, ◌++◌, true, false, Option, none, some, ℕ, zero, suc, ◌-◌, ltb, length, get_elem?,
  set, replicate, length-append, length-replicate, get_elem?-set_self, get_elem?-set_ne, ◌≡◌, ◌≢◌,
  ap, sym, refl, ◌≤◌, inl, inr, Bool-cases, ltb→lt, ltb→ge, get_elem?-lt_length, ◌∙◌, arith,
  if◌then◌else◌,
}
use pothos_core.WorkerPorts.{PortName, index, no_index, throws, NameIndex, install, strip, clear_at}

get_elem?-append_left :
    (xs ys : List (Option PortName)) (i : ℕ) {v : Option PortName}
    → get_elem? xs i ≡ some v
    → get_elem? (xs ++ ys) i ≡ some v
get_elem?-append_left [] ys i h = cc
get_elem?-append_left (x ∷ xs) ys zero h = h
get_elem?-append_left (x ∷ xs) ys (suc i) h = get_elem?-append_left xs ys i h

pub get_elem?-install_self :
    (i : ℕ) (n : PortName) (slots : List (Option PortName))
    → get_elem? (install i n slots) i ≡ some (some n)
get_elem?-install_self i n slots =
    get_elem?-set_self (slots ++ replicate (suc i - length slots) none) i (some n) (
      omega (
        arith,
        length-append slots (replicate (suc i - length slots) none),
        length-replicate {A = Option PortName} (suc i - length slots) none,
      ))

pub get_elem?-install_ne :
    (i j : ℕ) (n : PortName) (slots : List (Option PortName)) {v : Option PortName}
    → i ≢ j
    → get_elem? slots j ≡ some v
    → get_elem? (install i n slots) j ≡ some v
get_elem?-install_ne i j n slots d h =
    get_elem?-set_ne (slots ++ replicate (suc i - length slots) none) (some n) d
    ∙ get_elem?-append_left slots (replicate (suc i - length slots) none) j h

strip_cons :
    (x : Option PortName) (xs : List (Option PortName)) (i : ℕ) {n : PortName}
    → get_elem? (x ∷ strip xs) i ≡ some (some n)
    → get_elem? (strip (x ∷ xs)) i ≡ some (some n)
unfolding strip
strip_cons x xs i {n} h = go (strip xs) h
  where
    go :
        (ys : List (Option PortName))
        → get_elem? (x ∷ ys) i ≡ some (some n)
        → get_elem?
            (elim ys [ [] ↦ elim x [ none ↦ [] | some n ↦ some n ∷ [] ] | y ∷ ys ↦ x ∷ y ∷ ys ])
            i
          ≡ some (some n)
    go [] h = alone x i h
      where
        alone :
            (x : Option PortName) (i : ℕ)
            → get_elem? (x ∷ []) i ≡ some (some n)
            → get_elem? (elim x [ none ↦ [] | some n ↦ some n ∷ [] ]) i ≡ some (some n)
        alone none zero h = cc
        alone none (suc i) h = cc
        alone (some m) i h = h
    go (y ∷ ys) h = h

pub get_elem?-strip :
    (xs : List (Option PortName)) (i : ℕ) {n : PortName}
    → get_elem? xs i ≡ some (some n)
    → get_elem? (strip xs) i ≡ some (some n)
get_elem?-strip [] i h = cc
get_elem?-strip (x ∷ xs) zero h = strip_cons x xs zero h
get_elem?-strip (x ∷ xs) (suc i) h = strip_cons x xs (suc i) (get_elem?-strip xs i h)

pub get_elem?-clear_at :
    (k : NameIndex) (j : ℕ) (slots : List (Option PortName)) {v : Option PortName}
    → k ≢ index j
    → get_elem? slots j ≡ some v
    → get_elem? (clear_at k slots) j ≡ some v
get_elem?-clear_at (index i) j slots {v} d h =
    elim (ltb i (length slots))
      as (λ b. get_elem? (if b then set slots i none else slots) j ≡ some v) [
        | true ↦ get_elem?-set_ne slots none (λ e. d (ap index e)) ∙ h
        | false ↦ h
      ]
get_elem?-clear_at no_index j slots d h = h
get_elem?-clear_at throws j slots d h = h

-- The other way round: what an entry that is not null was before.
get_elem?-replicate-none : (k i : ℕ) {m : PortName} → get_elem? (replicate k none) i ≢ some (some m)
get_elem?-replicate-none zero i h = cc
get_elem?-replicate-none (suc k) zero h = cc
get_elem?-replicate-none (suc k) (suc i) h = get_elem?-replicate-none k i h

get_elem?-append_none :
    (xs : List (Option PortName)) (k i : ℕ) {m : PortName}
    → get_elem? (xs ++ replicate k none) i ≡ some (some m)
    → get_elem? xs i ≡ some (some m)
get_elem?-append_none [] k i h = absurd (get_elem?-replicate-none k i h)
get_elem?-append_none (x ∷ xs) k zero h = h
get_elem?-append_none (x ∷ xs) k (suc i) h = get_elem?-append_none xs k i h

pub get_elem?_of_install :
    (i j : ℕ) (n : PortName) (slots : List (Option PortName)) {m : PortName}
    → i ≢ j
    → get_elem? (install i n slots) j ≡ some (some m)
    → get_elem? slots j ≡ some (some m)
get_elem?_of_install i j n slots d h =
    get_elem?-append_none slots (suc i - length slots) j
      (sym (get_elem?-set_ne (slots ++ replicate (suc i - length slots) none) (some n) d) ∙ h)

pub get_elem?_of_strip :
    (xs : List (Option PortName)) (i : ℕ) {v : Option PortName}
    → get_elem? (strip xs) i ≡ some v
    → get_elem? xs i ≡ some v
unfolding strip
get_elem?_of_strip [] i h = h
get_elem?_of_strip (x ∷ xs) i {v} h = go (strip xs) refl x i (λ i. get_elem?_of_strip xs i) h
  where
    go :
        (ys : List (Option PortName))
        → strip xs ≡ ys
        → (x : Option PortName) (i : ℕ)
        → ((i : ℕ) → get_elem? (strip xs) i ≡ some v → get_elem? xs i ≡ some v)
        → get_elem?
            (elim ys [ [] ↦ elim x [ none ↦ [] | some n ↦ some n ∷ [] ] | y ∷ ys ↦ x ∷ y ∷ ys ])
            i
          ≡ some v
        → get_elem? (x ∷ xs) i ≡ some v
    go [] e none i below h = cc
    go [] e (some n) zero below h = h
    go [] e (some n) (suc i) below h = cc
    go (y ∷ ys) e x zero below h = h
    go (y ∷ ys) e x (suc i) below h = below i (ap (λ z. get_elem? z i) e ∙ h)

pub get_elem?_of_clear_at :
    (k : NameIndex) (j : ℕ) (slots : List (Option PortName)) {m : PortName}
    → get_elem? (clear_at k slots) j ≡ some (some m)
    → (get_elem? slots j ≡ some (some m)) × (k ≢ index j)
get_elem?_of_clear_at (index i) j slots {m} h = elim (Bool-cases (ltb i (length slots))) [
  | inl e ↦ elim (ℕ_discrete i j) [
    | yes p ↦
        absurd
          (emptied i j p (get_elem?-set_self slots i none (ltb→lt i (length slots) e)) (cleared e))
    | no d ↦ (sym (get_elem?-set_ne slots none d) ∙ cleared e, λ z. d (index-injective z))
  ]
  | inr e ↦ (kept e, λ z. absurd (outside (index-injective z) (ltb→ge i (length slots) e) (kept e)))
]
  where
    index-injective : {a b : ℕ} → index a ≡ index b → a ≡ b
    index-injective e = cc

    cleared : ltb i (length slots) ≡ true → get_elem? (set slots i none) j ≡ some (some m)
    cleared e = ap (λ b. get_elem? (if b then set slots i none else slots) j) (sym e) ∙ h

    kept : ltb i (length slots) ≡ false → get_elem? slots j ≡ some (some m)
    kept e = ap (λ b. get_elem? (if b then set slots i none else slots) j) (sym e) ∙ h

    emptied :
        (i j : ℕ)
        → i ≡ j
        → get_elem? (set slots i none) i ≡ some none
        → get_elem? (set slots i none) j ≢ some (some m)
    emptied i j p e h = cc

    outside : i ≡ j → length slots ≤ i → get_elem? slots j ≢ some (some m)
    outside p ge h = omega (arith, get_elem?-lt_length slots j h)
get_elem?_of_clear_at no_index j slots h = (h, λ e. cc)
get_elem?_of_clear_at throws j slots h = (h, λ e. cc)
