-- ===== src/Accumulator/Require/Pool.antt =====
-- `get` of lib/Framework/BufferPool.cpp.
use pothos_core.Base.{
  ℕ, ◌≡◌, ◌⊎◌, inl, inr, refl, ap, ◌∙◌, sym, subst, max, List, [], ◌∷◌, ◌++◌, arith, Bool, true,
  Bool-cases, Option-cases, some, ltb,
}
use pothos_core.Buffer.{BufferChunk}
use pothos_core.Accumulator.{BufferPool, find_unique, take_unique, raise_size, get}

-- Each buffer of the list has the length.
unfoldable pub AllOf : ℕ → List BufferChunk → Type 0
AllOf n [] = Unit
AllOf n (c ∷ cs) = (c.length ≡ n) × AllOf n cs

unfoldable pub IsUniform : BufferPool → Type 0
IsUniform p = AllOf p.min_buff_size p.buffs

AllOf-append :
    (n : ℕ) (cs : List BufferChunk) (c : BufferChunk)
    → AllOf n cs
    → c.length ≡ n
    → AllOf n (cs ++ c ∷ [])
unfolding AllOf
AllOf-append n [] c h e = (e, tt)
AllOf-append n (d ∷ cs) c h e = (h.0, AllOf-append n cs c h.1 e)

find_unique_lem :
    (unique : BufferChunk → Bool) (n : ℕ) (cs : List BufferChunk) (c : BufferChunk)
    → AllOf n cs
    → find_unique unique cs ≡ some c
    → (c.length ≡ n) × (unique c ≡ true)
unfolding AllOf find_unique
find_unique_lem unique n [] c h e = cc
find_unique_lem unique n (d ∷ cs) c h e = elim (Bool-cases (unique d)) [
  | inl u ↦
      let same : d ≡ c = some_cancel (rw u at e) in
      (ap (λ x. x.length) (sym same) ∙ h.0, ap unique (sym same) ∙ u)
  | inr u ↦ find_unique_lem unique n cs c h.1 (rw u at e)
]
  where
    some_cancel : {x y : BufferChunk} → some x ≡ some y → x ≡ y
    some_cancel e = cc

-- A buffer of the pool's size, which no one else holds or which is new
abbrev pub Taken : (BufferChunk → Bool) → (ℕ → BufferChunk) → ℕ → BufferPool × BufferChunk → Type 0
Taken unique allocate n (p, c) =
    IsUniform p × (p.min_buff_size ≡ n) × (c.length ≡ n) × ((unique c ≡ true) ⊎ (c ≡ allocate n))

take_unique_lem :
    (unique : BufferChunk → Bool) (allocate : ℕ → BufferChunk) (p : BufferPool)
    → ((allocate p.min_buff_size).length ≡ p.min_buff_size)
    → IsUniform p
    → Taken unique allocate p.min_buff_size (take_unique unique allocate p)
unfolding take_unique IsUniform
take_unique_lem unique allocate p law all = elim (Option-cases (find_unique unique p.buffs)) [
  | inl e ↦
      rw (take_unique, e) (AllOf-append p.min_buff_size p.buffs _ all law, refl, law, inr refl)
  | inr (c, e) ↦
      let found = find_unique_lem unique p.min_buff_size p.buffs c all e in
      rw (take_unique, e) (all, refl, found.0, inl found.1)
]

raise_size_lem :
    (p : BufferPool) (n : ℕ)
    → IsUniform p
    → IsUniform (raise_size p n) × ((raise_size p n).min_buff_size ≡ max p.min_buff_size n)
unfolding IsUniform AllOf
raise_size_lem p n all = elim (Bool-cases (ltb p.min_buff_size n)) [
  | inl e ↦ rw e (tt, ground arith)
  | inr e ↦ rw e (all, ground arith)
]

-- `get` gives a buffer as long as the larger of the pool's size and the length asked for, which
-- becomes the pool's size; no one else holds it or it is new; and all buffers of the pool have that
-- size.
pub get_lem :
    (unique : BufferChunk → Bool) (allocate : ℕ → BufferChunk) (p : BufferPool) (n : ℕ)
    → ((k : ℕ) → (allocate k).length ≡ k)
    → IsUniform p
    → Taken unique allocate (max p.min_buff_size n) (get unique allocate p n)
unfolding get
get_lem unique allocate p n law all =
    let raised = raise_size_lem p n all in
    subst (λ k. Taken unique allocate k (take_unique unique allocate (raise_size p n))) raised.1
      (take_unique_lem unique allocate (raise_size p n) (law _) raised.0)
