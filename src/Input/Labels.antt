-- ===== src/Input/Labels.antt =====
-- The labels of an input port in `postWorkTasks` of lib/Framework/WorkerActor.cpp, and their indices
-- in elements and in bytes.
use mathlib.Core.List.{map}
use native.Mathlib.Nat.{add-mul, mul-div_cancel}
use pothos_core.Base.{
  ℕ, suc, ◌+◌, ◌==◌, ◌*◌, ◌/◌, ◌≤◌, ◌<◌, ◌≡◌, refl, ap, ◌∙◌, inl, inr, List, [], ◌∷◌, ltb, Bool,
  false, not, if◌then◌else◌, Bool-cases, word, arith, take, drop, mul_size, add_size,
}
use pothos_core.Buffer.{dtype_size}
use pothos_core.Label.{Label, adjust}
use pothos_core.Input.{
  InputPort, count_labels, adjust_labels, unshift, shift, post_work_input, buffer_accumulator_pop,
}

module _ {A : Type 0} where
  -- The labels are in the order of their indices.
  unfoldable pub AllFrom : ℕ → List (Label A) → Type 0
  AllFrom n [] = Unit
  AllFrom n (l ∷ ls) = (n ≤ l.index) × AllFrom n ls

  unfoldable pub InOrder : List (Label A) → Type 0
  InOrder [] = Unit
  InOrder (l ∷ ls) = AllFrom l.index ls × InOrder ls

  -- The labels that pass a test, in order
  abbrev pub select : (Label A → Bool) → List (Label A) → List (Label A)
  select test [] = []
  select test (l ∷ ls) = if test l then l ∷ select test ls else select test ls

  abbrev pub below : ℕ → Label A → Bool
  below n l = ltb l.index n

  abbrev pub from : ℕ → Label A → Bool
  from n l = not (ltb l.index n)

  AllFrom-le : (n k : ℕ) (ls : List (Label A)) → n ≤ k → AllFrom k ls → AllFrom n ls
  unfolding AllFrom
  AllFrom-le n k [] le h = tt
  AllFrom-le n k (l ∷ ls) le h = (omega (arith, h.0), AllFrom-le n k ls le h.1)

  -- Behind a label that is not consumed none is.
  none_below :
      (n : ℕ) (ls : List (Label A))
      → AllFrom n ls
      → (count_labels n ls ≡ 0)
        × (select (below n) ls ≡ [])
        × (adjust_labels n ls ≡ map (unshift n) (select (from n) ls))
  unfolding AllFrom count_labels adjust_labels
  none_below n [] h = (refl, refl, refl)
  none_below n (l ∷ ls) h =
      let (count, least, rest) = none_below n ls h.1 in
      let e : ltb l.index n ≡ false = ground (arith, h.0) in
      rw e (count, least, ap (λ r. unshift n l ∷ r) rest)

  split_lem :
      (n : ℕ) (ls : List (Label A))
      → InOrder ls
      → (take (count_labels n ls) (adjust_labels n ls) ≡ select (below n) ls)
        × (drop (count_labels n ls) (adjust_labels n ls) ≡ map (unshift n) (select (from n) ls))
  unfolding InOrder count_labels adjust_labels
  split_lem n [] h = (refl, refl)
  split_lem n (l ∷ ls) h = elim (Bool-cases (ltb l.index n)) [
    | inl e ↦
        let (front, back) = split_lem n ls h.1 in
        let one : count_labels n ls + 1 ≡ suc (count_labels n ls) = omega arith in
        rw (e, one) (ap (λ r. l ∷ r) front, back)
    | inr e ↦
        let ge : n ≤ l.index = ground arith in
        let (count, least, rest) = none_below n ls (AllFrom-le n l.index ls ge h.0) in
        rw (e, count, least) (refl, ap (λ r. unshift n l ∷ r) rest)
  ]

  -- What a pop of the accumulator leaves alone
  popped_labels :
      (p : InputPort A) (n : ℕ)
      → ((buffer_accumulator_pop p n).inline_messages ≡ p.inline_messages)
        × ((buffer_accumulator_pop p n).total_labels ≡ p.total_labels)
  unfolding buffer_accumulator_pop
  popped_labels p n = elim (Bool-cases (ltb p.bytes.bytes_available n)) [
    | inl e ↦ rw e (refl, refl)
    | inr e ↦ rw e (refl, refl)
  ]

  -- After a call of `work`, when the labels of an input are in the order of their indices: the labels
  -- below the consumed elements are propagated, in order, and the others stay, in order, each with an
  -- index that is less by the consumed elements.
  pub post_work_input_lem :
      (p : InputPort A)
      → InOrder p.inline_messages
      → let (propagated, p') = post_work_input p in
        (propagated ≡ select (below p.pending_elements) p.inline_messages)
        × (p'.inline_messages
            ≡ map (unshift p.pending_elements) (select (from p.pending_elements) p.inline_messages))
  unfolding post_work_input
  post_work_input_lem p order =
      let (front, back) = split_lem p.pending_elements p.inline_messages order in
      elim (Bool-cases (mul_size p.pending_elements (dtype_size p.dtype) == 0)) [
        | inl e ↦ rw e (front, back)
        | inr e ↦ rw e (front, (popped_labels _ _).0 ∙ back)
      ]

  -- A label of an output that is posted at an element, behind whole elements that wait at an input of
  -- a type of the same size, is seen by the input's block at that element behind those.
  pub adjust-shift-adjust :
      (l : Label A) (k size : ℕ)
      → 0 < size
      → (l.index + k) * size < word
      → l.width * size < word
      → adjust 1 size (shift (k * size) (adjust size 1 l)) ≡ record l { index = l.index + k }
  unfolding adjust
  adjust-shift-adjust l k size pos fits fits' =
      λ i. record l { index = same_index i; width = same_width i }
    where
      same_index : mul_size (add_size (mul_size l.index size / 1) (k * size)) 1 / size ≡ l.index + k
      same_index =
          let e : (l.index + k) * size ≡ l.index * size + k * size = add-mul l.index k size in
          let inner : mul_size (add_size (mul_size l.index size / 1) (k * size)) 1
              ≡ (l.index + k) * size =
            omega arith in
          rw inner (mul-div_cancel (l.index + k) pos)

      same_width : mul_size (mul_size l.width size / 1) 1 / size ≡ l.width
      same_width =
          let inner : mul_size (mul_size l.width size / 1) 1 ≡ l.width * size = omega arith in
          rw inner (mul-div_cancel l.width pos)
