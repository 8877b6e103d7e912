-- ===== src/RingDeque/Assign.antt =====
-- An assignment through the reference that `front()` of RingDeque.hpp gives.
use pothos_core.Base.{
  ◌+◌, ◌%◌, ◌≡◌, refl, sym, ap, ◌∙◌, List, ◌∷◌, some, set, get_elem?, get_elem?-set_self, arith,
}
use pothos_core.RingDeque.{RingDeque, at, assign, slot}
use pothos_core.RingDeque.Rep.{Represents, slot_lem, slot-lt, at_lem, write_before, rewritten}

module _ {ℓ} {A : Type ℓ} where
  abbrev pub replaced_front : RingDeque A → A → RingDeque A
  replaced_front r y = record r { container = set r.container (slot r 0) (some y) }

  pub assign-eq :
      {r : RingDeque A} {xs : List A} (x y : A)
      → Represents r (x ∷ xs)
      → assign r 0 y ≡ some (replaced_front r y)
  unfolding assign at
  assign-eq x y v = rw (at_lem v 0 {x = x} refl) refl

  pub replaced_front-Represents :
      {r : RingDeque A} {xs : List A} (x y : A)
      → Represents r (x ∷ xs)
      → Represents (replaced_front r y) (y ∷ xs)
  replaced_front-Represents {r} {xs} x y v =
      rewritten v (y ∷ xs) (slot r 0) r.front_index r.num_elements (some y) v.count v.count_fits
        v.front_word
        (
          ap (get_elem? (replaced_front r y).container) here
              ∙ get_elem?-set_self r.container (slot r 0) (some y) (slot-lt v 0),
          write_before v r.front_index xs (some y) (omega (arith, v.count_fits, v.capacity_fits))
              v.cells.1,
        )
    where
      here : r.front_index % (r.mask + 1) ≡ slot r 0
      here = ap (λ i. i % (r.mask + 1)) (omega arith) ∙ sym (slot_lem v 0)
