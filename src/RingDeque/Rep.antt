-- ===== src/RingDeque/Rep.antt =====
-- The representation invariant of RingDeque.hpp, and each operation on a ring that satisfies it.
use Prim.Native.Nat.{bit_and}
use native.Mathlib.Nat.{mod-lt, add-mod_right}
use pothos_core.Base.{
  ℕ, suc, ◌+◌, ◌%◌, ◌^◌, ◌≤◌, ◌<◌, ◌≡◌, refl, sym, ap, subst, ◌∙◌, List, [], ◌∷◌, ◌++◌, Option,
  some, length, get_elem?, set, length-append, length-set, get_elem?-append_length, bit_and_mask,
  mod_word_mod, word, add_size, sub_size, arith,
}
use pothos_core.RingDeque.{RingDeque, slot, at, front, back}
use pothos_core.RingDeque.Cells.{Holds, Holds-set, Holds-get}

-- The ring stands for the list: its elements, front first, lie round the ring from the front index.
pub record Represents {ℓ} {A : Type ℓ} (r : RingDeque A) (xs : List A) : Type ℓ where
  pub bits : ℕ
  pub bits_small : bits ≤ 63
  pub mask_eq : r.mask + 1 ≡ 2 ^ bits
  pub storage : length r.container ≡ r.mask + 1
  pub capacity_fits : r.capacity ≤ r.mask + 1
  pub mask_small : r.mask < 2 ^ 63
  pub count : r.num_elements ≡ length xs
  pub count_fits : length xs ≤ r.capacity
  pub front_word : r.front_index < word
  pub cells : Holds r.container (r.mask + 1) r.front_index xs

module _ {ℓ} {A : Type ℓ} where
  pub mod_size :
      {r : RingDeque A} {xs : List A}
      → Represents r xs
      → (x : ℕ) → x % word % (r.mask + 1) ≡ x % (r.mask + 1)
  mod_size v x = rw v.mask_eq (mod_word_mod v.bits x (omega (arith, v.bits_small)))

  -- `operator[]` at an offset `i` from any front index `f`
  pub index_lem :
      {r : RingDeque A} {xs : List A}
      → Represents r xs
      → (f i : ℕ) → bit_and (add_size f i) r.mask ≡ (f + i) % (r.mask + 1)
  index_lem {r} v f i = bit_and_mask v.bits (add_size f i) r.mask v.mask_eq ∙ mod_size v (f + i)

  pub slot_lem :
      {r : RingDeque A} {xs : List A}
      → Represents r xs
      → (i : ℕ) → slot r i ≡ (r.front_index + i) % (r.mask + 1)
  slot_lem {r} v i = index_lem v r.front_index i

  pub index-lt :
      {r : RingDeque A} {xs : List A}
      → Represents r xs
      → (f i : ℕ) → bit_and (add_size f i) r.mask < length r.container
  index-lt {r} v f i =
      omega (arith, index_lem v f i, v.storage, mod-lt (f + i) {m = r.mask + 1} (omega arith))

  pub slot-lt :
      {r : RingDeque A} {xs : List A} → Represents r xs → (i : ℕ) → slot r i < length r.container
  slot-lt {r} v i = index-lt v r.front_index i

  pub at_lem :
      {r : RingDeque A} {xs : List A}
      → Represents r xs
      → (i : ℕ) {x : A} → get_elem? xs i ≡ some x
      → at r i ≡ some x
  unfolding at
  at_lem {r} {xs} v i e =
      rw (slot_lem v i, Holds-get r.container (r.mask + 1) r.front_index i xs v.cells e)

  -- `front()` and `back()` name the elements at the ends.
  pub front_lem : {r : RingDeque A} {xs : List A} (x : A) → Represents r (x ∷ xs) → front r ≡ some x
  unfolding front
  front_lem {r} x v = ground (arith, v.count, at_lem v 0 {x = x} refl)

  pub back_lem :
      {r : RingDeque A} (xs : List A) (x : A) → Represents r (xs ++ x ∷ []) → back r ≡ some x
  unfolding back
  back_lem {r} xs x v =
      ground (arith, v.count, length-append xs (x ∷ []), at_lem v (sub_size r.num_elements 1) last)
    where
      last : get_elem? (xs ++ x ∷ []) (sub_size r.num_elements 1) ≡ some x
      last =
          subst (λ i. get_elem? (xs ++ x ∷ []) i ≡ some x) {x = length xs}
            (omega (
              arith,
              v.count,
              length-append xs (x ∷ []),
              v.count_fits,
              v.capacity_fits,
              v.mask_small,
            ))
            (get_elem?-append_length xs [] x)

  -- A cell is rewritten at or behind the end of the elements that stay.
  pub write_cell :
      {r : RingDeque A} {xs : List A}
      → Represents r xs
      → (i : ℕ) (c : Option A) → length xs ≤ i
      → i ≤ r.mask
      → Holds (set r.container (slot r i) c) (r.mask + 1) r.front_index xs
  write_cell {r} {xs} v i c p q =
      rw (slot_lem v i)
        (Holds-set r.container (r.mask + 1) r.front_index i xs c p (omega arith) v.cells)

  -- The cell just before index `suc f` is free while the elements from there do not fill the ring.
  pub write_before :
      {r : RingDeque A} {xs : List A}
      → Represents r xs
      → (f : ℕ) (ys : List A) (c : Option A) → length ys ≤ r.mask
      → Holds r.container (r.mask + 1) (suc f) ys
      → Holds (set r.container (bit_and (add_size f 0) r.mask) c) (r.mask + 1) (suc f) ys
  write_before {r} v f ys c p h =
      let round : (suc f + r.mask) % (r.mask + 1) ≡ bit_and (add_size f 0) r.mask =
        ap (λ t. t % (r.mask + 1)) (omega arith)
        ∙ add-mod_right f (r.mask + 1)
        ∙ ap (λ t. t % (r.mask + 1)) (omega arith)
        ∙ sym (index_lem v f 0) in
      subst (λ i. Holds (set r.container i c) (r.mask + 1) (suc f) ys) round
        (Holds-set r.container (r.mask + 1) (suc f) r.mask ys c p (omega arith) h)

  -- What an operation has to show of its new front index, count and cells.
  pub rewritten :
      {r : RingDeque A} {xs : List A}
      → Represents r xs
      → (ys : List A) (i f n : ℕ) (c : Option A) → n ≡ length ys
      → length ys ≤ r.capacity
      → f < word
      → Holds (set r.container i c) (r.mask + 1) f ys
      → Represents
          (record r { front_index = f; num_elements = n; container = set r.container i c })
          ys
  rewritten {r} v ys i f n c counted fits small held = record {
    bits = v.bits;
    bits_small = v.bits_small;
    mask_eq = v.mask_eq;
    storage = length-set r.container i c ∙ v.storage;
    capacity_fits = v.capacity_fits;
    mask_small = v.mask_small;
    count = counted;
    count_fits = fits;
    front_word = small;
    cells = held;
  }
