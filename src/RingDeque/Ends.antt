-- ===== src/RingDeque/Ends.antt =====
-- The four operations at the ends of a ring of RingDeque.hpp that satisfies the invariant.
use pothos_core.Base.{
  ℕ, suc, ◌+◌, ◌%◌, ◌<◌, ◌≡◌, refl, sym, ap, ◌∙◌, List, [], ◌∷◌, ◌++◌, none, some, length, set,
  length-append, get_elem?-set_self, get_elem?_of_lt, get_elem?-append_length, word, add_size,
  sub_size, arith,
}
use pothos_core.RingDeque.{RingDeque, slot, push_front, push_back, pop_front, pop_back}
use pothos_core.RingDeque.Cells.{Holds-congr, Holds-set, Holds-snoc, Holds-init}
use pothos_core.RingDeque.Rep.{
  Represents, mod_size, index_lem, slot_lem, index-lt, slot-lt, at_lem, write_cell, write_before,
  rewritten,
}

module _ {ℓ} {A : Type ℓ} where
  -- the four results, in unbounded arithmetic where nothing wraps
  abbrev pub pushed_back : RingDeque A → ℕ → A → RingDeque A
  pushed_back r n x = record r {
    num_elements = n + 1;
    container = set r.container (slot r n) (some x);
  }

  abbrev pub popped_back : RingDeque A → ℕ → RingDeque A
  popped_back r n = record r { num_elements = n; container = set r.container (slot r n) none }

  abbrev pub pushed_front : RingDeque A → ℕ → A → RingDeque A
  pushed_front r n x =
      let moved = record r { front_index = sub_size r.front_index 1 } in
      record moved { num_elements = n + 1; container = set r.container (slot moved 0) (some x) }

  abbrev pub popped_front : RingDeque A → ℕ → RingDeque A
  popped_front r n = record r {
    front_index = add_size r.front_index 1;
    num_elements = n;
    container = set r.container (slot r 0) none;
  }

  pub push_back-eq :
      {r : RingDeque A} {xs : List A}
      → Represents r xs
      → (x : A) → length xs < r.capacity
      → push_back r x ≡ some (pushed_back r (length xs) x)
  unfolding push_back
  push_back-eq {r} {xs} v x room = ground (
    arith,
    v.count,
    v.capacity_fits,
    v.mask_small,
    get_elem?_of_lt r.container (slot r (length xs)) (slot-lt v (length xs)),
  )

  pub push_back-Represents :
      {r : RingDeque A} {xs : List A}
      → Represents r xs
      → (x : A) → length xs < r.capacity
      → Represents (pushed_back r (length xs) x) (xs ++ x ∷ [])
  push_back-Represents {r} {xs} v x room =
      rewritten v (xs ++ x ∷ []) (slot r (length xs)) r.front_index (length xs + 1) (some x)
        (omega (arith, length-append xs (x ∷ []))) (omega (arith, length-append xs (x ∷ [])))
        v.front_word
        (Holds-snoc _ (r.mask + 1) r.front_index xs x
          (write_cell v (length xs) (some x) (omega arith) (omega (arith, v.capacity_fits)))
          (rw (← slot_lem v (length xs))
            (get_elem?-set_self r.container _ (some x) (slot-lt v (length xs)))))

  pub pop_back-eq :
      {r : RingDeque A} (xs : List A) (x : A)
      → Represents r (xs ++ x ∷ [])
      → pop_back r ≡ some (popped_back r (length xs))
  unfolding pop_back
  pop_back-eq {r} xs x v = ground (
    arith,
    v.count,
    v.count_fits,
    v.capacity_fits,
    v.mask_small,
    length-append xs (x ∷ []),
    at_lem v (length xs) (get_elem?-append_length xs [] x),
  )

  pub pop_back-Represents :
      {r : RingDeque A} (xs : List A) (x : A)
      → Represents r (xs ++ x ∷ [])
      → Represents (popped_back r (length xs)) xs
  pop_back-Represents {r} xs x v =
      rewritten v xs (slot r (length xs)) r.front_index (length xs) none refl
        (omega (arith, v.count_fits, length-append xs (x ∷ []))) v.front_word
        (rw (slot_lem v (length xs)) (
          Holds-set r.container (r.mask + 1) r.front_index (length xs) xs none (omega arith)
            (omega (arith, v.count_fits, v.capacity_fits, length-append xs (x ∷ [])))
            (Holds-init r.container (r.mask + 1) r.front_index xs (x ∷ []) v.cells)))

  pub pop_front-eq :
      {r : RingDeque A} (x : A) (xs : List A)
      → Represents r (x ∷ xs)
      → pop_front r ≡ some (popped_front r (length xs))
  unfolding pop_front
  pop_front-eq {r} x xs v =
      ground (arith, v.count, v.count_fits, v.capacity_fits, v.mask_small, at_lem v 0 {x = x} refl)

  pub pop_front-Represents :
      {r : RingDeque A} (x : A) (xs : List A)
      → Represents r (x ∷ xs)
      → Represents (popped_front r (length xs)) xs
  pop_front-Represents {r} x xs v =
      rewritten v xs (slot r 0) (add_size r.front_index 1) (length xs) none refl
        (omega (arith, v.count_fits)) (omega arith)
        (Holds-congr _ (r.mask + 1) (suc r.front_index) (add_size r.front_index 1) xs
          (ap (λ t. t % (r.mask + 1)) (omega arith) ∙ sym (mod_size v (r.front_index + 1)))
          (write_before v r.front_index xs none (omega (arith, v.count_fits, v.capacity_fits))
            v.cells.1))

  pub push_front-eq :
      {r : RingDeque A} {xs : List A}
      → Represents r xs
      → (x : A) → length xs < r.capacity
      → push_front r x ≡ some (pushed_front r (length xs) x)
  unfolding push_front
  push_front-eq {r} {xs} v x room = ground (
    arith,
    v.count,
    v.capacity_fits,
    v.mask_small,
    get_elem?_of_lt r.container _ (index-lt v (sub_size r.front_index 1) 0),
  )

  pub push_front-Represents :
      {r : RingDeque A} {xs : List A}
      → Represents r xs
      → (x : A) → length xs < r.capacity
      → Represents (pushed_front r (length xs) x) (x ∷ xs)
  push_front-Represents {r} {xs} v x room =
      rewritten v (x ∷ xs) (slot (record r { front_index = sub_size r.front_index 1 }) 0)
        (sub_size r.front_index 1) (length xs + 1) (some x) (omega arith) (omega arith)
        (omega arith)
        (
          rw (index_lem v g 0, ← g_zero) (get_elem?-set_self r.container _ (some x) in_range),
          write_before v g xs (some x) (omega (arith, v.capacity_fits))
              (Holds-congr r.container (r.mask + 1) r.front_index (suc g) xs g_next v.cells),
        )
    where
      g : ℕ
      g = sub_size r.front_index 1

      g_zero : (g + 0) % (r.mask + 1) ≡ g % (r.mask + 1)
      g_zero = ap (λ t. t % (r.mask + 1)) (omega arith)

      in_range : (g + 0) % (r.mask + 1) < length r.container
      in_range = omega (arith, index_lem v g 0, index-lt v g 0)

      g_next : r.front_index % (r.mask + 1) ≡ suc g % (r.mask + 1)
      g_next =
          ap (λ t. t % (r.mask + 1)) {y = suc g % word} (omega (arith, v.front_word))
          ∙ mod_size v (suc g)
