-- ===== src/RingDeque/Moves.antt =====
-- The whole-deque operations of RingDeque.hpp: clear, set_capacity, copies and assignments.
use pothos_core.Base.{
  ℕ, zero, suc, ◌+◌, ◌^◌, ◌≤◌, ◌<◌, ◌≡◌, refl, ap, subst, ◌∙◌, List, [], ◌∷◌, ◌++◌, none, some,
  length, replicate, length-replicate, length-append, get_elem?-append_length, append_assoc,
  append-nil, add_size, lt→ltb, arith,
}
use pothos_core.RingDeque.{
  RingDeque, clear_loop, clear, move_assign, move_loop, set_capacity, copy_loop, copy, copy_assign,
  self_assign, make,
}
use pothos_core.RingDeque.Rep.{Represents, at_lem, front_lem}
use pothos_core.RingDeque.Ends.{
  push_back-eq, push_back-Represents, pop_front-eq, pop_front-Represents, pushed_back, popped_front,
}
use pothos_core.RingDeque.Growth.{make_lem, fresh}

module _ {ℓ} {A : Type ℓ} where
  clear_loop_lem :
      (xs : List A) (fuel : ℕ) (r : RingDeque A)
      → Represents r xs
      → length xs ≤ fuel
      → (r' : RingDeque A) × (clear_loop fuel r ≡ some r')
        × Represents r' []
        × (r'.capacity ≡ r.capacity)
  unfolding clear_loop
  clear_loop_lem [] zero r v h = (r, ground (arith, v.count), v, refl)
  clear_loop_lem [] (suc fuel) r v h = (r, ground (arith, v.count), v, refl)
  clear_loop_lem (x ∷ xs) zero r v h = absurd (omega arith)
  clear_loop_lem (x ∷ xs) (suc fuel) r v h =
      let (r', ran, v', same) =
        clear_loop_lem xs fuel (popped_front r (length xs)) (pop_front-Represents x xs v)
          (omega arith) in
      (r', ground (arith, v.count, pop_front-eq x xs v, ran), v', same)

  pub clear_lem :
      (r : RingDeque A) (xs : List A)
      → Represents r xs
      → (r' : RingDeque A) × (clear r ≡ some r') × Represents r' [] × (r'.capacity ≡ r.capacity)
  unfolding clear
  clear_lem r xs v = clear_loop_lem xs r.num_elements r v (omega (arith, v.count))

  move_loop_lem :
      (xs ys : List A) (fuel : ℕ) (r s : RingDeque A)
      → Represents r xs
      → Represents s ys
      → length ys + length xs ≤ s.capacity
      → length xs ≤ fuel
      → (r' s' : RingDeque A) × (move_loop fuel r s ≡ some (r', s'))
        × Represents r' []
        × Represents s' (ys ++ xs)
        × (s'.capacity ≡ s.capacity)
  unfolding move_loop
  move_loop_lem [] ys zero r s v w room h =
      (r, s, ground (arith, v.count), v, rw append-nil w, refl)
  move_loop_lem [] ys (suc fuel) r s v w room h =
      (r, s, ground (arith, v.count), v, rw append-nil w, refl)
  move_loop_lem (x ∷ xs) ys zero r s v w room h = absurd (omega arith)
  move_loop_lem (x ∷ xs) ys (suc fuel) r s v w room h =
      let (r', s', ran, v', w', same) =
        move_loop_lem xs (ys ++ x ∷ []) fuel (popped_front r (length xs))
          (pushed_back s (length ys) x) (pop_front-Represents x xs v)
          (push_back-Represents w x (omega arith)) (omega (arith, length-append ys (x ∷ [])))
          (omega arith) in
      (
        r',
        s',
        ground (
          arith,
          v.count,
          front_lem x v,
          push_back-eq w x (omega arith),
          pop_front-eq x xs v,
          ran,
        ),
        v',
        subst (Represents s') (append_assoc ys (x ∷ []) xs) w',
        same,
      )

  -- A capacity that holds the elements, and is positive and at most 2 ^ 63, is taken on; the
  -- elements stay, in order.
  pub set_capacity_lem :
      (r : RingDeque A) (xs : List A) (cap : ℕ)
      → Represents r xs
      → length xs ≤ cap
      → 0 < cap
      → cap ≤ 2 ^ 63
      → (r' : RingDeque A) × (set_capacity r cap ≡ some r') × Represents r' xs × (r'.capacity ≡ cap)
  unfolding set_capacity move_assign
  set_capacity_lem r xs cap v fits pos small =
      let (s, made, w, scap) = make_lem {A = A} cap pos small in
      let (r', s', ran, v', w', same) =
        move_loop_lem xs [] r.num_elements r s v w (omega arith) (omega (arith, v.count)) in
      let (r'', cleared, _, _) = clear_lem r' [] v' in
      (s', ground (arith, v.count, made, ran, cleared), w', same ∙ scap)

  -- A capacity below the number of elements is ignored.
  pub set_capacity_ignored :
      (r : RingDeque A) (cap : ℕ) → cap < r.num_elements → set_capacity r cap ≡ some r
  unfolding set_capacity
  set_capacity_ignored r cap h = rw (lt→ltb cap r.num_elements h)

  -- Where the new ring cannot be made, the call fails with it.
  pub set_capacity_stops :
      (r : RingDeque A) (cap : ℕ)
      → r.num_elements ≤ cap
      → make {A = A} cap ≡ none
      → set_capacity r cap ≡ none
  unfolding set_capacity
  set_capacity_stops r cap h e = ground (arith, e)

  copy_loop_lem :
      (us ws xs : List A) (i : ℕ) (other r : RingDeque A)
      → Represents other (us ++ xs)
      → Represents r ws
      → i ≡ length us
      → length ws + length xs ≤ r.capacity
      → (r' : RingDeque A) × (copy_loop (length xs) i other r ≡ some r')
        × Represents r' (ws ++ xs)
        × (r'.capacity ≡ r.capacity)
  unfolding copy_loop
  copy_loop_lem us ws [] i other r v w e room = (r, refl, rw append-nil w, refl)
  copy_loop_lem us ws (x ∷ xs) i other r v w e room =
      let (r', ran, w', same) =
        copy_loop_lem (us ++ x ∷ []) (ws ++ x ∷ []) xs (i + 1) other (pushed_back r (length ws) x)
          (rw append_assoc v) (push_back-Represents w x (omega arith))
          (omega (arith, length-append us (x ∷ []))) (omega (arith, length-append ws (x ∷ []))) in
      (
        r',
        ground (
          arith,
          at_lem v i {x = x} (rw e (get_elem?-append_length us xs x)),
          push_back-eq w x (omega arith),
          ran,
        ),
        subst (Represents r') (append_assoc ws (x ∷ []) xs) w',
        same,
      )

  -- The copy constructor: the same elements and the same capacity.
  pub copy_lem :
      (other : RingDeque A) (xs : List A)
      → Represents other xs
      → (r : RingDeque A) × (copy other ≡ some r) × Represents r xs × (r.capacity ≡ other.capacity)
  unfolding copy
  copy_lem other xs v =
      let (r, ran, w, same) =
        copy_loop_lem [] [] xs 0 other (fresh other.mask other.capacity) v blank refl
          (omega (arith, v.count_fits)) in
      (r, start ∙ ran, w, same)
    where
      blank : Represents {A = A} (fresh other.mask other.capacity) []
      blank = record {
        bits = v.bits;
        bits_small = v.bits_small;
        mask_eq = v.mask_eq;
        storage = length-replicate (other.mask + 1) none;
        capacity_fits = v.capacity_fits;
        mask_small = v.mask_small;
        count = refl;
        count_fits = omega arith;
        front_word = omega arith;
        cells = tt;
      }

      size_eq : add_size other.mask 1 ≡ other.mask + 1
      size_eq = omega (arith, v.mask_small)

      -- the copy before its first `push_back`, by the number of its cells
      blank_of : ℕ → RingDeque A
      blank_of n = record (fresh other.mask other.capacity) { container = replicate n none }

      start : copy other ≡ copy_loop (length xs) 0 other (fresh other.mask other.capacity)
      start =
          ap (λ n. copy_loop other.num_elements 0 other (blank_of n)) size_eq
          ∙ ap (λ n. copy_loop n 0 other (blank_of (other.mask + 1))) v.count

  -- Copy assignment of another deque, of a positive capacity: its elements and its capacity; the old
  -- elements go.
  pub copy_assign_lem :
      (r other : RingDeque A) (ws xs : List A)
      → Represents r ws
      → Represents other xs
      → 0 < other.capacity
      → (r' : RingDeque A) × (copy_assign r other ≡ some r')
        × Represents r' xs
        × (r'.capacity ≡ other.capacity)
  unfolding copy_assign
  copy_assign_lem r other ws xs v w pos =
      let (r', cleared, v', _) = clear_lem r ws v in
      let (r'', grown, v'', cap) =
        set_capacity_lem r' [] other.capacity v' (omega arith) pos
          (omega (arith, w.capacity_fits, w.mask_small)) in
      let (s, ran, u, same) =
        copy_loop_lem [] [] xs 0 other r'' w v'' refl (omega (arith, w.count_fits)) in
      (s, ground (arith, cleared, grown, ran, w.count), u, same ∙ cap)

  -- Assigned to itself, a deque loses its elements: `clear()` comes before the copy is taken.
  pub self_assign_lem :
      (r : RingDeque A) (xs : List A)
      → Represents r xs
      → 0 < r.capacity
      → (r' : RingDeque A) × (self_assign r ≡ some r')
        × Represents r' []
        × (r'.capacity ≡ r.capacity)
  unfolding self_assign
  self_assign_lem r xs v pos =
      let (r', cleared, v', cap) = clear_lem r xs v in
      let (r'', grown, v'', cap') =
        set_capacity_lem r' [] r'.capacity v' (omega arith) (omega arith)
          (omega (arith, v.capacity_fits, v.mask_small)) in
      let (s, ran, u, same) = copy_loop_lem [] [] [] 0 r'' r'' v'' v'' refl (omega arith) in
      (s, ground (arith, cleared, grown, ran, v''.count), u, same ∙ cap' ∙ cap)
