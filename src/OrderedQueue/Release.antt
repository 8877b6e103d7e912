-- ===== src/OrderedQueue/Release.antt =====
-- The loop of OrderedQueue::push: it ends, and moves a run of waiting elements to the ready ones.
use mathlib.Core.List.{Perm}
use mathlib.Core.List.Perm
use native.Mathlib.Decide.{ℕ_discrete}
use pothos_core.Base.{
  ℕ, zero, suc, ◌<◌, ◌≡◌, refl, sym, subst, ◌∙◌, ◌⊎◌, inl, inr, List, [], ◌∷◌, ◌++◌, Bool, true,
  false, some, length, get_elem?, set, length-set, get_elem?_of_lt, get_elem?-lt_length,
  get_elem?-set_self, get_elem?-set_ne, append_assoc, append-nil, arith,
}
use pothos_core.RingDeque.Ends.{pushed_back}
use pothos_core.OrderedQueue.{OrderedQueue, wrap_index, release}
use pothos_core.OrderedQueue.Order.{turn-lt, ahead-turn}
use pothos_core.OrderedQueue.Inv.{
  waiting, WaitsWell, Ordered, Settled, deliver-eq, advance, waiting-clear_flag,
  length-waiting-clear_flag,
}

module _ {ℓ} {A : Type ℓ} (slot : A → ℕ) where
  -- Clearing the flag at the next index leaves only elements that come later still.
  cleared_waits :
      {q : OrderedQueue A} {s : ℕ} {xs : List A}
      → Ordered slot q s xs
      → (x : A) → get_elem? q.pushed_elems q.index_to_ack ≡ some (x, true)
      → WaitsWell slot (set q.pushed_elems q.index_to_ack (x, false)) s (suc (length xs))
  cleared_waits {q} {s} {xs} v x e i y h = elim (ℕ_discrete q.index_to_ack i) [
    | yes same ↦
        let in_range = get_elem?-lt_length q.pushed_elems q.index_to_ack e in
        let w = get_elem?-set_self q.pushed_elems q.index_to_ack (x, false) in_range in
        absurd (ground (arith, w, rw (← same) at h))
    | no ne ↦
        let old = v.waits i y (sym (get_elem?-set_ne q.pushed_elems (x, false) ne) ∙ h) in
        (
          old.0,
          ground (
            arith,
            old.1,
            v.start,
            v.fits,
            v.ack,
            ahead-turn _ s i v.start (
                get_elem?-lt_length q.pushed_elems i
                  (sym (get_elem?-set_ne q.pushed_elems (x, false) ne) ∙ h)),
            length-set q.pushed_elems q.index_to_ack (x, false),
          ),
        )
  ]

  pub next_entry :
      {q : OrderedQueue A} {s : ℕ} {xs : List A}
      → Ordered slot q s xs
      → ((x : A) × (get_elem? q.pushed_elems q.index_to_ack ≡ some (x, true)))
        ⊎ ((x : A) × (get_elem? q.pushed_elems q.index_to_ack ≡ some (x, false)))
  next_entry {q} {s} {xs} v =
      let (entry, e) =
        get_elem?_of_lt q.pushed_elems q.index_to_ack
          (rw v.ack (turn-lt _ s (length xs) v.start v.fits)) in
      go entry e
    where
      go :
          (entry : A × Bool)
          → get_elem? q.pushed_elems q.index_to_ack ≡ some entry
          → ((x : A) × (get_elem? q.pushed_elems q.index_to_ack ≡ some (x, true)))
            ⊎ ((x : A) × (get_elem? q.pushed_elems q.index_to_ack ≡ some (x, false)))
      go (x, true) e = inl (x, e)
      go (x, false) e = inr (x, e)

  room_lem :
      {q : OrderedQueue A} {s : ℕ} {xs : List A}
      → Ordered slot q s xs
      → (x : A) → get_elem? q.pushed_elems q.index_to_ack ≡ some (x, true)
      → length xs < length q.pushed_elems
  room_lem {q} v x e = ground (arith, v.ack, v.start, v.fits, v.waits q.index_to_ack x e)

  -- With fuel above the number of waiting elements the loop ends, and it fails no assertion. It
  -- appends a run of the waiting elements, and nothing that waits any more is next.
  pub release_lem :
      (fuel : ℕ) (q : OrderedQueue A) (s : ℕ) (xs : List A)
      → Ordered slot q s xs
      → length (waiting q.pushed_elems) < fuel
      → (q' : OrderedQueue A) × (more : List A) × (release fuel q ≡ some q')
        × Settled slot q' s (xs ++ more)
        × Perm (more ++ waiting q'.pushed_elems) (waiting q.pushed_elems)
        × (length q'.pushed_elems ≡ length q.pushed_elems)
  unfolding release
  release_lem zero q s xs v h = elim h [ ]
  release_lem (suc fuel) q s xs v h = elim (next_entry v) [
    | inr (x, e) ↦ (
      q,
      [],
      ground (arith, e),
      record { ordered = rw append-nil v; idle = λ y f. cc (sym e ∙ f) },
      Perm.refl _,
      refl,
    )
    | inl (x, e) ↦
        let i : ℕ = q.index_to_ack in
        let p : List (A × Bool) = set q.pushed_elems i (x, false) in
        let same : length p ≡ length q.pushed_elems = length-set q.pushed_elems i (x, false) in
        let room = room_lem v x e in
        let later : OrderedQueue A =
          wrap_index (record q {
            pushed_elems = p;
            ready_elems = pushed_back q.ready_elems (length xs) x;
          }) in
        let v' = advance slot v x p (v.waits i x e).0 room same (cleared_waits v x e) in
        let (q', more, ran, w, moved, size) =
          release_lem fuel later s (xs ++ x ∷ []) v'
            (omega (arith, length-waiting-clear_flag q.pushed_elems i x e)) in
        (
          q',
          x ∷ more,
          ground (arith, e, deliver-eq slot q xs x v.ready (omega (arith, v.sized)), ran),
          subst (Settled slot q' s) (append_assoc xs (x ∷ []) more) w,
          Perm.trans (Perm.cons x moved) (waiting-clear_flag q.pushed_elems i x e),
          size ∙ same,
        )
  ]
