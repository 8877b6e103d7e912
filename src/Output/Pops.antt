-- ===== src/Output/Pops.antt =====
-- The bytes that `postWorkTasks` of lib/Framework/WorkerActor.cpp pops from the manager of an output,
-- and the buffers that it and `getBuffer` of lib/Framework/OutputPort.cpp give on.
use native.Mathlib.Nat.{le-div_iff_mul-le, div-le_self, add-mul}
use pothos_core.Base.{
  ℕ, ◌+◌, ◌-◌, ◌*◌, ◌/◌, ◌≤◌, ◌<◌, ◌≡◌, ◌≢◌, ◌⊎◌, inl, inr, refl, ◌==◌, ltb, true, false, not,
  if◌then◌else◌, Bool, ◌&&◌, Bool-cases, some, arith, sub_size, word,
}
use pothos_core.Buffer.{buffer_of, get_alias}
use pothos_core.Output.{OutputPort, bytes_to_pop}

-- A reserve is met by the whole elements of what is left, exactly if it is by its bytes.
reserve_iff :
    (length size pending reserve : ℕ)
    → 0 < size
    → pending * size ≤ length
    → (pending ≤ length / size)
      × (reserve ≤ length / size - pending → reserve * size ≤ length - pending * size)
      × (reserve * size ≤ length - pending * size → reserve ≤ length / size - pending)
reserve_iff length size pending reserve pos le =
    let within = (le-div_iff_mul-le {k = size} {x = pending} {y = length} pos).1 le in
    let both = le-div_iff_mul-le {k = size} {x = reserve + pending} {y = length} pos in
    let sum : (reserve + pending) * size ≡ reserve * size + pending * size =
      add-mul reserve pending size in
    (
      within,
      λ h. (let a = both.0 (omega arith) in omega arith),
      λ h. (let a = both.1 (omega arith) in omega arith),
    )

module _ {A M : Type 0} where
  -- When a block has produced no more than the buffer that it saw, of which the port counts the whole
  -- elements and which had no more bytes than the managed one, what is popped from the manager is the
  -- bytes produced, and then the buffer has an alias or the bytes that are left hold the reserve, or it
  -- is the whole managed buffer, and then there is no alias and the bytes that are left do not hold the
  -- reserve.
  pub bytes_to_pop_lem :
      (p : OutputPort A M) (length size : ℕ)
      → 0 < size
      → p.elements ≡ length / size
      → p.pending_elements * size ≤ length
      → length < word
      → length ≤ (buffer_of p.buffer.managed).length
      → let n = p.pending_elements * size in
        let whole = (buffer_of p.buffer.managed).length in
        let reserved = p.reserve_elements * size in
        (k : ℕ) × (bytes_to_pop p n ≡ some k)
        × (((k ≡ n) × ((get_alias p.buffer ≢ 0) ⊎ (reserved ≤ length - n)))
            ⊎ ((k ≡ whole) × (get_alias p.buffer ≡ 0) × (length - n < reserved)))
  unfolding bytes_to_pop
  bytes_to_pop_lem p length size pos saw le fits within =
      let n = p.pending_elements * size in
      let whole = (buffer_of p.buffer.managed).length in
      let (enough, meets, holds) =
        reserve_iff length size p.pending_elements p.reserve_elements pos le in
      let quotient = div-le_self length size in
      let rest : sub_size p.elements p.pending_elements ≡ length / size - p.pending_elements =
        omega arith in
      let accepted : ltb whole n ≡ false = ground arith in
      elim (Bool-cases (ltb (sub_size p.elements p.pending_elements) p.reserve_elements)) [
        | inl short ↦
            let lacks : length - n < p.reserve_elements * size =
              less_of _ _ (λ h. (let a = holds h in ground arith)) in
            let any : (p.reserve_elements == 0) ≡ false = ground arith in
            elim (Bool-cases (get_alias p.buffer == 0)) [
              | inl none_there ↦ (
                whole,
                rw (bytes_to_pop, accepted, any, none_there, short) refl,
                inr (refl, ground arith, lacks),
              )
              | inr aliased ↦ (
                n,
                rw (bytes_to_pop, accepted, any, aliased) refl,
                inl (refl, inl (ground arith)),
              )
            ]
        | inr long ↦ (
          n,
          rw (bytes_to_pop, accepted, long)
              (unreserved (p.reserve_elements == 0) (get_alias p.buffer == 0)),
          inl (refl, inr (meets (ground arith))),
        )
      ]
    where
      less_of : (a b : ℕ) → ¬ (b ≤ a) → a < b
      less_of a b h = ground arith

      unreserved :
          (x y : Bool)
          → (if not x && y && false
              then some (buffer_of p.buffer.managed).length
              else some (p.pending_elements * size))
            ≡ some (p.pending_elements * size)
      unreserved true true = refl
      unreserved true false = refl
      unreserved false true = refl
      unreserved false false = refl
