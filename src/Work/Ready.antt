-- ===== src/Work/Ready.antt =====
-- When `preWorkTasks` of lib/Framework/WorkerActor.cpp lets a block work.
use pothos_core.Base.{
  ℕ, ◌≤◌, ◌≡◌, ◌∙◌, sym, subst, refl, inl, inr, Bool, true, false, Bool-cases, if_true, if_false,
  List, [], ◌∷◌, arith,
}
use pothos_core.Buffer.{BufferChunk}
use pothos_core.Accumulator.{Memory}
use pothos_core.Output.{BufferManager}
use pothos_core.Work.{
  WorkInfo, WorkInput, Worker, Flags, big, pre_work_outputs, pre_work_inputs, pre_work_input,
  pre_work_tasks, overall, no_flags, ready,
}
use pothos_core.Work.Outputs.{AllUsable, AllUsable-Below, pre_work_outputs_lem}

-- The inputs leave the minima of the outputs alone.
abbrev SameOutputs : WorkInfo → WorkInfo → Type 0
SameOutputs info' info =
    (info'.min_out_elements ≡ info.min_out_elements)
    × (info'.min_all_out_elements ≡ info.min_all_out_elements)

module _ {A : Type 0} (unique : BufferChunk → Bool) (allocate : ℕ → BufferChunk)
    (handle : WorkInput A → WorkInput A) where
  pre_work_input_lem :
      (memory : Memory) (info : WorkInfo) (flags : Flags) (q : WorkInput A)
      → SameOutputs (pre_work_input unique allocate handle memory info flags q).1 info
  unfolding pre_work_input
  pre_work_input_lem memory info flags q = elim (Bool-cases q.is_slot) [
    | inl e ↦ rw (pre_work_input, e) (refl, refl)
    | inr e ↦ rw (pre_work_input, e) (refl, refl)
  ]

  pre_work_inputs_lem :
      (memory : Memory) (info : WorkInfo) (flags : Flags) (qs : List (WorkInput A))
      → SameOutputs (pre_work_inputs unique allocate handle memory info flags qs).1 info
  unfolding pre_work_inputs
  pre_work_inputs_lem memory info flags [] = (refl, refl)
  pre_work_inputs_lem memory info flags (q ∷ qs) =
      let one = pre_work_input unique allocate handle memory info flags q in
      let first = pre_work_input_lem memory info flags q in
      let rest = pre_work_inputs_lem one.0 one.1 one.2 qs in (rest.0 ∙ first.0, rest.1 ∙ first.1)

module _ {A M : Type 0} (ops : BufferManager M) (use_count : BufferChunk → ℕ)
    (unique : BufferChunk → Bool) (allocate : ℕ → BufferChunk)
    (handle : WorkInput A → WorkInput A) where
  Prepared : Memory × Worker A M × Bool → Type 0
  Prepared (memory, w, ready) =
      ready ≡ true
      → AllUsable w.work_info w.outputs
        × ((w.work_info).min_elements ≤ (w.work_info).min_out_elements)
        × ((w.work_info).min_elements ≤ (w.work_info).min_in_elements)
        × ((w.work_info).min_all_elements ≤ (w.work_info).min_all_out_elements)
        × ((w.work_info).min_all_elements ≤ (w.work_info).min_all_in_elements)

  -- When `preWorkTasks` lets the block work, each output has a token, and each that carries no signals
  -- has elements, of which the minimum of all outputs is not more, nor the minimum of the indexed
  -- outputs for one with an index; and the overall minima are not more than those of the inputs and of
  -- the outputs.
  pub pre_work_tasks_lem :
      (memory : Memory) (w : Worker A M)
      → let (memory', w', ready) = pre_work_tasks ops use_count unique allocate handle memory w in
        ready ≡ true
        → AllUsable w'.work_info w'.outputs
          × ((w'.work_info).min_elements ≤ (w'.work_info).min_out_elements)
          × ((w'.work_info).min_elements ≤ (w'.work_info).min_in_elements)
          × ((w'.work_info).min_all_elements ≤ (w'.work_info).min_all_out_elements)
          × ((w'.work_info).min_all_elements ≤ (w'.work_info).min_all_in_elements)
  unfolding pre_work_tasks Prepared
  pre_work_tasks_lem memory w =
      let info0 = record (w.work_info) { min_out_elements = big; min_all_out_elements = big } in
      let outs = pre_work_outputs ops use_count info0 w.inputs w.outputs in
      let info1 = record (outs.0) { min_in_elements = big; min_all_in_elements = big } in
      let ins = pre_work_inputs unique allocate handle memory info1 no_flags outs.1 in
      let same = pre_work_inputs_lem unique allocate handle memory info1 no_flags outs.1 in
      let prepared = pre_work_outputs_lem ops use_count info0 w.inputs w.outputs in
      elim (Bool-cases outs.3) [
        | inl e ↦ subst Prepared (sym (if_true _ _ e)) (λ g. (
          AllUsable-Below outs.0 (overall ins.1) outs.2
              (omega (arith, same.1), omega (arith, same.0)) (prepared.0 e).1,
          omega arith,
          omega arith,
          omega arith,
          omega arith,
        ))
        | inr e ↦ subst Prepared (sym (if_false _ _ e)) (λ g. absurd (true_not_false (sym g)))
      ]
    where
      true_not_false : true ≡ false → ⊥
      true_not_false e = cc
