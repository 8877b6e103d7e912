-- ===== src/Work/Outputs.antt =====
-- The loop over the outputs in `preWorkTasks` of lib/Framework/WorkerActor.cpp.
use pothos_core.Base.{
  ℕ, ◌≤◌, ◌<◌, ◌≡◌, ◌≢◌, ◌⊎◌, inl, inr, refl, sym, subst, ◌∙◌, ◌==◌, min, Bool, true, false,
  Bool-cases, if_true, if_false, ==_iff, Option, none, some, List, [], ◌∷◌, arith,
}
use pothos_core.Buffer.{BufferChunk}
use pothos_core.Output.{BufferManager, OutputPort}
use pothos_core.Work.{
  WorkInfo, WorkInput, WorkOutput, lower, counted_port, provide_buffer, pre_work_output,
  pre_work_outputs,
}

abbrev pub Below : WorkInfo → WorkInfo → Type 0
Below info' info =
    (info'.min_all_out_elements ≤ info.min_all_out_elements)
    × (info'.min_out_elements ≤ info.min_out_elements)

lower_lem :
    (index : Option ℕ) (n k : ℕ) → (lower index n k ≤ n) × (index ≢ none → lower index n k ≤ k)
lower_lem none n k = (omega arith, λ ne. absurd (ne refl))
lower_lem (some i) n k = (omega arith, λ ne. omega arith)

module _ {A M : Type 0} where
  -- An output that `work` can use: it has a token, and, unless it carries signals, elements, of which
  -- the minima are not more.
  unfoldable pub Usable : WorkInfo → WorkOutput A M → Type 0
  Usable info o =
      (o.token_manager_empty ≡ false)
      × ((o.is_signal ≡ true)
          ⊎ ((0 < o.port.elements)
              × (info.min_all_out_elements ≤ o.port.elements)
              × (o.index ≢ none → info.min_out_elements ≤ o.port.elements)))

  -- An output that `work` has to wait for
  unfoldable pub Blocked : WorkOutput A M → Type 0
  Blocked o = (o.token_manager_empty ≡ true) ⊎ ((o.is_signal ≡ false) × (o.port.elements ≡ 0))

  unfoldable pub AllUsable : WorkInfo → List (WorkOutput A M) → Type 0
  AllUsable info [] = Unit
  AllUsable info (o ∷ os) = Usable info o × AllUsable info os

  unfoldable pub SomeBlocked : List (WorkOutput A M) → Type 0
  SomeBlocked [] = ⊥
  SomeBlocked (o ∷ os) = Blocked o ⊎ SomeBlocked os

  Usable-Below :
      (info info' : WorkInfo) (o : WorkOutput A M)
      → Below info' info
      → Usable info o
      → Usable info' o
  unfolding Usable
  Usable-Below info info' o below (token, inl signal) = (token, inl signal)
  Usable-Below info info' o below (token, inr (pos, all, indexed)) =
      (token, inr (pos, omega arith, λ ne. omega (arith, indexed ne)))

  pub AllUsable-Below :
      (info info' : WorkInfo) (os : List (WorkOutput A M))
      → Below info' info
      → AllUsable info os
      → AllUsable info' os
  unfolding AllUsable
  AllUsable-Below info info' [] below usable = tt
  AllUsable-Below info info' (o ∷ os) below usable =
      (Usable-Below info info' o below usable.0, AllUsable-Below info info' os below usable.1)

module _ {A M : Type 0} (ops : BufferManager M) (use_count : BufferChunk → ℕ) where
  Stepped : WorkInfo → WorkInfo × List (WorkInput A) × WorkOutput A M × Bool → Type 0
  Stepped info (info', inputs', o', go_on) =
      (go_on ≡ true → Below info' info × Usable info' o') × (go_on ≡ false → Blocked o')

  pre_work_output_lem :
      (info : WorkInfo) (inputs : List (WorkInput A)) (o : WorkOutput A M)
      → Stepped info (pre_work_output ops use_count info inputs o)
  unfolding pre_work_output Usable Blocked Stepped
  pre_work_output_lem info inputs o = elim (Bool-cases o.token_manager_empty) [
    | inl e ↦ subst (Stepped info) (sym (no_token e)) (λ g. cc, λ g. inl e)
    | inr e ↦ elim (Bool-cases o.is_signal) [
      | inl e' ↦
          subst (Stepped info) (sym (signal e e'))
            (λ g. ((omega arith, omega arith), (e, inl e')), λ g. cc)
      | inr e' ↦ elim (Bool-cases (p.elements == 0)) [
        | inl e'' ↦
            let empty : p.elements ≡ 0 = (==_iff p.elements 0).0 e'' in
            subst (Stepped info) (sym (no_elements e e' e'')) (λ g. cc, λ g. inr (e', empty))
        | inr e'' ↦
            let some_left : 0 < p.elements = nonzero p.elements e'' in
            let low = lower_lem o.index info.min_out_elements p.elements in
            subst (Stepped info) (sym (goes_on e e' e''))
              (λ g. ((omega arith, low.0), (e, inr (some_left, omega arith, low.1))), λ g. cc)
      ]
    ]
  ]
    where
      p0 : OutputPort A M
      p0 = record (o.port) { work_events = 0 }

      provided : List (WorkInput A) × OutputPort A M
      provided = provide_buffer ops use_count inputs (record o { port = p0 })

      p : OutputPort A M
      p = counted_port provided.1

      no_token :
          o.token_manager_empty ≡ true
          → pre_work_output ops use_count info inputs o
            ≡ (info, inputs, record o { port = p0 }, false)
      no_token e = if_true _ _ e

      signal :
          o.token_manager_empty ≡ false
          → o.is_signal ≡ true
          → pre_work_output ops use_count info inputs o
            ≡ (info, inputs, record o { port = p0 }, true)
      signal e e' = if_false _ _ e ∙ if_true _ _ e'

      no_elements :
          o.token_manager_empty ≡ false
          → o.is_signal ≡ false
          → (p.elements == 0) ≡ true
          → pre_work_output ops use_count info inputs o
            ≡ (info, provided.0, record o { port = p }, false)
      no_elements e e' e'' = if_false _ _ e ∙ if_false _ _ e' ∙ if_true _ _ e''

      goes_on :
          o.token_manager_empty ≡ false
          → o.is_signal ≡ false
          → (p.elements == 0) ≡ false
          → pre_work_output ops use_count info inputs o ≡ (
            record info {
              min_out_elements = lower o.index info.min_out_elements p.elements;
              min_all_out_elements = min info.min_all_out_elements p.elements;
            },
            provided.0,
            record o { port = record p { pending_elements = 0 } },
            true,
          )
      goes_on e e' e'' = if_false _ _ e ∙ if_false _ _ e' ∙ if_false _ _ e''

      nonzero : (n : ℕ) → (n == 0) ≡ false → 0 < n
      nonzero n e = ground arith

  -- Both ends of the loop
  pub pre_work_outputs_lem :
      (info : WorkInfo) (inputs : List (WorkInput A)) (os : List (WorkOutput A M))
      → let (info', inputs', os', ready) = pre_work_outputs ops use_count info inputs os in
        (ready ≡ true → Below info' info × AllUsable info' os') × (ready ≡ false → SomeBlocked os')
  unfolding pre_work_outputs AllUsable SomeBlocked Stepped
  pre_work_outputs_lem info inputs [] = (λ g. ((omega arith, omega arith), tt), λ g. cc)
  pre_work_outputs_lem info inputs (o ∷ os) =
      let step = pre_work_output ops use_count info inputs o in
      let stepped = pre_work_output_lem info inputs o in
      let rest = pre_work_outputs_lem step.0 step.1 os in
      elim (Bool-cases step.3) [
        | inl e ↦
            rw (pre_work_outputs, e)
              (
                λ g.
                    let (below, usable) = rest.0 g in
                    let (below', first) = stepped.0 e in
                    ((omega arith, omega arith), (Usable-Below _ _ _ below first, usable)),
                λ g. inr (rest.1 g),
              )
        | inr e ↦ rw (pre_work_outputs, e) (λ g. cc, λ g. inl (stepped.1 e))
      ]

  -- The loop over the outputs, from minima that it lowers. If it ends, each output has a token, and
  -- each that carries no signals has elements, of which the minimum of all outputs is not more, nor the
  -- minimum of the indexed outputs for one with an index. If it stops, some output has no token, or
  -- carries no signals and has no elements.
  pub pre_work_outputs-AllUsable :
      (info : WorkInfo) (inputs : List (WorkInput A)) (os : List (WorkOutput A M))
      → let (info', inputs', os', ready) = pre_work_outputs ops use_count info inputs os in
        ((ready ≡ true) × Below info' info × AllUsable info' os')
        ⊎ ((ready ≡ false) × SomeBlocked os')
  pre_work_outputs-AllUsable info inputs os =
      let both = pre_work_outputs_lem info inputs os in
      elim (Bool-cases (pre_work_outputs ops use_count info inputs os).3) [
        | inl e ↦ inl (e, (both.0 e).0, (both.0 e).1)
        | inr e ↦ inr (e, both.1 e)
      ]
