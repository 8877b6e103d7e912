-- ===== src/Topology/Squash/Through.antt =====
-- The flows through a topology, from one of its inputs straight to one of its outputs.
use pothos_core.Base.{
  List, [], ◌∷◌, ◌++◌, Bool, true, false, ◌&&◌, ◌||◌, ◌≡◌, refl, sym, ap, ◌∙◌, if◌then◌else◌, inl,
  inr, ◌⊎◌, ◌↔◌, subst,
}
use mathlib.Core.List.{Memᴰ}
use mathlib.Core.List.Memᴰ
use pothos_core.Topology.{Flow, same_port}
use pothos_core.Topology.Squash.{
  completed_heads, completed_tails, completed, whole_flows, complete_pass_through_flows,
}

-- A pass-through flow, a flow that leaves the topology from the port it comes from, and one
-- that enters the topology at the port it goes to, make one flow between objects.
pub record Chain (flows : List Flow) (f : Flow) : Type 0 where
  pub flow : Flow
  pub tail : Flow
  pub head : Flow
  pub flow_in : Memᴰ flow flows
  pub tail_in : Memᴰ tail flows
  pub head_in : Memᴰ head flows
  pub passes : (flow.src.obj || flow.dst.obj) ≡ false
  pub ends : tail.dst.obj ≡ true
  pub starts : (head.src.obj && (same_port flow.src tail.src && same_port flow.dst head.dst)) ≡ true
  pub made : f ≡ record { src = head.src; dst = tail.dst }

-- the members of a list with an element that is put in front under a test
cons_if :
    (b : Bool) (x f : Flow) (fs : List Flow)
    → Memᴰ f (if b then x ∷ fs else fs) ↔ (((b ≡ true) × (f ≡ x)) ⊎ Memᴰ f fs)
cons_if true x f fs = (
  (λ m. elim (Memᴰ.cases_cons m) [ inl e ↦ inl (refl, e) | inr k ↦ inr k ]),
  λ c. elim c [ inl (_, e) ↦ Memᴰ.head e | inr k ↦ Memᴰ.tail k ],
)
cons_if false x f fs = ((λ m. inr m), λ c. elim c [ inl (h, _) ↦ cc | inr k ↦ k ])

append_if :
    (b : Bool) (xs : List Flow) (f : Flow) (fs : List Flow)
    → Memᴰ f (if b then xs ++ fs else fs) ↔ (((b ≡ true) × Memᴰ f xs) ⊎ Memᴰ f fs)
append_if true xs f fs = (
  (λ m. elim (Memᴰ.append_cases xs m) [ inl k ↦ inl (refl, k) | inr k ↦ inr k ]),
  λ c. elim c [ inl (_, k) ↦ Memᴰ.append_left fs k | inr k ↦ Memᴰ.append_right xs k ],
)
append_if false xs f fs = ((λ m. inr m), λ c. elim c [ inl (h, _) ↦ cc | inr k ↦ k ])

append_unless :
    (b : Bool) (xs : List Flow) (f : Flow) (fs : List Flow)
    → Memᴰ f (if b then fs else xs ++ fs) ↔ (((b ≡ false) × Memᴰ f xs) ⊎ Memᴰ f fs)
append_unless false xs f fs = (
  (λ m. elim (Memᴰ.append_cases xs m) [ inl k ↦ inl (refl, k) | inr k ↦ inr k ]),
  λ c. elim c [ inl (_, k) ↦ Memᴰ.append_left fs k | inr k ↦ Memᴰ.append_right xs k ],
)
append_unless true xs f fs = ((λ m. inr m), λ c. elim c [ inl (h, _) ↦ cc | inr k ↦ k ])

abbrev starts_at : Flow → Flow → Flow → Bool
starts_at flow tail head =
    head.src.obj && (same_port flow.src tail.src && same_port flow.dst head.dst)

heads_iff :
    (flow tail : Flow) (hs : List Flow) (f : Flow)
    → Memᴰ f (completed_heads flow tail hs) ↔ (
        (h : Flow) × Memᴰ h hs
        × (starts_at flow tail h ≡ true)
        × (f ≡ record { src = h.src; dst = tail.dst }))
unfolding completed_heads
heads_iff flow tail [] f = ((λ m. absurd (Memᴰ.not-nil m)), λ (_, m, _, _). absurd (Memᴰ.not-nil m))
heads_iff flow tail (h ∷ hs) f =
    let (there, back) = heads_iff flow tail hs f in
    let (here, again) =
      cons_if (starts_at flow tail h) (record { src = h.src; dst = tail.dst }) f
        (completed_heads flow tail hs) in
    (
      (λ m. elim (here m) [
        | inl (b, e) ↦ (h, Memᴰ.head refl, b, e)
        | inr k ↦ (let (x, n, b, e) = there k in (x, Memᴰ.tail n, b, e))
      ]),
      λ (x, m, b, e). elim (Memᴰ.cases_cons m) [
        | inl s ↦ again (
            inl (
              subst (λ y. starts_at flow tail y ≡ true) s b,
              e ∙ ap (λ y. record { src = y.src; dst = tail.dst }) s,
            ))
        | inr n ↦ again (inr (back (x, n, b, e)))
      ],
    )

tails_iff :
    (flow : Flow) (hs ts : List Flow) (f : Flow)
    → Memᴰ f (completed_tails flow hs ts)
      ↔ ((t : Flow) × Memᴰ t ts × (t.dst.obj ≡ true) × Memᴰ f (completed_heads flow t hs))
unfolding completed_tails
tails_iff flow hs [] f = ((λ m. absurd (Memᴰ.not-nil m)), λ (_, m, _, _). absurd (Memᴰ.not-nil m))
tails_iff flow hs (t ∷ ts) f =
    let (there, back) = tails_iff flow hs ts f in
    let (here, again) =
      append_if t.dst.obj (completed_heads flow t hs) f (completed_tails flow hs ts) in
    (
      (λ m. elim (here m) [
        | inl (b, e) ↦ (t, Memᴰ.head refl, b, e)
        | inr k ↦ (let (x, n, b, e) = there k in (x, Memᴰ.tail n, b, e))
      ]),
      λ (x, m, b, e). elim (Memᴰ.cases_cons m) [
        | inl s ↦ again (
            inl (
              ap (λ y. y.dst.obj) (sym s) ∙ b,
              subst (λ y. Memᴰ f (completed_heads flow y hs)) s e,
            ))
        | inr n ↦ again (inr (back (x, n, b, e)))
      ],
    )

completed_iff :
    (flows fs : List Flow) (f : Flow)
    → Memᴰ f (completed flows fs) ↔ (
        (p : Flow) × Memᴰ p fs
        × ((p.src.obj || p.dst.obj) ≡ false)
        × Memᴰ f (completed_tails p flows flows))
unfolding completed
completed_iff flows [] f = ((λ m. absurd (Memᴰ.not-nil m)), λ (_, m, _, _). absurd (Memᴰ.not-nil m))
completed_iff flows (p ∷ fs) f =
    let (there, back) = completed_iff flows fs f in
    let (here, again) =
      append_unless (p.src.obj || p.dst.obj) (completed_tails p flows flows) f
        (completed flows fs) in
    (
      (λ m. elim (here m) [
        | inl (b, e) ↦ (p, Memᴰ.head refl, b, e)
        | inr k ↦ (let (x, n, b, e) = there k in (x, Memᴰ.tail n, b, e))
      ]),
      λ (x, m, b, e). elim (Memᴰ.cases_cons m) [
        | inl s ↦ again (
            inl (
              ap (λ y. y.src.obj || y.dst.obj) (sym s) ∙ b,
              subst (λ y. Memᴰ f (completed_tails y flows flows)) s e,
            ))
        | inr n ↦ again (inr (back (x, n, b, e)))
      ],
    )

whole_iff :
    (fs : List Flow) (f : Flow)
    → Memᴰ f (whole_flows fs) ↔ (Memᴰ f fs × ((f.src.obj && f.dst.obj) ≡ true))
unfolding whole_flows
whole_iff [] f = ((λ m. absurd (Memᴰ.not-nil m)), λ (m, _). absurd (Memᴰ.not-nil m))
whole_iff (g ∷ fs) f =
    let (there, back) = whole_iff fs f in
    let (here, again) = cons_if (g.src.obj && g.dst.obj) g f (whole_flows fs) in
    (
      (λ m. elim (here m) [
        | inl (b, e) ↦ (Memᴰ.head e, ap (λ y. y.src.obj && y.dst.obj) e ∙ b)
        | inr k ↦ (let (n, b) = there k in (Memᴰ.tail n, b))
      ]),
      λ (m, b). elim (Memᴰ.cases_cons m) [
        | inl e ↦ again (inl (ap (λ y. y.src.obj && y.dst.obj) (sym e) ∙ b, e))
        | inr n ↦ again (inr (back (n, b)))
      ],
    )

-- The completed flows are the flows between objects and those that a chain through one topology makes.
pub complete_pass_through_flows_iff :
    (flows : List Flow) (f : Flow)
    → Memᴰ f (complete_pass_through_flows flows)
      ↔ (Chain flows f ⊎ (Memᴰ f flows × ((f.src.obj && f.dst.obj) ≡ true)))
unfolding complete_pass_through_flows
complete_pass_through_flows_iff flows f = (
  (λ m. elim (Memᴰ.append_cases (completed flows flows) m) [
    | inl k ↦
        (let (p, pin, passes, n) = (completed_iff flows flows f).0 k in
          let (t, tin, ends, o) = (tails_iff p flows flows f).0 n in
          let (h, hin, starts, made) = (heads_iff p t flows f).0 o in
          inl (record {
            flow = p;
            tail = t;
            head = h;
            flow_in = pin;
            tail_in = tin;
            head_in = hin;
            passes = passes;
            ends = ends;
            starts = starts;
            made = made;
          }))
    | inr k ↦ inr ((whole_iff flows f).0 k)
  ]),
  λ c. elim c [
    | inl ch ↦ Memᴰ.append_left (whole_flows flows) (
        (completed_iff flows flows f).1 (
          ch.flow,
          ch.flow_in,
          ch.passes,
          (tails_iff ch.flow flows flows f).1 (
            ch.tail,
            ch.tail_in,
            ch.ends,
            (heads_iff ch.flow ch.tail flows f).1 (ch.head, ch.head_in, ch.starts, ch.made),
          ),
        ))
    | inr w ↦ Memᴰ.append_right (completed flows flows) ((whole_iff flows f).1 w)
  ],
)
