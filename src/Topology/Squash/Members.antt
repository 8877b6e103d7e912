-- ===== src/Topology/Squash/Members.antt =====
-- The members of the lists of flows that the loops of squashFlows make.
use pothos_core.Base.{
  List, [], ◌∷◌, Bool, true, false, not, ◌&&◌, Option, none, some, ℕ, ◌==◌, ◌≡◌, refl, sym, ap, ◌∙◌,
  arith, if◌then◌else◌, Bool-cases, inl, inr, ◌↔◌, subst, ==_iff,
}
use mathlib.Core.List.{Memᴰ}
use mathlib.Core.List.Memᴰ
use pothos_core.Topology.{Port, Flow, find_uid}
use pothos_core.Topology.Squash.{
  resolve_ports, flows_to, flows_between, flat_flows, sub_flows, pass_through_flows,
}

flows_to_iff :
    (s : Port) (ds : List Port) (f : Flow)
    → Memᴰ f (flows_to s ds) ↔ ((d : Port) × Memᴰ d ds × (f ≡ record { src = s; dst = d }))
unfolding flows_to
flows_to_iff s [] f = ((λ m. absurd (Memᴰ.not-nil m)), λ (_, m, _). absurd (Memᴰ.not-nil m))
flows_to_iff s (d ∷ ds) f =
    let (there, back) = flows_to_iff s ds f in
    (
      (λ m. elim (Memᴰ.cases_cons m) [
        | inl e ↦ (d, Memᴰ.head refl, e)
        | inr k ↦ (let (x, n, e) = there k in (x, Memᴰ.tail n, e))
      ]),
      λ (x, m, e). elim (Memᴰ.cases_cons m) [
        | inl same ↦ Memᴰ.head (e ∙ ap (λ y. record { src = s; dst = y }) same)
        | inr n ↦ Memᴰ.tail (back (x, n, e))
      ],
    )

pub flows_between_iff :
    (ss ds : List Port) (f : Flow)
    → Memᴰ f (flows_between ss ds)
      ↔ ((s : Port) × (d : Port) × Memᴰ s ss × Memᴰ d ds × (f ≡ record { src = s; dst = d }))
unfolding flows_between
flows_between_iff [] ds f =
    ((λ m. absurd (Memᴰ.not-nil m)), λ (_, _, m, _, _). absurd (Memᴰ.not-nil m))
flows_between_iff (s ∷ ss) ds f =
    let (there, back) = flows_between_iff ss ds f in
    let (here, again) = flows_to_iff s ds f in
    (
      (λ m. elim (Memᴰ.append_cases (flows_to s ds) m) [
        | inl k ↦ (let (d, n, e) = here k in (s, d, Memᴰ.head refl, n, e))
        | inr k ↦ (let (x, d, n, o, e) = there k in (x, d, Memᴰ.tail n, o, e))
      ]),
      λ (x, d, m, n, e). elim (Memᴰ.cases_cons m) [
        | inl same ↦
            Memᴰ.append_left (flows_between ss ds)
              (again (d, n, e ∙ ap (λ y. record { src = y; dst = d }) same))
        | inr k ↦ Memᴰ.append_right (flows_to s ds) (back (x, d, k, n, e))
      ],
    )

if_mem :
    (b c : Bool) (fs : List Flow) (f : Flow)
    → Memᴰ f (if b && c then fs else []) ↔ ((b ≡ true) × (c ≡ true) × Memᴰ f fs)
if_mem true true fs f = ((λ m. (refl, refl, m)), λ (_, _, m). m)
if_mem true false fs f = ((λ m. absurd (Memᴰ.not-nil m)), λ (_, h, _). cc)
if_mem false c fs f = ((λ m. absurd (Memᴰ.not-nil m)), λ (h, _, _). cc)

module _ (topology_at : ℕ → Option (List Flow)) (fuel : ℕ) where
  abbrev pub between : Flow → List Flow
  between g =
      flows_between (resolve_ports topology_at fuel true g.src)
        (resolve_ports topology_at fuel false g.dst)

  pub flat_flows_iff :
      (fs : List Flow) (f : Flow)
      → Memᴰ f (flat_flows topology_at fuel fs)
        ↔ ((g : Flow) × Memᴰ g fs × (g.src.obj ≡ true) × (g.dst.obj ≡ true) × Memᴰ f (between g))
  unfolding flat_flows
  flat_flows_iff [] f = ((λ m. absurd (Memᴰ.not-nil m)), λ (_, m, _, _, _). absurd (Memᴰ.not-nil m))
  flat_flows_iff (g ∷ fs) f =
      let (there, back) = flat_flows_iff fs f in
      let (here, again) = if_mem g.src.obj g.dst.obj (between g) f in
      (
        (λ m. elim (Memᴰ.append_cases (if g.src.obj && g.dst.obj then between g else []) m) [
          | inl k ↦ (let (s, d, n) = here k in (g, Memᴰ.head refl, s, d, n))
          | inr k ↦ (let (x, n, s, d, o) = there k in (x, Memᴰ.tail n, s, d, o))
        ]),
        λ (x, m, s, d, n). elim (Memᴰ.cases_cons m) [
          | inl e ↦ Memᴰ.append_left (flat_flows topology_at fuel fs) (
              again (
                ap (λ y. y.src.obj) (sym e) ∙ s,
                ap (λ y. y.dst.obj) (sym e) ∙ d,
                subst (λ y. Memᴰ f (between y)) e n,
              ))
          | inr k ↦
              Memᴰ.append_right (if g.src.obj && g.dst.obj then between g else [])
                (back (x, k, s, d, n))
        ],
      )

pub pass_through_iff :
    (fs : List Flow) (f : Flow)
    → Memᴰ f (pass_through_flows fs) ↔ (Memᴰ f fs × (f.src.obj ≡ false) × (f.dst.obj ≡ false))
unfolding pass_through_flows
pass_through_iff [] f = ((λ m. absurd (Memᴰ.not-nil m)), λ (m, _, _). absurd (Memᴰ.not-nil m))
pass_through_iff (g ∷ fs) f =
    let (there, back) = pass_through_iff fs f in
    elim (Bool-cases (not g.src.obj && not g.dst.obj)) [
      | inl h ↦
          rw (pass_through_flows, h)
            (
              (λ m. elim (Memᴰ.cases_cons m) [
                | inl e ↦ (
                  Memᴰ.head e,
                  ap (λ y. y.src.obj) e ∙ ground arith,
                  ap (λ y. y.dst.obj) e ∙ ground arith,
                )
                | inr k ↦ (let (n, s, d) = there k in (Memᴰ.tail n, s, d))
              ]),
              λ (m, s, d). elim (Memᴰ.cases_cons m) [
                | inl e ↦ Memᴰ.head e
                | inr k ↦ Memᴰ.tail (back (k, s, d))
              ],
            )
      | inr h ↦
          rw (pass_through_flows, h)
            (
              (λ m. (let (n, s, d) = there m in (Memᴰ.tail n, s, d))),
              λ (m, s, d). elim (Memᴰ.cases_cons m) [
                | inl e ↦
                    (let a = ap (λ y. y.src.obj) e in
                      let b = ap (λ y. y.dst.obj) e in absurd (ground arith))
                | inr k ↦ back (k, s, d)
              ],
            )
    ]

inner_of : Option (List Flow) → (List Flow → List Flow) → List Flow
inner_of o squash = elim o [ none ↦ [] | some flows ↦ squash flows ]

inner_iff :
    (o : Option (List Flow)) (squash : List Flow → List Flow) (f : Flow)
    → Memᴰ f (inner_of o squash) ↔ ((inner : List Flow) × (o ≡ some inner) × Memᴰ f (squash inner))
unfolding inner_of
inner_iff none squash f = ((λ m. absurd (Memᴰ.not-nil m)), λ (_, h, _). cc)
inner_iff (some inner) squash f = (
  (λ m. (inner, refl, m)),
  λ (x, h, m). subst (λ y. Memᴰ f (squash y)) (some-injective x inner (sym h)) m,
)
  where
    some-injective : (a b : List Flow) → some a ≡ some b → a ≡ b
    some-injective a b h = cc

pub sub_flows_iff :
    (topology_at : ℕ → Option (List Flow)) (squash : List Flow → List Flow) (us : List ℕ) (f : Flow)
    → Memᴰ f (sub_flows topology_at squash us) ↔ (
        (u : ℕ) × (inner : List Flow) × (find_uid u us ≡ true)
        × (topology_at u ≡ some inner)
        × Memᴰ f (squash inner))
unfolding sub_flows find_uid inner_of
sub_flows_iff topology_at squash [] f = ((λ m. absurd (Memᴰ.not-nil m)), λ (_, _, h, _, _). cc)
sub_flows_iff topology_at squash (v ∷ us) f =
    let (there, back) = sub_flows_iff topology_at squash us f in
    let (here, again) = inner_iff (topology_at v) squash f in
    (
      (λ m. elim (Memᴰ.append_cases (inner_of (topology_at v) squash) m) [
        | inl k ↦ (let (inner, h, n) = here k in (v, inner, ground arith, h, n))
        | inr k ↦ (let (u, inner, e, h, n) = there k in (u, inner, ground arith, h, n))
      ]),
      λ (u, inner, e, h, n). elim (Bool-cases (u == v)) [
        | inl same ↦
            Memᴰ.append_left (sub_flows topology_at squash us)
              (again (inner, ap topology_at (sym ((==_iff u v).0 same)) ∙ h, n))
        | inr other ↦
            Memᴰ.append_right (inner_of (topology_at v) squash)
              (back (u, inner, (ground arith), h, n))
      ],
    )
