-- ===== src/Topology/Squash/Resolve.antt =====
-- The ports that a port of a nested topology stands for.
use pothos_core.Base.{
  List, [], ◌∷◌, Bool, true, false, not, ◌&&◌, Option, none, some, ℕ, zero, suc, ◌<◌, ◌==◌, ◌≡◌,
  refl, sym, ap, arith, if◌then◌else◌, Option-cases, inl, inr, ◌⊎◌, ◌↔◌, subst, ==_iff,
}
use mathlib.Core.List.{Memᴰ}
use mathlib.Core.List.Memᴰ
use pothos_core.Topology.{Port, Flow}
use pothos_core.Topology.Squash.{far, near, ports_from_topology, resolve_ports}

-- A port of a block stands for itself. A port of a topology stands for what the far ends of the
-- inner flows at its name stand for; an end that is a port of the topology itself is left so.
pub data Resolves (topology_at : ℕ → Option (List Flow)) (is_source : Bool)
    : Port → Port → Type 0 where
  block : (p : Port) → topology_at p.uid ≡ none → Resolves topology_at is_source p p
  inside :
      (p q : Port) (flows : List Flow) (f : Flow)
      → topology_at p.uid ≡ some flows
      → Memᴰ f flows
      → (near is_source f).obj ≡ false
      → (near is_source f).name ≡ p.name
      → (far is_source f).obj ≡ true
      → Resolves topology_at is_source (far is_source f) q
      → Resolves topology_at is_source p q
  through :
      (p : Port) (flows : List Flow) (f : Flow)
      → topology_at p.uid ≡ some flows
      → Memᴰ f flows
      → (near is_source f).obj ≡ false
      → (near is_source f).name ≡ p.name
      → (far is_source f).obj ≡ false
      → Resolves topology_at is_source p (far is_source f)

-- Topologies lie inside each other, never in a circle: those inside have the smaller rank.
abbrev pub Nested : (ℕ → Option (List Flow)) → (ℕ → ℕ) → Type 0
Nested topology_at rank =
    (u : ℕ) (flows : List Flow)
    → topology_at u ≡ some flows
    → (f : Flow) → Memᴰ f flows
    → (is_source : Bool) → (far is_source f).obj ≡ true
    → rank (far is_source f).uid < rank u

-- what one flow adds to the ports of a topology
abbrev At : (Port → List Port) → Bool → ℕ → Flow → Port → Type 0
At resolve is_source name f q =
    ((near is_source f).obj ≡ false)
    × ((near is_source f).name ≡ name)
    × ((((far is_source f).obj ≡ true) × Memᴰ q (resolve (far is_source f)))
        ⊎ (((far is_source f).obj ≡ false) × (q ≡ far is_source f)))

abbrev picked : (Port → List Port) → Bool → ℕ → Flow → List Port
picked resolve is_source name f =
    if ((near is_source f).name == name) && not (near is_source f).obj
    then (if (far is_source f).obj then resolve (far is_source f) else far is_source f ∷ [])
    else []

picked_lem :
    (ports : List Port) (named outer reached : Bool) (p q : Port)
    → Memᴰ q (if named && not outer then (if reached then ports else p ∷ []) else []) ↔ (
        (outer ≡ false)
        × (named ≡ true)
        × (((reached ≡ true) × Memᴰ q ports) ⊎ ((reached ≡ false) × (q ≡ p))))
picked_lem ports true false true p q =
    ((λ m. (refl, refl, inl (refl, m))), λ (_, _, c). elim c [ inl (_, m) ↦ m | inr (h, _) ↦ cc ])
picked_lem ports true false false p q = (
  (λ m. (refl, refl, inr (refl, Memᴰ.eq_of_singleton m))),
  λ (_, _, c). elim c [ inl (h, _) ↦ cc | inr (_, e) ↦ Memᴰ.head e ],
)
picked_lem ports true true reached p q = ((λ m. absurd (Memᴰ.not-nil m)), λ (h, _, _). cc)
picked_lem ports false outer reached p q = ((λ m. absurd (Memᴰ.not-nil m)), λ (_, h, _). cc)

picked_iff :
    (resolve : Port → List Port) (is_source : Bool) (name : ℕ) (f : Flow) (q : Port)
    → Memᴰ q (picked resolve is_source name f) ↔ At resolve is_source name f q
picked_iff resolve is_source name f q =
    let (there, back) =
      picked_lem (resolve (far is_source f)) ((near is_source f).name == name)
        (near is_source f).obj (far is_source f).obj (far is_source f) q in
    let (named, same) = ==_iff (near is_source f).name name in
    ((λ m. (let (a, b, c) = there m in (a, named b, c))), λ (a, b, c). back (a, same b, c))

ports_iff :
    (resolve : Port → List Port) (is_source : Bool) (name : ℕ) (fs : List Flow) (q : Port)
    → Memᴰ q (ports_from_topology resolve is_source name fs)
      ↔ ((f : Flow) × Memᴰ f fs × At resolve is_source name f q)
unfolding ports_from_topology
ports_iff resolve is_source name [] q =
    ((λ m. absurd (Memᴰ.not-nil m)), λ (_, m, _). absurd (Memᴰ.not-nil m))
ports_iff resolve is_source name (f ∷ fs) q =
    let (there, back) = picked_iff resolve is_source name f q in
    let (later, earlier) = ports_iff resolve is_source name fs q in
    (
      (λ m. elim (Memᴰ.append_cases (picked resolve is_source name f) m) [
        | inl here ↦ (f, Memᴰ.head refl, there here)
        | inr more ↦ (let (g, k, a) = later more in (g, Memᴰ.tail k, a))
      ]),
      λ (g, m, a). elim (Memᴰ.cases_cons m) [
        | inl e ↦
            Memᴰ.append_left (ports_from_topology resolve is_source name fs)
              (back (subst (λ h. At resolve is_source name h q) e a))
        | inr k ↦ Memᴰ.append_right (picked resolve is_source name f) (earlier (g, k, a))
      ],
    )

resolve_ports_block :
    (topology_at : ℕ → Option (List Flow)) (fuel : ℕ) (is_source : Bool) (p : Port)
    → topology_at p.uid ≡ none
    → resolve_ports topology_at (suc fuel) is_source p ≡ p ∷ []
unfolding resolve_ports
resolve_ports_block topology_at fuel is_source p h =
    ap
      (λ o. elim o [
        | none ↦ p ∷ []
        | some flows ↦
            ports_from_topology (resolve_ports topology_at fuel is_source) is_source p.name flows
      ])
      h

resolve_ports_inside :
    (topology_at : ℕ → Option (List Flow)) (fuel : ℕ) (is_source : Bool) (p : Port)
    (flows : List Flow)
    → topology_at p.uid ≡ some flows
    → resolve_ports topology_at (suc fuel) is_source p
      ≡ ports_from_topology (resolve_ports topology_at fuel is_source) is_source p.name flows
unfolding resolve_ports
resolve_ports_inside topology_at fuel is_source p flows h =
    ap
      (λ o. elim o [
        | none ↦ p ∷ []
        | some flows ↦
            ports_from_topology (resolve_ports topology_at fuel is_source) is_source p.name flows
      ])
      h

module _ (topology_at : ℕ → Option (List Flow)) (is_source : Bool) where
  pub resolve_ports_sound :
      (fuel : ℕ) (p q : Port)
      → Memᴰ q (resolve_ports topology_at fuel is_source p)
      → Resolves topology_at is_source p q
  unfolding resolve_ports
  resolve_ports_sound zero p q m = absurd (Memᴰ.not-nil m)
  resolve_ports_sound (suc fuel) p q m = elim (Option-cases (topology_at p.uid)) [
    | inl h ↦
        (let e =
            Memᴰ.eq_of_singleton
              (subst (Memᴰ q) (resolve_ports_block topology_at fuel is_source p h) m) in
          subst (Resolves topology_at is_source p) (sym e) (block p h))
    | inr (flows, h) ↦
        (let (f, k, (outer, named, c)) =
            (ports_iff (resolve_ports topology_at fuel is_source) is_source p.name flows q).0
              (subst (Memᴰ q) (resolve_ports_inside topology_at fuel is_source p flows h) m) in
          elim c [
            | inl (obj, n) ↦
                inside p q flows f h k outer named obj
                  (resolve_ports_sound fuel (far is_source f) q n)
            | inr (obj, e) ↦
                subst (Resolves topology_at is_source p) (sym e)
                  (through p flows f h k outer named obj)
          ])
  ]

  pub resolve_ports_complete :
      (rank : ℕ → ℕ)
      → Nested topology_at rank
      → (fuel : ℕ) (p q : Port) → rank p.uid < fuel
      → Resolves topology_at is_source p q
      → Memᴰ q (resolve_ports topology_at fuel is_source p)
  resolve_ports_complete rank nested zero p q enough r = absurd (omega arith)
  resolve_ports_complete rank nested (suc fuel) p q enough (block _ h) =
      subst (Memᴰ p) (sym (resolve_ports_block topology_at fuel is_source p h)) (Memᴰ.head refl)
  resolve_ports_complete rank nested (suc fuel) p q enough
        (inside _ _ flows f h k outer named obj r) =
      let deeper = nested p.uid flows h f k is_source obj in
      subst (Memᴰ q) (sym (resolve_ports_inside topology_at fuel is_source p flows h)) (
        (ports_iff (resolve_ports topology_at fuel is_source) is_source p.name flows q).1 (
          f,
          k,
          (
            outer,
            named,
            inl (obj, resolve_ports_complete rank nested fuel (far is_source f) q (omega arith) r),
          ),
        ))
  resolve_ports_complete rank nested (suc fuel) p q enough (through _ flows f h k outer named obj) =
      subst (Memᴰ (far is_source f))
        (sym (resolve_ports_inside topology_at fuel is_source p flows h))
        ((ports_iff (resolve_ports topology_at fuel is_source) is_source p.name flows
            (far is_source f)).1
          (f, k, (outer, named, inr (obj, refl))))

-- With fuel for the depth of the nesting, `resolvePorts` of a port is just the ports that it stands for.
pub resolve_ports_iff :
    (topology_at : ℕ → Option (List Flow)) (rank : ℕ → ℕ) (is_source : Bool) (fuel : ℕ) (p q : Port)
    → Nested topology_at rank
    → rank p.uid < fuel
    → Memᴰ q (resolve_ports topology_at fuel is_source p) ↔ Resolves topology_at is_source p q
resolve_ports_iff topology_at rank is_source fuel p q nested enough = (
  resolve_ports_sound topology_at is_source fuel p q,
  resolve_ports_complete topology_at is_source rank nested fuel p q enough,
)
