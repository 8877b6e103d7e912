-- ===== src/Topology/Squash/Flatten.antt =====
-- The flows of a nested topology made flat.
use pothos_core.Base.{
  List, [], ◌∷◌, ◌++◌, Bool, true, false, ◌&&◌, Option, some, ℕ, zero, suc, ◌<◌, ◌==◌, ◌≡◌, refl,
  sym, ◌∙◌, arith, Bool-cases, inl, inr, ◌↔◌, subst, ==_iff,
}
use mathlib.Core.List.{Memᴰ}
use mathlib.Core.List.Memᴰ
use pothos_core.Topology.{Port, Flow, find_uid, insert_uids}
use pothos_core.Topology.Blocks.{in_flows, find_uid-insert_uids}
use pothos_core.Topology.Squash.{
  far, resolve_ports, flat_flows, sub_flows, squash_flows, pass_through_flows,
}
use pothos_core.Topology.Squash.Resolve.{
  Resolves, Nested, resolve_ports_sound, resolve_ports_complete,
}
use pothos_core.Topology.Squash.Members.{
  flows_between_iff, pass_through_iff, sub_flows_iff, flat_flows_iff,
}

-- A flow between objects is a flow between any ports that its ends stand for, the flows inside an
-- object count, and a flow between two ports of the topology itself stays for the outer topology.
pub data Flat (topology_at : ℕ → Option (List Flow)) : List Flow → Flow → Type 0 where
  direct :
      (flows : List Flow) (f : Flow) (s d : Port)
      → Memᴰ f flows
      → f.src.obj ≡ true
      → f.dst.obj ≡ true
      → Resolves topology_at true f.src s
      → Resolves topology_at false f.dst d
      → Flat topology_at flows (record { src = s; dst = d })
  nested :
      (flows : List Flow) (u : ℕ) (inner : List Flow) (f : Flow)
      → in_flows u flows ≡ true
      → topology_at u ≡ some inner
      → Flat topology_at inner f
      → Flat topology_at flows f
  passing :
      (flows : List Flow) (f : Flow)
      → Memᴰ f flows
      → f.src.obj ≡ false
      → f.dst.obj ≡ false
      → Flat topology_at flows f

referred :
    (u : ℕ) (fs : List Flow)
    → in_flows u fs ≡ true
    → (f : Flow) × (is_source : Bool) × Memᴰ f fs
      × ((far is_source f).obj ≡ true)
      × (u ≡ (far is_source f).uid)
unfolding in_flows
referred u [] h = cc
referred u (f ∷ fs) h = elim (Bool-cases (f.src.obj && (u == f.src.uid))) [
  | inl a ↦ (f, true, Memᴰ.head refl, ground arith, ground arith)
  | inr a ↦ elim (Bool-cases (f.dst.obj && (u == f.dst.uid))) [
    | inl b ↦ (f, false, Memᴰ.head refl, ground arith, ground arith)
    | inr b ↦ (let (g, s, m, o, e) = referred u fs (ground arith) in (g, s, Memᴰ.tail m, o, e))
  ]
]

refers_first :
    (f : Flow) (xs : List Flow) (is_source : Bool)
    → (far is_source f).obj ≡ true
    → in_flows (far is_source f).uid (f ∷ xs) ≡ true
unfolding in_flows
refers_first f xs true h = ground (arith, ==_iff f.src.uid f.src.uid)
refers_first f xs false h = ground (arith, ==_iff f.dst.uid f.dst.uid)

refers_later :
    (u : ℕ) (x : Flow) (xs : List Flow) → in_flows u xs ≡ true → in_flows u (x ∷ xs) ≡ true
unfolding in_flows
refers_later u x xs h = ground arith

refers_to :
    (fs : List Flow) (f : Flow) (is_source : Bool)
    → Memᴰ f fs
    → (far is_source f).obj ≡ true
    → in_flows (far is_source f).uid fs ≡ true
refers_to [] f s m h = elim m [ ]
refers_to (x ∷ xs) f s (Memᴰ.head e) h =
    subst (λ y. in_flows (far s f).uid (y ∷ xs) ≡ true) e (refers_first f xs s h)
refers_to (x ∷ xs) f s (Memᴰ.tail m) h = refers_later (far s f).uid x xs (refers_to xs f s m h)

squash_flows_sound :
    (topology_at : ℕ → Option (List Flow)) (fuel : ℕ) (flows : List Flow) (f : Flow)
    → Memᴰ f (squash_flows topology_at fuel flows)
    → Flat topology_at flows f
unfolding squash_flows find_uid
squash_flows_sound topology_at zero flows f m = absurd (Memᴰ.not-nil m)
squash_flows_sound topology_at (suc fuel) flows f m =
    elim (Memᴰ.append_cases (flat_flows topology_at fuel flows) m) [
      | inl k ↦
          (let (g, n, so, dobj, o) = (flat_flows_iff topology_at fuel flows f).0 k in
            let (s, d, ms, md, e) =
              (flows_between_iff (resolve_ports topology_at fuel true g.src)
                  (resolve_ports topology_at fuel false g.dst) f).0
                o in
            subst (Flat topology_at flows) (sym e) (
              direct flows g s d n so dobj (resolve_ports_sound topology_at true fuel g.src s ms)
                (resolve_ports_sound topology_at false fuel g.dst d md)))
      | inr k ↦
          elim (Memᴰ.append_cases
            (sub_flows topology_at (squash_flows topology_at fuel) (insert_uids flows [])) k) [
              | inl n ↦
                  (let (u, inner, e, h, o) =
                      (sub_flows_iff topology_at (squash_flows topology_at fuel)
                          (insert_uids flows []) f).0
                        n in
                    nested flows u inner f (sym (find_uid-insert_uids u flows []) ∙ e) h
                      (squash_flows_sound topology_at fuel inner f o))
              | inr n ↦ (let (o, s, d) = (pass_through_iff flows f).0 n in passing flows f o s d)
            ]
    ]

squash_flows_complete :
    (topology_at : ℕ → Option (List Flow)) (rank : ℕ → ℕ)
    → Nested topology_at rank
    → (fuel : ℕ) (flows : List Flow) (f : Flow)
    → ((u : ℕ) → in_flows u flows ≡ true → rank u < fuel)
    → Flat topology_at flows f
    → Memᴰ f (squash_flows topology_at (suc fuel) flows)
unfolding squash_flows find_uid
squash_flows_complete topology_at rank n fuel flows f enough (direct _ g s d m so dobj rs rd) =
    Memᴰ.append_left
      (sub_flows topology_at (squash_flows topology_at fuel) (insert_uids flows [])
        ++ pass_through_flows flows)
      ((flat_flows_iff topology_at fuel flows f).1 (
        g,
        m,
        so,
        dobj,
        (flows_between_iff (resolve_ports topology_at fuel true g.src)
              (resolve_ports topology_at fuel false g.dst) f).1
            (
              s,
              d,
              resolve_ports_complete topology_at true rank n fuel g.src s
                  (enough g.src.uid (refers_to flows g true m so)) rs,
              resolve_ports_complete topology_at false rank n fuel g.dst d
                  (enough g.dst.uid (refers_to flows g false m dobj)) rd,
              refl,
            ),
      ))
squash_flows_complete topology_at rank n zero flows f enough (nested _ u inner _ e h r) =
    (let none_left = enough u e in absurd (omega arith))
squash_flows_complete topology_at rank n (suc fuel) flows f enough (nested _ u inner _ e h r) =
    Memᴰ.append_right (flat_flows topology_at (suc fuel) flows) (
      Memᴰ.append_left (pass_through_flows flows) (
        (sub_flows_iff topology_at (squash_flows topology_at (suc fuel)) (insert_uids flows []) f).1
          (
            u,
            inner,
            find_uid-insert_uids u flows [] ∙ e,
            h,
            squash_flows_complete topology_at rank n fuel inner f
                (λ v k.
                  (let (g, s, m, o, same) = referred v inner k in
                    let below = n u inner h g m s o in
                    let top = enough u e in rw (same) (omega arith)))
                r,
          )))
squash_flows_complete topology_at rank n fuel flows f enough (passing _ _ m s d) =
    Memᴰ.append_right (flat_flows topology_at fuel flows) (
      Memᴰ.append_right
        (sub_flows topology_at (squash_flows topology_at fuel) (insert_uids flows []))
        ((pass_through_iff flows f).1 (m, s, d)))

-- With fuel for the depth of the nesting, the squashed flows are the flat flows, no more and no less.
pub squash_flows_iff :
    (topology_at : ℕ → Option (List Flow)) (rank : ℕ → ℕ) (fuel : ℕ) (flows : List Flow) (f : Flow)
    → Nested topology_at rank
    → ((u : ℕ) → in_flows u flows ≡ true → rank u < fuel)
    → Memᴰ f (squash_flows topology_at (suc fuel) flows) ↔ Flat topology_at flows f
squash_flows_iff topology_at rank fuel flows f n enough = (
  squash_flows_sound topology_at (suc fuel) flows f,
  squash_flows_complete topology_at rank n fuel flows f enough,
)
