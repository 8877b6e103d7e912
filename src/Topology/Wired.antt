-- ===== src/Topology/Wired.antt =====
-- The subscriptions as a set of flows.
use pothos_core.Base.{
  List, [], ◌∷◌, ◌++◌, Bool, true, false, not, ◌&&◌, ◌||◌, some, ℕ, ◌≡◌, refl, ap, ◌∙◌, arith,
  if◌then◌else◌,
}
use pothos_core.Topology.{
  Port, Flow, same_flow, find_flow, erase_port, Wiring, add, remove, subscribe, write,
  subscribe_port,
}
use pothos_core.Topology.Same.{
  same_port_comm, same_port_refl, count_port, count_port-append, count_port-erase_port,
  find_port_zero, find_port_one,
}

abbrev pub bit : Bool → ℕ
bit b = if b then 1 else 0

-- Both ports of each flow in the set, and of absent other, know each other, once.
pub record Wired (s : Flow → Bool) (w : Wiring) : Type 0 where
  pub out : (f : Flow) → count_port f.dst (w.outputs f.src) ≡ bit (s f)
  pub inp : (f : Flow) → count_port f.src (w.inputs f.dst) ≡ bit (s f)

subscribe-add :
    (p : Port) (qs : List Port) → count_port p qs ≡ 0 → subscribe add p qs ≡ some (qs ++ p ∷ [])
unfolding subscribe
subscribe-add p qs h = rw (find_port_zero p qs h) refl

subscribe-remove :
    (p : Port) (qs : List Port)
    → count_port p qs ≡ 1
    → subscribe remove p qs ≡ some (erase_port p qs)
unfolding subscribe
subscribe-remove p qs h = rw (find_port_one p qs h) refl

-- the subscriptions after a flow is added, and after one is removed
abbrev pub added : Flow → Wiring → Wiring
added f w = record {
  outputs = write f.src (w.outputs f.src ++ f.dst ∷ []) w.outputs;
  inputs = write f.dst (w.inputs f.dst ++ f.src ∷ []) w.inputs;
}

abbrev pub removed : Flow → Wiring → Wiring
removed f w = record {
  outputs = write f.src (erase_port f.dst (w.outputs f.src)) w.outputs;
  inputs = write f.dst (erase_port f.src (w.inputs f.dst)) w.inputs;
}

pub subscribe_port-add :
    (s : Flow → Bool) (f : Flow) (w : Wiring)
    → Wired s w
    → s f ≡ false
    → subscribe_port add f w ≡ (added f w, false)
unfolding subscribe_port
subscribe_port-add s f w h absent =
    rw
      (
        subscribe_port,
        subscribe-add f.dst (w.outputs f.src) (h.out f ∙ ap bit absent),
        subscribe-add f.src (w.inputs f.dst) (h.inp f ∙ ap bit absent),
      )
      refl

pub subscribe_port-remove :
    (s : Flow → Bool) (f : Flow) (w : Wiring)
    → Wired s w
    → s f ≡ true
    → subscribe_port remove f w ≡ (removed f w, false)
unfolding subscribe_port
subscribe_port-remove s f w h there =
    rw
      (
        subscribe_port,
        subscribe-remove f.dst (w.outputs f.src) (h.out f ∙ ap bit there),
        subscribe-remove f.src (w.inputs f.dst) (h.inp f ∙ ap bit there),
      )
      refl

-- no flow twice
unfoldable pub DistinctFlows : List Flow → Type 0
DistinctFlows [] = Unit
DistinctFlows (f ∷ fs) = (find_flow f fs ≡ false) × DistinctFlows fs

-- A set does not tell flows apart that compare equal.
abbrev pub Respects : (Flow → Bool) → Type 0
Respects s = (f g : Flow) → same_flow f g ≡ true → s f ≡ s g

pub added-Wired :
    (s : Flow → Bool) (f : Flow) (w : Wiring)
    → Respects s
    → Wired s w
    → s f ≡ false
    → Wired (λ g. same_flow f g || s g) (added f w)
unfolding same_flow
added-Wired s f w resp h absent = record {
  out = λ g.
      (let mid : Flow = record { src = f.src; dst = g.dst } in
        let a = h.out g in
        let b = h.out mid in
        let c = count_port-append g.dst f.dst (w.outputs f.src) in
        let d = resp f g in
        let e = resp mid g in
        let k = same_port_refl g.dst in let l = same_port_comm f.dst g.dst in grind arith);
  inp = λ g.
      (let mid : Flow = record { src = g.src; dst = f.dst } in
        let a = h.inp g in
        let b = h.inp mid in
        let c = count_port-append g.src f.src (w.inputs f.dst) in
        let d = resp f g in
        let e = resp mid g in
        let k = same_port_refl g.src in let l = same_port_comm f.src g.src in grind arith);
}

pub removed-Wired :
    (s : Flow → Bool) (f : Flow) (w : Wiring)
    → Respects s
    → Wired s w
    → s f ≡ true
    → Wired (λ g. s g && not (same_flow f g)) (removed f w)
unfolding same_flow
removed-Wired s f w resp h there = record {
  out = λ g.
      (let mid : Flow = record { src = f.src; dst = g.dst } in
        let a = h.out g in
        let b = h.out mid in
        let c = count_port-erase_port g.dst f.dst (w.outputs f.src) in
        let d = resp f g in
        let e = resp mid g in
        let k = same_port_refl g.dst in let l = same_port_comm f.dst g.dst in grind arith);
  inp = λ g.
      (let mid : Flow = record { src = g.src; dst = f.dst } in
        let a = h.inp g in
        let b = h.inp mid in
        let c = count_port-erase_port g.src f.src (w.inputs f.dst) in
        let d = resp f g in
        let e = resp mid g in
        let k = same_port_refl g.src in let l = same_port_comm f.src g.src in grind arith);
}
