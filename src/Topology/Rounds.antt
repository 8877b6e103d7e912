-- ===== src/Topology/Rounds.antt =====
-- A round of subscriptions, for all flows of a list.
use pothos_core.Base.{
  List, [], ◌∷◌, Bool, true, false, not, ◌&&◌, ◌||◌, none, ◌≡◌, refl, ap, ◌∙◌, arith, if◌then◌else◌,
}
use pothos_core.Topology.{
  Port, Flow, same_flow, find_flow, minus, Wiring, add, remove, subscribe, subscribe_port,
  update_flows,
}
use pothos_core.Topology.Same.{
  same_flow_refl, same_flow_right, find_flow_same, find_flow-minus, count_port, find_port_one,
}
use pothos_core.Topology.Wired.{
  bit, Wired, added, removed, subscribe_port-add, subscribe_port-remove, DistinctFlows, Respects,
  added-Wired, removed-Wired,
}

-- the set of a list of flows
abbrev pub in_list : List Flow → Flow → Bool
in_list fs f = find_flow f fs

pub Wired-ext : (s t : Flow → Bool) (w : Wiring) → ((f : Flow) → s f ≡ t f) → Wired s w → Wired t w
Wired-ext s t w e h = record {
  out = λ f. h.out f ∙ ap bit (e f);
  inp = λ f. h.inp f ∙ ap bit (e f);
}

-- Flows of which none is in the set, nor twice in the list, can all be added.
pub update_flows-add :
    (s : Flow → Bool) (fs : List Flow) (w : Wiring)
    → Respects s
    → Wired s w
    → DistinctFlows fs
    → ((f : Flow) → find_flow f fs ≡ true → s f ≡ false)
    → ((update_flows add fs w).1 ≡ false)
      × Wired (λ f. s f || find_flow f fs) (update_flows add fs w).0
unfolding update_flows DistinctFlows find_flow
update_flows-add s [] w resp h d new =
    (refl, Wired-ext s (λ f. s f || false) w (λ f. ground arith) h)
update_flows-add s (f ∷ fs) w resp h (once, d) new =
    let absent = new f (ground (arith, same_flow_refl f)) in
    let s' : Flow → Bool = λ g. same_flow f g || s g in
    let resp' : Respects s' =
      λ g k e. (let a = resp g k e in ground (arith, same_flow_right f g k e)) in
    let (ok, h') =
      update_flows-add s' fs (added f w) resp' (added-Wired s f w resp h absent) d
        (λ g e. (let a = new g in let b = find_flow_same f g fs in ground arith)) in
    let eq = subscribe_port-add s f w h absent in
    rw (eq) (
      ok,
      Wired-ext (λ g. s' g || find_flow g fs) (λ g. s g || (same_flow f g || find_flow g fs))
          (update_flows add fs (added f w)).0 (λ g. ground arith) h',
    )

-- Flows that are in the set, each once in the list, can all be removed.
pub update_flows-remove :
    (s : Flow → Bool) (fs : List Flow) (w : Wiring)
    → Respects s
    → Wired s w
    → DistinctFlows fs
    → ((f : Flow) → find_flow f fs ≡ true → s f ≡ true)
    → ((update_flows remove fs w).1 ≡ false)
      × Wired (λ f. s f && not (find_flow f fs)) (update_flows remove fs w).0
unfolding update_flows DistinctFlows find_flow
update_flows-remove s [] w resp h d old =
    (refl, Wired-ext s (λ f. s f && true) w (λ f. ground arith) h)
update_flows-remove s (f ∷ fs) w resp h (once, d) old =
    let there = old f (ground (arith, same_flow_refl f)) in
    let s' : Flow → Bool = λ g. s g && not (same_flow f g) in
    let resp' : Respects s' =
      λ g k e. (let a = resp g k e in ground (arith, same_flow_right f g k e)) in
    let (ok, h') =
      update_flows-remove s' fs (removed f w) resp' (removed-Wired s f w resp h there) d
        (λ g e. (let a = old g in let b = find_flow_same f g fs in ground arith)) in
    let eq = subscribe_port-remove s f w h there in
    rw (eq) (
      ok,
      Wired-ext (λ g. s' g && not (find_flow g fs))
          (λ g. s g && not (same_flow f g || find_flow g fs))
          (update_flows remove fs (removed f w)).0 (λ g. ground arith) h',
    )

pub minus-DistinctFlows : (fs gs : List Flow) → DistinctFlows fs → DistinctFlows (minus fs gs)
unfolding minus DistinctFlows
minus-DistinctFlows [] gs d = tt
minus-DistinctFlows (f ∷ fs) gs (once, d) =
    elim (find_flow f gs) as (λ b. DistinctFlows (if b then minus fs gs else f ∷ minus fs gs)) [
      | true ↦ minus-DistinctFlows fs gs d
      | false ↦ (ground (arith, find_flow-minus f fs gs), minus-DistinctFlows fs gs d)
    ]

pub in_list-Respects : (fs : List Flow) → Respects (in_list fs)
in_list-Respects fs f g h = find_flow_same f g fs h

-- A flow that is in the set cannot be added.
subscribe_again : (p : Port) (qs : List Port) → count_port p qs ≡ 1 → subscribe add p qs ≡ none
unfolding subscribe
subscribe_again p qs h = rw (find_port_one p qs h) refl

subscribe_port_again :
    (s : Flow → Bool) (f : Flow) (w : Wiring)
    → Wired s w
    → s f ≡ true
    → subscribe_port add f w ≡ (w, true)
unfolding subscribe_port
subscribe_port_again s f w h there =
    rw (subscribe_port, subscribe_again f.dst (w.outputs f.src) (h.out f ∙ ap bit there)) refl

pub update_flows_again :
    (s : Flow → Bool) (f : Flow) (fs : List Flow) (w : Wiring)
    → Wired s w
    → s f ≡ true
    → (update_flows add (f ∷ fs) w).1 ≡ true
unfolding update_flows
update_flows_again s f fs w h there = rw (subscribe_port_again s f w h there) refl

-- Flows that are in the set are refused one by one, and change nothing.
pub update_flows_kept :
    (s : Flow → Bool) (fs : List Flow) (w : Wiring)
    → Wired s w
    → ((f : Flow) → find_flow f fs ≡ true → s f ≡ true)
    → (update_flows add fs w).0 ≡ w
unfolding update_flows find_flow
update_flows_kept s [] w h there = refl
update_flows_kept s (f ∷ fs) w h there =
    let first = there f (ground (arith, same_flow_refl f)) in
    rw (subscribe_port_again s f w h first)
      (update_flows_kept s fs w h (λ g e. (let a = there g in ground arith)))
