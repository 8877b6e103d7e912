-- ===== src/Topology/Connect/Drops.antt =====
-- What a disconnection keeps of a topology.
use pothos_core.Base.{
  List, [], ◌∷◌, true, false, not, Option, none, some, ℕ, ◌==◌, ◌≡◌, refl, arith, if◌then◌else◌,
  Bool-cases, inl, inr, ◌>>=◌,
}
use pothos_core.Topology.{Flow, same_flow, find_flow}
use pothos_core.Topology.Wired.{DistinctFlows}
use pothos_core.Topology.Connect.{
  Infos, Topology, make_port, erase_name, Objects, erase_flow, clear_ports, remove_flow, disconnect,
  names_out, names_in, has,
}
use pothos_core.Topology.Connect.Laws.{Informed}
use pothos_core.Topology.Connect.Keeps.{Valid}

-- what a removal of a name leaves, if it is there
abbrev Left : Infos → Option (List ℕ) → Type 0
Left infos none = Unit
Left infos (some ns) = Informed ns infos

erase_name-Left :
    (n : ℕ) (ns : List ℕ) (infos : Infos) → Informed ns infos → Left infos (erase_name n ns)
unfolding erase_name Informed
erase_name-Left n [] infos v = tt
erase_name-Left n (k ∷ ns) infos (i, v) =
    elim (k == n)
      as (λ b.
        Left infos (
          if b
          then some ns
          else elim (erase_name n ns) [ none ↦ none | some ks ↦ some (k ∷ ks) ])) [
            | true ↦ v
            | false ↦ prepended (erase_name n ns) (erase_name-Left n ns infos v)
          ]
  where
    prepended :
        (o : Option (List ℕ))
        → Left infos o
        → Left infos (elim o [ none ↦ none | some ks ↦ some (k ∷ ks) ])
    prepended none h = tt
    prepended (some ks) h = (i, h)

erase_flow-find :
    (f g : Flow) (fs : List Flow) → find_flow f fs ≡ false → find_flow f (erase_flow g fs) ≡ false
unfolding find_flow erase_flow
erase_flow-find f g [] h = refl
erase_flow-find f g (x ∷ fs) h = ground (arith, erase_flow-find f g fs)

erase_flow-DistinctFlows :
    (f : Flow) (fs : List Flow) → DistinctFlows fs → DistinctFlows (erase_flow f fs)
unfolding erase_flow DistinctFlows
erase_flow-DistinctFlows f [] d = tt
erase_flow-DistinctFlows f (x ∷ fs) (once, d) =
    elim (same_flow x f) as (λ b. DistinctFlows (if b then fs else x ∷ erase_flow f fs)) [
      | true ↦ d
      | false ↦ (erase_flow-find x f fs once, erase_flow-DistinctFlows f fs d)
    ]

abbrev ValidIf : Option Topology → Type 0
ValidIf none = Unit
ValidIf (some t) = Valid t

clear_ports-Valid : (f : Flow) (t : Topology) → Valid t → ValidIf (clear_ports f t)
unfolding clear_ports
clear_ports-Valid f t v =
    let outs : Left t.output_port_info (
        if f.src.obj then some t.output_port_names else erase_name f.src.name t.output_port_names) =
      elim (f.src.obj)
        as (λ b.
          Left t.output_port_info
            (if b then some t.output_port_names else erase_name f.src.name t.output_port_names)) [
              | true ↦ v.outputs
              | false ↦ erase_name-Left f.src.name t.output_port_names t.output_port_info v.outputs
            ] in
    let ins : Left t.input_port_info
        (if f.dst.obj then some t.input_port_names else erase_name f.dst.name t.input_port_names) =
      elim (f.dst.obj)
        as (λ b.
          Left t.input_port_info
            (if b then some t.input_port_names else erase_name f.dst.name t.input_port_names)) [
              | true ↦ v.inputs
              | false ↦ erase_name-Left f.dst.name t.input_port_names t.input_port_info v.inputs
            ] in
    both (if f.src.obj then some t.output_port_names else erase_name f.src.name t.output_port_names)
      (if f.dst.obj then some t.input_port_names else erase_name f.dst.name t.input_port_names) outs
      ins
  where
    both :
        (a b : Option (List ℕ))
        → Left t.output_port_info a
        → Left t.input_port_info b
        → ValidIf
            (a >>= λ x. b >>= λ y. some (record t { output_port_names = x; input_port_names = y }))
    both none b h k = tt
    both (some x) none h k = tt
    both (some x) (some y) h k = record { distinct = v.distinct; inputs = k; outputs = h }

remove_flow-Valid :
    (f : Flow) (t : Topology) (c : Option Topology)
    → Valid t
    → ValidIf c
    → Valid (remove_flow f t c).0
unfolding remove_flow
remove_flow-Valid f t none v h = v
remove_flow-Valid f t (some t') v h = elim (Bool-cases (find_flow f t.flows)) [
  | inl e ↦ rw (e) (record {
    distinct = erase_flow-DistinctFlows f t.flows v.distinct;
    inputs = h.inputs;
    outputs = h.outputs;
  })
  | inr e ↦ rw (e) h
]

-- A disconnection keeps the topology well-formed, whether it is made or refused.
pub disconnect-Valid :
    (o : Objects) (src src_name dst dst_name : ℕ) (t : Topology)
    → Valid t
    → Valid (disconnect o src src_name dst dst_name t).0
unfolding disconnect
disconnect-Valid o src src_name dst dst_name t v =
    let f : Flow = record { src = make_port t src src_name; dst = make_port t dst dst_name } in
    let cleared = clear_ports-Valid f t v in
    elim (Bool-cases (not (has src_name (names_out o src t)))) [
      | inl a ↦ rw (a) v
      | inr a ↦ elim (Bool-cases (not (has dst_name (names_in o dst t)))) [
        | inl b ↦ rw (a, b) v
        | inr b ↦ rw (a, b) (remove_flow-Valid f t (clear_ports f t) v cleared)
      ]
    ]
