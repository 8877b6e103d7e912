-- ===== src/Topology/Connect/Keeps.antt =====
-- What a connection keeps of a topology.
use pothos_core.Base.{
  List, [], ◌∷◌, ◌++◌, true, false, not, ◌&&◌, ◌||◌, ℕ, ◌≡◌, refl, sym, ap, ◌∙◌, arith, map,
  Bool-cases, inl, inr,
}
use pothos_core.Topology.{Flow, same_flow, find_flow}
use pothos_core.Topology.Same.{same_flow_comm}
use pothos_core.Topology.Wired.{DistinctFlows}
use pothos_core.Topology.Connect.{
  PortInfo, Infos, set_info, info_of, Topology, make_port, find_name, copy_info, touch_info,
  Objects, note_ports, connect,
}
use pothos_core.Topology.Connect.Laws.{
  Informed, Informed-append, find_info-set_self, set_info-Informed, copy_info-Informed,
  copy_info-Noted,
}

pub record Valid (t : Topology) : Type 0 where
  pub distinct : DistinctFlows t.flows
  pub inputs : Informed t.input_port_names t.input_port_info
  pub outputs : Informed t.output_port_names t.output_port_info

-- The names that an object lists are those of its infos.
abbrev pub Listed : Objects → Type 0
Listed o =
    ((u : ℕ) → o.output_names u ≡ map (λ i. i.name) (o.output_infos u))
    × ((u : ℕ) → o.input_names u ≡ map (λ i. i.name) (o.input_infos u))

copied :
    (ns : List ℕ) (mine theirs : ℕ) (is : List PortInfo) (infos : Infos)
    → Informed ns infos
    → find_name theirs (map (λ i. i.name) is) ≡ true
    → Informed (ns ++ mine ∷ []) (copy_info mine theirs is infos)
copied ns mine theirs is infos v h =
    let (i, found, named) = copy_info-Noted mine theirs is infos (inr h) in
    Informed-append ns mine i (copy_info mine theirs is infos)
      (copy_info-Informed ns mine theirs is infos v) found named

touched :
    (ns : List ℕ) (n : ℕ) (infos : Infos)
    → Informed ns infos
    → Informed (ns ++ n ∷ []) (touch_info n infos)
touched ns n infos v =
    let i : PortInfo = record (info_of n infos) { name = n } in
    Informed-append ns n i (set_info n i infos) (set_info-Informed ns n i infos refl v)
      (find_info-set_self n i infos) refl

note_ports-Valid :
    (o : Objects) (f : Flow) (t : Topology)
    → Listed o
    → Valid t
    → (f.src.obj ≡ true → find_name f.src.name (o.output_names f.src.uid) ≡ true)
    → (f.dst.obj ≡ true → find_name f.dst.name (o.input_names f.dst.uid) ≡ true)
    → Valid (note_ports o f t)
note_ports-Valid o f t (outs, ins) v hs hd = elim (Bool-cases f.src.obj) [
  | inl s ↦ elim (Bool-cases f.dst.obj) [
    | inl d ↦ rw (s, d) v
    | inr d ↦
        rw (s, d)
          (record {
            distinct = v.distinct;
            inputs = v.inputs;
            outputs =
                copied t.output_port_names f.dst.name f.src.name (o.output_infos f.src.uid)
                  t.output_port_info v.outputs
                  (ap (find_name f.src.name) (sym (outs f.src.uid)) ∙ hs s);
          })
  ]
  | inr s ↦ elim (Bool-cases f.dst.obj) [
    | inl d ↦
        rw (s, d)
          (record {
            distinct = v.distinct;
            outputs = v.outputs;
            inputs =
                copied t.input_port_names f.src.name f.dst.name (o.input_infos f.dst.uid)
                  t.input_port_info v.inputs
                  (ap (find_name f.dst.name) (sym (ins f.dst.uid)) ∙ hd d);
          })
    | inr d ↦
        rw (s, d)
          (record {
            distinct = v.distinct;
            inputs = touched t.input_port_names f.src.name t.input_port_info v.inputs;
            outputs = touched t.output_port_names f.dst.name t.output_port_info v.outputs;
          })
  ]
]

find_flow-append :
    (f g : Flow) (fs : List Flow) → find_flow f (fs ++ g ∷ []) ≡ (find_flow f fs || same_flow g f)
unfolding find_flow
find_flow-append f g [] = ground arith
find_flow-append f g (x ∷ fs) = ground (arith, find_flow-append f g fs)

append-DistinctFlows :
    (f : Flow) (fs : List Flow)
    → DistinctFlows fs
    → find_flow f fs ≡ false
    → DistinctFlows (fs ++ f ∷ [])
unfolding DistinctFlows find_flow
append-DistinctFlows f [] d h = (refl, tt)
append-DistinctFlows f (x ∷ fs) (once, d) h = (
  (let a = find_flow-append x f fs in let b = same_flow_comm x f in grind arith),
  append-DistinctFlows f fs d (ground arith),
)

flows_noted : (o : Objects) (f : Flow) (t : Topology) → (note_ports o f t).flows ≡ t.flows
flows_noted o f t = ground arith

-- A connection keeps the topology well-formed, whether it is made or refused.
pub connect-Valid :
    (o : Objects) (src src_name dst dst_name : ℕ) (t : Topology)
    → Listed o
    → Valid t
    → Valid (connect o src src_name dst dst_name t).0
unfolding connect
connect-Valid o src src_name dst dst_name t listed v =
    let f : Flow = record { src = make_port t src src_name; dst = make_port t dst dst_name } in
    elim (Bool-cases (f.src.obj && not (find_name src_name (o.output_names src)))) [
      | inl a ↦ rw (a) v
      | inr a ↦ elim (Bool-cases (f.dst.obj && not (find_name dst_name (o.input_names dst)))) [
        | inl b ↦ rw (a, b) v
        | inr b ↦
            (let v' = note_ports-Valid o f t listed v (λ s. ground arith) (λ d. ground arith) in
              elim (Bool-cases (find_flow f t.flows)) [
                | inl c ↦ rw (a, b, c) v'
                | inr c ↦
                    rw (a, b, c)
                      (record {
                        distinct = append-DistinctFlows f t.flows v.distinct c;
                        inputs = v'.inputs;
                        outputs = v'.outputs;
                      })
              ])
      ]
    ]
