-- ===== src/Topology/Connect/Runs.antt =====
-- Calls on a topology, one after the other, and the port infos that it can answer with after them.
use pothos_core.Base.{
  List, [], ◌∷◌, Option, none, some, ℕ, ◌≡◌, sym, ap, ◌∙◌, arith, ◌==◌, ==_iff, Bool-cases, map,
  Option-cases, inl, inr,
}
use pothos_core.Topology.Wired.{DistinctFlows}
use pothos_core.Topology.Connect.{
  PortInfo, Infos, find_info, set_info, Topology, find_name, Objects, connect, disconnect,
  disconnect_all, infos_of, set_alias,
}
use pothos_core.Topology.Connect.Laws.{Informed, find_info-set_self, find_info-set_ne, infos_of_lem}
use pothos_core.Topology.Connect.Keeps.{Valid, Listed, connect-Valid}
use pothos_core.Topology.Connect.Drops.{disconnect-Valid}

pub data Call : Type 0 where
  connects disconnects : (src src_name dst dst_name : ℕ) → Call
  disconnects_all : Call
  input_alias output_alias : (name alias : ℕ) → Call

abbrev pub or_else : Infos → Option Infos → Infos
or_else infos none = infos
or_else infos (some changed) = changed

-- An alias for an unknown port throws and changes nothing.
unfoldable pub apply : Objects → Call → Topology → Topology
apply o (connects src src_name dst dst_name) t = (connect o src src_name dst dst_name t).0
apply o (disconnects src src_name dst dst_name) t = (disconnect o src src_name dst dst_name t).0
apply o disconnects_all t = disconnect_all t
apply o (input_alias name alias) t = record t {
  input_port_info = or_else t.input_port_info (set_alias name alias t.input_port_info);
}
apply o (output_alias name alias) t = record t {
  output_port_info = or_else t.output_port_info (set_alias name alias t.output_port_info);
}

-- The objects may answer differently at each call.
unfoldable pub run : List (Objects × Call) → Topology → Topology
run [] t = t
run ((o, c) ∷ cs) t = run cs (apply o c t)

-- an info that is there, with the alias changed
changed-Informed :
    (ns : List ℕ) (name alias : ℕ) (i : PortInfo) (infos : Infos)
    → find_info name infos ≡ some i
    → Informed ns infos
    → Informed ns (set_info name (record i { alias = alias }) infos)
unfolding Informed
changed-Informed [] name alias i infos h v = tt
changed-Informed (m ∷ ns) name alias i infos h ((j, found, named), v) =
    let changed : PortInfo = record i { alias = alias } in
    (
      elim (Bool-cases (m == name)) [
        | inl e ↦
            (let same = (==_iff m name).0 e in
              (
                changed,
                ap (λ k. find_info k (set_info name changed infos)) same
                    ∙ find_info-set_self name changed infos,
                ap (λ k. k.name)
                      (some-injective i j (sym h ∙ ap (λ k. find_info k infos) (sym same) ∙ found))
                    ∙ named,
              ))
        | inr d ↦ (
          j,
          find_info-set_ne m name changed infos (λ z. (let k = (==_iff m name).1 z in cc)) ∙ found,
          named,
        )
      ],
      changed-Informed ns name alias i infos h v,
    )
  where
    some-injective : (a b : PortInfo) → some a ≡ some b → a ≡ b
    some-injective a b h = cc

set_alias-Informed :
    (ns : List ℕ) (name alias : ℕ) (infos : Infos)
    → Informed ns infos
    → Informed ns (or_else infos (set_alias name alias infos))
unfolding set_alias
set_alias-Informed ns name alias infos v = elim (Option-cases (find_info name infos)) [
  | inl missing ↦ rw (or_else, missing) v
  | inr (i, found) ↦ rw (or_else, found) (changed-Informed ns name alias i infos found v)
]

apply-Valid : (o : Objects) (c : Call) (t : Topology) → Listed o → Valid t → Valid (apply o c t)
unfolding apply DistinctFlows
apply-Valid o (connects src src_name dst dst_name) t l v =
    connect-Valid o src src_name dst dst_name t l v
apply-Valid o (disconnects src src_name dst dst_name) t l v =
    disconnect-Valid o src src_name dst dst_name t v
apply-Valid o disconnects_all t l v = record {
  distinct = tt;
  inputs = v.inputs;
  outputs = v.outputs;
}
apply-Valid o (input_alias name alias) t l v = record {
  distinct = v.distinct;
  inputs = set_alias-Informed t.input_port_names name alias t.input_port_info v.inputs;
  outputs = v.outputs;
}
apply-Valid o (output_alias name alias) t l v = record {
  distinct = v.distinct;
  inputs = v.inputs;
  outputs = set_alias-Informed t.output_port_names name alias t.output_port_info v.outputs;
}

-- The objects of all calls list the ports they have infos of.
unfoldable pub AllListed : List (Objects × Call) → Type 0
AllListed [] = Unit
AllListed ((o, c) ∷ cs) = Listed o × AllListed cs

run-Valid : (cs : List (Objects × Call)) (t : Topology) → AllListed cs → Valid t → Valid (run cs t)
unfolding run AllListed
run-Valid [] t l v = v
run-Valid ((o, c) ∷ cs) t (l, ls) v = run-Valid cs (apply o c t) ls (apply-Valid o c t l v)

-- After any calls on a well-formed topology, made or refused, no flow is there twice, and the infos of
-- the input ports and of the output ports can be listed, under exactly the names that are kept.
pub run-infos :
    (cs : List (Objects × Call)) (t : Topology)
    → AllListed cs
    → Valid t
    → let t' = run cs t in
      DistinctFlows t'.flows
      × ((is : List PortInfo) × (infos_of [] t'.input_port_names t'.input_port_info ≡ some is)
          × ((n : ℕ) → find_name n (map (λ i. i.name) is) ≡ find_name n t'.input_port_names))
      × ((is : List PortInfo) × (infos_of [] t'.output_port_names t'.output_port_info ≡ some is)
          × ((n : ℕ) → find_name n (map (λ i. i.name) is) ≡ find_name n t'.output_port_names))
unfolding find_name
run-infos cs t l v =
    let v' = run-Valid cs t l v in
    let (is, eq, names) =
      infos_of_lem [] (run cs t).input_port_names (run cs t).input_port_info v'.inputs in
    let (os, eq', names') =
      infos_of_lem [] (run cs t).output_port_names (run cs t).output_port_info v'.outputs in
    (v'.distinct, (is, eq, λ n. names n ∙ ground arith), (os, eq', λ n. names' n ∙ ground arith))
