-- ===== src/Topology/Squash.antt =====
-- lib/Framework/TopologySquashFlows.cpp and `completePassThroughFlows` of TopologyCommit.cpp: a
-- topology of topologies made flat. What a remote call of `resolvePorts` or `resolveFlows` on an object
-- does is to run it there, or to throw on a block: `topology_at` gives the flows of the topology that
-- has the uid. The calls go as deep as topologies are nested, which the fuel bounds.
pub mod Resolve
pub mod Flatten
pub mod Members
pub mod Through
use pothos_core.Base.{
  List, [], ◌∷◌, ◌++◌, Bool, true, false, not, ◌&&◌, ◌||◌, Option, none, some, ℕ, zero, suc, ◌==◌,
  if◌then◌else◌,
}
use pothos_core.Topology.{Port, Flow, same_port, insert_uids}

-- `isSource` says which end of the inner flows is sought; the other one is the topology's own port.
abbrev pub far : Bool → Flow → Port
far true f = f.src
far false f = f.dst

abbrev pub near : Bool → Flow → Port
near true f = f.dst
near false f = f.src

-- the loop of `resolvePortsFromTopology`, by how ports further in are resolved
unfoldable pub ports_from_topology : (Port → List Port) → Bool → ℕ → List Flow → List Port
ports_from_topology resolve is_source name [] = []
ports_from_topology resolve is_source name (f ∷ fs) =
    let found =
      if ((near is_source f).name == name) && not (near is_source f).obj
      then (if (far is_source f).obj then resolve (far is_source f) else far is_source f ∷ [])
      else [] in
    found ++ ports_from_topology resolve is_source name fs

-- one source with all destinations, and all sources with all destinations
unfoldable pub flows_to : Port → List Port → List Flow
flows_to s [] = []
flows_to s (d ∷ ds) = record { src = s; dst = d } ∷ flows_to s ds

unfoldable pub flows_between : List Port → List Port → List Flow
flows_between [] ds = []
flows_between (s ∷ ss) ds = flows_to s ds ++ flows_between ss ds

unfoldable pub pass_through_flows : List Flow → List Flow
pass_through_flows [] = []
pass_through_flows (f ∷ fs) =
    let rest = pass_through_flows fs in if not f.src.obj && not f.dst.obj then f ∷ rest else rest

module _ (topology_at : ℕ → Option (List Flow)) where
  unfoldable pub resolve_ports : ℕ → Bool → Port → List Port
  resolve_ports zero is_source p = []
  resolve_ports (suc fuel) is_source p = elim (topology_at p.uid) [
    | none ↦ p ∷ []
    | some flows ↦ ports_from_topology (resolve_ports fuel is_source) is_source p.name flows
  ]

  unfoldable pub flat_flows : ℕ → List Flow → List Flow
  flat_flows fuel [] = []
  flat_flows fuel (f ∷ fs) =
      let here =
        if f.src.obj && f.dst.obj
        then flows_between (resolve_ports fuel true f.src) (resolve_ports fuel false f.dst)
        else [] in
      here ++ flat_flows fuel fs

  -- the flows inside the objects of a list, by how a topology's flows are squashed
  unfoldable pub sub_flows : (List Flow → List Flow) → List ℕ → List Flow
  sub_flows squash [] = []
  sub_flows squash (u ∷ us) =
      elim (topology_at u) [ none ↦ [] | some flows ↦ squash flows ] ++ sub_flows squash us

  unfoldable pub squash_flows : ℕ → List Flow → List Flow
  squash_flows zero flows = []
  squash_flows (suc fuel) flows =
      flat_flows fuel flows
      ++ (sub_flows (squash_flows fuel) (insert_uids flows []) ++ pass_through_flows flows)

-- the flows that a pass-through flow, its tail and the heads in a list make
unfoldable pub completed_heads : Flow → Flow → List Flow → List Flow
completed_heads flow tail [] = []
completed_heads flow tail (head ∷ heads) =
    let rest = completed_heads flow tail heads in
    if head.src.obj && (same_port flow.src tail.src && same_port flow.dst head.dst)
    then record { src = head.src; dst = tail.dst } ∷ rest
    else rest

unfoldable pub completed_tails : Flow → List Flow → List Flow → List Flow
completed_tails flow heads [] = []
completed_tails flow heads (tail ∷ tails) =
    let rest = completed_tails flow heads tails in
    if tail.dst.obj then completed_heads flow tail heads ++ rest else rest

unfoldable pub completed : List Flow → List Flow → List Flow
completed flows [] = []
completed flows (flow ∷ rest) =
    let others = completed flows rest in
    if flow.src.obj || flow.dst.obj then others else completed_tails flow flows flows ++ others

unfoldable pub whole_flows : List Flow → List Flow
whole_flows [] = []
whole_flows (f ∷ fs) =
    let rest = whole_flows fs in if f.src.obj && f.dst.obj then f ∷ rest else rest

unfoldable pub complete_pass_through_flows : List Flow → List Flow
complete_pass_through_flows flows = completed flows flows ++ whole_flows flows
