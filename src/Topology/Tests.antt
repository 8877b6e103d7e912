-- ===== src/Topology/Tests.antt =====
-- The theorems on small topologies, and a flow that two topologies in a row lose.
use pothos_core.Base.{
  List, [], ◌∷◌, Bool, true, false, ◌&&◌, ◌||◌, Option, none, some, ℕ, ◌==◌, ◌≡◌, ◌≢◌, ◌<◌, ◌↔◌,
  ◌⊎◌, refl, sym, ap, ◌∙◌, subst, arith, map, if◌then◌else◌, Bool-cases, inl, inr,
}
use mathlib.Core.List.{Memᴰ}
use mathlib.Core.List.Memᴰ
use pothos_core.Topology.{
  Port, Flow, same_port, same_flow, find_flow, minus, Wiring, Switch, on, off, Commit, sub_commit,
  update_flows, subscribe, subscribe_port, find_uid, any_fails,
}
use pothos_core.Topology.Same.{count_port}
use pothos_core.Topology.Wired.{Wired, DistinctFlows}
use pothos_core.Topology.Rounds.{in_list}
use pothos_core.Topology.Sync.{Synced, recommit, sub_commit-Synced, sub_commit-stuck}
use pothos_core.Topology.Blocks.{Complete, in_flows, switched}
use pothos_core.Topology.Squash.{
  far, resolve_ports, squash_flows, complete_pass_through_flows, flat_flows, sub_flows,
  pass_through_flows, ports_from_topology, flows_between, flows_to, completed, completed_tails,
  completed_heads, whole_flows,
}
use pothos_core.Topology.Squash.Resolve.{Nested}
use pothos_core.Topology.Squash.Flatten.{Flat, squash_flows_iff}
use pothos_core.Topology.Squash.Through.{Chain, complete_pass_through_flows_iff}
use pothos_core.Topology.Connect.{
  Topology, PortInfo, Objects, done, refused, connect, disconnect, find_name, infos_of,
}
use pothos_core.Topology.Connect.Laws.{Informed}
use pothos_core.Topology.Connect.Runs.{Call, connects, input_alias, AllListed, run, run-infos}
use pothos_core.Topology.Connect.Keeps.{Valid, Listed}
use pothos_core.Topology.Connect.Undo.{disconnect-connect, disconnect_input_refused}

-- a port of a block, and one of the topology itself
abbrev out_of : ℕ → ℕ → Port
out_of u n = record { obj = true; name = n; uid = u }

abbrev own : ℕ → ℕ → Port
own u n = record { obj = false; name = n; uid = u }

abbrev flow_of : Port → Port → Flow
flow_of s d = record { src = s; dst = d }

abbrev one_two : Flow
one_two = flow_of (out_of 1 0) (out_of 2 0)

abbrev two_three : Flow
two_three = flow_of (out_of 2 0) (out_of 3 0)

abbrev unwired : Wiring
unwired = record { outputs = λ _. []; inputs = λ _. [] }

nothing-Wired : Wired (in_list []) unwired
unfolding count_port find_flow
nothing-Wired = record { out = λ _. refl; inp = λ _. refl }

nothing-Synced : Synced [] unwired (λ _. false)
unfolding DistinctFlows Complete in_flows
nothing-Synced = record { distinct = tt; complete = tt; wired = nothing-Wired; active = λ _. refl }

abbrev two_flows : List Flow
two_flows = one_two ∷ two_three ∷ []

two_distinct : DistinctFlows two_flows
unfolding DistinctFlows find_flow same_flow same_port
two_distinct = (refl, (refl, tt))

two-Complete : Complete two_flows
unfolding Complete
two-Complete = (refl, refl, (refl, refl, tt))

sub_commit-Synced_example :
    let c = sub_commit (λ _. true) (λ _. false) two_flows [] unwired in
    (c.throws ≡ false)
    × (c.active_flat_flows ≡ two_flows)
    × Synced two_flows c.wiring (switched c.switches (λ _. false))
sub_commit-Synced_example =
    sub_commit-Synced (λ _. true) (λ _. false) two_flows [] unwired (λ _. false) nothing-Synced
      two_distinct two-Complete refl (λ _. refl)

-- The managers are installed from the second commit on.
abbrev two_more : List ((List Flow → Bool) × (Switch → Bool))
two_more = (λ _. true, λ _. false) ∷ (λ _. true, λ _. false) ∷ []

sub_commit-stuck_example :
    let c = sub_commit (λ _. false) (λ _. false) two_flows [] unwired in
    (c.throws ≡ true)
    × (c.active_flat_flows ≡ [])
    × (c.switches ≡ [])
    × Wired (in_list two_flows) c.wiring
    × (recommit two_more two_flows c ≡ c)
unfolding DistinctFlows minus find_flow
sub_commit-stuck_example =
    sub_commit-stuck (λ _. false) (λ _. false) two_flows [] unwired one_two (two_three ∷ [])
      two_more two_distinct tt nothing-Wired refl refl

-- Topologies 10 and 11 each lead their input 5 to their output 6.
abbrev inner : ℕ → Option (List Flow)
inner u = if (u == 10) || (u == 11) then some (flow_of (own u 5) (own u 6) ∷ []) else none

-- A block's flow through one topology to another block is found, but through two in a row it is lost.
abbrev through_one : List Flow
through_one = flow_of (out_of 1 0) (out_of 10 5) ∷ flow_of (out_of 10 6) (out_of 2 0) ∷ []

abbrev through_two : List Flow
through_two =
    flow_of (out_of 1 0) (out_of 10 5)
    ∷ flow_of (out_of 10 6) (out_of 11 5)
    ∷ flow_of (out_of 11 6) (out_of 2 0)
    ∷ []

one_found : complete_pass_through_flows (squash_flows inner 3 through_one) ≡ one_two ∷ []
unfolding complete_pass_through_flows completed completed_tails completed_heads whole_flows
    squash_flows flat_flows sub_flows pass_through_flows resolve_ports ports_from_topology
    flows_between flows_to same_port pothos_core.Topology.insert_uids pothos_core.Topology.find_uid
one_found = refl

two_lost : complete_pass_through_flows (squash_flows inner 3 through_two) ≡ []
unfolding complete_pass_through_flows completed completed_tails completed_heads whole_flows
    squash_flows flat_flows sub_flows pass_through_flows resolve_ports ports_from_topology
    flows_between flows_to same_port pothos_core.Topology.insert_uids pothos_core.Topology.find_uid
two_lost = refl

-- Topology 12 holds block 1 between its input 5 and its output 6.
abbrev inside_12 : List Flow
inside_12 = flow_of (own 12 5) (out_of 1 0) ∷ flow_of (out_of 1 0) (own 12 6) ∷ []

abbrev holder : ℕ → Option (List Flow)
holder u = if u == 12 then some inside_12 else none

abbrev rank : ℕ → ℕ
rank u = if u == 12 then 1 else 0

inside_low :
    (f : Flow) (is_source : Bool)
    → Memᴰ f inside_12
    → (far is_source f).obj ≡ true
    → (far is_source f).uid ≡ 1
inside_low f true (Memᴰ.head e) h = absurd (let k = ap (λ y. y.src.obj) e in ground arith)
inside_low f false (Memᴰ.head e) h = ap (λ y. y.dst.uid) e
inside_low f true (Memᴰ.tail (Memᴰ.head e)) h = ap (λ y. y.src.uid) e
inside_low f false (Memᴰ.tail (Memᴰ.head e)) h =
    absurd (let k = ap (λ y. y.dst.obj) e in ground arith)
inside_low f s (Memᴰ.tail (Memᴰ.tail m)) h = absurd (Memᴰ.not-nil m)

holder-Nested : Nested holder rank
holder-Nested u flows h f m s o = elim (Bool-cases (u == 12)) [
  | inl e ↦
      let same : some inside_12 ≡ some flows =
        sym (ap (λ b. if b then some inside_12 else none) e) ∙ h in
      let low = inside_low f s (subst (Memᴰ f) (sym (some-injective inside_12 flows same)) m) o in
      rw (low, e) (ground arith)
  | inr e ↦ absurd (none-some (sym (ap (λ b. if b then some inside_12 else none) e) ∙ h))
]
  where
    some-injective : (a b : List Flow) → some a ≡ some b → a ≡ b
    some-injective a b h = cc

    none-some : none ≢ some flows
    none-some h = cc

abbrev outer : List Flow
outer = flow_of (out_of 12 6) (out_of 2 0) ∷ []

outer_found : squash_flows holder 3 outer ≡ one_two ∷ []
unfolding squash_flows flat_flows sub_flows pass_through_flows resolve_ports ports_from_topology
    flows_between flows_to pothos_core.Topology.insert_uids pothos_core.Topology.find_uid
outer_found = refl

rank_small : (u : ℕ) → rank u < 2
rank_small u = ground arith

squash_flows_iff_example : Memᴰ one_two (squash_flows holder 3 outer) ↔ Flat holder outer one_two
squash_flows_iff_example =
    squash_flows_iff holder rank 2 outer one_two holder-Nested (λ u _. rank_small u)

complete_pass_through_flows_iff_example :
    Memᴰ one_two (complete_pass_through_flows (squash_flows inner 3 through_one)) ↔ (
      Chain (squash_flows inner 3 through_one) one_two
      ⊎ (Memᴰ one_two (squash_flows inner 3 through_one)
          × ((one_two.src.obj && one_two.dst.obj) ≡ true)))
complete_pass_through_flows_iff_example =
    complete_pass_through_flows_iff (squash_flows inner 3 through_one) one_two

-- Every object has an input 0 and an output 0.
abbrev zero_info : PortInfo
zero_info = record { name = 0; alias = 0; is_sig_slot = false; dtype = 3 }

abbrev objects : Objects
objects = record {
  output_names = λ _. 0 ∷ [];
  input_names = λ _. 0 ∷ [];
  output_infos = λ _. zero_info ∷ [];
  input_infos = λ _. zero_info ∷ [];
}

abbrev blank : Topology
blank = record {
  self = 9;
  flows = [];
  input_port_names = [];
  output_port_names = [];
  input_port_info = [];
  output_port_info = [];
}

blank-Valid : Valid blank
unfolding DistinctFlows Informed
blank-Valid = record { distinct = tt; inputs = tt; outputs = tt }

objects-Listed : Listed objects
objects-Listed = ((λ _. refl), λ _. refl)

abbrev calls : List (Objects × Call)
calls =
    (objects, connects 9 5 1 0)
    ∷ (objects, connects 9 5 1 0)
    ∷ (objects, input_alias 5 7)
    ∷ (objects, connects 1 0 9 6)
    ∷ []

calls-AllListed : AllListed calls
unfolding AllListed
calls-AllListed = (objects-Listed, (objects-Listed, (objects-Listed, (objects-Listed, tt))))

run-infos_example :
    let t' = run calls blank in
    DistinctFlows t'.flows
    × ((is : List PortInfo) × (infos_of [] t'.input_port_names t'.input_port_info ≡ some is)
        × ((n : ℕ) → find_name n (map (λ i. i.name) is) ≡ find_name n t'.input_port_names))
    × ((is : List PortInfo) × (infos_of [] t'.output_port_names t'.output_port_info ≡ some is)
        × ((n : ℕ) → find_name n (map (λ i. i.name) is) ≡ find_name n t'.output_port_names))
run-infos_example = run-infos calls blank calls-AllListed blank-Valid

disconnect-connect_example :
    ((connect objects 1 0 2 0 blank).1 ≡ done)
    × (disconnect objects 1 0 2 0 (connect objects 1 0 2 0 blank).0 ≡ (blank, done))
unfolding find_flow find_name
disconnect-connect_example =
    disconnect-connect objects 1 0 2 0 blank (λ h. ground arith) (λ h. ground arith) refl refl refl

disconnect_input_refused_example :
    let t' = (connect objects 9 5 1 0 blank).0 in disconnect objects 9 5 1 0 t' ≡ (t', refused)
unfolding infos_of find_name
disconnect_input_refused_example =
    disconnect_input_refused objects 5 1 0 blank refl (λ h. ground arith)

-- the flow that the call refuses to remove
input_connected : (connect objects 9 5 1 0 blank).1 ≡ done
unfolding connect find_name find_flow
input_connected = refl
