-- ===== src/Topology.antt =====
-- lib/Framework/PortsAndFlows.hpp, TopologyCommit.cpp, TopologyImpl.hpp and the subscriptions of
-- lib/Framework/WorkerActor.cpp. Names and uids are only compared, so that a number stands for each.
-- An object is known by its uid, and `obj` says whether the reference to it is there: a port of the
-- topology itself has none.
mod Same
mod Wired
mod Rounds
mod Sync
mod Blocks
mod Squash
mod Connect
mod Tests
use pothos_core.Base.{
  List, [], ◌∷◌, ◌++◌, Bool, true, false, not, ◌&&◌, ◌||◌, Option, none, some, ℕ, zero, suc, ◌+◌,
  ◌==◌, map, if◌then◌else◌,
}

pub record Port : Type 0 where
  pub obj : Bool
  pub name : ℕ
  pub uid : ℕ

pub record Flow : Type 0 where
  pub src : Port
  pub dst : Port

-- `operator==` of ports and of flows
unfoldable pub same_port : Port → Port → Bool
same_port p q = (p.uid == q.uid) && (p.name == q.name)

unfoldable pub same_flow : Flow → Flow → Bool
same_flow f g = same_port g.src f.src && same_port g.dst f.dst

-- `std::find` on a list of flows, and on a list of ports
unfoldable pub find_flow : Flow → List Flow → Bool
find_flow f [] = false
find_flow f (g ∷ gs) = same_flow g f || find_flow f gs

unfoldable pub find_port : Port → List Port → Bool
find_port p [] = false
find_port p (q ∷ qs) = same_port q p || find_port p qs

unfoldable pub erase_port : Port → List Port → List Port
erase_port p [] = []
erase_port p (q ∷ qs) = let rest = erase_port p qs in if same_port q p then qs else q ∷ rest

-- the flows of the first list that are not in the second
unfoldable pub minus : List Flow → List Flow → List Flow
minus [] gs = []
minus (f ∷ fs) gs = let rest = minus fs gs in if find_flow f gs then rest else f ∷ rest

-- the lists `_subscribers` of the output ports and of the input ports of all actors
pub record Wiring : Type 0 where
  pub outputs : Port → List Port
  pub inputs : Port → List Port

pub data Action : Type 0 where
  add remove : Action

-- One side of a subscription, on the list of the port that is told of it; `none` is the exception.
-- The buffer manager that a port without subscribers gets is left out.
unfoldable pub subscribe : Action → Port → List Port → Option (List Port)
subscribe add p subscribers = if find_port p subscribers then none else some (subscribers ++ p ∷ [])
subscribe remove p subscribers =
    if find_port p subscribers then some (erase_port p subscribers) else none

abbrev pub write : Port → List Port → (Port → List Port) → Port → List Port
write p qs f q = if same_port q p then qs else f q

abbrev pub subscribe_input : Action → Flow → Wiring → Option Wiring
subscribe_input action f w = elim (subscribe action f.dst (w.outputs f.src)) [
  | none ↦ none
  | some qs ↦ some (record w { outputs = write f.src qs w.outputs })
]

abbrev pub subscribe_output : Action → Flow → Wiring → Option Wiring
subscribe_output action f w = elim (subscribe action f.src (w.inputs f.dst)) [
  | none ↦ none
  | some qs ↦ some (record w { inputs = write f.dst qs w.inputs })
]

-- `subscribePort`: the Boolean says that an exception came out of it
unfoldable pub subscribe_port : Action → Flow → Wiring → Wiring × Bool
subscribe_port action f w = elim (subscribe_input action f w) [
  | none ↦ (w, true)
  | some w' ↦ elim (subscribe_output action f w') [ none ↦ (w', true) | some w'' ↦ (w'', false) ]
]

-- All flows are subscribed, whichever of them throw; here one after the other.
unfoldable pub update_flows : Action → List Flow → Wiring → Wiring × Bool
update_flows action [] w = (w, false)
update_flows action (f ∷ fs) w =
    let (w', e) = subscribe_port action f w in
    let (w'', es) = update_flows action fs w' in (w'', e || es)

-- `getObjSetFromFlowList`: the map from uids to objects, as the list of its keys
unfoldable pub find_uid : ℕ → List ℕ → Bool
find_uid u [] = false
find_uid u (v ∷ vs) = (u == v) || find_uid u vs

abbrev pub insert_uid : Port → List ℕ → List ℕ
insert_uid p us = if p.obj && not (find_uid p.uid us) then us ++ p.uid ∷ [] else us

unfoldable pub erase_uid : ℕ → List ℕ → List ℕ
erase_uid u [] = []
erase_uid u (v ∷ vs) = let rest = erase_uid u vs in if u == v then rest else v ∷ rest

unfoldable pub insert_uids : List Flow → List ℕ → List ℕ
insert_uids [] us = us
insert_uids (f ∷ fs) us = insert_uids fs (insert_uid f.dst (insert_uid f.src us))

unfoldable pub erase_uids : List Flow → List ℕ → List ℕ
erase_uids [] us = us
erase_uids (f ∷ fs) us = erase_uids fs (erase_uid f.dst.uid (erase_uid f.src.uid us))

abbrev pub get_obj_set : List Flow → List Flow → List ℕ
get_obj_set flows excludes = erase_uids excludes (insert_uids flows [])

-- the calls `setActiveStateOn` and `setActiveStateOff` on the actors of blocks
pub data Switch : Type 0 where
  on off : ℕ → Switch

-- What a commit leaves: the flows that are active, the subscriptions, the switches called, and
-- whether it throws.
pub record Commit : Type 0 where
  pub active_flat_flows : List Flow
  pub wiring : Wiring
  pub switches : List Switch
  pub throws : Bool

unfoldable pub any_fails : (Switch → Bool) → List Switch → Bool
any_fails fails [] = false
any_fails fails (s ∷ ss) = fails s || any_fails fails ss

-- `topologySubCommit`. Whether the managers of the new flows' sources can be installed, and which
-- switches throw, is known to the blocks.
module _ (installs : List Flow → Bool) (fails : Switch → Bool) where
  unfoldable pub sub_commit : List Flow → List Flow → Wiring → Commit
  sub_commit flat_flows active w =
      let new_flows = minus flat_flows active in
      let old_flows = minus active flat_flows in
      let (w', failed_add) = update_flows add new_flows w in
      let (w'', failed_remove) = update_flows remove old_flows w' in
      let starts = map on (get_obj_set new_flows active) in
      let stops = map off (get_obj_set old_flows flat_flows) in
      if failed_add
      then record { active_flat_flows = active; wiring = w'; switches = []; throws = true }
      else if failed_remove || not (installs new_flows)
      then record { active_flat_flows = active; wiring = w''; switches = []; throws = true }
      else record {
        active_flat_flows = flat_flows;
        wiring = w'';
        switches = starts ++ stops;
        throws = any_fails fails (starts ++ stops);
      }
