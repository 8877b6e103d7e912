-- ===== src/Topology/Sync.antt =====
-- A commit brings the subscriptions and the active blocks to the flows of the topology.
use pothos_core.Base.{
  List, [], ◌∷◌, ◌++◌, Bool, true, false, not, ◌&&◌, ◌||◌, ℕ, ◌≡◌, refl, ap, ◌∙◌, arith, map,
}
use pothos_core.Topology.{
  Flow, find_flow, minus, Wiring, add, remove, update_flows, get_obj_set, Switch, on, off,
  any_fails, Commit, sub_commit,
}
use pothos_core.Topology.Same.{same_flow_refl, find_flow_same, find_flow-minus}
use pothos_core.Topology.Wired.{Wired, DistinctFlows}
use pothos_core.Topology.Rounds.{
  Wired-ext, in_list, in_list-Respects, minus-DistinctFlows, update_flows-add, update_flows-remove,
  update_flows_again, update_flows_kept,
}
use pothos_core.Topology.Blocks.{
  in_flows, find_uid-get_obj_set, switched, switched-on, Complete, Complete-minus, in_flows-at,
  at_flows-minus,
}

-- the flows, the subscriptions and the active blocks agree
pub record Synced (flows : List Flow) (w : Wiring) (act : ℕ → Bool) : Type 0 where
  pub distinct : DistinctFlows flows
  pub complete : Complete flows
  pub wired : Wired (in_list flows) w
  pub active : (u : ℕ) → act u ≡ in_flows u flows

-- the two rounds of subscriptions
rewired :
    (flat active : List Flow) (w : Wiring)
    → DistinctFlows flat
    → DistinctFlows active
    → Wired (in_list active) w
    → let (w', e) = update_flows add (minus flat active) w in
      let (w'', e') = update_flows remove (minus active flat) w' in
      (e ≡ false) × (e' ≡ false) × Wired (in_list flat) w''
rewired flat active w df da h =
    let new = minus flat active in
    let old = minus active flat in
    let (ok, h') =
      update_flows-add (in_list active) new w (in_list-Respects active) h
        (minus-DistinctFlows flat active df)
        (λ f e. (let a = find_flow-minus f flat active in ground arith)) in
    let s' : Flow → Bool = λ f. find_flow f active || find_flow f new in
    let (ok', h'') =
      update_flows-remove s' old (update_flows add new w).0
        (λ f g e.
          (let a = find_flow_same f g active e in let b = find_flow_same f g new e in ground arith))
        h' (minus-DistinctFlows active flat da)
        (λ f e. (let a = find_flow-minus f active flat in ground arith)) in
    (
      ok,
      ok',
      Wired-ext (λ f. s' f && not (find_flow f old)) (in_list flat)
          (update_flows remove old (update_flows add new w).0).0
          (λ f.
            (let a = find_flow-minus f active flat in
              let b = find_flow-minus f flat active in ground arith))
          h'',
    )

-- the blocks that are active after the switches of a commit
reswitched :
    (flat active : List Flow) (act : ℕ → Bool)
    → Complete flat
    → Complete active
    → ((u : ℕ) → act u ≡ in_flows u active)
    → (u : ℕ)
    → switched
        (map on (get_obj_set (minus flat active) active)
          ++ map off (get_obj_set (minus active flat) flat))
        act
        u
      ≡ in_flows u flat
reswitched flat active act cf ca h u =
    let new = minus flat active in
    let old = minus active flat in
    switched-on (get_obj_set new active) (get_obj_set old flat) act u
    ∙ (let a = h u in
        let b = find_uid-get_obj_set u new active in
        let c = find_uid-get_obj_set u old flat in
        let d = in_flows-at u flat cf in
        let e = in_flows-at u active ca in
        let f = in_flows-at u new (Complete-minus flat active cf) in
        let g = in_flows-at u old (Complete-minus active flat ca) in
        let (i, j) = at_flows-minus u flat active in
        let (k, l) = at_flows-minus u active flat in grind arith)

none_fails :
    (fails : Switch → Bool)
    → ((s : Switch) → fails s ≡ false)
    → (ss : List Switch) → any_fails fails ss ≡ false
unfolding any_fails
none_fails fails accepts [] = refl
none_fails fails accepts (x ∷ ss) = ground (arith, accepts x, none_fails fails accepts ss)

-- From a state in which the active flows, the subscriptions and the active blocks agree, a commit of
-- flat flows whose managers can be installed and whose blocks accept their switches does not throw
-- and ends with the new flows active, exactly their ports subscribed and exactly their blocks active.
pub sub_commit-Synced :
    (installs : List Flow → Bool) (fails : Switch → Bool) (flat active : List Flow) (w : Wiring)
    (act : ℕ → Bool)
    → Synced active w act
    → DistinctFlows flat
    → Complete flat
    → installs (minus flat active) ≡ true
    → ((s : Switch) → fails s ≡ false)
    → let c = sub_commit installs fails flat active w in
      (c.throws ≡ false)
      × (c.active_flat_flows ≡ flat)
      × Synced flat c.wiring (switched c.switches act)
unfolding sub_commit
sub_commit-Synced installs fails flat active w act s df cf installed accepts =
    let (ok, ok', wired) = rewired flat active w df s.distinct s.wired in
    rw (ok, ok', installed)
      (
        none_fails fails accepts (
            map on (get_obj_set (minus flat active) active)
            ++ map off (get_obj_set (minus active flat) flat)),
        refl,
        record {
          distinct = df;
          complete = cf;
          wired = wired;
          active = reswitched flat active act cf s.complete s.active;
        },
      )

sub_commit_refused :
    (installs : List Flow → Bool) (fails : Switch → Bool) (flat active : List Flow) (w : Wiring)
    → DistinctFlows flat
    → DistinctFlows active
    → Wired (in_list active) w
    → installs (minus flat active) ≡ false
    → sub_commit installs fails flat active w ≡ record {
      active_flat_flows = active;
      wiring =
          (update_flows remove (minus active flat) (update_flows add (minus flat active) w).0).0;
      switches = [];
      throws = true;
    }
unfolding sub_commit
sub_commit_refused installs fails flat active w df da wired refuses =
    let (ok, ok', _) = rewired flat active w df da wired in rw (ok, ok', refuses) refl

-- A commit that throws because it subscribed its new flows before
unfoldable pub stuck : List Flow → Wiring → Commit
stuck active w = record { active_flat_flows = active; wiring = w; switches = []; throws = true }

sub_commit_again :
    (installs : List Flow → Bool) (fails : Switch → Bool) (flat active : List Flow) (w : Wiring)
    (f : Flow) (new : List Flow)
    → minus flat active ≡ f ∷ new
    → Wired (in_list flat) w
    → sub_commit installs fails flat active w ≡ stuck active w
unfolding sub_commit find_flow stuck
sub_commit_again installs fails flat active w f new has_new wired =
    let all_there : (g : Flow) → find_flow g (minus flat active) ≡ true → find_flow g flat ≡ true =
      λ g e. (let a = find_flow-minus g flat active in ground arith) in
    let there : find_flow f flat ≡ true =
      all_there f (ap (find_flow f) has_new ∙ ground (arith, same_flow_refl f)) in
    let throws : (update_flows add (minus flat active) w).1 ≡ true =
      ap (λ fs. (update_flows add fs w).1) has_new
      ∙ update_flows_again (in_list flat) f new w wired there in
    let kept = update_flows_kept (in_list flat) (minus flat active) w wired all_there in
    rw (throws) (ap (stuck active) kept)

-- further commits of the same flows, each with what its managers and its blocks then do
unfoldable pub recommit : List ((List Flow → Bool) × (Switch → Bool)) → List Flow → Commit → Commit
recommit [] flat c = c
recommit ((installs, fails) ∷ later) flat c =
    recommit later flat (sub_commit installs fails flat c.active_flat_flows c.wiring)

recommit-stuck :
    (later : List ((List Flow → Bool) × (Switch → Bool))) (flat active : List Flow) (w : Wiring)
    (f : Flow) (new : List Flow)
    → minus flat active ≡ f ∷ new
    → Wired (in_list flat) w
    → recommit later flat (stuck active w) ≡ stuck active w
unfolding recommit stuck
recommit-stuck [] flat active w f new has_new wired = refl
recommit-stuck ((installs, fails) ∷ later) flat active w f new has_new wired =
    ap (recommit later flat) (sub_commit_again installs fails flat active w f new has_new wired)
    ∙ recommit-stuck later flat active w f new has_new wired

-- When flows are new and their managers cannot be installed, the commit throws after it subscribed
-- all new flows, and keeps the old active flows. Each later commit of the same flows throws as well
-- and changes nothing, however often it is tried and whatever the managers and the blocks then do.
pub sub_commit-stuck :
    (installs : List Flow → Bool) (fails : Switch → Bool) (flat active : List Flow) (w : Wiring)
    (f : Flow) (new : List Flow) (later : List ((List Flow → Bool) × (Switch → Bool)))
    → DistinctFlows flat
    → DistinctFlows active
    → Wired (in_list active) w
    → minus flat active ≡ f ∷ new
    → installs (f ∷ new) ≡ false
    → let c = sub_commit installs fails flat active w in
      (c.throws ≡ true)
      × (c.active_flat_flows ≡ active)
      × (c.switches ≡ [])
      × Wired (in_list flat) c.wiring
      × (recommit later flat c ≡ c)
unfolding stuck
sub_commit-stuck installs fails flat active w f new later df da wired has_new refuses =
    let (_, _, wired') = rewired flat active w df da wired in
    rw (sub_commit_refused installs fails flat active w df da wired (ap installs has_new ∙ refuses))
      (
        refl,
        refl,
        refl,
        wired',
        recommit-stuck later flat active
            (update_flows remove (minus active flat) (update_flows add (minus flat active) w).0).0 f
            new has_new wired',
      )
