-- ===== src/Topology/Blocks.antt =====
-- The blocks that flows refer to, and those that switches leave active.
use pothos_core.Base.{
  List, [], ◌∷◌, ◌++◌, Bool, true, false, not, ◌&&◌, ◌||◌, ℕ, ◌==◌, ◌≡◌, refl, ◌∙◌, arith,
  if◌then◌else◌, ◌⊎◌, map, ==_iff,
}
use pothos_core.Topology.{
  Port, Flow, same_port, same_flow, find_flow, minus, find_uid, insert_uid, erase_uid, insert_uids,
  erase_uids, get_obj_set, Switch, on, off,
}

find_uid-append : (u v : ℕ) (us : List ℕ) → find_uid u (us ++ v ∷ []) ≡ (find_uid u us || (u == v))
unfolding find_uid
find_uid-append u v [] = ground arith
find_uid-append u v (x ∷ us) = ground (arith, find_uid-append u v us)

find_uid-erase_uid :
    (u v : ℕ) (us : List ℕ) → find_uid u (erase_uid v us) ≡ (find_uid u us && not (u == v))
unfolding find_uid erase_uid
find_uid-erase_uid u v [] = refl
find_uid-erase_uid u v (x ∷ us) = ground (arith, find_uid-erase_uid u v us)

-- the uid of an object that a flow of the list refers to
abbrev refers : ℕ → Port → Bool
refers u p = p.obj && (u == p.uid)

unfoldable pub in_flows : ℕ → List Flow → Bool
in_flows u [] = false
in_flows u (f ∷ fs) = refers u f.src || refers u f.dst || in_flows u fs

-- the uid of a port of a flow of the list, with or without a reference
unfoldable pub at_flows : ℕ → List Flow → Bool
at_flows u [] = false
at_flows u (f ∷ fs) = (u == f.src.uid) || (u == f.dst.uid) || at_flows u fs

find_uid-insert_uid :
    (u : ℕ) (p : Port) (us : List ℕ) → find_uid u (insert_uid p us) ≡ (find_uid u us || refers u p)
find_uid-insert_uid u p us = grind (arith, find_uid-append u p.uid us, ==_iff u p.uid)

pub find_uid-insert_uids :
    (u : ℕ) (fs : List Flow) (us : List ℕ)
    → find_uid u (insert_uids fs us) ≡ (find_uid u us || in_flows u fs)
unfolding insert_uids in_flows
find_uid-insert_uids u [] us = ground arith
find_uid-insert_uids u (f ∷ fs) us = grind (
  arith,
  find_uid-insert_uids u fs (insert_uid f.dst (insert_uid f.src us)),
  find_uid-insert_uid u f.dst (insert_uid f.src us),
  find_uid-insert_uid u f.src us,
)

find_uid-erase_uids :
    (u : ℕ) (fs : List Flow) (us : List ℕ)
    → find_uid u (erase_uids fs us) ≡ (find_uid u us && not (at_flows u fs))
unfolding erase_uids at_flows
find_uid-erase_uids u [] us = ground arith
find_uid-erase_uids u (f ∷ fs) us = grind (
  arith,
  find_uid-erase_uids u fs (erase_uid f.dst.uid (erase_uid f.src.uid us)),
  find_uid-erase_uid u f.dst.uid (erase_uid f.src.uid us),
  find_uid-erase_uid u f.src.uid us,
)

pub find_uid-get_obj_set :
    (u : ℕ) (fs gs : List Flow)
    → find_uid u (get_obj_set fs gs) ≡ (in_flows u fs && not (at_flows u gs))
unfolding find_uid
find_uid-get_obj_set u fs gs =
    grind (arith, find_uid-erase_uids u gs (insert_uids fs []), find_uid-insert_uids u fs [])

-- which blocks are active after the switches
unfoldable pub switched : List Switch → (ℕ → Bool) → ℕ → Bool
switched [] act u = act u
switched (on v ∷ ss) act u = switched ss (λ k. (k == v) || act k) u
switched (off v ∷ ss) act u = switched ss (λ k. act k && not (k == v)) u

switched-off :
    (vs : List ℕ) (act : ℕ → Bool) (u : ℕ)
    → switched (map off vs) act u ≡ (act u && not (find_uid u vs))
unfolding switched find_uid
switched-off [] act u = ground arith
switched-off (v ∷ vs) act u = switched-off vs (λ k. act k && not (k == v)) u ∙ ground arith

pub switched-on :
    (us vs : List ℕ) (act : ℕ → Bool) (u : ℕ)
    → switched (map on us ++ map off vs) act u ≡ ((act u || find_uid u us) && not (find_uid u vs))
unfolding switched find_uid
switched-on [] vs act u = switched-off vs act u ∙ ground arith
switched-on (v ∷ us) vs act u = switched-on us vs (λ k. (k == v) || act k) u ∙ ground arith

-- Every port of the flows refers to an object, as after a topology is made flat.
unfoldable pub Complete : List Flow → Type 0
Complete [] = Unit
Complete (f ∷ fs) = (f.src.obj ≡ true) × (f.dst.obj ≡ true) × Complete fs

pub Complete-minus : (fs gs : List Flow) → Complete fs → Complete (minus fs gs)
unfolding minus Complete
Complete-minus [] gs c = tt
Complete-minus (f ∷ fs) gs (s, d, c) =
    elim (find_flow f gs) as (λ b. Complete (if b then minus fs gs else f ∷ minus fs gs)) [
      | true ↦ Complete-minus fs gs c
      | false ↦ (s, d, Complete-minus fs gs c)
    ]

pub in_flows-at : (u : ℕ) (fs : List Flow) → Complete fs → in_flows u fs ≡ at_flows u fs
unfolding in_flows at_flows Complete
in_flows-at u [] c = refl
in_flows-at u (f ∷ fs) (s, d, c) = ground (arith, in_flows-at u fs c)

at_flows-find :
    (u : ℕ) (f : Flow) (gs : List Flow)
    → find_flow f gs ≡ true
    → ((u ≡ f.src.uid) ⊎ (u ≡ f.dst.uid))
    → at_flows u gs ≡ true
unfolding at_flows find_flow same_flow same_port
at_flows-find u f [] h e = ground arith
at_flows-find u f (g ∷ gs) h e = ground (arith, at_flows-find u f gs)

pub at_flows-minus :
    (u : ℕ) (fs gs : List Flow)
    → (at_flows u (minus fs gs) ≡ true → at_flows u fs ≡ true)
      × (at_flows u fs ≡ true → at_flows u gs ≡ false → at_flows u (minus fs gs) ≡ true)
unfolding at_flows minus
at_flows-minus u [] gs = ((λ h. h), λ h _. h)
at_flows-minus u (f ∷ fs) gs =
    let (down, up) = at_flows-minus u fs gs in
    let found = at_flows-find u f gs in ((λ h. grind arith), λ h k. grind arith)
