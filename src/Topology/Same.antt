-- ===== src/Topology/Same.antt =====
-- Ports and flows compared, and lists of them as sets.
use pothos_core.Base.{
  List, [], ◌∷◌, ◌++◌, true, false, not, ◌&&◌, ℕ, ◌+◌, ◌-◌, ◌≡◌, refl, arith, if◌then◌else◌, ◌↔◌,
}
use pothos_core.Topology.{Port, Flow, same_port, same_flow, find_flow, find_port, erase_port, minus}

pub same_port_iff : (p q : Port) → (same_port p q ≡ true) ↔ ((p.uid ≡ q.uid) × (p.name ≡ q.name))
unfolding same_port
same_port_iff p q = ground arith

pub same_flow_iff :
    (f g : Flow)
    → (same_flow f g ≡ true) ↔ ((same_port g.src f.src ≡ true) × (same_port g.dst f.dst ≡ true))
unfolding same_flow
same_flow_iff f g = ground arith

pub same_port_refl : (p : Port) → same_port p p ≡ true
unfolding same_port
same_port_refl p = ground arith

pub same_port_left : (p q r : Port) → same_port p q ≡ true → same_port p r ≡ same_port q r
unfolding same_port
same_port_left p q r h = ground arith

pub same_port_right : (p q r : Port) → same_port p q ≡ true → same_port r p ≡ same_port r q
unfolding same_port
same_port_right p q r h = ground arith

pub same_port_comm : (p q : Port) → same_port p q ≡ same_port q p
unfolding same_port
same_port_comm p q = ground arith

pub same_flow_refl : (f : Flow) → same_flow f f ≡ true
unfolding same_flow
same_flow_refl f = ground (arith, same_port_refl f.src, same_port_refl f.dst)

pub same_flow_right : (f g h : Flow) → same_flow g h ≡ true → same_flow f g ≡ same_flow f h
unfolding same_flow same_port
same_flow_right f g h e = ground arith

pub same_flow_comm : (f g : Flow) → same_flow f g ≡ same_flow g f
unfolding same_flow same_port
same_flow_comm f g = ground arith

pub find_flow_same :
    (f g : Flow) (fs : List Flow) → same_flow f g ≡ true → find_flow f fs ≡ find_flow g fs
unfolding find_flow same_flow same_port
find_flow_same f g [] h = refl
find_flow_same f g (x ∷ fs) h = ground (arith, find_flow_same f g fs h)

pub find_flow-minus :
    (f : Flow) (fs gs : List Flow)
    → find_flow f (minus fs gs) ≡ (find_flow f fs && not (find_flow f gs))
unfolding find_flow minus
find_flow-minus f [] gs = refl
find_flow-minus f (x ∷ fs) gs = grind (arith, find_flow-minus f fs gs, find_flow_same x f gs)

unfoldable pub count_port : Port → List Port → ℕ
count_port p [] = 0
count_port p (q ∷ qs) = (if same_port q p then 1 else 0) + count_port p qs

pub count_port-append :
    (p q : Port) (qs : List Port)
    → count_port p (qs ++ q ∷ []) ≡ count_port p qs + (if same_port q p then 1 else 0)
unfolding count_port
count_port-append p q [] = omega arith
count_port-append p q (x ∷ qs) = omega (arith, count_port-append p q qs)

pub count_port-erase_port :
    (p q : Port) (qs : List Port)
    → count_port p (erase_port q qs) ≡ count_port p qs - (if same_port q p then 1 else 0)
unfolding count_port erase_port
count_port-erase_port p q [] = ground arith
count_port-erase_port p q (x ∷ qs) = grind (
  arith,
  count_port-erase_port p q qs,
  same_port_left x q p,
  same_port_comm x p,
  same_port_right q p x,
)

pub find_port_zero : (p : Port) (qs : List Port) → count_port p qs ≡ 0 → find_port p qs ≡ false
unfolding count_port find_port
find_port_zero p [] h = refl
find_port_zero p (x ∷ qs) h = ground (arith, find_port_zero p qs)

pub find_port_one : (p : Port) (qs : List Port) → count_port p qs ≡ 1 → find_port p qs ≡ true
unfolding count_port find_port
find_port_one p [] h = ground arith
find_port_one p (x ∷ qs) h = ground (arith, find_port_one p qs)
