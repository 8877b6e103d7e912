-- ===== src/Topology/Connect.antt =====
-- `_connect`, `_disconnect`, `disconnectAll`, the aliases and the port infos of
-- lib/Framework/Topology.cpp.
pub mod Laws
pub mod Keeps
pub mod Drops
pub mod Undo
pub mod Runs
use pothos_core.Base.{
  List, [], ◌∷◌, ◌++◌, Bool, true, false, not, ◌&&◌, ◌||◌, Option, none, some, ℕ, ◌==◌, map,
  if◌then◌else◌, ◌>>=◌,
}
use pothos_core.Topology.{Port, Flow, same_flow, find_flow}

-- `alias` is empty, 0, in an info that `operator[]` made
pub record PortInfo : Type 0 where
  pub name : ℕ
  pub alias : ℕ
  pub is_sig_slot : Bool
  pub dtype : ℕ

abbrev pub no_info : PortInfo
no_info = record { name = 0; alias = 0; is_sig_slot = false; dtype = 0 }

abbrev pub Infos : Type 0
Infos = List (ℕ × PortInfo)

unfoldable pub find_info : ℕ → Infos → Option PortInfo
find_info n [] = none
find_info n ((k, i) ∷ infos) = if n == k then some i else find_info n infos

-- `infos[n] = i`
unfoldable pub set_info : ℕ → PortInfo → Infos → Infos
set_info n i [] = (n, i) ∷ []
set_info n i ((k, j) ∷ infos) =
    let rest = set_info n i infos in if n == k then (k, i) ∷ infos else (k, j) ∷ rest

abbrev pub info_of : ℕ → Infos → PortInfo
info_of n infos = elim (find_info n infos) [ none ↦ no_info | some i ↦ i ]

-- the members of `Topology::Impl` that connections use, and the topology's own uid
pub record Topology : Type 0 where
  pub self : ℕ
  pub flows : List Flow
  pub input_port_names : List ℕ
  pub output_port_names : List ℕ
  pub input_port_info : Infos
  pub output_port_info : Infos

-- `makePort`, for an object that is known by its uid
abbrev pub make_port : Topology → ℕ → ℕ → Port
make_port t u name = record { obj = not (u == t.self); name = name; uid = u }

unfoldable pub find_name : ℕ → List ℕ → Bool
find_name n [] = false
find_name n (m ∷ ms) = (m == n) || find_name n ms

-- `erase(find(...))`; a name that is missing would be the end of the list, which no caller may erase:
-- `none`
unfoldable pub erase_name : ℕ → List ℕ → Option (List ℕ)
erase_name n [] = none
erase_name n (m ∷ ms) =
    let rest = erase_name n ms in
    if m == n then some ms else elim rest [ none ↦ none | some ks ↦ some (m ∷ ks) ]

-- the loop over the infos of the other end, for the info of the topology's own port
unfoldable pub copy_info : ℕ → ℕ → List PortInfo → Infos → Infos
copy_info mine theirs [] infos = infos
copy_info mine theirs (i ∷ is) infos =
    let next =
      if i.name == theirs
      then set_info mine
          (record { name = mine; alias = mine; is_sig_slot = i.is_sig_slot; dtype = i.dtype }) infos
      else infos in
    copy_info mine theirs is next

abbrev pub touch_info : ℕ → Infos → Infos
touch_info n infos = set_info n (record (info_of n infos) { name = n }) infos

-- the result of a call: `refused` throws, `undefined` is behaviour that C++ leaves open
pub data Outcome : Type 0 where
  done refused undefined : Outcome

-- The ports and infos that other objects answer with, after their automatic allocation.
pub record Objects : Type 0 where
  pub output_names : ℕ → List ℕ
  pub input_names : ℕ → List ℕ
  pub output_infos : ℕ → List PortInfo
  pub input_infos : ℕ → List PortInfo

-- what `_connect` notes of ports of the hierarchy
abbrev pub note_ports : Objects → Flow → Topology → Topology
note_ports o f t =
    if not f.src.obj && f.dst.obj
    then record t {
      input_port_names = t.input_port_names ++ f.src.name ∷ [];
      input_port_info = copy_info f.src.name f.dst.name (o.input_infos f.dst.uid) t.input_port_info;
    }
    else if not f.dst.obj && f.src.obj
    then record t {
      output_port_names = t.output_port_names ++ f.dst.name ∷ [];
      output_port_info =
          copy_info f.dst.name f.src.name (o.output_infos f.src.uid) t.output_port_info;
    }
    else if not f.src.obj && not f.dst.obj
    then record t {
      input_port_names = t.input_port_names ++ f.src.name ∷ [];
      input_port_info = touch_info f.src.name t.input_port_info;
      output_port_names = t.output_port_names ++ f.dst.name ∷ [];
      output_port_info = touch_info f.dst.name t.output_port_info;
    }
    else t

unfoldable pub connect : Objects → ℕ → ℕ → ℕ → ℕ → Topology → Topology × Outcome
connect o src src_name dst dst_name t =
    let f : Flow = record { src = make_port t src src_name; dst = make_port t dst dst_name } in
    let t' = note_ports o f t in
    if f.src.obj && not (find_name src_name (o.output_names src))
    then (t, refused)
    else if f.dst.obj && not (find_name dst_name (o.input_names dst))
    then (t, refused)
    else if find_flow f t.flows
    then (t', refused)
    else (record t' { flows = t.flows ++ f ∷ [] }, done)

unfoldable pub erase_flow : Flow → List Flow → List Flow
erase_flow f [] = []
erase_flow f (g ∷ gs) = let rest = erase_flow f gs in if same_flow g f then gs else g ∷ rest

-- `inputPortInfo` and `outputPortInfo` list each name once; `at` throws on a name without an info.
unfoldable pub infos_of : List ℕ → List ℕ → Infos → Option (List PortInfo)
infos_of seen [] infos = some []
infos_of seen (n ∷ ns) infos =
    let skipped = infos_of seen ns infos in
    let rest = infos_of (n ∷ seen) ns infos in
    if find_name n seen then skipped else elim (find_info n infos) [
      | none ↦ none
      | some i ↦ elim rest [ none ↦ none | some is ↦ some (i ∷ is) ]
    ]

-- `inputPortNames` and `outputPortNames`
abbrev pub port_names : List ℕ → Infos → Option (List ℕ)
port_names ns infos = elim (infos_of [] ns infos) [
  | none ↦ none
  | some is ↦ some (map (λ i. i.name) is)
]

-- `getConnectable(src).call("outputPortNames")` is on the topology itself where `src` is it.
abbrev pub names_out : Objects → ℕ → Topology → Option (List ℕ)
names_out o u t =
    if u == t.self
    then port_names t.output_port_names t.output_port_info
    else some (o.output_names u)

abbrev pub names_in : Objects → ℕ → Topology → Option (List ℕ)
names_in o u t =
    if u == t.self then port_names t.input_port_names t.input_port_info else some (o.input_names u)

abbrev pub has : ℕ → Option (List ℕ) → Bool
has n none = false
has n (some ns) = find_name n ns

-- the names that `_disconnect` clears
unfoldable pub clear_ports : Flow → Topology → Option Topology
clear_ports f t = do
  outs ← if f.src.obj then some t.output_port_names else erase_name f.src.name t.output_port_names
  ins ← if f.dst.obj then some t.input_port_names else erase_name f.dst.name t.input_port_names
  some (record t { output_port_names = outs; input_port_names = ins })

-- the last part of `_disconnect`, on what is left after the names are cleared
unfoldable pub remove_flow : Flow → Topology → Option Topology → Topology × Outcome
remove_flow f t none = (t, undefined)
remove_flow f t (some t') =
    if find_flow f t.flows
    then (record t' { flows = erase_flow f t.flows }, done)
    else (t', refused)

unfoldable pub disconnect : Objects → ℕ → ℕ → ℕ → ℕ → Topology → Topology × Outcome
disconnect o src src_name dst dst_name t =
    let f : Flow = record { src = make_port t src src_name; dst = make_port t dst dst_name } in
    if not (has src_name (names_out o src t))
    then (t, refused)
    else if not (has dst_name (names_in o dst t))
    then (t, refused)
    else remove_flow f t (clear_ports f t)

-- `disconnectAll` on the topology itself; what it calls on others is outside.
abbrev pub disconnect_all : Topology → Topology
disconnect_all t = record t { flows = [] }

unfoldable pub set_alias : ℕ → ℕ → Infos → Option Infos
set_alias n alias infos = elim (find_info n infos) [
  | none ↦ none
  | some i ↦ some (set_info n (record i { alias = alias }) infos)
]
