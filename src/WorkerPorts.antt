-- ===== src/WorkerPorts.antt =====
-- lib/Framework/WorkerActorPortAllocation.cpp: the ports of one side of a worker, its inputs or its
-- outputs. A pointer to a port is the name that the port is kept under, and a name is its bytes.
mod Slots
mod Sound
mod Bounds
mod Tests
use pothos_core.Base.{
  List, [], ◌∷◌, ◌++◌, Bool, true, false, not, ◌&&◌, ◌||◌, Option, none, some, ℕ, zero, suc, ◌+◌,
  ◌-◌, ◌*◌, ◌^◌, ltb, leb, ◌==◌, length, get_elem?, set, replicate, if◌then◌else◌,
}
use native.Mathlib.Decide.{ℕ_discrete}
use mathlib.Core.Logic.{ite}

abbrev pub PortName : Type 0
PortName = List ℕ

pub PortName-discrete : Discrete PortName
PortName-discrete = hlevel ℕ_discrete

-- what `portNameToIndex` gives: an index, -1, or an exception of `std::stoi`
pub data NameIndex : Type 0 where
  index : ℕ → NameIndex
  no_index throws : NameIndex

-- `std::isdigit` of every byte, and the value of the digits
unfoldable pub all_digits : PortName → Bool
all_digits [] = true
all_digits (c ∷ cs) = (leb 48 c && leb c 57) && all_digits cs

unfoldable pub digits_value : ℕ → PortName → ℕ
digits_value acc [] = acc
digits_value acc (c ∷ cs) = digits_value (acc * 10 + (c - 48)) cs

-- `std::stoi` throws on the empty text and on a value that no `int` has.
unfoldable pub port_name_to_index : PortName → NameIndex
port_name_to_index [] = throws
port_name_to_index (c ∷ cs) =
    if all_digits (c ∷ cs)
    then (if ltb (digits_value 0 (c ∷ cs)) (2 ^ 31)
        then index (digits_value 0 (c ∷ cs))
        else throws)
    else no_index

pub record WorkerPort : Type 0 where
  pub dtype : ℕ
  pub domain : ℕ
  pub index_of : NameIndex
  pub subscribed : Bool

-- `inputs` or `outputs`, and the block's `_named…`, `_indexed…` and `…PortNames`, and the automatic ports
pub record Ports : Type 0 where
  pub ports : List (PortName × WorkerPort)
  pub named_ports : List PortName
  pub indexed_ports : List (Option PortName)
  pub port_names : List PortName
  pub automatic : List PortName

unfoldable pub find_port : PortName → List (PortName × WorkerPort) → Option WorkerPort
find_port n [] = none
find_port n ((m, p) ∷ ps) = ite (PortName-discrete n m) (some p) (find_port n ps)

unfoldable pub put_port :
    PortName → WorkerPort → List (PortName × WorkerPort) → List (PortName × WorkerPort)
put_port n p [] = (n, p) ∷ []
put_port n p ((m, q) ∷ ps) =
    let rest = put_port n p ps in ite (PortName-discrete n m) ((m, p) ∷ ps) ((m, q) ∷ rest)

unfoldable pub drop_port : PortName → List (PortName × WorkerPort) → List (PortName × WorkerPort)
drop_port n [] = []
drop_port n ((m, q) ∷ ps) =
    let rest = drop_port n ps in ite (PortName-discrete n m) rest ((m, q) ∷ rest)

unfoldable pub find_name : PortName → List PortName → Bool
find_name n [] = false
find_name n (m ∷ ms) = ite (PortName-discrete n m) true (find_name n ms)

-- `erase(find(...))`, where the name is there
unfoldable pub drop_name : PortName → List PortName → List PortName
drop_name n [] = []
drop_name n (m ∷ ms) = let rest = drop_name n ms in ite (PortName-discrete n m) ms (m ∷ rest)

abbrev pub add_name : PortName → List PortName → List PortName
add_name n ns = if find_name n ns then ns else ns ++ n ∷ []

-- `resize(max(index + 1, size), nullptr)` and the write at the index
abbrev pub install : ℕ → PortName → List (Option PortName) → List (Option PortName)
install i n slots = set (slots ++ replicate (suc i - length slots) none) i (some n)

abbrev pub install_at : NameIndex → PortName → List (Option PortName) → List (Option PortName)
install_at (index i) n slots = install i n slots
install_at no_index n slots = slots
install_at throws n slots = slots

-- A port that is there is replaced, and its pointer is no longer among the automatic ports' pointers.
abbrev pub installed : PortName → NameIndex → ℕ → ℕ → Bool → Ports → Ports
installed n i dtype domain automatic s = record {
  ports =
      put_port n (record { dtype = dtype; domain = domain; index_of = i; subscribed = false })
        s.ports;
  named_ports = add_name n s.named_ports;
  indexed_ports = install_at i n s.indexed_ports;
  port_names = s.port_names ++ n ∷ [];
  automatic = if automatic then add_name n s.automatic else drop_name n s.automatic;
}

-- `none` is the exception of `std::stoi`; the port that it leaves behind, without an index, is left out.
unfoldable pub allocate_port : PortName → ℕ → ℕ → Bool → Ports → Option Ports
allocate_port n dtype domain automatic s = elim (port_name_to_index n) [
  | throws ↦ none
  | no_index ↦ some (installed n no_index dtype domain automatic s)
  | index i ↦ some (installed n (index i) dtype domain automatic s)
]

-- `indexedPorts[i]->…`: `none` is an access out of bounds or through a null pointer.
unfoldable pub port_at : ℕ → Ports → Option WorkerPort
port_at i s = elim (get_elem? s.indexed_ports i) [
  | none ↦ none
  | some slot ↦ elim slot [ none ↦ none | some n ↦ find_port n s.ports ]
]

-- the loop `while (back() == nullptr)`: the null pointers at the end go
unfoldable pub strip : List (Option PortName) → List (Option PortName)
strip [] = []
strip (x ∷ xs) = elim (strip xs) [
  | [] ↦ elim x [ none ↦ [] | some n ↦ some n ∷ [] ]
  | y ∷ ys ↦ x ∷ y ∷ ys
]

abbrev pub clear_at : NameIndex → List (Option PortName) → List (Option PortName)
clear_at (index i) slots = if ltb i (length slots) then set slots i none else slots
clear_at no_index slots = slots
clear_at throws slots = slots

unfoldable pub auto_delete_port : PortName → Ports → Ports
auto_delete_port n s = elim (find_port n s.ports) [
  | none ↦ s
  | some p ↦ if p.subscribed || not (find_name n s.automatic) then s else record {
    ports = drop_port n s.ports;
    named_ports = drop_name n s.named_ports;
    indexed_ports = strip (clear_at p.index_of s.indexed_ports);
    port_names = drop_name n s.port_names;
    automatic = drop_name n s.automatic;
  }
]

-- `std::to_string` is the standard library's.
module _ (to_string : ℕ → PortName) where
  -- the loop of `autoAllocatePort`: the first index below that has a port
  unfoldable pub lower_index : ℕ → Ports → Option ℕ
  lower_index zero s = none
  lower_index (suc i) s =
      let rest = lower_index i s in
      elim (find_port (to_string i) s.ports) [ none ↦ rest | some _ ↦ some i ]

  unfoldable pub auto_allocate_port : PortName → Ports → Option Ports
  auto_allocate_port n s = elim (port_name_to_index n) [
    | throws ↦ none
    | no_index ↦ some s
    | index i ↦ elim (find_port n s.ports) [
      | some _ ↦ some s
      | none ↦ elim (lower_index i s) [
        | none ↦ some s
        | some j ↦ elim (port_at j s) [
          | none ↦ none
          | some p ↦ allocate_port n p.dtype p.domain true s
        ]
      ]
    ]
  ]
