-- ===== src/WorkerPorts/Tests.antt =====
-- Ports 0 and 2 of a worker, and two names of one index.
use pothos_core.Base.{
  List, [], ◌∷◌, true, false, none, some, ℕ, zero, suc, ◌+◌, ◌>>=◌, ◌≡◌, ◌≢◌, inl, inr, Bool-cases,
  refl, sym, ap, ◌∙◌, arith, ltb, length, replicate, length-replicate, if◌then◌else◌,
}
use native.Mathlib.Decide.{ℕ_discrete}
use pothos_core.WorkerPorts.{
  PortName, PortName-discrete, port_name_to_index, index, no_index, throws, all_digits,
  digits_value, Ports, find_port, put_port, find_name, drop_port, drop_name, strip, port_at,
  lower_index, installed, allocate_port, auto_allocate_port, auto_delete_port,
}
use pothos_core.WorkerPorts.Sound.{
  Numeral, Plain, Sound, deletable, left_of, allocate_port-Sound, auto_delete_port-Sound,
}
use pothos_core.WorkerPorts.Bounds.{Copied, auto_allocate_port_lem}

abbrev no_ports : Ports
no_ports = record {
  ports = [];
  named_ports = [];
  indexed_ports = [];
  port_names = [];
  automatic = [];
}

-- one digit as in decimals, and for larger numbers any digits that differ
abbrev numeral : ℕ → PortName
numeral i = if ltb i 10 then (48 + i) ∷ [] else replicate i 49

length-numeral : (i : ℕ) → length (numeral i) ≡ (if ltb i 10 then 1 else i)
length-numeral i = elim (Bool-cases (ltb i 10)) [
  | inl e ↦ rw (e) refl
  | inr e ↦ rw (e) (length-replicate i 49)
]

numeral_injective : (i j : ℕ) → numeral i ≡ numeral j → i ≡ j
numeral_injective i j h =
    let same : (if ltb i 10 then 1 else i) ≡ (if ltb j 10 then 1 else j) =
      sym (length-numeral i) ∙ ap length h ∙ length-numeral j in
    elim (Bool-cases (ltb i 10)) [
      | inl a ↦ elim (Bool-cases (ltb j 10)) [
        | inl b ↦
            (let k = ap (first 0) (
                sym (ap (λ x. if x then (48 + i) ∷ [] else replicate i 49) a)
                ∙ h
                ∙ ap (λ x. if x then (48 + j) ∷ [] else replicate j 49) b) in
              omega arith)
        | inr b ↦ ground arith
      ]
      | inr a ↦ ground arith
    ]
  where
    first : ℕ → List ℕ → ℕ
    first d [] = d
    first d (x ∷ xs) = x

all_digits-replicate : (n : ℕ) → all_digits (replicate n 49) ≡ true
unfolding all_digits
all_digits-replicate zero = refl
all_digits-replicate (suc n) = ground (arith, all_digits-replicate n)

digits_only : (n : PortName) → all_digits n ≡ true → port_name_to_index n ≢ no_index
unfolding port_name_to_index
digits_only [] h z = cc
digits_only (c ∷ cs) h z = ground arith

numeral-Numeral : Numeral numeral
unfolding all_digits
numeral-Numeral = record {
  injective = numeral_injective;
  digits = λ i. elim (Bool-cases (ltb i 10)) [
    | inl e ↦ rw (e) (digits_only ((48 + i) ∷ []) (ground arith))
    | inr e ↦ rw (e) (digits_only (replicate i 49) (all_digits-replicate i))
  ];
}

no_ports-Sound : Sound numeral no_ports
unfolding find_port
no_ports-Sound = record { slot = λ i p h. cc; target = λ i n h. cc; own = λ n p h. cc }

index-injective : (i j : ℕ) → index i ≡ index j → i ≡ j
index-injective i j h = cc

abbrev zero_name : PortName
zero_name = 48 ∷ []

abbrev one_name : PortName
one_name = 49 ∷ []

abbrev three_name : PortName
three_name = 51 ∷ []

-- the same index, with a zero in front
abbrev padded_name : PortName
padded_name = 48 ∷ 49 ∷ []

zero-Plain : Plain numeral zero_name
unfolding port_name_to_index all_digits digits_value
zero-Plain i h = ap numeral (index-injective 0 i h)

three-Plain : Plain numeral three_name
unfolding port_name_to_index all_digits digits_value
three-Plain i h = ap numeral (index-injective 3 i h)

abbrev with_zero : Ports
with_zero = installed zero_name (index 0) 5 0 false no_ports

with_zero_made : allocate_port zero_name 5 0 false no_ports ≡ some with_zero
unfolding allocate_port port_name_to_index all_digits digits_value
with_zero_made = refl

with_zero-Sound : Sound numeral with_zero
with_zero-Sound =
    allocate_port-Sound numeral numeral-Numeral zero_name 5 0 false no_ports with_zero zero-Plain
      no_ports-Sound with_zero_made

three_accepted : port_name_to_index three_name ≢ throws
unfolding port_name_to_index all_digits digits_value
three_accepted h = cc

auto_allocate_port_lem_example :
    (s' : Ports) × (auto_allocate_port numeral three_name with_zero ≡ some s')
    × Sound numeral s'
    × Copied numeral numeral-Numeral three_name with_zero s'
auto_allocate_port_lem_example =
    auto_allocate_port_lem numeral numeral-Numeral three_name with_zero three-Plain three_accepted
      with_zero-Sound

abbrev with_three : Ports
with_three = installed three_name (index 3) 5 0 true with_zero

with_three_made : allocate_port three_name 5 0 true with_zero ≡ some with_three
unfolding allocate_port port_name_to_index all_digits digits_value
with_three_made = refl

auto_delete_port-Sound_example :
    Sound numeral (auto_delete_port three_name with_three)
    × ((m : PortName)
        → find_port m (auto_delete_port three_name with_three).ports
          ≡ left_of three_name with_three m)
auto_delete_port-Sound_example =
    auto_delete_port-Sound numeral numeral-Numeral three_name with_three (
      allocate_port-Sound numeral numeral-Numeral three_name 5 0 true with_zero with_three
        three-Plain with_zero-Sound with_three_made)

three_deletable : deletable three_name with_three ≡ true
unfolding deletable find_port put_port find_name PortName-discrete ℕ_discrete drop_name
three_deletable = refl

-- the port and the end of the list are gone
three_deleted : (auto_delete_port three_name with_three).indexed_ports ≡ some zero_name ∷ []
unfolding find_port put_port find_name drop_port drop_name strip auto_delete_port PortName-discrete
    ℕ_discrete
three_deleted = refl

-- Port 1 and port 01 share an index. When port 01 is deleted, port 1 is there without its pointer, and the
-- next automatic allocation reads past the end of the list.
padded_read :
    (auto_allocate_port numeral one_name with_zero >>= λ s.
    auto_allocate_port numeral padded_name s >>= λ t.
    auto_allocate_port numeral three_name (auto_delete_port padded_name t))
    ≡ none
unfolding auto_allocate_port port_name_to_index all_digits digits_value find_port put_port find_name
    drop_port drop_name strip port_at lower_index allocate_port auto_delete_port PortName-discrete
    ℕ_discrete
padded_read = refl
