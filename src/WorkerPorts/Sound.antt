-- ===== src/WorkerPorts/Sound.antt =====
-- The pointers by index stay those of the ports, and automatic allocation follows only such pointers.
use native.Mathlib.Decide.{ℕ_discrete}
use pothos_core.Base.{
  List, [], ◌∷◌, Option, Bool, false, not, ◌||◌, ◌&&◌, if◌then◌else◌, none, some, ℕ, get_elem?, ◌≡◌,
  ◌≢◌, refl, sym, ap, ◌∙◌, subst, arith, Bool-cases, inl, inr, Option-cases,
}
use mathlib.Core.Logic.{ite}
use pothos_core.WorkerPorts.{
  PortName, PortName-discrete, NameIndex, index, no_index, throws, port_name_to_index, WorkerPort,
  Ports, find_port, put_port, drop_port, find_name, installed, allocate_port, clear_at, install_at,
  auto_delete_port,
}
use pothos_core.WorkerPorts.Slots.{
  get_elem?-install_self, get_elem?-install_ne, get_elem?-strip, get_elem?-clear_at,
  get_elem?_of_install, get_elem?_of_strip, get_elem?_of_clear_at,
}

pub find_port-put_port :
    (m n : PortName) (p : WorkerPort) (ps : List (PortName × WorkerPort))
    → find_port m (put_port n p ps) ≡ ite (PortName-discrete m n) (some p) (find_port m ps)
unfolding find_port put_port
find_port-put_port m n p [] = ground arith
find_port-put_port m n p ((k, q) ∷ ps) = grind (arith, find_port-put_port m n p ps)

find_port-drop_port :
    (m n : PortName) (ps : List (PortName × WorkerPort))
    → find_port m (drop_port n ps) ≡ ite (PortName-discrete m n) none (find_port m ps)
unfolding find_port drop_port
find_port-drop_port m n [] = ground arith
find_port-drop_port m n ((k, q) ∷ ps) = grind (arith, find_port-drop_port m n ps)

-- the documented results of `std::to_string`: different for different numbers, and all digits
pub record Numeral (to_string : ℕ → PortName) : Type 0 where
  pub injective : (i j : ℕ) → to_string i ≡ to_string j → i ≡ j
  pub digits : (i : ℕ) → port_name_to_index (to_string i) ≢ no_index

-- A name that is a number is written the way `std::to_string` writes it, so without zeros in front.
abbrev pub Plain : (ℕ → PortName) → PortName → Type 0
Plain to_string n = (i : ℕ) → port_name_to_index n ≡ index i → n ≡ to_string i

-- Each port whose name is a number is the one that the pointer at its index is to; each pointer is to a
-- port that is there and has that index; and each port has the index of its name, which is plain.
pub record Sound (to_string : ℕ → PortName) (s : Ports) : Type 0 where
  pub slot :
      (i : ℕ) (p : WorkerPort)
      → find_port (to_string i) s.ports ≡ some p
      → get_elem? s.indexed_ports i ≡ some (some (to_string i))
  pub target :
      (i : ℕ) (n : PortName)
      → get_elem? s.indexed_ports i ≡ some (some n)
      → (p : WorkerPort) × (find_port n s.ports ≡ some p) × (p.index_of ≡ index i)
  pub own :
      (n : PortName) (p : WorkerPort)
      → find_port n s.ports ≡ some p
      → (p.index_of ≡ port_name_to_index n) × Plain to_string n

-- A port that is there, automatic, and without subscribers
unfoldable pub deletable : PortName → Ports → Bool
deletable n s = elim (find_port n s.ports) [
  | none ↦ false
  | some p ↦ not p.subscribed && find_name n s.automatic
]

-- The port of a name after the automatic deletion of a port
abbrev pub left_of : PortName → Ports → PortName → Option WorkerPort
left_of n s m =
    if deletable n s
    then ite (PortName-discrete m n) none (find_port m s.ports)
    else find_port m s.ports

auto_delete_port_ports :
    (n m : PortName) (s : Ports) → find_port m (auto_delete_port n s).ports ≡ left_of n s m
unfolding auto_delete_port deletable
auto_delete_port_ports n m s = elim (Option-cases (find_port n s.ports)) [
  | inl missing ↦ rw (auto_delete_port, deletable, missing) refl
  | inr (p, there) ↦ elim (Bool-cases p.subscribed) [
    | inl used ↦ rw (auto_delete_port, deletable, there, used) refl
    | inr free ↦ elim (Bool-cases (find_name n s.automatic)) [
      | inl own ↦
          rw (auto_delete_port, deletable, there, free, own) (find_port-drop_port m n s.ports)
      | inr fixed ↦ rw (auto_delete_port, deletable, there, free, fixed) refl
    ]
  ]
]

module _ (to_string : ℕ → PortName) (numeral : Numeral to_string) where
  -- a name that is the numeral of one number is not of another index
  other_index :
      (i : ℕ) (n : PortName) → Plain to_string n → to_string i ≢ n → port_name_to_index n ≢ index i
  other_index i n plain d h = d (sym (plain i h))

  installed-Sound :
      (n : PortName) (k : NameIndex) (dtype domain : ℕ) (automatic : Bool) (s : Ports)
      → k ≢ throws
      → port_name_to_index n ≡ k
      → Plain to_string n
      → Sound to_string s
      → Sound to_string (installed n k dtype domain automatic s)
  installed-Sound n k dtype domain automatic s fine parsed plain h =
      let p' : WorkerPort = record {
        dtype = dtype;
        domain = domain;
        index_of = k;
        subscribed = false;
      } in
      record {
        slot = λ i p found. elim (PortName-discrete (to_string i) n) [
          | yes e ↦ at_own i e k parsed fine
          | no d ↦ at_other i d k parsed (h.slot i p (sym (missed (to_string i) d) ∙ found))
        ];
        target = λ i m pointed. points i m k parsed refl pointed;
        own = λ m p found. elim (PortName-discrete m n) [
          | yes e ↦ (
            ap (λ q. q.index_of)
                  (some-injective p p'
                    (sym found ∙ ap (λ x. find_port x (put_port n p' s.ports)) e ∙ hit))
                ∙ sym parsed
                ∙ ap port_name_to_index (sym e),
            subst (Plain to_string) (sym e) plain,
          )
          | no d ↦ h.own m p (sym (missed m d) ∙ found)
        ];
      }
    where
      hit :
          find_port n (
            put_port n
              (record { dtype = dtype; domain = domain; index_of = k; subscribed = false })
              s.ports)
          ≡ some (record { dtype = dtype; domain = domain; index_of = k; subscribed = false })
      hit = ground (
        arith,
        find_port-put_port n n
            (record { dtype = dtype; domain = domain; index_of = k; subscribed = false }) s.ports,
      )

      missed :
          (m : PortName)
          → m ≢ n
          → find_port m (
              put_port n
                (record { dtype = dtype; domain = domain; index_of = k; subscribed = false })
                s.ports)
            ≡ find_port m s.ports
      missed m d = ground (
        arith,
        find_port-put_port m n
            (record { dtype = dtype; domain = domain; index_of = k; subscribed = false }) s.ports,
      )

      some-injective : (a b : WorkerPort) → some a ≡ some b → a ≡ b
      some-injective a b e = cc

      at_own :
          (i : ℕ)
          → to_string i ≡ n
          → (k : NameIndex) → port_name_to_index n ≡ k
          → k ≢ throws
          → get_elem? (install_at k n s.indexed_ports) i ≡ some (some (to_string i))
      at_own i e (index j) parsed fine =
          let same = numeral.injective i j (e ∙ plain j parsed) in
          ap (get_elem? (install_at (index j) n s.indexed_ports)) same
          ∙ get_elem?-install_self j n s.indexed_ports
          ∙ ap (λ x. some (some x)) (sym e)
      at_own i e no_index parsed fine = absurd (numeral.digits i (ap port_name_to_index e ∙ parsed))
      at_own i e throws parsed fine = absurd (fine refl)

      at_other :
          (i : ℕ)
          → to_string i ≢ n
          → (k : NameIndex) → port_name_to_index n ≡ k
          → get_elem? s.indexed_ports i ≡ some (some (to_string i))
          → get_elem? (install_at k n s.indexed_ports) i ≡ some (some (to_string i))
      at_other i d (index j) parsed old =
          get_elem?-install_ne j i n s.indexed_ports
            (λ e. other_index i n plain d (parsed ∙ ap index e)) old
      at_other i d no_index parsed old = old
      at_other i d throws parsed old = old

      index-injective : (a b : ℕ) → index a ≡ index b → a ≡ b
      index-injective a b e = cc

      none_has : (i : ℕ) → no_index ≢ index i
      none_has i e = cc

      name-injective : {a b : PortName} → some (some a) ≡ some (some b) → a ≡ b
      name-injective e = cc

      -- a pointer that was there before
      old_target :
          (i : ℕ) (m : PortName)
          → port_name_to_index n ≢ index i
          → get_elem? s.indexed_ports i ≡ some (some m)
          → (p : WorkerPort) × (find_port m (
                put_port n
                  (record { dtype = dtype; domain = domain; index_of = k; subscribed = false })
                  s.ports)
              ≡ some p)
            × (p.index_of ≡ index i)
      old_target i m d pointed =
          let (q, found, at) = h.target i m pointed in
          elim (PortName-discrete m n) [
            | yes e ↦ absurd (d (ap port_name_to_index (sym e) ∙ sym (h.own m q found).0 ∙ at))
            | no ne ↦ (q, missed m ne ∙ found, at)
          ]

      points :
          (i : ℕ) (m : PortName) (j : NameIndex)
          → port_name_to_index n ≡ j
          → k ≡ j
          → get_elem? (install_at j n s.indexed_ports) i ≡ some (some m)
          → (p : WorkerPort) × (find_port m (
                put_port n
                  (record { dtype = dtype; domain = domain; index_of = k; subscribed = false })
                  s.ports)
              ≡ some p)
            × (p.index_of ≡ index i)
      points i m (index j) parsed same pointed = elim (ℕ_discrete j i) [
        | yes e ↦
            let own : n ≡ m = name-injective (
              sym (get_elem?-install_self j n s.indexed_ports)
              ∙ ap (get_elem? (install_at (index j) n s.indexed_ports)) e
              ∙ pointed) in
            (
              _,
              ap
                    (λ x. find_port x (
                      put_port n
                        (record {
                          dtype = dtype;
                          domain = domain;
                          index_of = k;
                          subscribed = false;
                        })
                        s.ports))
                    (sym own)
                  ∙ hit,
              same ∙ ap index e,
            )
        | no d ↦
            old_target i m (λ z. d (index-injective j i (sym parsed ∙ z)))
              (get_elem?_of_install j i n s.indexed_ports d pointed)
      ]
      points i m no_index parsed same pointed =
          old_target i m (λ z. none_has i (sym parsed ∙ z)) pointed
      points i m throws parsed same pointed = absurd (fine same)

  -- A port of a plain name that is allocated keeps the pointers.
  pub allocate_port-Sound :
      (n : PortName) (dtype domain : ℕ) (automatic : Bool) (s s' : Ports)
      → Plain to_string n
      → Sound to_string s
      → allocate_port n dtype domain automatic s ≡ some s'
      → Sound to_string s'
  unfolding allocate_port
  allocate_port-Sound n dtype domain automatic s s' plain h ran = go (port_name_to_index n) refl ran
    where
      some-injective : (a b : Ports) → some a ≡ some b → a ≡ b
      some-injective a b e = cc

      go :
          (k : NameIndex)
          → port_name_to_index n ≡ k
          → elim k [
            | throws ↦ none
            | no_index ↦ some (installed n no_index dtype domain automatic s)
            | index i ↦ some (installed n (index i) dtype domain automatic s)
          ]
            ≡ some s'
          → Sound to_string s'
      go (index i) parsed e =
          subst (Sound to_string)
            (some-injective (installed n (index i) dtype domain automatic s) s' e)
            (installed-Sound n (index i) dtype domain automatic s (λ z. cc) parsed plain h)
      go no_index parsed e =
          subst (Sound to_string)
            (some-injective (installed n no_index dtype domain automatic s) s' e)
            (installed-Sound n no_index dtype domain automatic s (λ z. cc) parsed plain h)
      go throws parsed e = cc

  -- Automatic deletion keeps the pointers.
  pointers_kept :
      (n : PortName) (s : Ports) → Sound to_string s → Sound to_string (auto_delete_port n s)
  unfolding auto_delete_port
  pointers_kept n s h = elim (Option-cases (find_port n s.ports)) [
    | inl missing ↦ rw (auto_delete_port, missing) h
    | inr (p, there) ↦ elim (Bool-cases (p.subscribed || not (find_name n s.automatic))) [
      | inl kept ↦ rw (auto_delete_port, there, kept) h
      | inr goes ↦
          rw (auto_delete_port, there, goes)
            (record {
              slot = λ i q found. elim (PortName-discrete (to_string i) n) [
                | yes e ↦ absurd (
                    none-some (
                      sym (dropped n)
                      ∙ ap (λ x. find_port x (drop_port n s.ports)) (sym e)
                      ∙ found))
                | no d ↦ get_elem?-strip (clear_at p.index_of s.indexed_ports) i (
                    get_elem?-clear_at p.index_of i s.indexed_ports
                      (λ z. other_index i n (h.own n p there).1 d (sym (h.own n p there).0 ∙ z))
                      (h.slot i q (sym (missed (to_string i) d) ∙ found)))
              ];
              target = λ i m pointed.
                  let (before, not_own) =
                    get_elem?_of_clear_at p.index_of i s.indexed_ports
                      (get_elem?_of_strip (clear_at p.index_of s.indexed_ports) i pointed) in
                  let (q, found, at) = h.target i m before in
                  elim (PortName-discrete m n) [
                    | yes e ↦ absurd (
                        not_own (
                          ap (λ x. x.index_of)
                            (some-injective p q
                              (sym there ∙ ap (λ x. find_port x s.ports) (sym e) ∙ found))
                          ∙ at))
                    | no d ↦ (q, missed m d ∙ found, at)
                  ];
              own = λ m q found. elim (PortName-discrete m n) [
                | yes e ↦ absurd (
                    none-some (
                      sym (dropped n)
                      ∙ ap (λ x. find_port x (drop_port n s.ports)) (sym e)
                      ∙ found))
                | no d ↦ h.own m q (sym (missed m d) ∙ found)
              ];
            })
    ]
  ]
    where
      some-injective : (a b : WorkerPort) → some a ≡ some b → a ≡ b
      some-injective a b e = cc

      none-some : {q : WorkerPort} → none ≢ some q
      none-some e = cc

      dropped : (m : PortName) → find_port n (drop_port n s.ports) ≡ none
      dropped m = ground (arith, find_port-drop_port n n s.ports)

      missed : (m : PortName) → m ≢ n → find_port m (drop_port n s.ports) ≡ find_port m s.ports
      missed m d = ground (arith, find_port-drop_port m n s.ports)

  -- Where each port of a number has its pointer by index, each pointer is to a port that is there and has
  -- that index, and names that are numbers are plain, automatic deletion keeps all this, and of the ports
  -- it takes away exactly the named one, and this only if it is automatic and has no subscribers.
  pub auto_delete_port-Sound :
      (n : PortName) (s : Ports)
      → Sound to_string s
      → Sound to_string (auto_delete_port n s)
        × ((m : PortName) → find_port m (auto_delete_port n s).ports ≡ left_of n s m)
  auto_delete_port-Sound n s h = (pointers_kept n s h, λ m. auto_delete_port_ports n m s)
