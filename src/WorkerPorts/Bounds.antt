-- ===== src/WorkerPorts/Bounds.antt =====
-- Automatic allocation reads the list of indexed ports only where a port is.
use pothos_core.Base.{
  true, false, Option, none, some, ℕ, zero, suc, ◌<◌, ◌≡◌, ◌≢◌, refl, ap, ◌∙◌, arith, inl, inr, ◌⊎◌,
  Option-cases,
}
use pothos_core.WorkerPorts.{
  PortName, NameIndex, index, no_index, throws, port_name_to_index, WorkerPort, Ports, find_port,
  installed, allocate_port, port_at, lower_index, auto_allocate_port,
}
use pothos_core.WorkerPorts.Sound.{Numeral, Plain, Sound, find_port-put_port, allocate_port-Sound}

module _ (to_string : ℕ → PortName) (numeral : Numeral to_string) where
  port_at_lem :
      (j : ℕ) (p : WorkerPort) (s : Ports)
      → Sound to_string s
      → find_port (to_string j) s.ports ≡ some p
      → port_at j s ≡ some p
  unfolding port_at
  port_at_lem j p s h found = rw (port_at, h.slot j p found) found

  -- the port of the greatest index below, if there is one
  abbrev Lower : ℕ → Ports → Option ℕ → Type 0
  Lower i s none = (k : ℕ) → k < i → find_port (to_string k) s.ports ≡ none
  Lower i s (some j) =
      (j < i)
      × ((p : WorkerPort) × (find_port (to_string j) s.ports ≡ some p))
      × ((k : ℕ) → j < k → k < i → find_port (to_string k) s.ports ≡ none)

  lower_index_lem : (i : ℕ) (s : Ports) → Lower i s (lower_index to_string i s)
  unfolding lower_index
  lower_index_lem zero s = λ k lt. absurd (omega arith)
  lower_index_lem (suc i) s = go (lower_index_lem i s) (find_port (to_string i) s.ports) refl
    where
      longer :
          (o : Option ℕ) → find_port (to_string i) s.ports ≡ none → Lower i s o → Lower (suc i) s o
      longer none missing h = λ k lt. elim (at_end k lt) [
        | inl e ↦ ap (λ x. find_port (to_string x) s.ports) e ∙ missing
        | inr below ↦ h k below
      ]
        where
          at_end : (k : ℕ) → k < suc i → (k ≡ i) ⊎ (k < i)
          at_end k lt = ground arith
      longer (some j) missing (lt, there, gap) = (
        omega arith,
        there,
        λ k a b. elim (at_end k b) [
          | inl e ↦ ap (λ x. find_port (to_string x) s.ports) e ∙ missing
          | inr below ↦ gap k a below
        ],
      )
        where
          at_end : (k : ℕ) → k < suc i → (k ≡ i) ⊎ (k < i)
          at_end k lt = ground arith

      go :
          Lower i s (lower_index to_string i s)
          → (o : Option WorkerPort) → find_port (to_string i) s.ports ≡ o
          → Lower (suc i) s (elim o [ none ↦ lower_index to_string i s | some _ ↦ some i ])
      go h none missing = longer (lower_index to_string i s) missing h
      go h (some p) found = (omega arith, (p, found), λ k a b. absurd (omega arith))

  -- what automatic allocation leaves under a name that was free: a copy of the nearest lower port
  abbrev pub Copied : PortName → Ports → Ports → Type 0
  Copied n s s' =
      ((s' ≡ s))
      ⊎ ((i : ℕ) × (j : ℕ) × (p : WorkerPort) × (port_name_to_index n ≡ index i)
          × (find_port n s.ports ≡ none)
          × (j < i)
          × (find_port (to_string j) s.ports ≡ some p)
          × ((k : ℕ) → j < k → k < i → find_port (to_string k) s.ports ≡ none)
          × (find_port n s'.ports
              ≡ some (record {
                dtype = p.dtype;
                domain = p.domain;
                index_of = index i;
                subscribed = false;
              })))

  allocated :
      (n : PortName) (i dtype domain : ℕ) (s : Ports)
      → port_name_to_index n ≡ index i
      → allocate_port n dtype domain true s ≡ some (installed n (index i) dtype domain true s)
  unfolding allocate_port
  allocated n i dtype domain s parsed = rw (allocate_port, parsed) refl

  -- For a plain name that `std::stoi` accepts, automatic allocation on ports whose pointers are those by
  -- index never reads out of bounds or through a null pointer; it keeps the pointers so, and leaves the ports
  -- alone or makes the port with the type and domain of the nearest port of a lower index.
  pub auto_allocate_port_lem :
      (n : PortName) (s : Ports)
      → Plain to_string n
      → port_name_to_index n ≢ throws
      → Sound to_string s
      → (s' : Ports) × (auto_allocate_port to_string n s ≡ some s')
        × Sound to_string s'
        × Copied n s s'
  unfolding auto_allocate_port
  auto_allocate_port_lem n s plain fine h = parsed_as (port_name_to_index n) refl
    where
      lower :
          (i : ℕ)
          → port_name_to_index n ≡ index i
          → find_port n s.ports ≡ none
          → (o : Option ℕ) → lower_index to_string i s ≡ o
          → Lower i s o
          → (s' : Ports) × (auto_allocate_port to_string n s ≡ some s')
            × Sound to_string s'
            × Copied n s s'
      lower i parsed free none below _ =
          (s, rw (auto_allocate_port, parsed, free, below) refl, h, inl refl)
      lower i parsed free (some j) below (lt, (p, there), gap) =
          let made = installed n (index i) p.dtype p.domain true s in
          let ran = allocated n i p.dtype p.domain s parsed in
          let at = port_at_lem j p s h there in
          (
            made,
            rw (auto_allocate_port, parsed, free, below, at) ran,
            allocate_port-Sound to_string numeral n p.dtype p.domain true s made plain h ran,
            inr (
              i,
              j,
              p,
              parsed,
              free,
              lt,
              there,
              gap,
              ground (
                arith,
                find_port-put_port n n
                    (record {
                      dtype = p.dtype;
                      domain = p.domain;
                      index_of = index i;
                      subscribed = false;
                    })
                    s.ports,
              ),
            ),
          )

      parsed_as :
          (k : NameIndex)
          → port_name_to_index n ≡ k
          → (s' : Ports) × (auto_allocate_port to_string n s ≡ some s')
            × Sound to_string s'
            × Copied n s s'
      parsed_as throws parsed = absurd (fine parsed)
      parsed_as no_index parsed = (s, rw (auto_allocate_port, parsed) refl, h, inl refl)
      parsed_as (index i) parsed = elim (Option-cases (find_port n s.ports)) [
        | inr (p, there) ↦ (s, rw (auto_allocate_port, parsed, there) refl, h, inl refl)
        | inl free ↦ lower i parsed free (lower_index to_string i s) refl (lower_index_lem i s)
      ]
