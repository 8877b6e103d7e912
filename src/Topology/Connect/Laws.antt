-- ===== src/Topology/Connect/Laws.antt =====
-- Connections and disconnections of a topology.
use pothos_core.Base.{
  List, [], ◌∷◌, ◌++◌, true, false, not, ◌&&◌, some, ℕ, ◌==◌, ◌≡◌, ◌≢◌, refl, sym, ap, ◌∙◌, arith,
  map, if◌then◌else◌, Bool-cases, inl, inr, ◌⊎◌, subst, ==_iff,
}
use pothos_core.Topology.Connect.{
  PortInfo, Infos, find_info, set_info, find_name, copy_info, infos_of,
}

-- Each name has an info, and an info has the name it is kept under.
unfoldable pub Informed : List ℕ → Infos → Type 0
Informed [] infos = Unit
Informed (n ∷ ns) infos =
    ((i : PortInfo) × (find_info n infos ≡ some i) × (i.name ≡ n)) × Informed ns infos

pub find_info-set_self :
    (n : ℕ) (i : PortInfo) (infos : Infos) → find_info n (set_info n i infos) ≡ some i
unfolding find_info set_info
find_info-set_self n i [] = ground arith
find_info-set_self n i ((k, j) ∷ infos) = ground (arith, find_info-set_self n i infos)

pub find_info-set_ne :
    (n m : ℕ) (i : PortInfo) (infos : Infos)
    → n ≢ m
    → find_info n (set_info m i infos) ≡ find_info n infos
unfolding find_info set_info
find_info-set_ne n m i [] h = ground arith
find_info-set_ne n m i ((k, j) ∷ infos) h = ground (arith, find_info-set_ne n m i infos h)

pub set_info-Informed :
    (ns : List ℕ) (n : ℕ) (i : PortInfo) (infos : Infos)
    → i.name ≡ n
    → Informed ns infos
    → Informed ns (set_info n i infos)
unfolding Informed
set_info-Informed [] n i infos h v = tt
set_info-Informed (m ∷ ns) n i infos h ((j, found, named), v) = (
  elim (Bool-cases (m == n)) [
    | inl e ↦
        (let same = (==_iff m n).0 e in
          (
            i,
            ap (λ k. find_info k (set_info n i infos)) same ∙ find_info-set_self n i infos,
            h ∙ sym same,
          ))
    | inr d ↦
        (j, find_info-set_ne m n i infos (λ z. (let k = (==_iff m n).1 z in cc)) ∙ found, named)
  ],
  set_info-Informed ns n i infos h v,
)

pub Informed-append :
    (ns : List ℕ) (n : ℕ) (i : PortInfo) (infos : Infos)
    → Informed ns infos
    → find_info n infos ≡ some i
    → i.name ≡ n
    → Informed (ns ++ n ∷ []) infos
unfolding Informed
Informed-append [] n i infos v h e = ((i, h, e), tt)
Informed-append (m ∷ ns) n i infos (k, v) h e = (k, Informed-append ns n i infos v h e)

abbrev Noted : ℕ → Infos → Type 0
Noted n infos = (i : PortInfo) × (find_info n infos ≡ some i) × (i.name ≡ n)

-- The loop over the other end's infos keeps what is there, and finds the port's if it is listed.
pub copy_info-Informed :
    (ns : List ℕ) (mine theirs : ℕ) (is : List PortInfo) (infos : Infos)
    → Informed ns infos
    → Informed ns (copy_info mine theirs is infos)
unfolding copy_info
copy_info-Informed ns mine theirs [] infos v = v
copy_info-Informed ns mine theirs (i ∷ is) infos v =
    let mine_info : PortInfo = record {
      name = mine;
      alias = mine;
      is_sig_slot = i.is_sig_slot;
      dtype = i.dtype;
    } in
    elim (i.name == theirs)
      as (λ b.
        Informed ns
          (copy_info mine theirs is (if b then set_info mine mine_info infos else infos))) [
            | true ↦
                copy_info-Informed ns mine theirs is (set_info mine mine_info infos)
                  (set_info-Informed ns mine mine_info infos refl v)
            | false ↦ copy_info-Informed ns mine theirs is infos v
          ]

pub copy_info-Noted :
    (mine theirs : ℕ) (is : List PortInfo) (infos : Infos)
    → (Noted mine infos ⊎ (find_name theirs (map (λ i. i.name) is) ≡ true))
    → Noted mine (copy_info mine theirs is infos)
unfolding copy_info find_name
copy_info-Noted mine theirs [] infos (inl n) = n
copy_info-Noted mine theirs [] infos (inr h) = cc
copy_info-Noted mine theirs (i ∷ is) infos h =
    let mine_info : PortInfo = record {
      name = mine;
      alias = mine;
      is_sig_slot = i.is_sig_slot;
      dtype = i.dtype;
    } in
    elim (Bool-cases (i.name == theirs)) [
      | inl e ↦
          subst
            (λ b.
              Noted mine
                (copy_info mine theirs is (if b then set_info mine mine_info infos else infos)))
            (sym e)
            (copy_info-Noted mine theirs is (set_info mine mine_info infos)
              (inl (mine_info, find_info-set_self mine mine_info infos, refl)))
      | inr e ↦
          subst
            (λ b.
              Noted mine
                (copy_info mine theirs is (if b then set_info mine mine_info infos else infos)))
            (sym e)
            (copy_info-Noted mine theirs is infos
              (elim h [ inl n ↦ inl n | inr f ↦ inr (ground arith) ]))
    ]

-- The port infos of a topology whose names have infos can be listed, and go by the names.
pub infos_of_lem :
    (seen ns : List ℕ) (infos : Infos)
    → Informed ns infos
    → (is : List PortInfo) × (infos_of seen ns infos ≡ some is)
      × ((n : ℕ) → find_name n (map (λ i. i.name) is) ≡ (find_name n ns && not (find_name n seen)))
unfolding infos_of Informed find_name
infos_of_lem seen [] infos v = ([], refl, λ n. refl)
infos_of_lem seen (n ∷ ns) infos ((i, found, named), v) = elim (Bool-cases (find_name n seen)) [
  | inl h ↦
      (let (is, eq, names) = infos_of_lem seen ns infos v in
        (is, rw (infos_of, h) eq, λ m. (let k = names m in let e = ==_iff n m in grind arith)))
  | inr h ↦
      (let (is, eq, names) = infos_of_lem (n ∷ seen) ns infos v in
        (
          i ∷ is,
          rw (infos_of, h, found, eq) refl,
          λ m. (let k = names m in let e = ==_iff n m in grind arith),
        ))
]
