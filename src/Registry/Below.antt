-- ===== src/Registry/Below.antt =====
-- Where the counts of plugins are above 0, and the names that the loop of `list` takes.
use pothos_core.Base.{
  List, [], ◌∷◌, true, false, none, ◌≡◌, refl, sym, ap, ◌∙◌, ◌≢◌, arith, if◌then◌else◌, inl, inr,
  ◌==◌, ◌&&◌, not, Bool-cases, ◌↔◌,
}
use pothos_core.Registry.{
  Name, Name-discrete, PluginPath, RegistryEntry, entry, Nodes, nil, cons, new_entry, child, put,
  find_name, entry_at, get_num_plugins, nodes_num_plugins, listed, list_entry,
}
use pothos_core.Registry.Lookup.{plugin_at, child-cons_self, child-cons_ne, child-put-child}
use pothos_core.Registry.Valid.{
  has_key, Distinct, Valid, ValidNodes, child_missing, child-Valid, put-Valid, put-count, child-le,
}

pub new_entry-plugin_at : (path : PluginPath) → plugin_at path new_entry ≡ none
unfolding entry_at child
new_entry-plugin_at [] = refl
new_entry-plugin_at (n ∷ path) = new_entry-plugin_at path

mutual
  unfolding Valid get_num_plugins entry_at child has_key

  found :
      (e : RegistryEntry)
      → Valid e
      → get_num_plugins e ≢ 0
      → (q : PluginPath) × (plugin_at q e ≢ none)
  found (entry true p names kids) v c = ([], λ h. cc)
  found (entry false p names kids) (_, _, v) c =
      let (n, q, h) = found_nodes kids v (λ z. c (omega arith)) in (n ∷ q, h)

  found_nodes :
      (kids : Nodes)
      → ValidNodes kids
      → nodes_num_plugins kids ≢ 0
      → (n : Name) × (q : PluginPath) × (plugin_at q (child n kids) ≢ none)
  found_nodes nil v c = absurd (c refl)
  found_nodes (cons m e kids) (ve, fresh, vk) c = elim (Bool-cases (get_num_plugins e == 0)) [
    | inl z ↦
        let (n, q, h) = found_nodes kids vk (λ g. c (grind arith)) in
        elim (Name-discrete n m) [
          | yes same ↦ absurd (
              h (
                ap (plugin_at q) (child_missing n kids (ap (λ k. has_key k kids) same ∙ fresh))
                ∙ new_entry-plugin_at q))
          | no d ↦ (n, q, λ g. h (ap (plugin_at q) (sym (child-cons_ne n m e kids d)) ∙ g))
        ]
    | inr z ↦
        let (q, h) = found e ve (λ g. grind arith) in
        (m, q, λ g. h (ap (plugin_at q) (sym (child-cons_self m e kids)) ∙ g))
  ]

counted : (q : PluginPath) (e : RegistryEntry) → plugin_at q e ≢ none → get_num_plugins e ≢ 0
unfolding get_num_plugins entry_at
counted [] (entry true p names kids) h c = omega arith
counted [] (entry false p names kids) h c = h refl
counted (n ∷ q) (entry has p names kids) h c =
    counted q (child n kids) h (omega (arith, child-le n kids))

pub num_plugins_iff :
    (e : RegistryEntry)
    → Valid e
    → (get_num_plugins e ≢ 0) ↔ ((q : PluginPath) × (plugin_at q e ≢ none))
num_plugins_iff e v = (found e v, λ (q, h). counted q e h)

pub find_name-listed :
    (m : Name) (names : List Name) (kids : Nodes)
    → find_name m (listed names kids).1
      ≡ (find_name m names && not (get_num_plugins (child m kids) == 0))
unfolding listed find_name
find_name-listed m [] kids = refl
find_name-listed m (n ∷ names) kids = grind (
  arith,
  find_name-listed m names (put n (child n kids) kids),
  ap get_num_plugins (child-put-child m n kids),
)

pub listed-child :
    (m : Name) (names : List Name) (kids : Nodes) → child m (listed names kids).0 ≡ child m kids
unfolding listed
listed-child m [] kids = refl
listed-child m (n ∷ names) kids =
    listed-child m names (put n (child n kids) kids) ∙ child-put-child m n kids

pub listed-Valid :
    (names : List Name) (kids : Nodes) → ValidNodes kids → ValidNodes (listed names kids).0
unfolding listed
listed-Valid [] kids v = v
listed-Valid (n ∷ names) kids v =
    listed-Valid names (put n (child n kids) kids)
      (put-Valid n (child n kids) kids (child-Valid n kids v) v)

pub listed-count :
    (names : List Name) (kids : Nodes)
    → nodes_num_plugins (listed names kids).0 ≡ nodes_num_plugins kids
unfolding listed
listed-count [] kids = refl
listed-count (n ∷ names) kids =
    omega (arith, listed-count names (put n (child n kids) kids), put-count n (child n kids) kids)

pub listed-Distinct :
    (names : List Name) (kids : Nodes) → Distinct names → Distinct (listed names kids).1
unfolding listed Distinct
listed-Distinct [] kids d = tt
listed-Distinct (n ∷ names) kids (fresh, d) =
    let rest = listed-Distinct names (put n (child n kids) kids) d in
    elim (get_num_plugins (child n kids) == 0)
      as (λ b. Distinct (
        if b
        then (listed names (put n (child n kids) kids)).1
        else n ∷ (listed names (put n (child n kids) kids)).1)) [
          | true ↦ rest
          | false ↦ (grind (arith, find_name-listed n names (put n (child n kids) kids)), rest)
        ]

pub list_entry-plugin_at :
    (q : PluginPath) (e : RegistryEntry) → plugin_at q (list_entry e).0 ≡ plugin_at q e
unfolding entry_at
list_entry-plugin_at [] (entry has p names kids) = refl
list_entry-plugin_at (n ∷ q) (entry has p names kids) = ap (plugin_at q) (listed-child n names kids)

pub list_entry-Valid : (e : RegistryEntry) → Valid e → Valid (list_entry e).0
unfolding Valid
list_entry-Valid (entry has p names kids) (distinct, named, v) = (
  distinct,
  (λ n c. named n (λ z. c (ap get_num_plugins (listed-child n names kids) ∙ z))),
  listed-Valid names kids v,
)

pub list_entry-count : (e : RegistryEntry) → get_num_plugins (list_entry e).0 ≡ get_num_plugins e
unfolding get_num_plugins
list_entry-count (entry has p names kids) = omega (arith, listed-count names kids)

pub list_entry-Distinct : (e : RegistryEntry) → Valid e → Distinct (list_entry e).1
unfolding Valid
list_entry-Distinct (entry has p names kids) (distinct, _, _) = listed-Distinct names kids distinct

pub list_entry_iff :
    (n : Name) (e : RegistryEntry)
    → Valid e
    → (find_name n (list_entry e).1 ≡ true) ↔ (get_num_plugins (entry_at (n ∷ []) e) ≢ 0)
unfolding Valid entry_at
list_entry_iff n (entry has p names kids) (_, named, _) =
    let found = find_name-listed n names kids in
    ((λ h c. grind arith), λ c. (let h = named n c in grind arith))
