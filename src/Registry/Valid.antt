-- ===== src/Registry/Valid.antt =====
-- The shape of the tree: no node has two entries of a name, and a node with a plugin below is named.
use pothos_core.Base.{List, [], ◌∷◌, Bool, true, false, ◌≡◌, refl, sym, ◌∙◌, ◌≢◌, arith, ◌+◌, ◌≤◌}
use mathlib.Core.Logic.{ite}
use pothos_core.Registry.{
  Name, Name-discrete, PluginPath, RegistryEntry, entry, Nodes, nil, cons, new_entry, child, put,
  find_name, entry_at, write_at, get_num_plugins, nodes_num_plugins,
}

unfoldable pub has_key : Name → Nodes → Bool
has_key n nil = false
has_key n (cons m e kids) = ite (Name-discrete n m) true (has_key n kids)

unfoldable pub Distinct : List Name → Type 0
Distinct [] = Unit
Distinct (n ∷ names) = (find_name n names ≡ false) × Distinct names

abbrev pub Named : List Name → Nodes → Type 0
Named names kids = (n : Name) → get_num_plugins (child n kids) ≢ 0 → find_name n names ≡ true

unfoldable mutual
  pub Valid : RegistryEntry → Type 0
  Valid (entry has p names kids) = Distinct names × Named names kids × ValidNodes kids

  pub ValidNodes : Nodes → Type 0
  ValidNodes nil = Unit
  ValidNodes (cons n e kids) = Valid e × (has_key n kids ≡ false) × ValidNodes kids

pub new_entry-count : get_num_plugins new_entry ≡ 0
unfolding get_num_plugins
new_entry-count = refl

pub new_entry-Valid : Valid new_entry
unfolding Valid Distinct child
new_entry-Valid = (tt, (λ n h. absurd (h new_entry-count)), tt)

pub child_missing : (n : Name) (kids : Nodes) → has_key n kids ≡ false → child n kids ≡ new_entry
unfolding child has_key
child_missing n nil h = refl
child_missing n (cons m e kids) h = ground (arith, child_missing n kids)

pub has_key-put :
    (m n : Name) (e : RegistryEntry) (kids : Nodes)
    → m ≢ n
    → has_key m (put n e kids) ≡ has_key m kids
unfolding put has_key
has_key-put m n e nil h = ground arith
has_key-put m n e (cons k x kids) h = ground (arith, has_key-put m n e kids h)

pub child-Valid : (n : Name) (kids : Nodes) → ValidNodes kids → Valid (child n kids)
unfolding child Valid
child-Valid n nil v = new_entry-Valid
child-Valid n (cons m e kids) (ve, _, vk) =
    elim (Name-discrete n m) as (λ d. Valid (ite d e (child n kids))) [
      | yes _ ↦ ve
      | no _ ↦ child-Valid n kids vk
    ]

pub put-Valid :
    (n : Name) (e : RegistryEntry) (kids : Nodes)
    → Valid e
    → ValidNodes kids
    → ValidNodes (put n e kids)
unfolding put Valid has_key
put-Valid n e nil ve v = (ve, refl, tt)
put-Valid n e (cons m x kids) ve (vx, fresh, vk) =
    elim (Name-discrete n m)
      as (λ d. ValidNodes (ite d (cons m e kids) (cons m x (put n e kids)))) [
        | yes _ ↦ (ve, fresh, vk)
        | no d ↦ (vx, has_key-put m n e kids (λ h. d (sym h)) ∙ fresh, put-Valid n e kids ve vk)
      ]

pub put-count :
    (n : Name) (e : RegistryEntry) (kids : Nodes)
    → nodes_num_plugins (put n e kids) + get_num_plugins (child n kids)
      ≡ nodes_num_plugins kids + get_num_plugins e
unfolding put child get_num_plugins
put-count n e nil = omega (arith, new_entry-count)
put-count n e (cons m x kids) = ground (arith, put-count n e kids)

pub child-le : (n : Name) (kids : Nodes) → get_num_plugins (child n kids) ≤ nodes_num_plugins kids
unfolding child get_num_plugins
child-le n nil = omega arith
child-le n (cons m x kids) = ground (arith, child-le n kids)

pub write_at-count :
    (path : PluginPath) (x e : RegistryEntry)
    → get_num_plugins (write_at path x e) + get_num_plugins (entry_at path e)
      ≡ get_num_plugins e + get_num_plugins x
unfolding entry_at write_at get_num_plugins
write_at-count [] x e = omega arith
write_at-count (n ∷ path) x (entry has p names kids) =
    omega (
      arith,
      write_at-count path x (child n kids),
      put-count n (write_at path x (child n kids)) kids,
    )
