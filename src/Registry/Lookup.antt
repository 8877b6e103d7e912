-- ===== src/Registry/Lookup.antt =====
-- The plugin that the tree holds at a path, and what the writes do to it.
use pothos_core.Base.{
  [], ◌∷◌, Bool, Option, none, some, ◌≡◌, refl, sym, ap, ◌∙◌, ◌≢◌, arith, if◌then◌else◌,
}
use mathlib.Core.Logic.{ite}
use pothos_core.Registry.{
  Name, Name-discrete, PluginPath, Plugin, RegistryEntry, entry, Nodes, nil, cons, child, put,
  entry_at, write_at, walk, walk_named, has_plugin, plugin_of, set_plugin,
}

abbrev pub held : RegistryEntry → Option Plugin
held e = if has_plugin e then some (plugin_of e) else none

abbrev pub plugin_at : PluginPath → RegistryEntry → Option Plugin
plugin_at path e = held (entry_at path e)

pub child-put_self : (n : Name) (e : RegistryEntry) (kids : Nodes) → child n (put n e kids) ≡ e
unfolding child put
child-put_self n e nil = ground arith
child-put_self n e (cons m x kids) = ground (arith, child-put_self n e kids)

pub child-put_ne :
    (n m : Name) (e : RegistryEntry) (kids : Nodes) → n ≢ m → child n (put m e kids) ≡ child n kids
unfolding child put
child-put_ne n m e nil h = ground arith
child-put_ne n m e (cons k x kids) h = ground (arith, child-put_ne n m e kids h)

pub child-put :
    (n m : Name) (e : RegistryEntry) (kids : Nodes)
    → child n (put m e kids) ≡ ite (Name-discrete n m) e (child n kids)
child-put n m e kids = grind (arith, child-put_self n e kids, child-put_ne n m e kids)

pub entry_at-write_at :
    (path : PluginPath) (x e : RegistryEntry) → entry_at path (write_at path x e) ≡ x
unfolding entry_at write_at
entry_at-write_at [] x e = refl
entry_at-write_at (n ∷ path) x (entry has p names kids) =
    ap (entry_at path) (child-put_self n (write_at path x (child n kids)) kids)
    ∙ entry_at-write_at path x (child n kids)

pub held-set_plugin :
    (has : Bool) (p : Plugin) (e : RegistryEntry)
    → held (set_plugin has p e) ≡ (if has then some p else none)
held-set_plugin has p (entry has' p' names kids) = refl

pub plugin_at-write_self :
    (path : PluginPath) (has : Bool) (p : Plugin) (e : RegistryEntry)
    → plugin_at path (write_at path (set_plugin has p (entry_at path e)) e)
      ≡ (if has then some p else none)
plugin_at-write_self path has p e =
    ap held (entry_at-write_at path (set_plugin has p (entry_at path e)) e)
    ∙ held-set_plugin has p (entry_at path e)

pub plugin_at-put :
    (q : PluginPath) (m n : Name) (x : RegistryEntry) (kids : Nodes)
    → (m ≡ n → plugin_at q x ≡ plugin_at q (child n kids))
    → plugin_at q (child m (put n x kids)) ≡ plugin_at q (child m kids)
plugin_at-put q m n x kids h = elim (Name-discrete m n) [
  | yes e ↦
      ap (λ k. plugin_at q (child k (put n x kids))) e
      ∙ ap (plugin_at q) (child-put_self n x kids)
      ∙ h e
      ∙ ap (λ k. plugin_at q (child k kids)) (sym e)
  | no d ↦ ap (plugin_at q) (child-put_ne m n x kids d)
]

pub plugin_at-write_ne :
    (q path : PluginPath) (has : Bool) (p : Plugin) (e : RegistryEntry)
    → q ≢ path
    → plugin_at q (write_at path (set_plugin has p (entry_at path e)) e) ≡ plugin_at q e
unfolding entry_at write_at
plugin_at-write_ne [] [] has p (entry has' p' names kids) h = absurd (h refl)
plugin_at-write_ne [] (n ∷ path) has p (entry has' p' names kids) h = refl
plugin_at-write_ne (m ∷ q) [] has p (entry has' p' names kids) h = refl
plugin_at-write_ne (m ∷ q) (n ∷ path) has p (entry has' p' names kids) h =
    plugin_at-put q m n
      (write_at path (set_plugin has p (entry_at path (child n kids))) (child n kids)) kids
      (λ e. plugin_at-write_ne q path has p (child n kids) (λ g. h (cc)))

-- writing an entry that holds what the old one holds
pub plugin_at-write_same :
    (path : PluginPath) (x e : RegistryEntry)
    → ((q : PluginPath) → plugin_at q x ≡ plugin_at q (entry_at path e))
    → (q : PluginPath) → plugin_at q (write_at path x e) ≡ plugin_at q e
unfolding entry_at write_at
plugin_at-write_same [] x e h q = h q
plugin_at-write_same (n ∷ path) x (entry has p names kids) h [] = refl
plugin_at-write_same (n ∷ path) x (entry has p names kids) h (m ∷ q) =
    plugin_at-put q m n (write_at path x (child n kids)) kids
      (λ e. plugin_at-write_same path x (child n kids) h q)

pub plugin_at-walk :
    (q path : PluginPath) (e : RegistryEntry) → plugin_at q (walk path e) ≡ plugin_at q e
plugin_at-walk q path e = plugin_at-write_same path (entry_at path e) e (λ _. refl) q

pub plugin_at-walk_named :
    (q path : PluginPath) (e : RegistryEntry) → plugin_at q (walk_named path e) ≡ plugin_at q e
unfolding entry_at walk_named
plugin_at-walk_named q [] (entry has p names kids) = refl
plugin_at-walk_named [] (n ∷ path) (entry has p names kids) = refl
plugin_at-walk_named (m ∷ q) (n ∷ path) (entry has p names kids) =
    plugin_at-put q m n (walk_named path (child n kids)) kids
      (λ e. plugin_at-walk_named q path (child n kids))

pub child-cons_self : (n : Name) (e : RegistryEntry) (kids : Nodes) → child n (cons n e kids) ≡ e
unfolding child
child-cons_self n e kids = ground arith

pub child-cons_ne :
    (n m : Name) (e : RegistryEntry) (kids : Nodes) → n ≢ m → child n (cons m e kids) ≡ child n kids
unfolding child
child-cons_ne n m e kids h = ground arith

pub child-put-child :
    (m n : Name) (kids : Nodes) → child m (put n (child n kids) kids) ≡ child m kids
child-put-child m n kids = elim (Name-discrete m n) [
  | yes e ↦
      ap (λ k. child k (put n (child n kids) kids)) e
      ∙ child-put_self n (child n kids) kids
      ∙ ap (λ k. child k kids) (sym e)
  | no d ↦ child-put_ne m n (child n kids) kids d
]
