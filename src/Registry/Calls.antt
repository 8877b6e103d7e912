-- ===== src/Registry/Calls.antt =====
-- What each call does to the tree, by the plugin that is at its path.
use pothos_core.Base.{
  [], ◌∷◌, ◌++◌, Bool, true, false, none, some, ◌≡◌, refl, sym, ap, ◌∙◌, ℕ, arith, if◌then◌else◌,
  ◌↔◌, ◌≢◌, ◌≤◌, inr,
}
use mathlib.Core.Logic.{ite}
use pothos_core.Registry
use pothos_core.Registry.{
  Name, PluginPath, PluginPath-discrete, Plugin, null_plugin, Registry, RegistryEntry, entry, child,
  find_name, has_plugin, plugin_of, ModulePathsMap, entry_at, write_at, walk, walk_named,
  set_plugin, update_plugin_association, added, removed, get_num_plugins, list_entry,
}
use pothos_core.Registry.Lookup.{
  held, plugin_at, plugin_at-write_self, plugin_at-write_ne, plugin_at-walk, plugin_at-walk_named,
}
use pothos_core.Registry.Valid.{Valid}
use pothos_core.Registry.Keeps.{write_at-Valid, entry_at-Valid}
use pothos_core.Registry.Below.{num_plugins_iff}
use pothos_core.Registry.Spec.{Catalog, store, Occupied, catalog}

pub catalog_lem :
    (r : Registry) (c : Catalog)
    → ((q : PluginPath) → plugin_at q r.root ≡ c.lookup q)
    → r.active ≡ c.active
    → catalog r ≡ c
catalog_lem r c h a = λ i. record { lookup = λ q. h q i; active = a i }

pub walked :
    (path : PluginPath) (r r' : Registry)
    → r'.root ≡ walk path r.root
    → r'.active ≡ r.active
    → catalog r' ≡ catalog r
walked path r r' h a =
    catalog_lem r' (catalog r) (λ q. ap (plugin_at q) h ∙ plugin_at-walk q path r.root) a

pub walk-Valid : (path : PluginPath) (e : RegistryEntry) → Valid e → Valid (walk path e)
walk-Valid path e v =
    write_at-Valid path (entry_at path e) e v (entry_at-Valid path e v) (inr (omega arith))

-- the entry further down is the entry at the longer path
pub entry_at-append :
    (path q : PluginPath) (e : RegistryEntry)
    → entry_at (path ++ q) e ≡ entry_at q (entry_at path e)
unfolding entry_at
entry_at-append [] q e = refl
entry_at-append (n ∷ path) q (entry has p names kids) = entry_at-append path q (child n kids)

pub Occupied-iff :
    (path : PluginPath) (r : Registry)
    → Valid r.root
    → (get_num_plugins (entry_at path r.root) ≢ 0) ↔ Occupied path (catalog r)
Occupied-iff path r v =
    let (there, back) = num_plugins_iff (entry_at path r.root) (entry_at-Valid path r.root v) in
    (
      (λ h.
          let (q, g) = there h in (q, λ z. g (ap held (sym (entry_at-append path q r.root)) ∙ z))),
      λ (q, g). back (q, λ z. g (ap held (entry_at-append path q r.root) ∙ z)),
    )

pub set_plugin-Valid :
    (has : Bool) (p : Plugin) (e : RegistryEntry) → Valid e → Valid (set_plugin has p e)
unfolding Valid
set_plugin-Valid has p (entry has' p' names kids) v = v

held-none : (e : RegistryEntry) → held e ≡ none → has_plugin e ≡ false
held-none (entry has p names kids) h = ground arith

held-some :
    (e : RegistryEntry) {p : Plugin} → held e ≡ some p → (has_plugin e ≡ true) × (plugin_of e ≡ p)
held-some (entry has p names kids) h = ground arith

-- the registry after the plugin of the entry at a path is set
abbrev pub stored_in : PluginPath → Bool → Plugin → RegistryEntry → ModulePathsMap → ℕ → Registry
stored_in path has p e paths m = record {
  root = write_at path (set_plugin has p (entry_at path e)) e;
  module_paths = paths;
  active = m;
}

abbrev pub owned : ℕ → Plugin → Plugin
owned m p = record p { from_module = m }

pub add_taken :
    (p old : Plugin) (r : Registry)
    → plugin_at p.path r.root ≡ some old
    → Registry.add p r ≡ (record r { root = walk_named p.path r.root }, none)
unfolding Registry.add
add_taken p old r h =
    let e = entry_at p.path (walk_named p.path r.root) in
    rw ((held-some e (plugin_at-walk_named p.path p.path r.root ∙ h)).0) refl

pub add_free :
    (p : Plugin) (r : Registry)
    → plugin_at p.path r.root ≡ none
    → Registry.add p r ≡ (
      stored_in p.path true
          (owned r.active p)
          (walk_named p.path r.root)
          (update_plugin_association added (owned r.active p) r.module_paths)
          r.active,
      some (owned r.active p),
    )
unfolding Registry.add
add_free p r h =
    let e = entry_at p.path (walk_named p.path r.root) in
    rw (held-none e (plugin_at-walk_named p.path p.path r.root ∙ h)) refl

pub remove_missing :
    (path : PluginPath) (r : Registry)
    → plugin_at path r.root ≡ none
    → Registry.remove path r ≡ (record r { root = walk path r.root }, none)
unfolding Registry.remove
remove_missing path r h = rw (held-none (entry_at path r.root) h) refl

pub remove_held :
    (path : PluginPath) (p : Plugin) (r : Registry)
    → plugin_at path r.root ≡ some p
    → Registry.remove path r ≡ (
      stored_in path false null_plugin r.root
          (update_plugin_association removed p r.module_paths)
          r.active,
      some p,
    )
unfolding Registry.remove
remove_held path p r h = let (has, eq) = held-some (entry_at path r.root) h in rw (has, eq) refl

pub set_plugin-count :
    (p : Plugin) (e : RegistryEntry)
    → get_num_plugins (set_plugin false null_plugin e) ≤ get_num_plugins e
unfolding get_num_plugins
set_plugin-count p (entry has p' names kids) = omega arith

pub stored :
    (path : PluginPath) (has : Bool) (p : Plugin) (e : RegistryEntry) (q : PluginPath)
    → plugin_at q (write_at path (set_plugin has p (entry_at path e)) e)
      ≡ ite (PluginPath-discrete q path) (if has then some p else none) (plugin_at q e)
stored path has p e q =
    elim (PluginPath-discrete q path)
      as (λ d.
        plugin_at q (write_at path (set_plugin has p (entry_at path e)) e)
        ≡ ite d (if has then some p else none) (plugin_at q e)) [
          | yes h ↦
              ap (λ k. plugin_at k (write_at path (set_plugin has p (entry_at path e)) e)) h
              ∙ plugin_at-write_self path has p e
          | no h ↦ plugin_at-write_ne q path has p e h
        ]

pub catalog-stored :
    (path : PluginPath) (has : Bool) (p : Plugin) (e : RegistryEntry) (paths : ModulePathsMap)
    (r : Registry)
    → ((q : PluginPath) → plugin_at q e ≡ plugin_at q r.root)
    → catalog (stored_in path has p e paths r.active)
      ≡ store path (if has then some p else none) (catalog r)
catalog-stored path has p e paths r h =
    catalog_lem (stored_in path has p e paths r.active)
      (store path (if has then some p else none) (catalog r))
      (λ q.
        stored path has p e q
        ∙ ap (ite (PluginPath-discrete q path) (if has then some p else none)) (h q))
      refl
