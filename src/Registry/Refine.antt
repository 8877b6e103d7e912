-- ===== src/Registry/Refine.antt =====
-- The functions of the registry are steps of the map of Registry/Spec.antt.
use pothos_core.Base.{
  List, [], ◌∷◌, ◌++◌, true, false, not, refl, sym, ap, ◌∙◌, arith, inl, inr, Option-cases, ◌==◌,
}
use pothos_core.Registry
use pothos_core.Registry.{
  Name, PluginPath, PluginPath-discrete, Plugin, null_plugin, Registry, RegistryEntry, entry, child,
  find_name, has_plugin, plugin_of, ModulePathsMap, entry_at, write_at, walk, walk_named,
  set_plugin, update_plugin_association, added, removed, get_num_plugins, list_entry,
}
use pothos_core.Registry.Lookup.{plugin_at, plugin_at-write_same, plugin_at-walk_named}
use pothos_core.Registry.Valid.{Valid}
use pothos_core.Registry.Keeps.{
  write_at-Valid, walk_named-Valid, walk_named-NamedAlong, entry_at-Valid,
}
use pothos_core.Registry.Below.{
  list_entry-plugin_at, list_entry-Valid, list_entry-count, list_entry-Distinct, list_entry_iff,
}
use pothos_core.Registry.Spec.{
  Request, add, get, remove, empty, exists, list, load, step, Step, Added, Removed, catalog, Trace,
  stop, more, run,
}
use pothos_core.Registry.Calls.{
  catalog_lem, walked, walk-Valid, entry_at-append, Occupied-iff, set_plugin-Valid, owned,
  add_taken, add_free, remove_missing, remove_held, set_plugin-count, catalog-stored,
}

abbrev Refines : Request → Registry → Type 0
Refines q r = Valid (step q r).0.root × Step q (catalog r) (catalog (step q r).0) (step q r).1

add-Refines : (p : Plugin) (r : Registry) → Valid r.root → Refines (add p) r
unfolding step Step Added
add-Refines p r v = elim (Option-cases (plugin_at p.path r.root)) [
  | inl h ↦
      rw (add_free p r h, h)
        (
          write_at-Valid p.path
              (set_plugin true (owned r.active p) (entry_at p.path (walk_named p.path r.root)))
              (walk_named p.path r.root) (walk_named-Valid p.path r.root v)
              (set_plugin-Valid true (owned r.active p) (entry_at p.path (walk_named p.path r.root))
                (entry_at-Valid p.path (walk_named p.path r.root)
                  (walk_named-Valid p.path r.root v)))
              (inl (walk_named-NamedAlong p.path r.root)),
          (
            catalog-stored p.path true (owned r.active p) (walk_named p.path r.root)
                (update_plugin_association added (owned r.active p) r.module_paths) r
                (λ q. plugin_at-walk_named q p.path r.root),
            refl,
          ),
        )
  | inr (old, h) ↦
      rw (add_taken p old r h, h)
        (
          walk_named-Valid p.path r.root v,
          (
            catalog_lem (record r { root = walk_named p.path r.root }) (catalog r)
                (λ q. plugin_at-walk_named q p.path r.root) refl,
            refl,
          ),
        )
]

remove-Refines : (path : PluginPath) (r : Registry) → Valid r.root → Refines (remove path) r
unfolding step Step Removed
remove-Refines path r v = elim (Option-cases (plugin_at path r.root)) [
  | inl h ↦
      rw (remove_missing path r h, h)
        (
          walk-Valid path r.root v,
          (walked path r (record r { root = walk path r.root }) refl refl, refl),
        )
  | inr (old, h) ↦
      rw (remove_held path old r h, h)
        (
          write_at-Valid path (set_plugin false null_plugin (entry_at path r.root)) r.root v
              (set_plugin-Valid false null_plugin (entry_at path r.root)
                (entry_at-Valid path r.root v))
              (inr (set_plugin-count null_plugin (entry_at path r.root))),
          (
            catalog-stored path false null_plugin r.root
                (update_plugin_association removed old r.module_paths) r (λ _. refl),
            refl,
          ),
        )
]

get-Refines : (path : PluginPath) (r : Registry) → Valid r.root → Refines (get path) r
unfolding step Registry.get Step
get-Refines path r v =
    (walk-Valid path r.root v, (walked path r (Registry.get path r).0 refl refl, refl))

empty-Refines : (path : PluginPath) (r : Registry) → Valid r.root → Refines (empty path) r
unfolding step Registry.empty Step
empty-Refines path r v = (
  walk-Valid path r.root v,
  (
    walked path r (Registry.empty path r).0 refl refl,
    (not (has_plugin (entry_at path r.root)), refl, ground arith),
  ),
)

exists-Refines : (path : PluginPath) (r : Registry) → Valid r.root → Refines (exists path) r
unfolding step Registry.exists Step
exists-Refines path r v =
    let (there, back) = Occupied-iff path r v in
    (
      walk-Valid path r.root v,
      (
        walked path r (Registry.exists path r).0 refl refl,
        (
          not (get_num_plugins (entry_at path r.root) == 0),
          refl,
          (λ h. there (ground arith), λ o. (let g = back o in ground arith)),
        ),
      ),
    )

list-Refines : (path : PluginPath) (r : Registry) → Valid r.root → Refines (list path) r
unfolding step Registry.list Step
list-Refines path r v =
    let e = entry_at path r.root in
    let ve = entry_at-Valid path r.root v in
    (
      write_at-Valid path (list_entry e).0 r.root v (list_entry-Valid e ve)
          (inr (omega (arith, list_entry-count e))),
      (
        catalog_lem (record r { root = write_at path (list_entry e).0 r.root }) (catalog r)
            (plugin_at-write_same path (list_entry e).0 r.root (λ q. list_entry-plugin_at q e))
            refl,
        (
          (list_entry e).1,
          refl,
          list_entry-Distinct e ve,
          λ n.
              (let (there, back) = list_entry_iff n e ve in
                let (down, up) = Occupied-iff (path ++ n ∷ []) r v in
                let same = ap get_num_plugins (entry_at-append path (n ∷ []) r.root) in
                ((λ h. down (λ z. there h (sym same ∙ z))), λ o. back (λ z. up o (same ∙ z)))),
        ),
      ),
    )

pub step-Refines : (q : Request) (r : Registry) → Valid r.root → Refines q r
unfolding step Step
step-Refines (add p) r v = add-Refines p r v
step-Refines (get path) r v = get-Refines path r v
step-Refines (remove path) r v = remove-Refines path r v
step-Refines (empty path) r v = empty-Refines path r v
step-Refines (exists path) r v = exists-Refines path r v
step-Refines (list path) r v = list-Refines path r v
step-Refines (load m) r v = (v, (refl, refl))

-- What any calls in any order give is what a partial map from paths to plugins gives.
pub run-refines :
    (qs : List Request) (r : Registry)
    → Valid r.root
    → Valid (run qs r).0.root × Trace (catalog r) qs (catalog (run qs r).0) (run qs r).1
unfolding run
run-refines [] r v = (v, stop (catalog r))
run-refines (q ∷ qs) r v =
    let (v', s) = step-Refines q r v in
    let (v'', t) = run-refines qs (step q r).0 v' in
    (
      v'',
      more q qs (catalog r) (catalog (step q r).0) (catalog (run qs (step q r).0).0) (step q r).1
          (run qs (step q r).0).1 s t,
    )
