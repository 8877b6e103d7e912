-- ===== src/Registry/Tests.antt =====
-- The registry's functions and theorems on a small tree.
use pothos_core.Base.{List, [], ◌∷◌, false, none, some, ◌≡◌, refl, sym, ap, ◌∙◌, ◌≢◌}
use native.Mathlib.Decide.{ℕ_discrete}
use pothos_core.Registry
use pothos_core.Registry.{
  Name, Name-discrete, PluginPath, PluginPath-discrete, Plugin, null_plugin, Registry, new_entry,
  plugin_of, child, put, entry_at, write_at, walk_named, find_name, get_num_plugins,
  get_plugin_paths, set_plugin_paths, update_plugin_association, added, removed, listed, erase_path,
}
use pothos_core.Registry.Lookup.{plugin_at}
use pothos_core.Registry.Valid.{Valid, new_entry-Valid}
use pothos_core.Registry.Below.{new_entry-plugin_at}
use pothos_core.Registry.Tracks.{Tracked, count_path, owned_by, step-Tracked}
use pothos_core.Registry.Spec.{
  Request, add, get, remove, exists, list, step, run, catalog, Trace, plugin, names, answer,
  refused,
}
use pothos_core.Registry.Refine.{run-refines}
use pothos_core.Registry.Loading.{load_module, unload_module}
use pothos_core.Registry.Unloading.{unload-load}

abbrev start : Registry
start = record { root = new_entry; module_paths = []; active = 7 }

abbrev a : Name
a = 97 ∷ []

abbrev b : Name
b = 98 ∷ []

abbrev deep : Plugin
deep = record { path = a ∷ b ∷ []; object = 1; from_module = 0 }

abbrev shallow : Plugin
shallow = record { path = a ∷ []; object = 2; from_module = 0 }

abbrev calls : List Request
calls =
    add deep
    ∷ add deep
    ∷ list []
    ∷ exists (b ∷ [])
    ∷ add shallow
    ∷ remove (a ∷ b ∷ [])
    ∷ get (a ∷ b ∷ [])
    ∷ []

calls-run :
    (run calls start).1
    ≡ plugin (record deep { from_module = 7 })
      ∷ refused
      ∷ names (a ∷ [])
      ∷ answer false
      ∷ plugin (record shallow { from_module = 7 })
      ∷ plugin (record deep { from_module = 7 })
      ∷ refused
      ∷ []
unfolding run step Registry.add Registry.list Registry.exists Registry.remove Registry.get child put
    entry_at write_at walk_named find_name listed get_num_plugins Name-discrete ℕ_discrete
calls-run = refl

run-refines_example :
    Valid (run calls start).0.root
    × Trace (catalog start) calls (catalog (run calls start).0) (run calls start).1
run-refines_example = run-refines calls start new_entry-Valid

start-Tracked : Tracked start
unfolding count_path get_plugin_paths entry_at child
start-Tracked = record {
  placed = λ q p h. absurd (none-some (sym (new_entry-plugin_at q) ∙ h));
  counted = λ m q. ap (owned_by m) (sym (new_entry-plugin_at q));
}
  where
    none-some : {p : Plugin} → none ≢ some p
    none-some h = cc

step-Tracked_example : Tracked (step (add deep) start).0
step-Tracked_example = step-Tracked (add deep) start start-Tracked

nothing_yet : get_plugin_paths 5 start.module_paths ≡ []
unfolding get_plugin_paths
nothing_yet = refl

unload-load_example :
    (paths : List PluginPath) × (r' : Registry) × ((load_module 5
        (some ((deep ∷ deep ∷ []) ∷ (shallow ∷ []) ∷ []))
        start).1
      ≡ some paths)
    × (unload_module paths (load_module 5 (some ((deep ∷ deep ∷ []) ∷ (shallow ∷ []) ∷ [])) start).0
        ≡ some r')
    × Tracked r'
    × ((q : PluginPath) → plugin_at q r'.root ≡ plugin_at q start.root)
unload-load_example =
    unload-load 5 ((deep ∷ deep ∷ []) ∷ (shallow ∷ []) ∷ []) start start-Tracked nothing_yet
