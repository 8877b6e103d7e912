-- ===== src/Registry/Spec.antt =====
-- What the functions of the registry promise, as steps of a partial map from paths to plugins.
use pothos_core.Base.{List, [], ◌∷◌, ◌++◌, Bool, true, Option, none, some, ◌≡◌, ℕ, ◌↔◌, ◌≢◌}
use mathlib.Core.Logic.{ite}
use pothos_core.Registry
use pothos_core.Registry.{
  Name, PluginPath, PluginPath-discrete, Plugin, Registry, RegistryEntry, find_name,
  set_active_module_loading,
}
use pothos_core.Registry.Lookup.{plugin_at}
use pothos_core.Registry.Valid.{Distinct}

pub data Request : Type 0 where
  add : Plugin → Request
  get remove empty exists list : PluginPath → Request
  load : ℕ → Request

-- what a call gives: `refused` is the exception
pub data Reply : Type 0 where
  done refused : Reply
  plugin : Plugin → Reply
  answer : Bool → Reply
  names : List Name → Reply

abbrev pub given : Option Plugin → Reply
given none = refused
given (some p) = plugin p

unfoldable pub step : Request → Registry → Registry × Reply
step (add p) r = let (r', o) = Registry.add p r in (r', given o)
step (get path) r = let (r', o) = Registry.get path r in (r', given o)
step (remove path) r = let (r', o) = Registry.remove path r in (r', given o)
step (empty path) r = let (r', b) = Registry.empty path r in (r', answer b)
step (exists path) r = let (r', b) = Registry.exists path r in (r', answer b)
step (list path) r = let (r', ns) = Registry.list path r in (r', names ns)
step (load m) r = (set_active_module_loading m r, done)

-- the map, and the module that plugins are registered for
pub record Catalog : Type 0 where
  pub lookup : PluginPath → Option Plugin
  pub active : ℕ

abbrev pub store : PluginPath → Option Plugin → Catalog → Catalog
store path o c = record c { lookup = λ q. ite (PluginPath-discrete q path) o (c.lookup q) }

-- Some plugin is at the path or below it.
abbrev pub Occupied : PluginPath → Catalog → Type 0
Occupied path c = (q : PluginPath) × (c.lookup (path ++ q) ≢ none)

-- by the plugin that was there
unfoldable pub Added : Option Plugin → Plugin → Catalog → Catalog → Reply → Type 0
Added none p c c' reply = (c' ≡ store p.path (some p) c) × (reply ≡ plugin p)
Added (some old) p c c' reply = (c' ≡ c) × (reply ≡ refused)

unfoldable pub Removed : Option Plugin → PluginPath → Catalog → Catalog → Reply → Type 0
Removed none path c c' reply = (c' ≡ c) × (reply ≡ refused)
Removed (some old) path c c' reply = (c' ≡ store path none c) × (reply ≡ plugin old)

unfoldable pub Step : Request → Catalog → Catalog → Reply → Type 0
Step (add p) c c' reply = Added (c.lookup p.path) (record p { from_module = c.active }) c c' reply
Step (get path) c c' reply = (c' ≡ c) × (reply ≡ given (c.lookup path))
Step (remove path) c c' reply = Removed (c.lookup path) path c c' reply
Step (empty path) c c' reply =
    (c' ≡ c) × ((b : Bool) × (reply ≡ answer b) × ((b ≡ true) ↔ (c.lookup path ≡ none)))
Step (exists path) c c' reply =
    (c' ≡ c) × ((b : Bool) × (reply ≡ answer b) × ((b ≡ true) ↔ Occupied path c))
Step (list path) c c' reply =
    (c' ≡ c)
    × ((ns : List Name) × (reply ≡ names ns)
        × Distinct ns
        × ((n : Name) → (find_name n ns ≡ true) ↔ Occupied (path ++ n ∷ []) c))
Step (load m) c c' reply = (c' ≡ record c { active = m }) × (reply ≡ done)

abbrev pub catalog : Registry → Catalog
catalog r = record { lookup = λ q. plugin_at q r.root; active = r.active }

-- the calls and their replies, in order
pub data Trace : Catalog → List Request → Catalog → List Reply → Type 1 where
  stop : (c : Catalog) → Trace c [] c []
  more :
      (q : Request) (qs : List Request) (c c' c'' : Catalog) (reply : Reply) (replies : List Reply)
      → Step q c c' reply
      → Trace c' qs c'' replies
      → Trace c (q ∷ qs) c'' (reply ∷ replies)

unfoldable pub run : List Request → Registry → Registry × List Reply
run [] r = (r, [])
run (q ∷ qs) r =
    let (r', reply) = step q r in let (r'', replies) = run qs r' in (r'', reply ∷ replies)
