-- ===== src/Registry.antt =====
-- lib/Plugin/Registry.cpp and lib/Plugin/ModulePaths.cpp: the tree of the registered plugins, by the
-- names of their paths, and the paths that each module registered. A path is the list of its
-- nodes, an object and a module are known by a number, 0 for the null ones, since the registry
-- hands them on unread.
mod Lookup
mod Valid
mod Keeps
mod Below
mod Spec
mod Refine
mod Calls
mod Tracks
mod Loading
mod Unloading
mod Events
mod Tests
use pothos_core.Base.{
  List, [], ◌∷◌, ◌++◌, Bool, true, false, not, Option, none, some, ℕ, zero, suc, ◌+◌, ◌==◌, map,
  if◌then◌else◌,
}
use native.Mathlib.Decide.{ℕ_discrete}
use mathlib.Core.Logic.{ite}

-- a name of a node: the bytes of a `std::string`
abbrev pub Name : Type 0
Name = List ℕ

abbrev pub PluginPath : Type 0
PluginPath = List Name

pub Name-discrete : Discrete Name
Name-discrete = hlevel ℕ_discrete

pub PluginPath-discrete : Discrete PluginPath
PluginPath-discrete = hlevel ℕ_discrete

pub record Plugin : Type 0 where
  pub path : PluginPath
  pub object : ℕ
  pub from_module : ℕ

abbrev pub null_plugin : Plugin
null_plugin = record { path = []; object = 0; from_module = 0 }

-- The map of an entry, `nodes`, is the list of its keys and values.
mutual
  pub data RegistryEntry : Type 0 where
    entry :
        (has_plugin : Bool) (plugin : Plugin) (node_names_ordered : List Name) (nodes : Nodes)
        → RegistryEntry

  pub data Nodes : Type 0 where
    nil : Nodes
    cons : Name → RegistryEntry → Nodes → Nodes

abbrev pub new_entry : RegistryEntry
new_entry = entry false null_plugin [] nil

unfoldable mutual
  pub get_num_plugins : RegistryEntry → ℕ
  get_num_plugins (entry has p names nodes) = (if has then 1 else 0) + nodes_num_plugins nodes

  pub nodes_num_plugins : Nodes → ℕ
  nodes_num_plugins nil = 0
  nodes_num_plugins (cons n e nodes) = get_num_plugins e + nodes_num_plugins nodes

-- `nodes[n]`: the entry found, or the new one that the map makes; `put` is what the map becomes when
-- that entry is `e`.
unfoldable pub child : Name → Nodes → RegistryEntry
child n nil = new_entry
child n (cons m e nodes) = ite (Name-discrete n m) e (child n nodes)

unfoldable pub put : Name → RegistryEntry → Nodes → Nodes
put n e nil = cons n e nil
put n e (cons m x nodes) =
    let rest = put n e nodes in ite (Name-discrete n m) (cons m e nodes) (cons m x rest)

unfoldable pub find_name : Name → List Name → Bool
find_name n [] = false
find_name n (m ∷ names) = ite (Name-discrete m n) true (find_name n names)

abbrev pub push_name : Name → List Name → List Name
push_name n names = if find_name n names then names else names ++ n ∷ []

-- The loop that moves `root` along a path: the entry it ends at, the tree when that entry is `x`
-- at the end, and the tree that the insertions of the loop alone leave.
unfoldable pub entry_at : PluginPath → RegistryEntry → RegistryEntry
entry_at [] e = e
entry_at (n ∷ path) (entry has p names nodes) = entry_at path (child n nodes)

unfoldable pub write_at : PluginPath → RegistryEntry → RegistryEntry → RegistryEntry
write_at [] x e = x
write_at (n ∷ path) x (entry has p names nodes) =
    entry has p names (put n (write_at path x (child n nodes)) nodes)

abbrev pub walk : PluginPath → RegistryEntry → RegistryEntry
walk path e = write_at path (entry_at path e) e

-- the loop of `add`, which also names the nodes that are new
unfoldable pub walk_named : PluginPath → RegistryEntry → RegistryEntry
walk_named [] e = e
walk_named (n ∷ path) (entry has p names nodes) =
    entry has p (push_name n names) (put n (walk_named path (child n nodes)) nodes)

abbrev pub has_plugin : RegistryEntry → Bool
has_plugin (entry has p names nodes) = has

abbrev pub plugin_of : RegistryEntry → Plugin
plugin_of (entry has p names nodes) = p

abbrev pub set_plugin : Bool → Plugin → RegistryEntry → RegistryEntry
set_plugin has p (entry has' p' names nodes) = entry has p names nodes

-- `getModulePathsMap`: the paths by module, and `operator[]` on it. The empty list that a read makes for
-- a module that is missing is left out, since no read tells it apart.
abbrev pub ModulePathsMap : Type 0
ModulePathsMap = List (ℕ × List PluginPath)

unfoldable pub get_plugin_paths : ℕ → ModulePathsMap → List PluginPath
get_plugin_paths m [] = []
get_plugin_paths m ((k, v) ∷ paths) = if m == k then v else get_plugin_paths m paths

unfoldable pub set_plugin_paths : ℕ → List PluginPath → ModulePathsMap → ModulePathsMap
set_plugin_paths m v [] = (m, v) ∷ []
set_plugin_paths m v ((k, w) ∷ paths) =
    let rest = set_plugin_paths m v paths in if m == k then (k, v) ∷ paths else (k, w) ∷ rest

-- `std::find` and `erase`: the first of the equal paths goes
unfoldable pub erase_path : PluginPath → List PluginPath → List PluginPath
erase_path path [] = []
erase_path path (q ∷ qs) =
    let rest = erase_path path qs in ite (PluginPath-discrete q path) qs (q ∷ rest)

pub data Event : Type 0 where
  added removed : Event

unfoldable pub update_plugin_association : Event → Plugin → ModulePathsMap → ModulePathsMap
update_plugin_association added p paths =
    let v = get_plugin_paths p.from_module paths in
    set_plugin_paths p.from_module (v ++ p.path ∷ []) paths
update_plugin_association removed p paths =
    let v = get_plugin_paths p.from_module paths in
    set_plugin_paths p.from_module (erase_path p.path v) paths

-- the data that the functions share: the registry's root, the paths by module, and the module that
-- is being loaded
pub record Registry : Type 0 where
  pub root : RegistryEntry
  pub module_paths : ModulePathsMap
  pub active : ℕ

abbrev pub set_active_module_loading : ℕ → Registry → Registry
set_active_module_loading m r = record r { active = m }

-- Each function is the part under its lock, with the exception `PluginRegistryError` as `none`;
-- the calls of event handlers after it are in Registry/Events.antt.
unfoldable pub add : Plugin → Registry → Registry × Option Plugin
add p r =
    let root = walk_named p.path r.root in
    let found = entry_at p.path root in
    let plugin = record p { from_module = r.active } in
    if has_plugin found then (record r { root = root }, none) else (
      record {
        root = write_at p.path (set_plugin true plugin found) root;
        module_paths = update_plugin_association added plugin r.module_paths;
        active = r.active;
      },
      some plugin,
    )

unfoldable pub get : PluginPath → Registry → Registry × Option Plugin
get path r =
    let found = entry_at path r.root in
    (
      record r { root = walk path r.root },
      if has_plugin found then some (plugin_of found) else none,
    )

unfoldable pub remove : PluginPath → Registry → Registry × Option Plugin
remove path r =
    let found = entry_at path r.root in
    if has_plugin found
    then (
      record {
        root = write_at path (set_plugin false null_plugin found) r.root;
        module_paths = update_plugin_association removed (plugin_of found) r.module_paths;
        active = r.active;
      },
      some (plugin_of found),
    )
    else (record r { root = walk path r.root }, none)

unfoldable pub empty : PluginPath → Registry → Registry × Bool
empty path r = (record r { root = walk path r.root }, not (has_plugin (entry_at path r.root)))

unfoldable pub exists : PluginPath → Registry → Registry × Bool
exists path r =
    (record r { root = walk path r.root }, not (get_num_plugins (entry_at path r.root) == 0))

-- The loop over `nodeNamesOrdered` in `list`; `nodes[name]` puts in a name that is missing.
unfoldable pub listed : List Name → Nodes → Nodes × List Name
listed [] nodes = (nodes, [])
listed (n ∷ names) nodes =
    let e = child n nodes in
    let (nodes', found) = listed names (put n e nodes) in
    (nodes', if get_num_plugins e == 0 then found else n ∷ found)

abbrev pub list_entry : RegistryEntry → RegistryEntry × List Name
list_entry (entry has p names nodes) =
    let (nodes', found) = listed names nodes in (entry has p names nodes', found)

unfoldable pub list : PluginPath → Registry → Registry × List Name
list path r =
    let (e, found) = list_entry (entry_at path r.root) in
    (record r { root = write_at path e r.root }, found)
