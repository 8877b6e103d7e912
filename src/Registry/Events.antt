-- ===== src/Registry/Events.antt =====
-- The calls of event handlers, in lib/Plugin/Registry.cpp. What a handler does is outside: a call
-- is recorded, and which objects are handlers (`canObjectHandleEvent`) is a parameter. A handler's own
-- exceptions are caught and logged.
use pothos_core.Base.{
  List, [], ◌∷◌, ◌++◌, map, append-nil, Bool, ◌≡◌, refl, ap, ◌∙◌, ℕ, if◌then◌else◌,
}
use pothos_core.Registry.{
  Name, PluginPath, Plugin, Registry, RegistryEntry, entry, Nodes, child, put, Event, plugin_of,
  entry_at,
}
use pothos_core.Registry.Lookup.{plugin_at, plugin_at-put}

pub record Call : Type 0 where
  pub handler : ℕ
  pub plugin : Plugin
  pub event : Event

-- The first loop of `handlePluginEvent`: the tree with the nodes it makes, and `parentPlugins`,
-- from the nearest parent to the root. A path of one node or none has the root alone.
unfoldable pub parents : PluginPath → List Plugin → RegistryEntry → RegistryEntry × List Plugin
parents [] above e = (e, plugin_of e ∷ above)
parents (n ∷ []) above e = (e, plugin_of e ∷ above)
parents (n ∷ m ∷ path) above (entry has p names kids) =
    let (e, found) = parents (m ∷ path) (p ∷ above) (child n kids) in
    (entry has p names (put n e kids), found)

module _ (can_handle : ℕ → Bool) where
  abbrev pub call_handler : ℕ → Plugin → Event → List Call
  call_handler handler p event =
      if can_handle handler
      then record { handler = handler; plugin = p; event = event } ∷ []
      else []

  unfoldable pub call_handlers : List Plugin → Plugin → Event → List Call
  call_handlers [] p event = []
  call_handlers (q ∷ qs) p event = call_handler q.object p event ++ call_handlers qs p event

  unfoldable pub handle_plugin_event : Plugin → Event → Registry → Registry × List Call
  handle_plugin_event p event r =
      let (root, found) = parents p.path [] r.root in
      (record r { root = root }, call_handlers found p event)

-- the places above a path, the nearest first
unfoldable pub above_of : PluginPath → List PluginPath
above_of [] = [] ∷ []
above_of (n ∷ []) = [] ∷ []
above_of (n ∷ m ∷ path) = map (λ q. n ∷ q) (above_of (m ∷ path)) ++ [] ∷ []

lifted :
    (n : Name) (has : Bool) (p : Plugin) (names : List Name) (kids : Nodes) (above : List Plugin)
    (qs : List PluginPath)
    → map (λ q. plugin_of (entry_at q (child n kids))) qs ++ p ∷ above
      ≡ map (λ q. plugin_of (entry_at q (entry has p names kids))) (map (λ q. n ∷ q) qs ++ [] ∷ [])
        ++ above
unfolding entry_at
lifted n has p names kids above [] = refl
lifted n has p names kids above (q ∷ qs) =
    ap (λ ps. plugin_of (entry_at q (child n kids)) ∷ ps) (lifted n has p names kids above qs)

parents_lem :
    (path : PluginPath) (above : List Plugin) (e : RegistryEntry)
    → (parents path above e).1 ≡ map (λ q. plugin_of (entry_at q e)) (above_of path) ++ above
unfolding parents above_of entry_at
parents_lem [] above e = refl
parents_lem (n ∷ []) above e = refl
parents_lem (n ∷ m ∷ path) above (entry has p names kids) =
    parents_lem (m ∷ path) (p ∷ above) (child n kids)
    ∙ lifted n has p names kids above (above_of (m ∷ path))

parents-plugin_at :
    (path : PluginPath) (above : List Plugin) (e : RegistryEntry) (q : PluginPath)
    → plugin_at q (parents path above e).0 ≡ plugin_at q e
unfolding parents entry_at
parents-plugin_at [] above e q = refl
parents-plugin_at (n ∷ []) above e q = refl
parents-plugin_at (n ∷ m ∷ path) above (entry has p names kids) [] = refl
parents-plugin_at (n ∷ m ∷ path) above (entry has p names kids) (k ∷ q) =
    plugin_at-put q k n (parents (m ∷ path) (p ∷ above) (child n kids)).0 kids
      (λ _. parents-plugin_at (m ∷ path) (p ∷ above) (child n kids) q)

-- The handlers that hear of an event of a plugin are those registered above its path, the nearest
-- first and the root's last, and no path loses or gains a plugin.
pub handle_plugin_event_lem :
    (can_handle : ℕ → Bool) (p : Plugin) (event : Event) (r : Registry)
    → ((handle_plugin_event can_handle p event r).1
        ≡ call_handlers can_handle
            (map (λ q. plugin_of (entry_at q r.root)) (above_of p.path))
            p
            event)
      × ((q : PluginPath)
          → plugin_at q (handle_plugin_event can_handle p event r).0.root ≡ plugin_at q r.root)
unfolding handle_plugin_event
handle_plugin_event_lem can_handle p event r = (
  ap (λ ps. call_handlers can_handle ps p event)
      (parents_lem p.path [] r.root
        ∙ append-nil (map (λ q. plugin_of (entry_at q r.root)) (above_of p.path))),
  parents-plugin_at p.path [] r.root,
)
