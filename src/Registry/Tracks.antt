-- ===== src/Registry/Tracks.antt =====
-- The paths kept by module are those of the plugins in the tree that the module registered.
use pothos_core.Base.{
  List, [], ◌∷◌, ◌++◌, true, false, Option, none, some, ◌≡◌, refl, sym, ap, ◌∙◌, ℕ, ◌+◌, ◌-◌, arith,
  if◌then◌else◌, ◌≢◌, inl, inr, Option-cases, ◌==◌, ==_iff, ==_iff,
}
use mathlib.Core.Logic.{ite}
use pothos_core.Registry
use pothos_core.Registry.{
  PluginPath, PluginPath-discrete, Plugin, null_plugin, Registry, RegistryEntry, ModulePathsMap,
  get_plugin_paths, set_plugin_paths, erase_path, update_plugin_association, added, removed, walk,
  walk_named, entry_at, list_entry,
}
use pothos_core.Registry.Lookup.{
  plugin_at, plugin_at-write_self, plugin_at-write_ne, plugin_at-walk, plugin_at-walk_named,
  plugin_at-write_same,
}
use pothos_core.Registry.Below.{list_entry-plugin_at}
use pothos_core.Registry.Spec.{Request, add, get, remove, empty, exists, list, load, step}
use pothos_core.Registry.Calls.{add_taken, add_free, owned, stored_in, remove_missing, remove_held}

unfoldable pub count_path : PluginPath → List PluginPath → ℕ
count_path q [] = 0
count_path q (p ∷ ps) = (ite (PluginPath-discrete p q) 1 0) + count_path q ps

pub count_path-append :
    (q p : PluginPath) (ps : List PluginPath)
    → count_path q (ps ++ p ∷ []) ≡ count_path q ps + ite (PluginPath-discrete p q) 1 0
unfolding count_path
count_path-append q p [] = omega arith
count_path-append q p (k ∷ ps) = omega (arith, count_path-append q p ps)

pub count_path-erase_path :
    (q p : PluginPath) (ps : List PluginPath)
    → count_path q (erase_path p ps) ≡ count_path q ps - ite (PluginPath-discrete p q) 1 0
unfolding count_path erase_path
count_path-erase_path q p [] = ground arith
count_path-erase_path q p (k ∷ ps) = grind (arith, count_path-erase_path q p ps)

pub get-set_plugin_paths :
    (m k : ℕ) (v : List PluginPath) (paths : ModulePathsMap)
    → get_plugin_paths m (set_plugin_paths k v paths)
      ≡ (if m == k then v else get_plugin_paths m paths)
unfolding get_plugin_paths set_plugin_paths
get-set_plugin_paths m k v [] = ground arith
get-set_plugin_paths m k v ((j, w) ∷ paths) = ground (arith, get-set_plugin_paths m k v paths)

abbrev pub owned_by : ℕ → Option Plugin → ℕ
owned_by m none = 0
owned_by m (some p) = if m == p.from_module then 1 else 0

-- Each plugin is at its own path, and the paths of a module are those of its plugins, each once.
pub record Tracked (r : Registry) : Type 0 where
  pub placed : (q : PluginPath) (p : Plugin) → plugin_at q r.root ≡ some p → p.path ≡ q
  pub counted :
      (m : ℕ) (q : PluginPath)
      → count_path q (get_plugin_paths m r.module_paths) ≡ owned_by m (plugin_at q r.root)

counted-added :
    (m : ℕ) (q : PluginPath) (p : Plugin) (paths : ModulePathsMap)
    → count_path q (get_plugin_paths m (update_plugin_association added p paths))
      ≡ count_path q (get_plugin_paths m paths)
        + (if m == p.from_module then ite (PluginPath-discrete p.path q) 1 0 else 0)
unfolding update_plugin_association
counted-added m q p paths = grind (
  arith,
  get-set_plugin_paths m p.from_module (get_plugin_paths p.from_module paths ++ p.path ∷ []) paths,
  count_path-append q p.path (get_plugin_paths p.from_module paths),
  ==_iff m p.from_module,
)

counted-removed :
    (m : ℕ) (q : PluginPath) (p : Plugin) (paths : ModulePathsMap)
    → count_path q (get_plugin_paths m (update_plugin_association removed p paths))
      ≡ count_path q (get_plugin_paths m paths)
        - (if m == p.from_module then ite (PluginPath-discrete p.path q) 1 0 else 0)
unfolding update_plugin_association
counted-removed m q p paths = grind (
  arith,
  get-set_plugin_paths m p.from_module (erase_path p.path (get_plugin_paths p.from_module paths))
      paths,
  count_path-erase_path q p.path (get_plugin_paths p.from_module paths),
  ==_iff m p.from_module,
)

abbrev pub hits : PluginPath → PluginPath → ℕ
hits p q = ite (PluginPath-discrete p q) 1 0

pub hits_same : (p q : PluginPath) → q ≡ p → hits p q ≡ 1
hits_same p q h = ground arith

pub hits_other : (p q : PluginPath) → q ≢ p → hits p q ≡ 0
hits_other p q h = ground arith

-- what an addition and a removal keep, from what they do to the tree and to the paths by module
Tracked-added :
    (r r' : Registry) (p : Plugin)
    → Tracked r
    → plugin_at p.path r.root ≡ none
    → r'.module_paths ≡ update_plugin_association added p r.module_paths
    → plugin_at p.path r'.root ≡ some p
    → ((q : PluginPath) → q ≢ p.path → plugin_at q r'.root ≡ plugin_at q r.root)
    → Tracked r'
Tracked-added r r' p t free paths now rest = record {
  placed = λ q x h. elim (PluginPath-discrete q p.path) [
    | yes e ↦
        (let h' = sym (ap (λ k. plugin_at k r'.root) e) ∙ h in some-path p x q (sym now ∙ h') e)
    | no d ↦ t.placed q x (sym (rest q d) ∙ h)
  ];
  counted = λ m q.
      ap (λ ps. count_path q (get_plugin_paths m ps)) paths
      ∙ counted-added m q p r.module_paths
      ∙ elim (PluginPath-discrete q p.path) [
        | yes e ↦ rw (t.counted m q, hits_same p.path q e, e, free, now) (ground arith)
        | no d ↦ rw (t.counted m q, hits_other p.path q d, rest q d) (ground arith)
      ];
}
  where
    some-path : (p x : Plugin) (q : PluginPath) → some p ≡ some x → q ≡ p.path → x.path ≡ q
    some-path p x q h e = cc

Tracked-removed :
    (r r' : Registry) (p : Plugin) (path : PluginPath)
    → Tracked r
    → plugin_at path r.root ≡ some p
    → r'.module_paths ≡ update_plugin_association removed p r.module_paths
    → plugin_at path r'.root ≡ none
    → ((q : PluginPath) → q ≢ path → plugin_at q r'.root ≡ plugin_at q r.root)
    → Tracked r'
Tracked-removed r r' p path t held paths now rest = record {
  placed = λ q x h. elim (PluginPath-discrete q path) [
    | yes e ↦
        (let h' = sym (ap (λ k. plugin_at k r'.root) e) ∙ h in absurd (not_both x (sym now ∙ h')))
    | no d ↦ t.placed q x (sym (rest q d) ∙ h)
  ];
  counted = λ m q.
      ap (λ ps. count_path q (get_plugin_paths m ps)) paths
      ∙ counted-removed m q p r.module_paths
      ∙ elim (PluginPath-discrete q path) [
        | yes e ↦
            rw (t.counted m q, hits_same p.path q (e ∙ sym (t.placed path p held)), e, held, now)
              (ground arith)
        | no d ↦
            rw (t.counted m q, hits_other p.path q (λ z. d (z ∙ t.placed path p held)), rest q d)
              (ground arith)
      ];
}
  where
    not_both : (x : Plugin) → none ≢ some x
    not_both x h = cc

-- nothing but the tree's empty nodes changes
pub Tracked-same :
    (r r' : Registry)
    → Tracked r
    → r'.module_paths ≡ r.module_paths
    → ((q : PluginPath) → plugin_at q r'.root ≡ plugin_at q r.root)
    → Tracked r'
Tracked-same r r' t paths same = record {
  placed = λ q x h. t.placed q x (sym (same q) ∙ h);
  counted = λ m q. rw (paths, same q) (t.counted m q);
}

pub add-Tracked : (p : Plugin) (r : Registry) → Tracked r → Tracked (Registry.add p r).0
add-Tracked p r t = elim (Option-cases (plugin_at p.path r.root)) [
  | inl h ↦
      let e = walk_named p.path r.root in
      rw (add_free p r h) (
        Tracked-added r
          (stored_in p.path true (owned r.active p) e
            (update_plugin_association added (owned r.active p) r.module_paths) r.active)
          (owned r.active p) t h refl (plugin_at-write_self p.path true (owned r.active p) e)
          (λ q d.
            plugin_at-write_ne q p.path true (owned r.active p) e d
            ∙ plugin_at-walk_named q p.path r.root))
  | inr (old, h) ↦ rw (add_taken p old r h) (
      Tracked-same r (record r { root = walk_named p.path r.root }) t refl
        (λ q. plugin_at-walk_named q p.path r.root))
]

pub remove-Tracked :
    (path : PluginPath) (r : Registry) → Tracked r → Tracked (Registry.remove path r).0
remove-Tracked path r t = elim (Option-cases (plugin_at path r.root)) [
  | inl h ↦ rw (remove_missing path r h) (
      Tracked-same r (record r { root = walk path r.root }) t refl
        (λ q. plugin_at-walk q path r.root))
  | inr (old, h) ↦ rw (remove_held path old r h) (
      Tracked-removed r
        (stored_in path false null_plugin r.root
          (update_plugin_association removed old r.module_paths) r.active)
        old path t h refl (plugin_at-write_self path false null_plugin r.root)
        (λ q d. plugin_at-write_ne q path false null_plugin r.root d))
]

-- Any call keeps the paths by module those of the plugins in the tree.
pub step-Tracked : (q : Request) (r : Registry) → Tracked r → Tracked (step q r).0
unfolding step Registry.get Registry.empty Registry.exists Registry.list
step-Tracked (add p) r t = add-Tracked p r t
step-Tracked (get path) r t =
    Tracked-same r (Registry.get path r).0 t refl (λ q. plugin_at-walk q path r.root)
step-Tracked (remove path) r t = remove-Tracked path r t
step-Tracked (empty path) r t =
    Tracked-same r (Registry.empty path r).0 t refl (λ q. plugin_at-walk q path r.root)
step-Tracked (exists path) r t =
    Tracked-same r (Registry.exists path r).0 t refl (λ q. plugin_at-walk q path r.root)
step-Tracked (list path) r t = Tracked-same r (Registry.list path r).0 t refl (
    plugin_at-write_same path (list_entry (entry_at path r.root)).0 r.root
      (λ q. list_entry-plugin_at q (entry_at path r.root)))
step-Tracked (load m) r t = Tracked-same r (step (load m) r).0 t refl (λ _. refl)
