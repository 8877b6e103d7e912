-- ===== src/Registry/Unloading.antt =====
-- A module that is loaded and then unloaded, in lib/Plugin/Module.cpp.
use pothos_core.Base.{
  List, [], ◌∷◌, false, Option, none, some, ◌≡◌, refl, sym, ap, ◌∙◌, subst, ℕ, ◌+◌, arith, ◌≢◌, ◌⊎◌,
  inl, inr, Bool-cases, ◌==◌,
}
use pothos_core.Registry
use pothos_core.Registry.{
  PluginPath, PluginPath-discrete, Plugin, null_plugin, Registry, RegistryEntry, get_plugin_paths,
  set_active_module_loading, walk, walk_named,
}
use pothos_core.Registry.Lookup.{plugin_at, plugin_at-write_self, plugin_at-write_ne}
use pothos_core.Registry.Calls.{remove_held}
use pothos_core.Registry.Tracks.{
  Tracked, Tracked-same, hits, count_path, owned_by, hits_same, hits_other, remove-Tracked,
}
use pothos_core.Registry.Loading.{run_blocks, load_module, unload_module, run_blocks_lem}

-- what the removal of a module's plugins may do to the plugin at a path
abbrev pub Gone : ℕ → Option Plugin → Option Plugin → Type 0
Gone m before after =
    (owned_by m before ≡ 1 → after ≡ none) × (owned_by m before ≡ 0 → after ≡ before)

owned-cases :
    (m : ℕ) (o : Option Plugin)
    → (owned_by m o ≡ 0) ⊎ ((owned_by m o ≡ 1) × ((p : Plugin) × (o ≡ some p)))
owned-cases m none = inl refl
owned-cases m (some p) = elim (Bool-cases (m == p.from_module)) [
  | inl h ↦ inr (ground arith, (p, refl))
  | inr h ↦ inl (ground arith)
]

first_held :
    (m : ℕ) (p : PluginPath) (ps : List PluginPath) (r : Registry)
    → ((q : PluginPath) → count_path q (p ∷ ps) ≡ owned_by m (plugin_at q r.root))
    → (owned_by m (plugin_at p r.root) ≡ 1)
      × (count_path p ps ≡ 0)
      × ((x : Plugin) × (plugin_at p r.root ≡ some x))
unfolding count_path
first_held m p ps r h = elim (owned-cases m (plugin_at p r.root)) [
  | inl z ↦ (let g = h p in let k = hits_same p p refl in absurd (grind arith))
  | inr (one, (x, held)) ↦
      (one, (let g = h p in let k = hits_same p p refl in grind arith), (x, held))
]

removed_self :
    (p : PluginPath) (x : Plugin) (r : Registry)
    → plugin_at p r.root ≡ some x
    → plugin_at p (Registry.remove p r).0.root ≡ none
removed_self p x r h = rw (remove_held p x r h) (plugin_at-write_self p false null_plugin r.root)

removed_other :
    (p q : PluginPath) (x : Plugin) (r : Registry)
    → plugin_at p r.root ≡ some x
    → q ≢ p
    → plugin_at q (Registry.remove p r).0.root ≡ plugin_at q r.root
removed_other p q x r h d =
    rw (remove_held p x r h) (plugin_at-write_ne q p false null_plugin r.root d)

rest_held :
    (m : ℕ) (p : PluginPath) (ps : List PluginPath) (r : Registry) (x : Plugin)
    → plugin_at p r.root ≡ some x
    → count_path p ps ≡ 0
    → ((q : PluginPath) → count_path q (p ∷ ps) ≡ owned_by m (plugin_at q r.root))
    → (q : PluginPath) → count_path q ps ≡ owned_by m (plugin_at q (Registry.remove p r).0.root)
unfolding count_path
rest_held m p ps r x held none_left h q = elim (PluginPath-discrete q p) [
  | yes e ↦
      ap (λ k. count_path k ps) e
      ∙ none_left
      ∙ sym (
          ap (owned_by m)
            (ap (λ k. plugin_at k (Registry.remove p r).0.root) e ∙ removed_self p x r held))
  | no d ↦
      (let other = hits_other p q d in
        let g = h q in let c : count_path q ps ≡ hits p q + count_path q ps = omega arith in c ∙ g)
      ∙ sym (ap (owned_by m) (removed_other p q x r held d))
]

unload_module_lem :
    (m : ℕ) (ps : List PluginPath) (r : Registry)
    → Tracked r
    → ((q : PluginPath) → count_path q ps ≡ owned_by m (plugin_at q r.root))
    → (r' : Registry) × (unload_module ps r ≡ some r')
      × Tracked r'
      × ((q : PluginPath) → Gone m (plugin_at q r.root) (plugin_at q r'.root))
unfolding unload_module count_path
unload_module_lem m [] r t h =
    (r, refl, t, λ q. ((λ o. (let g = h q in absurd (omega arith))), λ _. refl))
unload_module_lem m (p ∷ ps) r t h =
    let (one, none_left, (x, held)) = first_held m p ps r h in
    let r' = (Registry.remove p r).0 in
    let (r'', ran, t', gone) =
      unload_module_lem m ps r' (remove-Tracked p r t) (rest_held m p ps r x held none_left h) in
    (
      r'',
      ap (λ o. elim o [ none ↦ none | some _ ↦ unload_module ps r' ])
            (ap (λ k. k.1) (remove_held p x r held))
          ∙ ran,
      t',
      λ q. elim (PluginPath-discrete q p) [
        | yes e ↦
            (let now = ap (λ k. plugin_at k r'.root) e ∙ removed_self p x r held in
              let left = (gone q).1 (ap (owned_by m) now) ∙ now in
              (
                (λ _. left),
                λ z.
                    (let z' = ap (λ k. owned_by m (plugin_at k r.root)) (sym e) ∙ z in
                      absurd (omega arith)),
              ))
        | no d ↦
            subst (λ o. Gone m o (plugin_at q r''.root)) (removed_other p q x r held d) (gone q)
      ],
    )

-- When a module that had no plugin is loaded and then unloaded, the unloading succeeds and each path
-- holds the plugin it held before, whatever the module's static blocks added and were refused.
pub unload-load :
    (m : ℕ) (blocks : List (List Plugin)) (r : Registry)
    → Tracked r
    → get_plugin_paths m r.module_paths ≡ []
    → (paths : List PluginPath) × (r' : Registry) × ((load_module m (some blocks) r).1 ≡ some paths)
      × (unload_module paths (load_module m (some blocks) r).0 ≡ some r')
      × Tracked r'
      × ((q : PluginPath) → plugin_at q r'.root ≡ plugin_at q r.root)
unfolding load_module count_path
unload-load m blocks r t unused =
    let start = set_active_module_loading m r in
    let ts = Tracked-same r start t refl (λ _. refl) in
    let (t1, _, grown) = run_blocks_lem m blocks start ts refl in
    let loaded = (load_module m (some blocks) r).0 in
    let tl = Tracked-same (run_blocks blocks start) loaded t1 refl (λ _. refl) in
    let (r', ran, t', gone) =
      unload_module_lem m (get_plugin_paths m loaded.module_paths) loaded tl (tl.counted m) in
    (
      get_plugin_paths m loaded.module_paths,
      r',
      refl,
      ran,
      t',
      λ q. elim (grown q) [
        | inl same ↦
            (gone q).1 (ap (owned_by m) same ∙ sym (t.counted m q) ∙ ap (count_path q) unused)
            ∙ same
        | inr (free, (p, now, mine)) ↦ (gone q).0 (rw (now) (ground arith)) ∙ sym free
      ],
    )
