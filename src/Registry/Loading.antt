-- ===== src/Registry/Loading.antt =====
-- lib/Plugin/Module.cpp and lib/Plugin/Static.cpp: a module is loaded and unloaded. What the
-- system's loader runs is the list of the library's static blocks, each the plugins it adds.
use pothos_core.Base.{
  List, [], ◌∷◌, true, Option, none, some, ◌≡◌, refl, sym, ap, ◌∙◌, subst, ℕ, ◌⊎◌, inl, inr,
  Option-cases,
}
use pothos_core.Registry
use pothos_core.Registry.{
  PluginPath, PluginPath-discrete, Plugin, null_plugin, Registry, RegistryEntry, get_plugin_paths,
  set_active_module_loading, walk, walk_named,
}
use pothos_core.Registry.Lookup.{
  plugin_at, plugin_at-write_self, plugin_at-write_ne, plugin_at-walk_named,
}
use pothos_core.Registry.Calls.{add_taken, add_free, owned, stored_in}
use pothos_core.Registry.Tracks.{Tracked, add-Tracked}

-- The additions of a static block, up to the first that throws; `safeInit` then logs the exception.
unfoldable pub safe_init : List Plugin → Registry → Registry
safe_init [] r = r
safe_init (p ∷ ps) r =
    let (r', o) = Registry.add p r in
    let rest = safe_init ps r' in elim o [ none ↦ r' | some _ ↦ rest ]

unfoldable pub run_blocks : List (List Plugin) → Registry → Registry
run_blocks [] r = r
run_blocks (b ∷ blocks) r = run_blocks blocks (safe_init b r)

-- `none` for the blocks is a library that the system's loader refuses: the exception leaves before
-- the active module is cleared. The other result is the paths that the module keeps.
unfoldable pub load_module :
    ℕ → Option (List (List Plugin)) → Registry → Registry × Option (List PluginPath)
load_module m none r = (set_active_module_loading m r, none)
load_module m (some blocks) r =
    let r' = run_blocks blocks (set_active_module_loading m r) in
    let r'' = set_active_module_loading 0 r' in (r'', some (get_plugin_paths m r''.module_paths))

-- The destructor of the last copy: an exception out of `remove` ends the program, `none`.
unfoldable pub unload_module : List PluginPath → Registry → Option Registry
unload_module [] r = some r
unload_module (path ∷ paths) r =
    let (r', o) = Registry.remove path r in
    let rest = unload_module paths r' in elim o [ none ↦ none | some _ ↦ rest ]

-- what the additions for a module may do to the plugin at a path
abbrev pub Grown : ℕ → Option Plugin → Option Plugin → Type 0
Grown m before after =
    (after ≡ before) ⊎ ((before ≡ none) × ((p : Plugin) × (after ≡ some p) × (p.from_module ≡ m)))

Grown-add :
    (p : Plugin) (r : Registry) (q : PluginPath)
    → Grown r.active (plugin_at q r.root) (plugin_at q (Registry.add p r).0.root)
      × ((Registry.add p r).0.active ≡ r.active)
Grown-add p r q = elim (Option-cases (plugin_at p.path r.root)) [
  | inl h ↦
      let e = walk_named p.path r.root in
      rw (add_free p r h) (
        elim (PluginPath-discrete q p.path) [
          | yes same ↦ inr (
            ap (λ k. plugin_at k r.root) same ∙ h,
            (
              owned r.active p,
              ap (λ k. plugin_at k (stored_in p.path true (owned r.active p) e [] r.active).root)
                    same
                  ∙ plugin_at-write_self p.path true (owned r.active p) e,
              refl,
            ),
          )
          | no d ↦ inl (
              plugin_at-write_ne q p.path true (owned r.active p) e d
              ∙ plugin_at-walk_named q p.path r.root)
        ],
        refl,
      )
  | inr (old, h) ↦ rw (add_taken p old r h) (inl (plugin_at-walk_named q p.path r.root), refl)
]

Grown-trans : (m : ℕ) (a b c : Option Plugin) → Grown m a b → Grown m b c → Grown m a c
Grown-trans m a b c (inl e) (inl f) = inl (f ∙ e)
Grown-trans m a b c (inl e) (inr (f, s)) = inr (sym e ∙ f, s)
Grown-trans m a b c (inr (e, s)) (inl f) = inr (e, (s.0, f ∙ s.1, s.2))
Grown-trans m a b c (inr (e, s)) (inr (f, t)) = inr (e, t)

-- what a static block does, and what all do
abbrev pub Additions : ℕ → Registry → Registry → Type 0
Additions m r r' =
    Tracked r'
    × (r'.active ≡ m)
    × ((q : PluginPath) → Grown m (plugin_at q r.root) (plugin_at q r'.root))

safe_init-refused :
    (p : Plugin) (ps : List Plugin) (r : Registry)
    → (Registry.add p r).1 ≡ none
    → safe_init (p ∷ ps) r ≡ (Registry.add p r).0
unfolding safe_init
safe_init-refused p ps r h =
    ap (λ o. elim o [ none ↦ (Registry.add p r).0 | some _ ↦ safe_init ps (Registry.add p r).0 ]) h

safe_init-added :
    (p x : Plugin) (ps : List Plugin) (r : Registry)
    → (Registry.add p r).1 ≡ some x
    → safe_init (p ∷ ps) r ≡ safe_init ps (Registry.add p r).0
unfolding safe_init
safe_init-added p x ps r h =
    ap (λ o. elim o [ none ↦ (Registry.add p r).0 | some _ ↦ safe_init ps (Registry.add p r).0 ]) h

safe_init_lem :
    (m : ℕ) (ps : List Plugin) (r : Registry)
    → Tracked r
    → r.active ≡ m
    → Additions m r (safe_init ps r)
unfolding safe_init
safe_init_lem m [] r t a = (t, a, λ q. inl refl)
safe_init_lem m (p ∷ ps) r t a =
    let r' = (Registry.add p r).0 in
    let one : (q : PluginPath) → Grown m (plugin_at q r.root) (plugin_at q r'.root) =
      λ q. subst (λ k. Grown k (plugin_at q r.root) (plugin_at q r'.root)) a (Grown-add p r q).0 in
    let a' = (Grown-add p r []).1 ∙ a in
    elim (Option-cases (Registry.add p r).1) [
      | inl h ↦ rw (safe_init-refused p ps r h) (add-Tracked p r t, a', one)
      | inr (x, h) ↦
          let (t', a'', more) = safe_init_lem m ps r' (add-Tracked p r t) a' in
          rw (safe_init-added p x ps r h) (
            t',
            a'',
            λ q.
                Grown-trans m (plugin_at q r.root) (plugin_at q r'.root)
                  (plugin_at q (safe_init ps r').root) (one q) (more q),
          )
    ]

pub run_blocks_lem :
    (m : ℕ) (blocks : List (List Plugin)) (r : Registry)
    → Tracked r
    → r.active ≡ m
    → Additions m r (run_blocks blocks r)
unfolding run_blocks
run_blocks_lem m [] r t a = (t, a, λ q. inl refl)
run_blocks_lem m (b ∷ blocks) r t a =
    let r' = safe_init b r in
    let (t', a', one) = safe_init_lem m b r t a in
    let (t'', a'', more) = run_blocks_lem m blocks r' t' a' in
    (
      t'',
      a'',
      λ q.
          Grown-trans m (plugin_at q r.root) (plugin_at q r'.root)
            (plugin_at q (run_blocks blocks r').root) (one q) (more q),
    )
