-- ===== src/Registry/Keeps.antt =====
-- The writes keep the shape of the tree, and its counts say where plugins are.
use pothos_core.Base.{
  List, [], ◌∷◌, ◌++◌, true, false, ◌≡◌, refl, sym, ap, ◌∙◌, ◌≢◌, arith, ◌≤◌, if◌then◌else◌, ◌⊎◌,
  inl, inr, Bool-cases, subst,
}
use mathlib.Core.Logic.{ite}
use pothos_core.Registry.{
  Name, Name-discrete, PluginPath, RegistryEntry, entry, Nodes, child, put, find_name, entry_at,
  write_at, walk_named, push_name, get_num_plugins,
}
use pothos_core.Registry.Lookup.{child-put_self, child-put_ne}
use pothos_core.Registry.Valid.{
  Distinct, Named, Valid, child-Valid, put-Valid, put-count, write_at-count,
}

pub find_name-append :
    (m n : Name) (names : List Name)
    → find_name m (names ++ n ∷ []) ≡ ite (Name-discrete n m) true (find_name m names)
unfolding find_name
find_name-append m n [] = ground arith
find_name-append m n (k ∷ names) = ground (arith, find_name-append m n names)

Distinct-append :
    (n : Name) (names : List Name)
    → Distinct names
    → find_name n names ≡ false
    → Distinct (names ++ n ∷ [])
unfolding Distinct find_name
Distinct-append n [] d h = (refl, tt)
Distinct-append n (k ∷ names) (fresh, d) h =
    (ground (arith, find_name-append k n names), Distinct-append n names d (ground arith))

pub Distinct-push_name :
    (n : Name) (names : List Name) → Distinct names → Distinct (push_name n names)
Distinct-push_name n names d = elim (Bool-cases (find_name n names)) [
  | inl h ↦ subst Distinct (sym (ap (λ b. if b then names else names ++ n ∷ []) h)) d
  | inr h ↦
      subst Distinct (sym (ap (λ b. if b then names else names ++ n ∷ []) h))
        (Distinct-append n names d h)
]

pub find_name-push_name :
    (m n : Name) (names : List Name)
    → find_name m (push_name n names) ≡ ite (Name-discrete n m) true (find_name m names)
find_name-push_name m n names =
    grind (arith, find_name-append m n names, Bool-cases (find_name n names))

pub find_name-push_self : (n : Name) (names : List Name) → find_name n (push_name n names) ≡ true
find_name-push_self n names = ground (arith, find_name-push_name n n names)

pub find_name-push_keeps :
    (m n : Name) (names : List Name)
    → find_name m names ≡ true
    → find_name m (push_name n names) ≡ true
find_name-push_keeps m n names h = ground (arith, find_name-push_name m n names)

-- every node along the path is named
unfoldable pub NamedAlong : PluginPath → RegistryEntry → Type 0
NamedAlong [] e = Unit
NamedAlong (n ∷ path) (entry has p names kids) =
    (find_name n names ≡ true) × NamedAlong path (child n kids)

pub Named-put :
    (n : Name) (x : RegistryEntry) (names : List Name) (kids : Nodes)
    → Named names kids
    → (get_num_plugins x ≢ 0 → find_name n names ≡ true)
    → Named names (put n x kids)
Named-put n x names kids named h m c = elim (Name-discrete m n) [
  | yes e ↦
      ap (λ k. find_name k names) e
      ∙ h (λ z. c (
          ap (λ k. get_num_plugins (child k (put n x kids))) e
          ∙ ap get_num_plugins (child-put_self n x kids)
          ∙ z))
  | no d ↦ named m (λ z. c (ap get_num_plugins (child-put_ne m n x kids d) ∙ z))
]

pub write_at-Valid :
    (path : PluginPath) (x e : RegistryEntry)
    → Valid e
    → Valid x
    → NamedAlong path e ⊎ (get_num_plugins x ≤ get_num_plugins (entry_at path e))
    → Valid (write_at path x e)
unfolding write_at entry_at Valid NamedAlong
write_at-Valid [] x e v vx h = vx
write_at-Valid (n ∷ path) x (entry has p names kids) (distinct, named, vk) vx (inl (found, along)) =
    (
      distinct,
      Named-put n (write_at path x (child n kids)) names kids named (λ _. found),
      put-Valid n (write_at path x (child n kids)) kids
          (write_at-Valid path x (child n kids) (child-Valid n kids vk) vx (inl along)) vk,
    )
write_at-Valid (n ∷ path) x (entry has p names kids) (distinct, named, vk) vx (inr le) = (
  distinct,
  Named-put n (write_at path x (child n kids)) names kids named
      (λ c. named n (λ z. c (omega (arith, write_at-count path x (child n kids))))),
  put-Valid n (write_at path x (child n kids)) kids
      (write_at-Valid path x (child n kids) (child-Valid n kids vk) vx (inr le)) vk,
)

pub walk_named-Valid : (path : PluginPath) (e : RegistryEntry) → Valid e → Valid (walk_named path e)
unfolding walk_named Valid
walk_named-Valid [] e v = v
walk_named-Valid (n ∷ path) (entry has p names kids) (distinct, named, vk) = (
  Distinct-push_name n names distinct,
  Named-put n (walk_named path (child n kids)) (push_name n names) kids
      (λ m c. find_name-push_keeps m n names (named m c)) (λ _. find_name-push_self n names),
  put-Valid n (walk_named path (child n kids)) kids
      (walk_named-Valid path (child n kids) (child-Valid n kids vk)) vk,
)

pub walk_named-NamedAlong :
    (path : PluginPath) (e : RegistryEntry) → NamedAlong path (walk_named path e)
unfolding walk_named NamedAlong
walk_named-NamedAlong [] e = tt
walk_named-NamedAlong (n ∷ path) (entry has p names kids) = (
  find_name-push_self n names,
  subst (NamedAlong path) (sym (child-put_self n (walk_named path (child n kids)) kids))
      (walk_named-NamedAlong path (child n kids)),
)

pub walk_named-count :
    (path : PluginPath) (e : RegistryEntry)
    → get_num_plugins (walk_named path e) ≡ get_num_plugins e
unfolding walk_named get_num_plugins
walk_named-count [] e = refl
walk_named-count (n ∷ path) (entry has p names kids) =
    omega (
      arith,
      walk_named-count path (child n kids),
      put-count n (walk_named path (child n kids)) kids,
    )

pub entry_at-Valid : (path : PluginPath) (e : RegistryEntry) → Valid e → Valid (entry_at path e)
unfolding entry_at Valid
entry_at-Valid [] e v = v
entry_at-Valid (n ∷ path) (entry has p names kids) (_, _, vk) =
    entry_at-Valid path (child n kids) (child-Valid n kids vk)
