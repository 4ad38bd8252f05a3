-- ===== src/RoutesMgr/Pruning.antt =====
-- What `prune_map!` leaves of one map of routes and of the admin space.
use zenoh_plugin_ros2dds.Base.{
  ◌≡◌, refl, sym, ap, ◌∙◌, Text, Bool, true, false, ◌&&◌, Bool-cases, inl, inr, Option, none, some,
  [], ◌∷◌, Map, lookup, remove, lookup-remove, str_eq, str_eq_refl, eq_of_str_eq, if◌then◌else◌,
  arith,
}
use zenoh_plugin_ros2dds.Base.Maps.Entries.{Distinct}
use zenoh_plugin_ros2dds.Externals.{KeyExprs, IsJoin}
use zenoh_plugin_ros2dds.Ros2Utils.KeyExpressions.{Config, Corresponds}
use zenoh_plugin_ros2dds.Routes.{Calls}
use zenoh_plugin_ros2dds.RoutesMgr.{RouteRef, Kind, Stored, admin_key, ops, Outcomes, prune_map}
use zenoh_plugin_ros2dds.RoutesMgr.Kinds.{is_key_expr-admin_key, same_kind, admin_key-eq}
use zenoh_plugin_ros2dds.RoutesMgr.Consistency.{str_eq-Corresponds}

module _ ⦃k : KeyExprs⦄ ⦃j : IsJoin k⦄ ⦃c : Calls⦄ ⦃t : Outcomes⦄ (config : Config) (kind : Kind)
    (prefix : Text) where
  -- Whether a route goes, and what stays of it.
  abbrev pub goes : Stored kind → Bool
  goes r = ((ops kind).prune prefix r).1 && (ops kind).is_unused ((ops kind).prune prefix r).0

  abbrev pub is_gone : Option (Stored kind) → Bool
  is_gone none = false
  is_gone (some r) = goes r

  abbrev pub survivor : Option (Stored kind) → Option (Stored kind)
  survivor none = none
  survivor (some r) = if goes r then none else some ((ops kind).prune prefix r).0

  abbrev pub HasKeys : Map (Stored kind) → Type 0
  HasKeys m =
      (n : Text) (r : Stored kind) → lookup n m ≡ some r → (ke : Text) × Corresponds config n ke

  pub record Pruned (m : Map (Stored kind)) (a : Map RouteRef)
      (r : Map (Stored kind) × Map RouteRef) : Type 0 where
    pub routes : (n : Text) → lookup n r.0 ≡ survivor (lookup n m)
    pub refs :
        (kind' : Kind) (n ke : Text)
        → Corresponds config n ke
        → lookup (admin_key kind' ke) r.1 ≡ (
            if same_kind kind kind' && is_gone (lookup n m)
            then none
            else lookup (admin_key kind' ke) a)
    pub distinct : Distinct r.0

  tail-HasKeys :
      (name : Text) (r : Stored kind) (m : Map (Stored kind))
      → Distinct ((name, r) ∷ m)
      → HasKeys ((name, r) ∷ m)
      → HasKeys m
  unfolding lookup
  tail-HasKeys name r m d h n r' e = elim (Bool-cases (str_eq name n)) [
    | inr other ↦ h n r' (rw other e)
    | inl same ↦
        let there : lookup name m ≡ some r' = rw (eq_of_str_eq name n same) e in
        absurd (cc (there, d.0))
  ]

  kept :
      (name : Text) (r : Stored kind) (m : Map (Stored kind)) (a : Map RouteRef)
      (u : Map (Stored kind) × Map RouteRef)
      → Distinct ((name, r) ∷ m)
      → goes r ≡ false
      → Pruned m a u
      → Pruned ((name, r) ∷ m) a ((name, ((ops kind).prune prefix r).0) ∷ u.0, u.1)
  unfolding lookup
  kept name r m a u d stays h = record {
    routes = λ n. elim (Bool-cases (str_eq name n)) [
      | inl same ↦ rw (same, stays) refl
      | inr other ↦ rw other (h.routes n)
    ];
    refs = λ kind' n ke corresponds. elim (Bool-cases (str_eq name n)) [
      | inl same ↦
          let none_left : lookup n m ≡ none = rw (← eq_of_str_eq name n same) d.0 in
          rw (same, stays) (h.refs kind' n ke corresponds ∙ rw none_left refl)
      | inr other ↦ rw other (h.refs kind' n ke corresponds)
    ];
    distinct = (h.routes name ∙ ap survivor d.0, h.distinct);
  }

  without_key :
      (name key : Text) (a : Map RouteRef) (kind' : Kind) (n ke : Text)
      → Corresponds config name key
      → Corresponds config n ke
      → lookup (admin_key kind' ke) (remove (admin_key kind key) a)
        ≡ (if same_kind kind kind' && str_eq name n then none else lookup (admin_key kind' ke) a)
  without_key name key a kind' n ke known corresponds =
      lookup-remove (admin_key kind key) (admin_key kind' ke) a
      ∙ rw
          (
            admin_key-eq kind kind' key ke,
            str_eq-Corresponds config name key n ke known corresponds,
          )
          refl

  dropped_refs :
      (name key : Text) (r : Stored kind) (m : Map (Stored kind)) (a : Map RouteRef)
      (u : Map (Stored kind) × Map RouteRef) (kind' : Kind) (n ke : Text)
      → Distinct ((name, r) ∷ m)
      → Corresponds config name key
      → goes r ≡ true
      → Pruned m (remove (admin_key kind key) a) u
      → Corresponds config n ke
      → lookup (admin_key kind' ke) u.1 ≡ (
          if same_kind kind kind' && is_gone (lookup n ((name, r) ∷ m))
          then none
          else lookup (admin_key kind' ke) a)
  unfolding lookup
  dropped_refs name key r m a u kind' n ke d known leaves h corresponds =
      let removed = without_key name key a kind' n ke known corresponds in
      let rest = h.refs kind' n ke corresponds in
      let key' = admin_key kind' ke in
      let away : same_kind kind kind' ≡ false
          → lookup key' u.1 ≡ (
              if same_kind kind kind' && is_gone (lookup n ((name, r) ∷ m))
              then none
              else lookup key' a) =
        λ elsewhere.
          let rest' : lookup key' u.1 ≡ lookup key' (remove (admin_key kind key) a) =
            rw elsewhere at rest in
          let removed' : lookup key' (remove (admin_key kind key) a) ≡ lookup key' a =
            rw elsewhere at removed in
          rw elsewhere (rest' ∙ removed') in
      elim (Bool-cases (str_eq name n)) [
        | inl same ↦
            let none_left : lookup n m ≡ none = rw (← eq_of_str_eq name n same) d.0 in
            elim (Bool-cases (same_kind kind kind')) [
              | inl here ↦
                  let rest' : lookup key' u.1 ≡ lookup key' (remove (admin_key kind key) a) =
                    rw (here, none_left) at rest in
                  let removed' : lookup key' (remove (admin_key kind key) a) ≡ none =
                    rw (here, same) at removed in
                  rw (same, leaves, here) (rest' ∙ removed')
              | inr elsewhere ↦ away elsewhere
            ]
        | inr stays ↦ elim (Bool-cases (same_kind kind kind')) [
          | inl here ↦
              let removed' : lookup key' (remove (admin_key kind key) a) ≡ lookup key' a =
                rw (here, stays) at removed in
              rw (stays, here, ← removed') (rw here at rest)
          | inr elsewhere ↦ away elsewhere
        ]
      ]

  dropped :
      (name key : Text) (r : Stored kind) (m : Map (Stored kind)) (a : Map RouteRef)
      (u : Map (Stored kind) × Map RouteRef)
      → Distinct ((name, r) ∷ m)
      → Corresponds config name key
      → goes r ≡ true
      → Pruned m (remove (admin_key kind key) a) u
      → Pruned ((name, r) ∷ m) a u
  unfolding lookup
  dropped name key r m a u d known leaves h = record {
    routes = λ n. elim (Bool-cases (str_eq name n)) [
      | inl same ↦
          rw (same, leaves)
            (ap (λ (x : Text). lookup x u.0) (sym (eq_of_str_eq name n same))
              ∙ h.routes name
              ∙ ap survivor d.0)
      | inr other ↦ rw other (h.routes n)
    ];
    refs = λ kind' n ke corresponds.
        dropped_refs name key r m a u kind' n ke d known leaves h corresponds;
    distinct = h.distinct;
  }

  empty : (a : Map RouteRef) → Pruned [] a ([], a)
  unfolding lookup
  empty a = record {
    routes = λ n. refl;
    refs = λ kind' n ke corresponds. ground arith;
    distinct = tt;
  }

  head_key :
      (name : Text) (r : Stored kind) (m : Map (Stored kind))
      → HasKeys ((name, r) ∷ m)
      → (ke : Text) × Corresponds config name ke
  unfolding lookup
  head_key name r m h = h name r (rw (str_eq_refl name) refl)

  pub prune_map-Pruned :
      (m : Map (Stored kind)) (a : Map RouteRef)
      → Distinct m
      → HasKeys m
      → (u : Map (Stored kind) × Map RouteRef) × (prune_map config kind prefix m a ≡ some u)
        × Pruned m a u
  unfolding prune_map
  prune_map-Pruned [] a d h = (([], a), refl, empty a)
  prune_map-Pruned ((name, r) ∷ m) a d h =
      let tail = tail-HasKeys name r m d h in
      elim (Bool-cases (goes r)) [
        | inr stays ↦
            let (u, e, pruned) = prune_map-Pruned m a d.1 tail in
            (
              ((name, ((ops kind).prune prefix r).0) ∷ u.0, u.1),
              rw (prune_map, stays, e) refl,
              kept name r m a u d stays pruned,
            )
        | inl leaves ↦
            let (key, known) = head_key name r m h in
            let (u, e, pruned) = prune_map-Pruned m (remove (admin_key kind key) a) d.1 tail in
            (
              u,
              rw (prune_map, leaves, known.0, is_key_expr-admin_key kind key known.2, e) refl,
              dropped name key r m a u d known leaves pruned,
            )
      ]
