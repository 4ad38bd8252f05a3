-- ===== src/RoutesMgr/Consistency.antt =====
-- The invariant of the routes manager, and the steps that its handlers share.
use zenoh_plugin_ros2dds.Base.{
  ◌≡◌, refl, sym, ap, ◌∙◌, subst, Text, true, false, Bool-cases, inl, inr, Option, none, some, Map,
  lookup, str_eq, str_eq_refl, eq_of_str_eq, if◌then◌else◌,
}
use zenoh_plugin_ros2dds.Base.Maps.Entries.{Distinct}
use zenoh_plugin_ros2dds.Externals.{KeyExprs, IsJoin}
use zenoh_plugin_ros2dds.Ros2Utils.KeyExpressions.{Config, Corresponds}
use zenoh_plugin_ros2dds.Routes.{Calls, HasTokens}
use zenoh_plugin_ros2dds.Routes.Interface.{
  RouteLaws, NodeLaws, publisher_ops, subscriber_ops, service_srv_ops, service_cli_ops,
}
use zenoh_plugin_ros2dds.Routes.Laws.{
  publisher_nodes, subscriber_nodes, service_srv_nodes, service_cli_nodes, action_nodes,
  publisher_laws, subscriber_laws, service_srv_laws, service_cli_laws, action_laws,
}
use zenoh_plugin_ros2dds.RoutesMgr.{
  RouteRef, RoutesMgr, Kind, publisher, subscriber, service_srv, service_cli, action_srv,
  action_cli, Stored, select, store, ref_of, admin_key, ops, new,
}
use zenoh_plugin_ros2dds.RoutesMgr.Kinds.{
  Comparison, same, other, compare_kinds, select-store_same, select-store_other, admin_space-store,
  admin_key-eq,
}

-- What the admin space holds for a route, if there is one.
abbrev pub reference : (kind : Kind) → Text → Option (Stored kind) → Option RouteRef
reference kind name none = none
reference kind name (some r) = some (ref_of kind name)

module _ ⦃k : KeyExprs⦄ ⦃c : Calls⦄ where
  pub laws : (kind : Kind) → RouteLaws (Stored kind) (ops kind)
  laws publisher = publisher_laws
  laws subscriber = subscriber_laws
  laws service_srv = service_srv_laws
  laws service_cli = service_cli_laws
  laws action_srv = action_laws service_srv_ops publisher_ops service_srv_laws publisher_laws
  laws action_cli = action_laws service_cli_ops subscriber_ops service_cli_laws subscriber_laws

  -- No node is added with a panic.
  pub nodes : HasTokens c → (kind : Kind) → NodeLaws (Stored kind) (ops kind)
  nodes h publisher = publisher_nodes h
  nodes h subscriber = subscriber_nodes h
  nodes h service_srv = service_srv_nodes h
  nodes h service_cli = service_cli_nodes h
  nodes h action_srv =
      action_nodes h service_srv_ops publisher_ops (service_srv_nodes h) (publisher_nodes h)
  nodes h action_cli =
      action_nodes h service_cli_ops subscriber_ops (service_cli_nodes h) (subscriber_nodes h)

  abbrev pub IsUsed : (kind : Kind) → Option (Stored kind) → Type 0
  IsUsed kind none = Unit
  IsUsed kind (some r) = (ops kind).is_unused r ≡ false

  -- The admin space refers to just the routes that there are, each has a key expression, and none of
  -- them is unused.
  pub record IsConsistent (config : Config) (s : RoutesMgr) : Type 0 where
    pub listed :
        (kind : Kind) (name ke : Text)
        → Corresponds config name ke
        → lookup (admin_key kind ke) s.admin_space
          ≡ reference kind name (lookup name (select kind s))
    pub used : (kind : Kind) (name : Text) → IsUsed kind (lookup name (select kind s))
    pub has_key :
        (kind : Kind) (name : Text) (r : Stored kind)
        → lookup name (select kind s) ≡ some r
        → (ke : Text) × Corresponds config name ke
    -- a name has one route of a kind
    pub distinct : (kind : Kind) → Distinct (select kind s)

-- Two names are equal just when their key expressions are.
pub str_eq-Corresponds :
    ⦃k : KeyExprs⦄ (config : Config) (name ke name' ke' : Text)
    → Corresponds config name ke
    → Corresponds config name' ke'
    → str_eq ke ke' ≡ str_eq name name'
str_eq-Corresponds config name ke name' ke' h h' = elim (Bool-cases (str_eq name name')) [
  | inl same_name ↦
      let e : name ≡ name' = eq_of_str_eq name name' same_name in
      let f : ke ≡ ke' = cc (e, h.0, h'.0) in rw (f, str_eq_refl ke') (sym same_name)
  | inr other_name ↦ elim (Bool-cases (str_eq ke ke')) [
    | inr other_key ↦ other_key ∙ sym other_name
    | inl same_key ↦
        let f : ke ≡ ke' = eq_of_str_eq ke ke' same_key in
        let e : name ≡ name' = cc (f, h.1, h'.1) in
        let bad : str_eq name name' ≡ true = rw (e, str_eq_refl name') refl in
        absurd (cc (bad, other_name))
  ]
]

module _ ⦃k : KeyExprs⦄ ⦃j : IsJoin k⦄ ⦃c : Calls⦄ (config : Config) where
  -- What a change of the route of one name, and of its reference, is.
  pub record IsChange (kind : Kind) (name ke : Text) (o : Option (Stored kind))
      (m : Map (Stored kind)) (a : Map RouteRef) (s : RoutesMgr) : Type 0 where
    pub routes : (n : Text) → lookup n m ≡ (if str_eq name n then o else lookup n (select kind s))
    pub refs :
        (x : Text)
        → lookup x a
          ≡ (if str_eq (admin_key kind ke) x then reference kind name o else lookup x s.admin_space)

  listed_after :
      (kind kind' : Kind) (name ke : Text) (o : Option (Stored kind)) (m : Map (Stored kind))
      (a : Map RouteRef) (s : RoutesMgr) (n ke' : Text)
      → Comparison kind kind'
      → IsConsistent config s
      → Corresponds config name ke
      → IsChange kind name ke o m a s
      → Corresponds config n ke'
      → lookup (admin_key kind' ke') a
        ≡ reference kind' n (lookup n (select kind' (store kind m a s)))
  listed_after kind _ name ke o m a s n ke' (same _ e) h corresponds change h' =
      rw
        (
          select-store_same kind m a s,
          change.refs (admin_key kind ke'),
          change.routes n,
          admin_key-eq kind kind ke ke',
          e,
          str_eq-Corresponds config name ke n ke' corresponds h',
        )
        (elim (Bool-cases (str_eq name n)) [
          | inl same_name ↦
              rw same_name (ap (λ (x : Text). reference kind x o) (eq_of_str_eq name n same_name))
          | inr other_name ↦ rw other_name (h.listed kind n ke' h')
        ])
  listed_after kind kind' name ke o m a s n ke' (other _ _ e) h corresponds change h' =
      rw
        (
          select-store_other kind kind' m a s e,
          change.refs (admin_key kind' ke'),
          admin_key-eq kind kind' ke ke',
          e,
        )
        (h.listed kind' n ke' h')

  store-IsUsed :
      (kind kind' : Kind) (name ke : Text) (o : Option (Stored kind)) (m : Map (Stored kind))
      (a : Map RouteRef) (s : RoutesMgr) (n : Text)
      → Comparison kind kind'
      → IsConsistent config s
      → IsChange kind name ke o m a s
      → IsUsed kind o
      → IsUsed kind' (lookup n (select kind' (store kind m a s)))
  store-IsUsed kind _ name ke o m a s n (same _ e) h change used =
      rw (select-store_same kind m a s, change.routes n)
        (elim (Bool-cases (str_eq name n)) [
          | inl same_name ↦ rw same_name used
          | inr other_name ↦ rw other_name (h.used kind n)
        ])
  store-IsUsed kind kind' name ke o m a s n (other _ _ e) h change used =
      rw (select-store_other kind kind' m a s e) (h.used kind' n)

  has_key_after :
      (kind kind' : Kind) (name ke : Text) (o : Option (Stored kind)) (m : Map (Stored kind))
      (a : Map RouteRef) (s : RoutesMgr) (n : Text) (r : Stored kind')
      → Comparison kind kind'
      → IsConsistent config s
      → Corresponds config name ke
      → IsChange kind name ke o m a s
      → lookup n (select kind' (store kind m a s)) ≡ some r
      → (x : Text) × Corresponds config n x
  has_key_after kind _ name ke o m a s n r (same _ e) h corresponds change found =
      elim (Bool-cases (str_eq name n)) [
        | inl same_name ↦
            subst (λ (i : Text). (x : Text) × Corresponds config i x)
              (eq_of_str_eq name n same_name) (ke, corresponds)
        | inr other_name ↦
            let there : lookup n (select kind s) ≡ some r =
              (rw (select-store_same kind m a s, change.routes n, other_name) at found) in
            h.has_key kind n r there
      ]
  has_key_after kind kind' name ke o m a s n r (other _ _ e) h corresponds change found =
      h.has_key kind' n r (rw (select-store_other kind kind' m a s e) at found)

  pub store-Distinct :
      (kind kind' : Kind) (m : Map (Stored kind)) (a : Map RouteRef) (s : RoutesMgr)
      → Comparison kind kind'
      → IsConsistent config s
      → Distinct m
      → Distinct (select kind' (store kind m a s))
  store-Distinct kind _ m a s (same _ e) h d = rw (select-store_same kind m a s) d
  store-Distinct kind kind' m a s (other _ _ e) h d =
      rw (select-store_other kind kind' m a s e) (h.distinct kind')

  -- The route of one name is put or taken away, and its reference with it.
  pub store-IsConsistent :
      (kind : Kind) (name ke : Text) (o : Option (Stored kind)) (m : Map (Stored kind))
      (a : Map RouteRef) (s : RoutesMgr)
      → IsConsistent config s
      → Corresponds config name ke
      → IsChange kind name ke o m a s
      → IsUsed kind o
      → Distinct m
      → IsConsistent config (store kind m a s)
  store-IsConsistent kind name ke o m a s h corresponds change used d = record {
    listed = λ kind' n ke' h'.
        ap (lookup (admin_key kind' ke')) (admin_space-store kind m a s)
        ∙ listed_after kind kind' name ke o m a s n ke' (compare_kinds kind kind') h corresponds
            change h';
    used = λ kind' n.
        store-IsUsed kind kind' name ke o m a s n (compare_kinds kind kind') h change used;
    has_key = λ kind' n r e.
        has_key_after kind kind' name ke o m a s n r (compare_kinds kind kind') h corresponds change
          e;
    distinct = λ kind'. store-Distinct kind kind' m a s (compare_kinds kind kind') h d;
  }

no_route : (kind : Kind) (name : Text) → lookup name (select kind new) ≡ none
unfolding lookup
no_route publisher name = refl
no_route subscriber name = refl
no_route service_srv name = refl
no_route service_cli name = refl
no_route action_srv name = refl
no_route action_cli name = refl

no_duplicates : (kind : Kind) → Distinct (select kind new)
no_duplicates publisher = tt
no_duplicates subscriber = tt
no_duplicates service_srv = tt
no_duplicates service_cli = tt
no_duplicates action_srv = tt
no_duplicates action_cli = tt

-- A new manager has neither routes nor references.
pub new-IsConsistent : ⦃k : KeyExprs⦄ ⦃c : Calls⦄ (config : Config) → IsConsistent config new
unfolding lookup
new-IsConsistent config = record {
  listed = λ kind name ke h. rw (no_route kind name) refl;
  used = λ kind name. rw (no_route kind name) tt;
  has_key = λ kind name r e. absurd (cc (e, no_route kind name));
  distinct = no_duplicates;
}
