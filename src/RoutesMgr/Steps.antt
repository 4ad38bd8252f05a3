-- ===== src/RoutesMgr/Steps.antt =====
-- The steps that the handlers share keep the routes and the admin space consistent.
use zenoh_plugin_ros2dds.Base.{
  ◌≡◌, refl, sym, ap, ◌∙◌, Text, Bool, true, false, Bool-cases, inl, inr, Option, none, some,
  lookup, insert, remove, lookup-insert, lookup-remove, str_eq, eq_of_str_eq,
}
use zenoh_plugin_ros2dds.Base.Maps.Entries.{insert-Distinct, remove-Distinct}
use zenoh_plugin_ros2dds.Externals.{KeyExprs, IsJoin}
use zenoh_plugin_ros2dds.Ros2Utils.KeyExpressions.{Config, Corresponds}
use zenoh_plugin_ros2dds.Routes.{Calls}
use zenoh_plugin_ros2dds.RoutesMgr.{
  RoutesMgr, Kind, Stored, select, store, ref_of, admin_key, ops, Outcomes, with_route, release,
}
use zenoh_plugin_ros2dds.Routes.Interface.{fills}
use zenoh_plugin_ros2dds.Routes.Laws.{filled}
use zenoh_plugin_ros2dds.RoutesMgr.Kinds.{is_key_expr-admin_key}
use zenoh_plugin_ros2dds.RoutesMgr.Consistency.{
  reference, IsConsistent, IsChange, store-IsConsistent,
}

module _ ⦃k : KeyExprs⦄ ⦃j : IsJoin k⦄ ⦃c : Calls⦄ ⦃t : Outcomes⦄ (config : Config) where
  -- A handler does not panic, and leaves a consistent state.
  abbrev pub Keeps : Option (RoutesMgr × Bool) → Type 0
  Keeps o = (r : RoutesMgr × Bool) × (o ≡ some r) × IsConsistent config r.0

  insert-IsChange :
      (kind : Kind) (name ke : Text) (r r' : Stored kind) (s : RoutesMgr)
      → IsConsistent config s
      → Corresponds config name ke
      → lookup name (select kind s) ≡ some r
      → IsChange config kind name ke (some r') (insert name r' (select kind s)) s.admin_space s
  insert-IsChange kind name ke r r' s h corresponds found = record {
    routes = λ n. lookup-insert name n r' (select kind s);
    refs = λ x. elim (Bool-cases (str_eq (admin_key kind ke) x)) [
      | inr other ↦ rw other refl
      | inl same ↦ rw same (
          ap (λ (y : Text). lookup y s.admin_space) (sym (eq_of_str_eq (admin_key kind ke) x same))
          ∙ h.listed kind name ke corresponds
          ∙ ap (reference kind name) found)
    ];
  }

  added-IsChange :
      (kind : Kind) (name ke : Text) (r : Stored kind) (s : RoutesMgr)
      → IsChange config kind name ke
          (some r)
          (insert name r (select kind s))
          (insert (admin_key kind ke) (ref_of kind name) s.admin_space)
          s
  added-IsChange kind name ke r s = record {
    routes = λ n. lookup-insert name n r (select kind s);
    refs = λ x. lookup-insert (admin_key kind ke) x (ref_of kind name) s.admin_space;
  }

  remove-IsChange :
      (kind : Kind) (name ke : Text) (s : RoutesMgr)
      → IsChange config kind name ke none
          (remove name (select kind s))
          (remove (admin_key kind ke) s.admin_space)
          s
  remove-IsChange kind name ke s = record {
    routes = λ n. lookup-remove name n (select kind s);
    refs = λ x. lookup-remove (admin_key kind ke) x s.admin_space;
  }

  pub with_route-Keeps :
      (kind : Kind) (name ke : Text) (f : Stored kind → Option (Stored kind)) (s : RoutesMgr)
      → ((r : Stored kind) → fills (ops kind) (f r) ≡ true)
      → IsConsistent config s
      → Corresponds config name ke
      → Keeps (with_route config kind name f s)
  unfolding with_route
  with_route-Keeps kind name ke f s fills_it h corresponds =
      of_lookup (lookup name (select kind s)) refl
    where
      of_lookup :
          (o : Option (Stored kind))
          → lookup name (select kind s) ≡ o
          → Keeps (with_route config kind name f s)
      of_lookup (some r) e =
          let (r', made, used) = filled (ops kind) (f r) (fills_it r) in
          (
            (store kind (insert name r' (select kind s)) s.admin_space s, true),
            rw (with_route, e, made) refl,
            store-IsConsistent config kind name ke (some r') (insert name r' (select kind s))
                s.admin_space s h corresponds (insert-IsChange kind name ke r r' s h corresponds e)
                used (insert-Distinct name r' (select kind s) (h.distinct kind)),
          )
      of_lookup none e =
          let (new, made, used) =
            filled (ops kind) (f ((ops kind).create name)) (fills_it ((ops kind).create name)) in
          let added = insert (admin_key kind ke) (ref_of kind name) s.admin_space in
          let accepted = is_key_expr-admin_key kind ke corresponds.2 in
          elim (Bool-cases (t.creates name)) [
            | inr fails ↦ ((s, false), rw (with_route, e, corresponds.0, fails) refl, h)
            | inl works ↦ (
              (store kind (insert name new (select kind s)) added s, true),
              rw (with_route, e, corresponds.0, works, accepted, made) refl,
              store-IsConsistent config kind name ke (some new) (insert name new (select kind s))
                  added s h corresponds (added-IsChange kind name ke new s) used
                  (insert-Distinct name new (select kind s) (h.distinct kind)),
            )
          ]

  pub release-Keeps :
      (kind : Kind) (name ke : Text) (key : Option Text) (f : Stored kind → Stored kind)
      (adapted : Bool) (s : RoutesMgr)
      → key ≡ some ke
      → IsConsistent config s
      → Corresponds config name ke
      → Keeps (release config kind name key f adapted s)
  unfolding release
  release-Keeps kind name ke key f adapted s known h corresponds =
      of_lookup (lookup name (select kind s)) refl
    where
      of_lookup :
          (o : Option (Stored kind))
          → lookup name (select kind s) ≡ o
          → Keeps (release config kind name key f adapted s)
      of_lookup none e = ((s, true), rw (release, e) refl, h)
      of_lookup (some r) e = elim (Bool-cases ((ops kind).is_unused (f r))) [
        | inr stays ↦ (
          (store kind (insert name (f r) (select kind s)) s.admin_space s, adapted),
          rw (release, e, stays) refl,
          store-IsConsistent config kind name ke (some (f r)) (insert name (f r) (select kind s))
              s.admin_space s h corresponds (insert-IsChange kind name ke r (f r) s h corresponds e)
              stays (insert-Distinct name (f r) (select kind s) (h.distinct kind)),
        )
        | inl goes ↦ (
          (
            store kind (remove name (select kind s)) (remove (admin_key kind ke) s.admin_space) s,
            true,
          ),
          rw (release, e, goes, known, is_key_expr-admin_key kind ke corresponds.2) refl,
          store-IsConsistent config kind name ke none (remove name (select kind s))
              (remove (admin_key kind ke) s.admin_space) s h corresponds
              (remove-IsChange kind name ke s) tt
              (remove-Distinct name (select kind s) (h.distinct kind)),
        )
      ]
