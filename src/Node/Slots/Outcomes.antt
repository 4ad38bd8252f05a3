-- ===== src/Node/Slots/Outcomes.antt =====
-- What follows from the outcome of an update, for one map.
use zenoh_plugin_ros2dds.Base.{
  ◌≡◌, sym, subst, ◌⊎◌, inl, inr, Text, true, Option, some, Map, lookup, lookup-insert,
  eq_of_str_eq, arith,
}
use zenoh_plugin_ros2dds.Base.Maps.Entries.{Table, lookup-insert_self, Table-insert}
use zenoh_plugin_ros2dds.Interfaces.{Endpoints, Interface}
use zenoh_plugin_ros2dds.Node.Slots.{is_complete}
use zenoh_plugin_ros2dds.Node.Slots.Laws.{Outcome}
use zenoh_plugin_ros2dds.Node.Spec.{IsNamed}

module _ {E : Type 0} ⦃e : Endpoints E⦄ (name : Text) (m m' : Map (Interface E))
    (result : Option (Interface E)) where
  pub Outcome-IsNamed : Table IsNamed m → Outcome name m (m', result) → Table IsNamed m'
  Outcome-IsNamed named (inl (same, silent)) = subst (Table IsNamed) (sym same) named
  Outcome-IsNamed named (inr (v, written, has_name, told)) =
      subst (Table IsNamed) (sym written) (Table-insert IsNamed name v m has_name named)

  pub Outcome-stored :
      Outcome name m (m', result)
      → (v : Interface E) → result ≡ some v
      → (lookup v.name m' ≡ some v) × (is_complete v ≡ true)
  Outcome-stored (inl (same, silent)) v h = cc
  Outcome-stored (inr (w, written, has_name, inl (silent, why))) v h = cc
  Outcome-stored (inr (w, written, has_name, inr (told, complete))) v h =
      ground (arith, lookup-insert_self name w m)

  pub Outcome-missed :
      Outcome name m (m', result)
      → (k : Text) (v : Interface E) → lookup k m' ≡ some v
      → is_complete v ≡ true
      → (lookup k m ≡ some v) ⊎ (result ≡ some v)
  Outcome-missed (inl (same, silent)) k v h c =
      inl (subst (λ (l : Map (Interface E)). lookup k l ≡ some v) same h)
  Outcome-missed (inr (w, written, has_name, told)) k v h c =
      ground (arith, lookup-insert name k w m, eq_of_str_eq name k)
