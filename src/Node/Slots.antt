-- ===== src/Node/Slots.antt =====
-- One endpoint of a service or action, and the update that the `update_service_*` and
-- `update_action_*` methods of `NodeInfo` make to their map, which they repeat word for word.
pub mod Laws
pub mod Outcomes
use zenoh_plugin_ros2dds.Base.{
  Text, Bool, Option, none, some, Map, lookup, insert, [], str_eq, if◌then◌else◌,
}
use zenoh_plugin_ros2dds.Externals.{Externals}
use zenoh_plugin_ros2dds.Gid.{Gid}
use zenoh_plugin_ros2dds.Interfaces.{Endpoints, Interface, create}

-- The field of the entities that a method reads and assigns.
pub record Slot (E : Type 0) : Type 0 where
  pub read : E → Gid
  pub write : Gid → E → E

module _ {E : Type 0} ⦃e : Endpoints E⦄ where
  abbrev pub is_complete : Interface E → Bool
  is_complete v = e.is_complete v.entities

  -- `if v.typ != typ { v.typ = typ; if v.is_complete() { result = ... } }`
  unfoldable pub retype : Text → Interface E → Interface E × Option (Interface E)
  retype typ v =
      let v' = record v { typ = typ } in
      if str_eq v.typ typ then (v, none) else (v', if is_complete v' then some v' else none)

  -- `if v.entities.<slot> != gid { v.entities.<slot> = gid; if v.is_complete() { result = ... } }`
  unfoldable pub reassign :
      Slot E → Gid → Interface E → Option (Interface E) → Interface E × Option (Interface E)
  reassign slot gid v result =
      let v' = record v { entities = slot.write gid v.entities } in
      if str_eq (slot.read v.entities) gid
      then (v, result)
      else (v', if is_complete v' then some v' else result)

  unfoldable pub update_found :
      Slot E → Text → Gid → Interface E → Interface E × Option (Interface E)
  unfolding retype reassign
  update_found slot typ gid v = let (v', result) = retype typ v in reassign slot gid v' result

module _ ⦃x : Externals⦄ {E : Type 0} ⦃e : Endpoints E⦄ where
  -- The branch `Entry::Vacant`.
  unfoldable pub declare :
      Slot E → Text → Text → Gid → Map (Interface E) → Map (Interface E) × Option (Interface E)
  declare slot name typ gid m = elim (create {E = E} name typ) [
    | none ↦ (m, none)
    | some s ↦ (insert name (record s { entities = slot.write gid s.entities }) m, none)
  ]

  -- The map, and the interface of the event, if there is one.
  unfoldable pub update_typed :
      Slot E → Text → Text → Gid → Map (Interface E) → Map (Interface E) × Option (Interface E)
  update_typed slot name typ gid m = elim (lookup name m) [
    | none ↦ declare slot name typ gid m
    | some v ↦ let (v', result) = update_found slot typ gid v in (insert name v' m, result)
  ]

  -- The methods for topics whose type does not reflect the action's: the type is the empty text on
  -- creation, and is left alone afterwards.
  unfoldable pub update_untyped :
      Slot E → Text → Gid → Map (Interface E) → Map (Interface E) × Option (Interface E)
  update_untyped slot name gid m = elim (lookup name m) [
    | none ↦ declare slot name [] gid m
    | some v ↦ let (v', result) = reassign slot gid v none in (insert name v' m, result)
  ]
