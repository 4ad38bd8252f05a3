-- ===== src/Node/Slots/Laws.antt =====
-- What one update of a service or action does to the map and when it announces the interface.
use zenoh_plugin_ros2dds.Base.{
  ◌≡◌, refl, ◌∙◌, sym, subst, ◌⊎◌, inl, inr, Text, true, false, Option, none, some, [], Map, lookup,
  insert, str_eq_refl, eq_of_str_eq, Option-cases, arith,
}
use zenoh_plugin_ros2dds.Base.Maps.Entries.{
  Entries, lookup-insert_self, insert-insert_self, Entries-lookup,
}
use zenoh_plugin_ros2dds.Externals.{Externals}
use zenoh_plugin_ros2dds.Gid.{Gid}
use zenoh_plugin_ros2dds.Ros2Utils.{check_ros_name}
use zenoh_plugin_ros2dds.Interfaces.{Endpoints, Interface, create, known}
use zenoh_plugin_ros2dds.Node.Slots.{
  Slot, is_complete, reassign, update_found, declare, update_typed, update_untyped,
}

pub record IsLawful {E : Type 0} ⦃e : Endpoints E⦄ (slot : Slot E) : Type 0 where
  pub read_write : (g : Gid) (v : E) → slot.read (slot.write g v) ≡ g
  -- a discovered endpoint leaves what is complete complete
  pub complete_write :
      (g : Gid) (v : E)
      → known g ≡ true
      → e.is_complete v ≡ true
      → e.is_complete (slot.write g v) ≡ true
  -- one endpoint is never all of them
  pub incomplete_first : (g : Gid) → e.is_complete (slot.write g e.default) ≡ false

module _ {E : Type 0} ⦃e : Endpoints E⦄ (slot : Slot E) (lawful : IsLawful slot) where
  -- The entry keeps its name, takes the endpoint, and is announced as it then is, if complete.
  update_found_lem :
      (typ gid : Text) (v : Interface E)
      → known gid ≡ true
      → let (v', result) = update_found slot typ gid v in
        (v'.name ≡ v.name)
        × (v'.typ ≡ typ)
        × (slot.read v'.entities ≡ gid)
        × (((result ≡ none) × ((is_complete v' ≡ false) ⊎ (v' ≡ v)))
            ⊎ ((result ≡ some v') × (is_complete v' ≡ true)))
  unfolding update_found
  update_found_lem typ gid v h = ground (
    arith,
    eq_of_str_eq v.typ typ,
    eq_of_str_eq (slot.read v.entities) gid,
    lawful.read_write gid v.entities,
    lawful.complete_write gid v.entities,
  )

  reassign_lem :
      (gid : Text) (v : Interface E)
      → known gid ≡ true
      → let (v', result) = reassign slot gid v none in
        (v'.name ≡ v.name)
        × (((result ≡ none) × ((is_complete v' ≡ false) ⊎ (v' ≡ v)))
            ⊎ ((result ≡ some v') × (is_complete v' ≡ true)))
  unfolding reassign
  reassign_lem gid v h =
      ground (arith, eq_of_str_eq (slot.read v.entities) gid, lawful.complete_write gid v.entities)

  update_found_again :
      (typ gid : Text) (v : Interface E)
      → update_found slot typ gid (update_found slot typ gid v).0
        ≡ ((update_found slot typ gid v).0, none)
  unfolding update_found
  update_found_again typ gid v = ground (
    arith,
    str_eq_refl typ,
    str_eq_refl gid,
    eq_of_str_eq v.typ typ,
    eq_of_str_eq (slot.read v.entities) gid,
    lawful.read_write gid v.entities,
  )

  reassign_again :
      (gid : Text) (v : Interface E)
      → reassign slot gid (reassign slot gid v none).0 none ≡ ((reassign slot gid v none).0, none)
  unfolding reassign
  reassign_again gid v = ground (
    arith,
    str_eq_refl gid,
    eq_of_str_eq (slot.read v.entities) gid,
    lawful.read_write gid v.entities,
  )

-- Either nothing changed and nothing is announced, or one entry was written under its own name. It is
-- then announced as it stands in the map, and complete; or it is not, being incomplete or unchanged.
abbrev pub Outcome :
    {E : Type 0} ⦃e : Endpoints E⦄
    → Text
    → Map (Interface E)
    → Map (Interface E) × Option (Interface E)
    → Type 0
Outcome {E} name m (m', result) =
    ((m' ≡ m) × (result ≡ none))
    ⊎ ((v : Interface E) × (m' ≡ insert name v m)
        × (v.name ≡ name)
        × (((result ≡ none) × ((is_complete v ≡ false) ⊎ (lookup name m ≡ some v)))
            ⊎ ((result ≡ some v) × (is_complete v ≡ true))))

-- The interface that the vacant branch writes.
abbrev first : {E : Type 0} ⦃e : Endpoints E⦄ → Slot E → Text → Text → Gid → Interface E
first ⦃e⦄ slot name typ gid = record { name = name; typ = typ; entities = slot.write gid e.default }

module _ ⦃x : Externals⦄ {E : Type 0} ⦃e : Endpoints E⦄ (slot : Slot E)
    (lawful : IsLawful slot) where
  declare_lem :
      (name typ gid : Text) (m : Map (Interface E))
      → (declare slot name typ gid m ≡ (m, none))
        ⊎ (declare slot name typ gid m ≡ (insert name (first slot name typ gid) m, none))
  unfolding declare create
  declare_lem name typ gid m = ground arith

  update_found-first :
      (name typ gid : Text)
      → update_found slot typ gid (first slot name typ gid) ≡ (first slot name typ gid, none)
  unfolding update_found
  update_found-first name typ gid =
      ground (arith, str_eq_refl typ, str_eq_refl gid, lawful.read_write gid e.default)

  pub update_typed_again :
      (name typ gid : Text) (m : Map (Interface E))
      → update_typed slot name typ gid (update_typed slot name typ gid m).0
        ≡ ((update_typed slot name typ gid m).0, none)
  unfolding update_typed
  update_typed_again name typ gid m =
      let v0 = first slot name typ gid in
      elim (Option-cases (lookup name m)) [
        | inl absent ↦ ground (
          arith,
          declare_lem name typ gid m,
          update_found-first name typ gid,
          lookup-insert_self name v0 m,
          insert-insert_self name v0 v0 m,
        )
        | inr (v, found) ↦
            let v' = (update_found slot typ gid v).0 in
            ground (
              arith,
              update_found_again slot lawful typ gid v,
              lookup-insert_self name v' m,
              insert-insert_self name v' v' m,
            )
      ]

  reassign-first :
      (name typ gid : Text)
      → reassign slot gid (first slot name typ gid) none ≡ (first slot name typ gid, none)
  unfolding reassign
  reassign-first name typ gid = ground (arith, str_eq_refl gid, lawful.read_write gid e.default)

  pub update_untyped_again :
      (name gid : Text) (m : Map (Interface E))
      → update_untyped slot name gid (update_untyped slot name gid m).0
        ≡ ((update_untyped slot name gid m).0, none)
  unfolding update_untyped
  update_untyped_again name gid m =
      let v0 = first slot name [] gid in
      elim (Option-cases (lookup name m)) [
        | inl absent ↦ ground (
          arith,
          declare_lem name [] gid m,
          reassign-first name [] gid,
          lookup-insert_self name v0 m,
          insert-insert_self name v0 v0 m,
        )
        | inr (v, found) ↦
            let v' = (reassign slot gid v none).0 in
            ground (
              arith,
              reassign_again slot lawful gid v,
              lookup-insert_self name v' m,
              insert-insert_self name v' v' m,
            )
      ]

  declare-Outcome :
      (name typ gid : Text) (m : Map (Interface E)) → Outcome name m (declare slot name typ gid m)
  unfolding declare create
  declare-Outcome name typ gid m = elim (Option-cases (check_ros_name name)) [
    | inl failed ↦ rw (failed, declare, create) (inl (refl, refl))
    | inr (u, passed) ↦
        rw (passed, declare, create)
          (inr (first slot name typ gid, refl, refl, inl (refl, inl (lawful.incomplete_first gid))))
  ]

  settle :
      (name : Text) (m : Map (Interface E)) (v v' : Interface E) (result : Option (Interface E))
      → lookup name m ≡ some v
      → ((result ≡ none) × ((is_complete v' ≡ false) ⊎ (v' ≡ v)))
        ⊎ ((result ≡ some v') × (is_complete v' ≡ true))
      → ((result ≡ none) × ((is_complete v' ≡ false) ⊎ (lookup name m ≡ some v')))
        ⊎ ((result ≡ some v') × (is_complete v' ≡ true))
  settle name m v v' result found (inl (silent, inl incomplete)) = inl (silent, inl incomplete)
  settle name m v v' result found (inl (silent, inr same)) = inl (silent, inr (rw same found))
  settle name m v v' result found (inr announced) = inr announced

  module _ (name gid : Text) (m : Map (Interface E)) (named : Entries (λ k v. v.name ≡ k) m)
      (discovered : known gid ≡ true) where
    pub update_typed-Outcome : (typ : Text) → Outcome name m (update_typed slot name typ gid m)
    unfolding update_typed
    update_typed-Outcome typ = elim (Option-cases (lookup name m)) [
      | inl absent ↦
          let e : update_typed slot name typ gid m ≡ declare slot name typ gid m =
            rw (absent, update_typed) refl in
          subst (Outcome name m) (sym e) (declare-Outcome name typ gid m)
      | inr (v, found) ↦
          let v' = (update_found slot typ gid v).0 in
          let result = (update_found slot typ gid v).1 in
          let e : update_typed slot name typ gid m ≡ (insert name v' m, result) =
            rw (found, update_typed) refl in
          let (same_name, same_typ, gid_read, r) =
            update_found_lem slot lawful typ gid v discovered in
          subst (Outcome name m) (sym e) (
            inr (
              v',
              refl,
              same_name ∙ Entries-lookup (λ k w. w.name ≡ k) name v m named found,
              settle name m v v' result found r,
            ))
    ]

    pub update_untyped-Outcome : Outcome name m (update_untyped slot name gid m)
    unfolding update_untyped
    update_untyped-Outcome = elim (Option-cases (lookup name m)) [
      | inl absent ↦
          let e : update_untyped slot name gid m ≡ declare slot name [] gid m =
            rw (absent, update_untyped) refl in
          subst (Outcome name m) (sym e) (declare-Outcome name [] gid m)
      | inr (v, found) ↦
          let v' = (reassign slot gid v none).0 in
          let result = (reassign slot gid v none).1 in
          let e : update_untyped slot name gid m ≡ (insert name v' m, result) =
            rw (found, update_untyped) refl in
          let (same_name, r) = reassign_lem slot lawful gid v discovered in
          subst (Outcome name m) (sym e) (
            inr (
              v',
              refl,
              same_name ∙ Entries-lookup (λ k w. w.name ≡ k) name v m named found,
              settle name m v v' result found r,
            ))
    ]
