-- ===== src/Node/Update/MessagesAgain.antt =====
-- A publisher's writer, or a subscriber's reader, that is declared again changes nothing.
use zenoh_plugin_ros2dds.Base.{
  ◌≡◌, ap, inl, inr, Text, Option, none, some, Map, lookup, str_eq_refl, Option-cases, arith,
}
use zenoh_plugin_ros2dds.Base.Maps.Entries.{lookup-insert_self, insert-insert_self}
use zenoh_plugin_ros2dds.Externals.{Externals}
use zenoh_plugin_ros2dds.Gid.{Gid}
use zenoh_plugin_ros2dds.Interfaces.{MsgPub, MsgSub, create_msg_pub, create_msg_sub}
use zenoh_plugin_ros2dds.Events.{discovered_msg_pub, discovered_msg_sub}
use zenoh_plugin_ros2dds.Node.{NodeInfo, fullname}
use zenoh_plugin_ros2dds.Node.Update.{
  Updated, event_of, join_msg_pub, join_msg_sub, pub_step, sub_step, update_msg_pub, update_msg_sub,
}

join_msg_pub_again :
    (typ : Text) (writer : Gid) (v : MsgPub)
    → join_msg_pub typ writer (join_msg_pub typ writer v).0 ≡ ((join_msg_pub typ writer v).0, none)
unfolding join_msg_pub
join_msg_pub_again typ writer v = ground (arith, str_eq_refl writer)

module _ ⦃x : Externals⦄ (name typ : Text) (writer : Gid) (m : Map MsgPub) where
  pub_step_declared :
      (v : MsgPub) → create_msg_pub name typ writer ≡ some v → join_msg_pub typ writer v ≡ (v, none)
  unfolding join_msg_pub create_msg_pub
  pub_step_declared v h = ground (arith, str_eq_refl writer, str_eq_refl typ)

  pub_step_again :
      pub_step name typ writer (pub_step name typ writer m).0
      ≡ ((pub_step name typ writer m).0, none)
  unfolding pub_step
  pub_step_again = elim (Option-cases (lookup name m)) [
    | inl absent ↦ elim (Option-cases (create_msg_pub name typ writer)) [
      | inl failed ↦ ground arith
      | inr (v, created) ↦ ground (
        arith,
        pub_step_declared v created,
        lookup-insert_self name v m,
        insert-insert_self name v v m,
      )
    ]
    | inr (v, found) ↦
        let v' = (join_msg_pub typ writer v).0 in
        ground (
          arith,
          join_msg_pub_again typ writer v,
          lookup-insert_self name v' m,
          insert-insert_self name v' v' m,
        )
  ]

pub update_msg_pub_again :
    ⦃x : Externals⦄ (n : NodeInfo) (name typ : Text) (writer : Gid)
    → update_msg_pub (update_msg_pub n name typ writer).0 name typ writer
      ≡ ((update_msg_pub n name typ writer).0, none)
unfolding update_msg_pub
update_msg_pub_again n name typ writer =
    ap
      (λ (u : Map MsgPub × Option MsgPub).
        let v : Updated =
          (record n { msg_pub = u.0 }, event_of (discovered_msg_pub (fullname n)) u.1) in
        v)
      (pub_step_again name typ writer n.msg_pub)

join_msg_sub_again :
    (typ : Text) (reader : Gid) (v : MsgSub)
    → join_msg_sub typ reader (join_msg_sub typ reader v).0 ≡ ((join_msg_sub typ reader v).0, none)
unfolding join_msg_sub
join_msg_sub_again typ reader v = ground (arith, str_eq_refl reader)

module _ ⦃x : Externals⦄ (name typ : Text) (reader : Gid) (m : Map MsgSub) where
  sub_step_declared :
      (v : MsgSub) → create_msg_sub name typ reader ≡ some v → join_msg_sub typ reader v ≡ (v, none)
  unfolding join_msg_sub create_msg_sub
  sub_step_declared v h = ground (arith, str_eq_refl reader, str_eq_refl typ)

  sub_step_again :
      sub_step name typ reader (sub_step name typ reader m).0
      ≡ ((sub_step name typ reader m).0, none)
  unfolding sub_step
  sub_step_again = elim (Option-cases (lookup name m)) [
    | inl absent ↦ elim (Option-cases (create_msg_sub name typ reader)) [
      | inl failed ↦ ground arith
      | inr (v, created) ↦ ground (
        arith,
        sub_step_declared v created,
        lookup-insert_self name v m,
        insert-insert_self name v v m,
      )
    ]
    | inr (v, found) ↦
        let v' = (join_msg_sub typ reader v).0 in
        ground (
          arith,
          join_msg_sub_again typ reader v,
          lookup-insert_self name v' m,
          insert-insert_self name v' v' m,
        )
  ]

pub update_msg_sub_again :
    ⦃x : Externals⦄ (n : NodeInfo) (name typ : Text) (reader : Gid)
    → update_msg_sub (update_msg_sub n name typ reader).0 name typ reader
      ≡ ((update_msg_sub n name typ reader).0, none)
unfolding update_msg_sub
update_msg_sub_again n name typ reader =
    ap
      (λ (u : Map MsgSub × Option MsgSub).
        let v : Updated =
          (record n { msg_sub = u.0 }, event_of (discovered_msg_sub (fullname n)) u.1) in
        v)
      (sub_step_again name typ reader n.msg_sub)
