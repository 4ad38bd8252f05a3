-- ===== src/Node/Removal/Everything.antt =====
-- What `remove_all_entities` promises: a node without interfaces, and an event for each one it had.
use mathlib.Core.List.{
  Mem, mem-cons_self, mem-cons_of_mem, mem-append_left, mem-append_right, mem-map_of_mem,
}
use zenoh_plugin_ros2dds.Base.{
  ◌≡◌, refl, sym, ◌+◌, Text, some, List, [], ◌∷◌, map, Map, lookup, values, length, length-append,
  str_eq, Bool-cases, inl, inr, subst, arith,
}
use zenoh_plugin_ros2dds.Events.{
  Ros2DiscoveryEvent, undiscovered_msg_pub, undiscovered_msg_sub, undiscovered_service_srv,
  undiscovered_service_cli, undiscovered_action_srv, undiscovered_action_cli,
}
use zenoh_plugin_ros2dds.Node.{NodeInfo, fullname}
use zenoh_plugin_ros2dds.Node.Spec.{IsValid}
use zenoh_plugin_ros2dds.Node.Removal.{remove_all_entities}

module _ {V : Type 0} where
  lookup-Mem : (k : Text) (v : V) (m : Map V) → lookup k m ≡ some v → Mem v (values m)
  unfolding lookup
  lookup-Mem k v [] h = cc
  lookup-Mem k v ((j, w) ∷ m) h = elim (Bool-cases (str_eq j k)) [
    | inl same ↦
        let e : w ≡ v = ground arith in
        subst (λ (u : V). Mem v (u ∷ values m)) (sym e) mem-cons_self
    | inr other ↦ mem-cons_of_mem w (lookup-Mem k v m (ground arith))
  ]

  length-map-values :
      (f : V → Ros2DiscoveryEvent) (m : Map V) → length (map f (values m)) ≡ length m
  length-map-values f [] = refl
  length-map-values f ((k, v) ∷ m) = ground (arith, length-map-values f m)

  told :
      (f : V → Ros2DiscoveryEvent) (k : Text) (v : V) (m : Map V)
      → lookup k m ≡ some v
      → Mem (f v) (map f (values m))
  told f k v m h = mem-map_of_mem f (lookup-Mem k v m h)

-- Every interface of the map has its event.
abbrev pub AllTold :
    {V : Type 0} → (V → Ros2DiscoveryEvent) → Map V → List Ros2DiscoveryEvent → Type 0
AllTold {V} event m events = (k : Text) (v : V) → lookup k m ≡ some v → Mem (event v) events

pub record IsEmptied (n : NodeInfo) (n' : NodeInfo) (events : List Ros2DiscoveryEvent)
    : Type 0 where
  pub valid : IsValid n'
  pub same_node : fullname n' ≡ fullname n
  pub nothing_left :
      length n'.msg_pub
        + length n'.msg_sub
        + length n'.service_srv
        + length n'.service_cli
        + length n'.action_srv
        + length n'.action_cli
        + length n'.undiscovered_reader
        + length n'.undiscovered_writer
      ≡ 0
  pub pubs : AllTold (undiscovered_msg_pub (fullname n)) n.msg_pub events
  pub subs : AllTold (undiscovered_msg_sub (fullname n)) n.msg_sub events
  pub service_srvs : AllTold (undiscovered_service_srv (fullname n)) n.service_srv events
  pub service_clis : AllTold (undiscovered_service_cli (fullname n)) n.service_cli events
  pub action_srvs : AllTold (undiscovered_action_srv (fullname n)) n.action_srv events
  pub action_clis : AllTold (undiscovered_action_cli (fullname n)) n.action_cli events
  pub count :
      length events
      ≡ length n.msg_pub
        + length n.msg_sub
        + length n.service_srv
        + length n.service_cli
        + length n.action_srv
        + length n.action_cli

-- `remove_all_entities` leaves a valid node of the same fullname with no interface and no undiscovered
-- endpoint; for each interface that was stored it returns the undiscovery event with the node's
-- fullname, and it returns as many events as the node had entries.
pub remove_all_entities-IsEmptied :
    (n : NodeInfo) → IsEmptied n (remove_all_entities n).0 (remove_all_entities n).1
unfolding remove_all_entities
remove_all_entities-IsEmptied n =
    let full = fullname n in
    let pubs = map (undiscovered_msg_pub full) (values n.msg_pub) in
    let subs = map (undiscovered_msg_sub full) (values n.msg_sub) in
    let srvs = map (undiscovered_service_srv full) (values n.service_srv) in
    let clis = map (undiscovered_service_cli full) (values n.service_cli) in
    let action_srvs = map (undiscovered_action_srv full) (values n.action_srv) in
    record {
      valid = record {
        pubs = (tt, tt);
        subs = (tt, tt);
        service_srvs = (tt, tt);
        service_clis = (tt, tt);
        action_srvs = (tt, tt);
        action_clis = (tt, tt);
      };
      same_node = refl;
      nothing_left = refl;
      pubs = λ k v h. mem-append_left _ (told (undiscovered_msg_pub full) k v n.msg_pub h);
      subs = λ k v h.
          mem-append_right pubs
            (mem-append_left _ (told (undiscovered_msg_sub full) k v n.msg_sub h));
      service_srvs = λ k v h. mem-append_right pubs (
          mem-append_right subs
            (mem-append_left _ (told (undiscovered_service_srv full) k v n.service_srv h)));
      service_clis = λ k v h. mem-append_right pubs (
          mem-append_right subs (
            mem-append_right srvs
              (mem-append_left _ (told (undiscovered_service_cli full) k v n.service_cli h))));
      action_srvs = λ k v h. mem-append_right pubs (
          mem-append_right subs (
            mem-append_right srvs (
              mem-append_right clis
                (mem-append_left _ (told (undiscovered_action_srv full) k v n.action_srv h)))));
      action_clis = λ k v h. mem-append_right pubs (
          mem-append_right subs (
            mem-append_right srvs (
              mem-append_right clis (
                mem-append_right action_srvs
                  (told (undiscovered_action_cli full) k v n.action_cli h)))));
      count =
          rw
            (
              length-append,
              length-map-values (undiscovered_msg_pub full) n.msg_pub,
              length-append,
              length-map-values (undiscovered_msg_sub full) n.msg_sub,
              length-append,
              length-map-values (undiscovered_service_srv full) n.service_srv,
              length-append,
              length-map-values (undiscovered_service_cli full) n.service_cli,
              length-append,
              length-map-values (undiscovered_action_srv full) n.action_srv,
              length-map-values (undiscovered_action_cli full) n.action_cli,
            )
            (omega arith);
    }
