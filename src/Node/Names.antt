-- ===== src/Node/Names.antt =====
-- The names of a node that `create_node` makes.
use mathlib.Core.List.{append_assoc}
use zenoh_plugin_ros2dds.Base.{
  ◌≡◌, refl, sym, ap, ◌∙◌, ◌-◌, Text, codes, true, false, Bool-cases, inl, inr, Option, none, some,
  [], ◌++◌, length, length-append, take-append_left, drop-append_left, take_all, str_eq,
  eq_of_str_eq, if◌then◌else◌, arith,
}
use zenoh_plugin_ros2dds.Externals.{Externals}
use zenoh_plugin_ros2dds.Gid.{Gid, gid_to_string}
use zenoh_plugin_ros2dds.RosDiscovery.{NodeEntitiesInfo, full_name}
use zenoh_plugin_ros2dds.Node.{NodeInfo, Range, slice, fullname, namespace, name, create_node}
use zenoh_plugin_ros2dds.Node.Spec.{IsValid}

slice_middle :
    (a b c : Text) → slice (a ++ (b ++ c)) (record { start = length a; end = length (a ++ b) }) ≡ b
slice_middle a b c =
    let amount : length (a ++ b) - length a ≡ length b = rw (length-append a b) (omega arith) in
    rw (drop-append_left a (b ++ c), amount) (take-append_left b c)

slice_end : (a b : Text) → slice (a ++ b) (record { start = length a; end = length (a ++ b) }) ≡ b
slice_end a b =
    let amount : length (a ++ b) - length a ≡ length b = rw (length-append a b) (omega arith) in
    rw (drop-append_left a b, amount) (take_all b)

-- Of the result of `create_node`: an id that is no key expression, or a node under its names.
abbrev pub IsCreated : ⦃x : Externals⦄ → NodeEntitiesInfo → Gid → Option NodeInfo → Type 0
IsCreated ⦃x⦄ info participant none =
    x.is_key_expr (gid_to_string participant ++ full_name info) ≡ false
IsCreated info participant (some n) =
    (n.id ≡ gid_to_string participant ++ full_name info)
    × (fullname n ≡ full_name info)
    × (namespace n ≡ info.node_namespace)
    × (name n ≡ info.node_name)
    × IsValid n

root_lem :
    (ns nm : Text)
    → str_eq ns (codes "/") ≡ true
    → (if str_eq ns (codes "/") then [] else ns) ++ (codes "/" ++ nm) ≡ ns ++ nm
root_lem ns nm h = rw h (ap (λ (t : Text). t ++ nm) (sym (eq_of_str_eq ns (codes "/") h)))

module _ (g ns nm : Text) where
  root_assoc : (g ++ ns) ++ nm ≡ g ++ (ns ++ nm)
  root_assoc = append_assoc g ns nm

  inner_assoc : ((g ++ ns) ++ codes "/") ++ nm ≡ g ++ (ns ++ (codes "/" ++ nm))
  inner_assoc = append_assoc (g ++ ns) (codes "/") nm ∙ append_assoc g ns (codes "/" ++ nm)

  from_gid :
      (id rest : Text)
      → id ≡ g ++ rest
      → slice id (record { start = length g; end = length id }) ≡ rest
  from_gid id rest e =
      ap (λ (t : Text). slice t (record { start = length g; end = length t })) e ∙ slice_end g rest

  in_namespace :
      (id rest : Text)
      → id ≡ g ++ (ns ++ rest)
      → slice id (record { start = length g; end = length (g ++ ns) }) ≡ ns
  in_namespace id rest e =
      ap (λ (t : Text). slice t (record { start = length g; end = length (g ++ ns) })) e
      ∙ slice_middle g ns rest

module _ (id : Text) (full space own : Range) where
  no_interfaces : IsValid (record {
    id = id;
    fullname_range = full;
    namespace_range = space;
    name_range = own;
    msg_pub = [];
    msg_sub = [];
    service_srv = [];
    service_cli = [];
    action_srv = [];
    action_cli = [];
    undiscovered_reader = [];
    undiscovered_writer = [];
  })
  no_interfaces = record {
    pubs = (tt, tt);
    subs = (tt, tt);
    service_srvs = (tt, tt);
    service_clis = (tt, tt);
    action_srvs = (tt, tt);
    action_clis = (tt, tt);
  }

-- `create_node`, called for what a node declares of itself, fails just when zenoh refuses the participant's
-- gid with the declared full name behind it as a key expression; else it makes a valid node whose fullname,
-- namespace and name, cut out of that id, are the declared full name, namespace and name.
pub create_node-IsCreated :
    ⦃x : Externals⦄ (info : NodeEntitiesInfo) (participant : Gid)
    → IsCreated info participant (create_node info.node_namespace info.node_name participant)
unfolding create_node
create_node-IsCreated ⦃x⦄ info p =
    let g = gid_to_string p in
    let ns = info.node_namespace in
    let nm = info.node_name in
    elim (Bool-cases (str_eq ns (codes "/"))) [
      | inl root ↦
          let full : full_name info ≡ ns ++ nm = root_lem ns nm root in
          let id_is : (g ++ ns) ++ nm ≡ g ++ full_name info =
            root_assoc g ns nm ∙ ap (λ (t : Text). g ++ t) (sym full) in
          elim (Bool-cases (x.is_key_expr ((g ++ ns) ++ nm))) [
            | inl accepted ↦
                rw (root, accepted)
                  (
                    id_is,
                    from_gid g ns nm ((g ++ ns) ++ nm) (full_name info) id_is,
                    in_namespace g ns nm ((g ++ ns) ++ nm) nm (root_assoc g ns nm),
                    slice_end (g ++ ns) nm,
                    no_interfaces _ _ _ _,
                  )
            | inr refused ↦ rw (root, refused) (ap x.is_key_expr (sym id_is) ∙ refused)
          ]
      | inr inner ↦
          let full : full_name info ≡ ns ++ (codes "/" ++ nm) = rw inner refl in
          let id_is : ((g ++ ns) ++ codes "/") ++ nm ≡ g ++ full_name info =
            inner_assoc g ns nm ∙ ap (λ (t : Text). g ++ t) (sym full) in
          elim (Bool-cases (x.is_key_expr (((g ++ ns) ++ codes "/") ++ nm))) [
            | inl accepted ↦
                rw (inner, accepted)
                  (
                    id_is,
                    from_gid g ns nm (((g ++ ns) ++ codes "/") ++ nm) (full_name info) id_is,
                    in_namespace g ns nm (((g ++ ns) ++ codes "/") ++ nm) (codes "/" ++ nm)
                        (inner_assoc g ns nm),
                    slice_end ((g ++ ns) ++ codes "/") nm,
                    no_interfaces _ _ _ _,
                  )
            | inr refused ↦ rw (inner, refused) (ap x.is_key_expr (sym id_is) ∙ refused)
          ]
    ]
