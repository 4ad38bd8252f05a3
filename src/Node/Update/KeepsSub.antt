-- ===== src/Node/Update/KeepsSub.antt =====
-- The same for the map of subscribers.
use zenoh_plugin_ros2dds.Base.{
  ◌≡◌, ◌≢◌, refl, sym, subst, ◌⊎◌, inl, inr, Text, Option, none, some, Map, lookup, insert,
  lookup-insert, length, eq_of_str_eq, Option-cases, arith,
}
use zenoh_plugin_ros2dds.Base.Maps.Entries.{
  Entries, lookup-insert_self, Table, Table-insert, Entries-lookup,
}
use zenoh_plugin_ros2dds.Externals.{Externals}
use zenoh_plugin_ros2dds.Gid.{Gid}
use zenoh_plugin_ros2dds.Interfaces.{MsgSub, create_msg_sub}
use zenoh_plugin_ros2dds.Events.{discovered_msg_sub}
use zenoh_plugin_ros2dds.Node.{NodeInfo, fullname}
use zenoh_plugin_ros2dds.Node.Spec.{IsValid, Announces, Keeps, IsSubEntry}
use zenoh_plugin_ros2dds.Node.Update.{event_of, join_msg_sub, sub_step, update_msg_sub}

some_ne_none {ℓ} : {A : Type ℓ} {o : Option A} {a : A} → o ≡ some a → o ≢ none
some_ne_none h k = cc

-- Nothing happened, or the entry of the name was written, and announced if and only if it is new.
abbrev SubOutcome : Text → Map MsgSub → Map MsgSub × Option MsgSub → Type 0
SubOutcome name m (m', result) =
    ((m' ≡ m) × (result ≡ none))
    ⊎ ((v : MsgSub) × (m' ≡ insert name v m)
        × IsSubEntry name v
        × (((result ≡ none) × (lookup name m ≢ none))
            ⊎ ((result ≡ some v) × (length v.readers ≡ 1))))

join_msg_sub_lem :
    (name typ : Text) (reader : Gid) (v : MsgSub)
    → IsSubEntry name v
    → IsSubEntry name (join_msg_sub typ reader v).0 × ((join_msg_sub typ reader v).1 ≡ none)
unfolding join_msg_sub
join_msg_sub_lem name typ reader v h = ground arith

module _ ⦃x : Externals⦄ (name typ : Text) (reader : Gid) (m : Map MsgSub) where
  sub_step_absent :
      lookup name m ≡ none
      → (r : Option MsgSub) → create_msg_sub name typ reader ≡ r
      → SubOutcome name m (sub_step name typ reader m)
  unfolding sub_step create_msg_sub
  sub_step_absent absent none h =
      let e : sub_step name typ reader m ≡ (m, none) = ground arith in
      subst (SubOutcome name m) (sym e) (inl (refl, refl))
  sub_step_absent absent (some v) h =
      let e : sub_step name typ reader m ≡ (insert name v m, some v) = ground arith in
      subst (SubOutcome name m) (sym e)
        (inr (v, refl, (ground arith, ground arith), inr (refl, ground arith)))

  sub_step-Outcome : Entries IsSubEntry m → SubOutcome name m (sub_step name typ reader m)
  unfolding sub_step
  sub_step-Outcome valid = elim (Option-cases (lookup name m)) [
    | inl absent ↦ sub_step_absent absent (create_msg_sub name typ reader) refl
    | inr (v, found) ↦
        let v' = (join_msg_sub typ reader v).0 in
        let (entry, silent) =
          join_msg_sub_lem name typ reader v (Entries-lookup IsSubEntry name v m valid found) in
        let e : sub_step name typ reader m ≡ (insert name v' m, (join_msg_sub typ reader v).1) =
          rw (found, sub_step) refl in
        subst (SubOutcome name m) (sym e) (inr (v', refl, entry, inl (silent, some_ne_none found)))
  ]

module _ (name : Text) (m m' : Map MsgSub) (result : Option MsgSub) where
  SubOutcome-valid : Table IsSubEntry m → SubOutcome name m (m', result) → Table IsSubEntry m'
  SubOutcome-valid valid (inl (same, silent)) = subst (Table IsSubEntry) (sym same) valid
  SubOutcome-valid valid (inr (v, written, entry, told)) =
      subst (Table IsSubEntry) (sym written) (Table-insert IsSubEntry name v m entry valid)

  SubOutcome-stored :
      SubOutcome name m (m', result)
      → (v : MsgSub) → result ≡ some v
      → (lookup v.name m' ≡ some v) × (length v.readers ≡ 1)
  SubOutcome-stored (inl (same, silent)) v h = cc
  SubOutcome-stored (inr (w, written, entry, inl (silent, why))) v h = cc
  SubOutcome-stored (inr (w, written, entry, inr (told, one))) v h =
      ground (arith, lookup-insert_self name w m)

  SubOutcome-missed :
      SubOutcome name m (m', result)
      → (k : Text) (v : MsgSub) → lookup k m' ≡ some v
      → (lookup k m ≢ none) ⊎ (result ≡ some v)
  SubOutcome-missed (inl (same, silent)) k v h =
      inl (some_ne_none (subst (λ (l : Map MsgSub). lookup k l ≡ some v) same h))
  SubOutcome-missed (inr (w, written, entry, told)) k v h =
      ground (arith, lookup-insert name k w m, eq_of_str_eq name k)

module _ ⦃x : Externals⦄ (n : NodeInfo) (valid : IsValid n) where
  Announces-msg_sub :
      (n' : NodeInfo) (result : Option MsgSub)
      → ((v : MsgSub)
          → result ≡ some v
          → (lookup v.name n'.msg_sub ≡ some v) × (length v.readers ≡ 1))
      → Announces n' (event_of (discovered_msg_sub (fullname n')) result)
  Announces-msg_sub n' none h = tt
  Announces-msg_sub n' (some v) h = (refl, (h v refl).0, (h v refl).1)

  pub update_msg_sub-Keeps :
      (name typ : Text) (reader : Gid) → Keeps n (update_msg_sub n name typ reader)
  unfolding update_msg_sub
  update_msg_sub-Keeps name typ reader =
      let m = (sub_step name typ reader n.msg_sub).0 in
      let result = (sub_step name typ reader n.msg_sub).1 in
      let out = sub_step-Outcome name typ reader n.msg_sub valid.subs.1 in
      record {
        valid = record {
          pubs = valid.pubs;
          subs = SubOutcome-valid name n.msg_sub m result valid.subs out;
          service_srvs = valid.service_srvs;
          service_clis = valid.service_clis;
          action_srvs = valid.action_srvs;
          action_clis = valid.action_clis;
        };
        announces =
            Announces-msg_sub (record n { msg_sub = m }) result
              (SubOutcome-stored name n.msg_sub m result out);
        announced = record {
          pubs = λ k v h. inl (some_ne_none h);
          subs = λ k v h. ground (arith, SubOutcome-missed name n.msg_sub m result out k v);
          service_srvs = λ k v h c. inl h;
          service_clis = λ k v h c. inl h;
          action_srvs = λ k v h c. inl h;
          action_clis = λ k v h c. inl h;
        };
        same = record {
          id = refl;
          fullname_lem = refl;
          undiscovered_reader = refl;
          undiscovered_writer = refl;
        };
      }
