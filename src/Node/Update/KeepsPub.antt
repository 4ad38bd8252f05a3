-- ===== src/Node/Update/KeepsPub.antt =====
-- The same for the map of publishers.
use zenoh_plugin_ros2dds.Base.{
  ◌≡◌, ◌≢◌, refl, sym, subst, ◌⊎◌, inl, inr, Text, Option, none, some, Map, lookup, insert,
  lookup-insert, length, eq_of_str_eq, Option-cases, arith,
}
use zenoh_plugin_ros2dds.Base.Maps.Entries.{
  Entries, lookup-insert_self, Table, Table-insert, Entries-lookup,
}
use zenoh_plugin_ros2dds.Externals.{Externals}
use zenoh_plugin_ros2dds.Gid.{Gid}
use zenoh_plugin_ros2dds.Interfaces.{MsgPub, create_msg_pub}
use zenoh_plugin_ros2dds.Events.{discovered_msg_pub}
use zenoh_plugin_ros2dds.Node.{NodeInfo, fullname}
use zenoh_plugin_ros2dds.Node.Spec.{IsValid, Announces, Keeps, IsPubEntry}
use zenoh_plugin_ros2dds.Node.Update.{event_of, join_msg_pub, pub_step, update_msg_pub}

some_ne_none {ℓ} : {A : Type ℓ} {o : Option A} {a : A} → o ≡ some a → o ≢ none
some_ne_none h k = cc

-- Nothing happened, or the entry of the name was written, and announced if and only if it is new.
abbrev PubOutcome : Text → Map MsgPub → Map MsgPub × Option MsgPub → Type 0
PubOutcome name m (m', result) =
    ((m' ≡ m) × (result ≡ none))
    ⊎ ((v : MsgPub) × (m' ≡ insert name v m)
        × IsPubEntry name v
        × (((result ≡ none) × (lookup name m ≢ none))
            ⊎ ((result ≡ some v) × (length v.writers ≡ 1))))

join_msg_pub_lem :
    (name typ : Text) (writer : Gid) (v : MsgPub)
    → IsPubEntry name v
    → IsPubEntry name (join_msg_pub typ writer v).0 × ((join_msg_pub typ writer v).1 ≡ none)
unfolding join_msg_pub
join_msg_pub_lem name typ writer v h = ground arith

module _ ⦃x : Externals⦄ (name typ : Text) (writer : Gid) (m : Map MsgPub) where
  pub_step_absent :
      lookup name m ≡ none
      → (r : Option MsgPub) → create_msg_pub name typ writer ≡ r
      → PubOutcome name m (pub_step name typ writer m)
  unfolding pub_step create_msg_pub
  pub_step_absent absent none h =
      let e : pub_step name typ writer m ≡ (m, none) = ground arith in
      subst (PubOutcome name m) (sym e) (inl (refl, refl))
  pub_step_absent absent (some v) h =
      let e : pub_step name typ writer m ≡ (insert name v m, some v) = ground arith in
      subst (PubOutcome name m) (sym e)
        (inr (v, refl, (ground arith, ground arith), inr (refl, ground arith)))

  pub_step-Outcome : Entries IsPubEntry m → PubOutcome name m (pub_step name typ writer m)
  unfolding pub_step
  pub_step-Outcome valid = elim (Option-cases (lookup name m)) [
    | inl absent ↦ pub_step_absent absent (create_msg_pub name typ writer) refl
    | inr (v, found) ↦
        let v' = (join_msg_pub typ writer v).0 in
        let (entry, silent) =
          join_msg_pub_lem name typ writer v (Entries-lookup IsPubEntry name v m valid found) in
        let e : pub_step name typ writer m ≡ (insert name v' m, (join_msg_pub typ writer v).1) =
          rw (found, pub_step) refl in
        subst (PubOutcome name m) (sym e) (inr (v', refl, entry, inl (silent, some_ne_none found)))
  ]

module _ (name : Text) (m m' : Map MsgPub) (result : Option MsgPub) where
  PubOutcome-valid : Table IsPubEntry m → PubOutcome name m (m', result) → Table IsPubEntry m'
  PubOutcome-valid valid (inl (same, silent)) = subst (Table IsPubEntry) (sym same) valid
  PubOutcome-valid valid (inr (v, written, entry, told)) =
      subst (Table IsPubEntry) (sym written) (Table-insert IsPubEntry name v m entry valid)

  PubOutcome-stored :
      PubOutcome name m (m', result)
      → (v : MsgPub) → result ≡ some v
      → (lookup v.name m' ≡ some v) × (length v.writers ≡ 1)
  PubOutcome-stored (inl (same, silent)) v h = cc
  PubOutcome-stored (inr (w, written, entry, inl (silent, why))) v h = cc
  PubOutcome-stored (inr (w, written, entry, inr (told, one))) v h =
      ground (arith, lookup-insert_self name w m)

  PubOutcome-missed :
      PubOutcome name m (m', result)
      → (k : Text) (v : MsgPub) → lookup k m' ≡ some v
      → (lookup k m ≢ none) ⊎ (result ≡ some v)
  PubOutcome-missed (inl (same, silent)) k v h =
      inl (some_ne_none (subst (λ (l : Map MsgPub). lookup k l ≡ some v) same h))
  PubOutcome-missed (inr (w, written, entry, told)) k v h =
      ground (arith, lookup-insert name k w m, eq_of_str_eq name k)

module _ ⦃x : Externals⦄ (n : NodeInfo) (valid : IsValid n) where
  Announces-msg_pub :
      (n' : NodeInfo) (result : Option MsgPub)
      → ((v : MsgPub)
          → result ≡ some v
          → (lookup v.name n'.msg_pub ≡ some v) × (length v.writers ≡ 1))
      → Announces n' (event_of (discovered_msg_pub (fullname n')) result)
  Announces-msg_pub n' none h = tt
  Announces-msg_pub n' (some v) h = (refl, (h v refl).0, (h v refl).1)

  pub update_msg_pub-Keeps :
      (name typ : Text) (writer : Gid) → Keeps n (update_msg_pub n name typ writer)
  unfolding update_msg_pub
  update_msg_pub-Keeps name typ writer =
      let m = (pub_step name typ writer n.msg_pub).0 in
      let result = (pub_step name typ writer n.msg_pub).1 in
      let out = pub_step-Outcome name typ writer n.msg_pub valid.pubs.1 in
      record {
        valid = record {
          pubs = PubOutcome-valid name n.msg_pub m result valid.pubs out;
          subs = valid.subs;
          service_srvs = valid.service_srvs;
          service_clis = valid.service_clis;
          action_srvs = valid.action_srvs;
          action_clis = valid.action_clis;
        };
        announces =
            Announces-msg_pub (record n { msg_pub = m }) result
              (PubOutcome-stored name n.msg_pub m result out);
        announced = record {
          pubs = λ k v h. ground (arith, PubOutcome-missed name n.msg_pub m result out k v);
          subs = λ k v h. inl (some_ne_none h);
          service_srvs = λ k v h c. inl h;
          service_clis = λ k v h c. inl h;
          action_srvs = λ k v h c. inl h;
          action_clis = λ k v h c. inl h;
        };
        same = record {
          id = refl;
          fullname_lem = refl;
          undiscovered_reader = refl;
          undiscovered_writer = refl;
        };
      }
