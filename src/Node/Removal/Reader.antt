-- ===== src/Node/Removal/Reader.antt =====
-- What `remove_reader` promises: the node stays valid, and either it tells which interface is gone with
-- the reader, or nothing uses the reader any more.
use zenoh_plugin_ros2dds.Base.{
  ◌≡◌, refl, sym, ap, subst, Text, true, false, Option, none, some, [], lookup, remove,
}
use zenoh_plugin_ros2dds.Base.Maps.Entries.{
  Entries, Entries-imp, Entries-lookup, remove-Distinct, Table-remove, Entries-remove_one,
  lookup-remove_self,
}
use zenoh_plugin_ros2dds.Gid.{Gid}
use zenoh_plugin_ros2dds.Interfaces.{MsgSub, ServiceSrv, ServiceCli, ActionSrv, ActionCli, contains}
use zenoh_plugin_ros2dds.Events.{
  Ros2DiscoveryEvent, undiscovered_msg_sub, undiscovered_service_srv, undiscovered_service_cli,
  undiscovered_action_srv, undiscovered_action_cli,
}
use zenoh_plugin_ros2dds.Node.{NodeInfo, fullname}
use zenoh_plugin_ros2dds.Node.Spec.{IsValid, IsSubEntry, IsNamed}
use zenoh_plugin_ros2dds.Node.Update.{Updated, event_of}
use zenoh_plugin_ros2dds.Node.Removal.{
  release_reader, find_key, retain_others, service_srv_reads, service_cli_reads, action_srv_reads,
  action_cli_reads, drop_msg_sub, drop_service_srv, drop_service_cli, drop_action_srv,
  drop_action_cli, remove_reader,
}
use zenoh_plugin_ros2dds.Node.Removal.Gone.{IsGone, find_key-IsGone, or_return_ind}
use zenoh_plugin_ros2dds.Node.Removal.Maps.{
  contains-retain_others, find_key-none, release_reader-none, release_reader-some,
  release_reader-Distinct,
}

-- No interface of the node uses the reader, and none waits for it.
pub record IsUnusedReader (g : Gid) (n : NodeInfo) : Type 0 where
  pub subs : Entries (λ k v. contains g v.readers ≡ false) n.msg_sub
  pub service_srvs : Entries (λ k v. service_srv_reads g v ≡ false) n.service_srv
  pub service_clis : Entries (λ k v. service_cli_reads g v ≡ false) n.service_cli
  pub action_srvs : Entries (λ k v. action_srv_reads g v ≡ false) n.action_srv
  pub action_clis : Entries (λ k v. action_cli_reads g v ≡ false) n.action_cli
  pub undiscovered : contains g n.undiscovered_reader ≡ false

abbrev pub ToldReader : Gid → NodeInfo → NodeInfo → Option Ros2DiscoveryEvent → Type 0
ToldReader g n n' none = IsUnusedReader g n'
ToldReader g n n' (some (undiscovered_msg_sub node v)) =
    (node ≡ fullname n)
    × ((old : MsgSub) × (lookup v.name n.msg_sub ≡ some old)
        × (contains g old.readers ≡ true)
        × (v ≡ record old { readers = [] }))
    × (lookup v.name n'.msg_sub ≡ none)
ToldReader g n n' (some (undiscovered_service_srv node v)) =
    IsGone (service_srv_reads g) n node n.service_srv n'.service_srv v
ToldReader g n n' (some (undiscovered_service_cli node v)) =
    IsGone (service_cli_reads g) n node n.service_cli n'.service_cli v
ToldReader g n n' (some (undiscovered_action_srv node v)) =
    IsGone (action_srv_reads g) n node n.action_srv n'.action_srv v
ToldReader g n n' (some (undiscovered_action_cli node v)) =
    IsGone (action_cli_reads g) n node n.action_cli n'.action_cli v
ToldReader g n n' (some _) = ⊥

abbrev pub RemovedReader : Gid → NodeInfo → Updated → Type 0
RemovedReader g n u = IsValid u.0 × ToldReader g n u.0 u.1

module _ (g : Gid) (n : NodeInfo) (valid : IsValid n) where
  abbrev after_release : NodeInfo
  after_release = record n { msg_sub = (release_reader g n.msg_sub).0 }

  told_msg_sub :
      (n' : NodeInfo) (o : Option MsgSub) (old : MsgSub)
      → o ≡ some (record old { readers = [] })
      → lookup old.name n.msg_sub ≡ some old
      → contains g old.readers ≡ true
      → lookup old.name n'.msg_sub ≡ none
      → ToldReader g n n' (event_of (undiscovered_msg_sub (fullname n)) o)
  told_msg_sub n' none old h held uses gone = cc
  told_msg_sub n' (some v) old h held uses gone =
      let v_is : v ≡ record old { readers = [] } = cc in
      let v_name : v.name ≡ old.name = ap (λ (x : MsgSub). x.name) v_is in
      (
        refl,
        (old, subst (λ (k : Text). lookup k n.msg_sub ≡ some old) (sym v_name) held, uses, v_is),
        subst (λ (k : Text). lookup k n'.msg_sub ≡ none) (sym v_name) gone,
      )

  emptied_lem :
      (k : Text)
      → (release_reader g n.msg_sub).1 ≡ some k
      → RemovedReader g n (drop_msg_sub after_release k)
  emptied_lem k h =
      let (old, held, uses, left, rest) = release_reader-some g n.msg_sub k valid.subs h in
      let named : old.name ≡ k = (Entries-lookup IsSubEntry k old n.msg_sub valid.subs.1 held).0 in
      (
        record {
          subs = (
            remove-Distinct k after_release.msg_sub
                (release_reader-Distinct g n.msg_sub valid.subs.0),
            Entries-remove_one (IsSubEntry) k after_release.msg_sub rest,
          );
          pubs = valid.pubs;
          service_srvs = valid.service_srvs;
          service_clis = valid.service_clis;
          action_srvs = valid.action_srvs;
          action_clis = valid.action_clis;
        },
        told_msg_sub (drop_msg_sub after_release k).0 (lookup k after_release.msg_sub) old left
            (subst (λ (j : Text). lookup j n.msg_sub ≡ some old) (sym named) held) uses
            (subst (λ (j : Text). lookup j (remove k after_release.msg_sub) ≡ none) (sym named)
              (lookup-remove_self k after_release.msg_sub)),
      )

  module _ (nothing : (release_reader g n.msg_sub).1 ≡ none) where
    released :
        Entries (λ k v. IsSubEntry k v × (contains g v.readers ≡ false)) after_release.msg_sub
    released = release_reader-none g n.msg_sub valid.subs.1 nothing

    after_release-IsValid : IsValid after_release
    after_release-IsValid = record {
      subs = (
        release_reader-Distinct g n.msg_sub valid.subs.0,
        Entries-imp _ IsSubEntry after_release.msg_sub (λ k v h. h.0) released,
      );
      pubs = valid.pubs;
      service_srvs = valid.service_srvs;
      service_clis = valid.service_clis;
      action_srvs = valid.action_srvs;
      action_clis = valid.action_clis;
    }

    found_service_srv :
        (k : Text)
        → find_key (service_srv_reads g) n.service_srv ≡ some k
        → RemovedReader g n (drop_service_srv after_release k)
    found_service_srv k h =
        let (v, held, gone) =
          find_key-IsGone (service_srv_reads g) n n.service_srv k valid.service_srvs h in
        (
          record {
            subs = after_release-IsValid.subs;
            pubs = valid.pubs;
            service_srvs = Table-remove IsNamed k n.service_srv valid.service_srvs;
            service_clis = valid.service_clis;
            action_srvs = valid.action_srvs;
            action_clis = valid.action_clis;
          },
          subst
              (λ (o : Option ServiceSrv).
                ToldReader g n (drop_service_srv after_release k).0
                  (event_of (undiscovered_service_srv (fullname n)) o))
              (sym held) gone,
        )

    found_service_cli :
        (k : Text)
        → find_key (service_cli_reads g) n.service_cli ≡ some k
        → RemovedReader g n (drop_service_cli after_release k)
    found_service_cli k h =
        let (v, held, gone) =
          find_key-IsGone (service_cli_reads g) n n.service_cli k valid.service_clis h in
        (
          record {
            subs = after_release-IsValid.subs;
            pubs = valid.pubs;
            service_srvs = valid.service_srvs;
            service_clis = Table-remove IsNamed k n.service_cli valid.service_clis;
            action_srvs = valid.action_srvs;
            action_clis = valid.action_clis;
          },
          subst
              (λ (o : Option ServiceCli).
                ToldReader g n (drop_service_cli after_release k).0
                  (event_of (undiscovered_service_cli (fullname n)) o))
              (sym held) gone,
        )

    found_action_srv :
        (k : Text)
        → find_key (action_srv_reads g) n.action_srv ≡ some k
        → RemovedReader g n (drop_action_srv after_release k)
    found_action_srv k h =
        let (v, held, gone) =
          find_key-IsGone (action_srv_reads g) n n.action_srv k valid.action_srvs h in
        (
          record {
            subs = after_release-IsValid.subs;
            pubs = valid.pubs;
            service_srvs = valid.service_srvs;
            service_clis = valid.service_clis;
            action_srvs = Table-remove IsNamed k n.action_srv valid.action_srvs;
            action_clis = valid.action_clis;
          },
          subst
              (λ (o : Option ActionSrv).
                ToldReader g n (drop_action_srv after_release k).0
                  (event_of (undiscovered_action_srv (fullname n)) o))
              (sym held) gone,
        )

    found_action_cli :
        (k : Text)
        → find_key (action_cli_reads g) n.action_cli ≡ some k
        → RemovedReader g n (drop_action_cli after_release k)
    found_action_cli k h =
        let (v, held, gone) =
          find_key-IsGone (action_cli_reads g) n n.action_cli k valid.action_clis h in
        (
          record {
            subs = after_release-IsValid.subs;
            pubs = valid.pubs;
            service_srvs = valid.service_srvs;
            service_clis = valid.service_clis;
            action_srvs = valid.action_srvs;
            action_clis = Table-remove IsNamed k n.action_cli valid.action_clis;
          },
          subst
              (λ (o : Option ActionCli).
                ToldReader g n (drop_action_cli after_release k).0
                  (event_of (undiscovered_action_cli (fullname n)) o))
              (sym held) gone,
        )

    unused_after :
        find_key (service_srv_reads g) n.service_srv ≡ none
        → find_key (service_cli_reads g) n.service_cli ≡ none
        → find_key (action_srv_reads g) n.action_srv ≡ none
        → find_key (action_cli_reads g) n.action_cli ≡ none
        → IsUnusedReader g
            (record after_release { undiscovered_reader = retain_others g n.undiscovered_reader })
    unused_after no_srv no_cli no_action_srv no_action_cli = record {
      subs =
          Entries-imp _ (λ k v. contains g v.readers ≡ false) after_release.msg_sub (λ k v h. h.1)
            released;
      service_srvs = find_key-none (service_srv_reads g) n.service_srv no_srv;
      service_clis = find_key-none (service_cli_reads g) n.service_cli no_cli;
      action_srvs = find_key-none (action_srv_reads g) n.action_srv no_action_srv;
      action_clis = find_key-none (action_cli_reads g) n.action_cli no_action_cli;
      undiscovered = contains-retain_others g n.undiscovered_reader;
    }

-- From a valid node `remove_reader` ends in a valid node. With an event, the event names the node and one
-- interface that used the reader (a subscriber, as its last endpoint) and that is stored no more; with no
-- event, no interface of the node uses the reader and none waits for it.
pub remove_reader-Removed :
    (g : Gid) (n : NodeInfo) → IsValid n → RemovedReader g n (remove_reader n g)
unfolding remove_reader
remove_reader-Removed g n valid =
    let P = RemovedReader g n in
    or_return_ind P _ _ _ (emptied_lem g n valid) λ none_emptied.
      or_return_ind P _ _ _ (found_service_srv g n valid none_emptied) λ no_srv.
        or_return_ind P _ _ _ (found_service_cli g n valid none_emptied) λ no_cli.
          or_return_ind P _ _ _ (found_action_srv g n valid none_emptied) λ no_action_srv.
            or_return_ind P _ _ _ (found_action_cli g n valid none_emptied) λ no_action_cli.
              let v = after_release-IsValid g n valid none_emptied in
              (
                record {
                  pubs = v.pubs;
                  subs = v.subs;
                  service_srvs = v.service_srvs;
                  service_clis = v.service_clis;
                  action_srvs = v.action_srvs;
                  action_clis = v.action_clis;
                },
                unused_after g n valid none_emptied no_srv no_cli no_action_srv no_action_cli,
              )
