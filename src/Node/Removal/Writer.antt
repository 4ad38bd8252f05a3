-- ===== src/Node/Removal/Writer.antt =====
-- What `remove_writer` promises: the node stays valid, and either it tells which interface is gone with
-- the writer, or nothing uses the writer any more.
use zenoh_plugin_ros2dds.Base.{
  ◌≡◌, refl, sym, ap, subst, Text, true, false, Option, none, some, [], lookup, remove,
}
use zenoh_plugin_ros2dds.Base.Maps.Entries.{
  Entries, Entries-imp, Entries-lookup, remove-Distinct, Table-remove, Entries-remove_one,
  lookup-remove_self,
}
use zenoh_plugin_ros2dds.Gid.{Gid}
use zenoh_plugin_ros2dds.Interfaces.{MsgPub, ServiceSrv, ServiceCli, ActionSrv, ActionCli, contains}
use zenoh_plugin_ros2dds.Events.{
  Ros2DiscoveryEvent, undiscovered_msg_pub, undiscovered_service_srv, undiscovered_service_cli,
  undiscovered_action_srv, undiscovered_action_cli,
}
use zenoh_plugin_ros2dds.Node.{NodeInfo, fullname}
use zenoh_plugin_ros2dds.Node.Spec.{IsValid, IsPubEntry, IsNamed}
use zenoh_plugin_ros2dds.Node.Update.{Updated, event_of}
use zenoh_plugin_ros2dds.Node.Removal.{
  release_writer, find_key, retain_others, service_srv_writes, service_cli_writes,
  action_srv_writes, action_cli_writes, drop_msg_pub, drop_service_srv, drop_service_cli,
  drop_action_srv, drop_action_cli, remove_writer,
}
use zenoh_plugin_ros2dds.Node.Removal.Gone.{IsGone, find_key-IsGone, or_return_ind}
use zenoh_plugin_ros2dds.Node.Removal.Maps.{
  contains-retain_others, find_key-none, release_writer-none, release_writer-some,
  release_writer-Distinct,
}

-- No interface of the node uses the writer, and none waits for it.
pub record IsUnusedWriter (g : Gid) (n : NodeInfo) : Type 0 where
  pub pubs : Entries (λ k v. contains g v.writers ≡ false) n.msg_pub
  pub service_srvs : Entries (λ k v. service_srv_writes g v ≡ false) n.service_srv
  pub service_clis : Entries (λ k v. service_cli_writes g v ≡ false) n.service_cli
  pub action_srvs : Entries (λ k v. action_srv_writes g v ≡ false) n.action_srv
  pub action_clis : Entries (λ k v. action_cli_writes g v ≡ false) n.action_cli
  pub undiscovered : contains g n.undiscovered_writer ≡ false

abbrev pub ToldWriter : Gid → NodeInfo → NodeInfo → Option Ros2DiscoveryEvent → Type 0
ToldWriter g n n' none = IsUnusedWriter g n'
ToldWriter g n n' (some (undiscovered_msg_pub node v)) =
    (node ≡ fullname n)
    × ((old : MsgPub) × (lookup v.name n.msg_pub ≡ some old)
        × (contains g old.writers ≡ true)
        × (v ≡ record old { writers = [] }))
    × (lookup v.name n'.msg_pub ≡ none)
ToldWriter g n n' (some (undiscovered_service_srv node v)) =
    IsGone (service_srv_writes g) n node n.service_srv n'.service_srv v
ToldWriter g n n' (some (undiscovered_service_cli node v)) =
    IsGone (service_cli_writes g) n node n.service_cli n'.service_cli v
ToldWriter g n n' (some (undiscovered_action_srv node v)) =
    IsGone (action_srv_writes g) n node n.action_srv n'.action_srv v
ToldWriter g n n' (some (undiscovered_action_cli node v)) =
    IsGone (action_cli_writes g) n node n.action_cli n'.action_cli v
ToldWriter g n n' (some _) = ⊥

abbrev pub RemovedWriter : Gid → NodeInfo → Updated → Type 0
RemovedWriter g n u = IsValid u.0 × ToldWriter g n u.0 u.1

module _ (g : Gid) (n : NodeInfo) (valid : IsValid n) where
  abbrev after_release : NodeInfo
  after_release = record n { msg_pub = (release_writer g n.msg_pub).0 }

  told_msg_pub :
      (n' : NodeInfo) (o : Option MsgPub) (old : MsgPub)
      → o ≡ some (record old { writers = [] })
      → lookup old.name n.msg_pub ≡ some old
      → contains g old.writers ≡ true
      → lookup old.name n'.msg_pub ≡ none
      → ToldWriter g n n' (event_of (undiscovered_msg_pub (fullname n)) o)
  told_msg_pub n' none old h held uses gone = cc
  told_msg_pub n' (some v) old h held uses gone =
      let v_is : v ≡ record old { writers = [] } = cc in
      let v_name : v.name ≡ old.name = ap (λ (x : MsgPub). x.name) v_is in
      (
        refl,
        (old, subst (λ (k : Text). lookup k n.msg_pub ≡ some old) (sym v_name) held, uses, v_is),
        subst (λ (k : Text). lookup k n'.msg_pub ≡ none) (sym v_name) gone,
      )

  emptied_lem :
      (k : Text)
      → (release_writer g n.msg_pub).1 ≡ some k
      → RemovedWriter g n (drop_msg_pub after_release k)
  emptied_lem k h =
      let (old, held, uses, left, rest) = release_writer-some g n.msg_pub k valid.pubs h in
      let named : old.name ≡ k = (Entries-lookup IsPubEntry k old n.msg_pub valid.pubs.1 held).0 in
      (
        record {
          pubs = (
            remove-Distinct k after_release.msg_pub
                (release_writer-Distinct g n.msg_pub valid.pubs.0),
            Entries-remove_one (IsPubEntry) k after_release.msg_pub rest,
          );
          subs = valid.subs;
          service_srvs = valid.service_srvs;
          service_clis = valid.service_clis;
          action_srvs = valid.action_srvs;
          action_clis = valid.action_clis;
        },
        told_msg_pub (drop_msg_pub after_release k).0 (lookup k after_release.msg_pub) old left
            (subst (λ (j : Text). lookup j n.msg_pub ≡ some old) (sym named) held) uses
            (subst (λ (j : Text). lookup j (remove k after_release.msg_pub) ≡ none) (sym named)
              (lookup-remove_self k after_release.msg_pub)),
      )

  module _ (nothing : (release_writer g n.msg_pub).1 ≡ none) where
    released :
        Entries (λ k v. IsPubEntry k v × (contains g v.writers ≡ false)) after_release.msg_pub
    released = release_writer-none g n.msg_pub valid.pubs.1 nothing

    after_release-IsValid : IsValid after_release
    after_release-IsValid = record {
      pubs = (
        release_writer-Distinct g n.msg_pub valid.pubs.0,
        Entries-imp _ IsPubEntry after_release.msg_pub (λ k v h. h.0) released,
      );
      subs = valid.subs;
      service_srvs = valid.service_srvs;
      service_clis = valid.service_clis;
      action_srvs = valid.action_srvs;
      action_clis = valid.action_clis;
    }

    found_service_srv :
        (k : Text)
        → find_key (service_srv_writes g) n.service_srv ≡ some k
        → RemovedWriter g n (drop_service_srv after_release k)
    found_service_srv k h =
        let (v, held, gone) =
          find_key-IsGone (service_srv_writes g) n n.service_srv k valid.service_srvs h in
        (
          record {
            pubs = after_release-IsValid.pubs;
            subs = valid.subs;
            service_srvs = Table-remove IsNamed k n.service_srv valid.service_srvs;
            service_clis = valid.service_clis;
            action_srvs = valid.action_srvs;
            action_clis = valid.action_clis;
          },
          subst
              (λ (o : Option ServiceSrv).
                ToldWriter g n (drop_service_srv after_release k).0
                  (event_of (undiscovered_service_srv (fullname n)) o))
              (sym held) gone,
        )

    found_service_cli :
        (k : Text)
        → find_key (service_cli_writes g) n.service_cli ≡ some k
        → RemovedWriter g n (drop_service_cli after_release k)
    found_service_cli k h =
        let (v, held, gone) =
          find_key-IsGone (service_cli_writes g) n n.service_cli k valid.service_clis h in
        (
          record {
            pubs = after_release-IsValid.pubs;
            subs = valid.subs;
            service_srvs = valid.service_srvs;
            service_clis = Table-remove IsNamed k n.service_cli valid.service_clis;
            action_srvs = valid.action_srvs;
            action_clis = valid.action_clis;
          },
          subst
              (λ (o : Option ServiceCli).
                ToldWriter g n (drop_service_cli after_release k).0
                  (event_of (undiscovered_service_cli (fullname n)) o))
              (sym held) gone,
        )

    found_action_srv :
        (k : Text)
        → find_key (action_srv_writes g) n.action_srv ≡ some k
        → RemovedWriter g n (drop_action_srv after_release k)
    found_action_srv k h =
        let (v, held, gone) =
          find_key-IsGone (action_srv_writes g) n n.action_srv k valid.action_srvs h in
        (
          record {
            pubs = after_release-IsValid.pubs;
            subs = valid.subs;
            service_srvs = valid.service_srvs;
            service_clis = valid.service_clis;
            action_srvs = Table-remove IsNamed k n.action_srv valid.action_srvs;
            action_clis = valid.action_clis;
          },
          subst
              (λ (o : Option ActionSrv).
                ToldWriter g n (drop_action_srv after_release k).0
                  (event_of (undiscovered_action_srv (fullname n)) o))
              (sym held) gone,
        )

    found_action_cli :
        (k : Text)
        → find_key (action_cli_writes g) n.action_cli ≡ some k
        → RemovedWriter g n (drop_action_cli after_release k)
    found_action_cli k h =
        let (v, held, gone) =
          find_key-IsGone (action_cli_writes g) n n.action_cli k valid.action_clis h in
        (
          record {
            pubs = after_release-IsValid.pubs;
            subs = valid.subs;
            service_srvs = valid.service_srvs;
            service_clis = valid.service_clis;
            action_srvs = valid.action_srvs;
            action_clis = Table-remove IsNamed k n.action_cli valid.action_clis;
          },
          subst
              (λ (o : Option ActionCli).
                ToldWriter g n (drop_action_cli after_release k).0
                  (event_of (undiscovered_action_cli (fullname n)) o))
              (sym held) gone,
        )

    unused_after :
        find_key (service_srv_writes g) n.service_srv ≡ none
        → find_key (service_cli_writes g) n.service_cli ≡ none
        → find_key (action_srv_writes g) n.action_srv ≡ none
        → find_key (action_cli_writes g) n.action_cli ≡ none
        → IsUnusedWriter g
            (record after_release { undiscovered_writer = retain_others g n.undiscovered_writer })
    unused_after no_srv no_cli no_action_srv no_action_cli = record {
      pubs =
          Entries-imp _ (λ k v. contains g v.writers ≡ false) after_release.msg_pub (λ k v h. h.1)
            released;
      service_srvs = find_key-none (service_srv_writes g) n.service_srv no_srv;
      service_clis = find_key-none (service_cli_writes g) n.service_cli no_cli;
      action_srvs = find_key-none (action_srv_writes g) n.action_srv no_action_srv;
      action_clis = find_key-none (action_cli_writes g) n.action_cli no_action_cli;
      undiscovered = contains-retain_others g n.undiscovered_writer;
    }

-- From a valid node `remove_writer` ends in a valid node. With an event, the event names the node and one
-- interface that used the writer (a publisher, as its last endpoint) and that is stored no more; with no
-- event, no interface of the node uses the writer and none waits for it.
pub remove_writer-Removed :
    (g : Gid) (n : NodeInfo) → IsValid n → RemovedWriter g n (remove_writer n g)
unfolding remove_writer
remove_writer-Removed g n valid =
    let P = RemovedWriter g n in
    or_return_ind P _ _ _ (emptied_lem g n valid) λ none_emptied.
      or_return_ind P _ _ _ (found_service_srv g n valid none_emptied) λ no_srv.
        or_return_ind P _ _ _ (found_service_cli g n valid none_emptied) λ no_cli.
          or_return_ind P _ _ _ (found_action_srv g n valid none_emptied) λ no_action_srv.
            or_return_ind P _ _ _ (found_action_cli g n valid none_emptied) λ no_action_cli.
              let v = after_release-IsValid g n valid none_emptied in
              (
                record {
                  pubs = v.pubs;
                  subs = v.subs;
                  service_srvs = v.service_srvs;
                  service_clis = v.service_clis;
                  action_srvs = v.action_srvs;
                  action_clis = v.action_clis;
                },
                unused_after g n valid none_emptied no_srv no_cli no_action_srv no_action_cli,
              )
