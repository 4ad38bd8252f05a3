-- ===== src/Node/Update/Keeps.antt =====
-- Every update keeps what `Spec` promises, for each of the six maps of a node.
use zenoh_plugin_ros2dds.Base.{
  ◌≡◌, ◌≢◌, refl, inl, Text, true, Option, none, some, Map, lookup, arith,
}
use zenoh_plugin_ros2dds.Interfaces.{
  ServiceSrv, ServiceCli, ActionSrv, ActionCli, Interface, Endpoints, service_srv_endpoints,
  service_cli_endpoints, action_srv_endpoints, action_cli_endpoints,
}
use zenoh_plugin_ros2dds.Events.{
  Ros2DiscoveryEvent, discovered_service_srv, discovered_service_cli, discovered_action_srv,
  discovered_action_cli,
}
use zenoh_plugin_ros2dds.Node.{NodeInfo, fullname}
use zenoh_plugin_ros2dds.Node.Slots.{is_complete}
use zenoh_plugin_ros2dds.Node.Slots.Laws.{Outcome}
use zenoh_plugin_ros2dds.Node.Slots.Outcomes.{Outcome-IsNamed, Outcome-stored, Outcome-missed}
use zenoh_plugin_ros2dds.Node.Spec.{IsValid, Announces, NoneMissed, Keeps}
use zenoh_plugin_ros2dds.Node.Update.{
  event_of, on_service_srv, on_service_cli, on_action_srv, on_action_cli,
}

some_ne_none {ℓ} : {A : Type ℓ} {o : Option A} {a : A} → o ≡ some a → o ≢ none
some_ne_none h k = cc

module _ {E : Type 0} ⦃e : Endpoints E⦄ where
  unchanged :
      (event : Interface E → Ros2DiscoveryEvent) (m : Map (Interface E))
      (result : Option Ros2DiscoveryEvent)
      → NoneMissed event m m result
  unchanged event m result k v h c = inl h

  missed :
      (event : Interface E → Ros2DiscoveryEvent) (name : Text) (m m' : Map (Interface E))
      (result : Option (Interface E))
      → Outcome name m (m', result)
      → NoneMissed event m m' (event_of event result)
  missed event name m m' result out k v h c =
      ground (arith, Outcome-missed name m m' result out k v)

module _ (n : NodeInfo) (valid : IsValid n) where
  Announces-service_srv :
      (n' : NodeInfo) (result : Option ServiceSrv)
      → ((v : ServiceSrv)
          → result ≡ some v
          → (lookup v.name n'.service_srv ≡ some v) × (is_complete v ≡ true))
      → Announces n' (event_of (discovered_service_srv (fullname n')) result)
  Announces-service_srv n' none h = tt
  Announces-service_srv n' (some v) h = (refl, (h v refl).0, (h v refl).1)

  pub on_service_srv-Keeps :
      (name : Text) (m : Map ServiceSrv) (result : Option ServiceSrv)
      → Outcome name n.service_srv (m, result)
      → Keeps n (on_service_srv n (m, result))
  on_service_srv-Keeps name m result out = record {
    valid = record {
      pubs = valid.pubs;
      subs = valid.subs;
      service_srvs = Outcome-IsNamed name n.service_srv m result valid.service_srvs out;
      service_clis = valid.service_clis;
      action_srvs = valid.action_srvs;
      action_clis = valid.action_clis;
    };
    announces =
        Announces-service_srv (record n { service_srv = m }) result
          (Outcome-stored name n.service_srv m result out);
    announced = record {
      pubs = λ k v h. inl (some_ne_none h);
      subs = λ k v h. inl (some_ne_none h);
      service_srvs = missed (discovered_service_srv (fullname n)) name n.service_srv m result out;
      service_clis =
          unchanged (discovered_service_cli (fullname n)) n.service_cli
            (event_of (discovered_service_srv (fullname n)) result);
      action_srvs =
          unchanged (discovered_action_srv (fullname n)) n.action_srv
            (event_of (discovered_service_srv (fullname n)) result);
      action_clis =
          unchanged (discovered_action_cli (fullname n)) n.action_cli
            (event_of (discovered_service_srv (fullname n)) result);
    };
    same = record {
      id = refl;
      fullname_lem = refl;
      undiscovered_reader = refl;
      undiscovered_writer = refl;
    };
  }

  Announces-service_cli :
      (n' : NodeInfo) (result : Option ServiceCli)
      → ((v : ServiceCli)
          → result ≡ some v
          → (lookup v.name n'.service_cli ≡ some v) × (is_complete v ≡ true))
      → Announces n' (event_of (discovered_service_cli (fullname n')) result)
  Announces-service_cli n' none h = tt
  Announces-service_cli n' (some v) h = (refl, (h v refl).0, (h v refl).1)

  pub on_service_cli-Keeps :
      (name : Text) (m : Map ServiceCli) (result : Option ServiceCli)
      → Outcome name n.service_cli (m, result)
      → Keeps n (on_service_cli n (m, result))
  on_service_cli-Keeps name m result out = record {
    valid = record {
      pubs = valid.pubs;
      subs = valid.subs;
      service_srvs = valid.service_srvs;
      service_clis = Outcome-IsNamed name n.service_cli m result valid.service_clis out;
      action_srvs = valid.action_srvs;
      action_clis = valid.action_clis;
    };
    announces =
        Announces-service_cli (record n { service_cli = m }) result
          (Outcome-stored name n.service_cli m result out);
    announced = record {
      pubs = λ k v h. inl (some_ne_none h);
      subs = λ k v h. inl (some_ne_none h);
      service_srvs =
          unchanged (discovered_service_srv (fullname n)) n.service_srv
            (event_of (discovered_service_cli (fullname n)) result);
      service_clis = missed (discovered_service_cli (fullname n)) name n.service_cli m result out;
      action_srvs =
          unchanged (discovered_action_srv (fullname n)) n.action_srv
            (event_of (discovered_service_cli (fullname n)) result);
      action_clis =
          unchanged (discovered_action_cli (fullname n)) n.action_cli
            (event_of (discovered_service_cli (fullname n)) result);
    };
    same = record {
      id = refl;
      fullname_lem = refl;
      undiscovered_reader = refl;
      undiscovered_writer = refl;
    };
  }

  Announces-action_srv :
      (n' : NodeInfo) (result : Option ActionSrv)
      → ((v : ActionSrv)
          → result ≡ some v
          → (lookup v.name n'.action_srv ≡ some v) × (is_complete v ≡ true))
      → Announces n' (event_of (discovered_action_srv (fullname n')) result)
  Announces-action_srv n' none h = tt
  Announces-action_srv n' (some v) h = (refl, (h v refl).0, (h v refl).1)

  pub on_action_srv-Keeps :
      (name : Text) (m : Map ActionSrv) (result : Option ActionSrv)
      → Outcome name n.action_srv (m, result)
      → Keeps n (on_action_srv n (m, result))
  on_action_srv-Keeps name m result out = record {
    valid = record {
      pubs = valid.pubs;
      subs = valid.subs;
      service_srvs = valid.service_srvs;
      service_clis = valid.service_clis;
      action_srvs = Outcome-IsNamed name n.action_srv m result valid.action_srvs out;
      action_clis = valid.action_clis;
    };
    announces =
        Announces-action_srv (record n { action_srv = m }) result
          (Outcome-stored name n.action_srv m result out);
    announced = record {
      pubs = λ k v h. inl (some_ne_none h);
      subs = λ k v h. inl (some_ne_none h);
      service_srvs =
          unchanged (discovered_service_srv (fullname n)) n.service_srv
            (event_of (discovered_action_srv (fullname n)) result);
      service_clis =
          unchanged (discovered_service_cli (fullname n)) n.service_cli
            (event_of (discovered_action_srv (fullname n)) result);
      action_srvs = missed (discovered_action_srv (fullname n)) name n.action_srv m result out;
      action_clis =
          unchanged (discovered_action_cli (fullname n)) n.action_cli
            (event_of (discovered_action_srv (fullname n)) result);
    };
    same = record {
      id = refl;
      fullname_lem = refl;
      undiscovered_reader = refl;
      undiscovered_writer = refl;
    };
  }

  Announces-action_cli :
      (n' : NodeInfo) (result : Option ActionCli)
      → ((v : ActionCli)
          → result ≡ some v
          → (lookup v.name n'.action_cli ≡ some v) × (is_complete v ≡ true))
      → Announces n' (event_of (discovered_action_cli (fullname n')) result)
  Announces-action_cli n' none h = tt
  Announces-action_cli n' (some v) h = (refl, (h v refl).0, (h v refl).1)

  pub on_action_cli-Keeps :
      (name : Text) (m : Map ActionCli) (result : Option ActionCli)
      → Outcome name n.action_cli (m, result)
      → Keeps n (on_action_cli n (m, result))
  on_action_cli-Keeps name m result out = record {
    valid = record {
      pubs = valid.pubs;
      subs = valid.subs;
      service_srvs = valid.service_srvs;
      service_clis = valid.service_clis;
      action_srvs = valid.action_srvs;
      action_clis = Outcome-IsNamed name n.action_cli m result valid.action_clis out;
    };
    announces =
        Announces-action_cli (record n { action_cli = m }) result
          (Outcome-stored name n.action_cli m result out);
    announced = record {
      pubs = λ k v h. inl (some_ne_none h);
      subs = λ k v h. inl (some_ne_none h);
      service_srvs =
          unchanged (discovered_service_srv (fullname n)) n.service_srv
            (event_of (discovered_action_cli (fullname n)) result);
      service_clis =
          unchanged (discovered_service_cli (fullname n)) n.service_cli
            (event_of (discovered_action_cli (fullname n)) result);
      action_srvs =
          unchanged (discovered_action_srv (fullname n)) n.action_srv
            (event_of (discovered_action_cli (fullname n)) result);
      action_clis = missed (discovered_action_cli (fullname n)) name n.action_cli m result out;
    };
    same = record {
      id = refl;
      fullname_lem = refl;
      undiscovered_reader = refl;
      undiscovered_writer = refl;
    };
  }

pub unchanged-Keeps : (n : NodeInfo) → IsValid n → Keeps n (n, none)
unchanged-Keeps n valid = record {
  valid = valid;
  announces = tt;
  announced = record {
    pubs = λ k v h. inl (some_ne_none h);
    subs = λ k v h. inl (some_ne_none h);
    service_srvs = λ k v h c. inl h;
    service_clis = λ k v h c. inl h;
    action_srvs = λ k v h c. inl h;
    action_clis = λ k v h c. inl h;
  };
  same = record {
    id = refl;
    fullname_lem = refl;
    undiscovered_reader = refl;
    undiscovered_writer = refl;
  };
}
