-- ===== src/Config.antt =====
-- `Allowance` of zenoh-plugin-ros2dds/src/config.rs: the interfaces that the configuration allows or
-- denies. `R` is the type of compiled regular expressions, of another crate.
use zenoh_plugin_ros2dds.Base.{Text, Bool, true, false, not, Option, none, some}

pub record Regex (R : Type 0) : Type 0 where
  pub is_match : R → Text → Bool

pub record Ros2InterfacesRegex (R : Type 0) : Type 0 where
  pub publishers : Option R
  pub subscribers : Option R
  pub service_servers : Option R
  pub service_clients : Option R
  pub action_servers : Option R
  pub action_clients : Option R

pub data Allowance (R : Type 0) : Type 0 where
  allow : Ros2InterfacesRegex R → Allowance R
  deny : Ros2InterfacesRegex R → Allowance R

module _ {R : Type 0} ⦃x : Regex R⦄ where
  -- Without an expression, an allowance allows nothing and a denial denies nothing.
  abbrev pub is_allowed_by : (Ros2InterfacesRegex R → Option R) → Allowance R → Text → Bool
  is_allowed_by field (allow r) name = elim (field r) [
    | none ↦ false
    | some re ↦ x.is_match re name
  ]
  is_allowed_by field (deny r) name = elim (field r) [
    | none ↦ true
    | some re ↦ not (x.is_match re name)
  ]

  abbrev pub is_publisher_allowed : Allowance R → Text → Bool
  is_publisher_allowed = is_allowed_by (λ r. r.publishers)

  abbrev pub is_subscriber_allowed : Allowance R → Text → Bool
  is_subscriber_allowed = is_allowed_by (λ r. r.subscribers)

  abbrev pub is_service_srv_allowed : Allowance R → Text → Bool
  is_service_srv_allowed = is_allowed_by (λ r. r.service_servers)

  abbrev pub is_service_cli_allowed : Allowance R → Text → Bool
  is_service_cli_allowed = is_allowed_by (λ r. r.service_clients)

  abbrev pub is_action_srv_allowed : Allowance R → Text → Bool
  is_action_srv_allowed = is_allowed_by (λ r. r.action_servers)

  abbrev pub is_action_cli_allowed : Allowance R → Text → Bool
  is_action_cli_allowed = is_allowed_by (λ r. r.action_clients)
