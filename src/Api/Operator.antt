-- ===== src/Api/Operator.antt =====
-- MultiNic/api/v1alpha1/multinicoperator_types.go: the MultiNicOperator resource. An int32 is an
-- integer, a generation a natural number.
use multinic.Base.{ℕ, String, Bool, List, Option}
use multinic.Base.Int.{ℤ}
use multinic.Api.{Time, ReconcileTriggerConfig}

pub record ResourceConfig : Type 0 where
  pub cpu : String
  pub memory : String

pub record HealthProbeConfig : Type 0 where
  pub port : ℤ
  pub path : String

pub record ControllerConfig : Type 0 where
  pub image : String
  pub replicas : ℤ
  pub resources : ResourceConfig
  pub health_probe : HealthProbeConfig

pub record DbCredentials : Type 0 where
  pub root_password : String
  pub database : String
  pub user : String
  pub password : String

pub record ServiceConfig : Type 0 where
  pub type : String
  pub node_port : ℤ
  pub port : ℤ

pub record DatabaseConfig : Type 0 where
  pub enabled : Bool
  pub image : String
  pub storage_size : String
  pub resources : ResourceConfig
  pub credentials : DbCredentials
  pub service : ServiceConfig

pub record OpenStackConfig : Type 0 where
  pub identity_endpoint : String
  pub network_endpoint : String
  pub compute_endpoint : String

pub record ProtectionConfig : Type 0 where
  pub enable_mutation_prevention : Bool
  pub enable_auto_recovery : Bool
  pub allowed_operations : List String

pub record MultiNicOperatorSpec : Type 0 where
  pub controller : ControllerConfig
  pub database : DatabaseConfig
  pub openstack : OpenStackConfig
  pub protection : ProtectionConfig
  pub reconcile_trigger : ReconcileTriggerConfig

pub record ComponentStatus : Type 0 where
  pub phase : String
  pub ready_replicas : ℤ
  pub desired_replicas : ℤ
  pub last_updated : Time

pub record ProtectionStatus : Type 0 where
  pub active : Bool
  pub prevented_mutations : ℤ
  pub last_protection_event : Time

-- metav1.Condition
pub record Condition : Type 0 where
  pub type : String
  pub status : String
  pub reason : String
  pub message : String
  pub last_transition_time : Time

pub record MultiNicOperatorStatus : Type 0 where
  pub phase : String
  pub message : String
  pub last_updated : Time
  pub observed_generation : ℕ
  pub controller_status : ComponentStatus
  pub database_status : ComponentStatus
  pub protection_status : ProtectionStatus
  pub conditions : List Condition

-- The object with the metadata that the operator uses.
pub record MultiNicOperator : Type 0 where
  pub name : String
  pub namespace : String
  pub generation : ℕ
  pub deletion_timestamp : Option Time
  pub finalizers : List String
  pub spec : MultiNicOperatorSpec
  pub status : MultiNicOperatorStatus
