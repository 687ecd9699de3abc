-- ===== src/Api.antt =====
-- MultiNic/api/v1alpha1: the custom resources. Kubernetes metadata is cut to the fields that the
-- controllers read or write; a time is a number of nanoseconds, nil is `none`.
pub mod Operator
use multinic.Base.{ℕ, String, Bool, List, Option}

abbrev pub Time : Type 0
Time = ℕ

-- OpenStackCredentials (openstackconfig_types.go)
pub record OpenStackCredentials : Type 0 where
  pub auth_url : String
  pub username : String
  pub password : String
  pub project_id : String
  pub domain_name : String
  pub network_endpoint : String
  pub compute_endpoint : String

pub record OpenstackConfigSpec : Type 0 where
  pub subnet_name : String
  pub vm_names : List String
  pub credentials : OpenStackCredentials

pub record VmNetworkInfo : Type 0 where
  pub vm_name : String
  pub subnet_id : String
  pub network_id : String
  pub ip_address : String
  pub mac_address : String
  pub status : String
  pub message : String

pub record OpenstackConfigStatus : Type 0 where
  pub status : String
  pub last_updated : Time
  pub message : String
  pub vm_network_infos : List VmNetworkInfo

-- The object with the metadata that the controller uses.
pub record OpenstackConfig : Type 0 where
  pub namespace : String
  pub name : String
  pub creation_timestamp : Time
  pub deletion_timestamp : Option Time
  pub finalizers : List String
  pub spec : OpenstackConfigSpec
  pub status : OpenstackConfigStatus

-- ReconcileTriggerConfig (multinicoperator_types.go)
pub record ReconcileTriggerConfig : Type 0 where
  pub mode : String
  pub schedule : String
  pub interval : String
  pub immediate_on_cr_change : Bool
  pub timezone : String
