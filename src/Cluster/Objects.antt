-- ===== src/Cluster/Objects.antt =====
-- The specifications of StatefulSets, Deployments and Services, as far as the builders of
-- MultiNic/internal/controller/multinicoperator_helpers.go write them. A quantity is its canonical
-- text; a pointer field is an `Option`; an empty list stands for an absent one.
use multinic.Base.{ℕ, String, Bool, List, Option}
use multinic.Base.Int.{ℤ}
use multinic.Base.Dict.{Dict}

abbrev pub Quantity : Type 0
Quantity = String

pub record EnvVar : Type 0 where
  pub name : String
  pub value : String

pub record ContainerPort : Type 0 where
  pub container_port : ℕ
  pub name : String
  pub protocol : String

pub record VolumeMount : Type 0 where
  pub name : String
  pub mount_path : String

pub record SecurityContext : Type 0 where
  pub allow_privilege_escalation : Bool
  pub read_only_root_filesystem : Bool
  pub drop : List String
  pub add : List String

pub data ProbeHandler : Type 0 where
  exec : List String → ProbeHandler
  http_get : (path : String) (port : ℕ) (scheme : String) → ProbeHandler

pub record Probe : Type 0 where
  pub handler : ProbeHandler
  pub initial_delay_seconds : ℕ
  pub period_seconds : ℕ
  pub timeout_seconds : ℕ
  pub failure_threshold : ℕ

pub record ResourceRequirements : Type 0 where
  pub requests : Dict Quantity
  pub limits : Dict Quantity

pub record Container : Type 0 where
  pub name : String
  pub image : String
  pub image_pull_policy : String
  pub command : List String
  pub args : List String
  pub env : List EnvVar
  pub ports : List ContainerPort
  pub volume_mounts : List VolumeMount
  pub security_context : SecurityContext
  pub liveness_probe : Option Probe
  pub readiness_probe : Option Probe
  pub startup_probe : Option Probe
  pub resources : ResourceRequirements

pub record PodSecurityContext : Type 0 where
  pub run_as_non_root : Option Bool
  pub run_as_user : Option ℕ
  pub fs_group : Option ℕ

-- The volumes are the names of empty directories.
pub record PodTemplate : Type 0 where
  pub labels : Dict String
  pub service_account_name : String
  pub security_context : PodSecurityContext
  pub containers : List Container
  pub volumes : List String

pub record VolumeClaim : Type 0 where
  pub name : String
  pub access_modes : List String
  pub requests : Dict Quantity

-- StatefulSetSpec and DeploymentSpec: a Deployment has no service name and no volume claims.
pub record WorkloadSpec : Type 0 where
  pub service_name : String
  pub replicas : Option ℤ
  pub selector : Dict String
  pub template : PodTemplate
  pub volume_claim_templates : List VolumeClaim

-- intstr.IntOrString
pub data TargetPort : Type 0 where
  from_int : ℤ → TargetPort
  from_string : String → TargetPort

pub record ServicePort : Type 0 where
  pub name : String
  pub port : ℤ
  pub target_port : TargetPort
  pub node_port : ℤ
  pub protocol : String

pub record ServiceSpec : Type 0 where
  pub selector : Dict String
  pub ports : List ServicePort
  pub type : String
  pub cluster_ip : String

pub data Spec : Type 0 where
  workload : WorkloadSpec → Spec
  service : ServiceSpec → Spec
