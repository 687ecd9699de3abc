-- ===== src/Reconcile/Environment.antt =====
-- What a reconcile pass gets from outside (the API server, OpenStack, MariaDB, the clock) and the
-- state that it works on. Each field of `Environment` is the answer to one kind of call.
use multinic.Base.{ℕ, String, Bool, false, List, Option, Result}
use multinic.Base.Int.{ℤ}
use multinic.Api.{Time, OpenstackConfig}
use multinic.Database.{Tables}
use multinic.Connection.{Connection, Ensure}
use multinic.Trigger.{OperatorList}
use multinic.Openstack.{ServiceClient, Server, Network, Subnet, Fetch, Attempt, PortAnswer}

-- The structure that calculateCRHash marshals.
pub record SpecData : Type 0 where
  pub auth_url : String
  pub username : String
  pub password : String
  pub project_id : String
  pub domain_name : String
  pub network_endpoint : String
  pub compute_endpoint : String
  pub vm_names : List String
  pub subnet_name : String

pub data Statement : Type 0 where
  select_state insert_state update_state : Statement
  begin_tx delete_interfaces delete_state insert_subnet insert_nodes insert_interfaces : Statement
  commit : Statement

pub record Environment : Type 0 where
  -- ensureDBConnectionWithRetry
  pub getenv : String → String
  pub ensure : ℕ → Ensure
  pub cancelled : ℕ → Bool
  -- json.Marshal and sha256
  pub digest : SpecData → Result String String
  pub parse_duration : String → Option ℤ
  -- the server's failures, beside refusals by a constraint
  pub sql : Statement → Option String
  pub ping_after : Option String
  -- Kubernetes: listing, reading, writing
  pub operators : OperatorList
  pub get_error : Option String
  pub update : OpenstackConfig → Result String (Option OpenstackConfig)
  pub update_status : OpenstackConfig → Option String
  -- controllerutil
  pub contains_finalizer : List String → String → Bool
  pub add_finalizer : List String → String → List String
  pub remove_finalizer : List String → String → List String
  -- OpenStack
  pub network_rounds : ℕ → Attempt
  pub compute_rounds : ℕ → Attempt
  pub servers : ServiceClient → Fetch (List Server)
  pub networks : ServiceClient → ℕ → Fetch (List Network)
  pub subnets : ServiceClient → ℕ → String → Fetch (List Subnet)
  pub port_rounds : String → ℕ → Attempt
  pub ports : ServiceClient → String → PortAnswer
  -- time.Now and metav1.Now
  pub modified_at : Time
  pub now : Time

-- The reconciler's handle, the database and the object in the API server.
pub record World : Type 0 where
  pub connection : Connection
  pub db : Tables
  pub object : Option OpenstackConfig

-- ctrl.Result
pub record Requeue : Type 0 where
  pub requeue : Bool
  pub requeue_after : ℕ

abbrev pub after : ℕ → Requeue
after d = record { requeue = false; requeue_after = d }

-- How a pass ends: without an error, with one, or by a panic.
pub data Outcome : Type 0 where
  done : Requeue → Outcome
  failed : Requeue → String → Outcome
  panicked : Outcome

abbrev pub finalizer_name : String
finalizer_name = "multinic.example.com/finalizer"
