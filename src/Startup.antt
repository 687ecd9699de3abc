-- ===== src/Startup.antt =====
-- MultiNic/cmd/main.go: the flags, the choice between the operator and the controller, and the
-- manager. The answers of controller-runtime and the flags of its zap package are arguments; HTTP/2,
-- which the managers do not use, and the loggers are left out.
pub mod Arguments
pub mod Deployed
use multinic.Base.{
  ℕ, String, Bool, true, false, List, [], ◌∷◌, Option, none, some, ◌==◌, if◌then◌else◌,
}
use multinic.Startup.Arguments.{Flags, ZapFlags, Parsed, parsed, exited, parse_flags, default_flags}

pub data Controller : Type 0 where
  multi_nic_operator openstack_config : Controller

-- ctrl.Options
pub record ManagerOptions : Type 0 where
  pub metrics_bind_address : String
  pub health_probe_bind_address : String
  pub leader_election : Bool
  pub leader_election_id : String

-- The answers to GetConfig, NewManager, SetupWithManager, the two AddCheck calls and Start.
pub record Launch : Type 0 where
  pub zap_flags : ZapFlags
  pub config_fault : Option String
  pub manager_fault : ManagerOptions → Option String
  pub setup_fault : Controller → Option String
  pub healthz_fault : Option String
  pub readyz_fault : Option String
  pub start_fault : Option String

-- The exit status, or the manager that ran until it was stopped.
pub data End : Type 0 where
  exits : ℕ → End
  served : Controller → ManagerOptions → End

-- `if err != nil { setupLog.Error(...); os.Exit(1) }`
unfoldable pub or_exit : Option String → End → End
or_exit none rest = rest
or_exit (some e) rest = exits 1

unfoldable pub run_manager : Launch → Controller → ManagerOptions → End
unfolding or_exit
run_manager l controller options = or_exit l.config_fault (
    or_exit (l.manager_fault options) (
      or_exit (l.setup_fault controller) (
        or_exit l.healthz_fault
          (or_exit l.readyz_fault (or_exit l.start_fault (served controller options))))))

unfoldable pub operator_options : Flags → ManagerOptions
operator_options f = record {
  metrics_bind_address = f.metrics_addr;
  health_probe_bind_address = f.probe_addr;
  leader_election = false;
  leader_election_id = "";
}

unfoldable pub controller_options : Flags → ManagerOptions
controller_options f = record {
  metrics_bind_address = f.metrics_addr;
  health_probe_bind_address = f.probe_addr;
  leader_election = f.enable_leader_election;
  leader_election_id = "multinic-controller.example.com";
}

unfoldable pub start_mode : Launch → (String → String) → Flags → End
unfolding run_manager operator_options controller_options
start_mode l getenv f =
    if getenv "CONTROLLER_MODE" == ""
    then run_manager l multi_nic_operator (operator_options f)
    else run_manager l openstack_config (controller_options f)

unfoldable pub main : Launch → (String → String) → List String → End
unfolding start_mode parse_flags
main l getenv args = elim (parse_flags l.zap_flags args default_flags) [
  | exited code ↦ exits code
  | parsed f ↦ start_mode l getenv f
]
