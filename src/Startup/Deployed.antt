-- ===== src/Startup/Deployed.antt =====
-- The program in the container that the operator builds for it.
use multinic.Base.{
  ◌≡◌, refl, ◌∙◌, ap, sym, subst, String, true, List, [], ◌∷◌, Option, none, some, arith, any,
}
use mathlib.Core.Option.{some_inj}
use multinic.Base.Int.{pos, decimal}
use multinic.Base.Options.{>>=-eq-some}
use multinic.Base.Strings.{concat}
use multinic.Api.Operator.{MultiNicOperator}
use multinic.Cluster.{Resource}
use multinic.Cluster.Objects.{Container, Probe, http_get, workload, service}
use multinic.Operator.Quantities.{MustParse, get_controller_resource_requirements}
use multinic.Operator.Credentials.{build_controller_env_vars}
use multinic.Operator.Workloads.{build_controller_deployment, controller_spec, controller_container}
use multinic.Operator.Handover.{Carries, container_env, controller_env}
use multinic.Startup.Arguments.{Flags, ZapFlags, parsed, parse_flags, default_flags}
use multinic.Startup.{
  Launch, served, Controller, openstack_config, ManagerOptions, main, start_mode, run_manager,
  controller_options,
}

deployed_flags :
    (zap : ZapFlags)
    → parse_flags zap
        ("--health-probe-bind-address=:8082" ∷ "--metrics-bind-address=:8080" ∷ "--leader-elect"
          ∷ [])
        default_flags
      ≡ parsed (record default_flags { enable_leader_election = true })
unfolding parse_flags any
deployed_flags zap = refl

-- The first container of a workload.
abbrev pub first_container : Resource → Option Container
first_container r = elim r.spec [
  | workload w ↦ elim w.template.containers [ [] ↦ none | ◌∷◌ c cs ↦ some c ]
  | service s ↦ none
]

-- Nothing fails on the way to a running manager.
pub record IsSound (l : Launch) : Type 0 where
  pub config : l.config_fault ≡ none
  pub manager : (o : ManagerOptions) → l.manager_fault o ≡ none
  pub setup : (c : Controller) → l.setup_fault c ≡ none
  pub healthz : l.healthz_fault ≡ none
  pub readyz : l.readyz_fault ≡ none
  pub start : l.start_fault ≡ none

deployed_options : ManagerOptions
deployed_options = record {
  metrics_bind_address = ":8080";
  health_probe_bind_address = ":8082";
  leader_election = true;
  leader_election_id = "multinic-controller.example.com";
}

run_manager-served :
    (l : Launch) (c : Controller) (o : ManagerOptions) → IsSound l → run_manager l c o ≡ served c o
unfolding run_manager
run_manager-served l c o s =
    ground (arith, s.config, s.manager o, s.setup c, s.healthz, s.readyz, s.start)

main_parsed :
    (l : Launch) (getenv : String → String) (args : List String) (f : Flags)
    → parse_flags l.zap_flags args default_flags ≡ parsed f
    → main l getenv args ≡ start_mode l getenv f
unfolding main
main_parsed l getenv args f h = rw (h, main) refl

start_mode-controller :
    (l : Launch) (getenv : String → String) (f : Flags)
    → getenv "CONTROLLER_MODE" ≡ "true"
    → start_mode l getenv f ≡ run_manager l openstack_config (controller_options f)
unfolding start_mode
start_mode-controller l getenv f h = rw (h) refl

-- The container that is built runs the OpenstackConfig controller with leader election, and the
-- addresses its manager listens on are those of its probes.
pub record Serves (l : Launch) (getenv : String → String) (c : Container) : Type 0 where
  pub options : ManagerOptions
  pub liveness : Probe
  pub readiness : Probe
  pub ends : main l getenv c.args ≡ served openstack_config options
  pub elects : options.leader_election ≡ true
  pub has_liveness : c.liveness_probe ≡ some liveness
  pub has_readiness : c.readiness_probe ≡ some readiness
  pub live_at : liveness.handler ≡ http_get "/healthz" 8082 "HTTP"
  pub ready_at : readiness.handler ≡ http_get "/readyz" 8082 "HTTP"
  pub listens : options.health_probe_bind_address ≡ concat ":" (decimal (pos 8082))

-- Where nothing fails on the way, the program, started with the arguments and the environment of the
-- container that the operator builds, serves the OpenstackConfig controller with leader election, and
-- listens for probes at the port that the container's probes ask.
pub main-Serves :
    (must_parse : MustParse) (operator : MultiNicOperator) (d : Resource) (l : Launch)
    (getenv : String → String)
    → build_controller_deployment must_parse operator ≡ some d
    → Carries getenv (container_env d)
    → IsSound l
    → (c : Container) × (first_container d ≡ some c) × Serves l getenv c
unfolding build_controller_deployment controller_spec controller_container deployed_options decimal
    controller_options build_controller_env_vars
main-Serves must_parse operator d l getenv built carried sound =
    let (q, _, made) =
      >>=-eq-some
        (get_controller_resource_requirements must_parse operator.spec.controller.resources) _
        built in
    let mode : getenv "CONTROLLER_MODE" ≡ "true" =
      (subst (Carries getenv) (controller_env must_parse operator d built) carried).0 in
    (
      controller_container operator q,
      ap first_container (sym (some_inj.0 made)),
      record {
        options = deployed_options;
        liveness = _;
        readiness = _;
        ends =
            main_parsed l getenv _ _ (deployed_flags l.zap_flags)
            ∙ start_mode-controller l getenv _ mode
            ∙ run_manager-served l openstack_config deployed_options sound;
        elects = refl;
        has_liveness = refl;
        has_readiness = refl;
        live_at = refl;
        ready_at = refl;
        listens = refl;
      },
    )
