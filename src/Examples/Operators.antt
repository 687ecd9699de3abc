-- ===== src/Examples/Operators.antt =====
-- An operator's object with and without a database, and the surroundings of its passes: a server
-- that stores what it is sent.
use multinic.Base.{Bool, true, false, [], ◌∷◌, none, some, ok, any, keep, not, ◌==◌, if◌then◌else◌}
use multinic.Base.Int.{pos}
use multinic.Api.Operator.{
  MultiNicOperator, MultiNicOperatorStatus, DatabaseConfig, ResourceConfig, ComponentStatus,
}
use multinic.Protection.{Round, Polls, Removals}
use multinic.Operator.Surroundings.{Surroundings, Exchange}
use multinic.Operator.Loop.{operator_finalizer}

abbrev default_resources : ResourceConfig
default_resources = record { cpu = ""; memory = "" }

abbrev database_of : Bool → ResourceConfig → DatabaseConfig
database_of enabled resources = record {
  enabled = enabled;
  image = "";
  storage_size = "";
  resources = resources;
  credentials = record { root_password = ""; database = ""; user = ""; password = "" };
  service = record { type = ""; node_port = pos 0; port = pos 0 };
}

abbrev no_component : ComponentStatus
no_component = record {
  phase = "";
  ready_replicas = pos 0;
  desired_replicas = pos 0;
  last_updated = 0;
}

abbrev no_status : MultiNicOperatorStatus
no_status = record {
  phase = "";
  message = "";
  last_updated = 0;
  observed_generation = 0;
  controller_status = no_component;
  database_status = no_component;
  protection_status = record {
    active = false;
    prevented_mutations = pos 0;
    last_protection_event = 0;
  };
  conditions = [];
}

abbrev pub operator_with : DatabaseConfig → MultiNicOperator
operator_with database = record {
  name = "op";
  namespace = "multinic-system";
  generation = 1;
  deletion_timestamp = none;
  finalizers = operator_finalizer ∷ [];
  spec = record {
    controller = record {
      image = "";
      replicas = pos 0;
      resources = default_resources;
      health_probe = record { port = pos 0; path = "" };
    };
    database = database;
    openstack = record { identity_endpoint = ""; network_endpoint = ""; compute_endpoint = "" };
    protection = record {
      enable_mutation_prevention = false;
      enable_auto_recovery = false;
      allowed_operations = [];
    };
    reconcile_trigger = record {
      mode = "";
      schedule = "";
      interval = "";
      immediate_on_cr_change = false;
      timezone = "";
    };
  };
  status = no_status;
}

abbrev pub with_database : MultiNicOperator
with_database = operator_with (database_of true default_resources)

abbrev pub without_database : MultiNicOperator
without_database = operator_with (database_of false default_resources)

abbrev pub with_new_password : MultiNicOperator
with_new_password = operator_with (record (database_of true default_resources) {
  credentials = record { root_password = ""; database = ""; user = ""; password = "changed" };
})

-- The CPU is written with a comma.
abbrev pub with_bad_cpu : MultiNicOperator
with_bad_cpu = operator_with (database_of true (record { cpu = "0,5"; memory = "" }))

abbrev pub sound_round : Round
sound_round = record { get_fault = none; update_fault = none }

abbrev pub polls : Polls
polls = record {
  stateful_set = sound_round ∷ [];
  deployment = sound_round ∷ [];
  service = sound_round ∷ [];
}

abbrev pub removals : Removals
removals = record { stateful_set = sound_round; service = sound_round; deployment = sound_round }

-- What the server is sent it stores, and the pods are ready at once.
abbrev pub storing : Exchange
storing = record {
  reference_fault = none;
  get_fault = none;
  write = λ r. ok (record r { ready_replicas = pos 1 });
}

abbrev pub surroundings : Surroundings
surroundings = record {
  must_parse = λ s. if s == "0,5" then none else some s;
  get_error = none;
  update = λ operator. ok (some operator);
  status_fault = none;
  contains_finalizer = λ fs f. any (λ g. g == f) fs;
  add_finalizer = λ fs f. f ∷ fs;
  remove_finalizer = λ fs f. keep (λ g. not (g == f)) fs;
  stateful_set = storing;
  service = storing;
  deployment = storing;
  database_fault = none;
  controller_fault = none;
  polls = polls;
  removals = removals;
  database_check = 1;
  controller_check = 2;
  now = 3;
}
