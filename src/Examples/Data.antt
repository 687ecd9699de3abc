-- ===== src/Examples/Data.antt =====
-- A cluster with one CR, one VM and one subnet, and surroundings in which every call succeeds.
use multinic.Base.{false, [], ◌∷◌, ◌++◌, none, some, ok, any, keep, not, ◌==◌}
use multinic.Api.{OpenStackCredentials, OpenstackConfig, VmNetworkInfo}
use multinic.Database.{InterfaceRow, Tables}
use multinic.Openstack.{
  ServiceClient, text, attributes, listed, Server, Network, Subnet, decoded, authenticated,
  answered,
}
use multinic.Collect.{Context, interface_row, subnet_row, node_row, initial_info, note_mac}
use multinic.Connection.{Connection, Connect, Ensure}
use multinic.Reconcile.Environment.{Environment, World, finalizer_name}

abbrev pub vm : Server
vm = record {
  id = "srv-1";
  name = "vm-1";
  access_ipv4 = "192.0.2.10";
  addresses =
      listed (
        attributes (record {
          ip_type = text "fixed";
          mac_addr = text "fa:16:3e:00:00:01";
          port = text "port-1";
        })
        ∷ [])
      ∷ [];
}

abbrev pub subnet_a : Subnet
subnet_a = record { id = "sub-a"; name = "net-a"; cidr = "10.0.0.0/24"; network_id = "nw-1" }

abbrev pub network_one : Network
network_one = record { id = "nw-1"; name = "one" }

abbrev pub credentials : OpenStackCredentials
credentials = record {
  auth_url = "https://cloud.example:5000";
  username = "admin";
  password = "secret";
  project_id = "p";
  domain_name = "d";
  network_endpoint = "https://cloud.example:9696";
  compute_endpoint = "https://cloud.example:8774";
}

abbrev pub config : OpenstackConfig
config = record {
  namespace = "team";
  name = "alpha";
  creation_timestamp = 3;
  deletion_timestamp = none;
  finalizers = finalizer_name ∷ [];
  spec = record { subnet_name = "net-a"; vm_names = "vm-1" ∷ []; credentials = credentials };
  status = record { status = ""; last_updated = 0; message = ""; vm_network_infos = [] };
}

abbrev pub context : Context
context = record {
  cr_namespace = "team";
  cr_name = "alpha";
  subnet = subnet_a;
  created_at = 3;
  modified_at = 7;
  find_port = λ mac. ok "port-9";
}

abbrev pub gathered_row : InterfaceRow
gathered_row = interface_row context vm "port-1" "fa:16:3e:00:00:01"

abbrev pub gathered_info : VmNetworkInfo
gathered_info = note_mac "fa:16:3e:00:00:01" (initial_info context vm)

-- Rows of another CR, and an old row and state of this one.
abbrev pub foreign_row : InterfaceRow
foreign_row = record gathered_row { port_id = "port-7"; cr_name = "beta" }

abbrev pub old_row : InterfaceRow
old_row = record gathered_row { port_id = "port-0" }

abbrev pub tables : Tables
tables = record {
  multi_subnet = [];
  node_table = [];
  multi_interface = foreign_row ∷ old_row ∷ [];
  cr_state = record { cr_namespace = "team"; cr_name = "alpha"; spec_hash = "old" } ∷ [];
}

abbrev pub stored_tables : Tables
stored_tables = record tables {
  multi_subnet = subnet_row context ∷ [];
  node_table = node_row context vm ∷ [];
  multi_interface = foreign_row ∷ gathered_row ∷ [];
}

abbrev pub connect : Connect
connect = record { sql_open = λ dsn. none; ping = none; exec = λ table. none }

abbrev pub ensure : Ensure
ensure = record { connect = connect; ping = none; reconnect = connect }

abbrev pub client : ServiceClient
client = record { endpoint = "https://catalogue.example"; token_id = "t" }

abbrev pub environment : Environment
environment = record {
  getenv = λ key. "";
  ensure = λ i. ensure;
  cancelled = λ i. false;
  digest = λ d. ok d.subnet_name;
  parse_duration = λ s. none;
  sql = λ s. none;
  ping_after = none;
  operators = ok [];
  get_error = none;
  update = λ cr. ok (some cr);
  update_status = λ cr. none;
  contains_finalizer = λ fs f. any (λ g. g == f) fs;
  add_finalizer = λ fs f. fs ++ f ∷ [];
  remove_finalizer = λ fs f. keep (λ g. not (g == f)) fs;
  network_rounds = λ i. authenticated (ok client);
  compute_rounds = λ i. authenticated (ok client);
  servers = λ c. decoded (vm ∷ []);
  networks = λ c i. decoded (network_one ∷ []);
  subnets = λ c i n. decoded (subnet_a ∷ []);
  port_rounds = λ mac i. authenticated (ok client);
  ports = λ c mac. answered 200 (ok []);
  modified_at = 7;
  now = 9;
}

abbrev pub connection : Connection
connection = record {
  db = some 0;
  db_config = none;
  next_pool = 1;
  open_pools = 0 ∷ [];
  tables = [];
}

abbrev pub world : World
world = record { connection = connection; db = tables; object = some config }
