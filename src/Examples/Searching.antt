-- ===== src/Examples/Searching.antt =====
-- Searches in OpenStack's answers.
use multinic.Base.{◌≡◌, ◌≢◌, refl, [], ◌∷◌, ok, any, eq_iff, arith}
use multinic.Endpoint.{normalize_endpoint, network_endpoint_suffix}
use multinic.Endpoint.Suffix.{normalize_endpoint_nil}
use multinic.Openstack.{
  ServiceClient, Port, get_subnet_info_with_clients, first_port, create_openstack_client,
  authenticated, openstack_max_retries,
}
use multinic.Openstack.Search.{seen, first, named, found_or_error, get_subnet_info_lem}
use multinic.Openstack.Clients.{create_openstack_client_omitted}
use multinic.Examples.Data.{environment, client}

get_subnet_info_lem_example :
    get_subnet_info_with_clients (environment.networks client) (environment.subnets client) "net-a"
    ≡ found_or_error (
        first (
          named "net-a" (
            seen
              (environment.networks client)
              (environment.subnets client)
              0
              openstack_max_retries)))
get_subnet_info_lem_example =
    get_subnet_info_lem (environment.networks client) (environment.subnets client) "net-a"

abbrev port_elsewhere : Port
port_elsewhere = record { id = "port-3"; mac_address = "m"; fixed_ips = [] }

abbrev port_there : Port
port_there = record {
  id = "port-4";
  mac_address = "m";
  fixed_ips = record { subnet_id = "sub-a"; ip_address = "" } ∷ [];
}

port_found : first_port "sub-a" (port_elsewhere ∷ port_there ∷ []) ≡ "port-4"
unfolding first_port any
port_found = refl

suffix_not_empty : network_endpoint_suffix ≢ ""
suffix_not_empty = λ e. ground (arith, eq_iff network_endpoint_suffix "", e)

abbrev omitted_client : ServiceClient
omitted_client = record client { endpoint = network_endpoint_suffix }

omitted_made :
    create_openstack_client
      (λ i. authenticated (ok client))
      (normalize_endpoint "" network_endpoint_suffix)
      "network"
    ≡ ok omitted_client
unfolding create_openstack_client
omitted_made = rw (normalize_endpoint_nil network_endpoint_suffix suffix_not_empty) refl

create_openstack_client_omitted_example : omitted_client.endpoint ≡ network_endpoint_suffix
create_openstack_client_omitted_example =
    create_openstack_client_omitted (λ i. authenticated (ok client)) network_endpoint_suffix
      "network" omitted_client suffix_not_empty omitted_made
