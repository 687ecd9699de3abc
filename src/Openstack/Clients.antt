-- ===== src/Openstack/Clients.antt =====
-- The clients that createOpenStackClient makes for the endpoints of a CR.
use multinic.Base.{ℕ, zero, suc, ◌+◌, ◌≡◌, ◌≢◌, ◌∙◌, String, ok, arith, eq_iff}
use multinic.Endpoint.{normalize_endpoint}
use multinic.Endpoint.Suffix.{normalize_endpoint-ne-nil, normalize_endpoint_nil}
use multinic.Openstack.{
  Attempt, ServiceClient, create_rounds, create_openstack_client, openstack_max_retries,
}

create_rounds-endpoint :
    (answer : ℕ → Attempt) (endpoint client_type : String) (i left : ℕ) (c : ServiceClient)
    → endpoint ≢ ""
    → create_rounds answer endpoint client_type i left ≡ ok c
    → c.endpoint ≡ endpoint
unfolding create_rounds
create_rounds-endpoint answer endpoint client_type i zero c h e = cc
create_rounds-endpoint answer endpoint client_type i (suc left) c h e =
    ground
      (arith, eq_iff endpoint "", create_rounds-endpoint answer endpoint client_type (i + 1) left c)

-- A client that is made for an endpoint of a CR always has the normalised endpoint.
pub create_openstack_client-endpoint :
    (answer : ℕ → Attempt) (endpoint suffix client_type : String) (c : ServiceClient)
    → suffix ≢ ""
    → create_openstack_client answer (normalize_endpoint endpoint suffix) client_type ≡ ok c
    → c.endpoint ≡ normalize_endpoint endpoint suffix
unfolding create_openstack_client
create_openstack_client-endpoint answer endpoint suffix client_type c h e =
    create_rounds-endpoint answer (normalize_endpoint endpoint suffix) client_type 0
      openstack_max_retries c (normalize_endpoint-ne-nil endpoint suffix h) e

-- If a client is made for an endpoint that the CR leaves out, its endpoint is the bare suffix,
-- whatever the service catalogue says.
pub create_openstack_client_omitted :
    (answer : ℕ → Attempt) (suffix client_type : String) (c : ServiceClient)
    → suffix ≢ ""
    → create_openstack_client answer (normalize_endpoint "" suffix) client_type ≡ ok c
    → c.endpoint ≡ suffix
create_openstack_client_omitted answer suffix client_type c h e =
    create_openstack_client-endpoint answer "" suffix client_type c h e
    ∙ normalize_endpoint_nil suffix h
