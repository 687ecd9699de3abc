-- ===== src/Endpoint.antt =====
-- normalizeEndpoint of MultiNic/internal/controller/openstackconfig_controller.go, which the
-- reconciler applies to the three addresses of a CR.
pub mod Suffix
use multinic.Base.{String, not, if◌then◌else◌}
use multinic.Base.Strings.{concat, has_suffix, trim_suffix}

abbrev pub identity_endpoint_suffix : String
identity_endpoint_suffix = "/v3"

abbrev pub network_endpoint_suffix : String
network_endpoint_suffix = "/v2.0"

abbrev pub compute_endpoint_suffix : String
compute_endpoint_suffix = "/v2.1"

unfoldable pub normalize_endpoint : String → String → String
normalize_endpoint endpoint suffix =
    if not (has_suffix endpoint suffix) then concat (trim_suffix endpoint "/") suffix else endpoint
