-- ===== src/Operator/Quantities.antt =====
-- getDatabaseResourceRequirements and getControllerResourceRequirements. resource.MustParse is a
-- parameter: the canonical text of the quantity, or nothing where it panics.
use multinic.Base.{String, not, [], ◌∷◌, Option, some, ◌==◌, if◌then◌else◌}
use multinic.Base.Options.{◌>>=◌}
use multinic.Api.Operator.{ResourceConfig}
use multinic.Cluster.Objects.{Quantity, ResourceRequirements}

-- resource.MustParse.
abbrev pub MustParse : Type 0
MustParse = String → Option Quantity

-- The request and the limit of one resource: the configured text for both, or their defaults.
unfoldable pub request_and_limit :
    MustParse → String → String → String → Option (Quantity × Quantity)
request_and_limit must_parse configured request limit =
    if not (configured == "")
    then (do q ← must_parse configured; some (q, q))
    else (do r ← must_parse request; l ← must_parse limit; some (r, l))

unfoldable pub get_database_resource_requirements :
    MustParse → ResourceConfig → Option ResourceRequirements
unfolding request_and_limit
get_database_resource_requirements must_parse config = do
  cpu ← request_and_limit must_parse config.cpu "100m" "500m"
  memory ← request_and_limit must_parse config.memory "128Mi" "512Mi"
  some (record {
    requests = ("cpu", cpu.0) ∷ ("memory", memory.0) ∷ [];
    limits = ("cpu", cpu.1) ∷ ("memory", memory.1) ∷ [];
  })

unfoldable pub get_controller_resource_requirements :
    MustParse → ResourceConfig → Option ResourceRequirements
unfolding request_and_limit
get_controller_resource_requirements must_parse config = do
  cpu ← request_and_limit must_parse config.cpu "10m" "500m"
  memory ← request_and_limit must_parse config.memory "64Mi" "128Mi"
  some (record {
    requests = ("cpu", cpu.0) ∷ ("memory", memory.0) ∷ [];
    limits = ("cpu", cpu.1) ∷ ("memory", memory.1) ∷ [];
  })
