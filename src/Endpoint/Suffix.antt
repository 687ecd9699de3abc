-- ===== src/Endpoint/Suffix.antt =====
-- What a normalised endpoint looks like (normalizeEndpoint).
use multinic.Base.{String, ◌≡◌, ◌≢◌, refl, true, arith, inl, inr, Bool-cases}
use multinic.Base.Strings.{
  has_suffix, trim_suffix, has_suffix-append, has_suffix_nil, concat-ne-nil,
}
use text.Mathlib.TextLemmas.{nil-append}
use multinic.Endpoint.{normalize_endpoint}

-- A normalised endpoint ends in the suffix, and normalising it again changes nothing.
normalize_endpoint_stable :
    (endpoint suffix : String)
    → (has_suffix (normalize_endpoint endpoint suffix) suffix ≡ true)
      × (normalize_endpoint (normalize_endpoint endpoint suffix) suffix
          ≡ normalize_endpoint endpoint suffix)
unfolding normalize_endpoint
normalize_endpoint_stable endpoint suffix =
    ground (arith, has_suffix-append (trim_suffix endpoint "/") suffix)

-- An endpoint that the CR leaves out is normalised to the bare suffix, never to the empty text.
pub normalize_endpoint-ne-nil :
    (endpoint suffix : String) → suffix ≢ "" → normalize_endpoint endpoint suffix ≢ ""
unfolding normalize_endpoint
normalize_endpoint-ne-nil endpoint suffix h e = elim (Bool-cases (has_suffix endpoint suffix)) [
  | inl found ↦ h (has_suffix_nil endpoint suffix (rw (found, normalize_endpoint) at e) found)
  | inr missing ↦
      concat-ne-nil (trim_suffix endpoint "/") suffix h (rw (missing, normalize_endpoint) at e)
]

pub normalize_endpoint_nil : (suffix : String) → suffix ≢ "" → normalize_endpoint "" suffix ≡ suffix
unfolding normalize_endpoint
normalize_endpoint_nil suffix h = elim (Bool-cases (has_suffix "" suffix)) [
  | inl found ↦ absurd (h (has_suffix_nil "" suffix refl found))
  | inr missing ↦ rw (missing, normalize_endpoint) (unfold trim_suffix in nil-append suffix)
]
