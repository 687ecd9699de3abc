-- ===== src/Types/Metrics/Mean.antt =====
-- What GetStats says after any calls of RecordRequest and RecordError.
use multinic.Base.{ℕ, ◌+◌, ◌*◌, ◌/◌, ◌≤◌, ◌<◌, ◌≡◌, ◌≢◌, refl, List, [], ◌∷◌, arith}
use native.Mathlib.Nat.{mod-eq_of_lt, div-add-mod', mod-lt, add-mul}
use multinic.Types.Metrics.{
  word, half, SimpleMetrics, new_metrics, record_request, record_error, get_stats, quotient,
}

pub data Recording : Type 0 where
  request : ℕ → Recording
  failure : Recording

abbrev call_one : Recording → SimpleMetrics → SimpleMetrics
call_one (request latency) m = record_request latency m
call_one failure m = record_error m

-- The calls of all goroutines, in the order in which they take the mutex.
unfoldable pub call_all : List Recording → SimpleMetrics → SimpleMetrics
call_all [] m = m
call_all (c ∷ cs) m = call_all cs (call_one c m)

-- The plain counts of the calls.
unfoldable pub requests_in : List Recording → ℕ
requests_in [] = 0
requests_in (request latency ∷ cs) = 1 + requests_in cs
requests_in (failure ∷ cs) = requests_in cs

unfoldable pub failures_in : List Recording → ℕ
failures_in [] = 0
failures_in (request latency ∷ cs) = failures_in cs
failures_in (failure ∷ cs) = 1 + failures_in cs

unfoldable pub latency_in : List Recording → ℕ
latency_in [] = 0
latency_in (request latency ∷ cs) = latency + latency_in cs
latency_in (failure ∷ cs) = latency_in cs

-- The sums stay below 2 ^ 63.
abbrev Fits : SimpleMetrics → List Recording → Type 0
Fits m cs =
    (m.request_count + requests_in cs < half)
    × (m.error_count + failures_in cs < half)
    × (m.total_latency + latency_in cs < half)

pub record Counted (m : SimpleMetrics) (cs : List Recording) (r : SimpleMetrics) : Type 0 where
  pub requests : r.request_count ≡ m.request_count + requests_in cs
  pub errors : r.error_count ≡ m.error_count + failures_in cs
  pub latency : r.total_latency ≡ m.total_latency + latency_in cs

call_all-Counted :
    (cs : List Recording) (m : SimpleMetrics) → Fits m cs → Counted m cs (call_all cs m)
unfolding call_all requests_in failures_in latency_in record_request record_error
call_all-Counted [] m f = ground arith
call_all-Counted (request latency ∷ cs) m f =
    let one = mod-eq_of_lt {n = m.request_count + 1} {m = word} (ground (arith, f)) in
    let sum = mod-eq_of_lt {n = m.total_latency + latency} {m = word} (ground (arith, f)) in
    let rest = call_all-Counted cs (record_request latency m) (ground (arith, f, one, sum)) in
    ground (arith, one, sum, rest.requests, rest.errors, rest.latency)
call_all-Counted (failure ∷ cs) m f =
    let one = mod-eq_of_lt {n = m.error_count + 1} {m = word} (ground (arith, f)) in
    let rest = call_all-Counted cs (record_error m) (ground (arith, f, one)) in
    ground (arith, one, rest.requests, rest.errors, rest.latency)

quotient_bounds :
    (x y : ℕ) → x < half → 0 < y → (quotient x y * y ≤ x) × (x < (quotient x y + 1) * y)
unfolding quotient
quotient_bounds x y h p = ground (arith, h, div-add-mod' x y, mod-lt x p, add-mul (x / y) 1 y)

-- After any calls of RecordRequest and RecordError from zero whose counts and whose sum of
-- latencies stay below 2 ^ 63, GetStats gives the number of requests, the number of errors and,
-- where there was a request, the mean latency rounded down; without one the mean is 0.
pub get_stats_mean :
    (cs : List Recording)
    → requests_in cs < half
    → failures_in cs < half
    → latency_in cs < half
    → let s = get_stats (call_all cs new_metrics) in
      (s.requests ≡ requests_in cs)
      × (s.errors ≡ failures_in cs)
      × (requests_in cs ≡ 0 → s.avg_latency ≡ 0)
      × (requests_in cs ≢ 0
          → (s.avg_latency * requests_in cs ≤ latency_in cs)
            × (latency_in cs < (s.avg_latency + 1) * requests_in cs))
unfolding get_stats
get_stats_mean cs r e l =
    let b = call_all-Counted cs new_metrics (omega arith, omega arith, omega arith) in
    let count : (call_all cs new_metrics).request_count ≡ requests_in cs =
      ground (arith, b.requests) in
    let errors : (call_all cs new_metrics).error_count ≡ failures_in cs =
      ground (arith, b.errors) in
    let total : (call_all cs new_metrics).total_latency ≡ latency_in cs =
      ground (arith, b.latency) in
    rw (count, total)
      (
        refl,
        errors,
        λ z. ground (arith, z),
        λ n.
            let mean = quotient_bounds (latency_in cs) (requests_in cs) l (omega arith) in
            ground (arith, n, r, mean),
      )
