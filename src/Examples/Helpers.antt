-- ===== src/Examples/Helpers.antt =====
-- The cache, the retries and the metrics.
use multinic.Base.{
  ℕ, ◌+◌, ◌-◌, ◌*◌, ◌≤◌, ◌<◌, ◌≡◌, ◌≢◌, refl, String, List, [], ◌∷◌, Option, none, some, arith, ltb,
  eqb, if◌then◌else◌,
}
use multinic.Base.Int.{pos}
use multinic.Types.Cache.{SimpleMemoryCache, set, get}
use multinic.Types.Cache.Freshness.{Call, set_call, get_call, tick, run_all, get-set}
use multinic.Types.Retry.{execute}
use multinic.Types.Retry.Outcome.{execute_contract}
use multinic.Types.Metrics.{word, half, new_metrics, record_request, get_stats}
use multinic.Types.Metrics.Mean.{
  Recording, request, failure, call_all, requests_in, failures_in, latency_in, get_stats_mean,
}

abbrev token_cache : SimpleMemoryCache ℕ
token_cache = record { cache = []; ttl = 10 }

abbrev traffic : List (Call ℕ)
traffic = set_call 3 "b" 8 ∷ get_call 4 "a" ∷ tick 5 ("a" ∷ "b" ∷ []) ∷ []

get-set_example :
    (get 9 "a" (run_all traffic (set 2 "a" 7 token_cache))).0
    ≡ (if ltb 9 (2 + token_cache.ttl) then some 7 else none)
get-set_example =
    get-set 2 9 "a" 7 traffic token_cache ((omega arith, refl), (omega arith, (omega arith, tt)))

-- The first two calls fail.
abbrev third_time : ℕ → Option String
third_time i = if eqb i 2 then none else some "refused"

abbrev patient : ℕ → Option String
patient i = none

execute_contract_example :
    let r = execute (record { max_retries = pos 3 }) third_time patient in
    (r.1 ≤ 3 + 1)
    × (r.0 ≡ none → (j : ℕ) × (r.1 ≡ j + 1) × (third_time j ≡ none))
    × (((k : ℕ) → patient k ≡ none) → (j : ℕ) → j ≤ 3 → third_time j ≡ none → r.0 ≡ none)
execute_contract_example = execute_contract 3 third_time patient

abbrev measured : List Recording
measured = request 4 ∷ failure ∷ request 5 ∷ []

measured_fits :
    (requests_in measured < half) × (failures_in measured < half) × (latency_in measured < half)
unfolding requests_in failures_in latency_in
measured_fits = (omega arith, omega arith, omega arith)

get_stats_mean_example :
    let s = get_stats (call_all measured new_metrics) in
    (s.requests ≡ requests_in measured)
    × (s.errors ≡ failures_in measured)
    × (requests_in measured ≡ 0 → s.avg_latency ≡ 0)
    × (requests_in measured ≢ 0
        → (s.avg_latency * requests_in measured ≤ latency_in measured)
          × (latency_in measured < (s.avg_latency + 1) * requests_in measured))
get_stats_mean_example = get_stats_mean measured measured_fits.0 measured_fits.1 measured_fits.2

-- Latencies whose sum passes 2 ^ 63 have a mean of -2 ^ 62.
sum_wraps :
    (get_stats (call_all (request (half - 1) ∷ request 1 ∷ []) new_metrics)).avg_latency
    ≡ word - 4611686018427387904
unfolding get_stats call_all record_request
sum_wraps = refl
