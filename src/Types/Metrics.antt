-- ===== src/Types/Metrics.antt =====
-- SimpleMetrics. An int64 or a time.Duration is the number below 2 ^ 64 of its bits in two's
-- complement. Each method runs with the mutex, so it is one step.
pub mod Mean
use multinic.Base.{ℕ, ◌+◌, ◌-◌, ◌/◌, Bool, ◌&&◌, ltb, if◌then◌else◌}
use Prim.Native.Nat.{◌%◌}

-- 2 ^ 64, and 2 ^ 63, from where on the numbers are negative.
abbrev pub word : ℕ
word = 18446744073709551616

abbrev pub half : ℕ
half = 9223372036854775808

pub record SimpleMetrics : Type 0 where
  pub request_count : ℕ
  pub error_count : ℕ
  pub total_latency : ℕ

abbrev pub new_metrics : SimpleMetrics
new_metrics = record { request_count = 0; error_count = 0; total_latency = 0 }

unfoldable pub record_request : ℕ → SimpleMetrics → SimpleMetrics
record_request latency m = record m {
  request_count = (m.request_count + 1) % word;
  total_latency = (m.total_latency + latency) % word;
}

unfoldable pub record_error : SimpleMetrics → SimpleMetrics
record_error m = record m { error_count = (m.error_count + 1) % word }

-- Go's quotient by a positive number, which truncates towards 0.
unfoldable pub quotient : ℕ → ℕ → ℕ
quotient x y = if ltb x half then x / y else (word - (word - x) / y) % word

pub record Stats : Type 0 where
  pub requests : ℕ
  pub errors : ℕ
  pub avg_latency : ℕ

unfoldable pub get_stats : SimpleMetrics → Stats
unfolding quotient
get_stats m = record {
  requests = m.request_count;
  errors = m.error_count;
  avg_latency =
      if ltb 0 m.request_count && ltb m.request_count half
      then quotient m.total_latency m.request_count
      else 0;
}
