-- ===== src/Observability.antt =====
-- `Metrics` of internal/observability/metrics.go: its counters and the series of requests. A
-- request is two steps, `enter` and `leave`, which the steps of other requests may stand between;
-- the counters are atomic, and the map has its mutex.
pub mod Bounded
pub mod Writer
pub mod Signals
pub mod Exposed
use native.Mathlib.Decide.{ℕ_discrete}
use mathlib.Core.Bool.{decide, decide_iff}
use go_serve.Common.{
  ℕ, ◌+◌, ◌-◌, ◌%◌, ◌^◌, Bool, true, false, not, ◌&&◌, Option, none, some, List, [], ◌∷◌,
  if◌then◌else◌, ◌==◌, ltb, leb, ℤ, pos, negsuc, zero, suc, inc_i64, Str, bytes, is_empty,
  trim_space, length, take, is_some,
}
use go_serve.Common.Dict.{Eq, str_Eq, lookup, insert}

abbrev pub max_metric_series : ℕ
max_metric_series = 256

pub record RequestSeries : Type 0 where
  pub route : Str
  pub upstream : Str
  pub method : Str
  pub status : ℕ

pub RequestSeries-discrete : Discrete RequestSeries
RequestSeries-discrete = hlevel ℕ_discrete

instance abbrev pub series_Eq : Eq RequestSeries
series_Eq = record {
  beq = λ a b. decide (RequestSeries-discrete a b);
  beq_iff = λ a b. decide_iff (RequestSeries-discrete a b);
}

pub record RequestSignals : Type 0 where
  pub route : Str
  pub upstream : Str
  pub auth_outcome : Str
  pub retries : ℕ
  pub rejections : ℕ

pub record Metrics : Type 0 where
  pub requests : ℕ
  pub responses : ℕ
  pub server_errors : ℕ
  pub active_requests : ℤ
  pub retries : ℕ
  pub rejections : ℕ
  pub auth_outcomes : List (Str × ℕ)
  pub series : List (RequestSeries × ℕ)
  pub health_failures : ℕ
  pub circuit_changes : ℕ
  pub activations : ℕ
  pub config_version : ℤ
  pub node_identity : Str

-- `New`
unfoldable pub new_metrics : Metrics
new_metrics = record {
  requests = 0;
  responses = 0;
  server_errors = 0;
  active_requests = pos 0;
  retries = 0;
  rejections = 0;
  auth_outcomes = [];
  series = [];
  health_failures = 0;
  circuit_changes = 0;
  activations = 0;
  config_version = pos 0;
  node_identity = [];
}

-- `Add(n)` on a `uint64`
abbrev pub add_u64 : ℕ → ℕ → ℕ
add_u64 a n = (a + n) % 2 ^ 64

-- `Add(-1)` on an `int64`
unfoldable pub dec_i64 : ℤ → ℤ
dec_i64 (pos zero) = negsuc 0
dec_i64 (pos (suc n)) = pos n
dec_i64 (negsuc n) = if n == 2 ^ 63 - 1 then pos (2 ^ 63 - 1) else negsuc (n + 1)

unfoldable pub bounded_label : Str → Str
bounded_label value =
    let trimmed = trim_space value in
    if is_empty trimmed
    then bytes "unknown"
    else if ltb 64 (length trimmed)
    then take 64 trimmed
    else trimmed

-- What a missing key of a map of counters reads as.
abbrev pub value_of : Option ℕ → ℕ
value_of none = 0
value_of (some n) = n

unfoldable pub record_series : RequestSeries → List (RequestSeries × ℕ) → List (RequestSeries × ℕ)
record_series s series =
    if not (is_some (lookup s series)) && leb max_metric_series (length series)
    then series
    else insert s (add_u64 (value_of (lookup s series)) 1) series

-- The counter of an outcome, stored where there is none.
unfoldable pub count_outcome : Str → List (Str × ℕ) → List (Str × ℕ)
unfolding bounded_label
count_outcome outcome outcomes =
    if is_empty outcome
    then outcomes
    else insert (bounded_label outcome)
        (add_u64 (value_of (lookup (bounded_label outcome) outcomes)) 1) outcomes

-- What `Middleware` does before the handler.
unfoldable pub enter : Metrics → Metrics
enter m = record m { requests = add_u64 m.requests 1; active_requests = inc_i64 m.active_requests }

-- The status of a response whose handler wrote none.
abbrev pub or_200 : ℕ → ℕ
or_200 status = if status == 0 then 200 else status

-- The deferred function of `Middleware`, without its log line: `status` is what the writer holds.
unfoldable pub leave : Metrics → Str → ℕ → RequestSignals → Metrics
unfolding bounded_label dec_i64 record_series count_outcome
leave m method status signals = record m {
  active_requests = dec_i64 m.active_requests;
  responses = add_u64 m.responses 1;
  server_errors = if leb 500 (or_200 status) then add_u64 m.server_errors 1 else m.server_errors;
  series =
      record_series
        (record {
          route = bounded_label signals.route;
          upstream = bounded_label signals.upstream;
          method = bounded_label method;
          status = or_200 status;
        })
        m.series;
  retries = add_u64 m.retries signals.retries;
  rejections = add_u64 m.rejections signals.rejections;
  auth_outcomes = count_outcome signals.auth_outcome m.auth_outcomes;
}

unfoldable pub set_config_version : ℤ → Metrics → Metrics
set_config_version version m = record m { config_version = version }

unfoldable pub set_node_identity : Str → Metrics → Metrics
unfolding bounded_label
set_node_identity identity m = record m { node_identity = bounded_label identity }

unfoldable pub record_health_failure : Metrics → Metrics
record_health_failure m = record m { health_failures = add_u64 m.health_failures 1 }

unfoldable pub record_circuit_transition : Metrics → Metrics
record_circuit_transition m = record m { circuit_changes = add_u64 m.circuit_changes 1 }

unfoldable pub record_activation : Metrics → Metrics
record_activation m = record m { activations = add_u64 m.activations 1 }
