-- ===== src/Observability/Exposed.antt =====
-- `Endpoint` of internal/observability/metrics.go: the values that it writes for `/metrics`, in the order
-- of the source; the order of a map's entries is the library's. The text of the values and the
-- quotes of the labels are the library's too.
use go_serve.Common.{
  ℕ, Option, none, some, List, [], ◌∷◌, ◌++◌, map, ℤ, pos, Str, bytes, str_eq, if◌then◌else◌,
}
use go_serve.ControlPlane.Version.{format_int}
use go_serve.Observability.{Metrics, RequestSeries}

pub record Sample : Type 0 where
  pub name : Str
  pub labels : List (Str × Str)
  pub value : ℤ

abbrev pub plain_sample : Str → ℤ → Sample
plain_sample name value = record { name = name; labels = []; value = value }

abbrev pub series_sample : RequestSeries × ℕ → Sample
series_sample (s, n) = record {
  name = bytes "go_serve_requests_by_route_total";
  labels =
      (bytes "route", s.route)
      ∷ (bytes "upstream", s.upstream)
      ∷ (bytes "method", s.method)
      ∷ (bytes "status", format_int (pos s.status))
      ∷ [];
  value = pos n;
}

abbrev pub outcome_sample : Str × ℕ → Sample
outcome_sample (outcome, n) = record {
  name = bytes "go_serve_auth_outcomes_total";
  labels = (bytes "outcome", outcome) ∷ [];
  value = pos n;
}

unfoldable pub expose : Metrics → List Sample
expose m =
    (plain_sample (bytes "go_serve_requests_total") (pos m.requests)
      ∷ plain_sample (bytes "go_serve_responses_total") (pos m.responses)
      ∷ plain_sample (bytes "go_serve_server_errors_total") (pos m.server_errors)
      ∷ plain_sample (bytes "go_serve_active_requests") m.active_requests
      ∷ plain_sample (bytes "go_serve_retries_total") (pos m.retries)
      ∷ plain_sample (bytes "go_serve_rejections_total") (pos m.rejections)
      ∷ plain_sample (bytes "go_serve_health_failures_total") (pos m.health_failures)
      ∷ plain_sample (bytes "go_serve_circuit_transitions_total") (pos m.circuit_changes)
      ∷ plain_sample (bytes "go_serve_config_activations_total") (pos m.activations)
      ∷ [])
    ++ map series_sample m.series
    ++ map outcome_sample m.auth_outcomes

-- The path decides between the samples and the next handler.
unfoldable pub metrics_endpoint : Str → Metrics → Option (List Sample)
unfolding expose
metrics_endpoint path m = if str_eq path (bytes "/metrics") then some (expose m) else none
