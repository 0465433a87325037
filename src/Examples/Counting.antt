-- ===== src/Examples/Counting.antt =====
-- Metrics of two requests that overlap.
use go_serve.Common.{ℕ, List, [], ◌∷◌, arith, bytes}
use go_serve.Observability.{RequestSeries, series_Eq, RequestSignals, new_metrics}
use go_serve.Observability.Bounded.{Step, began, ended, run, Counts, IsWord, run-Counts}

abbrev s : RequestSeries
s = record { route = bytes "api"; upstream = bytes "app"; method = bytes "GET"; status = 200 }

abbrev none_yet : List (RequestSeries × ℕ)
none_yet = []

abbrev signals : RequestSignals
signals = record {
  route = bytes "api";
  upstream = bytes "app";
  auth_outcome = [];
  retries = 0;
  rejections = 0;
}

abbrev steps : List Step
steps = began ∷ began ∷ ended (bytes "GET") 502 signals ∷ ended (bytes "GET") 0 signals ∷ []

fresh : IsWord new_metrics
unfolding new_metrics
fresh = record {
  requests = omega arith;
  responses = omega arith;
  errors = omega arith;
  bounded = omega arith;
}

run-Counts_example : Counts new_metrics steps (run new_metrics steps)
run-Counts_example = run-Counts new_metrics steps fresh
