-- ===== src/Observability/Signals.antt =====
-- The signals of a request, of internal/observability/metrics.go: what its context holds, none outside
-- of `Middleware`.
use go_serve.Common.{Bool, Option, none, some, [], Str, bytes, if◌then◌else◌}
use go_serve.Observability.{RequestSignals, bounded_label, add_u64}

-- `WithSignals`
unfoldable pub with_signals : RequestSignals
with_signals = record { route = []; upstream = []; auth_outcome = []; retries = 0; rejections = 0 }

unfoldable pub set_route : Str → Str → Option RequestSignals → Option RequestSignals
set_route route upstream none = none
set_route route upstream (some s) = some (record s { route = route; upstream = upstream })

unfoldable pub set_auth_outcome : Str → Option RequestSignals → Option RequestSignals
set_auth_outcome outcome none = none
set_auth_outcome outcome (some s) = some (record s { auth_outcome = outcome })

unfoldable pub add_retry : Option RequestSignals → Option RequestSignals
add_retry none = none
add_retry (some s) = some (record s { retries = add_u64 s.retries 1 })

unfoldable pub add_rejection : Option RequestSignals → Option RequestSignals
add_rejection none = none
add_rejection (some s) = some (record s { rejections = add_u64 s.rejections 1 })

-- `label`
unfoldable pub label : Option RequestSignals → Bool → Str
label none route = bytes "unknown"
label (some s) route = bounded_label (if route then s.route else s.upstream)
