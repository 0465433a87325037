-- ===== src/Examples/Answers.antt =====
-- The endpoints of a control plane without a cluster, a writer, and a proxied request.
use go_serve.Common.{
  ℕ, ◌+◌, ◌≡◌, refl, true, false, Option, none, some, List, [], ◌∷◌, arith, All, Returns, bytes,
}
use go_serve.Config.{Config}
use go_serve.Observability.{or_200}
use go_serve.Observability.Writer.{Call, write_header, write, flush, new_writer, run_calls}
use go_serve.Observability.Writer.Agreeing.{received, run_calls-received}
use go_serve.ControlPlane.Cluster.{Controller}
use go_serve.ControlPlane.Endpoints.{endpoints}
use go_serve.ControlPlane.Endpoints.Reading.{OnlyReads, endpoints-OnlyReads}
use go_serve.Dataplane.Pool.{UpstreamPool, pick}
use go_serve.Dataplane.Retry.{Request, Reply}
use go_serve.Dataplane.Retry.Laws.{IsBounded}
use go_serve.Dataplane.Director.{transport_of, exchange}
use go_serve.Dataplane.Director.Consent.{IsConsented, exchange-IsConsented}
use go_serve.Examples.{url_parse, pool_of, endpoint, breaker}

abbrev activate : ℕ → Config → ℕ × Option ℕ
activate n c = (n + 1, none)

abbrev no_cluster : Option (Controller ℕ ℕ ℕ)
no_cluster = none

endpoints-OnlyReads_example : All (OnlyReads url_parse activate no_cluster) endpoints
endpoints-OnlyReads_example = endpoints-OnlyReads url_parse activate no_cluster

abbrev calls : List Call
calls = write_header 404 ∷ write ∷ flush ∷ []

run_calls-received_example :
    or_200 (run_calls calls new_writer).status ≡ received (run_calls calls new_writer).sent
run_calls-received_example = run_calls-received calls (omega arith, tt)

abbrev pool : UpstreamPool
pool = pool_of (true ∷ []) (endpoint ∷ []) (breaker ∷ [])

abbrev fetch : Request
fetch = record { method = bytes "GET"; has_body = false; get_body = none }

abbrev replies : ℕ → Reply
replies n = record { response = some 503; error = none }

abbrev clock : ℕ → ℕ
clock n = n

exchange-IsConsented_example :
    Returns
      (λ e.
        IsConsented clock pool 1 e
        × IsBounded (transport_of (pick clock pool).0 true) fetch replies e.sent)
      (exchange clock pool true 1 fetch replies clock)
exchange-IsConsented_example =
    exchange-IsConsented clock pool true 1 fetch replies clock (omega arith) refl
