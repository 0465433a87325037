-- ===== src/Entry/Counting.antt =====
-- `metrics.Middleware(publicHandler)` of cmd/server/main.go: what the metrics count of a request that the
-- data plane handles. `status` is what its response was written with.
use go_serve.Common.{
  ℕ, ◌≡◌, refl, ap, ◌∙◌, inl, inr, ◌⊎◌, Bool, Option, none, some, List, Str, zero, suc, leb,
  if◌then◌else◌,
}
use go_serve.Dataplane.Compile.{RuntimeState}
use go_serve.Dataplane.Headers.{Header}
use go_serve.Dataplane.Routing.{CompiledRoute}
use go_serve.Dataplane.Handler.{Incoming, Handled, forwarded, handle}
use go_serve.Dataplane.Handler.Counted.{handle-IsCounted}
use go_serve.Observability.{Metrics, RequestSignals, enter, leave, add_u64, dec_i64, or_200}
use go_serve.Observability.Signals.{
  with_signals, set_route, set_auth_outcome, add_retry, add_rejection,
}

abbrev pub set_signal : Option (Str × Str) → Option RequestSignals → Option RequestSignals
set_signal none s = s
set_signal (some (route, upstream)) s = set_route route upstream s

abbrev pub add_rejections : ℕ → Option RequestSignals → Option RequestSignals
add_rejections zero s = s
add_rejections (suc n) s = add_rejections n (add_rejection s)

abbrev pub set_outcome : Option Str → Option RequestSignals → Option RequestSignals
set_outcome none s = s
set_outcome (some outcome) s = set_auth_outcome outcome s

abbrev pub add_retries : ℕ → Option RequestSignals → Option RequestSignals
add_retries zero s = s
add_retries (suc n) s = add_retries n (add_retry s)

-- The signals that are left in the request's context: `outcome` is what the authorizer set, if it was
-- asked, and `retries` counts the calls of `AddRetry` by the transport behind the proxy.
unfoldable pub signals_of : Option Str → ℕ → Handled → Option RequestSignals
unfolding set_route add_rejection with_signals set_auth_outcome add_retry
signals_of outcome retries h =
    add_retries retries
      (add_rejections h.rejections (set_outcome outcome (set_signal h.signal (some with_signals))))

-- The deferred function; without signals it counts no more than the response.
unfoldable pub leave_with : Metrics → Str → ℕ → Option RequestSignals → Metrics
leave_with m method status none = record m {
  active_requests = dec_i64 m.active_requests;
  responses = add_u64 m.responses 1;
  server_errors = if leb 500 (or_200 status) then add_u64 m.server_errors 1 else m.server_errors;
}
leave_with m method status (some s) = leave m method status s

unfoldable pub observe : Metrics → Str → ℕ → Option Str → ℕ → Handled → Metrics
unfolding signals_of leave_with
observe m method status outcome retries h =
    leave_with (enter m) method status (signals_of outcome retries h)

-- The rejections that signals count
abbrev rejections_of : Option RequestSignals → ℕ
rejections_of none = 0
rejections_of (some s) = s.rejections

retries_keep :
    (n : ℕ) (s : RequestSignals)
    → (s' : RequestSignals) × (add_retries n (some s) ≡ some s') × (s'.rejections ≡ s.rejections)
unfolding add_retry
retries_keep zero s = (s, refl, refl)
retries_keep (suc n) s = retries_keep n (record s { retries = add_u64 s.retries 1 })

-- What the handler's own signals hold, once or not at all rejected
rejected :
    (signal : Option (Str × Str)) (outcome : Option Str) (n : ℕ)
    → (n ≡ 0) ⊎ (n ≡ 1)
    → (s : RequestSignals) × (add_rejections n
          (set_outcome outcome (set_signal signal (some with_signals)))
        ≡ some s)
      × (s.rejections ≡ n)
unfolding set_route add_rejection with_signals set_auth_outcome
rejected none none n (inl e) = rw e (_, refl, refl)
rejected none none n (inr e) = rw e (_, refl, refl)
rejected none (some outcome) n (inl e) = rw e (_, refl, refl)
rejected none (some outcome) n (inr e) = rw e (_, refl, refl)
rejected (some (route, upstream)) none n (inl e) = rw e (_, refl, refl)
rejected (some (route, upstream)) none n (inr e) = rw e (_, refl, refl)
rejected (some (route, upstream)) (some outcome) n (inl e) = rw e (_, refl, refl)
rejected (some (route, upstream)) (some outcome) n (inr e) = rw e (_, refl, refl)

left_with :
    (m : Metrics) (method : Str) (status : ℕ) (s : RequestSignals)
    → (leave_with (enter m) method status (some s)).rejections ≡ add_u64 m.rejections s.rejections
unfolding enter leave leave_with
left_with m method status s = refl

counted :
    (signal : Option (Str × Str)) (outcome : Option Str) (retries n : ℕ) (m : Metrics)
    (method : Str) (status : ℕ)
    → (n ≡ 0) ⊎ (n ≡ 1)
    → (leave_with (enter m) method status (
        add_retries retries (
          add_rejections n
            (set_outcome outcome (set_signal signal (some with_signals)))))).rejections
      ≡ add_u64 m.rejections n
counted signal outcome retries n m method status few =
    let (s, is, count) = rejected signal outcome n few in
    let (s', after, kept) = retries_keep retries s in
    ap (λ o. (leave_with (enter m) method status o).rejections)
      (ap (add_retries retries) is ∙ after)
    ∙ left_with m method status s'
    ∙ ap (add_u64 m.rejections) (kept ∙ count)

-- The metrics count one rejection for each request that the data plane does not forward, and none for one
-- that it does, whatever the authorizer's outcome and the number of retries.
pub observe_rejections :
    {A : Type 0} (canonical_header_key : Str → Str)
    (authorize : A → Header → List Str → Bool × Header) (runtime : Option (RuntimeState A))
    (in_flight : ℕ) (request : Incoming) (m : Metrics) (status : ℕ) (outcome : Option Str)
    (retries : ℕ)
    → let h = handle canonical_header_key authorize runtime in_flight request in
      let m' = observe m request.method status outcome retries h in
      (((route : CompiledRoute) × (out : Header) × (h.answer ≡ forwarded route out))
        × (m'.rejections ≡ add_u64 m.rejections 0))
      ⊎ (((route : CompiledRoute) (out : Header) → ¬ (h.answer ≡ forwarded route out))
          × (m'.rejections ≡ add_u64 m.rejections 1))
unfolding observe signals_of
observe_rejections canonical_header_key authorize runtime in_flight request m status outcome
      retries =
    let h = handle canonical_header_key authorize runtime in_flight request in
    elim (handle-IsCounted canonical_header_key authorize runtime in_flight request) [
      | inl (route, out, e, n, signal) ↦ inl (
        (route, out, e),
        counted h.signal outcome retries h.rejections m request.method status (inl n)
            ∙ ap (add_u64 m.rejections) n,
      )
      | inr (other, n) ↦ inr (
        other,
        counted h.signal outcome retries h.rejections m request.method status (inr n)
            ∙ ap (add_u64 m.rejections) n,
      )
    ]
