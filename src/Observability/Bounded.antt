-- ===== src/Observability/Bounded.antt =====
-- The bounds on what the metrics store, and their counts, over any order of requests.
use go_serve.Common.{
  ℕ, suc, ◌+◌, ◌%◌, ◌^◌, ◌≤◌, ◌<◌, ◌≡◌, refl, ◌∙◌, inl, inr, Bool, true, false, not, ◌&&◌, some,
  List, [], ◌∷◌, arith, if◌then◌else◌, ltb, leb, Str, bytes, is_empty, trim_space, length, take,
  is_some, length-take, Bool-cases,
}
use go_serve.Common.Dict.{str_Eq, lookup, lookup-insert, length-insert}
use go_serve.Observability.{
  max_metric_series, RequestSeries, series_Eq, RequestSignals, Metrics, add_u64, bounded_label,
  value_of, record_series, enter, or_200, leave,
}

unknown-length : length (bytes "unknown") ≡ 7
unfolding bytes
unknown-length = refl

cut-length :
    (s : Str)
    → is_empty s ≡ false
    → let cut = if ltb 64 (length s) then take 64 s else s in (length cut ≤ 64) × (0 < length cut)
cut-length [] h = absurd (cc)
cut-length (c ∷ s) h = elim (Bool-cases (ltb 64 (length (c ∷ s)))) [
  | inl long ↦
      let n : length (take 64 (c ∷ s)) ≡ 64 = length-take 64 (c ∷ s) ∙ rw long refl in
      rw long (omega arith, omega arith)
  | inr short ↦ rw short (ground arith, omega arith)
]

-- A label has at most 64 bytes and is not empty.
pub bounded_label-length :
    (value : Str) → (length (bounded_label value) ≤ 64) × (0 < length (bounded_label value))
unfolding bounded_label
bounded_label-length value = elim (Bool-cases (is_empty (trim_space value))) [
  | inl e ↦ let n = unknown-length in rw (e, bounded_label) (omega arith, omega arith)
  | inr e ↦ rw (e, bounded_label) (cut-length (trim_space value) e)
]

-- Recording a request keeps the number of series within the limit.
pub record_series-length :
    (s : RequestSeries) (series : List (RequestSeries × ℕ))
    → length series ≤ max_metric_series
    → length (record_series s series) ≤ max_metric_series
unfolding record_series
record_series-length s series h =
    let n = length-insert s (add_u64 (value_of (lookup s series)) 1) series in ground arith

-- Recording a request adds one to the count of its series, but for a new series past the limit, and
-- changes no other count.
pub lookup-record_series :
    (s t : RequestSeries) (series : List (RequestSeries × ℕ))
    → lookup t (record_series s series) ≡ (
        if not (is_some (lookup s series)) && leb max_metric_series (length series)
        then lookup t series
        else if series_Eq.beq s t
        then some (add_u64 (value_of (lookup s series)) 1)
        else lookup t series)
unfolding record_series
lookup-record_series s t series =
    let n = lookup-insert s t (add_u64 (value_of (lookup s series)) 1) series in ground arith

-- A step of the middleware: a request begins, or one ends with its method, status and signals.
pub data Step : Type 0 where
  began : Step
  ended : Str → ℕ → RequestSignals → Step

abbrev pub step : Metrics → Step → Metrics
step m began = enter m
step m (ended method status signals) = leave m method status signals

unfoldable pub run : Metrics → List Step → Metrics
run m [] = m
run m (s ∷ steps) = run (step m s) steps

-- How many steps pass a test.
unfoldable pub count : (Step → Bool) → List Step → ℕ
count p [] = 0
count p (s ∷ steps) = if p s then suc (count p steps) else count p steps

abbrev pub is_began : Step → Bool
is_began began = true
is_began (ended method status signals) = false

-- A request that ends with a server error.
abbrev pub is_error : Step → Bool
is_error began = false
is_error (ended method status signals) = leb 500 (or_200 status)

-- The counters after some steps, from the counters before.
pub record Counts (m : Metrics) (steps : List Step) (m' : Metrics) : Type 0 where
  pub requests : m'.requests ≡ (m.requests + count is_began steps) % 2 ^ 64
  pub responses : m'.responses ≡ (m.responses + count (λ s. not (is_began s)) steps) % 2 ^ 64
  pub errors : m'.server_errors ≡ (m.server_errors + count is_error steps) % 2 ^ 64
  pub bounded : length m'.series ≤ max_metric_series

pub record IsWord (m : Metrics) : Type 0 where
  pub requests : m.requests < 2 ^ 64
  pub responses : m.responses < 2 ^ 64
  pub errors : m.server_errors < 2 ^ 64
  pub bounded : length m.series ≤ max_metric_series

step-IsWord : (m : Metrics) (s : Step) → IsWord m → IsWord (step m s)
unfolding enter leave
step-IsWord m began w = record {
  requests = omega arith;
  responses = w.responses;
  errors = w.errors;
  bounded = w.bounded;
}
step-IsWord m (ended method status signals) w = record {
  requests = w.requests;
  responses = omega arith;
  errors = let e = w.errors in ground arith;
  bounded = record_series-length _ m.series w.bounded;
}

-- From counters of 64 bits and at most 256 series on, however the beginnings and the ends of requests
-- are interleaved, the counters grow by the numbers of requests, of responses and of server errors
-- modulo 2^64, and at most 256 series are kept.
pub run-Counts : (m : Metrics) (steps : List Step) → IsWord m → Counts m steps (run m steps)
unfolding run count enter leave
run-Counts m [] w = record {
  requests = let h = w.requests in omega arith;
  responses = let h = w.responses in omega arith;
  errors = let h = w.errors in omega arith;
  bounded = w.bounded;
}
run-Counts m (began ∷ steps) w =
    let rest = run-Counts (enter m) steps (step-IsWord m began w) in
    record {
      requests = let h = rest.requests in omega arith;
      responses = let h = rest.responses in omega arith;
      errors = let h = rest.errors in omega arith;
      bounded = rest.bounded;
    }
run-Counts m (ended method status signals ∷ steps) w =
    let rest =
      run-Counts (leave m method status signals) steps
        (step-IsWord m (ended method status signals) w) in
    record {
      requests = let h = rest.requests in omega arith;
      responses = let h = rest.responses in omega arith;
      errors = let h = rest.errors in ground arith;
      bounded = rest.bounded;
    }
