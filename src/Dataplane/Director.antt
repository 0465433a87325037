-- ===== src/Dataplane/Director.antt =====
-- `newProxy` and `joinProxyPath` of internal/dataplane/server.go: the request that a route's proxy
-- directs to an endpoint and sends through the pool's transport. `EscapedPath` of the two URLs and
-- `url.PathUnescape` are parameters.
pub mod Consent
use go_serve.Common.{ℕ, Bool, Option, none, some, [], Str, str_eq, get_elem?, pos, if◌then◌else◌}
use mathlib.Core.Option
use go_serve.Config.{Url}
use go_serve.Dataplane.Paths.{join_url_path}
use go_serve.Dataplane.Pool.{UpstreamPool, pick}
use go_serve.Dataplane.Retry.{Transport, Request, Reply, Sent, round_trip}

-- The parts of a request's URL and host that the director sets
pub record Directed : Type 0 where
  pub scheme : Str
  pub url_host : Str
  pub host : Str
  pub path : Str
  pub raw_path : Str

module _ (escaped_target : Url → Str) (escaped_path : Directed → Str)
    (path_unescape : Str → Option Str) where
  unfoldable pub join_proxy_path : Url → Directed → Directed
  join_proxy_path target d =
      let joined = join_url_path (escaped_target target) (escaped_path d) in
      elim (path_unescape joined) [
        | none ↦ d
        | some decoded ↦ record d {
          path = decoded;
          raw_path = if str_eq decoded joined then [] else joined;
        }
      ]

  -- The director, with the pick's target
  unfoldable pub direct : Url → Directed → Directed
  unfolding join_proxy_path
  direct target d =
      join_proxy_path target
        (record d { scheme = target.scheme; url_host = target.host; host = target.host })

-- The transport of a pool, which shares its breakers
abbrev pub transport_of : UpstreamPool → Bool → Transport
transport_of p events = record {
  attempts = p.retry_attempts;
  has_events = events;
  breakers = p.breakers;
}

-- What one request leaves behind: the pool, the endpoint that was chosen, and what was sent.
pub record Exchange : Type 0 where
  pub pool : UpstreamPool
  pub endpoint : ℕ
  pub sent : Sent

abbrev pub exchanged : UpstreamPool → ℕ → Sent → Exchange
exchanged p index s = record {
  pool = record p { breakers = s.breakers };
  endpoint = index;
  sent = s;
}

-- The director's `pick`, whose index and permit the context carries to `RoundTrip`
unfoldable pub exchange :
    (ℕ → ℕ) → UpstreamPool → Bool → ℕ → Request → (ℕ → Reply) → (ℕ → ℕ) → Option Exchange
exchange clock p events now request answers times =
    let (p', index, permitted) = pick clock p in
    Option.map (exchanged p' index) (
      round_trip (transport_of p' events) (some (pos index)) (some permitted) now request answers
        times)
