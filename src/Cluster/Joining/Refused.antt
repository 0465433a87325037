-- ===== src/Cluster/Joining/Refused.antt =====
-- A node that joins a cluster whose control planes ask for authentication.
use go_serve.Common.{
  ℕ, ◌≡◌, refl, ◌∙◌, inl, inr, Bool, false, ◌&&◌, Option, none, some, List, [], ◌∷◌, map, Str,
  bytes, str_eq, is_empty, arith, if◌then◌else◌, Bool-cases, All,
}
use go_serve.Config.{ClusterConfig, ClusterPeer, items}
use go_serve.Dataplane.Headers.{Header}
use go_serve.Auth.Protect.{
  Guard, to_login, unauthorized, insufficient_scope, deny, oauth_page, Protected, oauth, denied,
  passed, protect, protect_anonymous,
}
use go_serve.Cluster.Joining.{join_url, join_round, join_loop, join_request}

-- The statuses of what `Protect` answers itself; `inner` is the protected handler's.
abbrev pub status_of : (Header → ℕ) → Protected → ℕ
status_of inner (oauth page) = 302
status_of inner (denied (to_login url)) = 302
status_of inner (denied unauthorized) = 401
status_of inner (denied insufficient_scope) = 403
status_of inner (passed headers) = inner headers

-- Whether a round's request reaches the peer, and what the peer's middleware `g` answers then.
abbrev pub protected_peer :
    (Str → Guard) → (Str → Str) → (Str → Header → ℕ) → ℕ × (Str → Bool) → Str → Option ℕ
protected_peer g path_of inner (now, reaches) url =
    if reaches url
    then some (status_of (inner url) (protect (g url) now (join_request (path_of url))))
    else none

join_denied :
    (g : Guard) (now : ℕ) (path : Str)
    → oauth_page path ≡ none
    → protect g now (join_request path) ≡ denied unauthorized
unfolding deny str_eq bytes
join_denied g now path page =
    let post : (str_eq g.mode (bytes "oidc") && false) ≡ false = ground arith in
    protect_anonymous g now (join_request path) refl refl page ∙ rw (post, deny) refl

-- The path of the URL that a peer is asked at, `path_of` being that of the library, is none of the
-- middleware's own pages.
abbrev pub NoPages : (Str → Str) → List ClusterPeer → Type 0
NoPages path_of = All (λ peer. oauth_page (path_of (join_url peer)) ≡ none)

module _ (g : Str → Guard) (path_of : Str → Str) (inner : Str → Header → ℕ) where
  round_refused :
      (round : ℕ × (Str → Bool)) (peers : List ClusterPeer)
      → NoPages path_of peers
      → join_round (protected_peer g path_of inner round) peers ≡ false
  unfolding join_round
  round_refused (now, reaches) [] none_left = refl
  round_refused (now, reaches) (peer ∷ peers) (page, pages) =
      let ih = round_refused (now, reaches) peers pages in
      let answer = join_denied (g (join_url peer)) now (path_of (join_url peer)) page in
      elim (Bool-cases (is_empty peer.admin_url)) [
        | inl skipped ↦ rw (skipped, join_round) ih
        | inr asked ↦ elim (Bool-cases (reaches (join_url peer))) [
          | inl there ↦ rw (asked, there, answer, join_round) ih
          | inr away ↦ rw (asked, away, join_round) ih
        ]
      ]

  -- A node never joins a cluster whose peers all protect their control planes, where the URLs that
  -- it asks them at lead to none of the middleware's own pages: however many rounds it asks, whichever
  -- peers it reaches, and whatever the peers would do with a join, its requests carry no credentials
  -- and are refused.
  pub join_loop_refused :
      (config : ClusterConfig) (rounds : List (ℕ × (Str → Bool)))
      → NoPages path_of (items config.peers)
      → join_loop config (map (protected_peer g path_of inner) rounds) ≡ false
  unfolding join_loop
  join_loop_refused config [] pages = refl
  join_loop_refused config (round ∷ rounds) pages =
      rw (round_refused round (items config.peers) pages, join_loop)
        (join_loop_refused config rounds pages)
