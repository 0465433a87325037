-- ===== src/Dataplane/Routing/Best.antt =====
-- Which route `match` selects.
use go_serve.Common.{
  ℕ, ◌≤◌, ◌<◌, ◌≡◌, ◌≢◌, ◌↔◌, ◌⊎◌, inl, inr, sym, ap, Bool, true, false, not, ◌&&◌, ◌||◌, Option,
  none, some, List, [], ◌∷◌, ◌++◌, arith, length, if◌then◌else◌, Str, All, Any, Bool-cases,
}
use go_serve.Dataplane.Paths.{normalize_host}
use go_serve.Dataplane.Routing.{CompiledRoute, fits, refuses_method, improves, match_from, match}

module _ (host method path : Str) where
  -- The route takes the request's host, path and method.
  abbrev pub Serves : CompiledRoute → Type 0
  Serves r = (fits host path r ≡ true) × (refuses_method method r ≡ false)

  -- Of the routes that serve the request, `best` has the longest prefix, and is the first such.
  pub record IsBest (routes : List CompiledRoute) (best : CompiledRoute) : Type 0 where
    pub before : List CompiledRoute
    pub after : List CompiledRoute
    pub split : routes ≡ before ++ best ∷ after
    pub serves : Serves best
    pub earlier : All (λ r. Serves r → length r.path_prefix < length best.path_prefix) before
    pub later : All (λ r. Serves r → length r.path_prefix ≤ length best.path_prefix) after

  abbrev AtMost : ℕ → CompiledRoute → Type 0
  AtMost n r = Serves r → length r.path_prefix ≤ n

  abbrev takes : Option CompiledRoute → CompiledRoute → Bool
  takes best q = fits host path q && not (refuses_method method q) && improves best q

  abbrev flagged : Bool → CompiledRoute → Bool
  flagged flag q = flag || (fits host path q && refuses_method method q)

  cons-IsBest :
      {rs : List CompiledRoute} {r : CompiledRoute} (q : CompiledRoute)
      → IsBest rs r
      → (Serves q → length q.path_prefix < length r.path_prefix)
      → IsBest (q ∷ rs) r
  cons-IsBest q b h = record {
    before = q ∷ b.before;
    after = b.after;
    split = ap (λ l. q ∷ l) b.split;
    serves = b.serves;
    earlier = (h, b.earlier);
    later = b.later;
  }

  head-IsBest :
      (q r : CompiledRoute) (rs : List CompiledRoute)
      → r ≡ q
      → Serves q
      → All (AtMost (length q.path_prefix)) rs
      → IsBest (q ∷ rs) r
  head-IsBest q r rs e s a = record {
    before = [];
    after = rs;
    split = ap (λ x. x ∷ rs) (sym e);
    serves = rw e s;
    earlier = tt;
    later = rw e a;
  }

  -- What the loop makes of a route that it holds already.
  held :
      (b : CompiledRoute) (flag : Bool) (rs : List CompiledRoute) (r : CompiledRoute)
      → (match_from host method path (some b) flag rs).0 ≡ some r
      → ((r ≡ b) × All (AtMost (length b.path_prefix)) rs)
        ⊎ (IsBest rs r × (length b.path_prefix < length r.path_prefix))
  unfolding match_from
  held b flag [] r h = inl (ground arith, tt)
  held b flag (q ∷ rs) r h = elim (Bool-cases (takes (some b) q)) [
    | inl taken ↦ elim (held q (flagged flag q) rs r (rw (taken, match_from) at h)) [
      | inl (e, a) ↦ inr (head-IsBest q r rs e (ground arith, ground arith) a, rw e (ground arith))
      | inr (best, longer) ↦ inr (cons-IsBest q best (λ _. longer), ground arith)
    ]
    | inr left ↦ elim (held b (flagged flag q) rs r (rw (left, match_from) at h)) [
      | inl (e, a) ↦ inl (e, (λ s. ground arith, a))
      | inr (best, longer) ↦ inr (cons-IsBest q best (λ s. ground arith), longer)
    ]
  ]

  fresh :
      (flag : Bool) (rs : List CompiledRoute) (r : CompiledRoute)
      → (match_from host method path none flag rs).0 ≡ some r
      → IsBest rs r
  unfolding match_from
  fresh flag [] r h = cc
  fresh flag (q ∷ rs) r h = elim (Bool-cases (takes none q)) [
    | inl taken ↦ elim (held q (flagged flag q) rs r (rw (taken, match_from) at h)) [
      | inl (e, a) ↦ head-IsBest q r rs e (ground arith, ground arith) a
      | inr (best, longer) ↦ cons-IsBest q best (λ _. longer)
    ]
    | inr left ↦
        cons-IsBest q (fresh (flagged flag q) rs r (rw (left, match_from) at h))
          (λ s. absurd (ground arith))
  ]

  kept :
      (b : CompiledRoute) (flag : Bool) (rs : List CompiledRoute)
      → (match_from host method path (some b) flag rs).0 ≢ none
  unfolding match_from
  kept b flag [] h = cc
  kept b flag (q ∷ rs) h = elim (Bool-cases (takes (some b) q)) [
    | inl taken ↦ kept q (flagged flag q) rs (rw (taken, match_from) at h)
    | inr left ↦ kept b (flagged flag q) rs (rw (left, match_from) at h)
  ]

  none-Serves :
      (flag : Bool) (rs : List CompiledRoute)
      → (match_from host method path none flag rs).0 ≡ none
      → All (λ r. ¬ Serves r) rs
  unfolding match_from
  none-Serves flag [] h = tt
  none-Serves flag (q ∷ rs) h = elim (Bool-cases (takes none q)) [
    | inl taken ↦ absurd (kept q (flagged flag q) rs (rw (taken, match_from) at h))
    | inr left ↦ (λ s. ground arith, none-Serves (flagged flag q) rs (rw (left, match_from) at h))
  ]

  -- A route on the request's host and path, whose methods leave the request's out.
  abbrev pub RefusesMethod : CompiledRoute → Type 0
  RefusesMethod r = (fits host path r ≡ true) × (refuses_method method r ≡ true)

  flag_iff :
      (best : Option CompiledRoute) (flag : Bool) (rs : List CompiledRoute)
      → ((match_from host method path best flag rs).1 ≡ true)
        ↔ ((flag ≡ true) ⊎ Any RefusesMethod rs)
  unfolding match_from
  flag_iff best flag [] = ground arith
  flag_iff best flag (q ∷ rs) =
      let ih = flag_iff (if takes best q then some q else best) (flagged flag q) rs in
      (
        λ h. elim (ih.0 h) [
          | inl f ↦ elim (Bool-cases flag) [
            | inl on ↦ inl on
            | inr off ↦ inr (inl (ground arith, ground arith))
          ]
          | inr a ↦ inr (inr a)
        ],
        elim [
          | inl f ↦ ih.1 (inl (ground arith))
          | inr (inl r) ↦ ih.1 (inl (ground arith))
          | inr (inr a) ↦ ih.1 (inr a)
        ],
      )

-- The route that `match` returns serves the request and has the longest prefix of those that do,
-- the first of them in the order of the file.
pub match-IsBest :
    (routes : List CompiledRoute) (request_host method path : Str) (r : CompiledRoute)
    → (match routes request_host method path).0 ≡ some r
    → IsBest (normalize_host request_host) method path routes r
unfolding match
match-IsBest routes request_host method path r h =
    fresh (normalize_host request_host) method path false routes r h

-- Where `match` returns no route, none serves the request, and its second result is true exactly when
-- some route on the request's host and path refuses the method.
pub match_refusals :
    (routes : List CompiledRoute) (request_host method path : Str)
    → (match routes request_host method path).0 ≡ none
    → All (λ r. ¬ Serves (normalize_host request_host) method path r) routes
      × (((match routes request_host method path).1 ≡ true)
          ↔ Any (RefusesMethod (normalize_host request_host) method path) routes)
unfolding match
match_refusals routes request_host method path h =
    let host = normalize_host request_host in
    let flag = flag_iff host method path none false routes in
    (
      none-Serves host method path false routes h,
      (λ e. elim (flag.0 e) [ inl f ↦ absurd (cc) | inr a ↦ a ], λ a. flag.1 (inr a)),
    )
