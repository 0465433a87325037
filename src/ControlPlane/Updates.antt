-- ===== src/ControlPlane/Updates.antt =====
-- The updates of the configuration against any activator.
use go_serve.Common.{
  ◌≡◌, ◌⊎◌, inl, inr, refl, ap, ◌∙◌, Option, none, some, Str, ok, err, Option-cases, Result-cases,
}
use go_serve.Config.{Config, Url}
use go_serve.Config.Validate.{ConfigError, validate}
use go_serve.Config.Clone.{clone}
use go_serve.ControlPlane.{
  ControlPlane, malformed, no_target, invalid, version_problem, activation_failed, rollback_failed,
  problem, plain, updated, fail_with, commit, settle, replace_config, rollback_config,
}
use go_serve.ControlPlane.Version.{VersionError, require_version}

module _ {M E : Type 0} (activate : M → Config → M × Option E) where
  abbrev Outcome : (m : M) (c : Config) → Type 0
  Outcome m c =
      ((m' : M) × (activate m c ≡ (m', none)))
      ⊎ ((m' : M) × (e : E) × (activate m c ≡ (m', some e)))

  outcome : (m : M) (c : Config) → Outcome m c
  outcome m c = split (activate m c) refl
    where
      split : (r : M × Option E) → activate m c ≡ r → Outcome m c
      split (m', none) h = inl (m', h)
      split (m', some e) h = inr (m', e, h)

  -- Replacing the configuration: a body that cannot be read, a configuration that is not valid and
  -- an `If-Match` that is not the version are refused in this order, with no change. Otherwise the
  -- configuration is activated. If that fails, only the state and the last error change; if it
  -- succeeds, a copy of the candidate becomes active under the next version, and the configuration
  -- before becomes the target of a rollback.
  pub replace_config_lem :
      (url_parse : Str → Option Url) (s : ControlPlane E) (m : M) (body : Option Config) (tag : Str)
      → ((body ≡ none)
          × (replace_config activate url_parse s m body tag
              ≡ (s, m, plain 422 (problem malformed))))
        ⊎ ((c : Config) × (body ≡ some c)
            × (((e : ConfigError) × (validate url_parse c ≡ err e)
                  × (replace_config activate url_parse s m body tag
                      ≡ (s, m, plain 422 (problem (invalid e)))))
                ⊎ ((validate url_parse c ≡ ok tt)
                    × (((e : VersionError) × (require_version s.version tag ≡ err e)
                          × (replace_config activate url_parse s m body tag
                              ≡ (s, m, plain 409 (problem (version_problem e)))))
                        ⊎ ((require_version s.version tag ≡ ok tt)
                            × (((m' : M) × (activate m c ≡ (m', none))
                                  × (replace_config activate url_parse s m body tag ≡ (
                                    commit s (clone c) (some s.config),
                                    m',
                                    updated (commit s (clone c) (some s.config)),
                                  )))
                                ⊎ ((m' : M) × (e : E) × (activate m c ≡ (m', some e))
                                    × (replace_config activate url_parse s m body tag ≡ (
                                      fail_with s e,
                                      m',
                                      plain 422 (problem (activation_failed e)),
                                    )))))))))
  unfolding replace_config settle
  replace_config_lem url_parse s m none tag = inl (refl, refl)
  replace_config_lem url_parse s m (some c) tag = inr (
    c,
    refl,
    elim (Result-cases (validate url_parse c)) [
      | inl (e, h) ↦ inl (e, h, rw (h, replace_config))
      | inr (u, h) ↦ inr (
        h,
        elim (Result-cases (require_version s.version tag)) [
          | inl (e, v) ↦ inl (e, v, rw (h, v, replace_config))
          | inr (u, v) ↦ inr (
            v,
            elim (outcome m c) [
              | inl (m', done) ↦ inl (
                m',
                done,
                rw (h, v, replace_config)
                    (ap (settle s (clone c) (some s.config) activation_failed) done),
              )
              | inr (m', e, broken) ↦ inr (
                m',
                e,
                broken,
                rw (h, v, replace_config)
                    (ap (settle s (clone c) (some s.config) activation_failed) broken),
              )
            ],
          )
        ],
      )
    ],
  )

  -- A rollback with the right `If-Match` activates a copy of its target.
  pub rollback_target :
      (s : ControlPlane E) (m : M) (tag : Str) (c : Config)
      → require_version s.version tag ≡ ok tt
      → s.previous ≡ some c
      → rollback_config activate s m tag
        ≡ settle s c (some s.config) rollback_failed (activate m (clone c))
  unfolding rollback_config
  rollback_target s m tag c v p = simp (v, p, rollback_config)

  -- Rolling back: a wrong `If-Match` and then a missing target are refused with no change. Otherwise
  -- the target is activated. If that fails, only the state and the last error change; if it
  -- succeeds, the target and the active configuration change places under the next version.
  pub rollback_config_lem :
      (s : ControlPlane E) (m : M) (tag : Str)
      → ((e : VersionError) × (require_version s.version tag ≡ err e)
          × (rollback_config activate s m tag ≡ (s, m, plain 409 (problem (version_problem e)))))
        ⊎ ((require_version s.version tag ≡ ok tt)
            × (((s.previous ≡ none)
                  × (rollback_config activate s m tag ≡ (s, m, plain 404 (problem no_target))))
                ⊎ ((p : Config) × (s.previous ≡ some p)
                    × (((m' : M) × (activate m (clone p) ≡ (m', none))
                          × (rollback_config activate s m tag ≡ (
                            commit s p (some s.config),
                            m',
                            updated (commit s p (some s.config)),
                          )))
                        ⊎ ((m' : M) × (e : E) × (activate m (clone p) ≡ (m', some e))
                            × (rollback_config activate s m tag
                                ≡ (fail_with s e, m', plain 422 (problem (rollback_failed e)))))))))
  unfolding rollback_config settle
  rollback_config_lem s m tag = elim (Result-cases (require_version s.version tag)) [
    | inl (e, v) ↦ inl (e, v, rw (v, rollback_config))
    | inr (u, v) ↦ inr (
      v,
      elim (Option-cases s.previous) [
        | inl p ↦ inl (p, simp (v, p, rollback_config))
        | inr (c, p) ↦ inr (
          c,
          p,
          elim (outcome m (clone c)) [
            | inl (m', done) ↦ inl (
              m',
              done,
              rollback_target s m tag c v p
                  ∙ (ap (settle s c (some s.config) rollback_failed) done),
            )
            | inr (m', e, broken) ↦ inr (
              m',
              e,
              broken,
              rollback_target s m tag c v p
                  ∙ (ap (settle s c (some s.config) rollback_failed) broken),
            )
          ],
        )
      ],
    )
  ]
