-- ===== src/ControlPlane/Conflict.antt =====
-- Updates in a row, with the version that each client read.
use go_serve.Common.{◌≡◌, inl, inr, refl, ap, ◌∙◌, arith, Option, some, Str, ok, err, inc_i64}
use go_serve.Config.{Config, Url}
use go_serve.Config.Validate.{validate}
use go_serve.Config.Clone.{clone}
use go_serve.Dataplane.Compile.{CompileError}
use go_serve.Runtime.{Manager, activate}
use go_serve.ControlPlane.{
  ControlPlane, problem, version_problem, plain, commit, replace_config, rollback_config,
}
use go_serve.ControlPlane.Version.{VersionError, version_conflict, etag, require_version}
use go_serve.ControlPlane.Version.Decimal.{InRange, require_version-current, require_version-stale}
use go_serve.ControlPlane.Updates.{replace_config_lem}
use go_serve.ControlPlane.Sync.{IsSynced}
use go_serve.ControlPlane.Rollback.{replace_config-IsSynced, rollback_config_succeeds}

module _ {M E : Type 0} (act : M → Config → M × Option E) (url_parse : Str → Option Url) where
  refused_stale :
      (s : ControlPlane E) (m : M) (c : Config) (tag : Str) (e : VersionError)
      → validate url_parse c ≡ ok tt
      → require_version s.version tag ≡ err e
      → replace_config act url_parse s m (some c) tag
        ≡ (s, m, plain 409 (problem (version_problem e)))
  unfolding replace_config
  refused_stale s m c tag e v r = rw (v, r, replace_config)

  replaced_version :
      (s : ControlPlane E) (m : M) (body : Option Config) (tag : Str)
      → (replace_config act url_parse s m body tag).2.code ≡ 200
      → (replace_config act url_parse s m body tag).0.version ≡ inc_i64 s.version
  replaced_version s m body tag accepted = elim (replace_config_lem act url_parse s m body tag) [
    | inl (e, r) ↦ absurd (omega (arith, rw r at accepted))
    | inr (c, e, inl (e', i, r)) ↦ absurd (omega (arith, rw r at accepted))
    | inr (c, e, inr (v, inl (e', w, r))) ↦ absurd (omega (arith, rw r at accepted))
    | inr (c, e, inr (v, inr (w, inl (m', done, r)))) ↦ rw r refl
    | inr (c, e, inr (v, inr (w, inr (m', e', broken, r)))) ↦
        absurd (omega (arith, rw r at accepted))
  ]

  -- No update is lost: once a replacement that a client asked for on an int64 version succeeded, a valid
  -- replacement that another client asks for on the same version is refused as a conflict, with no
  -- change.
  pub replace_config_twice :
      (s : ControlPlane E) (m : M) (body : Option Config) (d : Config)
      → InRange s.version
      → (replace_config act url_parse s m body (etag s.version)).2.code ≡ 200
      → validate url_parse d ≡ ok tt
      → let r = replace_config act url_parse s m body (etag s.version) in
        replace_config act url_parse r.0 r.1 (some d) (etag s.version) ≡ (
          r.0,
          r.1,
          plain 409 (problem (version_problem (version_conflict (inc_i64 s.version) s.version))),
        )
  replace_config_twice s m body d range accepted valid =
      let r = replace_config act url_parse s m body (etag s.version) in
      let version = replaced_version s m body (etag s.version) accepted in
      refused_stale r.0 r.1 d (etag s.version) _ valid (
        ap (λ v. require_version v (etag s.version)) version
        ∙ require_version-stale s.version range)

module _ (url_parse : Str → Option Url) {A : Type 0} where
  -- A replacement can be undone: in a system that is in step, after a replacement that succeeded and
  -- whose new version an int64 holds, a rollback on that version succeeds, and the configuration is
  -- the one before.
  pub replace_config_undone :
      (a : Option A) (s : ControlPlane CompileError) (m : Manager A) (body : Option Config)
      (tag : Str)
      → IsSynced url_parse a s m
      → InRange (inc_i64 s.version)
      → (replace_config (activate url_parse) url_parse s m body tag).2.code ≡ 200
      → let r = replace_config (activate url_parse) url_parse s m body tag in
        let undone = rollback_config (activate url_parse) r.0 r.1 (etag r.0.version) in
        (undone.2.code ≡ 200) × (undone.0.config ≡ s.config)
  replace_config_undone a s m body tag y range accepted =
      elim (replace_config_lem (activate url_parse) url_parse s m body tag) [
        | inl (e, r) ↦ absurd (omega (arith, rw r at accepted))
        | inr (c, e, inl (e', i, r)) ↦ absurd (omega (arith, rw r at accepted))
        | inr (c, e, inr (v, inl (e', w, r))) ↦ absurd (omega (arith, rw r at accepted))
        | inr (c, e, inr (v, inr (w, inl (m', done, r)))) ↦
            let s' = commit s (clone c) (some s.config) in
            let synced : IsSynced url_parse a s' m' =
              rw r at (replace_config-IsSynced url_parse a s m body tag y) in
            let (m'', undone, after) =
              rollback_config_succeeds url_parse a s' m' (etag (inc_i64 s.version)) s.config synced
                (require_version-current (inc_i64 s.version) range) refl in
            rw (r, undone) (refl, refl)
        | inr (c, e, inr (v, inr (w, inr (m', e', broken, r)))) ↦
            absurd (omega (arith, rw r at accepted))
      ]
