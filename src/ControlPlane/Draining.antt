-- ===== src/ControlPlane/Draining.antt =====
-- A control plane that drains is not ready again.
use go_serve.Common.{◌≡◌, refl, inl, inr, Bool, false, Option, Str}
use go_serve.Config.{Config, Url}
use go_serve.ControlPlane.{
  ControlPlane, replace_config, rollback_config, set_draining, ready_response,
}
use go_serve.ControlPlane.Updates.{replace_config_lem, rollback_config_lem}

module _ {M E : Type 0} (activate : M → Config → M × Option E) where
  pub replace_config_ready :
      (url_parse : Str → Option Url) (s : ControlPlane E) (m : M) (body : Option Config) (tag : Str)
      → (replace_config activate url_parse s m body tag).0.ready_state ≡ s.ready_state
  replace_config_ready url_parse s m body tag =
      elim (replace_config_lem activate url_parse s m body tag) [
        | inl (e, r) ↦ rw r refl
        | inr (c, e, inl (e', i, r)) ↦ rw r refl
        | inr (c, e, inr (v, inl (e', k, r))) ↦ rw r refl
        | inr (c, e, inr (v, inr (k, inl (m', done, r)))) ↦ rw r refl
        | inr (c, e, inr (v, inr (k, inr (m', e', broken, r)))) ↦ rw r refl
      ]

  pub rollback_config_ready :
      (s : ControlPlane E) (m : M) (tag : Str)
      → (rollback_config activate s m tag).0.ready_state ≡ s.ready_state
  rollback_config_ready s m tag = elim (rollback_config_lem activate s m tag) [
    | inl (e, v, r) ↦ rw r refl
    | inr (v, inl (nowhere, r)) ↦ rw r refl
    | inr (v, inr (p, h, inl (m', done, r))) ↦ rw r refl
    | inr (v, inr (p, h, inr (m', e', broken, r))) ↦ rw r refl
  ]

pub drained_ready : {E : Type 0} (s : ControlPlane E) → (set_draining s).ready_state ≡ false
unfolding set_draining
drained_ready s = refl

pub not_ready_response :
    {E : Type 0} (s : ControlPlane E) (check : Option (Bool × Str))
    → s.ready_state ≡ false
    → (ready_response s check).code ≡ 503
unfolding ready_response
not_ready_response s check h = rw (h, ready_response) refl
