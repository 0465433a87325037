-- ===== src/Entry/Shutdown/Ordering.antt =====
-- The order in which a shutdown shows.
use go_serve.Common.{◌≡◌, refl, sym, ap, ◌∙◌, Bool, true, false, Option, Str}
use go_serve.ControlPlane.{ready_response}
use go_serve.ControlPlane.Draining.{
  replace_config_ready, rollback_config_ready, drained_ready, not_ready_response,
}
use go_serve.Runtime.{activate}
use go_serve.Entry.{World, Running}
use go_serve.Entry.Shutdown.{
  Stage, waiting, draining, closing_control, closing_public, closed, Process, launched, Step,
  Reachable, control_arrives, public_arrives, control_finishes, public_finishes, replaces,
  rolls_back, drains, closes_control, closes_public, closes_manager, control_returns,
  public_returns, exits, launches, next,
}

-- Which listeners are open, and whether the control plane may be ready, at each stage.
abbrev ready_at : Stage → Bool
ready_at waiting = true
ready_at _ = false

abbrev control_at : Stage → Bool
control_at waiting = true
control_at draining = true
control_at _ = false

abbrev public_at : Stage → Bool
public_at closing_public = false
public_at closed = false
public_at _ = true

record IsOrdered (p : Process) : Type 0 where
  readiness : ready_at p.stage ≡ false → p.system.control.ready_state ≡ false
  control : p.control_listens ≡ control_at p.stage
  public : p.public_listens ≡ public_at p.stage

module _ {C : Type 0} (w : World C) where
  launched-IsOrdered : (r : Running C) → IsOrdered (launched r)
  unfolding launched
  launched-IsOrdered r = record { readiness = λ e. cc; control = refl; public = refl }

  step-IsOrdered : (p q : Process) → IsOrdered p → Step w p q → IsOrdered q
  step-IsOrdered p _ g (control_arrives h) = record {
    readiness = g.readiness;
    control = g.control;
    public = g.public;
  }
  step-IsOrdered p _ g (public_arrives h) = record {
    readiness = g.readiness;
    control = g.control;
    public = g.public;
  }
  step-IsOrdered p _ g (control_finishes h) = record {
    readiness = g.readiness;
    control = g.control;
    public = g.public;
  }
  step-IsOrdered p _ g (public_finishes h) = record {
    readiness = g.readiness;
    control = g.control;
    public = g.public;
  }
  step-IsOrdered p _ g (replaces body tag h) = record {
    readiness = λ e.
        replace_config_ready (activate w.url_parse) w.url_parse p.system.control p.system.manager
          body tag
        ∙ g.readiness e;
    control = g.control;
    public = g.public;
  }
  step-IsOrdered p _ g (rolls_back tag h) = record {
    readiness = λ e.
        rollback_config_ready (activate w.url_parse) p.system.control p.system.manager tag
        ∙ g.readiness e;
    control = g.control;
    public = g.public;
  }
  step-IsOrdered p _ g (drains h) = record {
    readiness = λ e. drained_ready p.system.control;
    control = g.control ∙ ap control_at h;
    public = g.public ∙ ap public_at h;
  }
  step-IsOrdered p _ g (closes_control h) = record {
    readiness = λ e. g.readiness (ap ready_at h);
    control = refl;
    public = g.public ∙ ap public_at h;
  }
  step-IsOrdered p _ g (closes_public h) = record {
    readiness = λ e. g.readiness (ap ready_at h);
    control = g.control ∙ ap control_at h;
    public = refl;
  }
  step-IsOrdered p _ g (closes_manager h) = record {
    readiness = λ e. g.readiness (ap ready_at h);
    control = g.control ∙ ap control_at h;
    public = g.public ∙ ap public_at h;
  }
  step-IsOrdered p _ g (control_returns h h') = record {
    readiness = g.readiness;
    control = g.control;
    public = g.public;
  }
  step-IsOrdered p _ g (public_returns h h') = record {
    readiness = g.readiness;
    control = g.control;
    public = g.public;
  }
  step-IsOrdered p _ g (exits h) = record {
    readiness = g.readiness;
    control = g.control;
    public = g.public;
  }

  Reachable-IsOrdered : (path : Str) (p : Process) → Reachable w path p → IsOrdered p
  Reachable-IsOrdered path _ (launches r h) = launched-IsOrdered r
  Reachable-IsOrdered path _ (next {p} {q} before runs step) =
      step-IsOrdered p q (Reachable-IsOrdered path p before) step

  not_serving : (s : Stage) → control_at s ≡ false → ready_at s ≡ false
  not_serving waiting h = absurd (cc)
  not_serving draining h = refl
  not_serving closing_control h = refl
  not_serving closing_public h = refl
  not_serving closed h = refl

  after_control : (s : Stage) → public_at s ≡ false → control_at s ≡ false
  after_control waiting h = absurd (cc)
  after_control draining h = absurd (cc)
  after_control closing_control h = refl
  after_control closing_public h = refl
  after_control closed h = refl

  -- Whatever requests come, also those that change the configuration during the shutdown: once a
  -- listener is closed, the readiness endpoint answers 503, and the public listener is closed only
  -- after that of the control plane.
  pub Reachable-drains :
      (path : Str) (p : Process) (check : Option (Bool × Str))
      → Reachable w path p
      → (p.control_listens ≡ false → (ready_response p.system.control check).code ≡ 503)
        × (p.public_listens ≡ false → p.control_listens ≡ false)
  Reachable-drains path p check reached =
      let g = Reachable-IsOrdered path p reached in
      (
        λ h.
            not_ready_response p.system.control check
              (g.readiness (not_serving p.stage (sym g.control ∙ h))),
        λ h. g.control ∙ after_control p.stage (sym g.public ∙ h),
      )
