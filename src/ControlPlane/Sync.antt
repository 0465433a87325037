-- ===== src/ControlPlane/Sync.antt =====
-- When the control plane and the runtime manager, as cmd/server/main.go joins them, are in step.
use mathlib.Core.Path.{subst}
use go_serve.Common.{
  ◌≡◌, inl, inr, refl, sym, ap, ◌∙◌, Bool, Option, none, some, Str, >>=-eq-ok, ok_injective, ok,
}
use go_serve.Config.{Config, Url}
use go_serve.Config.Clone.{clone}
use go_serve.Dataplane.Compile
use go_serve.Dataplane.Compile.{
  CompileError, restart_required, RuntimeState, same_listeners, compile,
}
use go_serve.Runtime.{Manager, new_manager, activate}
use go_serve.Runtime.Agreement.{Agrees, SameListeners, same_listeners_iff}
use go_serve.Runtime.Activation.{activated, activate_lem, activate-Agrees, activate_keeps}
use go_serve.ControlPlane.{ControlPlane, commit, fail_with}

some_injective : {A : Type 0} {x y : A} → some x ≡ some y → x ≡ y
some_injective h = cc

first : {A B : Type 0} {p q : A × B} → p ≡ q → p.0 ≡ q.0
first h = ap (λ r. r.0) h

clone_auth : (c d : Config) → c.auth ≡ d.auth → (clone c).auth ≡ (clone d).auth
unfolding clone
clone_auth c d h = rw h refl

clone_cluster : (c d : Config) → c.cluster ≡ d.cluster → (clone c).cluster ≡ (clone d).cluster
unfolding clone
clone_cluster c d h = rw h refl

clone_server : (c : Config) → (clone c).server ≡ c.server
unfolding clone
clone_server c = refl

-- What agrees with a copy has a copy that agrees with it.
listeners_clone : (b c : Config) → clone b ≡ b → SameListeners b c → SameListeners b (clone c)
listeners_clone b c copied (server, auth, cluster) = (
  server ∙ sym (clone_server c),
  ap (λ (d : Config). d.auth) (sym copied) ∙ clone_auth b c auth,
  ap (λ (d : Config). d.cluster) (sym copied) ∙ clone_cluster b c cluster,
)

listeners_sym : (b c : Config) → SameListeners b c → SameListeners c b
listeners_sym b c (x, y, z) = (sym x, sym y, sym z)

module _ (url_parse : Str → Option Url) {A : Type 0} where
  -- A configuration that a manager with the configuration `active` can go back to.
  pub record IsTarget (a : Option A) (active p : Config) : Type 0 where
    pub state : RuntimeState A
    pub compiled : compile url_parse p a ≡ ok state
    pub copied : clone p ≡ p
    pub listeners : SameListeners active p

  -- The control plane shows the configuration that runs, and can go back to its target.
  pub record IsSynced (a : Option A) (s : ControlPlane CompileError) (m : Manager A) : Type 0 where
    pub agrees : Agrees url_parse a m
    pub config : s.config ≡ m.config
    pub target : (p : Config) → s.previous ≡ some p → IsTarget a m.config p

  pub commit-IsSynced :
      (a : Option A) (s : ControlPlane CompileError) (m m' : Manager A) (c : Config)
      → IsSynced a s m
      → Agrees url_parse a m'
      → m'.config ≡ clone c
      → SameListeners m.config (clone c)
      → IsSynced a (commit s (clone c) (some s.config)) m'
  commit-IsSynced a s m m' c y g config same = record {
    agrees = g;
    config = sym config;
    target = λ p h.
        let at : s.config ≡ p = some_injective h in
        let was = sym y.config ∙ at in
        record {
          state = y.agrees.state;
          compiled = rw (← was) y.agrees.compiled;
          copied = rw (← was) y.agrees.cloned;
          listeners = rw (← was, config) (listeners_sym m.config (clone c) same);
        };
  }

  pub new_manager_config :
      (c : Config) (a : Option A) (events : Bool) (m : Manager A)
      → new_manager url_parse c a events ≡ ok m
      → clone c ≡ m.config
  unfolding new_manager
  new_manager_config c a events m h =
      let (server, built, same) = >>=-eq-ok (Compile.new_server url_parse c a) _ h in
      ap (λ (n : Manager A). n.config) (ok_injective same)

  -- An activation that fails leaves a synced pair synced.
  pub failed-IsSynced :
      (a : Option A) (s : ControlPlane CompileError) (m m' : Manager A) (e : CompileError)
      → IsSynced a s m
      → Agrees url_parse a m'
      → m'.config ≡ m.config
      → IsSynced a (fail_with s e) m'
  failed-IsSynced a s m m' e y g config = record {
    agrees = g;
    config = y.config ∙ sym config;
    target = λ p h. rw config (y.target p h);
  }

  abbrev pub Installed : Option A → Manager A → Config → Manager A → Type 0
  Installed a m c m' =
      Agrees url_parse a m' × (m'.config ≡ clone c) × SameListeners m.config (clone c)

  pub activation_ok :
      (a : Option A) (m m' : Manager A) (c : Config)
      → Agrees url_parse a m
      → activate url_parse m c ≡ (m', none)
      → Installed a m c m'
  activation_ok a m m' c g h = elim (activate_lem url_parse a m c g) [
    | inl (other, r) ↦ absurd (cc)
    | inr (same, inl (e, failed, r)) ↦ absurd (cc)
    | inr (same, inr (state, done, r)) ↦
        let is : activated m c state ≡ m' = first (sym r ∙ h) in
        (
          subst (Agrees url_parse a) (first h) (activate-Agrees url_parse a m c g),
          rw (← is) refl,
          listeners_clone m.config c g.cloned ((same_listeners_iff m.config c).0 same),
        )
  ]

  pub activation_err :
      (a : Option A) (m m' : Manager A) (c : Config) (e : CompileError)
      → Agrees url_parse a m
      → activate url_parse m c ≡ (m', some e)
      → Agrees url_parse a m' × (m'.config ≡ m.config)
  activation_err a m m' c e g h =
      let kept =
        activate_keeps url_parse a m c e g (ap (λ (p : Manager A × Option CompileError). p.1) h) in
      let is : (activate url_parse m c).0 ≡ m' = first h in
      (rw (← is) (activate-Agrees url_parse a m c g), rw (← is) kept)
