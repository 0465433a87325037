-- ===== src/Runtime/Agreement.antt =====
-- The manager and its data plane agree on the active configuration.
use mathlib.Core.Bool.{decide, decide_iff}
use go_serve.Common.{
  ◌≡◌, ◌↔◌, inl, inr, refl, ap, ◌∙◌, true, false, ◌&&◌, and_iff, Option, none, some, ◌++◌, Str, ok,
  err, Bool-cases,
}
use go_serve.Config.{Config, Url}
use go_serve.Config.Clone.{
  clone, clone-clone, validate-clone, ServerConfig-discrete, AuthConfig-discrete,
  ClusterConfig-discrete,
}
use go_serve.Dataplane.Compile
use go_serve.Dataplane.Compile.{
  CompileError, restart_required, RuntimeState, same_listeners, compile_upstreams, compile_routes,
  lift_error, compile, previous_state, reconfigure, reconfigure_with_authorizer, new_server,
}
use go_serve.Dataplane.Compile.Servable.{compile-IsServable}
use go_serve.Runtime.{Manager, activate, finish, record_activation}

failed_finish :
    {A : Type 0} (m : Manager A) (c : Config) (e : CompileError)
    → finish m c (m.data_plane, some e) ≡ (record_activation m, some e)
unfolding finish
failed_finish m c e = elim (Bool-cases m.has_events) [ inl h ↦ rw h refl | inr h ↦ rw h refl ]

-- The settings that need a restart are equal.
abbrev pub SameListeners : Config → Config → Type 0
SameListeners a b = (a.server ≡ b.server) × (a.auth ≡ b.auth) × (a.cluster ≡ b.cluster)

same_listeners_sound : (a b : Config) → same_listeners a b ≡ true → SameListeners a b
unfolding same_listeners
same_listeners_sound a b h =
    let s = ServerConfig-discrete a.server b.server in
    let t = AuthConfig-discrete a.auth b.auth in
    let u = ClusterConfig-discrete a.cluster b.cluster in
    let (front, z) = (and_iff (decide s && decide t) (decide u)).0 h in
    let (x, y) = (and_iff (decide s) (decide t)).0 front in
    ((decide_iff s).0 x, (decide_iff t).0 y, (decide_iff u).0 z)

same_listeners_complete : (a b : Config) → SameListeners a b → same_listeners a b ≡ true
unfolding same_listeners
same_listeners_complete a b (x, y, z) =
    let s = ServerConfig-discrete a.server b.server in
    let t = AuthConfig-discrete a.auth b.auth in
    let u = ClusterConfig-discrete a.cluster b.cluster in
    (and_iff (decide s && decide t) (decide u)).1 (
      (and_iff (decide s) (decide t)).1 ((decide_iff s).1 x, (decide_iff t).1 y),
      (decide_iff u).1 z,
    )

pub same_listeners_iff : (a b : Config) → (same_listeners a b ≡ true) ↔ SameListeners a b
same_listeners_iff a b = (same_listeners_sound a b, same_listeners_complete a b)

upstreams-clone : (c : Config) → (clone c).upstreams ≡ c.upstreams
unfolding clone
upstreams-clone c = refl

routes-clone : (c : Config) → (clone c).routes ≡ c.routes
unfolding clone
routes-clone c = refl

limits-clone : (c : Config) → (clone c).limits ≡ c.limits
unfolding clone
limits-clone c = refl

module _ (url_parse : Str → Option Url) {A : Type 0} where
  pub compile-clone :
      (c : Config) (a : Option A) → compile url_parse (clone c) a ≡ compile url_parse c a
  unfolding compile
  compile-clone c a =
      simp (validate-clone, upstreams-clone, routes-clone, limits-clone, clone-clone)

  -- The data plane runs what the manager's configuration compiles to.
  pub record Agrees (a : Option A) (m : Manager A) : Type 0 where
    pub state : RuntimeState A
    pub running : m.data_plane.runtime ≡ some state
    pub compiled : compile url_parse m.config a ≡ ok state
    pub cloned : clone m.config ≡ m.config

  runs_config :
      (a : Option A) (m : Manager A) (g : Agrees a m)
      → (g.state.cfg ≡ m.config) × (g.state.authorizer ≡ a)
  runs_config a m g =
      let (valid, servable, copied, authorizer) =
        compile-IsServable url_parse m.config a g.state g.compiled in
      (copied ∙ g.cloned, authorizer)

  -- What `activate` does, by whether the listeners' settings are equal and the candidate compiles.
  pub activate_refused :
      (m : Manager A) (c : Config)
      → same_listeners m.config c ≡ false
      → activate url_parse m c ≡ (m, some restart_required)
  unfolding activate
  activate_refused m c h = rw h

  reconfigure_known :
      (s : Compile.Server A) (c : Config) (current : RuntimeState A)
      → s.runtime ≡ some current
      → same_listeners current.cfg c ≡ true
      → reconfigure url_parse s c ≡ reconfigure_with_authorizer url_parse s c current.authorizer
  unfolding reconfigure
  reconfigure_known s c current running same = simp (running, same, reconfigure)

  pub reconfigure_ok :
      (s : Compile.Server A) (c : Config) (a : Option A) (state : RuntimeState A)
      → compile url_parse c a ≡ ok state
      → reconfigure_with_authorizer url_parse s c a
        ≡ (record { runtime = some state; stopped = previous_state s.runtime ++ s.stopped }, none)
  unfolding reconfigure_with_authorizer
  reconfigure_ok s c a state h = rw (h, reconfigure_with_authorizer)

  reconfigure_err :
      (s : Compile.Server A) (c : Config) (a : Option A) (e : CompileError)
      → compile url_parse c a ≡ err e
      → reconfigure_with_authorizer url_parse s c a ≡ (s, some e)
  unfolding reconfigure_with_authorizer
  reconfigure_err s c a e h = rw (h, reconfigure_with_authorizer)

  module _ (a : Option A) (m : Manager A) (c : Config) (g : Agrees a m)
      (same : same_listeners m.config c ≡ true) where
    reconfigures :
        reconfigure url_parse m.data_plane c
        ≡ reconfigure_with_authorizer url_parse m.data_plane c a
    reconfigures =
        let (cfg, authorizer) = runs_config a m g in
        reconfigure_known m.data_plane c g.state g.running (rw cfg same)
        ∙ ap (reconfigure_with_authorizer url_parse m.data_plane c) authorizer

    pub activate_failed :
        (e : CompileError)
        → compile url_parse c a ≡ err e
        → activate url_parse m c ≡ (record_activation m, some e)
    unfolding activate
    activate_failed e h = rw same (
        ap (finish m c) (reconfigures ∙ reconfigure_err m.data_plane c a e h) ∙ failed_finish m c e)

    pub activate_done :
        (state : RuntimeState A)
        → compile url_parse c a ≡ ok state
        → activate url_parse m c
          ≡ finish m c (
            record {
              runtime = some state;
              stopped = previous_state m.data_plane.runtime ++ m.data_plane.stopped;
            },
            none,
          )
    unfolding activate
    activate_done state h =
        rw same (ap (finish m c) (reconfigures ∙ reconfigure_ok m.data_plane c a state h))
