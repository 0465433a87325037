-- ===== src/Runtime/Activation.antt =====
-- `Activate` keeps the manager and its data plane in agreement.
use go_serve.Common.{
  ◌≡◌, ◌⊎◌, inl, inr, refl, sym, ap, ◌∙◌, Bool, true, false, Option, none, some, [], ◌++◌, Str, ok,
  err, >>=-eq-ok, ok_injective, Bool-cases, Result-cases,
}
use go_serve.Config.{Config, Url}
use go_serve.Config.Clone.{clone, clone-clone}
use go_serve.Dataplane.Compile
use go_serve.Dataplane.Compile.{
  CompileError, restart_required, RuntimeState, same_listeners, compile, previous_state,
  reconfigure_with_authorizer, new_server,
}
use go_serve.Runtime.{Manager, new_manager, activate, finish, record_activation}
use go_serve.Runtime.Agreement.{
  Agrees, compile-clone, activate_refused, activate_failed, activate_done, reconfigure_ok,
}

-- The manager after an activation that succeeded.
abbrev pub activated : {A : Type 0} → Manager A → Config → RuntimeState A → Manager A
activated m c state = record (record_activation m) {
  data_plane = record {
    runtime = some state;
    stopped = previous_state m.data_plane.runtime ++ m.data_plane.stopped;
  };
  config = clone c;
}

-- The manager after one that failed with `e`: at most the count of activations differs.
abbrev pub KeepsRunning : {A : Type 0} → Manager A → Manager A → Type 0
KeepsRunning m m' = (m'.config ≡ m.config) × (m'.data_plane ≡ m.data_plane)

keeps_recorded : {A : Type 0} (m : Manager A) → KeepsRunning m (record_activation m)
keeps_recorded m = elim (Bool-cases m.has_events) [
  | inl e ↦ rw e (refl, refl)
  | inr e ↦ rw e (refl, refl)
]

module _ (url_parse : Str → Option Url) {A : Type 0} where
  keeps-Agrees :
      (a : Option A) (m m' : Manager A)
      → KeepsRunning m m'
      → Agrees url_parse a m
      → Agrees url_parse a m'
  keeps-Agrees a m m' (config, plane) g = record {
    state = g.state;
    running = ap (λ (s : Compile.Server A). s.runtime) plane ∙ g.running;
    compiled = ap (λ c. compile url_parse c a) config ∙ g.compiled;
    cloned = ap clone config ∙ g.cloned ∙ sym config;
  }

  activated-Agrees :
      (a : Option A) (m : Manager A) (c : Config) (state : RuntimeState A)
      → compile url_parse c a ≡ ok state
      → Agrees url_parse a (activated m c state)
  activated-Agrees a m c state h = record {
    state = state;
    running = refl;
    compiled = compile-clone url_parse c a ∙ h;
    cloned = clone-clone c;
  }

  -- In a manager that agrees with its data plane, a candidate that needs a restart is refused with
  -- no change. Another candidate is compiled with the current authorizer. Where that fails, the
  -- manager keeps its configuration and the data plane its state; where it succeeds, the data plane
  -- runs the compiled state, the state before is stopped, and the manager holds a copy of the
  -- candidate.
  pub activate_lem :
      (a : Option A) (m : Manager A) (c : Config)
      → Agrees url_parse a m
      → ((same_listeners m.config c ≡ false)
          × (activate url_parse m c ≡ (m, some restart_required)))
        ⊎ ((same_listeners m.config c ≡ true)
            × (((e : CompileError) × (compile url_parse c a ≡ err e)
                  × (activate url_parse m c ≡ (record_activation m, some e)))
                ⊎ ((state : RuntimeState A) × (compile url_parse c a ≡ ok state)
                    × (activate url_parse m c ≡ (activated m c state, none)))))
  unfolding finish
  activate_lem a m c g = elim (Bool-cases (same_listeners m.config c)) [
    | inr other ↦ inl (other, activate_refused url_parse m c other)
    | inl same ↦ inr (
      same,
      elim (Result-cases (compile url_parse c a)) [
        | inl (e, h) ↦ inl (e, h, activate_failed url_parse a m c g same e h)
        | inr (state, h) ↦ inr (state, h, activate_done url_parse a m c g same state h)
      ],
    )
  ]

  -- Activation keeps the manager and its data plane in agreement, whether it succeeds or not: the
  -- data plane runs what the configuration that the manager holds compiles to.
  pub activate-Agrees :
      (a : Option A) (m : Manager A) (c : Config)
      → Agrees url_parse a m
      → Agrees url_parse a (activate url_parse m c).0
  activate-Agrees a m c g = elim (activate_lem a m c g) [
    | inl (other, h) ↦ rw h g
    | inr (same, inl (e, failed, h)) ↦
        rw h (keeps-Agrees a m (record_activation m) (keeps_recorded m) g)
    | inr (same, inr (state, done, h)) ↦ rw h (activated-Agrees a m c state done)
  ]

  new_server_built :
      (c : Config) (a : Option A) (s : Compile.Server A)
      → new_server url_parse c a ≡ ok s
      → (state : RuntimeState A) × (compile url_parse c a ≡ ok state) × (s.runtime ≡ some state)
  unfolding new_server reconfigure_with_authorizer
  new_server_built c a s h = elim (Result-cases (compile url_parse c a)) [
    | inl (e, failed) ↦ absurd (cc (rw (failed, reconfigure_with_authorizer, new_server) at h))
    | inr (state, done) ↦
        let built = ok_injective (rw (done, reconfigure_with_authorizer, new_server) at h) in
        (
          state,
          done,
          ap (λ (t : Compile.Server A). t.runtime) (sym built)
              ∙ ap (λ (r : Compile.Server A × Option CompileError). r.0.runtime)
                  (reconfigure_ok url_parse (record { runtime = none; stopped = [] }) c a state
                    done),
        )
  ]

  -- A manager that was created agrees with its data plane.
  pub new_manager-Agrees :
      (c : Config) (a : Option A) (events : Bool) (m : Manager A)
      → new_manager url_parse c a events ≡ ok m
      → Agrees url_parse a m
  unfolding new_manager
  new_manager-Agrees c a events m h =
      let (s, built, same) = >>=-eq-ok (new_server url_parse c a) _ h in
      let (state, compiled, runs) = new_server_built c a s built in
      rw (← ok_injective same) (record {
        state = state;
        running = runs;
        compiled = compile-clone url_parse c a ∙ compiled;
        cloned = clone-clone c;
      })

  -- An activation that fails keeps the configuration.
  pub activate_keeps :
      (a : Option A) (m : Manager A) (c : Config) (e : CompileError)
      → Agrees url_parse a m
      → (activate url_parse m c).1 ≡ some e
      → (activate url_parse m c).0.config ≡ m.config
  activate_keeps a m c e g h = elim (activate_lem a m c g) [
    | inl (other, r) ↦ rw r refl
    | inr (same, inl (e', failed, r)) ↦ rw r (keeps_recorded m).0
    | inr (same, inr (state, done, r)) ↦ absurd (cc)
  ]
