-- ===== src/Runtime.antt =====
-- `Manager` of internal/runtime/manager.go. Its mutex makes each method one step; the authorizer is
-- any type `A`, and the calls of `RecordActivation` are counted where there is an event sink.
pub mod Agreement
pub mod Activation
use go_serve.Common.{
  ℕ, ◌+◌, Bool, true, false, not, Option, none, some, Str, if◌then◌else◌, Result, ok, err, ◌>>=◌,
}
use go_serve.Config.{Config, Url}
use go_serve.Config.Clone.{clone}
use go_serve.Dataplane.Compile
use go_serve.Dataplane.Compile.{
  CompileError, restart_required, same_listeners, new_server, reconfigure, close_server,
}

pub record Manager (A : Type 0) : Type 0 where
  pub config : Config
  pub data_plane : Compile.Server A
  pub has_events : Bool
  pub activations : ℕ

abbrev pub record_activation : {A : Type 0} → Manager A → Manager A
record_activation m = if m.has_events then record m { activations = m.activations + 1 } else m

-- What follows the call of `Reconfigure`.
unfoldable pub finish :
    {A : Type 0}
    → Manager A
    → Config
    → Compile.Server A × Option CompileError
    → Manager A × Option CompileError
finish m candidate (data_plane, none) =
    (record (record_activation m) { data_plane = data_plane; config = clone candidate }, none)
finish m candidate (data_plane, some e) =
    (record (record_activation m) { data_plane = data_plane }, some e)

module _ (url_parse : Str → Option Url) where
  -- `NewWithEvents`
  unfoldable pub new_manager :
      {A : Type 0} → Config → Option A → Bool → Result CompileError (Manager A)
  new_manager cfg authorizer events = new_server url_parse cfg authorizer >>= λ data_plane.
      ok (record {
        config = clone cfg;
        data_plane = data_plane;
        has_events = events;
        activations = 0;
      })

  unfoldable pub activate : {A : Type 0} → Manager A → Config → Manager A × Option CompileError
  unfolding finish
  activate m candidate =
      if same_listeners m.config candidate
      then finish m candidate (reconfigure url_parse m.data_plane candidate)
      else (m, some restart_required)

-- `Manager.Close`
unfoldable pub close_manager : {A : Type 0} → Manager A → Manager A
unfolding close_server
close_manager m = record m { data_plane = close_server m.data_plane }
