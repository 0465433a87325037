-- ===== src/Entry/System.antt =====
-- The running program under the requests to its admin API that change it, in the order in which the
-- control plane's lock admits them.
use go_serve.Common.{◌≡◌, Option, Str, ok}
use go_serve.Config.{Config}
use go_serve.Auth.Creation.{Middleware}
use go_serve.Dataplane.Compile.{CompileError}
use go_serve.Runtime.{Manager, activate}
use go_serve.ControlPlane.{ControlPlane, replace_config, rollback_config, set_draining}
use go_serve.Entry.{World, Running, start}

pub record System : Type 0 where
  pub control : ControlPlane CompileError
  pub manager : Manager Middleware

module _ {C : Type 0} (w : World C) where
  abbrev pub replace : Option Config → Str → System → System
  replace body tag s =
      let r = replace_config (activate w.url_parse) w.url_parse s.control s.manager body tag in
      record { control = r.0; manager = r.1 }

  abbrev pub roll_back : Str → System → System
  roll_back tag s =
      let r = rollback_config (activate w.url_parse) s.control s.manager tag in
      record { control = r.0; manager = r.1 }

  -- What the program can come to, started with the flag `path`.
  pub data Reachable (path : Str) : System → Type 0 where
    started :
        (r : Running C)
        → start w path ≡ ok r
        → Reachable path (record { control = r.control; manager = r.manager })
    replaced :
        {s : System} (body : Option Config) (tag : Str)
        → Reachable path s
        → Reachable path (replace body tag s)
    rolled_back : {s : System} (tag : Str) → Reachable path s → Reachable path (roll_back tag s)
    drained :
        {s : System}
        → Reachable path s
        → Reachable path (record { control = set_draining s.control; manager = s.manager })
