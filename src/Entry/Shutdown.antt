-- ===== src/Entry/Shutdown.antt =====
-- The shutdown of cmd/server/main.go: the goroutine that waits for the signal, the two that serve,
-- and `main`, which waits for the first of these. `Shutdown` of net/http stops the listener at once,
-- upon which `Serve` returns `ErrServerClosed`, and returns itself when the requests have ended or at
-- the deadline; no `Serve` fails of itself here. A request that is in flight is a count.
-- The `Close` of the cluster node, which the first goroutine ends with, is not part of it.
pub mod Ordering
pub mod Abandoned
use go_serve.Common.{ℕ, zero, suc, ◌+◌, ◌-◌, ◌<◌, ◌≡◌, Bool, true, false, Option, Str, ok}
use go_serve.Config.{Config}
use go_serve.ControlPlane.{set_draining}
use go_serve.Runtime.{close_manager}
use go_serve.Entry.{World, Running, start}
use go_serve.Entry.System.{System, replace, roll_back}

-- How far the goroutine is that waits for the signal.
pub data Stage : Type 0 where
  waiting draining closing_control closing_public closed : Stage

-- `served` counts the values that were sent to `serverErrors`.
pub record Process : Type 0 where
  pub system : System
  pub stage : Stage
  pub control_listens : Bool
  pub public_listens : Bool
  pub control_requests : ℕ
  pub public_requests : ℕ
  pub control_returned : Bool
  pub public_returned : Bool
  pub served : ℕ
  pub exited : Bool

unfoldable pub launched : {C : Type 0} → Running C → Process
launched r = record {
  system = record { control = r.control; manager = r.manager };
  stage = waiting;
  control_listens = true;
  public_listens = true;
  control_requests = 0;
  public_requests = 0;
  control_returned = false;
  public_returned = false;
  served = 0;
  exited = false;
}

abbrev pub drain : System → System
drain s = record s { control = set_draining s.control }

abbrev pub stop_workers : System → System
stop_workers s = record s { manager = close_manager s.manager }

module _ {C : Type 0} (w : World C) where
  pub data Step : Process → Process → Type 0 where
    control_arrives :
        {p : Process}
        → p.control_listens ≡ true
        → Step p (record p { control_requests = p.control_requests + 1 })
    public_arrives :
        {p : Process}
        → p.public_listens ≡ true
        → Step p (record p { public_requests = p.public_requests + 1 })
    control_finishes :
        {p : Process}
        → 0 < p.control_requests
        → Step p (record p { control_requests = p.control_requests - 1 })
    public_finishes :
        {p : Process}
        → 0 < p.public_requests
        → Step p (record p { public_requests = p.public_requests - 1 })
    replaces :
        {p : Process} (body : Option Config) (tag : Str)
        → 0 < p.control_requests
        → Step p (record p { system = replace w body tag p.system })
    rolls_back :
        {p : Process} (tag : Str)
        → 0 < p.control_requests
        → Step p (record p { system = roll_back w tag p.system })
    -- the signal arrives
    drains :
        {p : Process}
        → p.stage ≡ waiting
        → Step p (record p { system = drain p.system; stage = draining })
    -- the pause ends, and the control server's `Shutdown` begins
    closes_control :
        {p : Process}
        → p.stage ≡ draining
        → Step p (record p { stage = closing_control; control_listens = false })
    -- it returns, and the public server's begins
    closes_public :
        {p : Process}
        → p.stage ≡ closing_control
        → Step p (record p { stage = closing_public; public_listens = false })
    -- that returns, and the manager is closed
    closes_manager :
        {p : Process}
        → p.stage ≡ closing_public
        → Step p (record p { system = stop_workers p.system; stage = closed })
    control_returns :
        {p : Process}
        → p.control_listens ≡ false
        → p.control_returned ≡ false
        → Step p (record p { control_returned = true; served = p.served + 1 })
    public_returns :
        {p : Process}
        → p.public_listens ≡ false
        → p.public_returned ≡ false
        → Step p (record p { public_returned = true; served = p.served + 1 })
    -- `main` receives a value, and returns
    exits :
        {p : Process} → 0 < p.served → Step p (record p { served = p.served - 1; exited = true })

  -- What a process that was started with the flag `path` can come to; nothing happens after its exit.
  pub data Reachable (path : Str) : Process → Type 0 where
    launches : (r : Running C) → start w path ≡ ok r → Reachable path (launched r)
    next : {p q : Process} → Reachable path p → p.exited ≡ false → Step p q → Reachable path q
