-- ===== src/Examples/Connections.antt =====
-- A connection that is closed twice.
use go_serve.Common.{◌≤◌, arith}
use go_serve.Dataplane.Listener.{
  LimitedListener, limit_listener, acquire, accepted, close, acquires, accepts, closes, Reachable,
  start, next,
}
use go_serve.Dataplane.Listener.Admitted.{held, IsAccounted, Reachable-IsAccounted}

abbrev closed : LimitedListener
closed = close 0 (close 0 (accepted (acquire (limit_listener 2))))

reaches : Reachable 2 closed
unfolding limit_listener
reaches =
    next (next (next (next start (acquires (omega arith))) (accepts (omega arith))) (closes 0))
      (closes 0)

Reachable-IsAccounted_example : IsAccounted 2 closed × (held closed.connections ≤ 2)
Reachable-IsAccounted_example = Reachable-IsAccounted 2 closed reaches
