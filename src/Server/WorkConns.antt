-- ===== src/Server/WorkConns.antt =====
-- src/server/control.go: the pool of work connections of a control. Connections are numbers; the channel is
-- a list with a capacity. GetWorkConn is parted where it waits. Whether the dispatcher still sends, and
-- whether the time is over, are arguments.
pub mod Fifo
mod Examples
use frpcv.Prelude.{
  ltb, if◌then◌else◌, text_eq, nat_eq, length, ℕ, ◌+◌, min, Bool, true, false, List, [], ◌∷◌, ◌++◌,
}

pub record WorkConns : Type 0 where
  pub capacity : ℕ
  pub conns : List ℕ
  pub closed : Bool
  pub requests : ℕ

pub data GetResult : Type 0 where
  conn : ℕ → GetResult
  ctl_closed send_failed timed_out waits : GetResult

-- `NewControl` and the requests of `Start`
abbrev pub start : ℕ → ℕ → WorkConns
start wanted max_pool_count = record {
  capacity = min wanted max_pool_count + 10;
  conns = [];
  closed = false;
  requests = min wanted max_pool_count;
}

-- Whether there is no error: sending on a closed channel panics, and the recovered call returns none.
unfoldable pub register_work_conn : WorkConns → ℕ → WorkConns × Bool
register_work_conn w c =
    if w.closed
    then (w, true)
    else if ltb (length w.conns) w.capacity
    then (record w { conns = w.conns ++ c ∷ [] }, true)
    else (w, false)

-- A `ReqWorkConn`; its error is ignored.
unfoldable pub request : Bool → WorkConns → WorkConns
request sends w = if sends then record w { requests = w.requests + 1 } else w

-- One select on the channel, `otherwise` when it has nothing.
unfoldable pub take_conn : Bool → WorkConns → List ℕ → WorkConns × GetResult → WorkConns × GetResult
unfolding request
take_conn sends w [] otherwise = if w.closed then (w, ctl_closed) else otherwise
take_conn sends w (c ∷ cs) otherwise = (request sends (record w { conns = cs }), conn c)

-- `GetWorkConn` up to its wait
unfoldable pub get_work_conn : Bool → WorkConns → WorkConns × GetResult
unfolding take_conn
get_work_conn sends w =
    take_conn sends w w.conns (if sends then (request true w, waits) else (w, send_failed))

-- `GetWorkConn` while it waits
unfoldable pub wait_work_conn : Bool → Bool → WorkConns → WorkConns × GetResult
unfolding take_conn
wait_work_conn sends is_over w =
    if is_over then (w, timed_out) else take_conn sends w w.conns (w, waits)

-- The end of a control closes the channel and then each connection that is left.
unfoldable pub close_work_conns : WorkConns → WorkConns
close_work_conns w = record w { closed = true }

unfoldable pub close_left : WorkConns → WorkConns × List ℕ
close_left w = (record w { conns = [] }, w.conns)
