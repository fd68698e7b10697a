-- ===== src/Unievent/Main.antt =====
-- Signal/unievent.cpp: the whole of main.
pub mod Tests
use linux_websocket.Prelude.{ℕ, ◌%◌, ◌≡◌, Bool, true, Option, none, some, List, leb, if◌then◌else◌}
use linux_websocket.Unievent.{Fd, Server, Wait, set_up, serve, shut_down}

-- What the calls before the loop return; `none` and `false` stand for -1. `handles` is whether the
-- four calls of sigaction work.
pub record Calls : Type 0 where
  pub socket : Option Fd
  pub bind : Bool
  pub listen : Bool
  pub epoll_create : Option Fd
  pub socketpair : Option (Fd × Fd)
  pub handles : Bool

-- An assert fails; or main returns 1 before the loop; or it returns 0 behind it.
pub data Ended : Type 0 where
  aborted : Ended
  refused : Ended
  served : Server → Ended

-- From epoll_create on.
pub run_loop : (listenfd : Fd) → Option Fd → Option (Fd × Fd) → (handles : Bool) → List Wait → Ended
run_loop listenfd none pair handles ws = aborted
run_loop listenfd (some epollfd) none handles ws = aborted
run_loop listenfd (some epollfd) (some (p, q)) handles ws =
    if handles then served (shut_down (serve (set_up epollfd listenfd p q) ws).0) else aborted

-- Where bind fails, main returns 1; where another call fails, an assert does.
pub with_socket : Option Fd → Calls → List Wait → Ended
unfolding run_loop
with_socket none c ws = aborted
with_socket (some listenfd) c ws =
    if c.bind
    then if c.listen then run_loop listenfd c.epoll_create c.socketpair c.handles ws else aborted
    else refused

pub main : (argc : ℕ) → Calls → List Wait → Ended
unfolding with_socket
main argc c ws = if leb argc 2 then refused else with_socket c.socket c ws

abbrev pub working : (epollfd listenfd pipe_read pipe_write : Fd) → Calls
working epollfd listenfd pipe_read pipe_write = record {
  socket = some listenfd;
  bind = true;
  listen = true;
  epoll_create = some epollfd;
  socketpair = some (pipe_read, pipe_write);
  handles = true;
}

-- The descriptors that main closes at its end.
record Same (s t : Server) : Type 0 where
  listenfd : t.listenfd ≡ s.listenfd
  pipe_write : t.pipe_write ≡ s.pipe_write
  pipe_read : t.pipe_read ≡ s.pipe_read
