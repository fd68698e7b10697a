-- ===== src/Inactive/View/Tests.antt =====
-- Timer/closeNonactiveConn.cpp: a client that connects, sends data and then stays silent.
use linux_websocket.Prelude.{ℕ, ◌≡◌, refl, true, false, Option, none, some, List, [], ◌∷◌, arith}
use linux_websocket.Timer.Heap.{null}
use linux_websocket.Inactive.{
  Fd, Server, running, got, Signal, sigalrm, Event, serve, adds_fd, deletes_fd, closes, sets_alarm,
}
use linux_websocket.Timer.Insert.{insert, added}
use linux_websocket.Timer.Tick.{expired, remaining}
use linux_websocket.Inactive.View.{View, Setting, RoundsPlausible, view_rounds, view_event, extend}
use linux_websocket.Inactive.View.Refines.{Shows}
use linux_websocket.Inactive.View.Rounds.{serve-View}

abbrev setting : Setting
setting = record { main_epollfd = 3; global_epollfd = 0; listenfd = 4; pipe_read = 5 }

abbrev idle : Server
idle = record {
  main_epollfd = 3;
  global_epollfd = 0;
  listenfd = 4;
  pipe_read = 5;
  users = λ fd. record { address = 0; socket_fd = 0; timer = null };
  timer_lst = record { head = null; tail = null };
  heap = λ a. none;
  timeout = false;
  stop_server = false;
  log = [];
}

abbrev idle_view : View
idle_view = record { cells = []; timeout = false; stop_server = false; log = [] }

idle-Shows : Shows setting idle idle_view
idle-Shows = record {
  list = record { chain = tt; distinct = tt; head = refl; tail = λ n. absurd (n refl) };
  owned = tt;
  timeout = refl;
  stop_server = refl;
  log = refl;
  main_epollfd = refl;
  global_epollfd = refl;
  listenfd = refl;
  pipe_read = refl;
}

abbrev event_on : Fd → Option (Fd × ℕ) → (cur : ℕ) → List Signal → Event
event_on fd accepted cur signals = record {
  sockfd = fd;
  readable = true;
  accepted = accepted;
  new_timer = 1;
  cur = cur;
  signals = signals;
  received = got;
}

-- The connection at the time 0, the data at 5, the alarms at 10 and at 25.
abbrev quiet_rounds : List (Option (List Event × ℕ))
quiet_rounds =
    some (event_on 4 (some (11, 0)) 0 [] ∷ [], 0)
    ∷ some (event_on 11 none 5 [] ∷ [], 5)
    ∷ some (event_on 5 none 10 (sigalrm ∷ []) ∷ [], 10)
    ∷ some (event_on 5 none 25 (sigalrm ∷ []) ∷ [], 25)
    ∷ []

-- The client is closed at the second alarm.
quiet_log :
    (view_rounds setting idle_view quiet_rounds).log
    ≡ adds_fd 3 11 ∷ sets_alarm 5 ∷ deletes_fd 0 11 ∷ closes 11 ∷ sets_alarm 5 ∷ []
unfolding view_rounds view_event expired extend added insert remaining
quiet_log = refl

quiet-RoundsPlausible : RoundsPlausible setting idle_view quiet_rounds
unfolding view_rounds view_event expired extend added insert remaining
quiet-RoundsPlausible = (
  (
    record {
      arrives = λ _. record {
        fd = 11;
        address = 0;
        accepted = refl;
        below = omega arith;
        unknown = refl;
        valid = omega arith;
        fresh = refl;
        placed = λ e. cc;
      };
      known = λ e. cc;
    },
    tt,
  ),
  (
    (record { arrives = λ e. cc; known = λ e f g. refl }, tt),
    (
      (record { arrives = λ e. cc; known = λ e f. cc }, tt),
      ((record { arrives = λ e. cc; known = λ e f. cc }, tt), tt),
    ),
  ),
)

serve-View_example :
    (t : Server) × (serve 9 idle quiet_rounds ≡ running t)
    × Shows setting t (view_rounds setting idle_view quiet_rounds)
serve-View_example =
    serve-View setting 9 idle idle_view quiet_rounds idle-Shows (omega arith) quiet-RoundsPlausible
