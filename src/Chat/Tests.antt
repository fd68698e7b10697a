-- ===== src/Chat/Tests.antt =====
-- Multiprocessing/multiprocessingChatServer.cpp: a server with three users, in the slots 0 to 2.
use mathlib.Core.List.{Perm}
use linux_websocket.Prelude.{
  ℕ, ◌+◌, ◌<◌, ◌≡◌, ◌≢◌, refl, true, false, none, some, [], ◌∷◌, arith, ◌==◌, if◌then◌else◌,
}
use linux_websocket.Chat.{
  Server, ClientData, running, child, sigterm, sigchld, in_child, in_parent, on_connection, reap,
  on_signals,
}
use linux_websocket.Chat.Table.{IsConsistent, Serves, table}
use linux_websocket.Chat.Reaping.{Reaped, AllServe, reap-Perm, sigterm_stops}
use linux_websocket.Chat.Segments.{arriving, segment_shared}

abbrev user : ℕ → ClientData
user i = record {
  address = 0;
  connfd = 20 + i;
  pid = 100 + i;
  pipe_parent = 30 + i;
  pipe_child = 40 + i;
}

abbrev three : Server
three = record {
  epollfd = 3;
  listenfd = 4;
  sig_read = 5;
  sig_write = 6;
  users = user;
  user_count = 3;
  sub_process = λ p.
      if p == 100 then some 0 else if p == 101 then some 1 else if p == 102 then some 2 else none;
  stop_server = false;
  terminate = false;
  log = [];
}

three-mapped : (i : ℕ) → i < 3 → three.sub_process (user i).pid ≡ some i
three-mapped i h = ground arith

three-IsConsistent : IsConsistent three
three-IsConsistent = record { bounded = omega arith; mapped = three-mapped }

serves : (k : ℕ) → k < 3 → Serves three (100 + k) k
serves k h = record { slot = h; process = refl }

all_serve : AllServe three (102 ∷ 100 ∷ 101 ∷ [])
all_serve =
    ((2, serves 2 (omega arith)), ((0, serves 0 (omega arith)), ((1, serves 1 (omega arith)), tt)))

reap-Perm_example :
    (t : Server) × (reap three 100 ≡ running t)
    × Reaped three 1 t
    × Perm (table user 3) (user 0 ∷ table t.users t.user_count)
reap-Perm_example = reap-Perm three 100 0 three-IsConsistent (serves 0 (omega arith))

sigterm_stops_example :
    (t : Server) × (on_signals three (sigterm ∷ sigchld (102 ∷ 100 ∷ 101 ∷ []) ∷ []) ≡ running t)
    × (t.stop_server ≡ true)
    × (t.user_count ≡ 0)
sigterm_stops_example =
    sigterm_stops three (102 ∷ 100 ∷ 101 ∷ []) three-IsConsistent (omega arith) all_serve
      (omega arith) refl

fresh_pid : (i : ℕ) → i < 3 → (user i).pid ≢ 103
fresh_pid i h = ground arith

segment_shared_example :
    ((u : Server) × (on_connection three (arriving 23 0 33 43 in_child) ≡ child 3 u))
    × ((t : Server) × (on_connection three (arriving 23 0 33 43 (in_parent 103)) ≡ running t)
        × ((r : Server) × (reap t 100 ≡ running r)
            × ((i : ℕ) × Serves r 103 i)
            × ((v : Server) × (on_connection r (arriving 24 0 34 44 in_child) ≡ child 3 v))))
segment_shared_example =
    segment_shared three 0 100 103 23 0 33 43 24 0 34 44 three-IsConsistent (omega arith)
      (serves 0 (omega arith)) fresh_pid
