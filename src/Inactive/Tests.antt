-- ===== src/Inactive/Tests.antt =====
-- Timer/closeNonactiveConn.cpp: a server with the three clients of the timers' tests.
use linux_websocket.Prelude.{
  ℕ, ◌-◌, ◌≡◌, refl, false, none, some, [], ◌∷◌, arith, ◌==◌, if◌then◌else◌,
}
use linux_websocket.Timer.Heap.{null, TimerList, Heap}
use linux_websocket.Timer.Chain.{timer_of, IsList}
use linux_websocket.Timer.Tests.{cell, three_heap, three_list}
use linux_websocket.Inactive.{ClientData, Server, fault, on_connection}
use linux_websocket.Inactive.Accepting.{second_client_faults}

-- The clients have the descriptors 11 to 13, and their timers the addresses 1 to 3.
abbrev client : ℕ → ClientData
client fd = record { address = 0; socket_fd = fd; timer = fd - 10 }

abbrev server : TimerList → Heap → Server
server l h = record {
  main_epollfd = 3;
  global_epollfd = 0;
  listenfd = 4;
  pipe_read = 5;
  users = client;
  timer_lst = l;
  heap = h;
  timeout = false;
  stop_server = false;
  log = [];
}

abbrev three_clients : Server
three_clients = server three_list (three_heap 0)

abbrev one_heap : Heap
one_heap a = if a == 1 then some (timer_of (cell 1 10) null null) else none

abbrev one_client : Server
one_client = server (record { head = 1; tail = 1 }) one_heap

one-IsList : IsList one_heap (record { head = 1; tail = 1 }) (cell 1 10 ∷ [])
one-IsList = record {
  chain = (record { valid = omega arith; stored = refl }, tt);
  distinct = (refl, tt);
  head = refl;
  tail = λ _. refl;
}

second_client_faults_example : on_connection 9 one_client (some (12, 0)) 0 2 ≡ fault
second_client_faults_example =
    second_client_faults 9 one_client 12 0 0 2 (omega arith) (omega arith) (cell 1 10) one-IsList
      refl (omega arith)
