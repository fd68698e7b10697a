-- ===== src/Chat/Child/Tests.antt =====
-- Multiprocessing/multiprocessingChatServer.cpp: two child processes over one shared memory.
use linux_websocket.Prelude.{ℕ, ◌+◌, ◌≡◌, true, false, List, [], ◌∷◌, arith, inr}
use linux_websocket.Chat.Child.{
  Child, Memory, ChildEvent, eof, got, interrupted, returns_events, client_readable, run_child,
}
use linux_websocket.Chat.Child.Relay.{run_child_elsewhere}

abbrev empty : Memory
empty a = 0

abbrev process : ℕ → Memory → Child
process i m = record {
  idx = i;
  epollfd = 7;
  connfd = 20 + i;
  pipefd = 40 + i;
  stop_child = false;
  share_mem = m;
  log = [];
}

abbrev hello : List ℕ
hello = b'h' ∷ b'i' ∷ []

abbrev says_hello : ChildEvent
says_hello = record { sockfd = 21; readable = true; from_client = got hello; from_parent = eof }

run_child_elsewhere_example :
    (run_child (process 1 empty) (returns_events (says_hello ∷ []) ∷ interrupted ∷ [])).share_mem
      5000
    ≡ 0
run_child_elsewhere_example =
    run_child_elsewhere (process 1 empty) (returns_events (says_hello ∷ []) ∷ interrupted ∷ [])
      ((omega arith, tt), tt) 5000 (inr (omega arith))

abbrev reader : Child
reader = process 2 (client_readable (process 1 empty) (got hello)).share_mem
