-- ===== src/Pool/Child/Tests.antt =====
-- ThreadPool/processPool.h: the second process of a pool, with a client that it counts the data of.
use linux_websocket.Prelude.{
  ℕ, suc, ◌≡◌, refl, true, false, Option, none, some, List, [], ◌∷◌, ◌++◌,
}
use linux_websocket.Pool.{Fd, Process, new_process, ProcessPool, Signal, sigterm, sigchld}
use linux_websocket.Pool.Child.{Child, Event, got, goes_on, adds_fd, closes, run_child}
use linux_websocket.Pool.Child.Tasks.{tasks, task_of, stopping, watches, history}
use linux_websocket.Pool.Child.Clients.{run_child-history}

abbrev first_data : ℕ → (epollfd connfd address : ℕ) → ℕ
first_data u e f a = a

abbrev second_process : Process
second_process = record { pid = some 0; pipes = some (12, 13) }

abbrev in_second : ProcessPool
in_second = record {
  process_number = 3;
  idx = some 1;
  listenfd = 3;
  stop = false;
  sub_process =
      record { pid = some 100; pipes = some (10, 11) } ∷ second_process ∷ new_process ∷ [];
}

abbrev event : Fd → Option (Fd × ℕ) → List Signal → Event
event fd accepted signals = record {
  sockfd = fd;
  readable = true;
  received = got;
  accepted = accepted;
  signals = signals;
}

-- A client on 20, data from it, a stop with data behind it, and a round that comes too late.
abbrev child_rounds : List (Option (List Event))
child_rounds =
    some (event 13 (some (20, 70)) [] ∷ event 20 none [] ∷ [])
    ∷ some (event 6 none (sigchld (9 ∷ []) ∷ sigterm ∷ []) ∷ event 20 none [] ∷ [])
    ∷ some (event 20 none [] ∷ [])
    ∷ []

counted : history first_data suc 5 20 (tasks 13 6 child_rounds) 0 ≡ 72
unfolding tasks task_of stopping goes_on
counted = refl

run_child-history_example :
    (d : Child ℕ) × (run_child first_data suc 0 in_second (some 5) (some (6, 7)) child_rounds
      ≡ some d)
    × ((fd : Fd) → d.users fd ≡ history first_data suc 5 fd (tasks 13 6 child_rounds) 0)
    × (d.log
        ≡ (adds_fd 5 6 ∷ adds_fd 5 13 ∷ [])
          ++ watches 5 (tasks 13 6 child_rounds)
          ++ closes 13 ∷ closes 5 ∷ [])
run_child-history_example =
    run_child-history first_data suc 0 in_second 1 second_process 12 13 5 6 7 child_rounds refl refl
      refl refl
