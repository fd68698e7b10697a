-- ===== src/Pool/Run/Tests.antt =====
-- ThreadPool/processPool.h: the second of three processes, from the constructor on, with one
-- client.
use linux_websocket.Prelude.{ℕ, zero, suc, ◌+◌, ◌≡◌, refl, true, false, none, some, [], ◌∷◌}
use linux_websocket.Pool.{
  new_process, ProcessPool, Spawn, in_child, in_parent, construct, build, made, spawned,
  cons_process, closes, sigterm,
}
use linux_websocket.Pool.Child.{got}
use linux_websocket.Pool.Run.{ChildRounds, Fares, run, construct-run}

-- fork returns 0 in the second round.
abbrev forks : ℕ → Spawn
forks zero = record { pair = some (20, 30); forked = in_parent 100 }
forks (suc i) = record { pair = some (21 + i, 31 + i); forked = in_child }

abbrev second : ProcessPool
second = record {
  process_number = 3;
  idx = some 1;
  listenfd = 4;
  stop = false;
  sub_process =
      record { pid = some 100; pipes = some (20, 30) }
      ∷ record { pid = some 0; pipes = some (21, 31) }
      ∷ new_process
      ∷ [];
}

construct-second : construct 4 3 forks ≡ some (second, closes 30 ∷ closes 21 ∷ [])
unfolding construct build made spawned cons_process
construct-second = refl

abbrev one_client : ChildRounds
one_client =
    some (
      record { sockfd = 31; readable = true; received = got; accepted = some (9, 70); signals = [] }
      ∷ [])
    ∷ some (
        record {
          sockfd = 6;
          readable = true;
          received = got;
          accepted = none;
          signals = sigterm ∷ [];
        }
        ∷ [])
    ∷ []

construct-run_example :
    Fares second 5 6 one_client
      (some 1)
      (run (λ u e f a. a) suc 0 second (some 5) (some (6, 7)) [] one_client)
construct-run_example =
    construct-run (λ u e f a. a) suc 0 4 3 forks second (closes 30 ∷ closes 21 ∷ []) 5 6 7 []
      one_client construct-second
