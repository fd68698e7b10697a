-- ===== src/Pool/Tests.antt =====
-- ThreadPool/processPool.h: a pool of three processes, of which the second has ended.
use linux_websocket.Prelude.{
  ℕ, zero, suc, ◌+◌, ◌≡◌, ◌≢◌, ◌↔◌, refl, true, false, Option, none, some, List, [], ◌∷◌, arith,
  get_elem?,
}
use linux_websocket.Pool.{
  Process, ProcessPool, Parent, Action, sends_new_conn, running, out_of_range, Spawn, in_parent,
  construct, build, spawned, cons_process, made, is_dead, search, on_connection, on_signal, sigchld,
  sigterm, Event, run_parent,
}
use linux_websocket.Pool.Search.{Found, search-Found}
use linux_websocket.Pool.Dispatch.{IsReady, connection_misdirected, connection_out_of_range}
use linux_websocket.Pool.Joining.{AllJoined, map_joined, sigchld_stops}
use linux_websocket.Pool.Child.{setup_sig_pipe}
use linux_websocket.Pool.Child
use linux_websocket.Pool.Deaf.{dispatches, parent_never_dispatches}
use linux_websocket.Pool.Loop.{started}

abbrev process : Option ℕ → ℕ → Process
process pid fd = record { pid = pid; pipes = some (fd, fd + 1) }

abbrev three : List Process
three = process (some 100) 20 ∷ process none 22 ∷ process (some 102) 24 ∷ []

abbrev pool : ProcessPool
pool = record { process_number = 3; idx = none; listenfd = 4; stop = false; sub_process = three }

-- The second process is next, but has ended: the third is chosen.
abbrev parent : Parent
parent = record { pool = pool; sig_read = 5; sub_process_counter = 1; log = [] }

three-pipes : (k : ℕ) (p : Process) → get_elem? three k ≡ some p → p.pipes ≢ none
three-pipes zero p e m = ground (arith, e, m)
three-pipes (suc zero) p e m = ground (arith, e, m)
three-pipes (suc (suc zero)) p e m = ground (arith, e, m)
three-pipes (suc (suc (suc k))) p e m = cc

parent-IsReady : IsReady parent
parent-IsReady = record { number = refl; counter = omega arith; pipes = three-pipes }

search-Found_example : (j : ℕ) × (search three 3 1 3 1 ≡ some j) × Found three 3 1 j
search-Found_example = search-Found three 3 1 (omega arith)

search_skips : search three 3 1 3 1 ≡ some 2
unfolding search is_dead
search_skips = refl

connection_misdirected_example :
    (p : Process) × (get_elem? three 0 ≡ some p)
    × ((fd : ℕ) × (back : ℕ) × (p.pipes ≡ some (fd, back))
        × ((t : Parent) × (on_connection parent 0 ≡ running t) × (t.log ≡ sends_new_conn fd ∷ [])))
unfolding is_dead
connection_misdirected_example =
    connection_misdirected parent 0 1 parent-IsReady (omega arith) refl (omega arith)

connection_out_of_range_example : on_connection parent 3 ≡ out_of_range
unfolding is_dead
connection_out_of_range_example =
    connection_out_of_range parent 3 1 parent-IsReady (omega arith) refl (omega arith)

sigchld_stops_example :
    ((on_signal parent (sigchld (100 ∷ 102 ∷ []))).pool.sub_process
      ≡ map_joined (100 ∷ 102 ∷ []) three)
    × (((on_signal parent (sigchld (100 ∷ 102 ∷ []))).pool.stop ≡ true)
        ↔ AllJoined (100 ∷ 102 ∷ []) three)
sigchld_stops_example = sigchld_stops parent (100 ∷ 102 ∷ [])

-- socketpair and fork work in every round.
abbrev spawns : ℕ → Spawn
spawns i = record { pair = some (20 + i, 30 + i); forked = in_parent (100 + i) }

abbrev two : List Process
two =
    record { pid = some 100; pipes = some (20, 30) }
    ∷ record { pid = some 101; pipes = some (21, 31) }
    ∷ []

abbrev built : ProcessPool
built = record { process_number = 2; idx = none; listenfd = 4; stop = false; sub_process = two }

abbrev closed : List Action
closed = Action.closes 30 ∷ Action.closes 31 ∷ []

construct-two : construct 4 2 spawns ≡ some (built, closed)
unfolding construct build made spawned cons_process
construct-two = refl

abbrev rounds : List (Option (List Event))
rounds =
    some (
      record { sockfd = 4; readable = true; signals = [] }
      ∷ record { sockfd = 5; readable = true; signals = sigchld (100 ∷ []) ∷ [] }
      ∷ [])
    ∷ none
    ∷ []

-- A signal to stop, and the end of a process.
abbrev signal_rounds : List (Option (List Event))
signal_rounds =
    some (record { sockfd = 5; readable = true; signals = sigterm ∷ [] } ∷ [])
    ∷ some (record { sockfd = 5; readable = true; signals = sigchld (100 ∷ []) ∷ [] } ∷ [])
    ∷ []

parent_never_dispatches_example :
    (t : Parent) × (run_parent (started pool 5) signal_rounds ≡ running t)
    × (dispatches t.log ≡ false)
unfolding setup_sig_pipe
parent_never_dispatches_example =
    parent_never_dispatches pool 8 5 6 (record { epollfd = 8; sig_read = 5; sig_write = 6 })
      (Child.adds_fd 8 5 ∷ []) signal_rounds refl (ground arith) ((refl, tt), ((refl, tt), tt))
