-- ===== src/Pool.antt =====
-- ThreadPool/processPool.h: class processpool, its construction and run_parent. The results of the
-- system calls are arguments; the log holds the calls that the rest of the system sees.
pub mod Child
pub mod Construct
pub mod Deaf
pub mod Dispatch
pub mod Joining
pub mod Loop
pub mod Run
pub mod Search
pub mod Tests
use linux_websocket.Prelude.{
  ℕ, zero, suc, ◌+◌, ◌%◌, Bool, true, false, not, ◌&&◌, Option, none, some, List, [], ◌∷◌, ◌++◌,
  ◌==◌, ltb, if◌then◌else◌, get_elem?, is_none, replicate,
}

abbrev pub max_process_number : ℕ
max_process_number = 16

abbrev pub Fd : Type 0
Fd = ℕ

abbrev pub Pid : Type 0
Pid = ℕ

-- `pid` is -1 where it is `none`; `pipes` is m_pipefd, `none` until socketpair sets it.
pub record Process : Type 0 where
  pub pid : Option Pid
  pub pipes : Option (Fd × Fd)

abbrev pub new_process : Process
new_process = record { pid = none; pipes = none }

pub data Action : Type 0 where
  closes : Fd → Action
  sends_new_conn : Fd → Action
  kills : Pid → Action

-- `idx` is -1, in the parent, where it is `none`.
pub record ProcessPool : Type 0 where
  pub process_number : ℕ
  pub idx : Option ℕ
  pub listenfd : Fd
  pub stop : Bool
  pub sub_process : List Process

pub data Forked : Type 0 where
  failed : Forked
  in_child : Forked
  in_parent : Pid → Forked

-- What socketpair and fork return in a round of the constructor's loop.
pub record Spawn : Type 0 where
  pub pair : Option (Fd × Fd)
  pub forked : Forked

-- What the rounds from `i` on leave: this process's index, the entries from `i` on, and the log;
-- `none` is an assert that fails.
abbrev pub Built : Type 0
Built = Option (Option ℕ × List Process × List Action)

pub cons_process : Process → Action → Built → Built
cons_process p a none = none
cons_process p a (some (idx, ps, acts)) = some (idx, p ∷ ps, a ∷ acts)

pub spawned : ℕ → ℕ → Option (Fd × Fd) → Forked → Built → Built
unfolding cons_process
spawned i n none f rest = none
spawned i n (some (p, q)) failed rest = none
spawned i n (some (p, q)) in_child rest =
    some (
      some i,
      record { pid = some 0; pipes = some (p, q) } ∷ replicate n new_process,
      closes p ∷ [],
    )
spawned i n (some (p, q)) (in_parent pid) rest =
    cons_process (record { pid = some pid; pipes = some (p, q) }) (closes q) rest

pub build : (ℕ → Spawn) → (i n : ℕ) → Built
unfolding spawned
build spawns i zero = some (none, [], [])
build spawns i (suc n) =
    let rest = build spawns (suc i) n in spawned i n (spawns i).pair (spawns i).forked rest

pub made : ℕ → ℕ → Built → Option (ProcessPool × List Action)
made listenfd n none = none
made listenfd n (some (idx, ps, acts)) = some (
  record { process_number = n; idx = idx; listenfd = listenfd; stop = false; sub_process = ps },
  acts,
)

-- The constructor.
pub construct : (listenfd process_number : ℕ) → (ℕ → Spawn) → Option (ProcessPool × List Action)
unfolding made
construct listenfd n spawns =
    if ltb 0 n && ltb n max_process_number then made listenfd n (build spawns 0 n) else none

-- The static create: `instance` is m_instance before the call, the result m_instance after it.
pub create :
    Option ProcessPool
    → (listenfd process_number : ℕ) → (ℕ → Spawn)
    → Option (ProcessPool × List Action)
create (some p) listenfd n spawns = some (p, [])
create none listenfd n spawns = construct listenfd n spawns

-- Whether m_sub_process[k].m_pid is -1; `k` is in range.
pub is_dead : List Process → ℕ → Bool
is_dead ps k = elim (get_elem? ps k) [ none ↦ true | some p ↦ is_none p.pid ]

-- The do-while loop of run_parent; `none` is no fuel.
pub search : List Process → (n counter : ℕ) → ℕ → ℕ → Option ℕ
search ps n counter zero j = none
search ps n counter (suc fuel) j =
    let next = (j + 1) % n in
    let rest = search ps n counter fuel next in
    if is_dead ps j then (if next == counter then some next else rest) else some j

-- The state of run_parent's loop.
pub record Parent : Type 0 where
  pub pool : ProcessPool
  pub sig_read : Fd
  pub sub_process_counter : ℕ
  pub log : List Action

pub data Outcome : Type 0 where
  running : Parent → Outcome
  breaks : Parent → Outcome
  out_of_range : Outcome
  out_of_fuel : Outcome

-- send(m_sub_process[i].m_pipefd[0], …)
pub send_to : Parent → Option Process → Outcome
send_to s none = out_of_range
send_to s (some p) = elim p.pipes [
  | none ↦ out_of_range
  | some (fd, _) ↦ running (record s { log = s.log ++ sends_new_conn fd ∷ [] })
]

-- `i` is the number of the event in its round, `j` the process that the search found.
pub chosen : Parent → (i : ℕ) → Option ℕ → Outcome
unfolding send_to
chosen s i none = out_of_fuel
chosen s i (some j) =
    let ps = s.pool.sub_process in
    if is_dead ps j
    then breaks (record s { pool = record s.pool { stop = true } })
    else send_to (record s { sub_process_counter = (j + 1) % s.pool.process_number })
        (get_elem? ps i)

pub on_connection : Parent → (i : ℕ) → Outcome
unfolding chosen
on_connection s i = chosen s i (
    search s.pool.sub_process s.pool.process_number s.sub_process_counter s.pool.process_number
      s.sub_process_counter)

-- The loop over the processes for one pid that waitpid returns.
pub join_process : Process → Pid → Process
join_process p pid = elim p.pid [
  | none ↦ p
  | some q ↦ if q == pid then record p { pid = none } else p
]

close_if_joined : Process → Pid → List Action
close_if_joined p pid = elim p.pid [
  | none ↦ []
  | some q ↦ if q == pid then (elim p.pipes [ none ↦ [] | some (fd, _) ↦ closes fd ∷ [] ]) else []
]

pub join_all : List Process → Pid → List Process
join_all [] pid = []
join_all (p ∷ ps) pid = join_process p pid ∷ join_all ps pid

pub close_joined : List Process → Pid → List Action
unfolding close_if_joined
close_joined [] pid = []
close_joined (p ∷ ps) pid = close_if_joined p pid ++ close_joined ps pid

pub all_dead : List Process → Bool
all_dead [] = true
all_dead (p ∷ ps) = is_none p.pid && all_dead ps

pub reap : Parent → Pid → Parent
reap s pid = record s {
  pool = record s.pool { sub_process = join_all s.pool.sub_process pid };
  log = s.log ++ close_joined s.pool.sub_process pid;
}

-- The loop over waitpid.
pub reap_all : Parent → List Pid → Parent
unfolding reap
reap_all s [] = s
reap_all s (pid ∷ pids) = reap_all (reap s pid) pids

pub kill_all : List Process → List Action
kill_all [] = []
kill_all (p ∷ ps) = elim p.pid [ none ↦ kill_all ps | some pid ↦ kills pid ∷ kill_all ps ]

-- A byte from the signal pipe; SIGCHLD comes with what waitpid returns.
pub data Signal : Type 0 where
  sigchld : List Pid → Signal
  sigterm sigint other : Signal

pub on_signal : Parent → Signal → Parent
on_signal s (sigchld pids) =
    let t = reap_all s pids in
    record t { pool = record t.pool { stop = all_dead t.pool.sub_process } }
on_signal s sigterm = record s { log = s.log ++ kill_all s.pool.sub_process }
on_signal s sigint = record s { log = s.log ++ kill_all s.pool.sub_process }
on_signal s other = s

pub on_signals : Parent → List Signal → Parent
on_signals s [] = s
on_signals s (x ∷ xs) = on_signals (on_signal s x) xs

-- An entry of `events`: `readable` is `events & EPOLLIN`, `signals` what recv reads.
pub record Event : Type 0 where
  pub sockfd : Fd
  pub readable : Bool
  pub signals : List Signal

pub on_event : Parent → (i : ℕ) → Event → Outcome
on_event s i ev =
    if ev.sockfd == s.pool.listenfd
    then on_connection s i
    else running (if (ev.sockfd == s.sig_read) && ev.readable then on_signals s ev.signals else s)

-- What follows an event or a round; a `break` leaves the loop.
abbrev pub continue_with : Outcome → (Parent → Outcome) → Outcome
continue_with (running s) f = f s
continue_with (breaks s) f = running s
continue_with out_of_range f = out_of_range
continue_with out_of_fuel f = out_of_fuel

-- The events from number `i` on.
pub on_events : Parent → (i : ℕ) → List Event → Outcome
on_events s i [] = running s
on_events s i (ev ∷ evs) = continue_with (on_event s i ev) λ t. on_events t (suc i) evs

-- run_parent's loop over the rounds of epoll_wait; `none` where it fails.
pub run_parent : Parent → List (Option (List Event)) → Outcome
run_parent s [] = running s
run_parent s (none ∷ rounds) = running s
run_parent s (some evs ∷ rounds) =
    let rest = continue_with (on_events s 0 evs) λ t. run_parent t rounds in
    if s.pool.stop then running s else rest
