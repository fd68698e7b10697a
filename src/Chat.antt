-- ===== src/Chat.antt =====
-- Multiprocessing/multiprocessingChatServer.cpp: the parent process. A handler takes the results
-- of the system calls that it makes and returns the new state, whose log holds the calls that the
-- rest of the system sees.
pub mod Broadcast
pub mod Child
pub mod Main
pub mod Reaping
pub mod Room
pub mod Rounds
pub mod Safety
pub mod Segments
pub mod Tests
pub mod Table
use linux_websocket.Prelude.{
  ℕ, zero, suc, ◌+◌, ◌-◌, Bool, true, false, not, ◌&&◌, Option, none, some, List, [], ◌∷◌, ◌++◌,
  ◌==◌, ltb, leb, if◌then◌else◌,
}

abbrev pub user_limit : ℕ
user_limit = 5

abbrev pub buffer_size : ℕ
buffer_size = 1024

-- A file descriptor, a process id.
abbrev pub Fd : Type 0
Fd = ℕ

abbrev pub Pid : Type 0
Pid = ℕ

-- `pipe_parent` and `pipe_child` are pipefd[0] and pipefd[1].
pub record ClientData : Type 0 where
  pub address : ℕ
  pub connfd : Fd
  pub pid : Pid
  pub pipe_parent : Fd
  pub pipe_child : Fd

pub data Effect : Type 0 where
  adds_fd : (epollfd fd : Fd) → Effect
  deletes_fd : (epollfd fd : Fd) → Effect
  closes : Fd → Effect
  sends_refusal : Fd → Effect
  sends_index : (fd : Fd) (client_idx : ℕ) → Effect
  kills : Pid → Effect

-- `sub_process` is -1 where it is `none`.
pub record Server : Type 0 where
  pub epollfd : Fd
  pub listenfd : Fd
  pub sig_read : Fd
  pub sig_write : Fd
  pub users : ℕ → ClientData
  pub user_count : ℕ
  pub sub_process : Pid → Option ℕ
  pub stop_server : Bool
  pub terminate : Bool
  pub log : List Effect

abbrev pub update {ℓ} : {A : Type ℓ} → (ℕ → A) → ℕ → A → ℕ → A
update f i v j = if i == j then v else f j

abbrev pub emit : Server → List Effect → Server
emit s es = record s { log = s.log ++ es }

-- What a handler leaves: the parent goes on, an assert fails, an array index is out of range, or
-- this process is the child that serves client `idx`.
pub data Outcome : Type 0 where
  running : Server → Outcome
  aborted : Outcome
  out_of_range : Outcome
  child : (idx : ℕ) → Server → Outcome

pub data Forked : Type 0 where
  failed : Forked
  in_child : Forked
  in_parent : Pid → Forked

-- The results of the calls of accept, socketpair and fork.
pub record Arrival : Type 0 where
  pub accepted : Option (Fd × ℕ)
  pub pair : Option (Fd × Fd)
  pub forked : Forked

pub start_child : Server → ClientData → Server
start_child s u = emit s (
    closes s.epollfd
    ∷ closes s.listenfd
    ∷ closes u.pipe_parent
    ∷ closes s.sig_read
    ∷ closes s.sig_write
    ∷ [])

pub register : Server → ClientData → Pid → Server
register s u pid = record s {
  users = update s.users s.user_count (record u { pid = pid });
  sub_process = update s.sub_process pid (some s.user_count);
  user_count = s.user_count + 1;
  log = s.log ++ closes u.connfd ∷ closes u.pipe_child ∷ adds_fd s.epollfd u.pipe_parent ∷ [];
}

-- The slot of the new client is written before the fork, and stays so if the fork fails.
pub after_fork : Server → ClientData → Forked → Outcome
unfolding start_child register
after_fork s u failed =
    running (emit (record s { users = update s.users s.user_count u }) (closes u.connfd ∷ []))
after_fork s u in_child =
    child s.user_count (start_child (record s { users = update s.users s.user_count u }) u)
after_fork s u (in_parent pid) = running (register s u pid)

pub admit_client : Server → Fd → ℕ → Option (Fd × Fd) → Forked → Outcome
unfolding after_fork
admit_client s connfd address none f = aborted
admit_client s connfd address (some (p, q)) f =
    after_fork s
      (record (s.users s.user_count) {
        address = address;
        connfd = connfd;
        pipe_parent = p;
        pipe_child = q;
      })
      f

pub accept_client : Server → Option (Fd × ℕ) → Option (Fd × Fd) → Forked → Outcome
unfolding admit_client
accept_client s none pair f = running s
accept_client s (some (connfd, address)) pair f =
    if leb user_limit s.user_count
    then running (emit s (sends_refusal connfd ∷ closes connfd ∷ []))
    else admit_client s connfd address pair f

pub on_connection : Server → Arrival → Outcome
unfolding accept_client
on_connection s a = accept_client s a.accepted a.pair a.forked

-- `users[dead_client_idx] = users[--user_count]`, and what stands round it.
pub drop_user : Server → ℕ → Server
drop_user s dead =
    let gone = s.users dead in
    let moved = s.users (s.user_count - 1) in
    record s {
      users = update s.users dead moved;
      user_count = s.user_count - 1;
      sub_process = update s.sub_process moved.pid (some dead);
      log = s.log ++ deletes_fd s.epollfd gone.pipe_parent ∷ closes gone.pipe_parent ∷ [];
    }

pub reap_slot : Server → Option ℕ → Outcome
unfolding drop_user
reap_slot s none = running s
reap_slot s (some dead) =
    if ltb user_limit dead
    then running s
    else if s.user_count == 0
    then out_of_range
    else running (drop_user s dead)

-- One round of the loop over waitpid.
pub reap : Server → Pid → Outcome
unfolding reap_slot
reap s pid =
    reap_slot (record s { sub_process = update s.sub_process pid none }) (s.sub_process pid)

infixl 5 ◌then_run◌
abbrev pub ◌then_run◌ : Outcome → (Server → Outcome) → Outcome
running s then_run f = f s
aborted then_run f = aborted
out_of_range then_run f = out_of_range
child i s then_run f = child i s

-- The pids that waitpid returns until it returns none.
pub reap_all : Server → List Pid → Outcome
reap_all s [] = running s
reap_all s (pid ∷ pids) = reap s pid then_run λ s'. reap_all s' pids

pub stop_when_empty : Server → Outcome
stop_when_empty s =
    running (if s.terminate && (s.user_count == 0) then record s { stop_server = true } else s)

-- `n` users are left, from slot `i` on.
pub kill_from : (ℕ → ClientData) → ℕ → ℕ → List Effect
kill_from users i zero = []
kill_from users i (suc n) = kills (users i).pid ∷ kill_from users (suc i) n

-- A byte from the signal pipe; SIGCHLD comes with what waitpid returns.
pub data Signal : Type 0 where
  sigchld : List Pid → Signal
  sigterm sigint other : Signal

pub stop_children : Server → Server
unfolding kill_from
stop_children s =
    if s.user_count == 0
    then record s { stop_server = true }
    else record (emit s (kill_from s.users 0 s.user_count)) { terminate = true }

pub on_signal : Server → Signal → Outcome
unfolding stop_when_empty stop_children
on_signal s (sigchld pids) = reap_all s pids then_run stop_when_empty
on_signal s sigterm = running (stop_children s)
on_signal s sigint = running (stop_children s)
on_signal s other = running s

pub on_signals : Server → List Signal → Outcome
on_signals s [] = running s
on_signals s (x ∷ xs) = on_signal s x then_run λ s'. on_signals s' xs

-- The pipes to the children of all users but the one behind `sockfd`.
pub broadcast_from : (ℕ → ClientData) → (sockfd : Fd) → (client_idx : ℕ) → ℕ → ℕ → List Effect
broadcast_from users sockfd client_idx i zero = []
broadcast_from users sockfd client_idx i (suc n) =
    let rest = broadcast_from users sockfd client_idx (suc i) n in
    if (users i).pipe_parent == sockfd
    then rest
    else sends_index (users i).pipe_parent client_idx ∷ rest

-- `received` is the index that recv reads, if it reads one.
pub on_message : Server → (sockfd : Fd) → (received : Option ℕ) → Outcome
unfolding broadcast_from
on_message s sockfd none = running s
on_message s sockfd (some client_idx) =
    running (emit s (broadcast_from s.users sockfd client_idx 0 s.user_count))

-- An entry of `events`, with the results of the calls of its handler.
pub record Event : Type 0 where
  pub sockfd : Fd
  pub events : ℕ
  pub arrival : Arrival
  pub signals : List Signal
  pub received : Option ℕ

-- The tests are `events && EPOLLIN`: any event passes them.
pub on_event : Server → Event → Outcome
on_event s ev =
    let any = not (ev.events == 0) in
    if ev.sockfd == s.listenfd
    then on_connection s ev.arrival
    else if (ev.sockfd == s.sig_read) && any
    then on_signals s ev.signals
    else if any
    then on_message s ev.sockfd ev.received
    else running s

pub on_events : Server → List Event → Outcome
on_events s [] = running s
on_events s (ev ∷ evs) = on_event s ev then_run λ s'. on_events s' evs

-- The rounds of the loop: the events of each, or `none` where epoll_wait fails.
pub serve : Server → List (Option (List Event)) → Outcome
serve s [] = running s
serve s (none ∷ rounds) = running s
serve s (some evs ∷ rounds) =
    let rest = on_events s evs then_run λ s'. serve s' rounds in
    if s.stop_server then running s else rest
