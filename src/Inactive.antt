-- ===== src/Inactive.antt =====
-- Timer/closeNonactiveConn.cpp: the server that closes clients which stay silent. The results of
-- the system calls, the time and the address of a new timer are arguments; `fuel` bounds the loops
-- over the timers.
pub mod Accepting
pub mod Clients
pub mod Main
pub mod Tests
pub mod Timeouts
pub mod View
use linux_websocket.Prelude.{
  ℕ, zero, suc, ◌+◌, ◌*◌, Bool, true, false, not, ◌&&◌, Option, none, some, List, [], ◌∷◌, ◌++◌,
  ◌==◌, ltb, if◌then◌else◌,
}
use linux_websocket.Timer
use linux_websocket.Timer.{Call}
use linux_websocket.Timer.Heap.{Ptr, null, UtilTimer, TimerList, Heap, Run, Cmd, load, write}

abbrev pub timeslot : ℕ
timeslot = 5

abbrev pub fd_limit : ℕ
fd_limit = 65535

abbrev pub Fd : Type 0
Fd = ℕ

pub record ClientData : Type 0 where
  pub address : ℕ
  pub socket_fd : Fd
  pub timer : Ptr

pub data Action : Type 0 where
  adds_fd : (epollfd fd : Fd) → Action
  deletes_fd : (epollfd fd : Fd) → Action
  closes : Fd → Action
  sets_alarm : ℕ → Action

-- main has an `epollfd` of its own; cb_func uses the global one.
pub record Server : Type 0 where
  pub main_epollfd : Fd
  pub global_epollfd : Fd
  pub listenfd : Fd
  pub pipe_read : Fd
  pub users : ℕ → ClientData
  pub timer_lst : TimerList
  pub heap : Heap
  pub timeout : Bool
  pub stop_server : Bool
  pub log : List Action

pub data Outcome : Type 0 where
  running : Server → Outcome
  out_of_range : Outcome
  fault : Outcome
  out_of_fuel : Outcome

abbrev pub update_user : Server → ℕ → ClientData → Server
update_user s i u = record s { users = λ j. if i == j then u else s.users j }

abbrev pub emit : Server → List Action → Server
emit s acts = record s { log = s.log ++ acts }

-- What a command on the timers makes of the server.
pub with_timers : Server → Run TimerList → Outcome
with_timers s (Run.ok l h) = running (record s { timer_lst = l; heap = h })
with_timers s Run.fault = fault
with_timers s Run.out_of_fuel = out_of_fuel

-- The only callback that the program stores has the number 0.
abbrev pub close_client : ℕ
close_client = 0

-- cb_func, for the user behind `sockfd`.
pub cb_func : Server → (user : ℕ) → Server
cb_func s user =
    let fd = (s.users user).socket_fd in emit s (deletes_fd s.global_epollfd fd ∷ closes fd ∷ [])

-- recv fails (with errno EAGAIN or not), finds the end, or reads something.
pub data Received : Type 0 where
  error : (is_eagain : Bool) → Received
  eof : Received
  got : Received

pub data Signal : Type 0 where
  sigalrm sigterm other : Signal

pub on_signals : Server → List Signal → Server
on_signals s [] = s
on_signals s (sigalrm ∷ xs) = on_signals (record s { timeout = true }) xs
on_signals s (sigterm ∷ xs) = on_signals (record s { stop_server = true }) xs
on_signals s (other ∷ xs) = on_signals s xs

-- An entry of `events`: `readable` is `events & EPOLLIN`.
pub record Event : Type 0 where
  pub sockfd : Fd
  pub readable : Bool
  pub accepted : Option (Fd × ℕ)
  pub new_timer : Ptr
  pub cur : ℕ
  pub signals : List Signal
  pub received : Received

-- The callbacks that tick calls. Each gets `&users[i]`.
pub run_calls : Server → List Call → Server
run_calls s [] = s
run_calls s ((f, user) ∷ cs) = run_calls (cb_func s user) cs

pub ticked : Server → Run (List Call × TimerList) → Outcome
ticked s (Run.ok (calls, l) h) =
    running
      (emit (run_calls (record s { timer_lst = l; heap = h }) calls) (sets_alarm timeslot ∷ []))
ticked s Run.fault = fault
ticked s Run.out_of_fuel = out_of_fuel

infixl 5 ◌then_run◌
abbrev pub ◌then_run◌ : Outcome → (Server → Outcome) → Outcome
running s then_run f = f s
out_of_range then_run f = out_of_range
fault then_run f = fault
out_of_fuel then_run f = out_of_fuel

module _ (fuel : ℕ) where
  -- The connection is accepted at the time `cur`; `timer` is the address that new returns.
  pub on_connection : Server → (accepted : Option (Fd × ℕ)) → (cur : ℕ) → (timer : Ptr) → Outcome
  on_connection s none cur timer = out_of_range
  on_connection s (some (connfd, address)) cur timer =
      let t : UtilTimer = record {
        expire = cur + 3 * timeslot;
        cb_func = close_client;
        user_data = connfd;
        prev = null;
        next = null;
      } in
      let u : ClientData = record { address = address; socket_fd = connfd; timer = timer } in
      let s' = emit (update_user s connfd u) (adds_fd s.main_epollfd connfd ∷ []) in
      if ltb connfd fd_limit
      then with_timers s' (Timer.add_timer fuel timer s.timer_lst (write s.heap timer (some t)))
      else out_of_range

  -- The client is closed, and so is its timer, if it has one.
  pub close_user : Server → (sockfd : Fd) → Outcome
  close_user s sockfd =
      let timer = (s.users sockfd).timer in
      let s' = cb_func s sockfd in
      if timer == null
      then running s'
      else with_timers s' (Timer.del_timer timer s.timer_lst s.heap)

  -- `timer->expire = cur + 3 * TIMESLOT`, and the move that follows.
  pub extend_timer : (cur : ℕ) → (timer : Ptr) → TimerList → Cmd TimerList
  extend_timer cur timer l h = elim (load timer h) [
    | Run.ok t g ↦
        Timer.adjust_timer fuel timer l
          (write g timer (some (record t { expire = cur + 3 * timeslot })))
    | Run.fault ↦ Run.fault
    | Run.out_of_fuel ↦ Run.out_of_fuel
  ]

  pub on_data : Server → (sockfd : Fd) → (cur : ℕ) → Received → Outcome
  on_data s sockfd cur (error is_eagain) = if is_eagain then running s else close_user s sockfd
  on_data s sockfd cur eof = close_user s sockfd
  on_data s sockfd cur got =
      let timer = (s.users sockfd).timer in
      if timer == null then running s else with_timers s (extend_timer cur timer s.timer_lst s.heap)

  pub on_event : Server → Event → Outcome
  on_event s ev =
      if ev.sockfd == s.listenfd
      then on_connection s ev.accepted ev.cur ev.new_timer
      else if (ev.sockfd == s.pipe_read) && ev.readable
      then running (on_signals s ev.signals)
      else if ev.readable
      then on_data s ev.sockfd ev.cur ev.received
      else running s

  pub timer_handler : Server → (cur : ℕ) → Outcome
  timer_handler s cur = ticked s (Timer.tick cur fuel s.timer_lst s.heap)

  -- What follows the events of a round, at the time `cur`.
  pub after_events : Server → (cur : ℕ) → Outcome
  after_events s cur =
      if s.timeout
      then timer_handler s cur then_run (λ t. running (record t { timeout = false }))
      else running s

  pub on_events : Server → List Event → Outcome
  on_events s [] = running s
  on_events s (ev ∷ evs) = on_event s ev then_run λ t. on_events t evs

  -- The loop of main over the rounds; `none` where epoll_wait fails.
  pub serve : Server → List (Option (List Event × ℕ)) → Outcome
  serve s [] = running s
  serve s (none ∷ rounds) = running s
  serve s (some (evs, cur) ∷ rounds) =
      let rest = on_events s evs then_run (λ t. after_events t cur) then_run λ t. serve t rounds in
      if s.stop_server then running s else rest
