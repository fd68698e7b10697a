-- ===== src/Unievent.antt =====
-- Signal/unievent.cpp: signals and connections as events of one epoll loop. The handler writes the
-- signals that the process gets into the pipe, from which the loop reads them. What the system
-- calls return is an argument, and the log holds the calls and the line that is printed for a
-- signal.
pub mod Backlog
pub mod Delivery
pub mod Main
pub mod Rounds
pub mod Tests
use linux_websocket.Prelude.{
  ℕ, ◌+◌, ◌%◌, Bool, true, false, ◌&&◌, ◌||◌, Option, none, some, List, [], ◌∷◌, ◌++◌, ◌==◌,
  if◌then◌else◌, take, drop,
}

abbrev pub Fd : Type 0
Fd = ℕ

abbrev pub sighup : ℕ
sighup = 1

abbrev pub sigint : ℕ
sigint = 2

abbrev pub sigterm : ℕ
sigterm = 15

abbrev pub sigchld : ℕ
sigchld = 17

-- epoll_ctl with EPOLL_CTL_ADD for `fd`, where `none` is the result -1 of accept.
pub data Action : Type 0 where
  adds_fd : (epollfd : Fd) (fd : Option Fd) → Action
  sets_nonblocking : (fd : Option Fd) → Action
  handles : (sig : ℕ) → Action
  caught : (sig : ℕ) → Action
  closes : Fd → Action

-- `pipe_read` and `pipe_write` are pipefd[0] and pipefd[1]; `pipe` holds the bytes between them.
pub record Server : Type 0 where
  pub epollfd : Fd
  pub listenfd : Fd
  pub pipe_read : Fd
  pub pipe_write : Fd
  pub pipe : List ℕ
  pub stop_server : Bool
  pub log : List Action

abbrev pub emit : Server → List Action → Server
emit s acts = record s { log = s.log ++ acts }

abbrev pub addfd : Server → Option Fd → Server
addfd s fd = emit s (adds_fd s.epollfd fd ∷ sets_nonblocking fd ∷ [])

abbrev pub setnonblocking : Server → Fd → Server
setnonblocking s fd = emit s (sets_nonblocking (some fd) ∷ [])

abbrev pub addsig : Server → (sig : ℕ) → Server
addsig s sig = emit s (handles sig ∷ [])

-- main, up to its loop.
pub set_up : (epollfd listenfd pipe_read pipe_write : Fd) → Server
set_up epollfd listenfd pipe_read pipe_write =
    let s : Server = record {
      epollfd = epollfd;
      listenfd = listenfd;
      pipe_read = pipe_read;
      pipe_write = pipe_write;
      pipe = [];
      stop_server = false;
      log = [];
    } in
    let t = addfd (setnonblocking (addfd s (some listenfd)) pipe_write) (some pipe_read) in
    addsig (addsig (addsig (addsig t sighup) sigchld) sigterm) sigint

-- sig_handler: the low byte of the signal goes into the pipe, if that is not full.
pub sig_handler : Server → (sig : ℕ) → (has_room : Bool) → Server
sig_handler s sig has_room = if has_room then record s { pipe = s.pipe ++ sig % 256 ∷ [] } else s

-- The loop over the bytes that recv has got, with its switch.
pub on_signals : Server → List ℕ → Server
on_signals s [] = s
on_signals s (sig ∷ sigs) =
    let t = emit s (caught sig ∷ []) in
    if (sig == sigchld) || (sig == sighup)
    then on_signals t sigs
    else if (sig == sigterm) || (sig == sigint)
    then on_signals (record t { stop_server = true }) sigs
    else on_signals t sigs

-- recv of 1024 bytes at most; where the pipe is empty, it fails and nothing is done.
pub read_signals : Server → Server
unfolding on_signals
read_signals s = on_signals (record s { pipe = drop 1024 s.pipe }) (take 1024 s.pipe)

-- An entry of `events`: `readable` is `events & EPOLLIN`, and `connfd` what accept returns.
pub record Event : Type 0 where
  pub sockfd : Fd
  pub readable : Bool
  pub connfd : Option Fd

pub on_event : Server → Event → Server
unfolding read_signals
on_event s ev =
    if ev.sockfd == s.listenfd
    then addfd s ev.connfd
    else if (ev.sockfd == s.pipe_read) && ev.readable
    then read_signals s
    else s

-- What happens in a round: an event is handled, or the process gets a signal.
pub data Turn : Type 0 where
  event : Event → Turn
  raised : (sig : ℕ) (has_room : Bool) → Turn

pub on_turns : Server → List Turn → Server
unfolding on_event sig_handler
on_turns s [] = s
on_turns s (event ev ∷ ts) = on_turns (on_event s ev) ts
on_turns s (raised sig has_room ∷ ts) = on_turns (sig_handler s sig has_room) ts

-- A round of the loop: epoll_wait fails, or it returns events, none of them where a signal has
-- interrupted it.
pub data Wait : Type 0 where
  fails : Wait
  returns : List Turn → Wait

-- The loop of main, with the rounds that it leaves over.
pub serve : Server → List Wait → Server × List Wait
unfolding on_turns
serve s [] = (s, [])
serve s (fails ∷ ws) = if s.stop_server then (s, fails ∷ ws) else (s, ws)
serve s (returns ts ∷ ws) =
    let rest = serve (on_turns s ts) ws in if s.stop_server then (s, returns ts ∷ ws) else rest

pub shut_down : Server → Server
shut_down s = emit s (closes s.listenfd ∷ closes s.pipe_write ∷ closes s.pipe_read ∷ [])
