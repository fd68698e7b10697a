-- ===== src/Pool/Child.antt =====
-- ThreadPool/processPool.h: setup_sig_pipe and run_child. The template parameter T is a type
-- with its methods init and process; `fresh` is what its default constructor makes.
pub mod Clients
pub mod Perform
pub mod Tasks
pub mod Tests
use linux_websocket.Prelude.{
  ℕ, Bool, true, false, ◌&&◌, Option, none, some, List, [], ◌∷◌, ◌++◌, ◌==◌, if◌then◌else◌,
  get_elem?,
}
use linux_websocket.Pool.{
  Fd, Process, ProcessPool, Signal, sigchld, sigterm, sigint, other, Parent, Outcome, run_parent,
}
use linux_websocket.Pool

pub data Action : Type 0 where
  adds_fd : (epollfd fd : Fd) → Action
  closes : Fd → Action

-- sig_pipefd and m_epollfd.
pub record SigPipe : Type 0 where
  pub epollfd : Fd
  pub sig_read : Fd
  pub sig_write : Fd

-- What epoll_create and socketpair return; `none` is an assert that fails.
unfoldable pub setup_sig_pipe : Option Fd → Option (Fd × Fd) → Option (SigPipe × List Action)
setup_sig_pipe none pair = none
setup_sig_pipe (some e) none = none
setup_sig_pipe (some e) (some (r, w)) =
    some (record { epollfd = e; sig_read = r; sig_write = w }, adds_fd e r ∷ [])

-- The state of run_child's loop.
pub record Child (T : Type 0) : Type 0 where
  pub epollfd : Fd
  pub sig_read : Fd
  pub pipefd : Fd
  pub stop : Bool
  pub users : Fd → T
  pub log : List Action

-- What recv returns: -1 with errno, 0, or data.
pub data Received : Type 0 where
  error : (is_eagain : Bool) → Received
  eof got : Received

-- An entry of `events`, with the results of the calls of its handler: `readable` is
-- `events & EPOLLIN`.
pub record Event : Type 0 where
  pub sockfd : Fd
  pub readable : Bool
  pub received : Received
  pub accepted : Option (Fd × ℕ)
  pub signals : List Signal

-- Whether run_child goes on to accept: also if recv fails with EAGAIN.
pub goes_on : Received → Bool
goes_on (error is_eagain) = is_eagain
goes_on eof = false
goes_on got = true

-- A signal stops the child or not; the loop over waitpid changes nothing in the child.
pub on_signal : {T : Type 0} → Child T → Signal → Child T
on_signal c (sigchld pids) = c
on_signal c sigterm = record c { stop = true }
on_signal c sigint = record c { stop = true }
on_signal c other = c

pub on_signals : {T : Type 0} → Child T → List Signal → Child T
unfolding on_signal
on_signals c [] = c
on_signals c (x ∷ xs) = on_signals (on_signal c x) xs

module _ {T : Type 0} (init : T → (epollfd connfd address : ℕ) → T) (process : T → T) where
  -- The connection that accept returns, if it returns one.
  pub serve_client : Child T → Option (Fd × ℕ) → Child T
  serve_client c none = c
  serve_client c (some (connfd, address)) = record c {
    users =
        λ fd. if connfd == fd then init (c.users connfd) c.epollfd connfd address else c.users fd;
    log = c.log ++ adds_fd c.epollfd connfd ∷ [];
  }

  pub on_pipe : Child T → Received → Option (Fd × ℕ) → Child T
  unfolding serve_client goes_on
  on_pipe c r accepted = if goes_on r then serve_client c accepted else c

  pub on_event : Child T → Event → Child T
  unfolding on_pipe on_signals
  on_event c ev =
      if (ev.sockfd == c.pipefd) && ev.readable
      then on_pipe c ev.received ev.accepted
      else if (ev.sockfd == c.sig_read) && ev.readable
      then on_signals c ev.signals
      else if ev.readable
      then record c {
        users = λ fd. if ev.sockfd == fd then process (c.users ev.sockfd) else c.users fd;
      }
      else c

  pub on_events : Child T → List Event → Child T
  on_events c [] = c
  on_events c (ev ∷ evs) = on_events (on_event c ev) evs

  -- The loop over the rounds of epoll_wait; `none` where it fails.
  pub child_loop : Child T → List (Option (List Event)) → Child T
  child_loop c [] = c
  child_loop c (none ∷ rounds) = c
  child_loop c (some evs ∷ rounds) =
      let rest = child_loop (on_events c evs) rounds in if c.stop then c else rest

  -- The start of run_child, up to its loop; `none` is an assert that fails, or an index out of
  -- range.
  pub start : (fresh : T) → ProcessPool → Option (SigPipe × List Action) → Option (Child T)
  start fresh pool none = none
  start fresh pool (some (sig, acts)) = elim pool.idx [
    | none ↦ none
    | some k ↦ elim (get_elem? pool.sub_process k) [
      | none ↦ none
      | some p ↦ elim p.pipes [
        | none ↦ none
        | some (_, pipefd) ↦ some (record {
          epollfd = sig.epollfd;
          sig_read = sig.sig_read;
          pipefd = pipefd;
          stop = pool.stop;
          users = λ _. fresh;
          log = acts ++ adds_fd sig.epollfd pipefd ∷ [];
        })
      ]
    ]
  ]

  -- What stands behind the loop.
  pub finish : Child T → Child T
  finish c = record c { log = c.log ++ closes c.pipefd ∷ closes c.epollfd ∷ [] }

  pub run_child :
      (fresh : T)
      → ProcessPool
      → Option Fd
      → Option (Fd × Fd)
      → List (Option (List Event))
      → Option (Child T)
  unfolding setup_sig_pipe start child_loop finish
  run_child fresh pool epollfd pair rounds = elim (start fresh pool (setup_sig_pipe epollfd pair)) [
    | none ↦ none
    | some c ↦ some (finish (child_loop c rounds))
  ]
