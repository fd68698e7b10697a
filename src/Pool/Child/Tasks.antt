-- ===== src/Pool/Child/Tasks.antt =====
-- ThreadPool/processPool.h: what the events of a child process of the pool ask for, and the
-- history that they give each client.
use linux_websocket.Prelude.{
  ℕ, Bool, true, false, ◌&&◌, Option, none, some, List, [], ◌∷◌, ◌++◌, map, ◌==◌, if◌then◌else◌,
}
use linux_websocket.Pool.{Fd, Signal, sigchld, sigterm, sigint, other}
use linux_websocket.Pool.Child.{Action, adds_fd, Event, goes_on}

-- What an event asks of the child: a new client, work for a client, a stop, or nothing.
pub data Task : Type 0 where
  admits : (connfd address : ℕ) → Task
  works : Fd → Task
  stops idle : Task

unfoldable pub stopping : List Signal → Bool
stopping [] = false
stopping (sigchld pids ∷ xs) = stopping xs
stopping (sigterm ∷ xs) = true
stopping (sigint ∷ xs) = true
stopping (other ∷ xs) = stopping xs

abbrev pub admission : Option (Fd × ℕ) → Task
admission none = idle
admission (some (connfd, address)) = admits connfd address

unfoldable pub task_of : (pipefd sig_read : Fd) → Event → Task
unfolding stopping
task_of pipefd sig_read ev =
    if (ev.sockfd == pipefd) && ev.readable
    then (if goes_on ev.received then admission ev.accepted else idle)
    else if (ev.sockfd == sig_read) && ev.readable
    then (if stopping ev.signals then stops else idle)
    else if ev.readable
    then works ev.sockfd
    else idle

abbrev pub has_stop : List Task → Bool
has_stop [] = false
has_stop (stops ∷ ts) = true
has_stop (admits f a ∷ ts) = has_stop ts
has_stop (works f ∷ ts) = has_stop ts
has_stop (idle ∷ ts) = has_stop ts

-- The tasks of the rounds, up to the end of the first round that asks for a stop, or to the first
-- round in which epoll_wait fails.
unfoldable pub tasks : (pipefd sig_read : Fd) → List (Option (List Event)) → List Task
tasks pipefd sig_read [] = []
tasks pipefd sig_read (none ∷ rounds) = []
tasks pipefd sig_read (some evs ∷ rounds) =
    let now = map (task_of pipefd sig_read) evs in
    let later = tasks pipefd sig_read rounds in if has_stop now then now else now ++ later

-- The descriptors of the new clients, as they are put under watch.
abbrev pub watches : (epollfd : Fd) → List Task → List Action
watches e [] = []
watches e (admits f a ∷ ts) = adds_fd e f ∷ watches e ts
watches e (works f ∷ ts) = watches e ts
watches e (stops ∷ ts) = watches e ts
watches e (idle ∷ ts) = watches e ts

module _ {T : Type 0} (init : T → (epollfd connfd address : ℕ) → T) (process : T → T) where
  -- The history of the client behind one descriptor: only its own tasks count.
  abbrev pub history : (epollfd fd : Fd) → List Task → T → T
  history e fd [] u = u
  history e fd (admits f a ∷ ts) u = history e fd ts (if f == fd then init u e f a else u)
  history e fd (works f ∷ ts) u = history e fd ts (if f == fd then process u else u)
  history e fd (stops ∷ ts) u = history e fd ts u
  history e fd (idle ∷ ts) u = history e fd ts u
