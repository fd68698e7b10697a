-- ===== src/Chat/Main.antt =====
-- Multiprocessing/multiprocessingChatServer.cpp: main of the parent, from its set-up on.
pub mod Tests
use linux_websocket.Prelude.{
  ℕ, ◌≡◌, refl, Bool, true, false, ◌&&◌, if◌then◌else◌, arith, Option, none, some, List, [], ◌∷◌,
  ◌++◌,
}
use linux_websocket.Chat.{
  Server, ClientData, Fd, Pid, Effect, adds_fd, closes, Outcome, running, aborted, child,
  out_of_range, Event, emit, serve, ◌then_run◌,
}
use linux_websocket.Chat.Safety.{Safe, then_run-Safe}
use linux_websocket.Chat.Rounds.{RoundsPlausible, serve-Safe}

-- What the calls of the set-up return; `none` and `false` stand for a call whose assert fails. The
-- entries of the new array `users` are arbitrary. The flags of the descriptors are left out.
pub record SetUp : Type 0 where
  pub listenfd : Option Fd
  pub is_bound : Bool
  pub is_listening : Bool
  pub users : ℕ → ClientData
  pub epollfd : Option Fd
  pub sig_pipe : Option (Fd × Fd)
  pub handles : Bool  -- the four calls of addsig
  pub shmfd : Option Fd
  pub is_resized : Bool
  pub is_mapped : Bool

-- users, sub_process and user_count, and the descriptors that epoll watches.
pub initial : (users : ℕ → ClientData) → (epollfd listenfd : Fd) → (sig_pipe : Fd × Fd) → Server
initial users epollfd listenfd sig_pipe = record {
  epollfd = epollfd;
  listenfd = listenfd;
  sig_read = sig_pipe.0;
  sig_write = sig_pipe.1;
  users = users;
  user_count = 0;
  sub_process = λ pid. none;
  stop_server = false;
  terminate = false;
  log = adds_fd epollfd listenfd ∷ adds_fd epollfd sig_pipe.0 ∷ [];
}

-- The shared memory, and close(shmfd).
pub share : SetUp → Server → Outcome
share c s = elim c.shmfd [
  | none ↦ aborted
  | some shmfd ↦
      if c.is_resized && c.is_mapped then running (emit s (closes shmfd ∷ [])) else aborted
]

pub watch : SetUp → (listenfd : Fd) → Outcome
unfolding share initial
watch c listenfd = elim c.epollfd [
  | none ↦ aborted
  | some epollfd ↦ elim c.sig_pipe [
    | none ↦ aborted
    | some sig_pipe ↦
        if c.handles then share c (initial c.users epollfd listenfd sig_pipe) else aborted
  ]
]

pub set_up : SetUp → Outcome
unfolding watch
set_up c = elim c.listenfd [
  | none ↦ aborted
  | some listenfd ↦ if c.is_bound && c.is_listening then watch c listenfd else aborted
]

-- del_resource: what it closes.
pub del_resource : Server → Server
del_resource s =
    emit s (closes s.epollfd ∷ closes s.listenfd ∷ closes s.sig_read ∷ closes s.sig_write ∷ [])

pub main : SetUp → List (Option (List Event)) → Outcome
unfolding set_up del_resource
main c rounds = set_up c then_run (λ s. serve s rounds) then_run λ s. running (del_resource s)

-- The set-up ends in an assert that fails or in a server without users.
abbrev pub Fresh : Outcome → Type 0
Fresh (running s) = s.user_count ≡ 0
Fresh aborted = Unit
Fresh _ = ⊥

set_up-Fresh : (c : SetUp) → Fresh (set_up c)
unfolding set_up
set_up-Fresh c = ground arith

rounds-Safe :
    (o : Outcome) (rounds : List (Option (List Event)))
    → Fresh o
    → ((s : Server) → o ≡ running s → RoundsPlausible s rounds)
    → Safe (o then_run (λ s. serve s rounds))
rounds-Safe (running s) rounds f p = serve-Safe s rounds f (p s refl)
rounds-Safe aborted rounds f p = tt
rounds-Safe out_of_range rounds f p = f
rounds-Safe (child i s) rounds f p = absurd f

-- The whole of main, with any results of the calls of its set-up and any rounds of events, never
-- takes an index out of range: it ends in an assert that fails, or in the parent with consistent
-- tables, or as a child with a slot below the limit. This holds if fork never returns the pid of a
-- child that still serves a user, and waitpid returns, each once, only children that serve users.
pub main-Safe :
    (c : SetUp) (rounds : List (Option (List Event)))
    → ((s : Server) → set_up c ≡ running s → RoundsPlausible s rounds)
    → Safe (main c rounds)
unfolding main
main-Safe c rounds p =
    then_run-Safe (set_up c then_run (λ s. serve s rounds)) (λ s. running (del_resource s))
      (rounds-Safe (set_up c) rounds (set_up-Fresh c) p)
      (λ s e d. record { bounded = d.bounded; mapped = d.mapped })
