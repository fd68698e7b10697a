-- ===== src/Chat/Safety.antt =====
-- Multiprocessing/multiprocessingChatServer.cpp: the handlers of the parent, their tables and
-- indices.
use linux_websocket.Prelude.{
  ℕ, ◌<◌, ◌≡◌, refl, ◌≢◌, inl, inr, not, ◌&&◌, Option, none, some, List, [], ◌∷◌, arith, ◌==◌, leb,
  Bool-cases,
}
use linux_websocket.Chat.{
  Server, ClientData, Fd, Outcome, running, aborted, out_of_range, child, user_limit, Forked,
  failed, in_child, in_parent, Arrival, Event, Signal, sigchld, sigterm, sigint, other, ◌then_run◌,
  register, after_fork, admit_client, accept_client, on_connection, stop_when_empty, stop_children,
  on_signal, on_signals, on_message, on_event, on_events,
}
use linux_websocket.Chat.Table.{IsConsistent}
use linux_websocket.Chat.Reaping.{AllServe, Apart, reap_all-Reaped}

-- No index is out of range, the tables of a server that goes on are consistent, and a child
-- process gets a slot below the limit.
abbrev pub Safe : Outcome → Type 0
Safe (running s) = IsConsistent s
Safe aborted = Unit {0}
Safe out_of_range = ⊥
Safe (child i s) = i < user_limit

-- fork returns no pid of a child that still serves a user.
abbrev pub ForksFresh : Server → Forked → Type 0
ForksFresh s failed = Unit {0}
ForksFresh s in_child = Unit {0}
ForksFresh s (in_parent pid) = (i : ℕ) → i < s.user_count → (s.users i).pid ≢ pid

-- waitpid returns children that serve users, each once.
abbrev pub ReapsChildren : Server → Signal → Type 0
ReapsChildren s (sigchld pids) = AllServe s pids × Apart pids
ReapsChildren s sigterm = Unit {0}
ReapsChildren s sigint = Unit {0}
ReapsChildren s other = Unit {0}

abbrev pub SignalsReap : Server → List Signal → Type 0
SignalsReap s [] = Unit {0}
SignalsReap s (x ∷ xs) =
    ReapsChildren s x × ((t : Server) → on_signal s x ≡ running t → SignalsReap t xs)

abbrev pub Plausible : Server → Event → Type 0
Plausible s ev = ForksFresh s ev.arrival.forked × SignalsReap s ev.signals

pub then_run-Safe :
    (o : Outcome) (f : Server → Outcome)
    → Safe o
    → ((s : Server) → o ≡ running s → IsConsistent s → Safe (f s))
    → Safe (o then_run f)
then_run-Safe (running s) f p step = step s refl p
then_run-Safe aborted f p step = tt
then_run-Safe out_of_range f p step = p
then_run-Safe (child i s) f p step = p

module _ {s : Server} (c : IsConsistent s) where
  after_fork-Safe :
      (u : ClientData) (f : Forked)
      → s.user_count < user_limit
      → ForksFresh s f
      → Safe (after_fork s u f)
  unfolding after_fork register
  after_fork-Safe u failed room fresh = record {
    bounded = c.bounded;
    mapped = λ i h. ground (arith, c.mapped i);
  }
  after_fork-Safe u in_child room fresh = room
  after_fork-Safe u (in_parent pid) room fresh = record {
    bounded = omega arith;
    mapped = λ i h. ground (arith, c.mapped i, fresh i);
  }

  admit_client-Safe :
      (connfd : Fd) (address : ℕ) (pair : Option (Fd × Fd)) (f : Forked)
      → s.user_count < user_limit
      → ForksFresh s f
      → Safe (admit_client s connfd address pair f)
  unfolding admit_client
  admit_client-Safe connfd address none f room fresh = tt
  admit_client-Safe connfd address (some p) f room fresh = after_fork-Safe _ f room fresh

  accept_client-Safe :
      (accepted : Option (Fd × ℕ)) (pair : Option (Fd × Fd)) (f : Forked)
      → ForksFresh s f
      → Safe (accept_client s accepted pair f)
  unfolding accept_client
  accept_client-Safe none pair f fresh = c
  accept_client-Safe (some (connfd, address)) pair f fresh =
      elim (Bool-cases (leb user_limit s.user_count)) [
        | inl full ↦ rw full (record { bounded = c.bounded; mapped = c.mapped })
        | inr room ↦ rw room (admit_client-Safe connfd address pair f (ground arith) fresh)
      ]

  pub on_connection-Safe : (a : Arrival) → ForksFresh s a.forked → Safe (on_connection s a)
  unfolding on_connection
  on_connection-Safe a fresh = accept_client-Safe a.accepted a.pair a.forked fresh

  on_message-Safe : (sockfd : Fd) (r : Option ℕ) → Safe (on_message s sockfd r)
  unfolding on_message
  on_message-Safe sockfd none = c
  on_message-Safe sockfd (some i) = record { bounded = c.bounded; mapped = c.mapped }

  stop_children-IsConsistent : IsConsistent (stop_children s)
  unfolding stop_children
  stop_children-IsConsistent = elim (Bool-cases (s.user_count == 0)) [
    | inl empty ↦ rw empty (record { bounded = c.bounded; mapped = c.mapped })
    | inr users ↦ rw users (record { bounded = c.bounded; mapped = c.mapped })
  ]

  stop_when_empty-Safe : Safe (stop_when_empty s)
  unfolding stop_when_empty
  stop_when_empty-Safe = elim (Bool-cases (s.terminate && (s.user_count == 0))) [
    | inl stop ↦ rw stop (record { bounded = c.bounded; mapped = c.mapped })
    | inr go ↦ rw go c
  ]

on_signal-Safe :
    {s : Server} → IsConsistent s → (x : Signal) → ReapsChildren s x → Safe (on_signal s x)
unfolding on_signal
on_signal-Safe {s} c (sigchld pids) r =
    let (t, run, after) = reap_all-Reaped s pids c r.0 r.1 in
    rw run (stop_when_empty-Safe after.consistent)
on_signal-Safe c sigterm r = stop_children-IsConsistent c
on_signal-Safe c sigint r = stop_children-IsConsistent c
on_signal-Safe c other r = c

on_signals-Safe :
    {s : Server} (xs : List Signal) → IsConsistent s → SignalsReap s xs → Safe (on_signals s xs)
unfolding on_signals
on_signals-Safe [] c r = c
on_signals-Safe {s} (x ∷ xs) c r =
    then_run-Safe (on_signal s x) (λ t. on_signals t xs) (on_signal-Safe c x r.0)
      (λ t e d. on_signals-Safe xs d (r.1 t e))

-- Whatever entry of `events` the parent handles, if fork returns no pid of a live child and waitpid
-- only children that serve users, each once, then no index is out of range, the tables stay
-- consistent with the users, and a child process gets a slot below the limit.
pub on_event-Safe :
    (s : Server) (ev : Event) → IsConsistent s → Plausible s ev → Safe (on_event s ev)
unfolding on_event
on_event-Safe s ev c p = elim (Bool-cases (ev.sockfd == s.listenfd)) [
  | inl arrives ↦ rw arrives (on_connection-Safe c ev.arrival p.0)
  | inr old ↦ rw old (elim (Bool-cases ((ev.sockfd == s.sig_read) && not (ev.events == 0))) [
    | inl signal ↦ rw signal (on_signals-Safe ev.signals c p.1)
    | inr none_here ↦ rw none_here (elim (Bool-cases (not (ev.events == 0))) [
      | inl any ↦ rw any (on_message-Safe c ev.sockfd ev.received)
      | inr idle ↦ rw idle c
    ])
  ])
]

-- Each entry of a round is plausible when its turn comes.
abbrev pub AllPlausible : Server → List Event → Type 0
AllPlausible s [] = Unit {0}
AllPlausible s (ev ∷ evs) =
    Plausible s ev × ((t : Server) → on_event s ev ≡ running t → AllPlausible t evs)

-- The same of the entries of a round, in any number and any order.
pub on_events-Safe :
    (s : Server) (evs : List Event) → IsConsistent s → AllPlausible s evs → Safe (on_events s evs)
unfolding on_events
on_events-Safe s [] c p = c
on_events-Safe s (ev ∷ evs) c p =
    then_run-Safe (on_event s ev) (λ t. on_events t evs) (on_event-Safe s ev c p.0)
      (λ t e d. on_events-Safe t evs d (p.1 t e))
