-- ===== src/Pool/Deaf.antt =====
-- ThreadPool/processPool.h: run_parent and what its setup_sig_pipe puts under watch.
use linux_websocket.Prelude.{
  ℕ, suc, ◌≡◌, ◌∙◌, refl, sym, ap, ◌≢◌, inl, inr, Bool, true, false, ◌&&◌, ◌||◌, Option, none, some,
  List, [], ◌∷◌, ◌++◌, arith, ◌==◌, if◌then◌else◌, Bool-cases,
}
use linux_websocket.Pool.{
  Fd, Pid, Process, ProcessPool, Parent, Outcome, running, Action, closes, sends_new_conn, kills,
  Signal, sigchld, sigterm, sigint, other, Event, close_if_joined, close_joined, kill_all, reap,
  reap_all, on_signal, on_signals, on_event, on_events, run_parent,
}
use linux_websocket.Pool.Child.{SigPipe, setup_sig_pipe}
use linux_websocket.Pool.Child
use linux_websocket.Pool.Loop.{started}

-- Whether a message of a new connection is sent.
abbrev pub dispatches : List Action → Bool
dispatches [] = false
dispatches (closes fd ∷ acts) = dispatches acts
dispatches (sends_new_conn fd ∷ acts) = true
dispatches (kills pid ∷ acts) = dispatches acts

-- Whether `fd` is put under watch.
abbrev pub watched : List Child.Action → Fd → Bool
watched [] fd = false
watched (Child.adds_fd e f ∷ acts) fd = (f == fd) || watched acts fd
watched (Child.closes f ∷ acts) fd = watched acts fd

-- epoll_wait returns only descriptors that are watched.
abbrev pub AllWatched : List Child.Action → List Event → Type 0
AllWatched acts [] = Unit {0}
AllWatched acts (ev ∷ evs) = (watched acts ev.sockfd ≡ true) × AllWatched acts evs

abbrev pub RoundsWatched : List Child.Action → List (Option (List Event)) → Type 0
RoundsWatched acts [] = Unit {0}
RoundsWatched acts (none ∷ rounds) = RoundsWatched acts rounds
RoundsWatched acts (some evs ∷ rounds) = AllWatched acts evs × RoundsWatched acts rounds

dispatches-quiet :
    (xs ys : List Action) → dispatches ys ≡ false → dispatches (xs ++ ys) ≡ dispatches xs
dispatches-quiet [] ys e = e
dispatches-quiet (closes fd ∷ xs) ys e = dispatches-quiet xs ys e
dispatches-quiet (sends_new_conn fd ∷ xs) ys e = refl
dispatches-quiet (kills pid ∷ xs) ys e = dispatches-quiet xs ys e

close_if_joined-quiet : (p : Process) (pid : Pid) → dispatches (close_if_joined p pid) ≡ false
unfolding close_if_joined
close_if_joined-quiet p pid = ground arith

close_joined-quiet : (ps : List Process) (pid : Pid) → dispatches (close_joined ps pid) ≡ false
unfolding close_joined
close_joined-quiet [] pid = refl
close_joined-quiet (p ∷ ps) pid =
    dispatches-quiet (close_if_joined p pid) _ (close_joined-quiet ps pid)
    ∙ close_if_joined-quiet p pid

kill_all-quiet : (ps : List Process) → dispatches (kill_all ps) ≡ false
unfolding kill_all
kill_all-quiet [] = refl
kill_all-quiet (p ∷ ps) = ground (arith, kill_all-quiet ps)

-- `t` listens on the same socket as `s`, and has dispatched nothing that `s` had not.
record Quiet (s t : Parent) : Type 0 where
  listens : t.pool.listenfd ≡ s.pool.listenfd
  reads : t.sig_read ≡ s.sig_read
  log : dispatches t.log ≡ dispatches s.log

Quiet-trans : {r s t : Parent} → Quiet r s → Quiet s t → Quiet r t
Quiet-trans p q = record {
  listens = q.listens ∙ p.listens;
  reads = q.reads ∙ p.reads;
  log = q.log ∙ p.log;
}

reap_all-Quiet : (s : Parent) (pids : List Pid) → Quiet s (reap_all s pids)
unfolding reap_all reap
reap_all-Quiet s [] = record { listens = refl; reads = refl; log = refl }
reap_all-Quiet s (pid ∷ pids) =
    Quiet-trans
      (record {
        listens = refl;
        reads = refl;
        log = dispatches-quiet s.log _ (close_joined-quiet _ pid);
      })
      (reap_all-Quiet (reap s pid) pids)

on_signal-Quiet : (s : Parent) (x : Signal) → Quiet s (on_signal s x)
unfolding on_signal
on_signal-Quiet s (sigchld pids) =
    let q = reap_all-Quiet s pids in record { listens = q.listens; reads = q.reads; log = q.log }
on_signal-Quiet s sigterm = record {
  listens = refl;
  reads = refl;
  log = dispatches-quiet s.log _ (kill_all-quiet _);
}
on_signal-Quiet s sigint = record {
  listens = refl;
  reads = refl;
  log = dispatches-quiet s.log _ (kill_all-quiet _);
}
on_signal-Quiet s other = record { listens = refl; reads = refl; log = refl }

on_signals-Quiet : (s : Parent) (xs : List Signal) → Quiet s (on_signals s xs)
unfolding on_signals
on_signals-Quiet s [] = record { listens = refl; reads = refl; log = refl }
on_signals-Quiet s (x ∷ xs) =
    Quiet-trans (on_signal-Quiet s x) (on_signals-Quiet (on_signal s x) xs)

-- An outcome from which the loop goes on in a state that is quiet since `s`.
abbrev RunsQuiet : Parent → Outcome → Type 0
RunsQuiet s o = (t : Parent) × (o ≡ running t) × Quiet s t

on_event-Quiet :
    (s : Parent) (i : ℕ) (ev : Event) → ev.sockfd ≢ s.pool.listenfd → RunsQuiet s (on_event s i ev)
unfolding on_event
on_event-Quiet s i ev n =
    let far : (ev.sockfd == s.pool.listenfd) ≡ false = ground arith in
    rw far (elim (Bool-cases ((ev.sockfd == s.sig_read) && ev.readable)) [
      | inl signal ↦ rw signal (on_signals s ev.signals, refl, on_signals-Quiet s ev.signals)
      | inr nothing ↦ rw nothing (s, refl, record { listens = refl; reads = refl; log = refl })
    ])

if_Quiet :
    {s : Parent} (b : Bool) (o u : Outcome)
    → RunsQuiet s o
    → RunsQuiet s u
    → RunsQuiet s (if b then o else u)
if_Quiet true o u x y = x
if_Quiet false o u x y = y

actions_of : Option (SigPipe × List Child.Action) → List Child.Action
actions_of none = []
actions_of (some (sig, acts)) = acts

module _ (acts : List Child.Action) (listenfd : Fd) (deaf : watched acts listenfd ≡ false) where
  other_fd : (fd : Fd) → watched acts fd ≡ true → fd ≢ listenfd
  other_fd fd w = ground (arith, w, deaf)

  on_events-Quiet :
      (s : Parent) (i : ℕ) (evs : List Event)
      → s.pool.listenfd ≡ listenfd
      → AllWatched acts evs
      → RunsQuiet s (on_events s i evs)
  unfolding on_events
  on_events-Quiet s i [] at_s w = (s, refl, record { listens = refl; reads = refl; log = refl })
  on_events-Quiet s i (ev ∷ evs) at_s w =
      let (t, run, q) = on_event-Quiet s i ev (λ e. other_fd ev.sockfd w.0 (e ∙ at_s)) in
      let (u, run', q') = on_events-Quiet t (suc i) evs (q.listens ∙ at_s) w.1 in
      (u, rw run run', Quiet-trans q q')

  run_parent-Quiet :
      (s : Parent) (rounds : List (Option (List Event)))
      → s.pool.listenfd ≡ listenfd
      → RoundsWatched acts rounds
      → RunsQuiet s (run_parent s rounds)
  unfolding run_parent
  run_parent-Quiet s [] at_s w = (s, refl, record { listens = refl; reads = refl; log = refl })
  run_parent-Quiet s (none ∷ rounds) at_s w =
      (s, refl, record { listens = refl; reads = refl; log = refl })
  run_parent-Quiet s (some evs ∷ rounds) at_s w =
      let (t, run, q) = on_events-Quiet s 0 evs at_s w.0 in
      let (u, run', q') = run_parent-Quiet t rounds (q.listens ∙ at_s) w.1 in
      if_Quiet s.pool.stop _ _ (s, refl, record { listens = refl; reads = refl; log = refl })
        (u, rw run run', Quiet-trans q q')

-- The parent's setup_sig_pipe is all that it puts under watch. If epoll_wait returns only watched
-- descriptors, and the signal pipe has another descriptor than the listening socket, then
-- run_parent handles any rounds of events without a message of a new connection to any process.
pub parent_never_dispatches :
    (p : ProcessPool) (e r w : Fd) (sig : SigPipe) (acts : List Child.Action)
    (rounds : List (Option (List Event)))
    → setup_sig_pipe (some e) (some (r, w)) ≡ some (sig, acts)
    → r ≢ p.listenfd
    → RoundsWatched acts rounds
    → (t : Parent) × (run_parent (started p sig.sig_read) rounds ≡ running t)
      × (dispatches t.log ≡ false)
unfolding setup_sig_pipe actions_of
parent_never_dispatches p e r w sig acts rounds set apart all =
    let only : acts ≡ Child.adds_fd e r ∷ [] = sym (ap actions_of set) in
    let deaf : watched acts p.listenfd ≡ false = rw only (ground arith) in
    let (t, run, q) =
      run_parent-Quiet acts p.listenfd deaf (started p sig.sig_read) rounds refl all in
    (t, run, q.log)
