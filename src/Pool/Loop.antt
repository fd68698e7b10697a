-- ===== src/Pool/Loop.antt =====
-- ThreadPool/processPool.h: the loop of run_parent.
use mathlib.Core.Path.{subst}
use native.Mathlib.Nat.{mod-lt}
use linux_websocket.Prelude.{
  ℕ, zero, suc, ◌+◌, ◌≡◌, ◌∙◌, refl, sym, ap, ◌≢◌, inl, inr, true, false, Bool, ◌&&◌, Option, none,
  some, List, [], ◌∷◌, arith, ◌==◌, Bool-cases, Option-cases, if◌then◌else◌, length, get_elem?,
}
use linux_websocket.Pool.{
  Pid, Process, ProcessPool, Parent, Outcome, running, breaks, out_of_range, out_of_fuel, Signal,
  sigchld, sigterm, sigint, other, Event, join_process, join_all, reap, reap_all, on_signal,
  on_signals, send_to, on_connection, on_event, on_events, construct, Spawn, Action, continue_with,
  run_parent,
}
use linux_websocket.Pool.Construct.{IsStarted, Constructed, All, Shape, construct-Constructed}
use linux_websocket.Pool.Dispatch.{IsReady, next_counter, on_connection-Dispatches}

-- The loop ends, with a pool that is still ready, and with `stop` set where it breaks off.
abbrev pub Ends : Outcome → Type 0
Ends (running s) = IsReady s
Ends (breaks s) = IsReady s × (s.pool.stop ≡ true)
Ends out_of_range = Unit {0}
Ends out_of_fuel = ⊥

abbrev pub HavePipes : List Process → Type 0
HavePipes ps = (k : ℕ) (p : Process) → get_elem? ps k ≡ some p → p.pipes ≢ none

join_process-pipes : (p : Process) (pid : Pid) → (join_process p pid).pipes ≡ p.pipes
unfolding join_process
join_process-pipes p pid = ground arith

length-join_all : (ps : List Process) (pid : Pid) → length (join_all ps pid) ≡ length ps
unfolding join_all
length-join_all [] pid = refl
length-join_all (p ∷ ps) pid = ap suc (length-join_all ps pid)

join_all-HavePipes : (ps : List Process) (pid : Pid) → HavePipes ps → HavePipes (join_all ps pid)
unfolding join_all
join_all-HavePipes [] pid h k p e m = cc
join_all-HavePipes (x ∷ ps) pid h zero p e m =
    h zero x refl (ground (arith, join_process-pipes x pid, e, m))
join_all-HavePipes (x ∷ ps) pid h (suc k) p e m =
    join_all-HavePipes ps pid (λ i q f. h (suc i) q f) k p e m

reap-IsReady : (s : Parent) (pid : Pid) → IsReady s → IsReady (reap s pid)
unfolding reap
reap-IsReady s pid r = record {
  number = length-join_all s.pool.sub_process pid ∙ r.number;
  counter = r.counter;
  pipes = join_all-HavePipes s.pool.sub_process pid r.pipes;
}

reap_all-IsReady : (s : Parent) (pids : List Pid) → IsReady s → IsReady (reap_all s pids)
unfolding reap_all
reap_all-IsReady s [] r = r
reap_all-IsReady s (pid ∷ pids) r = reap_all-IsReady (reap s pid) pids (reap-IsReady s pid r)

on_signal-IsReady : (s : Parent) (x : Signal) → IsReady s → IsReady (on_signal s x)
unfolding on_signal
on_signal-IsReady s (sigchld pids) r =
    let t = reap_all-IsReady s pids r in
    record { number = t.number; counter = t.counter; pipes = t.pipes }
on_signal-IsReady s sigterm r = record { number = r.number; counter = r.counter; pipes = r.pipes }
on_signal-IsReady s sigint r = record { number = r.number; counter = r.counter; pipes = r.pipes }
on_signal-IsReady s other r = r

on_signals-IsReady : (s : Parent) (xs : List Signal) → IsReady s → IsReady (on_signals s xs)
unfolding on_signals
on_signals-IsReady s [] r = r
on_signals-IsReady s (x ∷ xs) r = on_signals-IsReady (on_signal s x) xs (on_signal-IsReady s x r)

send_to-Ends : (s : Parent) (o : Option Process) → IsReady s → Ends (send_to s o)
unfolding send_to
send_to-Ends s none r = tt
send_to-Ends s (some p) r = elim (Option-cases p.pipes) [
  | inl e ↦ rw (e, send_to) tt
  | inr (fds, e) ↦
      rw (e, send_to) (record { number = r.number; counter = r.counter; pipes = r.pipes })
]

next_counter-IsReady : (s : Parent) (j : ℕ) → IsReady s → IsReady (next_counter s j)
next_counter-IsReady s j r = record {
  number = r.number;
  counter = mod-lt (j + 1) (omega (arith, r.counter));
  pipes = r.pipes;
}

on_connection-Ends : (s : Parent) (i : ℕ) → IsReady s → Ends (on_connection s i)
on_connection-Ends s i r = elim (on_connection-Dispatches s i r) [
  | inl (j, _, _, run) ↦ rw run (send_to-Ends (next_counter s j) _ (next_counter-IsReady s j r))
  | inr (_, run) ↦ rw run (record { number = r.number; counter = r.counter; pipes = r.pipes }, refl)
]

on_event-Ends : (s : Parent) (i : ℕ) (ev : Event) → IsReady s → Ends (on_event s i ev)
unfolding on_event
on_event-Ends s i ev r = elim (Bool-cases (ev.sockfd == s.pool.listenfd)) [
  | inl arrives ↦ rw arrives (on_connection-Ends s i r)
  | inr old ↦ rw old (elim (Bool-cases ((ev.sockfd == s.sig_read) && ev.readable)) [
    | inl signal ↦ rw signal (on_signals-IsReady s ev.signals r)
    | inr idle ↦ rw idle r
  ])
]

continue_with-Ends :
    (o : Outcome) (f : Parent → Outcome)
    → Ends o
    → ((t : Parent) → IsReady t → Ends (f t))
    → Ends (continue_with o f)
continue_with-Ends (running t) f e step = step t e
continue_with-Ends (breaks t) f e step = e.0
continue_with-Ends out_of_range f e step = tt
continue_with-Ends out_of_fuel f e step = e

on_events-Ends : (s : Parent) (i : ℕ) (evs : List Event) → IsReady s → Ends (on_events s i evs)
unfolding on_events
on_events-Ends s i [] r = r
on_events-Ends s i (ev ∷ evs) r =
    continue_with-Ends (on_event s i ev) (λ t. on_events t (suc i) evs) (on_event-Ends s i ev r)
      (λ t e. on_events-Ends t (suc i) evs e)

Ends-if :
    {s : Parent} (o : Outcome) (b : Bool) → IsReady s → Ends o → Ends (if b then running s else o)
Ends-if o true r e = r
Ends-if o false r e = e

-- From a ready pool, whatever connections and signals come in, run_parent handles all rounds of
-- events, or leaves the array of processes: the search of every round robin ends, and the counter
-- and the array stay ready for the next one.
pub run_parent-Ends :
    (s : Parent) (rounds : List (Option (List Event))) → IsReady s → Ends (run_parent s rounds)
unfolding run_parent
run_parent-Ends s [] r = r
run_parent-Ends s (none ∷ rounds) r = r
run_parent-Ends s (some evs ∷ rounds) r = Ends-if _ s.pool.stop r (
    continue_with-Ends (on_events s 0 evs) (λ t. run_parent t rounds) (on_events-Ends s 0 evs r)
      (λ t e. run_parent-Ends t rounds e))

All-HavePipes : (ps : List Process) → All IsStarted ps → HavePipes ps
All-HavePipes [] a k p e m = cc
All-HavePipes (x ∷ ps) a zero p e m = ground (arith, a.0.1.1, e, m)
All-HavePipes (x ∷ ps) a (suc k) p e m = All-HavePipes ps a.1 k p e m

abbrev pub started : ProcessPool → (sig_read : ℕ) → Parent
started p sig_read = record { pool = p; sig_read = sig_read; sub_process_counter = 0; log = [] }

Constructed-IsReady :
    (listenfd n sig_read : ℕ) (p : ProcessPool)
    → Constructed listenfd n p
    → p.idx ≡ none
    → IsReady (started p sig_read)
Constructed-IsReady listenfd n sig_read p c parent =
    let shape = subst (λ i. Shape 0 n i p.sub_process) parent c.shape in
    record {
      number = shape.0 ∙ sym c.number;
      counter = omega (arith, c.number, c.positive);
      pipes = All-HavePipes p.sub_process shape.1;
    }

-- In the parent that leaves the constructor, run_parent handles any rounds of events: no search of
-- the round robin runs on for ever, and the counter and the array of processes stay in step, unless
-- an event number leaves the array.
pub construct-run_parent :
    (listenfd n sig_read : ℕ) (spawns : ℕ → Spawn) (p : ProcessPool) (acts : List Action)
    (rounds : List (Option (List Event)))
    → construct listenfd n spawns ≡ some (p, acts)
    → p.idx ≡ none
    → Ends (run_parent (started p sig_read) rounds)
construct-run_parent listenfd n sig_read spawns p acts rounds built parent =
    run_parent-Ends (started p sig_read) rounds (
      Constructed-IsReady listenfd n sig_read p
        (construct-Constructed listenfd n spawns p acts built) parent)
