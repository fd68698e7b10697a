-- ===== src/Inactive/Main.antt =====
-- Timer/closeNonactiveConn.cpp: the whole of main, from its set-up to the end of the process, where
-- the destructor of the global timer_lst runs.
pub mod Tests
use mathlib.Core.Path.{ap₂}
use linux_websocket.Prelude.{
  ℕ, ◌+◌, ◌≤◌, ◌<◌, ◌≡◌, ◌∙◌, refl, ap, Bool, true, false, ◌&&◌, Option, none, some, List, [], ◌∷◌,
  ◌++◌, if◌then◌else◌, length, arith, Bool-cases, inl, inr,
}
use linux_websocket.Timer
use linux_websocket.Timer.Heap.{null, TimerList, Heap, Run, Returns}
use linux_websocket.Timer.Destroy.{Without, destroy-Without}
use linux_websocket.Inactive.{
  Fd, ClientData, Server, Outcome, running, out_of_range, fault, out_of_fuel, Event, Action,
  adds_fd, closes, sets_alarm, timeslot, emit, with_timers, serve, ◌then_run◌,
}
use linux_websocket.Inactive.Accepting.{with_timers-Returns}
use linux_websocket.Inactive.View.{
  View, Setting, RoundsPlausible, view_events, view_after, view_rounds, events_in,
}
use linux_websocket.Inactive.View.Sizes.{length-view_events, length-view_after}
use linux_websocket.Inactive.View.Refines.{Shows}
use linux_websocket.Inactive.View.Rounds.{serve-View}

-- What the calls of the set-up return; `none` and `false` stand for a call whose assert fails. The
-- entries of the new array `users` are arbitrary. The flags of the descriptors are left out.
pub record SetUp : Type 0 where
  pub listenfd : Option Fd
  pub is_bound : Bool
  pub is_listening : Bool
  pub epollfd : Option Fd
  pub pair : Option (Fd × Fd)
  pub handles : Bool  -- the two calls of addsig
  pub users : ℕ → ClientData

-- The variables before the loop. The global epollfd is 0.
pub initial : (listenfd epollfd : Fd) → (pair : Fd × Fd) → (users : ℕ → ClientData) → Server
initial listenfd epollfd pair users = record {
  main_epollfd = epollfd;
  global_epollfd = 0;
  listenfd = listenfd;
  pipe_read = pair.0;
  users = users;
  timer_lst = record { head = null; tail = null };
  heap = λ a. none;
  timeout = false;
  stop_server = false;
  log = adds_fd epollfd listenfd ∷ adds_fd epollfd pair.0 ∷ sets_alarm timeslot ∷ [];
}

-- The server before the loop, and pipefd[1].
pub set_up : SetUp → Option (Server × Fd)
unfolding initial
set_up c = elim c.listenfd [
  | none ↦ none
  | some listenfd ↦
      if c.is_bound && c.is_listening
      then elim c.epollfd [
        | none ↦ none
        | some epollfd ↦ elim c.pair [
          | none ↦ none
          | some pair ↦
              if c.handles then some (initial listenfd epollfd pair c.users, pair.1) else none
        ]
      ]
      else none
]

-- The closes behind the loop, and the destructor of timer_lst.
pub shut_down : (fuel : ℕ) → (pipe_write : Fd) → Server → Outcome
shut_down fuel pipe_write s =
    let t = emit s (closes s.listenfd ∷ closes pipe_write ∷ closes s.pipe_read ∷ []) in
    with_timers t (Timer.destroy fuel t.timer_lst t.heap)

-- `none` is an assert that fails.
pub main : (fuel : ℕ) → SetUp → List (Option (List Event × ℕ)) → Option Outcome
unfolding set_up shut_down
main fuel c rounds = elim (set_up c) [
  | none ↦ none
  | some (s, pipe_write) ↦ some (serve fuel s rounds then_run shut_down fuel pipe_write)
]

if_cells :
    (b : Bool) (u v : View) (n : ℕ)
    → length u.cells ≤ n
    → length v.cells ≤ n
    → length (if b then u else v).cells ≤ n
if_cells true u v n p q = p
if_cells false u v n p q = q

length-view_rounds :
    (w : Setting) (v : View) (rounds : List (Option (List Event × ℕ)))
    → length (view_rounds w v rounds).cells ≤ length v.cells + events_in rounds
unfolding view_rounds
length-view_rounds w v [] = omega arith
length-view_rounds w v (none ∷ rounds) = omega arith
length-view_rounds w v (some (evs, cur) ∷ rounds) =
    let v' = view_events w v evs in
    if_cells v.stop_server v (view_rounds w (view_after w v' cur) rounds) _ (omega arith) (
      omega (
        arith,
        length-view_events w v evs,
        length-view_after w v' cur,
        length-view_rounds w (view_after w v' cur) rounds,
      ))

-- The closes behind the loop, in a server with a view.
shut_down-ends :
    (fuel : ℕ) (pipe_write : Fd) (w : Setting) (s : Server) (v : View)
    → Shows w s v
    → length v.cells < fuel
    → (t : Server) × (shut_down fuel pipe_write s ≡ running t)
      × (t.log ≡ v.log ++ closes w.listenfd ∷ closes pipe_write ∷ closes w.pipe_read ∷ [])
      × (t.timer_lst.head ≡ null)
      × Without v.cells s.heap t.heap
unfolding shut_down
shut_down-ends fuel pipe_write w s v h enough =
    let t = emit s (closes s.listenfd ∷ closes pipe_write ∷ closes s.pipe_read ∷ []) in
    let (l, g, run, gone) = with_timers-Returns t (destroy-Without fuel v.cells h.list enough) in
    (
      record t { timer_lst = l; heap = g },
      run,
      ap₂ ◌++◌ h.log
          (ap₂ (λ a b. closes a ∷ closes pipe_write ∷ closes b ∷ []) h.listenfd h.pipe_read),
      gone.0,
      gone.1,
    )

module _ (listenfd epollfd : Fd) (pair : Fd × Fd) (users : ℕ → ClientData) where
  -- A set-up whose calls all work.
  abbrev pub working : SetUp
  working = record {
    listenfd = some listenfd;
    is_bound = true;
    is_listening = true;
    epollfd = some epollfd;
    pair = some pair;
    handles = true;
    users = users;
  }

  abbrev pub setting : Setting
  setting = record {
    main_epollfd = epollfd;
    global_epollfd = 0;
    listenfd = listenfd;
    pipe_read = pair.0;
  }

  -- Nobody is served yet.
  abbrev pub first_view : View
  first_view = record {
    cells = [];
    timeout = false;
    stop_server = false;
    log = adds_fd epollfd listenfd ∷ adds_fd epollfd pair.0 ∷ sets_alarm timeslot ∷ [];
  }

  initial-Shows : Shows setting (initial listenfd epollfd pair users) first_view
  unfolding initial
  initial-Shows = record {
    list = record { chain = tt; distinct = tt; head = refl; tail = λ n. absurd (n refl) };
    owned = tt;
    timeout = refl;
    stop_server = refl;
    log = refl;
    main_epollfd = refl;
    global_epollfd = refl;
    listenfd = refl;
    pipe_read = refl;
  }

  -- Where the calls of the set-up work, main as a whole behaves as its view, with any rounds of
  -- events as in the loop's own result: it ends without a fault and without leaving an array, and
  -- its calls are those of the set-up, then those of the view in their order, and then the closes
  -- of the listening socket and both ends of the pipe. The destructor of timer_lst ends with an
  -- empty list. The fuel is more than the events.
  pub main-View :
      (fuel : ℕ) (rounds : List (Option (List Event × ℕ)))
      → events_in rounds < fuel
      → RoundsPlausible setting first_view rounds
      → (t : Server) × (main fuel working rounds ≡ some (running t))
        × (t.log
            ≡ (view_rounds setting first_view rounds).log
              ++ closes listenfd ∷ closes pair.1 ∷ closes pair.0 ∷ [])
        × (t.timer_lst.head ≡ null)
  unfolding main
  main-View fuel rounds enough p =
      let v = view_rounds setting first_view rounds in
      let (s, run, h) =
        serve-View setting fuel (initial listenfd epollfd pair users) first_view rounds
          initial-Shows (omega arith) p in
      let (t, ends, log, head, gone) =
        shut_down-ends fuel pair.1 setting s v h
          (omega (arith, length-view_rounds setting first_view rounds)) in
      (t, ap (λ o. some (o then_run shut_down fuel pair.1)) run ∙ ap some ends, log, head)
