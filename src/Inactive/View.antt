-- ===== src/Inactive/View.antt =====
-- Timer/closeNonactiveConn.cpp: what the server does, without heap and pointers. A view of the
-- server has the cells of the list of timers, the two flags and the log.
pub mod Owners
pub mod Refines
pub mod Rounds
pub mod Sizes
pub mod Tests
use linux_websocket.Prelude.{
  ℕ, suc, ◌+◌, Bool, true, false, ◌&&◌, ◌||◌, ◌≡◌, ◌≢◌, ◌<◌, Option, none, some, List, [], ◌∷◌,
  ◌++◌, ◌==◌, if◌then◌else◌, length,
}
use linux_websocket.Timer.Heap.{Ptr, null}
use linux_websocket.Timer.Chain.{Cell, Cells, has}
use linux_websocket.Timer.Insert.{insert, added}
use linux_websocket.Timer.Tick.{expired, remaining}
use linux_websocket.Inactive.{
  Fd, Action, adds_fd, deletes_fd, closes, sets_alarm, timeslot, fd_limit, Signal, sigalrm, sigterm,
  other, Received, error, eof, got, Event,
}
use linux_websocket.Inactive.Accepting.{cell_for}
use linux_websocket.Inactive.Clients.{until}

pub record View : Type 0 where
  pub cells : Cells
  pub timeout : Bool
  pub stop_server : Bool
  pub log : List Action

-- Whether the client behind `fd` has a timer.
abbrev pub serves : Fd → Cells → Bool
serves fd [] = false
serves fd (c ∷ xs) = (c.user_data == fd) || serves fd xs

-- The client behind `fd` gets time until `e`.
unfoldable pub extend : Fd → (e : ℕ) → Cells → Cells
extend fd e [] = []
extend fd e (c ∷ xs) = if c.user_data == fd then insert (until e c) xs else c ∷ extend fd e xs

-- The client behind `fd` goes.
unfoldable pub leave : Fd → Cells → Cells
leave fd [] = []
leave fd (c ∷ xs) = if c.user_data == fd then xs else c ∷ leave fd xs

-- A timer comes, at the place that the list gives it.
abbrev pub arrive : Cell → Cells → Cells
arrive c xs = elim (added c xs) [ none ↦ xs | some ys ↦ ys ]

unfoldable pub flags : View → List Signal → View
flags v [] = v
flags v (sigalrm ∷ xs) = flags (record v { timeout = true }) xs
flags v (sigterm ∷ xs) = flags (record v { stop_server = true }) xs
flags v (other ∷ xs) = flags v xs

-- The calls that close the clients of some timers.
abbrev pub goodbyes : (epollfd : Fd) → Cells → List Action
goodbyes epollfd [] = []
goodbyes epollfd (c ∷ xs) =
    deletes_fd epollfd c.user_data ∷ closes c.user_data ∷ goodbyes epollfd xs

-- The descriptors that do not change.
pub record Setting : Type 0 where
  pub main_epollfd : Fd
  pub global_epollfd : Fd
  pub listenfd : Fd
  pub pipe_read : Fd

module _ (w : Setting) where
  unfoldable pub welcome : View → (timer : Ptr) → (cur : ℕ) → Option (Fd × ℕ) → View
  welcome v timer cur none = v
  welcome v timer cur (some (fd, address)) = record v {
    cells = arrive (cell_for timer fd cur) v.cells;
    log = v.log ++ adds_fd w.main_epollfd fd ∷ [];
  }

  unfoldable pub dismiss : View → Fd → View
  dismiss v fd = record v {
    cells = leave fd v.cells;
    log = v.log ++ deletes_fd w.global_epollfd fd ∷ closes fd ∷ [];
  }

  unfoldable pub hear : View → Fd → (cur : ℕ) → Received → View
  unfolding dismiss
  hear v fd cur (error is_eagain) = if is_eagain then v else dismiss v fd
  hear v fd cur eof = dismiss v fd
  hear v fd cur got = record v { cells = extend fd (cur + 15) v.cells }

  unfoldable pub view_event : View → Event → View
  unfolding welcome hear flags
  view_event v ev =
      if ev.sockfd == w.listenfd
      then welcome v ev.new_timer ev.cur ev.accepted
      else if (ev.sockfd == w.pipe_read) && ev.readable
      then flags v ev.signals
      else if ev.readable
      then hear v ev.sockfd ev.cur ev.received
      else v

  unfoldable pub view_events : View → List Event → View
  view_events v [] = v
  view_events v (ev ∷ evs) = view_events (view_event v ev) evs

  -- After the alarm, the clients whose time is over are closed.
  unfoldable pub view_after : View → (cur : ℕ) → View
  view_after v cur =
      if v.timeout
      then record v {
        cells = remaining cur v.cells;
        timeout = false;
        log = v.log ++ goodbyes w.global_epollfd (expired cur v.cells) ++ sets_alarm timeslot ∷ [];
      }
      else v

  unfoldable pub view_rounds : View → List (Option (List Event × ℕ)) → View
  unfolding view_events view_after
  view_rounds v [] = v
  view_rounds v (none ∷ rounds) = v
  view_rounds v (some (evs, cur) ∷ rounds) =
      let rest = view_rounds (view_after (view_events v evs) cur) rounds in
      if v.stop_server then v else rest

  -- A connection that is accepted: on a descriptor below the limit that no client has, with a timer
  -- at an address that no timer has, and where add_timer has a place for it.
  pub record Arrives (xs : Cells) (ev : Event) : Type 0 where
    pub fd : Fd
    pub address : ℕ
    pub accepted : ev.accepted ≡ some (fd, address)
    pub below : fd < fd_limit
    pub unknown : serves fd xs ≡ false
    pub valid : ev.new_timer ≢ null
    pub fresh : has ev.new_timer xs ≡ false
    pub placed : added (cell_for ev.new_timer fd ev.cur) xs ≢ none

  -- What the system calls may return: connections as above, and data of known clients only.
  pub record Plausible (v : View) (ev : Event) : Type 0 where
    pub arrives : (ev.sockfd == w.listenfd) ≡ true → Arrives v.cells ev
    pub known :
        (ev.sockfd == w.listenfd) ≡ false
        → ((ev.sockfd == w.pipe_read) && ev.readable) ≡ false
        → ev.readable ≡ true
        → serves ev.sockfd v.cells ≡ true

  abbrev pub AllPlausible : View → List Event → Type 0
  AllPlausible v [] = Unit {0}
  AllPlausible v (ev ∷ evs) = Plausible v ev × AllPlausible (view_event v ev) evs

  -- Rounds up to a failure of epoll_wait or a stop.
  abbrev pub RoundsPlausible : View → List (Option (List Event × ℕ)) → Type 0
  RoundsPlausible v [] = Unit {0}
  RoundsPlausible v (none ∷ rounds) = Unit {0}
  RoundsPlausible v (some (evs, cur) ∷ rounds) =
      AllPlausible v evs × RoundsPlausible (view_after (view_events v evs) cur) rounds

-- The number of events, which bounds the number of new timers.
abbrev pub events_in : List (Option (List Event × ℕ)) → ℕ
events_in [] = 0
events_in (none ∷ rounds) = events_in rounds
events_in (some (evs, cur) ∷ rounds) = length evs + events_in rounds
