-- ===== src/Inactive/Timeouts.antt =====
-- Timer/closeNonactiveConn.cpp: timer_handler.
use mathlib.Core.List.{append_assoc, append-nil}
use linux_websocket.Prelude.{ℕ, suc, ◌<◌, ◌≡◌, ◌∙◌, refl, sym, ap, List, [], ◌∷◌, ◌++◌, length}
use linux_websocket.Timer.{Call}
use linux_websocket.Timer.Heap.{Returns, returns, TimerList, Heap, Run}
use linux_websocket.Timer.Chain.{Cells, IsList}
use linux_websocket.Timer.Sorted.{AllFrom, AllUpTo, IsSorted}
use linux_websocket.Timer.Tick.{expired, remaining, calls_of, tick-IsSorted}
use linux_websocket.Inactive.{
  Fd, ClientData, Server, running, Action, deletes_fd, closes, sets_alarm, timeslot, emit, cb_func,
  run_calls, ticked, timer_handler,
}

-- The calls that close the clients of some timers.
abbrev pub closings : (epollfd : Fd) → (ℕ → ClientData) → Cells → List Action
closings epollfd users [] = []
closings epollfd users (c ∷ cs) =
    deletes_fd epollfd (users c.user_data).socket_fd
    ∷ closes (users c.user_data).socket_fd
    ∷ closings epollfd users cs

pub run_calls-closings :
    (s : Server) (cs : Cells)
    → run_calls s (calls_of cs) ≡ record s { log = s.log ++ closings s.global_epollfd s.users cs }
unfolding run_calls cb_func
run_calls-closings s [] = ap (λ l. record s { log = l }) (sym (append-nil s.log))
run_calls-closings s (c ∷ cs) =
    run_calls-closings (cb_func s c.user_data) cs
    ∙ ap (λ l. record s { log = l }) (append_assoc s.log _ (closings s.global_epollfd s.users cs))

pub ticked-Returns :
    {P : List Call × TimerList → Heap → Type 0} {r : Run (List Call × TimerList)} (s : Server)
    → Returns P r
    → (calls : List Call) × (l : TimerList) × (h : Heap) × (ticked s r
        ≡ running (record (run_calls (record s { timer_lst = l; heap = h }) calls) {
          log =
              (run_calls (record s { timer_lst = l; heap = h }) calls).log
              ++ sets_alarm timeslot ∷ [];
        }))
      × P (calls, l) h
unfolding ticked
ticked-Returns s (returns {r = r} {h = h} p) = (r.0, r.1, h, refl, p)

-- On the alarm the server closes the clients of exactly those timers that are due at the time
-- `cur`, in the order of the list, and sets the next alarm. The timers that end later remain, in a
-- well-formed sorted list.
pub timer_handler-closings :
    (fuel : ℕ) (s : Server) (cur : ℕ) (xs : Cells)
    → IsList s.heap s.timer_lst xs
    → IsSorted xs
    → length xs < fuel
    → (t : Server) × (timer_handler fuel s cur ≡ running t)
      × (t.log
          ≡ s.log ++ closings s.global_epollfd s.users (expired cur xs) ++ sets_alarm timeslot ∷ [])
      × IsList t.heap t.timer_lst (remaining cur xs)
      × IsSorted (remaining cur xs)
      × (xs ≡ expired cur xs ++ remaining cur xs)
      × AllUpTo cur (expired cur xs)
      × AllFrom (suc cur) (remaining cur xs)
unfolding timer_handler
timer_handler-closings fuel s cur xs is sorted enough =
    let (whole, due, later, sorted', r) = tick-IsSorted cur fuel xs is enough sorted in
    let (calls, l, h, run, p) = ticked-Returns s r in
    let e =
      ap (run_calls (record s { timer_lst = l; heap = h })) p.0
      ∙ run_calls-closings (record s { timer_lst = l; heap = h }) (expired cur xs) in
    (
      record s {
        timer_lst = l;
        heap = h;
        log =
            s.log ++ closings s.global_epollfd s.users (expired cur xs) ++ sets_alarm timeslot ∷ [];
      },
      run ∙ ap (λ t. running (emit t (sets_alarm timeslot ∷ []))) e,
      refl,
      p.1,
      sorted',
      whole,
      due,
      later,
    )
