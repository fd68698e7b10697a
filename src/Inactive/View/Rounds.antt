-- ===== src/Inactive/View/Rounds.antt =====
-- Timer/closeNonactiveConn.cpp: the rounds of the loop, against the view of the server.
use mathlib.Core.Path.{ap₂}
use linux_websocket.Prelude.{
  ℕ, ◌+◌, ◌<◌, ◌≡◌, ◌∙◌, refl, ap, Bool, true, false, none, some, Option, List, [], ◌∷◌, ◌++◌,
  arith, if◌then◌else◌, length,
}
use linux_websocket.Timer.Chain.{Cells}
use linux_websocket.Timer.Tick.{expired, remaining, tick-Ticked}
use linux_websocket.Inactive.{
  Fd, ClientData, Server, Outcome, running, sets_alarm, Event, on_events, after_events,
  timer_handler, serve, emit, timeslot, run_calls,
}
use linux_websocket.Inactive.Timeouts.{closings, run_calls-closings, ticked-Returns}
use linux_websocket.Inactive.View.{
  View, goodbyes, Setting, view_event, view_events, view_after, view_rounds, AllPlausible,
  RoundsPlausible, events_in,
}
use linux_websocket.Inactive.View.Owners.{Owned, Owned-remaining, Owned-expired}
use linux_websocket.Inactive.View.Sizes.{length-view_event, length-view_events, length-view_after}
use linux_websocket.Inactive.View.Refines.{Shows, Reaches, on_event-Reaches}

closings-goodbyes :
    (e : Fd) (users : ℕ → ClientData) (xs : Cells)
    → Owned users xs
    → closings e users xs ≡ goodbyes e xs
closings-goodbyes e users [] o = refl
closings-goodbyes e users (c ∷ xs) o = rw (o.0.1, closings-goodbyes e users xs o.1) refl

module _ (w : Setting) (fuel : ℕ) where
  if_Reaches :
      (b c : Bool) (o p : Outcome) (u v : View)
      → b ≡ c
      → Reaches w u o
      → Reaches w v p
      → Reaches w (if c then u else v) (if b then o else p)
  if_Reaches true true o p u v e x y = x
  if_Reaches true false o p u v e x y = absurd (cc)
  if_Reaches false true o p u v e x y = absurd (cc)
  if_Reaches false false o p u v e x y = y

  timer_handler-Reaches :
      (s : Server) (v : View) (cur : ℕ)
      → Shows w s v
      → length v.cells < fuel
      → Reaches w
          (record v {
            cells = remaining cur v.cells;
            log =
                v.log
                ++ goodbyes w.global_epollfd (expired cur v.cells)
                ++ sets_alarm timeslot ∷ [];
          })
          (timer_handler fuel s cur)
  unfolding timer_handler
  timer_handler-Reaches s v cur h enough =
      let (calls, l, g, run, p) = ticked-Returns s (tick-Ticked cur fuel v.cells h.list enough) in
      let past = expired cur v.cells in
      let t : Server = record s { timer_lst = l; heap = g } in
      let e = ap (run_calls t) p.calls ∙ run_calls-closings t past in
      let acts = closings s.global_epollfd s.users past in
      (
        record t { log = (s.log ++ acts) ++ sets_alarm timeslot ∷ [] },
        run ∙ ap (λ u. running (emit u (sets_alarm timeslot ∷ []))) e,
        record {
          list = p.list;
          owned = Owned-remaining s.users cur v.cells h.owned;
          timeout = h.timeout;
          stop_server = h.stop_server;
          log =
              ap₂ (λ x y. x ++ y ++ sets_alarm timeslot ∷ []) h.log
                (closings-goodbyes s.global_epollfd s.users past
                    (Owned-expired s.users cur v.cells h.owned)
                  ∙ ap (λ x. goodbyes x past) h.global_epollfd);
          main_epollfd = h.main_epollfd;
          global_epollfd = h.global_epollfd;
          listenfd = h.listenfd;
          pipe_read = h.pipe_read;
        },
      )

  after_events-Reaches :
      (s : Server) (v : View) (cur : ℕ)
      → Shows w s v
      → length v.cells < fuel
      → Reaches w (view_after w v cur) (after_events fuel s cur)
  unfolding after_events view_after
  after_events-Reaches s v cur h enough =
      let (t, run, k) = timer_handler-Reaches s v cur h enough in
      if_Reaches s.timeout v.timeout _ _ _ _ h.timeout
        (
          record t { timeout = false },
          rw run refl,
          record {
            list = k.list;
            owned = k.owned;
            timeout = refl;
            stop_server = k.stop_server;
            log = k.log;
            main_epollfd = k.main_epollfd;
            global_epollfd = k.global_epollfd;
            listenfd = k.listenfd;
            pipe_read = k.pipe_read;
          },
        )
        (s, refl, h)

  on_events-Reaches :
      (s : Server) (v : View) (evs : List Event)
      → Shows w s v
      → length v.cells + length evs < fuel
      → AllPlausible w v evs
      → Reaches w (view_events w v evs) (on_events fuel s evs)
  unfolding on_events view_events
  on_events-Reaches s v [] h enough p = (s, refl, h)
  on_events-Reaches s v (ev ∷ evs) h enough p =
      let (t, run, k) = on_event-Reaches w fuel s v h ev (omega arith) p.0 in
      let (u, run', k') =
        on_events-Reaches t (view_event w v ev) evs k
          (omega (arith, enough, length-view_event w v ev)) p.1 in
      (u, rw run run', k')

  rounds-Reaches :
      (s : Server) (v : View) (rounds : List (Option (List Event × ℕ)))
      → Shows w s v
      → length v.cells + events_in rounds < fuel
      → RoundsPlausible w v rounds
      → Reaches w (view_rounds w v rounds) (serve fuel s rounds)
  unfolding serve view_rounds
  rounds-Reaches s v [] h enough p = (s, refl, h)
  rounds-Reaches s v (none ∷ rounds) h enough p = (s, refl, h)
  rounds-Reaches s v (some (evs, cur) ∷ rounds) h enough p =
      let v' = view_events w v evs in
      let grown = length-view_events w v evs in
      let (t, run, k) = on_events-Reaches s v evs h (omega arith) p.0 in
      let (u, run', k') = after_events-Reaches t v' cur k (omega arith) in
      let (r, run'', k'') =
        rounds-Reaches u (view_after w v' cur) rounds k'
          (omega (arith, grown, enough, length-view_after w v' cur)) p.1 in
      if_Reaches s.stop_server v.stop_server _ _ _ _ h.stop_server (s, refl, h)
        (r, rw (run, run') run'', k'')

-- The server behaves as its view, over any rounds of events. From a server with a well-formed list
-- of timers, each owned by its client, the loop ends without a fault and without leaving an array,
-- with the same calls of the system in the same order as the view, and with the timers of the view,
-- well formed and each owned by its client. This holds while the fuel is more than the timers and
-- events together, and while each connection is accepted on a descriptor below FD_LIMIT that no
-- client has, with a timer at a new address that add_timer has a place for, and data come only from
-- clients with a timer.
pub serve-View :
    (w : Setting) (fuel : ℕ) (s : Server) (v : View) (rounds : List (Option (List Event × ℕ)))
    → Shows w s v
    → length v.cells + events_in rounds < fuel
    → RoundsPlausible w v rounds
    → (t : Server) × (serve fuel s rounds ≡ running t) × Shows w t (view_rounds w v rounds)
serve-View w fuel s v rounds h enough p = rounds-Reaches w fuel s v rounds h enough p
