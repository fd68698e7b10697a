-- ===== src/Inactive/View/Refines.antt =====
-- Timer/closeNonactiveConn.cpp: the handlers and the loop, against the view of the server.
use mathlib.Core.Path.{subst, ap₂}
use linux_websocket.Prelude.{
  ℕ, ◌+◌, ◌<◌, ◌≡◌, ◌≢◌, ◌∙◌, refl, sym, ap, inl, inr, true, false, ◌&&◌, some, List, [], ◌∷◌, ◌++◌,
  arith, ◌==◌, if◌then◌else◌, length, length-append, ltb, Bool-cases, Option-cases,
}
use linux_websocket.Timer.Heap.{Ptr, null, TimerList, Heap, write}
use linux_websocket.Timer.Chain.{Cell, Cells, timer_of, has, IsList}
use linux_websocket.Timer.Insert.{added}
use linux_websocket.Timer.Add.{Adds, add_timer-added}
use linux_websocket.Timer.{add_timer}
use linux_websocket.Timer.Delete.{del_timer-Deleted}
use linux_websocket.Inactive.{
  cb_func, update_user, Fd, ClientData, Server, Outcome, running, Action, adds_fd, deletes_fd,
  closes, fd_limit, Signal, sigalrm, sigterm, other, Received, error, eof, got, Event, on_signals,
  on_connection, close_user, on_data, on_event, emit,
}
use linux_websocket.Inactive.Accepting.{
  cell_for, IsList-write, new-Holds, with_timers-Returns, if_yes,
}
use linux_websocket.Inactive.Clients.{extend_timer-Adjusted, live_timer}
use linux_websocket.Inactive.View.{
  View, serves, extend, leave, arrive, flags, Setting, welcome, dismiss, hear, view_event, Arrives,
  Plausible,
}
use linux_websocket.Inactive.View.Owners.{
  Owned, Place, place, Owned-place, Owned-extend, Owned-leave, Owned-added, Owned-update,
}

arrive-added : (c : Cell) (xs ys : Cells) → added c xs ≡ some ys → arrive c xs ≡ ys
arrive-added c xs ys e = rw (e, arrive) refl

-- A server with a well-formed list of the view's timers, each owned by its client.
pub record Shows (w : Setting) (s : Server) (v : View) : Type 0 where
  pub list : IsList s.heap s.timer_lst v.cells
  pub owned : Owned s.users v.cells
  pub timeout : s.timeout ≡ v.timeout
  pub stop_server : s.stop_server ≡ v.stop_server
  pub log : s.log ≡ v.log
  pub main_epollfd : s.main_epollfd ≡ w.main_epollfd
  pub global_epollfd : s.global_epollfd ≡ w.global_epollfd
  pub listenfd : s.listenfd ≡ w.listenfd
  pub pipe_read : s.pipe_read ≡ w.pipe_read

-- A handler goes on, in a server with the view `v`.
abbrev pub Reaches : Setting → View → Outcome → Type 0
Reaches w v o = (t : Server) × (o ≡ running t) × Shows w t v

module _ (w : Setting) where
  on_signals-Shows :
      (s : Server) (v : View) (xs : List Signal)
      → Shows w s v
      → Shows w (on_signals s xs) (flags v xs)
  unfolding on_signals flags
  on_signals-Shows s v [] h = h
  on_signals-Shows s v (sigalrm ∷ xs) h =
      on_signals-Shows (record s { timeout = true }) (record v { timeout = true }) xs
        (record {
          list = h.list;
          owned = h.owned;
          timeout = refl;
          stop_server = h.stop_server;
          log = h.log;
          main_epollfd = h.main_epollfd;
          global_epollfd = h.global_epollfd;
          listenfd = h.listenfd;
          pipe_read = h.pipe_read;
        })
  on_signals-Shows s v (sigterm ∷ xs) h =
      on_signals-Shows (record s { stop_server = true }) (record v { stop_server = true }) xs
        (record {
          list = h.list;
          owned = h.owned;
          timeout = h.timeout;
          stop_server = refl;
          log = h.log;
          main_epollfd = h.main_epollfd;
          global_epollfd = h.global_epollfd;
          listenfd = h.listenfd;
          pipe_read = h.pipe_read;
        })
  on_signals-Shows s v (other ∷ xs) h = on_signals-Shows s v xs h

  module _ (fuel : ℕ) (s : Server) (v : View) (h : Shows w s v) where
    -- The server after a handler that leaves the flags alone.
    abbrev after : (ℕ → ClientData) → TimerList → Heap → List Action → Server
    after users l g acts = record s { users = users; timer_lst = l; heap = g; log = s.log ++ acts }

    after-Shows :
        (users : ℕ → ClientData) (l : TimerList) (g : Heap) (acts seen : List Action) (xs : Cells)
        → IsList g l xs
        → Owned users xs
        → acts ≡ seen
        → Shows w (after users l g acts) (record v { cells = xs; log = v.log ++ seen })
    after-Shows users l g acts seen xs is o same = record {
      list = is;
      owned = o;
      timeout = h.timeout;
      stop_server = h.stop_server;
      log = ap₂ (λ x y. x ++ y) h.log same;
      main_epollfd = h.main_epollfd;
      global_epollfd = h.global_epollfd;
      listenfd = h.listenfd;
      pipe_read = h.pipe_read;
    }

    admitted-Reaches :
        (fd address cur : ℕ) (timer : Ptr) (ys : Cells)
        → length v.cells < fuel
        → fd < fd_limit
        → serves fd v.cells ≡ false
        → timer ≢ null
        → has timer v.cells ≡ false
        → added (cell_for timer fd cur) v.cells ≡ some ys
        → Reaches w
            (record v { cells = ys; log = v.log ++ adds_fd w.main_epollfd fd ∷ [] })
            (on_connection fuel s (some (fd, address)) cur timer)
    unfolding on_connection
    admitted-Reaches fd address cur timer ys enough below unknown valid fresh e =
        let c = cell_for timer fd cur in
        let u : ClientData = record { address = address; socket_fd = fd; timer = timer } in
        let acts : List Action = adds_fd s.main_epollfd fd ∷ [] in
        let r =
          subst
            (λ o.
              Adds (write s.heap timer (some (timer_of c null null))) c v.cells o (
                add_timer fuel timer s.timer_lst
                  (write s.heap timer (some (timer_of c null null)))))
            e
            (add_timer-added c v.cells fuel (new-Holds s.heap c valid)
              (IsList-write c (timer_of c null null) h.list fresh) fresh enough) in
        let (l, g, run, p) = with_timers-Returns (emit (update_user s fd u) acts) r in
        let users = λ (j : ℕ). if fd == j then u else s.users j in
        (
          after users l g acts,
          if_yes {b = ltb fd fd_limit} _ _ (ground arith) ∙ run,
          after-Shows users l g acts (adds_fd w.main_epollfd fd ∷ []) ys p.0
              (Owned-added users c v.cells ys (ground arith)
                (Owned-update s.users fd u v.cells unknown h.owned) e)
              (ap (λ x. adds_fd x fd ∷ []) h.main_epollfd),
        )

    on_connection-Reaches :
        (ev : Event)
        → length v.cells < fuel
        → Arrives w v.cells ev
        → Reaches w
            (welcome w v ev.new_timer ev.cur ev.accepted)
            (on_connection fuel s ev.accepted ev.cur ev.new_timer)
    unfolding welcome
    on_connection-Reaches ev enough a =
        elim (Option-cases (added (cell_for ev.new_timer a.fd ev.cur) v.cells)) [
          | inl e ↦ absurd (a.placed e)
          | inr (ys, e) ↦ rw a.accepted (
              subst
                (λ zs.
                  Reaches w
                    (record v { cells = zs; log = v.log ++ adds_fd w.main_epollfd a.fd ∷ [] })
                    (on_connection fuel s (some (a.fd, a.address)) ev.cur ev.new_timer))
                (sym (arrive-added (cell_for ev.new_timer a.fd ev.cur) v.cells ys e))
                (admitted-Reaches a.fd a.address ev.cur ev.new_timer ys enough a.below a.unknown
                  a.valid a.fresh e))
        ]

    -- The timer of a known client, as the lemmas on one timer want it.
    module _ (fd : Fd) (known : serves fd v.cells ≡ true) where
      abbrev at : Place fd v.cells
      at = place fd v.cells known

      whole : IsList s.heap s.timer_lst (at.front ++ at.own ∷ at.back)
      whole = subst (IsList s.heap s.timer_lst) at.whole h.list

      owner : ((s.users fd).timer ≡ at.own.addr) × ((s.users fd).socket_fd ≡ fd)
      owner =
          subst (λ i. ((s.users i).timer ≡ at.own.addr) × ((s.users i).socket_fd ≡ i)) at.client
            (Owned-place s.users at.front at.own at.back (subst (Owned s.users) at.whole h.owned))

      close_user-Reaches : Reaches w (dismiss w v fd) (close_user fuel s fd)
      unfolding dismiss close_user cb_func
      close_user-Reaches =
          let (l, g, run, d) =
            with_timers-Returns (cb_func s fd) (del_timer-Deleted at.own at.front at.back whole) in
          let acts : List Action =
            deletes_fd s.global_epollfd (s.users fd).socket_fd
            ∷ closes (s.users fd).socket_fd
            ∷ [] in
          (
            after s.users l g acts,
            rw (live_timer fuel s fd at.own at.front at.back whole owner.0, owner.0) run,
            after-Shows s.users l g acts _ (leave fd v.cells)
                (subst (IsList g l) (sym at.left) d.list) (Owned-leave s.users fd v.cells h.owned)
                (rw (owner.1, h.global_epollfd) refl),
          )

      extended-Reaches :
          (cur : ℕ)
          → length v.cells < fuel
          → Reaches w
              (record v { cells = extend fd (cur + 15) v.cells })
              (on_data fuel s fd cur got)
      unfolding on_data
      extended-Reaches cur enough =
          let (l, g, run, p) = with_timers-Returns s (
            extend_timer-Adjusted fuel s fd at.own at.front at.back whole owner.0 cur (
              omega
                (arith, enough, ap length at.whole, length-append at.front (at.own ∷ at.back)))) in
          (
            record s { timer_lst = l; heap = g },
            rw (live_timer fuel s fd at.own at.front at.back whole owner.0, owner.0) run,
            record {
              list = subst (IsList g l) (sym (at.extended (cur + 15))) p.0;
              owned = Owned-extend s.users fd (cur + 15) v.cells h.owned;
              timeout = h.timeout;
              stop_server = h.stop_server;
              log = h.log;
              main_epollfd = h.main_epollfd;
              global_epollfd = h.global_epollfd;
              listenfd = h.listenfd;
              pipe_read = h.pipe_read;
            },
          )

    on_data-Reaches :
        (fd : Fd) (cur : ℕ) (r : Received)
        → serves fd v.cells ≡ true
        → length v.cells < fuel
        → Reaches w (hear w v fd cur r) (on_data fuel s fd cur r)
    unfolding on_data hear
    on_data-Reaches fd cur (error is_eagain) known enough = elim (Bool-cases is_eagain) [
      | inl again ↦ rw again (s, refl, h)
      | inr lost ↦ rw lost (close_user-Reaches fd known)
    ]
    on_data-Reaches fd cur eof known enough = close_user-Reaches fd known
    on_data-Reaches fd cur got known enough = extended-Reaches fd known cur enough

    pub on_event-Reaches :
        (ev : Event)
        → length v.cells < fuel
        → Plausible w v ev
        → Reaches w (view_event w v ev) (on_event fuel s ev)
    unfolding on_event view_event
    on_event-Reaches ev enough p =
        let at_listenfd = ap (λ x. ev.sockfd == x) h.listenfd in
        let at_pipe = ap (λ x. (ev.sockfd == x) && ev.readable) h.pipe_read in
        elim (Bool-cases (ev.sockfd == w.listenfd)) [
          | inl arrives ↦
              rw (at_listenfd ∙ arrives, arrives)
                (on_connection-Reaches ev enough (p.arrives arrives))
          | inr old ↦
              rw (at_listenfd ∙ old, old)
                (elim (Bool-cases ((ev.sockfd == w.pipe_read) && ev.readable)) [
                  | inl signal ↦
                      rw (at_pipe ∙ signal, signal)
                        (on_signals s ev.signals, refl, on_signals-Shows s v ev.signals h)
                  | inr client ↦
                      rw (at_pipe ∙ client, client)
                        (elim (Bool-cases ev.readable) [
                          | inl here ↦ rw here (
                              on_data-Reaches ev.sockfd ev.cur ev.received (p.known old client here)
                                enough)
                          | inr nothing ↦ rw nothing (s, refl, h)
                        ])
                ])
        ]
