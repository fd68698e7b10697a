-- ===== src/Unievent/Backlog.antt =====
-- Signal/unievent.cpp: the listening socket under EPOLLET. Clients connect while the loop runs; the
-- kernel keeps the connections that are not accepted yet, and tells of the socket only after a new
-- one has come.
pub mod Tests
use mathlib.Core.Path.{subst}
use mathlib.Core.List.{append_assoc, append-nil}
use linux_websocket.Prelude.{
  ℕ, zero, suc, ◌+◌, ◌≡◌, ◌∙◌, refl, sym, ap, inl, inr, Bool, true, false, ◌&&◌, Option, none, some,
  List, [], ◌∷◌, ◌++◌, ◌==◌, if◌then◌else◌, length, length-append, arith, Bool-cases,
}
use linux_websocket.Unievent.{
  Fd, Action, adds_fd, sets_nonblocking, handles, caught, closes, Server, Event, on_event, Turn,
  event, on_turns, Wait, returns, serve, emit, addfd,
}

-- The connections that wait for accept, in the order in which they came, and whether one has come
-- since epoll_wait last told of the socket.
pub record Backlog : Type 0 where
  pub waiting : List Fd
  pub is_new : Bool

-- The clients of `fds` connect.
pub connect : Backlog → List Fd → Backlog
connect b [] = b
connect b (fd ∷ fds) = connect (record { waiting = b.waiting ++ fd ∷ []; is_new = true }) fds

-- What accept returns, for a socket that does not block, and what it leaves.
abbrev pub accept : List Fd → Option Fd × List Fd
accept [] = (none, [])
accept (fd ∷ fds) = (some fd, fds)

module _ (listenfd : Fd) where
  -- An entry of `events` for the listening socket.
  abbrev pub connection : Option Fd → Event
  connection connfd = record { sockfd = listenfd; readable = true; connfd = connfd }

  -- What epoll_wait returns in a round, where the loop calls accept for each entry of the socket.
  abbrev pub told : Backlog → List Turn × Backlog
  told b =
      if b.is_new
      then (
        event (connection (accept b.waiting).0) ∷ [],
        record { waiting = (accept b.waiting).1; is_new = false },
      )
      else ([], b)

  -- The rounds of the loop, before each of which some clients connect, and the connections that
  -- wait after the last.
  pub rounds_of : Backlog → List (List Fd) → List Wait × Backlog
  rounds_of b [] = ([], b)
  rounds_of b (fds ∷ arrivals) =
      let r = told (connect b fds) in
      let rest = rounds_of r.1 arrivals in (returns r.0 ∷ rest.0, rest.1)

-- The descriptors that are watched, of those that accept returned.
abbrev pub watched : List Action → List Fd
watched [] = []
watched (adds_fd e (some fd) ∷ acts) = fd ∷ watched acts
watched (_ ∷ acts) = watched acts

abbrev pub concat : List (List Fd) → List Fd
concat [] = []
concat (fds ∷ arrivals) = fds ++ concat arrivals

-- The rounds before which a client has connected.
abbrev pub busy : List (List Fd) → ℕ
busy [] = 0
busy ([] ∷ arrivals) = busy arrivals
busy ((fd ∷ fds) ∷ arrivals) = suc (busy arrivals)

-- No connection has come since the socket was told of.
abbrev pub quiet : List Fd → Backlog
quiet queue = record { waiting = queue; is_new = false }

connect-cons :
    (b : Backlog) (fd : Fd) (fds : List Fd)
    → connect b (fd ∷ fds) ≡ record { waiting = b.waiting ++ fd ∷ fds; is_new = true }
unfolding connect
connect-cons b fd [] = refl
connect-cons b fd (e ∷ fds) =
    connect-cons (record { waiting = b.waiting ++ fd ∷ []; is_new = true }) e fds
    ∙ ap (λ q. record { waiting = q; is_new = true }) (append_assoc b.waiting (fd ∷ []) (e ∷ fds))

watched-append : (xs ys : List Action) → watched (xs ++ ys) ≡ watched xs ++ watched ys
watched-append [] ys = refl
watched-append (adds_fd e (some fd) ∷ xs) ys = ap (◌∷◌ fd) (watched-append xs ys)
watched-append (adds_fd e none ∷ xs) ys = watched-append xs ys
watched-append (sets_nonblocking _ ∷ xs) ys = watched-append xs ys
watched-append (handles _ ∷ xs) ys = watched-append xs ys
watched-append (caught _ ∷ xs) ys = watched-append xs ys
watched-append (closes _ ∷ xs) ys = watched-append xs ys

-- From `s` to `t`, where `queue` were waiting or came, and `rest` are waiting in the end: the first
-- `n` of them are watched.
pub record Watches (s : Server) (queue : List Fd) (n : ℕ) (t : Server) (rest : List Fd)
    : Type 0 where
  pub order : watched t.log ++ rest ≡ watched s.log ++ queue
  pub count : length (watched t.log) ≡ length (watched s.log) + n

serve-step :
    (s : Server) (ts : List Turn) (ws : List Wait)
    → s.stop_server ≡ false
    → (serve s (returns ts ∷ ws)).0 ≡ (serve (on_turns s ts) ws).0
unfolding serve
serve-step s ts ws e = ground arith

turn-addfd :
    (l : Fd) (s : Server) (connfd : Option Fd)
    → s.listenfd ≡ l
    → on_turns s (event (connection l connfd) ∷ []) ≡ addfd s connfd
unfolding on_turns on_event
turn-addfd l s connfd e = ground arith

-- The rest of the rounds, after one in which `fd` was accepted.
Watches-next :
    {s t : Server} (fd : Fd) (queue rest : List Fd) (n : ℕ)
    → Watches (addfd s (some fd)) queue n t rest
    → Watches s (fd ∷ queue) (suc n) t rest
Watches-next {s} fd queue rest n w =
    let e = watched-append s.log (adds_fd s.epollfd (some fd) ∷ sets_nonblocking (some fd) ∷ []) in
    record {
      order = w.order ∙ ap (λ xs. xs ++ queue) e ∙ append_assoc (watched s.log) (fd ∷ []) queue;
      count = omega (arith, w.count, ap length e, length-append (watched s.log) (fd ∷ []));
    }

-- A round before which clients have connected, where `x` is the first in the queue.
round-Watches :
    (l : Fd) (s : Server) (queue fds : List Fd) (fd x : Fd) (left : List Fd)
    (arrivals : List (List Fd))
    → s.stop_server ≡ false
    → s.listenfd ≡ l
    → queue ++ fd ∷ fds ≡ x ∷ left
    → Watches
        (addfd s (some x))
        (left ++ concat arrivals)
        (busy arrivals)
        (serve (addfd s (some x)) (rounds_of l (quiet left) arrivals).0).0
        (rounds_of l (quiet left) arrivals).1.waiting
    → Watches s
        (queue ++ ((fd ∷ fds) ++ concat arrivals))
        (suc (busy arrivals))
        (serve s (rounds_of l (quiet queue) ((fd ∷ fds) ∷ arrivals)).0).0
        (rounds_of l (quiet queue) ((fd ∷ fds) ∷ arrivals)).1.waiting
unfolding rounds_of
round-Watches l s queue fds fd x left arrivals go at_l e w =
    let new =
      connect-cons (quiet queue) fd fds ∙ ap (λ q. record { waiting = q; is_new = true }) e in
    let rest = rounds_of l (quiet left) arrivals in
    let came =
      sym (append_assoc queue (fd ∷ fds) (concat arrivals)) ∙ ap (λ xs. xs ++ concat arrivals) e in
    let n = suc (busy arrivals) in
    let all = queue ++ ((fd ∷ fds) ++ concat arrivals) in
    let run =
      serve-step s (event (connection l (some x)) ∷ []) rest.0 go
      ∙ ap (λ u. (serve u rest.0).0) (turn-addfd l s (some x) at_l) in
    subst
      (λ b.
        Watches s all n (serve s (returns (told l b).0 ∷ (rounds_of l (told l b).1 arrivals).0)).0
          (rounds_of l (told l b).1 arrivals).1.waiting)
      (sym new)
      (subst (λ t. Watches s all n t rest.1.waiting) (sym run)
        (subst (λ q. Watches s q n (serve (addfd s (some x)) rest.0).0 rest.1.waiting) (sym came)
          (Watches-next x (left ++ concat arrivals) rest.1.waiting (busy arrivals) w)))

rounds-Watches :
    (l : Fd) (s : Server) (queue : List Fd) (arrivals : List (List Fd))
    → s.stop_server ≡ false
    → s.listenfd ≡ l
    → Watches s
        (queue ++ concat arrivals)
        (busy arrivals)
        (serve s (rounds_of l (quiet queue) arrivals).0).0
        (rounds_of l (quiet queue) arrivals).1.waiting
unfolding rounds_of connect on_turns serve
rounds-Watches l s queue [] go at_l = record {
  order = ap (λ xs. watched s.log ++ xs) (sym (append-nil _));
  count = omega arith;
}
rounds-Watches l s queue ([] ∷ arrivals) go at_l =
    let rest = rounds_of l (quiet queue) arrivals in
    subst (λ t. Watches s (queue ++ concat arrivals) (busy arrivals) t rest.1.waiting)
      (sym (serve-step s [] rest.0 go)) (rounds-Watches l s queue arrivals go at_l)
rounds-Watches l s [] ((fd ∷ fds) ∷ arrivals) go at_l =
    round-Watches l s [] fds fd fd fds arrivals go at_l refl
      (rounds-Watches l (addfd s (some fd)) fds arrivals go at_l)
rounds-Watches l s (x ∷ queue) ((fd ∷ fds) ∷ arrivals) go at_l =
    round-Watches l s (x ∷ queue) fds fd x (queue ++ fd ∷ fds) arrivals go at_l refl
      (rounds-Watches l (addfd s (some x)) (queue ++ fd ∷ fds) arrivals go at_l)

-- From a server that is not stopped, with `queue` waiting: the loop watches the connections in the
-- order in which they have come, one for each round before which a client has connected, however
-- many have. All others are still waiting in the end, and no round without a new client takes one.
pub serve-Watches :
    (s : Server) (queue : List Fd) (arrivals : List (List Fd))
    → s.stop_server ≡ false
    → Watches s
        (queue ++ concat arrivals)
        (busy arrivals)
        (serve s (rounds_of s.listenfd (quiet queue) arrivals).0).0
        (rounds_of s.listenfd (quiet queue) arrivals).1.waiting
serve-Watches s queue arrivals go = rounds-Watches s.listenfd s queue arrivals go refl
