-- ===== src/Unievent/Tests.antt =====
-- Signal/unievent.cpp: a client comes, the process gets SIGCHLD and SIGTERM, and the loop reads
-- both.
use linux_websocket.Prelude.{◌≡◌, refl, true, some, none, List, [], ◌∷◌}
use linux_websocket.Unievent.{
  sigterm, sigchld, sighup, set_up, Event, event, raised, Wait, returns, serve, on_turns,
}
use linux_websocket.Unievent.Delivery.{caught_in}

abbrev comes : Event
comes = record { sockfd = 4; readable = true; connfd = some 9 }

abbrev pipe_event : Event
pipe_event = record { sockfd = 5; readable = true; connfd = none }

abbrev rounds : List Wait
rounds =
    returns (event comes ∷ raised sigchld true ∷ [])
    ∷ returns (raised sigterm true ∷ event pipe_event ∷ [])
    ∷ returns (raised sighup true ∷ [])
    ∷ []

prints_both :
    (caught_in (serve (set_up 3 4 5 6) rounds).0.log ≡ sigchld ∷ sigterm ∷ [])
    × ((serve (set_up 3 4 5 6) rounds).1 ≡ returns (raised sighup true ∷ []) ∷ [])
unfolding serve on_turns set_up
prints_both = (refl, refl)
