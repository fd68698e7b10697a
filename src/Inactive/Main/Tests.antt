-- ===== src/Inactive/Main/Tests.antt =====
-- Timer/closeNonactiveConn.cpp: a run of main in which one client comes and epoll_wait fails then.
use linux_websocket.Prelude.{ℕ, ◌≡◌, refl, true, Option, none, some, List, [], ◌∷◌, ◌++◌, arith}
use linux_websocket.Timer.Heap.{null}
use linux_websocket.Timer.Insert.{insert, added}
use linux_websocket.Inactive.{Server, ClientData, Event, running, closes, eof}
use linux_websocket.Inactive.View.{RoundsPlausible, view_rounds, view_event, extend}
use linux_websocket.Inactive.Main.{main, working, setting, first_view, main-View}

abbrev users : ℕ → ClientData
users fd = record { address = 0; socket_fd = 0; timer = null }

abbrev one_round : List (Option (List Event × ℕ))
one_round =
    some (
      record {
        sockfd = 4;
        readable = true;
        accepted = some (11, 0);
        new_timer = 100;
        cur = 0;
        signals = [];
        received = eof;
      }
          ∷ [],
      0,
    )
    ∷ none
    ∷ []

one-RoundsPlausible :
    RoundsPlausible (setting 4 3 (5, 6) users) (first_view 4 3 (5, 6) users) one_round
unfolding view_rounds view_event extend added insert
one-RoundsPlausible = (
  (
    record {
      arrives = λ _. record {
        fd = 11;
        address = 0;
        accepted = refl;
        below = omega arith;
        unknown = refl;
        valid = omega arith;
        fresh = refl;
        placed = λ e. cc;
      };
      known = λ e. cc;
    },
    tt,
  ),
  tt,
)

main-View_example :
    (t : Server) × (main 9 (working 4 3 (5, 6) users) one_round ≡ some (running t))
    × (t.log
        ≡ (view_rounds (setting 4 3 (5, 6) users) (first_view 4 3 (5, 6) users) one_round).log
          ++ closes 4 ∷ closes 6 ∷ closes 5 ∷ [])
    × (t.timer_lst.head ≡ null)
main-View_example = main-View 4 3 (5, 6) users 9 one_round (omega arith) one-RoundsPlausible
