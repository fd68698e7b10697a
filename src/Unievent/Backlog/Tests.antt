-- ===== src/Unievent/Backlog/Tests.antt =====
-- Signal/unievent.cpp: two clients come at once, and later a third.
use linux_websocket.Prelude.{◌≡◌, refl, List, [], ◌∷◌}
use linux_websocket.Unievent.{Fd, Server, set_up, serve, on_turns}
use linux_websocket.Unievent.Backlog.{
  rounds_of, connect, quiet, watched, busy, concat, Watches, serve-Watches,
}

abbrev three_clients : List (List Fd)
three_clients = (9 ∷ 10 ∷ []) ∷ [] ∷ (11 ∷ []) ∷ []

abbrev listening : Server
listening = set_up 3 4 5 6

one_left : (rounds_of 4 (quiet []) three_clients).1.waiting ≡ 11 ∷ []
unfolding rounds_of connect
one_left = refl

two_watched :
    watched (serve listening (rounds_of 4 (quiet []) three_clients).0).0.log ≡ 4 ∷ 5 ∷ 9 ∷ 10 ∷ []
unfolding rounds_of connect serve on_turns set_up
two_watched = refl

serve-Watches_example :
    Watches listening
      (concat three_clients)
      (busy three_clients)
      (serve listening (rounds_of listening.listenfd (quiet []) three_clients).0).0
      (rounds_of listening.listenfd (quiet []) three_clients).1.waiting
unfolding set_up
serve-Watches_example = serve-Watches listening [] three_clients refl
