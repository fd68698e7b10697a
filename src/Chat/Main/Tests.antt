-- ===== src/Chat/Main/Tests.antt =====
-- Multiprocessing/multiprocessingChatServer.cpp: a run of main with one client and a message from
-- it.
use linux_websocket.Prelude.{◌≡◌, true, Option, none, some, List, [], ◌∷◌, arith}
use linux_websocket.Chat.{Server, Event, running, failed, in_parent}
use linux_websocket.Chat.Safety.{Safe}
use linux_websocket.Chat.Rounds.{RoundsPlausible}
use linux_websocket.Chat.Main.{SetUp, set_up, main, main-Safe}

abbrev works : SetUp
works = record {
  listenfd = some 4;
  is_bound = true;
  is_listening = true;
  users = λ i. record { address = 0; connfd = 0; pid = 0; pipe_parent = 0; pipe_child = 0 };
  epollfd = some 3;
  sig_pipe = some (5, 6);
  handles = true;
  shmfd = some 7;
  is_resized = true;
  is_mapped = true;
}

abbrev first_client : Event
first_client = record {
  sockfd = 4;
  events = 1;
  arrival = record { accepted = some (23, 0); pair = some (33, 43); forked = in_parent 103 };
  signals = [];
  received = none;
}

abbrev its_message : Event
its_message = record {
  sockfd = 33;
  events = 1;
  arrival = record { accepted = none; pair = none; forked = failed };
  signals = [];
  received = some 0;
}

abbrev main_rounds : List (Option (List Event))
main_rounds = some (first_client ∷ []) ∷ some (its_message ∷ []) ∷ []

no_users : (s : Server) → set_up works ≡ running s → s.user_count ≡ 0
unfolding set_up
no_users s e = ground arith

main-plausible : (s : Server) → set_up works ≡ running s → RoundsPlausible s main_rounds
main-plausible s e =
    let z = no_users s e in
    (((λ i h. absurd (omega arith), tt), λ t f. tt), λ t f. (((tt, tt), λ u g. tt), λ u g. tt))

main-Safe_example : Safe (main works main_rounds)
main-Safe_example = main-Safe works main_rounds main-plausible
