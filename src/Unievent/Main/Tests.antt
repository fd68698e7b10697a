-- ===== src/Unievent/Main/Tests.antt =====
-- Signal/unievent.cpp: main with arguments, in which all calls work and SIGTERM comes.
use linux_websocket.Prelude.{true, none, List, [], ◌∷◌}
use linux_websocket.Unievent.{sigterm, Event, event, raised, Wait, returns}

abbrev signal_comes : Event
signal_comes = record { sockfd = 5; readable = true; connfd = none }

abbrev until_sigterm : List Wait
until_sigterm = returns (raised sigterm true ∷ event signal_comes ∷ []) ∷ returns [] ∷ []
