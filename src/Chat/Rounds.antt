-- ===== src/Chat/Rounds.antt =====
-- Multiprocessing/multiprocessingChatServer.cpp: the loop of the parent, from its start.
use linux_websocket.Prelude.{
  ◌≡◌, Bool, true, false, Option, none, some, List, [], ◌∷◌, arith, if◌then◌else◌,
}
use linux_websocket.Chat.{Server, Outcome, running, Event, on_events, serve}
use linux_websocket.Chat.Table.{IsConsistent}
use linux_websocket.Chat.Safety.{Safe, AllPlausible, then_run-Safe, on_events-Safe}

-- Each round is plausible when its turn comes.
abbrev pub RoundsPlausible : Server → List (Option (List Event)) → Type 0
RoundsPlausible s [] = Unit {0}
RoundsPlausible s (none ∷ rounds) = Unit {0}
RoundsPlausible s (some evs ∷ rounds) =
    AllPlausible s evs × ((t : Server) → on_events s evs ≡ running t → RoundsPlausible t rounds)

if_Safe : (b : Bool) (r t : Outcome) → Safe r → Safe t → Safe (if b then r else t)
if_Safe true r t x y = x
if_Safe false r t x y = y

rounds-Safe :
    (s : Server) (rounds : List (Option (List Event)))
    → IsConsistent s
    → RoundsPlausible s rounds
    → Safe (serve s rounds)
unfolding serve
rounds-Safe s [] c p = c
rounds-Safe s (none ∷ rounds) c p = c
rounds-Safe s (some evs ∷ rounds) c p = if_Safe s.stop_server _ _ c (
    then_run-Safe (on_events s evs) (λ t. serve t rounds) (on_events-Safe s evs c p.0)
      (λ t e d. rounds-Safe t rounds d (p.1 t e)))

-- The loop of the parent, from a server without users on and with any rounds of events in any
-- order, never takes an index out of range, and keeps the tables consistent: each user's process is
-- mapped to the user's slot, and there are at most USER_LIMIT users. A child process gets a slot
-- below the limit. This holds if fork never returns the pid of a child that still serves a user,
-- and waitpid returns, each once, only children that serve users.
pub serve-Safe :
    (s : Server) (rounds : List (Option (List Event)))
    → s.user_count ≡ 0
    → RoundsPlausible s rounds
    → Safe (serve s rounds)
serve-Safe s rounds empty p =
    rounds-Safe s rounds (record { bounded = omega arith; mapped = λ i h. absurd (omega arith) }) p
