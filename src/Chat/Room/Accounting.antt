-- ===== src/Chat/Room/Accounting.antt =====
-- Multiprocessing/multiprocessingChatServer.cpp: what becomes of the messages that a client sends to
-- another, in a room that nobody leaves.
use linux_websocket.Prelude.{ℕ, ◌+◌, ◌≤◌, ◌≡◌, ◌==◌, if◌then◌else◌}
use linux_websocket.Chat.Room.{
  Room, Step, speaks, hangs_up, relays, hears, joins, leaves, Steps, start, then_step, event_of,
  events,
}
use linux_websocket.Chat.Room.Hall.{Hall}
use linux_websocket.Chat.Room.Posting.{Apart}
use linux_websocket.Chat.Room.Notices.{said_in, heard_in, under_way}
use linux_websocket.Chat.Room.Arriving.{Unused}
use linux_websocket.Chat.Room.Matches.{Matches}

-- The sends of the index `k` towards the client at slot `j` that are lost in a step: that of its
-- child to the parent, or that of the parent to the child at slot `j`.
abbrev pub lost_at : {r t : Room} (j k : ℕ) → Step r t → ℕ
lost_at j k (speaks l bs ok below fits) = if l == k then (if ok then 0 else 1) else 0
lost_at j k (hangs_up l e below) = 0
lost_at j k (relays l i rest rooms below q e) = if l == k then (if rooms j then 0 else 1) else 0
lost_at j k (hears l i rest n below q) = 0
lost_at j k (joins a epollfd e) = 0
lost_at j k (leaves pid last e) = 0

abbrev pub lost : {r t : Room} (j k : ℕ) → Steps r t → ℕ
lost j k start = 0
lost j k (then_step p s) = lost j k p + lost_at j k s

-- Nobody leaves, and the pipe of a client that joins is none that is open for a user.
abbrev pub StaysAt : {r t : Room} → Step r t → Type 0
StaysAt (speaks l bs ok below fits) = Unit
StaysAt (hangs_up l e below) = Unit
StaysAt (relays l i rest rooms below q e) = Unit
StaysAt (hears l i rest n below q) = Unit
StaysAt {r} (joins a epollfd e) = Unused r.server a
StaysAt (leaves pid last e) = ⊥

abbrev pub Stay : {r t : Room} → Steps r t → Type 0
Stay start = Unit
Stay (then_step p s) = Stay p × StaysAt s

-- What a step does to the messages from slot `k` to slot `j`.
record Accounts {r t : Room} (j k : ℕ) (s : Step r t) : Type 0 where
  more : r.server.user_count ≤ t.server.user_count
  apart : Apart t.server.users t.server.user_count
  balance :
      heard_in j k (event_of s) + under_way t j k + lost_at j k s
      ≡ said_in k (event_of s) + under_way r j k

-- The same of several steps.
record Accounted {r t : Room} (j k : ℕ) (p : Steps r t) : Type 0 where
  more : r.server.user_count ≤ t.server.user_count
  apart : Apart t.server.users t.server.user_count
  balance :
      heard_in j k (events p) + under_way t j k + lost j k p
      ≡ said_in k (events p) + under_way r j k
