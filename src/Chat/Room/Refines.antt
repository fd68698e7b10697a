-- ===== src/Chat/Room/Refines.antt =====
-- Multiprocessing/multiprocessingChatServer.cpp: the room keeps what the hall promises.
use linux_websocket.Chat.Room.Matches.{
  Matches, FromSelf, FromOthers, speak-Matches, hang_up-Matches, hear-Matches, relay-Matches,
}
use linux_websocket.Chat.Room.Matches.Joins.{seated-Matches, left-Matches}
use linux_websocket.Chat.Room.Joining.{reap-count}
use mathlib.Core.Path.{subst}
use linux_websocket.Prelude.{ℕ, ◌<◌, ◌≡◌, refl, sym, none, some, List, [], ◌++◌, arith}
use linux_websocket.Chat.{Server, update, on_connection, reap}
use linux_websocket.Chat.Room.{
  Room, Step, speaks, hangs_up, relays, hears, joins, leaves, Steps, start, then_step, event_of,
  events,
}
use linux_websocket.Chat.Room.Pipes.{AllIn}
use linux_websocket.Chat.Room.Hall.{Hall, Event, padded, Moves, says, clears, then_move, done}

Step-Matches :
    {r t : Room} {h : Hall}
    → Matches r h
    → (s : Step r t) → (g : Hall) × Moves h (event_of s) g × Matches t g
Step-Matches {h} m (speaks k bs ok below fits) = (
  record h { latest = update h.latest k (some (padded bs)) },
  then_move (says k bs) done,
  speak-Matches m k bs ok fits below,
)
Step-Matches {h} m (hangs_up k e below) = (
  record h { latest = update h.latest k (some (padded [])) },
  then_move (clears k) done,
  hang_up-Matches m k e below,
)
Step-Matches {t} {h} m (relays k i rest rooms below q e) =
    (h, done, relay-Matches m t k i rest rooms q e)
Step-Matches m (hears j i rest n below q) = hear-Matches m j i rest n q
Step-Matches {r} {t} m (joins a epollfd e) =
    seated-Matches m a epollfd (on_connection (record r.server { log = [] }) a) refl t e
Step-Matches {r} {t} {h} m (leaves pid last e) =
    let s : Server = record r.server { log = [] } in
    (h, done, left-Matches m (reap s pid) (λ u f. reap-count s u pid f) t e)

Moves-trans :
    {f g h : Hall} {es ds : List Event} → Moves f es g → Moves g ds h → Moves f (es ++ ds) h
Moves-trans done q = q
Moves-trans (then_move m p) q = then_move m (Moves-trans p q)

pub Steps-Matches :
    {r t : Room} {h : Hall}
    → Matches r h
    → (p : Steps r t) → (g : Hall) × Moves h (events p) g × Matches t g
Steps-Matches {h} m start = (h, done, m)
Steps-Matches m (then_step p s) =
    let a = Steps-Matches m p in let b = Step-Matches a.2 s in (b.0, Moves-trans a.1 b.1, b.2)

-- Nothing is under way, and the child of each user has its slot as its index.
pub record Opened (r : Room) : Type 0 where
  pub ids : (k : ℕ) → k < r.server.user_count → (r.children k).idx ≡ k
  pub up : (k : ℕ) → r.to_parent k ≡ []
  pub down : (j : ℕ) → r.to_child j ≡ []

-- The hall in which nobody has spoken.
abbrev pub silent : Room → Hall
silent r = record { latest = λ i. none; screen = r.screen }

pub Opened-Matches : (r : Room) → Opened r → Matches r (silent r)
Opened-Matches r o = record {
  ids = o.ids;
  holds = λ i m e. absurd (ground arith);
  up = λ k. subst (AllIn (FromSelf (silent r) k)) (sym (o.up k)) tt;
  down = λ j. subst (AllIn (FromOthers (silent r) j)) (sym (o.down j)) tt;
  same = λ j. refl;
}

-- Where the pipes are empty at first and the child of each user has its slot as its index: whatever
-- steps the parent and the children make, in any order, with clients that join, users in the last
-- slot that leave and sends that fail or stop short, the events of these steps are, in their order,
-- moves of a hall in which nobody has spoken at first, and they leave every client's screen as the
-- steps do. So what a client gets in an event is the beginning, as long as its send takes, of the
-- latest message that another slot has said in these events, with zeros behind it up to the size of
-- a segment, or zeros where that segment has been cleared since.
pub steps-Moves :
    (r t : Room)
    → Opened r
    → (p : Steps r t)
    → (g : Hall) × Moves (silent r) (events p) g × ((j : ℕ) → t.screen j ≡ g.screen j)
steps-Moves r t o p = let a = Steps-Matches (Opened-Matches r o) p in (a.0, a.1, a.2.same)
