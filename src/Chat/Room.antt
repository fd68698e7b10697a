-- ===== src/Chat/Room.antt =====
-- Multiprocessing/multiprocessingChatServer.cpp: the parent, the child processes and the shared
-- memory as one system, whose processes make their steps in any order. Clients come, and the one in
-- the last slot may leave. A socket pair between the parent and a child is two queues of client
-- indices. It does not block, and the results of send are not looked at: a send of an index puts it
-- into the queue or is lost, and a send to a client takes some of its bytes or none. Each step says
-- which. A read of a pipe that gets no index is no step.
pub mod Accounting
pub mod Arriving
pub mod Hall
pub mod Joining
pub mod Matches
pub mod Pipes
pub mod Posting
pub mod Notices
pub mod Refines
pub mod Tests
use linux_websocket.Prelude.{
  ℕ, Bool, true, false, ◌-◌, ◌<◌, ◌≡◌, Option, take, none, some, List, [], ◌∷◌, ◌++◌, ◌==◌,
  if◌then◌else◌, length,
}
use linux_websocket.Chat.{
  Server, ClientData, Arrival, Fd, Pid, reap, Effect, sends_index, Outcome, running, buffer_size,
  update, on_message, on_connection,
}
use linux_websocket.Chat.Child.{
  Memory, Child, Sent, index, bytes, Received, error, eof, got, client_readable, pipe_readable,
}
use linux_websocket.Chat.Room.Hall.{Event, said, cleared, heard, came}

-- By the slot of the user: its child, what the child and the parent have sent each other and not
-- read, and the messages that the client has got.
pub record Room : Type 0 where
  pub server : Server
  pub children : ℕ → Child
  pub memory : Memory
  pub to_parent : ℕ → List ℕ
  pub to_child : ℕ → List ℕ
  pub screen : ℕ → List (List ℕ)

-- The indices and the messages among the calls of a child.
abbrev pub indices_in : List Sent → List ℕ
indices_in [] = []
indices_in (index fd i ∷ es) = i ∷ indices_in es
indices_in (_ ∷ es) = indices_in es

abbrev pub messages_in : List Sent → List (List ℕ)
messages_in [] = []
messages_in (bytes fd bs ∷ es) = bs ∷ messages_in es
messages_in (_ ∷ es) = messages_in es

-- The indices that the parent has sent into the pipe `fd`.
abbrev pub indices_to : Fd → List Effect → List ℕ
indices_to fd [] = []
indices_to fd (sends_index f i ∷ es) =
    let rest = indices_to fd es in if f == fd then i ∷ rest else rest
indices_to fd (_ ∷ es) = indices_to fd es

-- The child at slot `k`, on the memory as it is.
abbrev pub child_at : Room → ℕ → Child
child_at r k = record (r.children k) { share_mem = r.memory; log = [] }

-- The first `n` bytes of each message.
abbrev pub first_bytes : (n : ℕ) → List (List ℕ) → List (List ℕ)
first_bytes n [] = []
first_bytes n (bs ∷ rest) = take n bs ∷ first_bytes n rest

-- What a step of the child at slot `k` makes of the room. `ok` is whether a send into its pipe
-- works, and `n` how many bytes a send to its client takes, 0 where it fails.
abbrev pub absorb : Room → (k : ℕ) → Child → (ok : Bool) → (n : ℕ) → Room
absorb r k c ok n = record r {
  children = update r.children k c;
  memory = c.share_mem;
  to_parent = update r.to_parent k (r.to_parent k ++ (if ok then indices_in c.log else []));
  screen = update r.screen k (r.screen k ++ first_bytes n (messages_in c.log));
}

-- The child at slot `k` gets the message `bs` from its client.
pub speak : Room → (k : ℕ) → (bs : List ℕ) → (ok : Bool) → Room
speak r k bs ok = absorb r k (client_readable (child_at r k) (got bs)) ok 0

-- Its recv returns 0 or, with `some`, -1.
abbrev pub nothing : Option Bool → Received (List ℕ)
nothing none = eof
nothing (some is_eagain) = error is_eagain

pub hang_up : Room → (k : ℕ) → Option Bool → Room
hang_up r k e = absorb r k (client_readable (child_at r k) (nothing e)) false 0

-- The child at slot `j` reads the index `i` from its pipe, which leaves `rest`.
pub hear : Room → (j i : ℕ) → (rest : List ℕ) → (n : ℕ) → Room
hear r j i rest n =
    absorb (record r { to_child = update r.to_child j rest }) j
      (pipe_readable (child_at r j) (got i)) true n

-- `rooms j` is whether a send into the pipe of slot `j` works.
abbrev pub posted : Room → (rooms : ℕ → Bool) → Outcome → Option Room
posted r rooms (running s) = some (record r {
  server = s;
  to_child =
      λ j. r.to_child j ++ (if rooms j then indices_to (s.users j).pipe_parent s.log else []);
})
posted r rooms _ = none

-- The parent reads the index `i` from the pipe of the child at slot `k`, which leaves `rest`.
abbrev pub relay : Room → (k i : ℕ) → (rest : List ℕ) → (rooms : ℕ → Bool) → Option Room
relay r k i rest rooms =
    posted (record r { to_parent = update r.to_parent k rest }) rooms
      (on_message (record r.server { log = [] }) (r.server.users k).pipe_parent (some i))

-- The start of `run_child(idx, users, shm_mem)`, in which epoll_create returns `epollfd`.
abbrev pub new_child : (idx : ℕ) → (users : ℕ → ClientData) → Memory → (epollfd : Fd) → Child
new_child idx users memory epollfd = record {
  idx = idx;
  epollfd = epollfd;
  connfd = (users idx).connfd;
  pipefd = (users idx).pipe_child;
  stop_child = false;
  share_mem = memory;
  log = [];
}

-- The room in which the parent is `s`: with a child more where there is a user more.
abbrev pub seat : Room → (epollfd : Fd) → Server → Room
seat r epollfd s =
    let n = r.server.user_count in
    if s.user_count == n then record r { server = s } else record r {
      server = s;
      children = update r.children n (new_child n s.users r.memory epollfd);
      to_parent = update r.to_parent n [];
      to_child = update r.to_child n [];
      screen = update r.screen n [];
    }

abbrev pub seated : Room → (epollfd : Fd) → Outcome → Option Room
seated r epollfd (running s) = some (seat r epollfd s)
seated r epollfd _ = none

-- A client connects to the listening socket; a child that is forked gets `epollfd`.
abbrev pub join : Room → Arrival → (epollfd : Fd) → Option Room
join r a epollfd = seated r epollfd (on_connection (record r.server { log = [] }) a)

abbrev pub left_by : Room → Outcome → Option Room
left_by r (running s) = some (record r { server = s })
left_by r _ = none

-- The parent gets the pid of a child that has ended.
abbrev pub leave : Room → Pid → Option Room
leave r pid = left_by r (reap (record r.server { log = [] }) pid)

-- recv is given room for BUFFER_SIZE - 1 bytes. No slot changes its user where the one in the last
-- leaves.
pub data Step (r : Room) : Room → Type 0 where
  speaks :
      (k : ℕ) (bs : List ℕ) (ok : Bool)
      → k < r.server.user_count
      → length bs < buffer_size
      → Step r (speak r k bs ok)
  hangs_up : (k : ℕ) (e : Option Bool) → k < r.server.user_count → Step r (hang_up r k e)
  relays :
      {t : Room} (k i : ℕ) (rest : List ℕ) (rooms : ℕ → Bool)
      → k < r.server.user_count
      → r.to_parent k ≡ i ∷ rest
      → relay r k i rest rooms ≡ some t
      → Step r t
  hears :
      (j i : ℕ) (rest : List ℕ) (n : ℕ)
      → j < r.server.user_count
      → r.to_child j ≡ i ∷ rest
      → Step r (hear r j i rest n)
  joins : {t : Room} (a : Arrival) (epollfd : Fd) → join r a epollfd ≡ some t → Step r t
  leaves :
      {t : Room} (pid : Pid)
      → r.server.sub_process pid ≡ some (r.server.user_count - 1)
      → leave r pid ≡ some t
      → Step r t

pub data Steps (r : Room) : Room → Type 0 where
  start : Steps r r
  then_step : {s t : Room} → Steps r s → Step s t → Steps r t

-- What a step does that the clients bring about or see. A client has come where there is a user
-- more.
abbrev pub event_of : {r t : Room} → Step r t → List Event
event_of (speaks k bs ok below fits) = said k bs ∷ []
event_of (hangs_up k e below) = cleared k ∷ []
event_of (relays k i rest rooms below q e) = []
event_of (hears j i rest n below q) = heard j i n ∷ []
event_of {r} {t} (joins a epollfd e) =
    if t.server.user_count == r.server.user_count then [] else came r.server.user_count ∷ []
event_of (leaves pid last e) = []

abbrev pub events : {r t : Room} → Steps r t → List Event
events start = []
events (then_step p s) = events p ++ event_of s
