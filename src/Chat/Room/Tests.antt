-- ===== src/Chat/Room/Tests.antt =====
-- Multiprocessing/multiprocessingChatServer.cpp: of two clients the first says something, and a third
-- comes and leaves.
use linux_websocket.Prelude.{ℕ, true, take, ◌+◌, ◌≡◌, refl, false, none, some, [], ◌∷◌, arith}
use linux_websocket.Chat.{
  Server, ClientData, Arrival, in_parent, on_message, on_connection, accept_client, admit_client,
  after_fork, register, reap, reap_slot, drop_user,
}
use linux_websocket.Chat.Child.{client_readable, pipe_readable, bytes_at}
use linux_websocket.Chat.Room.{
  Room, Steps, speaks, relays, hears, joins, leaves, start, then_step, events, speak, hear,
}
use linux_websocket.Chat.Room.Notices.{said_in, heard_in}
use linux_websocket.Chat.Room.Accounting.{lost}
use linux_websocket.Chat.Room.Hall.{Hall, Moves, said, came, heard}
use linux_websocket.Chat.Room.Refines.{Opened, silent, steps-Moves}

abbrev user : ℕ → ClientData
user i = record {
  address = 0;
  connfd = 20 + i;
  pid = 100 + i;
  pipe_parent = 30 + i;
  pipe_child = 40 + i;
}

abbrev two : Server
two = record {
  epollfd = 3;
  listenfd = 4;
  sig_read = 5;
  sig_write = 6;
  users = user;
  user_count = 2;
  sub_process = λ p. none;
  stop_server = false;
  terminate = false;
  log = [];
}

abbrev opened : Room
opened = record {
  server = two;
  children = λ i. record {
    idx = i;
    epollfd = 7;
    connfd = 20 + i;
    pipefd = 40 + i;
    stop_child = false;
    share_mem = λ a. 0;
    log = [];
  };
  memory = λ a. 0;
  to_parent = λ k. [];
  to_child = λ j. [];
  screen = λ j. [];
}

opened-Opened : Opened opened
opened-Opened = record { ids = λ k l. refl; up = λ k. refl; down = λ j. refl }

-- A third client comes.
abbrev third : Arrival
third = record { accepted = some (22, 0); pair = some (32, 42); forked = in_parent 102 }

abbrev after_saying : Room
after_saying = speak opened 0 (b'h' ∷ b'i' ∷ []) true

-- The room in which the second client has got the message, and the third has come meanwhile.
delivered :
    (t : Room) × Steps opened t
    × (t.screen 1 ≡ take 1024 (bytes_at after_saying.memory 0 1024) ∷ [])
unfolding speak hear client_readable pipe_readable on_message on_connection accept_client
    admit_client after_fork register
delivered = (
  _,
  then_step
      (then_step
        (then_step (then_step start (speaks 0 (b'h' ∷ b'i' ∷ []) true (omega arith) (omega arith)))
          (joins third 8 refl))
        (relays 0 0 [] (λ j. true) (omega arith) refl refl))
      (hears 1 0 [] 1024 (omega arith) refl),
  refl,
)

-- Then the third client leaves.
left : (t : Room) × Steps opened t
unfolding speak hear client_readable pipe_readable on_message on_connection accept_client
    admit_client after_fork register delivered reap reap_slot drop_user
left = (_, then_step delivered.1 (leaves 102 refl refl))

steps-Moves_example :
    (g : Hall) × Moves (silent opened) (said 0 (b'h' ∷ b'i' ∷ []) ∷ came 2 ∷ heard 1 0 1024 ∷ []) g
    × ((j : ℕ) → left.0.screen j ≡ g.screen j)
unfolding left
steps-Moves_example = steps-Moves opened left.0 opened-Opened left.1

-- The first client says something once more, and the send to the parent fails.
once_more : (t : Room) × Steps opened t
unfolding speak hear client_readable pipe_readable on_message on_connection accept_client
    admit_client after_fork register delivered
once_more =
    (_, then_step delivered.1 (speaks 0 (b'h' ∷ b'i' ∷ []) false (omega arith) (omega arith)))

one_lost :
    (heard_in 1 0 (events once_more.1) ≡ 1)
    × (lost 1 0 once_more.1 ≡ 1)
    × (said_in 0 (events once_more.1) ≡ 2)
unfolding once_more delivered
one_lost = (refl, refl, refl)
