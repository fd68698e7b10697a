-- ===== src/Chat/Broadcast.antt =====
-- Multiprocessing/multiprocessingChatServer.cpp: the broadcast of a client's message.
use linux_websocket.Prelude.{
  ℕ, zero, suc, ◌+◌, ◌≡◌, refl, some, List, [], ◌∷◌, arith, ◌==◌, if◌then◌else◌,
}
use linux_websocket.Chat.{
  Server, ClientData, Fd, Effect, adds_fd, deletes_fd, closes, sends_refusal, sends_index, kills,
  running, emit, broadcast_from, on_message,
}

-- How often the index goes into the pipe `fd`.
abbrev pub index_sends : Fd → ℕ → List Effect → ℕ
index_sends fd k [] = 0
index_sends fd k (adds_fd e f ∷ es) = index_sends fd k es
index_sends fd k (deletes_fd e f ∷ es) = index_sends fd k es
index_sends fd k (closes f ∷ es) = index_sends fd k es
index_sends fd k (sends_refusal f ∷ es) = index_sends fd k es
index_sends fd k (sends_index f j ∷ es) =
    (if f == fd then (if j == k then 1 else 0) else 0) + index_sends fd k es
index_sends fd k (kills p ∷ es) = index_sends fd k es

-- How many users have their child behind the pipe `fd`; `n` are left from slot `i` on.
abbrev pub users_behind : (ℕ → ClientData) → Fd → ℕ → ℕ → ℕ
users_behind users fd i zero = 0
users_behind users fd i (suc n) =
    (if (users i).pipe_parent == fd then 1 else 0) + users_behind users fd (suc i) n

broadcast_from-sends :
    (users : ℕ → ClientData) (sockfd fd : Fd) (k i n : ℕ)
    → index_sends fd k (broadcast_from users sockfd k i n)
      ≡ (if fd == sockfd then 0 else users_behind users fd i n)
unfolding broadcast_from
broadcast_from-sends users sockfd fd k i zero = ground arith
broadcast_from-sends users sockfd fd k i (suc n) =
    ground (arith, broadcast_from-sends users sockfd fd k (suc i) n)

-- A message with the client index `k` from the child behind `sockfd` makes the parent send `k` once
-- for each user to the pipe of the user's child, except into `sockfd` itself, where it sends
-- nothing. Nothing else of the server changes.
pub on_message-broadcast :
    (s : Server) (sockfd : Fd) (k : ℕ)
    → (es : List Effect) × (on_message s sockfd (some k) ≡ running (emit s es))
      × ((fd : Fd)
          → index_sends fd k es
            ≡ (if fd == sockfd then 0 else users_behind s.users fd 0 s.user_count))
unfolding on_message
on_message-broadcast s sockfd k = (
  broadcast_from s.users sockfd k 0 s.user_count,
  refl,
  λ fd. broadcast_from-sends s.users sockfd fd k 0 s.user_count,
)
