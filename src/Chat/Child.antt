-- ===== src/Chat/Child.antt =====
-- Multiprocessing/multiprocessingChatServer.cpp: run_child, the process that serves one client.
pub mod Relay
pub mod Tests
use linux_websocket.Prelude.{
  ℕ, zero, suc, ◌+◌, ◌-◌, ◌*◌, ◌≤◌, ◌<◌, Bool, true, false, not, ◌&&◌, Option, none, some, List, [],
  ◌∷◌, ◌++◌, ◌==◌, ltb, leb, if◌then◌else◌,
}
use linux_websocket.Chat.{Fd, buffer_size}

-- The shared memory, byte by byte from its start.
abbrev pub Memory : Type 0
Memory = ℕ → ℕ

pub data Sent : Type 0 where
  index : (fd : Fd) (idx : ℕ) → Sent
  bytes : (fd : Fd) → List ℕ → Sent
  closed_fd : Fd → Sent

pub record Child : Type 0 where
  pub idx : ℕ
  pub epollfd : Fd
  pub connfd : Fd
  pub pipefd : Fd
  pub stop_child : Bool
  pub share_mem : Memory
  pub log : List Sent

-- What recv returns: -1 with errno, 0, or data.
pub data Received {ℓ} (A : Type ℓ) : Type ℓ where
  error : (is_eagain : Bool) → Received A
  eof : Received A
  got : A → Received A

-- memset(start, '\0', n)
pub clear : Memory → (start n : ℕ) → Memory
clear m start n a = if leb start a && ltb a (start + n) then 0 else m a

-- The bytes that recv puts at `start`.
unfoldable pub fill : Memory → (start : ℕ) → List ℕ → Memory
fill m start [] = m
fill m start (b ∷ bs) = let rest = fill m (suc start) bs in λ a. if a == start then b else rest a

-- The bytes that send takes from `start`.
pub bytes_at : Memory → (start n : ℕ) → List ℕ
bytes_at m start zero = []
bytes_at m start (suc n) = m start ∷ bytes_at m (suc start) n

unfoldable pub client_readable : Child → Received (List ℕ) → Child
client_readable c r =
    let start = c.idx * buffer_size in
    let cleared = clear c.share_mem start buffer_size in
    elim r [
      | error is_eagain ↦ record c {
        share_mem = cleared;
        stop_child = if is_eagain then c.stop_child else true;
      }
      | eof ↦ record c { share_mem = cleared; stop_child = true }
      | got bs ↦ record c {
        share_mem = fill cleared start bs;
        log = c.log ++ Sent.index c.pipefd c.idx ∷ [];
      }
    ]

unfoldable pub pipe_readable : Child → Received ℕ → Child
pipe_readable c (error is_eagain) = record c {
  stop_child = if is_eagain then c.stop_child else true;
}
pipe_readable c eof = record c { stop_child = true }
pipe_readable c (got client_idx) = record c {
  log =
      c.log
      ++ Sent.bytes c.connfd (bytes_at c.share_mem (client_idx * buffer_size) buffer_size) ∷ [];
}

-- An entry of `events`: `readable` is `events & EPOLLIN`.
pub record ChildEvent : Type 0 where
  pub sockfd : Fd
  pub readable : Bool
  pub from_client : Received (List ℕ)
  pub from_parent : Received ℕ

pub on_child_event : Child → ChildEvent → Child
unfolding client_readable pipe_readable
on_child_event c ev =
    if (ev.sockfd == c.connfd) && ev.readable
    then client_readable c ev.from_client
    else if (ev.sockfd == c.pipefd) && ev.readable
    then pipe_readable c ev.from_parent
    else c

pub on_child_events : Child → List ChildEvent → Child
on_child_events c [] = c
on_child_events c (ev ∷ evs) = on_child_events (on_child_event c ev) evs

-- child_term_handler
pub terminated : Child → Child
terminated c = record c { stop_child = true }

-- A round of the loop: epoll_wait fails, SIGTERM interrupts it, or it returns events.
pub data Wait : Type 0 where
  fails : Wait
  interrupted : Wait
  returns_events : List ChildEvent → Wait

pub child_loop : Child → List Wait → Child
unfolding terminated
child_loop c [] = c
child_loop c (fails ∷ ws) = c
child_loop c (interrupted ∷ ws) =
    let rest = child_loop (terminated c) ws in if c.stop_child then c else rest
child_loop c (returns_events evs ∷ ws) =
    let rest = child_loop (on_child_events c evs) ws in if c.stop_child then c else rest

pub run_child : Child → List Wait → Child
unfolding child_loop
run_child c ws =
    let d = child_loop c ws in
    record d { log = d.log ++ closed_fd d.epollfd ∷ closed_fd d.connfd ∷ closed_fd d.pipefd ∷ [] }
