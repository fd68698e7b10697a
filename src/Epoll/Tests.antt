-- ===== src/Epoll/Tests.antt =====
-- ThreadPool/processPool.h: a pipe for signals among the descriptors of a process.
use linux_websocket.Prelude.{ℕ, ◌≡◌, refl, none, some, [], ◌==◌, if◌then◌else◌, arith}
use linux_websocket.Chat.{update}
use linux_websocket.Epoll.{Fd, Kernel, in_et, addfd, removefd}
use linux_websocket.Epoll.Watching.{Nonblocking, added_and_removed}

-- The descriptors 3, the epoll instance, and 4, a socket for reading and writing.
abbrev process : Kernel
process = record {
  flags = λ fd. if fd == 3 then some 2 else if fd == 4 then some 2 else none;
  epollfd = 3;
  watched = λ fd. none;
  handlers = λ sig. none;
  pipe = [];
  errno = 0;
}

added_and_removed_example :
    ((addfd process 3 4).watched ≡ update process.watched 4 (some in_et))
    × ((new : ℕ) × ((addfd process 3 4).flags ≡ update process.flags 4 (some new))
        × Nonblocking 2 new)
    × ((j : Fd) → (removefd (addfd process 3 4) 3 4).watched j ≡ process.watched j)
    × ((j : Fd)
        → (removefd (addfd process 3 4) 3 4).flags j ≡ (if 4 == j then none else process.flags j))
added_and_removed_example = added_and_removed process 4 2 refl refl (omega arith)
