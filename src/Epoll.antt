-- ===== src/Epoll.antt =====
-- ThreadPool/processPool.h: the functions on descriptors and signals that its processes call, and
-- that Multiprocessing/multiprocessingChatServer.cpp and Timer/closeNonactiveConn.cpp have too.
pub mod Tests
pub mod Watching
use linux_websocket.Prelude.{
  ℕ, ◌+◌, ◌/◌, ◌%◌, Bool, true, false, ◌||◌, not, Option, none, some, List, [], ◌∷◌, ◌++◌, ◌==◌,
  if◌then◌else◌, is_none,
}
use linux_websocket.Chat.{update}

abbrev pub Fd : Type 0
Fd = ℕ

-- struct sigaction: the handler, whether sa_flags has SA_RESTART, and sa_mask, which is full or
-- empty.
pub record Sigaction : Type 0 where
  pub handler : ℕ
  pub restart : Bool
  pub mask_full : Bool

-- What the kernel keeps for a process: the status flags of each descriptor that is open, the events
-- that its epoll instance watches for, the handlers, and the bytes in the pipe for signals.
pub record Kernel : Type 0 where
  pub flags : Fd → Option ℕ
  pub epollfd : Fd
  pub watched : Fd → Option ℕ
  pub handlers : ℕ → Option Sigaction
  pub pipe : List ℕ
  pub errno : ℕ

abbrev pub o_nonblock : ℕ
o_nonblock = 2048

-- EPOLLIN | EPOLLET
abbrev pub in_et : ℕ
in_et = 1 + 2147483648

-- old_option | O_NONBLOCK
abbrev pub or_nonblock : ℕ → ℕ
or_nonblock old_option =
    if (old_option / o_nonblock) % 2 == 0 then old_option + o_nonblock else old_option

-- fcntl with F_GETFL returns -1 for a descriptor that is not open, here none; then F_SETFL fails
-- too.
abbrev pub set_flags : Kernel → Fd → (old_option : Option ℕ) → Kernel
set_flags k fd none = k
set_flags k fd (some old_option) = record k {
  flags = update k.flags fd (some (or_nonblock old_option));
}

-- The state, and old_option.
pub setnonblocking : Kernel → Fd → Kernel × Option ℕ
setnonblocking k fd = (set_flags k fd (k.flags fd), k.flags fd)

-- epoll_ctl with EPOLL_CTL_ADD fails for a descriptor that is not open, is watched or is the
-- instance.
abbrev pub refuses : Kernel → (epollfd fd : Fd) → Bool
refuses k epollfd fd =
    not (epollfd == k.epollfd)
    || ((fd == epollfd) || (is_none (k.flags fd) || not (is_none (k.watched fd))))

pub epoll_add : Kernel → (epollfd fd : Fd) → (events : ℕ) → Kernel
epoll_add k epollfd fd events =
    if refuses k epollfd fd then k else record k { watched = update k.watched fd (some events) }

pub addfd : Kernel → (epollfd fd : Fd) → Kernel
unfolding setnonblocking epoll_add
addfd k epollfd fd = (setnonblocking (epoll_add k epollfd fd in_et) fd).0

-- EPOLL_CTL_DEL and close.
pub removefd : Kernel → (epollfd fd : Fd) → Kernel
removefd k epollfd fd =
    let u : Kernel =
      if epollfd == k.epollfd then record k { watched = update k.watched fd none } else k in
    record u { flags = update u.flags fd none }

-- `has_room` is whether send into the pipe works, and `send_errno` the errno where it does not.
pub sig_handler : Kernel → (sig : ℕ) → (has_room : Bool) → (send_errno : ℕ) → Kernel
sig_handler k sig has_room send_errno =
    let save_errno = k.errno in
    let sent : Kernel =
      if has_room
      then record k { pipe = k.pipe ++ sig % 256 ∷ [] }
      else record k { errno = send_errno } in
    record sent { errno = save_errno }

-- `ok` is whether sigaction works.
pub addsig : Kernel → (sig handler : ℕ) → (restart : Bool) → (ok : Bool) → Option Kernel
addsig k sig handler restart ok =
    if ok
    then some (record k {
      handlers =
          update k.handlers sig
            (some (record { handler = handler; restart = restart; mask_full = true }));
    })
    else none
