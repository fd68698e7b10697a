-- ===== src/Chat/Segments.antt =====
-- Multiprocessing/multiprocessingChatServer.cpp: the indices that children get at their forks,
-- which name their segments of the shared memory.
use mathlib.Core.Path.{subst}
use linux_websocket.Prelude.{ℕ, suc, ◌-◌, ◌<◌, ◌≡◌, ◌∙◌, refl, sym, ◌≢◌, false, some, arith, leb}
use linux_websocket.Chat.{
  Server, ClientData, start_child, Pid, running, child, user_limit, Forked, in_child, in_parent,
  Arrival, update, register, after_fork, admit_client, accept_client, on_connection, drop_user,
  reap,
}
use linux_websocket.Chat.Table.{IsConsistent, Serves, reaped, reap-reaped, reaped-Serves}
use linux_websocket.Chat.Safety.{Safe, on_connection-Safe}

-- A connection that is accepted, for which socketpair works and fork returns `f`.
abbrev pub arriving : (connfd address p q : ℕ) → Forked → Arrival
arriving connfd address p q f = record {
  accepted = some (connfd, address);
  pair = some (p, q);
  forked = f;
}

abbrev newcomer : Server → (connfd address p q : ℕ) → ClientData
newcomer s connfd address p q = record (s.users s.user_count) {
  address = address;
  connfd = connfd;
  pipe_parent = p;
  pipe_child = q;
}

module _ (s : Server) (connfd address p q : ℕ) (room : s.user_count < user_limit) where
  not_full : leb user_limit s.user_count ≡ false
  not_full = ground arith

  on_connection-child :
      (u : Server) × (on_connection s (arriving connfd address p q in_child) ≡ child s.user_count u)
  unfolding on_connection accept_client admit_client after_fork
  on_connection-child =
      let u = newcomer s connfd address p q in
      (start_child (record s { users = update s.users s.user_count u }) u, rw not_full)

  on_connection-parent :
      (pid : Pid)
      → (t : Server) × (on_connection s (arriving connfd address p q (in_parent pid)) ≡ running t)
        × (t.user_count ≡ suc s.user_count)
        × Serves t pid s.user_count
        × ((k : ℕ) (other : Pid) → Serves s other k → Serves t other k)
  unfolding on_connection accept_client admit_client after_fork register
  on_connection-parent pid =
      let u = newcomer s connfd address p q in
      (
        register s u pid,
        rw not_full,
        omega arith,
        record { slot = omega arith; process = ground arith },
        λ k other live. record {
          slot = omega (arith, live.slot);
          process = ground (arith, live.slot, live.process);
        },
      )

reaped_count : (t : Server) (gone : Pid) (k : ℕ) → (reaped t gone k).user_count ≡ t.user_count - 1
unfolding drop_user
reaped_count t gone k = refl

-- A client arrives at a server with consistent tables and `n` users, below the limit, and its
-- child, with a pid `first` that no user's child has, gets the index `n`. Then the child `gone` of
-- an older user ends, and another client arrives. Its child gets the index `n` too, and with it the
-- same segment of the shared memory, while the child `first` still serves a user.
pub segment_shared :
    (s : Server) (k : ℕ) (gone first : Pid) (fd₁ addr₁ p₁ q₁ fd₂ addr₂ p₂ q₂ : ℕ)
    → IsConsistent s
    → s.user_count < user_limit
    → Serves s gone k
    → ((i : ℕ) → i < s.user_count → (s.users i).pid ≢ first)
    → ((u : Server) × (on_connection s (arriving fd₁ addr₁ p₁ q₁ in_child) ≡ child s.user_count u))
      × ((t : Server) × (on_connection s (arriving fd₁ addr₁ p₁ q₁ (in_parent first)) ≡ running t)
          × ((r : Server) × (reap t gone ≡ running r)
              × ((i : ℕ) × Serves r first i)
              × ((v : Server) × (on_connection r (arriving fd₂ addr₂ p₂ q₂ in_child)
                    ≡ child s.user_count v))))
segment_shared s k gone first fd₁ addr₁ p₁ q₁ fd₂ addr₂ p₂ q₂ c room live fresh =
    let (t, run, count, joins, keeps) = on_connection-parent s fd₁ addr₁ p₁ q₁ room first in
    let ct : IsConsistent t =
      subst Safe run (on_connection-Safe c (arriving fd₁ addr₁ p₁ q₁ (in_parent first)) fresh) in
    let gone_t = keeps k gone live in
    let left : (reaped t gone k).user_count ≡ s.user_count =
      reaped_count t gone k ∙ omega (arith, count) in
    (
      on_connection-child s fd₁ addr₁ p₁ q₁ room,
      (
        t,
        run,
        (
          reaped t gone k,
          reap-reaped ct gone_t,
          reaped-Serves ct gone_t joins (λ e. fresh k live.slot (live.process ∙ sym e)),
          subst
              (λ n.
                (v : Server) × (on_connection (reaped t gone k) (arriving fd₂ addr₂ p₂ q₂ in_child)
                  ≡ child n v))
              left (on_connection-child (reaped t gone k) fd₂ addr₂ p₂ q₂ (omega (arith, left))),
        ),
      ),
    )
