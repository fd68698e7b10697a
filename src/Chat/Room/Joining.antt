-- ===== src/Chat/Room/Joining.antt =====
-- Multiprocessing/multiprocessingChatServer.cpp: what a connection and the end of a child leave of
-- the users.
use mathlib.Core.Path.{subst}
use linux_websocket.Prelude.{
  ℕ, suc, ◌≤◌, ◌<◌, ◌≡◌, ◌⊎◌, inl, inr, refl, Option, some, none, leb, ltb, ◌==◌, arith, Bool-cases,
}
use linux_websocket.Chat.{
  Server, Fd, Pid, running, update, reap, reap_slot, drop_user, user_limit, Forked, failed,
  in_child, in_parent, Arrival, after_fork, admit_client, accept_client, on_connection, register,
}

-- The users are those that there were.
pub record Kept (s t : Server) : Type 0 where
  pub count : t.user_count ≡ s.user_count
  pub users : (i : ℕ) → i < s.user_count → t.users i ≡ s.users i

-- There is a user more, whose pipe is the pair of `a`.
pub record Grown (s t : Server) (pair : Option (Fd × Fd)) : Type 0 where
  pub count : t.user_count ≡ suc s.user_count
  pub users : (i : ℕ) → i < s.user_count → t.users i ≡ s.users i
  pub other_end : Fd
  pub newest : pair ≡ some ((t.users s.user_count).pipe_parent, other_end)

Kept-refl : (s : Server) → Kept s s
Kept-refl s = record { count = refl; users = λ i h. refl }

running-inj : {s t : Server} → running s ≡ running t → s ≡ t
running-inj e = ground arith

admit_client-users :
    (s t : Server) (connfd address : ℕ) (pair : Option (Fd × Fd)) (f : Forked)
    → admit_client s connfd address pair f ≡ running t
    → Kept s t ⊎ Grown s t pair
unfolding admit_client after_fork register
admit_client-users s t connfd address none f e = absurd (ground arith)
admit_client-users s t connfd address (some (p, q)) failed e =
    inl (subst (Kept s) (running-inj e) (record { count = refl; users = λ i h. ground arith }))
admit_client-users s t connfd address (some (p, q)) in_child e = absurd (ground arith)
admit_client-users s t connfd address (some (p, q)) (in_parent pid) e = inr (
    subst (λ t. Grown s t (some (p, q))) (running-inj e)
      (record {
        count = omega arith;
        users = λ i h. ground arith;
        other_end = q;
        newest = ground arith;
      }))

accept_client-users :
    (s t : Server) (accepted : Option (Fd × ℕ)) (pair : Option (Fd × Fd)) (f : Forked)
    → accept_client s accepted pair f ≡ running t
    → Kept s t ⊎ Grown s t pair
unfolding accept_client
accept_client-users s t none pair f e = inl (subst (Kept s) (running-inj e) (Kept-refl s))
accept_client-users s t (some (connfd, address)) pair f e =
    elim (Bool-cases (leb user_limit s.user_count)) [
      | inl full ↦ inl (
          subst (Kept s) (running-inj (rw full at e))
            (record { count = refl; users = λ i h. refl }))
      | inr free ↦ admit_client-users s t connfd address pair f (rw free at e)
    ]

-- A connection leaves the users as they are, or adds one in the next slot.
pub on_connection-users :
    (s t : Server) (a : Arrival) → on_connection s a ≡ running t → Kept s t ⊎ Grown s t a.pair
unfolding on_connection
on_connection-users s t a e = accept_client-users s t a.accepted a.pair a.forked e

reap_slot-count :
    (s t : Server) (slot : Option ℕ) → reap_slot s slot ≡ running t → t.user_count ≤ s.user_count
unfolding reap_slot drop_user
reap_slot-count s t none e = subst (λ u. u.user_count ≤ s.user_count) (running-inj e) (omega arith)
reap_slot-count s t (some dead) e = elim (Bool-cases (ltb user_limit dead)) [
  | inl beyond ↦
      subst (λ u. u.user_count ≤ s.user_count) (running-inj (rw beyond at e)) (omega arith)
  | inr within ↦ elim (Bool-cases (s.user_count == 0)) [
    | inl empty ↦ absurd (ground (arith, rw (within, empty) at e))
    | inr users ↦
        subst (λ u. u.user_count ≤ s.user_count) (running-inj (rw (within, users) at e))
          (omega arith)
  ]
]

-- The end of a child makes the users no more.
pub reap-count : (s t : Server) (pid : Pid) → reap s pid ≡ running t → t.user_count ≤ s.user_count
unfolding reap
reap-count s t pid e =
    reap_slot-count (record s { sub_process = update s.sub_process pid none }) t (s.sub_process pid)
      e
