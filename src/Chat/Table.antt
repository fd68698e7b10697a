-- ===== src/Chat/Table.antt =====
-- Multiprocessing/multiprocessingChatServer.cpp: the tables `users` and `sub_process` when a
-- client leaves.
use mathlib.Core.List.{Perm}
use mathlib.Core.List.Perm
use linux_websocket.Prelude.{
  ℕ, zero, suc, ◌-◌, ◌≤◌, ◌<◌, ◌≡◌, refl, ◌≢◌, inl, inr, true, none, some, List, [], ◌∷◌, arith,
  ◌==◌, Bool-cases,
}
use linux_websocket.Chat.{
  Server, ClientData, Pid, running, update, user_limit, drop_user, reap_slot, reap,
}

-- Each user's child process is mapped to the user's slot, and the slots fit the tables.
pub record IsConsistent (s : Server) : Type 0 where
  pub bounded : s.user_count ≤ user_limit
  pub mapped : (i : ℕ) → i < s.user_count → s.sub_process (s.users i).pid ≡ some i

-- `pid` is the child process of the user in slot `k`.
pub record Serves (s : Server) (pid : Pid) (k : ℕ) : Type 0 where
  pub slot : k < s.user_count
  pub process : (s.users k).pid ≡ pid

-- The users, the last one first.
abbrev pub table : (ℕ → ClientData) → ℕ → List ClientData
table f zero = []
table f (suc n) = f n ∷ table f n

==_self : (n : ℕ) → (n == n) ≡ true
==_self n = ground arith

sub-one_suc : (n : ℕ) → suc n - 1 ≡ n
sub-one_suc n = omega arith

table-update :
    (f : ℕ → ClientData) (k n : ℕ) (v : ClientData) → n ≤ k → table (update f k v) n ≡ table f n
table-update f k zero v h = refl
table-update f k (suc n) v h = ground (arith, table-update f k n v)

-- To write `v` into a slot of a table takes out what stood there.
table-Perm :
    (f : ℕ → ClientData) (k n : ℕ) (v : ClientData)
    → k < n
    → Perm (v ∷ table f n) (f k ∷ table (update f k v) n)
table-Perm f k zero v h = elim h [ ]
table-Perm f k (suc n) v h = elim (Bool-cases (k == n)) [
  | inl same ↦
      let e : k ≡ n = ground arith in
      rw (table-update f k n v (omega arith), e, ==_self n) (Perm.swap (f n) v (table f n))
  | inr other ↦ rw other (
      Perm.trans (Perm.swap (f n) v (table f n)) (
        Perm.trans (Perm.cons (f n) (table-Perm f k n v (ground arith))) (Perm.swap (f k) (f n) _)))
]

-- The last entry of a table moves into the slot `k`.
table_move-Perm :
    (f : ℕ → ClientData) (k n : ℕ)
    → k < n
    → Perm (table f n) (f k ∷ table (update f k (f (n - 1))) (n - 1))
table_move-Perm f k zero h = elim h [ ]
table_move-Perm f k (suc n) h = elim (Bool-cases (k == n)) [
  | inl same ↦
      let e : k ≡ n = ground arith in
      rw (sub-one_suc n, e, table-update f n n (f n) (omega arith)) (Perm.refl _)
  | inr other ↦ rw (sub-one_suc n) (table-Perm f k n (f n) (ground arith))
]

abbrev pub reaped : Server → Pid → ℕ → Server
reaped s pid k = drop_user (record s { sub_process = update s.sub_process pid none }) k

module _ {s : Server} {pid : Pid} {k : ℕ} (c : IsConsistent s) (live : Serves s pid k) where
  -- The slot that the code looks up is the user's, and no index is out of range.
  pub reap-reaped : reap s pid ≡ running (reaped s pid k)
  unfolding reap reap_slot
  reap-reaped = ground (arith, c.bounded, c.mapped k live.slot, live.slot, live.process)

  pub reaped-IsConsistent : IsConsistent (reaped s pid k)
  unfolding drop_user
  reaped-IsConsistent = record {
    bounded = ground arith;
    mapped = λ i h.
        ground
          (arith, c.mapped i, c.mapped k, c.mapped (s.user_count - 1), live.slot, live.process);
  }

  -- Another live child is still one, in its old slot or in the freed one.
  pub reaped-Serves :
      {q : Pid} {j : ℕ} → Serves s q j → q ≢ pid → (i : ℕ) × Serves (reaped s pid k) q i
  unfolding drop_user
  reaped-Serves {q} {j} o ne = elim (Bool-cases (j == s.user_count - 1)) [
    | inl last ↦ (
      k,
      record {
        slot = ground (arith, live.slot, live.process, o.slot, o.process, c.mapped k, c.mapped j);
        process = ground (arith, o.process);
      },
    )
    | inr inner ↦ (
      j,
      record {
        slot = ground (arith, o.slot);
        process = ground (arith, live.slot, live.process, o.slot, o.process);
      },
    )
  ]

  -- As a collection, the users lose just the one whose child has ended.
  pub reaped-Perm :
      Perm
        (table s.users s.user_count)
        (s.users k ∷ table (reaped s pid k).users (reaped s pid k).user_count)
  unfolding drop_user
  reaped-Perm = table_move-Perm s.users k s.user_count live.slot
