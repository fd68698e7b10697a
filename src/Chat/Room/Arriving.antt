-- ===== src/Chat/Room/Arriving.antt =====
-- Multiprocessing/multiprocessingChatServer.cpp: a client that joins leaves the pipes of the others.
use mathlib.Core.Path.{subst}
use linux_websocket.Prelude.{
  ℕ, Bool, true, false, ◌≤◌, ◌≢◌, ◌⊎◌, ◌<◌, ◌≡◌, ◌∙◌, inl, inr, refl, sym, ap, some, [], ◌∷◌, ◌==◌,
  if◌then◌else◌, arith, Bool-cases,
}
use linux_websocket.Chat.{
  Server, Fd, Arrival, Outcome, running, aborted, out_of_range, child, on_connection,
}
use linux_websocket.Chat.Room.Joining.{Kept, Grown, on_connection-users}
use linux_websocket.Chat.Room.{Room, seat, seated}
use linux_websocket.Chat.Room.Hall.{came}
use linux_websocket.Chat.Room.Posting.{count, Apart}
use linux_websocket.Chat.Room.Pipes.{update-off}
use linux_websocket.Chat.Room.Matches.{some-inj}
use linux_websocket.Chat.Room.Notices.{under_way, said_in, heard_in}

-- The parent's end of the new pair is none that it has open for a user.
abbrev pub Unused : Server → Arrival → Type 0
Unused s a =
    (j : ℕ) (p q : Fd) → a.pair ≡ some (p, q) → j < s.user_count → (s.users j).pipe_parent ≢ p

-- The pipes of the users stay different, and what is under way between two of them stays.
pub record Leaves (r t : Room) (j k : ℕ) : Type 0 where
  pub more : r.server.user_count ≤ t.server.user_count
  pub apart : Apart t.server.users t.server.user_count
  pub notices : under_way t j k ≡ under_way r j k

module _ (r : Room) (a : Arrival) (epollfd : Fd) (unused : Unused r.server a)
    (apart : Apart r.server.users r.server.user_count) (j k : ℕ) (user : j < r.server.user_count)
    (other : k < r.server.user_count) where
  Grown-Apart :
      (s : Server) → Grown (record r.server { log = [] }) s a.pair → Apart s.users s.user_count
  Grown-Apart s q i k il kl e =
      let n = r.server.user_count in
      elim (Bool-cases (i == n)) [
        | inl i_last ↦ elim (Bool-cases (k == n)) [
          | inl k_last ↦ ground arith
          | inr k_before ↦
              let at_n : i ≡ n = ground arith in
              absurd (
                unused k _ q.other_end q.newest (ground (arith, q.count)) (
                  sym (ap (λ u. u.pipe_parent) (q.users k (ground (arith, q.count))))
                  ∙ sym e
                  ∙ ap (λ i. (s.users i).pipe_parent) at_n))
        ]
        | inr i_before ↦ elim (Bool-cases (k == n)) [
          | inl k_last ↦
              let at_n : k ≡ n = ground arith in
              absurd (
                unused i _ q.other_end q.newest (ground (arith, q.count)) (
                  sym (ap (λ u. u.pipe_parent) (q.users i (ground (arith, q.count))))
                  ∙ e
                  ∙ ap (λ i. (s.users i).pipe_parent) at_n))
          | inr k_before ↦
              let il' : i < n = ground (arith, q.count) in
              let kl' : k < n = ground (arith, q.count) in
              apart i k il' kl' (
                sym (ap (λ u. u.pipe_parent) (q.users i il'))
                ∙ e
                ∙ ap (λ u. u.pipe_parent) (q.users k kl'))
        ]
      ]

  Kept-Leaves :
      (s : Server) → Kept (record r.server { log = [] }) s → Leaves r (record r { server = s }) j k
  Kept-Leaves s q = record {
    more = omega (arith, q.count);
    apart = λ i k il kl e. apart i k (omega (arith, q.count)) (omega (arith, q.count)) (
        sym (ap (λ u. u.pipe_parent) (q.users i (omega (arith, q.count))))
        ∙ e
        ∙ ap (λ u. u.pipe_parent) (q.users k (omega (arith, q.count))));
    notices = refl;
  }

  Grown-Leaves :
      (s : Server) (t : Room)
      → Grown (record r.server { log = [] }) s a.pair
      → some (seat r epollfd s) ≡ some t
      → Leaves r t j k
  Grown-Leaves s t q e =
      let n = r.server.user_count in
      let more : (s.user_count == n) ≡ false = ground (arith, q.count) in
      let down = ap (count k) (update-off r.to_child n j [] (omega arith)) in
      let up = ap (count k) (update-off r.to_parent n k [] (omega arith)) in
      subst (λ t. Leaves r t j k) (some-inj (rw more at e))
        (record {
          more = omega (arith, q.count);
          apart = Grown-Apart s q;
          notices = omega (arith, down, up);
        })

  seat-Leaves :
      (s : Server) (t : Room)
      → Kept (record r.server { log = [] }) s ⊎ Grown (record r.server { log = [] }) s a.pair
      → some (seat r epollfd s) ≡ some t
      → Leaves r t j k
  seat-Leaves s t (inl q) e =
      let as_before : (s.user_count == r.server.user_count) ≡ true = ground (arith, q.count) in
      subst (λ t. Leaves r t j k) (some-inj (rw as_before at e)) (Kept-Leaves s q)
  seat-Leaves s t (inr q) e = Grown-Leaves s t q e

  pub seated-Leaves :
      (t : Room) (o : Outcome)
      → on_connection (record r.server { log = [] }) a ≡ o
      → seated r epollfd o ≡ some t
      → Leaves r t j k
  seated-Leaves t (running s) f e =
      seat-Leaves s t (on_connection-users (record r.server { log = [] }) s a f) e
  seated-Leaves t aborted f e = absurd (ground arith)
  seated-Leaves t out_of_range f e = absurd (ground arith)
  seated-Leaves t (child i s) f e = absurd (ground arith)

-- Nobody speaks or is sent anything where a client comes.
pub came_said : (k l : ℕ) (b : Bool) → said_in k (if b then [] else came l ∷ []) ≡ 0
came_said k l true = refl
came_said k l false = refl

pub came_heard : (j k l : ℕ) (b : Bool) → heard_in j k (if b then [] else came l ∷ []) ≡ 0
came_heard j k l true = refl
came_heard j k l false = refl
