-- ===== src/Chat/Room/Notices.antt =====
-- Multiprocessing/multiprocessingChatServer.cpp: where the indices of a client's messages are.

use mathlib.Core.Path.{subst}
use linux_websocket.Prelude.{
  ℕ, ◌+◌, ◌<◌, ◌≡◌, ◌≢◌, refl, Bool, Option, some, List, [], ◌∷◌, ◌==◌, if◌then◌else◌, arith,
}
use linux_websocket.Chat.{broadcast_from, on_message}
use linux_websocket.Chat.Child.{client_readable, pipe_readable}
use linux_websocket.Chat.Room.{Room, speak, hang_up, hear, relay, indices_to}
use linux_websocket.Chat.Room.Hall.{Event, said, heard}
use linux_websocket.Chat.Room.Posting.{count, count-grows, count-shrinks, Apart, posted_count}
use linux_websocket.Chat.Room.Matches.{some-inj}

-- How often the client at slot `k` has said something in the events.
abbrev pub said_in : (k : ℕ) → List Event → ℕ
said_in k [] = 0
said_in k (said l bs ∷ es) = (if l == k then 1 else 0) + said_in k es
said_in k (_ ∷ es) = said_in k es

-- How often the client at slot `j` is sent a message of slot `k` in the events.
abbrev pub heard_in : (j k : ℕ) → List Event → ℕ
heard_in j k [] = 0
heard_in j k (heard l i n ∷ es) =
    (if l == j then (if i == k then 1 else 0) else 0) + heard_in j k es
heard_in j k (_ ∷ es) = heard_in j k es

-- The index `k` on its way to the client at slot `j`.
abbrev pub under_way : Room → (j k : ℕ) → ℕ
under_way r j k = count k (r.to_child j) + count k (r.to_parent k)

module _ (r : Room) (j k : ℕ) where
  pub speak_notices :
      (l : ℕ) (bs : List ℕ) (ok : Bool)
      → (r.children l).idx ≡ l
      → under_way (speak r l bs ok) j k + (if l == k then (if ok then 0 else 1) else 0)
        ≡ (if l == k then 1 else 0) + under_way r j k
  unfolding speak client_readable
  speak_notices l bs ok at_l =
      let new = if ok then (r.children l).idx ∷ [] else [] in
      ground (arith, at_l, count-grows r.to_parent l new k k)

  pub hang_up_notices : (l : ℕ) (e : Option Bool) → under_way (hang_up r l e) j k ≡ under_way r j k
  unfolding hang_up
  hang_up_notices l e = ground (arith, count-grows r.to_parent l [] k k)

  pub hear_notices :
      (l i : ℕ) (rest : List ℕ) (n : ℕ)
      → r.to_child l ≡ i ∷ rest
      → (if l == j then (if i == k then 1 else 0) else 0) + under_way (hear r l i rest n) j k
        ≡ under_way r j k
  unfolding hear pipe_readable
  hear_notices l i rest n e =
      ground (arith, count-shrinks r.to_child l i rest j k e, count-grows r.to_parent l [] k k)

  pub relay_notices :
      (t : Room) (l i : ℕ) (rest : List ℕ) (rooms : ℕ → Bool)
      → Apart r.server.users r.server.user_count
      → j < r.server.user_count
      → l < r.server.user_count
      → k ≢ j
      → i ≡ l
      → r.to_parent l ≡ i ∷ rest
      → relay r l i rest rooms ≡ some t
      → under_way t j k + (if l == k then (if rooms j then 0 else 1) else 0) ≡ under_way r j k
  unfolding on_message
  relay_notices t l i rest rooms apart jn ln other at_l e f =
      let n = r.server.user_count in
      let post =
        indices_to (r.server.users j).pipe_parent
          (broadcast_from r.server.users (r.server.users l).pipe_parent i 0 n) in
      let new = if rooms j then post else [] in
      let left = count-shrinks r.to_parent l i rest k k e in
      let sent = posted_count r.server.users n apart j jn i l k ln at_l other in
      let grown = count-grows (λ x. r.to_child j) j new j k in
      subst
        (λ t.
          under_way t j k + (if l == k then (if rooms j then 0 else 1) else 0) ≡ under_way r j k)
        (some-inj f) (ground (arith, left, sent, grown))

pub relay_kept :
    (r t : Room) (l i : ℕ) (rest : List ℕ) (rooms : ℕ → Bool)
    → relay r l i rest rooms ≡ some t
    → (t.server.user_count ≡ r.server.user_count) × (t.server.users ≡ r.server.users)
unfolding on_message
relay_kept r t l i rest rooms e =
    subst (λ t. (t.server.user_count ≡ r.server.user_count) × (t.server.users ≡ r.server.users))
      (some-inj e) (refl, refl)
