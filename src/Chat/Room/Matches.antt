-- ===== src/Chat/Room/Matches.antt =====
-- Multiprocessing/multiprocessingChatServer.cpp: a room beside a hall, step by step.
pub mod Joins
use mathlib.Core.List.{append-nil}
use mathlib.Core.Path.{ap₂, subst}
use linux_websocket.Prelude.{
  ℕ, Bool, take, ◌+◌, ◌-◌, ◌*◌, ◌<◌, ◌≡◌, ◌≢◌, ◌∙◌, inl, inr, refl, sym, ap, true, false, Option,
  ◌⊎◌, none, some, List, [], ◌∷◌, ◌++◌, ◌==◌, if◌then◌else◌, length, arith, Bool-cases,
}
use linux_websocket.Chat.{
  Server, Fd, Arrival, Outcome, running, aborted, out_of_range, child, buffer_size, update,
  on_message, broadcast_from, on_connection,
}
use linux_websocket.Chat.Room.Joining.{Kept, Grown, on_connection-users}
use linux_websocket.Chat.Child.{Child, fill, got, client_readable, pipe_readable, bytes_at}
use linux_websocket.Chat.Child.Relay.{zeros, segment_written}
use linux_websocket.Chat.Room.{Room, child_at, speak, hang_up, hear, relay, indices_to}
use linux_websocket.Chat.Room.Pipes.{
  AllIn, AllIn-append, AllIn-map, update-at, update-all, segment_kept, indices_to-broadcast,
  another_pipe,
}
use linux_websocket.Chat.Room.Hall.{Hall, heard, padded, Moves, shows, then_move, done}

abbrev pub Spoken : Hall → ℕ → Type 0
Spoken h i = (m : List ℕ) × (h.latest i ≡ some m)

-- The indices that a pipe from a child to the parent holds, and one from the parent to a child.
abbrev pub FromSelf : Hall → ℕ → ℕ → Type 0
FromSelf h k i = (i ≡ k) × Spoken h i

abbrev pub FromOthers : Hall → ℕ → ℕ → Type 0
FromOthers h j i = (i ≢ j) × Spoken h i

-- The child of each user has its slot as its index, each segment holds the latest message of its
-- client, and only indices of clients that have spoken are under way, none to the client itself.
pub record Matches (r : Room) (h : Hall) : Type 0 where
  pub ids : (k : ℕ) → k < r.server.user_count → (r.children k).idx ≡ k
  pub holds :
      (i : ℕ) (m : List ℕ)
      → h.latest i ≡ some m
      → bytes_at r.memory (i * buffer_size) buffer_size ≡ m
  pub up : (k : ℕ) → AllIn (FromSelf h k) (r.to_parent k)
  pub down : (j : ℕ) → AllIn (FromOthers h j) (r.to_child j)
  pub same : (j : ℕ) → r.screen j ≡ h.screen j

Spoken-say :
    (h : Hall) (k : ℕ) (m : List ℕ) (i : ℕ)
    → Spoken h i
    → Spoken (record h { latest = update h.latest k (some m) }) i
Spoken-say h k m i s = elim (Bool-cases (k == i)) [
  | inl here ↦ rw here (m, refl)
  | inr off ↦ rw off s
]

pub some-inj : {A : Type 0} {a b : A} → some a ≡ some b → a ≡ b
some-inj e = ground arith

-- The room in which the child `d` at slot `k` has its segment overwritten by `bs` and zeros, and
-- `new` goes into its pipe.
abbrev written : Room → (k : ℕ) → (bs new : List ℕ) → (d : Child) → Room
written r k bs new d =
    let c = client_readable (child_at r k) (got bs) in
    record r {
      children = update r.children k d;
      memory = c.share_mem;
      to_parent = update r.to_parent k (r.to_parent k ++ new);
      screen = update r.screen k (r.screen k ++ []);
    }

module _ {r : Room} {h : Hall} (m : Matches r h) where
  written-Matches :
      (k : ℕ) (bs new : List ℕ) (d : Child)
      → length bs < buffer_size
      → k < r.server.user_count
      → d.idx ≡ k
      → AllIn (λ i. i ≡ k) new
      → Matches (written r k bs new d) (record h { latest = update h.latest k (some (padded bs)) })
  unfolding client_readable
  written-Matches k bs new d fits below at_k own_index =
      let c = child_at r k in
      let n = buffer_size - length bs in
      let whole : length bs + n ≡ buffer_size = omega arith in
      let text = padded bs in
      let h' : Hall = record h { latest = update h.latest k (some text) } in
      let own : (i : ℕ) → Spoken h i → Spoken h' i = Spoken-say h k text in
      let mem = (client_readable c (got bs)).share_mem in
      record {
        ids =
            update-all (λ j c. j < r.server.user_count → c.idx ≡ j) r.children k d (λ l. at_k)
              (λ j o. m.ids j);
        holds =
            update-all
              (λ i o. (t : List ℕ) → o ≡ some t → bytes_at mem (i * buffer_size) buffer_size ≡ t)
              h.latest k (some text)
              (λ t e.
                ap (λ x. bytes_at mem (x * buffer_size) buffer_size) (sym (m.ids k below))
                ∙ segment_written c bs n whole
                ∙ some-inj e)
              (λ i o t e.
                segment_kept c bs i (λ q. o (sym (m.ids k below) ∙ q)) fits ∙ m.holds i t e);
        up =
            update-all (λ j is. AllIn (FromSelf h' j) is) r.to_parent k _
              (AllIn-append (FromSelf h' k) (r.to_parent k) new
                (AllIn-map _ _ (r.to_parent k) (λ i p. (p.0, own i p.1)) (m.up k))
                (AllIn-map (λ i. i ≡ k) _ new
                  (λ i e. (e, (text, ap h'.latest e ∙ update-at h.latest k (some text))))
                  own_index))
              (λ j o. AllIn-map _ _ (r.to_parent j) (λ i p. (p.0, own i p.1)) (m.up j));
        down = λ j. AllIn-map _ _ (r.to_child j) (λ i p. (p.0, own i p.1)) (m.down j);
        same =
            update-all (λ j x. x ≡ h.screen j) r.screen k _ (append-nil _ ∙ m.same k)
              (λ j o. m.same j);
      }

  pub speak-Matches :
      (k : ℕ) (bs : List ℕ) (ok : Bool)
      → length bs < buffer_size
      → k < r.server.user_count
      → Matches (speak r k bs ok) (record h { latest = update h.latest k (some (padded bs)) })
  unfolding client_readable speak
  speak-Matches k bs true fits below =
      written-Matches k bs (_ ∷ []) _ fits below (m.ids k below) (m.ids k below, tt)
  speak-Matches k bs false fits below = written-Matches k bs [] _ fits below (m.ids k below) tt

  pub hang_up-Matches :
      (k : ℕ) (e : Option Bool)
      → k < r.server.user_count
      → Matches (hang_up r k e) (record h { latest = update h.latest k (some (padded [])) })
  unfolding client_readable hang_up fill
  hang_up-Matches k none below = written-Matches k [] [] _ (omega arith) below (m.ids k below) tt
  hang_up-Matches k (some is_eagain) below =
      written-Matches k [] [] _ (omega arith) below (m.ids k below) tt

  -- The state after the child at slot `j` has read `i`.
  pub hear-Matches :
      (j i : ℕ) (rest : List ℕ) (n : ℕ)
      → r.to_child j ≡ i ∷ rest
      → (g : Hall) × Moves h (heard j i n ∷ []) g × Matches (hear r j i rest n) g
  unfolding pipe_readable hear
  hear-Matches j i rest n e =
      let q : AllIn (FromOthers h j) (i ∷ rest) = subst (AllIn (FromOthers h j)) e (m.down j) in
      let text = q.0.1.0 in
      let g : Hall = record h { screen = update h.screen j (h.screen j ++ take n text ∷ []) } in
      (
        g,
        then_move (shows i j n text q.0.0 q.0.1.1) done,
        record {
          ids =
              update-all (λ j c. j < r.server.user_count → c.idx ≡ j) r.children j _ (m.ids j)
                (λ k o. m.ids k);
          holds = m.holds;
          up =
              update-all (λ j is. AllIn (FromSelf h j) is) r.to_parent j _
                (subst (AllIn (FromSelf h j)) (sym (append-nil _)) (m.up j)) (λ k o. m.up k);
          down =
              update-all (λ j is. AllIn (FromOthers h j) is) r.to_child j rest q.1
                (λ k o. m.down k);
          same = λ k.
              ap₂ (λ a b. if j == k then a else b)
                (ap₂ (λ xs x. xs ++ take n x ∷ []) (m.same j) (m.holds i text q.0.1.1)) (m.same k);
        },
      )

  -- What the parent posts to slot `j`, sent or lost.
  posted-AllIn :
      (j k i : ℕ) (ok : Bool)
      → i ≡ k
      → Spoken h i
      → AllIn (FromOthers h j) (
          if ok
          then indices_to
              (r.server.users j).pipe_parent
              (broadcast_from r.server.users (r.server.users k).pipe_parent i 0 r.server.user_count)
          else [])
  posted-AllIn j k i false at_k s = tt
  posted-AllIn j k i true at_k s =
      AllIn-map
        (λ x.
          (x ≡ i) × (((r.server.users j).pipe_parent == (r.server.users k).pipe_parent) ≡ false))
        (FromOthers h j) _
        (λ x p. (
          λ x_j. another_pipe r.server.users j k (sym x_j ∙ p.0 ∙ at_k) p.1,
          (s.0, ap h.latest p.0 ∙ s.1),
        ))
        (indices_to-broadcast (r.server.users j).pipe_parent (r.server.users k).pipe_parent
          r.server.users i 0 r.server.user_count)

  pub relay-Matches :
      (t : Room) (k i : ℕ) (rest : List ℕ) (rooms : ℕ → Bool)
      → r.to_parent k ≡ i ∷ rest
      → relay r k i rest rooms ≡ some t
      → Matches t h
  unfolding on_message
  relay-Matches t k i rest rooms e f =
      let q : AllIn (FromSelf h k) (i ∷ rest) = subst (AllIn (FromSelf h k)) e (m.up k) in
      subst (λ s. Matches s h) (some-inj f)
        (record {
          ids = m.ids;
          holds = m.holds;
          up = update-all (λ j is. AllIn (FromSelf h j) is) r.to_parent k rest q.1 (λ j o. m.up j);
          down = λ j.
              AllIn-append (FromOthers h j) (r.to_child j) _ (m.down j)
                (posted-AllIn j k i (rooms j) q.0.0 q.0.1);
          same = m.same;
        })
