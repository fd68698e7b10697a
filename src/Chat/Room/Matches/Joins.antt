-- ===== src/Chat/Room/Matches/Joins.antt =====
-- Multiprocessing/multiprocessingChatServer.cpp: a client that joins is one that enters the hall,
-- and one that leaves changes nothing there.
use linux_websocket.Chat.Room.Matches.{Matches, FromSelf, FromOthers, some-inj}
use mathlib.Core.Path.{subst}
use linux_websocket.Prelude.{
  ◌≤◌, ◌<◌, ◌≡◌, ◌∙◌, sym, ◌∷◌, inl, inr, refl, ap, true, false, Option, ◌⊎◌, some, [], ◌==◌,
  if◌then◌else◌, arith,
}
use linux_websocket.Chat.{
  Server, Fd, Arrival, Outcome, running, aborted, out_of_range, child, update, on_connection,
}
use linux_websocket.Chat.Room.Joining.{Kept, Grown, on_connection-users}
use linux_websocket.Chat.Room.{Room, seat, seated, left_by}
use linux_websocket.Chat.Room.Pipes.{AllIn, update-all}
use linux_websocket.Chat.Room.Hall.{Hall, came, Moves, enters, then_move, done}

module _ {r : Room} {h : Hall} (m : Matches r h) (s : Server) where
  Kept-Matches : Kept (record r.server { log = [] }) s → Matches (record r { server = s }) h
  Kept-Matches q = record {
    ids = λ k l. m.ids k (omega (arith, q.count));
    holds = m.holds;
    up = m.up;
    down = m.down;
    same = m.same;
  }

  -- The state with a new child in the next slot.
  Grown-Matches :
      (pair : Option (Fd × Fd)) (epollfd : Fd)
      → Grown (record r.server { log = [] }) s pair
      → (t : Room) → some (seat r epollfd s) ≡ some t
      → Matches t (record h { screen = update h.screen r.server.user_count [] })
  Grown-Matches pair epollfd q t e =
      let n = r.server.user_count in
      let more : (s.user_count == n) ≡ false = ground (arith, q.count) in
      subst (λ t. Matches t (record h { screen = update h.screen n [] })) (some-inj (rw more at e))
        (record {
          ids =
              update-all (λ j c. j < s.user_count → c.idx ≡ j) r.children n _ (λ l. refl)
                (λ j o l. m.ids j (omega (arith, q.count)));
          holds = m.holds;
          up = update-all (λ j is. AllIn (FromSelf h j) is) r.to_parent n [] tt (λ j o. m.up j);
          down =
              update-all (λ j is. AllIn (FromOthers h j) is) r.to_child n [] tt (λ j o. m.down j);
          same = λ k. ap (λ x. if n == k then [] else x) (m.same k);
        })

  seat-Matches :
      (pair : Option (Fd × Fd)) (epollfd : Fd)
      → Kept (record r.server { log = [] }) s ⊎ Grown (record r.server { log = [] }) s pair
      → (t : Room) → some (seat r epollfd s) ≡ some t
      → (g : Hall) × Moves h
          (if t.server.user_count == r.server.user_count then [] else came r.server.user_count ∷ [])
          g
        × Matches t g
  seat-Matches pair epollfd (inl q) t e =
      let as_before : (s.user_count == r.server.user_count) ≡ true = ground (arith, q.count) in
      let to_t : record r { server = s } ≡ t = some-inj (rw as_before at e) in
      let still : (t.server.user_count == r.server.user_count) ≡ true =
        ap (λ t. t.server.user_count == r.server.user_count) (sym to_t) ∙ as_before in
      rw still (h, done, subst (λ t. Matches t h) to_t (Kept-Matches q))
  seat-Matches pair epollfd (inr q) t e =
      let more : (s.user_count == r.server.user_count) ≡ false = ground (arith, q.count) in
      let grown : (t.server.user_count == r.server.user_count) ≡ false =
        ap (λ t. t.server.user_count == r.server.user_count) (sym (some-inj (rw more at e)))
        ∙ more in
      rw grown (
        record h { screen = update h.screen r.server.user_count [] },
        then_move (enters r.server.user_count) done,
        Grown-Matches pair epollfd q t e,
      )

pub seated-Matches :
    {r : Room} {h : Hall} (m : Matches r h) (a : Arrival) (epollfd : Fd) (o : Outcome)
    → on_connection (record r.server { log = [] }) a ≡ o
    → (t : Room) → seated r epollfd o ≡ some t
    → (g : Hall) × Moves h
        (if t.server.user_count == r.server.user_count then [] else came r.server.user_count ∷ [])
        g
      × Matches t g
seated-Matches {r} m a epollfd (running s) f t e =
    seat-Matches m s a.pair epollfd (on_connection-users (record r.server { log = [] }) s a f) t e
seated-Matches m a epollfd aborted f t e = absurd (ground arith)
seated-Matches m a epollfd out_of_range f t e = absurd (ground arith)
seated-Matches m a epollfd (child i s) f t e = absurd (ground arith)

pub left-Matches :
    {r : Room} {h : Hall} (m : Matches r h) (o : Outcome)
    → ((s : Server) → o ≡ running s → s.user_count ≤ r.server.user_count)
    → (t : Room) → left_by r o ≡ some t
    → Matches t h
left-Matches {r} {h} m (running s) fewer t e =
    subst (λ t. Matches t h) (some-inj e)
      (record {
        ids = λ k l. m.ids k (omega (arith, fewer s refl));
        holds = m.holds;
        up = m.up;
        down = m.down;
        same = m.same;
      })
left-Matches m aborted fewer t e = absurd (ground arith)
left-Matches m out_of_range fewer t e = absurd (ground arith)
left-Matches m (child i s) fewer t e = absurd (ground arith)
