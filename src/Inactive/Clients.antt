-- ===== src/Inactive/Clients.antt =====
-- Timer/closeNonactiveConn.cpp: what data from a client, or its end, makes of its timer.
use mathlib.Core.List.{append_assoc}
use mathlib.Core.Path.{subst}
use linux_websocket.Prelude.{
  ℕ, ◌+◌, ◌≤◌, ◌≡◌, ◌∙◌, refl, sym, ap, false, none, some, [], ◌∷◌, ◌++◌, arith, ◌==◌, length,
}
use linux_websocket.Timer.Heap.{null, TimerList, Heap, Returns, not_null, load-ok, write}
use linux_websocket.Timer.Chain.{
  Cell, Cells, timer_of, first, last, Linked, IsDistinct, IsList, Linked-frame, Linked-split,
  Linked-append, IsDistinct-right, IsDistinct-disjoint, IsDistinct-replace, first-append,
  last-append, cons-ne-nil,
}
use linux_websocket.Timer.Insert.{insert}
use linux_websocket.Timer.Sorted.{AllUpTo, IsSorted, insert_latest, append-IsSorted}
use linux_websocket.Timer.Adjust.{Adjusted, adjust_timer-insert}
use linux_websocket.Timer.Delete.{del_timer-Deleted}
use linux_websocket.Inactive.Accepting.{with_timers-Returns}
use linux_websocket.Inactive.{
  Fd, Server, running, deletes_fd, closes, got, cb_func, close_user, extend_timer, on_data,
}

AllUpTo-right : (n : ℕ) (xs ys : Cells) → AllUpTo n (xs ++ ys) → AllUpTo n ys
AllUpTo-right n [] ys a = a
AllUpTo-right n (x ∷ xs) ys a = AllUpTo-right n xs ys a.1

-- A cell with a new time.
abbrev pub until : ℕ → Cell → Cell
until e c = record c { expire = e }

at_end :
    (c : Cell) (e : ℕ) (xs ys : Cells)
    → AllUpTo e (xs ++ ys)
    → xs ++ insert (until e c) ys ≡ (xs ++ ys) ++ until e c ∷ []
at_end c e xs ys early =
    ap (λ r. xs ++ r) (insert_latest (until e c) ys (AllUpTo-right e xs ys early))
    ∙ sym (append_assoc xs ys (until e c ∷ []))

module _ {h : Heap} {l : TimerList} (c : Cell) (e : ℕ) (xs ys : Cells)
    (is : IsList h l (xs ++ c ∷ ys)) where
  here : Linked h (last null xs) (c ∷ ys) null
  here = (Linked-split h null null xs (c ∷ ys) is.chain).1

  here-IsDistinct : IsDistinct (c ∷ ys)
  here-IsDistinct = IsDistinct-right xs (c ∷ ys) is.distinct

  abbrev pub written : Heap
  written = write h c.addr (some (timer_of (until e c) (last null xs) (first ys null)))

  -- A write to the expire field of a timer leaves the list as it is, but for that.
  IsList-until : IsList written l (xs ++ until e c ∷ ys)
  unfolding write
  IsList-until = record {
    chain =
        Linked-append written null null xs (until e c ∷ ys)
          (Linked-frame null c.addr xs (Linked-split h null null xs (c ∷ ys) is.chain).0
            (λ a i. ground (arith, IsDistinct-disjoint a xs (c ∷ ys) is.distinct i)))
          (
            record { valid = here.0.valid; stored = ground arith },
            Linked-frame c.addr null ys here.1 (λ a i. ground (arith, here-IsDistinct.0)),
          );
    distinct =
        IsDistinct-replace xs (c ∷ ys) (until e c ∷ ys) (λ a o. o) is.distinct here-IsDistinct;
    head = is.head ∙ first-append xs (c ∷ ys) null ∙ sym (first-append xs (until e c ∷ ys) null);
    tail = λ _.
        is.tail (cons-ne-nil xs c ys)
        ∙ last-append null xs (c ∷ ys)
        ∙ sym (last-append null xs (until e c ∷ ys));
  }

module _ (fuel : ℕ) (s : Server) (fd : Fd) (c : Cell) (xs ys : Cells)
    (is : IsList s.heap s.timer_lst (xs ++ c ∷ ys)) (own : (s.users fd).timer ≡ c.addr) where
  pub live_timer : ((s.users fd).timer == null) ≡ false
  live_timer = rw own (not_null (here c 0 xs ys is).0)

  pub extend_timer-Adjusted :
      (cur : ℕ)
      → length ys ≤ fuel
      → Returns
          (Adjusted
            (written c (cur + 15) xs ys is)
            (xs ++ until (cur + 15) c ∷ ys)
            (xs ++ insert (until (cur + 15) c) ys))
          (extend_timer fuel cur c.addr s.timer_lst s.heap)
  unfolding extend_timer
  extend_timer-Adjusted cur enough =
      rw (load-ok (here c 0 xs ys is).0, extend_timer)
        (adjust_timer-insert (until (cur + 15) c) fuel xs ys (IsList-until c (cur + 15) xs ys is)
          enough)

  -- Data from a client keeps it alive. Its timer is in a well-formed list, with no more timers
  -- behind it than the fuel, and the others are sorted and none of them ends later than 15 seconds
  -- after the current time: then its timer ends at that time and goes to the end of the list, which
  -- stays well formed and sorted and holds the same other timers. Nothing is closed.
  pub data_extends :
      (cur : ℕ)
      → length ys ≤ fuel
      → IsSorted (xs ++ ys)
      → AllUpTo (cur + 15) (xs ++ ys)
      → (t : Server) × (on_data fuel s fd cur got ≡ running t)
        × IsList t.heap t.timer_lst ((xs ++ ys) ++ until (cur + 15) c ∷ [])
        × IsSorted ((xs ++ ys) ++ until (cur + 15) c ∷ [])
        × (t.log ≡ s.log)
  unfolding on_data
  data_extends cur enough sorted early =
      let (l, h, run, p) = with_timers-Returns s (extend_timer-Adjusted cur enough) in
      (
        record s { timer_lst = l; heap = h },
        rw (live_timer, own) run,
        subst (IsList h l) (at_end c (cur + 15) xs ys early) p.0,
        append-IsSorted (until (cur + 15) c) (xs ++ ys) sorted early,
        refl,
      )

  -- A client that is gone, with its timer in a well-formed list, is closed, and its timer is taken
  -- out of the list and deleted; the list of the other timers stays well formed.
  pub close_user-Deleted :
      (t : Server) × (close_user fuel s fd ≡ running t)
      × IsList t.heap t.timer_lst (xs ++ ys)
      × (t.heap c.addr ≡ none)
      × (t.log
          ≡ s.log
            ++ deletes_fd s.global_epollfd (s.users fd).socket_fd
              ∷ closes (s.users fd).socket_fd
              ∷ [])
  unfolding close_user cb_func
  close_user-Deleted =
      let (l, h, run, p) = with_timers-Returns (cb_func s fd) (del_timer-Deleted c xs ys is) in
      (
        record (cb_func s fd) { timer_lst = l; heap = h },
        rw (live_timer, own) run,
        p.list,
        p.gone,
        refl,
      )
