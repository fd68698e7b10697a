-- ===== src/Timer/Delete.antt =====
-- Timer/linklistTimer.h: del_timer.
use mathlib.Core.List.{append_assoc}
use mathlib.Core.Path.{subst}
use linux_websocket.Prelude.{
  ◌≡◌, ◌∙◌, refl, sym, inl, inr, false, none, some, [], ◌∷◌, ◌++◌, arith, ◌==◌,
}
use linux_websocket.Timer.Heap.{
  null, TimerList, Run, Heap, write, Returns, returns, Holds, not_null, load-ok, delete-ok, load,
  set_next, set_prev, delete, pure, ◌>>◌,
}
use linux_websocket.Timer.Chain.{
  Cell, Cells, timer_of, first, last, has, IsDistinct, SameOutside, Linked-frame, IsList,
  Linked-split, Linked-append, IsDistinct-right, IsDistinct-disjoint, IsDistinct-replace,
  has-append, first-append, last-append, last_ne, snoc_cases, not_head, tail_of,
}
use linux_websocket.Timer.Unlink.{
  middle, middle-IsDistinct, joined-run, joined-Holds, joined-Linked, joined-same, joined_out,
}
use linux_websocket.Timer.{del_timer}

-- The list `before` has become `after`, its timer `c` is deleted, and no other object has changed.
pub record Deleted (h : Heap) (c : Cell) (before after : Cells) (l : TimerList) (g : Heap)
    : Type 0 where
  pub list : IsList g l after
  pub gone : g c.addr ≡ none
  pub same : SameOutside before h g

module _ {h : Heap} {l : TimerList} (c : Cell) where
  del_timer-only : IsList h l (c ∷ []) → Returns (Deleted h c (c ∷ []) []) (del_timer c.addr l h)
  unfolding del_timer delete load write
  del_timer-only is = rw run (
      returns (record {
        list = record { chain = tt; distinct = tt; head = refl; tail = λ n. absurd (n refl) };
        gone = ground arith;
        same = λ a o. ground arith;
      }))
    where
      run :
          del_timer c.addr l h ≡ Run.ok (record { head = null; tail = null }) (write h c.addr none)
      run = ground (arith, is.head, is.tail (λ e. cc), is.chain.0.valid, is.chain.0.stored)

  del_timer-head :
      (y : Cell) (ys : Cells)
      → IsList h l (c ∷ y ∷ ys)
      → Returns (Deleted h c (c ∷ y ∷ ys) (y ∷ ys)) (del_timer c.addr l h)
  unfolding del_timer delete load set_prev write
  del_timer-head y ys is = rw run (
      returns (record {
        list = record {
          chain = (
            record { valid = is.chain.1.0.valid; stored = ground (arith, is.distinct.0) },
            Linked-frame y.addr null ys is.chain.1.1 (λ a i. ground (arith, is.distinct)),
          );
          distinct = is.distinct.1;
          head = refl;
          tail = λ _. is.tail (λ e. cc);
        };
        gone = ground arith;
        same = λ a o. ground arith;
      }))
    where
      unlinked : Heap
      unlinked = write (write h y.addr (some (timer_of y null (first ys null)))) c.addr none

      run : del_timer c.addr l h ≡ Run.ok (record l { head = y.addr }) unlinked
      run = ground (
        arith,
        is.head,
        is.tail (λ e. cc),
        last_ne c.addr y ys is.distinct.0,
        is.chain.0.valid,
        is.chain.0.stored,
        is.chain.1.0.valid,
        is.chain.1.0.stored,
        is.distinct.0,
      )

  module _ (xs : Cells) (z : Cell) where
    del_timer-tail :
        IsList h l (xs ++ z ∷ c ∷ [])
        → Returns (Deleted h c (xs ++ z ∷ c ∷ []) (xs ++ z ∷ [])) (del_timer c.addr l h)
    unfolding del_timer delete load set_next write
    del_timer-tail is = rw run (
        returns (record {
          list = record {
            chain =
                Linked-append _ null null xs (z ∷ [])
                  (Linked-frame null z.addr xs (Linked-split h null null xs (z ∷ c ∷ []) is.chain).0
                    (λ a i. ground (arith, IsDistinct-disjoint a xs (z ∷ c ∷ []) is.distinct i)))
                  (record { valid = hz.valid; stored = ground (arith, dz) }, tt);
            distinct =
                IsDistinct-replace xs (z ∷ c ∷ []) (z ∷ []) (λ a o. ground arith) is.distinct
                  (refl, tt);
            head =
                is.head ∙ first-append xs (z ∷ c ∷ []) null ∙ sym (first-append xs (z ∷ []) null);
            tail = λ _. sym (last-append null xs (z ∷ []));
          };
          gone = ground arith;
          same = λ a o. ground (arith, has-append a xs (z ∷ c ∷ []));
        }))
      where
        hz : Holds h z.addr (timer_of z (last null xs) c.addr)
        hz = (Linked-split h null null xs (z ∷ c ∷ []) is.chain).1.0

        hc : Holds h c.addr (timer_of c z.addr null)
        hc = (Linked-split h null null xs (z ∷ c ∷ []) is.chain).1.1.0

        dz : has z.addr (c ∷ []) ≡ false
        dz = (IsDistinct-right xs (z ∷ c ∷ []) is.distinct).0

        unlinked : Heap
        unlinked = write (write h z.addr (some (timer_of z (last null xs) null))) c.addr none

        run : del_timer c.addr l h ≡ Run.ok (record l { tail = z.addr }) unlinked
        run = ground (
          arith,
          not_head xs z c [] is,
          tail_of xs z c [] is,
          hz.valid,
          hz.stored,
          hc.valid,
          hc.stored,
          dz,
        )

    del_timer-middle :
        (y : Cell) (ys : Cells)
        → IsList h l (xs ++ z ∷ c ∷ y ∷ ys)
        → Returns (Deleted h c (xs ++ z ∷ c ∷ y ∷ ys) (xs ++ z ∷ y ∷ ys)) (del_timer c.addr l h)
    unfolding del_timer write
    del_timer-middle y ys is =
        rw
          (
            not_null hc,
            not_head xs z c (y ∷ ys) is,
            not_tail,
            load-ok hc,
            joined-run h xs z c y ys is.chain is.distinct (delete c.addr >> pure l),
            delete-ok (joined-Holds h xs z c y ys is.chain is.distinct),
          )
          (returns (record {
            list = record {
              chain =
                  Linked-frame null null (xs ++ z ∷ y ∷ ys)
                    (joined-Linked h xs z c y ys is.chain is.distinct)
                    (λ a i. ground (arith, joined_out h xs z c y ys is.chain is.distinct));
              distinct =
                  IsDistinct-replace xs (z ∷ c ∷ y ∷ ys) (z ∷ y ∷ ys) (λ a o. ground arith)
                    is.distinct (ground (arith, dm.0), dm.1.1);
              head =
                  is.head
                  ∙ first-append xs (z ∷ c ∷ y ∷ ys) null
                  ∙ sym (first-append xs (z ∷ y ∷ ys) null);
              tail = λ _. tail_of xs z c (y ∷ ys) is ∙ sym (last-append null xs (z ∷ y ∷ ys));
            };
            gone = ground arith;
            same = λ a o. ground (
              arith,
              joined-same h xs z c y ys is.chain is.distinct a o,
              has-append a xs (z ∷ c ∷ y ∷ ys),
            );
          }))
      where
        dm : IsDistinct (z ∷ c ∷ y ∷ ys)
        dm = middle-IsDistinct h xs z c y ys is.chain is.distinct

        not_tail : (c.addr == l.tail) ≡ false
        not_tail = rw (tail_of xs z c (y ∷ ys) is) (last_ne c.addr y ys dm.1.0)

        hc : Holds h c.addr (timer_of c z.addr y.addr)
        hc = (middle h xs z c y ys is.chain is.distinct).1.0

  del_timer-front :
      (ys : Cells) → IsList h l (c ∷ ys) → Returns (Deleted h c (c ∷ ys) ys) (del_timer c.addr l h)
  del_timer-front [] is = del_timer-only is
  del_timer-front (y ∷ ys) is = del_timer-head y ys is

  del_timer-behind :
      (xs : Cells) (z : Cell) (ys : Cells)
      → IsList h l (xs ++ z ∷ c ∷ ys)
      → Returns (Deleted h c (xs ++ z ∷ c ∷ ys) (xs ++ z ∷ ys)) (del_timer c.addr l h)
  del_timer-behind xs z [] is = del_timer-tail xs z is
  del_timer-behind xs z (y ∷ ys) is = del_timer-middle xs z y ys is

-- del_timer takes the timer `c` out of a well-formed list, wherever it stands, deletes it, relinks
-- its neighbours and the two ends, and changes no object outside the list.
pub del_timer-Deleted :
    {h : Heap} {l : TimerList} (c : Cell) (xs ys : Cells)
    → IsList h l (xs ++ c ∷ ys)
    → Returns (Deleted h c (xs ++ c ∷ ys) (xs ++ ys)) (del_timer c.addr l h)
del_timer-Deleted {h} {l} c xs ys is = elim (snoc_cases xs) [
  | inl e ↦ subst Goal (sym e) (del_timer-front c ys) is
  | inr (init, z, e) ↦
      subst Goal (sym e) (rw (append_assoc, append_assoc) (del_timer-behind c init z ys)) is
]
  where
    Goal : Cells → Type 0
    Goal ps =
        IsList h l (ps ++ c ∷ ys)
        → Returns (Deleted h c (ps ++ c ∷ ys) (ps ++ ys)) (del_timer c.addr l h)
