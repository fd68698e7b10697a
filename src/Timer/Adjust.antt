-- ===== src/Timer/Adjust.antt =====
-- Timer/linklistTimer.h: adjust_timer.
use mathlib.Core.List.{append_assoc}
use mathlib.Core.Path.{subst}
use linux_websocket.Prelude.{
  ℕ, ◌≤◌, ◌<◌, ◌≡◌, ◌∙◌, refl, sym, inl, inr, true, false, some, [], ◌∷◌, ◌++◌, arith, ltb,
  Bool-cases, length,
}
use linux_websocket.Timer.Heap.{
  null, TimerList, Heap, write, Returns, returns, weaken, Holds, not_null, load-ok, load, set_next,
  set_prev, ◌>>=◌,
}
use linux_websocket.Timer.Chain.{
  Cell, Cells, timer_of, first, last, IsDistinct, Linked, SameOutside, Linked-frame, IsList,
  Linked-split, Linked-append, IsDistinct-disjoint, IsDistinct-replace, has-append, first-append,
  last-append, snoc_cases, not_head, tail_of,
}
use linux_websocket.Timer.Insert.{insert, insert_loop-insert, Inserted}
use linux_websocket.Timer.Sorted.{insert-IsDistinct, has-insert}
use linux_websocket.Timer.Unlink.{
  joined, middle, middle-IsDistinct, joined-run, joined-Holds, joined-Linked, joined-same,
}
use linux_websocket.Timer.{insert_loop, add_timer_from, adjust_timer}

-- The list is now `after`, and no object outside `before` has changed.
abbrev pub Adjusted : Heap → Cells → Cells → TimerList → Heap → Type 0
Adjusted h before after l g = IsList g l after × SameOutside before h g

module _ {h : Heap} {l : TimerList} (c : Cell) (fuel : ℕ) where
  adjust_timer-last :
      (xs : Cells)
      → IsList h l (xs ++ c ∷ [])
      → Returns (Adjusted h (xs ++ c ∷ []) (xs ++ c ∷ [])) (adjust_timer fuel c.addr l h)
  unfolding adjust_timer
  adjust_timer-last xs is =
      let here = (Linked-split h null null xs (c ∷ []) is.chain).1.0 in
      rw (not_null here, load-ok here) (returns (is, λ a o. refl))

  adjust_timer-stays :
      (xs : Cells) (y : Cell) (ys : Cells)
      → IsList h l (xs ++ c ∷ y ∷ ys)
      → ltb c.expire y.expire ≡ true
      → Returns (Adjusted h (xs ++ c ∷ y ∷ ys) (xs ++ c ∷ y ∷ ys)) (adjust_timer fuel c.addr l h)
  unfolding adjust_timer
  adjust_timer-stays xs y ys is less =
      let here = (Linked-split h null null xs (c ∷ y ∷ ys) is.chain).1 in
      rw (not_null here.0, load-ok here.0, not_null here.1.0, load-ok here.1.0, less)
        (returns (is, λ a o. refl))

  adjust_timer-head :
      (y : Cell) (ys : Cells)
      → IsList h l (c ∷ y ∷ ys)
      → ltb c.expire y.expire ≡ false
      → length ys < fuel
      → Returns (Adjusted h (c ∷ y ∷ ys) (y ∷ insert c ys)) (adjust_timer fuel c.addr l h)
  unfolding adjust_timer add_timer_from load set_next set_prev write
  adjust_timer-head y ys is more enough = rw run (
      weaken
        (λ l' g i. (
          record {
            chain = i.chain;
            distinct = ground (arith, has-insert y.addr c ys, insert-IsDistinct c ys, is.distinct);
            head = i.head;
            tail = λ _. i.tail (is.tail (λ e. cc));
          },
          λ a o. i.same a (ground arith) ∙ ground arith,
        ))
        (insert_loop-insert c y null null null fuel (record l { head = y.addr }) ys
          (record { valid = is.chain.0.valid; stored = ground arith })
          (
            record { valid = is.chain.1.0.valid; stored = ground (arith, is.distinct.0) },
            Linked-frame y.addr null ys is.chain.1.1 (λ a i. ground (arith, is.distinct)),
          )
          (ground (arith, is.distinct)) enough))
    where
      unlinked : Heap
      unlinked =
          write (write h y.addr (some (timer_of y null (first ys null)))) c.addr
            (some (timer_of c null null))

      run :
          adjust_timer fuel c.addr l h
          ≡ insert_loop fuel c.addr y.addr (first ys null) (record l { head = y.addr }) unlinked
      run = ground (
        arith, is.head, is.chain.0.valid, is.chain.0.stored, is.chain.1.0.valid,
        is.chain.1.0.stored, is.distinct.0,
      )

  module _ (xs : Cells) (z y : Cell) (ys : Cells) (is : IsList h l (xs ++ z ∷ c ∷ y ∷ ys)) where
    adjusted : Heap
    adjusted = joined h xs z y ys

    around : Linked h (last null xs) (z ∷ c ∷ y ∷ ys) null
    around = middle h xs z c y ys is.chain is.distinct

    around-IsDistinct : IsDistinct (z ∷ c ∷ y ∷ ys)
    around-IsDistinct = middle-IsDistinct h xs z c y ys is.chain is.distinct

    rejoined : Linked adjusted (last null xs) (z ∷ y ∷ ys) null
    unfolding adjusted
    rejoined =
        (Linked-split adjusted null null xs (z ∷ y ∷ ys)
          (joined-Linked h xs z c y ys is.chain is.distinct)).1

    taken_out : Holds adjusted c.addr (timer_of c z.addr y.addr)
    unfolding adjusted
    taken_out = joined-Holds h xs z c y ys is.chain is.distinct

    adjust_timer-run :
        ltb c.expire y.expire ≡ false
        → adjust_timer fuel c.addr l h ≡ insert_loop fuel c.addr y.addr (first ys null) l adjusted
    unfolding adjust_timer add_timer_from adjusted
    adjust_timer-run more = rw (
      not_null around.1.0,
      load-ok around.1.0,
      not_null around.1.1.0,
      load-ok around.1.1.0,
      more,
      not_head xs z c (y ∷ ys) is,
      joined-run h xs z c y ys is.chain is.distinct
          (load c.addr >>= λ t. add_timer_from fuel c.addr t.next l),
      load-ok taken_out,
      load-ok rejoined.1.0,
    )

    module _ {l' : TimerList} {g : Heap} (i : Inserted adjusted z.addr c y ys l l' g) where
      -- What stands before the place keeps its links.
      adjusted-Linked : Linked g null (xs ++ z ∷ y ∷ insert c ys) null
      unfolding adjusted
      adjusted-Linked =
          Linked-append g null null xs (z ∷ y ∷ insert c ys)
            (Linked-frame null z.addr xs
              (Linked-split adjusted null null xs (z ∷ y ∷ ys)
                (joined-Linked h xs z c y ys is.chain is.distinct)).0
              (λ a m.
                i.same a (ground (arith, IsDistinct-disjoint a xs (z ∷ c ∷ y ∷ ys) is.distinct m))))
            (
              record {
                valid = around.0.valid;
                stored = i.same z.addr (ground (arith, around-IsDistinct.0)) ∙ rejoined.0.stored;
              },
              i.chain,
            )

      adjusted-IsList : IsList g l' (xs ++ z ∷ y ∷ insert c ys)
      adjusted-IsList = record {
        chain = adjusted-Linked;
        distinct =
            IsDistinct-replace xs (z ∷ c ∷ y ∷ ys) (z ∷ y ∷ insert c ys)
              (λ a o. ground (arith, has-insert a c ys)) is.distinct
              (
                ground (arith, has-insert z.addr c ys, around-IsDistinct.0),
                (
                  ground (arith, has-insert y.addr c ys, around-IsDistinct.1),
                  insert-IsDistinct c ys (ground (arith, around-IsDistinct.1)),
                ),
              );
        head =
            i.head
            ∙ is.head
            ∙ first-append xs (z ∷ c ∷ y ∷ ys) null
            ∙ sym (first-append xs (z ∷ y ∷ insert c ys) null);
        tail = λ _.
            i.tail (tail_of xs z c (y ∷ ys) is) ∙ sym (last-append null xs (z ∷ y ∷ insert c ys));
      }

      adjusted-same : SameOutside (xs ++ z ∷ c ∷ y ∷ ys) h g
      unfolding adjusted
      adjusted-same a o =
          i.same a (ground (arith, has-append a xs (z ∷ c ∷ y ∷ ys)))
          ∙ joined-same h xs z c y ys is.chain is.distinct a o

    adjust_timer-middle :
        ltb c.expire y.expire ≡ false
        → length ys < fuel
        → Returns
            (Adjusted h (xs ++ z ∷ c ∷ y ∷ ys) (xs ++ z ∷ y ∷ insert c ys))
            (adjust_timer fuel c.addr l h)
    adjust_timer-middle more enough = rw (adjust_timer-run more) (
        weaken (λ l' g i. (adjusted-IsList i, adjusted-same i))
          (insert_loop-insert c y z.addr z.addr y.addr fuel l ys taken_out rejoined.1
            (around-IsDistinct.1.0, around-IsDistinct.1.1) enough))

  adjust_timer-moves :
      (xs : Cells) (y : Cell) (ys : Cells)
      → IsList h l (xs ++ c ∷ y ∷ ys)
      → ltb c.expire y.expire ≡ false
      → length ys < fuel
      → Returns
          (Adjusted h (xs ++ c ∷ y ∷ ys) (xs ++ y ∷ insert c ys))
          (adjust_timer fuel c.addr l h)
  adjust_timer-moves xs y ys is more enough = elim (snoc_cases xs) [
    | inl e ↦ subst Goal (sym e) (λ i. adjust_timer-head y ys i more enough) is
    | inr (init, z, e) ↦
        subst Goal (sym e)
          (rw (append_assoc, append_assoc) (λ i. adjust_timer-middle init z y ys i more enough)) is
  ]
    where
      Goal : Cells → Type 0
      Goal ps =
          IsList h l (ps ++ c ∷ y ∷ ys)
          → Returns (Adjusted h (ps ++ c ∷ y ∷ ys) (ps ++ y ∷ insert c ys))
              (adjust_timer fuel c.addr l h)

-- After a change of the expire value of the timer `c` of a well-formed list, adjust_timer ends and
-- moves it behind the timers of the rest of the list that do not end later: what stands before it
-- stays, the rest becomes `insert c ys`, and no object outside the list changes.
pub adjust_timer-insert :
    {h : Heap} {l : TimerList} (c : Cell) (fuel : ℕ) (xs ys : Cells)
    → IsList h l (xs ++ c ∷ ys)
    → length ys ≤ fuel
    → Returns (Adjusted h (xs ++ c ∷ ys) (xs ++ insert c ys)) (adjust_timer fuel c.addr l h)
unfolding insert
adjust_timer-insert c fuel xs [] is enough = adjust_timer-last c fuel xs is
adjust_timer-insert c fuel xs (y ∷ ys) is enough = elim (Bool-cases (ltb c.expire y.expire)) [
  | inl less ↦ rw less (adjust_timer-stays c fuel xs y ys is less)
  | inr more ↦ rw more (adjust_timer-moves c fuel xs y ys is more (omega arith))
]
