-- ===== src/Timer/Insert.antt =====
-- Timer/linklistTimer.h: the loop of the private add_timer.
use linux_websocket.Prelude.{
  ℕ, zero, suc, ◌<◌, ◌≡◌, refl, inl, inr, true, false, [], ◌∷◌, Option, none, some, arith, ltb,
  Bool-cases, if◌then◌else◌, length,
}
use linux_websocket.Timer.Heap.{
  Ptr, null, TimerList, Run, Heap, write, Returns, returns, weaken, Holds, not_null, load-ok,
  set_next, set_prev, load,
}
use linux_websocket.Timer.Chain.{
  Cell, Cells, timer_of, first, last, IsDistinct, Linked, SameOutside, Linked-frame,
}
use linux_websocket.Timer.{insert_loop}

-- The place that the loop looks for: before the first cell that ends later.
unfoldable pub insert : Cell → Cells → Cells
insert c [] = c ∷ []
insert c (x ∷ xs) = if ltb c.expire x.expire then c ∷ x ∷ xs else x ∷ insert c xs

pub record Inserted (h : Heap) (b : Ptr) (c pc : Cell) (xs : Cells) (l l' : TimerList) (g : Heap)
    : Type 0 where
  pub chain : Linked g b (pc ∷ insert c xs) null
  pub same : SameOutside (c ∷ pc ∷ xs) h g
  pub head : l'.head ≡ l.head
  pub tail : l.tail ≡ last pc.addr xs → l'.tail ≡ last pc.addr (insert c xs)

module _ {h : Heap} (c pc : Cell) (b pv nx : Ptr) (k : ℕ) (l : TimerList)
    (e : Holds h c.addr (timer_of c pv nx)) where
  insert_loop-end :
      Linked h b (pc ∷ []) null
      → IsDistinct (c ∷ pc ∷ [])
      → Returns (Inserted h b c pc [] l) (insert_loop (suc k) c.addr pc.addr null l h)
  unfolding insert_loop insert set_next set_prev load write
  insert_loop-end s d = rw run (
      returns (record {
        chain = ground arith;
        same = λ a i. ground arith;
        head = refl;
        tail = λ _. refl;
      }))
    where
      linked : Heap
      linked =
          write (write h pc.addr (some (timer_of pc b c.addr))) c.addr
            (some (timer_of c pc.addr null))

      run : insert_loop (suc k) c.addr pc.addr null l h ≡ Run.ok (record l { tail = c.addr }) linked
      run = ground arith

  insert_loop-before :
      (x : Cell) (xs : Cells)
      → Linked h b (pc ∷ x ∷ xs) null
      → IsDistinct (c ∷ pc ∷ x ∷ xs)
      → ltb c.expire x.expire ≡ true
      → Returns (Inserted h b c pc (x ∷ xs) l) (insert_loop (suc k) c.addr pc.addr x.addr l h)
  unfolding insert_loop insert set_next set_prev load write
  insert_loop-before x xs s d less = rw run (
      returns (record {
        chain = rw less (ground arith, (ground arith, (ground arith, rest)));
        same = λ a i. ground arith;
        head = refl;
        tail = rw less (λ p. p);
      }))
    where
      linked : Heap
      linked =
          write
            (write (write h c.addr (some (timer_of c pc.addr x.addr))) pc.addr
              (some (timer_of pc b c.addr)))
            x.addr (some (timer_of x c.addr (first xs null)))

      run : insert_loop (suc k) c.addr pc.addr x.addr l h ≡ Run.ok l linked
      run = ground arith

      rest : Linked linked x.addr xs null
      rest = Linked-frame x.addr null xs s.1.1 (λ a i. ground arith)

  insert_loop-after :
      (x : Cell) (xs : Cells)
      → Linked h b (pc ∷ x ∷ xs) null
      → IsDistinct (c ∷ pc ∷ x ∷ xs)
      → ltb c.expire x.expire ≡ false
      → Returns (Inserted h pc.addr c x xs l) (insert_loop k c.addr x.addr (first xs null) l h)
      → Returns (Inserted h b c pc (x ∷ xs) l) (insert_loop (suc k) c.addr pc.addr x.addr l h)
  unfolding insert_loop insert
  insert_loop-after x xs s d more r =
      rw (not_null s.1.0, load-ok e, load-ok s.1.0, more)
        (weaken
          (λ l' g i. record {
            chain = rw more (ground (arith, i.same pc.addr), i.chain);
            same = λ a o. i.same a (ground arith);
            head = i.head;
            tail = rw more i.tail;
          })
          r)

-- From any node of a chain the loop puts the timer where `insert` says, and ends.
pub insert_loop-insert :
    {h : Heap} (c pc : Cell) (b pv nx : Ptr) (k : ℕ) (l : TimerList) (xs : Cells)
    → Holds h c.addr (timer_of c pv nx)
    → Linked h b (pc ∷ xs) null
    → IsDistinct (c ∷ pc ∷ xs)
    → length xs < k
    → Returns (Inserted h b c pc xs l) (insert_loop k c.addr pc.addr (first xs null) l h)
insert_loop-insert c pc b pv nx zero l xs e s d fuel = absurd (omega arith)
insert_loop-insert c pc b pv nx (suc k) l [] e s d fuel = insert_loop-end c pc b pv nx k l e s d
insert_loop-insert c pc b pv nx (suc k) l (x ∷ xs) e s d fuel =
    elim (Bool-cases (ltb c.expire x.expire)) [
      | inl less ↦ insert_loop-before c pc b pv nx k l e x xs s d less
      | inr more ↦
          insert_loop-after c pc b pv nx k l e x xs s d more
            (insert_loop-insert c x pc.addr pv nx k l xs e s.1 (ground arith) (omega arith))
    ]

-- What the public add_timer makes of a list: it compares with the head and then goes on behind
-- the second timer. `none` is a fault.
unfoldable pub added : Cell → Cells → Option Cells
added c [] = some (c ∷ [])
added c (x ∷ []) = if ltb c.expire x.expire then some (c ∷ x ∷ []) else none
added c (x ∷ y ∷ ys) =
    if ltb c.expire x.expire then some (c ∷ x ∷ y ∷ ys) else some (x ∷ y ∷ insert c ys)
