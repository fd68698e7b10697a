-- ===== src/Timer/Add.antt =====
-- Timer/linklistTimer.h: the public add_timer.
use mathlib.Core.Path.{subst}
use linux_websocket.Prelude.{
  ℕ, ◌≤◌, ◌<◌, ◌≡◌, ◌∙◌, refl, ◌≢◌, true, false, Option, none, some, [], ◌∷◌, ◌++◌, arith, ltb,
  Bool-cases, length, inl, inr,
}
use linux_websocket.Timer.Heap.{
  null, TimerList, Run, Heap, write, fault, Returns, returns, weaken, Holds, not_null, load-ok,
  set_next, set_prev, load,
}
use linux_websocket.Timer.Chain.{
  Cell, Cells, timer_of, first, has, SameOutside, Linked-frame, IsList,
}
use linux_websocket.Timer.Insert.{insert, insert_loop-insert, added}
use linux_websocket.Timer.Sorted.{
  AllUpTo, IsSorted, insert_latest, append-IsSorted, insert-IsDistinct, has-insert, insert_early,
}
use linux_websocket.Timer.{add_timer_from, add_timer}

-- The list is now `ys`, and no other timer has changed.
abbrev pub Becomes : Heap → Cell → Cells → Cells → TimerList → Heap → Type 0
Becomes h c xs ys l g = IsList g l ys × SameOutside (c ∷ xs) h g

module _ {h : Heap} {l : TimerList} (c : Cell) (fuel : ℕ)
    (new : Holds h c.addr (timer_of c null null)) where
  add_timer-empty : IsList h l [] → Returns (Becomes h c [] (c ∷ [])) (add_timer fuel c.addr l h)
  unfolding add_timer
  add_timer-empty is =
      rw (not_null new, is.head)
        (returns (
          record { chain = (new, tt); distinct = (refl, tt); head = refl; tail = λ _. refl },
          λ a o. refl,
        ))

  add_timer-front :
      (x : Cell) (xs : Cells)
      → IsList h l (x ∷ xs)
      → has c.addr (x ∷ xs) ≡ false
      → ltb c.expire x.expire ≡ true
      → Returns (Becomes h c (x ∷ xs) (c ∷ x ∷ xs)) (add_timer fuel c.addr l h)
  unfolding add_timer set_next set_prev load write
  add_timer-front x xs is out less = rw run (
      returns (
        record {
          chain = (
            ground arith,
            (
              ground arith,
              Linked-frame x.addr null xs is.chain.1 (λ a i. ground (arith, is.distinct)),
            ),
          );
          distinct = (out, is.distinct);
          head = refl;
          tail = λ _. is.tail (λ e. cc);
        },
        λ a o. ground arith,
      ))
    where
      linked : Heap
      linked =
          write (write h c.addr (some (timer_of c null x.addr))) x.addr
            (some (timer_of x c.addr (first xs null)))

      run : add_timer fuel c.addr l h ≡ Run.ok (record l { head = c.addr }) linked
      run = ground (arith, is.head, is.chain.0.stored)

  add_timer-behind :
      (x y : Cell) (ys : Cells)
      → IsList h l (x ∷ y ∷ ys)
      → has c.addr (x ∷ y ∷ ys) ≡ false
      → ltb c.expire x.expire ≡ false
      → length ys < fuel
      → Returns (Becomes h c (x ∷ y ∷ ys) (x ∷ y ∷ insert c ys)) (add_timer fuel c.addr l h)
  unfolding add_timer add_timer_from
  add_timer-behind x y ys is out more enough =
      rw
        (
          not_null new,
          is.head,
          not_null is.chain.0,
          load-ok new,
          load-ok is.chain.0,
          more,
          load-ok is.chain.1.0,
        )
        (weaken
          (λ l' g i. (
            record {
              chain = (ground (arith, i.same x.addr, is.distinct.0, is.chain.0), i.chain);
              distinct =
                  ground
                    (arith, has-insert x.addr c ys, has-insert y.addr c ys, insert-IsDistinct c ys);
              head = i.head;
              tail = λ _. i.tail (is.tail (λ e. cc));
            },
            λ a o. i.same a (ground arith),
          ))
          (insert_loop-insert c y x.addr null null fuel (record l { head = x.addr }) ys new
            is.chain.1 (ground (arith, is.distinct)) enough))

  -- With one timer in the list that does not end later, add_timer reads through a null pointer.
  pub add_timer-fault :
      (x : Cell) → IsList h l (x ∷ []) → x.expire ≤ c.expire → add_timer fuel c.addr l h ≡ fault
  unfolding add_timer add_timer_from load
  add_timer-fault x is late = ground (arith, is.head, is.chain.0.stored, is.chain.0.valid)

-- A fault where no list comes out.
abbrev pub Adds : Heap → Cell → Cells → Option Cells → Run TimerList → Type 0
Adds h c xs none r = r ≡ fault
Adds h c xs (some ys) r = Returns (Becomes h c xs ys) r

-- On a list that is shorter than the fuel, and for a new timer that is not in it, add_timer ends:
-- either it links the timer at the place that `added` gives, keeps the list well formed and changes
-- no other object, or `added` gives no place and it dereferences a null pointer.
pub add_timer-added :
    {h : Heap} {l : TimerList} (c : Cell) (xs : Cells) (fuel : ℕ)
    → Holds h c.addr (timer_of c null null)
    → IsList h l xs
    → has c.addr xs ≡ false
    → length xs < fuel
    → Adds h c xs (added c xs) (add_timer fuel c.addr l h)
unfolding added
add_timer-added c [] fuel new is out enough = add_timer-empty c fuel new is
add_timer-added c (x ∷ []) fuel new is out enough = elim (Bool-cases (ltb c.expire x.expire)) [
  | inl less ↦ rw less (add_timer-front c fuel new x [] is out less)
  | inr more ↦ rw more (add_timer-fault c fuel new x is (ground arith))
]
add_timer-added c (x ∷ y ∷ ys) fuel new is out enough = elim (Bool-cases (ltb c.expire x.expire)) [
  | inl less ↦ rw less (add_timer-front c fuel new x (y ∷ ys) is out less)
  | inr more ↦ rw more (add_timer-behind c fuel new x y ys is out more (omega arith))
]

added_latest :
    (c : Cell) (xs : Cells) → AllUpTo c.expire xs → length xs ≢ 1 → added c xs ≡ some (xs ++ c ∷ [])
unfolding added
added_latest c [] a n = refl
added_latest c (x ∷ []) a n = absurd (n refl)
added_latest c (x ∷ y ∷ ys) a n = ground (arith, insert_latest c ys a.1.1)

-- A new timer that ends no sooner than every timer of a sorted list goes to the end, and the list
-- stays sorted and well formed, unless the list holds exactly one timer.
pub add_timer-IsSorted :
    {h : Heap} {l : TimerList} (c : Cell) (xs : Cells) (fuel : ℕ)
    → Holds h c.addr (timer_of c null null)
    → IsList h l xs
    → has c.addr xs ≡ false
    → length xs < fuel
    → IsSorted xs
    → AllUpTo c.expire xs
    → length xs ≢ 1
    → IsSorted (xs ++ c ∷ []) × Returns (Becomes h c xs (xs ++ c ∷ [])) (add_timer fuel c.addr l h)
add_timer-IsSorted {h} {l} c xs fuel new is out enough s a n = (
  append-IsSorted c xs s a,
  subst (λ o. Adds h c xs o (add_timer fuel c.addr l h)) (added_latest c xs a n)
      (add_timer-added c xs fuel new is out enough),
)

-- A timer that ends between the first two of a list goes behind the second: the list that comes
-- out is not sorted.
pub add_timer_misplaces :
    {h : Heap} {l : TimerList} (c x y : Cell) (ys : Cells) (fuel : ℕ)
    → Holds h c.addr (timer_of c null null)
    → IsList h l (x ∷ y ∷ ys)
    → has c.addr (x ∷ y ∷ ys) ≡ false
    → length ys < fuel
    → x.expire ≤ c.expire
    → c.expire < y.expire
    → Returns
        (λ l' g.
          (zs : Cells) × IsList g l' (x ∷ y ∷ zs)
          × (has c.addr zs ≡ true)
          × ¬ IsSorted (x ∷ y ∷ zs))
        (add_timer fuel c.addr l h)
add_timer_misplaces c x y ys fuel new is out enough low high =
    weaken
      (λ l' g b. (
        insert c ys,
        b.0,
        has-insert c.addr c ys ∙ ground arith,
        λ s. insert_early y.expire c ys high s.1.0,
      ))
      (add_timer-behind c fuel new x y ys is out (ground arith) enough)
